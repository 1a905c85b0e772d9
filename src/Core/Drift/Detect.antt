-- ===== src/Core/Drift/Detect.antt =====
-- packages/core/src/drift.ts: `detectSchemaDrift`.
use managed_tool_call_schema.Base.{
  Text, lit, ◌==◌, text_eq, Bool, true, false, not, any, List, [], ◌∷◌, if◌then◌else◌,
}
use managed_tool_call_schema.Json.Host.{Host}
use managed_tool_call_schema.Json.Canonical.{sha256}
use managed_tool_call_schema.Core.Result.{Result, ok, ◌>>=◌}
use managed_tool_call_schema.Core.Drift.Changes.{
  unclassified_change, breaking, non_breaking, review, DriftChange, add,
}
use managed_tool_call_schema.Core.Drift.Compare.{AnySchema, schema_json, compare}

pub data Verdict : Type 0 where
  identical backward_compatible breaking_change needs_review : Verdict

pub record DriftReport : Type 0 where
  pub changed : Bool
  pub previous_schema_hash : Text
  pub current_schema_hash : Text
  pub compatibility : Verdict
  pub changes : List DriftChange

unfoldable pub is_breaking : DriftChange → Bool
is_breaking c = elim c.compatibility [ breaking ↦ true | non_breaking ↦ false | review ↦ false ]

unfoldable pub is_review : DriftChange → Bool
is_review c = elim c.compatibility [ breaking ↦ false | non_breaking ↦ false | review ↦ true ]

-- The changes where the hashes are not the same.
unfoldable pub or_unclassified : List DriftChange → List DriftChange
or_unclassified [] =
    add [] unclassified_change review
      (lit "schema changed in a way that requires compatibility review")
or_unclassified (c ∷ cs) = c ∷ cs

unfoldable pub verdict : (unchanged : Bool) → List DriftChange → Verdict
unfolding is_breaking is_review
verdict unchanged changes =
    if unchanged
    then identical
    else if any is_breaking changes
    then breaking_change
    else if any is_review changes
    then needs_review
    else backward_compatible

module _ (h : Host) where
  unfoldable pub found_changes :
      (unchanged : Bool) → AnySchema → AnySchema → Result (List DriftChange)
  unfolding or_unclassified
  found_changes true previous current = ok []
  found_changes false previous current = do
    cs ← compare h previous current []
    ok (or_unclassified cs)

  -- `detectSchemaDrift`
  unfoldable pub detect_schema_drift : AnySchema → AnySchema → Result DriftReport
  unfolding found_changes
  detect_schema_drift previous current =
      let previous_hash = sha256 h (schema_json previous) in
      let current_hash = sha256 h (schema_json current) in
      let unchanged = previous_hash == current_hash in
      do
        changes ← found_changes unchanged previous current
        ok (record {
          changed = not unchanged;
          previous_schema_hash = previous_hash;
          current_schema_hash = current_hash;
          compatibility = verdict unchanged changes;
          changes = changes;
        })
