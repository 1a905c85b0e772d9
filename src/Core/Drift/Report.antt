-- ===== src/Core/Drift/Report.antt =====
-- packages/core/src/drift.ts: what the report of `detectSchemaDrift` says of its changes.
use mathlib.Core.Path.{subst}
use managed_tool_call_schema.Base.{
  Text, lit, ◌==◌, text_eq, text_beq_iff, ◌≡◌, ◌≢◌, ◌↔◌, ◌∙◌, refl, sym, ap, Bool, true, false, not,
  any, elem, Bool-cases, inl, inr, none, some, List, [], ◌∷◌, arith,
}
use managed_tool_call_schema.Json.{Json, Fields, null, bool, num, str, arr, obj, get}
use managed_tool_call_schema.Json.Host.{Host}
use managed_tool_call_schema.Json.Canonical.{sha256}
use managed_tool_call_schema.Core.Result.{Result, ok, throw, Thrown, >>=-eq-ok, ◌>>=◌}
use managed_tool_call_schema.Core.Drift.Changes.{
  DriftChange, add, object_or_empty, method, member, own_or_inherited, inherited, same_members,
}
use managed_tool_call_schema.Core.Drift.Compare.{
  AnySchema, object, schema_json, compare, compare_objects, compare_property, compare_other,
  required_set, child, declared_in,
}
use managed_tool_call_schema.Core.Drift.Detect.{
  DriftReport, identical, breaking_change, needs_review, is_breaking, is_review, verdict,
  or_unclassified, found_changes, detect_schema_drift,
}
use managed_tool_call_schema.Core.Drift.Breaking.{
  At, required_added-At, compare_objects-parts, properties_in-get, declared-Compared,
}

or_unclassified-breaking :
    (cs : List DriftChange)
    → any is_breaking cs ≡ true
    → any is_breaking (or_unclassified cs) ≡ true
unfolding or_unclassified
or_unclassified-breaking [] e = cc e
or_unclassified-breaking (c ∷ cs) e = e

or_unclassified-some : (cs : List DriftChange) → or_unclassified cs ≢ []
unfolding or_unclassified add
or_unclassified-some [] e = cc e
or_unclassified-some (c ∷ cs) e = cc e

module _ (h : Host) (previous current : AnySchema) where
  -- The report agrees with itself and with the hashes of the two schemas.
  pub record IsConsistent (r : DriftReport) : Type 0 where
    pub previous_hashed : r.previous_schema_hash ≡ sha256 h (schema_json previous)
    pub current_hashed : r.current_schema_hash ≡ sha256 h (schema_json current)
    pub changed_iff : (r.changed ≡ false) ↔ (r.previous_schema_hash ≡ r.current_schema_hash)
    pub identical_iff : (r.compatibility ≡ identical) ↔ (r.changes ≡ [])
    pub unchanged_iff : (r.compatibility ≡ identical) ↔ (r.changed ≡ false)
    pub breaking_iff : (r.compatibility ≡ breaking_change) ↔ (any is_breaking r.changes ≡ true)
    pub review_iff :
        (r.compatibility ≡ needs_review)
        ↔ ((any is_breaking r.changes ≡ false) × (any is_review r.changes ≡ true))

  report_of : Bool → List DriftChange → DriftReport
  report_of unchanged changes = record {
    changed = not unchanged;
    previous_schema_hash = sha256 h (schema_json previous);
    current_schema_hash = sha256 h (schema_json current);
    compatibility = verdict unchanged changes;
    changes = changes;
  }

  same_hash-IsConsistent :
      sha256 h (schema_json previous) ≡ sha256 h (schema_json current)
      → IsConsistent (report_of true [])
  unfolding report_of verdict
  same_hash-IsConsistent e = record {
    previous_hashed = refl;
    current_hashed = refl;
    changed_iff = ((λ x. e), λ x. refl);
    identical_iff = ((λ x. refl), λ x. refl);
    unchanged_iff = ((λ x. refl), λ x. refl);
    breaking_iff = ((λ x. cc x), λ x. cc x);
    review_iff = ((λ x. cc x), λ (x, y). cc y);
  }

  other_hash-IsConsistent :
      (cs : List DriftChange)
      → sha256 h (schema_json previous) ≢ sha256 h (schema_json current)
      → cs ≢ []
      → IsConsistent (report_of false cs)
  unfolding report_of verdict
  other_hash-IsConsistent cs n some_cs = record {
    previous_hashed = refl;
    current_hashed = refl;
    changed_iff = ((λ x. cc x), λ x. absurd (n x));
    identical_iff = ((λ x. ground arith), λ x. absurd (some_cs x));
    unchanged_iff = ((λ x. ground arith), λ x. cc x);
    breaking_iff = ((λ x. ground arith), λ x. ground arith);
    review_iff = ((λ x. (ground arith, ground arith)), λ (x, y). ground arith);
  }

  -- Every report agrees with itself and with the hashes of the two schemas.
  pub detect_schema_drift-IsConsistent :
      (r : DriftReport) → detect_schema_drift h previous current ≡ ok r → IsConsistent r
  unfolding detect_schema_drift found_changes report_of
  detect_schema_drift-IsConsistent r e =
      let before = sha256 h (schema_json previous) in
      let after = sha256 h (schema_json current) in
      elim (Bool-cases (before == after)) [
        | inl same ↦
            let is_r : report_of true [] ≡ r = cc (rw same at e) in
            subst IsConsistent is_r (same_hash-IsConsistent ((text_beq_iff before after).0 same))
        | inr other ↦
            let (cs, found, rest) =
              >>=-eq-ok (compare h previous current [] >>= λ cs. ok (or_unclassified cs)) _
                (rw other at e) in
            let (ds, compared, is_cs) = >>=-eq-ok (compare h previous current []) _ found in
            let is_r : report_of false cs ≡ r = cc rest in
            let listed : or_unclassified ds ≡ cs = cc is_cs in
            subst IsConsistent is_r (
              other_hash-IsConsistent cs (λ q. cc ((text_beq_iff before after).1 q, other))
                (λ q. or_unclassified-some ds (listed ∙ q)))
      ]

module _ (h : Host) (fs gs : Fields) where
  -- The changes of a report that says that there are some.
  changed-compared :
      (r : DriftReport)
      → detect_schema_drift h (object fs) (object gs) ≡ ok r
      → r.changed ≡ true
      → (cs : List DriftChange) × (compare_objects h fs gs [] ≡ ok cs)
        × (r.changes ≡ or_unclassified cs)
  unfolding detect_schema_drift found_changes compare
  changed-compared r e changed =
      let before = sha256 h (schema_json (object fs)) in
      let after = sha256 h (schema_json (object gs)) in
      elim (Bool-cases (before == after)) [
        | inl same ↦
            let unchanged : r.changed ≡ false =
              ap (λ (x : Result DriftReport). changed_of x) (sym (rw same at e)) in
            cc (changed, unchanged)
        | inr other ↦
            let (cs, found, rest) =
              >>=-eq-ok (compare_objects h fs gs [] >>= λ cs. ok (or_unclassified cs)) _
                (rw other at e) in
            let (ds, compared, is_cs) = >>=-eq-ok (compare_objects h fs gs []) _ found in
            let listed : cs ≡ r.changes = ap changes_of rest in (ds, compared, cc (is_cs, listed))
      ]
    where
      changed_of : Result DriftReport → Bool
      changed_of (ok x) = x.changed
      changed_of (throw x) = false

      changes_of : Result DriftReport → List DriftChange
      changes_of (ok x) = x.changes
      changes_of (throw x) = []

  -- Where a name becomes required, at any depth of properties that both schemas have, a report that
  -- says that the schemas differ says that the change is a breaking one.
  pub required_added-breaking_change :
      (ls rs : Fields) (key : Text) (r : DriftReport)
      → At fs gs ls rs
      → elem key (required_set rs) ≡ true
      → elem key (required_set ls) ≡ false
      → detect_schema_drift h (object fs) (object gs) ≡ ok r
      → r.changed ≡ true
      → r.compatibility ≡ breaking_change
  required_added-breaking_change ls rs key r at_path is_new was_not e changed =
      let (cs, compared, listed) = changed-compared r e changed in
      let found =
        or_unclassified-breaking cs
          (required_added-At h key [] cs at_path is_new was_not compared) in
      (detect_schema_drift-IsConsistent h (object fs) (object gs) r e).breaking_iff.1
        (cc (found, ap (any is_breaking) listed))

  method_throws :
      (left : Json) (path : Text) (cs : List DriftChange)
      → compare_property h left method fs path ≢ ok cs
  unfolding compare_property compare_other same_members
  method_throws null path cs e = cc e
  method_throws (bool b) path cs e = cc e
  method_throws (num n) path cs e = cc e
  method_throws (str s) path cs e = cc e
  method_throws (arr vs) path cs e = cc e
  method_throws (obj ps) path cs e = cc e

  never_compared :
      (ps : Fields) (key : Text) (left : Json) (cs : List DriftChange)
      → inherited key ≡ method
      → get (lit "properties") fs ≡ some (obj ps)
      → get key ps ≡ some left
      → get key (object_or_empty (get (lit "properties") gs)) ≡ none
      → compare_objects h fs gs [] ≢ ok cs
  unfolding member own_or_inherited declared_in
  never_compared ps key left cs i p k gone e =
      let (ds, first, head, kept) = compare_objects-parts h fs gs [] cs e in
      let walked = rw (properties_in-get h fs fs gs [] (obj ps) p) at first in
      let (es, compared, below) = declared-Compared h ps fs gs [] key left ds k walked in
      method_throws left (child [] key) es (rw (gone, i) at compared)

  -- When the later schema no longer has a property whose name is that of a method of
  -- `Object.prototype`, there is no report: if the hashes differ, the comparison throws.
  pub inherited-throw :
      (ps : Fields) (key : Text) (left : Json)
      → inherited key ≡ method
      → get (lit "properties") fs ≡ some (obj ps)
      → get key ps ≡ some left
      → get key (object_or_empty (get (lit "properties") gs)) ≡ none
      → sha256 h (obj fs) ≢ sha256 h (obj gs)
      → (t : Thrown) × (detect_schema_drift h (object fs) (object gs) ≡ throw t)
  unfolding schema_json
  inherited-throw ps key left i p k gone n = go (detect_schema_drift h (object fs) (object gs)) refl
    where
      go :
          (o : Result DriftReport)
          → detect_schema_drift h (object fs) (object gs) ≡ o
          → (t : Thrown) × (o ≡ throw t)
      go (throw t) e = (t, refl)
      go (ok r) e = elim (Bool-cases r.changed) [
        | inl changed ↦
            let (cs, compared, listed) = changed-compared r e changed in
            absurd (never_compared ps key left cs i p k gone compared)
        | inr unchanged ↦
            let c = detect_schema_drift-IsConsistent h (object fs) (object gs) r e in
            absurd (n (sym c.previous_hashed ∙ c.changed_iff.0 unchanged ∙ c.current_hashed))
      ]
