-- ===== src/Tests/Drift.antt =====
-- The report on drift at work: a name that becomes required in a nested object, and a property
-- that is named like a method.
use managed_tool_call_schema.Base.{
  Text, lit, text_beq, ◌==◌, text_eq, text_beq_iff, ◌≡◌, refl, true, false, elem, none, some, [],
  ◌∷◌,
}
use managed_tool_call_schema.Json.{Fields, obj, arr, str, nil, cons, field, end, get, keys, elems}
use managed_tool_call_schema.Json.Number.{is_finite, is_nan, num_lt, num_same}
use managed_tool_call_schema.Json.Stringify.{stringify, quote, is_high_surrogate, is_low_surrogate}
use managed_tool_call_schema.Json.Canonical.{sha256, canonical_json, stable, array_index}
use managed_tool_call_schema.Core.Result.{Thrown, ok, throw}
use managed_tool_call_schema.Core.Pointer.{escape}
use managed_tool_call_schema.Core.Action.Risk.{object_prototype_keys}
use managed_tool_call_schema.Core.Drift.Changes.{
  required_added, breaking, inherited, method, object_or_empty, distinct, strings, texts_in, add,
  is_in, own_or_inherited, printable, same, same_hash, same_members, member,
}
use managed_tool_call_schema.Core.Drift.Constraints.{
  compare_additional, compare_booleans, compare_const, compare_multiple_of, compare_pattern,
  compare_set_constraint, compare_types, is_false, numeric_constraint, type_set,
}
use managed_tool_call_schema.Core.Drift.Compare.{
  object, schema_json, required_set, compare_constraints, compare_head, compare_other, for_each,
  for_each_throwing, properties_added, required_added_in, required_removed_in, other_changes,
  compare, compare_objects, with_properties, properties_in,
}
use managed_tool_call_schema.Core.Drift.Detect.{
  DriftReport, breaking_change, detect_schema_drift, found_changes, is_breaking, is_review,
  or_unclassified, verdict,
}
use managed_tool_call_schema.Core.Drift.Breaking.{At, root, under}
use managed_tool_call_schema.Core.Drift.Report.{
  IsConsistent, detect_schema_drift-IsConsistent, required_added-breaking_change, inherited-throw,
}
use managed_tool_call_schema.Tests.Host.{small_host}

drift_runs : Unit {0}
unfolding add distinct inherited is_in own_or_inherited printable same same_hash same_members
    strings texts_in member object_or_empty compare_constraints compare_head compare_other for_each
    for_each_throwing found_changes is_breaking is_review or_unclassified properties_added
    required_added_in required_removed_in required_set verdict other_changes detect_schema_drift
    compare compare_objects with_properties properties_in schema_json compare_additional
    compare_booleans compare_const compare_multiple_of compare_pattern compare_set_constraint
    compare_types is_false numeric_constraint type_set object_prototype_keys is_finite is_nan num_lt
    num_same stringify quote is_high_surrogate is_low_surrogate elems keys get array_index stable
    canonical_json sha256 escape lit text_beq
drift_runs = tt

abbrev with_property : Text → Fields → Fields
with_property key fs = field (lit "properties") (obj (field key (obj fs) end)) end

abbrev needs_x : Fields
needs_x = field (lit "required") (arr (cons (str (lit "x")) nil)) end

abbrev earlier : Fields
earlier = with_property (lit "a") end

abbrev later : Fields
later = with_property (lit "a") needs_x

abbrev report : DriftReport
report = record {
  changed = true;
  previous_schema_hash = sha256 small_host (schema_json (object earlier));
  current_schema_hash = sha256 small_host (schema_json (object later));
  compatibility = breaking_change;
  changes =
      record {
        path = lit "/a/x";
        kind = required_added;
        compatibility = breaking;
        detail = lit "property became required";
      }
      ∷ [];
}

reported : detect_schema_drift small_host (object earlier) (object later) ≡ ok report
unfolding drift_runs
reported = refl

detect_schema_drift-IsConsistent_example :
    IsConsistent small_host (object earlier) (object later) report
detect_schema_drift-IsConsistent_example =
    detect_schema_drift-IsConsistent small_host (object earlier) (object later) report reported

becomes_required : elem (lit "x") (required_set needs_x) ≡ true
unfolding drift_runs
becomes_required = refl

was_optional : elem (lit "x") (required_set end) ≡ false
unfolding drift_runs
was_optional = refl

At-a : At earlier later end needs_x
unfolding drift_runs
At-a = under (lit "a") _ _ end needs_x refl refl refl refl root

required_added-breaking_change_example : report.compatibility ≡ breaking_change
required_added-breaking_change_example =
    required_added-breaking_change small_host earlier later end needs_x (lit "x") report At-a
      becomes_required was_optional reported refl

abbrev named : Fields
named = with_property (lit "toString") end

abbrev unnamed : Fields
unnamed = field (lit "properties") (obj end) end

is_method : inherited (lit "toString") ≡ method
unfolding drift_runs
is_method = refl

has_properties : get (lit "properties") named ≡ some (obj (field (lit "toString") (obj end) end))
unfolding drift_runs
has_properties = refl

has_method : get (lit "toString") (field (lit "toString") (obj end) end) ≡ some (obj end)
unfolding drift_runs
has_method = refl

is_gone : get (lit "toString") (object_or_empty (get (lit "properties") unnamed)) ≡ none
unfolding drift_runs
is_gone = refl

differ : (sha256 small_host (obj named) == sha256 small_host (obj unnamed)) ≡ false
unfolding drift_runs
differ = refl

inherited-throw_example :
    (t : Thrown) × (detect_schema_drift small_host (object named) (object unnamed) ≡ throw t)
inherited-throw_example =
    inherited-throw small_host named unnamed (field (lit "toString") (obj end) end) (lit "toString")
      (obj end) is_method has_properties has_method is_gone
      (λ e. cc (
        (text_beq_iff (sha256 small_host (obj named)) (sha256 small_host (obj unnamed))).1 e,
        differ,
      ))
