-- ===== src/Tests/Guard.antt =====
-- The engine at work: a call whose one argument is the string of an integer, under a policy.
use managed_tool_call_schema.Base.{
  suc, zero, ◌+◌, lit, length, text_beq, starts_with, ◌≡◌, ◌≢◌, refl, ◌⊎◌, true, false, none, some,
  List, [], ◌∷◌,
}
use managed_tool_call_schema.Json.{
  Json, Fields, null, bool, num, str, arr, obj, end, field, texts, from_elems, elems, entries, keys,
  get,
}
use managed_tool_call_schema.Json.Number.{
  is_finite, is_safe_integer, is_integer, num_lt, num_same, is_nan, double_of, to_count,
}
use managed_tool_call_schema.Json.Stringify.{stringify, quote, is_high_surrogate, is_low_surrogate}
use managed_tool_call_schema.Json.Canonical.{stable, canonical_json, sha256, array_index}
use managed_tool_call_schema.Core.Result.{ok}
use managed_tool_call_schema.Core.Types.{
  GuardDecision, accept, refuse, AcceptedDecision, DecisionStatus, GuardPolicy, PolicyOutcome,
  status_of, status_text, same_status, rule_text, same_rule, schema_check_text, policy_check_text,
  receipt_json,
}
use managed_tool_call_schema.Core.Pointer.{escape, unescape, unescape-escape}
use managed_tool_call_schema.Core.Receipt.{
  repair_receipt_hash, verify_repair_receipt, finalize_receipt, finalize_repair_receipts,
}
use managed_tool_call_schema.Core.Policy.{
  evaluate_policy, policy_reasons, resolved_json, max_repairs_of, denied_paths_of,
}
use managed_tool_call_schema.Core.Policy.HasPath.{
  has_path, pointer_parts, split_slash, step, array_prototype_keys,
}
use managed_tool_call_schema.Core.Action.Risk.{object_prototype_keys}
use managed_tool_call_schema.Core.Policy.Check.{
  policy_validation_error, read_policy, rule_of_text, pointer_ok,
}
use managed_tool_call_schema.Core.Repair.Decimal.{
  decimal_parts, take_digits, is_json_number, is_negative_zero, same_decimal_value,
  decimal_canonical, canonical_of,
}
use managed_tool_call_schema.Core.Repair.Reference.{descend, local_reference}
use managed_tool_call_schema.Core.Repair.Scalar.{
  kind, is_allowed, expects, saved, save_if_allowed, number_repairable, number_repair, scalar,
}
use managed_tool_call_schema.Core.Repair.Scalar.Exact.{IsHonest, number_exact}
use managed_tool_call_schema.Core.Repair.Walk.{
  then_walk, walk_items, walk_fields, walk_children, walk_reference, walk_schema, walk, references,
  default_repairs, apply_repairs,
}
use managed_tool_call_schema.Core.Repair.Walk.Receipts.{apply_repairs-IsHonest}
use managed_tool_call_schema.Core.Limits.{
  SafetyLimits, is_well_formed_unicode, push_all, round, safety_loop, assert_safety, view_json,
  assert_json_safety, safe_pattern, patterns_safe, assert_safe_schema_patterns,
}
use managed_tool_call_schema.Core.Limits.Objects.{Heap, ref, view, plain}
use managed_tool_call_schema.Core.Limits.Bounds.{Within, assert_safety_ends, assert_safety_sound}
use managed_tool_call_schema.Core.Audit.{sort_texts, visit, shape, create_audit_envelope}
use managed_tool_call_schema.Core.Engine.OpenObject.{
  truthy, is_open, schema_maps, schema_values, schema_arrays, first_open_object,
}
use managed_tool_call_schema.Core.Engine.Input.{
  Call, Ajv, AjvError, Request, compile_schema, parse_arguments, prepare_schema, to_issues, join,
  hint_of, message_of, is_resource_limit, allowed_of,
}
use managed_tool_call_schema.Core.Engine.Reject.{reject}
use managed_tool_call_schema.Core.Engine.{
  full_policy, accepted, on_errors, enforce, validate_tool_call,
}
use managed_tool_call_schema.Core.Engine.Enforcement.{IsChecked, accepted-IsChecked}
use managed_tool_call_schema.Core.Engine.Integrity.{accepted_proof_valid}
use managed_tool_call_schema.Core.Engine.PolicyRejection.{
  Rejection, rejection_ok, reject_accepted_decision_by_policy, IsDenial,
  reject_accepted_decision_by_policy-IsDenial,
}
use managed_tool_call_schema.Core.Result.{Result, throw}
use managed_tool_call_schema.Core.Types.{RejectedDecision, policy_denied}
use managed_tool_call_schema.Core.Engine.Narrowed.{Keeps, accepted-Keeps_policy}
use managed_tool_call_schema.Core.Action.Stages.{proof_valid}
use managed_tool_call_schema.Tests.Host.{small_host}

unfoldable pub guard_runs : Unit {0}
unfolding texts from_elems elems entries keys get is_finite is_safe_integer is_integer num_lt
    num_same is_nan double_of to_count stringify quote is_high_surrogate is_low_surrogate stable
    canonical_json sha256 array_index status_of status_text same_status rule_text same_rule
    schema_check_text policy_check_text receipt_json escape unescape repair_receipt_hash
    verify_repair_receipt finalize_receipt finalize_repair_receipts evaluate_policy policy_reasons
    resolved_json max_repairs_of denied_paths_of has_path pointer_parts split_slash step
    array_prototype_keys object_prototype_keys policy_validation_error read_policy rule_of_text
    pointer_ok decimal_parts take_digits is_json_number is_negative_zero same_decimal_value
    decimal_canonical canonical_of descend local_reference kind is_allowed expects saved
    save_if_allowed number_repairable number_repair scalar then_walk walk_items walk_fields
    walk_children walk_reference walk_schema walk references default_repairs apply_repairs
    is_well_formed_unicode push_all round safety_loop assert_safety view_json assert_json_safety
    safe_pattern patterns_safe assert_safe_schema_patterns sort_texts visit shape
    create_audit_envelope truthy is_open schema_maps schema_values schema_arrays first_open_object
    compile_schema parse_arguments prepare_schema to_issues join hint_of message_of
    is_resource_limit allowed_of reject full_policy accepted on_errors enforce validate_tool_call
    lit text_beq starts_with
guard_runs = tt

abbrev integer_schema : Fields
integer_schema = field (lit "type") (str (lit "integer")) end

abbrev pub schema : Json
schema = obj (
    field (lit "type") (str (lit "object")) (
      field (lit "properties") (obj (field (lit "n") (obj integer_schema) end))
        (field (lit "additionalProperties") (bool false) end)))

abbrev pub raw : Json
raw = obj (field (lit "n") (str (lit "7")) end)

abbrev repaired : Json
repaired = obj (field (lit "n") (num (double_of 7)) end)

-- A validator that asks for one member with a number.
abbrev errors_of : Json → List AjvError
errors_of (obj (field k (num n) end)) = []
errors_of v =
    record {
      instance_path = lit "/n";
      keyword = lit "type";
      message = none;
      type_param = lit "integer";
    }
    ∷ []

abbrev pub ajv : Ajv
ajv = record { compile = λ dialect s. ok (λ v. ok (errors_of v)) }

abbrev policy_value : Json
policy_value = obj (
    field (lit "max_repairs") (num (double_of 1)) (
      field (lit "deny_argument_paths") (arr (texts (lit "/secret" ∷ [])))
        (field (lit "require_closed_schema") (bool true) end)))

abbrev policy : GuardPolicy
policy = record {
  allowed_repairs = none;
  max_repairs = some 1;
  deny_argument_paths = some (lit "/secret" ∷ []);
  require_closed_schema = some true;
}

abbrev pub request : Request
request = record {
  tool_name = some (str (lit "t"));
  tool_schema = some schema;
  raw_arguments = some raw;
  policy = some policy_value;
  protocol_version = none;
}

abbrev pub call : Call
call = record { fresh_id = lit "aud_1"; now = lit "now" }

abbrev blank : AcceptedDecision
blank = record {
  repaired = false;
  valid_arguments = null;
  repaired_fields = [];
  policy_result = record { outcome = PolicyOutcome.denied; applied_policy_hash = []; reasons = [] };
  audit_id = [];
  audit = create_audit_envelope small_host [] [] (record {
    tool_name = [];
    schema = null;
    arguments = null;
    validated_arguments = none;
    decision = DecisionStatus.rejected;
    repairs = [];
    policy_hash = [];
    reason_code = none;
  });
}

abbrev accepted_of : GuardDecision → AcceptedDecision
accepted_of (accept d) = d
accepted_of (refuse d) = blank

abbrev decision : AcceptedDecision
decision = accepted_of (validate_tool_call small_host ajv call (some request))

-- The string became a number, with one repair on record.
repaired_call : (decision.valid_arguments ≡ repaired) × (length decision.repaired_fields ≡ 1)
unfolding guard_runs
repaired_call = (refl, refl)

was_accepted : validate_tool_call small_host ajv call (some request) ≡ accept decision
unfolding guard_runs
was_accepted = refl

accepted-IsChecked_example : IsChecked small_host ajv call request decision
accepted-IsChecked_example = accepted-IsChecked small_host ajv call decision request was_accepted

accepted_proof_valid_example : proof_valid small_host decision ≡ true
accepted_proof_valid_example =
    accepted_proof_valid small_host ajv call request decision was_accepted

accepted-Keeps_policy_example : Keeps small_host policy schema decision
unfolding guard_runs
accepted-Keeps_policy_example =
    accepted-Keeps_policy small_host ajv call request decision policy schema refl refl refl

apply_repairs-IsHonest_example :
    IsHonest small_host default_repairs raw (apply_repairs small_host schema raw none)
apply_repairs-IsHonest_example = apply_repairs-IsHonest small_host schema raw none

number_exact_example :
    (is_json_number (lit "7") ≡ true)
    × (is_negative_zero (lit "7") ≡ false)
    × (is_finite (double_of 7) ≡ true)
    × (same_decimal_value (lit "7") (small_host.number_text (double_of 7)) ≡ true)
    × ((expects integer_schema (lit "integer") ≡ true) × (is_safe_integer (double_of 7) ≡ true)
        ⊎ (expects integer_schema (lit "number") ≡ true))
unfolding guard_runs
number_exact_example =
    number_exact small_host default_repairs integer_schema (lit "7") (lit "/n") (double_of 7) refl

-- An object with two members, each an empty array.
abbrev heap : Heap
heap zero = record {
  array_length = none;
  is_plain = true;
  properties = plain (lit "a") (ref 1) ∷ plain (lit "b") (ref 2) ∷ [];
}
heap (suc i) = record { array_length = some 0; is_plain = true; properties = [] }

abbrev few : SafetyLimits
few = record { max_nodes = 5; max_depth = 2 }

assert_safety_ends_example :
    safety_loop small_host (view heap) (lit "x") few (few.max_nodes + 2) ((ref 0, 0) ∷ []) [] 0
    ≢ none
assert_safety_ends_example = assert_safety_ends (view heap) small_host (lit "x") few (ref 0)

assert_safety_sound_example : Within (view heap) small_host (lit "x") few (ref 0) 0
unfolding guard_runs view
assert_safety_sound_example = assert_safety_sound (view heap) small_host (lit "x") few (ref 0) refl

unescape-escape_example : unescape (escape (lit "a/b~1")) ≡ lit "a/b~1"
unescape-escape_example = unescape-escape (lit "a/b~1")

abbrev rejection_input : Rejection
rejection_input = record {
  policy_id = lit "p1";
  policy_reasons = lit "no" ∷ [];
  reason = lit "no";
  repair_hint = [];
}

abbrev refused_of : Result RejectedDecision → RejectedDecision → RejectedDecision
refused_of (ok r) d = r
refused_of (throw e) d = d

abbrev denied : RejectedDecision
denied =
    refused_of (reject_accepted_decision_by_policy small_host decision rejection_input) (record {
      reason_code = policy_denied;
      reason = [];
      repair_hint = [];
      repaired_fields = [];
      policy_result = decision.policy_result;
      audit_id = [];
      audit = decision.audit;
      validation_errors = none;
    })

reject_accepted_decision_by_policy-IsDenial_example : IsDenial small_host decision denied
unfolding guard_runs reject_accepted_decision_by_policy rejection_ok
reject_accepted_decision_by_policy-IsDenial_example =
    reject_accepted_decision_by_policy-IsDenial small_host decision rejection_input denied refl
