-- ===== src/Core/Types.antt =====
-- packages/core/src/types.ts: the protocol's data.
use managed_tool_call_schema.Base.{ℕ, Text, lit, Bool, true, false, Option, List, map}
use managed_tool_call_schema.Json.{Json, str, arr, obj, field, end, texts, from_elems}

abbrev pub protocol_version : Text
protocol_version = lit "2026-07-20"

abbrev pub engine_version : Text
engine_version = lit "0.2.0"

abbrev pub ruleset_version : Text
ruleset_version = lit "oss-2026-07-18.1"

pub data DecisionStatus : Type 0 where
  valid valid_with_repair rejected : DecisionStatus

pub data ReasonCode : Type 0 where
  arguments_not_object arguments_json_invalid schema_invalid schema_validation_failed : ReasonCode
  resource_limit_exceeded repair_limit_exceeded policy_denied internal_error : ReasonCode

pub data RepairRuleId : Type 0 where
  string_to_number string_to_integer string_to_boolean singleton_to_array : RepairRuleId

unfoldable pub rule_text : RepairRuleId → Text
rule_text string_to_number = lit "coerce.string_to_number"
rule_text string_to_integer = lit "coerce.string_to_integer"
rule_text string_to_boolean = lit "coerce.string_to_boolean"
rule_text singleton_to_array = lit "coerce.singleton_to_array"

unfoldable pub same_rule : RepairRuleId → RepairRuleId → Bool
same_rule string_to_number string_to_number = true
same_rule string_to_integer string_to_integer = true
same_rule string_to_boolean string_to_boolean = true
same_rule singleton_to_array singleton_to_array = true
same_rule _ _ = false

-- `post_validation` of a repair
pub data SchemaCheck : Type 0 where
  passed failed not_run : SchemaCheck

pub data PolicyCheck : Type 0 where
  allowed denied not_run : PolicyCheck

pub record PostValidation : Type 0 where
  pub schema : SchemaCheck
  pub policy : PolicyCheck

-- The ruleset's version and the `passed` of each check are constants.
pub record RepairRecord : Type 0 where
  pub path : Text
  pub rule_id : RepairRuleId
  pub from_type : Text
  pub to_type : Text
  pub original_value_hash : Text
  pub output_value_hash : Text
  pub schema_fragment_hash : Text
  pub matched_preconditions : List Text
  pub ambiguity_checks : List Text
  pub post_validation : PostValidation
  pub receipt_hash : Text
  pub explanation : Text

pub record GuardPolicy : Type 0 where
  pub allowed_repairs : Option (List RepairRuleId)
  pub max_repairs : Option ℕ
  pub deny_argument_paths : Option (List Text)
  pub require_closed_schema : Option Bool

pub data PolicyOutcome : Type 0 where
  allowed denied : PolicyOutcome

pub record PolicyResult : Type 0 where
  pub outcome : PolicyOutcome
  pub applied_policy_hash : Text
  pub reasons : List Text

pub record ValidationIssue : Type 0 where
  pub path : Text
  pub keyword : Text
  pub message : Text
  pub expected : Option Text

-- The three versions of an envelope are constants.
pub record AuditEnvelope : Type 0 where
  pub audit_id : Text
  pub timestamp : Text
  pub tool_name_hash : Text
  pub schema_hash : Text
  pub arguments_hash : Text
  pub validated_arguments_hash : Option Text
  pub argument_shape : List Text
  pub decision : DecisionStatus
  pub reason_code : Option ReasonCode
  pub repair_rule_ids : List RepairRuleId
  pub repair_receipt_hashes : List Text
  pub policy_hash : Text

-- `repaired` says which of the two accepting statuses the decision has.
pub record AcceptedDecision : Type 0 where
  pub repaired : Bool
  pub valid_arguments : Json
  pub repaired_fields : List RepairRecord
  pub policy_result : PolicyResult
  pub audit_id : Text
  pub audit : AuditEnvelope

pub record RejectedDecision : Type 0 where
  pub reason_code : ReasonCode
  pub reason : Text
  pub repair_hint : Text
  pub repaired_fields : List RepairRecord
  pub policy_result : PolicyResult
  pub audit_id : Text
  pub audit : AuditEnvelope
  pub validation_errors : Option (List ValidationIssue)

pub data GuardDecision : Type 0 where
  accept : AcceptedDecision → GuardDecision
  refuse : RejectedDecision → GuardDecision

unfoldable pub status_of : AcceptedDecision → DecisionStatus
status_of d = elim d.repaired [ true ↦ valid_with_repair | false ↦ valid ]

unfoldable pub status_text : DecisionStatus → Text
status_text valid = lit "valid"
status_text valid_with_repair = lit "valid_with_repair"
status_text rejected = lit "rejected"

unfoldable pub same_status : DecisionStatus → DecisionStatus → Bool
same_status valid valid = true
same_status valid_with_repair valid_with_repair = true
same_status rejected rejected = true
same_status _ _ = false

unfoldable pub schema_check_text : SchemaCheck → Text
schema_check_text passed = lit "passed"
schema_check_text failed = lit "failed"
schema_check_text SchemaCheck.not_run = lit "not_run"

unfoldable pub policy_check_text : PolicyCheck → Text
policy_check_text PolicyCheck.allowed = lit "allowed"
policy_check_text PolicyCheck.denied = lit "denied"
policy_check_text PolicyCheck.not_run = lit "not_run"

check_json : Text → Json
check_json check =
    obj (field (lit "check") (str check) (field (lit "result") (str (lit "passed")) end))

-- A receipt as the JSON value that is hashed: every field but its own hash.
unfoldable pub receipt_json : RepairRecord → Json
unfolding check_json
receipt_json r = obj (
    field (lit "path") (str r.path) (
      field (lit "rule_id") (str (rule_text r.rule_id)) (
        field (lit "ruleset_version") (str ruleset_version) (
          field (lit "from_type") (str r.from_type) (
            field (lit "to_type") (str r.to_type) (
              field (lit "original_value_hash") (str r.original_value_hash) (
                field (lit "output_value_hash") (str r.output_value_hash) (
                  field (lit "schema_fragment_hash") (str r.schema_fragment_hash) (
                    field (lit "matched_preconditions") (arr (texts r.matched_preconditions)) (
                      field (lit "ambiguity_checks")
                        (arr (from_elems (map check_json r.ambiguity_checks)))
                        (field (lit "post_validation")
                          (obj (
                            field (lit "schema") (str (schema_check_text r.post_validation.schema))
                              (field (lit "policy")
                                (str (policy_check_text r.post_validation.policy)) end)))
                          (field (lit "explanation") (str r.explanation) end))))))))))))
