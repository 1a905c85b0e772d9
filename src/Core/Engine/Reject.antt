-- ===== src/Core/Engine/Reject.antt =====
-- packages/core/src/engine.ts: `reject`, the one way in which `validateToolCall` refuses.
use managed_tool_call_schema.Base.{Text, lit, Option, none, some, get_or, List, []}
use managed_tool_call_schema.Json.{Json, obj, end}
use managed_tool_call_schema.Json.Host.{Host}
use managed_tool_call_schema.Core.Result.{Result, ok, throw}
use managed_tool_call_schema.Core.Types.{
  GuardDecision, refuse, GuardPolicy, PolicyResult, PostValidation, PolicyCheck, SchemaCheck,
  RepairRecord, ReasonCode, ValidationIssue, rejected,
}
use managed_tool_call_schema.Core.Receipt.{finalize_repair_receipts}
use managed_tool_call_schema.Core.Policy.{evaluate_policy}
use managed_tool_call_schema.Core.Limits.{assert_json_safety}
use managed_tool_call_schema.Core.Audit.{create_audit_envelope}
use managed_tool_call_schema.Core.Engine.Input.{Call, CheckedRequest}

-- The input of `reject`, with what it reads of the request.
pub record Refusal : Type 0 where
  pub tool_name : Text
  pub tool_schema : Json
  pub policy : Option GuardPolicy
  pub args : Json
  pub reason_code : ReasonCode
  pub reason : Text
  pub hint : Text
  pub repairs : List RepairRecord
  pub validation_errors : Option (List ValidationIssue)
  pub policy_result : Option PolicyResult
  pub post_validation : PostValidation

-- A refusal with no repair, no validation errors and no policy result of its own.
unfoldable pub plain : CheckedRequest → ReasonCode → (reason hint : Text) → Refusal
plain r code reason hint = record {
  tool_name = r.tool_name;
  tool_schema = r.tool_schema;
  policy = r.policy;
  args = r.args;
  reason_code = code;
  reason = reason;
  hint = hint;
  repairs = [];
  validation_errors = none;
  policy_result = none;
  post_validation = record { schema = SchemaCheck.not_run; policy = PolicyCheck.not_run };
}

or_empty : Json → Result (Unit {0}) → Json
or_empty value (ok u) = value
or_empty value (throw e) = obj end

unfoldable pub reject : Host → Call → Refusal → GuardDecision
unfolding or_empty
reject h c i =
    let policy = get_or i.policy_result (evaluate_policy h i.policy i.args i.repairs) in
    let repairs = finalize_repair_receipts h i.repairs i.post_validation in
    let audit = create_audit_envelope h c.fresh_id c.now (record {
      tool_name = i.tool_name;
      schema = or_empty i.tool_schema (assert_json_safety h i.tool_schema (lit "audit schema"));
      arguments = or_empty i.args (assert_json_safety h i.args (lit "audit arguments"));
      validated_arguments = none;
      decision = rejected;
      repairs = repairs;
      policy_hash = policy.applied_policy_hash;
      reason_code = some i.reason_code;
    }) in
    refuse (record {
      reason_code = i.reason_code;
      reason = i.reason;
      repair_hint = i.hint;
      repaired_fields = repairs;
      policy_result = policy;
      audit_id = audit.audit_id;
      audit = audit;
      validation_errors = i.validation_errors;
    })
