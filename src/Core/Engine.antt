-- ===== src/Core/Engine.antt =====
-- packages/core/src/engine.ts: `validateToolCall`.
pub mod OpenObject
pub mod Input
pub mod Reject
pub mod Enforced
pub mod Enforcement
pub mod Integrity
pub mod Narrowed
pub mod PolicyRejection
pub mod Determinism
use managed_tool_call_schema.Base.{
  ℕ, Text, lit, length, ltb, ◌==◌, nat_eq, text_eq, Bool, true, false, not, ◌&&◌, ◌||◌, Option,
  none, some, get_or, List, [], ◌∷◌, ◌++◌, if◌then◌else◌, is_some,
}
use managed_tool_call_schema.Json.{Json, Fields, null, bool, num, str, arr, obj, end}
use managed_tool_call_schema.Json.Host.{Host}
use managed_tool_call_schema.Core.Result.{Result, ok, throw, Thrown, ◌>>=◌, ◌>>◌}
use managed_tool_call_schema.Core.Types.{
  GuardDecision, accept, refuse, AcceptedDecision, GuardPolicy, PolicyResult, PolicyOutcome,
  PolicyCheck, SchemaCheck, PostValidation, RepairRecord, ReasonCode, schema_invalid,
  schema_validation_failed, policy_denied, repair_limit_exceeded, valid, valid_with_repair,
  resource_limit_exceeded, internal_error, arguments_json_invalid, arguments_not_object,
  protocol_version, ValidationIssue, passed, failed,
}
use managed_tool_call_schema.Core.Receipt.{finalize_repair_receipts}
use managed_tool_call_schema.Json.Canonical.{sha256}
use managed_tool_call_schema.Core.Policy.Check.{policy_validation_error, read_policy}
use managed_tool_call_schema.Core.Policy.{evaluate_policy, max_repairs_of}
use managed_tool_call_schema.Core.Repair.Walk.{apply_repairs}
use managed_tool_call_schema.Core.Audit.{create_audit_envelope}
use managed_tool_call_schema.Core.Engine.OpenObject.{first_open_object}
use managed_tool_call_schema.Core.Engine.Input.{
  Call, Ajv, AjvError, Validator, Request, CheckedRequest, allowed_of, message_of,
  is_resource_limit, parse_arguments, prepare_schema, to_issues, hint_of, join,
}
use managed_tool_call_schema.Core.Engine.Reject.{Refusal, plain, reject}

module _ (h : Host) where
  open_path : Option GuardPolicy → Json → Option Text
  open_path none schema = none
  open_path (some p) schema =
      if get_or p.require_closed_schema false then first_open_object h schema (lit "#") else none

  deny_open : PolicyResult → Option Text → PolicyResult
  deny_open result none = result
  deny_open result (some path) = record {
    outcome = PolicyOutcome.denied;
    applied_policy_hash = result.applied_policy_hash;
    reasons =
        result.reasons ++ (lit "policy requires additionalProperties: false at " ++ path) ∷ [];
  }

  -- The evaluation of the policy, and the demand for a closed schema on top of it.
  unfoldable pub full_policy : CheckedRequest → (args : Json) → List RepairRecord → PolicyResult
  unfolding open_path deny_open
  full_policy r args repairs =
      deny_open (evaluate_policy h r.policy args repairs) (open_path r.policy r.tool_schema)

  module _ (c : Call) (r : CheckedRequest) where
    unfoldable pub accepted :
        (repaired : Bool) (args validated : Json) → List RepairRecord → PolicyResult → GuardDecision
    accepted repaired args validated repairs policy =
        let audit = create_audit_envelope h c.fresh_id c.now (record {
          tool_name = r.tool_name;
          schema = r.tool_schema;
          arguments = args;
          validated_arguments = some validated;
          decision = if repaired then valid_with_repair else valid;
          repairs = repairs;
          policy_hash = policy.applied_policy_hash;
          reason_code = none;
        }) in
        accept (record {
          repaired = repaired;
          valid_arguments = validated;
          repaired_fields = repairs;
          policy_result = policy;
          audit_id = audit.audit_id;
          audit = audit;
        })

    -- `if (validate(args))`: the arguments need no repair.
    on_valid : PolicyResult → GuardDecision
    unfolding accepted
    on_valid policy = elim policy.outcome [
      | PolicyOutcome.allowed ↦ accepted false r.args r.args [] policy
      | PolicyOutcome.denied ↦
          reject h c
            (record (plain r policy_denied (join (lit "; ") policy.reasons)
              (lit "remove denied fields or use an approved schema and policy")) {
                policy_result = some policy;
              })
    ]

    limit_code : List RepairRecord → ReasonCode
    limit_code repairs =
        if ltb (max_repairs_of r.policy) (length repairs)
        then repair_limit_exceeded
        else policy_denied

    -- The repaired arguments satisfy the schema.
    on_repaired : (validated : Json) → List RepairRecord → PolicyResult → GuardDecision
    unfolding accepted limit_code
    on_repaired validated repairs policy = elim policy.outcome [
      | PolicyOutcome.allowed ↦
          accepted true r.args validated
            (finalize_repair_receipts h repairs
              (record { schema = passed; policy = PolicyCheck.allowed }))
            policy
      | PolicyOutcome.denied ↦
          reject h c
            (record (plain r (limit_code repairs) (join (lit "; ") policy.reasons)
              (lit "tighten the input or explicitly revise the guard policy")) {
                repairs = repairs;
                policy_result = some policy;
                post_validation = record { schema = passed; policy = PolicyCheck.denied };
              })
    ]

    -- The second run of the validator.
    after_repair : (validated : Json) → List RepairRecord → List AjvError → GuardDecision
    unfolding on_repaired
    after_repair validated repairs [] =
        on_repaired validated repairs (full_policy r validated repairs)
    after_repair validated repairs (e ∷ es) =
        let issues = to_issues (e ∷ es) in
        reject h c
          (record (plain r schema_validation_failed
            (lit "allowlisted repairs were insufficient to satisfy the declared tool schema")
            (hint_of issues)) {
              repairs = repairs;
              validation_errors = some issues;
              post_validation = record { schema = failed; policy = PolicyCheck.not_run };
            })

    no_repair : List AjvError → GuardDecision
    no_repair before =
        let issues = to_issues before in
        reject h c
          (record (plain r schema_validation_failed
            (lit
              "arguments do not satisfy the declared tool schema and no allowlisted repair applies")
            (hint_of issues)) { validation_errors = some issues })

    try_repaired :
        Validator → List AjvError → (value : Json) → List RepairRecord → Result GuardDecision
    unfolding after_repair no_repair
    try_repaired validate before (obj fs) (x ∷ xs) = do
      after ← validate (obj fs)
      ok (after_repair (obj fs) (x ∷ xs) after)
    try_repaired validate before value repairs = ok (no_repair before)

    -- The first run of the validator.
    unfoldable pub on_errors : Validator → List AjvError → Result GuardDecision
    unfolding on_valid try_repaired
    on_errors validate [] = ok (on_valid (full_policy r r.args []))
    on_errors validate (e ∷ es) =
        let (value, repairs) = apply_repairs h r.tool_schema r.args (allowed_of r) in
        try_repaired validate (e ∷ es) value repairs

    unfoldable pub enforce : Validator → Result GuardDecision
    unfolding on_errors
    enforce validate = do errors ← validate r.args; on_errors validate errors

  module _ (ajv : Ajv) (c : Call) where
    -- The outer `catch`: `withoutPolicy`, and the code for an error that nothing else has caught.
    fail_closed : CheckedRequest → Result GuardDecision → GuardDecision
    fail_closed r (ok d) = d
    fail_closed r (throw e) =
        let unpoliced : CheckedRequest = record r { policy = none } in
        reject h c (
          plain unpoliced (if is_resource_limit e then resource_limit_exceeded else internal_error)
            (if is_resource_limit e
              then message_of e
              else lit "the guard failed closed after an internal error")
            (lit "retry safely and report tool fingerprint " ++ sha256 h (str r.tool_name)))

    with_schema : CheckedRequest → Result Validator → GuardDecision
    unfolding fail_closed
    with_schema r (ok validate) = fail_closed r (enforce c r validate)
    with_schema r (throw e) = reject h c (
        plain r (if is_resource_limit e then resource_limit_exceeded else schema_invalid)
          (message_of e) (lit "supply a valid JSON Schema Draft 2020-12 schema"))

    argument_code : (raw : Json) → Thrown → ReasonCode
    argument_code raw (Thrown.resource_limit m) = resource_limit_exceeded
    argument_code (str source) (Thrown.syntax_error m) = arguments_json_invalid
    argument_code raw e = arguments_not_object

    with_arguments : CheckedRequest → (raw : Json) → Result Json → GuardDecision
    unfolding with_schema argument_code
    with_arguments r raw (ok args) =
        let read : CheckedRequest = record r { args = args } in
        with_schema read (prepare_schema h ajv r.tool_schema)
    with_arguments r raw (throw e) = reject h c (
        plain r (argument_code raw e) (message_of e)
          (lit "supply raw_arguments as a JSON object or a JSON string containing an object"))

    with_version : CheckedRequest → (raw : Json) → Option Text → GuardDecision
    unfolding with_arguments
    with_version r raw version =
        let given = get_or version [] in
        if length given == 0 || given == protocol_version
        then with_arguments r raw (parse_arguments h raw)
        else reject h c (
            plain r schema_invalid (lit "unsupported protocol version " ++ given)
              (lit "use protocol_version " ++ protocol_version))

    with_policy : CheckedRequest → (raw : Json) → Request → Option Text → GuardDecision
    unfolding with_version
    with_policy r raw q none =
        let policed : CheckedRequest = record r { policy = read_policy q.policy } in
        with_version policed raw q.protocol_version
    with_policy r raw q (some error) =
        reject h c (plain r schema_invalid error (lit "supply a valid guard policy"))

    -- A request whose name and whose two values are there.
    with_values : (name : Text) (schema raw : Json) → Request → GuardDecision
    unfolding with_policy
    with_values name schema raw q =
        let r : CheckedRequest = record {
          tool_name = name;
          tool_schema = schema;
          args = obj end;
          policy = none;
        } in
        with_policy r raw q (policy_validation_error q.policy)

    name_of : Option Json → Option Text
    name_of (some (str t)) = some t
    name_of other = none

    name_fits : Text → Bool
    name_fits t = ltb 0 (length t) && not (ltb 256 (length t))

    incomplete : Request → GuardDecision
    unfolding name_of
    incomplete q =
        let r : CheckedRequest = record {
          tool_name = get_or (name_of q.tool_name) (lit "<invalid>");
          tool_schema = get_or q.tool_schema (obj end);
          args = obj end;
          policy = none;
        } in
        reject h c (
          plain r schema_invalid
            (lit "request must contain a non-empty tool_name, tool_schema, and raw_arguments")
            (lit "conform the request to protocol/v1/validate-request.schema.json"))

    with_request : Request → Option Text → Option Json → Option Json → GuardDecision
    unfolding with_values incomplete name_fits
    with_request q (some name) (some schema) (some raw) =
        if name_fits name then with_values name schema raw q else incomplete q
    with_request q name schema raw = incomplete q

    -- `none` is a request that is null, an array or no object.
    unfoldable pub validate_tool_call : Option Request → GuardDecision
    unfolding with_request name_of
    validate_tool_call none =
        let r : CheckedRequest = record {
          tool_name = lit "<invalid>";
          tool_schema = obj end;
          args = obj end;
          policy = none;
        } in
        reject h c (
          plain r schema_invalid (lit "validation request must be an object")
            (lit "conform the request to protocol/v1/validate-request.schema.json"))
    validate_tool_call (some q) = with_request q (name_of q.tool_name) q.tool_schema q.raw_arguments
