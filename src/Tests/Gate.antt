-- ===== src/Tests/Gate.antt =====
-- The action gate at work: a reversible action of low risk under a new key, an approved action of
-- high risk, and a risk level that only the prototype has.
use managed_tool_call_schema.Base.{
  ℕ, length, ◌≤◌, Text, lit, text_beq, starts_with, ◌≡◌, ◌≢◌, refl, ◌↔◌, true, false, none, some,
  [], ◌∷◌, ◌++◌,
}
use managed_tool_call_schema.Json.{obj, str, end, texts}
use managed_tool_call_schema.Json.Stringify.{stringify, quote}
use managed_tool_call_schema.Json.Canonical.{stable, canonical_json, sha256, array_index}
use managed_tool_call_schema.Core.Result.{Result, ok, throw}
use managed_tool_call_schema.Core.Types.{
  accept, AcceptedDecision, PolicyOutcome, valid, status_of, status_text, same_status, rule_text,
}
use managed_tool_call_schema.Core.Assoc.{lookup, insert}
use managed_tool_call_schema.Core.Ledger.{Entries, reserve, in_memory}
use managed_tool_call_schema.Core.Ledger.Lifecycle.{here, done_with}
use managed_tool_call_schema.Core.Approval.{
  ActionDescriptor, ActionBinding, ApprovalChallenge, ApprovalEvidence, UnsignedEvidence,
  action_binding, binding_json, create_approval_challenge, approve_challenge, valid_date,
  approval_signature, private_identity_hash, verify_approval_evidence,
}
use managed_tool_call_schema.Core.Approval.Roundtrip.{approve_verifies, approval_accepted}
use managed_tool_call_schema.Core.Action.{
  GateInput, evaluate_action_gate, known_side_effect, idempotency_stage, approval_stage,
  requires_approval_of, requires_idempotency_of,
}
use managed_tool_call_schema.Core.Action.Risk.{
  ResolvedPolicy, resolved_policy, risk_rank, in_risk_rank, outranks, object_prototype_keys,
}
use managed_tool_call_schema.Core.Action.Stages.{
  ActionGateDecision, GateStatus, GateReason, proof_valid, approval_valid, approval_bound,
  environment_allowed, result, outcome_allowed,
}
use managed_tool_call_schema.Core.Action.Authorised.{Authorised, permits-Authorised}
use managed_tool_call_schema.Core.Action.Refusals.{completed_never_permitted, unranked_risk}
use managed_tool_call_schema.Tests.Host.{small_host}

gate_runs : Unit {0}
unfolding evaluate_action_gate known_side_effect idempotency_stage approval_stage
    requires_approval_of requires_idempotency_of resolved_policy risk_rank in_risk_rank outranks
    object_prototype_keys proof_valid approval_valid approval_bound environment_allowed result
    outcome_allowed action_binding binding_json valid_date approval_signature private_identity_hash
    verify_approval_evidence create_approval_challenge approve_challenge stable canonical_json
    sha256 array_index stringify quote status_of status_text same_status rule_text texts lookup
    insert reserve lit text_beq starts_with
gate_runs = tt

abbrev decision : AcceptedDecision
decision = record {
  repaired = false;
  valid_arguments = obj end;
  repaired_fields = [];
  policy_result = record {
    outcome = PolicyOutcome.allowed;
    applied_policy_hash = lit "p";
    reasons = [];
  };
  audit_id = lit "aud_1";
  audit = record {
    audit_id = lit "aud_1";
    timestamp = [];
    tool_name_hash = lit "t";
    schema_hash = [];
    arguments_hash = [];
    validated_arguments_hash = none;
    argument_shape = [];
    decision = valid;
    reason_code = none;
    repair_rule_ids = [];
    repair_receipt_hashes = [];
    policy_hash = lit "p";
  };
}

abbrev action : Text → ActionDescriptor
action risk = record { tool_name = lit "t"; risk_level = risk; side_effect = lit "reversible" }

abbrev input : Text → GateInput Entries
input risk = record {
  decision = accept decision;
  action = action risk;
  context = record {
    environment = lit "dev";
    now = none;
    approval = none;
    idempotency_key = some (lit "order-0001");
  };
  policy = none;
  approval_secret = none;
  idempotency_ledger = some in_memory;
}

abbrev before : Entries
before = []

abbrev fingerprint : Text
fingerprint = sha256 small_host (binding_json small_host decision (action (lit "low")) (lit "dev"))

permits-Authorised_example :
    Authorised small_host
      (input (lit "low"))
      []
      before
      (reserve (lit "order-0001") fingerprint before).1
      fingerprint
unfolding gate_runs
permits-Authorised_example =
    permits-Authorised small_host (input (lit "low")) [] before _ _ refl refl

-- A policy under which the action needs approval, so that the gate answers a key that is done.
abbrev low_policy : ResolvedPolicy
low_policy = record {
  max_auto_execute_risk = lit "low";
  max_repaired_auto_execute_risk = lit "read";
  allowed_environments = none;
  require_idempotency_for_side_effects = true;
}

abbrev done_before : Entries
done_before = (lit "order-0001", done_with (lit "abc")) ∷ []

abbrev answer : Result (ActionGateDecision × Entries) → ActionGateDecision
answer (ok (d, s)) = d
answer (throw e) = record {
  status = GateStatus.rejected;
  reason_code = GateReason.validation_rejected;
  reason = [];
  execution_fingerprint = [];
  requires_approval = false;
  requires_idempotency = false;
  reservation_key_hash = none;
}

completed_never_permitted_example :
    (answer (evaluate_action_gate small_host (input (lit "low")) [] done_before)).status
    ≢ GateStatus.allowed
unfolding gate_runs
completed_never_permitted_example =
    completed_never_permitted small_host (input (lit "low")) [] (lit "order-0001") (lit "abc")
      low_policy done_before done_before done_before _ refl here refl refl refl refl refl

unranked_risk_example :
    (in_risk_rank (lit "toString") ≡ true)
    × (risk_rank (lit "toString") ≡ none)
    × (requires_approval_of small_host (input (lit "toString")) decision low_policy ≡ false)
unfolding gate_runs
unranked_risk_example = unranked_risk small_host (input (lit "toString")) decision low_policy refl

abbrev challenge : ApprovalChallenge
challenge = record {
  challenge_id = lit "id";
  binding_hash =
      sha256 small_host (binding_json small_host decision (action (lit "high")) (lit "dev"));
  tool_name_hash = sha256 small_host (str (lit "t"));
  valid_arguments_hash = sha256 small_host (obj end);
  risk_level = lit "high";
  environment = lit "dev";
  created_at = lit "00";
  expires_at = lit "0000";
}

abbrev secret : Text
secret = lit "0123456789abcdef0123456789abcdef"

abbrev unsigned_evidence : UnsignedEvidence
unsigned_evidence = record {
  challenge = challenge;
  approver_id_hash =
      lit "hmac-sha256:" ++ secret ++ lit "schema-guard-approval-identity-v1" ++ 0 ∷ lit "ann";
  approved_at = lit "000";
}

abbrev signature_of : Result Text → Text
signature_of (ok t) = t
signature_of (throw e) = []

abbrev evidence : ApprovalEvidence
evidence = record {
  unsigned = unsigned_evidence;
  signature = signature_of (approval_signature small_host secret unsigned_evidence);
}

approve_verifies_example :
    (challenge ≡ challenge)
    × (verify_approval_evidence small_host evidence secret ≡ true)
    × (1 ≤ length (lit "ann"))
    × ((created at expires : ℕ)
        → some (length (lit "00")) ≡ some created
        → some (length (lit "xyz")) ≡ some at
        → some (length (lit "0000")) ≡ some expires
        → (created ≤ at) × (at ≤ expires))
unfolding gate_runs
approve_verifies_example =
    approve_verifies small_host challenge (lit "ann") (lit "xyz") secret evidence refl

abbrev high_binding : ActionBinding
high_binding = record {
  tool_name_hash = sha256 small_host (str (lit "t"));
  valid_arguments_hash = sha256 small_host (obj end);
  binding_hash =
      sha256 small_host (binding_json small_host decision (action (lit "high")) (lit "dev"));
}

approval_accepted_example :
    (approval_valid small_host high_binding
        (input (lit "high")).context
        (action (lit "high"))
        (some secret)
        evidence
        (lit "000")
      ≡ ok true)
    ↔ (3 ≤ 4)
unfolding gate_runs
approval_accepted_example =
    approval_accepted small_host (accept decision) (action (lit "high")) high_binding
      (input (lit "high")).context (lit "xx") (lit "xxxx") (lit "fresh") (lit "ann") (lit "xyz")
      secret (lit "000") (some (lit "id")) challenge evidence 3 4 refl refl refl refl refl
