-- ===== src/Core/Action/Stages.antt =====
-- packages/core/src/action.ts: the checks that the gate is made of.
use managed_tool_call_schema.Base.{
  Text, lit, starts_with, leb, ◌==◌, text_eq, Bool, true, false, not, ◌&&◌, ◌||◌, elem, all, Option,
  none, some, List, [], ◌∷◌, map, get_or, if◌then◌else◌,
}
use managed_tool_call_schema.Json.{Json, str, arr, texts}
use managed_tool_call_schema.Json.Host.{Host}
use managed_tool_call_schema.Json.Canonical.{canonical_json, sha256}
use managed_tool_call_schema.Core.Result.{Result, ok, ◌>>=◌}
use managed_tool_call_schema.Core.Types
use managed_tool_call_schema.Core.Types.{
  AcceptedDecision, RepairRecord, PolicyOutcome, PolicyCheck, SchemaCheck, PostValidation,
  status_of, same_status, rule_text, receipt_json, RepairRuleId,
}
use managed_tool_call_schema.Core.Receipt.{verify_repair_receipt}
use managed_tool_call_schema.Core.Approval.{
  ActionDescriptor, ActionBinding, ApprovalEvidence, verify_approval_evidence, valid_date,
}
use managed_tool_call_schema.Core.Action.Risk.{ResolvedPolicy}

pub record ActionGateContext : Type 0 where
  pub environment : Text
  pub now : Option Text
  pub approval : Option ApprovalEvidence
  pub idempotency_key : Option Text

pub data GateStatus : Type 0 where
  allowed approval_required rejected duplicate_blocked : GateStatus

pub data GateReason : Type 0 where
  execution_allowed validation_rejected validation_proof_invalid environment_denied : GateReason
  approval_required approval_invalid idempotency_key_required : GateReason
  idempotency_ledger_required idempotency_conflict duplicate_execution : GateReason

-- `reservation_key_hash` is the hash in the pending reservation, if there is one.
pub record ActionGateDecision : Type 0 where
  pub status : GateStatus
  pub reason_code : GateReason
  pub reason : Text
  pub execution_fingerprint : Text
  pub requires_approval : Bool
  pub requires_idempotency : Bool
  pub reservation_key_hash : Option Text

unfoldable pub schema_passed : SchemaCheck → Bool
schema_passed Types.passed = true
schema_passed _ = false

unfoldable pub policy_passed : PolicyCheck → Bool
policy_passed PolicyCheck.allowed = true
policy_passed _ = false

unfoldable pub outcome_allowed : PolicyOutcome → Bool
outcome_allowed PolicyOutcome.allowed = true
outcome_allowed PolicyOutcome.denied = false

environment_in : Option (List Text) → Text → Bool
environment_in none environment = true
environment_in (some names) environment = elem environment names

unfoldable pub environment_allowed : ResolvedPolicy → Text → Bool
unfolding environment_in
environment_allowed p environment = environment_in p.allowed_environments environment

module _ (h : Host) where
  -- `...(key ? { reservation } : {})`; no caller passes an empty key
  unfoldable pub result :
      GateStatus
      → GateReason
      → Text
      → Text
      → (requires_approval requires_idempotency : Bool) → Option Text
      → ActionGateDecision
  result status reason_code reason fingerprint requires_approval requires_idempotency key = record {
    status = status;
    reason_code = reason_code;
    reason = reason;
    execution_fingerprint = fingerprint;
    requires_approval = requires_approval;
    requires_idempotency = requires_idempotency;
    reservation_key_hash = elim key [ none ↦ none | some k ↦ some (sha256 h (str k)) ];
  }

  hash_matches : Option Text → Json → Bool
  hash_matches none value = true
  hash_matches (some hash) value = not (starts_with (lit "sha256:") hash) || hash == sha256 h value

  same_texts : List Text → List Text → Bool
  same_texts xs ys = canonical_json h (arr (texts xs)) == canonical_json h (arr (texts ys))

  unfoldable pub repair_ok : RepairRecord → Bool
  repair_ok r =
      verify_repair_receipt h r
      && schema_passed r.post_validation.schema
      && policy_passed r.post_validation.policy

  repairs_ok : Bool → List RepairRecord → Bool
  repairs_ok false [] = true
  repairs_ok false (r ∷ rs) = false
  repairs_ok true [] = false
  repairs_ok true (r ∷ rs) = all repair_ok (r ∷ rs)

  unfoldable pub proof_valid : AcceptedDecision → Bool
  unfolding hash_matches same_texts repairs_ok outcome_allowed
  proof_valid d =
      d.audit_id == d.audit.audit_id
      && same_status d.audit.decision (status_of d)
      && outcome_allowed d.policy_result.outcome
      && d.policy_result.applied_policy_hash == d.audit.policy_hash
      && hash_matches d.audit.validated_arguments_hash d.valid_arguments
      && same_texts (map rule_text d.audit.repair_rule_ids)
          (map (λ (r : RepairRecord). rule_text r.rule_id) d.repaired_fields)
      && same_texts d.audit.repair_receipt_hashes
          (map (λ (r : RepairRecord). r.receipt_hash) d.repaired_fields)
      && repairs_ok d.repaired d.repaired_fields

  verified : Option Text → ApprovalEvidence → Bool
  verified none evidence = false
  verified (some secret) evidence = verify_approval_evidence h evidence secret

  unfoldable pub approval_bound :
      ActionBinding → ActionGateContext → ActionDescriptor → Option Text → ApprovalEvidence → Bool
  unfolding verified
  approval_bound b c a secret e =
      verified secret e
      && e.challenge.binding_hash == b.binding_hash
      && e.challenge.tool_name_hash == b.tool_name_hash
      && e.challenge.valid_arguments_hash == b.valid_arguments_hash
      && e.challenge.environment == c.environment
      && e.challenge.risk_level == a.risk_level

  -- The last conjunct, which may throw, is reached only if the others hold.
  unfoldable pub approval_valid :
      ActionBinding
      → ActionGateContext
      → ActionDescriptor
      → Option Text
      → ApprovalEvidence
      → (current_time : Text) → Result Bool
  approval_valid b c a secret e current_time = do
    now ← valid_date h (get_or c.now current_time) (lit "context.now")
    let unexpired : Result Bool = (do
      expires ← valid_date h e.challenge.expires_at (lit "approval.expires_at")
      ok (leb now expires))
    if approval_bound b c a secret e then unexpired else ok false
