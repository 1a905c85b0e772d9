-- ===== src/Core/Action.antt =====
-- packages/core/src/action.ts: `evaluateActionGate`.
pub mod Risk
pub mod Stages
pub mod Grounds
pub mod Authorised
pub mod Refusals
use managed_tool_call_schema.Base.{
  ℕ, Text, lit, length, ltb, leb, ◌==◌, text_eq, Bool, true, false, not, ◌&&◌, ◌||◌, elem, Option,
  none, some, List, ◌++◌, if◌then◌else◌,
}
use managed_tool_call_schema.Json.{Json, obj, str, bool, field, end}
use managed_tool_call_schema.Json.Host.{Host}
use managed_tool_call_schema.Json.Canonical.{sha256}
use managed_tool_call_schema.Core.Result.{Result, ok, throw, type_error, ◌>>=◌, ◌>>◌, require}
use managed_tool_call_schema.Core.Types.{AcceptedDecision, GuardDecision, accept, refuse}
use managed_tool_call_schema.Core.Ledger.{IdempotencyLedger, LedgerState, new, duplicate, conflict}
use managed_tool_call_schema.Core.Approval.{
  ActionDescriptor, ActionBinding, ApprovalEvidence, action_binding,
}
use managed_tool_call_schema.Core.Action.Risk.{
  ActionControlPolicy, ResolvedPolicy, in_risk_rank, outranks, resolved_policy,
}
use managed_tool_call_schema.Core.Action.Stages.{
  ActionGateContext, ActionGateDecision, GateStatus, GateReason, result, proof_valid,
  approval_valid, environment_allowed,
}

pub record GateInput (S : Type 0) : Type 0 where
  pub decision : GuardDecision
  pub action : ActionDescriptor
  pub context : ActionGateContext
  pub policy : Option ActionControlPolicy
  pub approval_secret : Option Text
  pub idempotency_ledger : Option (IdempotencyLedger S)

-- The three side effects that the gate knows.
unfoldable pub known_side_effect : Text → Bool
known_side_effect s = s == lit "none" || s == lit "reversible" || s == lit "irreversible"

module _ (h : Host) where
  -- After the ledger's answer.
  reserved : Text → Text → Bool → LedgerState → ActionGateDecision
  reserved key fingerprint requires_approval duplicate =
      result h GateStatus.duplicate_blocked GateReason.duplicate_execution
        (lit "This idempotency key already reserved the same action; reuse its prior result.")
        fingerprint requires_approval true none
  reserved key fingerprint requires_approval conflict =
      result h GateStatus.rejected GateReason.idempotency_conflict
        (lit "This idempotency key is already bound to a different action.") fingerprint
        requires_approval true none
  reserved key fingerprint requires_approval new =
      result h GateStatus.allowed GateReason.execution_allowed
        (lit "Validation, action policy, approval, and idempotency controls allow execution.")
        fingerprint requires_approval true (some key)

  key_required : Text → Bool → ActionGateDecision
  key_required fingerprint requires_approval =
      result h GateStatus.rejected GateReason.idempotency_key_required
        (lit "A side-effecting action requires an idempotency key from 8 through 256 characters.")
        fingerprint requires_approval true none

module _ {S : Type 0} (h : Host) where
  with_ledger : Option (IdempotencyLedger S) → Text → Text → Bool → S → ActionGateDecision × S
  unfolding reserved
  with_ledger none key fingerprint requires_approval s = (
    result h GateStatus.rejected GateReason.idempotency_ledger_required
        (lit "A side-effecting action requires an idempotency ledger.") fingerprint
        requires_approval true none,
    s,
  )
  with_ledger (some ledger) key fingerprint requires_approval s =
      let (state, s') = ledger.reserve key fingerprint s in
      (reserved h key fingerprint requires_approval state, s')

  with_key : Option Text → Option (IdempotencyLedger S) → Text → Bool → S → ActionGateDecision × S
  unfolding key_required with_ledger
  with_key none ledger fingerprint requires_approval s =
      (key_required h fingerprint requires_approval, s)
  with_key (some key) ledger fingerprint requires_approval s =
      if ltb (length key) 8 || ltb 256 (length key)
      then (key_required h fingerprint requires_approval, s)
      else with_ledger ledger key fingerprint requires_approval s

  -- The last stage: idempotency, or the final permission.
  unfoldable pub idempotency_stage :
      GateInput S
      → Text
      → (requires_approval requires_idempotency : Bool) → S
      → ActionGateDecision × S
  unfolding with_key
  idempotency_stage i fingerprint requires_approval true s =
      with_key i.context.idempotency_key i.idempotency_ledger fingerprint requires_approval s
  idempotency_stage i fingerprint requires_approval false s = (
    result h GateStatus.allowed GateReason.execution_allowed
        (lit "Validation and action policy allow execution.") fingerprint requires_approval false
        none,
    s,
  )

  -- The approval that an action needs; `none` lets the action through to the next stage.
  approval_check :
      GateInput S
      → ActionBinding
      → (requires_idempotency : Bool) → (current_time : Text) → Option ApprovalEvidence
      → Result (Option ActionGateDecision)
  approval_check i b requires_idempotency current_time none = ok (
      some (
        result h GateStatus.approval_required GateReason.approval_required
          (lit "This action requires approval bound to the exact validated arguments.")
          b.binding_hash true requires_idempotency none))
  approval_check i b requires_idempotency current_time (some evidence) = do
    valid ← approval_valid h b i.context i.action i.approval_secret evidence current_time
    ok (
        if valid
        then none
        else some (
            result h GateStatus.rejected GateReason.approval_invalid
              (lit
                "Approval is invalid, expired, or bound to different arguments or action context.")
              b.binding_hash true requires_idempotency none))

  unfoldable pub approval_stage :
      GateInput S
      → ActionBinding
      → (requires_idempotency : Bool) → (current_time : Text) → (requires_approval : Bool)
      → Result (Option ActionGateDecision)
  unfolding approval_check
  approval_stage i b requires_idempotency current_time false = ok none
  approval_stage i b requires_idempotency current_time true =
      approval_check i b requires_idempotency current_time i.context.approval

  unfoldable pub requires_idempotency_of : GateInput S → ResolvedPolicy → Bool
  requires_idempotency_of i p =
      p.require_idempotency_for_side_effects && not (i.action.side_effect == lit "none")

  unfoldable pub requires_approval_of : GateInput S → AcceptedDecision → ResolvedPolicy → Bool
  requires_approval_of i d p =
      let auto_risk =
        if d.repaired then p.max_repaired_auto_execute_risk else p.max_auto_execute_risk in
      i.action.risk_level == lit "critical" || outranks i.action.risk_level auto_risk

  -- The stages after the binding.
  decide_stages :
      GateInput S
      → AcceptedDecision
      → ResolvedPolicy
      → ActionBinding
      → Text
      → S
      → Option ActionGateDecision
      → Result (ActionGateDecision × S)
  unfolding idempotency_stage requires_approval_of requires_idempotency_of
  decide_stages i d p b current_time s (some refusal) = ok (refusal, s)
  decide_stages i d p b current_time s none = ok (
      idempotency_stage i b.binding_hash (requires_approval_of i d p) (requires_idempotency_of i p)
        s)

  environment_stage :
      GateInput S → AcceptedDecision → ResolvedPolicy → ActionBinding → Option ActionGateDecision
  unfolding requires_approval_of requires_idempotency_of
  environment_stage i d p b =
      if environment_allowed p i.context.environment
      then none
      else some (
          result h GateStatus.rejected GateReason.environment_denied
            (lit "Action environment " ++ i.context.environment ++ lit " is not allowed by policy.")
            b.binding_hash (requires_approval_of i d p) (requires_idempotency_of i p) none)

  gate_policy :
      GateInput S
      → AcceptedDecision
      → ResolvedPolicy
      → ActionBinding
      → Text
      → S
      → Option ActionGateDecision
      → Result (ActionGateDecision × S)
  unfolding approval_stage decide_stages
  gate_policy i d p b current_time s (some refusal) = ok (refusal, s)
  gate_policy i d p b current_time s none = do
    verdict ←
        approval_stage i b (requires_idempotency_of i p) current_time (requires_approval_of i d p)
    decide_stages i d p b current_time s verdict

  -- The gate for an accepted decision. `current_time` is `new Date().toISOString()`.
  gate_accepted : GateInput S → AcceptedDecision → Text → S → Result (ActionGateDecision × S)
  unfolding gate_policy environment_stage known_side_effect
  gate_accepted i d current_time s =
      if proof_valid h d
      then (do
        require (ltb 0 (length i.context.environment)) (lit "action environment is required")
        require (in_risk_rank i.action.risk_level) (lit "invalid action risk level")
        require (known_side_effect i.action.side_effect) (lit "invalid action side effect")
        p ← resolved_policy i.policy
        b ← action_binding h i.decision i.action i.context.environment
        gate_policy i d p b current_time s (environment_stage i d p b))
      else ok (
        result h GateStatus.rejected GateReason.validation_proof_invalid
            (lit "The accepted validation decision or repair receipt failed integrity checks.")
            (sha256 h (
              obj (
                field (lit "audit_id") (str d.audit_id)
                  (field (lit "proof_invalid") (bool true) end))))
            false false none,
        s,
      )

  gate_decision : GateInput S → GuardDecision → Text → S → Result (ActionGateDecision × S)
  unfolding gate_accepted
  gate_decision i (refuse d) current_time s = ok (
    result h GateStatus.rejected GateReason.validation_rejected
        (lit "Schema Guard rejected the tool arguments.")
        (sha256 h
          (obj (field (lit "audit_id") (str d.audit_id) (field (lit "rejected") (bool true) end))))
        false false none,
    s,
  )
  gate_decision i (accept d) current_time s = gate_accepted i d current_time s

  unfoldable pub evaluate_action_gate : GateInput S → Text → S → Result (ActionGateDecision × S)
  unfolding gate_decision
  evaluate_action_gate i current_time s = gate_decision i i.decision current_time s
