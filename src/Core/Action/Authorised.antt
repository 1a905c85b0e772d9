-- ===== src/Core/Action/Authorised.antt =====
-- What stands behind a permission of the gate.
use managed_tool_call_schema.Base.{
  Text, length, ltb, ◌≡◌, ◌≢◌, refl, text_eq, Bool, true, Bool-cases, Option, none, some, arith,
  inl, inr, ap,
}
use managed_tool_call_schema.Json.Host.{Host}
use managed_tool_call_schema.Core.Result.{ok, >>=-eq-ok, require, require-eq-ok}
use managed_tool_call_schema.Core.Types.{AcceptedDecision, GuardDecision, accept, refuse}
use managed_tool_call_schema.Core.Approval.{ActionBinding, action_binding}
use managed_tool_call_schema.Core.Action.Risk.{ResolvedPolicy, resolved_policy, in_risk_rank}
use managed_tool_call_schema.Core.Action.Stages.{
  ActionGateDecision, GateStatus, result, proof_valid, environment_allowed,
}
use managed_tool_call_schema.Core.Action.{
  GateInput, reserved, with_ledger, with_key, key_required, idempotency_stage, approval_check,
  approval_stage, requires_approval_of, requires_idempotency_of, decide_stages, environment_stage,
  gate_policy, gate_accepted, gate_decision, evaluate_action_gate, known_side_effect,
}
use managed_tool_call_schema.Core.Action.Grounds.{
  Needs, Approved, Reserved, Approved-of, idempotency_allowed,
}

module _ {S : Type 0} (h : Host) (i : GateInput S) (current_time : Text) where
  -- Everything that a permission to execute rests on.
  pub record Authorised (s s' : S) (fingerprint : Text) : Type 0 where
    pub accepted : AcceptedDecision
    pub validated : i.decision ≡ accept accepted
    pub proved : proof_valid h accepted ≡ true
    pub known_risk : in_risk_rank i.action.risk_level ≡ true
    pub known_effect : known_side_effect i.action.side_effect ≡ true
    pub policy : ResolvedPolicy
    pub resolved : resolved_policy i.policy ≡ ok policy
    pub binding : ActionBinding
    pub bound : action_binding h i.decision i.action i.context.environment ≡ ok binding
    pub fingerprint_is : fingerprint ≡ binding.binding_hash
    pub environment : environment_allowed policy i.context.environment ≡ true
    pub approved :
        Needs (requires_approval_of h i accepted policy) (Approved h i current_time binding)
    pub reserved :
        Needs (requires_idempotency_of h i policy) (Reserved h i current_time binding s s')

  fingerprint_of_stage :
      (b : ActionBinding) (ra ri : Bool) (s s' : S) (d : ActionGateDecision)
      → idempotency_stage h i b.binding_hash ra ri s ≡ (d, s')
      → d.execution_fingerprint ≡ b.binding_hash
  unfolding idempotency_stage with_key key_required with_ledger reserved result
  fingerprint_of_stage b ra ri s s' d e = ground arith

  -- A refusal of the approval stage is no permission.
  approval_refuses :
      (b : ActionBinding) (ri ra : Bool) (r : ActionGateDecision)
      → approval_stage h i b ri current_time ra ≡ ok (some r)
      → (r.status ≡ GateStatus.allowed → ⊥)
  unfolding approval_stage approval_check result
  approval_refuses b ri ra r e a = ground arith

  module _ (c : AcceptedDecision) (p : ResolvedPolicy) (b : ActionBinding) (s s' : S)
      (d : ActionGateDecision) (a : d.status ≡ GateStatus.allowed) where
    abbrev Passed : Type 0
    Passed =
        Needs (requires_approval_of h i c p) (Approved h i current_time b)
        × Needs (requires_idempotency_of h i p) (Reserved h i current_time b s s')
        × (d.execution_fingerprint ≡ b.binding_hash)

    decided :
        (v : Option ActionGateDecision)
        → approval_stage h i b
            (requires_idempotency_of h i p)
            current_time
            (requires_approval_of h i c p)
          ≡ ok v
        → decide_stages h i c p b current_time s v ≡ ok (d, s')
        → Passed
    unfolding decide_stages
    decided none stage rest =
        let ra = requires_approval_of h i c p in
        let ri = requires_idempotency_of h i p in
        let last : idempotency_stage h i b.binding_hash ra ri s ≡ (d, s') = cc rest in
        (
          Approved-of h i current_time b ri ra stage,
          idempotency_allowed h i current_time b ra ri s s' d last a,
          fingerprint_of_stage b ra ri s s' d last,
        )
    decided (some r) stage rest =
        let same : r ≡ d = cc rest in
        absurd
          (approval_refuses b _ _ r stage (cc (ap (λ (x : ActionGateDecision). x.status) same, a)))

    after_environment : gate_policy h i c p b current_time s none ≡ ok (d, s') → Passed
    unfolding gate_policy
    after_environment e =
        let stage =
          approval_stage h i b (requires_idempotency_of h i p) current_time
            (requires_approval_of h i c p) in
        let (v, stage_is, rest) = >>=-eq-ok stage _ e in decided v stage_is rest

    environment_refuses :
        (r : ActionGateDecision)
        → environment_stage h i c p b ≡ some r
        → r.status ≢ GateStatus.allowed
    unfolding environment_stage result
    environment_refuses r stage bad = ground arith

    checked_environment :
        (o : Option ActionGateDecision)
        → environment_stage h i c p b ≡ o
        → gate_policy h i c p b current_time s o ≡ ok (d, s')
        → (environment_allowed p i.context.environment ≡ true)
          × (gate_policy h i c p b current_time s none ≡ ok (d, s'))
    unfolding environment_stage gate_policy result
    checked_environment none stage e = (ground arith, e)
    checked_environment (some r) stage e =
        let same : r ≡ d = cc e in
        absurd
          (environment_refuses r stage (cc (ap (λ (x : ActionGateDecision). x.status) same, a)))

  accepted-Authorised :
      (c : AcceptedDecision) (s s' : S) (d : ActionGateDecision)
      → i.decision ≡ accept c
      → gate_accepted h i c current_time s ≡ ok (d, s')
      → d.status ≡ GateStatus.allowed
      → Authorised s s' d.execution_fingerprint
  unfolding gate_accepted result
  accepted-Authorised c s s' d validated e a = elim (Bool-cases (proof_valid h c)) [
    | inr bad ↦ ground arith
    | inl good ↦
        let (_, env, e1) =
          >>=-eq-ok (require (ltb 0 (length i.context.environment)) _) _ (rw good at e) in
        let (_, risk, e2) = >>=-eq-ok (require (in_risk_rank i.action.risk_level) _) _ e1 in
        let (_, effect, e3) = >>=-eq-ok (require (known_side_effect i.action.side_effect) _) _ e2 in
        let (p, resolved, e4) = >>=-eq-ok (resolved_policy i.policy) _ e3 in
        let (b, bound, e5) =
          >>=-eq-ok (action_binding h i.decision i.action i.context.environment) _ e4 in
        let (allowed, e6) =
          checked_environment c p b s s' d a (environment_stage h i c p b) refl e5 in
        let (approved, kept, fingerprint) = after_environment c p b s s' d a e6 in
        record {
          accepted = c;
          validated = validated;
          proved = good;
          known_risk = require-eq-ok _ _ risk;
          known_effect = require-eq-ok _ _ effect;
          policy = p;
          resolved = resolved;
          binding = b;
          bound = bound;
          fingerprint_is = fingerprint;
          environment = allowed;
          approved = approved;
          reserved = kept;
        }
  ]

  decision-Authorised :
      (g : GuardDecision) (s s' : S) (d : ActionGateDecision)
      → i.decision ≡ g
      → gate_decision h i g current_time s ≡ ok (d, s')
      → d.status ≡ GateStatus.allowed
      → Authorised s s' d.execution_fingerprint
  unfolding gate_decision result
  decision-Authorised (refuse r) s s' d validated e a = ground arith
  decision-Authorised (accept c) s s' d validated e a = accepted-Authorised c s s' d validated e a

  -- A gate that permits an action was given an accepted decision whose proofs hold, a risk and a side
  -- effect that it knows and an environment that the policy allows; where the policy asks for an
  -- approval, one that verifies, is for this binding and has not expired; and where it asks for
  -- idempotency, a key of 8 to 256 units that the ledger has newly reserved for this binding.
  pub permits-Authorised :
      (s s' : S) (d : ActionGateDecision)
      → evaluate_action_gate h i current_time s ≡ ok (d, s')
      → d.status ≡ GateStatus.allowed
      → Authorised s s' d.execution_fingerprint
  unfolding evaluate_action_gate
  permits-Authorised s s' d e a = decision-Authorised i.decision s s' d refl e a
