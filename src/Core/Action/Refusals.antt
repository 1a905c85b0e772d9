-- ===== src/Core/Action/Refusals.antt =====
-- packages/core/src/action.ts: completed keys, and the risk levels that the gate does not know.
use managed_tool_call_schema.Base.{
  ℕ, Text, lit, ◌≡◌, ◌≢◌, refl, ◌↔◌, ◌==◌, text_eq, text_beq_iff, text_beq, true, false, not,
  Option, none, some, arith, elem, elem-all, is_some, ap,
}
use managed_tool_call_schema.Json.Host.{Host}
use managed_tool_call_schema.Core.Result.{ok}
use managed_tool_call_schema.Core.Assoc.{lookup}
use managed_tool_call_schema.Core.Types.{AcceptedDecision}
use managed_tool_call_schema.Core.Ledger.{
  IdempotencyLedger, LedgerState, new, Entries, in_memory, reserve,
}
use managed_tool_call_schema.Core.Ledger.Lifecycle.{Reach, done_with, completed_forever}
use managed_tool_call_schema.Core.Action.Risk.{
  ResolvedPolicy, resolved_policy, risk_rank, in_risk_rank, outranks, object_prototype_keys,
}
use managed_tool_call_schema.Core.Action.Stages.{ActionGateDecision, GateStatus}
use managed_tool_call_schema.Core.Action.{
  GateInput, requires_approval_of, requires_idempotency_of, evaluate_action_gate,
}
use managed_tool_call_schema.Core.Action.Authorised.{permits-Authorised}
use managed_tool_call_schema.Core.Action.Grounds.{Reserved}

-- Where the policy in force asks for idempotency for an action, and the gate is given the in-memory
-- ledger, a key that was completed in it never permits an action again, whatever calls the ledger
-- received in between and whatever the other inputs of the gate are.
pub completed_never_permitted :
    (h : Host) (i : GateInput Entries) (current_time key f : Text) (p : ResolvedPolicy)
    (m n n' : Entries) (d : ActionGateDecision)
    → lookup key m ≡ some (done_with f)
    → Reach m n
    → i.context.idempotency_key ≡ some key
    → i.idempotency_ledger ≡ some in_memory
    → resolved_policy i.policy ≡ ok p
    → requires_idempotency_of h i p ≡ true
    → evaluate_action_gate h i current_time n ≡ ok (d, n')
    → d.status ≢ GateStatus.allowed
completed_never_permitted h i t key f p m n n' d was r k l pol needs e a =
    let x = permits-Authorised h i t n n' d e a in
    let same : x.policy ≡ p = cc (x.resolved, pol) in
    let needed : requires_idempotency_of h i x.policy ≡ true = rw same needs in
    let kept : Reserved h i t x.binding n n' = rw needed at x.reserved in
    let fp = x.binding.binding_hash in
    let keys : kept.key ≡ key = cc (kept.given, k) in
    let ledgers : kept.ledger ≡ in_memory = cc (kept.configured, l) in
    let answer : (reserve key fp n).0 ≡ new = rw (← keys) (
      rw (← ap (λ (y : IdempotencyLedger Entries). y.reserve kept.key fp n) ledgers)
        (ap (λ (y : LedgerState × Entries). y.0) kept.was_new)) in
    ground (arith, answer, (completed_forever key f fp was r).1)

critical_rank : (level : Text) → (level == lit "critical" ≡ true) ↔ (risk_rank level ≡ some 4)
unfolding risk_rank
critical_rank level = (
  λ c. rw ((text_beq_iff level (lit "critical")).0 c) (unfold lit text_beq in refl),
  λ r. ground arith,
)

none_of_missing : (o : Option ℕ) → not (is_some o) ≡ true → o ≡ none
none_of_missing none h = refl
none_of_missing (some a) h = cc

prototype_unranked :
    (level : Text) → elem level object_prototype_keys ≡ true → risk_rank level ≡ none
unfolding object_prototype_keys risk_rank lit text_beq
prototype_unranked level e =
    none_of_missing (risk_rank level)
      (elem-all (λ (l : Text). not (is_some (risk_rank l))) level object_prototype_keys e refl)

-- A risk level that is a string key of `Object.prototype` has no rank and needs no approval under
-- any policy, and yet the gate takes it for a valid level.
pub unranked_risk :
    {S : Type 0} (h : Host) (i : GateInput S) (d : AcceptedDecision) (p : ResolvedPolicy)
    → elem i.action.risk_level object_prototype_keys ≡ true
    → (in_risk_rank i.action.risk_level ≡ true)
      × (risk_rank i.action.risk_level ≡ none)
      × (requires_approval_of h i d p ≡ false)
unfolding requires_approval_of outranks in_risk_rank
unranked_risk h i d p e =
    let none_found = prototype_unranked i.action.risk_level e in
    (ground (arith, e), none_found, ground (arith, none_found, critical_rank i.action.risk_level))
