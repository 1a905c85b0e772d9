-- ===== src/Core/Engine/Integrity.antt =====
-- packages/core/src/engine.ts and action.ts: an accepted decision at the gate's proof check.
use managed_tool_call_schema.Base.{
  Text, ◌≡◌, ◌≢◌, refl, ap, text_eq, text_beq_refl, ◌⊎◌, inl, inr, Bool, true, false, ◌||◌, some,
  List, [], ◌∷◌, map, all,
}
use managed_tool_call_schema.Json.{Json}
use managed_tool_call_schema.Json.Host.{Host}
use managed_tool_call_schema.Core.Types.{
  accept, AcceptedDecision, PolicyResult, PolicyOutcome, RepairRecord, rule_text, status_of,
  same_status,
}
use managed_tool_call_schema.Core.Receipt.{
  finalize_repair_receipts, finalize_receipt, verify-finalize,
}
use managed_tool_call_schema.Core.Audit.{create_audit_envelope}
use managed_tool_call_schema.Core.Action.Stages.{
  proof_valid, outcome_allowed, repair_ok, schema_passed, policy_passed,
}
use managed_tool_call_schema.Core.Engine.Input.{Call, Ajv, Request, CheckedRequest}
use managed_tool_call_schema.Core.Engine.Enforced.{accepting}
use managed_tool_call_schema.Core.Engine.Enforcement.{accepted-IsChecked}
use managed_tool_call_schema.Core.Engine.{accepted, full_policy, validate_tool_call}

accept_eq : {x y : AcceptedDecision} → accept x ≡ accept y → x ≡ y
accept_eq p = cc p

module _ (h : Host) where
  renewed_ok : (r : RepairRecord) → repair_ok h (finalize_receipt h accepting r) ≡ true
  unfolding repair_ok schema_passed policy_passed
  renewed_ok r = rw (verify-finalize h accepting r) (unfold finalize_receipt in refl)

  all_renewed :
      (rs : List RepairRecord) → all (repair_ok h) (map (finalize_receipt h accepting) rs) ≡ true
  all_renewed [] = refl
  all_renewed (r ∷ rs) = rw (renewed_ok r) (all_renewed rs)

or_true : (b : Bool) → (b || true) ≡ true
or_true true = refl
or_true false = refl

rule_texts :
    (rs : List RepairRecord)
    → map rule_text (map (λ (r : RepairRecord). r.rule_id) rs)
      ≡ map (λ (r : RepairRecord). rule_text r.rule_id) rs
rule_texts [] = refl
rule_texts (r ∷ rs) = ap (λ (ts : List Text). rule_text r.rule_id ∷ ts) (rule_texts rs)

ruleset proof_laws = (text_beq_refl, or_true, rule_texts, all_renewed, renewed_ok)

module _ (h : Host) (c : Call) (r : CheckedRequest) (args validated : Json) (policy : PolicyResult)
    (d : AcceptedDecision) (allowed : policy.outcome ≡ PolicyOutcome.allowed) where
  unrepaired_proof :
      accepted h c r false args validated [] policy ≡ accept d → proof_valid h d ≡ true
  unfolding accepted
  unrepaired_proof e = rw (← accept_eq e) (
      unfold proof_valid create_audit_envelope status_of same_status outcome_allowed in
      simp (proof_laws, allowed))

  repaired_proof :
      (x : RepairRecord) (xs : List RepairRecord)
      → accepted h c r true args validated (map (finalize_receipt h accepting) (x ∷ xs)) policy
        ≡ accept d
      → proof_valid h d ≡ true
  unfolding accepted
  repaired_proof x xs e = rw (← accept_eq e) (
      unfold proof_valid create_audit_envelope status_of same_status outcome_allowed in
      simp (proof_laws, allowed))

  -- Of all the decisions that the engine builds.
  built_proof :
      (repairs : List RepairRecord) (b : Bool)
      → ((b ≡ false) × (repairs ≡ [])) ⊎ ((b ≡ true) × (repairs ≢ []))
      → accepted h c r b args validated (finalize_repair_receipts h repairs accepting) policy
        ≡ accept d
      → proof_valid h d ≡ true
  unfolding finalize_repair_receipts
  built_proof [] b (inl (p, q)) e = unrepaired_proof (cc (e, p))
  built_proof [] b (inr (p, q)) e = absurd (q refl)
  built_proof (x ∷ xs) b (inl (p, q)) e = cc q
  built_proof (x ∷ xs) b (inr (p, q)) e = repaired_proof x xs (cc (e, p))

-- The action gate finds no fault in the proofs of a decision that the engine has just accepted.
pub accepted_proof_valid :
    (h : Host) (ajv : Ajv) (c : Call) (q : Request) (d : AcceptedDecision)
    → validate_tool_call h ajv c (some q) ≡ accept d
    → proof_valid h d ≡ true
accepted_proof_valid h ajv c q d e =
    let x = (accepted-IsChecked h ajv c d q e) in
    let y = x.enforced in
    built_proof h c x.checked x.checked.args d.valid_arguments
      (full_policy h x.checked d.valid_arguments y.repairs) d y.permitted y.repairs d.repaired
      (elim y.origin [ inl o ↦ inl (o.0, o.1) | inr o ↦ inr (o.0, o.1) ]) y.built
