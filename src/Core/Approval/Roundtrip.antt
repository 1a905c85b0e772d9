-- ===== src/Core/Approval/Roundtrip.antt =====
-- packages/core/src/action.ts: from a challenge to the check of its approval.
use managed_tool_call_schema.Base.{
  ℕ, ◌-◌, ◌≤◌, Text, ltb, leb, length, ◌≡◌, refl, nat_eq, text_eq, true, not, ◌||◌, Option, some,
  get_or, ◌↔◌, text_beq_iff, arith,
}
use managed_tool_call_schema.Json.Host.{Host}
use managed_tool_call_schema.Core.Result.{ok, >>=-eq-ok, require}
use managed_tool_call_schema.Core.Types.{GuardDecision}
use managed_tool_call_schema.Core.Approval.{
  ActionDescriptor, ActionBinding, ApprovalChallenge, ApprovalEvidence, action_binding, valid_date,
  create_approval_challenge, approve_challenge, approval_signature, same_bytes, verify_signature,
  verify_approval_evidence,
}
use managed_tool_call_schema.Core.Action.Stages.{ActionGateContext, approval_valid, approval_bound}

same_bytes_refl : (h : Host) (s : Text) → same_bytes h s s ≡ true
unfolding same_bytes
same_bytes_refl h s = (text_eq.equal_iff _ _).1 refl

module _ (h : Host) (c : ApprovalChallenge) (approver_id approved_at secret : Text)
    (e : ApprovalEvidence)
    (approved : approve_challenge h c approver_id approved_at secret ≡ ok e) where
  approval_challenge_kept : (e.challenge ≡ c) × (1 ≤ length approver_id)
  unfolding approve_challenge
  approval_challenge_kept = (ground arith, ground arith)

  approval_signed : approval_signature h secret e.unsigned ≡ ok e.signature
  unfolding approve_challenge
  approval_signed = ground arith

  approval_verifies : verify_approval_evidence h e secret ≡ true
  unfolding verify_approval_evidence verify_signature
  approval_verifies = ground (arith, approval_signed, same_bytes_refl h e.signature)

  approval_in_time :
      (created at expires : ℕ)
      → h.date_parse c.created_at ≡ some created
      → h.date_parse approved_at ≡ some at
      → h.date_parse c.expires_at ≡ some expires
      → (created ≤ at) × (at ≤ expires)
  unfolding approve_challenge valid_date
  approval_in_time created at expires p q r = (ground arith, ground arith)

  -- An approval carries the challenge unchanged, was made within its lifetime by a named approver,
  -- and verifies under the secret that signed it.
  pub approve_verifies :
      (e.challenge ≡ c)
      × (verify_approval_evidence h e secret ≡ true)
      × (1 ≤ length approver_id)
      × ((created at expires : ℕ)
          → h.date_parse c.created_at ≡ some created
          → h.date_parse approved_at ≡ some at
          → h.date_parse c.expires_at ≡ some expires
          → (created ≤ at) × (at ≤ expires))
  approve_verifies =
      (approval_challenge_kept.0, approval_verifies, approval_challenge_kept.1, approval_in_time)

challenge_bound :
    (h : Host) (d : GuardDecision) (a : ActionDescriptor) (b : ActionBinding)
    (x : ActionGateContext) (created_at expires_at random_id : Text) (given_id : Option Text)
    (secret : Text) (c : ApprovalChallenge) (e : ApprovalEvidence)
    → create_approval_challenge h d a x.environment created_at expires_at given_id random_id ≡ ok c
    → action_binding h d a x.environment ≡ ok b
    → e.challenge ≡ c
    → verify_approval_evidence h e secret ≡ true
    → approval_bound h b x a (some secret) e ≡ true
unfolding create_approval_challenge approval_bound
challenge_bound h d a b x created_at expires_at rid given secret c e p r same verifies =
    let (created, _, e1) = >>=-eq-ok (valid_date h created_at _) _ p in
    let (expires, _, e2) = >>=-eq-ok (valid_date h expires_at _) _ e1 in
    let (_, _, e3) =
      >>=-eq-ok (require (not (leb expires created || ltb 86400000 (expires - created))) _) _ e2 in
    let e4 = rw r at e3 in
    ground (
      arith,
      same,
      e4,
      text_beq_iff e.challenge.binding_hash b.binding_hash,
      text_beq_iff e.challenge.tool_name_hash b.tool_name_hash,
      text_beq_iff e.challenge.valid_arguments_hash b.valid_arguments_hash,
      text_beq_iff e.challenge.environment x.environment,
      text_beq_iff e.challenge.risk_level a.risk_level,
    )

-- The gate takes the approval of a challenge that was made for the same decision, action and
-- environment, until the challenge expires.
pub approval_accepted :
    (h : Host) (d : GuardDecision) (a : ActionDescriptor) (b : ActionBinding)
    (x : ActionGateContext)
    (created_at expires_at random_id approver_id approved_at secret current_time : Text)
    (given_id : Option Text) (c : ApprovalChallenge) (e : ApprovalEvidence) (now expires : ℕ)
    → create_approval_challenge h d a x.environment created_at expires_at given_id random_id ≡ ok c
    → approve_challenge h c approver_id approved_at secret ≡ ok e
    → action_binding h d a x.environment ≡ ok b
    → h.date_parse (get_or x.now current_time) ≡ some now
    → h.date_parse c.expires_at ≡ some expires
    → (approval_valid h b x a (some secret) e current_time ≡ ok true) ↔ (now ≤ expires)
unfolding approval_valid valid_date
approval_accepted h d a b x created_at expires_at rid id at secret ct given c e now expires p q r s
      t =
    let (same, verifies, _, _) = approve_verifies h c id at secret e q in
    let bound =
      challenge_bound h d a b x created_at expires_at rid given secret c e p r same verifies in
    let t' : h.date_parse e.challenge.expires_at ≡ some expires = cc (t, same) in
    (λ v. ground (arith, bound), λ l. ground (arith, bound))
