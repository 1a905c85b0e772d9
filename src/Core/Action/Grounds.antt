-- ===== src/Core/Action/Grounds.antt =====
-- packages/core/src/action.ts: what the approval and the idempotency stage of the gate ask for.
use managed_tool_call_schema.Base.{
  ℕ, Text, lit, length, ltb, ◌≤◌, ◌≡◌, refl, text_eq, text_beq_iff, Bool, true, false, ◌||◌,
  Bool-cases, Option, none, some, get_or, arith, inl, inr,
}
use managed_tool_call_schema.Json.Host.{Host}
use managed_tool_call_schema.Core.Result.{ok, >>=-eq-ok}
use managed_tool_call_schema.Core.Ledger.{IdempotencyLedger, new}
use managed_tool_call_schema.Core.Approval.{
  ActionBinding, ApprovalEvidence, verify_approval_evidence, valid_date,
}
use managed_tool_call_schema.Core.Action.Stages.{
  ActionGateDecision, GateStatus, result, approval_valid, approval_bound,
}
use managed_tool_call_schema.Core.Action.{
  GateInput, reserved, with_ledger, with_key, key_required, idempotency_stage, approval_check,
  approval_stage,
}

-- `P` is asked for only where the test holds.
abbrev pub Needs : Bool → Type 0 → Type 0
Needs true P = P
Needs false P = Unit

module _ {S : Type 0} (h : Host) (i : GateInput S) (current_time : Text) where
  -- The evidence that an action which needs approval must carry.
  pub record Approved (b : ActionBinding) : Type 0 where
    pub evidence : ApprovalEvidence
    pub given : i.context.approval ≡ some evidence
    pub secret : Text
    pub configured : i.approval_secret ≡ some secret
    pub verified : verify_approval_evidence h evidence secret ≡ true
    pub same_binding : evidence.challenge.binding_hash ≡ b.binding_hash
    pub same_tool : evidence.challenge.tool_name_hash ≡ b.tool_name_hash
    pub same_arguments : evidence.challenge.valid_arguments_hash ≡ b.valid_arguments_hash
    pub same_environment : evidence.challenge.environment ≡ i.context.environment
    pub same_risk : evidence.challenge.risk_level ≡ i.action.risk_level
    pub now : ℕ
    pub expires : ℕ
    pub read_now : valid_date h (get_or i.context.now current_time) (lit "context.now") ≡ ok now
    pub read_expires :
        valid_date h evidence.challenge.expires_at (lit "approval.expires_at") ≡ ok expires
    pub unexpired : now ≤ expires

  -- The reservation that an action which needs idempotency must have made.
  pub record Reserved (b : ActionBinding) (s s' : S) : Type 0 where
    pub key : Text
    pub given : i.context.idempotency_key ≡ some key
    pub long_enough : 8 ≤ length key
    pub short_enough : length key ≤ 256
    pub ledger : IdempotencyLedger S
    pub configured : i.idempotency_ledger ≡ some ledger
    pub was_new : ledger.reserve key b.binding_hash s ≡ (new, s')

  with_ledger_allowed :
      (l : Option (IdempotencyLedger S)) (key fingerprint : Text) (ra : Bool) (s s' : S)
      (d : ActionGateDecision)
      → with_ledger h l key fingerprint ra s ≡ (d, s')
      → d.status ≡ GateStatus.allowed
      → (m : IdempotencyLedger S) × (l ≡ some m) × (m.reserve key fingerprint s ≡ (new, s'))
  unfolding with_ledger reserved result
  with_ledger_allowed none key fingerprint ra s s' d e a = ground arith
  with_ledger_allowed (some m) key fingerprint ra s s' d e a = (m, refl, ground arith)

  with_key_allowed :
      (k : Option Text) (l : Option (IdempotencyLedger S)) (fingerprint : Text) (ra : Bool)
      (s s' : S) (d : ActionGateDecision)
      → with_key h k l fingerprint ra s ≡ (d, s')
      → d.status ≡ GateStatus.allowed
      → (key : Text) × (k ≡ some key)
        × (8 ≤ length key)
        × (length key ≤ 256)
        × (m : IdempotencyLedger S) × (l ≡ some m)
        × (m.reserve key fingerprint s ≡ (new, s'))
  unfolding with_key key_required result
  with_key_allowed none l fingerprint ra s s' d e a = ground arith
  with_key_allowed (some key) l fingerprint ra s s' d e a =
      elim (Bool-cases (ltb (length key) 8 || ltb 256 (length key))) [
        | inl bad ↦ absurd (ground arith)
        | inr fits ↦
            let (m, given, was) =
              with_ledger_allowed l key fingerprint ra s s' d (rw fits at e) a in
            (key, refl, ground arith, ground arith, m, given, was)
      ]

  -- The last stage permits only with a new reservation, where one is needed.
  pub idempotency_allowed :
      (b : ActionBinding) (ra ri : Bool) (s s' : S) (d : ActionGateDecision)
      → idempotency_stage h i b.binding_hash ra ri s ≡ (d, s')
      → d.status ≡ GateStatus.allowed
      → Needs ri (Reserved b s s')
  unfolding idempotency_stage
  idempotency_allowed b ra false s s' d e a = tt
  idempotency_allowed b ra true s s' d e a =
      let (key, given, lo, hi, m, configured, was) =
        with_key_allowed i.context.idempotency_key i.idempotency_ledger b.binding_hash ra s s' d e
          a in
      record {
        key = key;
        given = given;
        long_enough = lo;
        short_enough = hi;
        ledger = m;
        configured = configured;
        was_new = was;
      }

  secret_of :
      (b : ActionBinding) (o : Option Text) (e : ApprovalEvidence)
      → approval_bound h b i.context i.action o e ≡ true
      → (secret : Text) × (o ≡ some secret)
        × (verify_approval_evidence h e secret ≡ true)
        × (e.challenge.binding_hash ≡ b.binding_hash)
        × (e.challenge.tool_name_hash ≡ b.tool_name_hash)
        × (e.challenge.valid_arguments_hash ≡ b.valid_arguments_hash)
        × (e.challenge.environment ≡ i.context.environment)
        × (e.challenge.risk_level ≡ i.action.risk_level)
  unfolding approval_bound
  secret_of b none e t = cc
  secret_of b (some secret) e t = (
    secret,
    refl,
    ground arith,
    ground (arith, text_beq_iff e.challenge.binding_hash b.binding_hash),
    ground (arith, text_beq_iff e.challenge.tool_name_hash b.tool_name_hash),
    ground (arith, text_beq_iff e.challenge.valid_arguments_hash b.valid_arguments_hash),
    ground (arith, text_beq_iff e.challenge.environment i.context.environment),
    ground (arith, text_beq_iff e.challenge.risk_level i.action.risk_level),
  )

  Approved-of_valid :
      (b : ActionBinding) (e : ApprovalEvidence)
      → i.context.approval ≡ some e
      → approval_valid h b i.context i.action i.approval_secret e current_time ≡ ok true
      → Approved b
  unfolding approval_valid
  Approved-of_valid b e given v =
      let (now, read_now, rest) = >>=-eq-ok _ _ v in
      elim (Bool-cases (approval_bound h b i.context i.action i.approval_secret e)) [
        | inl bound ↦
            let (expires, read_expires, last) = >>=-eq-ok _ _ (rw bound at rest) in
            let (secret, configured, verified, v1, v2, v3, v4, v5) = secret_of b _ e bound in
            record {
              evidence = e;
              given = given;
              secret = secret;
              configured = configured;
              verified = verified;
              same_binding = v1;
              same_tool = v2;
              same_arguments = v3;
              same_environment = v4;
              same_risk = v5;
              now = now;
              expires = expires;
              read_now = read_now;
              read_expires = read_expires;
              unexpired = ground arith;
            }
        | inr unbound ↦ cc (rw unbound at rest)
      ]

  Approved-of_check :
      (b : ActionBinding) (ri : Bool) (o : Option ApprovalEvidence)
      → i.context.approval ≡ o
      → approval_check h i b ri current_time o ≡ ok none
      → Approved b
  unfolding approval_check
  Approved-of_check b ri none given e = cc
  Approved-of_check b ri (some evidence) given e =
      let valid = approval_valid h b i.context i.action i.approval_secret evidence current_time in
      let (approved, is_valid, last) = >>=-eq-ok valid _ e in
      Approved-of_valid b evidence given
        (elim (Bool-cases approved) [ inl t ↦ cc (is_valid, t) | inr f ↦ cc (rw f at last) ])

  pub Approved-of :
      (b : ActionBinding) (ri ra : Bool)
      → approval_stage h i b ri current_time ra ≡ ok none
      → Needs ra (Approved b)
  unfolding approval_stage
  Approved-of b ri false e = tt
  Approved-of b ri true e = Approved-of_check b ri i.context.approval refl e
