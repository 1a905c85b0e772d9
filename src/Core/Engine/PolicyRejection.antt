-- ===== src/Core/Engine/PolicyRejection.antt =====
-- packages/core/src/engine.ts: `rejectAcceptedDecisionByPolicy`.
use managed_tool_call_schema.Base.{
  ℕ, Text, lit, length, leb, text_eq, nat_eq, ◌==◌, ◌≡◌, refl, ap, suc, ◌≤◌, Bool, true, false,
  ◌&&◌, ◌||◌, all, any, some, none, List, [], ◌∷◌, map, arith, Bool-cases, inl, inr, if◌then◌else◌,
}
use managed_tool_call_schema.Json.{texts, end, field, str, arr, obj}
use managed_tool_call_schema.Json.Host.{Host}
use managed_tool_call_schema.Json.Canonical.{sha256}
use managed_tool_call_schema.Core.Result.{Result, ok, throw, type_error}
use managed_tool_call_schema.Core.Types.{
  AcceptedDecision, RejectedDecision, AuditEnvelope, PostValidation, PolicyCheck, passed,
  DecisionStatus, PolicyResult, PolicyOutcome, RepairRecord, policy_denied,
}
use managed_tool_call_schema.Core.Receipt.{
  finalize_repair_receipts, verify_repair_receipt, verify-finalize,
}

pub record Rejection : Type 0 where
  pub policy_id : Text
  pub policy_reasons : List Text
  pub reason : Text
  pub repair_hint : Text

within : ℕ → ℕ → ℕ → Bool
within low high c = leb low c && leb c high

is_id_start : ℕ → Bool
unfolding within
is_id_start c = within 97 122 c || within 48 57 c

is_id_unit : ℕ → Bool
unfolding is_id_start
is_id_unit c = is_id_start c || any (λ (d : ℕ). d == c) (lit "._-")

-- `/^[a-z0-9][a-z0-9._-]{0,127}$/u`
is_policy_id : Text → Bool
unfolding is_id_start is_id_unit
is_policy_id [] = false
is_policy_id (c ∷ s) = is_id_start c && leb (length s) 127 && all is_id_unit s

fits : Text → Bool
fits reason = leb 1 (length reason) && leb (length reason) 512

unfoldable pub rejection_ok : Rejection → Bool
unfolding is_policy_id fits
rejection_ok i =
    is_policy_id i.policy_id
    && leb 1 (length i.policy_reasons)
    && all fits i.policy_reasons
    && leb 1 (length i.reason)
    && leb (length i.reason) 1000
    && leb (length i.repair_hint) 1000

abbrev denying : PostValidation
denying = record { schema = passed; policy = PolicyCheck.denied }

module _ (h : Host) where
  denied_result : AcceptedDecision → Rejection → PolicyResult
  denied_result d i = record {
    outcome = PolicyOutcome.denied;
    applied_policy_hash = sha256 h (
        obj (
          field (lit "upstream_policy_hash") (str d.policy_result.applied_policy_hash) (
            field (lit "policy_id") (str i.policy_id)
              (field (lit "reasons") (arr (texts i.policy_reasons)) end))));
    reasons = i.policy_reasons;
  }

  denied_audit : AcceptedDecision → List RepairRecord → PolicyResult → AuditEnvelope
  denied_audit d repairs policy = record (d.audit) {
    decision = DecisionStatus.rejected;
    reason_code = some policy_denied;
    repair_receipt_hashes = map (λ (r : RepairRecord). r.receipt_hash) repairs;
    policy_hash = policy.applied_policy_hash;
    validated_arguments_hash = none;
  }

  rejection : AcceptedDecision → Rejection → RejectedDecision
  unfolding denied_result denied_audit
  rejection d i =
      let repairs = finalize_repair_receipts h d.repaired_fields denying in
      let policy = denied_result d i in
      record {
        reason_code = policy_denied;
        reason = i.reason;
        repair_hint = i.repair_hint;
        repaired_fields = repairs;
        policy_result = policy;
        audit_id = d.audit_id;
        audit = denied_audit d repairs policy;
        validation_errors = none;
      }

  unfoldable pub reject_accepted_decision_by_policy :
      AcceptedDecision → Rejection → Result RejectedDecision
  unfolding rejection
  reject_accepted_decision_by_policy d i =
      if rejection_ok i
      then ok (rejection d i)
      else throw (type_error (lit "external policy rejection metadata is invalid"))

-- What a rejection by an outer policy keeps of the decision, and that its audit agrees with it.
pub record IsDenial (h : Host) (d : AcceptedDecision) (r : RejectedDecision) : Type 0 where
  pub denied : r.policy_result.outcome ≡ PolicyOutcome.denied
  pub has_reason : 1 ≤ length r.policy_result.reasons
  pub same_policy : r.audit.policy_hash ≡ r.policy_result.applied_policy_hash
  pub same_receipts :
      r.audit.repair_receipt_hashes ≡ map (λ (x : RepairRecord). x.receipt_hash) r.repaired_fields
  pub renewed : all (verify_repair_receipt h) r.repaired_fields ≡ true
  pub same_repairs : length r.repaired_fields ≡ length d.repaired_fields
  pub code : r.reason_code ≡ policy_denied
  pub same_code : r.audit.reason_code ≡ some r.reason_code
  pub rejected : r.audit.decision ≡ DecisionStatus.rejected
  pub same_id : r.audit_id ≡ d.audit_id
  pub same_arguments : r.audit.arguments_hash ≡ d.audit.arguments_hash
  pub not_accepted : r.audit.validated_arguments_hash ≡ none

all_verify :
    (h : Host) (rs : List RepairRecord)
    → all (verify_repair_receipt h) (finalize_repair_receipts h rs denying) ≡ true
unfolding finalize_repair_receipts
all_verify h [] = refl
all_verify h (r ∷ rs) = rw (verify-finalize h denying r) (all_verify h rs)

same_count :
    (h : Host) (rs : List RepairRecord) → length (finalize_repair_receipts h rs denying) ≡ length rs
unfolding finalize_repair_receipts
same_count h [] = refl
same_count h (r ∷ rs) = ap suc (same_count h rs)

rejection-IsDenial :
    (h : Host) (d : AcceptedDecision) (i : Rejection)
    → rejection_ok i ≡ true
    → IsDenial h d (rejection h d i)
unfolding rejection rejection_ok denied_result denied_audit
rejection-IsDenial h d i fine = record {
  denied = refl;
  has_reason = ground arith;
  same_policy = refl;
  same_receipts = refl;
  renewed = all_verify h d.repaired_fields;
  same_repairs = same_count h d.repaired_fields;
  code = refl;
  same_code = refl;
  rejected = refl;
  same_id = refl;
  same_arguments = refl;
  not_accepted = refl;
}

-- When an outer policy rejects an accepted decision, the result is a denial with a reason and with
-- the code for a denied policy. Its audit says rejected, and has that code, the hash of the new
-- policy result, the hashes of the renewed receipts, the hash of the arguments of the request, and
-- none of accepted arguments. Each receipt verifies.
pub reject_accepted_decision_by_policy-IsDenial :
    (h : Host) (d : AcceptedDecision) (i : Rejection) (r : RejectedDecision)
    → reject_accepted_decision_by_policy h d i ≡ ok r
    → IsDenial h d r
unfolding reject_accepted_decision_by_policy
reject_accepted_decision_by_policy-IsDenial h d i r e = elim (Bool-cases (rejection_ok i)) [
  | inl fine ↦
      let same : rejection h d i ≡ r = cc (rw fine at e) in
      rw same at (rejection-IsDenial h d i fine)
  | inr wrong ↦ cc (rw wrong at e)
]
