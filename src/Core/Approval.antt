-- ===== src/Core/Approval.antt =====
-- packages/core/src/action.ts: the binding of an action and the approval of a challenge.
pub mod Roundtrip
use managed_tool_call_schema.Base.{
  ℕ, ◌-◌, Text, lit, starts_with, length, ltb, leb, ◌==◌, nat_eq, text_eq, Bool, true, false, not,
  ◌&&◌, ◌||◌, Option, none, some, List, [], ◌∷◌, ◌++◌, map, if◌then◌else◌,
}
use managed_tool_call_schema.Json.{Json, obj, str, arr, field, end, texts}
use managed_tool_call_schema.Json.Host.{Host}
use managed_tool_call_schema.Json.Canonical.{canonical_json, sha256}
use managed_tool_call_schema.Core.Result.{Result, ok, throw, type_error, ◌>>=◌, ◌>>◌, require}
use managed_tool_call_schema.Core.Types.{
  AcceptedDecision, GuardDecision, accept, refuse, RepairRecord, protocol_version, status_of,
  status_text,
}

pub record ActionDescriptor : Type 0 where
  pub tool_name : Text
  pub risk_level : Text
  pub side_effect : Text

pub record ActionBinding : Type 0 where
  pub tool_name_hash : Text
  pub valid_arguments_hash : Text
  pub binding_hash : Text

-- The challenge's version is a constant.
pub record ApprovalChallenge : Type 0 where
  pub challenge_id : Text
  pub binding_hash : Text
  pub tool_name_hash : Text
  pub valid_arguments_hash : Text
  pub risk_level : Text
  pub environment : Text
  pub created_at : Text
  pub expires_at : Text

-- The evidence without its signature.
pub record UnsignedEvidence : Type 0 where
  pub challenge : ApprovalChallenge
  pub approver_id_hash : Text
  pub approved_at : Text

pub record ApprovalEvidence : Type 0 where
  pub unsigned : UnsignedEvidence
  pub open unsigned use *
  pub signature : Text

challenge_json : ApprovalChallenge → Json
challenge_json c = obj (
    field (lit "challenge_version") (str (lit "2026-07-20")) (
      field (lit "challenge_id") (str c.challenge_id) (
        field (lit "tool_name_hash") (str c.tool_name_hash) (
          field (lit "valid_arguments_hash") (str c.valid_arguments_hash) (
            field (lit "binding_hash") (str c.binding_hash) (
              field (lit "risk_level") (str c.risk_level) (
                field (lit "environment") (str c.environment) (
                  field (lit "created_at") (str c.created_at)
                    (field (lit "expires_at") (str c.expires_at) end)))))))))

evidence_json : UnsignedEvidence → Json
unfolding challenge_json
evidence_json e = obj (
    field (lit "challenge") (challenge_json e.challenge) (
      field (lit "approver_id_hash") (str e.approver_id_hash)
        (field (lit "approved_at") (str e.approved_at) end)))

module _ (h : Host) where
  valid_date_of : Option ℕ → Text → Result ℕ
  valid_date_of none name = throw (type_error (name ++ lit " must be an ISO timestamp"))
  valid_date_of (some t) name = ok t

  unfoldable pub valid_date : Text → Text → Result ℕ
  unfolding valid_date_of
  valid_date value name = valid_date_of (h.date_parse value) name

  -- The object whose hash binds an execution.
  unfoldable pub binding_json : AcceptedDecision → ActionDescriptor → Text → Json
  binding_json d a environment = obj (
      field (lit "protocol_version") (str protocol_version) (
        field (lit "tool_name_hash") (str (sha256 h (str a.tool_name))) (
          field (lit "valid_arguments_hash") (str (sha256 h d.valid_arguments)) (
            field (lit "policy_hash") (str d.policy_result.applied_policy_hash) (
              field (lit "validation_decision") (str (status_text (status_of d))) (
                field (lit "repair_receipt_hashes")
                  (arr (texts (map (λ (r : RepairRecord). r.receipt_hash) d.repaired_fields)))
                  (field (lit "risk_level") (str a.risk_level) (
                    field (lit "side_effect") (str a.side_effect)
                      (field (lit "environment") (str environment) end)))))))))

  unfoldable pub action_binding : GuardDecision → ActionDescriptor → Text → Result ActionBinding
  action_binding (refuse d) a environment =
      throw (type_error (lit "a rejected validation decision cannot be bound for execution"))
  action_binding (accept d) a environment = do
    let tool_name_hash = sha256 h (str a.tool_name)
    require
        (not (starts_with (lit "sha256:") d.audit.tool_name_hash)
          || d.audit.tool_name_hash == tool_name_hash)
        (lit "action descriptor tool name does not match the validation decision")
    ok (record {
      tool_name_hash = tool_name_hash;
      valid_arguments_hash = sha256 h d.valid_arguments;
      binding_hash = sha256 h (binding_json d a environment);
    })

  approval_payload : UnsignedEvidence → Text
  unfolding evidence_json
  approval_payload e = canonical_json h (evidence_json e)

  -- `hmac-sha256:` and the keyed hash of the purpose, a zero and the message
  keyed_hash : Text → Text → Text → Result Text
  keyed_hash purpose secret message = do
    require (leb 32 (length secret)) (lit "approval secret must contain at least 32 characters")
    ok (lit "hmac-sha256:" ++ h.hmac_hex secret (purpose ++ 0 ∷ message))

  unfoldable pub approval_signature : Text → UnsignedEvidence → Result Text
  unfolding keyed_hash approval_payload
  approval_signature secret e =
      keyed_hash (lit "schema-guard-approval-v1") secret (approval_payload e)

  unfoldable pub private_identity_hash : Text → Text → Result Text
  unfolding keyed_hash
  private_identity_hash secret identity =
      keyed_hash (lit "schema-guard-approval-identity-v1") secret identity

  -- `random_id` is what `ach_${randomUUID()}` gives.
  unfoldable pub create_approval_challenge :
      GuardDecision
      → ActionDescriptor
      → (environment created_at expires_at : Text) → (challenge_id : Option Text) (random_id : Text)
      → Result ApprovalChallenge
  create_approval_challenge d a environment created_at expires_at challenge_id random_id = do
    created ← valid_date created_at (lit "created_at")
    expires ← valid_date expires_at (lit "expires_at")
    require (not (leb expires created || ltb 86400000 (expires - created)))
        (lit "approval challenge lifetime must be greater than zero and at most 24 hours")
    binding ← action_binding d a environment
    ok (record {
      challenge_id = elim challenge_id [ some given ↦ given | none ↦ random_id ];
      binding_hash = binding.binding_hash;
      tool_name_hash = binding.tool_name_hash;
      valid_arguments_hash = binding.valid_arguments_hash;
      risk_level = a.risk_level;
      environment = environment;
      created_at = h.iso_string created;
      expires_at = h.iso_string expires;
    })

  unfoldable pub approve_challenge :
      ApprovalChallenge → (approver_id approved_at secret : Text) → Result ApprovalEvidence
  approve_challenge c approver_id approved_at secret = do
    approved ← valid_date approved_at (lit "approved_at")
    created ← valid_date c.created_at (lit "challenge.created_at")
    expires ← valid_date c.expires_at (lit "challenge.expires_at")
    require (not (ltb approved created || ltb expires approved))
        (lit "approval must occur within the challenge lifetime")
    require (ltb 0 (length approver_id)) (lit "approver_id is required")
    approver_id_hash ← private_identity_hash secret approver_id
    let evidence : UnsignedEvidence = record {
      challenge = c;
      approver_id_hash = approver_id_hash;
      approved_at = h.iso_string approved;
    }
    signature ← approval_signature secret evidence
    ok (record { unsigned = evidence; signature = signature })

  -- Equal lengths and `timingSafeEqual`: the same bytes.
  same_bytes : Text → Text → Bool
  same_bytes s t = h.buffer s == h.buffer t

  verify_signature : Text → Result Text → Bool
  unfolding same_bytes
  verify_signature signature (throw e) = false
  verify_signature signature (ok expected) = same_bytes signature expected

  unfoldable pub verify_approval_evidence : ApprovalEvidence → Text → Bool
  unfolding verify_signature
  verify_approval_evidence e secret =
      verify_signature e.signature (approval_signature secret e.unsigned)
