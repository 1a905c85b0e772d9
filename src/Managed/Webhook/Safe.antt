-- ===== src/Managed/Webhook/Safe.antt =====
-- packages/managed/src/webhook.ts: where a delivery sends its request, and what it reports.
use managed_tool_call_schema.Base.{
  ℕ, ◌+◌, ◌≤◌, Text, ◌==◌, nat_eq, text_beq_refl, Bool, true, false, not, ◌&&◌, any, keep,
  Bool-cases, Option, some, List, [], ◌∷◌, ◌≡◌, inl, inr, arith,
}
use managed_tool_call_schema.Json.Host.{Host}
use managed_tool_call_schema.Anchor.Receiver.{verify_transport_signature, in_window, secret_equal}
use managed_tool_call_schema.Managed.Webhook.{
  Address, sign_alert_webhook_payload, is_public_ipv4, is_ipv4, first_address, Resolution, resolved,
  unsafe_destination, dns_timeout, dns_failed, resolve_safe_address, Lookup, found, failed,
  timed_out, Outcome, deliver_resolved, refused, deliver_alert_webhook,
}

module _ (ipv4 : Text → Option (ℕ × ℕ × ℕ × ℕ)) where
  abbrev unsafe : Address → Bool
  unsafe a = a.family == 4 && not (is_public_ipv4 ipv4 a.address)

  first-public :
      (rest : List Address) (t : Text)
      → any unsafe rest ≡ false
      → first_address ipv4 (keep (is_ipv4 ipv4) rest) ≡ resolved t
      → is_public_ipv4 ipv4 t ≡ true
  unfolding first_address is_ipv4
  first-public [] t n e = cc e
  first-public (a ∷ rest) t n e = elim (Bool-cases (a.family == 4)) [
    | inr other ↦ first-public rest t (ground arith) (rw other at e)
    | inl four ↦
        let same : a.address ≡ t = cc (rw four at e) in
        let public : is_public_ipv4 ipv4 a.address ≡ true = ground arith in cc (same, public)
  ]

  resolve-public :
      (rest : List Address) (t : Text)
      → resolve_safe_address ipv4 rest ≡ resolved t
      → is_public_ipv4 ipv4 t ≡ true
  unfolding resolve_safe_address
  resolve-public rest t e = elim (Bool-cases (any unsafe rest)) [
    | inl found_unsafe ↦ cc (rw found_unsafe at e)
    | inr none_unsafe ↦ first-public rest t none_unsafe (rw none_unsafe at e)
  ]

  module _ (h : Host) (send : Text → Outcome) where
    sent_to : (r : Resolution) (t : Text) → (deliver_resolved h r send).0 ≡ some t → r ≡ resolved t
    unfolding deliver_resolved refused
    sent_to (resolved u) t e = cc e
    sent_to unsafe_destination t e = cc e
    sent_to dns_timeout t e = cc e
    sent_to dns_failed t e = cc e

    -- Whatever the name server answers, a request is sent to a public address only.
    pub deliver-public :
        (valid : Bool) (l : Lookup) (t : Text)
        → (deliver_alert_webhook h ipv4 valid l send).0 ≡ some t
        → is_public_ipv4 ipv4 t ≡ true
    unfolding deliver_alert_webhook refused
    deliver-public false l t e = cc e
    deliver-public true failed t e = cc (sent_to dns_failed t e)
    deliver-public true timed_out t e = cc (sent_to dns_timeout t e)
    deliver-public true (found rest) t e =
        resolve-public rest t (sent_to (resolve_safe_address ipv4 rest) t e)

-- Both signatures are made of the same text: one that is sent in time is accepted by the receiver.
pub sign-verify :
    (h : Host) (secret timestamp payload : Text) (sent now : ℕ)
    → h.date_parse timestamp ≡ some sent
    → now ≤ sent + 300000
    → sent ≤ now + 300000
    → verify_transport_signature h secret timestamp payload
        (sign_alert_webhook_payload h secret timestamp payload)
        now
      ≡ true
unfolding verify_transport_signature sign_alert_webhook_payload secret_equal in_window
sign-verify h secret timestamp payload sent now p late early =
    let same = text_beq_refl (h.buffer (sign_alert_webhook_payload h secret timestamp payload)) in
    rw p (ground (arith, same))
