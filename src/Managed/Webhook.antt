-- ===== src/Managed/Webhook.antt =====
-- packages/managed/src/webhook.ts: where a webhook may go, its signature, and what a delivery
-- comes to.
pub mod Safe
use managed_tool_call_schema.Base.{
  ℕ, Text, lit, ltb, leb, ◌==◌, nat_eq, text_eq, Bool, true, false, not, ◌&&◌, ◌||◌, any, elem,
  keep, Option, none, some, get_or, List, [], ◌∷◌, ◌++◌, if◌then◌else◌,
}
use managed_tool_call_schema.Json.Host.{Host}
use managed_tool_call_schema.Json.Number.{double_of}

pub record DeliveryResult : Type 0 where
  pub delivered : Bool
  pub retryable : Bool
  pub response_status : Option ℕ
  pub error_code : Option Text

pub record Address : Type 0 where
  pub address : Text
  pub family : ℕ

-- `signAlertWebhookPayload`
unfoldable pub sign_alert_webhook_payload : Host → (signing_secret timestamp payload : Text) → Text
sign_alert_webhook_payload h secret timestamp payload =
    lit "v1=" ++ h.hmac_hex secret (timestamp ++ lit "." ++ payload)

-- The four numbers of an address.
reserved_range : (a b c : ℕ) → Bool
reserved_range a b c =
    a == 0
    || a == 10
    || a == 127
    || leb 224 a
    || a == 100 && leb 64 b && leb b 127
    || a == 169 && b == 254
    || a == 172 && leb 16 b && leb b 31
    || a == 192 && b == 0 && c == 0
    || a == 192 && b == 0 && c == 2
    || a == 192 && b == 168
    || a == 198 && (b == 18 || b == 19)
    || a == 198 && b == 51 && c == 100
    || a == 203 && b == 0 && c == 113

-- `isIP` and the numbers of `split`, which the packages of Node give: the numbers of an IPv4
-- address, none for any other text.
unfoldable pub is_public_ipv4 : (ipv4 : Text → Option (ℕ × ℕ × ℕ × ℕ)) → Text → Bool
unfolding reserved_range
is_public_ipv4 ipv4 address = elim (ipv4 address) [
  | none ↦ false
  | some (a, b, c, d) ↦ not (reserved_range a b c)
]

pub data Resolution : Type 0 where
  resolved : Text → Resolution
  unsafe_destination dns_timeout dns_failed : Resolution

module _ (ipv4 : Text → Option (ℕ × ℕ × ℕ × ℕ)) where
  is_ipv4 : Address → Bool
  is_ipv4 a = a.family == 4

  first_address : List Address → Resolution
  first_address [] = unsafe_destination
  first_address (a ∷ rest) = resolved a.address

  -- `resolveSafeAddress`, of what the name was looked up to.
  unfoldable pub resolve_safe_address : List Address → Resolution
  unfolding is_ipv4 first_address
  resolve_safe_address addresses =
      if any (λ (a : Address). a.family == 4 && not (is_public_ipv4 ipv4 a.address)) addresses
      then unsafe_destination
      else first_address (keep is_ipv4 addresses)

-- What the name server does in the time that is given.
pub data Lookup : Type 0 where
  found : List Address → Lookup
  failed timed_out : Lookup

-- What ends the request, once it was sent to an address.
pub data Outcome : Type 0 where
  response : (status : Option ℕ) → Outcome
  request_timeout network_error : Outcome

refused : (retryable : Bool) → Text → Option Text × DeliveryResult
refused retryable code = (
  none,
  record {
    delivered = false;
    retryable = retryable;
    response_status = none;
    error_code = some code;
  },
)

module _ (h : Host) where
  status_result : ℕ → DeliveryResult
  status_result status =
      if leb 200 status && ltb status 300
      then record {
        delivered = true;
        retryable = false;
        response_status = some status;
        error_code = none;
      }
      else record {
        delivered = false;
        retryable = status == 408 || status == 425 || status == 429 || leb 500 status;
        response_status = if status == 0 then none else some status;
        error_code = some (
            if leb 300 status && ltb status 400
            then lit "redirect_refused"
            else lit "http_"
              ++ (if status == 0 then lit "unknown" else h.number_text (double_of status)));
      }

  outcome_result : Outcome → DeliveryResult
  unfolding status_result
  outcome_result (response status) = status_result (get_or status 0)
  outcome_result request_timeout = record {
    delivered = false;
    retryable = true;
    response_status = none;
    error_code = some (lit "request_timeout");
  }
  outcome_result network_error = record {
    delivered = false;
    retryable = true;
    response_status = none;
    error_code = some (lit "network_error");
  }

  -- What follows the lookup: the request, pinned to the address, with what it comes to.
  deliver_resolved : Resolution → (send : Text → Outcome) → Option Text × DeliveryResult
  unfolding refused outcome_result
  deliver_resolved (resolved address) send = (some address, outcome_result (send address))
  deliver_resolved unsafe_destination send = refused false (lit "unsafe_destination")
  deliver_resolved dns_timeout send = refused true (lit "dns_timeout")
  deliver_resolved dns_failed send = refused true (lit "dns_failed")

  -- `deliverAlertWebhook`, with the address that a request was sent to, if one was.
  unfoldable pub deliver_alert_webhook :
      (ipv4 : Text → Option (ℕ × ℕ × ℕ × ℕ))
      → (valid_url : Bool) → Lookup
      → (send : Text → Outcome) → Option Text × DeliveryResult
  unfolding refused deliver_resolved
  deliver_alert_webhook ipv4 false l send = refused false (lit "invalid_endpoint")
  deliver_alert_webhook ipv4 true failed send = deliver_resolved dns_failed send
  deliver_alert_webhook ipv4 true timed_out send = deliver_resolved dns_timeout send
  deliver_alert_webhook ipv4 true (found addresses) send =
      deliver_resolved (resolve_safe_address ipv4 addresses) send
