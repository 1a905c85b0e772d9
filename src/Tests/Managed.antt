-- ===== src/Tests/Managed.antt =====
-- The managed control plane at work: two claims and one worker, a delivery to a public address,
-- and a rate limit of two calls.
use mathlib.Core.List.{Perm}
use managed_tool_call_schema.Base.{
  ℕ, ◌+◌, ◌*◌, ◌≤◌, Text, lit, text_beq, text_eq, length, ◌≡◌, ◌⊎◌, refl, true, none, some, Option,
  List, [], ◌∷◌, arith,
}
use managed_tool_call_schema.Core.Assoc.{lookup}
use managed_tool_call_schema.Anchor.Receiver.{verify_transport_signature}
use managed_tool_call_schema.Managed.Dispatch.{
  Claim, Dispatch, Step, Run, IsOver, start, begin, then_step, take, settle, leave, counted,
  now_delivered, now_pending,
}
use managed_tool_call_schema.Managed.Dispatch.Delivered.{over-Perm, Run-ends}
use managed_tool_call_schema.Managed.Webhook.{
  Lookup, found, Outcome, response, is_public_ipv4, resolve_safe_address, deliver_alert_webhook,
  sign_alert_webhook_payload,
}
use managed_tool_call_schema.Managed.Webhook.Safe.{deliver-public, sign-verify}
use managed_tool_call_schema.Managed.RateLimit.{Window, let_through}
use managed_tool_call_schema.Managed.RateLimit.Bound.{let_through-limit}
use managed_tool_call_schema.Tests.Host.{small_host}

abbrev claim : Text → Claim
claim id = record {
  delivery_id = id;
  lease_id = id;
  endpoint = [];
  signing_secret = [];
  payload = [];
}

abbrev claims : List Claim
claims = claim (lit "a") ∷ claim (lit "b") ∷ []

abbrev after_run : Dispatch
after_run = record {
  waiting = [];
  at_head = 0;
  delivering = [];
  finished = claim (lit "a") ∷ claim (lit "b") ∷ [];
  summary = record { claimed = 2; delivered = 1; retrying = 1; dead = 0 };
}

-- The second claim is settled first.
two_deliveries : Run (start none claims) 6 after_run
unfolding start counted
two_deliveries =
    then_step
      (then_step
        (then_step
          (then_step (then_step (then_step begin (take _ _ 1 refl refl)) (take _ _ 0 refl refl))
            (settle (some now_delivered) (claim (lit "b")) [] (claim (lit "a") ∷ []) refl))
          (settle (some now_pending) (claim (lit "a")) [] [] refl))
        (leave 1 refl refl))
      (leave 0 refl refl)

over-Perm_example :
    Perm after_run.finished claims
    × (after_run.summary.delivered + after_run.summary.retrying + after_run.summary.dead
        ≤ length claims)
over-Perm_example = over-Perm none claims two_deliveries (refl, refl)

Run-ends_example :
    (6 ≤ 4 * length claims) × (IsOver after_run ⊎ ((u : Dispatch) × Step after_run u))
Run-ends_example = Run-ends none claims two_deliveries

-- One address is read, the one that is written 8.8.8.8.
abbrev ipv4 : Text → Option (ℕ × ℕ × ℕ × ℕ)
ipv4 t = some (8, 8, 8, 8)

abbrev send : Text → Outcome
send t = response (some 200)

abbrev looked_up : Lookup
looked_up = found (record { address = lit "8.8.8.8"; family = 4 } ∷ [])

was_sent : (deliver_alert_webhook small_host ipv4 true looked_up send).0 ≡ some (lit "8.8.8.8")
unfolding deliver_alert_webhook resolve_safe_address is_public_ipv4
was_sent = refl

deliver-public_example : is_public_ipv4 ipv4 (lit "8.8.8.8") ≡ true
deliver-public_example = deliver-public ipv4 small_host send true looked_up (lit "8.8.8.8") was_sent

sign-verify_example :
    verify_transport_signature small_host
      (lit "k")
      (lit "now")
      (lit "{}")
      (sign_alert_webhook_payload small_host (lit "k") (lit "now") (lit "{}"))
      4
    ≡ true
unfolding lit
sign-verify_example =
    sign-verify small_host (lit "k") (lit "now") (lit "{}") 3 4 refl (omega arith) (omega arith)

abbrev windows : List (Text × Window)
windows = (lit "k", record { started = 10; count = 1 }) ∷ []

abbrev calls : List (Text × ℕ)
calls = (lit "k", 11) ∷ (lit "k", 12) ∷ (lit "k", 13) ∷ []

has_window : lookup (lit "k") windows ≡ some (record { started = 10; count = 1 })
unfolding lookup text_beq lit
has_window = refl

let_through-limit_example : let_through 2 60 (lit "k") calls windows + 1 ≤ 2
let_through-limit_example =
    let_through-limit 2 60 (lit "k") calls windows (record { started = 10; count = 1 }) has_window
      ((λ same. omega arith), ((λ same. omega arith), ((λ same. omega arith), tt))) (omega arith)
