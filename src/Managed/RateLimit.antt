-- ===== src/Managed/RateLimit.antt =====
-- packages/managed/src/rate-limit.ts: `FixedWindowRateLimiter`.
pub mod Bound
use managed_tool_call_schema.Base.{
  ℕ, ◌+◌, Text, leb, Option, none, some, List, [], ◌∷◌, if◌then◌else◌, ◌==◌, text_eq,
}
use managed_tool_call_schema.Core.Assoc.{lookup, insert}

pub record Window : Type 0 where
  pub started : ℕ
  pub count : ℕ

-- The limit and the length of a window in milliseconds.
module _ (limit window_ms : ℕ) where
  consume_existing :
      Option Window
      → List (Text × Window)
      → (key_id : Text) → (now : ℕ) → Option (List (Text × Window))
  consume_existing none windows key now =
      some (insert key (record { started = now; count = 1 }) windows)
  consume_existing (some w) windows key now =
      if leb (w.started + window_ms) now
      then some (insert key (record { started = now; count = 1 }) windows)
      else if leb limit w.count
      then none
      else some (insert key (record w { count = w.count + 1 }) windows)

  -- `consume`: the windows after the call, none for the error with status 429.
  unfoldable pub consume :
      List (Text × Window) → (key_id : Text) → (now : ℕ) → Option (List (Text × Window))
  unfolding consume_existing
  consume windows key now = consume_existing (lookup key windows) windows key now

  -- How many calls of a key are let through, of a sequence of calls of any keys.
  unfoldable pub let_through : (key_id : Text) → List (Text × ℕ) → List (Text × Window) → ℕ
  let_through key [] windows = 0
  let_through key ((k, now) ∷ calls) windows = elim (consume windows k now) [
    | none ↦ let_through key calls windows
    | some after ↦ (if k == key then 1 else 0) + let_through key calls after
  ]
