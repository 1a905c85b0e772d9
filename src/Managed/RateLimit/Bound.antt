-- ===== src/Managed/RateLimit/Bound.antt =====
-- packages/managed/src/rate-limit.ts: how many calls of a key a window lets through.
use managed_tool_call_schema.Base.{
  ℕ, ◌+◌, ◌≤◌, ◌<◌, Text, leb, Bool-cases, Option, none, some, Option-cases, List, [], ◌∷◌,
  if◌then◌else◌, ◌==◌, text_eq, text_beq_iff, text_beq_refl, ◌≡◌, refl, sym, inl, inr, true, false,
  arith, All,
}
use mathlib.Core.Path.{subst}
use managed_tool_call_schema.Core.Assoc.{lookup, insert, lookup-insert}
use managed_tool_call_schema.Managed.RateLimit.{Window, consume_existing, consume, let_through}

module _ (limit window_ms : ℕ) (key : Text) where
  -- A call of another key leaves the window of this one.
  other-kept :
      (windows after : List (Text × Window)) (k : Text) (now : ℕ)
      → (k == key) ≡ false
      → consume limit window_ms windows k now ≡ some after
      → lookup key after ≡ lookup key windows
  unfolding consume consume_existing
  other-kept windows after k now other e = go (lookup k windows) e
    where
      inserted :
          (w : Window)
          → some (insert k w windows) ≡ some after
          → lookup key after ≡ lookup key windows
      inserted w q =
          let same : insert k w windows ≡ after = cc q in
          subst (λ ws. lookup key ws ≡ lookup key windows) same
            (rw (lookup-insert k key w windows, other) refl)

      go :
          (o : Option Window)
          → consume_existing limit window_ms o windows k now ≡ some after
          → lookup key after ≡ lookup key windows
      go none q = inserted _ q
      go (some w) q = elim (Bool-cases (leb (w.started + window_ms) now)) [
        | inl over ↦ inserted _ (rw over at q)
        | inr running ↦ elim (Bool-cases (leb limit w.count)) [
          | inl full ↦ cc (rw (running, full) at q)
          | inr room ↦ inserted _ (rw (running, room) at q)
        ]
      ]

  abbrev one_more : Window → Window
  one_more w = record w { count = w.count + 1 }

  own-call :
      (windows : List (Text × Window)) (w : Window) (now : ℕ)
      → lookup key windows ≡ some w
      → now < w.started + window_ms
      → consume limit window_ms windows key now
        ≡ (if leb limit w.count then none else some (insert key (one_more w) windows))
  unfolding consume consume_existing
  own-call windows w now p inside = rw p (ground arith)

  -- The call is one of another key, or falls before the end of the window.
  abbrev pub IsInside : Window → Text × ℕ → Type 0
  IsInside w call = (call.0 == key) ≡ true → call.1 < w.started + window_ms

  -- Within a window, the calls that are let through and those that were come to the limit at most.
  pub let_through-limit :
      (calls : List (Text × ℕ)) (windows : List (Text × Window)) (w : Window)
      → lookup key windows ≡ some w
      → All (IsInside w) calls
      → w.count ≤ limit
      → let_through limit window_ms key calls windows + w.count ≤ limit
  unfolding let_through
  let_through-limit [] windows w p inside fits = omega arith
  let_through-limit ((k, now) ∷ calls) windows w p (first, inside) fits =
      elim (Bool-cases (k == key)) [
        | inl mine ↦
            let is_key : k ≡ key = (text_beq_iff k key).0 mine in
            let called =
              subst
                (λ t.
                  consume limit window_ms windows t now
                  ≡ (if leb limit w.count then none else some (insert key (one_more w) windows)))
                (sym is_key) (own-call windows w now p (first mine)) in
            elim (Bool-cases (leb limit w.count)) [
              | inl full ↦
                  rw (called, full, let_through) (let_through-limit calls windows w p inside fits)
              | inr room ↦
                  let after = insert key (one_more w) windows in
                  let found : lookup key after ≡ some (one_more w) =
                    rw (lookup-insert key key (one_more w) windows, text_beq_refl key) refl in
                  let rest =
                    let_through-limit calls after (one_more w) found inside (ground arith) in
                  rw (called, room, mine, let_through) (omega arith)
            ]
        | inr other ↦ elim (Option-cases (consume limit window_ms windows k now)) [
          | inl refused ↦
              rw (refused, let_through) (let_through-limit calls windows w p inside fits)
          | inr (after, taken) ↦
              let found : lookup key after ≡ some w =
                cc (other-kept windows after k now other taken, p) in
              rw (taken, other, let_through)
                (omega (arith, let_through-limit calls after w found inside fits))
        ]
      ]
