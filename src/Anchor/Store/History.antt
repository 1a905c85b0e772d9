-- ===== src/Anchor/Store/History.antt =====
-- packages/anchor-receiver/src/store.ts: the store over every sequence of calls.
use mathlib.Core.Path.{subst}
use managed_tool_call_schema.Base.{
  ℕ, Text, length, ◌==◌, text_eq, nat_eq, ◌≡◌, refl, true, false, Bool-cases, inl, inr, [], arith,
}
use managed_tool_call_schema.Json.Host.{Host}
use managed_tool_call_schema.Json.Number.{is_nan}
use managed_tool_call_schema.Core.Assoc.{lookup}
use managed_tool_call_schema.Core.Result.{ok, >>=-eq-ok}
use managed_tool_call_schema.Anchor.Event.{AnchorEvent, IsTyped}
use managed_tool_call_schema.Anchor.Store.{
  AnchorStore, AnchorIngestResult, done, top_from, verify, verify_chain, count_distinct, ingest,
  assert_fresh, submit,
}
use managed_tool_call_schema.Anchor.Store.Sound.{IsSound, IsSound-verify}
use managed_tool_call_schema.Anchor.Store.Steps.{ingest-IsSound}

abbrev pub empty_store : ℕ → AnchorStore
empty_store n = record { events = []; latest = []; observed_data_version = n }

module _ (h : Host) (secret : Text) where
  -- A call that returns, whose event is any with strings for its identifiers and a number for its
  -- revision, or the refresh that
  -- a call makes first and that alone remains of a call whose transaction throws.
  pub data Step (s s' : AnchorStore) : Type 0 where
    submitted :
        (current : ℕ) (e : AnchorEvent) (body now : Text) (result : AnchorIngestResult)
        → IsTyped e
        → is_nan e.checkpoint.revision ≡ false
        → submit h secret current s e body now ≡ ok (done result s')
        → Step s s'
    refreshed : (current : ℕ) → assert_fresh h secret current s ≡ ok s' → Step s s'

  pub data Reach (s : AnchorStore) : AnchorStore → Type 0 where
    here : Reach s s
    next : {t u : AnchorStore} → Reach s t → Step t u → Reach s u

  pub empty-IsSound : (n : ℕ) → IsSound h secret (empty_store n)
  unfolding lookup verify_chain count_distinct top_from
  empty-IsSound n = record {
    chain_valid = refl;
    chain_checked = refl;
    numbers = tt;
    one_each = tt;
    counted = refl;
    in_step = λ t. refl;
  }

  unfoldable pub moved : AnchorStore → ℕ → AnchorStore
  moved s n = record s { observed_data_version = n }

  pub moved-IsSound : (s : AnchorStore) (n : ℕ) → IsSound h secret s → IsSound h secret (moved s n)
  unfolding moved
  moved-IsSound s n i = record {
    chain_valid = i.chain_valid;
    chain_checked = i.chain_checked;
    numbers = i.numbers;
    one_each = i.one_each;
    counted = i.counted;
    in_step = i.in_step;
  }

  pub fresh-tables :
      (current : ℕ) (s s' : AnchorStore)
      → assert_fresh h secret current s ≡ ok s'
      → (s'.events ≡ s.events) × (s'.latest ≡ s.latest)
  unfolding assert_fresh
  fresh-tables current s s' e = ground arith

  pub fresh-moved :
      (current : ℕ) (s s' : AnchorStore)
      → assert_fresh h secret current s ≡ ok s'
      → (n : ℕ) × (moved s n ≡ s')
  unfolding assert_fresh moved
  fresh-moved current s s' e = elim (Bool-cases (current == s.observed_data_version)) [
    | inl same ↦ (s.observed_data_version, cc (rw same at e))
    | inr other ↦ elim (Bool-cases (verify h secret s).valid) [
      | inl valid ↦ (current, cc (rw (other, valid) at e))
      | inr invalid ↦ cc (rw (other, invalid) at e)
    ]
  ]

  -- A call is a move of the data version and a transaction.
  pub submit-parts :
      (current : ℕ) (s s' : AnchorStore) (e : AnchorEvent) (body now : Text)
      (result : AnchorIngestResult)
      → submit h secret current s e body now ≡ ok (done result s')
      → (n : ℕ) × (ingest h secret (moved s n) e body now ≡ done result s')
  unfolding submit
  submit-parts current s s' e body now result q =
      let (t, fresh, rest) = >>=-eq-ok (assert_fresh h secret current s) _ q in
      let (n, same) = fresh-moved current s t fresh in (n, rw same (cc rest))

  pub Step-IsSound : (s s' : AnchorStore) → Step s s' → IsSound h secret s → IsSound h secret s'
  Step-IsSound s s' (submitted current e body now result typed n q) i =
      let (m, p) = submit-parts current s s' e body now result q in
      ingest-IsSound h secret (moved s m) s' e body now result (moved-IsSound s m i) typed n p
  Step-IsSound s s' (refreshed current e) i =
      let (m, same) = fresh-moved current s s' e in
      subst (IsSound h secret) same (moved-IsSound s m i)

  pub Reach-IsSound : {s s' : AnchorStore} → Reach s s' → IsSound h secret s → IsSound h secret s'
  Reach-IsSound here i = i
  Reach-IsSound (next {t = t} {u = u} r st) i = Step-IsSound t u st (Reach-IsSound r i)

  -- After any calls on an empty store, whose events have strings for their identifiers and numbers
  -- for their revisions, the verification succeeds, and it has checked every event.
  pub verify-Reach :
      (n : ℕ) (s : AnchorStore)
      → Reach (empty_store n) s
      → ((verify h secret s).valid ≡ true) × ((verify h secret s).checked ≡ length s.events)
  verify-Reach n s r = IsSound-verify h secret s (Reach-IsSound r (empty-IsSound n))
