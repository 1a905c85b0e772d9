-- ===== src/Anchor/Store/Rollback.antt =====
-- packages/anchor-receiver/src/store.ts: what the store answers to an event that goes back.
use mathlib.Core.Path.{subst}
use managed_tool_call_schema.Base.{
  arith, ℕ, Text, ◌==◌, text_eq, text_beq_iff, nat_eq, ◌≡◌, ◌≢◌, refl, sym, ap, ◌∙◌, ◌⊎◌, true,
  false, Bool-cases, inl, inr, none, some,
}
use managed_tool_call_schema.Json.Host.{Host}
use managed_tool_call_schema.Json.Number.{is_nan, num_lt, num_same}
use managed_tool_call_schema.Json.Number.Order.{
  num_same_refl, num_total, num_lt_trans, num_lt-same, num_same-lt, num_same_trans, num_same-not_lt,
}
use managed_tool_call_schema.Core.Assoc.{lookup, lookup-insert}
use managed_tool_call_schema.Anchor.Event.{AnchorEvent, Identifier}
use managed_tool_call_schema.Anchor.Store.{
  is_same, LatestRow, AnchorStore, AnchorIngestResult, ConflictCode, rollback_detected,
  integrity_conflict, done, conflict, write, latest_of, new_row, ingest, ingest_found, ingest_new,
  find_event,
}
use managed_tool_call_schema.Anchor.Store.Sound.{IsSound, top_from-NumberOr}
use managed_tool_call_schema.Anchor.Store.Steps.{IsPast, ingest-cases, some_of_summary}
use managed_tool_call_schema.Anchor.Store.History.{
  Step, submitted, refreshed, Reach, here, next, moved, moved-IsSound, submit-parts, fresh-moved,
  Reach-IsSound,
}

ne_test : (a b : Text) → a ≢ b → (a == b) ≡ false
ne_test a b n = elim (Bool-cases (a == b)) [
  | inl same ↦ absurd (n ((text_beq_iff a b).0 same))
  | inr other ↦ other
]

other_text : (i : Identifier) (t : Text) → i.bound ≢ t → is_same i t ≡ false
unfolding is_same
other_text i t n = ground (arith, ne_test i.bound t n)

module _ (h : Host) (secret : Text) where
  -- `l'` is `l` again, or later.
  abbrev pub IsAtLeast : LatestRow → LatestRow → Type 0
  IsAtLeast l l' =
      (num_lt l.revision l'.revision ≡ true)
      ⊎ ((num_same l.revision l'.revision ≡ true) × (l.checkpoint_hash ≡ l'.checkpoint_hash))

  IsAtLeast-trans : (a b c : LatestRow) → IsAtLeast a b → IsAtLeast b c → IsAtLeast a c
  IsAtLeast-trans a b c (inl p) (inl q) = inl (num_lt_trans a.revision b.revision c.revision p q)
  IsAtLeast-trans a b c (inl p) (inr (q, e)) =
      inl (num_lt-same a.revision b.revision c.revision p q)
  IsAtLeast-trans a b c (inr (p, d)) (inl q) =
      inl (num_same-lt a.revision b.revision c.revision p q)
  IsAtLeast-trans a b c (inr (p, d)) (inr (q, e)) =
      inr (num_same_trans a.revision b.revision c.revision p q, d ∙ e)

  latest-number :
      (s : AnchorStore) (t : Text) (l : LatestRow)
      → IsSound h secret s
      → lookup t s.latest ≡ some l
      → is_nan l.revision ≡ false
  unfolding latest_of
  latest-number s t l i p =
      let (best, top, is_l) = some_of_summary _ l (sym (i.in_step t) ∙ p) in
      let number = rw top at (top_from-NumberOr none t s.events tt i.numbers) in
      let same : best.revision ≡ l.revision = ap (λ (k : LatestRow). k.revision) is_l in
      cc (same, number)

  abbrev pub Kept : AnchorStore → Text → LatestRow → Type 0
  Kept s t l = (l' : LatestRow) × (lookup t s.latest ≡ some l') × IsAtLeast l l'

  same-Kept :
      (s : AnchorStore) (t : Text) (l : LatestRow)
      → IsSound h secret s
      → lookup t s.latest ≡ some l
      → Kept s t l
  same-Kept s t l i p =
      (l, p, inr (num_same_refl l.revision l.revision (latest-number s t l i p), refl))

  write-Kept :
      (s : AnchorStore) (e : AnchorEvent) (body now t : Text) (l : LatestRow)
      → IsSound h secret s
      → is_nan e.checkpoint.revision ≡ false
      → lookup t s.latest ≡ some l
      → IsPast (lookup e.checkpoint.tenant_ref.bound s.latest) e.checkpoint.revision
      → Kept (write s (new_row h secret s.events e body now)) t l
  unfolding write new_row latest_of
  write-Kept s e body now t l i n p past = elim (Bool-cases (e.checkpoint.tenant_ref.bound == t)) [
    | inl mine ↦
        let tenant : e.checkpoint.tenant_ref.bound ≡ t =
          (text_beq_iff e.checkpoint.tenant_ref.bound t).0 mine in
        let before : lookup e.checkpoint.tenant_ref.bound s.latest ≡ some l =
          subst (λ u. lookup u s.latest ≡ some l) (sym tenant) p in
        let (on, further) = rw before at past in
        (
          latest_of (new_row h secret s.events e body now),
          rw
              (
                lookup-insert e.checkpoint.tenant_ref.bound t
                    (latest_of (new_row h secret s.events e body now)) s.latest,
                mine,
              )
              refl,
          inl (num_total e.checkpoint.revision l.revision n (latest-number s t l i p) on further),
        )
    | inr other ↦ (
      l,
      rw
          (
            lookup-insert e.checkpoint.tenant_ref.bound t
                (latest_of (new_row h secret s.events e body now)) s.latest,
            other,
          )
          p,
      inr (num_same_refl l.revision l.revision (latest-number s t l i p), refl),
    )
  ]

  ingest-Kept :
      (s s' : AnchorStore) (e : AnchorEvent) (body now t : Text) (result : AnchorIngestResult)
      (l : LatestRow)
      → IsSound h secret s
      → is_nan e.checkpoint.revision ≡ false
      → lookup t s.latest ≡ some l
      → ingest h secret s e body now ≡ done result s'
      → Kept s' t l
  ingest-Kept s s' e body now t result l i n p q =
      elim (ingest-cases h secret s s' e body now result q) [
        | inl same ↦ subst (λ u. Kept u t l) same (same-Kept s t l i p)
        | inr (written, past) ↦
            subst (λ u. Kept u t l) written (write-Kept s e body now t l i n p past)
      ]

  Step-Kept :
      (s s' : AnchorStore) (t : Text) (l : LatestRow)
      → Step h secret s s'
      → IsSound h secret s
      → lookup t s.latest ≡ some l
      → Kept s' t l
  unfolding moved
  Step-Kept s s' t l (submitted current e body now result typed n q) i p =
      let (m, r) = submit-parts h secret current s s' e body now result q in
      ingest-Kept (moved h secret s m) s' e body now t result l (moved-IsSound h secret s m i) n p r
  Step-Kept s s' t l (refreshed current e) i p =
      let (m, same) = fresh-moved h secret current s s' e in
      subst (λ u. Kept u t l) same
        (same-Kept (moved h secret s m) t l (moved-IsSound h secret s m i) p)

  pub Reach-Kept :
      {s s' : AnchorStore} (t : Text) (l : LatestRow)
      → Reach h secret s s'
      → IsSound h secret s
      → lookup t s.latest ≡ some l
      → Kept s' t l
  Reach-Kept {s = s} t l here i p = same-Kept s t l i p
  Reach-Kept {s' = s'} t l (next {t = u} r st) i p =
      let (l1, p1, a1) = Reach-Kept t l r i p in
      let (l2, p2, a2) = Step-Kept u s' t l1 st (Reach-IsSound h secret r i) p1 in
      (l2, p2, IsAtLeast-trans l l1 l2 a1 a2)

  -- An event of the tenant that goes back behind `l`, or gives its revision another hash.
  abbrev pub IsForged : LatestRow → AnchorEvent → Type 0
  IsForged l e =
      (num_lt e.checkpoint.revision l.revision ≡ true)
      ⊎ ((num_same e.checkpoint.revision l.revision ≡ true)
          × (e.checkpoint.checkpoint_hash.bound ≢ l.checkpoint_hash))

  refused-back :
      (o : LatestRow) (s : AnchorStore) (e : AnchorEvent) (body now : Text)
      → num_lt e.checkpoint.revision o.revision ≡ true
      → (c : ConflictCode) × (ingest_new h secret (some o) s e body now ≡ conflict c)
  unfolding ingest_new
  refused-back o s e body now back = (rollback_detected, rw back refl)

  refused-other :
      (o : LatestRow) (s : AnchorStore) (e : AnchorEvent) (body now : Text)
      → num_same e.checkpoint.revision o.revision ≡ true
      → e.checkpoint.checkpoint_hash.bound ≢ o.checkpoint_hash
      → (c : ConflictCode) × (ingest_new h secret (some o) s e body now ≡ conflict c)
  unfolding ingest_new
  refused-other o s e body now equal other = (
    integrity_conflict,
    rw
        (
          num_same-not_lt e.checkpoint.revision o.revision equal,
          equal,
          other_text e.checkpoint.checkpoint_hash o.checkpoint_hash other,
        )
        refl,
  )

  -- Once a tenant's checkpoint is the latest one in a sound store, then after any further calls,
  -- whose events have strings for their identifiers and numbers for their revisions, an event with
  -- a new identifier that goes back behind it, or that gives its revision another hash, is refused.
  pub forged_refused :
      (s s' : AnchorStore) (l : LatestRow) (e : AnchorEvent) (body now : Text)
      → IsSound h secret s
      → lookup e.checkpoint.tenant_ref.bound s.latest ≡ some l
      → Reach h secret s s'
      → find_event e.event_id.bound s'.events ≡ none
      → IsForged l e
      → (c : ConflictCode) × (ingest h secret s' e body now ≡ conflict c)
  unfolding ingest ingest_found
  forged_refused s s' l e body now i p r fresh forged =
      let (l', p', later) = Reach-Kept e.checkpoint.tenant_ref.bound l r i p in
      rw (fresh, p') (refused l' forged later)
    where
      x : ℕ
      x = e.checkpoint.revision

      refused :
          (o : LatestRow)
          → IsForged l e
          → IsAtLeast l o
          → (c : ConflictCode) × (ingest_new h secret (some o) s' e body now ≡ conflict c)
      refused o (inl back) (inl later) =
          refused-back o s' e body now (num_lt_trans x l.revision o.revision back later)
      refused o (inl back) (inr (same, hash)) =
          refused-back o s' e body now (num_lt-same x l.revision o.revision back same)
      refused o (inr (equal, other)) (inl later) =
          refused-back o s' e body now (num_same-lt x l.revision o.revision equal later)
      refused o (inr (equal, other)) (inr (same, hash)) =
          refused-other o s' e body now (num_same_trans x l.revision o.revision equal same)
            (λ q. other (q ∙ sym hash))
