-- ===== src/Anchor/Store/Steps.antt =====
-- packages/anchor-receiver/src/store.ts: the invariant of the store, over one `ingest`.
use managed_tool_call_schema.Base.{
  ℕ, Text, lit, length-append, ◌==◌, text_eq, text_beq_iff, text_beq_refl, ◌≡◌, refl, ap, sym, ◌∙◌,
  ◌⊎◌, true, false, Bool-cases, inl, inr, Option, none, some, is_some, List, [], ◌∷◌, ◌++◌, elem,
  arith, All-append,
}
use mathlib.Core.Path.{subst}
use managed_tool_call_schema.Json.Host.{Host}
use managed_tool_call_schema.Json.Number.{is_nan, num_lt, num_same}
use managed_tool_call_schema.Json.Number.Order.{num_total}
use managed_tool_call_schema.Core.Assoc.{lookup, lookup-insert}
use managed_tool_call_schema.Anchor.Event.{AnchorEvent, IsTyped, identifier_json}
use managed_tool_call_schema.Anchor.Store.{
  EventRow, LatestRow, AnchorStore, AnchorIngestResult, done, last_hash, genesis, higher, top_from,
  tenants, linked, write, latest_of, new_row, event_hash, written_hash, is_same, ingest,
  ingest_found, ingest_new, find_event,
}
use managed_tool_call_schema.Anchor.Store.Tables.{
  Distinct-insert, length-insert, count_distinct-append, tenants-append, top_from-append,
  is_some-top_from, verify_chain-append,
}
use managed_tool_call_schema.Anchor.Store.Sound.{summary, IsNumber, IsSound, top_from-NumberOr}

is_some-summary : (o : Option EventRow) → is_some (summary o) ≡ is_some o
is_some-summary none = refl
is_some-summary (some r) = refl

none_of_summary : (o : Option EventRow) → summary o ≡ none → o ≡ none
none_of_summary none p = refl
none_of_summary (some r) p = cc

pub some_of_summary :
    (o : Option EventRow) (l : LatestRow)
    → summary o ≡ some l
    → (r : EventRow) × (o ≡ some r) × (latest_of r ≡ l)
some_of_summary none l p = cc
some_of_summary (some r) l p = (r, refl, cc p)

abbrev IsBelow : Option EventRow → ℕ → Type 0
IsBelow none x = Unit
IsBelow (some r) x = num_lt r.revision x ≡ true

abbrev pub IsPast : Option LatestRow → ℕ → Type 0
IsPast none x = Unit
IsPast (some l) x = (num_lt x l.revision ≡ false) × (num_same x l.revision ≡ false)

later-IsBelow :
    (best : EventRow) (l : LatestRow) (x : ℕ)
    → latest_of best ≡ l
    → IsNumber best
    → is_nan x ≡ false
    → num_lt x l.revision ≡ false
    → num_same x l.revision ≡ false
    → IsBelow (some best) x
unfolding latest_of
later-IsBelow best l x is_l n m on further =
    let same : best.revision ≡ l.revision = ap (λ (k : LatestRow). k.revision) is_l in
    num_total x best.revision m n (cc (same, on)) (cc (same, further))

module _ (h : Host) (secret : Text) where
  write-IsSound :
      (s : AnchorStore) (r : EventRow)
      → IsSound h secret s
      → IsNumber r
      → linked h secret (last_hash genesis s.events) r ≡ true
      → higher r (top_from none r.tenant_ref s.events) ≡ r
      → IsSound h secret (write s r)
  unfolding write
  write-IsSound s r i n l top =
      let chain = verify_chain-append h secret genesis 0 s.events r i.chain_valid l in
      let known : is_some (lookup r.tenant_ref s.latest) ≡ elem r.tenant_ref (tenants s.events) =
        ap is_some (i.in_step r.tenant_ref)
        ∙ is_some-summary _
        ∙ is_some-top_from none r.tenant_ref s.events in
      record {
        chain_valid = chain.0;
        chain_checked = omega (arith, chain.1, length-append s.events (r ∷ []));
        numbers = All-append IsNumber s.events (r ∷ []) i.numbers (n, tt);
        one_each = Distinct-insert r.tenant_ref (latest_of r) s.latest i.one_each;
        counted =
            rw
              (
                tenants-append s.events r,
                count_distinct-append r.tenant_ref (tenants s.events),
                length-insert r.tenant_ref (latest_of r) s.latest,
                known,
                i.counted,
              )
              refl;
        in_step = λ t. in_step t;
      }
    where
      in_step :
          (t : Text) → lookup t (write s r).latest ≡ summary (top_from none t (write s r).events)
      in_step t =
          rw
            (lookup-insert r.tenant_ref t (latest_of r) s.latest, top_from-append none t s.events r)
            (elim (Bool-cases (r.tenant_ref == t)) [
              | inl same ↦
                  let here : higher r (top_from none t s.events) ≡ r =
                    subst (λ u. higher r (top_from none u s.events) ≡ r)
                      ((text_beq_iff r.tenant_ref t).0 same) top in
                  rw (same, here) refl
              | inr other ↦ rw other (i.in_step t)
            ])

  -- The hash of a row whose identifiers are strings is the one that the table gives.
  written-event_hash :
      (e : AnchorEvent) (r : EventRow)
      → r.event_id ≡ e.event_id.bound
      → r.tenant_ref ≡ e.checkpoint.tenant_ref.bound
      → r.checkpoint_hash ≡ e.checkpoint.checkpoint_hash.bound
      → IsTyped e
      → written_hash h secret e r ≡ event_hash h secret r
  unfolding written_hash event_hash identifier_json
  written-event_hash e r i t c typed =
      rw (typed.typed_id, typed.typed_tenant, typed.typed_hash, i, t, c) refl

  new_row-linked :
      (events : List EventRow) (e : AnchorEvent) (body now : Text)
      → IsTyped e
      → linked h secret (last_hash genesis events) (new_row h secret events e body now) ≡ true
  unfolding linked new_row written_hash
  new_row-linked events e body now typed =
      let row = new_row h secret events e body now in
      let same : row.event_hash ≡ event_hash h secret row =
        written-event_hash e row refl refl refl typed in
      rw (text_beq_refl (last_hash genesis events))
        ((text_beq_iff row.event_hash (event_hash h secret row)).1 same)

  written-IsSound :
      (s : AnchorStore) (e : AnchorEvent) (body now : Text) (o : Option EventRow)
      → IsSound h secret s
      → IsTyped e
      → is_nan e.checkpoint.revision ≡ false
      → top_from none e.checkpoint.tenant_ref.bound s.events ≡ o
      → IsBelow o e.checkpoint.revision
      → IsSound h secret (write s (new_row h secret s.events e body now))
  unfolding new_row higher
  written-IsSound s e body now none i typed n p b =
      write-IsSound s (new_row h secret s.events e body now) i n
        (new_row-linked s.events e body now typed) (rw p refl)
  written-IsSound s e body now (some r) i typed n p b =
      write-IsSound s (new_row h secret s.events e body now) i n
        (new_row-linked s.events e body now typed) (rw (p, b) refl)

  -- A transaction that returns leaves the tables, or writes a row that is past the latest one.
  pub ingest-cases :
      (s s' : AnchorStore) (e : AnchorEvent) (body now : Text) (result : AnchorIngestResult)
      → ingest h secret s e body now ≡ done result s'
      → (s ≡ s')
        ⊎ ((write s (new_row h secret s.events e body now) ≡ s')
            × IsPast (lookup e.checkpoint.tenant_ref.bound s.latest) e.checkpoint.revision)
  unfolding ingest ingest_found ingest_new
  ingest-cases s s' e body now result q = found (find_event e.event_id.bound s.events) q
    where
      Cases : Option LatestRow → Type 0
      Cases o =
          (s ≡ s')
          ⊎ ((write s (new_row h secret s.events e body now) ≡ s') × IsPast o e.checkpoint.revision)

      fresh : (o : Option LatestRow) → ingest_new h secret o s e body now ≡ done result s' → Cases o
      fresh none q = inr (cc q, tt)
      fresh (some l) q = elim (Bool-cases (num_lt e.checkpoint.revision l.revision)) [
        | inl back ↦ cc (rw back at q)
        | inr on ↦ elim (Bool-cases (num_same e.checkpoint.revision l.revision)) [
          | inl equal ↦ elim (Bool-cases (is_same e.checkpoint.checkpoint_hash l.checkpoint_hash)) [
            | inl again ↦ inl (cc (rw (on, equal, again) at q))
            | inr other ↦ cc (rw (on, equal, other) at q)
          ]
          | inr further ↦ inr (cc (rw (on, further) at q), (on, further))
        ]
      ]

      found :
          (o : Option EventRow)
          → ingest_found h secret o s e body now ≡ done result s'
          → Cases (lookup e.checkpoint.tenant_ref.bound s.latest)
      found (some r) q = elim (Bool-cases (r.body_hash == lit "sha256:" ++ h.sha256_hex body)) [
        | inl again ↦ inl (cc (rw again at q))
        | inr other ↦ cc (rw other at q)
      ]
      found none q = fresh (lookup e.checkpoint.tenant_ref.bound s.latest) q

  -- `ingest` keeps the log a chain and the latest rows in step with it.
  pub ingest-IsSound :
      (s s' : AnchorStore) (e : AnchorEvent) (body now : Text) (result : AnchorIngestResult)
      → IsSound h secret s
      → IsTyped e
      → is_nan e.checkpoint.revision ≡ false
      → ingest h secret s e body now ≡ done result s'
      → IsSound h secret s'
  ingest-IsSound s s' e body now result i typed n q = elim (ingest-cases s s' e body now result q) [
    | inl same ↦ subst (IsSound h secret) same i
    | inr (written, past) ↦
        subst (IsSound h secret) written
          (past-IsSound (lookup e.checkpoint.tenant_ref.bound s.latest) refl past)
  ]
    where
      past-IsSound :
          (o : Option LatestRow)
          → lookup e.checkpoint.tenant_ref.bound s.latest ≡ o
          → IsPast o e.checkpoint.revision
          → IsSound h secret (write s (new_row h secret s.events e body now))
      past-IsSound none p past =
          written-IsSound s e body now none i typed n
            (none_of_summary _ (sym (i.in_step e.checkpoint.tenant_ref.bound) ∙ p)) tt
      past-IsSound (some l) p (on, further) =
          let (best, top, is_l) =
            some_of_summary _ l (sym (i.in_step e.checkpoint.tenant_ref.bound) ∙ p) in
          let number =
            rw top at
              (top_from-NumberOr none e.checkpoint.tenant_ref.bound s.events tt i.numbers) in
          written-IsSound s e body now (some best) i typed n top
            (later-IsBelow best l e.checkpoint.revision is_l number n on further)
