-- ===== src/Anchor/Store/Retry.antt =====
-- packages/anchor-receiver/src/store.ts: the sender may deliver an event more than once.
use mathlib.Core.Path.{subst}
use managed_tool_call_schema.Base.{
  true, false, Text, lit, ◌==◌, text_eq, text_beq_refl, ◌≡◌, ◌≢◌, refl, sym, ap, Bool-cases, ◌⊎◌,
  Option-cases, inl, inr, Option, none, some, List, [], ◌∷◌, ◌++◌,
}
use managed_tool_call_schema.Json.Host.{Host}
use managed_tool_call_schema.Json.Number.{num_lt, num_same}
use managed_tool_call_schema.Core.Assoc.{lookup}
use managed_tool_call_schema.Anchor.Event.{AnchorEvent}
use managed_tool_call_schema.Anchor.Store.Steps.{ingest-cases}
use managed_tool_call_schema.Anchor.Store.History.{
  Step, submitted, refreshed, Reach, here, next, moved, submit-parts, fresh-moved,
}
use managed_tool_call_schema.Anchor.Store.{
  is_same, EventRow, LatestRow, AnchorStore, AnchorIngestResult, done, write, new_row, accepted,
  IngestStatus, stored, advanced, replay, duplicate, ingest, ingest_found, ingest_new, find_event,
}

find_event-append :
    (id : Text) (rs : List EventRow) (r : EventRow)
    → find_event id rs ≡ none
    → r.event_id ≡ id
    → find_event id (rs ++ r ∷ []) ≡ some r
unfolding find_event
find_event-append id [] r p e = rw (e, text_beq_refl id) refl
find_event-append id (x ∷ rs) r p e = elim (Bool-cases (x.event_id == id)) [
  | inl same ↦ cc (rw same at p)
  | inr other ↦ rw other (find_event-append id rs r (rw other at p) e)
]

find_event-kept :
    (id : Text) (rs : List EventRow) (x r : EventRow)
    → find_event id rs ≡ some r
    → find_event id (rs ++ x ∷ []) ≡ some r
unfolding find_event
find_event-kept id [] x r p = cc p
find_event-kept id (y ∷ rs) x r p = elim (Bool-cases (y.event_id == id)) [
  | inl same ↦ rw same (rw same at p)
  | inr other ↦ rw other (find_event-kept id rs x r (rw other at p))
]

-- A row of the log stays, whatever calls follow.
module _ (h : Host) (secret id : Text) (r : EventRow) where
  ingest-kept :
      (s s' : AnchorStore) (e : AnchorEvent) (body now : Text) (result : AnchorIngestResult)
      → find_event id s.events ≡ some r
      → ingest h secret s e body now ≡ done result s'
      → find_event id s'.events ≡ some r
  unfolding write
  ingest-kept s s' e body now result p q = elim (ingest-cases h secret s s' e body now result q) [
    | inl same ↦ subst (λ t. find_event id t.events ≡ some r) same p
    | inr (written, past) ↦
        subst (λ t. find_event id t.events ≡ some r) written
          (find_event-kept id s.events (new_row h secret s.events e body now) r p)
  ]

  Step-kept :
      (s s' : AnchorStore)
      → Step h secret s s'
      → find_event id s.events ≡ some r
      → find_event id s'.events ≡ some r
  unfolding moved
  Step-kept s s' (submitted current e body now result typed n q) p =
      let (m, taken) = submit-parts h secret current s s' e body now result q in
      ingest-kept (moved h secret s m) s' e body now result p taken
  Step-kept s s' (refreshed current e) p =
      let (m, same) = fresh-moved h secret current s s' e in
      subst (λ t. find_event id t.events ≡ some r) same p

  Reach-kept :
      {s s' : AnchorStore}
      → Reach h secret s s'
      → find_event id s.events ≡ some r
      → find_event id s'.events ≡ some r
  Reach-kept here p = p
  Reach-kept (next {t = t} {u = u} reached st) p = Step-kept t u st (Reach-kept reached p)

module _ (h : Host) (secret : Text) (e : AnchorEvent) (body now later : Text) where
  -- A row has the event's identifier and the body's digest, and the result's revision and hash.
  abbrev HasRow : AnchorIngestResult → AnchorStore → Type 0
  HasRow result s =
      (r : EventRow) × (find_event e.event_id.bound s.events ≡ some r)
      × ((r.body_hash == lit "sha256:" ++ h.sha256_hex body) ≡ true)
      × (r.revision ≡ result.revision)
      × (r.checkpoint_hash ≡ result.checkpoint_hash.bound)

  -- The second delivery gives the result of the first, and changes nothing.
  pub record IsRepeated (result : AnchorIngestResult) (s : AnchorStore) : Type 0 where
    pub again : AnchorIngestResult
    pub accepted_again : ingest h secret s e body later ≡ done again s
    pub same_revision : again.revision ≡ result.revision
    pub same_hash : again.checkpoint_hash.bound ≡ result.checkpoint_hash.bound

  row-IsRepeated :
      (result : AnchorIngestResult) (s : AnchorStore) → HasRow result s → IsRepeated result s
  unfolding ingest ingest_found
  row-IsRepeated result s (r, found, mine, v, c) = record {
    again = record {
      status = duplicate;
      revision = r.revision;
      checkpoint_hash = record { bound = r.checkpoint_hash; boxed = false };
    };
    accepted_again = rw (found, mine) refl;
    same_revision = v;
    same_hash = c;
  }

  written-HasRow :
      (status : IngestStatus) (s : AnchorStore) (result : AnchorIngestResult)
      → find_event e.event_id.bound s.events ≡ none
      → accepted status e ≡ result
      → HasRow result (write s (new_row h secret s.events e body now))
  unfolding write new_row accepted
  written-HasRow status s result p is_result = (
    new_row h secret s.events e body now,
    find_event-append e.event_id.bound s.events (new_row h secret s.events e body now) p refl,
    text_beq_refl (lit "sha256:" ++ h.sha256_hex body),
    ap (λ (a : AnchorIngestResult). a.revision) is_result,
    ap (λ (a : AnchorIngestResult). a.checkpoint_hash.bound) is_result,
  )

  -- What is taken has a row, or is the replay of a tenant's latest checkpoint, which is stored nowhere.
  ingest-taken :
      (s s' : AnchorStore) (result : AnchorIngestResult)
      → ingest h secret s e body now ≡ done result s'
      → HasRow result s'
        ⊎ ((result.status ≡ replay) × (s ≡ s') × (ingest h secret s e body later ≡ done result s))
  unfolding ingest ingest_found ingest_new accepted
  ingest-taken s s' result q = elim (Option-cases (find_event e.event_id.bound s.events)) [
    | inr (r, p) ↦ elim (Bool-cases (r.body_hash == lit "sha256:" ++ h.sha256_hex body)) [
      | inr other ↦ cc (rw (p, other) at q)
      | inl mine ↦
          let same : s ≡ s' = cc (rw (p, mine) at q) in
          let is_result = done_result (rw (p, mine) at q) in
          inl (
            subst (HasRow result) same (
              r,
              p,
              mine,
              ap (λ (a : AnchorIngestResult). a.revision) is_result,
              ap (λ (a : AnchorIngestResult). a.checkpoint_hash.bound) is_result,
            ))
    ]
    | inl p ↦ fresh p (lookup e.checkpoint.tenant_ref.bound s.latest) refl (rw p at q)
  ]
    where
      Taken : Type 0
      Taken =
          HasRow result s'
          ⊎ ((result.status ≡ replay) × (s ≡ s') × (ingest h secret s e body later ≡ done result s))

      done_result : {a b : AnchorIngestResult} {t u : AnchorStore} → done a t ≡ done b u → a ≡ b
      done_result x = cc x

      taken :
          (status : IngestStatus)
          → find_event e.event_id.bound s.events ≡ none
          → done (accepted status e) (write s (new_row h secret s.events e body now))
            ≡ done result s'
          → HasRow result s'
      taken status p q =
          let written : write s (new_row h secret s.events e body now) ≡ s' = cc q in
          subst (HasRow result) written (written-HasRow status s result p (done_result q))

      fresh :
          find_event e.event_id.bound s.events ≡ none
          → (o : Option LatestRow) → lookup e.checkpoint.tenant_ref.bound s.latest ≡ o
          → ingest_new h secret o s e body now ≡ done result s'
          → Taken
      fresh p none f q = inl (taken stored p q)
      fresh p (some l) f q = elim (Bool-cases (num_lt e.checkpoint.revision l.revision)) [
        | inl back ↦ cc (rw back at q)
        | inr on ↦ elim (Bool-cases (num_same e.checkpoint.revision l.revision)) [
          | inr further ↦ inl (taken advanced p (rw (on, further) at q))
          | inl equal ↦ elim (Bool-cases (is_same e.checkpoint.checkpoint_hash l.checkpoint_hash)) [
            | inr other ↦ cc (rw (on, equal, other) at q)
            | inl mine ↦
                let same : s ≡ s' = cc (rw (on, equal, mine) at q) in
                let is_result = done_result (rw (on, equal, mine) at q) in
                inr (
                  sym (ap (λ (a : AnchorIngestResult). a.status) is_result),
                  same,
                  rw (p, f, on, equal, mine) (ap (λ (a : AnchorIngestResult). done a s) is_result),
                )
          ]
        ]
      ]

  -- An event that was taken can be delivered again at once, on the store that its first delivery
  -- left: it is taken again with the same revision and hash, and the store does not change.
  pub ingest-IsRepeated :
      (s s' : AnchorStore) (result : AnchorIngestResult)
      → ingest h secret s e body now ≡ done result s'
      → IsRepeated result s'
  ingest-IsRepeated s s' result q = elim (ingest-taken s s' result q) [
    | inl row ↦ row-IsRepeated result s' row
    | inr (replayed, same, again) ↦
        subst (IsRepeated result) same (record {
          again = result;
          accepted_again = again;
          same_revision = refl;
          same_hash = refl;
        })
  ]

  -- An event that was taken, and not as a replay, can be delivered again later: after any calls
  -- that follow, whose events have strings for their identifiers and numbers for their revisions,
  -- it is taken again with the same revision and hash, and the store does not change.
  pub Reach-IsRepeated :
      (s s' s'' : AnchorStore) (result : AnchorIngestResult)
      → ingest h secret s e body now ≡ done result s'
      → result.status ≢ replay
      → Reach h secret s' s''
      → IsRepeated result s''
  Reach-IsRepeated s s' s'' result q no_replay reached = elim (ingest-taken s s' result q) [
    | inl (r, found, mine, v, c) ↦
        row-IsRepeated result s''
          (r, Reach-kept h secret e.event_id.bound r reached found, mine, v, c)
    | inr (replayed, same, again) ↦ absurd (no_replay replayed)
  ]
