-- ===== src/Core/Ledger/Lifecycle.antt =====
-- packages/core/src/action.ts: the life of one key of the in-memory ledger, as a step relation.
use managed_tool_call_schema.Base.{
  Text, ◌==◌, text_eq, text_beq_iff, ◌≡◌, ◌≢◌, refl, ap, ◌∙◌, sym, ◌⊎◌, ◌↔◌, inl, inr, Option, none,
  some, arith, if◌then◌else◌, Option-cases, Bool-cases,
}
use managed_tool_call_schema.Core.Result.{ok}
use managed_tool_call_schema.Core.Assoc.{lookup, lookup-insert, lookup-remove}
use managed_tool_call_schema.Core.Ledger.{
  new, duplicate, conflict, Entry, pending, completed, Entries, reserve, complete, release,
  release_state,
}

-- A call of the class that returns; the keys and fingerprints are the callers' choice.
pub data Step : Entries → Entries → Type 0 where
  reserved : {m : Entries} (k f : Text) → Step m (reserve k f m).1
  finished : {m n : Entries} (k f : Text) → complete k f m ≡ ok n → Step m n
  released : {m n : Entries} (k f : Text) → release k f m ≡ ok n → Step m n

pub data Reach (m : Entries) : Entries → Type 0 where
  here : Reach m m
  next : {n o : Entries} → Reach m n → Step n o → Reach m o

-- The entry of a key after `reserve`.
abbrev pub after_reserve : Text → Option Entry → Entry
after_reserve f none = record { fingerprint = f; state = pending }
after_reserve f (some e) = e

kept_lookup :
    (k f j : Text) (m : Entries)
    → lookup j (reserve k f m).1
      ≡ (if k == j then some (after_reserve f (lookup k m)) else lookup j m)
unfolding reserve
kept_lookup k f j m = elim (Option-cases (lookup k m)) [
  | inl e ↦ rw e (lookup-insert k j _ m)
  | inr (a, e) ↦ ground (arith, text_beq_iff k j)
]

-- The entry of the key has a fingerprint that satisfies the condition.
abbrev pub HasEntry : Text → Entries → (Text → Type 0) → Type 0
HasEntry k m P = (e : Entry) × (lookup k m ≡ some e) × P e.fingerprint

print_of :
    {o : Option Entry} (a b : Entry) → o ≡ some a → o ≡ some b → b.fingerprint ≡ a.fingerprint
print_of a b p q = let same : b ≡ a = cc (p, q) in ap (λ (x : Entry). x.fingerprint) same

-- `reserve` answers `new` exactly for a key with no entry, `duplicate` exactly for a key whose entry
-- has the same fingerprint, and `conflict` exactly for one whose entry has another. It binds a key
-- with no entry, as pending, to the fingerprint; a key that has an entry keeps it, and no other key
-- changes.
pub reserve_lookup :
    (k f j : Text) (m : Entries)
    → ((reserve k f m).0 ≡ new ↔ lookup k m ≡ none)
      × ((reserve k f m).0 ≡ duplicate ↔ HasEntry k m (λ g. g ≡ f))
      × ((reserve k f m).0 ≡ conflict ↔ HasEntry k m (λ g. g ≢ f))
      × (lookup j (reserve k f m).1
          ≡ (if k == j then some (after_reserve f (lookup k m)) else lookup j m))
unfolding reserve
reserve_lookup k f j m = elim (Option-cases (lookup k m)) [
  | inl e ↦ (
    rw e (λ _. refl, λ _. refl),
    rw e ((λ x. cc x), λ (a, p, same). cc p),
    rw e ((λ x. cc x), λ (a, p, same). cc p),
    kept_lookup k f j m,
  )
  | inr (a, e) ↦ elim (Bool-cases (a.fingerprint == f)) [
    | inl same ↦
        let own = (text_beq_iff a.fingerprint f).0 same in
        (
          ((λ x. cc (rw (e, same) at x)), λ x. cc (x, e)),
          ((λ x. (a, e, own)), λ x. rw (e, same) refl),
          ((λ x. cc (rw (e, same) at x)), λ (b, p, other). absurd (other (print_of a b e p ∙ own))),
          kept_lookup k f j m,
        )
    | inr differs ↦
        let other : a.fingerprint ≢ f = λ q. cc (differs, (text_beq_iff a.fingerprint f).1 q) in
        (
          ((λ x. cc (rw (e, differs) at x)), λ x. cc (x, e)),
          (
            (λ x. cc (rw (e, differs) at x)),
            λ (b, p, own). absurd (other (sym (print_of a b e p) ∙ own)),
          ),
          ((λ x. (a, e, other)), λ x. rw (e, differs) refl),
          kept_lookup k f j m,
        )
  ]
]

-- `complete` and `release` at one key.
complete_lookup :
    (k f j : Text) (m n : Entries)
    → complete k f m ≡ ok n
    → (e : Entry) × (lookup k m ≡ some e)
      × (e.fingerprint ≡ f)
      × (lookup j n
          ≡ (if k == j then some (record { fingerprint = f; state = completed }) else lookup j m))
unfolding complete
complete_lookup k f j m n h = elim (Option-cases (lookup k m)) [
  | inl e ↦ ground arith
  | inr (a, e) ↦ (
    a,
    e,
    ground (arith, text_beq_iff a.fingerprint f),
    ground (
      arith,
      text_beq_iff a.fingerprint f,
      lookup-insert k j (record { fingerprint = a.fingerprint; state = completed }) m,
    ),
  )
]

release_lookup :
    (k f j : Text) (m n : Entries)
    → release k f m ≡ ok n
    → (lookup k m ≡ some (record { fingerprint = f; state = pending }))
      × (lookup j n ≡ (if k == j then none else lookup j m))
unfolding release release_state
release_lookup k f j m n h = elim (Option-cases (lookup k m)) [
  | inl e ↦ ground arith
  | inr (a, e) ↦ (ground (arith, text_beq_iff a.fingerprint f), ground (arith, lookup-remove k j m))
]

-- A key that has an entry keeps its fingerprint on every call, unless the call is the release of
-- the pending reservation by its own fingerprint; a completed entry stays as it is.
pub Step_keeps :
    {m n : Entries} (k : Text) (e : Entry)
    → Step m n
    → lookup k m ≡ some e
    → ((e' : Entry) × (lookup k n ≡ some e')
        × (e'.fingerprint ≡ e.fingerprint)
        × (e.state ≡ completed → e' ≡ e))
      ⊎ ((e.state ≡ pending) × (release k e.fingerprint m ≡ ok n))
Step_keeps {m} k e (reserved j f) p =
    let found : lookup k (reserve j f m).1 ≡ some e =
      ground (arith, kept_lookup j f k m, text_beq_iff j k) in
    inl (e, found, refl, λ _. refl)
Step_keeps {m} {n} k e (finished j f h) p =
    let (a, was, same, now) = complete_lookup j f k m n h in
    elim (Bool-cases (j == k)) [
      | inl q ↦
          let j≡k = (text_beq_iff j k).0 q in
          let a≡e : a ≡ e = ground (arith, j≡k) in
          inl (
            record { fingerprint = f; state = completed },
            rw q at now,
            cc (a≡e),
            λ c. ground (arith, a≡e, c),
          )
      | inr q ↦ inl (e, cc (p, rw q at now), refl, λ _. refl)
    ]
Step_keeps {m} {n} k e (released j f h) p =
    let (was, now) = release_lookup j f k m n h in
    elim (Bool-cases (j == k)) [
      | inl q ↦
          let j≡k = (text_beq_iff j k).0 q in
          let same : record { fingerprint = f; state = pending } ≡ e = ground (arith, j≡k) in
          inr (ground (arith, same), cc (h, j≡k, ap (λ (x : Entry). x.fingerprint) same))
      | inr q ↦ inl (e, cc (p, rw q at now), refl, λ _. refl)
    ]

abbrev pub done_with : Text → Entry
done_with f = record { fingerprint = f; state = completed }

done_stays :
    {m n : Entries} (k f : Text)
    → lookup k m ≡ some (done_with f)
    → Reach m n
    → lookup k n ≡ some (done_with f)
done_stays k f p here = p
done_stays k f p (next r st) = elim (Step_keeps k (done_with f) st (done_stays k f p r)) [
  | inl (e, found, same, keeps) ↦ cc (found, keeps refl)
  | inr (never, _) ↦ cc
]

-- A completed reservation is permanent: whatever calls follow, the key keeps its entry and
-- `reserve` never answers `new` for it again.
pub completed_forever :
    {m n : Entries} (k f g : Text)
    → lookup k m ≡ some (record { fingerprint = f; state = completed })
    → Reach m n
    → (lookup k n ≡ some (record { fingerprint = f; state = completed }))
      × ((reserve k g n).0 ≡ (if f == g then duplicate else conflict))
unfolding reserve
completed_forever k f g p r = let kept = done_stays k f p r in (kept, ground (arith, kept))
