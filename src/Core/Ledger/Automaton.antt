-- ===== src/Core/Ledger/Automaton.antt =====
-- packages/core/src/action.ts: what `IdempotencyLedger` promises, as an automaton. Each key has a
-- slot of its own.
use managed_tool_call_schema.Base.{
  Text, lit, ◌==◌, text_eq, text_beq_iff, ◌≡◌, refl, ap, ◌∙◌, inl, inr, Option, none, some, List,
  [], ◌∷◌, arith, if◌then◌else◌, Option-cases, Bool-cases, true, false,
}
use managed_tool_call_schema.Core.Result.{Result, ok, throw, Thrown, type_error}
use managed_tool_call_schema.Core.Assoc.{lookup, lookup-insert, lookup-remove}
use managed_tool_call_schema.Core.Ledger.{
  LedgerState, new, duplicate, conflict, Entry, EntryState, pending, completed, Entries, reserve,
  complete, release, reserve_entry, complete_entry, release_entry, release_state,
}

pub data Operation : Type 0 where
  reserving completing releasing : Operation

pub data Answer : Type 0 where
  answered : LedgerState → Answer
  returned : Answer
  threw : Thrown → Answer

-- The slot of a key: free, or held for the action with a fingerprint, or done with it.
pub data Slot : Type 0 where
  free : Slot
  held finished : Text → Slot

abbrev mismatch : Operation → Answer
mismatch reserving = answered conflict
mismatch completing =
    threw (type_error (lit "idempotency completion does not match a pending reservation"))
mismatch releasing = threw (type_error (lit "idempotency release does not match a reservation"))

-- An operation on a slot that is held for, or done with, the same action.
abbrev on_own : Operation → Slot → Text → Answer × Slot
on_own reserving slot f = (answered duplicate, slot)
on_own completing slot f = (returned, finished f)
on_own releasing (finished g) f =
    (threw (type_error (lit "completed reservations cannot be released")), finished g)
on_own releasing slot f = (returned, free)

-- The automaton of one slot.
unfoldable pub on_slot : Operation → Text → Slot → Answer × Slot
on_slot reserving f free = (answered new, held f)
on_slot op f free = (mismatch op, free)
on_slot op f (held g) = if g == f then on_own op (held g) f else (mismatch op, held g)
on_slot op f (finished g) = if g == f then on_own op (finished g) f else (mismatch op, finished g)

-- The slot that an entry stands for.
abbrev entry_slot : EntryState → Text → Slot
entry_slot pending f = held f
entry_slot completed f = finished f

abbrev pub slot_of : Option Entry → Slot
slot_of none = free
slot_of (some e) = entry_slot e.state e.fingerprint

abbrev of_result : Entries → Result Entries → Answer × Entries
of_result m (ok n) = (returned, n)
of_result m (throw t) = (threw t, m)

abbrev of_reserve : LedgerState × Entries → Answer × Entries
of_reserve (s, n) = (answered s, n)

-- A call of the class; one that throws leaves the map as it was.
unfoldable pub call : Operation → (key fingerprint : Text) → Entries → Answer × Entries
call reserving k f m = of_reserve (reserve k f m)
call completing k f m = of_result m (complete k f m)
call releasing k f m = of_result m (release k f m)

-- A call does to the slot of its key what the automaton does, and nothing to any other.
pub call-on_slot :
    (op : Operation) (k f j : Text) (m : Entries)
    → ((call op k f m).0 ≡ (on_slot op f (slot_of (lookup k m))).0)
      × (slot_of (lookup j (call op k f m).1)
          ≡ (if k == j then (on_slot op f (slot_of (lookup k m))).1 else slot_of (lookup j m)))
unfolding call on_slot reserve complete release reserve_entry complete_entry release_entry
    release_state
call-on_slot op k f j m = elim (Option-cases (lookup k m)) [
  | inl free_key ↦ at_free op free_key
  | inr (e, p) ↦ elim (Bool-cases (e.fingerprint == f)) [
    | inl own ↦ at_own op e.state e.fingerprint p own
    | inr other ↦ at_other op e.state e.fingerprint p other
  ]
]
  where
    Kept : Operation → Type 0
    Kept o =
        ((call o k f m).0 ≡ (on_slot o f (slot_of (lookup k m))).0)
        × (slot_of (lookup j (call o k f m).1)
            ≡ (if k == j then (on_slot o f (slot_of (lookup k m))).1 else slot_of (lookup j m)))

    same_slot :
        (s : Slot)
        → slot_of (lookup k m) ≡ s
        → slot_of (lookup j m) ≡ (if k == j then s else slot_of (lookup j m))
    same_slot s e = elim (Bool-cases (k == j)) [
      | inl mine ↦ rw mine (cc ((text_beq_iff k j).0 mine, e))
      | inr other ↦ rw other refl
    ]

    at_free : (o : Operation) → lookup k m ≡ none → Kept o
    at_free reserving p = (
      rw p refl,
      rw (p, lookup-insert k j (record { fingerprint = f; state = pending }) m) (ground arith),
    )
    at_free completing p = (rw p refl, rw p (same_slot free (ap slot_of p)))
    at_free releasing p = (rw p refl, rw p (same_slot free (ap slot_of p)))

    at_own :
        (o : Operation) (s : EntryState) (g : Text)
        → lookup k m ≡ some (record { fingerprint = g; state = s })
        → (g == f) ≡ true
        → Kept o
    at_own reserving pending g p own =
        (rw (p, own) refl, rw (p, own) (same_slot (held g) (ap slot_of p)))
    at_own reserving completed g p own =
        (rw (p, own) refl, rw (p, own) (same_slot (finished g) (ap slot_of p)))
    at_own completing pending g p own = (
      rw (p, own) refl,
      rw (p, own, lookup-insert k j (record { fingerprint = g; state = completed }) m)
          (ground (arith, (text_beq_iff g f).0 own)),
    )
    at_own completing completed g p own = (
      rw (p, own) refl,
      rw (p, own, lookup-insert k j (record { fingerprint = g; state = completed }) m)
          (ground (arith, (text_beq_iff g f).0 own)),
    )
    at_own releasing pending g p own =
        (rw (p, own) refl, rw (p, own, lookup-remove k j m) (ground arith))
    at_own releasing completed g p own =
        (rw (p, own) refl, rw (p, own) (same_slot (finished g) (ap slot_of p)))

    at_other :
        (o : Operation) (s : EntryState) (g : Text)
        → lookup k m ≡ some (record { fingerprint = g; state = s })
        → (g == f) ≡ false
        → Kept o
    at_other reserving pending g p other =
        (rw (p, other) refl, rw (p, other) (same_slot (held g) (ap slot_of p)))
    at_other reserving completed g p other =
        (rw (p, other) refl, rw (p, other) (same_slot (finished g) (ap slot_of p)))
    at_other completing pending g p other =
        (rw (p, other) refl, rw (p, other) (same_slot (held g) (ap slot_of p)))
    at_other completing completed g p other =
        (rw (p, other) refl, rw (p, other) (same_slot (finished g) (ap slot_of p)))
    at_other releasing pending g p other =
        (rw (p, other) refl, rw (p, other) (same_slot (held g) (ap slot_of p)))
    at_other releasing completed g p other =
        (rw (p, other) refl, rw (p, other) (same_slot (finished g) (ap slot_of p)))

-- A sequence of calls, of any keys.
abbrev pub Calls : Type 0
Calls = List (Text × Operation × Text)

-- The answers to the calls of one key.
unfoldable pub answers : Text → Calls → Entries → List Answer
answers j [] m = []
answers j ((k, op, f) ∷ calls) m =
    let (answer, after) = call op k f m in
    let rest = answers j calls after in if k == j then answer ∷ rest else rest

-- The answers of the automaton of one key, which sees its own calls alone.
unfoldable pub slot_answers : Text → Calls → Slot → List Answer
slot_answers j [] slot = []
slot_answers j ((k, op, f) ∷ calls) slot =
    let (answer, after) = on_slot op f slot in
    let own = answer ∷ slot_answers j calls after in
    let other = slot_answers j calls slot in if k == j then own else other

-- Over every sequence of calls, each key is answered as by an automaton of its own, which no call
-- of another key touches.
pub answers-slot_answers :
    (j : Text) (calls : Calls) (m : Entries)
    → answers j calls m ≡ slot_answers j calls (slot_of (lookup j m))
unfolding answers slot_answers
answers-slot_answers j [] m = refl
answers-slot_answers j ((k, op, f) ∷ calls) m =
    let after = (call op k f m).1 in
    let rest = answers-slot_answers j calls after in
    let (same, slot) = call-on_slot op k f j m in
    elim (Bool-cases (k == j)) [
      | inl mine ↦
          let is_j : k ≡ j = (text_beq_iff k j).0 mine in
          let at_j = ap (λ t. slot_of (lookup t m)) is_j in
          let moved = rw mine at slot in rw mine (cc (same, rest, moved, at_j))
      | inr other ↦ rw other (rest ∙ ap (slot_answers j calls) (rw other at slot))
    ]
