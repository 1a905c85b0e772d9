-- ===== src/Core/Ledger.antt =====
-- packages/core/src/action.ts: the idempotency ledger, its interface and the in-memory class.
pub mod Lifecycle
pub mod Automaton
use managed_tool_call_schema.Base.{
  Text, lit, ◌==◌, text_eq, Bool, true, false, not, Option, none, some, List, ◌≡◌, if◌then◌else◌,
}
use managed_tool_call_schema.Core.Result.{Result, ok, throw, Thrown, type_error}
use managed_tool_call_schema.Core.Assoc.{lookup, insert, remove}

pub data LedgerState : Type 0 where
  new duplicate conflict : LedgerState

-- What the gate needs of a ledger whose state is `S`.
pub record IdempotencyLedger (S : Type 0) : Type 0 where
  pub reserve : Text → Text → S → LedgerState × S
  pub complete : Text → Text → S → Result S
  pub release : Text → Text → S → Result S

pub data EntryState : Type 0 where
  pending completed : EntryState

pub record Entry : Type 0 where
  pub fingerprint : Text
  pub state : EntryState

abbrev pub Entries : Type 0
Entries = List (Text × Entry)

-- The body of `reserve`, `complete` and `release` after the lookup.
reserve_entry : Option Entry → Text → Text → Entries → LedgerState × Entries
reserve_entry none key fingerprint m =
    (new, insert key (record { fingerprint = fingerprint; state = pending }) m)
reserve_entry (some e) key fingerprint m =
    (if e.fingerprint == fingerprint then duplicate else conflict, m)

unfoldable pub reserve : Text → Text → Entries → LedgerState × Entries
unfolding reserve_entry
reserve key fingerprint m = reserve_entry (lookup key m) key fingerprint m

complete_entry : Option Entry → Text → Text → Entries → Result Entries
complete_entry none key fingerprint m =
    throw (type_error (lit "idempotency completion does not match a pending reservation"))
complete_entry (some e) key fingerprint m =
    if e.fingerprint == fingerprint
    then ok (insert key (record e { state = completed }) m)
    else throw (type_error (lit "idempotency completion does not match a pending reservation"))

unfoldable pub complete : Text → Text → Entries → Result Entries
unfolding complete_entry
complete key fingerprint m = complete_entry (lookup key m) key fingerprint m

unfoldable pub release_state : EntryState → Text → Entries → Result Entries
release_state pending key m = ok (remove key m)
release_state completed key m = throw (type_error (lit "completed reservations cannot be released"))

release_entry : Option Entry → Text → Text → Entries → Result Entries
unfolding release_state
release_entry none key fingerprint m =
    throw (type_error (lit "idempotency release does not match a reservation"))
release_entry (some e) key fingerprint m =
    if e.fingerprint == fingerprint
    then release_state e.state key m
    else throw (type_error (lit "idempotency release does not match a reservation"))

unfoldable pub release : Text → Text → Entries → Result Entries
unfolding release_entry
release key fingerprint m = release_entry (lookup key m) key fingerprint m

abbrev pub in_memory : IdempotencyLedger Entries
in_memory = record { reserve = reserve; complete = complete; release = release }
