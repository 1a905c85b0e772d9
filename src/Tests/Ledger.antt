-- ===== src/Tests/Ledger.antt =====
-- The in-memory ledger at work.
use managed_tool_call_schema.Core.Ledger.Automaton.{
  Operation, Calls, answers, slot_answers, slot_of, answers-slot_answers,
}
use managed_tool_call_schema.Base.{
  ◌≢◌, Text, lit, text_beq, ◌==◌, text_eq, ◌≡◌, refl, ◌⊎◌, ◌↔◌, some, none, [], ◌∷◌, if◌then◌else◌,
}
use managed_tool_call_schema.Core.Result.{ok}
use managed_tool_call_schema.Core.Assoc.{lookup}
use managed_tool_call_schema.Core.Ledger.{
  new, duplicate, conflict, Entry, pending, completed, Entries, reserve, release,
}
use managed_tool_call_schema.Core.Ledger.Lifecycle.{
  HasEntry, reserved, here, next, done_with, after_reserve, reserve_lookup, Step_keeps,
  completed_forever,
}

abbrev pub key : Text
key = lit "order-0001"

abbrev pub one_done : Entries
one_done = (key, done_with (lit "abc")) ∷ []

abbrev pub nothing : Entries
nothing = []

abbrev other_reserved : Entries
other_reserved = (reserve (lit "order-0002") (lit "xyz") one_done).1

pub one_done-lookup : lookup key one_done ≡ some (done_with (lit "abc"))
unfolding lookup text_beq lit
one_done-lookup = refl

reserve_lookup_example :
    ((reserve key (lit "abc") nothing).0 ≡ new ↔ lookup key nothing ≡ none)
    × ((reserve key (lit "abc") nothing).0 ≡ duplicate ↔ HasEntry key nothing (λ g. g ≡ lit "abc"))
    × ((reserve key (lit "abc") nothing).0 ≡ conflict ↔ HasEntry key nothing (λ g. g ≢ lit "abc"))
    × (lookup key (reserve key (lit "abc") nothing).1 ≡ (
        if key == key
        then some (after_reserve (lit "abc") (lookup key nothing))
        else lookup key nothing))
reserve_lookup_example = reserve_lookup key (lit "abc") key nothing

Step_keeps_example :
    ((e' : Entry) × (lookup key other_reserved ≡ some e')
      × (e'.fingerprint ≡ lit "abc")
      × (completed ≡ completed → e' ≡ done_with (lit "abc")))
    ⊎ ((completed ≡ pending) × (release key (lit "abc") one_done ≡ ok other_reserved))
Step_keeps_example =
    Step_keeps key (done_with (lit "abc")) (reserved (lit "order-0002") (lit "xyz")) one_done-lookup

completed_forever_example :
    (lookup key other_reserved ≡ some (done_with (lit "abc")))
    × ((reserve key (lit "abc") other_reserved).0
        ≡ (if lit "abc" == lit "abc" then duplicate else conflict))
completed_forever_example =
    completed_forever key (lit "abc") (lit "abc") one_done-lookup
      (next here (reserved (lit "order-0002") (lit "xyz")))

abbrev two_keys : Calls
two_keys =
    (lit "a", Operation.reserving, lit "f")
    ∷ (lit "b", Operation.reserving, lit "g")
    ∷ (lit "a", Operation.releasing, lit "f")
    ∷ (lit "a", Operation.reserving, lit "g")
    ∷ []

answers-slot_answers_example :
    answers (lit "a") two_keys [] ≡ slot_answers (lit "a") two_keys (slot_of (lookup (lit "a") []))
answers-slot_answers_example = answers-slot_answers (lit "a") two_keys []
