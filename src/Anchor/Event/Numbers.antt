-- ===== src/Anchor/Event/Numbers.antt =====
-- packages/anchor-receiver/src/store.ts: the revision of an event that was read.
use managed_tool_call_schema.Base.{
  ℕ, Text, lit, ◌≡◌, refl, ap, Bool, true, false, ◌&&◌, Bool-cases, inl, inr, Option, none, some,
  arith,
}
use managed_tool_call_schema.Json.{Json, Fields, null, bool, num, str, arr, obj, get}
use managed_tool_call_schema.Json.Host.{Host}
use managed_tool_call_schema.Json.Number.{is_integer, is_finite, is_nan}
use managed_tool_call_schema.Core.Result.{Result, ok, throw, >>=-eq-ok}
use managed_tool_call_schema.Anchor.Event.{
  Identifier, identifier_of, AnchorEvent, AnchorCheckpoint, both, is_count, valid_checkpoint,
  valid_event, checked_event, parse_anchor_event, bound_event, bound_checkpoint, checkpoint_of,
  event_of,
}

both-true : (m n : Result Bool) → both m n ≡ ok true → (m ≡ ok true) × (n ≡ ok true)
unfolding both
both-true (ok true) n e = (refl, e)
both-true (ok false) n e = cc e
both-true (throw x) n e = cc e

first-true : (b c : Bool) → ok (b && c) ≡ ok true → b ≡ true
first-true true c e = refl
first-true false c e = cc e

integer-number : (r : ℕ) → is_integer r ≡ true → is_nan r ≡ false
unfolding is_integer is_finite is_nan
integer-number r e = ground arith

abbrev checkpoint_or : AnchorCheckpoint → Option AnchorEvent → AnchorCheckpoint
checkpoint_or c none = c
checkpoint_or c (some e) = e.checkpoint

module _ (h : Host) where
  count-number : (r : ℕ) → is_count h (some (num r)) ≡ true → is_nan r ≡ false
  unfolding is_count
  count-number r e = integer-number r (ground arith)

  bound_number :
      (t : Option Identifier) (r : Option Json) (c : Option Identifier) (source : Json)
      (cp : AnchorCheckpoint)
      → is_count h r ≡ true
      → bound_checkpoint t r c source ≡ some cp
      → is_nan cp.revision ≡ false
  unfolding bound_checkpoint
  bound_number (some t) (some (num r)) (some c) source cp v e =
      let same : r ≡ cp.revision = ap revision_or e in cc (same, count-number r v)
    where
      revision_or : Option AnchorCheckpoint → ℕ
      revision_or none = 0
      revision_or (some x) = x.revision
  bound_number t r c source cp v e = cc e

  checkpoint_number :
      (v : Option Json) (cp : AnchorCheckpoint)
      → valid_checkpoint h v ≡ ok true
      → checkpoint_of v ≡ some cp
      → is_nan cp.revision ≡ false
  unfolding valid_checkpoint checkpoint_of
  checkpoint_number (some (obj fs)) cp v e =
      bound_number _ _ _ _ cp
        (first-true _ _ (both-true _ _ (both-true _ _ (both-true _ _ v).1).1).0) e
  checkpoint_number none cp v e = cc e
  checkpoint_number (some null) cp v e = cc e
  checkpoint_number (some (bool b)) cp v e = cc e
  checkpoint_number (some (num n)) cp v e = cc e
  checkpoint_number (some (str t)) cp v e = cc e
  checkpoint_number (some (arr vs)) cp v e = cc e

  event_number :
      (fs : Fields) (e : AnchorEvent)
      → valid_event h fs ≡ ok true
      → bound_event fs ≡ some e
      → is_nan e.checkpoint.revision ≡ false
  unfolding valid_event bound_event
  event_number fs e v t =
      by_parts (identifier_of (get (lit "event_id") fs)) (checkpoint_of (get (lit "checkpoint") fs))
        refl t
    where
      checked : valid_checkpoint h (get (lit "checkpoint") fs) ≡ ok true
      checked = (both-true _ _ (both-true _ _ v).1).1

      by_parts :
          (id : Option Identifier) (o : Option AnchorCheckpoint)
          → checkpoint_of (get (lit "checkpoint") fs) ≡ o
          → event_of id o ≡ some e
          → is_nan e.checkpoint.revision ≡ false
      by_parts (some id) (some cp) p q =
          let same : cp ≡ e.checkpoint = ap (checkpoint_or cp) q in
          cc (ap (λ (x : AnchorCheckpoint). x.revision) same, checkpoint_number _ cp checked p)
      by_parts id o p q = cc q

  -- The revision of an event that was read from a body is a number.
  pub parse_anchor_event-number :
      (body : Text) (fs : Fields) (e : AnchorEvent)
      → parse_anchor_event h body ≡ ok fs
      → bound_event fs ≡ some e
      → is_nan e.checkpoint.revision ≡ false
  unfolding parse_anchor_event checked_event
  parse_anchor_event-number body fs e p t = go (h.json_parse body) p
    where
      go : (o : Option Json) → checked_event h o ≡ ok fs → is_nan e.checkpoint.revision ≡ false
      go none q = cc q
      go (some (obj gs)) q =
          let (v, valid, rest) = >>=-eq-ok (valid_event h gs) _ q in
          elim (Bool-cases v) [
            | inl yes_v ↦
                let same : gs ≡ fs = cc (rw yes_v at rest) in
                event_number fs e (rw same at (rw yes_v at valid)) t
            | inr no_v ↦ cc (rw no_v at rest)
          ]
      go (some null) q = cc q
      go (some (bool b)) q = cc q
      go (some (num n)) q = cc q
      go (some (str s)) q = cc q
      go (some (arr vs)) q = cc q
