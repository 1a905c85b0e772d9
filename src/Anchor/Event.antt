-- ===== src/Anchor/Event.antt =====
-- packages/anchor-receiver/src/store.ts: `parseAnchorEvent` and `validCheckpoint`.
pub mod Numbers
use managed_tool_call_schema.Base.{
  ℕ, zero, suc, Text, lit, length, ltb, leb, ◌==◌, nat_eq, text_eq, starts_with, Bool, true, false,
  not, ◌&&◌, ◌||◌, all, Option, none, some, is_some, List, [], ◌∷◌, ◌++◌, if◌then◌else◌, ◌≡◌, refl,
}
use managed_tool_call_schema.Json.{
  Json, Items, Fields, null, bool, num, str, arr, obj, end, field, nil, cons, get, keys,
}
use managed_tool_call_schema.Json.Host.{Host}
use managed_tool_call_schema.Json.Number.{is_integer, num_lt}
use managed_tool_call_schema.Core.Result.{Result, ok, throw, type_error, ◌>>=◌, ◌>>◌}
use managed_tool_call_schema.Core.Audit.{sort_texts}
use managed_tool_call_schema.Core.Engine.Input.{join}

-- What stands where an identifier is declared: a string, or an array that holds one string, since
-- the tests of the parser read it as `String(value)`. The database driver takes the members of an
-- array for the values to bind, so that both are bound as the string.
pub record Identifier : Type 0 where
  pub bound : Text
  pub boxed : Bool

-- `source` is the value that was read, with its members in the order of the body.
pub record AnchorCheckpoint : Type 0 where
  pub tenant_ref : Identifier
  pub revision : ℕ
  pub checkpoint_hash : Identifier
  pub source : Json

pub record AnchorEvent : Type 0 where
  pub event_id : Identifier
  pub checkpoint : AnchorCheckpoint

is_hex : ℕ → Bool
is_hex c = leb 48 c && leb c 57 || leb 97 c && leb c 102

pub drop : ℕ → Text → Text
drop zero s = s
drop (suc n) [] = []
drop (suc n) (c ∷ s) = drop n s

-- `/^<prefix>:[0-9a-f]{64}$/u`
unfoldable pub is_tagged_hex : Text → Text → Bool
unfolding is_hex drop
is_tagged_hex tag s =
    let rest = drop (length tag) s in starts_with tag s && length rest == 64 && all is_hex rest

own_to_string : Fields → Bool
own_to_string fs = is_some (get (lit "toString") fs)

-- `a && b`, where each test may throw.
unfoldable pub both : Result Bool → Result Bool → Result Bool
both m n = m >>= λ a. elim a [ true ↦ n | false ↦ ok false ]

module _ (h : Host) where
  unfoldable mutual
    unfolding own_to_string

    -- `String(value)`: an object that has its own `toString` has no method of that name.
    pub string_of : Json → Result Text
    string_of null = ok (lit "null")
    string_of (bool true) = ok (lit "true")
    string_of (bool false) = ok (lit "false")
    string_of (num n) = ok (h.number_text n)
    string_of (str s) = ok s
    string_of (arr vs) = do ts ← strings_of vs; ok (join (lit ",") ts)
    string_of (obj fs) =
        if own_to_string fs
        then throw (type_error (lit "Cannot convert object to primitive value"))
        else ok (lit "[object Object]")

    -- The parts of `join`: null is an empty one.
    pub strings_of : Items → Result (List Text)
    strings_of nil = ok []
    strings_of (cons null vs) = do ts ← strings_of vs; ok ([] ∷ ts)
    strings_of (cons v vs) = do t ← string_of v; ts ← strings_of vs; ok (t ∷ ts)

  unfoldable pub tagged : Text → Option Json → Result Bool
  tagged tag none = ok false
  tagged tag (some v) = do t ← string_of v; ok (is_tagged_hex tag t)

  -- `Number.isInteger(value) && Number(value) >= 0`
  is_count : Option Json → Bool
  is_count (some (num n)) = is_integer n && not (num_lt n 0)
  is_count other = false

  is_date : Option Json → Bool
  is_date (some (str t)) = is_some (h.date_parse t)
  is_date other = false

  is_text : Text → Option Json → Bool
  is_text t (some (str s)) = s == t
  is_text t other = false

  valid_checkpoint : Option Json → Result Bool
  unfolding tagged is_count is_date is_text
  valid_checkpoint (some (obj fs)) =
      both
        (ok (
          join (lit ",") (sort_texts (keys fs))
            == lit
                "accumulator,checkpoint_hash,checkpoint_version,revision,row_count,tenant_ref,updated_at"
          && is_text (lit "1") (get (lit "checkpoint_version") fs)))
        (both (tagged (lit "hmac-sha256:") (get (lit "tenant_ref") fs)) (
          both (ok (is_count (get (lit "revision") fs) && is_count (get (lit "row_count") fs))) (
            both (tagged (lit "xor256:") (get (lit "accumulator") fs)) (
              both (ok (is_date (get (lit "updated_at") fs)))
                (tagged (lit "hmac-sha256:") (get (lit "checkpoint_hash") fs))))))
  valid_checkpoint other = ok false

  valid_event : Fields → Result Bool
  unfolding valid_checkpoint
  valid_event fs =
      both
        (ok (
          join (lit ",") (sort_texts (keys fs))
            == lit "checkpoint,event_id,event_type,schema_version"
          && is_text (lit "2026-07-20") (get (lit "schema_version") fs)
          && is_text (lit "schema_guard.action_idempotency_checkpoint")
              (get (lit "event_type") fs)))
        (both (tagged (lit "hmac-sha256:") (get (lit "event_id") fs))
          (valid_checkpoint (get (lit "checkpoint") fs)))

  checked_event : Option Json → Result Fields
  unfolding valid_event
  checked_event none = throw (type_error (lit "request body must be valid JSON"))
  checked_event (some (obj fs)) = do
    valid ← valid_event fs
    if valid then ok fs else throw (type_error (lit "anchor event shape is invalid"))
  checked_event (some v) = throw (type_error (lit "anchor event must be an object"))

  -- The members of the event that was read.
  unfoldable pub parse_anchor_event : Text → Result Fields
  unfolding checked_event
  parse_anchor_event body = checked_event (h.json_parse body)

identifier_of : Option Json → Option Identifier
identifier_of (some (str t)) = some (record { bound = t; boxed = false })
identifier_of (some (arr (cons (str t) nil))) = some (record { bound = t; boxed = true })
identifier_of other = none

unfoldable pub identifier_json : Identifier → Json
identifier_json i = if i.boxed then arr (cons (str i.bound) nil) else str i.bound

bound_checkpoint :
    Option Identifier → Option Json → Option Identifier → Json → Option AnchorCheckpoint
bound_checkpoint (some t) (some (num r)) (some c) source =
    some (record { tenant_ref = t; revision = r; checkpoint_hash = c; source = source })
bound_checkpoint t r c source = none

checkpoint_of : Option Json → Option AnchorCheckpoint
unfolding bound_checkpoint identifier_of
checkpoint_of (some (obj fs)) =
    bound_checkpoint (identifier_of (get (lit "tenant_ref") fs)) (get (lit "revision") fs)
      (identifier_of (get (lit "checkpoint_hash") fs)) (obj fs)
checkpoint_of other = none

event_of : Option Identifier → Option AnchorCheckpoint → Option AnchorEvent
event_of (some id) (some c) = some (record { event_id = id; checkpoint = c })
event_of id c = none

-- The event that was read, of which every identifier can be bound; an array in an array cannot.
unfoldable pub bound_event : Fields → Option AnchorEvent
unfolding checkpoint_of event_of identifier_of
bound_event fs =
    event_of (identifier_of (get (lit "event_id") fs)) (checkpoint_of (get (lit "checkpoint") fs))

-- Every identifier is a string, as the type of an event says.
pub record IsTyped (e : AnchorEvent) : Type 0 where
  pub typed_id : e.event_id.boxed ≡ false
  pub typed_tenant : e.checkpoint.tenant_ref.boxed ≡ false
  pub typed_hash : e.checkpoint.checkpoint_hash.boxed ≡ false
