-- ===== src/Tests/Anchor.antt =====
-- The anchor receiver at work: two checkpoints of a tenant, a forged one, and a request that is
-- not signed.
use mathlib.Core.Path.{subst}
use managed_tool_call_schema.Base.{
  ◌≢◌, Option, ap, ◌∙◌, ℕ, length, Text, lit, text_beq, starts_with, ◌≡◌, refl, inl, true, false,
  none, some, [], ◌∷◌, ◌++◌, text_eq, nat_eq,
}
use managed_tool_call_schema.Json.{Json, keys, get, Fields, field, num, obj, str, end}
use managed_tool_call_schema.Json.Number.{num_same, num_lt, is_nan, is_integer, double_of}
use managed_tool_call_schema.Core.Result.{ok}
use managed_tool_call_schema.Core.Assoc.{lookup, insert}
use managed_tool_call_schema.Anchor.Event.{
  AnchorEvent, parse_anchor_event, bound_event, IsTyped, both, string_of, is_tagged_hex,
}
use managed_tool_call_schema.Core.Engine.Input.{join}
use managed_tool_call_schema.Core.Audit.{sort_texts}
use managed_tool_call_schema.Anchor.Store.{
  AnchorStore, LatestRow, ConflictCode, Ingest, EventRow, advanced, conflict, IngestStatus, stored,
  accepted, latest_of, new_row, write, verify, ingest, submit, assert_fresh, find_event,
}
use managed_tool_call_schema.Anchor.Store.Sound.{IsSound}
use managed_tool_call_schema.Anchor.Store.History.{
  Reach, here, next, submitted, empty_store, empty-IsSound, Reach-IsSound, verify-Reach,
}
use managed_tool_call_schema.Anchor.Store.Rollback.{forged_refused}
use managed_tool_call_schema.Anchor.Store.Retry.{IsRepeated, ingest-IsRepeated, Reach-IsRepeated}
use managed_tool_call_schema.Anchor.Receiver.{
  Request, Response, Config, Decoders, handle, body_of, signed, verify_transport_signature,
}
use managed_tool_call_schema.Anchor.Receiver.Handled.{handle-SameTables, handle-IsSound}
use managed_tool_call_schema.Tests.Host.{small_host, zeros}
use managed_tool_call_schema.Json.Host.{Host}

abbrev secret : Text
secret = lit "k"

abbrev event : Text → ℕ → AnchorEvent
event id r = record {
  event_id = record { bound = id; boxed = false };
  checkpoint = record {
    tenant_ref = record { bound = lit "t"; boxed = false };
    revision = double_of r;
    checkpoint_hash = record { bound = lit "c"; boxed = false };
    source = obj end;
  };
}

abbrev first_store : AnchorStore
first_store =
    write (empty_store 0) (new_row small_host secret [] (event (lit "1") 1) (lit "one") (lit "now"))

first_stored :
    submit small_host secret 0 (empty_store 0) (event (lit "1") 1) (lit "one") (lit "now")
    ≡ ok (Ingest.done (accepted stored (event (lit "1") 1)) first_store)
unfolding submit assert_fresh ingest find_event lookup
first_stored = refl

first_number : is_nan (event (lit "1") 1).checkpoint.revision ≡ false
unfolding is_nan double_of
first_number = refl

once : Reach small_host secret (empty_store 0) first_store
once = next here (
    submitted 0 (event (lit "1") 1) (lit "one") (lit "now") _
      (record { typed_id = refl; typed_tenant = refl; typed_hash = refl }) first_number
      first_stored)

abbrev second_store : AnchorStore
second_store =
    write first_store
      (new_row small_host secret first_store.events (event (lit "2") 2) (lit "two") (lit "now"))

second_number : is_nan (event (lit "2") 2).checkpoint.revision ≡ false
unfolding is_nan double_of
second_number = refl

second_stored :
    submit small_host secret 0 first_store (event (lit "2") 2) (lit "two") (lit "now")
    ≡ ok (Ingest.done (accepted advanced (event (lit "2") 2)) second_store)
unfolding submit assert_fresh ingest find_event lookup insert write new_row latest_of text_beq lit
    num_lt num_same is_nan double_of
second_stored = refl

twice : Reach small_host secret first_store second_store
twice = next here (
    submitted 0 (event (lit "2") 2) (lit "two") (lit "now") _
      (record { typed_id = refl; typed_tenant = refl; typed_hash = refl }) second_number
      second_stored)

first-IsSound : IsSound small_host secret first_store
first-IsSound = Reach-IsSound small_host secret once (empty-IsSound small_host secret 0)

verify-Reach_example :
    ((verify small_host secret first_store).valid ≡ true)
    × ((verify small_host secret first_store).checked ≡ length first_store.events)
verify-Reach_example = verify-Reach small_host secret 0 first_store once

abbrev first_latest : LatestRow
first_latest = latest_of (new_row small_host secret [] (event (lit "1") 1) (lit "one") (lit "now"))

first_found : lookup (lit "t") first_store.latest ≡ some first_latest
unfolding lookup insert write text_beq new_row lit
first_found = refl

is_new : find_event (lit "2") first_store.events ≡ none
unfolding find_event write new_row text_beq lit
is_new = refl

goes_back : num_lt (double_of 0) first_latest.revision ≡ true
unfolding num_lt is_nan double_of latest_of new_row
goes_back = refl

forged_refused_example :
    (c : ConflictCode) × (ingest small_host secret first_store
        (event (lit "2") 0)
        (lit "two")
        (lit "now")
      ≡ conflict c)
forged_refused_example =
    forged_refused small_host secret first_store first_store first_latest (event (lit "2") 0)
      (lit "two") (lit "now") first-IsSound first_found here is_new (inl goes_back)

first_done :
    ingest small_host secret (empty_store 0) (event (lit "1") 1) (lit "one") (lit "now")
    ≡ Ingest.done (accepted stored (event (lit "1") 1)) first_store
unfolding ingest find_event lookup
first_done = refl

ingest-IsRepeated_example :
    IsRepeated small_host secret
      (event (lit "1") 1)
      (lit "one")
      (lit "now")
      (lit "later")
      (accepted stored (event (lit "1") 1))
      first_store
ingest-IsRepeated_example =
    ingest-IsRepeated small_host secret (event (lit "1") 1) (lit "one") (lit "now") (lit "later")
      (empty_store 0) first_store (accepted stored (event (lit "1") 1)) first_done

not_replayed : (accepted stored (event (lit "1") 1)).status ≢ IngestStatus.replay
unfolding accepted
not_replayed e = cc e

Reach-IsRepeated_example :
    IsRepeated small_host secret
      (event (lit "1") 1)
      (lit "one")
      (lit "now")
      (lit "later")
      (accepted stored (event (lit "1") 1))
      second_store
Reach-IsRepeated_example =
    Reach-IsRepeated small_host secret (event (lit "1") 1) (lit "one") (lit "now") (lit "later")
      (empty_store 0) first_store second_store (accepted stored (event (lit "1") 1)) first_done
      not_replayed twice

abbrev boxed_event : AnchorEvent
boxed_event = record (event (lit "1") 1) { event_id = record { bound = lit "1"; boxed = true } }

abbrev boxed_row : EventRow
boxed_row = new_row small_host secret [] boxed_event (lit "one") (lit "now")

abbrev decoders : Decoders
decoders = record { decode_uri = λ t. some t; decode_utf8 = λ bs. bs }

abbrev config : Config
config = record { signing_secret = lit "s"; read_token = lit "r"; chain_secret = secret }

abbrev rejecting : Fields → Text → Response
rejecting fs body = record { status = 500; content = obj end }

abbrev upload : (signature : Text) → Request
upload signature = record {
  method = lit "POST";
  path = some (lit "/v1/checkpoints");
  timestamp = some [];
  signature = some signature;
  authorization = none;
  chunks = lit "{}" ∷ [];
}

abbrev unsigned_result : Response × AnchorStore
unsigned_result =
    handle small_host decoders config 0 0 (lit "now") rejecting true first_store (upload [])

upload_unsigned :
    signed small_host decoders config 0 0 (lit "now") rejecting (upload []) (lit "{}") ≡ false
unfolding signed verify_transport_signature text_beq lit
upload_unsigned = refl

handle-SameTables_example :
    (unsigned_result.1.events ≡ first_store.events)
    × (unsigned_result.1.latest ≡ first_store.latest)
unfolding body_of lit
handle-SameTables_example =
    handle-SameTables small_host decoders config 0 0 (lit "now") rejecting first_store (upload [])
      true upload_unsigned

abbrev identifier : Text → Json
identifier tag = str (tag ++ zeros 64)

abbrev event_fields : Fields
event_fields = field (lit "schema_version") (str (lit "2026-07-20")) (
    field (lit "event_type") (str (lit "schema_guard.action_idempotency_checkpoint")) (
      field (lit "event_id") (identifier (lit "hmac-sha256:")) (
        field (lit "checkpoint")
          (obj (
            field (lit "checkpoint_version") (str (lit "1")) (
              field (lit "tenant_ref") (identifier (lit "hmac-sha256:")) (
                field (lit "revision") (num (double_of 1)) (
                  field (lit "row_count") (num (double_of 1)) (
                    field (lit "accumulator") (identifier (lit "xor256:")) (
                      field (lit "updated_at") (str (lit "today"))
                        (field (lit "checkpoint_hash") (identifier (lit "hmac-sha256:")) end))))))))
          end)))

-- A host whose parser reads that event.
abbrev event_host : Host
event_host = record small_host { json_parse = λ s. some (obj event_fields) }

event_parsed : parse_anchor_event event_host (lit "{}") ≡ ok event_fields
unfolding parse_anchor_event both text_beq join sort_texts keys lit get string_of is_tagged_hex
    starts_with is_integer double_of num_lt is_nan
event_parsed = refl

abbrev TypedOr : Option AnchorEvent → Type 0
TypedOr none = Unit
TypedOr (some e) = IsTyped e

event_typed : TypedOr (bound_event event_fields)
unfolding bound_event get text_beq lit
event_typed = record { typed_id = refl; typed_tenant = refl; typed_hash = refl }

IsTyped-again :
    (fs : Fields) (e : AnchorEvent)
    → parse_anchor_event event_host (lit "{}") ≡ ok fs
    → bound_event fs ≡ some e
    → IsTyped e
IsTyped-again fs e p b =
    let same : event_fields ≡ fs = cc (p, event_parsed) in
    subst TypedOr (ap bound_event same ∙ b) event_typed

handle-IsSound_example :
    IsSound event_host secret
      (handle event_host decoders config 0 0
        (lit "now")
        rejecting
        true
        (empty_store 0)
        (upload (lit "v1=s.{}"))).1
unfolding body_of lit
handle-IsSound_example =
    handle-IsSound event_host decoders config 0 0 (lit "now") rejecting (empty_store 0)
      (upload (lit "v1=s.{}")) (empty-IsSound event_host secret 0) true IsTyped-again
