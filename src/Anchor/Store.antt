-- ===== src/Anchor/Store.antt =====
-- packages/anchor-receiver/src/store.ts: `AnchorStore`, its two tables as lists.
pub mod Tables
pub mod Sound
pub mod Steps
pub mod History
pub mod Rollback
pub mod Retry
pub mod Boxed
use managed_tool_call_schema.Base.{
  ℕ, zero, suc, ◌+◌, Text, lit, length, ltb, leb, ◌==◌, nat_eq, text_eq, Bool, true, false, not,
  ◌&&◌, ◌||◌, any, Option, none, some, is_some, get_or, List, [], ◌∷◌, ◌++◌, if◌then◌else◌, map,
  elem,
}
use managed_tool_call_schema.Json.{Json, str, num, obj, end, field}
use managed_tool_call_schema.Json.Host.{Host}
use managed_tool_call_schema.Json.Number.{num_lt, num_same}
use managed_tool_call_schema.Json.Stringify.{stringify}
use managed_tool_call_schema.Core.Result.{Result, ok, throw, type_error, ◌>>=◌, ◌>>◌}
use managed_tool_call_schema.Core.Assoc.{lookup, insert}
use managed_tool_call_schema.Anchor.Event.{AnchorEvent, Identifier, identifier_json}

-- A row of `anchor_events`, in the order of `sequence`.
pub record EventRow : Type 0 where
  pub event_id : Text
  pub body_hash : Text
  pub tenant_ref : Text
  pub revision : ℕ
  pub checkpoint_hash : Text
  pub checkpoint_json : Text
  pub received_at : Text
  pub previous_hash : Text
  pub event_hash : Text

-- A row of `latest_checkpoints`, by its primary key `tenant_ref`.
pub record LatestRow : Type 0 where
  pub revision : ℕ
  pub checkpoint_hash : Text
  pub checkpoint_json : Text
  pub received_at : Text
  pub event_id : Text

pub record AnchorStore : Type 0 where
  pub events : List EventRow
  pub latest : List (Text × LatestRow)
  pub observed_data_version : ℕ

pub data ConflictCode : Type 0 where
  event_conflict rollback_detected integrity_conflict : ConflictCode

pub data IngestStatus : Type 0 where
  stored advanced duplicate replay : IngestStatus

pub record AnchorIngestResult : Type 0 where
  pub status : IngestStatus
  pub revision : ℕ
  pub checkpoint_hash : Identifier

-- What a transaction does: it returns a result, or throws and leaves the tables as they were.
pub data Ingest : Type 0 where
  done : AnchorIngestResult → AnchorStore → Ingest
  conflict : ConflictCode → Ingest

pub record Verification : Type 0 where
  pub valid : Bool
  pub checked : ℕ

-- `SELECT … WHERE event_id=?`; the column is unique.
unfoldable pub find_event : Text → List EventRow → Option EventRow
find_event id [] = none
find_event id (r ∷ rs) = if r.event_id == id then some r else find_event id rs

-- `SELECT event_hash … ORDER BY sequence DESC LIMIT 1`, with the value for an empty table
unfoldable pub last_hash : Text → List EventRow → Text
last_hash previous [] = previous
last_hash previous (r ∷ rs) = last_hash r.event_hash rs

abbrev pub genesis : Text
genesis = lit "GENESIS"

pub higher : EventRow → Option EventRow → EventRow
higher r none = r
higher r (some best) = if num_lt best.revision r.revision then r else best

-- `… WHERE tenant_ref=? ORDER BY revision DESC LIMIT 1`, over rows of which `best` is the best so far
unfoldable pub top_from : Option EventRow → Text → List EventRow → Option EventRow
unfolding higher
top_from best tenant [] = best
top_from best tenant (r ∷ rs) =
    top_from (if r.tenant_ref == tenant then some (higher r best) else best) tenant rs

abbrev pub tenants : List EventRow → List Text
tenants = map (λ (r : EventRow). r.tenant_ref)

-- `COUNT(DISTINCT …)`
unfoldable pub count_distinct : List Text → ℕ
count_distinct [] = 0
count_distinct (t ∷ ts) = (if elem t ts then 0 else 1) + count_distinct ts

-- `event` is the row that a latest row is compared with.
pub agrees : LatestRow → Option EventRow → Bool
agrees l none = false
agrees l (some e) =
    num_same e.revision l.revision
    && e.checkpoint_hash == l.checkpoint_hash
    && e.checkpoint_json == l.checkpoint_json
    && e.event_id == l.event_id

pub all_agree : List EventRow → List (Text × LatestRow) → Bool
unfolding agrees
all_agree events [] = true
all_agree events ((t, l) ∷ ls) = agrees l (top_from none t events) && all_agree events ls

unfoldable pub latest_of : EventRow → LatestRow
latest_of r = record {
  revision = r.revision;
  checkpoint_hash = r.checkpoint_hash;
  checkpoint_json = r.checkpoint_json;
  received_at = r.received_at;
  event_id = r.event_id;
}

-- Both writes of the transaction.
unfoldable pub write : AnchorStore → EventRow → AnchorStore
unfolding latest_of
write s r = record s {
  events = s.events ++ r ∷ [];
  latest = insert r.tenant_ref (latest_of r) s.latest;
}

unfoldable pub accepted : IngestStatus → AnchorEvent → AnchorIngestResult
accepted status e = record {
  status = status;
  revision = e.checkpoint.revision;
  checkpoint_hash = e.checkpoint.checkpoint_hash;
}

-- `===` of an identifier and a text: an array is no string.
unfoldable pub is_same : Identifier → Text → Bool
is_same i t = not i.boxed && i.bound == t

module _ (h : Host) (chain_secret : Text) where
  -- A row without its own hash, with what stands for its identifiers; the members are in the order
  -- of the code.
  pub row_fields : (event_id tenant_ref checkpoint_hash : Json) → EventRow → Json
  row_fields event_id tenant_ref checkpoint_hash r = obj (
      field (lit "event_id") event_id (
        field (lit "body_hash") (str r.body_hash) (
          field (lit "tenant_ref") tenant_ref (
            field (lit "revision") (num r.revision) (
              field (lit "checkpoint_hash") checkpoint_hash (
                field (lit "checkpoint_json") (str r.checkpoint_json) (
                  field (lit "received_at") (str r.received_at)
                    (field (lit "previous_hash") (str r.previous_hash) end))))))))

  hash_of : Json → Text
  hash_of row = lit "hmac-sha256:" ++ h.hmac_hex chain_secret (stringify h row)

  -- `eventHash` of a row of the table.
  unfoldable pub event_hash : EventRow → Text
  unfolding row_fields hash_of
  event_hash r = hash_of (row_fields (str r.event_id) (str r.tenant_ref) (str r.checkpoint_hash) r)

  -- `eventHash` of the row that is to be written, whose identifiers are those of the event.
  unfoldable pub written_hash : AnchorEvent → EventRow → Text
  unfolding row_fields hash_of
  written_hash e r = hash_of (
      row_fields (identifier_json e.event_id) (identifier_json e.checkpoint.tenant_ref)
        (identifier_json e.checkpoint.checkpoint_hash) r)

  pub linked : Text → EventRow → Bool
  linked previous r = r.previous_hash == previous && r.event_hash == event_hash r

  -- The loop over the events: the number of rows before the first that does not follow, and whether
  -- there is one.
  pub verify_chain : Text → ℕ → List EventRow → Verification
  unfolding linked
  verify_chain previous checked [] = record { valid = true; checked = checked }
  verify_chain previous checked (r ∷ rs) =
      let rest = verify_chain r.event_hash (checked + 1) rs in
      if linked previous r then rest else record { valid = false; checked = checked }

  unfoldable pub verify : AnchorStore → Verification
  unfolding verify_chain all_agree
  verify s =
      let chain = verify_chain genesis 0 s.events in
      record {
        valid =
            chain.valid
            && count_distinct (tenants s.events) == length s.latest
            && all_agree s.events s.latest;
        checked = chain.checked;
      }

  integrity_failed : Result AnchorStore
  integrity_failed =
      throw (type_error (lit "checkpoint anchor receiver integrity verification failed"))

  -- `assertFresh`: `current` is the data version of the database, which another writer moves.
  unfoldable pub assert_fresh : (current : ℕ) → AnchorStore → Result AnchorStore
  unfolding integrity_failed
  assert_fresh current s =
      if current == s.observed_data_version
      then ok s
      else if (verify s).valid
      then ok (record s { observed_data_version = current })
      else integrity_failed

  -- The constructor, over the tables that a file holds.
  unfoldable pub open_store :
      (database_path : Text) → (current : ℕ) → AnchorStore → Result AnchorStore
  unfolding integrity_failed
  open_store path current s =
      if length path == 0 || ltb (length chain_secret) 32
      then throw (type_error (lit "database path and 32+ character chain secret are required"))
      else if (verify s).valid
      then ok (record s { observed_data_version = current })
      else integrity_failed

  -- The row that `ingest` writes.
  unfoldable pub new_row : List EventRow → AnchorEvent → (body now : Text) → EventRow
  new_row events e body now =
      let row : EventRow = record {
        event_id = e.event_id.bound;
        body_hash = lit "sha256:" ++ h.sha256_hex body;
        tenant_ref = e.checkpoint.tenant_ref.bound;
        revision = e.checkpoint.revision;
        checkpoint_hash = e.checkpoint.checkpoint_hash.bound;
        checkpoint_json = stringify h e.checkpoint.source;
        received_at = now;
        previous_hash = last_hash genesis events;
        event_hash = [];
      } in
      record row { event_hash = written_hash e row }

  -- An event whose identifier is new, after the lookup of the tenant's latest row.
  pub ingest_new : Option LatestRow → AnchorStore → AnchorEvent → (body now : Text) → Ingest
  unfolding write accepted
  ingest_new none s e body now = done (accepted stored e) (write s (new_row s.events e body now))
  ingest_new (some l) s e body now =
      if num_lt e.checkpoint.revision l.revision
      then conflict rollback_detected
      else if num_same e.checkpoint.revision l.revision
      then if is_same e.checkpoint.checkpoint_hash l.checkpoint_hash
        then done (accepted replay e) s
        else conflict integrity_conflict
      else done (accepted advanced e) (write s (new_row s.events e body now))

  pub ingest_found : Option EventRow → AnchorStore → AnchorEvent → (body now : Text) → Ingest
  unfolding ingest_new
  ingest_found (some r) s e body now =
      if r.body_hash == lit "sha256:" ++ h.sha256_hex body
      then done
          (record {
            status = duplicate;
            revision = r.revision;
            checkpoint_hash = record { bound = r.checkpoint_hash; boxed = false };
          })
          s
      else conflict event_conflict
  ingest_found none s e body now =
      ingest_new (lookup e.checkpoint.tenant_ref.bound s.latest) s e body now

  -- The transaction of `ingest`, after `assertFresh`.
  unfoldable pub ingest : AnchorStore → AnchorEvent → (body now : Text) → Ingest
  unfolding ingest_found
  ingest s e body now = ingest_found (find_event e.event_id.bound s.events) s e body now

  -- `ingest` with its `assertFresh`; what the transaction throws leaves the tables as they were.
  unfoldable pub submit :
      (current : ℕ) → AnchorStore → AnchorEvent → (body now : Text) → Result Ingest
  submit current s e body now = do fresh ← assert_fresh current s; ok (ingest fresh e body now)
