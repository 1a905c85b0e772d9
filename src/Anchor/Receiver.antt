-- ===== src/Anchor/Receiver.antt =====
-- packages/anchor-receiver/src/server.ts: the answer to a request, and what it does to the store.
pub mod Handled
use managed_tool_call_schema.Base.{
  ℕ, zero, suc, ◌+◌, ◌-◌, Text, lit, length, ltb, ◌==◌, nat_eq, text_eq, starts_with, Bool, true,
  false, not, ◌&&◌, ◌||◌, Option, none, some, get_or, List, [], ◌∷◌, ◌++◌, if◌then◌else◌,
}
use managed_tool_call_schema.Json.{Json, Fields, num, str, obj, end, field}
use managed_tool_call_schema.Json.Host.{Host}
use managed_tool_call_schema.Core.Result.{Result, ok, throw, Thrown, type_error}
use managed_tool_call_schema.Core.Assoc.{lookup}
use managed_tool_call_schema.Core.Engine.OpenObject.{truthy}
use managed_tool_call_schema.Anchor.Event.{
  identifier_json, AnchorEvent, drop, parse_anchor_event, bound_event,
}
use managed_tool_call_schema.Anchor.Store.{
  AnchorStore, LatestRow, AnchorIngestResult, Ingest, done, conflict, IngestStatus, stored,
  advanced, duplicate, replay, ConflictCode, event_conflict, rollback_detected, integrity_conflict,
  assert_fresh, ingest, open_store,
}

-- What the request of Node gives: `path` is the path of its URL, none if the URL is invalid. A
-- header is none where it is absent or no string.
pub record Request : Type 0 where
  pub method : Text
  pub path : Option Text
  pub timestamp : Option Text
  pub signature : Option Text
  pub authorization : Option Text
  pub chunks : List (List ℕ)

pub record Response : Type 0 where
  pub status : ℕ
  pub content : Json

pub record Config : Type 0 where
  pub signing_secret : Text
  pub read_token : Text
  pub chain_secret : Text

-- `decodeURIComponent`, none where it throws, and `toString('utf8')`.
pub record Decoders : Type 0 where
  pub decode_uri : Text → Option Text
  pub decode_utf8 : List ℕ → Text

error_response : ℕ → Text → Response
error_response status error = record {
  status = status;
  content = obj (field (lit "error") (str error) end);
}

message_response : ℕ → (error message : Text) → Response
message_response status error message = record {
  status = status;
  content = obj (field (lit "error") (str error) (field (lit "message") (str message) end));
}

-- The loop of `body`: none is the `RangeError` for more than 65,536 bytes.
read_chunks : (length : ℕ) → (bytes : List ℕ) → List (List ℕ) → Option (List ℕ)
read_chunks n bytes [] = some bytes
read_chunks n bytes (c ∷ cs) =
    let rest = read_chunks (n + length c) (bytes ++ c) cs in
    if ltb 65536 (n + length c) then none else rest

status_text : IngestStatus → Text
status_text stored = lit "stored"
status_text advanced = lit "advanced"
status_text duplicate = lit "duplicate"
status_text replay = lit "replay"

is_created : IngestStatus → Bool
is_created stored = true
is_created advanced = true
is_created duplicate = false
is_created replay = false

result_response : AnchorIngestResult → Response
unfolding is_created status_text
result_response r = record {
  status = if is_created r.status then 201 else 200;
  content = obj (
      field (lit "status") (str (status_text r.status)) (
        field (lit "revision") (num r.revision)
          (field (lit "checkpoint_hash") (identifier_json r.checkpoint_hash) end)));
}

conflict_response : ConflictCode → Response
unfolding message_response
conflict_response event_conflict =
    message_response 409 (lit "event_conflict") (lit "event ID was reused with a different body")
conflict_response rollback_detected =
    message_response 409 (lit "rollback_detected") (lit "checkpoint revision moved backwards")
conflict_response integrity_conflict =
    message_response 409 (lit "integrity_conflict")
      (lit "the same checkpoint revision has a different hash")

-- The `catch`: a `TypeError` is the client's fault.
thrown_response : Thrown → Response
unfolding message_response error_response
thrown_response (type_error m) = message_response 400 (lit "invalid_request") m
thrown_response e = error_response 500 (lit "internal_error")

checkpoints_path : Text
checkpoints_path = lit "/v1/checkpoints"

tenant_prefix : Text
tenant_prefix = lit "/v1/checkpoints/"

module _ (h : Host) where
  -- The bytes are the same: equal lengths, then `timingSafeEqual`.
  unfoldable pub secret_equal : Text → Text → Bool
  secret_equal s t = h.buffer s == h.buffer t

  unfoldable pub in_window : (now : ℕ) → Option ℕ → Bool
  in_window now none = false
  in_window now (some t) = not (ltb 300000 ((now - t) + (t - now)))

  unfoldable pub verify_transport_signature :
      (secret timestamp body signature : Text) → (now : ℕ) → Bool
  unfolding secret_equal in_window
  verify_transport_signature secret timestamp body signature now =
      in_window now (h.date_parse timestamp)
      && secret_equal signature (lit "v1=" ++ h.hmac_hex secret (timestamp ++ lit "." ++ body))

  module _ (d : Decoders) (config : Config) where
    unfoldable pub body_of : Request → Option Text
    unfolding read_chunks
    body_of q = elim (read_chunks 0 [] q.chunks) [
      | none ↦ none
      | some bytes ↦ some (d.decode_utf8 bytes)
    ]

    -- A call of the receiver: the data version and the time that it meets, and how it answers an
    -- event that the driver of the database cannot bind.
    module _ (current now_ms : ℕ) (now : Text) (refusal : Fields → Text → Response) where
      unfoldable pub signed : Request → Text → Bool
      signed q body =
          verify_transport_signature config.signing_secret (get_or q.timestamp []) body
            (get_or q.signature []) now_ms

      -- A transaction that throws is rolled back.
      ingested : AnchorStore → Ingest → Response × AnchorStore
      unfolding result_response conflict_response
      ingested s (done r s') = (result_response r, s')
      ingested s (conflict c) = (conflict_response c, s)

      with_fresh :
          AnchorStore → (body : Text) → AnchorEvent → Result AnchorStore → Response × AnchorStore
      unfolding ingested thrown_response
      with_fresh s body e (throw x) = (thrown_response x, s)
      with_fresh s body e (ok t) = ingested t (ingest h config.chain_secret t e body now)

      -- An event that the driver cannot bind: the transaction throws, or ends before it meets that.
      unbound : AnchorStore → (body : Text) → Fields → Result AnchorStore → Response × AnchorStore
      unfolding thrown_response
      unbound s body fs (throw x) = (thrown_response x, s)
      unbound s body fs (ok t) = (refusal fs body, t)

      submitted : AnchorStore → (body : Text) → Fields → Option AnchorEvent → Response × AnchorStore
      unfolding with_fresh unbound
      submitted s body fs none = unbound s body fs (assert_fresh h config.chain_secret current s)
      submitted s body fs (some e) =
          with_fresh s body e (assert_fresh h config.chain_secret current s)

      parsed : AnchorStore → (body : Text) → Result Fields → Response × AnchorStore
      unfolding submitted thrown_response
      parsed s body (throw e) = (thrown_response e, s)
      parsed s body (ok fs) = submitted s body fs (bound_event fs)

      -- `POST /v1/checkpoints`
      post_checkpoint : AnchorStore → Request → Option Text → Response × AnchorStore
      unfolding parsed error_response
      post_checkpoint s q none = (error_response 413 (lit "body_too_large"), s)
      post_checkpoint s q (some body) =
          if signed q body
          then parsed s body (parse_anchor_event h body)
          else (error_response 401 (lit "invalid_signature"), s)

      -- The answer for a checkpoint that was read back from its text.
      checkpoint_response : Option Json → Response
      unfolding error_response
      checkpoint_response none = error_response 500 (lit "internal_error")
      checkpoint_response (some v) =
          if truthy v
          then record { status = 200; content = v }
          else error_response 404 (lit "checkpoint_not_found")

      latest_response : Option LatestRow → Response
      unfolding checkpoint_response error_response
      latest_response none = error_response 404 (lit "checkpoint_not_found")
      latest_response (some l) = checkpoint_response (h.json_parse l.checkpoint_json)

      latest_for : AnchorStore → Option Text → Result AnchorStore → Response × AnchorStore
      unfolding latest_response thrown_response error_response
      latest_for s none fresh = (error_response 500 (lit "internal_error"), s)
      latest_for s (some tenant) (throw e) = (thrown_response e, s)
      latest_for s (some tenant) (ok t) = (latest_response (lookup tenant t.latest), t)

      -- `GET /v1/checkpoints/:tenant_ref`
      get_checkpoint : AnchorStore → Request → Text → Response × AnchorStore
      unfolding latest_for error_response
      get_checkpoint s q path =
          if secret_equal (get_or q.authorization []) (lit "Bearer " ++ config.read_token)
          then latest_for s (d.decode_uri (drop (length tenant_prefix) path))
              (assert_fresh h config.chain_secret current s)
          else (error_response 401 (lit "authentication_required"), s)

      readiness : (available : Bool) → Response
      readiness available = record {
        status = if available then 200 else 503;
        content =
            obj (
              field (lit "status") (str (if available then lit "ready" else lit "unavailable"))
                end);
      }

      -- `GET /readyz`, where `ready` says that the receiver is not closing.
      get_ready : (ready : Bool) → AnchorStore → Result AnchorStore → Response × AnchorStore
      unfolding readiness
      get_ready false s fresh = (readiness false, s)
      get_ready true s (ok t) = (readiness true, t)
      get_ready true s (throw e) = (readiness false, s)

      route : (ready : Bool) → AnchorStore → Request → (path : Text) → Response × AnchorStore
      unfolding get_ready post_checkpoint get_checkpoint error_response checkpoints_path
          tenant_prefix
      route ready s q path =
          let is_get = q.method == lit "GET" in
          if is_get && path == lit "/healthz"
          then (
            record { status = 200; content = obj (field (lit "status") (str (lit "ok")) end) },
            s,
          )
          else if is_get && path == lit "/readyz"
          then get_ready ready s (assert_fresh h config.chain_secret current s)
          else if q.method == lit "POST" && path == checkpoints_path
          then post_checkpoint s q (body_of q)
          else if is_get && starts_with tenant_prefix path
          then get_checkpoint s q path
          else (error_response 404 (lit "not_found"), s)

      unfoldable pub handle : (ready : Bool) → AnchorStore → Request → Response × AnchorStore
      unfolding route message_response
      handle ready s q = elim q.path [
        | none ↦ (message_response 400 (lit "invalid_request") (lit "Invalid URL"), s)
        | some path ↦ route ready s q path
      ]

-- `createAnchorReceiver`, over the tables that the file at the path holds.
unfoldable pub create_anchor_receiver :
    Host → (database_path : Text) → Config → (current : ℕ) → AnchorStore → Result AnchorStore
create_anchor_receiver h path config current s =
    if length path == 0
      || ltb (length config.signing_secret) 32
      || ltb (length config.read_token) 32
      || ltb (length config.chain_secret) 32
    then throw
        (type_error (lit "anchor receiver requires separate 32+ character secrets and a database"))
    else open_store h config.chain_secret path current s
