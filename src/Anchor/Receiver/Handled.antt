-- ===== src/Anchor/Receiver/Handled.antt =====
-- packages/anchor-receiver/src/server.ts: what a request can do to the store.
use managed_tool_call_schema.Base.{
  ℕ, Text, lit, ◌==◌, text_eq, ◌≡◌, refl, Bool, true, false, ◌&&◌, Bool-cases, inl, inr, Option,
  none, some, [], ◌++◌, starts_with, get_or,
}
use managed_tool_call_schema.Json.{Fields}
use managed_tool_call_schema.Json.Host.{Host}
use managed_tool_call_schema.Json.Number.{is_nan}
use managed_tool_call_schema.Core.Result.{Result, ok, throw}
use managed_tool_call_schema.Anchor.Event.{AnchorEvent, parse_anchor_event, bound_event, IsTyped}
use managed_tool_call_schema.Anchor.Event.Numbers.{parse_anchor_event-number}
use managed_tool_call_schema.Anchor.Store.{
  AnchorStore, Ingest, done, conflict, assert_fresh, ingest,
}
use managed_tool_call_schema.Anchor.Store.Sound.{IsSound}
use managed_tool_call_schema.Anchor.Store.Steps.{ingest-IsSound}
use managed_tool_call_schema.Anchor.Store.History.{refreshed, Step-IsSound, fresh-tables}
use managed_tool_call_schema.Anchor.Receiver.{
  Request, Response, Config, Decoders, body_of, signed, ingested, with_fresh, unbound, submitted,
  parsed, post_checkpoint, latest_for, get_checkpoint, get_ready, route, handle, secret_equal,
  tenant_prefix, checkpoints_path,
}

module _ (h : Host) (d : Decoders) (config : Config) (current now_ms : ℕ) (now : Text)
    (refusal : Fields → Text → Response) (s : AnchorStore) (q : Request) where
  post : Response × AnchorStore
  post = post_checkpoint h d config current now_ms now refusal s q (body_of h d config q)

  module _ (P : Response × AnchorStore → Type 0) (unchanged : (r : Response) → P (r, s))
      (fresh : (r : Response) (t : AnchorStore)
        → assert_fresh h config.chain_secret current s ≡ ok t
        → P (r, t)) where
    get_ready-holds :
        (ready : Bool) (o : Result AnchorStore)
        → assert_fresh h config.chain_secret current s ≡ o
        → P (get_ready h d config current now_ms now refusal ready s o)
    unfolding get_ready
    get_ready-holds false o e = unchanged _
    get_ready-holds true (ok t) e = fresh _ t e
    get_ready-holds true (throw x) e = unchanged _

    latest_for-holds :
        (tenant : Option Text) (o : Result AnchorStore)
        → assert_fresh h config.chain_secret current s ≡ o
        → P (latest_for h d config current now_ms now refusal s tenant o)
    unfolding latest_for
    latest_for-holds none o e = unchanged _
    latest_for-holds (some tenant) (ok t) e = fresh _ t e
    latest_for-holds (some tenant) (throw x) e = unchanged _

    get_checkpoint-holds :
        (path : Text) → P (get_checkpoint h d config current now_ms now refusal s q path)
    unfolding get_checkpoint
    get_checkpoint-holds path =
        elim (Bool-cases
          (secret_equal h (get_or q.authorization []) (lit "Bearer " ++ config.read_token))) [
            | inl known ↦ rw (known, get_checkpoint) (latest_for-holds _ _ refl)
            | inr other ↦ rw (other, get_checkpoint) (unchanged _)
          ]

    route-holds :
        (ready : Bool) (path : Text)
        → P post
        → P (route h d config current now_ms now refusal ready s q path)
    unfolding route post
    route-holds ready path p = elim (Bool-cases (q.method == lit "GET" && path == lit "/healthz")) [
      | inl health ↦ rw (health, route) (unchanged _)
      | inr a ↦ elim (Bool-cases (q.method == lit "GET" && path == lit "/readyz")) [
        | inl readyz ↦ rw (a, readyz, route) (get_ready-holds ready _ refl)
        | inr b ↦ elim (Bool-cases (q.method == lit "POST" && path == checkpoints_path)) [
          | inl upload ↦ rw (a, b, upload, route) p
          | inr c ↦ elim (Bool-cases (q.method == lit "GET" && starts_with tenant_prefix path)) [
            | inl read ↦ rw (a, b, c, read, route) (get_checkpoint-holds path)
            | inr rest ↦ rw (a, b, c, rest, route) (unchanged _)
          ]
        ]
      ]
    ]

    -- What holds of a refresh and of an upload holds of every request.
    handle-holds :
        (ready : Bool) → P post → P (handle h d config current now_ms now refusal ready s q)
    unfolding handle
    handle-holds ready p = go q.path refl
      where
        go :
            (o : Option Text)
            → q.path ≡ o
            → P (handle h d config current now_ms now refusal ready s q)
        go none e = rw (e, handle) (unchanged _)
        go (some path) e = rw (e, handle) (route-holds ready path p)

  abbrev SameTables : Response × AnchorStore → Type 0
  SameTables r = (r.1.events ≡ s.events) × (r.1.latest ≡ s.latest)

  -- The body is too large, or its signature does not verify in the window of time.
  abbrev pub IsUnsigned : Option Text → Type 0
  IsUnsigned none = Unit
  IsUnsigned (some body) = signed h d config current now_ms now refusal q body ≡ false

  post-SameTables :
      (o : Option Text)
      → IsUnsigned o
      → SameTables (post_checkpoint h d config current now_ms now refusal s q o)
  unfolding post_checkpoint
  post-SameTables none u = (refl, refl)
  post-SameTables (some body) u = rw u (refl, refl)

  -- A request with no body that is signed with the secret and is recent changes neither table,
  -- whatever its method, path and other headers are.
  pub handle-SameTables :
      (ready : Bool)
      → IsUnsigned (body_of h d config q)
      → ((handle h d config current now_ms now refusal ready s q).1.events ≡ s.events)
        × ((handle h d config current now_ms now refusal ready s q).1.latest ≡ s.latest)
  unfolding post
  handle-SameTables ready u =
      handle-holds SameTables (λ r. (refl, refl))
        (λ r t e. fresh-tables h config.chain_secret current s t e) ready
        (post-SameTables (body_of h d config q) u)

  KeepsSound : Response × AnchorStore → Type 0
  KeepsSound r = IsSound h config.chain_secret r.1

  -- The identifiers of the body's event, if it is one, are strings.
  abbrev pub HasStrings : Option Text → Type 0
  HasStrings none = Unit
  HasStrings (some body) =
      (fs : Fields) (e : AnchorEvent)
      → parse_anchor_event h body ≡ ok fs
      → bound_event fs ≡ some e
      → IsTyped e

  module _ (sound : IsSound h config.chain_secret s) where
    fresh-IsSound :
        (t : AnchorStore)
        → assert_fresh h config.chain_secret current s ≡ ok t
        → IsSound h config.chain_secret t
    fresh-IsSound t e = Step-IsSound h config.chain_secret s t (refreshed current e) sound

    ingested_sound :
        (t : AnchorStore) (e : AnchorEvent) (body : Text) (o : Ingest)
        → IsSound h config.chain_secret t
        → IsTyped e
        → is_nan e.checkpoint.revision ≡ false
        → ingest h config.chain_secret t e body now ≡ o
        → KeepsSound (ingested h d config current now_ms now refusal t o)
    unfolding ingested KeepsSound
    ingested_sound t e body (done r u) i typed n p =
        ingest-IsSound h config.chain_secret t u e body now r i typed n p
    ingested_sound t e body (conflict c) i typed n p = i

    with_fresh_sound :
        (body : Text) (e : AnchorEvent) (o : Result AnchorStore)
        → IsTyped e
        → is_nan e.checkpoint.revision ≡ false
        → assert_fresh h config.chain_secret current s ≡ o
        → KeepsSound (with_fresh h d config current now_ms now refusal s body e o)
    unfolding with_fresh KeepsSound
    with_fresh_sound body e (ok t) typed n p =
        ingested_sound t e body _ (fresh-IsSound t p) typed n refl
    with_fresh_sound body e (throw x) typed n p = sound

    unbound_sound :
        (body : Text) (fs : Fields) (o : Result AnchorStore)
        → assert_fresh h config.chain_secret current s ≡ o
        → KeepsSound (unbound h d config current now_ms now refusal s body fs o)
    unfolding unbound KeepsSound
    unbound_sound body fs (ok t) p = fresh-IsSound t p
    unbound_sound body fs (throw x) p = sound

    parsed_sound :
        (body : Text) (o : Result Fields)
        → parse_anchor_event h body ≡ o
        → HasStrings (some body)
        → KeepsSound (parsed h d config current now_ms now refusal s body o)
    unfolding parsed submitted KeepsSound
    parsed_sound body (throw x) p t = sound
    parsed_sound body (ok fs) p t = by_event (bound_event fs) refl
      where
        by_event :
            (o : Option AnchorEvent)
            → bound_event fs ≡ o
            → KeepsSound (submitted h d config current now_ms now refusal s body fs o)
        by_event none b = unbound_sound body fs _ refl
        by_event (some e) b =
            with_fresh_sound body e _ (t fs e p b) (parse_anchor_event-number h body fs e p b) refl

    post_sound :
        (o : Option Text)
        → HasStrings o
        → KeepsSound (post_checkpoint h d config current now_ms now refusal s q o)
    unfolding post_checkpoint KeepsSound
    post_sound none t = sound
    post_sound (some body) t =
        elim (Bool-cases (signed h d config current now_ms now refusal q body)) [
          | inl known ↦ rw (known, post_checkpoint) (parsed_sound body _ refl t)
          | inr other ↦ rw (other, post_checkpoint) sound
        ]

    -- Every request leaves a sound store sound, unless its body is an event in which an array stands
    -- for an identifier: where the body is an event that can be bound, its identifiers are strings.
    pub handle-IsSound :
        (ready : Bool)
        → HasStrings (body_of h d config q)
        → IsSound h config.chain_secret (handle h d config current now_ms now refusal ready s q).1
    unfolding KeepsSound post
    handle-IsSound ready t =
        handle-holds KeepsSound (λ r. sound) (λ r u e. fresh-IsSound u e) ready
          (post_sound (body_of h d config q) t)
