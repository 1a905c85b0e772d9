-- ===== src/Core/Replay/Roundtrip.antt =====
-- packages/core/src/replay.ts: from a fixture that the guard made to its replay.
use managed_tool_call_schema.Base.{
  Text, lit, text_eq, text_beq_refl, ◌≡◌, refl, true, false, some, List, [], ◌∷◌,
}
use managed_tool_call_schema.Json.{Json}
use managed_tool_call_schema.Json.Host.{Host}
use managed_tool_call_schema.Json.Canonical.{sha256}
use managed_tool_call_schema.Core.Result.{ok, >>=-eq-ok}
use managed_tool_call_schema.Core.Types.{GuardDecision}
use managed_tool_call_schema.Core.Limits.{assert_json_safety}
use managed_tool_call_schema.Core.Engine.Input.{Call, Ajv}
use managed_tool_call_schema.Core.Engine.OpenObject.{truthy}
use managed_tool_call_schema.Core.Engine.{validate_tool_call}
use managed_tool_call_schema.Core.Engine.Determinism.{
  CompilesAlike, schema_of, validate_tool_call-determined,
}
use managed_tool_call_schema.Core.Replay.{
  ReplayExpectation, ReplayFixture, ReplayReport, expectation, compared, compare, mismatches_of,
  fixture_version, fixture_json, fixture_hash, clone_request, assert_fixture, create_replay_fixture,
  replay_fixture, report, read_request, is_empty, audit_id_of,
}

-- The replay of a fixture, and its good end.
pub record Passes (h : Host) (ajv : Ajv) (c : Call) (f : ReplayFixture) : Type 0 where
  pub outcome : ReplayReport
  pub replayed : replay_fixture h ajv c f ≡ ok outcome
  pub none_differs : outcome.mismatches ≡ []
  pub passed : outcome.passed ≡ true

-- The fixture of an expectation.
made : Host → (request : Json) → ReplayExpectation → (audit_id : Text) → ReplayFixture
made h request e id = record {
  version = fixture_version;
  fixture_id = fixture_hash h fixture_version request e;
  request = request;
  expected = e;
  source_audit_id = some id;
  privacy = record {
    classification = lit "local_sensitive";
    contains_raw_argument_values = true;
    safe_for_managed_upload = false;
  };
}

module _ (h : Host) where
  matched : (es : List (Text × Json)) → mismatches_of h es es ≡ []
  unfolding mismatches_of
  matched [] = refl
  matched ((k, v) ∷ es) = rw (text_beq_refl (sha256 h v)) (matched es)

  compare-same : (e : ReplayExpectation) → compare h e e ≡ []
  unfolding compare
  compare-same e = matched (compared e)

  assert_fixture-ok :
      (request : Json) (e : ReplayExpectation) (id : Text)
      → assert_json_safety h (fixture_json (made h request e id)) (lit "replay fixture") ≡ ok tt
      → truthy request ≡ true
      → assert_fixture h (made h request e id) ≡ ok tt
  unfolding assert_fixture made
  assert_fixture-ok request e id safe t =
      rw
        (
          safe,
          text_beq_refl fixture_version,
          t,
          text_beq_refl (lit "local_sensitive"),
          text_beq_refl (fixture_hash h fixture_version request e),
        )
        refl

  created-made :
      (request : Json) (d : GuardDecision) (f : ReplayFixture)
      → create_replay_fixture h request d ≡ ok f
      → (clone_request h request ≡ ok request)
        × (made h request (expectation h d) (audit_id_of h d) ≡ f)
  unfolding create_replay_fixture clone_request made
  created-made request d f e =
      let (cloned, is_cloned, rest) = >>=-eq-ok (clone_request h request) _ e in
      let (u, safe, same) =
        >>=-eq-ok (assert_json_safety h request (lit "replay request")) _ is_cloned in
      let this : request ≡ cloned = cc same in (rw safe refl, cc (rw (← this) at rest))

  module _ (ajv ajv' : Ajv) (c c' : Call) where
    replays :
        (request : Json) (e : ReplayExpectation) (id : Text)
        → clone_request h request ≡ ok request
        → assert_fixture h (made h request e id) ≡ ok tt
        → e ≡ expectation h (validate_tool_call h ajv' c' (read_request request))
        → Passes h ajv' c' (made h request e id)
    unfolding replay_fixture made report is_empty
    replays request e id cloned fine same = record {
      outcome = report h ajv' c' (made h request e id) e;
      replayed = rw (fine, cloned, ← same) refl;
      none_differs = compare-same e;
      passed = rw (compare-same e) refl;
    }

    -- A fixture that the guard makes of a request and of its own decision on it replays, at any later
    -- time and under any identifier, and the report says that it passed with no mismatch. The request
    -- is no falsy value, the fixture is within the limits that a replay sets on it, and the instances
    -- of AJV that the replay meets compile the schema of the request as those of the decision did.
    pub create_replay_fixture-Passes :
        (request : Json) (f : ReplayFixture)
        → create_replay_fixture h request (validate_tool_call h ajv c (read_request request)) ≡ ok f
        → assert_json_safety h (fixture_json f) (lit "replay fixture") ≡ ok tt
        → truthy request ≡ true
        → CompilesAlike ajv ajv' (schema_of (read_request request))
        → Passes h ajv' c' f
    create_replay_fixture-Passes request f e safe t alike =
        let (cloned, same) = created-made request _ f e in
        rw same at (
          replays request _ _ cloned (assert_fixture-ok request _ _ (rw (← same) at safe) t)
            (validate_tool_call-determined h c c' ajv ajv' (read_request request) alike))
