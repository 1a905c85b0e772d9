-- ===== src/Tests/Replay.antt =====
-- The engine in a replay: a fixture of a repaired call.
use managed_tool_call_schema.Base.{lit, ◌≡◌, refl, [], some, none, true, false}
use managed_tool_call_schema.Json.{Json, obj, str, end, field}
use managed_tool_call_schema.Core.Result.{Result, ok, throw, type_error}
use managed_tool_call_schema.Core.Engine.Input.{Call, Ajv, Dialect, Validator, compile_schema}
use managed_tool_call_schema.Core.Engine.{validate_tool_call}
use managed_tool_call_schema.Core.Engine.Determinism.{validate_tool_call-determined}
use managed_tool_call_schema.Core.Replay.{
  ReplayFixture, expectation, create_replay_fixture, fixture_json, read_request, compared,
}
use managed_tool_call_schema.Core.Replay.Roundtrip.{Passes, create_replay_fixture-Passes}
use managed_tool_call_schema.Tests.Host.{small_host}
use managed_tool_call_schema.Tests.Guard.{guard_runs, ajv, call, schema, raw, request}

abbrev later_call : Call
later_call = record { fresh_id = lit "aud_2"; now = lit "later" }

-- The instances as they are later: they refuse every schema but an object.
abbrev later_compile : Dialect → Json → Result Validator
later_compile d (obj fs) = ajv.compile d (obj fs)
later_compile d v = throw (type_error (lit "refused"))

abbrev later_ajv : Ajv
later_ajv = record { compile = later_compile }

alike : compile_schema ajv schema ≡ compile_schema later_ajv schema
unfolding compile_schema
alike = refl

abbrev replayed : Json
replayed = obj (
    field (lit "tool_name") (str (lit "t"))
      (field (lit "tool_schema") schema (field (lit "raw_arguments") raw end)))

abbrev fixture_of : Result ReplayFixture → ReplayFixture
fixture_of (ok f) = f
fixture_of (throw e) = record {
  version = [];
  fixture_id = [];
  request = replayed;
  expected = expectation small_host (validate_tool_call small_host ajv call none);
  source_audit_id = none;
  privacy = record {
    classification = [];
    contains_raw_argument_values = false;
    safe_for_managed_upload = true;
  };
}

abbrev fixture : ReplayFixture
fixture = fixture_of (
    create_replay_fixture small_host replayed
      (validate_tool_call small_host ajv call (read_request replayed)))

validate_tool_call-determined_example :
    expectation small_host (validate_tool_call small_host ajv call (some request))
    ≡ expectation small_host (validate_tool_call small_host later_ajv later_call (some request))
validate_tool_call-determined_example =
    validate_tool_call-determined small_host call later_call ajv later_ajv (some request) alike

create_replay_fixture-Passes_example : Passes small_host later_ajv later_call fixture
unfolding guard_runs create_replay_fixture expectation fixture_json compared read_request
create_replay_fixture-Passes_example =
    create_replay_fixture-Passes small_host ajv later_ajv call later_call replayed fixture refl refl
      refl alike
