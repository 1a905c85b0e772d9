-- ===== src/Core/Replay.antt =====
-- packages/core/src/replay.ts: fixtures of decisions, and their replay.
pub mod Roundtrip
use managed_tool_call_schema.Base.{
  ℕ, ◌-◌, nat_eq, Text, lit, length, text_eq, ◌==◌, Bool, true, false, not, ◌&&◌, ◌||◌, all, keep,
  Option, some, none, get_or, List, [], ◌∷◌, ◌++◌, map, if◌then◌else◌,
}
use managed_tool_call_schema.Json.{
  Json, Fields, null, bool, num, str, arr, obj, end, field, texts, get,
}
use managed_tool_call_schema.Json.Host.{Host}
use managed_tool_call_schema.Json.Canonical.{sha256}
use managed_tool_call_schema.Core.Result.{Result, ok, throw, type_error, require, ◌>>=◌, ◌>>◌}
use managed_tool_call_schema.Core.Types.{
  GuardDecision, accept, refuse, AcceptedDecision, RejectedDecision, DecisionStatus, rejected,
  status_of, status_text, PolicyOutcome, RepairRecord, RepairRuleId, rule_text, ReasonCode,
  arguments_not_object, arguments_json_invalid, schema_invalid, schema_validation_failed,
  resource_limit_exceeded, repair_limit_exceeded, policy_denied, internal_error, ValidationIssue,
}
use managed_tool_call_schema.Core.Audit.{sort_texts}
use managed_tool_call_schema.Core.Limits.{assert_json_safety}
use managed_tool_call_schema.Core.Engine.Input.{Call, Ajv, Request}
use managed_tool_call_schema.Core.Engine.OpenObject.{truthy}
use managed_tool_call_schema.Core.Engine.{validate_tool_call}

pub record ReplayExpectation : Type 0 where
  pub decision : DecisionStatus
  pub reason_code : Option ReasonCode
  pub repair_rule_ids : List RepairRuleId
  pub repaired_paths : List Text
  pub valid_arguments_hash : Option Text
  pub policy_outcome : PolicyOutcome
  pub policy_reasons : List Text
  pub validation_issue_signatures : List Text

signature_of : ValidationIssue → Text
signature_of i = i.path ++ lit "|" ++ i.keyword ++ lit "|" ++ get_or i.expected []

unfoldable pub expectation : Host → GuardDecision → ReplayExpectation
unfolding signature_of
expectation h (accept d) = record {
  decision = status_of d;
  reason_code = none;
  repair_rule_ids = map (λ (r : RepairRecord). r.rule_id) d.repaired_fields;
  repaired_paths = map (λ (r : RepairRecord). r.path) d.repaired_fields;
  valid_arguments_hash = some (sha256 h d.valid_arguments);
  policy_outcome = d.policy_result.outcome;
  policy_reasons = d.policy_result.reasons;
  validation_issue_signatures = [];
}
expectation h (refuse d) = record {
  decision = rejected;
  reason_code = some d.reason_code;
  repair_rule_ids = map (λ (r : RepairRecord). r.rule_id) d.repaired_fields;
  repaired_paths = map (λ (r : RepairRecord). r.path) d.repaired_fields;
  valid_arguments_hash = none;
  policy_outcome = d.policy_result.outcome;
  policy_reasons = d.policy_result.reasons;
  validation_issue_signatures = sort_texts (map signature_of (get_or d.validation_errors []));
}

reason_text : ReasonCode → Text
reason_text arguments_not_object = lit "ARGUMENTS_NOT_OBJECT"
reason_text arguments_json_invalid = lit "ARGUMENTS_JSON_INVALID"
reason_text schema_invalid = lit "SCHEMA_INVALID"
reason_text schema_validation_failed = lit "SCHEMA_VALIDATION_FAILED"
reason_text resource_limit_exceeded = lit "RESOURCE_LIMIT_EXCEEDED"
reason_text repair_limit_exceeded = lit "REPAIR_LIMIT_EXCEEDED"
reason_text policy_denied = lit "POLICY_DENIED"
reason_text internal_error = lit "INTERNAL_ERROR"

outcome_text : PolicyOutcome → Text
outcome_text PolicyOutcome.allowed = lit "allowed"
outcome_text PolicyOutcome.denied = lit "denied"

text_or_null : Option Text → Json
text_or_null none = null
text_or_null (some t) = str t

text_of : Option ReasonCode → Option Text
unfolding reason_text
text_of none = none
text_of (some c) = some (reason_text c)

-- The members that are compared, with null for a missing one, in the order of comparison.
unfoldable pub compared : ReplayExpectation → List (Text × Json)
unfolding outcome_text text_or_null text_of
compared e =
    (lit "decision", str (status_text e.decision))
    ∷ (lit "reason_code", text_or_null (text_of e.reason_code))
    ∷ (lit "repair_rule_ids", arr (texts (map rule_text e.repair_rule_ids)))
    ∷ (lit "repaired_paths", arr (texts e.repaired_paths))
    ∷ (lit "valid_arguments_hash", text_or_null e.valid_arguments_hash)
    ∷ (lit "policy_outcome", str (outcome_text e.policy_outcome))
    ∷ (lit "policy_reasons", arr (texts e.policy_reasons))
    ∷ (lit "validation_issue_signatures", arr (texts e.validation_issue_signatures))
    ∷ []

-- An expectation as JSON: a member that is missing is left out.
present : List (Text × Json) → Fields
present [] = end
present ((k, null) ∷ ms) = present ms
present ((k, v) ∷ ms) = field k v (present ms)

expectation_json : ReplayExpectation → Json
unfolding present
expectation_json e = obj (present (compared e))

pub record ReplayMismatch : Type 0 where
  pub name : Text
  pub expected : Json
  pub actual : Json

module _ (h : Host) where
  mismatches_of : List (Text × Json) → List (Text × Json) → List ReplayMismatch
  mismatches_of ((k, v) ∷ es) ((j, w) ∷ fs) =
      let rest = mismatches_of es fs in
      if sha256 h v == sha256 h w
      then rest
      else record { name = k; expected = v; actual = w } ∷ rest
  mismatches_of _ _ = []

  unfoldable pub compare : ReplayExpectation → ReplayExpectation → List ReplayMismatch
  unfolding mismatches_of
  compare expected actual = mismatches_of (compared expected) (compared actual)

abbrev pub fixture_version : Text
fixture_version = lit "2026-07-20"

pub record Privacy : Type 0 where
  pub classification : Text
  pub contains_raw_argument_values : Bool
  pub safe_for_managed_upload : Bool

-- The request is any JSON value, of which the engine takes the members it knows.
pub record ReplayFixture : Type 0 where
  pub version : Text
  pub fixture_id : Text
  pub request : Json
  pub expected : ReplayExpectation
  pub source_audit_id : Option Text
  pub privacy : Privacy

version_of : Option Json → Option Text
version_of (some (str t)) = some t
version_of other = none

-- A `protocol_version` has its declared type, a string.
unfoldable pub read_request : Json → Option Request
unfolding version_of
read_request (obj fs) = some (record {
  tool_name = get (lit "tool_name") fs;
  tool_schema = get (lit "tool_schema") fs;
  raw_arguments = get (lit "raw_arguments") fs;
  policy = get (lit "policy") fs;
  protocol_version = version_of (get (lit "protocol_version") fs);
})
read_request v = none

optional : Text → Option Text → Fields → Fields
optional k none fs = fs
optional k (some t) fs = field k (str t) fs

privacy_json : Privacy → Json
privacy_json p = obj (
    field (lit "classification") (str p.classification) (
      field (lit "contains_raw_argument_values") (bool p.contains_raw_argument_values)
        (field (lit "safe_for_managed_upload") (bool p.safe_for_managed_upload) end)))

unfoldable pub fixture_json : ReplayFixture → Json
unfolding expectation_json optional privacy_json
fixture_json f = obj (
    field (lit "fixture_version") (str f.version) (
      field (lit "fixture_id") (str f.fixture_id) (
        field (lit "request") f.request (
          field (lit "expected") (expectation_json f.expected) (
            optional (lit "source_audit_id") f.source_audit_id
              (field (lit "privacy") (privacy_json f.privacy) end))))))

pub record ReplayReport : Type 0 where
  pub fixture_id : Text
  pub passed : Bool
  pub expected : ReplayExpectation
  pub actual : ReplayExpectation
  pub mismatches : List ReplayMismatch

pub record ReplaySuiteReport : Type 0 where
  pub passed : Bool
  pub total : ℕ
  pub passed_count : ℕ
  pub failed_count : ℕ
  pub reports : List ReplayReport

is_empty : List ReplayMismatch → Bool
is_empty [] = true
is_empty (m ∷ ms) = false

module _ (h : Host) where
  fixture_hash : Text → Json → ReplayExpectation → Text
  unfolding expectation_json
  fixture_hash version request expected = sha256 h (
      obj (
        field (lit "fixture_version") (str version)
          (field (lit "request") request (field (lit "expected") (expectation_json expected) end))))

  clone_request : Json → Result Json
  clone_request request = do assert_json_safety h request (lit "replay request"); ok request

  audit_id_of : GuardDecision → Text
  audit_id_of (accept d) = d.audit_id
  audit_id_of (refuse d) = d.audit_id

  unfoldable pub create_replay_fixture : Json → GuardDecision → Result ReplayFixture
  unfolding fixture_hash clone_request audit_id_of
  create_replay_fixture request decision = do
    cloned ← clone_request request
    let expected = expectation h decision
    ok (record {
      version = fixture_version;
      fixture_id = fixture_hash fixture_version cloned expected;
      request = cloned;
      expected = expected;
      source_audit_id = some (audit_id_of decision);
      privacy = record {
        classification = lit "local_sensitive";
        contains_raw_argument_values = true;
        safe_for_managed_upload = false;
      };
    })

  unfoldable pub assert_fixture : ReplayFixture → Result (Unit {0})
  unfolding fixture_hash
  assert_fixture f = do
    assert_json_safety h (fixture_json f) (lit "replay fixture")
    require (f.version == fixture_version) (lit "unsupported replay fixture version: " ++ f.version)
    require (truthy f.request) (lit "malformed replay fixture")
    require
        (f.privacy.classification == lit "local_sensitive"
          && f.privacy.contains_raw_argument_values
          && not f.privacy.safe_for_managed_upload)
        (lit "replay fixture privacy declaration is missing or invalid")
    require (fixture_hash f.version f.request f.expected == f.fixture_id)
        (lit "replay fixture integrity check failed")

  module _ (ajv : Ajv) (c : Call) where
    report : ReplayFixture → ReplayExpectation → ReplayReport
    unfolding is_empty
    report f actual =
        let mismatches = compare h f.expected actual in
        record {
          fixture_id = f.fixture_id;
          passed = is_empty mismatches;
          expected = f.expected;
          actual = actual;
          mismatches = mismatches;
        }

    unfoldable pub replay_fixture : ReplayFixture → Result ReplayReport
    unfolding clone_request report
    replay_fixture f = do
      assert_fixture f
      cloned ← clone_request f.request
      ok (report f (expectation h (validate_tool_call h ajv c (read_request cloned))))

  -- Each fixture with the instances of AJV, the identifier and the time of its own call.
  reports_of : List (Ajv × Call × ReplayFixture) → Result (List ReplayReport)
  reports_of [] = ok []
  reports_of ((ajv, c, f) ∷ fs) =
      let rest = reports_of fs in
      do first ← replay_fixture ajv c f; reports ← rest; ok (first ∷ reports)

  summary : List ReplayReport → ReplaySuiteReport
  summary reports =
      let passed_count = length (keep (λ (r : ReplayReport). r.passed) reports) in
      record {
        passed = passed_count == length reports;
        total = length reports;
        passed_count = passed_count;
        failed_count = length reports - passed_count;
        reports = reports;
      }

  unfoldable pub replay_suite : List (Ajv × Call × ReplayFixture) → Result ReplaySuiteReport
  unfolding reports_of summary
  replay_suite [] = throw (type_error (lit "replay suite must contain at least one fixture"))
  replay_suite (f ∷ fs) = do reports ← reports_of (f ∷ fs); ok (summary reports)
