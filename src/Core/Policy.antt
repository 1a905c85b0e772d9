-- ===== src/Core/Policy.antt =====
-- packages/core/src/policy.ts: the guard policy, its check and its evaluation.
pub mod HasPath
pub mod Check
pub mod Narrowing
use managed_tool_call_schema.Base.{
  ℕ, Text, lit, length, ltb, Bool, true, false, Option, none, some, get_or, List, [], ◌∷◌, ◌++◌,
  map, if◌then◌else◌,
}
use managed_tool_call_schema.Json.{Json, Fields, arr, obj, num, str, bool, field, end, texts}
use managed_tool_call_schema.Json.Host.{Host}
use managed_tool_call_schema.Json.Number.{double_of}
use managed_tool_call_schema.Json.Canonical.{sha256}
use managed_tool_call_schema.Core.Types
use managed_tool_call_schema.Core.Types.{
  GuardPolicy, PolicyResult, PolicyOutcome, RepairRecord, RepairRuleId, rule_text,
}
use managed_tool_call_schema.Core.Policy.HasPath.{has_path}

abbrev pub empty_policy : GuardPolicy
empty_policy = record {
  allowed_repairs = none;
  max_repairs = none;
  deny_argument_paths = none;
  require_closed_schema = none;
}

unfoldable pub max_repairs_of : Option GuardPolicy → ℕ
max_repairs_of policy = get_or (get_or policy empty_policy).max_repairs 8

unfoldable pub denied_paths_of : Option GuardPolicy → List Text
denied_paths_of policy = get_or (get_or policy empty_policy).deny_argument_paths []

-- An optional property of an object literal.
optional : Text → Option Json → Fields → Fields
optional key none fs = fs
optional key (some v) fs = field key v fs

allowed_json : Option (List RepairRuleId) → Option Json
allowed_json none = none
allowed_json (some rules) = some (arr (texts (map rule_text rules)))

closed_json : Option Bool → Option Json
closed_json none = none
closed_json (some b) = some (bool b)

-- What goes into the list of reasons for each denied path that the arguments have.
path_reasons : Json → List Text → List Text
path_reasons args [] = []
path_reasons args (path ∷ paths) =
    let rest = path_reasons args paths in
    if has_path args path
    then (lit "argument path " ++ path ++ lit " is denied by policy") ∷ rest
    else rest

module _ (h : Host) where
  -- The policy with its defaults, as the JSON value that is hashed.
  unfoldable pub resolved_json : Option GuardPolicy → Json
  unfolding optional allowed_json closed_json
  resolved_json policy =
      let p = get_or policy empty_policy in
      obj (
        field (lit "max_repairs") (num (double_of (max_repairs_of policy))) (
          field (lit "deny_argument_paths") (arr (texts (denied_paths_of policy))) (
            optional (lit "allowed_repairs") (allowed_json p.allowed_repairs)
              (optional (lit "require_closed_schema") (closed_json p.require_closed_schema) end))))

  unfoldable pub policy_reasons : Option GuardPolicy → Json → List RepairRecord → List Text
  unfolding path_reasons
  policy_reasons policy args repairs =
      let most = max_repairs_of policy in
      (if ltb most (length repairs)
        then (lit "repair count exceeds maximum " ++ h.number_text (double_of most)) ∷ []
        else [])
      ++ path_reasons args (denied_paths_of policy)

  outcome_of : List Text → PolicyOutcome
  outcome_of [] = PolicyOutcome.allowed
  outcome_of (r ∷ rs) = PolicyOutcome.denied

  unfoldable pub evaluate_policy : Option GuardPolicy → Json → List RepairRecord → PolicyResult
  unfolding outcome_of
  evaluate_policy policy args repairs =
      let reasons = policy_reasons policy args repairs in
      record {
        outcome = outcome_of reasons;
        applied_policy_hash = sha256 h (resolved_json policy);
        reasons = reasons;
      }
