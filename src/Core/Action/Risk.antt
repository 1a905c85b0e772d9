-- ===== src/Core/Action/Risk.antt =====
-- packages/core/src/action.ts: risk levels and the policy of the gate.
use managed_tool_call_schema.Base.{
  ℕ, Text, lit, ltb, ◌==◌, text_eq, Bool, true, false, ◌&&◌, ◌||◌, elem, is_some, get_or, Option,
  none, some, length, List, [], ◌∷◌, if◌then◌else◌,
}
use managed_tool_call_schema.Json.{Json, str, arr, bool, elems}
use managed_tool_call_schema.Core.Result.{Result, ok, throw, type_error, ◌>>=◌, ◌>>◌, require}

-- `RISK_RANK`
unfoldable pub risk_rank : Text → Option ℕ
risk_rank level =
    if level == lit "read"
    then some 0
    else if level == lit "low"
    then some 1
    else if level == lit "medium"
    then some 2
    else if level == lit "high"
    then some 3
    else if level == lit "critical"
    then some 4
    else none

-- The string keys of `Object.prototype`, which `in` finds on every plain object.
unfoldable pub object_prototype_keys : List Text
object_prototype_keys =
    lit "constructor"
    ∷ lit "__defineGetter__"
    ∷ lit "__defineSetter__"
    ∷ lit "hasOwnProperty"
    ∷ lit "__lookupGetter__"
    ∷ lit "__lookupSetter__"
    ∷ lit "isPrototypeOf"
    ∷ lit "propertyIsEnumerable"
    ∷ lit "toString"
    ∷ lit "valueOf"
    ∷ lit "__proto__"
    ∷ lit "toLocaleString"
    ∷ []

-- `level in RISK_RANK`
unfoldable pub in_risk_rank : Text → Bool
in_risk_rank level = is_some (risk_rank level) || elem level object_prototype_keys

rank_lt : Option ℕ → Option ℕ → Bool
rank_lt (some a) (some b) = ltb a b
rank_lt _ _ = false

-- `RISK_RANK[a] > RISK_RANK[b]`, which is false where a side is no number
unfoldable pub outranks : Text → Text → Bool
unfolding rank_lt
outranks a b = rank_lt (risk_rank b) (risk_rank a)

-- A missing property is `none`. The two properties of the last checks may hold any JSON value.
pub record ActionControlPolicy : Type 0 where
  pub max_auto_execute_risk : Option Text
  pub max_repaired_auto_execute_risk : Option Text
  pub allowed_environments : Option Json
  pub require_idempotency_for_side_effects : Option Json

pub record ResolvedPolicy : Type 0 where
  pub max_auto_execute_risk : Text
  pub max_repaired_auto_execute_risk : Text
  pub allowed_environments : Option (List Text)
  pub require_idempotency_for_side_effects : Bool

abbrev empty_policy : ActionControlPolicy
empty_policy = record {
  max_auto_execute_risk = none;
  max_repaired_auto_execute_risk = none;
  allowed_environments = none;
  require_idempotency_for_side_effects = none;
}

-- The strings of an array, if each element is a string that is not empty.
unfoldable pub environment_names : List Json → Option (List Text)
environment_names [] = some []
environment_names (str s ∷ vs) = elim (environment_names vs) [
  | none ↦ none
  | some ts ↦ if ltb 0 (length s) then some (s ∷ ts) else none
]
environment_names (v ∷ vs) = none

checked_environments : Option Json → Result (Option (List Text))
checked_environments none = ok none
checked_environments (some (arr vs)) = elim (environment_names (elems vs)) [
  | some names ↦ ok (some names)
  | none ↦ throw (type_error (lit "allowed_environments must contain non-empty strings"))
]
checked_environments (some v) =
    throw (type_error (lit "allowed_environments must contain non-empty strings"))

checked_flag : Option Json → Result Bool
checked_flag none = ok true
checked_flag (some (bool b)) = ok b
checked_flag (some v) =
    throw (type_error (lit "require_idempotency_for_side_effects must be boolean"))

unfoldable pub resolved_policy : Option ActionControlPolicy → Result ResolvedPolicy
unfolding checked_environments checked_flag environment_names
resolved_policy policy = do
  let p = get_or policy empty_policy
  let auto = get_or p.max_auto_execute_risk (lit "low")
  let repaired = get_or p.max_repaired_auto_execute_risk (lit "read")
  require (in_risk_rank auto && in_risk_rank repaired)
      (lit "action policy contains an invalid risk level")
  environments ← checked_environments p.allowed_environments
  flag ← checked_flag p.require_idempotency_for_side_effects
  ok (record {
    max_auto_execute_risk = auto;
    max_repaired_auto_execute_risk = repaired;
    allowed_environments = environments;
    require_idempotency_for_side_effects = flag;
  })
