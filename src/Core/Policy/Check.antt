-- ===== src/Core/Policy/Check.antt =====
-- packages/core/src/policy.ts: `policyValidationError`, and the policy that is read afterwards.
use managed_tool_call_schema.Base.{
  ℕ, Text, lit, length, leb, ◌==◌, nat_eq, text_eq, Bool, true, false, not, ◌&&◌, ◌||◌, any, elem,
  Option, none, some, List, [], ◌∷◌, if◌then◌else◌,
}
use managed_tool_call_schema.Json.{Json, arr, obj, num, str, bool, get, keys, elems}
use managed_tool_call_schema.Json.Number.{is_integer, num_lt, to_count, double_of}
use managed_tool_call_schema.Core.Types.{
  GuardPolicy, RepairRuleId, string_to_number, string_to_integer, string_to_boolean,
  singleton_to_array,
}

unfoldable pub rule_of_text : Text → Option RepairRuleId
rule_of_text t =
    if t == lit "coerce.string_to_number"
    then some string_to_number
    else if t == lit "coerce.string_to_integer"
    then some string_to_integer
    else if t == lit "coerce.string_to_boolean"
    then some string_to_boolean
    else if t == lit "coerce.singleton_to_array"
    then some singleton_to_array
    else none

-- The strings of an array, if all its elements are strings that pass a test and differ.
distinct_texts : (Text → Bool) → List Json → Option (List Text)
distinct_texts p [] = some []
distinct_texts p (str t ∷ vs) = elim (distinct_texts p vs) [
  | none ↦ none
  | some ts ↦ if p t && not (elem t ts) then some (t ∷ ts) else none
]
distinct_texts p (v ∷ vs) = none

text_array : (Text → Bool) → Json → Option (List Text)
unfolding distinct_texts
text_array p (arr vs) = distinct_texts p (elems vs)
text_array p v = none

known_rule : Text → Bool
known_rule t = elim (rule_of_text t) [ none ↦ false | some r ↦ true ]

-- Every `~` stands before a `0` or a `1`.
tildes_ok : Text → Bool
tildes_ok [] = true
tildes_ok (c ∷ []) = not (c == 126)
tildes_ok (c ∷ d ∷ s) =
    let rest = tildes_ok (d ∷ s) in if c == 126 then (d == 48 || d == 49) && rest else rest

starts_with_slash : Text → Bool
starts_with_slash [] = false
starts_with_slash (c ∷ s) = c == 47

-- `/^(?:\/(?:[^~/]|~[01])*)+$/u` and the limit on the length
unfoldable pub pointer_ok : Text → Bool
unfolding tildes_ok starts_with_slash
pointer_ok path = starts_with_slash path && tildes_ok path && leb (length path) 1024

repairs_error : Option Json → Option Text
unfolding text_array known_rule
repairs_error none = none
repairs_error (some v) = elim (text_array known_rule v) [
  | some rules ↦ none
  | none ↦ some (lit "allowed_repairs contains an unknown repair rule")
]

count_ok : Json → Bool
count_ok (num n) = is_integer n && not (num_lt n (double_of 0)) && not (num_lt (double_of 100) n)
count_ok v = false

count_error : Option Json → Option Text
unfolding count_ok
count_error none = none
count_error (some v) =
    if count_ok v then none else some (lit "max_repairs must be an integer from 0 through 100")

paths_error : Option Json → Option Text
unfolding text_array
paths_error none = none
paths_error (some v) = elim (text_array pointer_ok v) [
  | some paths ↦ none
  | none ↦ some (lit "deny_argument_paths must contain JSON Pointers")
]

closed_error : Option Json → Option Text
closed_error none = none
closed_error (some (bool b)) = none
closed_error (some v) = some (lit "require_closed_schema must be boolean")

known_keys : List Text
known_keys =
    lit "allowed_repairs"
    ∷ lit "max_repairs"
    ∷ lit "deny_argument_paths"
    ∷ lit "require_closed_schema"
    ∷ []

first_error : List (Option Text) → Option Text
first_error [] = none
first_error (none ∷ es) = first_error es
first_error (some e ∷ es) = some e

unfoldable pub policy_validation_error : Option Json → Option Text
unfolding repairs_error count_error paths_error closed_error known_keys first_error
policy_validation_error none = none
policy_validation_error (some (obj fs)) =
    if any (λ key. not (elem key known_keys)) (keys fs)
    then some (lit "policy contains unknown fields")
    else first_error (
        repairs_error (get (lit "allowed_repairs") fs)
        ∷ count_error (get (lit "max_repairs") fs)
        ∷ paths_error (get (lit "deny_argument_paths") fs)
        ∷ closed_error (get (lit "require_closed_schema") fs)
        ∷ [])
policy_validation_error (some v) = some (lit "policy must be an object")

-- The rules of a list of strings that were all found to be rules.
rules_of : List Text → List RepairRuleId
rules_of [] = []
rules_of (t ∷ ts) = elim (rule_of_text t) [ none ↦ rules_of ts | some r ↦ r ∷ rules_of ts ]

read_rules : Option (List Text) → Option (List RepairRuleId)
unfolding rules_of
read_rules none = none
read_rules (some ts) = some (rules_of ts)

bind_json {ℓ} : {A : Type ℓ} → Option Json → (Json → Option A) → Option A
bind_json none f = none
bind_json (some v) f = f v

count_of_json : Json → Option ℕ
count_of_json (num n) = some (to_count n)
count_of_json v = none

bool_of_json : Json → Option Bool
bool_of_json (bool b) = some b
bool_of_json v = none

-- The typed view of a policy that has no error.
unfoldable pub read_policy : Option Json → Option GuardPolicy
unfolding read_rules bind_json count_of_json bool_of_json text_array known_rule
read_policy (some (obj fs)) = some (record {
  allowed_repairs = read_rules (bind_json (get (lit "allowed_repairs") fs) (text_array known_rule));
  max_repairs = bind_json (get (lit "max_repairs") fs) count_of_json;
  deny_argument_paths = bind_json (get (lit "deny_argument_paths") fs) (text_array pointer_ok);
  require_closed_schema = bind_json (get (lit "require_closed_schema") fs) bool_of_json;
})
read_policy v = none
