-- ===== src/Core/Engine/Input.antt =====
-- packages/core/src/engine.ts: the parts of `validateToolCall` that read a request.
use managed_tool_call_schema.Base.{
  ℕ, Text, lit, ◌==◌, nat_eq, text_eq, Bool, true, false, ◌||◌, Option, none, some, get_or, List,
  [], ◌∷◌, ◌++◌, map, starts_with, if◌then◌else◌,
}
use managed_tool_call_schema.Json.{Json, str, obj, get}
use managed_tool_call_schema.Json.Host.{Host}
use managed_tool_call_schema.Core.Result.{
  Result, ok, throw, Thrown, type_error, syntax_error, resource_limit, unsafe_pattern, other_error,
  ◌>>=◌, ◌>>◌,
}
use managed_tool_call_schema.Core.Types.{GuardPolicy, RepairRuleId, ValidationIssue}
use managed_tool_call_schema.Core.Limits.{assert_json_safety, assert_safe_schema_patterns}
use managed_tool_call_schema.Core.StrictJson.{parse_unambiguous_json}

-- What differs from call to call: `aud_${randomUUID()}` and the time as an ISO string.
pub record Call : Type 0 where
  pub fresh_id : Text
  pub now : Text

-- An error object of AJV; `type_param` is `String(params.type)`.
pub record AjvError : Type 0 where
  pub instance_path : Text
  pub keyword : Text
  pub message : Option Text
  pub type_param : Text

-- A compiled schema gives its errors, none where the value is valid, or throws.
abbrev pub Validator : Type 0
Validator = Json → Result (List AjvError)

pub data Dialect : Type 0 where
  draft7 draft2019 draft2020 : Dialect

-- The three instances of AJV as one call finds them. They belong to the module and remember what
-- they have compiled: `compile` throws on a schema that it refuses, and on another object under an
-- `$id` that it knows, so that the instances of a later call may be others. A call compiles once.
pub record Ajv : Type 0 where
  pub compile : Dialect → Json → Result Validator

-- A request that is an object. A property of any type is `none` where it is missing; the version
-- is a string.
pub record Request : Type 0 where
  pub tool_name : Option Json
  pub tool_schema : Option Json
  pub raw_arguments : Option Json
  pub policy : Option Json
  pub protocol_version : Option Text

contains : Text → Text → Bool
contains p [] = starts_with p []
contains p (c ∷ s) = starts_with p (c ∷ s) || contains p s

-- `/draft-0[467](?:\/|#|$)/u`
draft_with : ℕ → Text → Bool
draft_with d [] = false
draft_with d (c ∷ s) =
    let rest = draft_with d s in
    let name = lit "draft-0" ++ d ∷ [] in
    starts_with (name ++ lit "/") (c ∷ s)
    || starts_with (name ++ lit "#") (c ∷ s)
    || (c ∷ s) == name
    || rest

dialect_of_text : Text → Dialect
unfolding contains draft_with
dialect_of_text t =
    if draft_with 52 t || draft_with 54 t || draft_with 55 t
    then draft7
    else if contains (lit "2019-09") t
    then draft2019
    else draft2020

dialect_of : Option Json → Dialect
unfolding dialect_of_text
dialect_of (some (str t)) = dialect_of_text t
dialect_of other = draft2020

schema_dialect : Json → Dialect
unfolding dialect_of
schema_dialect (obj fs) = dialect_of (get (lit "$schema") fs)
schema_dialect schema = draft2020

unfoldable pub compile_schema : Ajv → Json → Result Validator
unfolding schema_dialect
compile_schema ajv schema = ajv.compile (schema_dialect schema) schema

object_only : Json → Result Json
object_only (obj fs) = ok (obj fs)
object_only v = throw (type_error (lit "tool arguments must be a JSON object"))

raw_value : Host → Json → Result Json
raw_value h (str source) =
    parse_unambiguous_json h (record { max_nodes = 10000; max_depth = 64 }) 1000000 source
raw_value h v = ok v

-- `parseArguments`; `structuredClone` gives the same value
unfoldable pub parse_arguments : Host → Json → Result Json
unfolding object_only raw_value
parse_arguments h raw = do
  parsed ← raw_value h raw
  args ← object_only parsed
  assert_json_safety h args (lit "tool arguments")
  ok args

-- The checks of the schema and its compilation.
unfoldable pub prepare_schema : Host → Ajv → Json → Result Validator
prepare_schema h ajv schema = do
  assert_json_safety h schema (lit "tool schema")
  assert_safe_schema_patterns h schema
  compile_schema ajv schema

or_slash : Text → Text
or_slash [] = lit "/"
or_slash (c ∷ s) = c ∷ s

to_issue : AjvError → ValidationIssue
unfolding or_slash
to_issue e = record {
  path = or_slash e.instance_path;
  keyword = e.keyword;
  message = get_or e.message (lit "schema validation failed");
  expected = if e.keyword == lit "type" then some e.type_param else none;
}

unfoldable pub to_issues : List AjvError → List ValidationIssue
unfolding to_issue
to_issues errors = map to_issue errors

-- `parts.join(separator)`
unfoldable pub join : Text → List Text → Text
join separator [] = []
join separator (t ∷ []) = t
join separator (t ∷ u ∷ ts) = t ++ separator ++ join separator (u ∷ ts)

first_three {ℓ} : {A : Type ℓ} → List A → List A
first_three (a ∷ b ∷ c ∷ rest) = a ∷ b ∷ c ∷ []
first_three xs = xs

-- `hint`
unfoldable pub hint_of : List ValidationIssue → Text
unfolding first_three
hint_of found =
    join (lit "; ")
      (map (λ (i : ValidationIssue). i.path ++ lit ": " ++ i.message) (first_three found))

unfoldable pub message_of : Thrown → Text
message_of (type_error m) = m
message_of (syntax_error m) = m
message_of (resource_limit m) = m
message_of (unsafe_pattern m) = m
message_of (other_error m) = m

unfoldable pub is_resource_limit : Thrown → Bool
is_resource_limit (resource_limit m) = true
is_resource_limit e = false

-- A request that has passed its checks. `allowed` are the repairs that its policy lists.
pub record CheckedRequest : Type 0 where
  pub tool_name : Text
  pub tool_schema : Json
  pub args : Json
  pub policy : Option GuardPolicy

unfoldable pub allowed_of : CheckedRequest → Option (List RepairRuleId)
allowed_of r = elim r.policy [ none ↦ none | some p ↦ p.allowed_repairs ]
