-- ===== src/Core/Drift/Constraints.antt =====
-- packages/core/src/drift.ts: the constraints of a schema, each with its comparison.
use managed_tool_call_schema.Base.{
  ℕ, Text, lit, length, ◌==◌, nat_eq, text_eq, Bool, true, false, not, ◌&&◌, all, elem, map, Option,
  none, some, List, [], ◌∷◌, ◌++◌, if◌then◌else◌,
}
use managed_tool_call_schema.Json.{Json, Items, Fields, bool, num, str, arr, get, elems}
use managed_tool_call_schema.Json.Host.{Host}
use managed_tool_call_schema.Json.Number.{num_lt, num_same}
use managed_tool_call_schema.Json.Stringify.{stringify}
use managed_tool_call_schema.Core.Drift.Changes.{
  type_changed, enum_narrowed, enum_widened, constraint_tightened, constraint_relaxed,
  constraint_changed, const_added, const_removed, const_changed, additional_properties_restricted,
  additional_properties_relaxed, schema_restricted, schema_relaxed, Compatibility, breaking,
  non_breaking, review, DriftChange, add, distinct, strings, printable, same,
}

-- `typeSet`
unfoldable pub type_set : Option Json → List Text
type_set (some (str t)) = t ∷ []
type_set other = distinct (strings other)

subset : List Text → List Text → Bool
subset left right = all (λ t. elem t right) left

type_compatibility : List Text → List Text → Compatibility
unfolding subset
type_compatibility [] right = breaking
type_compatibility left [] = non_breaking
type_compatibility left right =
    if subset right left then breaking else if subset left right then non_breaking else breaking

module _ (h : Host) where
  -- `compareTypes`
  unfoldable pub compare_types : Option Json → Option Json → Text → List DriftChange
  unfolding subset type_compatibility
  compare_types before after path =
      let left = type_set before in
      let right = type_set after in
      if length left == length right && subset left right
      then []
      else add path type_changed (type_compatibility left right)
          (lit "type changed from " ++ printable h before ++ lit " to " ++ printable h after)

  -- The values of two `enum` arrays.
  compare_values : List Text → List Text → Text → List DriftChange
  unfolding subset
  compare_values left right path =
      (if subset left right
        then []
        else add path enum_narrowed breaking (lit "previously accepted enum values were removed"))
      ++ (if subset right left
          then []
          else add path enum_widened non_breaking (lit "enum values were added"))

  array_of : Option Json → Option Items
  array_of (some (arr vs)) = some vs
  array_of other = none

  compare_arrays : Option Items → Option Items → Text → List DriftChange
  unfolding compare_values
  compare_arrays none (some vs) path =
      add path enum_narrowed breaking (lit "an enum constraint was added")
  compare_arrays (some vs) none path =
      add path enum_widened non_breaking (lit "the enum constraint was removed")
  compare_arrays none none path = []
  compare_arrays (some vs) (some ws) path =
      compare_values (map (stringify h) (elems vs)) (map (stringify h) (elems ws)) path

  -- `compareSetConstraint`
  unfoldable pub compare_set_constraint : Option Json → Option Json → Text → List DriftChange
  unfolding array_of compare_arrays
  compare_set_constraint before after path = compare_arrays (array_of before) (array_of after) path

  -- `compareConst`, of the own members
  unfoldable pub compare_const : Option Json → Option Json → Text → List DriftChange
  compare_const none (some v) path =
      add path const_added breaking (lit "a const constraint was added")
  compare_const (some v) none path =
      add path const_removed non_breaking (lit "the const constraint was removed")
  compare_const none none path = []
  compare_const (some v) (some w) path =
      if same h (some v) (some w)
      then []
      else add path const_changed breaking (lit "the required constant value changed")

  number_of : Option Json → Option ℕ
  number_of (some (num n)) = some n
  number_of other = none

  changed_text : Text → ℕ → ℕ → Text
  changed_text key left right =
      key ++ lit " changed from " ++ h.number_text left ++ lit " to " ++ h.number_text right

  -- The last branch of both numeric comparisons.
  changed_otherwise : Text → Option Json → Option Json → Text → List DriftChange
  changed_otherwise key left right path =
      if same h left right then [] else add path constraint_changed review (key ++ lit " changed")

  tightened : Bool → Text → Text → List DriftChange
  tightened tighter path detail =
      add path (if tighter then constraint_tightened else constraint_relaxed)
        (if tighter then breaking else non_breaking) detail

  -- Both are numbers, with the change of one that is not the other.
  both_numbers : Text → ℕ → ℕ → Text → (changed : List DriftChange) → List DriftChange
  unfolding changed_otherwise
  both_numbers key left right path changed =
      if num_same left right
      then changed_otherwise key (some (num left)) (some (num right)) path
      else changed

  numeric_cases :
      Text
      → (changed : ℕ → ℕ → List DriftChange) → Option Json
      → Option Json
      → Text
      → List DriftChange
  unfolding both_numbers changed_otherwise
  numeric_cases key changed none none path = []
  numeric_cases key changed none (some (num n)) path =
      add path constraint_tightened breaking (key ++ lit " constraint was added")
  numeric_cases key changed (some (num n)) none path =
      add path constraint_relaxed non_breaking (key ++ lit " constraint was removed")
  numeric_cases key changed (some (num m)) (some (num n)) path =
      both_numbers key m n path (changed m n)
  numeric_cases key changed left right path = changed_otherwise key left right path

  -- `numericConstraint`
  unfoldable pub numeric_constraint :
      Fields → Fields → Text → (higher_is_tighter : Bool) → Text → List DriftChange
  unfolding numeric_cases tightened changed_text
  numeric_constraint before after key higher path =
      numeric_cases key
        (λ left right.
          tightened (if higher then num_lt left right else num_lt right left) path
            (changed_text key left right))
        (get key before) (get key after) path

  multiple_change : Text → ℕ → ℕ → List DriftChange
  unfolding changed_text
  multiple_change path left right =
      let detail = changed_text (lit "multipleOf") left right in
      if h.integer_quotient right left
      then add path constraint_tightened breaking detail
      else if h.integer_quotient left right
      then add path constraint_relaxed non_breaking detail
      else add path constraint_changed review detail

  -- `compareMultipleOf`
  unfoldable pub compare_multiple_of : Fields → Fields → Text → List DriftChange
  unfolding numeric_cases multiple_change
  compare_multiple_of before after path =
      numeric_cases (lit "multipleOf") (multiple_change path) (get (lit "multipleOf") before)
        (get (lit "multipleOf") after) path

  unfoldable pub is_false : Option Json → Bool
  is_false (some (bool false)) = true
  is_false other = false

  -- The comparison of `additionalProperties`.
  unfoldable pub compare_additional : Option Json → Option Json → Text → List DriftChange
  unfolding is_false
  compare_additional before after path =
      if not (is_false before) && is_false after
      then add path additional_properties_restricted breaking
          (lit "additional properties are no longer accepted")
      else if is_false before && not (is_false after)
      then add path additional_properties_relaxed non_breaking
          (lit "additional properties are now accepted")
      else if same h before after
      then []
      else add path constraint_changed review (lit "additionalProperties schema changed")

  pattern_change : Option Json → Option Json → Text → List DriftChange
  pattern_change none after path =
      add path constraint_tightened breaking (lit "pattern constraint changed")
  pattern_change before none path =
      add path constraint_relaxed non_breaking (lit "pattern constraint changed")
  pattern_change before after path =
      add path constraint_changed review (lit "pattern constraint changed")

  -- The comparison of `pattern`.
  unfoldable pub compare_pattern : Option Json → Option Json → Text → List DriftChange
  unfolding pattern_change
  compare_pattern before after path =
      if same h before after then [] else pattern_change before after path

-- The first branch of `compare`, where one of the schemas at least is a boolean; none is an object.
unfoldable pub compare_booleans : Option Bool → Option Bool → Text → List DriftChange
compare_booleans none none path = []
compare_booleans (some true) (some true) path = []
compare_booleans (some false) (some false) path = []
compare_booleans (some true) after path =
    add path schema_restricted breaking (lit "schema changed from accepting all values")
compare_booleans before (some true) path =
    add path schema_relaxed non_breaking (lit "schema now accepts all values")
compare_booleans (some false) after path =
    add path schema_relaxed non_breaking (lit "schema no longer rejects every value")
compare_booleans before after path =
    add path schema_restricted breaking (lit "schema now rejects every value")
