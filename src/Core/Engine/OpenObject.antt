-- ===== src/Core/Engine/OpenObject.antt =====
-- packages/core/src/engine.ts: `firstOpenObject`.
use managed_tool_call_schema.Base.{
  ℕ, ◌+◌, Text, lit, ◌==◌, nat_eq, text_eq, Bool, true, false, not, ◌&&◌, ◌||◌, Option, none, some,
  List, [], ◌∷◌, ◌++◌, if◌then◌else◌,
}
use managed_tool_call_schema.Json.{
  Json, Items, Fields, null, bool, num, str, arr, obj, nil, cons, end, field, get,
}
use managed_tool_call_schema.Json.Host.{Host}
use managed_tool_call_schema.Json.Number.{num_same, is_nan, double_of}

unfoldable pub truthy : Json → Bool
truthy null = false
truthy (bool b) = b
truthy (num n) = not (num_same n 0) && not (is_nan n)
truthy (str []) = false
truthy (str (c ∷ s)) = true
truthy (arr vs) = true
truthy (obj fs) = true

is_object_name : Json → Bool
is_object_name (str t) = t == lit "object"
is_object_name v = false

any_object_name : Items → Bool
unfolding is_object_name
any_object_name nil = false
any_object_name (cons v vs) = is_object_name v || any_object_name vs

-- `types.includes('object')`
names_object : Option Json → Bool
unfolding any_object_name
names_object none = false
names_object (some (arr vs)) = any_object_name vs
names_object (some v) = is_object_name v

is_present : Option Json → Bool
unfolding truthy
is_present none = false
is_present (some v) = truthy v

is_false : Option Json → Bool
is_false (some (bool false)) = true
is_false other = false

-- A schema that takes objects and does not forbid additional properties.
unfoldable pub is_open : Fields → Bool
unfolding names_object is_present is_false
is_open fs =
    (names_object (get (lit "type") fs) || is_present (get (lit "properties") fs))
    && not (is_false (get (lit "additionalProperties") fs))

unfoldable pub schema_maps : List Text
schema_maps =
    lit "properties"
    ∷ lit "patternProperties"
    ∷ lit "$defs"
    ∷ lit "definitions"
    ∷ lit "dependentSchemas"
    ∷ []

unfoldable pub schema_values : List Text
schema_values =
    lit "items"
    ∷ lit "contains"
    ∷ lit "additionalProperties"
    ∷ lit "propertyNames"
    ∷ lit "not"
    ∷ lit "if"
    ∷ lit "then"
    ∷ lit "else"
    ∷ []

unfoldable pub schema_arrays : List Text
schema_arrays = lit "prefixItems" ∷ lit "allOf" ∷ lit "anyOf" ∷ lit "oneOf" ∷ []

-- The first result of a search over keys.
first_of : (Text → Option Text) → List Text → Option Text
first_of f [] = none
first_of f (k ∷ ks) = elim (f k) [ some p ↦ some p | none ↦ first_of f ks ]

or_else : Option Text → Option Text → Option Text
or_else (some p) other = some p
or_else none other = other

module _ (h : Host) where
  -- Values that JSON text gives are trees, in which no object is met twice.
  unfoldable mutual
    unfolding is_open first_of or_else schema_maps schema_values schema_arrays

    pub first_open_object : Json → (path : Text) → Option Text
    first_open_object (obj fs) path =
        if is_open fs
        then some path
        else or_else (first_of (λ key. open_in_map fs key path) schema_maps) (
            or_else (first_of (λ key. open_in_value fs key path) schema_values)
              (first_of (λ key. open_in_array fs key path) schema_arrays))
    first_open_object null path = none
    first_open_object (bool b) path = none
    first_open_object (num n) path = none
    first_open_object (str s) path = none
    first_open_object (arr vs) path = none

    pub open_in_map : Fields → (key path : Text) → Option Text
    open_in_map end key path = none
    open_in_map (field k v fs) key path =
        if k == key then open_entries v (path ++ 47 ∷ key) else open_in_map fs key path

    pub open_entries : Json → (path : Text) → Option Text
    open_entries (obj fs) path = open_fields fs path
    open_entries null path = none
    open_entries (bool b) path = none
    open_entries (num n) path = none
    open_entries (str s) path = none
    open_entries (arr vs) path = none

    pub open_fields : Fields → (path : Text) → Option Text
    open_fields end path = none
    open_fields (field k v fs) path =
        or_else (first_open_object v (path ++ 47 ∷ k)) (open_fields fs path)

    pub open_in_value : Fields → (key path : Text) → Option Text
    open_in_value end key path = none
    open_in_value (field k v fs) key path =
        if k == key then first_open_object v (path ++ 47 ∷ key) else open_in_value fs key path

    pub open_in_array : Fields → (key path : Text) → Option Text
    open_in_array end key path = none
    open_in_array (field k v fs) key path =
        if k == key then open_elements v (path ++ 47 ∷ key) else open_in_array fs key path

    pub open_elements : Json → (path : Text) → Option Text
    open_elements (arr vs) path = open_items vs path 0
    open_elements null path = none
    open_elements (bool b) path = none
    open_elements (num n) path = none
    open_elements (str s) path = none
    open_elements (obj fs) path = none

    pub open_items : Items → (path : Text) → (index : ℕ) → Option Text
    open_items nil path index = none
    open_items (cons v vs) path index =
        or_else (first_open_object v (path ++ 47 ∷ h.number_text (double_of index)))
          (open_items vs path (index + 1))
