-- ===== src/Core/Repair/Walk.antt =====
-- packages/core/src/repair.ts: `walk` and `applyRepairs`.
pub mod Receipts
use managed_tool_call_schema.Base.{
  ℕ, zero, suc, ◌+◌, Text, lit, length, ◌==◌, text_eq, Bool, true, false, not, elem, Option, none,
  some, get_or, List, [], ◌∷◌, ◌++◌, if◌then◌else◌,
}
use managed_tool_call_schema.Json.{
  Json, Items, Fields, null, bool, num, str, arr, obj, nil, cons, end, field, get,
}
use managed_tool_call_schema.Json.Host.{Host}
use managed_tool_call_schema.Json.Number.{double_of}
use managed_tool_call_schema.Core.Types.{
  RepairRecord, RepairRuleId, string_to_number, string_to_integer, string_to_boolean,
}
use managed_tool_call_schema.Core.Pointer.{escape}
use managed_tool_call_schema.Core.Repair.Reference.{local_reference}
use managed_tool_call_schema.Core.Repair.Scalar.{Walked, scalar}

abbrev pub Walker : Type 0
Walker = (value : Json) (path : Text) → Walked

unchanged : Walker
unchanged value path = (value, [])

-- One walk after another over the same place.
unfoldable pub then_walk : Walker → Walker → Walker
then_walk f g value path =
    let (value', before) = f value path in
    let (value'', after) = g value' path in (value'', before ++ after)

module _ (h : Host) where
  -- `output.map((item, index) => ...)`, from an index on
  unfoldable pub walk_items : Walker → ℕ → Items → Text → Items × List RepairRecord
  walk_items w index nil path = (nil, [])
  walk_items w index (cons v vs) path =
      let (v', here) = w v (path ++ 47 ∷ h.number_text (double_of index)) in
      let (vs', later) = walk_items w (index + 1) vs path in (cons v' vs', here ++ later)

-- `Object.fromEntries(Object.entries(output).map(...))`
unfoldable pub walk_fields : (Text → Walker) → Fields → Text → Fields × List RepairRecord
walk_fields w end path = (end, [])
walk_fields w (field k v fs) path =
    let (v', here) = w k v (path ++ 47 ∷ escape k) in
    let (fs', later) = walk_fields w fs path in (field k v' fs', here ++ later)

module _ (h : Host) where
  walk_array : Option Walker → Items → Text → Walked
  walk_array none vs path = (arr vs, [])
  walk_array (some w) vs path = let (vs', repairs) = walk_items h w 0 vs path in (arr vs', repairs)

walk_object : Option (Text → Walker) → Fields → Text → Walked
walk_object none fs path = (obj fs, [])
walk_object (some w) fs path = let (fs', repairs) = walk_fields w fs path in (obj fs', repairs)

module _ (h : Host) where
  -- The last step of `walk`, given the walks of `items` and of the properties.
  unfoldable pub walk_children : Option Walker → Option (Text → Walker) → Walker
  unfolding walk_array walk_object
  walk_children items properties (arr vs) path = walk_array h items vs path
  walk_children items properties (obj fs) path = walk_object properties fs path
  walk_children items properties value path = (value, [])

module _ (h : Host) (allowed : List RepairRuleId) (root : Json)
    (follow : (resolving : List Text) (schema : Json) → Walker) (resolving : List Text) where
  -- `follow` walks a schema outside the present one, with the references that are being resolved.
  follow_reference : Option Json → Text → Walker
  follow_reference none reference = unchanged
  follow_reference (some referenced) reference = follow (reference ∷ resolving) referenced

  unfoldable pub walk_reference : Option Json → Walker
  unfolding follow_reference unchanged
  walk_reference (some (str reference)) =
      let jump = follow_reference (local_reference root reference) reference in
      if elem reference resolving then unchanged else jump
  walk_reference other = unchanged

  -- AJV has accepted the schema, so that `properties` is an object. A schema that is no object
  -- repairs nothing.
  unfoldable mutual
    unfolding walk_reference

    pub walk_schema : Json → Walker
    walk_schema (obj fs) =
        then_walk (walk_reference (get (lit "$ref") fs)) (
          then_walk (scalar h allowed fs)
            (walk_children h (items_walker fs) (properties_walker fs)))
    walk_schema null = λ value path. (value, [])
    walk_schema (bool b) = λ value path. (value, [])
    walk_schema (num n) = λ value path. (value, [])
    walk_schema (str s) = λ value path. (value, [])
    walk_schema (arr vs) = λ value path. (value, [])

    pub items_walker : Fields → Option Walker
    items_walker end = none
    items_walker (field k v fs) = if k == lit "items" then some (walk_schema v) else items_walker fs

    pub properties_walker : Fields → Option (Text → Walker)
    properties_walker end = none
    properties_walker (field k v fs) =
        if k == lit "properties" then properties_of v else properties_walker fs

    pub properties_of : Json → Option (Text → Walker)
    properties_of (obj fs) = some (λ key. property_walker fs key)
    properties_of null = none
    properties_of (bool b) = none
    properties_of (num n) = none
    properties_of (str s) = none
    properties_of (arr vs) = none

    pub property_walker : Fields → Text → Walker
    property_walker end key = λ value path. (value, [])
    property_walker (field k v fs) key = if k == key then walk_schema v else property_walker fs key

module _ (h : Host) (allowed : List RepairRuleId) (root : Json) where
  -- Each unit of fuel is a reference that is being resolved.
  unfoldable pub walk : ℕ → (resolving : List Text) (schema : Json) → Walker
  walk zero resolving schema value path = (value, [])
  walk (suc fuel) resolving schema value path =
      walk_schema h allowed root (walk fuel) resolving schema value path

-- The `$ref` strings of a schema, wherever they stand.
unfoldable mutual
  pub references : Json → List Text
  references (obj fs) = references_in fs
  references (arr vs) = references_of vs
  references null = []
  references (bool b) = []
  references (num n) = []
  references (str s) = []

  pub references_in : Fields → List Text
  references_in end = []
  references_in (field k v fs) = own_reference k v ++ references v ++ references_in fs

  pub references_of : Items → List Text
  references_of nil = []
  references_of (cons v vs) = references v ++ references_of vs

  pub own_reference : Text → Json → List Text
  own_reference k (str s) = if k == lit "$ref" then s ∷ [] else []
  own_reference k v = []

unfoldable pub default_repairs : List RepairRuleId
default_repairs = string_to_number ∷ string_to_integer ∷ string_to_boolean ∷ []

unfoldable pub apply_repairs : Host → (schema value : Json) → Option (List RepairRuleId) → Walked
apply_repairs h schema value allowed =
    walk h (get_or allowed default_repairs) schema (suc (length (references schema))) [] schema
      value []
