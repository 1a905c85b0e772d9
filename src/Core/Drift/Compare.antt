-- ===== src/Core/Drift/Compare.antt =====
-- packages/core/src/drift.ts: `compare`.
use managed_tool_call_schema.Base.{
  Text, lit, ◌==◌, text_eq, Bool, true, false, not, elem, keep, none, some, List, [], ◌∷◌, ◌++◌,
  if◌then◌else◌,
}
use managed_tool_call_schema.Json.{Json, Fields, bool, obj, end, field, get, keys}
use managed_tool_call_schema.Json.Host.{Host}
use managed_tool_call_schema.Core.Pointer.{escape}
use managed_tool_call_schema.Core.Result.{Result, ok, ◌>>=◌}
use managed_tool_call_schema.Core.Drift.Changes.{
  property_added, property_removed, required_added, required_removed, unclassified_change, breaking,
  non_breaking, review, DriftChange, add, distinct, strings, object_or_empty, Member, absent, value,
  member, is_in, same_members,
}
use managed_tool_call_schema.Core.Drift.Constraints.{
  compare_types, compare_set_constraint, compare_const, numeric_constraint, compare_multiple_of,
  is_false, compare_additional, compare_pattern, compare_booleans,
}

pub data AnySchema : Type 0 where
  boolean : Bool → AnySchema
  object : Fields → AnySchema

unfoldable pub schema_json : AnySchema → Json
schema_json (boolean b) = bool b
schema_json (object fs) = obj fs

pub child : Text → Text → Text
child path key = path ++ lit "/" ++ escape key

-- The names in `required`, as a set.
unfoldable pub required_set : Fields → List Text
required_set fs = distinct (strings (get (lit "required") fs))

-- What is pushed for each key, in their order.
unfoldable pub for_each : (Text → List DriftChange) → List Text → List DriftChange
for_each push [] = []
for_each push (k ∷ ks) = push k ++ for_each push ks

unfoldable pub for_each_throwing :
    (Text → Result (List DriftChange)) → List Text → Result (List DriftChange)
for_each_throwing push [] = ok []
for_each_throwing push (k ∷ ks) = do cs ← push k; ds ← for_each_throwing push ks; ok (cs ++ ds)

unfoldable pub required_added_in : Fields → Fields → Text → List DriftChange
unfolding child
required_added_in before after path =
    for_each
      (λ key.
        if elem key (required_set before)
        then []
        else add (child path key) required_added breaking (lit "property became required"))
      (required_set after)

unfoldable pub required_removed_in : Fields → Fields → Text → List DriftChange
unfolding child
required_removed_in before after path =
    for_each
      (λ key.
        if elem key (required_set after)
        then []
        else add (child path key) required_removed non_breaking
            (lit "property is no longer required"))
      (required_set before)

unfoldable pub properties_added : Fields → Fields → Text → List DriftChange
unfolding child
properties_added before after path =
    for_each
      (λ key.
        if is_in key (object_or_empty (get (lit "properties") before))
        then []
        else if elem key (required_set after)
        then add (child path key) property_added breaking
            (lit "required declared property was added")
        else add (child path key) property_added non_breaking
            (lit "optional declared property was added"))
      (keys (object_or_empty (get (lit "properties") after)))

abbrev lower_bounds : List Text
lower_bounds =
    lit "minimum"
    ∷ lit "exclusiveMinimum"
    ∷ lit "minLength"
    ∷ lit "minItems"
    ∷ lit "minProperties"
    ∷ []

abbrev upper_bounds : List Text
upper_bounds =
    lit "maximum"
    ∷ lit "exclusiveMaximum"
    ∷ lit "maxLength"
    ∷ lit "maxItems"
    ∷ lit "maxProperties"
    ∷ []

handled : List Text
handled =
    lit "type"
      ∷ lit "required"
      ∷ lit "properties"
      ∷ lit "enum"
      ∷ lit "const"
      ∷ lit "additionalProperties"
      ∷ lower_bounds
    ++ upper_bounds
    ++ lit "multipleOf" ∷ lit "pattern" ∷ []

annotations : List Text
annotations =
    lit "title"
    ∷ lit "description"
    ∷ lit "default"
    ∷ lit "examples"
    ∷ lit "$comment"
    ∷ lit "deprecated"
    ∷ lit "readOnly"
    ∷ lit "writeOnly"
    ∷ []

module _ (h : Host) where
  other_change : Fields → Fields → Text → Text → Result (List DriftChange)
  unfolding annotations
  other_change before after path key = do
    equal ← same_members h (member key before) (member key after)
    ok (
        if equal
        then []
        else add path unclassified_change (if elem key annotations then non_breaking else review)
            (key ++ lit " changed"))

  -- The last loop of `compare`.
  unfoldable pub other_changes : Fields → Fields → Text → Result (List DriftChange)
  unfolding other_change handled
  other_changes before after path =
      for_each_throwing (other_change before after path)
        (keep (λ key. not (elem key handled)) (distinct (keys before ++ keys after)))

  -- The part of `compare` after the properties of the earlier schema, without its last loop.
  unfoldable pub compare_constraints : Fields → Fields → Text → List DriftChange
  compare_constraints before after path =
      properties_added before after path
      ++ compare_set_constraint h (get (lit "enum") before) (get (lit "enum") after) path
      ++ compare_const h (get (lit "const") before) (get (lit "const") after) path
      ++ compare_additional h (get (lit "additionalProperties") before)
          (get (lit "additionalProperties") after) path
      ++ for_each (λ key. numeric_constraint h before after key true path) lower_bounds
      ++ for_each (λ key. numeric_constraint h before after key false path) upper_bounds
      ++ compare_multiple_of h before after path
      ++ compare_pattern h (get (lit "pattern") before) (get (lit "pattern") after) path

  unfoldable pub compare_head : Fields → Fields → Text → List DriftChange
  compare_head before after path =
      compare_types h (get (lit "type") before) (get (lit "type") after) path
      ++ required_added_in before after path
      ++ required_removed_in before after path

  property_removed_at : Fields → Text → List DriftChange
  property_removed_at before path =
      add path property_removed
        (if is_false h (get (lit "additionalProperties") before) then breaking else review)
        (lit "declared property was removed")

  -- A property that is gone, or whose schemas are not both objects or booleans.
  unfoldable pub compare_other :
      Json → Member → (before : Fields) → Text → Result (List DriftChange)
  unfolding property_removed_at
  compare_other left absent before path = ok (property_removed_at before path)
  compare_other left right before path = do
    equal ← same_members h (value left) right
    ok (if equal then [] else add path unclassified_change review (lit "property schema changed"))

  -- `compare` of two objects, with the loop over the properties of the earlier one.
  unfoldable pub with_properties :
      Fields → Fields → Text → Result (List DriftChange) → Result (List DriftChange)
  with_properties before after path properties = do
    declared ← properties
    others ← other_changes before after path
    ok (
        compare_head before after path
        ++ declared
        ++ compare_constraints before after path
        ++ others)

  unfoldable mutual
    unfolding child compare_other

    -- The loop over the properties of `before`, of whose members `rest` are still to be searched
    -- for them.
    pub properties_in : (rest before after : Fields) → Text → Result (List DriftChange)
    properties_in end before after path = ok []
    properties_in (field k v rest) before after path =
        let later = properties_in rest before after path in
        if k == lit "properties" then declared_in v before after path else later

    pub declared_in : Json → (before after : Fields) → Text → Result (List DriftChange)
    declared_in (obj ps) before after path = declared ps before after path
    declared_in other before after path = ok []

    pub declared : (properties before after : Fields) → Text → Result (List DriftChange)
    declared end before after path = ok []
    declared (field key left ps) before after path = do
      cs ←
          compare_property left (member key (object_or_empty (get (lit "properties") after))) before
            (child path key)
      ds ← declared ps before after path
      ok (cs ++ ds)

    -- One key: the earlier value, and what the later properties have under the key.
    pub compare_property : Json → Member → (before : Fields) → Text → Result (List DriftChange)
    compare_property (obj fs) (value (obj gs)) before path =
        with_properties fs gs path (properties_in fs fs gs path)
    compare_property (obj fs) (value (bool b)) before path =
        ok (compare_booleans none (some b) path)
    compare_property (bool a) (value (obj gs)) before path =
        ok (compare_booleans (some a) none path)
    compare_property (bool a) (value (bool b)) before path =
        ok (compare_booleans (some a) (some b) path)
    compare_property left right before path = compare_other left right before path

  unfoldable pub compare_objects : Fields → Fields → Text → Result (List DriftChange)
  compare_objects before after path =
      with_properties before after path (properties_in before before after path)

  unfoldable pub compare : AnySchema → AnySchema → Text → Result (List DriftChange)
  compare (boolean a) (boolean b) path = ok (compare_booleans (some a) (some b) path)
  compare (boolean a) (object gs) path = ok (compare_booleans (some a) none path)
  compare (object fs) (boolean b) path = ok (compare_booleans none (some b) path)
  compare (object fs) (object gs) path = compare_objects fs gs path
