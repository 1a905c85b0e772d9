-- ===== src/Core/Drift/Changes.antt =====
-- packages/core/src/drift.ts: a change, and the helpers of the comparison.
use managed_tool_call_schema.Base.{
  Text, lit, ◌==◌, text_eq, Bool, true, false, elem, Option, none, some, List, [], ◌∷◌,
  if◌then◌else◌,
}
use managed_tool_call_schema.Json.{Json, Items, Fields, str, arr, obj, nil, cons, end, get}
use managed_tool_call_schema.Json.Host.{Host}
use managed_tool_call_schema.Json.Stringify.{stringify}
use managed_tool_call_schema.Json.Canonical.{sha256}
use managed_tool_call_schema.Core.Result.{Result, ok, throw, type_error}
use managed_tool_call_schema.Core.Action.Risk.{object_prototype_keys}

pub data ChangeKind : Type 0 where
  property_added property_removed required_added required_removed type_changed : ChangeKind
  enum_narrowed enum_widened : ChangeKind
  additional_properties_restricted additional_properties_relaxed : ChangeKind
  constraint_tightened constraint_relaxed constraint_changed : ChangeKind
  const_added const_removed const_changed : ChangeKind
  schema_restricted schema_relaxed unclassified_change : ChangeKind

pub data Compatibility : Type 0 where
  breaking non_breaking review : Compatibility

pub record DriftChange : Type 0 where
  pub path : Text
  pub kind : ChangeKind
  pub compatibility : Compatibility
  pub detail : Text

-- `add`: the changes that it pushes.
unfoldable pub add : Text → ChangeKind → Compatibility → Text → List DriftChange
add path kind compatibility detail =
    record {
      path = if path == [] then lit "/" else path;
      kind = kind;
      compatibility = compatibility;
      detail = detail;
    }
    ∷ []

-- The members of a `Set` in the order in which they came first.
distinct_from : (seen : List Text) → List Text → List Text
distinct_from seen [] = []
distinct_from seen (t ∷ ts) =
    let again = distinct_from seen ts in
    let first = t ∷ distinct_from (t ∷ seen) ts in if elem t seen then again else first

unfoldable pub distinct : List Text → List Text
unfolding distinct_from
distinct ts = distinct_from [] ts

-- `strings`
unfoldable pub texts_in : Items → List Text
texts_in nil = []
texts_in (cons (str t) vs) = t ∷ texts_in vs
texts_in (cons v vs) = texts_in vs

unfoldable pub strings : Option Json → List Text
unfolding texts_in
strings (some (arr vs)) = texts_in vs
strings other = []

-- `object(value) ? value : {}`
unfoldable pub object_or_empty : Option Json → Fields
object_or_empty (some (obj fs)) = fs
object_or_empty other = end

-- What `value[key]` reads of a plain object: an own value, nothing, or a method of
-- `Object.prototype`. Its `__proto__` is `Object.prototype`, a value with no members of its own.
pub data Member : Type 0 where
  absent : Member
  value : Json → Member
  method : Member

unfoldable pub inherited : Text → Member
inherited key =
    if key == lit "__proto__"
    then value (obj end)
    else if elem key object_prototype_keys
    then method
    else absent

unfoldable pub own_or_inherited : Text → Option Json → Member
unfolding inherited
own_or_inherited key none = inherited key
own_or_inherited key (some v) = value v

unfoldable pub member : Text → Fields → Member
unfolding own_or_inherited
member key fs = own_or_inherited key (get key fs)

-- `key in value`
unfoldable pub is_in : Text → Fields → Bool
is_in key fs = elim (member key fs) [ absent ↦ false | value v ↦ true | method ↦ true ]

module _ (h : Host) where
  unfoldable pub printable : Option Json → Text
  printable none = lit "undefined"
  printable (some v) = stringify h v

  unfoldable pub same_hash : Json → Json → Bool
  same_hash left right = sha256 h left == sha256 h right

  -- `same`, of own members
  unfoldable pub same : Option Json → Option Json → Bool
  unfolding same_hash
  same none none = true
  same (some left) (some right) = same_hash left right
  same left right = false

  -- `same`, of what two objects have under a key: `JSON.stringify` gives `undefined` for a method,
  -- and the hash refuses that.
  no_text : Result Bool
  no_text = throw (
      type_error (
        lit
          "The \"data\" argument must be of type string or an instance of Buffer, TypedArray, or DataView. Received undefined"))

  unfoldable pub same_members : Member → Member → Result Bool
  unfolding same_hash no_text
  same_members absent absent = ok true
  same_members absent other = ok false
  same_members other absent = ok false
  same_members (value left) (value right) = ok (same_hash left right)
  same_members left right = no_text
