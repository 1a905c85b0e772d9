-- ===== src/Core/Limits/Objects.antt =====
-- packages/core/src/limits.ts: `assertJsonSafety` over objects of the running program, which may be
-- shared, cyclic or odd.
use managed_tool_call_schema.Base.{
  ℕ, Text, lit, length, ltb, ◌==◌, nat_eq, text_eq, Bool, true, false, ◌&&◌, all, any, Option, none,
  some, List, [], ◌∷◌, if◌then◌else◌,
}
use managed_tool_call_schema.Json.Host.{Host}
use managed_tool_call_schema.Json.Number.{is_finite}
use managed_tool_call_schema.Json.Canonical.{array_index}
use managed_tool_call_schema.Core.Result.{Result}
use managed_tool_call_schema.Core.Limits.{
  Node, leaf, branch, SafetyLimits, is_well_formed_unicode, assert_safety,
}

-- A value: `other` is a function, a symbol, a big integer or undefined, and `ref` an object.
pub data Value : Type 0 where
  null other : Value
  bool : Bool → Value
  num : ℕ → Value
  str : Text → Value
  ref : ℕ → Value

-- An own property; a hidden one is an accessor or not enumerable.
pub data Property : Type 0 where
  symbolic : Property
  hidden : Text → Property
  plain : Text → Value → Property

pub record HeapObject : Type 0 where
  -- the length, if the object is an array
  pub array_length : Option ℕ
  -- whether the prototype is `Object.prototype` or null
  pub is_plain : Bool
  -- without the `length` of an array
  pub properties : List Property

abbrev pub Heap : Type 0
Heap = ℕ → HeapObject

is_symbolic : Property → Bool
is_symbolic symbolic = true
is_symbolic _ = false

index_below : ℕ → Option ℕ → Bool
index_below n none = false
index_below n (some i) = ltb i n

is_index : ℕ → Property → Bool
unfolding index_below
is_index n symbolic = false
is_index n (hidden k) = index_below n (array_index k)
is_index n (plain k v) = index_below n (array_index k)

children : List Property → List Value
children [] = []
children (plain k v ∷ ps) = v ∷ children ps
children (p ∷ ps) = children ps

shape_fault : HeapObject → Option Text
unfolding is_index
shape_fault o = elim o.array_length [
  | none ↦ if o.is_plain then none else some (lit " contains a non-plain object")
  | some n ↦
      if length o.properties == n && all (is_index n) o.properties
      then none
      else some (lit " contains a sparse array or non-index array property")
]

property_fault : List Property → Option Text
property_fault [] = none
property_fault (symbolic ∷ ps) = property_fault ps
property_fault (hidden k ∷ ps) =
    if is_well_formed_unicode k
    then some (lit " contains an accessor or non-enumerable property")
    else some (lit " contains ill-formed Unicode")
property_fault (plain k v ∷ ps) =
    let rest = property_fault ps in
    if is_well_formed_unicode k then rest else some (lit " contains ill-formed Unicode")

first_fault : Option Text → Option Text → Option Text
first_fault (some f) g = some f
first_fault none g = g

object_fault : HeapObject → Option Text
unfolding is_symbolic shape_fault property_fault first_fault
object_fault o =
    if any is_symbolic o.properties
    then some (lit " contains a symbol-keyed property")
    else first_fault (shape_fault o) (property_fault o.properties)

unfoldable pub view : Heap → Value → Node Value
unfolding object_fault children
view heap null = leaf none
view heap other = leaf (some (lit " contains a non-JSON value"))
view heap (bool b) = leaf none
view heap (num n) = leaf (if is_finite n then none else some (lit " contains a non-JSON number"))
view heap (str s) =
    leaf (if is_well_formed_unicode s then none else some (lit " contains ill-formed Unicode"))
view heap (ref i) = let o = heap i in branch (some i) (object_fault o) (children o.properties)

unfoldable pub assert_object_safety :
    Host → Heap → Value → (label : Text) → SafetyLimits → Result (Unit {0})
assert_object_safety h heap value label limits = assert_safety h (view heap) label limits value
