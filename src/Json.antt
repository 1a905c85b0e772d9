-- ===== src/Json.antt =====
-- JSON values, as `JSON.parse` gives them, and the ways in which the program reads them.
-- packages/core/src/hash.ts is in the child `Canonical`.
pub mod Host
pub mod Number
pub mod Stringify
pub mod Canonical
use managed_tool_call_schema.Base.{
  ℕ, Text, ◌==◌, text_eq, Bool, true, false, Option, none, some, List, [], ◌∷◌, if◌then◌else◌,
}

-- A number is the 64-bit pattern of a double. The entries of an object stand in the order of
-- its own keys, and no key stands twice.
mutual
  pub data Json : Type 0 where
    null : Json
    bool : Bool → Json
    num : ℕ → Json
    str : Text → Json
    arr : Items → Json
    obj : Fields → Json

  pub data Items : Type 0 where
    nil : Items
    cons : Json → Items → Items

  pub data Fields : Type 0 where
    end : Fields
    field : Text → Json → Fields → Fields

-- The elements of an array.
unfoldable pub elems : Items → List Json
elems nil = []
elems (cons v vs) = v ∷ elems vs

unfoldable pub from_elems : List Json → Items
from_elems [] = nil
from_elems (v ∷ vs) = cons v (from_elems vs)

-- `Object.entries`
unfoldable pub entries : Fields → List (Text × Json)
entries end = []
entries (field k v fs) = (k, v) ∷ entries fs

unfoldable pub from_entries : List (Text × Json) → Fields
from_entries [] = end
from_entries ((k, v) ∷ es) = field k v (from_entries es)

-- An own property; `none` is `undefined`.
unfoldable pub get : Text → Fields → Option Json
get k end = none
get k (field j v fs) = if j == k then some v else get k fs

-- `Object.keys`
unfoldable pub keys : Fields → List Text
keys end = []
keys (field k v fs) = k ∷ keys fs

-- An array of strings.
unfoldable pub texts : List Text → Items
texts [] = nil
texts (t ∷ ts) = cons (str t) (texts ts)
