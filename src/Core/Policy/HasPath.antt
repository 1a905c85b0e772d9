-- ===== src/Core/Policy/HasPath.antt =====
-- packages/core/src/policy.ts: `hasPath`.
use managed_tool_call_schema.Base.{
  ℕ, zero, suc, Text, lit, ◌==◌, nat_eq, text_eq, Bool, true, false, ◌&&◌, ◌||◌, elem, Option, none,
  some, List, [], ◌∷◌, map, if◌then◌else◌,
}
use managed_tool_call_schema.Json.{Json, arr, obj, get, elems}
use managed_tool_call_schema.Json.Canonical.{array_index}
use managed_tool_call_schema.Core.Action.Risk.{object_prototype_keys}
use managed_tool_call_schema.Core.Pointer.{unescape}

push_head : ℕ → List Text → List Text
push_head c [] = (c ∷ []) ∷ []
push_head c (t ∷ ts) = (c ∷ t) ∷ ts

-- `s.split('/')`
unfoldable pub split_slash : Text → List Text
unfolding push_head
split_slash [] = [] ∷ []
split_slash (c ∷ s) = if c == 47 then [] ∷ split_slash s else push_head c (split_slash s)

-- `xs.slice(1)`
drop_first {ℓ} : {A : Type ℓ} → List A → List A
drop_first [] = []
drop_first (x ∷ xs) = xs

unfoldable pub pointer_parts : Text → List Text
unfolding split_slash drop_first unescape
pointer_parts pointer = map unescape (drop_first (split_slash pointer))

-- The string keys of `Array.prototype`.
unfoldable pub array_prototype_keys : List Text
array_prototype_keys = map lit (
    "length" ∷ "constructor" ∷ "at" ∷ "concat" ∷ "copyWithin" ∷ "fill" ∷ "find" ∷ "findIndex"
    ∷ "findLast" ∷ "findLastIndex" ∷ "lastIndexOf" ∷ "pop" ∷ "push" ∷ "reverse" ∷ "shift"
    ∷ "unshift" ∷ "slice" ∷ "sort" ∷ "splice" ∷ "includes" ∷ "indexOf" ∷ "join" ∷ "keys" ∷ "entries"
    ∷ "values" ∷ "forEach" ∷ "filter" ∷ "flat" ∷ "flatMap" ∷ "map" ∷ "every" ∷ "some" ∷ "reduce"
    ∷ "reduceRight" ∷ "toLocaleString" ∷ "toReversed" ∷ "toSorted" ∷ "toSpliced" ∷ "toString"
    ∷ "with" ∷ [])

-- What the walk stands on: a value of the arguments, something that is neither an object nor null
-- (a function or a number) or is null, or a built-in prototype.
pub data Cursor : Type 0 where
  value : Json → Cursor
  dead_end object_prototype array_prototype : Cursor

get_elem? : List Json → ℕ → Option Json
get_elem? [] i = none
get_elem? (v ∷ vs) zero = some v
get_elem? (v ∷ vs) (suc i) = get_elem? vs i

element : List Json → Option ℕ → Option Json
unfolding get_elem?
element vs none = none
element vs (some i) = get_elem? vs i

-- An inherited property of an object, and of an array.
inherited : Text → Option Cursor
inherited part =
    if part == lit "__proto__"
    then some object_prototype
    else if elem part object_prototype_keys
    then some dead_end
    else none

array_inherited : Text → Option Cursor
array_inherited part =
    if part == lit "__proto__"
    then some array_prototype
    else if elem part array_prototype_keys || elem part object_prototype_keys
    then some dead_end
    else none

own_or : Option Json → Option Cursor → Option Cursor
own_or (some v) other = some (value v)
own_or none other = other

-- `part in current` and `current[part]`; `none` where the walk ends with `false`.
unfoldable pub step : Cursor → Text → Option Cursor
unfolding element own_or inherited array_inherited
step (value (obj fs)) part = own_or (get part fs) (inherited part)
step (value (arr vs)) part = own_or (element (elems vs) (array_index part)) (array_inherited part)
step (value v) part = none
step dead_end part = none
step object_prototype part = if elem part object_prototype_keys then some dead_end else none
step array_prototype part =
    if part == lit "__proto__"
    then some object_prototype
    else if elem part array_prototype_keys || elem part object_prototype_keys
    then some dead_end
    else none

walk : Option Cursor → List Text → Bool
walk none parts = false
walk (some c) [] = true
walk (some c) (part ∷ parts) = walk (step c part) parts

some_part : List Text → Bool
some_part [] = false
some_part (p ∷ ps) = true

unfoldable pub has_path : Json → Text → Bool
unfolding walk some_part
has_path root pointer =
    let parts = pointer_parts pointer in walk (some (value root)) parts && some_part parts
