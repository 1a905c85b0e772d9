-- ===== src/Json/Canonical.antt =====
-- packages/core/src/hash.ts: the canonical text of a value and its hash.
use managed_tool_call_schema.Base.{
  ℕ, ◌+◌, ◌-◌, ◌*◌, Text, lit, [], ◌∷◌, ◌++◌, Bool, true, false, ◌&&◌, ltb, leb, ◌==◌, nat_eq,
  text_eq, Option, none, some, if◌then◌else◌, length,
}
use managed_tool_call_schema.Json.{
  Json, Items, Fields, null, bool, num, str, arr, obj, nil, cons, end, field,
}
use managed_tool_call_schema.Json.Host.{Host}
use managed_tool_call_schema.Json.Stringify.{stringify}

-- The value of a canonical array index, the keys that an object lists first.
decimal : ℕ → Text → Option ℕ
decimal acc [] = some acc
decimal acc (c ∷ s) =
    let rest = decimal (acc * 10 + (c - 48)) s in if leb 48 c && leb c 57 then rest else none

below_limit : Option ℕ → Option ℕ
below_limit none = none
below_limit (some n) = if ltb n 4294967295 then some n else none

unfoldable pub array_index : Text → Option ℕ
unfolding decimal below_limit
array_index [] = none
array_index (c ∷ s) = if c == 48 && ltb 0 (length s) then none else below_limit (decimal 0 (c ∷ s))

-- Whether a key is listed before another one that was added earlier.
before : Option ℕ → Option ℕ → Bool
before (some n) (some m) = ltb n m
before (some n) none = true
before none _ = false

-- A new own property takes its place in the order of own keys.
add_own : Text → Json → Fields → Fields
unfolding array_index before
add_own k v end = field k v end
add_own k v (field j w fs) =
    let later = field j w (add_own k v fs) in
    if before (array_index k) (array_index j) then field k v (field j w fs) else later

-- `Object.fromEntries` of entries with distinct keys, added one after another.
own_order : Fields → Fields → Fields
unfolding add_own
own_order done end = done
own_order done (field k v fs) = own_order (add_own k v done) fs

module _ (h : Host) where
  -- One step of the sort by `localeCompare`, which keeps the order of equal keys.
  insert_key : Text → Json → Fields → Fields
  insert_key k v end = field k v end
  insert_key k v (field j w fs) =
      let later = field j w (insert_key k v fs) in
      if h.locale_le k j then field k v (field j w fs) else later

  -- The entries are sorted by their keys alone, so that the children are made stable first.
  unfoldable mutual
    unfolding own_order insert_key

    pub stable : Json → Json
    stable (arr vs) = arr (stable_items vs)
    stable (obj fs) = obj (own_order end (stable_fields fs))
    stable null = null
    stable (bool b) = bool b
    stable (num n) = num n
    stable (str s) = str s

    stable_items : Items → Items
    stable_items nil = nil
    stable_items (cons v vs) = cons (stable v) (stable_items vs)

    stable_fields : Fields → Fields
    stable_fields end = end
    stable_fields (field k v fs) = insert_key k (stable v) (stable_fields fs)

  unfoldable pub canonical_json : Json → Text
  canonical_json value = stringify h (stable value)

  unfoldable pub sha256 : Json → Text
  sha256 value = lit "sha256:" ++ h.sha256_hex (canonical_json value)
