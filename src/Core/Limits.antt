-- ===== src/Core/Limits.antt =====
-- packages/core/src/limits.ts: the safety limits on values and on the patterns of schemas.
pub mod Objects
pub mod Bounds
use managed_tool_call_schema.Base.{
  ℕ, zero, suc, ◌+◌, Text, lit, length, ltb, leb, ◌==◌, nat_eq, text_eq, Bool, true, false, not,
  ◌&&◌, ◌||◌, all, elem, Option, none, some, List, [], ◌∷◌, ◌++◌, map, if◌then◌else◌,
}
use managed_tool_call_schema.Json.{
  Json, Items, Fields, null, bool, num, str, arr, obj, nil, cons, end, field, elems, entries, keys,
}
use managed_tool_call_schema.Json.Host.{Host}
use managed_tool_call_schema.Json.Number.{is_finite, double_of}
use managed_tool_call_schema.Json.Stringify.{is_high_surrogate, is_low_surrogate}
use managed_tool_call_schema.Core.Result.{
  Result, ok, throw, type_error, resource_limit, unsafe_pattern, other_error, ◌>>=◌, ◌>>◌,
}

unfoldable pub is_well_formed_unicode : Text → Bool
is_well_formed_unicode [] = true
is_well_formed_unicode (c ∷ []) = not (is_high_surrogate c) && not (is_low_surrogate c)
is_well_formed_unicode (c ∷ d ∷ s) =
    let after_pair = is_low_surrogate d && is_well_formed_unicode s in
    let after_unit = not (is_low_surrogate c) && is_well_formed_unicode (d ∷ s) in
    if is_high_surrogate c then after_pair else after_unit

-- What the loop sees of a value: a primitive value with its fault, or an object with its identity,
-- its fault and its children. Faults are the ends of the messages.
pub data Node {ℓ} (V : Type ℓ) : Type ℓ where
  leaf : (fault : Option Text) → Node V
  branch : (identity : Option ℕ) (fault : Option Text) (children : List V) → Node V

pub record SafetyLimits : Type 0 where
  pub max_nodes : ℕ
  pub max_depth : ℕ

abbrev pub default_limits : SafetyLimits
default_limits = record { max_nodes = 10000; max_depth = 64 }

was_seen : Option ℕ → List ℕ → Bool
was_seen none seen = false
was_seen (some i) seen = elem i seen

with_identity : Option ℕ → List ℕ → List ℕ
with_identity none seen = seen
with_identity (some i) seen = i ∷ seen

-- What one round of the loop does: it throws or, for a value with no fault, pushes the children.
pub data Round {ℓ} (V : Type ℓ) : Type ℓ where
  stop : Result (Unit {0}) → Round V
  go_on : (children : List V) (seen : List ℕ) → Round V

module _ {ℓ} {V : Type ℓ} where
  -- Children are pushed in turn, so that the last one is popped first.
  unfoldable pub push_all : List V → ℕ → List (V × ℕ) → List (V × ℕ)
  push_all [] depth stack = stack
  push_all (v ∷ vs) depth stack = push_all vs depth ((v, depth) ∷ stack)

  module _ (h : Host) (view : V → Node V) (label : Text) (limits : SafetyLimits) where
    too_large : Result (Unit {0})
    too_large = throw (
        resource_limit (
          label
          ++ lit " exceeds the "
          ++ h.en_us limits.max_nodes
          ++ lit "-node or "
          ++ h.number_text (double_of limits.max_depth)
          ++ lit "-level safety limit"))

    bad : Text → Result (Unit {0})
    bad fault = throw (type_error (label ++ fault))

    visit : Node V → (seen : List ℕ) → Round V
    unfolding bad was_seen with_identity
    visit (leaf none) seen = go_on [] seen
    visit (leaf (some fault)) seen = stop (bad fault)
    visit (branch i fault children) seen =
        if was_seen i seen
        then stop (bad (lit " contains a repeated reference or cycle"))
        else elim fault [ none ↦ go_on children (with_identity i seen) | some f ↦ stop (bad f) ]

    -- One round of the loop, for the value and the depth that it pops.
    unfoldable pub round : V → ℕ → (seen : List ℕ) → (nodes : ℕ) → Round V
    unfolding too_large visit
    round v depth seen nodes =
        if ltb limits.max_nodes (nodes + 1) || ltb limits.max_depth depth
        then stop too_large
        else visit (view v) seen

    -- The `while` loop; `none` means that the fuel ran out.
    unfoldable pub safety_loop :
        ℕ → List (V × ℕ) → (seen : List ℕ) → (nodes : ℕ) → Option (Result (Unit {0}))
    unfolding round push_all
    safety_loop zero stack seen nodes = none
    safety_loop (suc fuel) [] seen nodes = some (ok tt)
    safety_loop (suc fuel) ((v, depth) ∷ stack) seen nodes = elim (round v depth seen nodes) [
      | stop r ↦ some r
      | go_on children seen' ↦
          safety_loop fuel (push_all children (depth + 1) stack) seen' (nodes + 1)
    ]

    finished : Option (Result (Unit {0})) → Result (Unit {0})
    finished none = throw (other_error [])
    finished (some r) = r

    -- The loop visits a node more in each round, and stops at the limit.
    unfoldable pub assert_safety : V → Result (Unit {0})
    unfolding finished
    assert_safety value = finished (safety_loop (limits.max_nodes + 2) ((value, 0) ∷ []) [] 0)

-- JSON values that `JSON.parse` or `structuredClone` made: plain objects and dense arrays, each
-- with an identity of its own.
unfoldable pub view_json : Json → Node Json
view_json null = leaf none
view_json (bool b) = leaf none
view_json (num n) = leaf (if is_finite n then none else some (lit " contains a non-JSON number"))
view_json (str s) =
    leaf (if is_well_formed_unicode s then none else some (lit " contains ill-formed Unicode"))
view_json (arr vs) = branch none none (elems vs)
view_json (obj fs) =
    branch none
      (if all is_well_formed_unicode (keys fs)
        then none
        else some (lit " contains ill-formed Unicode"))
      (map (λ (e : Text × Json). e.1) (entries fs))

unfoldable pub assert_json_safety : Host → Json → (label : Text) → Result (Unit {0})
unfolding view_json
assert_json_safety h value label = assert_safety h view_json label default_limits value

module _ (h : Host) where
  unfoldable pub safe_pattern : Text → Bool
  safe_pattern pattern_text = leb (length pattern_text) 1024 && h.safe_regex pattern_text

  -- What one entry of a schema object adds to the patterns that are checked.
  entry_patterns_safe : Text → Json → Bool
  unfolding safe_pattern
  entry_patterns_safe k (str s) = if k == lit "pattern" then safe_pattern s else true
  entry_patterns_safe k (obj fs) =
      if k == lit "patternProperties" then all safe_pattern (keys fs) else true
  entry_patterns_safe k v = true

  -- Each failing pattern throws the same error, so the order of the visits does not show.
  unfoldable mutual
    unfolding entry_patterns_safe

    pub patterns_safe : Json → Bool
    patterns_safe (arr vs) = items_patterns_safe vs
    patterns_safe (obj fs) = fields_patterns_safe fs
    patterns_safe null = true
    patterns_safe (bool b) = true
    patterns_safe (num n) = true
    patterns_safe (str s) = true

    pub items_patterns_safe : Items → Bool
    items_patterns_safe nil = true
    items_patterns_safe (cons v vs) = patterns_safe v && items_patterns_safe vs

    pub fields_patterns_safe : Fields → Bool
    fields_patterns_safe end = true
    fields_patterns_safe (field k v fs) =
        entry_patterns_safe k v && patterns_safe v && fields_patterns_safe fs

  unfoldable pub assert_safe_schema_patterns : Json → Result (Unit {0})
  assert_safe_schema_patterns schema =
      if patterns_safe schema
      then ok tt
      else throw (unsafe_pattern (lit "schema contains a potentially unsafe regular expression"))
