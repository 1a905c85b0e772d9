-- ===== src/Core/Repair/Walk/Receipts.antt =====
-- packages/core/src/repair.ts: the repairs on record, and their receipts.
use managed_tool_call_schema.Base.{
  ℕ, zero, suc, ◌+◌, Text, lit, ◌==◌, text_eq, ◌≡◌, refl, ap, ◌∙◌, Bool, true, false, elem,
  Bool-cases, inl, inr, Option, none, some, get_or, List, [], ◌∷◌, ◌++◌, All, All-append,
  if◌then◌else◌,
}
use managed_tool_call_schema.Json.{
  Json, Items, Fields, null, bool, num, str, arr, obj, nil, cons, end, field,
}
use managed_tool_call_schema.Json.Host.{Host}
use managed_tool_call_schema.Core.Types.{RepairRuleId}
use managed_tool_call_schema.Core.Repair.Reference.{local_reference}
use managed_tool_call_schema.Core.Repair.Scalar.Exact.{
  IsGood, IsHonest, unrepaired, scalar-IsHonest,
}
use managed_tool_call_schema.Core.Repair.Walk.{
  Walker, unchanged, then_walk, walk_items, walk_fields, walk_children, follow_reference,
  walk_reference, walk_schema, items_walker, properties_walker, properties_of, property_walker,
  walk, apply_repairs, default_repairs,
}

append_empty {ℓ} : {A : Type ℓ} (xs ys : List A) → xs ++ ys ≡ [] → (xs ≡ []) × (ys ≡ [])
append_empty [] ys e = (refl, e)
append_empty (x ∷ xs) ys e = cc e

module _ (h : Host) (allowed : List RepairRuleId) where
  abbrev Honest : Walker → Type 0
  Honest w = (value : Json) (path : Text) → IsHonest h allowed value (w value path)

  Honest-then : (f g : Walker) → Honest f → Honest g → Honest (then_walk f g)
  unfolding then_walk
  Honest-then f g hf hg value path =
      let a = hf value path in
      let b = hg (f value path).0 path in
      record {
        silent = λ e.
            let (none_before, none_after) = append_empty _ _ e in
            b.silent none_after ∙ a.silent none_before;
        good = All-append (IsGood h allowed) _ _ a.good b.good;
      }

  items-Honest :
      (w : Walker)
      → Honest w
      → (i : ℕ) (vs : Items) (path : Text)
      → ((walk_items h w i vs path).1 ≡ [] → (walk_items h w i vs path).0 ≡ vs)
        × All (IsGood h allowed) (walk_items h w i vs path).1
  unfolding walk_items
  items-Honest w hw i nil path = (λ _. refl, tt)
  items-Honest w hw i (cons v vs) path =
      let a = hw v _ in
      let (same, good) = items-Honest w hw (i + 1) vs path in
      (
        λ e. let (p, q) = append_empty _ _ e in cc (a.silent p, same q),
        All-append (IsGood h allowed) _ _ a.good good,
      )

  fields-Honest :
      (w : Text → Walker)
      → ((k : Text) → Honest (w k))
      → (fs : Fields) (path : Text)
      → ((walk_fields w fs path).1 ≡ [] → (walk_fields w fs path).0 ≡ fs)
        × All (IsGood h allowed) (walk_fields w fs path).1
  unfolding walk_fields
  fields-Honest w hw end path = (λ _. refl, tt)
  fields-Honest w hw (field k v fs) path =
      let a = hw k v _ in
      let (same, good) = fields-Honest w hw fs path in
      (
        λ e. let (p, q) = append_empty _ _ e in cc (a.silent p, same q),
        All-append (IsGood h allowed) _ _ a.good good,
      )

  abbrev HonestItems : Option Walker → Type 0
  HonestItems none = Unit
  HonestItems (some w) = Honest w

  abbrev HonestProperties : Option (Text → Walker) → Type 0
  HonestProperties none = Unit
  HonestProperties (some w) = (k : Text) → Honest (w k)

  children-Honest :
      (items : Option Walker) (properties : Option (Text → Walker))
      → HonestItems items
      → HonestProperties properties
      → Honest (walk_children h items properties)
  unfolding walk_children
  children-Honest (some w) ps hi hp (arr vs) path =
      let (same, good) = items-Honest w hi 0 vs path in
      record { silent = λ e. ap arr (same e); good = good }
  children-Honest none ps hi hp (arr vs) path = unrepaired h allowed (arr vs)
  children-Honest items (some w) hi hp (obj fs) path =
      let (same, good) = fields-Honest w hp fs path in
      record { silent = λ e. ap obj (same e); good = good }
  children-Honest items none hi hp (obj fs) path = unrepaired h allowed (obj fs)
  children-Honest items ps hi hp null path = unrepaired h allowed null
  children-Honest items ps hi hp (bool b) path = unrepaired h allowed (bool b)
  children-Honest items ps hi hp (num n) path = unrepaired h allowed (num n)
  children-Honest items ps hi hp (str s) path = unrepaired h allowed (str s)

  module _ (root : Json) (follow : (resolving : List Text) (schema : Json) → Walker)
      (honest : (rs : List Text) (s : Json) → Honest (follow rs s)) (resolving : List Text) where
    jump-Honest :
        (o : Option Json) (r : Text) → Honest (follow_reference h allowed root follow resolving o r)
    unfolding follow_reference unchanged
    jump-Honest none r value path = unrepaired h allowed value
    jump-Honest (some s) r value path = honest (r ∷ resolving) s value path

    reference-Honest : (o : Option Json) → Honest (walk_reference h allowed root follow resolving o)
    unfolding walk_reference unchanged
    reference-Honest (some (str r)) value path = elim (Bool-cases (elem r resolving)) [
      | inl seen ↦ rw seen (unrepaired h allowed value)
      | inr fresh ↦ rw fresh (jump-Honest (local_reference root r) r value path)
    ]
    reference-Honest none value path = unrepaired h allowed value
    reference-Honest (some v) value path = unrepaired h allowed value

    walker_if : (b : Bool) (v w : Walker) → Honest v → Honest w → Honest (if b then v else w)
    walker_if true v w x y = x
    walker_if false v w x y = y

    items_if :
        (b : Bool) (v w : Option Walker)
        → HonestItems v
        → HonestItems w
        → HonestItems (if b then v else w)
    items_if true v w x y = x
    items_if false v w x y = y

    properties_if :
        (b : Bool) (v w : Option (Text → Walker))
        → HonestProperties v
        → HonestProperties w
        → HonestProperties (if b then v else w)
    properties_if true v w x y = x
    properties_if false v w x y = y

    mutual
      unfolding walk_schema

      schema-Honest : (s : Json) → Honest (walk_schema h allowed root follow resolving s)
      schema-Honest (obj fs) = Honest-then _ _ (reference-Honest _) (
          Honest-then _ _ (scalar-IsHonest h allowed fs)
            (children-Honest _ _ (items_walker_honest fs) (properties_walker_honest fs)))
      schema-Honest null = λ value path. unrepaired h allowed value
      schema-Honest (bool b) = λ value path. unrepaired h allowed value
      schema-Honest (num n) = λ value path. unrepaired h allowed value
      schema-Honest (str s) = λ value path. unrepaired h allowed value
      schema-Honest (arr vs) = λ value path. unrepaired h allowed value

      items_walker_honest :
          (fs : Fields) → HonestItems (items_walker h allowed root follow resolving fs)
      items_walker_honest end = tt
      items_walker_honest (field k v fs) =
          items_if (k == lit "items") _ _ (schema-Honest v) (items_walker_honest fs)

      properties_walker_honest :
          (fs : Fields) → HonestProperties (properties_walker h allowed root follow resolving fs)
      properties_walker_honest end = tt
      properties_walker_honest (field k v fs) =
          properties_if (k == lit "properties") _ _ (properties_of_honest v)
            (properties_walker_honest fs)

      properties_of_honest :
          (v : Json) → HonestProperties (properties_of h allowed root follow resolving v)
      properties_of_honest (obj fs) = λ key. property-Honest fs key
      properties_of_honest null = tt
      properties_of_honest (bool b) = tt
      properties_of_honest (num n) = tt
      properties_of_honest (str s) = tt
      properties_of_honest (arr vs) = tt

      property-Honest :
          (fs : Fields) (key : Text)
          → Honest (property_walker h allowed root follow resolving fs key)
      property-Honest end key = λ value path. unrepaired h allowed value
      property-Honest (field k v fs) key =
          walker_if (k == key) _ _ (schema-Honest v) (property-Honest fs key)

  walk-Honest :
      (root : Json) (fuel : ℕ) (resolving : List Text) (schema : Json)
      → Honest (walk h allowed root fuel resolving schema)
  unfolding walk
  walk-Honest root zero rs s value path = unrepaired h allowed value
  walk-Honest root (suc fuel) rs s value path =
      schema-Honest root (walk h allowed root fuel) (walk-Honest root fuel) rs s value path

-- Arguments change only with a repair on record, and each repair on record follows an allowed rule
-- and has a receipt that verifies.
pub apply_repairs-IsHonest :
    (h : Host) (schema value : Json) (allowed : Option (List RepairRuleId))
    → IsHonest h (get_or allowed default_repairs) value (apply_repairs h schema value allowed)
unfolding apply_repairs
apply_repairs-IsHonest h schema value allowed =
    walk-Honest h (get_or allowed default_repairs) schema _ [] schema value []
