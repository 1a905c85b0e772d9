-- ===== src/Core/Assoc.antt =====
-- A `Map` with string keys, as the list of its entries in the order of insertion.
use managed_tool_call_schema.Base.{
  Text, ◌==◌, text_eq, text_beq_iff, ◌≡◌, refl, Option, none, some, List, [], ◌∷◌, arith,
  if◌then◌else◌,
}

module _ {ℓ} {V : Type ℓ} where
  -- `map.get(key)`
  unfoldable pub lookup : Text → List (Text × V) → Option V
  lookup key [] = none
  lookup key ((known, value) ∷ rest) = if known == key then some value else lookup key rest

  -- `map.set(key, value)`
  unfoldable pub insert : Text → V → List (Text × V) → List (Text × V)
  insert key value [] = (key, value) ∷ []
  insert key value ((known, old) ∷ rest) =
      if known == key then (known, value) ∷ rest else (known, old) ∷ insert key value rest

  -- `map.delete(key)`
  unfoldable pub remove : Text → List (Text × V) → List (Text × V)
  remove key [] = []
  remove key ((known, value) ∷ entries) =
      let rest = remove key entries in if known == key then rest else (known, value) ∷ rest

  pub lookup-empty : (key : Text) → lookup key [] ≡ none
  unfolding lookup
  lookup-empty key = refl

  pub lookup-insert :
      (key other : Text) (value : V) (entries : List (Text × V))
      → lookup other (insert key value entries)
        ≡ (if key == other then some value else lookup other entries)
  unfolding lookup insert
  lookup-insert key other value [] = refl
  lookup-insert key other value ((known, old) ∷ rest) = ground (
    lookup-insert key other value rest,
    text_beq_iff key other,
    text_beq_iff known key,
    text_beq_iff known other,
    arith,
  )

  pub lookup-remove :
      (key other : Text) (entries : List (Text × V))
      → lookup other (remove key entries) ≡ (if key == other then none else lookup other entries)
  unfolding lookup remove
  lookup-remove key other [] = ground arith
  lookup-remove key other ((known, value) ∷ rest) = ground (
    lookup-remove key other rest,
    text_beq_iff key other,
    text_beq_iff known key,
    text_beq_iff known other,
    arith,
  )

pub ruleset map_laws = (lookup-insert, lookup-remove)
