-- ===== src/Anchor/Store/Tables.antt =====
-- packages/anchor-receiver/src/store.ts: one more row in either table.
use managed_tool_call_schema.Base.{
  ℕ, ◌+◌, Text, length, ◌==◌, text_eq, text_beq_iff, ◌≡◌, refl, true, ◌||◌, Bool-cases, inl, inr,
  Option, none, some, is_some, List, [], ◌∷◌, ◌++◌, if◌then◌else◌, elem, arith,
}
use managed_tool_call_schema.Json.Host.{Host}
use managed_tool_call_schema.Core.Assoc.{lookup, insert, lookup-insert}
use managed_tool_call_schema.Anchor.Store.{
  EventRow, last_hash, higher, top_from, tenants, count_distinct, linked, verify_chain,
}

module _ {ℓ} {V : Type ℓ} where
  -- Each key has one entry.
  abbrev pub Distinct : List (Text × V) → Type ℓ
  Distinct [] = Unit
  Distinct ((k, v) ∷ m) = (lookup k m ≡ none) × Distinct m

  pub Distinct-insert :
      (k : Text) (v : V) (m : List (Text × V)) → Distinct m → Distinct (insert k v m)
  unfolding insert lookup
  Distinct-insert k v [] d = (refl, tt)
  Distinct-insert k v ((j, w) ∷ m) (fresh, d) = elim (Bool-cases (j == k)) [
    | inl same ↦ rw same (fresh, d)
    | inr other ↦ rw other (
      rw (lookup-insert k j v m) (ground (arith, fresh, other, text_beq_iff j k, text_beq_iff k j)),
      Distinct-insert k v m d,
    )
  ]

  pub length-insert :
      (k : Text) (v : V) (m : List (Text × V))
      → length (insert k v m) ≡ (if is_some (lookup k m) then 0 else 1) + length m
  unfolding insert lookup
  length-insert k v [] = omega arith
  length-insert k v ((j, w) ∷ m) = ground (arith, length-insert k v m)

elem-append : (t u : Text) (ts : List Text) → elem t (ts ++ u ∷ []) ≡ (elem t ts || u == t)
elem-append t u [] = ground arith
elem-append t u (x ∷ ts) = ground (arith, elem-append t u ts)

pub count_distinct-append :
    (t : Text) (ts : List Text)
    → count_distinct (ts ++ t ∷ []) ≡ (if elem t ts then 0 else 1) + count_distinct ts
unfolding count_distinct
count_distinct-append t [] = omega arith
count_distinct-append t (x ∷ ts) =
    ground
      (arith, count_distinct-append t ts, elem-append x t ts, text_beq_iff t x, text_beq_iff x t)

pub tenants-append :
    (rs : List EventRow) (r : EventRow) → tenants (rs ++ r ∷ []) ≡ tenants rs ++ r.tenant_ref ∷ []
tenants-append [] r = refl
tenants-append (x ∷ rs) r = rw (tenants-append rs r) refl

pub top_from-append :
    (best : Option EventRow) (t : Text) (rs : List EventRow) (r : EventRow)
    → top_from best t (rs ++ r ∷ [])
      ≡ (if r.tenant_ref == t then some (higher r (top_from best t rs)) else top_from best t rs)
unfolding top_from
top_from-append best t [] r = refl
top_from-append best t (x ∷ rs) r =
    top_from-append (if x.tenant_ref == t then some (higher x best) else best) t rs r

pub is_some-top_from :
    (best : Option EventRow) (t : Text) (rs : List EventRow)
    → is_some (top_from best t rs) ≡ (is_some best || elem t (tenants rs))
unfolding top_from
is_some-top_from best t [] = ground arith
is_some-top_from best t (r ∷ rs) =
    ground (arith, is_some-top_from (if r.tenant_ref == t then some (higher r best) else best) t rs)

module _ (h : Host) (secret : Text) where
  pub verify_chain-append :
      (previous : Text) (n : ℕ) (rs : List EventRow) (r : EventRow)
      → (verify_chain h secret previous n rs).valid ≡ true
      → linked h secret (last_hash previous rs) r ≡ true
      → ((verify_chain h secret previous n (rs ++ r ∷ [])).valid ≡ true)
        × ((verify_chain h secret previous n (rs ++ r ∷ [])).checked ≡ n + length rs + 1)
  unfolding verify_chain last_hash
  verify_chain-append previous n [] r v l = (ground arith, ground arith)
  verify_chain-append previous n (x ∷ rs) r v l =
      ground (arith, verify_chain-append x.event_hash (n + 1) rs r)
