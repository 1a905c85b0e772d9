-- ===== src/Core/Drift/Breaking.antt =====
-- packages/core/src/drift.ts: what the comparison of nested schemas adds to the report.
use mathlib.Core.Path.{subst}
use managed_tool_call_schema.Base.{
  Text, lit, ◌==◌, text_eq, text_beq_iff, ◌≡◌, refl, sym, Bool, true, false, any, elem, Bool-cases,
  inl, inr, some, List, [], ◌∷◌, ◌++◌, arith,
}
use managed_tool_call_schema.Json.{Json, Fields, obj, end, field, get}
use managed_tool_call_schema.Json.Host.{Host}
use managed_tool_call_schema.Core.Result.{ok, >>=-eq-ok}
use managed_tool_call_schema.Core.Drift.Changes.{
  DriftChange, add, object_or_empty, Member, member, own_or_inherited,
}
use managed_tool_call_schema.Core.Drift.Constraints.{compare_types}
use managed_tool_call_schema.Core.Drift.Compare.{
  required_set, other_changes, compare_constraints, for_each, required_added_in,
  required_removed_in, compare_head, with_properties, properties_in, declared_in, declared, child,
  compare_property, compare_objects,
}
use managed_tool_call_schema.Core.Drift.Detect.{is_breaking}

module _ (p : DriftChange → Bool) where
  any-left : (xs ys : List DriftChange) → any p xs ≡ true → any p (xs ++ ys) ≡ true
  any-left [] ys e = cc e
  any-left (x ∷ xs) ys e = ground (arith, any-left xs ys)

  any-right : (xs ys : List DriftChange) → any p ys ≡ true → any p (xs ++ ys) ≡ true
  any-right [] ys e = e
  any-right (x ∷ xs) ys e = ground (arith, any-right xs ys e)

  any-for_each :
      (push : Text → List DriftChange) (key : Text) (ks : List Text)
      → elem key ks ≡ true
      → any p (push key) ≡ true
      → any p (for_each push ks) ≡ true
  unfolding for_each
  any-for_each push key [] m e = cc m
  any-for_each push key (k ∷ ks) m e = elim (Bool-cases (k == key)) [
    | inl same ↦
        any-left (push k) (for_each push ks)
          (subst (λ t. any p (push t) ≡ true) (sym ((text_beq_iff k key).0 same)) e)
    | inr other ↦ any-right (push k) (for_each push ks) (any-for_each push key ks (rw other at m) e)
  ]

-- A name that becomes required is a breaking change.
pub required_added-breaking :
    (before after : Fields) (path key : Text)
    → elem key (required_set after) ≡ true
    → elem key (required_set before) ≡ false
    → any is_breaking (required_added_in before after path) ≡ true
unfolding required_added_in add is_breaking
required_added-breaking before after path key is_new was_not =
    any-for_each is_breaking _ key (required_set after) is_new (rw was_not refl)

-- `ls` and `rs` are the schemas that stand at the same path of properties in `fs` and in `gs`.
pub data At : Fields → Fields → Fields → Fields → Type 0 where
  root : {fs gs : Fields} → At fs gs fs gs
  under :
      {fs gs ls rs : Fields} (key : Text) (ps qs ks ms : Fields)
      → get (lit "properties") fs ≡ some (obj ps)
      → get (lit "properties") gs ≡ some (obj qs)
      → get key ps ≡ some (obj ks)
      → get key qs ≡ some (obj ms)
      → At ks ms ls rs
      → At fs gs ls rs

module _ (h : Host) where
  -- What a successful comparison has compared at a property, and that it kept those changes.
  abbrev pub Compared : Json → Member → Fields → Text → List DriftChange → Type 0
  Compared left right before path cs =
      (ds : List DriftChange) × (compare_property h left right before path ≡ ok ds)
      × (any is_breaking ds ≡ true → any is_breaking cs ≡ true)

  pub declared-Compared :
      (ps before after : Fields) (path key : Text) (left : Json) (cs : List DriftChange)
      → get key ps ≡ some left
      → declared h ps before after path ≡ ok cs
      → Compared left
          (member key (object_or_empty (get (lit "properties") after)))
          before
          (child path key)
          cs
  unfolding declared get
  declared-Compared end before after path key left cs g e = cc g
  declared-Compared (field k v ps) before after path key left cs g e =
      let (ds, first, rest) =
        >>=-eq-ok
          (compare_property h v (member k (object_or_empty (get (lit "properties") after))) before
            (child path k))
          _ e in
      let (es, later, joined) = >>=-eq-ok (declared h ps before after path) _ rest in
      let both : ds ++ es ≡ cs = cc joined in
      elim (Bool-cases (k == key)) [
        | inl same ↦
            let is_v : v ≡ left = cc (rw same at g) in
            let is_key : k ≡ key = (text_beq_iff k key).0 same in
            subst
              (λ t.
                Compared left (member t (object_or_empty (get (lit "properties") after))) before
                  (child path t) cs)
              is_key
              (subst
                (λ w.
                  Compared w (member k (object_or_empty (get (lit "properties") after))) before
                    (child path k) cs)
                is_v
                (
                  ds,
                  first,
                  λ b. subst (λ xs. any is_breaking xs ≡ true) both (any-left is_breaking ds es b),
                ))
        | inr other ↦
            let (fs, compared, kept) =
              declared-Compared ps before after path key left es (rw other at g) later in
            (
              fs,
              compared,
              λ b.
                  subst (λ xs. any is_breaking xs ≡ true) both
                    (any-right is_breaking ds es (kept b)),
            )
      ]

  pub properties_in-get :
      (rest before after : Fields) (path : Text) (v : Json)
      → get (lit "properties") rest ≡ some v
      → properties_in h rest before after path ≡ declared_in h v before after path
  unfolding properties_in get
  properties_in-get end before after path v g = cc g
  properties_in-get (field k w rest) before after path v g =
      elim (Bool-cases (k == lit "properties")) [
        | inl same ↦ let is_v : w ≡ v = cc (rw same at g) in rw (same, is_v) refl
        | inr other ↦ rw other (properties_in-get rest before after path v (rw other at g))
      ]

  -- The parts of a comparison of two objects that returns.
  pub compare_objects-parts :
      (before after : Fields) (path : Text) (cs : List DriftChange)
      → compare_objects h before after path ≡ ok cs
      → (ds : List DriftChange) × (properties_in h before before after path ≡ ok ds)
        × (any is_breaking (compare_head h before after path) ≡ true → any is_breaking cs ≡ true)
        × (any is_breaking ds ≡ true → any is_breaking cs ≡ true)
  unfolding compare_objects with_properties
  compare_objects-parts before after path cs e =
      let (ds, first, rest) = >>=-eq-ok (properties_in h before before after path) _ e in
      let (es, others, joined) = >>=-eq-ok (other_changes h before after path) _ rest in
      let head = compare_head h before after path in
      let tail = compare_constraints h before after path in
      let same : head ++ ds ++ tail ++ es ≡ cs = cc joined in
      let kept : any is_breaking (head ++ ds) ≡ true → any is_breaking cs ≡ true = λ b.
        subst (λ xs. any is_breaking xs ≡ true) same
          (any-left is_breaking (head ++ ds ++ tail) es
            (any-left is_breaking (head ++ ds) tail b)) in
      (
        ds,
        first,
        (λ b. kept (any-left is_breaking head ds b)),
        λ b. kept (any-right is_breaking head ds b),
      )

  required_added-head :
      (fs gs : Fields) (path key : Text)
      → elem key (required_set gs) ≡ true
      → elem key (required_set fs) ≡ false
      → any is_breaking (compare_head h fs gs path) ≡ true
  unfolding compare_head
  required_added-head fs gs path key is_new was_not =
      let types = compare_types h (get (lit "type") fs) (get (lit "type") gs) path in
      let added = required_added_in fs gs path in
      any-left is_breaking (types ++ added) (required_removed_in fs gs path)
        (any-right is_breaking types added (required_added-breaking fs gs path key is_new was_not))

  -- The property at a key that both have is compared with all that is below it.
  nested :
      (fs gs ps qs ks ms : Fields) (path key : Text) (cs : List DriftChange)
      → get (lit "properties") fs ≡ some (obj ps)
      → get (lit "properties") gs ≡ some (obj qs)
      → get key ps ≡ some (obj ks)
      → get key qs ≡ some (obj ms)
      → compare_objects h fs gs path ≡ ok cs
      → (ds : List DriftChange) × (compare_objects h ks ms (child path key) ≡ ok ds)
        × (any is_breaking ds ≡ true → any is_breaking cs ≡ true)
  unfolding compare_objects compare_property member object_or_empty declared_in own_or_inherited
  nested fs gs ps qs ks ms path key cs p q k m e =
      let (es, first, head, kept) = compare_objects-parts fs gs path cs e in
      let walked = rw (properties_in-get fs fs gs path (obj ps) p) at first in
      let (ds, compared, below) = declared-Compared ps fs gs path key (obj ks) es k walked in
      (ds, rw (q, m) at compared, λ b. kept (below b))

  -- A name that becomes required at any depth is among the changes as a breaking one.
  pub required_added-At :
      {fs gs ls rs : Fields} (key path : Text) (cs : List DriftChange)
      → At fs gs ls rs
      → elem key (required_set rs) ≡ true
      → elem key (required_set ls) ≡ false
      → compare_objects h fs gs path ≡ ok cs
      → any is_breaking cs ≡ true
  required_added-At {fs = fs} {gs = gs} key path cs root is_new was_not e =
      let (es, first, head, kept) = compare_objects-parts fs gs path cs e in
      head (required_added-head fs gs path key is_new was_not)
  required_added-At {fs = fs} {gs = gs} key path cs (under k ps qs ks ms p q l m below) is_new
        was_not e =
      let (ds, inner, kept) = nested fs gs ps qs ks ms path k cs p q l m e in
      kept (required_added-At key (child path k) ds below is_new was_not inner)
