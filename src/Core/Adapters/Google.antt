-- ===== src/Core/Adapters/Google.antt =====
-- packages/core/src/adapters.ts: the normalization of a schema that was normalized.
use managed_tool_call_schema.Base.{
  Text, lit, ◌==◌, text_eq, elem, Bool-cases, inl, inr, Option, List, [], ◌++◌, ◌≡◌, refl, ap,
}
use managed_tool_call_schema.Json.{
  Json, Items, Fields, null, bool, num, str, arr, obj, nil, cons, end, field,
}
use managed_tool_call_schema.Json.Host.{Host}
use managed_tool_call_schema.Core.Result.{ok, >>=-eq-ok}
use managed_tool_call_schema.Core.Adapters.{
  schema_maps, schema_arrays, schema_values, put, lower_items, google_fields, google_value,
  google_schema, google_properties, google_items, no_schema, NormalizedTool, google_adk, read_tool,
  result, name, schema, adapter_text, normalize_tool, normalize_object,
}
use mathlib.Core.Path.{subst}

ok_injective {ℓ} : {A : Type ℓ} {x y : A} → ok x ≡ ok y → x ≡ y
ok_injective e = cc e

module _ (lower : Text → Text) (lower_again : (t : Text) → lower (lower t) ≡ lower t) where
  lower_items_again : (vs : Items) → lower_items lower (lower_items lower vs) ≡ lower_items lower vs
  unfolding lower_items
  lower_items_again nil = refl
  lower_items_again (cons (str t) vs) = rw (lower_again t, lower_items_again vs) refl
  lower_items_again (cons null vs) = ap (cons null) (lower_items_again vs)
  lower_items_again (cons (bool b) vs) = ap (cons (bool b)) (lower_items_again vs)
  lower_items_again (cons (num n) vs) = ap (cons (num n)) (lower_items_again vs)
  lower_items_again (cons (arr ws) vs) = ap (cons (arr ws)) (lower_items_again vs)
  lower_items_again (cons (obj fs) vs) = ap (cons (obj fs)) (lower_items_again vs)

  abbrev IsFixed : Fields → Type 0
  IsFixed fs = google_fields lower fs ≡ ok fs

  put-IsFixed :
      (key : Text) (c : Json) (r : Fields)
      → google_value lower key c ≡ ok c
      → IsFixed r
      → IsFixed (put key c r)
  unfolding put google_fields
  put-IsFixed key c r e f = elim (Bool-cases (key == lit "__proto__")) [
    | inl proto ↦ rw (proto, put) f
    | inr other ↦ rw (other, e, f, other) refl
  ]

  mutual
    unfolding google_fields google_value google_schema google_properties google_items no_schema

    fields_again : (fs gs : Fields) → google_fields lower fs ≡ ok gs → IsFixed gs
    fields_again end gs e = cc e
    fields_again (field key child rest) gs e =
        let (c, first, more) = >>=-eq-ok (google_value lower key child) _ e in
        let (r, others, joined) = >>=-eq-ok (google_fields lower rest) _ more in
        let same : put key c r ≡ gs = cc joined in
        subst IsFixed same
          (put-IsFixed key c r (value_again key child c first) (fields_again rest r others))

    value_again :
        (key : Text) (v c : Json)
        → google_value lower key v ≡ ok c
        → google_value lower key c ≡ ok c
    value_again key (str t) c e = elim (Bool-cases (key == lit "type")) [
      | inl typed ↦
          subst (λ x. google_value lower key x ≡ ok x) (ok_injective (rw typed at e))
            (rw (typed, lower_again t) refl)
      | inr other ↦
          subst (λ x. google_value lower key x ≡ ok x) (ok_injective (rw other at e))
            (rw other refl)
    ]
    value_again key (arr vs) c e = elim (Bool-cases (key == lit "type")) [
      | inl typed ↦
          subst (λ x. google_value lower key x ≡ ok x) (ok_injective (rw typed at e))
            (rw (typed, lower_items_again vs) refl)
      | inr other ↦ elim (Bool-cases (elem key schema_arrays)) [
        | inl listed ↦
            let (ws, inner, made) =
              >>=-eq-ok (google_items lower key vs) _ (rw (other, listed) at e) in
            let same : arr ws ≡ c = cc made in
            subst (λ x. google_value lower key x ≡ ok x) same
              (rw (other, listed, items_again key vs ws inner) refl)
        | inr plain ↦
            subst (λ x. google_value lower key x ≡ ok x) (ok_injective (rw (other, plain) at e))
              (rw (other, plain) refl)
      ]
    ]
    value_again key (obj fs) c e = elim (Bool-cases (elem key schema_maps)) [
      | inl mapped ↦
          let (ps, inner, made) = >>=-eq-ok (google_properties lower fs) _ (rw mapped at e) in
          let same : obj ps ≡ c = cc made in
          subst (λ x. google_value lower key x ≡ ok x) same
            (rw (mapped, properties_again fs ps inner) refl)
      | inr other ↦ elim (Bool-cases (elem key schema_values)) [
        | inl valued ↦
            let (gs, inner, made) =
              >>=-eq-ok (google_fields lower fs) _ (rw (other, valued) at e) in
            let same : obj gs ≡ c = cc made in
            subst (λ x. google_value lower key x ≡ ok x) same
              (rw (other, valued, fields_again fs gs inner) refl)
        | inr plain ↦
            subst (λ x. google_value lower key x ≡ ok x) (ok_injective (rw (other, plain) at e))
              (rw (other, plain) refl)
      ]
    ]
    value_again key null c e = subst (λ x. google_value lower key x ≡ ok x) (ok_injective e) refl
    value_again key (bool b) c e =
        subst (λ x. google_value lower key x ≡ ok x) (ok_injective e) refl
    value_again key (num n) c e = subst (λ x. google_value lower key x ≡ ok x) (ok_injective e) refl

    schema_again :
        (v c : Json) (label other_label : Text)
        → google_schema lower v label ≡ ok c
        → google_schema lower c other_label ≡ ok c
    schema_again (bool b) c label other e =
        subst (λ x. google_schema lower x other ≡ ok x) (ok_injective e) refl
    schema_again (obj fs) c label other e =
        let (gs, inner, made) = >>=-eq-ok (google_fields lower fs) _ e in
        subst (λ x. google_schema lower x other ≡ ok x) (ok_injective made)
          (rw (fields_again fs gs inner) refl)
    schema_again null c label other e = cc e
    schema_again (num n) c label other e = cc e
    schema_again (str t) c label other e = cc e
    schema_again (arr vs) c label other e = cc e

    properties_again :
        (fs gs : Fields) → google_properties lower fs ≡ ok gs → google_properties lower gs ≡ ok gs
    properties_again end gs e = cc e
    properties_again (field key child rest) gs e =
        let (c, first, more) = >>=-eq-ok (google_schema lower child _) _ e in
        let (r, others, joined) = >>=-eq-ok (google_properties lower rest) _ more in
        subst (λ x. google_properties lower x ≡ ok x) (ok_injective joined)
          (rw
            (
              schema_again child c _ (lit "google_adk property " ++ key) first,
              properties_again rest r others,
            )
            refl)

    items_again :
        (key : Text) (vs ws : Items)
        → google_items lower key vs ≡ ok ws
        → google_items lower key ws ≡ ok ws
    items_again key nil ws e = cc e
    items_again key (cons v vs) ws e =
        let (c, first, more) = >>=-eq-ok (google_schema lower v _) _ e in
        let (r, others, joined) = >>=-eq-ok (google_items lower key vs) _ more in
        subst (λ x. google_items lower key x ≡ ok x) (ok_injective joined)
          (rw
            (
              schema_again v c _ (lit "google_adk " ++ key ++ lit " entry") first,
              items_again key vs r others,
            )
            refl)

  module _ (h : Host) where
    read_again :
        (name_in schema_in : Option Json) (warnings : List Text) (source : Fields)
        (t : NormalizedTool)
        → read_tool lower h google_adk name_in schema_in
            (λ s. google_schema lower s [])
            warnings
            source
          ≡ ok t
        → google_schema lower t.tool_schema [] ≡ ok t.tool_schema
    unfolding read_tool result
    read_again name_in schema_in warnings source t e =
        let (n, named, after_name) = >>=-eq-ok (name name_in (adapter_text google_adk)) _ e in
        let (s, read, after_schema) =
          >>=-eq-ok (schema schema_in (adapter_text google_adk)) _ after_name in
        let (c, changed, made) = >>=-eq-ok (google_schema lower s []) _ after_schema in
        subst (λ x. google_schema lower x [] ≡ ok x)
          (ap (λ (x : NormalizedTool). x.tool_schema) (ok_injective made))
          (schema_again s c [] [] changed)

    -- If lowering a text twice is lowering it once, a schema that the Google adapter has normalized
    -- is left as it is by another normalization.
    pub normalize_tool-google_schema :
        (source : Json) (t : NormalizedTool)
        → normalize_tool lower h google_adk source ≡ ok t
        → google_schema lower t.tool_schema [] ≡ ok t.tool_schema
    unfolding normalize_tool normalize_object
    normalize_tool-google_schema (obj source) t e = read_again _ _ _ source t e
    normalize_tool-google_schema null t e = cc e
    normalize_tool-google_schema (bool b) t e = cc e
    normalize_tool-google_schema (num n) t e = cc e
    normalize_tool-google_schema (str s) t e = cc e
    normalize_tool-google_schema (arr vs) t e = cc e
