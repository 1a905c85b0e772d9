-- ===== src/Core/StrictJson.antt =====
-- packages/core/src/strict-json.ts: the scanner that refuses duplicate members and large texts.
pub mod Tokens
use managed_tool_call_schema.Base.{
  ℕ, zero, suc, ◌+◌, ◌-◌, ◌*◌, Text, lit, length, ltb, ◌==◌, nat_eq, text_eq, Bool, true, false,
  not, ◌&&◌, ◌||◌, elem, Option, none, some, List, [], ◌∷◌, ◌++◌, if◌then◌else◌,
}
use managed_tool_call_schema.Json.{Json, str}
use managed_tool_call_schema.Json.Number.{double_of}
use managed_tool_call_schema.Json.Host.{Host}
use managed_tool_call_schema.Core.Result.{
  Result, ok, throw, Thrown, type_error, syntax_error, resource_limit, other_error,
}
use managed_tool_call_schema.Core.Limits.{SafetyLimits}
use managed_tool_call_schema.Core.StrictJson.Tokens.{
  Cursor, skip_whitespace, next_is, advance, primitive_end, StringEnd, closed, unclosed, string_end,
}

-- The result of a scan: `none` means that the fuel ran out. A scan leaves a cursor and the count of
-- the nodes.
pub record Scanned (A : Type 0) : Type 0 where
  pub value : A
  pub cursor : Cursor
  pub nodes : ℕ

abbrev pub Scan : Type 0 → Type 0
Scan A = Option (Result (Scanned A))

infixl 5 ◌>>=◌
abbrev pub ◌>>=◌ : {A B : Type 0} → Scan A → (Scanned A → Scan B) → Scan B
none >>= f = none
some (throw e) >>= f = some (throw e)
some (ok a) >>= f = f a

module _ (h : Host) (limits : SafetyLimits) where
  done : Cursor → ℕ → Scan (Unit {0})
  done c nodes = some (ok (record { value = tt; cursor = c; nodes = nodes }))

  invalid : {A : Type 0} → ℕ → Scan A
  invalid index =
      some
        (throw (syntax_error (lit "invalid JSON at character " ++ h.number_text (double_of index))))

  too_large : Scan (Unit {0})
  too_large = some (
      throw (
        resource_limit (
          lit "raw arguments exceed the "
          ++ h.en_us limits.max_nodes
          ++ lit "-node or "
          ++ h.number_text (double_of limits.max_depth)
          ++ lit "-level safety limit")))

  -- `JSON.parse(slice) as string`
  parsed_key : Text → Option Json → Cursor → ℕ → Scan Text
  parsed_key slice (some (str key)) c nodes =
      some (ok (record { value = key; cursor = c; nodes = nodes }))
  parsed_key slice other c nodes = some (throw (syntax_error (h.json_parse_error slice)))

  ended_string : StringEnd → ℕ → Scan Text
  unfolding parsed_key
  ended_string (unclosed index) nodes = invalid index
  ended_string (closed slice c) nodes = parsed_key (34 ∷ slice) (h.json_parse (34 ∷ slice)) c nodes

  -- `scanString`, at an opening quote
  scan_string : Cursor → ℕ → Scan Text
  unfolding ended_string
  scan_string c nodes =
      let opened = advance c in ended_string (string_end opened.rest opened.index) nodes

  scan_primitive : Cursor → ℕ → Scan (Unit {0})
  scan_primitive c nodes = elim (primitive_end c.rest) [
    | none ↦ invalid c.index
    | some rest ↦
        done (record { rest = rest; index = c.index + (length c.rest - length rest) }) nodes
  ]

  -- The three functions that call one another, given the calls with less fuel.
  module _ (value : Cursor → (depth nodes : ℕ) → Scan (Unit {0}))
      (members : Cursor → (depth nodes : ℕ) → (keys : List Text) → Scan (Unit {0}))
      (elements : Cursor → (depth nodes : ℕ) → Scan (Unit {0})) where
    unfoldable pub scan_token : Cursor → (depth nodes : ℕ) → Scan (Unit {0})
    unfolding scan_primitive scan_string done invalid
    scan_token c depth nodes =
        let object = skip_whitespace (advance c) in
        if next_is b'{' c
        then (if next_is b'}' object
            then done (advance object) nodes
            else members object depth nodes [])
        else if next_is b'[' c
        then (if next_is b']' object
            then done (advance object) nodes
            else elements object depth nodes)
        else if next_is 34 c
        then (scan_string c nodes >>= λ s. done s.cursor s.nodes)
        else scan_primitive c nodes

    -- `scanValue`
    unfoldable pub value_step : Cursor → (depth nodes : ℕ) → Scan (Unit {0})
    unfolding scan_token too_large
    value_step c depth nodes =
        if ltb limits.max_nodes (nodes + 1) || ltb limits.max_depth depth
        then too_large
        else scan_token (skip_whitespace c) depth (nodes + 1)

    after_member : Scanned (Unit {0}) → (depth : ℕ) → (keys : List Text) → Scan (Unit {0})
    unfolding done invalid
    after_member v depth keys =
        let c = skip_whitespace v.cursor in
        if next_is b'}' c
        then done (advance c) v.nodes
        else if next_is b',' c
        then members (skip_whitespace (advance c)) depth v.nodes keys
        else invalid c.index

    after_key : Scanned Text → (depth : ℕ) → (keys : List Text) → Scan (Unit {0})
    unfolding after_member invalid
    after_key s depth keys =
        let c = skip_whitespace s.cursor in
        if elem s.value keys
        then some (throw (syntax_error (lit "raw_arguments contains a duplicate object member")))
        else if next_is b':' c
        then (value (advance c) (depth + 1) s.nodes >>= λ v. after_member v depth (s.value ∷ keys))
        else invalid c.index

    -- A round of the loop of `scanObject`.
    unfoldable pub members_step : Cursor → (depth nodes : ℕ) → (keys : List Text) → Scan (Unit {0})
    unfolding after_key scan_string invalid
    members_step c depth nodes keys =
        if next_is 34 c
        then (scan_string c nodes >>= λ s. after_key s depth keys)
        else invalid c.index

    after_element : Scanned (Unit {0}) → (depth : ℕ) → Scan (Unit {0})
    unfolding done invalid
    after_element v depth =
        let c = skip_whitespace v.cursor in
        if next_is b']' c
        then done (advance c) v.nodes
        else if next_is b',' c
        then elements (skip_whitespace (advance c)) depth v.nodes
        else invalid c.index

    -- A round of the loop of `scanArray`.
    unfoldable pub elements_step : Cursor → (depth nodes : ℕ) → Scan (Unit {0})
    unfolding after_element
    elements_step c depth nodes = value c (depth + 1) nodes >>= λ v. after_element v depth

  unfoldable mutual
    unfolding value_step members_step elements_step

    pub scan_value : ℕ → Cursor → (depth nodes : ℕ) → Scan (Unit {0})
    scan_value zero c depth nodes = none
    scan_value (suc fuel) c depth nodes =
        value_step (scan_value fuel) (scan_members fuel) (scan_elements fuel) c depth nodes

    pub scan_members : ℕ → Cursor → (depth nodes : ℕ) → (keys : List Text) → Scan (Unit {0})
    scan_members zero c depth nodes keys = none
    scan_members (suc fuel) c depth nodes keys =
        members_step (scan_value fuel) (scan_members fuel) (scan_elements fuel) c depth nodes keys

    pub scan_elements : ℕ → Cursor → (depth nodes : ℕ) → Scan (Unit {0})
    scan_elements zero c depth nodes = none
    scan_elements (suc fuel) c depth nodes =
        elements_step (scan_value fuel) (scan_members fuel) (scan_elements fuel) c depth nodes

  -- `scan`: one value, and nothing but whitespace around it
  unfoldable pub scan : Text → Scan (Unit {0})
  unfolding scan_value done invalid
  scan source =
      scan_value (2 * length source + 2) (skip_whitespace (record { rest = source; index = 0 })) 0 0
      >>= λ v.
          let c = skip_whitespace v.cursor in
          if length c.rest == 0 then done c v.nodes else invalid c.index

  parsed_source : Text → Scan (Unit {0}) → Result Json
  parsed_source source none = throw (other_error [])
  parsed_source source (some (throw e)) = throw e
  parsed_source source (some (ok v)) = elim (h.json_parse source) [
    | some value ↦ ok value
    | none ↦ throw (syntax_error (h.json_parse_error source))
  ]

  unfoldable pub parse_unambiguous_json : (max_characters : ℕ) → Text → Result Json
  unfolding parsed_source scan
  parse_unambiguous_json max_characters source =
      if ltb max_characters (length source)
      then throw (
          resource_limit (
            lit "raw arguments exceed the "
            ++ h.en_us max_characters
            ++ lit "-character safety limit"))
      else parsed_source source (scan source)
