-- ===== src/Json/Stringify.antt =====
-- `JSON.stringify` of a JSON value.
use managed_tool_call_schema.Base.{
  ℕ, ◌+◌, ◌/◌, ◌%◌, Text, lit, [], ◌∷◌, ◌++◌, Bool, ◌&&◌, ◌||◌, ltb, leb, ◌==◌, nat_eq, true, false,
  if◌then◌else◌,
}
use managed_tool_call_schema.Json.{
  Json, Items, Fields, null, bool, num, str, arr, obj, nil, cons, end, field,
}
use managed_tool_call_schema.Json.Host.{Host}
use managed_tool_call_schema.Json.Number.{is_finite}

-- One lower-case hexadecimal digit.
hex_digit : ℕ → ℕ
hex_digit d = if ltb d 10 then 48 + d else 87 + d

-- `\uXXXX`
unicode_escape : ℕ → Text
unicode_escape c =
    92
    ∷ 117
    ∷ hex_digit (c / 4096 % 16)
    ∷ hex_digit (c / 256 % 16)
    ∷ hex_digit (c / 16 % 16)
    ∷ hex_digit (c % 16)
    ∷ []

unfoldable pub is_high_surrogate : ℕ → Bool
is_high_surrogate c = leb 0xd800 c && leb c 0xdbff

unfoldable pub is_low_surrogate : ℕ → Bool
is_low_surrogate c = leb 0xdc00 c && leb c 0xdfff

escape_unit : ℕ → Text
unfolding unicode_escape hex_digit
escape_unit c =
    if c == 34 || c == 92
    then 92 ∷ c ∷ []
    else if c == 8
    then 92 ∷ 98 ∷ []
    else if c == 9
    then 92 ∷ 116 ∷ []
    else if c == 10
    then 92 ∷ 110 ∷ []
    else if c == 12
    then 92 ∷ 102 ∷ []
    else if c == 13
    then 92 ∷ 114 ∷ []
    else if ltb c 32
    then unicode_escape c
    else c ∷ []

-- The body of a quoted string: pairs of surrogates stay, lone ones are escaped.
quote_units : Text → Text
unfolding escape_unit is_high_surrogate is_low_surrogate
quote_units [] = []
quote_units (c ∷ []) =
    if is_high_surrogate c || is_low_surrogate c then unicode_escape c else escape_unit c
quote_units (c ∷ d ∷ s) =
    let pair = c ∷ d ∷ quote_units s in
    let single = escape_unit c ++ quote_units (d ∷ s) in
    let lone = unicode_escape c ++ quote_units (d ∷ s) in
    if is_high_surrogate c && is_low_surrogate d
    then pair
    else if is_high_surrogate c || is_low_surrogate c
    then lone
    else single

unfoldable pub quote : Text → Text
unfolding quote_units
quote s = 34 ∷ quote_units s ++ 34 ∷ []

module _ (h : Host) where
  unfoldable mutual
    pub stringify : Json → Text
    stringify null = lit "null"
    stringify (bool true) = lit "true"
    stringify (bool false) = lit "false"
    stringify (num n) = if is_finite n then h.number_text n else lit "null"
    stringify (str s) = quote s
    stringify (arr vs) = 91 ∷ stringify_items vs ++ 93 ∷ []
    stringify (obj fs) = 123 ∷ stringify_fields fs ++ 125 ∷ []

    stringify_items : Items → Text
    stringify_items nil = []
    stringify_items (cons v nil) = stringify v
    stringify_items (cons v (cons w vs)) = stringify v ++ 44 ∷ stringify_items (cons w vs)

    stringify_fields : Fields → Text
    stringify_fields end = []
    stringify_fields (field k v end) = quote k ++ 58 ∷ stringify v
    stringify_fields (field k v (field j w fs)) =
        quote k ++ 58 ∷ stringify v ++ 44 ∷ stringify_fields (field j w fs)
