-- ===== src/Core/StrictJson/Tokens.antt =====
-- packages/core/src/strict-json.ts: the tokens of the scanner.
use managed_tool_call_schema.Base.{
  ℕ, ◌+◌, Text, lit, ltb, leb, length, ◌==◌, nat_eq, Bool, false, ◌&&◌, ◌||◌, Option, none, some,
  [], ◌∷◌, ◌++◌, if◌then◌else◌,
}
use managed_tool_call_schema.Core.Repair.Decimal.{take_digits}

-- What is left of the source, and the index of its first unit.
pub record Cursor : Type 0 where
  pub rest : Text
  pub index : ℕ

is_json_whitespace : ℕ → Bool
is_json_whitespace c = c == 32 || c == 9 || c == 10 || c == 13

skip_from : Text → ℕ → Cursor
unfolding is_json_whitespace
skip_from [] index = record { rest = []; index = index }
skip_from (c ∷ s) index =
    let further = skip_from s (index + 1) in
    if is_json_whitespace c then further else record { rest = c ∷ s; index = index }

unfoldable pub skip_whitespace : Cursor → Cursor
unfolding skip_from
skip_whitespace c = skip_from c.rest c.index

head_is : ℕ → Text → Bool
head_is u [] = false
head_is u (c ∷ s) = c == u

unfoldable pub next_is : ℕ → Cursor → Bool
unfolding head_is
next_is u c = head_is u c.rest

tail : Text → Text
tail [] = []
tail (c ∷ s) = s

-- `this.index += 1`
unfoldable pub advance : Cursor → Cursor
unfolding tail
advance c = record { rest = tail c.rest; index = c.index + 1 }

-- The rest of a text behind a prefix.
after_prefix : Text → Text → Option Text
after_prefix [] s = some s
after_prefix (c ∷ p) [] = none
after_prefix (c ∷ p) (d ∷ s) = if c == d then after_prefix p s else none

-- `(?:\.\d+)?`: what follows the longest match
after_fraction : Text → Text
after_fraction [] = []
after_fraction (c ∷ s) =
    let (ds, rest) = take_digits s in if c == 46 && ltb 0 (length ds) then rest else c ∷ s

after_exponent_digits : Text → Text → Text
after_exponent_digits whole s =
    let (ds, rest) = take_digits s in if ltb 0 (length ds) then rest else whole

after_exponent_sign : Text → Text → Text
unfolding after_exponent_digits
after_exponent_sign whole [] = whole
after_exponent_sign whole (c ∷ s) =
    if c == 43 || c == 45
    then after_exponent_digits whole s
    else after_exponent_digits whole (c ∷ s)

-- `(?:[eE][+-]?\d+)?`
after_exponent : Text → Text
unfolding after_exponent_sign
after_exponent [] = []
after_exponent (c ∷ s) = if c == 101 || c == 69 then after_exponent_sign (c ∷ s) s else c ∷ s

-- `0|[1-9]\d*`
after_whole : Text → Option Text
after_whole [] = none
after_whole (c ∷ s) =
    if c == 48 then some s else if leb 49 c && leb c 57 then some (take_digits s).1 else none

number_end : Text → Option Text
unfolding after_whole after_fraction after_exponent
number_end s = elim (after_whole s) [
  | none ↦ none
  | some r ↦ some (after_exponent (after_fraction r))
]

signed_end : Text → Option Text
unfolding number_end
signed_end [] = none
signed_end (c ∷ s) = if c == 45 then number_end s else number_end (c ∷ s)

or_else : Option Text → Option Text → Option Text
or_else (some s) other = some s
or_else none other = other

-- `JSON_PRIMITIVE`: what follows the match at the head
unfoldable pub primitive_end : Text → Option Text
unfolding after_prefix signed_end or_else
primitive_end s =
    or_else (after_prefix (lit "true") s) (
      or_else (after_prefix (lit "false") s) (or_else (after_prefix (lit "null") s) (signed_end s)))

-- The end of a string: its text up to and with the closing quote, and the cursor behind it; or the
-- index at which the source has ended.
pub data StringEnd : Type 0 where
  closed : (slice : Text) → Cursor → StringEnd
  unclosed : (index : ℕ) → StringEnd

in_front : Text → StringEnd → StringEnd
in_front [] e = e
in_front (c ∷ s) (closed slice k) = closed (c ∷ (s ++ slice)) k
in_front (c ∷ s) (unclosed i) = unclosed i

-- The loop of `scanString`, behind the opening quote.
unfoldable pub string_end : Text → ℕ → StringEnd
unfolding in_front
string_end [] index = unclosed index
string_end (c ∷ []) index =
    if c == 34
    then closed (34 ∷ []) (record { rest = []; index = index + 1 })
    else unclosed (if c == 92 then index + 2 else index + 1)
string_end (c ∷ d ∷ s) index =
    let plain = in_front (c ∷ []) (string_end (d ∷ s) (index + 1)) in
    let escaped = in_front (c ∷ d ∷ []) (string_end s (index + 2)) in
    if c == 34
    then closed (34 ∷ []) (record { rest = d ∷ s; index = index + 1 })
    else if c == 92
    then escaped
    else plain
