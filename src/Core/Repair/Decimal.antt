-- ===== src/Core/Repair/Decimal.antt =====
-- packages/core/src/repair.ts: decimal spellings and when two of them have one value.
use managed_tool_call_schema.Base.{
  ℕ, suc, ◌+◌, ◌-◌, ◌*◌, Text, lit, length, leb, ◌==◌, nat_eq, text_eq, Bool, true, false, not,
  ◌&&◌, ◌||◌, Option, none, some, [], ◌∷◌, ◌++◌, if◌then◌else◌, ◌≡◌, refl, text_beq,
}

is_digit : ℕ → Bool
is_digit c = leb 48 c && leb c 57

-- The longest run of digits at the head, and what follows it: `\d*`.
unfoldable pub take_digits : Text → Text × Text
unfolding is_digit
take_digits [] = ([], [])
take_digits (c ∷ s) =
    let (ds, rest) = take_digits s in if is_digit c then (c ∷ ds, rest) else ([], c ∷ s)

-- An optional sign character in front of a text.
after_unit : ℕ → Text → Bool × Text
after_unit u [] = (false, [])
after_unit u (c ∷ s) = if c == u then (true, s) else (false, c ∷ s)

-- The parts of a text in the grammar `-?\d+(?:\.\d+)?(?:[eE][+-]?\d+)?`.
pub record Parts : Type 0 where
  pub minus : Bool
  pub whole : Text
  pub fraction : Text
  pub exponent_minus : Bool
  pub exponent : Text

is_empty : Text → Bool
is_empty [] = true
is_empty (c ∷ s) = false

-- `(?:\.\d+)?`, as the digits after the point
fraction_of : Text → Option (Text × Text)
unfolding take_digits is_empty
fraction_of [] = some ([], [])
fraction_of (c ∷ s) =
    let (ds, rest) = take_digits s in
    if c == 46 then (if is_empty ds then none else some (ds, rest)) else some ([], c ∷ s)

-- `(?:[eE][+-]?\d+)?$`, as the sign and the digits
signed_digits : Text → Option (Bool × Text)
unfolding take_digits is_empty
signed_digits s =
    let (ds, rest) = take_digits s in
    if not (is_empty ds) && is_empty rest then some (false, ds) else none

with_sign : Text → Option (Bool × Text)
unfolding signed_digits
with_sign [] = none
with_sign (c ∷ s) =
    if c == 45
    then (elim (signed_digits s) [ none ↦ none | some (b, ds) ↦ some (true, ds) ])
    else if c == 43
    then signed_digits s
    else signed_digits (c ∷ s)

exponent_of : Text → Option (Bool × Text)
unfolding with_sign
exponent_of [] = some (false, [])
exponent_of (c ∷ s) = if c == 101 || c == 69 then with_sign s else none

parts_after_fraction : Bool → Text → Option (Text × Text) → Option Parts
unfolding exponent_of
parts_after_fraction minus whole none = none
parts_after_fraction minus whole (some (ds, rest)) = elim (exponent_of rest) [
  | none ↦ none
  | some (m, es) ↦
      some
        (record { minus = minus; whole = whole; fraction = ds; exponent_minus = m; exponent = es })
]

-- The match of `decimalCanonical`.
unfoldable pub decimal_parts : Text → Option Parts
unfolding take_digits is_empty fraction_of parts_after_fraction after_unit
decimal_parts value =
    let (minus, rest) = after_unit 45 value in
    let (whole, rest') = take_digits rest in
    if is_empty whole then none else parts_after_fraction minus whole (fraction_of rest')

-- A whole part is `0`, or begins with another digit.
no_leading_zero : Text → Bool
no_leading_zero [] = false
no_leading_zero (c ∷ []) = true
no_leading_zero (c ∷ d ∷ s) = not (c == 48)

-- `/^-?(?:0|[1-9]\d*)(?:\.\d+)?(?:[eE][+-]?\d+)?$/u`
unfoldable pub is_json_number : Text → Bool
unfolding no_leading_zero
is_json_number value = elim (decimal_parts value) [
  | none ↦ false
  | some p ↦ no_leading_zero p.whole
]

all_zero : Text → Bool
all_zero [] = true
all_zero (c ∷ s) = c == 48 && all_zero s

-- `/^-0(?:\.0+)?(?:[eE][+-]?\d+)?$/u`
unfoldable pub is_negative_zero : Text → Bool
unfolding all_zero
is_negative_zero value = elim (decimal_parts value) [
  | none ↦ false
  | some p ↦ p.minus && p.whole == lit "0" && all_zero p.fraction
]

digits_value : ℕ → Text → ℕ
digits_value acc [] = acc
digits_value acc (c ∷ s) = digits_value (acc * 10 + (c - 48)) s

-- An integer as a difference: a canonical pair has a zero side.
abbrev Signed : Type 0
Signed = ℕ × ℕ

difference : ℕ → ℕ → Signed
difference a b = if leb b a then (a - b, 0) else (0, b - a)

drop_zeros : Text → Text
drop_zeros [] = []
drop_zeros (c ∷ s) = if c == 48 then drop_zeros s else c ∷ s

-- The digits without the zeros at their end, and how many zeros those were.
trim_zeros : Text → Text × ℕ
unfolding is_empty
trim_zeros [] = ([], 0)
trim_zeros (c ∷ s) =
    let (ds, n) = trim_zeros s in if is_empty ds && c == 48 then ([], suc n) else (c ∷ ds, n)

pub record Canonical : Type 0 where
  pub minus : Bool
  pub digits : Text
  pub exponent : Signed

-- The canonical form; zero is `0e0` whatever its sign. The exponent is exact; the source
-- rounds one beyond 2 ^ 53, which only stands in spellings that `Number` takes to 0 or to infinity.
unfoldable pub canonical_of : Parts → Canonical
unfolding is_empty drop_zeros trim_zeros difference digits_value
canonical_of p =
    let digits = drop_zeros (p.whole ++ p.fraction) in
    let (ds, zeros) = trim_zeros digits in
    let e = digits_value 0 p.exponent in
    if is_empty digits
    then record { minus = false; digits = lit "0"; exponent = (0, 0) }
    else record {
      minus = p.minus;
      digits = ds;
      exponent =
          if p.exponent_minus
          then difference zeros (e + length p.fraction)
          else difference (e + zeros) (length p.fraction);
    }

unfoldable pub decimal_canonical : Text → Option Canonical
unfolding canonical_of
decimal_canonical value = elim (decimal_parts value) [
  | none ↦ none
  | some p ↦ some (canonical_of p)
]

same_flag : Bool → Bool → Bool
same_flag true b = b
same_flag false b = not b

same_canonical : Option Canonical → Option Canonical → Bool
unfolding same_flag
same_canonical none none = true
same_canonical (some a) (some b) =
    same_flag a.minus b.minus
    && a.digits == b.digits
    && a.exponent.0 == b.exponent.0
    && a.exponent.1 == b.exponent.1
same_canonical _ _ = false

unfoldable pub same_decimal_value : Text → Text → Bool
unfolding decimal_canonical same_canonical
same_decimal_value before after =
    same_canonical (decimal_canonical before) (decimal_canonical after)

spellings :
    (same_decimal_value (lit "-12.50e3") (lit "-125e2") ≡ true)
    × (is_json_number (lit "01") ≡ false)
unfolding same_decimal_value is_json_number lit text_beq decimal_parts
spellings = (refl, refl)
