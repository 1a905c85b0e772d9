-- ===== src/Json/Number.antt =====
-- Doubles as 64-bit patterns: the tests of `Number` and the comparisons that the program uses.
pub mod Order
use managed_tool_call_schema.Base.{
  ℕ, zero, suc, ◌+◌, ◌-◌, ◌*◌, ◌/◌, ◌%◌, ◌^◌, Bool, true, not, ◌&&◌, ◌||◌, ltb, leb, ◌==◌, nat_eq,
  ◌≡◌, refl, if◌then◌else◌,
}

abbrev magnitude : ℕ → ℕ
magnitude b = b % 2 ^ 63

abbrev exponent : ℕ → ℕ
exponent b = magnitude b / 2 ^ 52

abbrev fraction : ℕ → ℕ
fraction b = b % 2 ^ 52

-- `Number.isFinite`
unfoldable pub is_finite : ℕ → Bool
is_finite b = ltb (exponent b) 2047

unfoldable pub is_nan : ℕ → Bool
is_nan b = ltb (2047 * 2 ^ 52) (magnitude b)

-- `Number.isSafeInteger`: an integer of at most 53 bits
unfoldable pub is_safe_integer : ℕ → Bool
is_safe_integer b =
    if magnitude b == 0
    then true
    else leb 1023 (exponent b)
      && ltb (exponent b) 1076
      && (2 ^ 52 + fraction b) % 2 ^ (1075 - exponent b) == 0

-- The place of a double that is not NaN in the order of its values; both zeros have one place.
abbrev rank : ℕ → ℕ
rank b = if ltb (b % 2 ^ 64) (2 ^ 63) then 2 ^ 63 + magnitude b else 2 ^ 63 - magnitude b

-- `a < b`
unfoldable pub num_lt : ℕ → ℕ → Bool
num_lt a b = not (is_nan a) && not (is_nan b) && ltb (rank a) (rank b)

-- `a === b`
unfoldable pub num_same : ℕ → ℕ → Bool
num_same a b = not (is_nan a) && not (is_nan b) && rank a == rank b

-- `Number.isInteger`
unfoldable pub is_integer : ℕ → Bool
unfolding is_safe_integer is_finite
is_integer b = is_finite b && (leb 1076 (exponent b) || is_safe_integer b)

-- The natural number that a safe integer stands for, without its sign.
unfoldable pub to_count : ℕ → ℕ
to_count b = if magnitude b == 0 then 0 else (2 ^ 52 + fraction b) / 2 ^ (1075 - exponent b)

-- The double of a natural number below 2 ^ 53; `k` is a bound on its highest bit.
double_from : ℕ → ℕ → ℕ
double_from zero n = 1023 * 2 ^ 52
double_from (suc k) n =
    let smaller = double_from k n in
    if leb (2 ^ suc k) n
    then (1023 + suc k) * 2 ^ 52 + (n - 2 ^ suc k) * 2 ^ (52 - suc k)
    else smaller

unfoldable pub double_of : ℕ → ℕ
unfolding double_from
double_of n = if n == 0 then 0 else double_from 52 n

-- Both directions at the counts that the program compares.
count_table : ℕ → Bool
unfolding to_count double_of is_safe_integer
count_table zero = true
count_table (suc n) = to_count (double_of n) == n && is_safe_integer (double_of n) && count_table n

counts_up_to_1000 : count_table 1001 ≡ true
unfolding count_table
counts_up_to_1000 = refl
