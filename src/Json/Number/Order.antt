-- ===== src/Json/Number/Order.antt =====
-- The order of the doubles that are numbers.
use managed_tool_call_schema.Base.{ℕ, ◌≡◌, true, false, arith, refl, nat_beq_iff}
use managed_tool_call_schema.Json.Number.{is_nan, num_lt, num_same}

module _ (a b : ℕ) (x : is_nan a ≡ false) where
  pub num_same_refl : num_same a a ≡ true
  unfolding num_same
  num_same_refl = rw x ((nat_beq_iff _ _).1 refl)

  pub num_total : is_nan b ≡ false → num_lt a b ≡ false → num_same a b ≡ false → num_lt b a ≡ true
  unfolding num_lt num_same
  num_total y l s = ground arith

pub num_lt_trans : (a b c : ℕ) → num_lt a b ≡ true → num_lt b c ≡ true → num_lt a c ≡ true
unfolding num_lt
num_lt_trans a b c p q = ground arith

pub num_lt-same : (a b c : ℕ) → num_lt a b ≡ true → num_same b c ≡ true → num_lt a c ≡ true
unfolding num_lt num_same
num_lt-same a b c p q = ground arith

pub num_same-lt : (a b c : ℕ) → num_same a b ≡ true → num_lt b c ≡ true → num_lt a c ≡ true
unfolding num_lt num_same
num_same-lt a b c p q = ground arith

pub num_same_trans : (a b c : ℕ) → num_same a b ≡ true → num_same b c ≡ true → num_same a c ≡ true
unfolding num_same
num_same_trans a b c p q = ground arith

pub num_same-not_lt : (a b : ℕ) → num_same a b ≡ true → num_lt a b ≡ false
unfolding num_lt num_same
num_same-not_lt a b p = ground arith
