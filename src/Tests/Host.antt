-- ===== src/Tests/Host.antt =====
-- A small concrete host: hashes that keep their text, dates that are as late as they are long, and
-- numbers of one digit.
use managed_tool_call_schema.Base.{
  ℕ, zero, suc, ◌+◌, ◌-◌, ◌%◌, Text, length, ◌==◌, nat_eq, true, none, some, [], ◌∷◌, ◌++◌,
}
use managed_tool_call_schema.Json.Host.{Host}
use managed_tool_call_schema.Json.Number.{double_of, to_count}

abbrev pub zeros : ℕ → Text
zeros zero = []
zeros (suc n) = 48 ∷ zeros n

abbrev digit_double : Text → ℕ
digit_double [] = 0
digit_double (c ∷ s) = double_of (c - 48)

abbrev pub small_host : Host
small_host = record {
  sha256_hex = λ s. s;
  hmac_hex = λ secret s. secret ++ s;
  buffer = λ s. s;
  locale_le = λ s t. true;
  number_text = λ n. (48 + to_count n % 10) ∷ [];
  parse_number = digit_double;
  integer_quotient = λ a b. to_count a % to_count b == 0;
  date_parse = λ s. some (length s);
  iso_string = zeros;
  safe_regex = λ s. true;
  en_us = λ n. [];
  json_parse = λ s. none;
  json_parse_error = λ s. [];
}
