-- ===== src/Json/Host.antt =====
-- What the program takes from Node, its packages and the language's own library, as parameters.
use managed_tool_call_schema.Base.{ℕ, Text, Bool, Option, List}
use managed_tool_call_schema.Json.{Json}

pub record Host : Type 0 where
  -- `createHash('sha256').update(s).digest('hex')`
  pub sha256_hex : Text → Text
  -- `createHmac('sha256', secret).update(s).digest('hex')`
  pub hmac_hex : Text → Text → Text
  -- `Buffer.from(s)`: the bytes of the UTF-8 encoding
  pub buffer : Text → List ℕ
  -- `a.localeCompare(b) <= 0`
  pub locale_le : Text → Text → Bool
  -- `String(n)` and `Number(s)`
  pub number_text : ℕ → Text
  pub parse_number : Text → ℕ
  -- `Number.isInteger(a / b)`
  pub integer_quotient : ℕ → ℕ → Bool
  -- `Date.parse`, in milliseconds since the earliest time of a `Date`; `none` is `NaN`
  pub date_parse : Text → Option ℕ
  -- `new Date(t).toISOString()`
  pub iso_string : ℕ → Text
  -- `safeRegex(pattern, { limit: 25 })`
  pub safe_regex : Text → Bool
  -- `n.toLocaleString('en-US')`
  pub en_us : ℕ → Text
  -- `JSON.parse`; `none` is a `SyntaxError`
  pub json_parse : Text → Option Json
  -- the message of that error
  pub json_parse_error : Text → Text
