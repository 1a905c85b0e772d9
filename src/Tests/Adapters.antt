-- ===== src/Tests/Adapters.antt =====
-- The Google adapter at work, with a function that lowers the letters of ASCII.
use managed_tool_call_schema.Base.{
  ℕ, ◌+◌, leb, ◌&&◌, Text, lit, text_beq, text_eq, ◌≡◌, refl, if◌then◌else◌, [], ◌∷◌, arith,
}
use managed_tool_call_schema.Json.{Fields, obj, str, field, end, get}
use managed_tool_call_schema.Json.Canonical.{sha256}
use managed_tool_call_schema.Core.Result.{ok}
use managed_tool_call_schema.Core.Adapters.{
  NormalizedTool, google_adk, google_schema, normalize_tool,
}
use managed_tool_call_schema.Core.Adapters.Google.{normalize_tool-google_schema}
use managed_tool_call_schema.Tests.Host.{small_host}

abbrev lower_unit : ℕ → ℕ
lower_unit c = if leb 65 c && leb c 90 then c + 32 else c

abbrev lower : Text → Text
lower [] = []
lower (c ∷ t) = lower_unit c ∷ lower t

lower_unit_again : (c : ℕ) → lower_unit (lower_unit c) ≡ lower_unit c
lower_unit_again c = ground arith

lower_again : (t : Text) → lower (lower t) ≡ lower t
lower_again [] = refl
lower_again (c ∷ t) = rw (lower_unit_again c, lower_again t) refl

abbrev declaration : Fields
declaration =
    field (lit "name") (str (lit "t"))
      (field (lit "parameters") (obj (field (lit "type") (str (lit "Object")) end)) end)

abbrev tool : NormalizedTool
tool = record {
  adapter = google_adk;
  tool_name = lit "t";
  tool_schema = obj (field (lit "type") (str (lit "object")) end);
  source_fingerprint = sha256 small_host (obj declaration);
  warnings = lit "Google ADK uppercase primitive type labels were normalized when present" ∷ [];
}

normalized : normalize_tool lower small_host google_adk (obj declaration) ≡ ok tool
unfolding normalize_tool get text_beq lit google_schema
normalized = refl

normalize_tool-google_schema_example : google_schema lower tool.tool_schema [] ≡ ok tool.tool_schema
normalize_tool-google_schema_example =
    normalize_tool-google_schema lower lower_again small_host (obj declaration) tool normalized
