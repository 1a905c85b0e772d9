-- ===== src/Core/Adapters.antt =====
-- packages/core/src/adapters.ts: `normalizeTool`, from the declarations of five frameworks.
pub mod Google
use managed_tool_call_schema.Base.{
  Text, lit, length, ◌==◌, nat_eq, text_eq, Bool, true, false, ◌&&◌, elem, Option, none, some, List,
  [], ◌∷◌, ◌++◌, if◌then◌else◌,
}
use managed_tool_call_schema.Json.{
  Json, Items, Fields, null, bool, num, str, arr, obj, nil, cons, end, field, get,
}
use managed_tool_call_schema.Json.Host.{Host}
use managed_tool_call_schema.Json.Canonical.{sha256}
use managed_tool_call_schema.Core.Result.{Result, ok, throw, type_error, ◌>>=◌, ◌>>◌}

pub data AdapterName : Type 0 where
  json_schema mcp openai_agents pydantic_ai google_adk : AdapterName

pub record NormalizedTool : Type 0 where
  pub adapter : AdapterName
  pub tool_name : Text
  pub tool_schema : Json
  pub source_fingerprint : Text
  pub warnings : List Text

pub adapter_text : AdapterName → Text
adapter_text json_schema = lit "json_schema"
adapter_text mcp = lit "mcp"
adapter_text openai_agents = lit "openai_agents"
adapter_text pydantic_ai = lit "pydantic_ai"
adapter_text google_adk = lit "google_adk"

unfoldable pub no_schema : Text → Result Json
no_schema label = throw (type_error (label ++ lit " does not contain a JSON Schema object"))

-- `schema`
pub schema : Option Json → Text → Result Json
unfolding no_schema
schema (some (bool b)) label = ok (bool b)
schema (some (obj fs)) label = ok (obj fs)
schema other label = no_schema label

-- `name`
pub name : Option Json → Text → Result Text
name (some (str (c ∷ t))) label = ok (c ∷ t)
name other label = throw (type_error (label ++ lit " does not contain a non-empty tool name"))

-- `left ?? right`
or_else : Option Json → Option Json → Option Json
or_else none right = right
or_else (some null) right = right
or_else left right = left

unfoldable pub schema_maps : List Text
schema_maps =
    lit "properties"
    ∷ lit "patternProperties"
    ∷ lit "dependentSchemas"
    ∷ lit "$defs"
    ∷ lit "definitions"
    ∷ []

unfoldable pub schema_arrays : List Text
schema_arrays = lit "prefixItems" ∷ lit "allOf" ∷ lit "anyOf" ∷ lit "oneOf" ∷ []

unfoldable pub schema_values : List Text
schema_values =
    lit "items"
    ∷ lit "contains"
    ∷ lit "additionalProperties"
    ∷ lit "propertyNames"
    ∷ lit "not"
    ∷ lit "if"
    ∷ lit "then"
    ∷ lit "else"
    ∷ []

-- `output[key] = child`, which under this one key makes no own property.
unfoldable pub put : Text → Json → Fields → Fields
put key child rest = if key == lit "__proto__" then rest else field key child rest

-- `toLowerCase` is given.
module _ (lower : Text → Text) where
  unfoldable pub lower_items : Items → Items
  lower_items nil = nil
  lower_items (cons (str t) vs) = cons (str (lower t)) (lower_items vs)
  lower_items (cons v vs) = cons v (lower_items vs)

  unfoldable mutual
    unfolding schema_maps schema_arrays schema_values put lower_items no_schema

    -- `normalizeGoogleSchema` of an object: its members from here on.
    pub google_fields : Fields → Result Fields
    google_fields end = ok end
    google_fields (field key child rest) = do
      c ← google_value key child
      r ← google_fields rest
      ok (put key c r)

    pub google_value : Text → Json → Result Json
    google_value key (str t) = ok (str (if key == lit "type" then lower t else t))
    google_value key (arr vs) =
        let entries = google_items key vs in
        if key == lit "type"
        then ok (arr (lower_items vs))
        else if elem key schema_arrays
        then (entries >>= λ ws. ok (arr ws))
        else ok (arr vs)
    google_value key (obj fs) =
        let properties = google_properties fs in
        let inner = google_fields fs in
        if elem key schema_maps
        then (properties >>= λ ps. ok (obj ps))
        else if elem key schema_values
        then (inner >>= λ gs. ok (obj gs))
        else ok (obj fs)
    google_value key other = ok other

    pub google_schema : Json → Text → Result Json
    google_schema (bool b) label = ok (bool b)
    google_schema (obj fs) label = google_fields fs >>= λ gs. ok (obj gs)
    google_schema other label = no_schema label

    pub google_properties : Fields → Result Fields
    google_properties end = ok end
    google_properties (field property v rest) = do
      c ← google_schema v (lit "google_adk property " ++ property)
      r ← google_properties rest
      ok (field property c r)

    pub google_items : Text → Items → Result Items
    google_items key nil = ok nil
    google_items key (cons v vs) = do
      c ← google_schema v (lit "google_adk " ++ key ++ lit " entry")
      r ← google_items key vs
      ok (cons c r)

  -- The members that an adapter reads, of a source or of a declaration in it.
  inner_or : Option Json → Fields → Fields
  inner_or (some (obj fs)) source = fs
  inner_or other source = source

  is_function : Option Json → Bool
  is_function (some (str t)) = t == lit "function"
  is_function other = false

  function_of : Fields → Fields
  unfolding inner_or is_function
  function_of source =
      if is_function (get (lit "type") source)
      then inner_or (get (lit "function") source) source
      else source

  module _ (h : Host) where
    unfoldable pub result : AdapterName → Text → Json → Fields → List Text → NormalizedTool
    result adapter tool_name tool_schema source warnings = record {
      adapter = adapter;
      tool_name = tool_name;
      tool_schema = tool_schema;
      source_fingerprint = sha256 h (obj source);
      warnings = warnings;
    }

    -- The name and the schema that are read, and what the adapter makes of the schema.
    unfoldable pub read_tool :
        AdapterName
        → (name_in schema_in : Option Json) → (Json → Result Json)
        → List Text
        → Fields
        → Result NormalizedTool
    unfolding name schema adapter_text result
    read_tool adapter name_in schema_in change warnings source = do
      n ← name name_in (adapter_text adapter)
      s ← schema schema_in (adapter_text adapter)
      changed ← change s
      ok (result adapter n changed source warnings)

    unfoldable pub normalize_object : AdapterName → Fields → Result NormalizedTool
    unfolding read_tool or_else function_of inner_or
    normalize_object json_schema source =
        read_tool json_schema (get (lit "name") source)
          (or_else (get (lit "schema") source) (get (lit "parameters") source)) ok [] source
    normalize_object mcp source =
        read_tool mcp (get (lit "name") source) (get (lit "inputSchema") source) ok [] source
    normalize_object openai_agents source =
        let fn = function_of source in
        read_tool openai_agents (get (lit "name") fn) (get (lit "parameters") fn) ok [] source
    normalize_object pydantic_ai source =
        read_tool pydantic_ai (get (lit "name") source)
          (or_else (get (lit "parameters_json_schema") source) (get (lit "parameters") source)) ok
          [] source
    normalize_object google_adk source =
        let declaration = inner_or (get (lit "function_declaration") source) source in
        read_tool google_adk (get (lit "name") declaration)
          (or_else (get (lit "parameters_json_schema") declaration)
            (get (lit "parameters") declaration))
          (λ s. google_schema s [])
          (lit "Google ADK uppercase primitive type labels were normalized when present" ∷ [])
          source

    -- `normalizeTool`
    unfoldable pub normalize_tool : AdapterName → Json → Result NormalizedTool
    unfolding normalize_object adapter_text
    normalize_tool adapter (obj source) = normalize_object adapter source
    normalize_tool adapter other =
        throw (type_error (adapter_text adapter ++ lit " tool declaration must be an object"))
