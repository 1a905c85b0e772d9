-- ===== src/Core/Repair/Scalar.antt =====
-- packages/core/src/repair.ts: `kind`, `save` and `scalar`, the repair of one value.
pub mod Exact
use managed_tool_call_schema.Base.{
  ℕ, Text, lit, ◌==◌, text_eq, Bool, true, false, not, ◌&&◌, ◌||◌, any, Option, none, some, get_or,
  List, [], ◌∷◌, ◌++◌, if◌then◌else◌,
}
use managed_tool_call_schema.Json.{
  Json, Fields, Items, null, bool, num, str, arr, obj, nil, cons, get,
}
use managed_tool_call_schema.Json.Host.{Host}
use managed_tool_call_schema.Json.Number.{is_finite, is_safe_integer}
use managed_tool_call_schema.Json.Canonical.{sha256}
use managed_tool_call_schema.Core.Types
use managed_tool_call_schema.Core.Types.{
  RepairRecord, RepairRuleId, string_to_number, string_to_integer, string_to_boolean,
  singleton_to_array, rule_text, same_rule, SchemaCheck, PolicyCheck,
}
use managed_tool_call_schema.Core.Receipt.{repair_receipt_hash}
use managed_tool_call_schema.Core.Repair.Decimal.{
  is_json_number, is_negative_zero, same_decimal_value,
}

-- `kind`
unfoldable pub kind : Json → Text
kind (arr vs) = lit "array"
kind null = lit "null"
kind (bool b) = lit "boolean"
kind (num n) = lit "number"
kind (str s) = lit "string"
kind (obj fs) = lit "object"

-- A value and the repairs that were pushed on the way to it.
abbrev pub Walked : Type 0
Walked = Json × List RepairRecord

unfoldable pub is_allowed : RepairRuleId → List RepairRuleId → Bool
is_allowed rule rules = any (same_rule rule) rules

-- `schema.type` as a string; any other type is none of those that repairs look for
type_name : Option Json → Option Text
type_name (some (str t)) = some t
type_name other = none

unfoldable pub expects : Fields → Text → Bool
unfolding type_name
expects schema name = elim (type_name (get (lit "type") schema)) [
  | none ↦ false
  | some t ↦ t == name
]

module _ (h : Host) (allowed : List RepairRuleId) where
  -- The record that `save` pushes.
  unfoldable pub saved :
      (schema : Fields) (path : Text) (rule : RepairRuleId) (before after : Json)
      (preconditions checks : List Text) (target_type : Option Text)
      → RepairRecord
  saved schema path rule before after preconditions checks target_type =
      let to_type = get_or target_type (kind after) in
      let repair : RepairRecord = record {
        path = path;
        rule_id = rule;
        from_type = kind before;
        to_type = to_type;
        original_value_hash = sha256 h before;
        output_value_hash = sha256 h after;
        schema_fragment_hash = sha256 h (obj schema);
        matched_preconditions = preconditions;
        ambiguity_checks = checks;
        post_validation = record { schema = SchemaCheck.not_run; policy = PolicyCheck.not_run };
        receipt_hash = [];
        explanation =
            rule_text rule
            ++ lit " applied because the target schema explicitly requires "
            ++ to_type;
      } in
      record repair { receipt_hash = repair_receipt_hash h repair }

  -- `ctx.allowed.has(rule) ? save(...) : value`
  unfoldable pub save_if_allowed :
      (schema : Fields) (path : Text) (rule : RepairRuleId) (before after : Json)
      (preconditions checks : List Text) (target_type : Option Text)
      → Walked
  save_if_allowed schema path rule before after preconditions checks target_type =
      if is_allowed rule allowed
      then (after, saved schema path rule before after preconditions checks target_type ∷ [])
      else (before, [])

  -- The conditions under which a string becomes a number.
  unfoldable pub number_repairable : Bool → Text → Bool
  number_repairable integer t =
      let converted = h.parse_number t in
      is_json_number t
      && not (is_negative_zero t)
      && is_finite converted
      && same_decimal_value t (h.number_text converted)
      && (not integer || is_safe_integer converted)

  unfoldable pub number_repair : (integer : Bool) (schema : Fields) (t path : Text) → Walked
  number_repair integer schema t path =
      let name = if integer then lit "integer" else lit "number" in
      let repaired =
        save_if_allowed schema path (if integer then string_to_integer else string_to_number)
          (str t) (num (h.parse_number t))
          (lit "input_is_string"
            ∷ (lit "schema_type_is_" ++ name)
            ∷ lit "repair_rule_is_allowlisted"
            ∷ [])
          (lit "exact_decimal_grammar"
            ∷ lit "negative_zero_spelling_rejected"
            ∷ lit "finite_conversion"
            ∷ lit "exact_decimal_round_trip"
            ∷ (if integer then lit "javascript_safe_integer" ∷ [] else []))
          (some name) in
      if number_repairable integer t then repaired else (str t, [])

  boolean_repair : (schema : Fields) (t path : Text) → Walked
  boolean_repair schema t path =
      let repaired =
        save_if_allowed schema path string_to_boolean (str t) (bool (t == lit "true"))
          (lit "input_is_string"
            ∷ lit "schema_type_is_boolean"
            ∷ lit "repair_rule_is_allowlisted"
            ∷ [])
          (lit "exact_lowercase_boolean_literal" ∷ []) none in
      if t == lit "true" || t == lit "false" then repaired else (str t, [])

  array_repair : (schema : Fields) (value : Json) (path : Text) → Walked
  array_repair schema value path =
      let repaired =
        save_if_allowed schema path singleton_to_array value (arr (cons value nil))
          (lit "input_is_not_array"
            ∷ lit "schema_type_is_array"
            ∷ lit "repair_rule_is_allowlisted"
            ∷ [])
          (lit "single_value_has_one_unambiguous_array_wrapping" ∷ []) none in
      if expects schema (lit "array") then repaired else (value, [])

  unfoldable pub scalar : (schema : Fields) (value : Json) (path : Text) → Walked
  unfolding boolean_repair array_repair
  scalar schema (arr vs) path = (arr vs, [])
  scalar schema (str t) path =
      if expects schema (lit "integer")
      then number_repair true schema t path
      else if expects schema (lit "number")
      then number_repair false schema t path
      else if expects schema (lit "boolean")
      then boolean_repair schema t path
      else array_repair schema (str t) path
  scalar schema value path = array_repair schema value path
