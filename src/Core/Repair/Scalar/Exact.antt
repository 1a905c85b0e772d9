-- ===== src/Core/Repair/Scalar/Exact.antt =====
-- packages/core/src/repair.ts: what the repair of one value may do.
use managed_tool_call_schema.Base.{
  ℕ, Text, lit, text_eq, text_beq_iff, ◌≡◌, ◌⊎◌, inl, inr, refl, Bool, true, false, Bool-cases,
  Option, List, [], All, arith, if◌then◌else◌,
}
use managed_tool_call_schema.Json.{Json, Fields, null, bool, num, str, arr, obj}
use managed_tool_call_schema.Json.Host.{Host}
use managed_tool_call_schema.Json.Number.{is_finite, is_safe_integer}
use managed_tool_call_schema.Core.Types.{RepairRecord, RepairRuleId, receipt_json}
use managed_tool_call_schema.Core.Receipt.{verify_repair_receipt, repair_receipt_hash}
use managed_tool_call_schema.Core.Repair.Decimal.{
  is_json_number, is_negative_zero, same_decimal_value,
}
use managed_tool_call_schema.Core.Repair.Scalar.{
  Walked, expects, is_allowed, saved, save_if_allowed, number_repairable, number_repair,
  boolean_repair, array_repair, scalar,
}

module _ (h : Host) (allowed : List RepairRuleId) where
  -- A repair on record follows an allowed rule and its receipt verifies.
  abbrev pub IsGood : RepairRecord → Type 0
  IsGood r = (is_allowed r.rule_id allowed ≡ true) × (verify_repair_receipt h r ≡ true)

  -- Without a repair on record the value is the one that came in.
  pub record IsHonest (value : Json) (result : Walked) : Type 0 where
    pub silent : result.1 ≡ [] → result.0 ≡ value
    pub good : All IsGood result.1

  saved_verifies :
      (schema : Fields) (path : Text) (rule : RepairRuleId) (before after : Json)
      (preconditions checks : List Text) (target_type : Option Text)
      → verify_repair_receipt h
          (saved h allowed schema path rule before after preconditions checks target_type)
        ≡ true
  unfolding saved verify_repair_receipt repair_receipt_hash receipt_json
  saved_verifies schema path rule before after ps cs t = (text_beq_iff _ _).1 refl

  save-IsHonest :
      (schema : Fields) (path : Text) (rule : RepairRuleId) (before after : Json)
      (preconditions checks : List Text) (target_type : Option Text)
      → IsHonest before
          (save_if_allowed h allowed schema path rule before after preconditions checks target_type)
  unfolding save_if_allowed
  save-IsHonest schema path rule before after ps cs t =
      elim (Bool-cases (is_allowed rule allowed)) [
        | inl free ↦ rw free (record {
          silent = λ e. cc e;
          good = ((unfold saved in free, saved_verifies schema path rule before after ps cs t), tt);
        })
        | inr held ↦ rw held (record { silent = λ e. refl; good = tt })
      ]

  pub unrepaired : (value : Json) → IsHonest value (value, [])
  unrepaired value = record { silent = λ e. refl; good = tt }

  IsHonest-if :
      (b : Bool) (value : Json) (w : Walked)
      → IsHonest value w
      → IsHonest value (if b then w else (value, []))
  IsHonest-if true value w x = x
  IsHonest-if false value w x = unrepaired value

  array-IsHonest :
      (schema : Fields) (value : Json) (path : Text)
      → IsHonest value (array_repair h allowed schema value path)
  unfolding array_repair
  array-IsHonest schema value path = IsHonest-if _ value _ (save-IsHonest schema path _ _ _ _ _ _)

  number-IsHonest :
      (i : Bool) (schema : Fields) (t path : Text)
      → IsHonest (str t) (number_repair h allowed i schema t path)
  unfolding number_repair
  number-IsHonest i schema t path = IsHonest-if _ (str t) _ (save-IsHonest schema path _ _ _ _ _ _)

  boolean-IsHonest :
      (schema : Fields) (t path : Text) → IsHonest (str t) (boolean_repair h allowed schema t path)
  unfolding boolean_repair
  boolean-IsHonest schema t path = IsHonest-if _ (str t) _ (save-IsHonest schema path _ _ _ _ _ _)

  IsHonest-choice :
      (b : Bool) (value : Json) (v w : Walked)
      → IsHonest value v
      → IsHonest value w
      → IsHonest value (if b then v else w)
  IsHonest-choice true value v w x y = x
  IsHonest-choice false value v w x y = y

  pub scalar-IsHonest :
      (schema : Fields) (value : Json) (path : Text)
      → IsHonest value (scalar h allowed schema value path)
  unfolding scalar
  scalar-IsHonest schema (arr vs) path = unrepaired (arr vs)
  scalar-IsHonest schema (str t) path =
      IsHonest-choice _ _ _ _ (number-IsHonest true schema t path) (
        IsHonest-choice _ _ _ _ (number-IsHonest false schema t path) (
          IsHonest-choice _ _ _ _ (boolean-IsHonest schema t path)
            (array-IsHonest schema (str t) path)))
  scalar-IsHonest schema null path = array-IsHonest schema null path
  scalar-IsHonest schema (bool b) path = array-IsHonest schema (bool b) path
  scalar-IsHonest schema (num n) path = array-IsHonest schema (num n) path
  scalar-IsHonest schema (obj fs) path = array-IsHonest schema (obj fs) path

  -- A string becomes a number only where the schema asks for one, the string is a JSON number that
  -- is no negative zero, and the number prints with the same decimal value; for the type integer it
  -- is a safe integer.
  pub number_exact :
      (schema : Fields) (t path : Text) (n : ℕ)
      → (scalar h allowed schema (str t) path).0 ≡ num n
      → (is_json_number t ≡ true)
        × (is_negative_zero t ≡ false)
        × (is_finite n ≡ true)
        × (same_decimal_value t (h.number_text n) ≡ true)
        × ((expects schema (lit "integer") ≡ true) × (is_safe_integer n ≡ true)
            ⊎ (expects schema (lit "number") ≡ true))
  unfolding scalar number_repair boolean_repair array_repair save_if_allowed number_repairable
  number_exact schema t path n e =
      (ground arith, ground arith, ground arith, ground arith, ground arith)
