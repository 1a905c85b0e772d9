-- ===== src/Core/Receipt.antt =====
-- packages/core/src/repair.ts: the hash of a repair receipt, its check and its renewal.
use managed_tool_call_schema.Base.{
  Text, ◌==◌, text_eq, text_beq_iff, Bool, true, ◌≡◌, refl, List, map,
}
use managed_tool_call_schema.Json.Host.{Host}
use managed_tool_call_schema.Json.Canonical.{sha256}
use managed_tool_call_schema.Core.Types.{RepairRecord, PostValidation, receipt_json}

module _ (h : Host) where
  unfoldable pub repair_receipt_hash : RepairRecord → Text
  repair_receipt_hash repair = sha256 h (receipt_json repair)

  unfoldable pub verify_repair_receipt : RepairRecord → Bool
  verify_repair_receipt repair = repair.receipt_hash == repair_receipt_hash repair

  unfoldable pub finalize_receipt : PostValidation → RepairRecord → RepairRecord
  finalize_receipt post repair =
      let updated : RepairRecord = record repair { post_validation = post } in
      record updated { receipt_hash = repair_receipt_hash updated }

  unfoldable pub finalize_repair_receipts : List RepairRecord → PostValidation → List RepairRecord
  unfolding finalize_receipt
  finalize_repair_receipts repairs post = map (finalize_receipt post) repairs

  -- A renewed receipt verifies.
  pub verify-finalize :
      (post : PostValidation) (r : RepairRecord)
      → verify_repair_receipt (finalize_receipt post r) ≡ true
  unfolding verify_repair_receipt finalize_receipt repair_receipt_hash receipt_json
  verify-finalize post r = (text_beq_iff _ _).1 refl
