-- ===== src/Core/Audit.antt =====
-- packages/core/src/audit.ts: the value-free audit envelope.
use managed_tool_call_schema.Base.{
  Text, lit, ltb, ◌==◌, nat_eq, Bool, true, false, ◌&&◌, ◌||◌, Option, none, some, List, [], ◌∷◌,
  ◌++◌, map, if◌then◌else◌,
}
use managed_tool_call_schema.Json.{Json, Fields, null, bool, num, str, arr, obj, end, field}
use managed_tool_call_schema.Json.Host.{Host}
use managed_tool_call_schema.Json.Canonical.{sha256}
use managed_tool_call_schema.Core.Types.{AuditEnvelope, DecisionStatus, ReasonCode, RepairRecord}
use managed_tool_call_schema.Core.Pointer.{escape}

-- `<=` of strings, by code units
text_le : Text → Text → Bool
text_le [] t = true
text_le (c ∷ s) [] = false
text_le (c ∷ s) (d ∷ t) = let rest = text_le s t in ltb c d || c == d && rest

insert_sorted : Text → List Text → List Text
unfolding text_le
insert_sorted t [] = t ∷ []
insert_sorted t (u ∷ us) =
    let rest = insert_sorted t us in if text_le t u then t ∷ u ∷ us else u ∷ rest

-- `paths.sort()`
unfoldable pub sort_texts : List Text → List Text
unfolding insert_sorted
sort_texts [] = []
sort_texts (t ∷ ts) = insert_sorted t (sort_texts ts)

-- The paths that `visit` pushes, in their order.
unfoldable mutual
  pub visit : Json → Text → List Text
  visit (arr vs) path = (path ++ lit "[]") ∷ []
  visit (obj fs) path = visit_fields fs path
  visit null path = []
  visit (bool b) path = []
  visit (num n) path = []
  visit (str s) path = []

  pub visit_fields : Fields → Text → List Text
  visit_fields end path = []
  visit_fields (field k v fs) path =
      let next = path ++ 47 ∷ escape k in next ∷ visit v next ++ visit_fields fs path

unfoldable pub shape : Json → List Text
shape value = sort_texts (visit value [])

pub record AuditInput : Type 0 where
  pub tool_name : Text
  pub schema : Json
  pub arguments : Json
  pub validated_arguments : Option Json
  pub decision : DecisionStatus
  pub repairs : List RepairRecord
  pub policy_hash : Text
  pub reason_code : Option ReasonCode

hash_of : Host → Option Json → Option Text
hash_of h none = none
hash_of h (some value) = some (sha256 h value)

-- `fresh_id` is `aud_${randomUUID()}`, and `now` the time of the call as an ISO string.
unfoldable pub create_audit_envelope : Host → (fresh_id now : Text) → AuditInput → AuditEnvelope
unfolding hash_of
create_audit_envelope h fresh_id now i = record {
  audit_id = fresh_id;
  timestamp = now;
  tool_name_hash = sha256 h (str i.tool_name);
  schema_hash = sha256 h i.schema;
  arguments_hash = sha256 h i.arguments;
  validated_arguments_hash = hash_of h i.validated_arguments;
  argument_shape = shape i.arguments;
  decision = i.decision;
  reason_code = i.reason_code;
  repair_rule_ids = map (λ (r : RepairRecord). r.rule_id) i.repairs;
  repair_receipt_hashes = map (λ (r : RepairRecord). r.receipt_hash) i.repairs;
  policy_hash = i.policy_hash;
}
