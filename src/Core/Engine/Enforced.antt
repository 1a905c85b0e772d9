-- ===== src/Core/Engine/Enforced.antt =====
-- packages/core/src/engine.ts: the arguments of an accepted call, as the schema and the policy left
-- them.
use managed_tool_call_schema.Base.{
  ◌≡◌, ◌≢◌, refl, sym, nat_eq, text_eq, ◌⊎◌, inl, inr, Bool, true, false, List, [], ◌∷◌, arith,
}
use managed_tool_call_schema.Json.{Json, null, bool, num, str, arr, obj}
use managed_tool_call_schema.Json.Host.{Host}
use managed_tool_call_schema.Core.Result.{ok, >>=-eq-ok}
use managed_tool_call_schema.Core.Types.{
  accept, AcceptedDecision, PolicyResult, PolicyOutcome, PolicyCheck, PostValidation, RepairRecord,
  passed,
}
use managed_tool_call_schema.Core.Receipt.{finalize_repair_receipts}
use managed_tool_call_schema.Core.Repair.Walk.{apply_repairs}
use managed_tool_call_schema.Core.Engine.Input.{
  Call, AjvError, Validator, CheckedRequest, allowed_of,
}
use managed_tool_call_schema.Core.Engine.Reject.{Refusal, reject}
use managed_tool_call_schema.Core.Engine.{
  full_policy, accepted, on_valid, on_repaired, after_repair, no_repair, try_repaired, on_errors,
  enforce,
}

abbrev pub accepting : PostValidation
accepting = record { schema = passed; policy = PolicyCheck.allowed }

module _ (h : Host) where
  pub reject_refuses : (c : Call) (i : Refusal) (d : AcceptedDecision) → reject h c i ≢ accept d
  unfolding reject
  reject_refuses c i d e = cc e

  module _ (c : Call) (r : CheckedRequest) (validate : Validator) (d : AcceptedDecision) where
    -- The arguments of an accepted decision satisfy the schema and the policy. They are those of
    -- the request, or come from them by repairs that are all on record with renewed receipts.
    pub record IsEnforced : Type 0 where
      pub repairs : List RepairRecord
      pub satisfied : validate d.valid_arguments ≡ ok []
      pub permitted : (full_policy h r d.valid_arguments repairs).outcome ≡ PolicyOutcome.allowed
      pub origin :
          ((d.repaired ≡ false) × (repairs ≡ []) × (d.valid_arguments ≡ r.args))
          ⊎ ((d.repaired ≡ true)
              × (repairs ≢ [])
              × (apply_repairs h r.tool_schema r.args (allowed_of r)
                  ≡ (d.valid_arguments, repairs)))
      pub built :
          accepted h c r d.repaired r.args d.valid_arguments
            (finalize_repair_receipts h repairs accepting)
            (full_policy h r d.valid_arguments repairs)
          ≡ accept d

    accepted_fields :
        (b : Bool) (args validated : Json) (repairs : List RepairRecord) (policy : PolicyResult)
        → accepted h c r b args validated repairs policy ≡ accept d
        → (b ≡ d.repaired) × (validated ≡ d.valid_arguments)
    unfolding accepted
    accepted_fields b args validated repairs policy e = (ground arith, ground arith)

    on_valid_accepts :
        (policy : PolicyResult)
        → on_valid h c r policy ≡ accept d
        → (policy.outcome ≡ PolicyOutcome.allowed)
          × (accepted h c r false r.args r.args [] policy ≡ accept d)
    unfolding on_valid reject
    on_valid_accepts policy e = (ground arith, ground arith)

    on_repaired_accepts :
        (validated : Json) (repairs : List RepairRecord) (policy : PolicyResult)
        → on_repaired h c r validated repairs policy ≡ accept d
        → (policy.outcome ≡ PolicyOutcome.allowed)
          × (accepted h c r true r.args validated
                (finalize_repair_receipts h repairs accepting)
                policy
              ≡ accept d)
    unfolding on_repaired reject
    on_repaired_accepts validated repairs policy e = (ground arith, ground arith)

    finalize_nil : finalize_repair_receipts h [] accepting ≡ []
    unfolding finalize_repair_receipts
    finalize_nil = refl

    valid_enforced :
        validate r.args ≡ ok [] → on_valid h c r (full_policy h r r.args []) ≡ accept d → IsEnforced
    valid_enforced satisfied e =
        let (allowed, built) = on_valid_accepts (full_policy h r r.args []) e in
        let (repaired, same) = accepted_fields false r.args r.args [] _ built in
        record {
          repairs = [];
          satisfied = rw (← same) satisfied;
          permitted = rw (← same) allowed;
          origin = inl (sym repaired, refl, sym same);
          built = cc (built, repaired, same, finalize_nil);
        }

    repaired_enforced :
        (validated : Json) (repairs : List RepairRecord)
        → repairs ≢ []
        → apply_repairs h r.tool_schema r.args (allowed_of r) ≡ (validated, repairs)
        → validate validated ≡ ok []
        → on_repaired h c r validated repairs (full_policy h r validated repairs) ≡ accept d
        → IsEnforced
    repaired_enforced validated repairs some_repair from satisfied e =
        let (allowed, built) =
          on_repaired_accepts validated repairs (full_policy h r validated repairs) e in
        let (repaired, same) = accepted_fields true r.args validated _ _ built in
        record {
          repairs = repairs;
          satisfied = rw (← same) satisfied;
          permitted = rw (← same) allowed;
          origin = inr (sym repaired, some_repair, rw (← same) from);
          built = cc (built, repaired, same);
        }

    after_enforced :
        (validated : Json) (repairs : List RepairRecord) (errors : List AjvError)
        → repairs ≢ []
        → apply_repairs h r.tool_schema r.args (allowed_of r) ≡ (validated, repairs)
        → validate validated ≡ ok errors
        → after_repair h c r validated repairs errors ≡ accept d
        → IsEnforced
    unfolding after_repair
    after_enforced validated repairs [] n from satisfied e =
        repaired_enforced validated repairs n from satisfied e
    after_enforced validated repairs (x ∷ xs) n from satisfied e = absurd (reject_refuses c _ d e)

    no_repair_refuses : (before : List AjvError) → no_repair h c r before ≢ accept d
    unfolding no_repair
    no_repair_refuses before = reject_refuses c _ d

    try_enforced :
        (before : List AjvError) (value : Json) (repairs : List RepairRecord)
        → apply_repairs h r.tool_schema r.args (allowed_of r) ≡ (value, repairs)
        → try_repaired h c r validate before value repairs ≡ ok (accept d)
        → IsEnforced
    unfolding try_repaired
    try_enforced before (obj fs) (x ∷ xs) from e =
        let (errors, satisfied, last) = >>=-eq-ok (validate (obj fs)) _ e in
        after_enforced (obj fs) (x ∷ xs) errors (cc) from satisfied (cc last)
    try_enforced before (obj fs) [] from e = absurd (no_repair_refuses before (cc e))
    try_enforced before null repairs from e = absurd (no_repair_refuses before (cc e))
    try_enforced before (bool b) repairs from e = absurd (no_repair_refuses before (cc e))
    try_enforced before (num n) repairs from e = absurd (no_repair_refuses before (cc e))
    try_enforced before (str s) repairs from e = absurd (no_repair_refuses before (cc e))
    try_enforced before (arr vs) repairs from e = absurd (no_repair_refuses before (cc e))

    errors_enforced :
        (errors : List AjvError)
        → validate r.args ≡ ok errors
        → on_errors h c r validate errors ≡ ok (accept d)
        → IsEnforced
    unfolding on_errors
    errors_enforced [] satisfied e = valid_enforced satisfied (cc e)
    errors_enforced (x ∷ xs) satisfied e = try_enforced (x ∷ xs) _ _ refl e

    pub enforce_enforced : enforce h c r validate ≡ ok (accept d) → IsEnforced
    unfolding enforce
    enforce_enforced e =
        let (errors, satisfied, last) = >>=-eq-ok (validate r.args) _ e in
        errors_enforced errors satisfied last
