-- ===== src/Core/Engine/Narrowed.antt =====
-- packages/core/src/engine.ts: the policy and the arguments of an accepted call.
use managed_tool_call_schema.Base.{
  suc, Text, lit, length, ◌≤◌, ◌≡◌, refl, ap, ◌∙◌, Bool, true, false, Option, none, some, get_or,
  List, [], ◌∷◌, map, All, arith,
}
use mathlib.Core.Path.{subst}
use managed_tool_call_schema.Json.{Json}
use managed_tool_call_schema.Json.Host.{Host}
use managed_tool_call_schema.Core.Types.{
  accept, AcceptedDecision, GuardPolicy, PolicyResult, PolicyOutcome, RepairRecord,
}
use managed_tool_call_schema.Core.Receipt.{finalize_repair_receipts, finalize_receipt}
use managed_tool_call_schema.Core.Policy.{
  evaluate_policy, max_repairs_of, denied_paths_of, empty_policy,
}
use managed_tool_call_schema.Core.Policy.HasPath.{has_path}
use managed_tool_call_schema.Core.Policy.Check.{read_policy}
use managed_tool_call_schema.Core.Policy.Narrowing.{evaluate_policy_allowed}
use managed_tool_call_schema.Core.Engine.OpenObject.{first_open_object}
use managed_tool_call_schema.Core.Engine.Input.{Call, Ajv, Request, CheckedRequest}
use managed_tool_call_schema.Core.Engine.Enforced.{accepting}
use managed_tool_call_schema.Core.Engine.Enforcement.{accepted-IsChecked}
use managed_tool_call_schema.Core.Engine.{
  accepted, full_policy, open_path, deny_open, validate_tool_call,
}

-- What a policy asks of a decision on a schema, without the code that evaluates it.
pub record Keeps (h : Host) (p : GuardPolicy) (schema : Json) (d : AcceptedDecision) : Type 0 where
  pub few_repairs : length d.repaired_fields ≤ get_or p.max_repairs 8
  pub no_denied_path :
      All (λ path. has_path d.valid_arguments path ≡ false) (get_or p.deny_argument_paths [])
  pub closed : p.require_closed_schema ≡ some true → first_open_object h schema (lit "#") ≡ none

length-map {ℓ κ} :
    {A : Type ℓ} {B : Type κ} (f : A → B) (xs : List A) → length (map f xs) ≡ length xs
length-map f [] = refl
length-map f (x ∷ xs) = ap suc (length-map f xs)

module _ (h : Host) where
  undenied :
      (result : PolicyResult) (o : Option Text)
      → (deny_open h result o).outcome ≡ PolicyOutcome.allowed
      → (result.outcome ≡ PolicyOutcome.allowed) × (o ≡ none)
  unfolding deny_open
  undenied result none e = (e, refl)
  undenied result (some path) e = cc e

  closed_of :
      (p : GuardPolicy) (schema : Json)
      → open_path h (some p) schema ≡ none
      → p.require_closed_schema ≡ some true
      → first_open_object h schema (lit "#") ≡ none
  unfolding open_path
  closed_of p schema e c = ground arith

  fields_of :
      (c : Call) (r : CheckedRequest) (b : Bool) (args validated : Json)
      (fields : List RepairRecord) (policy : PolicyResult) (d : AcceptedDecision)
      → accepted h c r b args validated fields policy ≡ accept d
      → fields ≡ d.repaired_fields
  unfolding accepted
  fields_of c r b args validated fields policy d e = ground arith

-- A call that is accepted under a policy keeps it: at most the allowed number of repairs, none of
-- the denied paths in the arguments that go on, and a closed schema where one is required.
pub accepted-Keeps_policy :
    (h : Host) (ajv : Ajv) (c : Call) (q : Request) (d : AcceptedDecision) (p : GuardPolicy)
    (schema : Json)
    → validate_tool_call h ajv c (some q) ≡ accept d
    → read_policy q.policy ≡ some p
    → q.tool_schema ≡ some schema
    → Keeps h p schema d
unfolding full_policy max_repairs_of denied_paths_of finalize_repair_receipts
accepted-Keeps_policy h ajv c q d p schema e policy given =
    let x = accepted-IsChecked h ajv c d q e in
    let r = x.checked in
    let y = x.enforced in
    let pe : r.policy ≡ some p = x.policy ∙ policy in
    let se : r.tool_schema ≡ schema = cc (x.schema, given) in
    let (allowed, closed) =
      undenied h (evaluate_policy h r.policy d.valid_arguments y.repairs)
        (open_path h r.policy r.tool_schema) y.permitted in
    let (few, undenied_paths) =
      (evaluate_policy_allowed h r.policy d.valid_arguments y.repairs).0 allowed in
    let fields : map (finalize_receipt h accepting) y.repairs ≡ d.repaired_fields =
      fields_of h c r _ _ _ _ _ d y.built in
    record {
      few_repairs = omega (
        arith,
        few,
        ap length fields,
        length-map (finalize_receipt h accepting) y.repairs,
        ap (λ (o : Option GuardPolicy). get_or (get_or o empty_policy).max_repairs 8) pe,
      );
      no_denied_path =
          subst
            (λ (o : Option GuardPolicy).
              All (λ path. has_path d.valid_arguments path ≡ false)
                (get_or (get_or o empty_policy).deny_argument_paths []))
            pe undenied_paths;
      closed = closed_of h p schema (cc (closed, pe, se));
    }
