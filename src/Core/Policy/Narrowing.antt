-- ===== src/Core/Policy/Narrowing.antt =====
-- packages/core/src/policy.ts: what it means that a policy allows a call.
use managed_tool_call_schema.Base.{
  Text, length, ◌≤◌, ◌≡◌, refl, ◌↔◌, false, Option, List, [], ◌∷◌, All, arith,
}
use managed_tool_call_schema.Json.{Json}
use managed_tool_call_schema.Json.Host.{Host}
use managed_tool_call_schema.Core.Types.{GuardPolicy, PolicyOutcome, RepairRecord}
use managed_tool_call_schema.Core.Policy.HasPath.{has_path}
use managed_tool_call_schema.Core.Policy.{
  evaluate_policy, policy_reasons, path_reasons, outcome_of, max_repairs_of, denied_paths_of,
}

path_reasons_iff :
    (args : Json) (paths : List Text)
    → (path_reasons args paths ≡ []) ↔ All (λ p. has_path args p ≡ false) paths
unfolding path_reasons
path_reasons_iff args [] = (λ _. tt, λ _. refl)
path_reasons_iff args (p ∷ ps) =
    let ih = path_reasons_iff args ps in
    (λ h. (ground arith, ih.0 (ground arith)), λ h. ground (arith, ih.1 h.1, h.0))

pub evaluate_policy_allowed :
    (h : Host) (policy : Option GuardPolicy) (args : Json) (repairs : List RepairRecord)
    → ((evaluate_policy h policy args repairs).outcome ≡ PolicyOutcome.allowed) ↔ (
        (length repairs ≤ max_repairs_of policy)
        × All (λ p. has_path args p ≡ false) (denied_paths_of policy))
unfolding evaluate_policy policy_reasons outcome_of
evaluate_policy_allowed h policy args repairs =
    let paths = path_reasons_iff args (denied_paths_of policy) in
    (λ a. (ground arith, paths.0 (ground arith)), λ a. ground (arith, paths.1 a.1, a.0))
