-- ===== src/Core/Limits/Bounds.antt =====
-- packages/core/src/limits.ts: the end of the safety loop, and what it accepts.
use managed_tool_call_schema.Base.{
  ℕ, zero, suc, ◌+◌, ◌≤◌, ◌<◌, Text, ltb, nat_eq, ◌≡◌, ◌≢◌, refl, ◌||◌, Option, none, some, List,
  [], ◌∷◌, Bool-cases, inl, inr, arith, All,
}
use managed_tool_call_schema.Json.Host.{Host}
use managed_tool_call_schema.Core.Result.{Result, ok}
use managed_tool_call_schema.Core.Limits.{
  Node, leaf, branch, Round, stop, go_on, visit, round, SafetyLimits, push_all, too_large, bad,
  finished, safety_loop, assert_safety,
}

abbrev pub HasNoFault {ℓ} : {V : Type ℓ} → Node V → Type 0
HasNoFault (leaf fault) = fault ≡ none
HasNoFault (branch i fault children) = fault ≡ none

abbrev pub children_of {ℓ} : {V : Type ℓ} → Node V → List V
children_of (leaf fault) = []
children_of (branch i fault children) = children

pub data IsIn {ℓ} {A : Type ℓ} (a : A) : List A → Type ℓ where
  first : {xs : List A} → IsIn a (a ∷ xs)
  later : {x : A} {xs : List A} → IsIn a xs → IsIn a (x ∷ xs)

module _ {V : Type 0} (view : V → Node V) where
  -- `w` is reached from `v` over that many children.
  pub data Reaches : V → ℕ → V → Type 0 where
    itself : {v : V} → Reaches v zero v
    child :
        {v u w : V} {n : ℕ} → IsIn u (children_of (view v)) → Reaches u n w → Reaches v (suc n) w

  module _ (h : Host) (label : Text) (limits : SafetyLimits) where
    abbrev Goes : V → ℕ → ℕ → List V → Type 0
    Goes v d nodes cs =
        (nodes + 1 ≤ limits.max_nodes)
        × (d ≤ limits.max_depth)
        × (cs ≡ children_of (view v))
        × HasNoFault (view v)

    visit_goes :
        (n : Node V) (seen seen' : List ℕ) (cs : List V)
        → visit h view label limits n seen ≡ go_on cs seen'
        → (cs ≡ children_of n) × HasNoFault n
    unfolding visit
    visit_goes (leaf none) seen seen' cs e = (ground arith, refl)
    visit_goes (leaf (some f)) seen seen' cs e = cc
    visit_goes (branch i fault children) seen seen' cs e = (ground arith, ground arith)

    round-Goes :
        (v : V) (d : ℕ) (seen seen' : List ℕ) (nodes : ℕ) (cs : List V)
        → round h view label limits v d seen nodes ≡ go_on cs seen'
        → Goes v d nodes cs
    unfolding round
    round-Goes v d seen seen' nodes cs e =
        elim (Bool-cases (ltb limits.max_nodes (nodes + 1) || ltb limits.max_depth d)) [
          | inl over ↦ cc (rw over at e)
          | inr under ↦
              let (same, sound) = visit_goes (view v) seen seen' cs (rw under at e) in
              (ground arith, ground arith, same, sound)
        ]

    -- A limit on the nodes bounds the rounds: enough fuel is a unit for each node up to the limit,
    -- one for the node that exceeds it and one to find the stack empty.
    loop_ends :
        (fuel : ℕ) (stack : List (V × ℕ)) (seen : List ℕ) (nodes : ℕ)
        → limits.max_nodes + 1 < fuel + nodes
        → nodes ≤ limits.max_nodes
        → safety_loop h view label limits fuel stack seen nodes ≢ none
    unfolding safety_loop
    loop_ends zero stack seen nodes enough within = absurd (omega arith)
    loop_ends (suc fuel) [] seen nodes enough within = cc
    loop_ends (suc fuel) ((v, d) ∷ stack) seen nodes enough within =
        after (round h view label limits v d seen nodes) refl (λ cs seen' less.
          loop_ends fuel (push_all cs (d + 1) stack) seen' (nodes + 1) (omega arith) less)
      where
        after :
            (r : Round V)
            → round h view label limits v d seen nodes ≡ r
            → ((cs : List V) (seen' : List ℕ)
                → nodes + 1 ≤ limits.max_nodes
                → safety_loop h view label limits fuel (push_all cs (d + 1) stack) seen' (nodes + 1)
                  ≢ none)
            → safety_loop h view label limits (suc fuel) ((v, d) ∷ stack) seen nodes ≢ none
        after (stop x) e next = rw (e, safety_loop) (cc)
        after (go_on cs seen') e next =
            let (less, _, _, _) = round-Goes v d seen seen' nodes cs e in
            rw (e, safety_loop) (next cs seen' less)

    -- All that is reached from a value stays within the depth and has no fault.
    pub record Within (v : V) (d : ℕ) : Type 0 where
      pub bound : (n : ℕ) (w : V) → Reaches v n w → (d + n ≤ limits.max_depth) × HasNoFault (view w)

    abbrev AllWithin : List (V × ℕ) → Type 0
    AllWithin stack = All (λ (p : V × ℕ). Within p.0 p.1) stack

    pushed-Within :
        (cs : List V) (d : ℕ) (stack : List (V × ℕ))
        → AllWithin (push_all cs d stack)
        → AllWithin stack × ((u : V) → IsIn u cs → Within u d)
    unfolding push_all
    pushed-Within [] d stack a = (a, λ u m. elim m [ ])
    pushed-Within (c ∷ cs) d stack a =
        let (rest, inner) = pushed-Within cs d ((c, d) ∷ stack) a in
        (rest.1, λ u m. head_or rest.0 (inner u) m)
      where
        head_or : {u : V} → Within c d → (IsIn u cs → Within u d) → IsIn u (c ∷ cs) → Within u d
        head_or p q first = p
        head_or p q (later m) = q m

    parent_bound :
        (v : V) (d nodes : ℕ) (cs : List V)
        → Goes v d nodes cs
        → ((u : V) → IsIn u cs → Within u (d + 1))
        → (n : ℕ) (w : V) → Reaches v n w
        → (d + n ≤ limits.max_depth) × HasNoFault (view w)
    parent_bound v d nodes cs (_, depth, same, sound) inner zero w itself = (omega arith, sound)
    parent_bound v d nodes cs (_, depth, same, sound) inner (suc n) w (child {u = u} m r) =
        let (deep, fine) = (inner u (rw same m)).bound n w r in (omega arith, fine)

    parent-Within :
        (v : V) (d nodes : ℕ) (cs : List V)
        → Goes v d nodes cs
        → ((u : V) → IsIn u cs → Within u (d + 1))
        → Within v d
    parent-Within v d nodes cs goes inner = record { bound = parent_bound v d nodes cs goes inner }

    round_stops :
        (v : V) (d : ℕ) (seen : List ℕ) (nodes : ℕ) (r : Result (Unit {0}))
        → round h view label limits v d seen nodes ≡ stop r
        → r ≢ ok tt
    unfolding round visit too_large bad
    round_stops v d seen nodes r e = ground arith

    loop_within :
        (fuel : ℕ) (stack : List (V × ℕ)) (seen : List ℕ) (nodes : ℕ)
        → safety_loop h view label limits fuel stack seen nodes ≡ some (ok tt)
        → AllWithin stack
    unfolding safety_loop
    loop_within zero stack seen nodes e = cc e
    loop_within (suc fuel) [] seen nodes e = tt
    loop_within (suc fuel) ((v, d) ∷ stack) seen nodes e =
        after (round h view label limits v d seen nodes) refl e
          (λ cs seen'. loop_within fuel (push_all cs (d + 1) stack) seen' (nodes + 1))
      where
        after :
            (r : Round V)
            → round h view label limits v d seen nodes ≡ r
            → safety_loop h view label limits (suc fuel) ((v, d) ∷ stack) seen nodes ≡ some (ok tt)
            → ((cs : List V) (seen' : List ℕ)
                → safety_loop h view label limits fuel (push_all cs (d + 1) stack) seen' (nodes + 1)
                  ≡ some (ok tt)
                → AllWithin (push_all cs (d + 1) stack))
            → AllWithin ((v, d) ∷ stack)
        after (stop x) p e next =
            absurd (round_stops v d seen nodes x p (cc (rw (p, safety_loop) at e)))
        after (go_on cs seen') p e next =
            let (rest, inner) =
              pushed-Within cs (d + 1) stack (next cs seen' (rw (p, safety_loop) at e)) in
            (parent-Within v d nodes cs (round-Goes v d seen seen' nodes cs p) inner, rest)

    -- The fuel the check runs on, two more than the nodes it allows, is enough for every value.
    pub assert_safety_ends :
        (v : V) → safety_loop h view label limits (limits.max_nodes + 2) ((v, 0) ∷ []) [] 0 ≢ none
    assert_safety_ends v =
        loop_ends (limits.max_nodes + 2) ((v, 0) ∷ []) [] 0 (omega arith) (omega arith)

    -- Whatever the check accepts reaches nothing beyond the depth and nothing with a fault, however
    -- the objects share or refer to one another.
    pub assert_safety_sound : (v : V) → assert_safety h view label limits v ≡ ok tt → Within v 0
    unfolding assert_safety finished
    assert_safety_sound v e =
        let loop = safety_loop h view label limits (limits.max_nodes + 2) ((v, 0) ∷ []) [] 0 in
        (loop_within (limits.max_nodes + 2) ((v, 0) ∷ []) [] 0 (finished_ok loop e)).0
      where
        finished_ok :
            (o : Option (Result (Unit {0})))
            → finished h view label limits o ≡ ok tt
            → o ≡ some (ok tt)
        finished_ok none e = cc e
        finished_ok (some r) e = cc e
