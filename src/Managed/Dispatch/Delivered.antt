-- ===== src/Managed/Dispatch/Delivered.antt =====
-- packages/managed/src/webhook.ts: what becomes of each claim, and the end of the workers.
use mathlib.Core.List.{Perm, perm_middle}
use mathlib.Core.List.Perm
use mathlib.Core.Path.{subst}
use managed_tool_call_schema.Base.{
  ℕ, zero, suc, ◌+◌, ◌*◌, ◌≤◌, ◌<◌, length, length-append, append-nil, Option, none, some, List, [],
  ◌∷◌, ◌++◌, ◌≡◌, ◌⊎◌, inl, inr, refl, sym, ap, ◌∙◌, arith,
}
use managed_tool_call_schema.Managed.Dispatch.{
  Claim, Summary, FinalStatus, Dispatch, least, concurrency_of, start, counted, taken, settled,
  Step, take, settle, leave, Run, begin, then_step, IsOver,
}

abbrev claims_of : Dispatch → List Claim
claims_of s = s.finished ++ (s.delivering ++ s.waiting)

Step-Perm : {s t : Dispatch} → Step s t → Perm (claims_of t) (claims_of s)
Step-Perm {s = s} (take c rest others w a) =
    subst (λ ws. Perm (claims_of (taken s c rest others)) (s.finished ++ (s.delivering ++ ws)))
      (sym w) (Perm.append_left s.finished (Perm.symm (perm_middle s.delivering rest)))
Step-Perm {s = s} (settle status c before after d) =
    subst
      (λ ds. Perm (claims_of (settled s status c before after)) (s.finished ++ (ds ++ s.waiting)))
      (sym d)
      (Perm.symm (
        Perm.trans
          (Perm.append_left s.finished (Perm.append_right s.waiting (perm_middle before after)))
          (perm_middle s.finished (before ++ after ++ s.waiting))))
Step-Perm (leave others w a) = Perm.refl _

Run-Perm : {s t : Dispatch} {n : ℕ} → Run s n t → Perm (claims_of t) (claims_of s)
Run-Perm begin = Perm.refl _
Run-Perm (then_step r st) = Perm.trans (Step-Perm st) (Run-Perm r)

abbrev outcomes : Summary → ℕ
outcomes s = s.delivered + s.retrying + s.dead

counted-outcomes :
    (status : Option FinalStatus) (s : Summary) → outcomes (counted status s) ≤ outcomes s + 1
unfolding counted
counted-outcomes (some FinalStatus.now_delivered) s = omega arith
counted-outcomes (some FinalStatus.now_pending) s = omega arith
counted-outcomes (some FinalStatus.now_dead) s = omega arith
counted-outcomes none s = omega arith

-- What is counted was settled.
Run-outcomes :
    {s t : Dispatch} {n : ℕ}
    → Run s n t
    → outcomes s.summary ≤ length s.finished
    → outcomes t.summary ≤ length t.finished
Run-outcomes begin h = h
Run-outcomes (then_step r (take c rest others w a)) h = Run-outcomes r h
Run-outcomes (then_step {t = t} r (settle status c before after d)) h =
    omega (arith, Run-outcomes r h, counted-outcomes status t.summary)
Run-outcomes (then_step r (leave others w a)) h = Run-outcomes r h

-- The steps that are left at most.
abbrev work : Dispatch → ℕ
work s = 3 * length s.waiting + 2 * length s.delivering + s.at_head

Step-work : {s t : Dispatch} → Step s t → work t < work s
Step-work {s = s} (take c rest others w a) = omega (arith, ap length w)
Step-work {s = s} (settle status c before after d) =
    omega (arith, ap length d, length-append before (c ∷ after), length-append before after)
Step-work {s = s} (leave others w a) = omega arith

Run-work : {s t : Dispatch} {n : ℕ} → Run s n t → n + work t ≤ work s
Run-work begin = omega arith
Run-work (then_step r st) = omega (arith, Run-work r, Step-work st)

start-work :
    (given : Option ℕ) (claims : List Claim) → work (start given claims) ≤ 4 * length claims
unfolding start least
start-work given claims = ground arith

-- The claims in the three lists.
abbrev tally : Dispatch → ℕ
tally s = length s.finished + length s.delivering + length s.waiting

Step-tally : {s t : Dispatch} → Step s t → tally t ≡ tally s
Step-tally {s = s} (take c rest others w a) = omega (arith, ap length w)
Step-tally {s = s} (settle status c before after d) =
    omega (arith, ap length d, length-append before (c ∷ after), length-append before after)
Step-tally {s = s} (leave others w a) = refl

Run-tally : {s t : Dispatch} {n : ℕ} → Run s n t → tally t ≡ tally s
Run-tally begin = refl
Run-tally (then_step r st) = Step-tally st ∙ Run-tally r

-- As long as claims wait, no worker leaves.
abbrev IsStaffed : ℕ → Dispatch → Type 0
IsStaffed workers s = (s.waiting ≡ []) ⊎ (s.at_head + length s.delivering ≡ workers)

Step-IsStaffed :
    {s t : Dispatch} (workers : ℕ) → Step s t → IsStaffed workers s → IsStaffed workers t
Step-IsStaffed workers (leave others w a) i = inl w
Step-IsStaffed {s = s} workers (take c rest others w a) (inl none_left) = cc (w, none_left)
Step-IsStaffed {s = s} workers (take c rest others w a) (inr all_here) = inr (omega arith)
Step-IsStaffed {s = s} workers (settle status c before after d) (inl none_left) = inl none_left
Step-IsStaffed {s = s} workers (settle status c before after d) (inr all_here) =
    inr (omega (arith, ap length d, length-append before (c ∷ after), length-append before after))

Run-IsStaffed :
    {s t : Dispatch} {n : ℕ} (workers : ℕ) → Run s n t → IsStaffed workers s → IsStaffed workers t
Run-IsStaffed workers begin i = i
Run-IsStaffed workers (then_step r st) i = Step-IsStaffed workers st (Run-IsStaffed workers r i)

no_length : {A : Type 0} (xs : List A) → length xs ≡ 0 → xs ≡ []
no_length [] e = refl
no_length (x ∷ xs) e = absurd (omega arith)

start-workers :
    (given : Option ℕ) (claims : List Claim) → (start given claims).at_head ≡ 0 → length claims ≡ 0
unfolding start least concurrency_of
start-workers given claims e = ground arith

-- At the end no claim waits.
over-waiting :
    (given : Option ℕ) (claims : List Claim) {n : ℕ} {t : Dispatch}
    → Run (start given claims) n t
    → IsOver t
    → t.waiting ≡ []
unfolding start
over-waiting given claims {t = t} r (idle, none_out) =
    elim (Run-IsStaffed (start given claims).at_head r (inr (omega arith))) [
      | inl none_left ↦ none_left
      | inr all_here ↦
          let unstaffed : (start given claims).at_head ≡ 0 = omega (arith, ap length none_out) in
          no_length t.waiting (omega (arith, start-workers given claims unstaffed, Run-tally r))
    ]

-- When the workers are done, the store was told of each claim exactly once, and what the summary
-- counts are claims that it was told of.
pub over-Perm :
    (given : Option ℕ) (claims : List Claim) {n : ℕ} {t : Dispatch}
    → Run (start given claims) n t
    → IsOver t
    → Perm t.finished claims
      × (t.summary.delivered + t.summary.retrying + t.summary.dead ≤ length claims)
unfolding start
over-Perm given claims {t = t} r (idle, none_out) =
    let empty = over-waiting given claims r (idle, none_out) in
    (
      subst (λ fs. Perm fs claims)
          (ap (λ ws. t.finished ++ (t.delivering ++ ws)) empty
            ∙ ap (λ ds. t.finished ++ (ds ++ [])) none_out
            ∙ append-nil t.finished)
          (Run-Perm r),
      omega (arith, Run-outcomes r (omega arith), Run-tally r, ap length none_out, ap length empty),
    )

next_step : (s : Dispatch) → IsOver s ⊎ ((t : Dispatch) × Step s t)
next_step s = at s.at_head s.waiting s.delivering refl refl refl
  where
    at :
        (k : ℕ) (ws ds : List Claim)
        → s.at_head ≡ k
        → s.waiting ≡ ws
        → s.delivering ≡ ds
        → IsOver s ⊎ ((t : Dispatch) × Step s t)
    at zero ws [] a w d = inl (a, d)
    at zero ws (c ∷ ds) a w d = inr (_, settle none c [] ds d)
    at (suc k) [] ds a w d = inr (_, leave k w (omega arith))
    at (suc k) (c ∷ ws) ds a w d = inr (_, take c ws k w (omega arith))

-- However the deliveries are answered and in whichever order, the workers are done after at most
-- four steps for each claim, and until then they never wait for nothing.
pub Run-ends :
    (given : Option ℕ) (claims : List Claim) {n : ℕ} {t : Dispatch}
    → Run (start given claims) n t
    → (n ≤ 4 * length claims) × (IsOver t ⊎ ((u : Dispatch) × Step t u))
Run-ends given claims {t = t} r = (omega (arith, Run-work r, start-work given claims), next_step t)
