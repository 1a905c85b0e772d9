-- ===== src/Managed/Dispatch.antt =====
-- packages/managed/src/webhook.ts: the workers that deliver what is due. The four dispatchers share
-- this loop, and differ in the store that they ask.
pub mod Delivered
use managed_tool_call_schema.Base.{
  ℕ, suc, ◌+◌, Text, ltb, length, Option, none, some, get_or, List, [], ◌∷◌, ◌++◌, if◌then◌else◌,
  ◌≡◌,
}

pub record Claim : Type 0 where
  pub delivery_id : Text
  pub lease_id : Text
  pub endpoint : Text
  pub signing_secret : Text
  pub payload : Text

pub record Summary : Type 0 where
  pub claimed : ℕ
  pub delivered : ℕ
  pub retrying : ℕ
  pub dead : ℕ

-- What the store answers when a delivery is finished; it answers nothing where the lease is lost.
pub data FinalStatus : Type 0 where
  now_delivered now_pending now_dead : FinalStatus

-- Where the workers are: at the head of the loop, or waiting for the delivery of a claim. `waiting`
-- has the claims from the cursor on, `finished` those that the store was told of, the last first.
pub record Dispatch : Type 0 where
  pub waiting : List Claim
  pub at_head : ℕ
  pub delivering : List Claim
  pub finished : List Claim
  pub summary : Summary

unfoldable pub least : ℕ → ℕ → ℕ
least a b = if ltb a b then a else b

-- `Math.min(Math.max(options.concurrency ?? 4, 1), 16)`
unfoldable pub concurrency_of : Option ℕ → ℕ
unfolding least
concurrency_of given = let n = get_or given 4 in if ltb n 1 then 1 else least n 16

-- The state when the workers are made.
unfoldable pub start : (concurrency : Option ℕ) → List Claim → Dispatch
unfolding concurrency_of least
start concurrency claims = record {
  waiting = claims;
  at_head = least (concurrency_of concurrency) (length claims);
  delivering = [];
  finished = [];
  summary = record { claimed = length claims; delivered = 0; retrying = 0; dead = 0 };
}

unfoldable pub counted : Option FinalStatus → Summary → Summary
counted (some now_delivered) s = record s { delivered = s.delivered + 1 }
counted (some now_pending) s = record s { retrying = s.retrying + 1 }
counted (some now_dead) s = record s { dead = s.dead + 1 }
counted none s = s

abbrev pub taken : Dispatch → (c : Claim) (rest : List Claim) (others : ℕ) → Dispatch
taken s c rest others = record s { waiting = rest; at_head = others; delivering = c ∷ s.delivering }

abbrev pub settled :
    Dispatch → Option FinalStatus → (c : Claim) (before after : List Claim) → Dispatch
settled s status c before after = record s {
  at_head = s.at_head + 1;
  delivering = before ++ after;
  finished = c ∷ s.finished;
  summary = counted status s.summary;
}

abbrev pub left : Dispatch → ℕ → Dispatch
left s others = record s { at_head = others }

-- What a worker does between two waits. Deliveries end in any order, and each with any answer.
pub data Step (s : Dispatch) : Dispatch → Type 0 where
  take :
      (c : Claim) (rest : List Claim) (others : ℕ)
      → s.waiting ≡ c ∷ rest
      → s.at_head ≡ others + 1
      → Step s (taken s c rest others)
  settle :
      (status : Option FinalStatus) (c : Claim) (before after : List Claim)
      → s.delivering ≡ before ++ c ∷ after
      → Step s (settled s status c before after)
  leave : (others : ℕ) → s.waiting ≡ [] → s.at_head ≡ others + 1 → Step s (left s others)

-- A run of `n` steps.
pub data Run (s : Dispatch) : ℕ → Dispatch → Type 0 where
  begin : Run s 0 s
  then_step : {n : ℕ} {t u : Dispatch} → Run s n t → Step t u → Run s (n + 1) u

-- Every worker has left, which `Promise.all` waits for.
abbrev pub IsOver : Dispatch → Type 0
IsOver s = (s.at_head ≡ 0) × (s.delivering ≡ [])
