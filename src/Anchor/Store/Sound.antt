-- ===== src/Anchor/Store/Sound.antt =====
-- packages/anchor-receiver/src/store.ts: what it means that the log and the latest
-- checkpoints are in step.
use managed_tool_call_schema.Base.{
  Text, length, ◌==◌, text_eq, text_beq_iff, text_beq_refl, nat_eq, nat_beq_iff, ◌≡◌, refl, sym,
  ◌∙◌, Bool, true, false, Bool-cases, inl, inr, Option, none, some, List, [], ◌∷◌, if◌then◌else◌,
  arith, All,
}
use managed_tool_call_schema.Json.Host.{Host}
use managed_tool_call_schema.Json.Number.{is_nan, num_lt}
use managed_tool_call_schema.Json.Number.Order.{num_same_refl}
use managed_tool_call_schema.Core.Assoc.{lookup}
use managed_tool_call_schema.Anchor.Store.{
  EventRow, LatestRow, AnchorStore, genesis, higher, top_from, tenants, count_distinct, agrees,
  all_agree, verify_chain, verify, latest_of,
}
use managed_tool_call_schema.Anchor.Store.Tables.{Distinct}

abbrev pub summary : Option EventRow → Option LatestRow
summary none = none
summary (some r) = some (latest_of r)

abbrev pub IsNumber : EventRow → Type 0
IsNumber r = is_nan r.revision ≡ false

abbrev pub NumberOr : Option EventRow → Type 0
NumberOr none = Unit
NumberOr (some r) = IsNumber r

higher-IsNumber :
    (r : EventRow) (best : Option EventRow) → IsNumber r → NumberOr best → IsNumber (higher r best)
unfolding higher
higher-IsNumber r none n b = n
higher-IsNumber r (some c) n b = elim (Bool-cases (num_lt c.revision r.revision)) [
  | inl more ↦ rw more n
  | inr less ↦ rw less b
]

NumberOr-if :
    (b : Bool) (o p : Option EventRow) → NumberOr o → NumberOr p → NumberOr (if b then o else p)
NumberOr-if true o p x y = x
NumberOr-if false o p x y = y

pub top_from-NumberOr :
    (best : Option EventRow) (t : Text) (rs : List EventRow)
    → NumberOr best
    → All IsNumber rs
    → NumberOr (top_from best t rs)
unfolding top_from
top_from-NumberOr best t [] b a = b
top_from-NumberOr best t (r ∷ rs) b (n, a) =
    top_from-NumberOr (if r.tenant_ref == t then some (higher r best) else best) t rs
      (NumberOr-if (r.tenant_ref == t) (some (higher r best)) best (higher-IsNumber r best n b) b) a

module _ (h : Host) (secret : Text) where
  -- The log is a chain of hashes, and each tenant's latest row is the summary of its highest event.
  pub record IsSound (s : AnchorStore) : Type 0 where
    pub chain_valid : (verify_chain h secret genesis 0 s.events).valid ≡ true
    pub chain_checked : (verify_chain h secret genesis 0 s.events).checked ≡ length s.events
    pub numbers : All IsNumber s.events
    pub one_each : Distinct s.latest
    pub counted : count_distinct (tenants s.events) ≡ length s.latest
    pub in_step : (t : Text) → lookup t s.latest ≡ summary (top_from none t s.events)

  all_agree-Distinct :
      (events : List EventRow) (m : List (Text × LatestRow))
      → Distinct m
      → ((t : Text) (l : LatestRow)
          → lookup t m ≡ some l
          → agrees l (top_from none t events) ≡ true)
      → all_agree events m ≡ true
  unfolding all_agree lookup
  all_agree-Distinct events [] d a = refl
  all_agree-Distinct events ((t, l) ∷ m) (fresh, d) a =
      rw (a t l (rw (text_beq_refl t) refl))
        (all_agree-Distinct events m d λ u k e. a u k (ground (arith, text_beq_iff t u, fresh, e)))

  agrees_self : (e : EventRow) → IsNumber e → agrees (latest_of e) (some e) ≡ true
  unfolding agrees latest_of
  agrees_self e n =
      rw
        (
          num_same_refl e.revision e.revision n,
          text_beq_refl e.checkpoint_hash,
          text_beq_refl e.checkpoint_json,
          text_beq_refl e.event_id,
        )
        refl

  agrees-summary :
      (o : Option EventRow) (l : LatestRow) → NumberOr o → summary o ≡ some l → agrees l o ≡ true
  agrees-summary none l n e = cc
  agrees-summary (some r) l n e = let same : latest_of r ≡ l = cc e in rw (← same) (agrees_self r n)

  -- A store in step is verified, with every event counted.
  pub IsSound-verify :
      (s : AnchorStore)
      → IsSound s
      → ((verify h secret s).valid ≡ true) × ((verify h secret s).checked ≡ length s.events)
  unfolding verify
  IsSound-verify s i =
      let agree = all_agree-Distinct s.events s.latest i.one_each λ t l e.
        agrees-summary (top_from none t s.events) l (top_from-NumberOr none t s.events tt i.numbers)
          (sym (i.in_step t) ∙ e) in
      (rw (i.chain_valid, i.counted, (nat_beq_iff _ _).1 refl, agree) refl, i.chain_checked)
