-- ===== src/BatchDeposit/Terminal.antt =====
-- Where the items of a run of deposits end (submitBatchDeposit of frontend/hooks/useBatchDeposit.ts).
use joint_save.Prelude.{
  ℕ, suc, String, true, false, ◌||◌, none, some, List, [], ◌∷◌, ◌++◌, if◌then◌else◌, map, any,
  length, count, ◌≡◌, refl, arith, eq_iff, All, All-append, All-weaken, inl, inr, sym, ap, ◌∙◌,
}
use joint_save.Prelude.Text.{str_eq}
use joint_save.BatchDeposit.Pools.{
  BatchDepositPool, BatchItemStatus, pending, signing, submitted, confirmed, failed, cancelled,
  in_flight, BatchDepositItem, is_terminal, compute_progress, active_from,
}
use joint_save.BatchDeposit.Chunks.{flat}
use joint_save.BatchDeposit.Run.{
  Wallet, Press, cancel, reset, Happening, signing_phase, submitted_phase, presses, DepositOutcome,
  goes_through, throws, Deposit, BatchDepositPlan, BatchDepositResult, BatchState, set_item_status,
  no_extra, press, press_all, happen, happen_all, settle, deposit_one, deposit_all, planned_item,
  no_result, run_batch, submit_batch_deposit,
}
use joint_save.BatchDeposit.Settled.{deposit_one-cases, submit_batch_deposit-run}
use joint_save.BatchDeposit.Due.{or_true, or_false, Due, Due-terminal, update-Due, settled-Due}

press_all-Due :
    (ps : List BatchDepositPool) (pressed : List Press) (b : BatchState)
    → All (Due ps) b.items
    → All (Due ps) (press_all pressed b).items
press_all-Due ps [] b h = h
press_all-Due ps (cancel ∷ rest) b h = press_all-Due ps rest (press cancel b) h
press_all-Due ps (reset ∷ rest) b h = press_all-Due ps rest (press reset b) tt

module _ (p : BatchDepositPool) (ps : List BatchDepositPool) where
  happen_all-Due :
      (hs : List Happening) (b : BatchState)
      → All (Due (p ∷ ps)) b.items
      → All (Due (p ∷ ps)) (happen_all p.id hs b).items
  happen_all-Due [] b h = h
  happen_all-Due (signing_phase ∷ hs) b h =
      happen_all-Due hs (happen p.id signing_phase b)
        (update-Due p ps signing no_extra (λ x. (refl, refl)) b.items h)
  happen_all-Due (submitted_phase t ∷ hs) b h =
      happen_all-Due hs (happen p.id (submitted_phase t) b)
        (update-Due p ps submitted (λ x. record x { tx_hash = t }) (λ x. (refl, refl)) b.items h)
  happen_all-Due (presses cancel ∷ hs) b h = happen_all-Due hs (press cancel b) h
  happen_all-Due (presses reset ∷ hs) b h = happen_all-Due hs (press reset b) tt

  settle-Due :
      (o : DepositOutcome) (b : BatchState) (r : BatchDepositResult)
      → All (Due (p ∷ ps)) b.items
      → All (Due ps) (settle p.id o b r).0.items
  unfolding settle
  settle-Due (goes_through hash pressed) b r h =
      let extra : BatchDepositItem → BatchDepositItem =
        λ x. record x { tx_hash = some hash; error = none } in
      let done = set_item_status p.id confirmed extra b in
      press_all-Due ps pressed (record done { log_calls = (p.id, hash) ∷ done.log_calls })
        (settled-Due p ps confirmed extra (λ x. (refl, refl)) refl b.items h)
  settle-Due (throws e) b r h =
      settled-Due p ps failed (λ x. record x { error = some e }) (λ x. (refl, refl)) refl b.items h

  deposit_one-Due :
      (w : Deposit) (b : BatchState) (r : BatchDepositResult)
      → All (Due (p ∷ ps)) b.items
      → All (Due ps) (deposit_one w p b r).0.items
  deposit_one-Due w b r h = elim (deposit_one-cases w p b r) [
    | inl e ↦ rw e (settled-Due p ps cancelled no_extra (λ x. (refl, refl)) refl b.items h)
    | inr e ↦
        let before = record b { submit_calls = p.id ∷ b.submit_calls } in
        rw e (
          settle-Due w.outcome (happen_all p.id w.during before) r
            (happen_all-Due w.during before h))
  ]

deposit_all-Due :
    (world : ℕ → Deposit) (n : ℕ) (ps : List BatchDepositPool) (b : BatchState)
    (r : BatchDepositResult)
    → All (Due ps) b.items
    → All (Due []) (deposit_all world n ps b r).0.items
unfolding deposit_all
deposit_all-Due world n [] b r h = h
deposit_all-Due world n (p ∷ ps) b r h =
    let step = deposit_one (world n) p b r in
    deposit_all-Due world (suc n) ps step.0 step.1 (deposit_one-Due p ps (world n) b r h)

str_eq_self : (s : String) → str_eq s s ≡ true
str_eq_self s = (eq_iff s s).1 refl

planned-owed : (ps : List BatchDepositPool) → All (λ p. any (λ q. str_eq p.id q.id) ps ≡ true) ps
planned-owed [] = tt
planned-owed (p ∷ ps) = (
  ap (λ t. t || any (λ q. str_eq p.id q.id) ps) (str_eq_self p.id),
  All-weaken ps (λ q e. ap (λ t. str_eq q.id p.id || t) e ∙ or_true (str_eq q.id p.id))
      (planned-owed ps),
)

planned-Due :
    (all ps : List BatchDepositPool)
    → All (λ p. any (λ q. str_eq p.id q.id) all ≡ true) ps
    → All (Due all) (map planned_item ps)
planned-Due all [] h = tt
planned-Due all (p ∷ ps) (e, h) = (e, planned-Due all ps h)

-- the items that have settled
abbrev pub AllTerminal : List BatchDepositItem → Type 0
AllTerminal xs = All (λ x. is_terminal x.status ≡ true) xs

all_done :
    (xs : List BatchDepositItem) → AllTerminal xs → count (λ x. is_terminal x.status) xs ≡ length xs
all_done [] h = refl
all_done (x ∷ xs) (t, h) = ground (arith, all_done xs h)

terminal_rests : (s : BatchItemStatus) → is_terminal s ≡ true → in_flight s ≡ false
terminal_rests pending h = absurd (cc)
terminal_rests signing h = absurd (cc)
terminal_rests submitted h = absurd (cc)
terminal_rests confirmed h = refl
terminal_rests failed h = refl
terminal_rests cancelled h = refl

none_active : (n : ℕ) (xs : List BatchDepositItem) → AllTerminal xs → active_from n xs ≡ none
none_active n [] h = refl
none_active n (x ∷ xs) (t, h) =
    ap (λ b. if b then some n else active_from (suc n) xs) (terminal_rests x.status t)
    ∙ none_active (suc n) xs h

from_Due : (xs : List BatchDepositItem) → All (Due []) xs → AllTerminal xs
from_Due [] h = tt
from_Due (x ∷ xs) (d, h) = (sym (or_false (is_terminal x.status)) ∙ d, from_Due xs h)

-- With a wallet, and with items kept that have settled, a run of deposits leaves every item confirmed,
-- failed or cancelled, whatever the wallet, the network and the user did meanwhile: the progress says
-- that all is done and that no deposit is in flight, and the state is ready for another run.
pub submit_batch_deposit-AllTerminal :
    (w : Wallet) (world : ℕ → Deposit) (plan : BatchDepositPlan) (retain : List BatchDepositItem)
    (b : BatchState)
    → w.has_address ≡ true
    → w.has_kit ≡ true
    → AllTerminal retain
    → let after = (submit_batch_deposit w world plan retain b).1 in
      let progress = compute_progress after.items in
      AllTerminal after.items
      × (after.is_submitting ≡ false)
      × (after.stops ≡ false)
      × (progress.done ≡ progress.total)
      × (progress.current_index ≡ none)
unfolding run_batch compute_progress
submit_batch_deposit-AllTerminal w world plan retain b address kit h =
    let ordered = flat plan.batches in
    let start = record b {
      items = retain ++ map planned_item ordered;
      is_submitting = true;
      stops = false;
    } in
    let final = (deposit_all world 0 ordered start no_result).0 in
    let due =
      All-append (Due ordered) retain (map planned_item ordered)
        (All-weaken retain (Due-terminal ordered) h)
        (planned-Due ordered ordered (planned-owed ordered)) in
    let ends = from_Due final.items (deposit_all-Due world 0 ordered start no_result due) in
    rw (submit_batch_deposit-run w world plan retain b address kit)
      (ends, refl, refl, all_done final.items ends, none_active 1 final.items ends)
