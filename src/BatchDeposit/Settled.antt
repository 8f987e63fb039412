-- ===== src/BatchDeposit/Settled.antt =====
-- What a run of deposits does with the pools that were selected (submitBatchDeposit of
-- frontend/hooks/useBatchDeposit.ts).
use joint_save.Prelude.{
  ℕ, suc, String, true, false, none, some, List, [], ◌∷◌, ◌++◌, ◌+◌, if◌then◌else◌, map, ◌≡◌, refl,
  arith, ◌⊎◌, Bool-cases, inl, inr, ap,
}
use joint_save.Prelude.Text.{times}
use joint_save.BatchDeposit.Pools.{BatchDepositPool, confirmed, BatchDepositItem}
use joint_save.BatchDeposit.Chunks.{flat}
use joint_save.BatchDeposit.Run.{
  Wallet, Press, cancel, reset, Happening, signing_phase, submitted_phase, presses, DepositOutcome,
  goes_through, throws, Deposit, BatchDepositPlan, BatchDepositResult, BatchState, set_item_status,
  press, press_all, happen, happen_all, settle, attempt, pass_over, deposit_one, deposit_all,
  planned_item, no_result, run_batch, submit_batch_deposit,
}

pub times-append : (i : String) (xs ys : List String) → times i (xs ++ ys) ≡ times i xs + times i ys
times-append i [] ys = omega arith
times-append i (x ∷ xs) ys = omega (arith, times-append i xs ys)

-- the pools' ids
abbrev pub ids : List BatchDepositPool → List String
ids ps = map (λ p. p.id) ps

-- how many of the deposits of a result were to the pool and were attempted
abbrev pub attempts : String → BatchDepositResult → ℕ
attempts i r = times i r.confirmed_ids + times i r.failed_ids

press_all-keeps :
    (ps : List Press) (b : BatchState)
    → ((press_all ps b).submit_calls ≡ b.submit_calls) × ((press_all ps b).log_calls ≡ b.log_calls)
press_all-keeps [] b = (refl, refl)
press_all-keeps (cancel ∷ ps) b = press_all-keeps ps (press cancel b)
press_all-keeps (reset ∷ ps) b = press_all-keeps ps (press reset b)

happen_all-keeps :
    (i : String) (hs : List Happening) (b : BatchState)
    → ((happen_all i hs b).submit_calls ≡ b.submit_calls)
      × ((happen_all i hs b).log_calls ≡ b.log_calls)
happen_all-keeps i [] b = (refl, refl)
happen_all-keeps i (signing_phase ∷ hs) b = happen_all-keeps i hs (happen i signing_phase b)
happen_all-keeps i (submitted_phase h ∷ hs) b =
    happen_all-keeps i hs (happen i (submitted_phase h) b)
happen_all-keeps i (presses cancel ∷ hs) b = happen_all-keeps i hs (press cancel b)
happen_all-keeps i (presses reset ∷ hs) b = happen_all-keeps i hs (press reset b)

-- what a step adds for the pool `i`: to the result and to the calls
abbrev pub Adds :
    String → ℕ → BatchState × BatchDepositResult → BatchState × BatchDepositResult → Type 0
Adds i n (b, r) (c, s) =
    (attempts i s + times i s.cancelled_ids ≡ attempts i r + times i r.cancelled_ids + n)
    × (times i c.submit_calls + attempts i r ≡ times i b.submit_calls + attempts i s)
    × (times i (map (λ x. x.0) c.log_calls) + times i r.confirmed_ids
        ≡ times i (map (λ x. x.0) b.log_calls) + times i s.confirmed_ids)

settle_lem :
    (i j : String) (o : DepositOutcome) (b : BatchState) (r : BatchDepositResult)
    → ((settle j o b r).0.submit_calls ≡ b.submit_calls)
      × (attempts i (settle j o b r).1 ≡ attempts i r + times i (j ∷ []))
      × ((settle j o b r).1.cancelled_ids ≡ r.cancelled_ids)
      × (times i (map (λ x. x.0) (settle j o b r).0.log_calls) + times i r.confirmed_ids
          ≡ times i (map (λ x. x.0) b.log_calls) + times i (settle j o b r).1.confirmed_ids)
unfolding settle
settle_lem i j (goes_through hash ps) b r =
    let (kept, log) =
      press_all-keeps ps
        (record (set_item_status j confirmed (λ x. record x { tx_hash = some hash; error = none })
          b) { log_calls = (j, hash) ∷ b.log_calls }) in
    let more = times-append i r.confirmed_ids (j ∷ []) in
    (kept, omega arith, refl, rw log (omega arith))
settle_lem i j (throws e) b r =
    let more = times-append i r.failed_ids (j ∷ []) in (refl, omega arith, refl, refl)

pub deposit_one-cases :
    (w : Deposit) (p : BatchDepositPool) (b : BatchState) (r : BatchDepositResult)
    → (deposit_one w p b r ≡ pass_over p b r) ⊎ (deposit_one w p b r ≡ attempt w p b r)
unfolding deposit_one
deposit_one-cases w p b r = elim (Bool-cases b.stops) [
  | inl e ↦ inl (ap (λ t. if t then pass_over p b r else attempt w p b r) e)
  | inr e ↦ inr (ap (λ t. if t then pass_over p b r else attempt w p b r) e)
]

attempt-Adds :
    (i : String) (w : Deposit) (p : BatchDepositPool) (b : BatchState) (r : BatchDepositResult)
    → Adds i (times i (p.id ∷ [])) (b, r) (attempt w p b r)
attempt-Adds i w p b r =
    let before = record b { submit_calls = p.id ∷ b.submit_calls } in
    let (kept, log) = happen_all-keeps p.id w.during before in
    let (subs, tries, given, logs) =
      settle_lem i p.id w.outcome (happen_all p.id w.during before) r in
    (
      omega (arith, tries, ap (times i) given),
      omega (arith, tries, ap (times i) subs, ap (times i) kept),
      omega (arith, logs, ap (λ l. times i (map (λ x. x.0) l)) log),
    )

deposit_one-Adds :
    (i : String) (w : Deposit) (p : BatchDepositPool) (b : BatchState) (r : BatchDepositResult)
    → Adds i (times i (p.id ∷ [])) (b, r) (deposit_one w p b r)
deposit_one-Adds i w p b r = elim (deposit_one-cases w p b r) [
  | inl e ↦ rw e (omega (arith, times-append i r.cancelled_ids (p.id ∷ [])), refl, refl)
  | inr e ↦ rw e (attempt-Adds i w p b r)
]

deposit_all-Adds :
    (i : String) (world : ℕ → Deposit) (n : ℕ) (ps : List BatchDepositPool) (b : BatchState)
    (r : BatchDepositResult)
    → Adds i (times i (ids ps)) (b, r) (deposit_all world n ps b r)
unfolding deposit_all
deposit_all-Adds i world n [] b r = (omega arith, refl, refl)
deposit_all-Adds i world n (p ∷ ps) b r =
    let (one, two, three) = deposit_one-Adds i (world n) p b r in
    let step = deposit_one (world n) p b r in
    let (four, five, six) = deposit_all-Adds i world (suc n) ps step.0 step.1 in
    (omega arith, omega arith, omega arith)

pub submit_batch_deposit-run :
    (w : Wallet) (world : ℕ → Deposit) (plan : BatchDepositPlan) (retain : List BatchDepositItem)
    (b : BatchState)
    → w.has_address ≡ true
    → w.has_kit ≡ true
    → submit_batch_deposit w world plan retain b ≡ run_batch world (flat plan.batches) retain b
unfolding submit_batch_deposit
submit_batch_deposit-run w world plan retain b address kit = ground arith

-- With a wallet, and where every deposit settles, a run ends with a result. It accounts for every pool
-- of the plan as often as the plan has it, as confirmed, failed or cancelled; `submitTx` is called
-- once for each that was confirmed or failed and never for one that was cancelled; and
-- `logDepositActivity` is called once for each that was confirmed.
pub submit_batch_deposit_accounts :
    (w : Wallet) (world : ℕ → Deposit) (plan : BatchDepositPlan) (retain : List BatchDepositItem)
    (b : BatchState) (i : String)
    → w.has_address ≡ true
    → w.has_kit ≡ true
    → (r : BatchDepositResult) × ((submit_batch_deposit w world plan retain b).0 ≡ some r)
      × (attempts i r + times i r.cancelled_ids ≡ times i (ids (flat plan.batches)))
      × (times i (submit_batch_deposit w world plan retain b).1.submit_calls
          ≡ times i b.submit_calls + attempts i r)
      × (times i (map (λ x. x.0) (submit_batch_deposit w world plan retain b).1.log_calls)
          ≡ times i (map (λ x. x.0) b.log_calls) + times i r.confirmed_ids)
unfolding run_batch
submit_batch_deposit_accounts w world plan retain b i address kit =
    let ordered = flat plan.batches in
    let start = record b {
      items = retain ++ map planned_item ordered;
      is_submitting = true;
      stops = false;
    } in
    let (one, two, three) = deposit_all-Adds i world 0 ordered start no_result in
    rw (submit_batch_deposit-run w world plan retain b address kit)
      ((deposit_all world 0 ordered start no_result).1, refl, omega arith, omega arith, omega arith)
