-- ===== src/BatchDeposit/Run.antt =====
-- A run of deposits (frontend/hooks/useBatchDeposit.ts): one transaction for each pool, in order. What
-- the wallet, the network and the user do during each deposit is a `Deposit`. Runs do not overlap.
use joint_save.Prelude.{
  ℕ, suc, String, Bool, true, false, ◌&&◌, ◌||◌, Option, none, some, List, [], ◌∷◌, ◌++◌,
  if◌then◌else◌, map, filter, length,
}
use joint_save.Prelude.Text.{str_eq}
use joint_save.BatchDeposit.Pools.{
  max_tx_per_batch, BatchDepositPool, BatchItemStatus, pending, signing, submitted, confirmed,
  failed, cancelled, BatchDepositItem, is_confirmed, is_failed, chunk, describe_split,
}
use joint_save.BatchDeposit.Chunks.{flat}

pub record Wallet : Type 0 where
  pub has_address : Bool
  pub has_kit : Bool

pub data Press : Type 0 where
  cancel reset : Press

-- what can happen before `submitTx` settles
pub data Happening : Type 0 where
  signing_phase : Happening
  submitted_phase : Option String → Happening
  presses : Press → Happening

-- How `submitTx` settles: with a hash, and with what is pressed until `logDepositActivity` is done,
-- which swallows its own failure; or with an error, which may come before anything is broadcast (the
-- user declines to sign).
pub data DepositOutcome : Type 0 where
  goes_through : String → List Press → DepositOutcome
  throws : String → DepositOutcome

pub record Deposit : Type 0 where
  pub during : List Happening
  pub outcome : DepositOutcome

pub record BatchDepositPlan : Type 0 where
  pub batches : List (List BatchDepositPool)
  pub total_transactions : ℕ
  pub split_message : Option ℕ

pub record BatchDepositResult : Type 0 where
  pub confirmed_ids : List String
  pub failed_ids : List String
  pub cancelled_ids : List String

-- The state of the hook, with the calls of `submitTx` and of `logDepositActivity` so far. A call is
-- counted whether or not a transaction is broadcast, or an entry of the log written.
pub record BatchState : Type 0 where
  pub items : List BatchDepositItem
  pub is_submitting : Bool
  pub stops : Bool
  pub submit_calls : List String
  pub log_calls : List (String × String)

abbrev pub update_item :
    String
    → BatchItemStatus
    → (BatchDepositItem → BatchDepositItem)
    → BatchDepositItem
    → BatchDepositItem
update_item i s extra x = if str_eq x.pool.id i then extra (record x { status = s }) else x

abbrev pub set_item_status :
    String → BatchItemStatus → (BatchDepositItem → BatchDepositItem) → BatchState → BatchState
set_item_status i s extra b = record b { items = map (update_item i s extra) b.items }

abbrev pub no_extra : BatchDepositItem → BatchDepositItem
no_extra x = x

abbrev pub press : Press → BatchState → BatchState
press cancel b = record b { stops = true }
press reset b = record b { items = [] }

abbrev pub press_all : List Press → BatchState → BatchState
press_all [] b = b
press_all (p ∷ ps) b = press_all ps (press p b)

-- `onPhase` of a deposit, and the presses meanwhile
abbrev pub happen : String → Happening → BatchState → BatchState
happen i signing_phase b = set_item_status i signing no_extra b
happen i (submitted_phase h) b = set_item_status i submitted (λ x. record x { tx_hash = h }) b
happen i (presses p) b = press p b

abbrev pub happen_all : String → List Happening → BatchState → BatchState
happen_all i [] b = b
happen_all i (h ∷ hs) b = happen_all i hs (happen i h b)

unfoldable pub settle :
    String → DepositOutcome → BatchState → BatchDepositResult → BatchState × BatchDepositResult
settle i (goes_through hash ps) b r =
    let done =
      set_item_status i confirmed (λ x. record x { tx_hash = some hash; error = none }) b in
    (
      press_all ps (record done { log_calls = (i, hash) ∷ done.log_calls }),
      record r { confirmed_ids = r.confirmed_ids ++ (i ∷ []) },
    )
settle i (throws e) b r = (
  set_item_status i failed (λ x. record x { error = some e }) b,
  record r { failed_ids = r.failed_ids ++ (i ∷ []) },
)

-- a deposit that is attempted, and one that is not
abbrev pub attempt :
    Deposit → BatchDepositPool → BatchState → BatchDepositResult → BatchState × BatchDepositResult
attempt w p b r =
    settle p.id w.outcome
      (happen_all p.id w.during (record b { submit_calls = p.id ∷ b.submit_calls })) r

abbrev pub pass_over :
    BatchDepositPool → BatchState → BatchDepositResult → BatchState × BatchDepositResult
pass_over p b r = (
  set_item_status p.id cancelled no_extra b,
  record r { cancelled_ids = r.cancelled_ids ++ (p.id ∷ []) },
)

-- the body of the loop
unfoldable pub deposit_one :
    Deposit → BatchDepositPool → BatchState → BatchDepositResult → BatchState × BatchDepositResult
deposit_one w p b r = if b.stops then pass_over p b r else attempt w p b r

unfoldable pub deposit_all :
    (ℕ → Deposit)
    → ℕ
    → List BatchDepositPool
    → BatchState
    → BatchDepositResult
    → BatchState × BatchDepositResult
deposit_all world n [] b r = (b, r)
deposit_all world n (p ∷ ps) b r =
    let (after, so_far) = deposit_one (world n) p b r in deposit_all world (suc n) ps after so_far

abbrev pub planned_item : BatchDepositPool → BatchDepositItem
planned_item p = record { pool = p; status = pending; tx_hash = none; error = none }

abbrev pub no_result : BatchDepositResult
no_result = record { confirmed_ids = []; failed_ids = []; cancelled_ids = [] }

-- `none` where it throws
unfoldable pub build_batch_deposit_tx : Wallet → List BatchDepositPool → Option BatchDepositPlan
build_batch_deposit_tx w selected =
    if w.has_address
    then elim (chunk selected max_tx_per_batch) [
      | none ↦ none
      | some batches ↦ some (record {
        batches = batches;
        total_transactions = length selected;
        split_message = describe_split (length batches);
      })
    ]
    else none

-- the run, once the wallet is there
unfoldable pub run_batch :
    (ℕ → Deposit)
    → List BatchDepositPool
    → List BatchDepositItem
    → BatchState
    → Option BatchDepositResult × BatchState
run_batch world ordered retain b =
    let start = record b {
      items = retain ++ map planned_item ordered;
      is_submitting = true;
      stops = false;
    } in
    let (final, r) = deposit_all world 0 ordered start no_result in
    (some r, record final { is_submitting = false; stops = false })

unfoldable pub submit_batch_deposit :
    Wallet
    → (ℕ → Deposit)
    → BatchDepositPlan
    → List BatchDepositItem
    → BatchState
    → Option BatchDepositResult × BatchState
submit_batch_deposit w world plan retain b =
    if w.has_address && w.has_kit then run_batch world (flat plan.batches) retain b else (none, b)

abbrev pub is_cancelled : BatchItemStatus → Bool
is_cancelled cancelled = true
is_cancelled _ = false

abbrev pub needs_retry : BatchDepositItem → Bool
needs_retry x = is_failed x.status || is_cancelled x.status

pub data RetryResult : Type 0 where
  nothing_to_retry retry_throws : RetryResult
  retried : BatchDepositResult → RetryResult

abbrev pub retry_result : Option BatchDepositResult → RetryResult
retry_result none = retry_throws
retry_result (some r) = retried r

abbrev pub retry_plan :
    Wallet
    → (ℕ → Deposit)
    → Option BatchDepositPlan
    → List BatchDepositItem
    → BatchState
    → RetryResult × BatchState
retry_plan w world none succeeded b = (retry_throws, b)
retry_plan w world (some plan) succeeded b =
    let (r, after) = submit_batch_deposit w world plan succeeded b in (retry_result r, after)

abbrev pub retry_items :
    Wallet
    → (ℕ → Deposit)
    → List BatchDepositItem
    → List BatchDepositItem
    → BatchState
    → RetryResult × BatchState
retry_items w world [] succeeded b = (nothing_to_retry, b)
retry_items w world (x ∷ xs) succeeded b =
    retry_plan w world (build_batch_deposit_tx w (map (λ y. y.pool) (x ∷ xs))) succeeded b

unfoldable pub retry_failed : Wallet → (ℕ → Deposit) → BatchState → RetryResult × BatchState
retry_failed w world b =
    retry_items w world (filter needs_retry b.items) (filter (λ x. is_confirmed x.status) b.items) b
