-- ===== src/BatchDeposit/Pools.antt =====
-- The pure part of batch deposits (frontend/lib/batch-deposit.ts): the split into batches, the order
-- by urgency and the progress of a run. Amounts are doubles, and are left out with their totals.
use joint_save.Prelude.{
  ℕ, zero, suc, String, Bool, true, false, Option, none, some, List, [], ◌∷◌, ◌+◌, ◌*◌,
  if◌then◌else◌, ltb, leb, length, take, drop, count,
}
use joint_save.Prelude.Sort.{sort_by}

abbrev pub max_tx_per_batch : ℕ
max_tx_per_batch = 15

pub record BatchDepositPool : Type 0 where
  pub id : String
  pub name : String
  pub contract_address : String
  pub token_symbol : String
  pub round : ℕ
  pub deadline : Option ℕ

pub data BatchItemStatus : Type 0 where
  pending signing submitted confirmed failed cancelled : BatchItemStatus

pub record BatchDepositItem : Type 0 where
  pub pool : BatchDepositPool
  pub status : BatchItemStatus
  pub tx_hash : Option String
  pub error : Option String

abbrev pub is_terminal : BatchItemStatus → Bool
is_terminal pending = false
is_terminal signing = false
is_terminal submitted = false
is_terminal confirmed = true
is_terminal failed = true
is_terminal cancelled = true

abbrev pub is_confirmed : BatchItemStatus → Bool
is_confirmed confirmed = true
is_confirmed _ = false

abbrev pub is_failed : BatchItemStatus → Bool
is_failed failed = true
is_failed _ = false

abbrev pub in_flight : BatchItemStatus → Bool
in_flight signing = true
in_flight submitted = true
in_flight _ = false

module _ {ℓ} {A : Type ℓ} where
  -- the rounds of the loop, on `items.slice(i)`
  unfoldable pub chunk_rounds : ℕ → ℕ → List A → List (List A)
  chunk_rounds zero size xs = []
  chunk_rounds (suc n) size [] = []
  chunk_rounds (suc n) size (x ∷ xs) = take size (x ∷ xs) ∷ chunk_rounds n size (drop size (x ∷ xs))

  -- A round for each item is enough, as a batch has an item at least; `none` where it throws.
  unfoldable pub chunk : List A → ℕ → Option (List (List A))
  chunk xs size = if ltb size 1 then none else some (chunk_rounds (length xs) size xs)

-- the number of batches in the message, where there is one
abbrev pub describe_split : ℕ → Option ℕ
describe_split n = if leb n 1 then none else some n

pub data UrgencyLevel : Type 0 where
  overdue urgent soon normal unknown : UrgencyLevel

abbrev pub day_ms : ℕ
day_ms = 24 * (60 * 60 * 1000)

abbrev pub level_at : ℕ → ℕ → UrgencyLevel
level_at deadline now =
    if leb deadline 0
    then unknown
    else if leb deadline now
    then overdue
    else if ltb deadline (now + day_ms)
    then urgent
    else if ltb deadline (now + 3 * day_ms)
    then soon
    else normal

-- the `level`; its label and its colours are text
abbrev pub deposit_urgency : Option ℕ → ℕ → UrgencyLevel
deposit_urgency none now = unknown
deposit_urgency (some deadline) now = level_at deadline now

abbrev pub urgency_order : UrgencyLevel → ℕ
urgency_order overdue = 0
urgency_order urgent = 1
urgency_order soon = 2
urgency_order normal = 3
urgency_order unknown = 4

-- The comparison by deadline, then by name; `before_name` is `localeCompare`.
abbrev pub deadline_before : Bool → Option ℕ → Option ℕ → Bool
deadline_before names none none = names
deadline_before names none (some b) = false
deadline_before names (some a) none = true
deadline_before names (some a) (some b) = if ltb a b then true else if ltb b a then false else names

abbrev pub urgency_before :
    (String → String → Bool) → ℕ → BatchDepositPool → BatchDepositPool → Bool
urgency_before before_name now a b =
    let p = urgency_order (deposit_urgency a.deadline now) in
    let q = urgency_order (deposit_urgency b.deadline now) in
    if ltb p q
    then true
    else if ltb q p
    then false
    else deadline_before (before_name a.name b.name) a.deadline b.deadline

unfoldable pub sort_by_urgency :
    (String → String → Bool) → List BatchDepositPool → ℕ → List BatchDepositPool
sort_by_urgency before_name pools now = sort_by (urgency_before before_name now) pools

-- `findIndex` plus one
abbrev pub active_from : ℕ → List BatchDepositItem → Option ℕ
active_from n [] = none
active_from n (x ∷ xs) = if in_flight x.status then some n else active_from (suc n) xs

-- the label, with the numbers that go into it
pub data ProgressLabel : Type 0 where
  nothing_to_deposit : ProgressLabel
  depositing_to : ℕ → ℕ → ProgressLabel
  deposited_to : ℕ → ProgressLabel
  deposits_confirmed : ℕ → ℕ → ℕ → ProgressLabel
  preparing : ℕ → ProgressLabel

pub record BatchProgress : Type 0 where
  pub total : ℕ
  pub done : ℕ
  pub confirmed_count : ℕ
  pub failed_count : ℕ
  pub current_index : Option ℕ
  pub label : ProgressLabel

abbrev pub idle_label : ℕ → ℕ → ℕ → ℕ → ProgressLabel
idle_label total done confirmed_count failed_count =
    if ltb done total
    then preparing total
    else if leb failed_count 0
    then deposited_to total
    else deposits_confirmed confirmed_count total failed_count

abbrev pub progress_label : ℕ → ℕ → ℕ → ℕ → Option ℕ → ProgressLabel
progress_label zero done confirmed_count failed_count i = nothing_to_deposit
progress_label (suc n) done confirmed_count failed_count (some i) = depositing_to i (suc n)
progress_label (suc n) done confirmed_count failed_count none =
    idle_label (suc n) done confirmed_count failed_count

-- all but `percent`
unfoldable pub compute_progress : List BatchDepositItem → BatchProgress
compute_progress items =
    let done = count (λ x. is_terminal x.status) items in
    let c = count (λ x. is_confirmed x.status) items in
    let f = count (λ x. is_failed x.status) items in
    let i = active_from 1 items in
    record {
      total = length items;
      done = done;
      confirmed_count = c;
      failed_count = f;
      current_index = i;
      label = progress_label (length items) done c f i;
    }
