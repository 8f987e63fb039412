-- ===== src/Optimistic/Manager.antt =====
-- `OptimisticTransactionManager` (frontend/hooks/useOptimisticTransactions.ts) as a state machine: each
-- event runs to the next `await`. A transaction is an object that the map, the requests in flight and
-- the subscribers share, so it has an address, and `objects` tells what it is now.
use joint_save.Prelude.{
  ℕ, zero, suc, String, Bool, true, false, not, Option, none, some, List, [], ◌∷◌, ◌++◌, ◌&&◌,
  if◌then◌else◌, ◌==◌, ltb, filter, any,
}
use joint_save.Prelude.Int.{ℤ}
use joint_save.Prelude.Text.{str_eq}

pub data TxKind : Type 0 where
  deposit withdraw trigger_payout : TxKind

pub data TxStatus : Type 0 where
  pending confirmed failed : TxStatus

pub record PendingTransaction : Type 0 where
  pub id : String
  pub type : TxKind
  pub pool_address : String
  pub user_address : String
  pub amount : Option ℤ
  pub timestamp : ℕ
  pub status : TxStatus
  pub tx_hash : Option String
  pub error : Option String

-- a timeout that will call `pollTransaction`
pub record Timer : Type 0 where
  pub handle : ℕ
  pub tx_id : String
  pub attempt : ℕ

-- a call of `getTransaction` that is awaited, with the object that was looked up before it
pub record Asked : Type 0 where
  pub tx_id : String
  pub object : ℕ
  pub attempt : ℕ

-- what the subscribers of an id are told; they get the object
pub record Notice : Type 0 where
  pub tx_id : String
  pub status : TxStatus
  pub object : ℕ

-- `next` is the next address, `next_handle` the next timeout, and `heard` has the last notice first.
pub record State : Type 0 where
  pub objects : ℕ → PendingTransaction
  pub next : ℕ
  pub pending_transactions : List (String × ℕ)
  pub timers : List Timer
  pub poll_intervals : List (String × ℕ × ℕ)
  pub next_handle : ℕ
  pub asking : List Asked
  pub heard : List Notice

abbrev pub initial : PendingTransaction → State
initial blank = record {
  objects = λ o. blank;
  next = 0;
  pending_transactions = [];
  timers = [];
  poll_intervals = [];
  next_handle = 0;
  asking = [];
  heard = [];
}

-- `Map.get`, `Map.set` and `Map.delete`
abbrev pub address_of : String → List (String × ℕ) → Option ℕ
address_of i [] = none
address_of i ((j, o) ∷ m) = if str_eq j i then some o else address_of i m

abbrev pub set_address : String → ℕ → List (String × ℕ) → List (String × ℕ)
set_address i o [] = (i, o) ∷ []
set_address i o ((j, p) ∷ m) = if str_eq j i then (j, o) ∷ m else (j, p) ∷ set_address i o m

abbrev pub delete_address : String → List (String × ℕ) → List (String × ℕ)
delete_address i [] = []
delete_address i ((j, o) ∷ m) =
    if str_eq j i then delete_address i m else (j, o) ∷ delete_address i m

abbrev pub put : ℕ → PendingTransaction → (ℕ → PendingTransaction) → ℕ → PendingTransaction
put o tx objects p = if p == o then tx else objects p

abbrev pub notify : String → TxStatus → ℕ → List Notice → List Notice
notify i st o heard = record { tx_id = i; status = st; object = o } ∷ heard

-- the caller's object is new
unfoldable pub register_pending : PendingTransaction → State → State
register_pending tx s = record s {
  objects = put s.next tx s.objects;
  next = suc s.next;
  pending_transactions = set_address tx.id s.next s.pending_transactions;
  heard = notify tx.id pending s.next s.heard;
}

-- a hash that is there and not empty
abbrev pub has_hash : PendingTransaction → Bool
has_hash tx = elim tx.tx_hash [ none ↦ false | some h ↦ not (str_eq h "") ]

abbrev pub is_pending : TxStatus → Bool
is_pending pending = true
is_pending _ = false

-- `pollTransaction`, to the `await` of its request
unfoldable pub poll_transaction : String → ℕ → State → State
poll_transaction i attempt s = elim (address_of i s.pending_transactions) [
  | none ↦ s
  | some o ↦
      if has_hash (s.objects o) && is_pending (s.objects o).status
      then record s {
        asking = s.asking ++ (record { tx_id = i; object = o; attempt = attempt } ∷ []);
      }
      else s
]

unfoldable pub hashed : String → ℕ → String → State → State
hashed i o hash s = record s {
  objects = put o (record (s.objects o) { tx_hash = some hash; status = pending }) s.objects;
  heard = notify i pending o s.heard;
}

unfoldable pub set_pending_tx_hash : String → String → State → State
unfolding hashed poll_transaction
set_pending_tx_hash i hash s = elim (address_of i s.pending_transactions) [
  | none ↦ s
  | some o ↦ poll_transaction i 0 (hashed i o hash s)
]

-- the end of a transaction: the object is changed, its subscribers are told, the id is dropped
unfoldable pub settle_tx : String → ℕ → TxStatus → Option String → State → State
settle_tx i o st error s = record s {
  objects = put o (record (s.objects o) { status = st; error = error }) s.objects;
  heard = notify i st o s.heard;
  pending_transactions = delete_address i s.pending_transactions;
}

-- what `getTransaction` gives; a thrown error comes with its message
pub data Answer : Type 0 where
  success : Answer
  on_chain_failure : Answer
  not_found : Answer
  throws : String → Answer

-- `Map.set` of a timeout under the id and the attempt
abbrev pub set_interval : String → ℕ → ℕ → List (String × ℕ × ℕ) → List (String × ℕ × ℕ)
set_interval i n h [] = (i, n, h) ∷ []
set_interval i n h ((j, m, k) ∷ rest) =
    if str_eq j i && (m == n) then (j, m, h) ∷ rest else (j, m, k) ∷ set_interval i n h rest

unfoldable pub schedule : String → ℕ → State → State
schedule i attempt s = record s {
  timers = s.timers ++ (record { handle = s.next_handle; tx_id = i; attempt = suc attempt } ∷ []);
  poll_intervals = set_interval i attempt s.next_handle s.poll_intervals;
  next_handle = suc s.next_handle;
}

-- `pollTransaction`, from its answer
unfoldable pub answered : Asked → Answer → State → State
unfolding settle_tx schedule
answered a success s = settle_tx a.tx_id a.object confirmed (s.objects a.object).error s
answered a on_chain_failure s =
    settle_tx a.tx_id a.object failed (some "Transaction failed on-chain") s
answered a not_found s =
    if ltb a.attempt 30
    then schedule a.tx_id a.attempt s
    else settle_tx a.tx_id a.object failed (some "Transaction confirmation timeout") s
answered a (throws m) s = settle_tx a.tx_id a.object failed (some m) s

unfoldable pub mark_failed : String → String → State → State
unfolding settle_tx
mark_failed i error s = elim (address_of i s.pending_transactions) [
  | none ↦ s
  | some o ↦ settle_tx i o failed (some error) s
]

abbrev pub is_listed : List (String × ℕ × ℕ) → Timer → Bool
is_listed intervals t = any (λ p. p.2 == t.handle) intervals

unfoldable pub cleanup : State → State
cleanup s = record s {
  timers = filter (λ t. not (is_listed s.poll_intervals t)) s.timers;
  poll_intervals = [];
}

-- the element at a position, and the others
abbrev pub beside {ℓ} : {A : Type ℓ} → A → Option (A × List A) → Option (A × List A)
beside x none = none
beside x (some (y, ys)) = some (y, x ∷ ys)

abbrev pub pick {ℓ} : {A : Type ℓ} → ℕ → List A → Option (A × List A)
pick n [] = none
pick zero (x ∷ xs) = some (x, xs)
pick (suc n) (x ∷ xs) = beside x (pick n xs)

unfoldable pub fire_at : ℕ → State → State
unfolding poll_transaction
fire_at n s = elim (pick n s.timers) [
  | none ↦ s
  | some (t, rest) ↦ poll_transaction t.tx_id t.attempt (record s { timers = rest })
]

unfoldable pub answer_at : ℕ → Answer → State → State
unfolding answered
answer_at n a s = elim (pick n s.asking) [
  | none ↦ s
  | some (r, rest) ↦ answered r a (record s { asking = rest })
]

-- what happens: calls of the manager, a timeout that fires, a request that is answered
pub data Event : Type 0 where
  registers : PendingTransaction → Event
  hashes : String → String → Event
  marks_failed : String → String → Event
  fires : ℕ → Event
  answers : ℕ → Answer → Event
  cleans : Event

unfoldable pub step : State → Event → State
step s (registers tx) = register_pending tx s
step s (hashes i h) = set_pending_tx_hash i h s
step s (marks_failed i m) = mark_failed i m s
step s (fires n) = fire_at n s
step s (answers n a) = answer_at n a s
step s cleans = cleanup s

unfoldable pub run : State → List Event → State
unfolding step
run s [] = s
run s (e ∷ es) = run (step s e) es
