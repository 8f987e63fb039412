-- ===== src/SignQueue/Machine.antt =====
-- The queue's state and the events that it reacts to (frontend/lib/tx-queue.ts). Between two events
-- the JavaScript runs to its next `await`, so each event is one step. An entry is known by the
-- number it got when it was queued; `settled` lists the promises that were resolved or rejected,
-- the last one first, and stands for the `settled` flags, since `settleEntry` is the only place
-- that sets a flag and calls `resolve` or `reject`. A timer that has not fired and was not cleared
-- is that of an entry that is not settled. Toasts are left out.
use joint_save.Prelude.{
  ℕ, suc, String, Bool, true, false, Option, List, [], ◌∷◌, ◌++◌, ◌+◌, ◌||◌, not, if◌then◌else◌,
  ◌==◌, ltb, length,
}

-- the arguments of `enqueueSign`
pub record Request : Type 0 where
  pub xdr : String
  pub network_passphrase : String
  pub address : Option String

pub record Entry : Type 0 where
  pub id : ℕ
  pub request : Request

pub data Outcome : Type 0 where
  signed : String → Outcome
  wallet_error : String → Outcome
  no_kit : Outcome
  timed_out : Outcome

-- `workers` holds, for each run of `processQueue` that has not ended, the entry whose
-- `signTransaction` it awaits; `shown` the entries that were handed to the wallet, the last one
-- first; `badge` the length that the listeners were last told.
pub record State : Type 0 where
  pub kit : Bool
  pub queue : List Entry
  pub processing : Bool
  pub workers : List Entry
  pub settled : List (ℕ × Outcome)
  pub next : ℕ
  pub shown : List ℕ
  pub badge : ℕ

abbrev pub initial : State
initial = record {
  kit = false;
  queue = [];
  processing = false;
  workers = [];
  settled = [];
  next = 0;
  shown = [];
  badge = 0;
}

abbrev pub is_settled : ℕ → List (ℕ × Outcome) → Bool
is_settled n [] = false
is_settled n ((m, o) ∷ rest) = m == n || is_settled n rest

abbrev pub is_queued : ℕ → List Entry → Bool
is_queued n [] = false
is_queued n (e ∷ rest) = e.id == n || is_queued n rest

unfoldable pub settle_entry : ℕ → Outcome → State → State
settle_entry n o s = if is_settled n s.settled then s else record s { settled = (n, o) ∷ s.settled }

-- `signTransaction` is called for the front of the queue, and awaited.
unfoldable pub prompt : Entry → List Entry → State → State
prompt e rest s = record s { queue = e ∷ rest; workers = e ∷ s.workers; shown = e.id ∷ s.shown }

-- The loop of `processQueue`, up to its `await` or its end, over the queue.
unfoldable pub drain : List Entry → State → State
drain [] s = record s { queue = []; processing = false }
drain (e ∷ rest) s = if s.kit then prompt e rest s else drain rest (settle_entry e.id no_kit s)

unfoldable pub process_queue : State → State
process_queue s = if s.processing then s else drain s.queue (record s { processing = true })

unfoldable pub enqueue_sign : Request → State → State
enqueue_sign r s = process_queue (record s {
  queue = s.queue ++ record { id = s.next; request = r } ∷ [];
  next = suc s.next;
  badge = length s.queue + 1;
})

-- `if (queue[0] === entry) queue.shift()`
abbrev pub drop_front : ℕ → List Entry → List Entry
drop_front n [] = []
drop_front n (e ∷ rest) = if e.id == n then rest else e ∷ rest

-- `queue.splice(queue.indexOf(entry), 1)`
abbrev pub remove : ℕ → List Entry → List Entry
remove n [] = []
remove n (e ∷ rest) = if e.id == n then rest else e ∷ remove n rest

abbrev pub drop_worker : ℕ → List Entry → List Entry
drop_worker n [] = []
drop_worker n (e ∷ rest) = if e.id == n then rest else e ∷ drop_worker n rest

-- What the run of `processQueue` does on from its `await`, to the next round of its loop.
unfoldable pub resumed : ℕ → State → State
resumed n s = record s {
  queue = drop_front n s.queue;
  workers = drop_worker n s.workers;
  badge = length (drop_front n s.queue);
}

-- The wallet answers: the run of `processQueue` that awaits entry `n` goes on.
unfoldable pub answer : ℕ → Outcome → State → State
answer n o s =
    if is_queued n s.workers
    then drain (drop_front n s.queue) (resumed n (settle_entry n o s))
    else s

-- A timed-out entry leaves the queue, if it is still there, and the listeners are told.
unfoldable pub withdrawn : ℕ → State → State
withdrawn n s =
    if is_queued n s.queue
    then record s { queue = remove n s.queue; badge = length (remove n s.queue) }
    else s

-- The timer of entry `n` fires.
unfoldable pub time_out : ℕ → State → State
time_out n s =
    if not (ltb n s.next) || is_settled n s.settled
    then s
    else withdrawn n (settle_entry n timed_out s)

pub data Event : Type 0 where
  enqueues : Request → Event
  answers : ℕ → Outcome → Event
  times_out : ℕ → Event
  sets_kit : Bool → Event

unfoldable pub step : State → Event → State
step s (enqueues r) = enqueue_sign r s
step s (answers n o) = answer n o s
step s (times_out n) = time_out n s
step s (sets_kit k) = record s { kit = k }

unfoldable pub run : State → List Event → State
run s [] = s
run s (e ∷ es) = run (step s e) es
