-- ===== src/SignQueue/Invariant.antt =====
-- What holds of the signing queue after any events (frontend/lib/tx-queue.ts).
use joint_save.Prelude.{
  ℕ, true, false, List, [], ◌∷◌, ◌||◌, ◌≡◌, ◌≤◌, ◌<◌, refl, arith, ◌⊎◌, ap, ◌∙◌, inl, inr, All,
  All-weaken,
}
use joint_save.SignQueue.Machine.{
  Entry, Outcome, no_kit, State, is_settled, is_queued, settle_entry, prompt, drain,
}

-- Numbers that grow along a queue, and numbers that fall along the list of what was shown.
abbrev pub Increasing : List Entry → Type 0
Increasing [] = Unit
Increasing (e ∷ rest) = All (λ f. e.id < f.id) rest × Increasing rest

abbrev pub Decreasing : List ℕ → Type 0
Decreasing [] = Unit
Decreasing (n ∷ rest) = All (λ m. m < n) rest × Decreasing rest

-- Nothing is settled twice.
abbrev pub SettledOnce : List (ℕ × Outcome) → Type 0
SettledOnce [] = Unit
SettledOnce ((n, o) ∷ rest) = (is_settled n rest ≡ false) × SettledOnce rest

-- Either no run of `processQueue` is under way, and then nothing waits; or exactly one is, it has
-- the last entry that was shown, and what waits came after.
pub record Idle (s : State) : Type 0 where
  pub none_running : s.workers ≡ []
  pub not_processing : s.processing ≡ false
  pub none_waiting : s.queue ≡ []
  pub shown_before : All (λ n. n < s.next) s.shown

pub record Busy (s : State) : Type 0 where
  pub worker : Entry
  pub one_running : s.workers ≡ worker ∷ []
  pub is_processing : s.processing ≡ true
  pub known : worker.id < s.next
  pub waiting_after : All (λ e. worker.id ≤ e.id) s.queue
  pub shown_until : All (λ n. n ≤ worker.id) s.shown

pub record Inv (s : State) : Type 0 where
  pub ordered : Increasing s.queue
  pub numbered : All (λ e. e.id < s.next) s.queue
  pub in_turn : Decreasing s.shown
  pub once : SettledOnce s.settled
  pub accounted : (n : ℕ) → n < s.next → (is_settled n s.settled || is_queued n s.queue) ≡ true
  pub phase : Idle s ⊎ Busy s

-- What settling an entry does to the state: nothing but to the list of outcomes.
pub record Settles (n : ℕ) (s t : State) : Type 0 where
  pub same_queue : t.queue ≡ s.queue
  pub same_next : t.next ≡ s.next
  pub same_shown : t.shown ≡ s.shown
  pub same_workers : t.workers ≡ s.workers
  pub same_processing : t.processing ≡ s.processing
  pub still_once : SettledOnce s.settled → SettledOnce t.settled
  pub keeps : (m : ℕ) → is_settled m s.settled ≡ true → is_settled m t.settled ≡ true
  pub done : is_settled n t.settled ≡ true

pub settle_entry-Settles : (n : ℕ) (o : Outcome) (s : State) → Settles n s (settle_entry n o s)
unfolding settle_entry
settle_entry-Settles n o s = record {
  same_queue = ground arith;
  same_next = ground arith;
  same_shown = ground arith;
  same_workers = ground arith;
  same_processing = ground arith;
  still_once = λ h. ground arith;
  keeps = λ m h. ground arith;
  done = ground arith;
}

-- what `drain` needs of the queue that it is handed
pub record Ready (q : List Entry) (s : State) : Type 0 where
  pub ordered : Increasing q
  pub numbered : All (λ e. e.id < s.next) q
  pub fresh : All (λ e. All (λ n. n < e.id) s.shown) q
  pub shown_before : All (λ n. n < s.next) s.shown
  pub in_turn : Decreasing s.shown
  pub once : SettledOnce s.settled
  pub accounted : (n : ℕ) → n < s.next → (is_settled n s.settled || is_queued n q) ≡ true
  pub none_running : s.workers ≡ []
  pub is_processing : s.processing ≡ true

prompt-Inv :
    (e : Entry) (rest : List Entry) (s : State) → Ready (e ∷ rest) s → Inv (prompt e rest s)
unfolding prompt
prompt-Inv e rest s r = record {
  ordered = r.ordered;
  numbered = r.numbered;
  in_turn = (r.fresh.0, r.in_turn);
  once = r.once;
  accounted = r.accounted;
  phase = inr (record {
    worker = e;
    one_running = ap (λ ws. e ∷ ws) r.none_running;
    is_processing = r.is_processing;
    known = r.numbered.0;
    waiting_after = (omega arith, All-weaken rest (λ f h. omega arith) r.ordered.0);
    shown_until = (omega arith, All-weaken s.shown (λ n h. omega arith) r.fresh.0);
  });
}

reject-Ready :
    (e : Entry) (rest : List Entry) (s : State)
    → Ready (e ∷ rest) s
    → Ready rest (settle_entry e.id no_kit s)
reject-Ready e rest s r =
    let c = settle_entry-Settles e.id no_kit s in
    record {
      ordered = r.ordered.1;
      numbered = rw c.same_next r.numbered.1;
      fresh = rw c.same_shown r.fresh.1;
      shown_before = rw (c.same_next, c.same_shown) r.shown_before;
      in_turn = rw c.same_shown r.in_turn;
      once = c.still_once r.once;
      accounted = λ n h.
          let h' : n < s.next = omega (arith, c.same_next) in
          ground (arith, r.accounted n h', c.keeps n, c.done);
      none_running = c.same_workers ∙ r.none_running;
      is_processing = c.same_processing ∙ r.is_processing;
    }

pub drain-Inv : (q : List Entry) (s : State) → Ready q s → Inv (drain q s)
unfolding drain
drain-Inv [] s r = record {
  ordered = tt;
  numbered = tt;
  in_turn = r.in_turn;
  once = r.once;
  accounted = r.accounted;
  phase = inl (record {
    none_running = r.none_running;
    not_processing = refl;
    none_waiting = refl;
    shown_before = r.shown_before;
  });
}
drain-Inv (e ∷ rest) s r = ground (
  arith,
  prompt-Inv e rest s r,
  drain-Inv rest (settle_entry e.id no_kit s) (reject-Ready e rest s r),
)
