-- ===== src/SignQueue/Preserve.antt =====
-- Every event keeps the invariant of the signing queue (frontend/lib/tx-queue.ts).
use joint_save.Prelude.{
  ℕ, true, List, [], ◌∷◌, ◌++◌, ◌||◌, ◌≡◌, ◌≤◌, ◌<◌, arith, ap, ◌∙◌, inl, inr, Bool-cases, ◌==◌,
  length, All, All-weaken, All-append, ==_iff,
}
use joint_save.SignQueue.Machine.{
  Entry, Outcome, timed_out, State, is_settled, is_queued, settle_entry, resumed, withdrawn,
  drop_front, remove, answer, time_out,
}
use joint_save.SignQueue.Invariant.{
  Increasing, Inv, Settles, settle_entry-Settles, Ready, drain-Inv,
}

All-drop_front : (P : Entry → Type 0) (n : ℕ) (q : List Entry) → All P q → All P (drop_front n q)
All-drop_front P n [] h = tt
All-drop_front P n (e ∷ rest) (p, h) = ground arith

drop_front-Increasing : (n : ℕ) (q : List Entry) → Increasing q → Increasing (drop_front n q)
drop_front-Increasing n [] h = tt
drop_front-Increasing n (e ∷ rest) (p, h) = ground arith

drop_front-after :
    (n : ℕ) (q : List Entry)
    → Increasing q
    → All (λ e. n ≤ e.id) q
    → All (λ e. n < e.id) (drop_front n q)
drop_front-after n [] h k = tt
drop_front-after n (e ∷ rest) (above, h) (le, k) = elim (Bool-cases (e.id == n)) [
  | inl same ↦ rw same (All-weaken rest (λ f lt. omega (arith, le)) above)
  | inr other ↦
      let lt : n < e.id = ground arith in
      rw other (lt, All-weaken rest (λ f below. omega (arith, lt)) above)
]

queued-drop_front :
    (n m : ℕ) (q : List Entry)
    → is_queued m q ≡ true
    → (n == m || is_queued m (drop_front n q)) ≡ true
queued-drop_front n m [] h = absurd (cc)
queued-drop_front n m (e ∷ rest) h = ground arith

All-remove : (P : Entry → Type 0) (n : ℕ) (q : List Entry) → All P q → All P (remove n q)
All-remove P n [] h = tt
All-remove P n (e ∷ rest) (p, h) = ground (arith, All-remove P n rest h)

remove-Increasing : (n : ℕ) (q : List Entry) → Increasing q → Increasing (remove n q)
remove-Increasing n [] h = tt
remove-Increasing n (e ∷ rest) (p, h) =
    ground (arith, All-remove (λ f. e.id < f.id) n rest p, remove-Increasing n rest h)

queued-remove :
    (n m : ℕ) (q : List Entry) → is_queued m q ≡ true → (n == m || is_queued m (remove n q)) ≡ true
queued-remove n m [] h = absurd (cc)
queued-remove n m (e ∷ rest) h = ground (arith, queued-remove n m rest)

-- the wallet's answer, to the run that awaits it
resumed-Ready :
    (n : ℕ) (o : Outcome) (s : State) (w : Entry)
    → Inv s
    → s.workers ≡ w ∷ []
    → s.processing ≡ true
    → w.id ≡ n
    → w.id < s.next
    → All (λ e. w.id ≤ e.id) s.queue
    → All (λ m. m ≤ w.id) s.shown
    → Ready (drop_front n s.queue) (resumed n (settle_entry n o s))
unfolding resumed
resumed-Ready n o s w v one on same known after until =
    let c = settle_entry-Settles n o s in
    record {
      ordered = drop_front-Increasing n s.queue v.ordered;
      numbered = rw c.same_next (All-drop_front (λ e. e.id < s.next) n s.queue v.numbered);
      fresh = rw c.same_shown (
          All-weaken (drop_front n s.queue) (λ e lt. All-weaken s.shown (λ m h. omega arith) until)
            (drop_front-after n s.queue v.ordered (All-weaken s.queue (λ e h. omega arith) after)));
      shown_before = rw (c.same_next, c.same_shown) (All-weaken s.shown (λ m h. omega arith) until);
      in_turn = rw c.same_shown v.in_turn;
      once = c.still_once v.once;
      accounted = λ m h.
          let h' : m < s.next = omega (arith, c.same_next) in
          ground (arith, v.accounted m h', c.keeps m, c.done, queued-drop_front n m s.queue);
      none_running = rw (c.same_workers, one, (==_iff w.id n).1 same);
      is_processing = c.same_processing ∙ on;
    }

pub answer-Inv : (n : ℕ) (o : Outcome) (s : State) → Inv s → Inv (answer n o s)
unfolding answer
answer-Inv n o s v = elim (Bool-cases (is_queued n s.workers)) [
  | inl awaited ↦ rw awaited (elim v.phase [
    | inl idle ↦ absurd (cc (ap (is_queued n) idle.none_running))
    | inr busy ↦
        let one = busy.one_running in
        let same : busy.worker.id ≡ n = ground (arith, rw one at awaited) in
        drain-Inv (drop_front n s.queue) (resumed n (settle_entry n o s)) (
          resumed-Ready n o s busy.worker v one busy.is_processing same busy.known
            busy.waiting_after busy.shown_until)
  ])
  | inr other ↦ rw other v
]

-- settling an entry, and nothing else
settled-Inv : (n : ℕ) (s t : State) → Inv s → Settles n s t → Inv t
settled-Inv n s t v c = record {
  ordered = rw c.same_queue v.ordered;
  numbered = rw (c.same_queue, c.same_next) v.numbered;
  in_turn = rw c.same_shown v.in_turn;
  once = c.still_once v.once;
  accounted = λ m h.
      let h' : m < s.next = omega (arith, c.same_next) in
      ground (arith, v.accounted m h', c.keeps m, ap (is_queued m) c.same_queue);
  phase = elim v.phase [
    | inl p ↦ inl (record {
      none_running = c.same_workers ∙ p.none_running;
      not_processing = c.same_processing ∙ p.not_processing;
      none_waiting = c.same_queue ∙ p.none_waiting;
      shown_before = rw (c.same_next, c.same_shown) p.shown_before;
    })
    | inr p ↦ inr (record {
      worker = p.worker;
      one_running = c.same_workers ∙ p.one_running;
      is_processing = c.same_processing ∙ p.is_processing;
      known = omega (arith, c.same_next, p.known);
      waiting_after = rw c.same_queue p.waiting_after;
      shown_until = rw c.same_shown p.shown_until;
    })
  ];
}

-- a settled entry leaves the queue
remove-Inv :
    (n badge : ℕ) (s : State)
    → Inv s
    → is_settled n s.settled ≡ true
    → Inv (record s { queue = remove n s.queue; badge = badge })
remove-Inv n badge s v done = record {
  ordered = remove-Increasing n s.queue v.ordered;
  numbered = All-remove (λ e. e.id < s.next) n s.queue v.numbered;
  in_turn = v.in_turn;
  once = v.once;
  accounted = λ m h. ground (arith, v.accounted m h, done, queued-remove n m s.queue);
  phase = elim v.phase [
    | inl p ↦ inl (record {
      none_running = p.none_running;
      not_processing = p.not_processing;
      none_waiting = ap (remove n) p.none_waiting;
      shown_before = p.shown_before;
    })
    | inr p ↦ inr (record {
      worker = p.worker;
      one_running = p.one_running;
      is_processing = p.is_processing;
      known = p.known;
      waiting_after = All-remove (λ e. p.worker.id ≤ e.id) n s.queue p.waiting_after;
      shown_until = p.shown_until;
    })
  ];
}

withdrawn-Inv : (n : ℕ) (s : State) → Inv s → is_settled n s.settled ≡ true → Inv (withdrawn n s)
unfolding withdrawn
withdrawn-Inv n s v done = elim (Bool-cases (is_queued n s.queue)) [
  | inl waiting ↦ rw waiting (remove-Inv n (length (remove n s.queue)) s v done)
  | inr gone ↦ rw gone v
]

pub time_out-Inv : (n : ℕ) (s : State) → Inv s → Inv (time_out n s)
unfolding time_out
time_out-Inv n s v =
    let c = settle_entry-Settles n timed_out s in
    ground (arith, v, withdrawn-Inv n (settle_entry n timed_out s) (settled-Inv n s _ v c) c.done)

-- a new request, at the end of the queue
pub push-Increasing :
    (q : List Entry) (e : Entry)
    → Increasing q
    → All (λ f. f.id < e.id) q
    → Increasing (q ++ e ∷ [])
push-Increasing [] e h k = (tt, tt)
push-Increasing (f ∷ rest) e (p, h) (lt, k) =
    (All-append (λ g. f.id < g.id) rest (e ∷ []) p (lt, tt), push-Increasing rest e h k)

pub queued-push :
    (q : List Entry) (e : Entry) (m : ℕ) → is_queued m (q ++ e ∷ []) ≡ (is_queued m q || e.id == m)
queued-push [] e m = ground arith
queued-push (f ∷ rest) e m = ground (arith, queued-push rest e m)
