-- ===== src/SignQueue/Steps.antt =====
-- New requests, and the invariant over any events (frontend/lib/tx-queue.ts).
use joint_save.Prelude.{
  ℕ, suc, Bool, true, false, List, [], ◌∷◌, ◌++◌, ◌+◌, ◌||◌, ◌≡◌, ◌≤◌, ◌<◌, refl, arith, inl, inr,
  Bool-cases, ◌==◌, length, All-weaken, All-append,
}
use joint_save.SignQueue.Machine.{
  Request, State, initial, is_settled, is_queued, drain, process_queue, enqueue_sign, Event,
  enqueues, answers, times_out, sets_kit, step, run,
}
use joint_save.SignQueue.Invariant.{Idle, Busy, Inv, Ready, drain-Inv}
use joint_save.SignQueue.Preserve.{answer-Inv, time_out-Inv, push-Increasing, queued-push}

abbrev pushed : Request → State → State
pushed r s = record s {
  queue = s.queue ++ record { id = s.next; request = r } ∷ [];
  next = suc s.next;
  badge = length s.queue + 1;
}

pushed-accounted :
    (r : Request) (s : State)
    → Inv s
    → (n : ℕ) → n < suc s.next
    → (is_settled n s.settled || is_queued n (pushed r s).queue) ≡ true
pushed-accounted r s v n h = elim (Bool-cases (s.next == n)) [
  | inl new ↦ ground (arith, queued-push s.queue (record { id = s.next; request = r }) n, new)
  | inr old ↦
      let h' : n < s.next = ground arith in
      ground (arith, queued-push s.queue (record { id = s.next; request = r }) n, v.accounted n h')
]

waiting_push-Inv : (r : Request) (s : State) → Inv s → Busy s → Inv (pushed r s)
waiting_push-Inv r s v p = record {
  ordered = push-Increasing s.queue _ v.ordered v.numbered;
  numbered =
      All-append (λ e. e.id < suc s.next) s.queue (record { id = s.next; request = r } ∷ [])
        (All-weaken s.queue (λ e h. omega arith) v.numbered) (omega arith, tt);
  in_turn = v.in_turn;
  once = v.once;
  accounted = pushed-accounted r s v;
  phase = inr (record {
    worker = p.worker;
    one_running = p.one_running;
    is_processing = p.is_processing;
    known = omega (arith, p.known);
    waiting_after =
        All-append (λ e. p.worker.id ≤ e.id) s.queue (record { id = s.next; request = r } ∷ [])
          p.waiting_after (omega (arith, p.known), tt);
    shown_until = p.shown_until;
  });
}

resting_push-Ready :
    (r : Request) (s : State)
    → Inv s
    → Idle s
    → Ready (pushed r s).queue (record (pushed r s) { processing = true })
resting_push-Ready r s v p = record {
  ordered = push-Increasing s.queue _ v.ordered v.numbered;
  numbered = rw p.none_waiting (omega arith, tt);
  fresh = rw p.none_waiting (p.shown_before, tt);
  shown_before = All-weaken s.shown (λ n h. omega arith) p.shown_before;
  in_turn = v.in_turn;
  once = v.once;
  accounted = pushed-accounted r s v;
  none_running = p.none_running;
  is_processing = refl;
}

process_queue_busy : (s : State) → s.processing ≡ true → process_queue s ≡ s
unfolding process_queue
process_queue_busy s h = ground arith

process_queue_idle :
    (s : State)
    → s.processing ≡ false
    → process_queue s ≡ drain s.queue (record s { processing = true })
unfolding process_queue
process_queue_idle s h = ground arith

enqueue_sign-Inv : (r : Request) (s : State) → Inv s → Inv (enqueue_sign r s)
unfolding enqueue_sign
enqueue_sign-Inv r s v = elim v.phase [
  | inl p ↦
      rw (process_queue_idle (pushed r s) p.not_processing)
        (drain-Inv _ _ (resting_push-Ready r s v p))
  | inr p ↦ rw (process_queue_busy (pushed r s) p.is_processing) (waiting_push-Inv r s v p)
]

kit-Inv : (k : Bool) (s : State) → Inv s → Inv (record s { kit = k })
kit-Inv k s v = record {
  ordered = v.ordered;
  numbered = v.numbered;
  in_turn = v.in_turn;
  once = v.once;
  accounted = v.accounted;
  phase = elim v.phase [
    | inl p ↦ inl (record {
      none_running = p.none_running;
      not_processing = p.not_processing;
      none_waiting = p.none_waiting;
      shown_before = p.shown_before;
    })
    | inr p ↦ inr (record {
      worker = p.worker;
      one_running = p.one_running;
      is_processing = p.is_processing;
      known = p.known;
      waiting_after = p.waiting_after;
      shown_until = p.shown_until;
    })
  ];
}

initial-Inv : Inv initial
initial-Inv = record {
  ordered = tt;
  numbered = tt;
  in_turn = tt;
  once = tt;
  accounted = λ n h. absurd (omega arith);
  phase = inl (record {
    none_running = refl;
    not_processing = refl;
    none_waiting = refl;
    shown_before = tt;
  });
}

-- Every event keeps the invariant: a new request, an answer of the wallet, a timeout, and the
-- registration or loss of the wallet kit.
pub step-Inv : (s : State) (e : Event) → Inv s → Inv (step s e)
unfolding step
step-Inv s (enqueues r) v = enqueue_sign-Inv r s v
step-Inv s (answers n o) v = answer-Inv n o s v
step-Inv s (times_out n) v = time_out-Inv n s v
step-Inv s (sets_kit k) v = kit-Inv k s v

run-Inv_from : (s : State) (es : List Event) → Inv s → Inv (run s es)
unfolding run
run-Inv_from s [] v = v
run-Inv_from s (e ∷ es) v = run-Inv_from (step s e) es (step-Inv s e v)

pub run-Inv : (es : List Event) → Inv (run initial es)
run-Inv es = run-Inv_from initial es initial-Inv
