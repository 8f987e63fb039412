-- ===== src/Optimistic/Polling.antt =====
-- How long the manager polls (frontend/hooks/useOptimisticTransactions.ts).
use joint_save.Prelude.{
  ℕ, suc, String, Bool, not, List, [], ◌∷◌, ◌++◌, ◌+◌, ◌-◌, ◌*◌, ◌≡◌, ◌≤◌, arith, if◌then◌else◌,
  filter, inl, inr, Option-cases, is_some,
}
use joint_save.Prelude.Sort.{sum_by}
use joint_save.Optimistic.Picking.{sum_by-pick}
use joint_save.Optimistic.Manager.{
  Timer, Asked, State, address_of, register_pending, poll_transaction, hashed, set_pending_tx_hash,
  settle_tx, Answer, success, on_chain_failure, not_found, throws, schedule, answered, mark_failed,
  is_listed, cleanup, pick, fire_at, answer_at, Event, registers, hashes, marks_failed, fires,
  answers, cleans, step, run,
}

-- how many events a timeout and a request can still bring
abbrev timer_work : Timer → ℕ
timer_work t = 2 * (30 - t.attempt) + 2

abbrev asked_work : Asked → ℕ
asked_work a = 2 * (30 - a.attempt) + 1

abbrev pub work : State → ℕ
work s = sum_by timer_work s.timers + sum_by asked_work s.asking

-- the events that go on with polling, and those that start it
abbrev pub polls : State → Event → ℕ
polls s (fires n) = if is_some (pick n s.timers) then 1 else 0
polls s (answers n a) = if is_some (pick n s.asking) then 1 else 0
polls s _ = 0

abbrev pub starts : Event → ℕ
starts (hashes i h) = 1
starts _ = 0

abbrev pub polls_of : State → List Event → ℕ
polls_of s [] = 0
polls_of s (e ∷ es) = polls s e + polls_of (step s e) es

module _ {ℓ} {A : Type ℓ} (f : A → ℕ) where
  sum_by-append : (xs ys : List A) → sum_by f (xs ++ ys) ≡ sum_by f xs + sum_by f ys
  sum_by-append [] ys = omega arith
  sum_by-append (x ∷ xs) ys = omega (arith, sum_by-append xs ys)

  sum_by-filter : (p : A → Bool) (xs : List A) → sum_by f (filter p xs) ≤ sum_by f xs
  sum_by-filter p [] = omega arith
  sum_by-filter p (x ∷ xs) = ground (arith, sum_by-filter p xs)

poll_transaction-work :
    (i : String) (n : ℕ) (s : State) → work (poll_transaction i n s) ≤ work s + (2 * (30 - n) + 1)
unfolding poll_transaction
poll_transaction-work i n s = elim (Option-cases (address_of i s.pending_transactions)) [
  | inl e ↦ ground (arith, e)
  | inr (o, e) ↦ ground (
    arith,
    e,
    sum_by-append asked_work s.asking (record { tx_id = i; object = o; attempt = n } ∷ []),
  )
]

answered-work :
    (a : Asked) (r : Answer) (s : State) → work (answered a r s) ≤ work s + 2 * (30 - a.attempt)
unfolding answered settle_tx schedule
answered-work a success s = omega arith
answered-work a on_chain_failure s = omega arith
answered-work a not_found s = ground (
  arith,
  sum_by-append timer_work s.timers
      (record { handle = s.next_handle; tx_id = a.tx_id; attempt = suc a.attempt } ∷ []),
)
answered-work a (throws m) s = omega arith

step-work : (s : State) (e : Event) → polls s e + work (step s e) ≤ work s + 61 * starts e
unfolding step register_pending set_pending_tx_hash mark_failed settle_tx hashed fire_at answer_at
    cleanup
step-work s (registers tx) = omega arith
step-work s (hashes i h) = elim (Option-cases (address_of i s.pending_transactions)) [
  | inl e ↦ ground (arith, e)
  | inr (o, e) ↦ ground (arith, e, poll_transaction-work i 0 (hashed i o h s))
]
step-work s (marks_failed i m) = elim (Option-cases (address_of i s.pending_transactions)) [
  | inl e ↦ ground (arith, e)
  | inr (o, e) ↦ ground (arith, e)
]
step-work s (fires n) = elim (Option-cases (pick n s.timers)) [
  | inl e ↦ ground (arith, e)
  | inr ((t, rest), e) ↦ ground (
    arith,
    e,
    sum_by-pick timer_work n s.timers rest t e,
    poll_transaction-work t.tx_id t.attempt (record s { timers = rest }),
  )
]
step-work s (answers n a) = elim (Option-cases (pick n s.asking)) [
  | inl e ↦ ground (arith, e)
  | inr ((r, rest), e) ↦ ground (
    arith,
    e,
    sum_by-pick asked_work n s.asking rest r e,
    answered-work r a (record s { asking = rest }),
  )
]
step-work s cleans =
    omega (arith, sum_by-filter timer_work (λ t. not (is_listed s.poll_intervals t)) s.timers)

-- From any state, the timeouts that fire and the answers that come are at most those that the state has
-- in store and 61 for each hash that is set: 31 requests and 30 timeouts.
pub run-polls :
    (s : State) (es : List Event) → polls_of s es + work (run s es) ≤ work s + 61 * sum_by starts es
unfolding run
run-polls s [] = omega arith
run-polls s (e ∷ es) = omega (arith, step-work s e, run-polls (step s e) es)
