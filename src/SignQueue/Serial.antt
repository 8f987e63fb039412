-- ===== src/SignQueue/Serial.antt =====
-- What the signing queue promises (frontend/lib/tx-queue.ts).
use joint_save.Prelude.{
  ℕ, true, false, List, [], ◌∷◌, ◌||◌, ◌≡◌, ◌≤◌, ◌<◌, refl, arith, ◌⊎◌, ap, ◌∙◌, inl, inr, length,
}
use joint_save.SignQueue.Machine.{
  Request, no_kit, State, initial, is_settled, is_queued, settle_entry, withdrawn, drain,
  process_queue, enqueue_sign, time_out, Event, enqueues, answers, times_out, sets_kit, step, run,
}
use joint_save.SignQueue.Invariant.{Decreasing, SettledOnce, Idle, Busy}
use joint_save.SignQueue.Steps.{run-Inv}

workers-le : (s : State) → Idle s ⊎ Busy s → length s.workers ≤ 1
workers-le s (inl p) = ground (arith, ap length p.none_running)
workers-le s (inr p) = ground (arith, ap length p.one_running)

-- After any events, at most one request is before the wallet, requests were shown to it in the
-- order in which they were queued and none twice, no promise was settled twice, and every request
-- made so far is settled or still in the queue.
pub signing_is_serial :
    (es : List Event)
    → let s = run initial es in
      (length s.workers ≤ 1)
      × Decreasing s.shown
      × SettledOnce s.settled
      × ((n : ℕ) → n < s.next → (is_settled n s.settled || is_queued n s.queue) ≡ true)
signing_is_serial es = let v = run-Inv es in (workers-le _ v.phase, v.in_turn, v.once, v.accounted)

-- The events hold no answer of the wallet.
abbrev pub Unanswered : List Event → Type 0
Unanswered [] = Unit
Unanswered (answers n o ∷ es) = ⊥
Unanswered (e ∷ es) = Unanswered es

step_silent :
    (s : State) (e : Event)
    → s.processing ≡ true
    → Unanswered (e ∷ [])
    → ((step s e).processing ≡ true)
      × ((step s e).shown ≡ s.shown)
      × ((step s e).workers ≡ s.workers)
unfolding step enqueue_sign process_queue time_out withdrawn settle_entry
step_silent s (answers n o) p h = absurd h
step_silent s (enqueues r) p h = ground arith
step_silent s (times_out n) p h = ground arith
step_silent s (sets_kit k) p h = ground arith

-- An abandoned popup holds the queue up: while the wallet does not answer the request before it,
-- no other request is shown to the wallet, whatever else happens, and the timeout of that request
-- does not change this.
pub abandoned_popup_blocks :
    (s : State) (es : List Event)
    → s.processing ≡ true
    → Unanswered es
    → ((run s es).shown ≡ s.shown) × ((run s es).workers ≡ s.workers)
unfolding run
abandoned_popup_blocks s [] p h = (refl, refl)
abandoned_popup_blocks s (answers n o ∷ es) p h = absurd h
abandoned_popup_blocks s (enqueues r ∷ es) p h =
    let (on, same, still) = step_silent s (enqueues r) p tt in
    let (later, after) = abandoned_popup_blocks (step s (enqueues r)) es on h in
    (later ∙ same, after ∙ still)
abandoned_popup_blocks s (times_out n ∷ es) p h =
    let (on, same, still) = step_silent s (times_out n) p tt in
    let (later, after) = abandoned_popup_blocks (step s (times_out n)) es on h in
    (later ∙ same, after ∙ still)
abandoned_popup_blocks s (sets_kit k ∷ es) p h =
    let (on, same, still) = step_silent s (sets_kit k) p tt in
    let (later, after) = abandoned_popup_blocks (step s (sets_kit k)) es on h in
    (later ∙ same, after ∙ still)

-- With no wallet kit a request that finds the queue idle is rejected at once and leaves it empty,
-- but the listeners were last told that one request waits.
enqueue_sign_without_kit :
    (r : Request) (s : State)
    → s.kit ≡ false
    → s.processing ≡ false
    → s.queue ≡ []
    → is_settled s.next s.settled ≡ false
    → let t = enqueue_sign r s in
      (t.settled ≡ (s.next, no_kit) ∷ s.settled)
      × (t.queue ≡ [])
      × (t.processing ≡ false)
      × (t.badge ≡ 1)
unfolding enqueue_sign process_queue drain settle_entry
enqueue_sign_without_kit r s k p q n = ground arith
