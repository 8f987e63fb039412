-- ===== src/SignQueue/Tests.antt =====
-- Runs of the signing queue, and its theorems at them.
use joint_save.Prelude.{
  ℕ, String, true, false, none, List, [], ◌∷◌, ◌≡◌, refl, ◌≤◌, ◌<◌, ◌||◌, length,
}
use joint_save.SignQueue.Machine.{
  Request, signed, timed_out, initial, is_settled, is_queued, settle_entry, prompt, resumed,
  withdrawn, drain, process_queue, enqueue_sign, answer, time_out, Event, enqueues, answers,
  times_out, sets_kit, step, run,
}
use joint_save.SignQueue.Invariant.{Decreasing, SettledOnce}
use joint_save.SignQueue.Serial.{signing_is_serial, abandoned_popup_blocks}

abbrev request : String → Request
request xdr = record { xdr = xdr; network_passphrase = "test"; address = none }

machine : Unit {0}
unfolding run step enqueue_sign process_queue drain prompt settle_entry answer resumed time_out
    withdrawn
machine = tt

-- Two requests; the first times out while it is before the wallet, and is answered later.
abbrev late_answer : List Event
late_answer =
    sets_kit true
    ∷ enqueues (request "a")
    ∷ enqueues (request "b")
    ∷ times_out 0
    ∷ answers 0 (signed "late")
    ∷ answers 1 (signed "B")
    ∷ []

late_answer_test :
    let s = run initial late_answer in
    (s.settled ≡ (1, signed "B") ∷ (0, timed_out) ∷ [])
    × (s.shown ≡ 1 ∷ 0 ∷ [])
    × (s.processing ≡ false)
    × (s.badge ≡ 0)
unfolding machine
late_answer_test = (refl, refl, refl, refl)

signing_is_serial_example :
    let s = run initial late_answer in
    (length s.workers ≤ 1)
    × Decreasing s.shown
    × SettledOnce s.settled
    × ((n : ℕ) → n < s.next → (is_settled n s.settled || is_queued n s.queue) ≡ true)
signing_is_serial_example = signing_is_serial late_answer

abbrev abandoned : List Event
abandoned = sets_kit true ∷ enqueues (request "a") ∷ enqueues (request "b") ∷ []

-- The first request has timed out, and the second still waits for it.
abandoned_test :
    let s = run (run initial abandoned) (times_out 0 ∷ []) in
    (s.settled ≡ (0, timed_out) ∷ []) × (s.shown ≡ 0 ∷ []) × (length s.queue ≡ 1)
unfolding machine
abandoned_test = (refl, refl, refl)

abandoned_popup_blocks_example :
    let s = run initial abandoned in
    let t = run s (times_out 0 ∷ enqueues (request "c") ∷ []) in
    (t.shown ≡ s.shown) × (t.workers ≡ s.workers)
abandoned_popup_blocks_example =
    abandoned_popup_blocks (run initial abandoned) (times_out 0 ∷ enqueues (request "c") ∷ [])
      (unfold machine in refl) tt
