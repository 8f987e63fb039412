-- ===== src/Optimistic/Settled.antt =====
-- No transaction is forgotten: what was submitted is reported in the end
-- (frontend/hooks/useOptimisticTransactions.ts).
use joint_save.Prelude.{
  ℕ, String, true, false, some, List, [], ◌∷◌, ◌≡◌, ◌⊎◌, refl, arith, ap, ltb, any, All, All-weaken,
  inl, inr, Bool-cases, Option-cases,
}
use joint_save.Prelude.Text.{str_eq}
use joint_save.Optimistic.Manager.{
  PendingTransaction, confirmed, failed, Asked, State, initial, address_of, has_hash, is_pending,
  Answer, success, on_chain_failure, not_found, throws, answered, mark_failed, pick, fire_at,
  answer_at, Event, registers, hashes, marks_failed, fires, answers, cleans, step, run,
}
use joint_save.Optimistic.Invariant.{
  tells_of, ends, IsAsked, Inv, all_ids, all_but, relaxed, settle_tx-Inv,
}
use joint_save.Optimistic.Picking.{any-pick, All-pick}
use joint_save.Optimistic.Watched.{schedule-Inv, poll_transaction-Inv, set_pending_tx_hash-Inv}
use joint_save.Optimistic.Registered.{register_pending-Inv}

abbrev pub IsOrderly : Event → Type 0
IsOrderly (registers tx) = (is_pending tx.status ≡ true) × (has_hash tx ≡ false)
IsOrderly cleans = ⊥
IsOrderly _ = Unit

mark_failed-Inv : (i m : String) (s : State) → Inv all_ids s → Inv all_ids (mark_failed i m s)
unfolding mark_failed
mark_failed-Inv i m s v = elim (Option-cases (address_of i s.pending_transactions)) [
  | inl e ↦ rw (mark_failed, e) v
  | inr (o, e) ↦
      rw (mark_failed, e)
        (settle_tx-Inv i o failed (some m) s (relaxed i s v) (v.entries i o e).named refl)
]

answered-Inv :
    (a : Asked) (r : Answer) (s : State)
    → Inv (all_but a.tx_id) s
    → (s.objects a.object).id ≡ a.tx_id
    → Inv all_ids (answered a r s)
unfolding answered
answered-Inv a success s v named =
    settle_tx-Inv a.tx_id a.object confirmed (s.objects a.object).error s v named refl
answered-Inv a on_chain_failure s v named =
    settle_tx-Inv a.tx_id a.object failed (some "Transaction failed on-chain") s v named refl
answered-Inv a not_found s v named = elim (Bool-cases (ltb a.attempt 30)) [
  | inl again ↦ rw again (schedule-Inv a.tx_id a.attempt s v)
  | inr late ↦ rw late (
      settle_tx-Inv a.tx_id a.object failed (some "Transaction confirmation timeout") s v named
        refl)
]
answered-Inv a (throws m) s v named = settle_tx-Inv a.tx_id a.object failed (some m) s v named refl

fire_at-Inv : (n : ℕ) (s : State) → Inv all_ids s → Inv all_ids (fire_at n s)
unfolding fire_at
fire_at-Inv n s v = elim (Option-cases (pick n s.timers)) [
  | inl e ↦ rw (fire_at, e) v
  | inr ((t, rest), e) ↦
      rw (fire_at, e)
        (poll_transaction-Inv t.tx_id t.attempt (record s { timers = rest })
          (record {
            entries = λ j p k.
                let l = v.entries j p k in
                record { known = l.known; named = l.named; waiting = l.waiting };
            requests =
                All-weaken s.asking (λ a k. record { known = k.known; named = k.named }) v.requests;
            watched = λ j p k h m. ground (
              arith,
              any-pick (λ u. str_eq u.tx_id j) n s.timers rest t e,
              v.watched j p k h refl,
              m,
            );
            told = v.told;
          }))
]

answer_at-Inv : (n : ℕ) (r : Answer) (s : State) → Inv all_ids s → Inv all_ids (answer_at n r s)
unfolding answer_at
answer_at-Inv n r s v = elim (Option-cases (pick n s.asking)) [
  | inl e ↦ rw (answer_at, e) v
  | inr ((a, rest), e) ↦
      let (mine, others) = All-pick (IsAsked s) n s.asking rest a e v.requests in
      rw (answer_at, e)
        (answered-Inv a r (record s { asking = rest })
          (record {
            entries = λ j p k.
                let l = v.entries j p k in
                record { known = l.known; named = l.named; waiting = l.waiting };
            requests = All-weaken rest (λ a k. record { known = k.known; named = k.named }) others;
            watched = λ j p k h m. ground (
              arith,
              any-pick (λ u. str_eq u.tx_id j) n s.asking rest a e,
              v.watched j p k h refl,
              m,
            );
            told = v.told;
          })
          mine.named)
]

step-Inv : (s : State) (e : Event) → IsOrderly e → Inv all_ids s → Inv all_ids (step s e)
unfolding step
step-Inv s (registers tx) (st, bare) v = register_pending-Inv tx s st bare v
step-Inv s (hashes i h) o v = set_pending_tx_hash-Inv i h s v
step-Inv s (marks_failed i m) o v = mark_failed-Inv i m s v
step-Inv s (fires n) o v = fire_at-Inv n s v
step-Inv s (answers n r) o v = answer_at-Inv n r s v
step-Inv s cleans o v = absurd o

run-Inv : (s : State) (es : List Event) → All IsOrderly es → Inv all_ids s → Inv all_ids (run s es)
unfolding run
run-Inv s [] o v = v
run-Inv s (e ∷ es) (o, os) v = run-Inv (step s e) es os (step-Inv s e o v)

initial-Inv : (blank : PendingTransaction) → Inv all_ids (initial blank)
initial-Inv blank = record {
  entries = λ i o e. absurd (ground (arith, e));
  requests = tt;
  watched = λ i o e h m. absurd (ground (arith, e));
  told = λ i h. absurd (ground (arith, h));
}

-- where nothing waits and nothing is asked, an id of which subscribers were told was told its end, or
-- is in the map without a hash
abbrev pub IsSettled : State → String → Type 0
IsSettled s i =
    (any (ends i) s.heard ≡ true)
    ⊎ ((o : ℕ) × (address_of i s.pending_transactions ≡ some o) × (has_hash (s.objects o) ≡ false))

-- After any orderly events (transactions registered as pending and without a hash, no cleanup), if no
-- timeout waits and no request is in flight, then every transaction that was registered was reported
-- confirmed or failed, or it has no hash yet.
pub run-IsSettled :
    (blank : PendingTransaction) (es : List Event)
    → All IsOrderly es
    → (run (initial blank) es).timers ≡ []
    → (run (initial blank) es).asking ≡ []
    → (i : String) → any (tells_of i) (run (initial blank) es).heard ≡ true
    → IsSettled (run (initial blank) es) i
run-IsSettled blank es orderly no_timer no_request i h =
    let s = run (initial blank) es in
    let v = run-Inv (initial blank) es orderly (initial-Inv blank) in
    elim (Option-cases (address_of i s.pending_transactions)) [
      | inl e ↦ inl (ground (arith, v.told i h, e))
      | inr (o, e) ↦ elim (Bool-cases (has_hash (s.objects o))) [
        | inl hash ↦
            let w = v.watched i o e hash refl in
            absurd (
              ground (
                arith,
                ap (any (λ t. str_eq t.tx_id i)) no_timer,
                ap (any (λ a. str_eq a.tx_id i)) no_request,
                w,
              ))
        | inr bare ↦ inr (o, e, bare)
      ]
    ]
