-- ===== src/TxRetry/Resubmit.antt =====
-- A submission that was not settled is not repeated (frontend/lib/tx-retry.ts).
use joint_save.Prelude.{
  ℕ, zero, suc, String, Bool, true, Option, none, some, List, [], ◌∷◌, ◌+◌, ◌-◌, ◌&&◌, ◌≡◌, ◌≤◌,
  ◌<◌, inl, inr, refl, sym, ap, ◌∙◌, arith, any, map, is_some, All, Option-cases, filter,
}
use joint_save.TxRetry.Tracker.{
  PendingTxType, pending, PendingTransaction, Tracker, read_pending_txs, update_pending_tx, patched,
  is_pending_transaction, is_pending_transaction_type, is_recent_of, normalize,
  find_recent_pending_tx, recent_duplicate_window_ms,
}
use joint_save.TxRetry.Options.{
  Track, TxRetryOptions, not_found, Attempt, TxResult, returns, State, sleep,
  register_retry_handler, tracked, finishes, polled_result, recent_of,
}
use joint_save.TxRetry.Submit.{
  register_record, poll_for_confirmation, watch, run_attempt, submit_from, submit_with_retry,
}
use joint_save.TxRetry.Dedup.{add_pending_tx-found, find_recent-any, write-id}

-- A patch that leaves alone what the test looks at leaves the test's answer alone.
any-patched :
    (p : PendingTransaction → Bool) (h : String) (patch : PendingTransaction → PendingTransaction)
    (rs : List PendingTransaction)
    → ((r : PendingTransaction) → p (patch r) ≡ p r)
    → any p (map (patched h patch) rs) ≡ any p rs
any-patched p h patch [] k = refl
any-patched p h patch (r ∷ rs) k = ground (arith, k r, any-patched p h patch rs k)

any-valid :
    (p : PendingTransaction → Bool) (rs : List PendingTransaction)
    → any (λ r. p r && is_pending_transaction r) (filter is_pending_transaction rs)
      ≡ any (λ r. p r && is_pending_transaction r) rs
any-valid p [] = refl
any-valid p (r ∷ rs) = ground (arith, any-valid p rs)

-- noting the time of the last check does not hide a duplicate
find_recent-checked :
    (pool : String) (type : PendingTxType) (now at : ℕ) (h : String) (stored : Tracker)
    → is_some (
        find_recent_pending_tx pool type now
          (update_pending_tx h (λ r. record r { last_checked = at }) stored))
      ≡ is_some (find_recent_pending_tx pool type now stored)
unfolding update_pending_tx read_pending_txs is_recent_of
find_recent-checked pool type now at h stored =
    let patch : PendingTransaction → PendingTransaction = λ r. record r { last_checked = at } in
    let found : PendingTransaction → Bool =
      λ r. is_recent_of pool type now r && is_pending_transaction r in
    find_recent-any pool type now _
    ∙ ap (any found) (write-id (map (patched h patch) (read_pending_txs stored)) stored)
    ∙ any-patched found h patch (read_pending_txs stored) (λ r. refl)
    ∙ any-valid (is_recent_of pool type now) stored
    ∙ sym (find_recent-any pool type now stored)

polled_result-tracker :
    (p : Option TxResult × State) (h : String) (n : ℕ) (a : Attempt)
    → p.0 ≡ none
    → (polled_result p h n a).1.tracker
      ≡ update_pending_tx h (λ r. record r { last_checked = a.settled_at }) p.1.tracker
unfolding polled_result
polled_result-tracker (none, t) h n a e = refl
polled_result-tracker (some r, t) h n a e = absurd (ground (arith, e))

handler-tracker : (h : String) (s : State) → (register_retry_handler h s).tracker ≡ s.tracker
unfolding register_retry_handler
handler-tracker h s = ground arith

module _ (o : TxRetryOptions) where
  poll_silent :
      (left i : ℕ) (h : String) (n : ℕ) (a : Attempt) (s : State)
      → ((j : ℕ) → a.polled j ≡ not_found)
      → let (r, t) = poll_for_confirmation o left i h n a s in (r ≡ none) × (t.tracker ≡ s.tracker)
  unfolding poll_for_confirmation
  poll_silent zero i h n a s silent = (refl, refl)
  poll_silent (suc zero) i h n a s silent = rw (silent i, poll_for_confirmation) (refl, refl)
  poll_silent (suc (suc left)) i h n a s silent =
      rw (silent i, poll_for_confirmation)
        (poll_silent (suc left) (suc i) h n a (sleep o.poll_interval_ms s) silent)

  -- the tracker after a broadcast that no poll finds
  watch-tracker :
      (h : String) (n : ℕ) (a : Attempt) (s : State)
      → ((j : ℕ) → a.polled j ≡ not_found)
      → (watch o h n a s).1.tracker
        ≡ update_pending_tx h
            (λ r. record r { last_checked = a.settled_at })
            (tracked o.track h n a.registered_at s.tracker)
  unfolding watch register_record
  watch-tracker h n a s silent =
      let registered = register_record o h n a.registered_at s in
      let (undecided, same) =
        poll_silent o.poll_attempts 0 h n a (register_retry_handler h registered) silent in
      polled_result-tracker _ h n a undecided
      ∙ ap (update_pending_tx h (λ r. record r { last_checked = a.settled_at }))
          (same ∙ handler-tracker h registered)

  minus_one : (m : ℕ) → m + 1 - 1 ≡ m
  minus_one m = omega arith

  -- a call that finds a duplicate does nothing else
  Found : (ℕ → Attempt) → ℕ → State → Type 0
  Found world left s =
      (r : PendingTransaction) × (submit_from o world left 0 none s ≡ (
        returns (record { status = pending; hash = r.hash; attempts = r.attempts; error = none }),
        s,
      ))

  submit_from-Found :
      (world : ℕ → Attempt) (left : ℕ) (s : State)
      → 0 < left
      → is_some (recent_of o.dedup (world 0).checked_at s) ≡ true
      → Found world left s
  unfolding Found submit_from run_attempt
  submit_from-Found world zero s some_attempt found = absurd (omega (arith, some_attempt))
  submit_from-Found world (suc left) s some_attempt found =
      elim (Option-cases (recent_of o.dedup (world 0).checked_at s)) [
        | inl e ↦ absurd (ground (arith, e, found))
        | inr (r, e) ↦
            let hit : run_attempt o 1 (world 0) s ≡ (
              finishes (
                  returns (record {
                    status = pending;
                    hash = r.hash;
                    attempts = r.attempts;
                    error = none;
                  })),
              s,
            ) =
              rw (e, run_attempt)
                (ap
                  (λ m. (
                    finishes (
                        returns
                          (record { status = pending; hash = r.hash; attempts = m; error = none })),
                    s,
                  ))
                  (minus_one r.attempts)) in
            (
              r,
              rw (hit, submit_from)
                  (ap
                    (λ p. (
                      returns (record {
                        status = pending;
                        hash = r.hash;
                        attempts = r.attempts;
                        error = none;
                      }),
                      p.1,
                    ))
                    hit),
            )
      ]

-- A transaction that was broadcast for a tracked pool and that no poll finds is not broadcast again:
-- another call with the pool and the type as its dedup key, up to case and blanks, in the next two
-- minutes, returns a pending transaction and changes nothing, whatever the network would answer.
-- The type is one that is read back, and no tracked transaction is younger than the broadcast.
pub broadcast_is_not_repeated :
    (o : TxRetryOptions) (t : Track) (pool : String) (h : String) (n : ℕ) (a : Attempt) (s : State)
    (world : ℕ → Attempt)
    → o.track ≡ some t
    → o.dedup ≡ some (record { pool_id = pool; type = t.type })
    → 0 < o.max_retries
    → is_pending_transaction_type t.type ≡ true
    → normalize t.pool_id ≡ normalize pool
    → All (λ x. x.submitted_at ≤ a.registered_at) (read_pending_txs s.tracker)
    → ((j : ℕ) → a.polled j ≡ not_found)
    → (world 0).checked_at ≤ a.registered_at + recent_duplicate_window_ms
    → let waiting = (watch o h n a s).1 in
      (r : PendingTransaction) × (submit_with_retry o world waiting ≡ (
        returns (record { status = pending; hash = r.hash; attempts = r.attempts; error = none }),
        waiting,
      ))
unfolding submit_with_retry Found recent_of tracked
broadcast_is_not_repeated o t pool h n a s world tracks dedups some_attempt valid same_pool youngest
      silent in_time =
    submit_from-Found o world o.max_retries (watch o h n a s).1 some_attempt (
      ap (λ d. is_some (recent_of d (world 0).checked_at (watch o h n a s).1)) dedups
      ∙ ap (λ tracker. is_some (find_recent_pending_tx pool t.type (world 0).checked_at tracker))
          (watch-tracker o h n a s silent
            ∙ ap
                (λ k.
                  update_pending_tx h (λ r. record r { last_checked = a.settled_at })
                    (tracked k h n a.registered_at s.tracker))
                tracks)
      ∙ find_recent-checked pool t.type (world 0).checked_at a.settled_at h _
      ∙ add_pending_tx-found _ s.tracker pool (world 0).checked_at valid refl same_pool in_time
          youngest)
