-- ===== src/TxRetry/Settling.antt =====
-- What the polls for a confirmation leave in the tracker (frontend/lib/tx-retry.ts).
use joint_save.Prelude.{
  ℕ, zero, suc, String, false, not, Option, none, some, List, [], ◌∷◌, ◌&&◌, ◌≡◌, inl, inr, refl,
  arith, eq_iff, any, filter, map,
}
use joint_save.Prelude.Text.{str_eq, includes}
use joint_save.TxRetry.Tracker.{
  failed, is_pending, PendingTransaction, read_pending_txs, is_pending_transaction, has_other_hash,
  remove_pending_tx, update_pending_tx, patched,
}
use joint_save.TxRetry.Options.{
  TxRetryOptions, Attempt, TxResult, State, sleep, clear_retry_handler, failure_message,
}
use joint_save.TxRetry.Submit.{resolve_confirmed, mark_failed, poll_for_confirmation}
use joint_save.TxRetry.Dedup.{write-id}
use joint_save.TxRetry.Conclusion.{is_tracked, answer-cases}

removed-untracked :
    (h : String) (rs : List PendingTransaction)
    → any
        (λ r. str_eq r.hash h && is_pending r.status)
        (filter is_pending_transaction (filter (has_other_hash h) rs))
      ≡ false
removed-untracked h [] = refl
removed-untracked h (r ∷ rs) = ground (arith, removed-untracked h rs)

failed-untracked :
    (h message : String) (now : ℕ) (rs : List PendingTransaction)
    → any
        (λ r. str_eq r.hash h && is_pending r.status)
        (filter is_pending_transaction (
          map
            (patched h
              (λ r. record r { status = failed; error = some message; last_checked = now }))
            rs))
      ≡ false
failed-untracked h message now [] = refl
failed-untracked h message now (r ∷ rs) = ground (arith, failed-untracked h message now rs)

cleared : (h : String) (hs : List String) → includes (filter (λ g. not (str_eq g h)) hs) h ≡ false
cleared h [] = refl
cleared h (g ∷ hs) = ground (arith, cleared h hs, eq_iff g h, eq_iff h g)

-- Nothing of the transaction is in flight any more.
pub record Settled (h : String) (t : State) : Type 0 where
  pub no_handler : includes t.handlers h ≡ false
  pub not_tracked : is_tracked h t.tracker ≡ false

-- the polls found no end of it, and nothing but the sleeps is different
pub record Open (s t : State) : Type 0 where
  pub same_handlers : t.handlers ≡ s.handlers
  pub same_tracker : t.tracker ≡ s.tracker
  pub same_records : t.records ≡ s.records

abbrev pub PollSettled : Option TxResult → String → State → State → Type 0
PollSettled none h s t = Open s t
PollSettled (some r) h s t = Settled h t

awake :
    (r : Option TxResult) (h : String) (ms : ℕ) (s t : State)
    → PollSettled r h (sleep ms s) t
    → PollSettled r h s t
awake none h ms s t p = record {
  same_handlers = p.same_handlers;
  same_tracker = p.same_tracker;
  same_records = p.same_records;
}
awake (some r) h ms s t p = p

module _ (o : TxRetryOptions) where
  confirmed-Settled : (h : String) (s : State) → Settled h (resolve_confirmed o h s)
  unfolding resolve_confirmed clear_retry_handler remove_pending_tx read_pending_txs
  confirmed-Settled h s = record {
    no_handler = cleared h s.handlers;
    not_tracked = rw (write-id) (removed-untracked h (filter is_pending_transaction s.tracker));
  }

  failed-Settled :
      (h message : String) (now : ℕ) (s : State) → Settled h (mark_failed o h message now s)
  unfolding mark_failed clear_retry_handler update_pending_tx read_pending_txs
  failed-Settled h message now s = record {
    no_handler = cleared h s.handlers;
    not_tracked =
        rw (write-id) (failed-untracked h message now (filter is_pending_transaction s.tracker));
  }

  -- Polls that settle a transaction, by a confirmation or by a failure, leave no retry handler for
  -- its hash and no pending transaction of its hash in the tracker; polls that do not settle it
  -- leave handlers, tracker and records as they were.
  pub poll_for_confirmation-PollSettled :
      (left i : ℕ) (h : String) (n : ℕ) (a : Attempt) (s : State)
      → let (r, t) = poll_for_confirmation o left i h n a s in PollSettled r h s t
  unfolding poll_for_confirmation
  poll_for_confirmation-PollSettled zero i h n a s = record {
    same_handlers = refl;
    same_tracker = refl;
    same_records = refl;
  }
  poll_for_confirmation-PollSettled (suc zero) i h n a s = elim (answer-cases (a.polled i)) [
    | inl e ↦ rw (e, poll_for_confirmation) (confirmed-Settled h s)
    | inr (inl e) ↦
        rw (e, poll_for_confirmation) (failed-Settled h (failure_message n) a.settled_at s)
    | inr (inr e) ↦
        rw (e, poll_for_confirmation)
          (record { same_handlers = refl; same_tracker = refl; same_records = refl })
  ]
  poll_for_confirmation-PollSettled (suc (suc left)) i h n a s = elim (answer-cases (a.polled i)) [
    | inl e ↦ rw (e, poll_for_confirmation) (confirmed-Settled h s)
    | inr (inl e) ↦
        rw (e, poll_for_confirmation) (failed-Settled h (failure_message n) a.settled_at s)
    | inr (inr e) ↦
        rw (e, poll_for_confirmation)
          (awake _ h o.poll_interval_ms s _ (
            poll_for_confirmation-PollSettled (suc left) (suc i) h n a
              (sleep o.poll_interval_ms s)))
  ]
