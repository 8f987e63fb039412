-- ===== src/TxRetry/Conclusion.antt =====
-- How a submission with retries may end, and what the state is then (frontend/lib/tx-retry.ts).
use joint_save.Prelude.{
  ℕ, String, Bool, true, Option, none, some, List, [], ◌∷◌, ◌&&◌, ◌≡◌, ◌≤◌, ◌⊎◌, inl, inr, refl,
  sym, ap, ◌∙◌, arith, eq_iff, any, find, Bool-cases,
}
use joint_save.Prelude.Text.{str_eq}
use joint_save.TxRetry.Errors.{Thrown}
use joint_save.TxRetry.Tracker.{
  PendingTxType, pending, PendingTransaction, Tracker, read_pending_txs, is_pending, is_recent_of,
  find_recent_pending_tx,
}
use joint_save.TxRetry.Options.{
  Dedup, PollAnswer, success, failure, not_found, TxResult, Finished, returns, throws, State, Round,
  finishes, retries, recent_of,
}

-- nothing that outlives the call has changed
pub record Untouched (s t : State) : Type 0 where
  pub same_tracker : t.tracker ≡ s.tracker
  pub same_records : t.records ≡ s.records
  pub same_handlers : t.handlers ≡ s.handlers
  pub same_broadcasts : t.broadcasts ≡ s.broadcasts

-- a pending transaction of this hash is tracked
abbrev pub is_tracked : String → Tracker → Bool
is_tracked h stored = any (λ r. str_eq r.hash h && is_pending r.status) (read_pending_txs stored)

-- The call ended without a broadcast: by throwing, or as the pending transaction that it found.
abbrev pub Declined : Finished → State → Type 0
Declined (throws e) s = Unit
Declined (returns r) s = (r.status ≡ pending) × (is_tracked r.hash s.tracker ≡ true)

-- The call ended with the result `r` of its one broadcast, in an attempt up to number `n`.
pub record Broadcast (r : TxResult) (n : ℕ) (s t : State) : Type 0 where
  pub one_broadcast : t.broadcasts ≡ r.hash ∷ s.broadcasts
  pub within : r.attempts ≤ n

abbrev pub Concluded : Finished → ℕ → State → State → Type 0
Concluded f n s t =
    (Untouched s t × Declined f s) ⊎ ((r : TxResult) × (f ≡ returns r) × Broadcast r n s t)

abbrev pub RoundConcluded : Round → ℕ → State → State → Type 0
RoundConcluded (finishes f) n s t = Concluded f n s t
RoundConcluded (retries e) n s t = Untouched s t

pub untouched : (s : State) → Untouched s s
untouched s = record {
  same_tracker = refl;
  same_records = refl;
  same_handlers = refl;
  same_broadcasts = refl;
}

tracked-find :
    (pool : String) (type : PendingTxType) (now : ℕ) (rs : List PendingTransaction)
    (r : PendingTransaction)
    → find (is_recent_of pool type now) rs ≡ some r
    → any (λ x. str_eq x.hash r.hash && is_pending x.status) rs ≡ true
unfolding is_recent_of
tracked-find pool type now [] r h = absurd (ground (arith, h))
tracked-find pool type now (x ∷ rs) r h = elim (Bool-cases (is_recent_of pool type now x)) [
  | inl e ↦
      let same : x ≡ r = ground (arith, h, e) in
      rw (sym same) ground (arith, e, eq_iff x.hash x.hash)
  | inr e ↦ ground (arith, tracked-find pool type now rs r (ground (arith, h, e)))
]

pub answer-cases : (p : PollAnswer) → (p ≡ success) ⊎ ((p ≡ failure) ⊎ (p ≡ not_found))
answer-cases success = inl refl
answer-cases failure = inr (inl refl)
answer-cases not_found = inr (inr refl)

-- What is concluded from a state that differs only in what does not outlive the call.
pub untouched_trans : (s s' t : State) → Untouched s s' → Untouched s' t → Untouched s t
untouched_trans s s' t u v = record {
  same_tracker = v.same_tracker ∙ u.same_tracker;
  same_records = v.same_records ∙ u.same_records;
  same_handlers = v.same_handlers ∙ u.same_handlers;
  same_broadcasts = v.same_broadcasts ∙ u.same_broadcasts;
}

pub Declined-before : (f : Finished) (s s' : State) → Untouched s s' → Declined f s' → Declined f s
Declined-before (throws e) s s' u d = tt
Declined-before (returns r) s s' u (waits, known) = (waits, rw (sym u.same_tracker) known)

pub Concluded-before :
    (f : Finished) (m n : ℕ) (s s' t : State)
    → m ≤ n
    → Untouched s s'
    → Concluded f m s' t
    → Concluded f n s t
Concluded-before f m n s s' t le u (inl (v, d)) =
    inl (untouched_trans s s' t u v, Declined-before f s s' u d)
Concluded-before f m n s s' t le u (inr (r, e, b)) = inr (
  r,
  e,
  record {
    one_broadcast = b.one_broadcast ∙ ap (λ bs. r.hash ∷ bs) u.same_broadcasts;
    within = omega (arith, b.within);
  },
)

pub RoundConcluded-before :
    (r : Round) (n : ℕ) (s s' t : State)
    → Untouched s s'
    → RoundConcluded r n s' t
    → RoundConcluded r n s t
RoundConcluded-before (finishes f) n s s' t u c = Concluded-before f n n s s' t (omega arith) u c
RoundConcluded-before (retries e) n s s' t u v = untouched_trans s s' t u v

pub round-cases :
    (r : Round) → ((f : Finished) × (r ≡ finishes f)) ⊎ ((e : Thrown) × (r ≡ retries e))
round-cases (finishes f) = inl (f, refl)
round-cases (retries e) = inr (e, refl)

pub recent-tracked :
    (d : Option Dedup) (now : ℕ) (s : State) (r : PendingTransaction)
    → recent_of d now s ≡ some r
    → is_tracked r.hash s.tracker ≡ true
unfolding recent_of find_recent_pending_tx
recent-tracked none now s r h = absurd (ground (arith, h))
recent-tracked (some d) now s r h =
    tracked-find d.pool_id d.type now (read_pending_txs s.tracker) r h
