-- ===== src/TxRetry/Dedup.antt =====
-- What the tracker keeps, and when it finds a duplicate (frontend/lib/tx-retry.ts).
use joint_save.Prelude.{
  ℕ, suc, String, Bool, true, false, none, List, [], ◌∷◌, ◌++◌, ◌+◌, ◌-◌, ◌&&◌, ◌≡◌, ◌≤◌, refl, ap,
  ◌∙◌, arith, eq_iff, filter, drop, length, any, is_some, is_some-find, any-append, length-append,
  length-drop, All, All-filter, zero,
}
use joint_save.Prelude.Sort.{sort_by, insert_by, All-sort_by}
use joint_save.TxRetry.Tracker.{
  PendingTxType, deposit, withdraw, payout, emergency_withdraw, pause, join, create,
  set_supported_tokens, pending, PendingTransaction, same_tx_type, pending_tx_max,
  pending_tx_max_age_ms, recent_duplicate_window_ms, is_pending_transaction_type,
  is_pending_transaction, Tracker, read_pending_txs, write_pending_txs, submitted_before, capped,
  has_other_hash, add_pending_tx, cleanup_pending_txs, is_young, normalize, is_recent_of,
  find_recent_pending_tx,
}

insert_by-push :
    (x r : PendingTransaction) (ys : List PendingTransaction)
    → x.submitted_at ≤ r.submitted_at
    → insert_by submitted_before x (ys ++ r ∷ []) ≡ insert_by submitted_before x ys ++ r ∷ []
unfolding insert_by
insert_by-push x r [] h = ground arith
insert_by-push x r (y ∷ ys) h = ground (arith, insert_by-push x r ys h)

-- the youngest record, put last, stays last
sort_by-push :
    (xs : List PendingTransaction) (r : PendingTransaction)
    → All (λ x. x.submitted_at ≤ r.submitted_at) xs
    → sort_by submitted_before (xs ++ r ∷ []) ≡ sort_by submitted_before xs ++ r ∷ []
unfolding sort_by insert_by
sort_by-push [] r h = refl
sort_by-push (x ∷ xs) r (p, h) =
    ap (insert_by submitted_before x) (sort_by-push xs r h)
    ∙ insert_by-push x r (sort_by submitted_before xs) p

any-drop-push :
    (p : PendingTransaction → Bool) (n : ℕ) (xs : List PendingTransaction) (r : PendingTransaction)
    → n ≤ length xs
    → p r ≡ true
    → any p (drop n (xs ++ r ∷ [])) ≡ true
any-drop-push p zero xs r h k = ground (arith, any-append p xs (r ∷ []))
any-drop-push p (suc n) [] r h k = absurd (omega (arith, h))
any-drop-push p (suc n) (x ∷ xs) r h k = any-drop-push p n xs r (omega (arith, h)) k

pub write-id : (rs stored : List PendingTransaction) → write_pending_txs rs stored ≡ rs
unfolding write_pending_txs
write-id [] stored = refl
write-id (r ∷ rs) stored = refl

capped-push-any :
    (p : PendingTransaction → Bool) (xs : List PendingTransaction) (r : PendingTransaction)
    → All (λ x. x.submitted_at ≤ r.submitted_at) xs
    → p r ≡ true
    → any p (capped (xs ++ r ∷ [])) ≡ true
unfolding capped
capped-push-any p xs r h k = rw (sort_by-push xs r h) (
    any-drop-push p _ (sort_by submitted_before xs) r
      (omega (arith, length-append (sort_by submitted_before xs) (r ∷ []))) k)

any-filter :
    (p q : PendingTransaction → Bool) (xs : List PendingTransaction)
    → any p (filter q xs) ≡ any (λ x. p x && q x) xs
any-filter p q [] = refl
any-filter p q (x ∷ xs) = ground (arith, any-filter p q xs)

pub find_recent-any :
    (pool : String) (type : PendingTxType) (now : ℕ) (stored : Tracker)
    → is_some (find_recent_pending_tx pool type now stored)
      ≡ any (λ r. is_recent_of pool type now r && is_pending_transaction r) stored
unfolding find_recent_pending_tx read_pending_txs
find_recent-any pool type now stored =
    is_some-find (is_recent_of pool type now) (filter is_pending_transaction stored)
    ∙ any-filter (is_recent_of pool type now) is_pending_transaction stored

is_recent_of_self :
    (r : PendingTransaction) (pool : String) (now : ℕ)
    → r.status ≡ pending
    → normalize r.pool_id ≡ normalize pool
    → now ≤ r.submitted_at + recent_duplicate_window_ms
    → is_recent_of pool r.type now r ≡ true
unfolding is_recent_of
is_recent_of_self r pool now waits same_pool in_time =
    rw (waits) ground (arith, (eq_iff (normalize r.pool_id) (normalize pool)).1 same_pool)

-- A pending transaction of a type that is read back, no older than what is tracked already, is kept
-- by the tracker, and is found as a duplicate by every later submission for the pool, up to case
-- and blanks, and the type, until the window is over.
pub add_pending_tx-found :
    (r : PendingTransaction) (stored : Tracker) (pool : String) (now : ℕ)
    → is_pending_transaction_type r.type ≡ true
    → r.status ≡ pending
    → normalize r.pool_id ≡ normalize pool
    → now ≤ r.submitted_at + recent_duplicate_window_ms
    → All (λ x. x.submitted_at ≤ r.submitted_at) (read_pending_txs stored)
    → is_some (find_recent_pending_tx pool r.type now (add_pending_tx r stored)) ≡ true
unfolding add_pending_tx
add_pending_tx-found r stored pool now valid waits same_pool in_time youngest =
    rw (find_recent-any, write-id)
      (capped-push-any _ (filter (has_other_hash r.hash) (read_pending_txs stored)) r
        (All-filter (λ x. x.submitted_at ≤ r.submitted_at) (has_other_hash r.hash)
          (read_pending_txs stored) youngest)
        (ground (arith, valid, is_recent_of_self r pool now waits same_pool in_time)))

not_settings :
    (t : PendingTxType)
    → (same_tx_type t set_supported_tokens && is_pending_transaction_type t) ≡ false
unfolding is_pending_transaction_type
not_settings deposit = refl
not_settings withdraw = refl
not_settings payout = refl
not_settings emergency_withdraw = refl
not_settings pause = refl
not_settings join = refl
not_settings create = refl
not_settings set_supported_tokens = refl

-- A token settings update is never found, whatever was tracked: a duplicate of it is not held back.
find_recent_pending_tx-settings :
    (pool : String) (now : ℕ) (stored : Tracker)
    → find_recent_pending_tx pool set_supported_tokens now stored ≡ none
unfolding find_recent_pending_tx read_pending_txs is_recent_of
find_recent_pending_tx-settings pool now [] = refl
find_recent_pending_tx-settings pool now (r ∷ stored) =
    ground (arith, not_settings r.type, find_recent_pending_tx-settings pool now stored)

length-capped : (rs : List PendingTransaction) → length (capped rs) ≤ pending_tx_max
unfolding capped
length-capped rs = omega (
  arith,
  length-drop (length (sort_by submitted_before rs) - pending_tx_max) (sort_by submitted_before rs),
)

All-drop :
    (P : PendingTransaction → Type 0) (n : ℕ) (rs : List PendingTransaction)
    → All P rs
    → All P (drop n rs)
All-drop P zero rs h = h
All-drop P (suc n) [] h = tt
All-drop P (suc n) (r ∷ rs) (p, h) = All-drop P n rs h

All-capped :
    (P : PendingTransaction → Type 0) (rs : List PendingTransaction) → All P rs → All P (capped rs)
unfolding capped
All-capped P rs h = All-drop P _ _ (All-sort_by submitted_before P rs h)

young-All :
    (now : ℕ) (rs : List PendingTransaction)
    → All (λ x. now ≤ x.submitted_at + pending_tx_max_age_ms) (filter (is_young now) rs)
young-All now [] = tt
young-All now (r ∷ rs) = ground (arith, young-All now rs)

-- The tracker never holds more than ten records once a transaction was added or it was cleaned up,
-- and after a cleanup none of them is older than an hour.
cleanup_pending_txs_bounds :
    (r : PendingTransaction) (now : ℕ) (stored : Tracker)
    → let (kept, cleaned) = cleanup_pending_txs now stored in
      (length (add_pending_tx r stored) ≤ pending_tx_max)
      × (length cleaned ≤ pending_tx_max)
      × (cleaned ≡ kept)
      × All (λ x. now ≤ x.submitted_at + pending_tx_max_age_ms) cleaned
unfolding cleanup_pending_txs add_pending_tx
cleanup_pending_txs_bounds r now stored = (
  rw (write-id)
      (length-capped (filter (has_other_hash r.hash) (read_pending_txs stored) ++ r ∷ [])),
  rw (write-id) (length-capped (filter (is_young now) (read_pending_txs stored))),
  write-id _ _,
  rw (write-id) (All-capped _ _ (young-All now (read_pending_txs stored))),
)
