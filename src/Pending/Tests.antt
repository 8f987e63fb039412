-- ===== src/Pending/Tests.antt =====
-- Runs of the store of records in flight, and its theorems at them.
use joint_save.Prelude.{
  if◌then◌else◌, ℕ, String, true, Option, none, some, [], ◌∷◌, ◌+◌, ◌≡◌, ◌≢◌, ◌≤◌, refl, count,
  is_some,
}
use joint_save.Prelude.Text.{str_eq, trim, to_upper_case}
use joint_save.Prelude.Sort.{sort_by, insert_by}
use joint_save.Pending.Store.{
  deposit, PendingTransactionRecord, Storage, normalize_key_part, read_pending_transaction_records,
  write_pending_transaction_records, write_raw_records, remove_pending_transaction_record,
  add_pending_transaction_record, find_recent_pending_transaction, recent_duplicate_window_ms,
  Response, success, failed, not_found, succeeded, failed_with, dropped, reconcile_from,
  reconcile_pending_transactions,
}
use joint_save.Pending.Laws.{with_hash, add_pending_transaction_record_lem}

store : Unit {0}
unfolding normalize_key_part read_pending_transaction_records write_pending_transaction_records
    write_raw_records remove_pending_transaction_record add_pending_transaction_record
    find_recent_pending_transaction reconcile_from reconcile_pending_transactions sort_by insert_by
    trim to_upper_case
store = tt

abbrev payment : String → ℕ → PendingTransactionRecord
payment h t = record {
  hash = h;
  type = deposit;
  pool_id = "P1";
  submitted_at = t;
  amount = some "5";
}

abbrev stored : Storage
stored =
    ("GA", payment "c" 900000 ∷ payment "b" 800000 ∷ payment "a" 1000 ∷ payment "d" 700000 ∷ [])
    ∷ ("GB", payment "z" 5 ∷ [])
    ∷ []

abbrev answers_of : String → Option Response
answers_of h =
    if str_eq h "b"
    then some (failed none none)
    else if str_eq h "d"
    then some success
    else some not_found

reconcile_test :
    let (result, t) = reconcile_pending_transactions answers_of " ga" 1000000 stored in
    (result
      ≡ some (
          record { record_of = payment "a" 1000; outcome = dropped }
          ∷ record { record_of = payment "d" 700000; outcome = succeeded }
          ∷ record {
            record_of = payment "b" 800000;
            outcome = failed_with "Transaction failed on-chain.";
          }
          ∷ []))
    × (read_pending_transaction_records "GA" t ≡ payment "c" 900000 ∷ [])
    × (read_pending_transaction_records "GB" t ≡ payment "z" 5 ∷ [])
unfolding store
reconcile_test = (refl, refl, refl)

add_pending_transaction_record_lem_example :
    let r = payment "b" 1000000 in
    let t = add_pending_transaction_record "GA" r stored in
    (count (with_hash r.hash) (read_pending_transaction_records "GA" t) ≡ 1)
    × ((b : String)
        → normalize_key_part "GA" ≢ normalize_key_part b
        → read_pending_transaction_records b t ≡ read_pending_transaction_records b stored)
    × ((pool : String) (now : ℕ)
        → normalize_key_part r.pool_id ≡ normalize_key_part pool
        → now ≤ r.submitted_at + recent_duplicate_window_ms
        → is_some (find_recent_pending_transaction "GA" pool r.type now t) ≡ true)
add_pending_transaction_record_lem_example =
    add_pending_transaction_record_lem "GA" (payment "b" 1000000) stored
