-- ===== src/Pending/Laws.antt =====
-- Reading back what was written, added or removed (frontend/lib/pending-transactions.ts).
use joint_save.Prelude.{
  ℕ, String, Bool, true, List, [], ◌∷◌, ◌++◌, ◌+◌, if◌then◌else◌, ◌≡◌, ◌≢◌, ◌≤◌, refl, ◌∙◌, arith,
  eq_iff, filter, count, is_some, is_some-find, any-append,
}
use joint_save.Prelude.Text.{str_eq}
use joint_save.Pending.Store.{
  PendingTransactionType, deposit, withdraw, trigger_payout, set_supported_tokens,
  PendingTransactionRecord, Storage, get_item, remove_item, write_raw_records,
  read_pending_transaction_records, write_pending_transaction_records, other_hash,
  normalize_key_part, add_pending_transaction_record, remove_pending_transaction_record,
  find_recent_pending_transaction, recent_duplicate_window_ms, same_type,
}

get_item-remove_item :
    (k j : String) (s : Storage)
    → get_item j (remove_item k s) ≡ (if str_eq k j then [] else get_item j s)
get_item-remove_item k j [] = ground arith
get_item-remove_item k j ((i, rs) ∷ s) =
    ground (arith, eq_iff i k, eq_iff k j, eq_iff i j, get_item-remove_item k j s)

get_item-write :
    (k j : String) (rs : List PendingTransactionRecord) (s : Storage)
    → get_item j (write_raw_records k rs s) ≡ (if str_eq k j then rs else get_item j s)
unfolding write_raw_records
get_item-write k j [] s = get_item-remove_item k j s
get_item-write k j (r ∷ rs) s = ground (arith, get_item-remove_item k j s)

read-write :
    (a b : String) (rs : List PendingTransactionRecord) (s : Storage)
    → read_pending_transaction_records b (write_pending_transaction_records a rs s) ≡ (
        if str_eq (normalize_key_part a) (normalize_key_part b)
        then rs
        else read_pending_transaction_records b s)
unfolding read_pending_transaction_records write_pending_transaction_records
read-write a b rs s = get_item-write (normalize_key_part a) (normalize_key_part b) rs s

-- the record just added is read back, at the end, and no other record has its hash
read-add :
    (a : String) (r : PendingTransactionRecord) (s : Storage)
    → read_pending_transaction_records a (add_pending_transaction_record a r s)
      ≡ filter (other_hash r.hash) (read_pending_transaction_records a s) ++ r ∷ []
unfolding add_pending_transaction_record
read-add a r s =
    read-write a a _ s ∙ rw ((eq_iff (normalize_key_part a) (normalize_key_part a)).1 refl)

pub read-remove :
    (a h : String) (s : Storage)
    → read_pending_transaction_records a (remove_pending_transaction_record a h s)
      ≡ filter (other_hash h) (read_pending_transaction_records a s)
unfolding remove_pending_transaction_record
read-remove a h s =
    read-write a a _ s ∙ rw ((eq_iff (normalize_key_part a) (normalize_key_part a)).1 refl)

-- how many records have a hash
abbrev pub with_hash : String → PendingTransactionRecord → Bool
with_hash h r = str_eq r.hash h

count-others :
    (h : String) (rs : List PendingTransactionRecord)
    → count (with_hash h) (filter (other_hash h) rs) ≡ 0
count-others h [] = refl
count-others h (r ∷ rs) = ground (arith, count-others h rs)

count-push :
    (h : String) (rs : List PendingTransactionRecord) (r : PendingTransactionRecord)
    → count (with_hash h) (rs ++ r ∷ [])
      ≡ count (with_hash h) rs + (if str_eq r.hash h then 1 else 0)
count-push h [] r = ground arith
count-push h (q ∷ rs) r = ground (arith, count-push h rs r)

same_type_refl : (t : PendingTransactionType) → same_type t t ≡ true
same_type_refl deposit = refl
same_type_refl withdraw = refl
same_type_refl trigger_payout = refl
same_type_refl set_supported_tokens = refl

added_once :
    (a : String) (r : PendingTransactionRecord) (s : Storage)
    → count
        (with_hash r.hash)
        (read_pending_transaction_records a (add_pending_transaction_record a r s))
      ≡ 1
added_once a r s = rw (read-add a r s) ground (
  arith,
  count-push r.hash (filter (other_hash r.hash) (read_pending_transaction_records a s)) r,
  count-others r.hash (read_pending_transaction_records a s),
  eq_iff r.hash r.hash,
)

others_kept :
    (a b : String) (r : PendingTransactionRecord) (s : Storage)
    → normalize_key_part a ≢ normalize_key_part b
    → read_pending_transaction_records b (add_pending_transaction_record a r s)
      ≡ read_pending_transaction_records b s
unfolding add_pending_transaction_record
others_kept a b r s h = ground (
  arith,
  read-write a b (filter (other_hash r.hash) (read_pending_transaction_records a s) ++ r ∷ []) s,
  eq_iff (normalize_key_part a) (normalize_key_part b),
)

found_recent :
    (a : String) (r : PendingTransactionRecord) (s : Storage) (pool : String) (now : ℕ)
    → normalize_key_part r.pool_id ≡ normalize_key_part pool
    → now ≤ r.submitted_at + recent_duplicate_window_ms
    → is_some
        (find_recent_pending_transaction a pool r.type now (add_pending_transaction_record a r s))
      ≡ true
unfolding find_recent_pending_transaction
found_recent a r s pool now h k =
    rw (read-add a r s, is_some-find, any-append) ground
      (
        arith,
        (eq_iff (normalize_key_part r.pool_id) (normalize_key_part pool)).1 h,
        same_type_refl r.type,
      )

-- Adding a transaction leaves exactly one record of its hash at the address, leaves the records
-- of addresses with another normal form as they are, and makes a second transaction of the same
-- type on the same pool (up to case and blanks) a recent duplicate until the window is over.
pub add_pending_transaction_record_lem :
    (a : String) (r : PendingTransactionRecord) (s : Storage)
    → let t = add_pending_transaction_record a r s in
      (count (with_hash r.hash) (read_pending_transaction_records a t) ≡ 1)
      × ((b : String)
          → normalize_key_part a ≢ normalize_key_part b
          → read_pending_transaction_records b t ≡ read_pending_transaction_records b s)
      × ((pool : String) (now : ℕ)
          → normalize_key_part r.pool_id ≡ normalize_key_part pool
          → now ≤ r.submitted_at + recent_duplicate_window_ms
          → is_some (find_recent_pending_transaction a pool r.type now t) ≡ true)
add_pending_transaction_record_lem a r s = (
  added_once a r s,
  λ b h. others_kept a b r s h,
  λ pool now h k. found_recent a r s pool now h k,
)
