-- ===== src/Optimistic/Hook.antt =====
-- The hook `useOptimisticTransactions` over the manager: the list of transactions and what the page shows
-- ahead of the network (frontend/hooks/useOptimisticTransactions.ts). The clock and the random number
-- come as their texts.
use joint_save.Prelude.{
  ℕ, String, true, false, not, Option, none, some, List, [], ◌∷◌, ◌≡◌, arith, ap, ◌∙◌,
  if◌then◌else◌, is_some, ◌&&◌, ◌==◌, filter, map, eq_iff,
}
use joint_save.Prelude.Int.{ℤ}
use joint_save.Prelude.Text.{str_eq, template}
use joint_save.Optimistic.Manager.{
  TxKind, put, deposit, withdraw, trigger_payout, TxStatus, pending, failed, PendingTransaction,
  State, address_of, set_address, delete_address, register_pending, set_pending_tx_hash, settle_tx,
  mark_failed,
}
use joint_save.Optimistic.Invariant.{address_of-set_address, address_of-delete_address}

pub record OptimisticTx {ℓ} (N : Type ℓ) : Type ℓ where
  pub id : String
  pub type : String
  pub amount : N
  pub status : TxStatus
  pub error : Option String

module _ {ℓ} {N : Type ℓ} where
  -- the arguments: the fields but the status
  abbrev pub add_transaction :
      String → String → N → Option String → List (OptimisticTx N) → List (OptimisticTx N)
  add_transaction i kind n e txs =
      record { id = i; type = kind; amount = n; status = pending; error = e } ∷ txs

  -- `markSuccess` and `rollback`
  abbrev pub drop_transaction : String → List (OptimisticTx N) → List (OptimisticTx N)
  drop_transaction i txs = filter (λ tx. not (str_eq tx.id i)) txs

  abbrev pub fail_if : String → String → OptimisticTx N → OptimisticTx N
  fail_if i message tx =
      if str_eq tx.id i then record tx { status = failed; error = some message } else tx

  abbrev pub mark_error : String → String → List (OptimisticTx N) → List (OptimisticTx N)
  mark_error i message txs = map (fail_if i message) txs

-- what is shown as pending: the manager's object, or a copy
pub data Shown : Type 0 where
  object : ℕ → Shown
  copy : PendingTransaction → Shown

-- `OptimisticUpdate`
pub record OptimisticUpdate : Type 0 where
  pub pending_tx : Option Shown
  pub optimistic_pool_total : Option ℤ
  pub optimistic_user_balance : Option ℤ
  pub optimistic_next_payout_recipient : Option String

abbrev pub nothing_shown : OptimisticUpdate
nothing_shown = record {
  pending_tx = none;
  optimistic_pool_total = none;
  optimistic_user_balance = none;
  optimistic_next_payout_recipient = none;
}

pub record HookState : Type 0 where
  pub optimistic_state : OptimisticUpdate
  pub tx_id_ref : String
  pub manager : State

abbrev pub kind_text : TxKind → String
kind_text deposit = "deposit"
kind_text withdraw = "withdraw"
kind_text trigger_payout = "trigger_payout"

abbrev pub pool_or_default : Option String → String
pool_or_default none = "default"
pool_or_default (some p) = if str_eq p "" then "default" else p

abbrev pub optimistic_tx :
    Option String → TxKind → String → Option ℤ → ℕ → String → String → PendingTransaction
optimistic_tx pool kind user amount now now_text random_text =
    let p = pool_or_default pool in
    record {
      id = template (p ∷ "-" ∷ kind_text kind ∷ "-" ∷ now_text ∷ "-" ∷ random_text ∷ []);
      type = kind;
      pool_address = p;
      user_address = user;
      amount = amount;
      timestamp = now;
      status = pending;
      tx_hash = none;
      error = none;
    }

unfoldable pub register_optimistic : PendingTransaction → HookState → HookState
register_optimistic tx s = record {
  optimistic_state = record nothing_shown { pending_tx = some (object s.manager.next) };
  tx_id_ref = tx.id;
  manager = register_pending tx s.manager;
}

unfoldable pub update_tx_hash : String → HookState → HookState
update_tx_hash hash s =
    if str_eq s.tx_id_ref ""
    then s
    else record s { manager = set_pending_tx_hash s.tx_id_ref hash s.manager }

-- `{ ...prev, ...values }`: what is given takes the place of what was shown
abbrev pub or_shown {ℓ} : {A : Type ℓ} → Option A → Option A → Option A
or_shown none old = old
or_shown (some a) old = some a

unfoldable pub set_optimistic_values : Option ℤ → Option ℤ → Option String → HookState → HookState
set_optimistic_values total balance recipient s =
    if not (str_eq s.tx_id_ref "")
      && is_some (address_of s.tx_id_ref s.manager.pending_transactions)
    then record s {
      optimistic_state = record s.optimistic_state {
        optimistic_pool_total = or_shown total s.optimistic_state.optimistic_pool_total;
        optimistic_user_balance = or_shown balance s.optimistic_state.optimistic_user_balance;
        optimistic_next_payout_recipient =
            or_shown recipient s.optimistic_state.optimistic_next_payout_recipient;
      };
    }
    else s

unfoldable pub clear_optimistic : HookState → HookState
clear_optimistic s = record s { tx_id_ref = ""; optimistic_state = nothing_shown }

-- the object as it is now, with the failure
abbrev pub failed_copy : String → State → Shown → Shown
failed_copy error m (object o) = copy (record (m.objects o) { status = failed; error = some error })
failed_copy error m (copy tx) = copy (record tx { status = failed; error = some error })

abbrev pub map_shown : (Shown → Shown) → Option Shown → Option Shown
map_shown f none = none
map_shown f (some x) = some (f x)

unfoldable pub mark_hook_failed : String → HookState → HookState
mark_hook_failed error s =
    if str_eq s.tx_id_ref ""
    then s
    else let m = mark_failed s.tx_id_ref error s.manager in
      record s {
        manager = m;
        optimistic_state = record nothing_shown {
          pending_tx = map_shown (failed_copy error m) s.optimistic_state.pending_tx;
        };
      }

put_new :
    (o : ℕ) (tx : PendingTransaction) (objects : ℕ → PendingTransaction) → put o tx objects o ≡ tx
put_new o tx objects = ap (λ b. if b then tx else objects o) same
  where
    same : o == o ≡ true
    same = ground arith

-- A transaction that is registered and then fails is shown as failed with the error, no optimistic value
-- is shown any more, and the manager knows the id no longer.
mark_hook_failed-register_optimistic :
    (error : String) (tx : PendingTransaction) (s : HookState)
    → str_eq tx.id "" ≡ false
    → let failed_state = mark_hook_failed error (register_optimistic tx s) in
      (failed_state.optimistic_state ≡ record nothing_shown {
        pending_tx = some (copy (record tx { status = failed; error = some error }));
      })
      × (address_of tx.id failed_state.manager.pending_transactions ≡ none)
unfolding mark_hook_failed register_optimistic mark_failed register_pending settle_tx
mark_hook_failed-register_optimistic error tx s h =
    rw (mark_hook_failed, h) (rw (mark_failed, found) (shown, dropped))
  where
    m : List (String × ℕ)
    m = s.manager.pending_transactions

    o : ℕ
    o = s.manager.next

    found : address_of tx.id (set_address tx.id o m) ≡ some o
    found = ground (arith, address_of-set_address tx.id tx.id o m, eq_iff tx.id tx.id)

    dropped : address_of tx.id (delete_address tx.id (set_address tx.id o m)) ≡ none
    dropped =
        ground
          (arith, address_of-delete_address tx.id tx.id (set_address tx.id o m), eq_iff tx.id tx.id)

    registered : ℕ → PendingTransaction
    registered = put o tx s.manager.objects

    failure : PendingTransaction → PendingTransaction
    failure t = record t { status = failed; error = some error }

    shown :
        record nothing_shown {
          pending_tx = some (copy (failure (put o (failure (registered o)) registered o)));
        }
        ≡ record nothing_shown { pending_tx = some (copy (failure tx)) }
    shown =
        ap (λ t. record nothing_shown { pending_tx = some (copy (failure t)) })
          (put_new o (failure (registered o)) registered
            ∙ ap failure (put_new o tx s.manager.objects))
