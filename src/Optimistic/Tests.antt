-- ===== src/Optimistic/Tests.antt =====
-- A transaction that the network confirms at the second poll, one that is marked as failed too early, and
-- the theorems at them.
use joint_save.Prelude.{ℕ, String, none, some, List, [], ◌∷◌, ◌+◌, ◌*◌, ◌≡◌, ◌≤◌, refl, map}
use joint_save.Prelude.Sort.{sum_by}
use joint_save.Prelude.Int.{pos}
use joint_save.Optimistic.Manager.{
  PendingTransaction, deposit, pending, confirmed, Asked, State, initial, register_pending,
  poll_transaction, hashed, set_pending_tx_hash, settle_tx, success, not_found, schedule, answered,
  mark_failed, cleanup, fire_at, answer_at, Event, registers, hashes, fires, answers, cleans, step,
  run,
}
use joint_save.Optimistic.Hook.{
  OptimisticTx, HookState, nothing_shown, set_optimistic_values, register_optimistic,
  update_tx_hash, clear_optimistic, mark_hook_failed, add_transaction, drop_transaction, mark_error,
  optimistic_tx,
}
use joint_save.Optimistic.Polling.{work, polls_of, starts, run-polls}
use joint_save.Optimistic.Settled.{IsSettled, run-IsSettled}

optimistic : Unit {0}
unfolding register_pending poll_transaction hashed set_pending_tx_hash settle_tx schedule answered
    mark_failed cleanup fire_at answer_at step run register_optimistic update_tx_hash
    clear_optimistic set_optimistic_values mark_hook_failed
optimistic = tt

abbrev tx : PendingTransaction
tx = optimistic_tx (some "P") deposit "G" none 7 "7" "0.5"

abbrev tx_id : String
tx_id = "P-deposit-7-0.5"

abbrev confirmed_later : List Event
confirmed_later =
    registers tx ∷ hashes tx_id "h" ∷ answers 0 not_found ∷ fires 0 ∷ answers 0 success ∷ []

abbrev in_flight : State
in_flight = run (initial tx) (registers tx ∷ hashes tx_id "h" ∷ [])

abbrev asked : Asked
asked = record { tx_id = tx_id; object = 0; attempt = 0 }

abbrev fresh_hook : HookState
fresh_hook = record { optimistic_state = nothing_shown; tx_id_ref = ""; manager = initial tx }

test_confirmed :
    (map (λ h. h.status) (run (initial tx) confirmed_later).heard
      ≡ confirmed ∷ pending ∷ pending ∷ [])
    × ((run (initial tx) confirmed_later).pending_transactions ≡ [])
unfolding optimistic
test_confirmed = (refl, refl)

-- a second hash starts a second run of polls, whose timeouts take the place of the first one's
test_second_hash :
    map
      (λ t. t.handle)
      (run in_flight
        (hashes tx_id "k" ∷ answers 0 not_found ∷ answers 0 not_found ∷ cleans ∷ [])).timers
    ≡ 0 ∷ []
unfolding optimistic
test_second_hash = refl

abbrev deposits : List (OptimisticTx ℕ)
deposits = add_transaction "a" "deposit" 5 none []

test_list : (drop_transaction "a" deposits ≡ []) × (mark_error "b" "no" deposits ≡ deposits)
test_list = (refl, refl)

test_hook :
    ((update_tx_hash "h" (register_optimistic tx fresh_hook)).manager.asking ≡ asked ∷ [])
    × ((update_tx_hash "h" fresh_hook).manager.asking ≡ [])
    × ((set_optimistic_values (some (pos 9)) none none (register_optimistic tx fresh_hook)
          ).optimistic_state.optimistic_pool_total
        ≡ some (pos 9))
    × ((clear_optimistic (register_optimistic tx fresh_hook)).tx_id_ref ≡ "")
unfolding optimistic
test_hook = (refl, refl, refl, refl)

run-polls_example :
    polls_of (initial tx) confirmed_later + work (run (initial tx) confirmed_later)
    ≤ work (initial tx) + 61 * sum_by starts confirmed_later
run-polls_example = run-polls (initial tx) confirmed_later

run-IsSettled_example : IsSettled (run (initial tx) confirmed_later) tx_id
unfolding optimistic
run-IsSettled_example =
    run-IsSettled tx confirmed_later ((refl, refl), (tt, (tt, (tt, (tt, tt))))) refl refl tx_id refl
