-- ===== src/Tests/Transaction.antt =====
-- Transfers on the reference tables.
use go_hermes.Base.{true, false, some, [], ◌∷◌, ◌≡◌, ◌≢◌, refl, arith, String, str_eq_iff}
use go_hermes.Base.Int.{pos, ◌≤ℤ◌}
use go_hermes.Base.Int64.{IsInt64, add64, sub64}
use go_hermes.Webhook.Create.{enqueue, noop}
use go_hermes.AppError.{Error, Result, ok, err, conflict, is_app}
use go_hermes.Types.{OperationResult, TransferRequest}
use go_hermes.Entity.{Uuid, Wallet, is_active}
use go_hermes.Store.{◌>>=◌, require, some_or, map_error}
use go_hermes.Store.View.{View, wallet_of_user, wallet_by_id}
use go_hermes.Store.Wallets.{total}
use go_hermes.Store.Validity.{IsValid}
use go_hermes.Tables.{tables}
use go_hermes.Tables.Lawful.{tables-IsStore}
use go_hermes.TransactionUsecase.Common.{World}
use go_hermes.TransactionUsecase.Transfer.{transfer}
use go_hermes.TransactionUsecase.Transfer.Returns.{CanMove, transfer-Returns}
use go_hermes.TransactionUsecase.Transfer.Failed.{transfer-err}
use go_hermes.TransactionUsecase.Transfer.Money.{
  Moved, transfer-conserves, transfer-IsValid, transfer-moves,
}
use go_hermes.TransactionUsecase.Transfer.Retry.{
  transfer_replays, transfer_once, transfer_key_reused, retries,
}
use go_hermes.Tests.World.{
  ok_of, err_of, balances, start-IsValid, uuid, alice, bob, start, world, hooks, draws, later_draws,
  transfer_request,
}

-- The first transfer, the same request again, and another payload under its key.
abbrev run_transfer : Result OperationResult × World View
run_transfer = transfer tables uuid hooks transfer_request draws world

abbrev run_again : Result OperationResult × World View
run_again = transfer tables uuid hooks transfer_request later_draws run_transfer.1

abbrev other_transfer : TransferRequest
other_transfer = record transfer_request { request_hash = "other" }

abbrev large_transfer : TransferRequest
large_transfer = record transfer_request { amount = pos 101 }

abbrev run_large : Result OperationResult × World View
run_large = transfer tables uuid hooks large_transfer draws world

transfer_ends : run_transfer ≡ (ok (ok_of run_transfer.0), run_transfer.1)
unfolding transfer ◌>>=◌ require some_or map_error add64 sub64
transfer_ends = refl

again_ends : run_again ≡ (ok (ok_of run_again.0), run_again.1)
unfolding transfer ◌>>=◌ require some_or map_error add64 sub64
again_ends = refl

large_ends : run_large ≡ (err (err_of run_large.0), run_large.1)
unfolding transfer ◌>>=◌ require some_or map_error
large_ends = refl

transfer_new : (ok_of run_transfer.0).replay ≡ false
unfolding transfer ◌>>=◌ require some_or map_error add64 sub64
transfer_new = refl

transfer_runs :
    (balances run_transfer.1.db ≡ pos 60 ∷ pos 47 ∷ []) × (run_transfer.1.queue ≡ 905 ∷ [])
unfolding transfer ◌>>=◌ require some_or map_error add64 sub64 enqueue
transfer_runs = (refl, refl)

transfer_refused : (err_of run_large.0 ≡ conflict "insufficient balance") × (run_large.1.db ≡ start)
unfolding transfer ◌>>=◌ require some_or map_error
transfer_refused = (refl, refl)

other_hash : ◌≢◌ {A = String} "other" "h"
other_hash p = ne ((str_eq_iff "other" "h").1 p)
  where
    ne : false ≡ true → ⊥
    ne q = cc

amount-IsInt64 : IsInt64 (pos 40)
amount-IsInt64 = omega arith

transfer-conserves_example : total run_transfer.1.db.wallets ≡ total start.wallets
transfer-conserves_example =
    transfer-conserves tables tables-IsStore uuid hooks transfer_request draws world start-IsValid
      amount-IsInt64

transfer-IsValid_example : IsValid run_transfer.1.db
transfer-IsValid_example =
    transfer-IsValid tables tables-IsStore uuid hooks transfer_request draws world start-IsValid

transfer-moves_example :
    (user_id recipient_id : Uuid) × (a b : Wallet) × (uuid.parse "u-1" ≡ some user_id)
    × (uuid.parse "w-20" ≡ some recipient_id)
    × (wallet_of_user user_id start.wallets ≡ some a)
    × (wallet_by_id recipient_id start.wallets ≡ some b)
    × (a.id ≢ b.id)
    × (is_active a.status ≡ true)
    × (is_active b.status ≡ true)
    × (pos 1 ≤ℤ pos 40)
    × (pos 40 ≤ℤ a.balance)
    × Moved start run_transfer.1.db a b (pos 40)
transfer-moves_example =
    transfer-moves tables tables-IsStore uuid hooks transfer_request draws world run_transfer.1
      (ok_of run_transfer.0) start-IsValid amount-IsInt64 transfer_ends transfer_new

transfer-err_example :
    (run_large.1.db ≡ start) × (run_large.1.queue ≡ []) × (is_app (err_of run_large.0) ≡ true)
transfer-err_example =
    transfer-err tables tables-IsStore uuid hooks large_transfer draws world run_large.1
      (err_of run_large.0) large_ends

transfer_replays_example :
    (ok_of run_again.0 ≡ record (ok_of run_transfer.0) { replay = true })
    × (run_again.1.db ≡ run_transfer.1.db)
    × (run_again.1.queue ≡ run_transfer.1.queue)
transfer_replays_example =
    transfer_replays tables tables-IsStore uuid hooks transfer_request draws later_draws world
      run_transfer.1 run_again.1 (ok_of run_transfer.0) (ok_of run_again.0) transfer_ends again_ends

transfer_once_example :
    ((retries tables tables-IsStore uuid hooks transfer_request
        (later_draws ∷ draws ∷ [])
        run_transfer.1).db
      ≡ run_transfer.1.db)
    × ((retries tables tables-IsStore uuid hooks transfer_request
          (later_draws ∷ draws ∷ [])
          run_transfer.1).queue
        ≡ run_transfer.1.queue)
transfer_once_example =
    transfer_once tables tables-IsStore uuid hooks transfer_request draws (later_draws ∷ draws ∷ [])
      world run_transfer.1 (ok_of run_transfer.0) transfer_ends

transfer_key_reused_example :
    (e : Error) × (w2 : World View) × (transfer tables uuid hooks other_transfer later_draws
        run_transfer.1
      ≡ (err e, w2))
    × (w2.db ≡ run_transfer.1.db)
    × (w2.queue ≡ run_transfer.1.queue)
    × (is_app e ≡ true)
transfer_key_reused_example =
    transfer_key_reused tables tables-IsStore uuid hooks transfer_request other_transfer draws
      later_draws world run_transfer.1 (ok_of run_transfer.0) transfer_ends refl refl other_hash

can_move : CanMove transfer_request alice bob
unfolding add64 sub64
can_move = record {
  differ = λ e. absurd (omega (arith, e));
  sender_active = refl;
  recipient_active = refl;
  covered = refl;
  debit_fits = refl;
  credit_fits = refl;
}

transfer-Returns_example :
    (res : OperationResult) × (end : World View) × (transfer tables uuid noop transfer_request draws
        world
      ≡ (ok res, end))
transfer-Returns_example =
    transfer-Returns uuid transfer_request draws 1 alice bob world refl refl refl refl refl refl
      refl refl can_move
