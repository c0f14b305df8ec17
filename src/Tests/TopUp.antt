-- ===== src/Tests/TopUp.antt =====
-- Top-ups on the reference tables.
use go_hermes.Base.{true, false, some, [], ◌∷◌, ◌≡◌, refl, arith}
use go_hermes.Base.Int.{ltb_ℤ, pos, ◌≤ℤ◌}
use go_hermes.Base.Int64.{add64}
use go_hermes.Webhook.Create.{noop}
use go_hermes.AppError.{Result, ok, err, is_app}
use go_hermes.Types.{OperationResult, TopUpRequest}
use go_hermes.Entity.{Uuid, Wallet, is_active}
use go_hermes.Store.{◌>>=◌, require, some_or, map_error}
use go_hermes.Store.View.{View, wallet_of_user}
use go_hermes.Store.Validity.{IsValid}
use go_hermes.Tables.{tables}
use go_hermes.Tables.Lawful.{tables-IsStore}
use go_hermes.TransactionUsecase.Common.{World}
use go_hermes.TransactionUsecase.TopUp.{top_up}
use go_hermes.TransactionUsecase.TopUp.Returns.{top_up-Returns}
use go_hermes.TransactionUsecase.TopUp.Run.{top_up-err}
use go_hermes.TransactionUsecase.TopUp.Money.{Credited, top_up-moves, top_up-IsValid}
use go_hermes.TransactionUsecase.TopUp.Retry.{top_up_replays, top_up_once, top_up_retries}
use go_hermes.Tests.World.{
  ok_of, err_of, balances, start-IsValid, uuid, alice, start, world, hooks, draws, later_draws,
  top_up_request,
}

abbrev run_top_up : Result OperationResult × World View
run_top_up = top_up tables uuid hooks top_up_request draws world

abbrev top_up_again : Result OperationResult × World View
top_up_again = top_up tables uuid hooks top_up_request later_draws run_top_up.1

abbrev bad_top_up : TopUpRequest
bad_top_up = record top_up_request { user_id = "u-9" }

abbrev run_bad : Result OperationResult × World View
run_bad = top_up tables uuid hooks bad_top_up draws world

top_up_ends : run_top_up ≡ (ok (ok_of run_top_up.0), run_top_up.1)
unfolding top_up ◌>>=◌ require some_or map_error add64
top_up_ends = refl

top_up_again_ends : top_up_again ≡ (ok (ok_of top_up_again.0), top_up_again.1)
unfolding top_up ◌>>=◌ require some_or map_error add64
top_up_again_ends = refl

bad_ends : run_bad ≡ (err (err_of run_bad.0), run_bad.1)
unfolding top_up ◌>>=◌ require some_or map_error
bad_ends = refl

top_up_new : (ok_of run_top_up.0).replay ≡ false
unfolding top_up ◌>>=◌ require some_or map_error add64
top_up_new = refl

top_up_runs : balances run_top_up.1.db ≡ pos 130 ∷ pos 7 ∷ []
unfolding top_up ◌>>=◌ require some_or map_error add64
top_up_runs = refl

top_up-moves_example :
    (user_id : Uuid) × (owned : Wallet) × (uuid.parse "u-1" ≡ some user_id)
    × (pos 1 ≤ℤ pos 30)
    × (wallet_of_user user_id start.wallets ≡ some owned)
    × (is_active owned.status ≡ true)
    × Credited start run_top_up.1.db owned (pos 30)
top_up-moves_example =
    top_up-moves tables tables-IsStore uuid hooks top_up_request draws world run_top_up.1
      (ok_of run_top_up.0) start-IsValid (omega arith) top_up_ends top_up_new

top_up-IsValid_example : IsValid run_top_up.1.db
top_up-IsValid_example =
    top_up-IsValid tables tables-IsStore uuid hooks top_up_request draws world start-IsValid

top_up-err_example :
    (run_bad.1.db ≡ start) × (run_bad.1.queue ≡ []) × (is_app (err_of run_bad.0) ≡ true)
top_up-err_example =
    top_up-err tables tables-IsStore uuid hooks bad_top_up draws world run_bad.1 (err_of run_bad.0)
      bad_ends

top_up_replays_example :
    (ok_of top_up_again.0 ≡ record (ok_of run_top_up.0) { replay = true })
    × (top_up_again.1.db ≡ run_top_up.1.db)
    × (top_up_again.1.queue ≡ run_top_up.1.queue)
top_up_replays_example =
    top_up_replays tables tables-IsStore uuid hooks top_up_request draws later_draws world
      run_top_up.1 top_up_again.1 (ok_of run_top_up.0) (ok_of top_up_again.0) top_up_ends
      top_up_again_ends

top_up_once_example :
    ((top_up_retries tables tables-IsStore uuid hooks top_up_request
        (later_draws ∷ [])
        run_top_up.1).db
      ≡ run_top_up.1.db)
    × ((top_up_retries tables tables-IsStore uuid hooks top_up_request
          (later_draws ∷ [])
          run_top_up.1).queue
        ≡ run_top_up.1.queue)
top_up_once_example =
    top_up_once tables tables-IsStore uuid hooks top_up_request draws (later_draws ∷ []) world
      run_top_up.1 (ok_of run_top_up.0) top_up_ends

no_wrap : ltb_ℤ (add64 alice.balance top_up_request.amount) (pos 0) ≡ false
unfolding add64
no_wrap = refl

top_up-Returns_example :
    (res : OperationResult) × (end : World View) × (top_up tables uuid noop top_up_request draws
        world
      ≡ (ok res, end))
top_up-Returns_example =
    top_up-Returns uuid top_up_request draws 1 alice world refl refl refl refl refl refl refl
      no_wrap
