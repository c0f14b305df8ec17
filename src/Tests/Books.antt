-- ===== src/Tests/Books.antt =====
-- Two registrations, a top-up and a transfer, from empty tables on.
use go_hermes.Base.{true, [], ◌≡◌, refl}
use go_hermes.Base.Int.{pos}
use go_hermes.Base.Int64.{add64, sub64}
use go_hermes.AuthUsecase.{AuthDraws, register}
use go_hermes.Handler.Account.{register_handler}
use go_hermes.Handler.Input.{hash_payload}
use go_hermes.Handler.Money.{top_up_handler, transfer_handler}
use go_hermes.Handler.Reply.{with_body}
use go_hermes.Books.{Chain, entries_of}
use go_hermes.Books.Healthy.{history_healthy}
use go_hermes.Books.History.{
  Reach, registered, topped_up, transferred, here, next, history_balances,
}
use go_hermes.Entity.{Wallet, WalletStatus}
use go_hermes.Reconciliation.Check.{reconcile_state}
use go_hermes.Reconciliation.Entry.{derived_balance}
use go_hermes.Reconciliation.Order.{before}
use go_hermes.Store.{◌>>=◌, require, some_or, map_error}
use go_hermes.Store.View.{View}
use go_hermes.Tables.{tables}
use go_hermes.Tables.Accounts.{tables-IsAccountStore}
use go_hermes.Tables.Lawful.{tables-IsStore}
use go_hermes.TransactionUsecase.Common.{World}
use go_hermes.TransactionUsecase.TopUp.{top_up, top_up_transaction}
use go_hermes.TransactionUsecase.Transfer.{transfer, transfer_transaction}
use go_hermes.Tests.Account.{auth_lib, auth_draws}
use go_hermes.Tests.Requests.{
  request, sign_up_body, top_up_body, transfer_body, top_up_body-IsInt64, transfer_body-IsInt64,
}
use go_hermes.Tests.World.{uuid, hooks, draws, later_draws}

abbrev empty : World View
empty = record {
  db = record {
    users = [];
    wallets = [];
    transactions = [];
    ledger = [];
    idempotency = [];
    audits = [];
    deliveries = [];
  };
  queue = [];
}

abbrev sender_draws : AuthDraws
sender_draws = record auth_draws { new_user_id = 1; new_wallet_id = 10 }

abbrev recipient_draws : AuthDraws
recipient_draws = record auth_draws { new_user_id = 2; new_wallet_id = 20 }

abbrev opened_one : World View
opened_one = record empty {
  db = (register_handler tables uuid auth_lib sender_draws sign_up_body request empty.db).1;
}

abbrev opened_two : World View
opened_two = record empty {
  db = (register_handler tables uuid auth_lib recipient_draws sign_up_body request opened_one.db).1;
}

abbrev filled : World View
filled = (top_up_handler tables uuid hooks draws top_up_body request opened_two).1

abbrev paid : World View
paid = (transfer_handler tables uuid hooks later_draws transfer_body request filled).1

paid_reached : Reach tables uuid hooks auth_lib empty paid
paid_reached =
    next {w'' = paid}
      (next {w'' = filled}
        (next {w'' = opened_two}
          (next {w'' = opened_one} here (registered sender_draws sign_up_body request refl))
          (registered recipient_draws sign_up_body request refl))
        (topped_up draws top_up_body request top_up_body-IsInt64 refl))
      (transferred later_draws transfer_body request transfer_body-IsInt64 refl)

abbrev sender_wallet : Wallet
sender_wallet = record {
  id = 10;
  user_id = 1;
  balance = pos 20;
  status = WalletStatus.active;
  created_at = 0;
  updated_at = 0;
}

history_balances_example :
    Chain (entries_of 10 paid.db.ledger) (pos 20)
    × (derived_balance (entries_of 10 paid.db.ledger) ≡ pos 20)
unfolding register_handler top_up_handler transfer_handler with_body hash_payload register top_up
    transfer ◌>>=◌ require some_or map_error add64 sub64
history_balances_example =
    history_balances tables uuid hooks auth_lib tables-IsStore tables-IsAccountStore refl refl
      paid_reached 10 sender_wallet refl

history_healthy_example :
    (reconcile_state uuid 70 paid.db.wallets paid.db.transactions paid.db.ledger).healthy ≡ true
unfolding register_handler top_up_handler transfer_handler with_body hash_payload register top_up
    transfer top_up_transaction transfer_transaction before ◌>>=◌ require some_or map_error add64
    sub64
history_healthy_example =
    history_healthy tables uuid hooks auth_lib tables-IsStore tables-IsAccountStore refl refl refl
      paid_reached (refl, (refl, tt)) (refl, (refl, tt))
      ((refl, (refl, tt)), ((refl, tt), (tt, tt))) 70
