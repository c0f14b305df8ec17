-- ===== src/Tables.antt =====
-- A database that never fails but by the constraints: the tables themselves as the state. It shows
-- that the hypotheses of Store/Laws can hold, and runs the tests.
pub mod Lawful
pub mod Worker
pub mod Accounts
pub mod Readers
pub mod Returns
pub mod Sql
use go_hermes.Base.{
  ℕ, Bool, true, false, Option, none, some, List, [], ◌∷◌, ◌++◌, ◌≡◌, refl, ◌==◌, if◌then◌else◌,
  find, is_some, select, length,
}
use go_hermes.Base.Int.{ℤ, pos, ltb_ℤ}
use go_hermes.AppError.{Error, Result, ok, err, record_not_found, pg}
use go_hermes.Entity.{Uuid, Wallet, Transaction, IdempotencyRecord, User, WebhookDelivery}
use go_hermes.Store.{M, Repositories}
use go_hermes.Store.View.{
  View, has_id, wallet_by_id, wallet_of_user, put_wallet, record_by_key, set_wallets,
  add_transaction, add_entries, add_audit, add_delivery, add_record, complete_key, put_delivery,
}

-- ROLLBACK puts the tables back.
abbrev pub roll_back : {A : Type 0} → View → Result A × View → Result A × View
roll_back v (ok a, v') = (ok a, v')
roll_back v (err e, v') = (err e, v)

abbrev pub found : {A : Type 0} → Option A → M View A
found none v = (err record_not_found, v)
found (some a) v = (ok a, v)

-- The rows of the ids, in the order of the ids.
abbrev pub with_row : Option Wallet → List Wallet → List Wallet
with_row none ws = ws
with_row (some w) ws = w ∷ ws

abbrev pub rows : List Uuid → List Wallet → List Wallet
rows [] ws = []
rows (i ∷ is) ws = with_row (wallet_by_id i ws) (rows is ws)

-- chk_wallets_balance_non_negative
abbrev pub save_wallet : Wallet → M View Wallet
save_wallet w v =
    if ltb_ℤ w.balance (pos 0)
    then (err (pg "23514"), v)
    else (ok w, set_wallets v (put_wallet w v.wallets))

-- The unique key of wallets on user_id.
abbrev pub open_wallet : Wallet → M View Wallet
open_wallet w v =
    if is_some (wallet_of_user w.user_id v.wallets)
    then (err (pg "23505"), v)
    else (ok w, set_wallets v (v.wallets ++ w ∷ []))

abbrev pub store_record : IdempotencyRecord → M View Bool
store_record x v =
    if is_some (record_by_key x.idempotency_key x.user_id x.endpoint v.idempotency)
    then (ok false, v)
    else (ok true, add_record v x)

abbrev pub tables : Repositories
tables = record {
  Db = View;
  tx = record { within_transaction = λ A f v. roll_back v (f v) };
  users = record {
    create = λ x v. (ok x, record v { users = v.users ++ x ∷ [] });
    get_by_email = λ x v. (err record_not_found, v);
    get_by_id = λ i v. found (find (λ x. x.id == i) v.users) v;
  };
  wallets = record {
    create = open_wallet;
    get_by_user_id = λ i v. found (wallet_of_user i v.wallets) v;
    get_by_id = λ i v. found (wallet_by_id i v.wallets) v;
    lock_by_ids = λ is v. (ok (rows is v.wallets), v);
    update = save_wallet;
  };
  transactions = record {
    create = λ x v. (ok x, add_transaction v x);
    get_by_id = λ i v. found (find (λ x. x.id == i) v.transactions) v;
    list_by_user = λ u p v. (ok (v.transactions, pos (length v.transactions)), v);
    list_all = λ p v. (ok (v.transactions, pos (length v.transactions)), v);
    get_by_id_for_user = λ i u v. found (find (λ x. x.id == i) v.transactions) v;
  };
  ledgers = record {
    create_many = λ es v. (ok tt, add_entries v es);
    list_by_user = λ u p v. (ok (v.ledger, pos (length v.ledger)), v);
    list_by_transaction_for_user = λ i u v. (ok v.ledger, v);
  };
  idempotency = record {
    reserve = store_record;
    get = λ key i endpoint v. found (record_by_key key i endpoint v.idempotency) v;
    mark_completed = λ i status body v. (ok tt, complete_key v i status body);
  };
  audits = record {
    create = λ a v. (ok tt, add_audit v a);
    list = λ p v. (ok (v.audits, pos (length v.audits)), v);
  };
  health = record { ping = λ v. (ok tt, v) };
  reconciliation = record {
    list_wallets = λ v. (ok v.wallets, v);
    list_transactions = λ v. (ok v.transactions, v);
    list_ledger_entries = λ v. (ok v.ledger, v);
  };
  webhooks = record {
    create = λ x v. (ok x, add_delivery v x);
    update = λ x v. (ok x, record v { deliveries = put_delivery x v.deliveries });
    get_by_id = λ i v. found (find (λ x. x.id == i) v.deliveries) v;
    list = λ f p v. (ok (v.deliveries, pos (length v.deliveries)), v);
    list_due = λ now limit v. (ok v.deliveries, v);
  };
}
