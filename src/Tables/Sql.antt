-- ===== src/Tables/Sql.antt =====
-- A gorm over the tables themselves, which runs a query by its meaning. It shows that the hypotheses
-- of Gorm/Laws can hold, and runs the tests.
pub mod Rows
pub mod Documented
use go_hermes.Base.{
  ℕ, String, true, Option, none, some, List, [], ◌∷◌, ◌++◌, map, ◌==◌, not, if◌then◌else◌, select,
  find, take, drop, length, is_some,
}
use go_hermes.Base.Int.{ℤ, pos, negsuc}
use go_hermes.AppError.{Result, ok, err, pg}
use go_hermes.Entity.{IdempotencyRecord, LedgerEntry}
use go_hermes.Gorm.Query.{Model, Row, Query, Value}
use go_hermes.Gorm.Semantics.{table, primary_key, keeps, rows_of, set_columns}
use go_hermes.Gorm.Session.{Gorm}
use go_hermes.Store.{M}
use go_hermes.Store.View.{
  put_delivery, View, record_by_key, add_transaction, add_entries, add_audit, add_delivery,
  add_record,
}
use go_hermes.Tables.{roll_back, found, save_wallet, open_wallet}

abbrev pub one_row : {A : Type 0} → Result A × View → Result (A × ℕ) × View
one_row (ok a, v) = (ok (a, 1), v)
one_row (err e, v) = (err e, v)

-- A row whose key is taken: an error, or no row under ON CONFLICT DO NOTHING.
abbrev pub taken_key : List String → IdempotencyRecord → M View (IdempotencyRecord × ℕ)
taken_key [] x v = (err (pg "23505"), v)
taken_key (c ∷ cs) x v = (ok (x, 0), v)

abbrev pub insert_record : Query → IdempotencyRecord → M View (IdempotencyRecord × ℕ)
insert_record q x v =
    if is_some (record_by_key x.idempotency_key x.user_id x.endpoint v.idempotency)
    then taken_key q.conflict_do_nothing x v
    else (ok (x, 1), add_record v x)

abbrev pub insert : Query → (k : Model) → Row k → M View (Row k × ℕ)
insert q Model.users x v = (ok (x, 1), record v { users = v.users ++ x ∷ [] })
insert q Model.wallets x v = one_row (open_wallet x v)
insert q Model.transactions x v = (ok (x, 1), add_transaction v x)
insert q Model.ledger_entries x v = (ok (x, 1), add_entries v (x ∷ []))
insert q Model.idempotency_records x v = insert_record q x v
insert q Model.audit_logs x v = (ok (x, 1), add_audit v x)
insert q Model.webhook_deliveries x v = (ok (x, 1), add_delivery v x)

-- Only ledger entries are inserted as a list.
abbrev pub insert_many : (k : Model) → List (Row k) → M View (List (Row k))
insert_many Model.ledger_entries es v = (ok es, add_entries v es)
insert_many k xs v = (ok xs, v)

-- The first row of each primary key.
abbrev pub firsts : (k : Model) → List (Row k) → List (Row k)
firsts k [] = []
firsts k (x ∷ xs) = x ∷ select (λ y. not (primary_key k x == primary_key k y)) (firsts k xs)

abbrev pub cut {ℓ} : {A : Type ℓ} → (ℕ → List A → List A) → Option ℤ → List A → List A
cut f none xs = xs
cut f (some (pos n)) xs = f n xs
cut f (some (negsuc n)) xs = xs

abbrev pub lockable : (k : Model) → Option String → List (Row k) → List (Row k)
lockable k none xs = xs
lockable k (some strength) xs = firsts k xs

abbrev pub found_rows : (k : Model) → Query → View → List (Row k)
found_rows k q v =
    cut take q.limit (cut drop q.offset (select (keeps k v q) (lockable k q.locking (table k v))))

abbrev pub put : (k : Model) → Row k → M View (Row k)
put Model.wallets w v = save_wallet w v
put Model.webhook_deliveries d v = (ok d, record v { deliveries = put_delivery d v.deliveries })
put k x v = (ok x, v)

abbrev pub set_rows : Query → Model → List (String × Value) → M View (Unit {0})
set_rows q Model.idempotency_records sets v = (
  ok tt,
  record v {
    idempotency =
        map (λ x. if keeps Model.idempotency_records v q x then set_columns sets x else x)
          v.idempotency;
  },
)
set_rows q k sets v = (ok tt, v)

-- Handle 0 is the connection, handle 1 the transaction.
abbrev pub sql : Gorm
sql = record {
  Db = View;
  Handle = ℕ;
  SqlDb = Unit;
  transaction = λ h A f v. roll_back v (f 1 v);
  create = λ h q k x v. insert q k x v;
  create_many = λ h k xs v. insert_many k xs v;
  first = λ h q k v. found (find (keeps k v q) (table k v)) v;
  find = λ h q k v. (ok (found_rows k q v), v);
  count = λ h q k v. (ok (pos (length (rows_of k v q))), v);
  save = λ h k x v. put k x v;
  updates = λ h q k sets v. set_rows q k sets v;
  sql_db = λ h v. (ok tt, v);
  ping_context = λ d v. (ok tt, v);
}
