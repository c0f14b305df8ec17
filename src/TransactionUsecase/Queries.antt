-- ===== src/TransactionUsecase/Queries.antt =====
-- The four reads at the end of internal/usecase/transaction.go. `ceil_quotient` is the float64
-- quotient of the page count.
use go_hermes.Base.{String, List, map, if◌then◌else◌}
use go_hermes.Base.Int.{ℤ}
use go_hermes.AppError.{Error, bad_request, not_found, internal, is_not_found}
use go_hermes.Json.{Json}
use go_hermes.Pagination.{Params, meta}
use go_hermes.Store.{M, Repositories, pure, some_or, map_error, ◌>>=◌}
use go_hermes.Types.{
  TransactionResponse, LedgerResponse, to_transaction_response, to_ledger_response,
}
use go_hermes.UuidLib.{UuidLib}

abbrev pub transaction_error : Error → Error
transaction_error e = if is_not_found e then not_found "transaction not found" else internal e

module _ (r : Repositories) (u : UuidLib) (ceil_quotient : ℤ → ℤ → ℤ) where
  unfoldable pub list_my_transactions : String → Params → M r.Db (List TransactionResponse × Json)
  unfolding meta to_transaction_response
  list_my_transactions user_id params = do
    parsed ← some_or (u.parse user_id) (bad_request "invalid user id")
    listed ← map_error internal (r.transactions.list_by_user parsed params)
    pure (map (to_transaction_response u) listed.0, meta ceil_quotient listed.1 params)

  unfoldable pub list_my_ledgers : String → Params → M r.Db (List LedgerResponse × Json)
  unfolding meta to_ledger_response
  list_my_ledgers user_id params = do
    parsed ← some_or (u.parse user_id) (bad_request "invalid user id")
    listed ← map_error internal (r.ledgers.list_by_user parsed params)
    pure (map (to_ledger_response u) listed.0, meta ceil_quotient listed.1 params)

module _ (r : Repositories) (u : UuidLib) where
  unfoldable pub get_my_transaction : String → String → M r.Db TransactionResponse
  unfolding to_transaction_response
  get_my_transaction user_id transaction_id = do
    parsed_user ← some_or (u.parse user_id) (bad_request "invalid user id")
    parsed ← some_or (u.parse transaction_id) (bad_request "invalid transaction id")
    transaction ← map_error transaction_error (r.transactions.get_by_id_for_user parsed parsed_user)
    pure (to_transaction_response u transaction)

  unfoldable pub list_transaction_ledgers : String → String → M r.Db (List LedgerResponse)
  unfolding to_ledger_response
  list_transaction_ledgers user_id transaction_id = do
    parsed_user ← some_or (u.parse user_id) (bad_request "invalid user id")
    parsed ← some_or (u.parse transaction_id) (bad_request "invalid transaction id")
    entries ← map_error internal (r.ledgers.list_by_transaction_for_user parsed parsed_user)
    pure (map (to_ledger_response u) entries)
