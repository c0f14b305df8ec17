-- ===== src/Reconciliation/Run.antt =====
-- ReconciliationUsecase.Run: the three reads, the report, and the audit log entry of the caller.
pub mod Effect
use go_hermes.Base.{ℕ, String, Bool, none, some, List}
use go_hermes.Base.Int.{pos}
use go_hermes.AppError.{bad_request, internal}
use go_hermes.Entity.{Uuid, Time, AuditLog}
use go_hermes.Json.{Json, num, flag, obj, field, end}
use go_hermes.Reconciliation.Check.{reconcile_state}
use go_hermes.Reconciliation.Report.{Report}
use go_hermes.Store.{M, Repositories, pure, some_or, map_error, ◌>>=◌, ◌>>◌}
use go_hermes.UuidLib.{UuidLib}

-- The results of uuid.New() and time.Now().
pub record RunDraws : Type 0 where
  pub checked_at : Time
  pub audit_id : Uuid
  pub audit_at : Time

unfoldable pub run_audit : RunDraws → Uuid → Report → AuditLog
run_audit d actor report = record {
  id = d.audit_id;
  actor_user_id = some actor;
  action = "ADMIN_RUN_RECONCILIATION";
  entity_type = "reconciliation";
  entity_id = none;
  metadata = obj (
      field "healthy" (flag report.healthy) (
        field "issue_count" (num (pos report.summary.issue_count)) (
          field "ledger_entries_checked" (num (pos report.summary.ledger_entries_checked)) (
            field "transactions_checked" (num (pos report.summary.transactions_checked))
              (field "wallets_checked" (num (pos report.summary.wallets_checked)) end)))));
  created_at = d.audit_at;
}

module _ (r : Repositories) (u : UuidLib) (d : RunDraws) where
  unfoldable pub run : String → M r.Db Report
  unfolding reconcile_state run_audit
  run actor_user_id = do
    actor ← some_or (u.parse actor_user_id) (bad_request "invalid user id")
    wallets ← map_error internal r.reconciliation.list_wallets
    transactions ← map_error internal r.reconciliation.list_transactions
    ledger_entries ← map_error internal r.reconciliation.list_ledger_entries
    map_error internal (
        r.audits.create
          (run_audit d actor (reconcile_state u d.checked_at wallets transactions ledger_entries)))
    pure (reconcile_state u d.checked_at wallets transactions ledger_entries)
