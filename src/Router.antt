-- ===== src/Router.antt =====
-- RegisterRoutes of internal/delivery/http/router.go: the routes with the guards in front of their
-- handlers. What fiber does with the routes, and the pages of the documentation, are left out.
pub mod Starts
pub mod Guarded
use go_hermes.Base.{String, Bool, true, false, List, [], ◌∷◌, ◌++◌, if◌then◌else◌}
use go_hermes.AppError.{Result, ok, err}
use go_hermes.AuthUsecase.{JwtManager}
use go_hermes.Entity.{Time, Role}
use go_hermes.Middleware.{JwtLib, TextLib, Ctx, auth, require_role, protect_metrics}

pub data Method : Type 0 where
  get post : Method

-- The handlers, by the fields of Handlers and their methods.
pub data Action : Type 0 where
  health_check metrics_endpoint swagger openapi : Action
  auth_register auth_login : Action
  user_me wallet_me wallet_balance wallet_top_up : Action
  tx_transfer tx_list_mine tx_get_one ledger_list_mine ledger_list_by_transaction : Action
  admin_audit_logs admin_reconciliation admin_transactions admin_webhooks admin_webhook : Action

-- The rate limits, by the fields of RouteMiddleware.
pub data Limit : Type 0 where
  login top_up transfer : Limit

pub data Guard : Type 0 where
  authenticated metrics_auth : Guard
  role : Role → Guard
  limited : Limit → Guard

pub record Route : Type 0 where
  pub method : Method
  pub path : String
  pub guards : List Guard
  pub action : Action

-- Which of the optional parts are not nil, and whether the documentation is served.
pub record Parts : Type 0 where
  pub login_limit : Bool
  pub top_up_limit : Bool
  pub transfer_limit : Bool
  pub metrics_endpoint : Bool
  pub metrics_auth : Bool
  pub docs_enabled : Bool

abbrev pub when : {A : Type 0} → Bool → A → List A
when b x = if b then x ∷ [] else []

abbrev pub on : Method → String → List Guard → Action → Route
on method path guards action = record {
  method = method;
  path = path;
  guards = guards;
  action = action;
}

abbrev pub metrics_routes : Parts → List Route
metrics_routes p =
    if p.metrics_endpoint
    then on get "/metrics" (when p.metrics_auth metrics_auth) metrics_endpoint ∷ []
    else []

abbrev pub docs_routes : Parts → List Route
docs_routes p =
    if p.docs_enabled
    then on get "/swagger" [] swagger ∷ on get "/swagger/openapi.yaml" [] openapi ∷ []
    else []

-- v1.Group("", middleware.Auth(jwtManager))
abbrev pub protected_routes : Parts → List Route
protected_routes p =
    on get "/api/v1/users/me" (authenticated ∷ []) user_me
    ∷ on get "/api/v1/wallets/me" (authenticated ∷ []) wallet_me
    ∷ on get "/api/v1/wallets/me/balance" (authenticated ∷ []) wallet_balance
    ∷ on post "/api/v1/wallets/me/top-up" (authenticated ∷ when p.top_up_limit (limited top_up))
        wallet_top_up
    ∷ on post "/api/v1/transfers" (authenticated ∷ when p.transfer_limit (limited transfer))
        tx_transfer
    ∷ on get "/api/v1/transactions/me" (authenticated ∷ []) tx_list_mine
    ∷ on get "/api/v1/transactions/:id" (authenticated ∷ []) tx_get_one
    ∷ on get "/api/v1/ledgers/me" (authenticated ∷ []) ledger_list_mine
    ∷ on get "/api/v1/ledgers/transactions/:transactionId" (authenticated ∷ [])
        ledger_list_by_transaction
    ∷ []

-- protected.Group("/admin", middleware.RequireRole(entity.RoleAdmin))
abbrev pub admin_guards : List Guard
admin_guards = authenticated ∷ role Role.admin ∷ []

abbrev pub admin_routes : List Route
admin_routes =
    on get "/api/v1/admin/audit-logs" admin_guards admin_audit_logs
    ∷ on get "/api/v1/admin/reconciliation" admin_guards admin_reconciliation
    ∷ on get "/api/v1/admin/transactions" admin_guards admin_transactions
    ∷ on get "/api/v1/admin/webhooks" admin_guards admin_webhooks
    ∷ on get "/api/v1/admin/webhooks/:id" admin_guards admin_webhook
    ∷ []

unfoldable pub register_routes : Parts → List Route
register_routes p =
    (on get "/health" [] health_check ∷ [])
    ++ (metrics_routes p
        ++ (docs_routes p
            ++ ((on post "/api/v1/auth/register" [] auth_register
                  ∷ on post "/api/v1/auth/login" (when p.login_limit (limited login)) auth_login
                  ∷ [])
                ++ (protected_routes p ++ admin_routes))))

-- `c.Next()` after a guard.
abbrev pub next : Result Ctx → (Ctx → Result Ctx) → Result Ctx
next (ok c) f = f c
next (err e) f = err e

-- The guards of a route, one after the other. `limit` is the rate limiter, `token` the metrics token.
module _ (t : TextLib) (l : JwtLib) (j : JwtManager) (now : Time) (limit : Limit → Ctx → Result Ctx)
    (token : String) where
  abbrev pub run_guard : Guard → Ctx → Result Ctx
  run_guard authenticated c = auth t l j now c
  run_guard metrics_auth c = protect_metrics t token c
  run_guard (role r) c = require_role t r c
  run_guard (limited kind) c = limit kind c

  unfoldable pub run_guards : List Guard → Ctx → Result Ctx
  run_guards [] c = ok c
  run_guards (g ∷ gs) c = next (run_guard g c) (run_guards gs)
