-- ===== src/Router/Starts.antt =====
-- Which guards the routes start with.
use go_hermes.Base.{
  Bool, true, false, List, [], ◌∷◌, ◌++◌, ◌≡◌, ◌⊎◌, inl, inr, refl, sym, subst, All, if-has,
}
use go_hermes.Entity.{Role}
use go_hermes.Router.{
  Action, Guard, Route, Parts, authenticated, role, admin_guards, register_routes, metrics_routes,
  docs_routes,
}

-- The handlers that a caller without a token may reach.
abbrev pub is_public : Action → Bool
is_public Action.health_check = true
is_public Action.metrics_endpoint = true
is_public Action.swagger = true
is_public Action.openapi = true
is_public Action.auth_register = true
is_public Action.auth_login = true
is_public _ = false

-- The methods of AdminHandler.
abbrev pub is_admin : Action → Bool
is_admin Action.admin_audit_logs = true
is_admin Action.admin_reconciliation = true
is_admin Action.admin_transactions = true
is_admin Action.admin_webhooks = true
is_admin Action.admin_webhook = true
is_admin _ = false

abbrev pub IsAmong : {A : Type 0} → A → List A → Type 0
IsAmong x [] = ⊥
IsAmong x (y ∷ ys) = (x ≡ y) ⊎ IsAmong x ys

pub All-among : {A : Type 0} (P : A → Type 0) (x : A) (xs : List A) → All P xs → IsAmong x xs → P x
All-among P x [] h m = absurd m
All-among P x (y ∷ ys) h (inl same) = subst P (sym same) h.0
All-among P x (y ∷ ys) h (inr later) = All-among P x ys h.1 later

All-append : {A : Type 0} (P : A → Type 0) (xs ys : List A) → All P xs → All P ys → All P (xs ++ ys)
All-append P [] ys h k = k
All-append P (x ∷ xs) ys h k = (h.0, All-append P xs ys h.1 k)

-- The guards of a handler that is not public start with Auth, those of an administrator's with Auth
-- and RequireRole.
unfoldable pub StartsWith : Route → Type 0
StartsWith r =
    ((is_public r.action ≡ true) ⊎ ((gs : List Guard) × (r.guards ≡ authenticated ∷ gs)))
    × ((is_admin r.action ≡ false) ⊎ (r.guards ≡ admin_guards))

public_routes : (r : Route) → is_public r.action ≡ true → is_admin r.action ≡ false → StartsWith r
unfolding StartsWith
public_routes r h k = (inl h, inl k)

inner_routes :
    (r : Route) (gs : List Guard)
    → is_admin r.action ≡ false
    → r.guards ≡ authenticated ∷ gs
    → StartsWith r
unfolding StartsWith
inner_routes r gs h k = (inr (gs, k), inl h)

admin_route : (r : Route) → r.guards ≡ admin_guards → StartsWith r
unfolding StartsWith
admin_route r k = (inr (role Role.admin ∷ [], k), inr k)

pub routes-StartsWith : (p : Parts) → All StartsWith (register_routes p)
unfolding register_routes
routes-StartsWith p = (
  public_routes _ refl refl,
  All-append StartsWith (metrics_routes p) _
      (if-has (All StartsWith) p.metrics_endpoint (λ on. (public_routes _ refl refl, tt))
        (λ off. tt))
      (All-append StartsWith (docs_routes p) _
        (if-has (All StartsWith) p.docs_enabled
          (λ on. (public_routes _ refl refl, (public_routes _ refl refl, tt))) (λ off. tt))
        (
          public_routes _ refl refl,
          (
            public_routes _ refl refl,
            (
              inner_routes _ _ refl refl,
              (
                inner_routes _ _ refl refl,
                (
                  inner_routes _ _ refl refl,
                  (
                    inner_routes _ _ refl refl,
                    (
                      inner_routes _ _ refl refl,
                      (
                        inner_routes _ _ refl refl,
                        (
                          inner_routes _ _ refl refl,
                          (
                            inner_routes _ _ refl refl,
                            (
                              inner_routes _ _ refl refl,
                              (
                                admin_route _ refl,
                                (
                                  admin_route _ refl,
                                  (
                                    admin_route _ refl,
                                    (admin_route _ refl, (admin_route _ refl, tt)),
                                  ),
                                ),
                              ),
                            ),
                          ),
                        ),
                      ),
                    ),
                  ),
                ),
              ),
            ),
          ),
        )),
)
