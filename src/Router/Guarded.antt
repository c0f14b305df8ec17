-- ===== src/Router/Guarded.antt =====
-- Who reaches which handler.
use go_hermes.Base.{
  String, Bool, true, false, Option, none, some, true_ne_false, List, [], ◌∷◌, ◌≡◌, inl, inr, refl,
  sym, ap, ◌∙◌, subst, arith, not, if◌then◌else◌, str_eq, str_eq_iff,
}
use go_hermes.AppError.{Error, Result, ok, err, unauthorized, forbidden}
use go_hermes.AuthUsecase.{Claims, JwtManager}
use go_hermes.Entity.{Time, Role}
use go_hermes.Middleware.{
  JwtLib, TextLib, Ctx, auth, require_role, parse_token, set_claims, bearer_token, with_token,
  is_role, is_bearer, protect_metrics,
}
use go_hermes.Types.{role_text}
use go_hermes.Router.{
  Guard, Limit, Route, Parts, authenticated, role, admin_guards, register_routes, run_guards, next,
  run_guard,
}
use go_hermes.Router.Starts.{is_public, is_admin, IsAmong, All-among, StartsWith, routes-StartsWith}

next-ok :
    (r : Result Ctx) (f : Ctx → Result Ctx) {c' : Ctx}
    → next r f ≡ ok c'
    → (c : Ctx) × (r ≡ ok c) × (f c ≡ ok c')
next-ok (ok c) f h = (c, refl, h)
next-ok (err e) f h = absurd (ground arith)

module _ (t : TextLib) (l : JwtLib) (j : JwtManager) (now : Time) where
  -- The request carries a token that ParseToken accepts, and its locals are those of the token.
  pub record IsSigned (c c' : Ctx) : Type 0 where
    pub same_headers : c'.header ≡ c.header
    pub token : String
    pub claims : Claims
    pub sent : bearer_token t (t.split_n (c.header "Authorization") " " 2) ≡ ok token
    pub valid : parse_token l j now token ≡ ok claims
    pub user_id : c'.user_id ≡ some claims.user_id
    pub role : c'.role ≡ some claims.role

  set_claims-IsSigned :
      (c c' : Ctx) (token : String) (res : Result Claims)
      → bearer_token t (t.split_n (c.header "Authorization") " " 2) ≡ ok token
      → parse_token l j now token ≡ res
      → set_claims res c ≡ ok c'
      → IsSigned c c'
  set_claims-IsSigned c c' token (ok claims) sent valid h =
      let same : record c { user_id = some claims.user_id; role = some claims.role } ≡ c' =
        ground (arith, h) in
      record {
        same_headers = ap (λ x. x.header) (sym same);
        token = token;
        claims = claims;
        sent = sent;
        valid = valid;
        user_id = ap (λ x. x.user_id) (sym same);
        role = ap (λ x. x.role) (sym same);
      }
  set_claims-IsSigned c c' token (err e) sent valid h = absurd (ground arith)

  with_token-IsSigned :
      (c c' : Ctx) (res : Result String)
      → bearer_token t (t.split_n (c.header "Authorization") " " 2) ≡ res
      → with_token t l j now res c ≡ ok c'
      → IsSigned c c'
  with_token-IsSigned c c' (ok token) sent h =
      set_claims-IsSigned c c' token (parse_token l j now token) sent refl h
  with_token-IsSigned c c' (err e) sent h = absurd (ground arith)

  given :
      (b : Bool) (e : Error) (r : Result Ctx) {c' : Ctx}
      → (if b then err e else r) ≡ ok c'
      → r ≡ ok c'
  given true e r h = absurd (ground arith)
  given false e r h = h

  auth-IsSigned : (c c' : Ctx) → auth t l j now c ≡ ok c' → IsSigned c c'
  unfolding auth
  auth-IsSigned c c' h =
      with_token-IsSigned c c' (bearer_token t (t.split_n (c.header "Authorization") " " 2)) refl
        (given (str_eq (c.header "Authorization") "") _ _ h)

  require_role-ok :
      (r : Role) (c c' : Ctx) → require_role t r c ≡ ok c' → (c' ≡ c) × (is_role t r c.role ≡ true)
  unfolding require_role
  require_role-ok r c c' h = passed (is_role t r c.role) h
    where
      passed :
          (b : Bool)
          → ◌≡◌ {A = Result Ctx}
              (if not b then err (forbidden "insufficient role") else ok c)
              (ok c')
          → (c' ≡ c) × (b ≡ true)
      passed true p = (ground arith, refl)
      passed false p = absurd (ground arith)

  is_role-some : (r : Role) (o : Option String) → is_role t r o ≡ true → o ≡ some (role_text r)
  is_role-some r none h = absurd (ground arith)
  is_role-some r (some s) h = ap some ((str_eq_iff s (role_text r)).0 h)

  protect_metrics-ok : (token : String) (c c' : Ctx) → protect_metrics t token c ≡ ok c' → c' ≡ c
  unfolding protect_metrics
  protect_metrics-ok token c c' h =
      passed (str_eq token "") (str_eq (c.header "X-Metrics-Token") token)
        (is_bearer t (t.split_n (c.header "Authorization") " " 2) token) h
    where
      passed :
          (x y z : Bool)
          → ◌≡◌ {A = Result Ctx}
              (if x
                then ok c
                else if y
                then ok c
                else if z
                then ok c
                else err (unauthorized "invalid metrics token"))
              (ok c')
          → c' ≡ c
      passed true y z p = ground arith
      passed false true z p = ground arith
      passed false false true p = ground arith
      passed false false false p = absurd (ground arith)

  module _ (limit : Limit → Ctx → Result Ctx) (metrics_token : String)
      (limits : (kind : Limit) (c c' : Ctx) → limit kind c ≡ ok c' → c' ≡ c) where
    IsSigned-guard :
        (g : Guard) (c d d' : Ctx)
        → IsSigned c d
        → run_guard t l j now limit metrics_token g d ≡ ok d'
        → IsSigned c d'
    IsSigned-guard Guard.authenticated c d d' s h =
        let again = auth-IsSigned d d' h in
        record {
          same_headers = again.same_headers ∙ s.same_headers;
          token = again.token;
          claims = again.claims;
          sent =
              ap (λ k. bearer_token t (t.split_n (k "Authorization") " " 2)) (sym s.same_headers)
              ∙ again.sent;
          valid = again.valid;
          user_id = again.user_id;
          role = again.role;
        }
    IsSigned-guard Guard.metrics_auth c d d' s h =
        subst (IsSigned c) (sym (protect_metrics-ok metrics_token d d' h)) s
    IsSigned-guard (Guard.role r) c d d' s h =
        subst (IsSigned c) (sym (require_role-ok r d d' h).0) s
    IsSigned-guard (Guard.limited kind) c d d' s h = subst (IsSigned c) (sym (limits kind d d' h)) s

    IsSigned-guards :
        (gs : List Guard) (c d d' : Ctx)
        → IsSigned c d
        → run_guards t l j now limit metrics_token gs d ≡ ok d'
        → IsSigned c d'
    unfolding run_guards
    IsSigned-guards [] c d d' s h = subst (IsSigned c) (ground (arith, h)) s
    IsSigned-guards (g ∷ gs) c d d' s h =
        let (x, first, rest) =
          next-ok (run_guard t l j now limit metrics_token g d)
            (run_guards t l j now limit metrics_token gs) h in
        IsSigned-guards gs c x d' (IsSigned-guard g c d x s first) rest

    after_auth :
        (gs : List Guard) (c c' : Ctx)
        → run_guards t l j now limit metrics_token (authenticated ∷ gs) c ≡ ok c'
        → IsSigned c c'
    unfolding run_guards
    after_auth gs c c' h =
        let (x, first, rest) =
          next-ok (auth t l j now c) (run_guards t l j now limit metrics_token gs) h in
        IsSigned-guards gs c x c' (auth-IsSigned c x first) rest

    -- If the rate limits only let requests pass or refuse them, then a request reaches a handler
    -- that is not public only with a token that ParseToken accepts, and the handler finds the
    -- token's user id and role in the locals.
    pub register_routes-IsSigned :
        (p : Parts) (r : Route) (c c' : Ctx)
        → IsAmong r (register_routes p)
        → is_public r.action ≡ false
        → run_guards t l j now limit metrics_token r.guards c ≡ ok c'
        → IsSigned c c'
    unfolding StartsWith
    register_routes-IsSigned p r c c' among inner h =
        elim (All-among StartsWith r (register_routes p) (routes-StartsWith p) among).0 [
          | inl public ↦ absurd (true_ne_false (sym public ∙ inner))
          | inr starts ↦
              after_auth starts.0 c c'
                (subst (λ gs. run_guards t l j now limit metrics_token gs c ≡ ok c') starts.1 h)
        ]

    admin_passed :
        (c c' : Ctx)
        → run_guards t l j now limit metrics_token admin_guards c ≡ ok c'
        → c'.role ≡ some "admin"
    unfolding run_guards
    admin_passed c c' h =
        let (x, first, rest) =
          next-ok (auth t l j now c)
            (run_guards t l j now limit metrics_token (role Role.admin ∷ [])) h in
        let (y, second, last) =
          next-ok (require_role t Role.admin x) (run_guards t l j now limit metrics_token [])
            rest in
        let (same, is) = require_role-ok Role.admin x y second in
        let end : y ≡ c' = ground (arith, last) in
        ap (λ k. k.role) (sym end ∙ same) ∙ is_role-some Role.admin x.role is

    -- If the rate limits only let requests pass or refuse them, then a request reaches a handler of
    -- the administrator's only with a token that ParseToken accepts and whose role is admin.
    pub register_routes-admin :
        (p : Parts) (r : Route) (c c' : Ctx)
        → IsAmong r (register_routes p)
        → is_admin r.action ≡ true
        → run_guards t l j now limit metrics_token r.guards c ≡ ok c'
        → IsSigned c c' × (c'.role ≡ some "admin")
    unfolding StartsWith
    register_routes-admin p r c c' among admin h =
        elim (All-among StartsWith r (register_routes p) (routes-StartsWith p) among).1 [
          | inl not_admin ↦ absurd (true_ne_false (sym admin ∙ not_admin))
          | inr guards ↦
              let run =
                subst (λ gs. run_guards t l j now limit metrics_token gs c ≡ ok c') guards h in
              (after_auth (role Role.admin ∷ []) c c' run, admin_passed c c' run)
        ]
