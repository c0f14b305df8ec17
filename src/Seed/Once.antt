-- ===== src/Seed/Once.antt =====
-- What seedAdmin leaves in the tables through internal/repository/gorm.go.
use go_hermes.Base.{
  String, none, List, [], ◌∷◌, ◌++◌, ◌≡◌, ◌⊎◌, inl, inr, refl, sym, ap, ◌∙◌, subst, arith, find,
  str_eq, str_eq_iff, Bool-cases,
}
use go_hermes.AppError.{Error, Result, ok, err, is_not_found, is_unique_violation}
use go_hermes.AuthUsecase.{AuthLib, attempted_call, lifted}
use go_hermes.AuthUsecase.Account.{opened}
use go_hermes.Config.{EnvLib, Config}
use go_hermes.Entity.{User, Wallet}
use go_hermes.Seed.{
  SeedDraws, seed_user, seed_wallet, seed_audit, is_skipped, seed_rest, seed_new, seed_unless,
  seed_tx, seed_admin, fail,
}
use go_hermes.Store.{M, >>=-ok, pure-ok, if-ends}
use go_hermes.Store.Laws.{SameUser}
use go_hermes.Store.View.{View, add_audit, set_wallets}
use go_hermes.UuidLib.{UuidLib}
use go_hermes.Gorm.AccountLaws.{
  user_created, user_by_email, wallet_created, user_refused, email_missing,
}
use go_hermes.Gorm.Within.{in_context-RunsOn}
use go_hermes.Seed.Calls.{seed_tx-IsCalls}
use go_hermes.Gorm.Laws.{IsGorm}
use go_hermes.Gorm.Repositories.{gorm_repositories}
use go_hermes.Gorm.Session.{Gorm, Session}
use go_hermes.Gorm.Statements.{session_view, within-ok}
use go_hermes.Gorm.StoreLaws.{audit_created}
use go_hermes.Gorm.Users
use go_hermes.Gorm.Wallets
use go_hermes.Gorm.Audits

-- One more user and wallet, and an entry of the audit log; nobody had the email.
pub record IsSeeded (d : SeedDraws) (c : Config) (v v' : View) : Type 0 where
  pub password_hash : String
  pub user : User
  pub wallet : Wallet
  pub same_user : SameUser (seed_user d c password_hash) user
  pub same_wallet :
      wallet
      ≡ record (seed_wallet d) { created_at = wallet.created_at; updated_at = wallet.updated_at }
  pub new_email : find (λ x. str_eq x.email c.seed.admin_email) v.users ≡ none
  pub tables : v' ≡ add_audit (opened v user wallet) (seed_audit d user.email)

-- The views of the three inserts, one after the other.
inserted :
    (d : SeedDraws) (v v1 v2 v3 : View) (x : User) (w : Wallet)
    → v1 ≡ record v { users = v.users ++ x ∷ [] }
    → v2 ≡ set_wallets v1 (v1.wallets ++ w ∷ [])
    → v3 ≡ add_audit v2 (seed_audit d x.email)
    → v3 ≡ add_audit (opened v x w) (seed_audit d x.email)
inserted d v v1 v2 v3 x w e1 e2 e3 =
    e3
    ∙ (ap (λ k. add_audit k (seed_audit d x.email)) e2
        ∙ ap (λ k. add_audit (set_wallets k (k.wallets ++ w ∷ [])) (seed_audit d x.email)) e1)

unfoldable inner : {A : Type 0} → Result (Result A) → Result A
inner (ok res) = res
inner (err e) = err e

seed_user-email :
    (d : SeedDraws) (c : Config) (hash : String) → (seed_user d c hash).email ≡ c.seed.admin_email
unfolding seed_user
seed_user-email d c hash = refl

module _ (g : Gorm) (l : IsGorm g) (u : UuidLib) (db : g.Handle) (a : AuthLib) (c : Config)
    (d : SeedDraws) where
  lifted-same :
      (res : Result String) (s t : Session g) (x : String) → lifted res s ≡ (ok x, t) → t ≡ s
  lifted-same (ok x) s t y h = ground arith
  lifted-same (err e) s t y h = absurd (ground arith)

  fail-not_ok :
      (e : Error) (s : Session g) {o : Unit {0}} {t : Session g} → fail e s ≡ (ok o, t) → ⊥
  fail-not_ok e s h = absurd (ground arith)

  attempted-call :
      {A : Type 0} (m : M (Session g) A) (s t : Session g) (res : Result A)
      → attempted_call m s ≡ (ok res, t)
      → m s ≡ (res, t)
  unfolding inner
  attempted-call m s t res h = ap (λ p. (inner p.0, p.1)) h

  email_read :
      (s w : Session g) (res : Result User)
      → Users.get_by_email g db c.seed.admin_email s ≡ (res, w)
      → session_view l w ≡ session_view l s
  email_read s w res h =
      ap (λ p. session_view l p.1) (sym h) ∙ user_by_email g l u db c.seed.admin_email s

  seed_rest-ok :
      (hash : String) (v : View) (s w t : Session g) (res : Result User) (o : Unit {0})
      → session_view l s ≡ v
      → find (λ x. str_eq x.email c.seed.admin_email) v.users ≡ none
      → Users.create g db (seed_user d c hash) s ≡ (res, w)
      → seed_rest (gorm_repositories g u db) a d res w ≡ (ok o, t)
      → (session_view l t ≡ v) ⊎ IsSeeded d c v (session_view l t)
  unfolding seed_rest
  seed_rest-ok hash v s w t (ok x) o start free made h =
      let (y, w2, opened_wallet, h2) =
        >>=-ok (Wallets.create g u db (seed_wallet d))
          (λ wallet. Audits.create g db (seed_audit d x.email)) w h in
      let (same, added) = user_created g l u db (seed_user d c hash) x s w made in
      let (kept, _, held) = wallet_created g l u db (seed_wallet d) y w w2 opened_wallet in
      inr (record {
        password_hash = hash;
        user = x;
        wallet = y;
        same_user = same;
        same_wallet = kept;
        new_email = free;
        tables =
            inserted d v (session_view l w) (session_view l w2) (session_view l t) x y
              (subst (λ k. session_view l w ≡ record k { users = k.users ++ x ∷ [] }) start added)
              held (audit_created g l u db (seed_audit d x.email) w2 t o h2);
      })
  seed_rest-ok hash v s w t (err e) o start free made h =
      elim (Bool-cases (is_unique_violation e)) [
        | inl unique ↦ inl (
            ap (session_view l) (pure-ok (rw unique at h)).1
            ∙ (user_refused g l u db (seed_user d c hash) s w e made ∙ start))
        | inr strange ↦ absurd (fail-not_ok e w (rw strange at h))
      ]

  seed_new-ok :
      (v : View) (s t : Session g) (o : Unit {0})
      → session_view l s ≡ v
      → find (λ x. str_eq x.email c.seed.admin_email) v.users ≡ none
      → seed_new (gorm_repositories g u db) a d c s ≡ (ok o, t)
      → (session_view l t ≡ v) ⊎ IsSeeded d c v (session_view l t)
  unfolding seed_new
  seed_new-ok v s t o start free h =
      let (hash, s1, e1, h1) = >>=-ok (lifted (a.hash_password c.seed.admin_password)) _ s h in
      let (res, s2, e2, h2) =
        >>=-ok (attempted_call (Users.create g db (seed_user d c hash))) _ s1 h1 in
      seed_rest-ok hash v s1 s2 t res o
        (ap (session_view l) (lifted-same (a.hash_password c.seed.admin_password) s s1 hash e1)
          ∙ start)
        free (attempted-call (Users.create g db (seed_user d c hash)) s1 s2 res e2) h2

  seed_unless-ok :
      (v : View) (s w t : Session g) (res : Result User) (o : Unit {0})
      → session_view l s ≡ v
      → Users.get_by_email g db c.seed.admin_email s ≡ (res, w)
      → seed_unless (gorm_repositories g u db) a d c res w ≡ (ok o, t)
      → (session_view l t ≡ v) ⊎ IsSeeded d c v (session_view l t)
  unfolding seed_unless
  seed_unless-ok v s w t (ok x) o start asked h =
      inl (ap (session_view l) (pure-ok h).1 ∙ (email_read s w (ok x) asked ∙ start))
  seed_unless-ok v s w t (err e) o start asked h = elim (Bool-cases (is_not_found e)) [
    | inl missing ↦
        seed_new-ok v w t o (email_read s w (err e) asked ∙ start)
          (subst (λ k. find (λ x. str_eq x.email c.seed.admin_email) k.users ≡ none) start
            (email_missing g l u db c.seed.admin_email s w e asked missing))
          (rw missing at h)
    | inr strange ↦ absurd (fail-not_ok e w (rw strange at h))
  ]

  seed_tx-ok :
      (s t : Session g) (o : Unit {0})
      → seed_tx (gorm_repositories g u db) a d c s ≡ (ok o, t)
      → (session_view l t ≡ session_view l s) ⊎ IsSeeded d c (session_view l s) (session_view l t)
  unfolding seed_tx
  seed_tx-ok s t o h =
      let (res, w, e1, h1) =
        >>=-ok (attempted_call (Users.get_by_email g db c.seed.admin_email)) _ s h in
      seed_unless-ok (session_view l s) s w t res o refl
        (attempted-call (Users.get_by_email g db c.seed.admin_email) s w res e1) h1

  seed_admin-ok :
      (e : EnvLib) (s t : Session g) (o : Unit {0})
      → seed_admin (gorm_repositories g u db) a d e c s ≡ (ok o, t)
      → (session_view l t ≡ session_view l s) ⊎ IsSeeded d c (session_view l s) (session_view l t)
  unfolding seed_admin
  seed_admin-ok e s t o h = elim (if-ends (is_skipped e c) _ _ s _ h) [
    | inl (_, skipped) ↦ inl (ap (session_view l) (pure-ok skipped).1)
    | inr (_, run) ↦
        let (b, w, begun, ran, done) =
          within-ok g l db (Unit {0}) (seed_tx (gorm_repositories g u db) a d c) s t o
            (in_context-RunsOn g u db (Unit {0}) _
              (seed_tx-IsCalls (gorm_repositories g u db) a d c))
            run in
        elim (seed_tx-ok b w o ran) [
          | inl same ↦ inl (done ∙ (same ∙ begun))
          | inr seeded ↦ inr (
              subst (IsSeeded d c (session_view l s)) (sym done)
                (subst (λ k. IsSeeded d c k (session_view l w)) begun seeded))
        ]
  ]

find-append :
    (email : String) (xs : List User) (x : User)
    → x.email ≡ email
    → find (λ y. str_eq y.email email) (xs ++ x ∷ []) ≡ none
    → ⊥
find-append email [] x same h = absurd (ground (arith, (str_eq_iff x.email email).1 same))
find-append email (y ∷ xs) x same h = ground (arith, find-append email xs x same)

-- If seedAdmin runs twice with the same configuration and both runs return no error, then at most one
-- of them has changed the tables; a run that changes them has found no user with the configured
-- email, and adds the administrator, their wallet and an entry of the audit log.
pub seed_admin-once :
    (g : Gorm) (l : IsGorm g) (u : UuidLib) (db : g.Handle) (a : AuthLib) (c : Config)
    (d d' : SeedDraws) (e : EnvLib) (s t t' : Session g)
    → seed_admin (gorm_repositories g u db) a d e c s ≡ (ok tt, t)
    → seed_admin (gorm_repositories g u db) a d' e c t ≡ (ok tt, t')
    → ((session_view l t ≡ session_view l s)
        × ((session_view l t' ≡ session_view l t)
            ⊎ IsSeeded d' c (session_view l t) (session_view l t')))
      ⊎ (IsSeeded d c (session_view l s) (session_view l t)
          × (session_view l t' ≡ session_view l t))
seed_admin-once g l u db a c d d' e s t t' h h' = elim (seed_admin-ok g l u db a c d e s t tt h) [
  | inl same ↦ inl (same, seed_admin-ok g l u db a c d' e t t' tt h')
  | inr first ↦ elim (seed_admin-ok g l u db a c d' e t t' tt h') [
    | inl same ↦ inr (first, same)
    | inr second ↦ absurd (taken first second.new_email)
  ]
]
  where
    taken :
        IsSeeded d c (session_view l s) (session_view l t)
        → find (λ x. str_eq x.email c.seed.admin_email) (session_view l t).users ≡ none
        → ⊥
    taken first free =
        find-append c.seed.admin_email (session_view l s).users first.user
          (ap (λ k. k.email) first.same_user ∙ seed_user-email d c first.password_hash)
          (subst (λ k. find (λ x. str_eq x.email c.seed.admin_email) k.users ≡ none) first.tables
            free)
