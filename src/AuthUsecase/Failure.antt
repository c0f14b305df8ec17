-- ===== src/AuthUsecase/Failure.antt =====
-- A registration that fails.
use go_hermes.Base.{String, ◌≡◌, inl, inr, sym, ◌∙◌, ap, arith}
use go_hermes.AppError.{Error, Result, ok, err, internal}
use go_hermes.AuthUsecase.{
  AuthLib, AuthDraws, register, register_as, check_free, attempted_call, lifted,
}
use go_hermes.AuthUsecase.Account.{check_free-ok, lifted-ok}
use go_hermes.Entity.{User}
use go_hermes.Store.{
  M, Repositories, pure, map_error, ◌>>=◌, >>=-err, map_error-ok, map_error-err, pure-not_err,
  require-ok, require-err,
}
use go_hermes.AuthUsecase.Calls.{register_tx-IsCalls}
use go_hermes.Store.Laws.{IsStore, IsAccountStore}
use go_hermes.Types.{RegisterRequest}
use go_hermes.UuidLib.{UuidLib}

module _ (r : Repositories) (l : IsStore r) where
  abbrev FailsAside : {A : Type 0} → M r.Db A → r.Db → Type 0
  FailsAside m s = (e : Error) (t : r.Db) → m s ≡ (err e, t) → l.view t ≡ l.view s

  >>=-FailsAside :
      {A B : Type 0} (m : M r.Db A) (f : A → M r.Db B) (s : r.Db)
      → FailsAside m s
      → ((a : A) (t : r.Db) → m s ≡ (ok a, t) → (l.view t ≡ l.view s) × FailsAside (f a) t)
      → FailsAside (m >>= f) s
  >>=-FailsAside m f s first rest e t h = elim (>>=-err m f s h) [
    | inl h1 ↦ first e t h1
    | inr (a, u, e1, h1) ↦ let (same, after) = rest a u e1 in after e t h1 ∙ same
  ]

  pure-aside :
      {A B : Type 0} (m : M r.Db A) (g : A → B) (s : r.Db)
      → FailsAside m s
      → FailsAside (m >>= λ a. pure (g a)) s
  pure-aside m g s first e t h = elim (>>=-err m (λ a. pure (g a)) s h) [
    | inl h1 ↦ first e t h1
    | inr (a, u, e1, h1) ↦ absurd (pure-not_err h1)
  ]

  check_free-aside : (res : Result User) (s : r.Db) → FailsAside (check_free res) s
  check_free-aside (ok x) s e t h = ground arith
  check_free-aside (err x) s e t h = ground arith

  lifted-aside : (res : Result String) (s : r.Db) → FailsAside (map_error internal (lifted res)) s
  unfolding map_error
  lifted-aside (ok x) s e t h = absurd (ground arith)
  lifted-aside (err x) s e t h = ground arith

  module _ (al : IsAccountStore r l.view) (u : UuidLib) (a : AuthLib) (d : AuthDraws) where
    register_as-aside :
        (name email password : String) (s : r.Db)
        → FailsAside (register_as r u a d name email password) s
    unfolding register_as
    register_as-aside name email password s =
        >>=-FailsAside _ _ s (λ e t h. ap l.view (require-err _ _ s h).0)
          λ _ s1 h1. (
            ap l.view (require-ok _ _ s h1).1,
            >>=-FailsAside (attempted_call (r.users.get_by_email email)) _ s1
                (λ e t h. absurd (pure-not_err h))
                λ existing s2 h2. (
                  ap (λ p. l.view p.1) (sym h2) ∙ al.user_by_email email s1,
                  >>=-FailsAside _ _ s2 (check_free-aside existing s2) λ _ s3 h3. (
                    ap l.view (check_free-ok r l al u a d existing s2 s3 _ h3),
                    >>=-FailsAside _ _ s3 (lifted-aside (a.hash_password password) s3) λ hash s4 h4.
                        (
                          ap l.view (
                              lifted-ok r l al u a d (a.hash_password password) s3 s4 hash
                                (map_error-ok _ _ s3 h4)),
                          pure-aside _ _ s4 λ e t h.
                              let (e', inner, _) = map_error-err _ _ s4 h in
                              l.rolls_back _ _ s4 t e' (register_tx-IsCalls r u a d _ _) inner,
                        ),
                  ),
                ),
          )

    -- A registration that fails changes no table.
    pub register-err :
        (req : RegisterRequest) (s t : r.Db) (e : Error)
        → register r u a d req s ≡ (err e, t)
        → l.view t ≡ l.view s
    unfolding register
    register-err req s t e h = register_as-aside _ _ req.password s e t h
