-- ===== src/TransactionUsecase/Common/Failure.antt =====
-- Calls that change no table when they fail, and whose error is for the client.
use go_hermes.Base.{true, String, Option, ◌≡◌, inl, inr, ◌∙◌, ap}
use go_hermes.Base.Int.{ℤ}
use go_hermes.AppError.{Error, ok, err, is_app, as_app, as_app-is_app}
use go_hermes.Store.{
  M, Repositories, ◌>>=◌, >>=-err, require-err, require-ok, some_or, some_or-err, map_error,
  map_error-err,
}
use go_hermes.Store.Calls.{IsCalls}
use go_hermes.Store.Laws.{IsStore}
use go_hermes.TransactionUsecase.Common.{check_request}

module _ (r : Repositories) (l : IsStore r) where
  abbrev pub FailsCleanly : {A : Type 0} → M r.Db A → r.Db → Type 0
  FailsCleanly m s =
      (e : Error) (t : r.Db) → m s ≡ (err e, t) → (l.view t ≡ l.view s) × (is_app e ≡ true)

  -- A chain does so if its first call does and leaves the state alone on success.
  pub >>=-FailsCleanly :
      {A B : Type 0} (m : M r.Db A) (f : A → M r.Db B) (s : r.Db)
      → FailsCleanly m s
      → ((a : A) (u : r.Db) → m s ≡ (ok a, u) → (u ≡ s) × FailsCleanly (f a) u)
      → FailsCleanly (m >>= f) s
  >>=-FailsCleanly m f s first rest e t h = elim (>>=-err m f s h) [
    | inl h1 ↦ first e t h1
    | inr (a, u, e1, h1) ↦
        let (same, clean) = rest a u e1 in
        let (kept, known) = clean e t h1 in (kept ∙ ap l.view same, known)
  ]

  pub check_request-clean :
      (key : String) (amount : ℤ) (s : r.Db) → FailsCleanly (check_request key amount) s
  unfolding check_request
  check_request-clean key amount s e t h = elim (>>=-err _ _ s h) [
    | inl h1 ↦ let (same, known) = require-err _ _ s h1 in (ap l.view same, ap is_app known)
    | inr (_, u, e1, h1) ↦
        let (_, same1) = require-ok _ _ s e1 in
        let (same2, known) = require-err _ _ u h1 in (ap l.view (same2 ∙ same1), ap is_app known)
  ]

  pub some_or-clean :
      {A : Type 0} (o : Option A) (x : Error) (s : r.Db)
      → is_app x ≡ true
      → FailsCleanly (some_or o x) s
  some_or-clean o x s known e t h =
      let (same, raised) = some_or-err o x s h in (ap l.view same, ap is_app raised ∙ known)

  pub within-clean :
      (A : Type 0) (f : M r.Db A) (s : r.Db)
      → IsCalls r A f
      → FailsCleanly (map_error as_app (r.tx.within_transaction A f)) s
  within-clean A f s calls e t h =
      let (e', inner, known) = map_error-err as_app (r.tx.within_transaction A f) s h in
      (l.rolls_back A f s t e' calls inner, ap is_app known ∙ as_app-is_app e')
