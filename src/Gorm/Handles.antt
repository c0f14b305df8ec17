-- ===== src/Gorm/Handles.antt =====
-- A function that runs on one handle of gorm: its statements, and those of no other handle.
use go_hermes.Base.{String, List}
use go_hermes.Base.Int.{ℤ}
use go_hermes.AppError.{Result, ok}
use go_hermes.Store.{M, ◌>>=◌}
use go_hermes.Gorm.Query.{Model, Row, Value, Query}
use go_hermes.Gorm.Session.{Gorm}

-- A property of calls that a result has, a chain inherits, a call whose error is looked at inherits,
-- and each statement on the handle has.
pub record IsHandleClosed (g : Gorm) (tx : g.Handle) (P : (A : Type 0) → M g.Db A → Type 0)
    : Type 1 where
  pub returned : {A : Type 0} (x : Result A) → P A (λ s. (x, s))
  pub chained :
      {A B : Type 0} (m : M g.Db A) (f : A → M g.Db B)
      → P A m
      → ((a : A) → P B (f a))
      → P B (m >>= f)
  pub attempted : {A : Type 0} (m : M g.Db A) → P A m → P (Result A) (λ s. (ok (m s).0, (m s).1))
  pub created : (q : Query) (k : Model) (x : Row k) → P _ (g.create tx q k x)
  pub many_created : (k : Model) (xs : List (Row k)) → P _ (g.create_many tx k xs)
  pub first_read : (q : Query) (k : Model) → P _ (g.first tx q k)
  pub rows_read : (q : Query) (k : Model) → P _ (g.find tx q k)
  pub rows_counted : (q : Query) (k : Model) → P ℤ (g.count tx q k)
  pub saved : (k : Model) (x : Row k) → P _ (g.save tx k x)
  pub updated : (q : Query) (k : Model) (sets : List (String × Value)) → P _ (g.updates tx q k sets)

abbrev pub RunsOn : (g : Gorm) → g.Handle → (A : Type 0) → M g.Db A → Type 1
RunsOn g tx A m = (P : (B : Type 0) → M g.Db B → Type 0) → IsHandleClosed g tx P → P A m
