-- ===== src/Gorm/Statements.antt =====
-- What one call of internal/repository/gorm.go went through, by the statements it ran.
use go_hermes.Base.{ℕ, true, some, List, ◌≡◌, sym, ap, ◌∙◌, subst, inl, inr, All, find}
use go_hermes.AppError.{Error, ok, err}
use go_hermes.Store.{M, >>=-ok, >>=-err, pure-ok, pure-not_err, pure, ◌>>=◌}
use go_hermes.Store.View.{View}
use go_hermes.Gorm.Query.{Model, Row, Query, no_clauses}
use go_hermes.Gorm.Session.{Gorm, Session, with_db, db_from_context, within_transaction, in_context}
use go_hermes.Gorm.Semantics.{Inserted, table, keeps}
use go_hermes.Gorm.Laws.{IsGorm}
use go_hermes.Gorm.Handles.{RunsOn}

-- The tables as a session sees them.
abbrev pub session_view : {g : Gorm} → IsGorm g → Session g → View
session_view l s = l.view s.db

module _ (g : Gorm) (l : IsGorm g) (db : g.Handle) where
  -- A call that ended well ran its statements on the handle of the context and kept the context.
  pub with_db-ok :
      {A : Type 0} (f : g.Handle → M g.Db A) (s t : Session g) (a : A)
      → with_db g db f s ≡ (ok a, t)
      → f (db_from_context g db s.ctx) s.db ≡ (ok a, t.db)
  unfolding with_db
  with_db-ok f s t a h = ap (λ p. (p.0, p.1.db)) h

  pub with_db-err :
      {A : Type 0} (f : g.Handle → M g.Db A) (s t : Session g) (e : Error)
      → with_db g db f s ≡ (err e, t)
      → f (db_from_context g db s.ctx) s.db ≡ (err e, t.db)
  unfolding with_db
  with_db-err f s t e h = ap (λ p. (p.0, p.1.db)) h

  -- Two calls in a row on the handle of the context.
  pub with_db-then :
      {A B : Type 0} (m : g.Handle → M g.Db A) (f : g.Handle → A → M g.Db B) (s t : Session g)
      (b : B)
      → with_db g db (λ h. m h >>= f h) s ≡ (ok b, t)
      → (a : A) × (v : g.Db) × (m (db_from_context g db s.ctx) s.db ≡ (ok a, v))
        × (f (db_from_context g db s.ctx) a v ≡ (ok b, t.db))
  with_db-then m f s t b h = >>=-ok _ _ s.db (with_db-ok (λ h. m h >>= f h) s t b h)

  pub within-ok :
      (A : Type 0) (f : M (Session g) A) (s t : Session g) (a : A)
      → ((tx : g.Handle) → RunsOn g tx A (in_context g f tx))
      → within_transaction g db A f s ≡ (ok a, t)
      → (b : Session g) × (c : Session g) × (session_view l b ≡ session_view l s)
        × (f b ≡ (ok a, c))
        × (session_view l t ≡ session_view l c)
  unfolding within_transaction in_context
  within-ok A f s t a on h =
      let (tx, b, c, begun, ran, done) =
        l.commits db A (in_context g f) s.db t.db a on (ap (λ p. (p.0, p.1.db)) h) in
      let opened : Session g = record { ctx = record { tx = some (some tx) }; db = b } in
      (
        opened,
        (f opened).1,
        begun,
        ap (λ p. (p.0, (f opened).1)) ran,
        done ∙ ap (λ p. l.view p.1) (sym ran),
      )

  pub within-err :
      (A : Type 0) (f : M (Session g) A) (s t : Session g) (e : Error)
      → ((tx : g.Handle) → RunsOn g tx A (in_context g f tx))
      → within_transaction g db A f s ≡ (err e, t)
      → session_view l t ≡ session_view l s
  unfolding within_transaction
  within-err A f s t e on h =
      l.rolls_back db A (in_context g f) s.db t.db e on (ap (λ p. (p.0, p.1.db)) h)

  -- A statement that reads, after which the tables are the same.
  pub first-ok :
      (q : Query) (k : Model) (s t : Session g) (x : Row k)
      → with_db g db (λ h. g.first h q k) s ≡ (ok x, t)
      → (session_view l t ≡ session_view l s)
        × (find (keeps k (session_view l s) q) (table k (session_view l s)) ≡ some x)
  first-ok q k s t x h =
      let e = with_db-ok (λ h. g.first h q k) s t x h in
      (ap (λ p. l.view p.1) (sym e) ∙ l.first_reads _ q k s.db, l.first_found _ q k s.db t.db x e)

  pub find-ok :
      (q : Query) (k : Model) (s t : Session g) (xs : List (Row k))
      → with_db g db (λ h. g.find h q k) s ≡ (ok xs, t)
      → (session_view l t ≡ session_view l s) × All (λ x. keeps k (session_view l s) q x ≡ true) xs
  find-ok q k s t xs h =
      let e = with_db-ok (λ h. g.find h q k) s t xs h in
      (ap (λ p. l.view p.1) (sym e) ∙ l.find_reads _ q k s.db, l.rows_kept _ q k s.db t.db xs e)

  -- The row that an INSERT returns.
  pub create-ok :
      (k : Model) (x x' : Row k) (s t : Session g)
      → with_db g db (λ h. g.create h no_clauses k x >>= λ created. pure created.0) s ≡ (ok x', t)
      → Inserted k (session_view l s) x x' (session_view l t)
  create-ok k x x' s t h =
      let (made, v, ran, shown) =
        with_db-then (λ h. g.create h no_clauses k x) (λ h created. pure created.0) s t x' h in
      let (same, kept) = pure-ok shown in
      subst (λ y. Inserted k (session_view l s) x y (session_view l t)) (sym same)
        (subst (λ y. Inserted k (session_view l s) x made.0 (l.view y)) (sym kept)
          (l.created _ k x made.0 made.1 s.db v ran))

  -- An INSERT that fails.
  pub with_db-refused :
      (k : Model) {B : Type 0} (x : Row k) (f : Row k × ℕ → B) (s t : Session g) (e : Error)
      → with_db g db (λ h. g.create h no_clauses k x >>= λ created. pure (f created)) s ≡ (err e, t)
      → session_view l t ≡ session_view l s
  with_db-refused k x f s t e h =
      elim (>>=-err _ _ s.db
        (with_db-err (λ h. g.create h no_clauses k x >>= λ created. pure (f created)) s t e h)) [
          | inl refused ↦ l.not_created (db_from_context g db s.ctx) k x s.db t.db e refused
          | inr (a, v, ran, more) ↦ absurd (pure-not_err more)
        ]
