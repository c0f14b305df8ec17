-- ===== src/Gorm/Listing.antt =====
-- What a paginated list of internal/repository/gorm.go returns: rows of the query, and the number of
-- all of them.
use go_hermes.Base.{String, true, List, ◌≡◌, sym, ap, ◌∙◌, subst, All, length}
use go_hermes.Base.Int.{ℤ, pos}
use go_hermes.AppError.{ok}
use go_hermes.Pagination.{Params}
use go_hermes.Store.{pure, pure-ok, >>=-ok, ◌>>=◌}
use go_hermes.Gorm.Page.{list_page, page_query}
use go_hermes.Gorm.Query.{Model, Row, Query}
use go_hermes.Gorm.Session.{Gorm, Session, db_from_context}
use go_hermes.Gorm.Semantics.{keeps, rows_of}
use go_hermes.Gorm.Laws.{IsGorm}
use go_hermes.Gorm.Statements.{session_view, with_db-then}

module _ (g : Gorm) (l : IsGorm g) (db : g.Handle) where
  pub list_page-ok :
      (k : Model) (q : Query) (column : String) (p : Params) (s t : Session g)
      (listed : List (Row k) × ℤ)
      → list_page g db k q column p s ≡ (ok listed, t)
      → (session_view l t ≡ session_view l s)
        × All (λ x. keeps k (session_view l s) q x ≡ true) listed.0
        × (listed.1 ≡ pos (length (rows_of k (session_view l s) q)))
  unfolding list_page
  list_page-ok k q column p s t listed h =
      let tx = db_from_context g db s.ctx in
      let page = page_query q column p in
      let (total, v, counted, h1) =
        with_db-then g l db (λ d. g.count d q k)
          (λ d total. g.find d (page_query q column p) k >>= λ rows. pure (rows, total)) s t listed
          h in
      let (rows, w, found, h2) = >>=-ok (g.find tx page k) (λ rows. pure (rows, total)) v h1 in
      let (shown, last) = pure-ok h2 in
      let same = ap (λ p. l.view p.1) (sym counted) ∙ l.count_reads tx q k s.db in
      let kept =
        subst (λ x. All (λ y. keeps k x q y ≡ true) rows) same
          (l.rows_kept tx page k v w rows found) in
      (
        ap l.view last ∙ (ap (λ p. l.view p.1) (sym found) ∙ (l.find_reads tx page k v ∙ same)),
        subst (λ y. All (λ x. keeps k (session_view l s) q x ≡ true) y.0) (sym shown) kept,
        ap (λ y. y.1) shown ∙ l.counted tx q k s.db v total counted,
      )
