-- ===== src/Gorm/Page.antt =====
-- The two statements of a paginated list in internal/repository/gorm.go: Count, then Find of one
-- page in an order.
use go_hermes.Base.{String, some, List, [], ◌∷◌}
use go_hermes.Base.Int.{ℤ}
use go_hermes.Pagination.{Params, offset}
use go_hermes.Store.{M, pure, ◌>>=◌}
use go_hermes.Gorm.Query.{Model, Row, Direction, Query}
use go_hermes.Gorm.Session.{Gorm, Session, with_db}

abbrev pub page_query : Query → String → Params → Query
page_query query column params = record query {
  order = (column, Direction.desc) ∷ [];
  offset = some (offset params);
  limit = some params.limit;
}

module _ (g : Gorm) (db : g.Handle) where
  unfoldable pub list_page :
      (k : Model) → Query → String → Params → M (Session g) (List (Row k) × ℤ)
  unfolding with_db ◌>>=◌ offset
  list_page k query column params = with_db g db λ h. do
    total ← g.count h query k
    rows ← g.find h (page_query query column params) k
    pure (rows, total)
