-- ===== src/Gorm/Idempotency.antt =====
-- GormIdempotencyRepository of internal/repository/gorm.go.
use go_hermes.Base.{ℕ, String, Bool, List, [], ◌∷◌, ◌==◌}
use go_hermes.Entity.{Uuid, IdempotencyRecord}
use go_hermes.Json.{Json}
use go_hermes.Store.{M, IdempotencyRepository, pure, ◌>>=◌}
use go_hermes.Gorm.Query.{Model, Column, Condition, Value, Query, no_clauses, where_equal}
use go_hermes.Gorm.Session.{Gorm, Session, with_db}

-- ON CONFLICT (idempotency_key, user_id, endpoint) DO NOTHING
abbrev pub reserve_query : Query
reserve_query = record no_clauses {
  conflict_do_nothing = "idempotency_key" ∷ "user_id" ∷ "endpoint" ∷ [];
}

abbrev pub completed_columns : ℕ → Json → List (String × Value)
completed_columns status_code response_body =
    ("status_code", Value.int_value status_code)
    ∷ ("response_body", Value.json_value response_body)
    ∷ []

abbrev pub record_query : String → Uuid → String → Query
record_query key user_id endpoint = record no_clauses {
  conditions =
      Condition.equal (Column.own "idempotency_key") (Value.text_value key)
      ∷ Condition.equal (Column.own "user_id") (Value.uuid_value user_id)
      ∷ Condition.equal (Column.own "endpoint") (Value.text_value endpoint)
      ∷ [];
}

module _ (g : Gorm) (db : g.Handle) where
  unfoldable pub reserve : IdempotencyRecord → M (Session g) Bool
  unfolding with_db ◌>>=◌
  reserve record_ = with_db g db λ h. do
    result ← g.create h reserve_query Model.idempotency_records record_
    pure (result.1 == 1)

  unfoldable pub get : String → Uuid → String → M (Session g) IdempotencyRecord
  unfolding with_db
  get key user_id endpoint =
      with_db g db λ h. g.first h (record_query key user_id endpoint) Model.idempotency_records

  unfoldable pub mark_completed : Uuid → ℕ → Json → M (Session g) (Unit {0})
  unfolding with_db
  mark_completed record_id status_code response_body = with_db g db λ h.
      g.updates h (where_equal "id" (Value.uuid_value record_id)) Model.idempotency_records
        (completed_columns status_code response_body)

  abbrev pub repository : IdempotencyRepository (Session g)
  repository = record { reserve = reserve; get = get; mark_completed = mark_completed }
