-- ===== src/Gorm/Due.antt =====
-- ListDue of internal/repository/gorm.go: which deliveries the worker takes up.
use go_hermes.Base.{
  ℕ, true, false, Option, none, some, List, ◌≡◌, ◌⊎◌, inl, inr, refl, sym, arith, All, All-mono,
  ◌≤◌, str_eq, str_eq_iff, length, ◌||◌, true_ne_false,
}
use go_hermes.Base.Int.{pos}
use go_hermes.AppError.{ok}
use go_hermes.Entity.{Time, WebhookDelivery}
use go_hermes.Store.View.{View}
use go_hermes.Types.{delivery_status_text}
use go_hermes.Gorm.Access.{or-cases, and-parts}
use go_hermes.Gorm.Laws.{IsGorm}
use go_hermes.Gorm.Query.{Model, Value}
use go_hermes.Gorm.Session.{Gorm, Session}
use go_hermes.Gorm.Semantics.{keeps, value_at_most, is_null_value, nullable_time}
use go_hermes.Gorm.Statements.{session_view, with_db-ok, find-ok}
use go_hermes.Gorm.Webhooks.{due_query, list_due}

-- No retry is set, or its time has come.
abbrev pub IsRipe : Time → Option Time → Type 0
IsRipe now none = Unit
IsRipe now (some t) = t ≤ now

pub record IsDue (now : Time) (d : WebhookDelivery) : Type 0 where
  pub open_status :
      (delivery_status_text d.status ≡ "PENDING") ⊎ (delivery_status_text d.status ≡ "RETRYING")
  pub ripe : IsRipe now d.next_retry_at

IsRipe-keeps :
    (now : Time) (o : Option Time)
    → (is_null_value (nullable_time o) || value_at_most (nullable_time o) (Value.time_value now))
      ≡ true
    → IsRipe now o
IsRipe-keeps now none h = tt
IsRipe-keeps now (some t) h = ground arith

IsDue-keeps :
    (v : View) (now : Time) (n : ℕ) (d : WebhookDelivery)
    → keeps Model.webhook_deliveries v (due_query now (pos n)) d ≡ true
    → IsDue now d
IsDue-keeps v now n d h =
    let (status, ripe) = and-parts _ _ h in
    record {
      open_status = elim (or-cases (str_eq (delivery_status_text d.status) "PENDING") _ status) [
        | inl pending ↦ inl ((str_eq_iff _ _).0 pending)
        | inr rest ↦
            elim (or-cases (str_eq (delivery_status_text d.status) "RETRYING") false rest) [
              | inl retrying ↦ inr ((str_eq_iff _ _).0 retrying)
              | inr neither ↦ absurd (true_ne_false (sym neither))
            ]
      ];
      ripe = IsRipe-keeps now d.next_retry_at ripe;
    }

-- If ListDue returns deliveries, then each of them is pending or to be retried, none has a retry
-- time after now, they are at most as many as the limit, and no table has changed.
pub list_due-IsDue :
    (g : Gorm) (l : IsGorm g) (db : g.Handle) (now : Time) (n : ℕ) (s t : Session g)
    (ds : List WebhookDelivery)
    → list_due g db now (pos n) s ≡ (ok ds, t)
    → All (IsDue now) ds × (length ds ≤ n) × (session_view l t ≡ session_view l s)
unfolding list_due
list_due-IsDue g l db now n s t ds h =
    let q = due_query now (pos n) in
    let (same, kept) = find-ok g l db q Model.webhook_deliveries s t ds h in
    let e = with_db-ok g l db (λ h. g.find h q Model.webhook_deliveries) s t ds h in
    (
      All-mono (IsDue-keeps (session_view l s) now n) ds kept,
      l.rows_limited _ q Model.webhook_deliveries s.db t.db ds n e refl,
      same,
    )
