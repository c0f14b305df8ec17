-- ===== src/TransactionUsecase/Common/Replay.antt =====
-- What the guards and the answer to a repeated request establish when they end well.
use go_hermes.Base.{
  ℕ, String, Bool, true, false, none, some, List, ◌≡◌, ◌≢◌, ◌⊎◌, Option, inl, inr, refl, ◌∙◌, ap,
  arith, not, ◌==◌, str_eq, str_eq_iff,
}
use go_hermes.Base.Int.{ℤ, pos, ◌≤ℤ◌, leb_ℤ}
use go_hermes.AppError.{Error, Result, ok, err}
use go_hermes.Json.{Json}
use go_hermes.Entity.{Uuid, IdempotencyRecord, WebhookDelivery}
use go_hermes.Types.{OperationResult}
use go_hermes.Webhook.Create.{WebhookNotifier, enqueue_some}
use go_hermes.Store.{Repositories, >>=-ok, require-ok, pure-ok}
use go_hermes.Store.View.{View, record_by_key}
use go_hermes.Store.Laws.{IsStore}
use go_hermes.TransactionUsecase.Common.{Outcome, done, answer_again, check_request, World, finish}

not-true : (b : Bool) → not b ≡ true → b ≡ false
not-true true h = ground arith
not-true false h = refl

pub positive_of_test : (a : ℤ) → leb_ℤ a (pos 0) ≡ false → pos 1 ≤ℤ a
positive_of_test a h = ground arith

pub check_request-ok :
    {Db : Type 0} (key : String) (amount : ℤ) (s : Db) {t : Db} {x : Unit {0}}
    → check_request key amount s ≡ (ok x, t)
    → (str_eq key "" ≡ false) × (pos 1 ≤ℤ amount) × (t ≡ s)
unfolding check_request
check_request-ok key amount s h =
    let (_, s1, e1, h1) = >>=-ok _ _ _ h in
    let (keyed, same1) = require-ok _ _ _ e1 in
    let (positive, same2) = require-ok _ _ _ h1 in
    (not-true _ keyed, positive_of_test amount (not-true _ positive), same2 ∙ same1)

-- The record that a repeated request is answered from.
pub record Answered (v : View) (key : String) (user_id : Uuid) (endpoint request_hash : String)
    (out : Outcome) : Type 0 where
  pub existing : IdempotencyRecord
  pub found : record_by_key key user_id endpoint v.idempotency ≡ some existing
  pub same_hash : existing.request_hash ≡ request_hash
  pub finish-some : existing.status_code ≢ 0
  pub answer : out ≡ (
    record { status_code = existing.status_code; body = existing.response_body; replay = true },
    none,
  )

module _ (r : Repositories) (l : IsStore r) where
  pub answer_again-ok :
      (key : String) (user_id : Uuid) (endpoint request_hash : String) (s t : r.Db) (out : Outcome)
      → answer_again r key user_id endpoint request_hash s ≡ (ok out, t)
      → (l.view t ≡ l.view s) × Answered (l.view s) key user_id endpoint request_hash out
  unfolding answer_again
  answer_again-ok key user_id endpoint request_hash s t out h =
      let (x, s1, e1, h1) = >>=-ok _ _ _ h in
      let (_, s2, e2, h2) = >>=-ok _ _ _ h1 in
      let (_, s3, e3, h3) = >>=-ok _ _ _ h2 in
      let (hashed, same1) = require-ok _ _ _ e2 in
      let (completed, same2) = require-ok _ _ _ e3 in
      let (answer, same3) = pure-ok h3 in
      let (kept, found) = l.record_found key user_id endpoint s s1 x e1 in
      (
        ap l.view (same3 ∙ same2 ∙ same1) ∙ kept,
        record {
          existing = x;
          found = found;
          same_hash = (str_eq_iff _ _).0 hashed;
          finish-some = λ z. nonzero x.status_code completed z;
          answer = answer;
        },
      )
    where
      nonzero : (n : ℕ) → not (n == 0) ≡ true → n ≢ 0
      nonzero n p z = ground arith

pub finish-ok :
    {Db : Type 0} (n : WebhookNotifier) (queue : List Uuid) (p : Result Outcome × Db)
    {x : OperationResult} {w : World Db}
    → finish n queue p ≡ (ok x, w)
    → (out : Outcome) × (p ≡ (ok out, w.db)) × (x ≡ out.0) × (w.queue ≡ enqueue_some n queue out.1)
finish-ok n queue (ok out, s) h = (out, ground arith, ground arith, ground arith)
finish-ok n queue (err e, s) h = absurd (ground arith)

pub finish-err :
    {Db : Type 0} (n : WebhookNotifier) (queue : List Uuid) (p : Result Outcome × Db) {e : Error}
    {w : World Db}
    → finish n queue p ≡ (err e, w)
    → (p ≡ (err e, w.db)) × (w.queue ≡ queue)
finish-err n queue (ok out, s) h = absurd (ground arith)
finish-err n queue (err e, s) h = (ground arith, ground arith)

pub Result-cases :
    {A W : Type 0} (p : Result A × W)
    → ((a : A) × (w : W) × (p ≡ (ok a, w))) ⊎ ((e : Error) × (w : W) × (p ≡ (err e, w)))
Result-cases (ok a, w) = inl (a, w, refl)
Result-cases (err e, w) = inr (e, w, refl)

-- Only the answer to a repeated request says that it is one.
pub replay-Answered :
    {v : View} {key : String} {user_id : Uuid} {endpoint request_hash : String} (out : Outcome)
    → Answered v key user_id endpoint request_hash out
    → out.0.replay ≡ true
replay-Answered out a = ap (λ x. x.0.replay) a.answer

pub replay-done : (body : Json) (o : Option WebhookDelivery) → (done body o).0.replay ≡ false
replay-done body none = refl
replay-done body (some x) = refl
