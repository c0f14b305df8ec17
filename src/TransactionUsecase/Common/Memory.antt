-- ===== src/TransactionUsecase/Common/Memory.antt =====
-- What the idempotency table remembers of a finish-some request, and that a repeated request is
-- answered from it.
use go_hermes.Base.{
  ℕ, String, true, Option, none, some, List, ◌∷◌, ◌≡◌, ◌≢◌, refl, sym, ◌∙◌, ap, arith, str_eq_iff,
  ==_refl,
}
use go_hermes.Json.{Json}
use go_hermes.Entity.{Uuid, IdempotencyRecord, WebhookDelivery}
use go_hermes.Store.View.{View, record_by_key, complete}
use go_hermes.Store.Validity.{some-eq}
use go_hermes.TransactionUsecase.Common.{Outcome, done}
use go_hermes.TransactionUsecase.Common.Replay.{Answered}

-- The key is taken by a finish-some request with this hash, and with this answer.
pub record Remembered (v : View) (key : String) (user_id : Uuid) (endpoint request_hash : String)
    (status : ℕ) (body : Json) : Type 0 where
  pub existing : IdempotencyRecord
  pub found : record_by_key key user_id endpoint v.idempotency ≡ some existing
  pub same_hash : existing.request_hash ≡ request_hash
  pub same_status : existing.status_code ≡ status
  pub same_body : existing.response_body ≡ body
  pub finish-some : status ≢ 0

-- A completed record at the head of the table is found under its key.
pub record_by_key-complete :
    (x : IdempotencyRecord) (rest : List IdempotencyRecord) (i : Uuid) (status : ℕ) (body : Json)
    (key : String) (user_id : Uuid) (endpoint : String)
    → x.id ≡ i
    → x.idempotency_key ≡ key
    → x.user_id ≡ user_id
    → x.endpoint ≡ endpoint
    → record_by_key key user_id endpoint (complete i status body (x ∷ rest))
      ≡ some (record x { status_code = status; response_body = body })
record_by_key-complete x rest i status body key user_id endpoint same same_key same_user
      same_endpoint =
    simp (
      same,
      (str_eq_iff x.idempotency_key key).1 same_key,
      (str_eq_iff x.endpoint endpoint).1 same_endpoint,
      same_user,
      ==_refl,
    )

module _ (v : View) (key : String) (user_id : Uuid) (endpoint request_hash : String) where
  pub Answered-Remembered :
      (out : Outcome)
      → Answered v key user_id endpoint request_hash out
      → Remembered v key user_id endpoint request_hash out.0.status_code out.0.body
  Answered-Remembered out a = record {
    existing = a.existing;
    found = a.found;
    same_hash = a.same_hash;
    same_status = sym (ap (λ x. x.0.status_code) a.answer);
    same_body = sym (ap (λ x. x.0.body) a.answer);
    finish-some = λ z. a.finish-some (sym (ap (λ x. x.0.status_code) a.answer) ∙ z);
  }

  -- The answer is the one that is remembered.
  pub Remembered-answer :
      (status : ℕ) (body : Json) (out : Outcome)
      → Remembered v key user_id endpoint request_hash status body
      → Answered v key user_id endpoint request_hash out
      → out ≡ (record { status_code = status; body = body; replay = true }, none)
  Remembered-answer status body out m a =
      let same = some-eq a.found m.found in
      a.answer ∙ (λ i. (
        record {
          status_code = (ap (λ x. x.status_code) same ∙ m.same_status) i;
          body = (ap (λ x. x.response_body) same ∙ m.same_body) i;
          replay = true;
        },
        none,
      ))

  -- A taken key is not free, and answers one hash only.
  pub Remembered-not-free :
      (status : ℕ) (body : Json) {hash : String}
      → Remembered v key user_id endpoint hash status body
      → record_by_key key user_id endpoint v.idempotency ≡ none
      → ⊥
  Remembered-not-free status body m free = none_some (sym free ∙ m.found)
    where
      none_some : {x : IdempotencyRecord} → none ≡ some x → ⊥
      none_some p = cc

  pub Remembered-hash :
      (status : ℕ) (body : Json) {hash : String} (out : Outcome)
      → Remembered v key user_id endpoint hash status body
      → Answered v key user_id endpoint request_hash out
      → request_hash ≡ hash
  Remembered-hash status body out m a =
      sym a.same_hash ∙ ap (λ x. x.request_hash) (some-eq a.found m.found) ∙ m.same_hash

-- A run that stored and completed its record is remembered with its result.
pub Remembered-done :
    (v : View) (key : String) (user_id : Uuid) (endpoint request_hash : String)
    (x : IdempotencyRecord) (rest : List IdempotencyRecord) (i : Uuid) (payload : Json)
    (o : Option WebhookDelivery) (out : Outcome)
    → v.idempotency ≡ complete i 200 payload (x ∷ rest)
    → x.id ≡ i
    → x.idempotency_key ≡ key
    → x.user_id ≡ user_id
    → x.endpoint ≡ endpoint
    → x.request_hash ≡ request_hash
    → out ≡ done payload o
    → Remembered v key user_id endpoint request_hash out.0.status_code out.0.body
Remembered-done v key user_id endpoint request_hash x rest i payload o out table same same_key
      same_user same_endpoint hash outcome =
    record {
      existing = record x { status_code = 200; response_body = payload };
      found =
          ap (record_by_key key user_id endpoint) table
          ∙ record_by_key-complete x rest i 200 payload key user_id endpoint same same_key same_user
              same_endpoint;
      same_hash = hash;
      same_status = sym (ap (λ x. x.0.status_code) outcome ∙ done-status payload o);
      same_body = sym (ap (λ x. x.0.body) outcome ∙ done-body payload o);
      finish-some =
          λ z. two_hundred (sym (ap (λ x. x.0.status_code) outcome ∙ done-status payload o) ∙ z);
    }
  where
    two_hundred : ◌≡◌ {A = ℕ} 200 0 → ⊥
    two_hundred p = absurd (omega arith)

    done-status :
        (payload : Json) (o : Option WebhookDelivery) → (done payload o).0.status_code ≡ 200
    done-status payload none = refl
    done-status payload (some y) = refl

    done-body : (payload : Json) (o : Option WebhookDelivery) → (done payload o).0.body ≡ payload
    done-body payload none = refl
    done-body payload (some y) = refl
