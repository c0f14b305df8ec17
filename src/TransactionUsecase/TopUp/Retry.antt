-- ===== src/TransactionUsecase/TopUp/Retry.antt =====
-- Repeating a top-up under its idempotency key.
use go_hermes.Base.{
  ℕ, String, true, some, List, [], ◌∷◌, ◌≡◌, ◌≢◌, ◌⊎◌, inl, inr, refl, sym, ◌∙◌, ap, subst,
}
use go_hermes.AppError.{Error, ok, err, is_app}
use go_hermes.Json.{Json}
use go_hermes.Entity.{Uuid}
use go_hermes.UuidLib.{UuidLib}
use go_hermes.Types.{TopUpRequest, OperationResult}
use go_hermes.Webhook.Create.{WebhookNotifier, enqueue_some}
use go_hermes.Webhook.Create.Effect.{deliver-idempotency}
use go_hermes.Store.{Repositories}
use go_hermes.Store.View.{View, complete}
use go_hermes.Store.Validity.{some-eq}
use go_hermes.Store.Laws.{IsStore}
use go_hermes.TransactionUsecase.Common.{Draws, Outcome, World, pending_record}
use go_hermes.TransactionUsecase.Common.Replay.{Result-cases}
use go_hermes.TransactionUsecase.Common.Memory.{
  Remembered, Answered-Remembered, Remembered-answer, Remembered-not-free, Remembered-hash,
  Remembered-done,
}
use go_hermes.TransactionUsecase.TopUp.{top_up_endpoint, top_up_payload, top_up}
use go_hermes.TransactionUsecase.TopUp.Run.{Ran, top_up-ok, top_up-err}

module _ (u : UuidLib) (req : TopUpRequest) (d : Draws) (user_id : Uuid) where
  abbrev Kept : View → Outcome → Type 0
  Kept v out =
      Remembered v req.idempotency_key user_id top_up_endpoint req.request_hash out.0.status_code
        out.0.body

  -- A run that ended well is remembered.
  Ran-Remembered : (v v' : View) (out : Outcome) → Ran u req d user_id v v' out → Kept v' out
  unfolding pending_record
  Ran-Remembered v v' out (inl f) =
      Remembered-done v' _ _ _ _ f.reserved v.idempotency d.record_id
        (top_up_payload u f.written.row f.written.wallet) f.written.delivery out
        (ap (λ x. x.idempotency) f.written.tables
          ∙ ap (complete d.record_id 200 _) (deliver-idempotency _ f.written.delivery))
        (ap (λ x. x.id) f.reserved_same) (ap (λ x. x.idempotency_key) f.reserved_same)
        (ap (λ x. x.user_id) f.reserved_same) (ap (λ x. x.endpoint) f.reserved_same)
        (ap (λ x. x.request_hash) f.reserved_same) f.written.outcome
  Ran-Remembered v v' out (inr (same, again)) =
      subst (λ v. Kept v out) (sym same)
        (Answered-Remembered v req.idempotency_key user_id top_up_endpoint req.request_hash out
          again)

module _ (r : Repositories) (l : IsStore r) (u : UuidLib) (n : WebhookNotifier)
    (req : TopUpRequest) where
  -- A run over tables that remember its key ends well only as the answer that they remember.
  Remembered-ok :
      (d : Draws) (user_id : Uuid) (hash : String) (status : ℕ) (body : Json) (w w' : World r.Db)
      (res : OperationResult)
      → u.parse req.user_id ≡ some user_id
      → Remembered (l.view w.db) req.idempotency_key user_id top_up_endpoint hash status body
      → top_up r u n req d w ≡ (ok res, w')
      → (req.request_hash ≡ hash)
        × (res ≡ record { status_code = status; body = body; replay = true })
        × (l.view w'.db ≡ l.view w.db)
        × (w'.queue ≡ w.queue)
  Remembered-ok d user_id hash status body w w' res parsed m h =
      let (user_id', out, parsed', _, ran, same, queued) = top_up-ok r l u n req d w w' res h in
      go user_id' out ran
        (subst
          (λ i. Remembered (l.view w.db) req.idempotency_key i top_up_endpoint hash status body)
          (some-eq parsed parsed') m)
        same queued
    where
      go :
          (i : Uuid) (out : Outcome)
          → Ran u req d i (l.view w.db) (l.view w'.db) out
          → Remembered (l.view w.db) req.idempotency_key i top_up_endpoint hash status body
          → res ≡ out.0
          → w'.queue ≡ enqueue_some n w.queue out.1
          → (req.request_hash ≡ hash)
            × (res ≡ record { status_code = status; body = body; replay = true })
            × (l.view w'.db ≡ l.view w.db)
            × (w'.queue ≡ w.queue)
      go i out (inl f) m same queued =
          absurd (Remembered-not-free (l.view w.db) _ i _ req.request_hash status body m f.free)
      go i out (inr (kept, again)) m same queued =
          let hashed =
            Remembered-hash (l.view w.db) _ i _ req.request_hash status body out m again in
          let answer =
            Remembered-answer (l.view w.db) _ i _ req.request_hash status body out
              (record {
                existing = m.existing;
                found = m.found;
                same_hash = m.same_hash ∙ sym hashed;
                same_status = m.same_status;
                same_body = m.same_body;
                finish-some = m.finish-some;
              })
              again in
          (
            hashed,
            same ∙ ap (λ x. x.0) answer,
            kept,
            queued ∙ ap (λ x. enqueue_some n w.queue x.1) answer,
          )

  -- After a run that ended well, the tables remember it.
  first-ok :
      (d : Draws) (w w1 : World r.Db) (res : OperationResult)
      → top_up r u n req d w ≡ (ok res, w1)
      → (user_id : Uuid) × (u.parse req.user_id ≡ some user_id)
        × Remembered
            (l.view w1.db)
            req.idempotency_key
            user_id
            top_up_endpoint
            req.request_hash
            res.status_code
            res.body
  first-ok d w w1 res h =
      let (user_id, out, parsed, _, ran, same, _) = top_up-ok r l u n req d w w1 res h in
      (
        user_id,
        parsed,
        subst
            (λ x.
              Remembered (l.view w1.db) req.idempotency_key user_id top_up_endpoint req.request_hash
                x.status_code x.body)
            (sym same) (Ran-Remembered u req d user_id (l.view w.db) (l.view w1.db) out ran),
      )

  -- If TopUp returns a result and the same request is made again, with whatever identifiers and
  -- times the second run draws, and also returns a result, then that has the first one's status and
  -- body and is marked as a replay, no table has changed, and nothing was queued.
  pub top_up_replays :
      (d d' : Draws) (w w1 w2 : World r.Db) (res res' : OperationResult)
      → top_up r u n req d w ≡ (ok res, w1)
      → top_up r u n req d' w1 ≡ (ok res', w2)
      → (res' ≡ record res { replay = true })
        × (l.view w2.db ≡ l.view w1.db)
        × (w2.queue ≡ w1.queue)
  top_up_replays d d' w w1 w2 res res' h h' =
      let (user_id, parsed, m) = first-ok d w w1 res h in
      let (_, same, kept, queued) =
        Remembered-ok d' user_id req.request_hash res.status_code res.body w1 w2 res' parsed m h' in
      (same, kept, queued)

  -- Any number of repetitions, one for each entry of a list.
  pub top_up_retries : List Draws → World r.Db → World r.Db
  top_up_retries [] w = w
  top_up_retries (d ∷ ds) w = top_up_retries ds (top_up r u n req d w).1

  retries-Remembered :
      (ds : List Draws) (user_id : Uuid) (status : ℕ) (body : Json) (w : World r.Db)
      → u.parse req.user_id ≡ some user_id
      → Remembered
          (l.view w.db)
          req.idempotency_key
          user_id
          top_up_endpoint
          req.request_hash
          status
          body
      → (l.view (top_up_retries ds w).db ≡ l.view w.db) × ((top_up_retries ds w).queue ≡ w.queue)
  unfolding top_up_retries
  retries-Remembered [] user_id status body w parsed m = (refl, refl)
  retries-Remembered (d ∷ ds) user_id status body w parsed m =
      let (kept, queued) = one (Result-cases (top_up r u n req d w)) in
      let rest = retries-Remembered ds user_id status body (top_up r u n req d w).1 parsed (
        subst
          (λ v.
            Remembered v req.idempotency_key user_id top_up_endpoint req.request_hash status body)
          (sym kept) m) in
      (rest.0 ∙ kept, rest.1 ∙ queued)
    where
      one :
          ((res : OperationResult) × (w' : World r.Db) × (top_up r u n req d w ≡ (ok res, w')))
            ⊎ ((e : Error) × (w' : World r.Db) × (top_up r u n req d w ≡ (err e, w')))
          → (l.view (top_up r u n req d w).1.db ≡ l.view w.db)
            × ((top_up r u n req d w).1.queue ≡ w.queue)
      one (inl (res, w', h)) =
          let (_, _, kept, queued) =
            Remembered-ok d user_id req.request_hash status body w w' res parsed m h in
          (ap (λ p. l.view p.1.db) h ∙ kept, ap (λ p. p.1.queue) h ∙ queued)
      one (inr (e, w', h)) =
          let (kept, queued, _) = top_up-err r l u n req d w w' e h in
          (ap (λ p. l.view p.1.db) h ∙ kept, ap (λ p. p.1.queue) h ∙ queued)

  -- If TopUp returns a result, then any number of repetitions of the request, each ending as it
  -- may, leave every table and the queue as the first run left them.
  pub top_up_once :
      (d : Draws) (ds : List Draws) (w w1 : World r.Db) (res : OperationResult)
      → top_up r u n req d w ≡ (ok res, w1)
      → (l.view (top_up_retries ds w1).db ≡ l.view w1.db)
        × ((top_up_retries ds w1).queue ≡ w1.queue)
  top_up_once d ds w w1 res h =
      let (user_id, parsed, m) = first-ok d w w1 res h in
      retries-Remembered ds user_id res.status_code res.body w1 parsed m

module _ (r : Repositories) (l : IsStore r) (u : UuidLib) (n : WebhookNotifier) where
  -- If TopUp returns a result, then another request of the same user under the same key with a
  -- different payload hash fails with an application error, and leaves every table and the queue
  -- as they were.
  pub top_up_key_reused :
      (req other : TopUpRequest) (d d' : Draws) (w w1 : World r.Db) (res : OperationResult)
      → top_up r u n req d w ≡ (ok res, w1)
      → other.user_id ≡ req.user_id
      → other.idempotency_key ≡ req.idempotency_key
      → other.request_hash ≢ req.request_hash
      → (e : Error) × (w2 : World r.Db) × (top_up r u n other d' w1 ≡ (err e, w2))
        × (l.view w2.db ≡ l.view w1.db)
        × (w2.queue ≡ w1.queue)
        × (is_app e ≡ true)
  top_up_key_reused req other d d' w w1 res h same_user same_key differ =
      let (user_id, parsed, m) = first-ok r l u n req d w w1 res h in
      elim (Result-cases (top_up r u n other d' w1)) [
        | inl (res', w2, h') ↦ absurd (
            differ
              (Remembered-ok r l u n other d' user_id req.request_hash res.status_code res.body w1
                w2 res' (ap u.parse same_user ∙ parsed)
                (subst
                  (λ k.
                    Remembered (l.view w1.db) k user_id top_up_endpoint req.request_hash
                      res.status_code res.body)
                  (sym same_key) m)
                h').0)
        | inr (e, w2, h') ↦
            let (kept, queued, known) = top_up-err r l u n other d' w1 w2 e h' in
            (e, w2, h', kept, queued, known)
      ]
