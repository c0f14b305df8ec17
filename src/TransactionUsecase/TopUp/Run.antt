-- ===== src/TransactionUsecase/TopUp/Run.antt =====
-- A whole run of TopUp, taken apart by how it ended.
use go_hermes.Base.{
  true, none, some, List, [], ◌∷◌, ◌≡◌, ◌⊎◌, inl, inr, refl, sym, ◌∙◌, ap, subst, arith, All,
}
use go_hermes.Base.Int.{pos, ◌≤ℤ◌}
use go_hermes.AppError.{Error, ok, err, is_app, bad_request}
use go_hermes.Entity.{Uuid, Wallet, IdempotencyRecord, is_active}
use go_hermes.UuidLib.{UuidLib}
use go_hermes.Types.{TopUpRequest, OperationResult}
use go_hermes.Webhook.Create.{WebhookNotifier, enqueue_some}
use go_hermes.Store.{Repositories, >>=-ok, if-ends, require-ok, some_or-ok, map_error-ok, some_or}
use go_hermes.Store.View.{View, has_id, wallet_by_id, wallet_of_user, record_by_key, add_record}
use go_hermes.TransactionUsecase.TopUp.Calls.{top_up_tx-IsCalls}
use go_hermes.Store.Laws.{IsStore, SameRecord}
use go_hermes.TransactionUsecase.Common.{Draws, pending_record, Outcome, World, check_request}
use go_hermes.TransactionUsecase.Common.Replay.{
  Answered, answer_again-ok, check_request-ok, finish-ok, finish-err,
}
use go_hermes.TransactionUsecase.Common.Failure.{
  FailsCleanly, >>=-FailsCleanly, check_request-clean, some_or-clean, within-clean,
}
use go_hermes.TransactionUsecase.TopUp.{
  top_up_endpoint, first, top_up_fresh, top_up_tx, top_up_db, top_up,
}
use go_hermes.TransactionUsecase.TopUp.Effect.{Written, top_up_write-ok}

module _ (u : UuidLib) (req : TopUpRequest) (d : Draws) (user_id : Uuid) where
  abbrev pub reservation : IdempotencyRecord
  reservation = pending_record d req.idempotency_key user_id req.request_hash top_up_endpoint

  -- A run that moved money.
  pub record Fresh (v v' : View) (out : Outcome) : Type 0 where
    pub free : record_by_key req.idempotency_key user_id top_up_endpoint v.idempotency ≡ none
    pub reserved : IdempotencyRecord
    pub reserved_same : SameRecord reservation reserved
    pub owned : Wallet
    pub owner : wallet_of_user user_id v.wallets ≡ some owned
    pub target : Wallet
    pub target_id : target.id ≡ owned.id
    pub present : wallet_by_id target.id v.wallets ≡ some target
    pub active : is_active target.status ≡ true
    pub written : Written u req d user_id target (add_record v reserved) v' out

  abbrev pub Ran : View → View → Outcome → Type 0
  Ran v v' out =
      Fresh v v' out
      ⊎ ((v' ≡ v) × Answered v req.idempotency_key user_id top_up_endpoint req.request_hash out)

-- The one locked row is the one that was asked for.
first-locked :
    (ws locked : List Wallet) (i : Uuid) (w : Wallet)
    → All (λ x. (wallet_by_id x.id ws ≡ some x) × (has_id x.id (i ∷ []) ≡ true)) locked
    → first locked ≡ some w
    → (wallet_by_id w.id ws ≡ some w) × (w.id ≡ i)
first-locked ws [] i w h e = absurd (ground arith)
first-locked ws (x ∷ rest) i w h e = (ground arith, ground arith)

module _ (r : Repositories) (l : IsStore r) (u : UuidLib) (n : WebhookNotifier) (req : TopUpRequest)
    (d : Draws) where
  top_up_fresh-ok :
      (user_id : Uuid) (x : IdempotencyRecord) (v : View) (s t : r.Db) (out : Outcome)
      → record_by_key req.idempotency_key user_id top_up_endpoint v.idempotency ≡ none
      → SameRecord (reservation u req d user_id) x
      → l.view s ≡ add_record v x
      → top_up_fresh r u n req d user_id s ≡ (ok out, t)
      → Fresh u req d user_id v (l.view t) out
  unfolding top_up_fresh
  top_up_fresh-ok user_id x v s t out free same e0 h =
      let (w, s1, e1, h1) = >>=-ok _ _ _ h in
      let (locked, s2, e2, h2) = >>=-ok _ _ _ h1 in
      let (_, s3, e3, h3) = >>=-ok _ _ _ h2 in
      let (target, s4, e4, h4) = >>=-ok _ _ _ h3 in
      let (_, s5, e5, h5) = >>=-ok _ _ _ h4 in
      let (v1, owner) = l.wallet_found user_id s s1 w e1 in
      let (v2, rows) = l.wallets_locked _ s1 s2 locked e2 in
      let (_, same3) = require-ok _ _ _ e3 in
      let (chosen, same4) = some_or-ok _ _ _ e4 in
      let (active, same5) = require-ok _ _ _ e5 in
      let (present, target_id) = first-locked _ locked w.id target rows chosen in
      let kept : l.view s5 ≡ add_record v x = ap l.view (same5 ∙ same4 ∙ same3) ∙ v2 ∙ v1 ∙ e0 in
      let before : wallet_by_id target.id v.wallets ≡ some target =
        ap (λ v. wallet_by_id target.id v.wallets) (sym (v1 ∙ e0)) ∙ present in
      record {
        free = free;
        reserved = x;
        reserved_same = same;
        owned = w;
        owner = ap (λ v. wallet_of_user user_id v.wallets) (sym e0) ∙ owner;
        target = target;
        target_id = target_id;
        present = before;
        active = active;
        written =
            subst (λ v'. Written u req d user_id target v' (l.view t) out) kept
              (top_up_write-ok r l u n req d user_id target s5 t out
                (ap (λ v. wallet_by_id target.id v.wallets) kept ∙ before) h5);
      }

  top_up_tx-ok :
      (user_id : Uuid) (s t : r.Db) (out : Outcome)
      → top_up_tx r u n req d user_id s ≡ (ok out, t)
      → Ran u req d user_id (l.view s) (l.view t) out
  unfolding top_up_tx pending_record
  top_up_tx-ok user_id s t out h =
      let (inserted, s1, e1, h1) = >>=-ok _ _ _ h in
      elim (if-ends inserted _ _ _ _ h1) [
        | inl (yes_free, run) ↦
            let (free, stored) = l.record_reserved (reservation u req d user_id) s s1 (
              subst (λ b. r.idempotency.reserve (reservation u req d user_id) s ≡ (ok b, s1))
                yes_free e1) in
            let (x, same, v1) = stored in
            inl (top_up_fresh-ok user_id x (l.view s) s1 t out free same v1 run)
        | inr (taken, run) ↦
            let v1 = l.record_present (reservation u req d user_id) s s1 (
              subst (λ b. r.idempotency.reserve (reservation u req d user_id) s ≡ (ok b, s1)) taken
                e1) in
            let (v2, answered) = answer_again-ok r l _ user_id _ _ s1 t out run in
            inr (
              v2 ∙ v1,
              subst
                  (λ v. Answered v req.idempotency_key user_id top_up_endpoint req.request_hash out)
                  v1 answered,
            )
      ]

  -- A top-up that ends well has run its transaction for the caller and queued its delivery.
  pub top_up-ok :
      (w w' : World r.Db) (res : OperationResult)
      → top_up r u n req d w ≡ (ok res, w')
      → (user_id : Uuid) × (out : Outcome) × (u.parse req.user_id ≡ some user_id)
        × (pos 1 ≤ℤ req.amount)
        × Ran u req d user_id (l.view w.db) (l.view w'.db) out
        × (res ≡ out.0)
        × (w'.queue ≡ enqueue_some n w.queue out.1)
  unfolding top_up top_up_db
  top_up-ok w w' res h =
      let (out, run, same, queued) = finish-ok n w.queue (top_up_db r u n req d w.db) h in
      let (_, s1, e1, h1) = >>=-ok _ _ _ run in
      let (user_id, s2, e2, h2) = >>=-ok _ _ _ h1 in
      let (_, positive, kept1) = check_request-ok _ _ _ e1 in
      let (parsed, kept2) = some_or-ok _ _ _ e2 in
      let (b, t, begun, inner, v) =
        l.commits Outcome _ s2 w'.db out (top_up_tx-IsCalls r u n req d user_id)
          (map_error-ok _ _ _ h2) in
      let ran = top_up_tx-ok user_id b t out inner in
      (
        user_id,
        out,
        parsed,
        positive,
        subst (λ v'. Ran u req d user_id (l.view w.db) v' out) (sym v)
            (subst (λ v0. Ran u req d user_id v0 (l.view t) out) (begun ∙ ap l.view (kept2 ∙ kept1))
              ran),
        same,
        queued,
      )

  top_up_db-clean : (s : r.Db) → FailsCleanly r l (top_up_db r u n req d) s
  unfolding top_up_db
  top_up_db-clean s =
      >>=-FailsCleanly r l (check_request req.idempotency_key req.amount) _ s
        (check_request-clean r l req.idempotency_key req.amount s)
        λ _ s1 h1. (
          (check_request-ok req.idempotency_key req.amount s h1).2,
          >>=-FailsCleanly r l (some_or (u.parse req.user_id) (bad_request "invalid user id")) _ s1
              (some_or-clean r l _ _ s1 refl)
              λ user_id s2 h2. (
                (some_or-ok _ _ s1 h2).1,
                within-clean r l Outcome (top_up_tx r u n req d user_id) s2
                    (top_up_tx-IsCalls r u n req d user_id),
              ),
        )

  -- A top-up that fails changes no table and queues nothing, and its error is an application error.
  pub top_up-err :
      (w w' : World r.Db) (e : Error)
      → top_up r u n req d w ≡ (err e, w')
      → (l.view w'.db ≡ l.view w.db) × (w'.queue ≡ w.queue) × (is_app e ≡ true)
  unfolding top_up
  top_up-err w w' e h =
      let (run, kept) = finish-err n w.queue (top_up_db r u n req d w.db) h in
      let (same, known) = top_up_db-clean w.db e w'.db run in (same, kept, known)
