-- ===== src/Webhook/Delivery/Once.antt =====
-- What ProcessDelivery of internal/usecase/webhook.go leaves of the row of its delivery, whichever of
-- its statements fail.
use go_hermes.Base.{
  ℕ, suc, ◌≤◌, ◌<◌, true, false, none, some, List, [], ◌∷◌, ◌≡◌, ◌⊎◌, inl, inr, refl, sym, ap,
  subst, ◌∙◌, arith, if◌then◌else◌,
}
use go_hermes.AppError.{Error, Result, ok, err}
use go_hermes.Entity.{Uuid, Time, WebhookDelivery, WebhookDeliveryStatus}
use go_hermes.Store.{M, Repositories, >>=-step, >>=-stops, pure}
use go_hermes.Store.Deliveries.{delivery_by_id-id, delivery_by_id-put}
use go_hermes.Store.Laws.{IsWorkerStore}
use go_hermes.Store.Validity.{some-eq}
use go_hermes.Store.View.{View, delivery_by_id, put_delivery}
use go_hermes.TransactionUsecase.Common.Replay.{Result-cases}
use go_hermes.Webhook.Create.{WebhookConfig}
use go_hermes.Webhook.Delivery.{
  HttpLib, answered, attempt, attempted, after_reply, marked_delivered, marked_failed, is_final,
  request_of, process_delivery, update_delivery,
}
use go_hermes.Webhook.Worker.Rounds.{saved_as}

pub attempt-id :
    (h : HttpLib) (c : WebhookConfig) (now : Time) (d : WebhookDelivery)
    → (attempt h c now d).id ≡ d.id
unfolding attempt marked_failed marked_delivered
attempt-id h c now d = ground arith

attempt-delivered :
    (h : HttpLib) (c : WebhookConfig) (now : Time) (d : WebhookDelivery) (code : ℕ)
    → h.bad_url d.target_url ≡ none
    → h.post (request_of h d) ≡ answered code
    → 200 ≤ code
    → code < 300
    → attempt h c now d ≡ marked_delivered now code d
unfolding attempt
attempt-delivered h c now d code url reply low high =
    ap (λ o. attempted h c now o d) url ∙ (ap (λ p. after_reply h c now p d) reply ∙ ground arith)

-- One more call that returned no error.
abbrev pub counted : Result (Unit {0}) → ℕ → ℕ
counted (ok x) n = suc n
counted (err e) n = n

module _ (r : Repositories) (view : r.Db → View) (law : IsWorkerStore r view) (i : Uuid) where
  abbrev pub Row : WebhookDelivery → r.Db → Type 0
  Row d s = delivery_by_id i (view s).deliveries ≡ some d

  abbrev sent_on : HttpLib → WebhookConfig → Time → WebhookDelivery → M r.Db (Unit {0})
  sent_on h c now d =
      if is_final d.status then pure tt else update_delivery r h c (attempt h c now d)

  -- The row under a call that read it: the rest of the call runs on that row.
  process_delivery-read :
      (h : HttpLib) (c : WebhookConfig) (now : Time) (s : r.Db) (d : WebhookDelivery)
      → Row d s
      → ((e : Error) × (view (process_delivery r h c now i s).1 ≡ view s)
          × ((process_delivery r h c now i s).0 ≡ err e))
        ⊎ ((t : r.Db) × (view t ≡ view s) × (process_delivery r h c now i s ≡ sent_on h c now d t))
  unfolding process_delivery
  process_delivery-read h c now s d row = elim (Result-cases (r.webhooks.get_by_id i s)) [
    | inl (x, t, e) ↦
        let (same, found) = law.delivery_read i s t x e in
        let x_is = some-eq found row in
        inr (
          t,
          same,
          >>=-step (r.webhooks.get_by_id i) (sent_on h c now) s t x e
              ∙ ap (λ y. sent_on h c now y t) x_is,
        )
    | inr (x, t, e) ↦
        let stopped = >>=-stops (r.webhooks.get_by_id i) (sent_on h c now) s t x e in
        inl (x, ap (λ p. view p.1) stopped ∙ law.delivery_not_read i s t x e, ap (λ p. p.0) stopped)
  ]

  -- A delivery that has ended keeps its row, and every other row.
  pub process_delivery-final :
      (h : HttpLib) (c : WebhookConfig) (now : Time) (s : r.Db) (d : WebhookDelivery)
      → Row d s
      → is_final d.status ≡ true
      → view (process_delivery r h c now i s).1 ≡ view s
  process_delivery-final h c now s d row final = elim (process_delivery-read h c now s d row) [
    | inl (e, same, failed) ↦ same
    | inr (t, same, ran) ↦
        ap (λ p. view p.1) ran
        ∙ (ap (λ b. view ((if b then pure tt else update_delivery r h c (attempt h c now d)) t).1)
              final
            ∙ same)
  ]

  -- What the Save of an attempt leaves.
  attempt_saved :
      (h : HttpLib) (c : WebhookConfig) (now : Time) (t : r.Db) (d : WebhookDelivery)
      → Row d t
      → ((stamp : ℕ) × Row
            (saved_as h c now stamp d)
            (update_delivery r h c (attempt h c now d) t).1)
        ⊎ ((e : Error) × (view (update_delivery r h c (attempt h c now d) t).1 ≡ view t)
            × ((update_delivery r h c (attempt h c now d) t).0 ≡ err e))
  attempt_saved h c now t d row = elim (Result-cases (r.webhooks.update (attempt h c now d) t)) [
    | inl (d', w, e) ↦
        let (stamped, stored) = law.delivery_written (attempt h c now d) d' t w e in
        let ran = >>=-step (r.webhooks.update (attempt h c now d)) (λ x. pure tt) t w d' e in
        inl (d'.updated_at, written d' stamped (ap (λ p. view p.1) ran ∙ stored))
    | inr (x, w, e) ↦
        let ran = >>=-stops (r.webhooks.update (attempt h c now d)) (λ y. pure tt) t w x e in
        let kept = ap (λ p. view p.1) ran ∙ sym (ap (λ p. view p.1) e) in
        elim (law.delivery_saved (attempt h c now d) t) [
          | inl same ↦ inr (x, kept ∙ same, ap (λ p. p.0) ran)
          | inr (d', stamped, stored) ↦ inl (d'.updated_at, written d' stamped (kept ∙ stored))
        ]
  ]
    where
      written :
          (d' : WebhookDelivery) {w : r.Db}
          → d' ≡ saved_as h c now d'.updated_at d
          → view w ≡ record (view t) { deliveries = put_delivery d' (view t).deliveries }
          → Row (saved_as h c now d'.updated_at d) w
      written d' stamped stored =
          ap (λ v. delivery_by_id i v.deliveries) stored
          ∙ (delivery_by_id-put i d' (view t).deliveries (
                ap (λ x. x.id) stamped
                ∙ (attempt-id h c now d ∙ delivery_by_id-id i (view t).deliveries d row))
              ∙ ap some stamped)

  -- An open delivery: its row is that of an attempt, or the call failed and no table has changed.
  pub process_delivery-open :
      (h : HttpLib) (c : WebhookConfig) (now : Time) (s : r.Db) (d : WebhookDelivery)
      → Row d s
      → is_final d.status ≡ false
      → ((stamp : ℕ) × Row (saved_as h c now stamp d) (process_delivery r h c now i s).1)
        ⊎ ((e : Error) × (view (process_delivery r h c now i s).1 ≡ view s)
            × ((process_delivery r h c now i s).0 ≡ err e))
  process_delivery-open h c now s d row still = elim (process_delivery-read h c now s d row) [
    | inl failed ↦ inr failed
    | inr (t, same, ran) ↦
        let here = ap (λ v. delivery_by_id i v.deliveries) same ∙ row in
        let sent =
          ran
          ∙ ap (λ b. (if b then pure tt else update_delivery r h c (attempt h c now d)) t) still in
        elim (attempt_saved h c now t d here) [
          | inl (stamp, now_row) ↦
              inl (stamp, subst (λ p. Row (saved_as h c now stamp d) p.1) (sym sent) now_row)
          | inr (e, kept, failed) ↦
              inr (e, ap (λ p. view p.1) sent ∙ (kept ∙ same), ap (λ p. p.0) sent ∙ failed)
        ]
  ]

  -- Calls of ProcessDelivery one after the other, each with its own receiver and time and whatever the
  -- one before returned, and how many of them returned no error.
  abbrev pub sends : WebhookConfig → List (HttpLib × Time) → r.Db → r.Db × ℕ
  sends c [] s = (s, 0)
  sends c ((h, now) ∷ rest) s =
      let (t, n) = sends c rest (process_delivery r h c now i s).1 in
      (t, counted (process_delivery r h c now i s).0 n)

  pub sends-final :
      (c : WebhookConfig) (plan : List (HttpLib × Time)) (s : r.Db) (d : WebhookDelivery)
      → Row d s
      → is_final d.status ≡ true
      → view (sends c plan s).0 ≡ view s
  sends-final c [] s d row final = refl
  sends-final c ((h, now) ∷ rest) s d row final =
      let same = process_delivery-final h c now s d row final in
      sends-final c rest (process_delivery r h c now i s).1 d
        (ap (λ v. delivery_by_id i v.deliveries) same ∙ row) final
      ∙ same

  -- For a row of an open delivery whose receiver answers the attempt with a status from 200 to 299:
  -- after a ProcessDelivery that returns no error, the row says that the delivery succeeded at that
  -- time, and any number of later calls for it, with any receivers and any failing statements, change
  -- no table.
  pub delivered_once :
      (h : HttpLib) (c c' : WebhookConfig) (now : Time) (s t : r.Db) (d : WebhookDelivery)
      (code : ℕ) (later : List (HttpLib × Time))
      → delivery_by_id i (view s).deliveries ≡ some d
      → is_final d.status ≡ false
      → h.bad_url d.target_url ≡ none
      → h.post (request_of h d) ≡ answered code
      → 200 ≤ code
      → code < 300
      → process_delivery r h c now i s ≡ (ok tt, t)
      → (d' : WebhookDelivery) × (delivery_by_id i (view t).deliveries ≡ some d')
        × (d'.status ≡ WebhookDeliveryStatus.success)
        × (d'.delivered_at ≡ some now)
        × (view (sends c' later t).0 ≡ view t)
  unfolding marked_delivered
  delivered_once h c c' now s t d code later row still url reply low high ran =
      elim (process_delivery-open h c now s d row still) [
        | inl (stamp, written) ↦
            let at_end = subst (λ p. Row (saved_as h c now stamp d) p.1) ran written in
            let done = attempt-delivered h c now d code url reply low high in
            let success = ap (λ x. x.status) done in
            (
              saved_as h c now stamp d,
              at_end,
              success,
              ap (λ x. x.delivered_at) done,
              sends-final c' later t (saved_as h c now stamp d) at_end (ap is_final success),
            )
        | inr (e, same, failed) ↦ absurd (ok_ne_err (sym (ap (λ p. p.0) ran) ∙ failed))
      ]
    where
      ok_ne_err : {e : Error} → ◌≡◌ {A = Result (Unit {0})} (ok tt) (err e) → ⊥
      ok_ne_err p = absurd (ground arith)
