-- ===== src/TransactionUsecase/TopUp/Returns.antt =====
-- On the reference tables, whose only failures are the constraints, TopUp of
-- internal/usecase/transaction.go returns a result whenever its guards hold.
use go_hermes.Tables.Returns.{
  Returns, >>=-Returns, require-true, some_or-some, save_wallet-fits, found-some, rows-one,
  map_error-Returns, rolled-Returns, finish-some,
}
use go_hermes.Base.{
  true, false, none, some, [], ◌∷◌, ◌≡◌, refl, ap, ◌∙◌, not, ◌==◌, str_eq, length, is_some,
  if◌then◌else◌,
}
use go_hermes.Base.Int.{pos, leb_ℤ, ltb_ℤ}
use go_hermes.Base.Int64.{add64}
use go_hermes.AppError.{ok, as_app}
use go_hermes.Entity.{Uuid, Wallet, is_active}
use go_hermes.Store.{>>=-step}
use go_hermes.Store.View.{View, wallet_of_user, wallet_by_id, record_by_key, add_record}
use go_hermes.Tables.{tables, rows}
use go_hermes.TransactionUsecase.Common.{Draws, World, check_request, pending_record}
use go_hermes.TransactionUsecase.TopUp.{
  top_up, top_up_db, top_up_tx, top_up_fresh, top_up_write, top_up_endpoint, credited, first,
}
use go_hermes.Types.{TopUpRequest, OperationResult}
use go_hermes.UuidLib.{UuidLib}
use go_hermes.Webhook.Create.{noop, create_top_up_delivery}

module _ (u : UuidLib) (req : TopUpRequest) (d : Draws) where
  top_up_write-Returns :
      (i : Uuid) (w : Wallet) (v : View)
      → ltb_ℤ (add64 w.balance req.amount) (pos 0) ≡ false
      → Returns (top_up_write tables u noop req d i w) v
  unfolding top_up_write create_top_up_delivery
  top_up_write-Returns i w v fits = >>=-Returns _ _ v _ _ refl (
      >>=-Returns _ _ _ _ _ (save_wallet-fits (credited w req.amount) _ fits) (
        >>=-Returns _ _ _ _ _ refl (
          >>=-Returns _ _ _ _ _ refl
            (>>=-Returns _ _ _ _ _ refl (>>=-Returns _ _ _ _ _ refl (_, _, refl))))))

  top_up_fresh-Returns :
      (i : Uuid) (w : Wallet) (v : View)
      → wallet_of_user i v.wallets ≡ some w
      → wallet_by_id w.id v.wallets ≡ some w
      → is_active w.status ≡ true
      → ltb_ℤ (add64 w.balance req.amount) (pos 0) ≡ false
      → Returns (top_up_fresh tables u noop req d i) v
  unfolding top_up_fresh
  top_up_fresh-Returns i w v owned present active fits =
      let row = rows-one w.id v.wallets w present in
      >>=-Returns _ _ v v w (found-some _ v w owned) (
        >>=-Returns _ _ v v (rows (w.id ∷ []) v.wallets) refl (
          >>=-Returns _ _ v v tt (require-true _ _ v (ap (λ ws. length ws == 1) row)) (
            >>=-Returns _ _ v v w (some_or-some _ _ v w (ap first row)) (
              >>=-Returns _ _ v v tt (require-true _ _ v active)
                (top_up_write-Returns i w v fits)))))

  top_up_tx-Returns :
      (i : Uuid) (w : Wallet) (v : View)
      → record_by_key req.idempotency_key i top_up_endpoint v.idempotency ≡ none
      → wallet_of_user i v.wallets ≡ some w
      → wallet_by_id w.id v.wallets ≡ some w
      → is_active w.status ≡ true
      → ltb_ℤ (add64 w.balance req.amount) (pos 0) ≡ false
      → Returns (top_up_tx tables u noop req d i) v
  unfolding top_up_tx pending_record
  top_up_tx-Returns i w v free owned present active fits =
      >>=-Returns _ _ v
        (add_record v (pending_record d req.idempotency_key i req.request_hash top_up_endpoint))
        true
        (ap
          (λ o. if is_some o then (ok false, v) else (
            ok true,
            add_record v (pending_record d req.idempotency_key i req.request_hash top_up_endpoint),
          ))
          free)
        (top_up_fresh-Returns i w _ owned present active fits)

  top_up_db-Returns :
      (i : Uuid) (v : View)
      → str_eq req.idempotency_key "" ≡ false
      → leb_ℤ req.amount (pos 0) ≡ false
      → u.parse req.user_id ≡ some i
      → Returns (top_up_tx tables u noop req d i) v
      → Returns (top_up_db tables u noop req d) v
  unfolding top_up_db check_request
  top_up_db-Returns i v key positive parsed rest =
      >>=-Returns _ _ v v tt
        (>>=-step _ _ v v tt (require-true _ _ v (ap not key))
          ∙ require-true _ _ v (ap not positive))
        (>>=-Returns _ _ v v i (some_or-some _ _ v i parsed)
          (map_error-Returns as_app _ v (rolled-Returns (top_up_tx tables u noop req d i) v rest)))

  -- On the reference tables, without webhooks: if the idempotency key is not empty and new, the amount
  -- is positive, the caller's id is a UUID with an active wallet, and the sum of its balance and the
  -- amount does not wrap around to a negative number, then TopUp returns a result.
  pub top_up-Returns :
      (i : Uuid) (w : Wallet) (start : World View)
      → str_eq req.idempotency_key "" ≡ false
      → leb_ℤ req.amount (pos 0) ≡ false
      → u.parse req.user_id ≡ some i
      → record_by_key req.idempotency_key i top_up_endpoint start.db.idempotency ≡ none
      → wallet_of_user i start.db.wallets ≡ some w
      → wallet_by_id w.id start.db.wallets ≡ some w
      → is_active w.status ≡ true
      → ltb_ℤ (add64 w.balance req.amount) (pos 0) ≡ false
      → (res : OperationResult) × (end : World View) × (top_up tables u noop req d start
          ≡ (ok res, end))
  unfolding top_up
  top_up-Returns i w start key positive parsed free owned present active fits =
      let (a, t, e) =
        top_up_db-Returns i start.db key positive parsed
          (top_up_tx-Returns i w start.db free owned present active fits) in
      finish-some start.queue (top_up_db tables u noop req d start.db) a t e
