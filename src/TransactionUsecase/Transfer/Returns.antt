-- ===== src/TransactionUsecase/Transfer/Returns.antt =====
-- On the reference tables, whose only failures are the constraints, Transfer of
-- internal/usecase/transaction.go returns a result whenever its guards hold.
use go_hermes.Tables.Returns.{
  Returns, >>=-Returns, require-true, some_or-some, save_wallet-fits, found-some, map_error-Returns,
  rolled-Returns, finish-some,
}
use go_hermes.Base.{
  ℕ, true, false, none, some, List, [], ◌∷◌, ◌≡◌, ◌≢◌, refl, ap, ◌∙◌, not, ◌==◌, ◌&&◌, str_eq,
  length, is_some, if◌then◌else◌, arith,
}
use go_hermes.Base.Int.{pos, leb_ℤ, ltb_ℤ}
use go_hermes.Base.Int64.{add64, sub64}
use go_hermes.AppError.{ok, as_app}
use go_hermes.Entity.{Uuid, Wallet, is_active}
use go_hermes.Store.{>>=-step}
use go_hermes.Store.View.{View, wallet_of_user, wallet_by_id, record_by_key, add_record}
use go_hermes.Tables.{tables, rows, with_row}
use go_hermes.TransactionUsecase.Common.{Draws, World, check_request, pending_record}
use go_hermes.TransactionUsecase.TopUp.{credited}
use go_hermes.TransactionUsecase.Transfer.{
  transfer, transfer_db, transfer_tx, transfer_fresh, transfer_locked, transfer_checked,
  transfer_write, transfer_endpoint, debited, wallet_map,
}
use go_hermes.Types.{TransferRequest, OperationResult}
use go_hermes.UuidLib.{UuidLib}
use go_hermes.Webhook.Create.{noop, create_transfer_delivery}

map-first : (a b : Wallet) → a.id ≢ b.id → wallet_map (a ∷ b ∷ []) a.id ≡ some a
map-first a b h = ground arith

map-second : (a b : Wallet) → wallet_map (a ∷ b ∷ []) b.id ≡ some b
map-second a b = ground arith

rows-two :
    (i j : Uuid) (ws : List Wallet) (a b : Wallet)
    → wallet_by_id i ws ≡ some a
    → wallet_by_id j ws ≡ some b
    → rows (i ∷ j ∷ []) ws ≡ a ∷ b ∷ []
rows-two i j ws a b h k =
    ap (λ o. with_row o (with_row (wallet_by_id j ws) [])) h ∙ ap (λ o. a ∷ with_row o []) k

apart : (i j : ℕ) → i ≢ j → not (i == j) ≡ true
apart i j h = ground arith

-- Two wallets between which the amount can be moved.
pub record CanMove (req : TransferRequest) (a b : Wallet) : Type 0 where
  pub differ : a.id ≢ b.id
  pub sender_active : is_active a.status ≡ true
  pub recipient_active : is_active b.status ≡ true
  pub covered : ltb_ℤ a.balance req.amount ≡ false
  pub debit_fits : ltb_ℤ (sub64 a.balance req.amount) (pos 0) ≡ false
  pub credit_fits : ltb_ℤ (add64 b.balance req.amount) (pos 0) ≡ false

module _ (u : UuidLib) (req : TransferRequest) (d : Draws) where
  transfer_write-Returns :
      (i : Uuid) (a b : Wallet) (v : View)
      → CanMove req a b
      → Returns (transfer_write tables u noop req d i a b) v
  unfolding transfer_write create_transfer_delivery
  transfer_write-Returns i a b v m = >>=-Returns _ _ v _ _ refl (
      >>=-Returns _ _ _ _ _ (save_wallet-fits (debited a req.amount) _ m.debit_fits) (
        >>=-Returns _ _ _ _ _ (save_wallet-fits (credited b req.amount) _ m.credit_fits) (
          >>=-Returns _ _ _ _ _ refl (
            >>=-Returns _ _ _ _ _ refl
              (>>=-Returns _ _ _ _ _ refl (>>=-Returns _ _ _ _ _ refl (_, _, refl)))))))

  transfer_locked-Returns :
      (i : Uuid) (a b : Wallet) (v : View) (locked : List Wallet)
      → locked ≡ a ∷ b ∷ []
      → CanMove req a b
      → Returns (transfer_locked tables u noop req d i a.id b.id locked) v
  unfolding transfer_locked transfer_checked
  transfer_locked-Returns i a b v locked row m =
      >>=-Returns _ _ v v tt (require-true _ _ v (ap (λ ws. length ws == 2) row)) (
        >>=-Returns _ _ v v a
          (some_or-some _ _ v a (ap (λ ws. wallet_map ws a.id) row ∙ map-first a b m.differ))
          (>>=-Returns _ _ v v b
            (some_or-some _ _ v b (ap (λ ws. wallet_map ws b.id) row ∙ map-second a b))
            (>>=-Returns _ _ v v tt
              (require-true _ _ v
                (ap (λ c. c && is_active b.status) m.sender_active ∙ m.recipient_active))
              (>>=-Returns _ _ v v tt (require-true _ _ v (ap not m.covered))
                (transfer_write-Returns i a b v m)))))

  transfer_fresh-Returns :
      (i : Uuid) (a b : Wallet) (v : View)
      → wallet_of_user i v.wallets ≡ some a
      → wallet_by_id a.id v.wallets ≡ some a
      → wallet_by_id b.id v.wallets ≡ some b
      → CanMove req a b
      → Returns (transfer_fresh tables u noop req d i b.id) v
  unfolding transfer_fresh
  transfer_fresh-Returns i a b v owned here there m =
      >>=-Returns _ _ v v a (found-some _ v a owned) (
        >>=-Returns _ _ v v tt (require-true _ _ v (apart a.id b.id m.differ)) (
          >>=-Returns _ _ v v (rows (a.id ∷ b.id ∷ []) v.wallets) refl
            (transfer_locked-Returns i a b v _ (rows-two a.id b.id v.wallets a b here there) m)))

  transfer_tx-Returns :
      (i : Uuid) (a b : Wallet) (v : View)
      → record_by_key req.idempotency_key i transfer_endpoint v.idempotency ≡ none
      → wallet_of_user i v.wallets ≡ some a
      → wallet_by_id a.id v.wallets ≡ some a
      → wallet_by_id b.id v.wallets ≡ some b
      → CanMove req a b
      → Returns (transfer_tx tables u noop req d i b.id) v
  unfolding transfer_tx pending_record
  transfer_tx-Returns i a b v free owned here there m =
      >>=-Returns _ _ v
        (add_record v (pending_record d req.idempotency_key i req.request_hash transfer_endpoint))
        true
        (ap
          (λ o. if is_some o then (ok false, v) else (
            ok true,
            add_record v
                (pending_record d req.idempotency_key i req.request_hash transfer_endpoint),
          ))
          free)
        (transfer_fresh-Returns i a b _ owned here there m)

  transfer_db-Returns :
      (i j : Uuid) (v : View)
      → str_eq req.idempotency_key "" ≡ false
      → leb_ℤ req.amount (pos 0) ≡ false
      → u.parse req.user_id ≡ some i
      → u.parse req.recipient_wallet_id ≡ some j
      → Returns (transfer_tx tables u noop req d i j) v
      → Returns (transfer_db tables u noop req d) v
  unfolding transfer_db check_request
  transfer_db-Returns i j v key positive parsed parsed' rest =
      >>=-Returns _ _ v v tt
        (>>=-step _ _ v v tt (require-true _ _ v (ap not key))
          ∙ require-true _ _ v (ap not positive))
        (>>=-Returns _ _ v v i (some_or-some _ _ v i parsed) (
          >>=-Returns _ _ v v j (some_or-some _ _ v j parsed') (
            map_error-Returns as_app _ v
              (rolled-Returns (transfer_tx tables u noop req d i j) v rest))))

  -- On the reference tables, without webhooks: if the idempotency key is not empty and new, the amount
  -- is positive, the caller's id and the recipient's wallet id are UUIDs, the two wallets are there,
  -- different and active, the caller's balance covers the amount, and neither new balance is negative as
  -- an int64, then Transfer returns a result.
  pub transfer-Returns :
      (i : Uuid) (a b : Wallet) (start : World View)
      → str_eq req.idempotency_key "" ≡ false
      → leb_ℤ req.amount (pos 0) ≡ false
      → u.parse req.user_id ≡ some i
      → u.parse req.recipient_wallet_id ≡ some b.id
      → record_by_key req.idempotency_key i transfer_endpoint start.db.idempotency ≡ none
      → wallet_of_user i start.db.wallets ≡ some a
      → wallet_by_id a.id start.db.wallets ≡ some a
      → wallet_by_id b.id start.db.wallets ≡ some b
      → CanMove req a b
      → (res : OperationResult) × (end : World View) × (transfer tables u noop req d start
          ≡ (ok res, end))
  unfolding transfer
  transfer-Returns i a b start key positive parsed parsed' free owned here there m =
      let (out, t, e) =
        transfer_db-Returns i b.id start.db key positive parsed parsed'
          (transfer_tx-Returns i a b start.db free owned here there m) in
      finish-some start.queue (transfer_db tables u noop req d start.db) out t e
