-- ===== src/TransactionUsecase/Transfer/Fresh.antt =====
-- The part of Transfer that runs once its key is reserved: what it found, and that it wrote.
use go_hermes.Base.{
  ℕ, Bool, true, none, some, List, [], ◌∷◌, ◌≡◌, inl, inr, sym, ◌∙◌, ap, subst, arith, ◌==◌, ◌&&◌,
  ◌≢◌, not, All, Option-cases, if◌then◌else◌,
}
use go_hermes.Base.Int.{ℤ, ◌≤ℤ◌, ltb_ℤ}
use go_hermes.AppError.{ok}
use go_hermes.Entity.{Uuid, Wallet, IdempotencyRecord, is_active}
use go_hermes.UuidLib.{UuidLib}
use go_hermes.Types.{TransferRequest}
use go_hermes.Webhook.Create.{WebhookNotifier}
use go_hermes.Store.{Repositories, >>=-ok, require-ok, some_or-ok}
use go_hermes.Store.View.{View, has_id, wallet_by_id, wallet_of_user, record_by_key, add_record}
use go_hermes.Store.Laws.{IsStore, SameRecord}
use go_hermes.TransactionUsecase.Common.{Draws, pending_record, Outcome}
use go_hermes.TransactionUsecase.Transfer.{
  transfer_endpoint, wallet_map, transfer_write, transfer_checked, transfer_locked, transfer_fresh,
}
use go_hermes.TransactionUsecase.Transfer.Effect.{Written, transfer_write-ok}

module _ (u : UuidLib) (req : TransferRequest) (d : Draws)
    (user_id recipient_wallet_id : Uuid) where
  abbrev pub reservation : IdempotencyRecord
  reservation = pending_record d req.idempotency_key user_id req.request_hash transfer_endpoint

  -- A run that moved money.
  pub record Fresh (v v' : View) (out : Outcome) : Type 0 where
    pub free : record_by_key req.idempotency_key user_id transfer_endpoint v.idempotency ≡ none
    pub reserved : IdempotencyRecord
    pub reserved_same : SameRecord reservation reserved
    pub owned : Wallet
    pub owner : wallet_of_user user_id v.wallets ≡ some owned
    pub sender : Wallet
    pub recipient : Wallet
    pub sender_id : sender.id ≡ owned.id
    pub recipient_id : recipient.id ≡ recipient_wallet_id
    pub differ : sender.id ≢ recipient.id
    pub sender_present : wallet_by_id sender.id v.wallets ≡ some sender
    pub recipient_present : wallet_by_id recipient.id v.wallets ≡ some recipient
    pub sender_active : is_active sender.status ≡ true
    pub recipient_active : is_active recipient.status ≡ true
    pub covered : req.amount ≤ℤ sender.balance
    pub written : Written u req d user_id sender recipient (add_record v reserved) v' out

-- A row of the map is a locked row with the key's id.
wallet_map-locked :
    (ws locked : List Wallet) (is : List Uuid) (i : Uuid) (w : Wallet)
    → All (λ x. (wallet_by_id x.id ws ≡ some x) × (has_id x.id is ≡ true)) locked
    → wallet_map locked i ≡ some w
    → (wallet_by_id w.id ws ≡ some w) × (w.id ≡ i)
wallet_map-locked ws [] is i w h e = absurd (ground arith)
wallet_map-locked ws (x ∷ rest) is i w h e = elim (Option-cases (wallet_map rest i)) [
  | inl missing ↦ at_head x h.0.0 (rw missing at e)
  | inr (y, found) ↦ wallet_map-locked ws rest is i w h.1 (found ∙ (rw found at e))
]
  where
    at_head :
        (x : Wallet)
        → wallet_by_id x.id ws ≡ some x
        → (if x.id == i then some x else none) ≡ some w
        → (wallet_by_id w.id ws ≡ some w) × (w.id ≡ i)
    at_head x present e = (ground arith, ground arith)

both_active : (a b : Bool) → a && b ≡ true → (a ≡ true) × (b ≡ true)
both_active a b h = (ground arith, ground arith)

covered_of_test : (a b : ℤ) → not (ltb_ℤ a b) ≡ true → b ≤ℤ a
covered_of_test a b h = ground arith

differ_of_test : (i j : ℕ) → not (i == j) ≡ true → i ≢ j
differ_of_test i j h e = ground arith

module _ (r : Repositories) (l : IsStore r) (u : UuidLib) (n : WebhookNotifier)
    (req : TransferRequest) (d : Draws) where
  transfer_checked-ok :
      (user_id : Uuid) (a b : Wallet) (s t : r.Db) (out : Outcome)
      → a.id ≢ b.id
      → wallet_by_id a.id (l.view s).wallets ≡ some a
      → wallet_by_id b.id (l.view s).wallets ≡ some b
      → transfer_checked r u n req d user_id a b s ≡ (ok out, t)
      → (is_active a.status ≡ true)
        × (is_active b.status ≡ true)
        × (req.amount ≤ℤ a.balance)
        × Written u req d user_id a b (l.view s) (l.view t) out
  unfolding transfer_checked
  transfer_checked-ok user_id a b s t out differ found_a found_b h =
      let (_, s1, e1, h1) = >>=-ok _ _ _ h in
      let (_, s2, e2, h2) = >>=-ok _ _ _ h1 in
      let (active, same1) = require-ok _ _ _ e1 in
      let (enough, same2) = require-ok _ _ _ e2 in
      let (active_a, active_b) = both_active _ _ active in
      (
        active_a,
        active_b,
        covered_of_test a.balance req.amount enough,
        transfer_write-ok r l u n req d user_id a b s t out differ found_a found_b (
            subst (λ x. transfer_write r u n req d user_id a b x ≡ (ok out, t)) (same2 ∙ same1) h2),
      )

  -- What the rows under lock are, and that the writes ran on them.
  transfer_locked-ok :
      (user_id i j : Uuid) (locked : List Wallet) (ws : List Wallet) (is : List Uuid) (s t : r.Db)
      (out : Outcome)
      → All (λ x. (wallet_by_id x.id ws ≡ some x) × (has_id x.id is ≡ true)) locked
      → transfer_locked r u n req d user_id i j locked s ≡ (ok out, t)
      → (a : Wallet) × (b : Wallet) × (wallet_by_id a.id ws ≡ some a)
        × (a.id ≡ i)
        × (wallet_by_id b.id ws ≡ some b)
        × (b.id ≡ j)
        × (transfer_checked r u n req d user_id a b s ≡ (ok out, t))
  unfolding transfer_locked
  transfer_locked-ok user_id i j locked ws is s t out rows h =
      let (_, s1, e1, h1) = >>=-ok _ _ _ h in
      let (a, s2, e2, h2) = >>=-ok _ _ _ h1 in
      let (b, s3, e3, h3) = >>=-ok _ _ _ h2 in
      let (_, same1) = require-ok _ _ _ e1 in
      let (chosen_a, same2) = some_or-ok _ _ _ e2 in
      let (chosen_b, same3) = some_or-ok _ _ _ e3 in
      let (found_a, id_a) = wallet_map-locked ws locked is i a rows chosen_a in
      let (found_b, id_b) = wallet_map-locked ws locked is j b rows chosen_b in
      (
        a,
        b,
        found_a,
        id_a,
        found_b,
        id_b,
        subst (λ x. transfer_checked r u n req d user_id a b x ≡ (ok out, t))
            (same3 ∙ same2 ∙ same1) h3,
      )

  -- The same, over the tables `v` at the start.
  Fresh-of_locked :
      (user_id recipient_id : Uuid) (x : IdempotencyRecord) (v : View) (w a b : Wallet) (s t : r.Db)
      (out : Outcome)
      → record_by_key req.idempotency_key user_id transfer_endpoint v.idempotency ≡ none
      → SameRecord (reservation u req d user_id recipient_id) x
      → l.view s ≡ add_record v x
      → wallet_of_user user_id v.wallets ≡ some w
      → w.id ≢ recipient_id
      → wallet_by_id a.id v.wallets ≡ some a
      → a.id ≡ w.id
      → wallet_by_id b.id v.wallets ≡ some b
      → b.id ≡ recipient_id
      → transfer_checked r u n req d user_id a b s ≡ (ok out, t)
      → Fresh u req d user_id recipient_id v (l.view t) out
  Fresh-of_locked user_id recipient_id x v w a b s t out free same kept owner other found_a id_a
        found_b id_b h =
      let differ : a.id ≢ b.id = λ p. other (sym id_a ∙ p ∙ id_b) in
      let (active_a, active_b, enough, written) =
        transfer_checked-ok user_id a b s t out differ
          (ap (λ v. wallet_by_id a.id v.wallets) kept ∙ found_a)
          (ap (λ v. wallet_by_id b.id v.wallets) kept ∙ found_b) h in
      record {
        free = free;
        reserved = x;
        reserved_same = same;
        owned = w;
        owner = owner;
        sender = a;
        recipient = b;
        sender_id = id_a;
        recipient_id = id_b;
        differ = differ;
        sender_present = found_a;
        recipient_present = found_b;
        sender_active = active_a;
        recipient_active = active_b;
        covered = enough;
        written = subst (λ v'. Written u req d user_id a b v' (l.view t) out) kept written;
      }

  pub transfer_fresh-ok :
      (user_id recipient_id : Uuid) (x : IdempotencyRecord) (v : View) (s t : r.Db) (out : Outcome)
      → record_by_key req.idempotency_key user_id transfer_endpoint v.idempotency ≡ none
      → SameRecord (reservation u req d user_id recipient_id) x
      → l.view s ≡ add_record v x
      → transfer_fresh r u n req d user_id recipient_id s ≡ (ok out, t)
      → Fresh u req d user_id recipient_id v (l.view t) out
  unfolding transfer_fresh
  transfer_fresh-ok user_id recipient_id x v s t out free same e0 h =
      let (w, s1, e1, h1) = >>=-ok _ _ _ h in
      let (_, s2, e2, h2) = >>=-ok _ _ _ h1 in
      let (locked, s3, e3, h3) = >>=-ok _ _ _ h2 in
      let (v1, owner) = l.wallet_found user_id s s1 w e1 in
      let (other, same2) = require-ok _ _ _ e2 in
      let (v3, rows) = l.wallets_locked _ s2 s3 locked e3 in
      let (a, b, found_a, id_a, found_b, id_b, run) =
        transfer_locked-ok user_id w.id recipient_id locked (l.view s2).wallets
          (w.id ∷ recipient_id ∷ []) s3 t out rows h3 in
      let v2 : l.view s2 ≡ add_record v x = ap l.view same2 ∙ v1 ∙ e0 in
      let before : (l.view s2).wallets ≡ v.wallets = ap (λ v. v.wallets) v2 in
      Fresh-of_locked user_id recipient_id x v w a b s3 t out free same (v3 ∙ v2)
        (ap (λ v. wallet_of_user user_id v.wallets) (sym e0) ∙ owner)
        (differ_of_test w.id recipient_id other) (ap (wallet_by_id a.id) (sym before) ∙ found_a)
        id_a (ap (wallet_by_id b.id) (sym before) ∙ found_b) id_b run
