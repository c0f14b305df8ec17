-- ===== src/TransactionUsecase/Transfer/Money.antt =====
-- What a transfer does to the balances.
use go_hermes.Base.{
  true, false, some, List, ◌≡◌, ◌≢◌, inl, inr, refl, sym, ◌∙◌, ap, subst, true_ne_false, arith,
}
use go_hermes.Base.Int.{ℤ, pos, ◌≤ℤ◌, ◌+ℤ◌, ◌-ℤ◌}
use go_hermes.Base.Int64.{IsInt64, add64_exact, add64-IsInt64, sub64_exact, sub64-IsInt64}
use go_hermes.AppError.{ok}
use go_hermes.Entity.{Uuid, Wallet, is_active}
use go_hermes.UuidLib.{UuidLib}
use go_hermes.Types.{TransferRequest, OperationResult}
use go_hermes.Webhook.Create.{WebhookNotifier}
use go_hermes.Webhook.Create.Effect.{deliver-wallets}
use go_hermes.Store.{Repositories}
use go_hermes.Store.View.{View, wallet_by_id, wallet_of_user, put_wallet}
use go_hermes.Store.Laws.{IsStore}
use go_hermes.Store.Wallets.{
  total, wallet_by_id-put_ne, wallet_by_id-put_self, wallet_of_user-by_id, All-wallet_by_id,
}
use go_hermes.Store.Validity.{IsValid, IsSound, IsValid-put, total-put_wallet_twice, some-eq}
use go_hermes.TransactionUsecase.Common.{Draws, Outcome, World}
use go_hermes.TransactionUsecase.Common.Replay.{Result-cases, replay-Answered}
use go_hermes.TransactionUsecase.Transfer.{transfer}
use go_hermes.TransactionUsecase.Transfer.Fresh.{Fresh}
use go_hermes.TransactionUsecase.Transfer.Run.{Ran, transfer-ok}
use go_hermes.TransactionUsecase.Transfer.Failed.{transfer-err}

-- The balances after an amount has moved from the wallet `a` to the wallet `b`.
pub record Moved (v v' : View) (a b : Wallet) (amount : ℤ) : Type 0 where
  pub source : Wallet
  pub destination : Wallet
  pub source_found : wallet_by_id a.id v'.wallets ≡ some source
  pub destination_found : wallet_by_id b.id v'.wallets ≡ some destination
  pub source_balance : source.balance ≡ a.balance -ℤ amount
  pub destination_balance : destination.balance ≡ b.balance +ℤ amount
  pub others :
      (i : Uuid) → a.id ≢ i → b.id ≢ i → wallet_by_id i v'.wallets ≡ wallet_by_id i v.wallets
  pub total_kept : total v'.wallets ≡ total v.wallets

-- Two rows written one after the other.
module _ (a b a' b' : Wallet) (ws : List Wallet) (differ : a.id ≢ b.id) (id_a : a'.id ≡ a.id)
    (id_b : b'.id ≡ b.id) (found_a : wallet_by_id a.id ws ≡ some a)
    (found_b : wallet_by_id b.id ws ≡ some b) where
  first_stays : wallet_by_id a.id (put_wallet b' (put_wallet a' ws)) ≡ some a'
  first_stays =
      wallet_by_id-put_ne a.id b' (put_wallet a' ws) (λ p. differ (sym p ∙ id_b))
      ∙ subst (λ i. wallet_by_id i (put_wallet a' ws) ≡ some a') id_a
          (wallet_by_id-put_self a' ws a (ap (λ i. wallet_by_id i ws) id_a ∙ found_a))

  second_stays : wallet_by_id b.id (put_wallet b' (put_wallet a' ws)) ≡ some b'
  second_stays =
      subst (λ i. wallet_by_id i (put_wallet b' (put_wallet a' ws)) ≡ some b') id_b
        (wallet_by_id-put_self b' (put_wallet a' ws) b (
          ap (λ i. wallet_by_id i (put_wallet a' ws)) id_b
          ∙ wallet_by_id-put_ne b.id a' ws (λ p. differ (sym id_a ∙ p))
          ∙ found_b))

  others_stay :
      (i : Uuid)
      → a.id ≢ i
      → b.id ≢ i
      → wallet_by_id i (put_wallet b' (put_wallet a' ws)) ≡ wallet_by_id i ws
  others_stay i other_a other_b =
      wallet_by_id-put_ne i b' (put_wallet a' ws) (λ p. other_b (sym id_b ∙ p))
      ∙ wallet_by_id-put_ne i a' ws (λ p. other_a (sym id_a ∙ p))

module _ (u : UuidLib) (req : TransferRequest) (d : Draws) (user_id recipient_id : Uuid) where
  written-wallets :
      (v v' : View) (out : Outcome) (f : Fresh u req d user_id recipient_id v v' out)
      → v'.wallets ≡ put_wallet f.written.destination (put_wallet f.written.source v.wallets)
  written-wallets v v' out f =
      ap (λ x. x.wallets) f.written.tables ∙ deliver-wallets _ f.written.delivery

  sender-owned :
      (v v' : View) (out : Outcome) (f : Fresh u req d user_id recipient_id v v' out)
      → IsValid v
      → f.sender ≡ f.owned
  sender-owned v v' out f valid = some-eq f.sender_present (
      ap (λ i. wallet_by_id i v.wallets) f.sender_id
      ∙ wallet_of_user-by_id user_id v.wallets f.owned valid.unique f.owner)

  pub Fresh-Moved :
      (v v' : View) (out : Outcome) (f : Fresh u req d user_id recipient_id v v' out)
      → IsValid v
      → IsInt64 req.amount
      → pos 1 ≤ℤ req.amount
      → Moved v v' f.sender f.recipient req.amount
  Fresh-Moved v v' out f valid range positive =
      let sound = λ (i : Uuid) (w : Wallet) (found : wallet_by_id i v.wallets ≡ some w).
        All-wallet_by_id (λ w. IsSound w.balance) i v.wallets w valid.sound found in
      let from = sound f.sender.id f.sender f.sender_present in
      let to = sound f.recipient.id f.recipient f.recipient_present in
      let tables = written-wallets v v' out f in
      let id_a = ap (λ w. w.id) f.written.source_same in
      let id_b = ap (λ w. w.id) f.written.destination_same in
      let less =
        ap (λ w. w.balance) f.written.source_same
        ∙ sub64_exact f.sender.balance req.amount from.in_range (omega arith) f.covered in
      let more =
        ap (λ w. w.balance) f.written.destination_same
        ∙ add64_exact f.recipient.balance req.amount to.in_range range to.nonneg (omega arith)
            f.written.destination_nonneg in
      record {
        source = f.written.source;
        destination = f.written.destination;
        source_found =
            ap (wallet_by_id f.sender.id) tables
            ∙ first_stays f.sender f.recipient f.written.source f.written.destination v.wallets
                f.differ id_a id_b f.sender_present f.recipient_present;
        destination_found =
            ap (wallet_by_id f.recipient.id) tables
            ∙ second_stays f.sender f.recipient f.written.source f.written.destination v.wallets
                f.differ id_a id_b f.sender_present f.recipient_present;
        source_balance = less;
        destination_balance = more;
        others = λ i other_a other_b.
            ap (wallet_by_id i) tables
            ∙ others_stay f.sender f.recipient f.written.source f.written.destination v.wallets
                f.differ id_a id_b f.sender_present f.recipient_present i other_a other_b;
        total_kept =
            ap total tables
            ∙ total-put_wallet_twice f.sender f.recipient f.written.source f.written.destination
                req.amount v.wallets f.differ id_a id_b f.sender_present f.recipient_present less
                more;
      }

  pub Fresh-IsValid :
      (v v' : View) (out : Outcome)
      → Fresh u req d user_id recipient_id v v' out
      → IsValid v
      → IsValid v'
  Fresh-IsValid v v' out f valid =
      let half = record v { wallets = put_wallet f.written.source v.wallets } in
      IsValid-put half v' f.written.destination (written-wallets v v' out f)
        (subst IsSound (sym (ap (λ w. w.balance) f.written.destination_same)) (record {
          in_range = add64-IsInt64 f.recipient.balance req.amount;
          nonneg = f.written.destination_nonneg;
        }))
        (IsValid-put v half f.written.source refl
          (subst IsSound (sym (ap (λ w. w.balance) f.written.source_same)) (record {
            in_range = sub64-IsInt64 f.sender.balance req.amount;
            nonneg = f.written.source_nonneg;
          }))
          valid)

  Fresh-of_new :
      (v v' : View) (out : Outcome)
      → Ran u req d user_id recipient_id v v' out
      → out.0.replay ≡ false
      → Fresh u req d user_id recipient_id v v' out
  Fresh-of_new v v' out (inl f) new = f
  Fresh-of_new v v' out (inr (_, again)) new =
      let shown = replay-Answered out again in absurd (true_ne_false (sym shown ∙ new))

  Ran-IsValid :
      (v v' : View) (out : Outcome)
      → Ran u req d user_id recipient_id v v' out
      → IsValid v
      → IsValid v'
  Ran-IsValid v v' out (inl f) valid = Fresh-IsValid v v' out f valid
  Ran-IsValid v v' out (inr (same, _)) valid = subst IsValid (sym same) valid

  Ran-total :
      (v v' : View) (out : Outcome)
      → Ran u req d user_id recipient_id v v' out
      → IsValid v
      → IsInt64 req.amount
      → pos 1 ≤ℤ req.amount
      → total v'.wallets ≡ total v.wallets
  Ran-total v v' out (inl f) valid range positive =
      (Fresh-Moved v v' out f valid range positive).total_kept
  Ran-total v v' out (inr (same, _)) valid range positive = ap (λ v. total v.wallets) same

module _ (r : Repositories) (l : IsStore r) (u : UuidLib) (n : WebhookNotifier)
    (req : TransferRequest) (d : Draws) where
  -- If Transfer returns a result that is no replay, over tables with unique wallet ids and balances
  -- that are int64 and not negative, then the amount is positive and at most the balance of the
  -- caller's wallet, that wallet and the recipient's are different and active, exactly the amount
  -- has moved from the one to the other (no wrap-around), every further wallet is as it was, and
  -- the sum of all balances is the same.
  pub transfer-moves :
      (w w' : World r.Db) (res : OperationResult)
      → IsValid (l.view w.db)
      → IsInt64 req.amount
      → transfer r u n req d w ≡ (ok res, w')
      → res.replay ≡ false
      → (user_id recipient_id : Uuid) × (a b : Wallet) × (u.parse req.user_id ≡ some user_id)
        × (u.parse req.recipient_wallet_id ≡ some recipient_id)
        × (wallet_of_user user_id (l.view w.db).wallets ≡ some a)
        × (wallet_by_id recipient_id (l.view w.db).wallets ≡ some b)
        × (a.id ≢ b.id)
        × (is_active a.status ≡ true)
        × (is_active b.status ≡ true)
        × (pos 1 ≤ℤ req.amount)
        × (req.amount ≤ℤ a.balance)
        × Moved (l.view w.db) (l.view w'.db) a b req.amount
  transfer-moves w w' res valid range h new =
      let (user_id, recipient_id, out, parsed, parsed', positive, ran, same, _) =
        transfer-ok r l u n req d w w' res h in
      let v = l.view w.db in
      let v' = l.view w'.db in
      let f =
        Fresh-of_new u req d user_id recipient_id v v' out ran
          (sym (ap (λ x. x.replay) same) ∙ new) in
      let mine = sender-owned u req d user_id recipient_id v v' out f valid in
      (
        user_id,
        recipient_id,
        f.sender,
        f.recipient,
        parsed,
        parsed',
        f.owner ∙ ap some (sym mine),
        ap (λ i. wallet_by_id i v.wallets) (sym f.recipient_id) ∙ f.recipient_present,
        f.differ,
        f.sender_active,
        f.recipient_active,
        positive,
        f.covered,
        Fresh-Moved u req d user_id recipient_id v v' out f valid range positive,
      )

  -- Transfer keeps the sum of all balances, however it ends, over tables with unique wallet ids and
  -- balances that are int64 and not negative.
  pub transfer-conserves :
      (w : World r.Db)
      → IsValid (l.view w.db)
      → IsInt64 req.amount
      → total (l.view (transfer r u n req d w).1.db).wallets ≡ total (l.view w.db).wallets
  transfer-conserves w valid range = elim (Result-cases (transfer r u n req d w)) [
    | inl (res, w', h) ↦
        let (user_id, recipient_id, out, _, _, positive, ran, _, _) =
          transfer-ok r l u n req d w w' res h in
        ap (λ p. total (l.view p.1.db).wallets) h
        ∙ Ran-total u req d user_id recipient_id (l.view w.db) (l.view w'.db) out ran valid range
            positive
    | inr (e, w', h) ↦
        ap (λ p. total (l.view p.1.db).wallets) h
        ∙ ap (λ v. total v.wallets) (transfer-err r l u n req d w w' e h).0
  ]

  -- Transfer keeps the wallets table valid, however it ends: the ids stay unique, and every balance
  -- stays an int64 that is not negative.
  pub transfer-IsValid :
      (w : World r.Db) → IsValid (l.view w.db) → IsValid (l.view (transfer r u n req d w).1.db)
  transfer-IsValid w valid = elim (Result-cases (transfer r u n req d w)) [
    | inl (res, w', h) ↦
        let (user_id, recipient_id, out, _, _, _, ran, _, _) =
          transfer-ok r l u n req d w w' res h in
        subst (λ p. IsValid (l.view p.1.db)) (sym h)
          (Ran-IsValid u req d user_id recipient_id (l.view w.db) (l.view w'.db) out ran valid)
    | inr (e, w', h) ↦
        subst (λ p. IsValid (l.view p.1.db)) (sym h)
          (subst IsValid (sym (transfer-err r l u n req d w w' e h).0) valid)
  ]
