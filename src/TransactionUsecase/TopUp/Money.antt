-- ===== src/TransactionUsecase/TopUp/Money.antt =====
-- What a top-up does to the balances.
use go_hermes.Base.{
  true, false, some, ◌≡◌, ◌≢◌, inl, inr, sym, ◌∙◌, ap, subst, true_ne_false, arith,
}
use go_hermes.Base.Int.{ℤ, pos, ◌≤ℤ◌, ◌+ℤ◌}
use go_hermes.Base.Int64.{IsInt64, add64_exact, add64-IsInt64}
use go_hermes.AppError.{ok}
use go_hermes.Entity.{Uuid, Wallet, is_active}
use go_hermes.UuidLib.{UuidLib}
use go_hermes.Types.{TopUpRequest, OperationResult}
use go_hermes.Webhook.Create.{WebhookNotifier}
use go_hermes.Webhook.Create.Effect.{deliver-wallets}
use go_hermes.Store.{Repositories}
use go_hermes.Store.View.{View, wallet_by_id, wallet_of_user, put_wallet}
use go_hermes.Store.Laws.{IsStore}
use go_hermes.Store.Wallets.{
  total, wallet_by_id-put_ne, wallet_by_id-put_self, wallet_of_user-by_id, All-wallet_by_id,
}
use go_hermes.Store.Validity.{IsValid, IsSound, IsValid-put, total-put_wallet_once, some-eq}
use go_hermes.TransactionUsecase.Common.{Draws, Outcome, World}
use go_hermes.TransactionUsecase.Common.Replay.{Result-cases, replay-Answered}
use go_hermes.TransactionUsecase.TopUp.{top_up}
use go_hermes.TransactionUsecase.TopUp.Run.{Fresh, Ran, top_up-ok, top_up-err}

-- The balances after the caller's wallet `w` has taken in an amount.
pub record Credited (v v' : View) (w : Wallet) (amount : ℤ) : Type 0 where
  pub row : Wallet
  pub found : wallet_by_id w.id v'.wallets ≡ some row
  pub balance : row.balance ≡ w.balance +ℤ amount
  pub others : (i : Uuid) → w.id ≢ i → wallet_by_id i v'.wallets ≡ wallet_by_id i v.wallets
  pub total_grows : total v'.wallets ≡ total v.wallets +ℤ amount

module _ (u : UuidLib) (req : TopUpRequest) (d : Draws) (user_id : Uuid) where
  written-wallets :
      (v v' : View) (out : Outcome) (f : Fresh u req d user_id v v' out)
      → v'.wallets ≡ put_wallet f.written.wallet v.wallets
  written-wallets v v' out f =
      ap (λ x. x.wallets) f.written.tables ∙ deliver-wallets _ f.written.delivery

  written-balance :
      (v v' : View) (out : Outcome) (f : Fresh u req d user_id v v' out)
      → IsValid v
      → IsInt64 req.amount
      → pos 1 ≤ℤ req.amount
      → f.written.wallet.balance ≡ f.target.balance +ℤ req.amount
  written-balance v v' out f valid range positive =
      let before = All-wallet_by_id (λ w. IsSound w.balance) _ _ _ valid.sound f.present in
      ap (λ w. w.balance) f.written.wallet_same
      ∙ add64_exact f.target.balance req.amount before.in_range range before.nonneg (omega arith)
          f.written.nonneg

  written-id :
      (v v' : View) (out : Outcome) (f : Fresh u req d user_id v v' out)
      → f.written.wallet.id ≡ f.target.id
  written-id v v' out f = ap (λ w. w.id) f.written.wallet_same

  -- The wallet under lock is the caller's.
  target-owned :
      (v v' : View) (out : Outcome) (f : Fresh u req d user_id v v' out)
      → IsValid v
      → f.target ≡ f.owned
  target-owned v v' out f valid = some-eq f.present (
      ap (λ i. wallet_by_id i v.wallets) f.target_id
      ∙ wallet_of_user-by_id user_id v.wallets f.owned valid.unique f.owner)

  target-Credited :
      (v v' : View) (out : Outcome) (f : Fresh u req d user_id v v' out)
      → IsValid v
      → IsInt64 req.amount
      → pos 1 ≤ℤ req.amount
      → Credited v v' f.target req.amount
  target-Credited v v' out f valid range positive =
      let tables = written-wallets v v' out f in
      let same = written-id v v' out f in
      let gained = written-balance v v' out f valid range positive in
      record {
        row = f.written.wallet;
        found =
            ap (wallet_by_id f.target.id) tables
            ∙ subst
                (λ i.
                  wallet_by_id i (put_wallet f.written.wallet v.wallets) ≡ some f.written.wallet)
                same
                (wallet_by_id-put_self f.written.wallet v.wallets f.target
                  (ap (λ i. wallet_by_id i v.wallets) same ∙ f.present));
        balance = gained;
        others = λ i other.
            ap (wallet_by_id i) tables
            ∙ wallet_by_id-put_ne i f.written.wallet v.wallets (λ p. other (sym same ∙ p));
        total_grows =
            ap total tables
            ∙ total-put_wallet_once f.target f.written.wallet req.amount v.wallets same f.present
                gained;
      }

  pub Fresh-IsValid :
      (v v' : View) (out : Outcome) → Fresh u req d user_id v v' out → IsValid v → IsValid v'
  Fresh-IsValid v v' out f valid =
      IsValid-put v v' f.written.wallet (written-wallets v v' out f)
        (subst IsSound (sym (ap (λ w. w.balance) f.written.wallet_same)) (record {
          in_range = add64-IsInt64 f.target.balance req.amount;
          nonneg = f.written.nonneg;
        }))
        valid

  Fresh-of_new :
      (v v' : View) (out : Outcome)
      → Ran u req d user_id v v' out
      → out.0.replay ≡ false
      → Fresh u req d user_id v v' out
  Fresh-of_new v v' out (inl f) new = f
  Fresh-of_new v v' out (inr (_, again)) new =
      let shown = replay-Answered out again in absurd (true_ne_false (sym shown ∙ new))

  Ran-IsValid :
      (v v' : View) (out : Outcome) → Ran u req d user_id v v' out → IsValid v → IsValid v'
  Ran-IsValid v v' out (inl f) valid = Fresh-IsValid v v' out f valid
  Ran-IsValid v v' out (inr (same, _)) valid = subst IsValid (sym same) valid

module _ (r : Repositories) (l : IsStore r) (u : UuidLib) (n : WebhookNotifier) (req : TopUpRequest)
    (d : Draws) where
  -- If TopUp returns a result that is no replay, over tables with unique wallet ids and balances
  -- that are int64 and not negative, then the amount is positive, the caller has an active wallet,
  -- its balance has grown by exactly the amount (no wrap-around), every other wallet is as it was,
  -- and the sum of all balances has grown by the amount.
  pub top_up-moves :
      (w w' : World r.Db) (res : OperationResult)
      → IsValid (l.view w.db)
      → IsInt64 req.amount
      → top_up r u n req d w ≡ (ok res, w')
      → res.replay ≡ false
      → (user_id : Uuid) × (owned : Wallet) × (u.parse req.user_id ≡ some user_id)
        × (pos 1 ≤ℤ req.amount)
        × (wallet_of_user user_id (l.view w.db).wallets ≡ some owned)
        × (is_active owned.status ≡ true)
        × Credited (l.view w.db) (l.view w'.db) owned req.amount
  top_up-moves w w' res valid range h new =
      let (user_id, out, parsed, positive, ran, same, _) = top_up-ok r l u n req d w w' res h in
      let f =
        Fresh-of_new u req d user_id (l.view w.db) (l.view w'.db) out ran
          (sym (ap (λ x. x.replay) same) ∙ new) in
      let mine = target-owned u req d user_id (l.view w.db) (l.view w'.db) out f valid in
      (
        user_id,
        f.owned,
        parsed,
        positive,
        f.owner,
        ap (λ w. is_active w.status) (sym mine) ∙ f.active,
        subst (λ w0. Credited (l.view w.db) (l.view w'.db) w0 req.amount) mine
            (target-Credited u req d user_id (l.view w.db) (l.view w'.db) out f valid range
              positive),
      )

  -- TopUp keeps the wallets table valid, however it ends: the ids stay unique, and every balance
  -- stays an int64 that is not negative.
  pub top_up-IsValid :
      (w : World r.Db) → IsValid (l.view w.db) → IsValid (l.view (top_up r u n req d w).1.db)
  top_up-IsValid w valid = elim (Result-cases (top_up r u n req d w)) [
    | inl (res, w', h) ↦
        let (user_id, out, _, _, ran, _, _) = top_up-ok r l u n req d w w' res h in
        subst (λ p. IsValid (l.view p.1.db)) (sym h)
          (Ran-IsValid u req d user_id (l.view w.db) (l.view w'.db) out ran valid)
    | inr (e, w', h) ↦
        subst (λ p. IsValid (l.view p.1.db)) (sym h)
          (subst IsValid (sym (top_up-err r l u n req d w w' e h).0) valid)
  ]
