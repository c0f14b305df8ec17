-- ===== src/Tables/Accounts.antt =====
-- The reference tables satisfy the hypotheses on accounts.
use go_hermes.Base.{
  none, ◌∷◌, [], ◌++◌, ◌≡◌, refl, sym, ap, ◌∙◌, Bool-cases, inl, inr, arith, is_some,
}
use go_hermes.AppError.{Error, Result, ok, err}
use go_hermes.Entity.{Wallet, User}
use go_hermes.Store.Laws.{IsAccountStore, SameUser}
use go_hermes.Store.View.{View, wallet_of_user, set_wallets}
use go_hermes.Tables.{tables, open_wallet}
use go_hermes.Tables.Lawful.{ok_pair, not_there}

pub open_wallet-ok :
    (w w' : Wallet) (v t : View)
    → open_wallet w v ≡ (ok w', t)
    → (w' ≡ record w { created_at = w'.created_at; updated_at = w'.updated_at })
      × (wallet_of_user w.user_id v.wallets ≡ none)
      × (t ≡ set_wallets v (v.wallets ++ w' ∷ []))
open_wallet-ok w w' v t h = elim (Bool-cases (is_some (wallet_of_user w.user_id v.wallets))) [
  | inl taken ↦ absurd (refused (rw taken at h))
  | inr free ↦
      let (same, kept) = ok_pair (stored (rw free at h)) in
      (
        same_row w' same,
        not_there _ free,
        kept ∙ ap (λ x. set_wallets v (v.wallets ++ x ∷ [])) (sym same),
      )
]
  where
    refused : {e : Error} → ◌≡◌ {A = Result Wallet × View} (err e, v) (ok w', t) → ⊥
    refused p = absurd (ground arith)

    stored :
        ◌≡◌ {A = Result Wallet × View} (ok w, set_wallets v (v.wallets ++ w ∷ [])) (ok w', t)
        → ◌≡◌ {A = Result Wallet × View} (ok w, set_wallets v (v.wallets ++ w ∷ [])) (ok w', t)
    stored p = p

    same_row :
        (x : Wallet) → x ≡ w → x ≡ record w { created_at = x.created_at; updated_at = x.updated_at }
    same_row x e = rw e

pub same_user : (x x' : User) → x' ≡ x → SameUser x x'
same_user x x' e = rw e

pub tables-IsAccountStore : IsAccountStore tables (λ v. v)
tables-IsAccountStore = record {
  user_created = λ x x' s t h.
      let (same, kept) = ok_pair h in
      (same_user x x' same, kept ∙ ap (λ y. record s { users = s.users ++ y ∷ [] }) (sym same));
  user_by_email = λ email s. refl;
  wallet_created = λ w w' s t h. open_wallet-ok w w' s t h;
}
