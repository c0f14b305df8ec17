-- ===== src/UserWallet/Agree.antt =====
-- What the wallet reads of internal/usecase/user_wallet.go return.
use go_hermes.Base.{String, List, [], ◌∷◌, arith, some, ◌≡◌, sym, ap, ◌∙◌}
use go_hermes.AppError.{ok}
use go_hermes.Entity.{Time, Uuid, Wallet}
use go_hermes.Store.{Repositories, >>=-ok, some_or-ok, map_error-ok, pure-ok}
use go_hermes.Store.Laws.{IsStore}
use go_hermes.Store.Validity.{some-eq}
use go_hermes.Store.View.{wallet_of_user}
use go_hermes.Types.{to_wallet_response, WalletResponse}
use go_hermes.UserWallet.{get_my_wallet, get_my_balance, balance_of, BalanceResponse}
use go_hermes.UuidLib.{UuidLib}
use go_hermes.Gorm.Laws.{IsGorm}
use go_hermes.Gorm.Repositories.{gorm_repositories}
use go_hermes.Gorm.Session.{Gorm, Session}
use go_hermes.Gorm.Statements.{session_view}
use go_hermes.Gorm.StoreLaws.{store_laws}

module _ (r : Repositories) (l : IsStore r) (u : UuidLib) where
  -- If GetMyWallet returns a response, then the caller has a wallet, the response shows that wallet,
  -- and no table has changed.
  pub get_my_wallet-own :
      (user_id : String) (s t : r.Db) (res : WalletResponse)
      → get_my_wallet r u user_id s ≡ (ok res, t)
      → (i : Uuid) × (w : Wallet) × (u.parse user_id ≡ some i)
        × (wallet_of_user i (l.view s).wallets ≡ some w)
        × (res ≡ to_wallet_response u w)
        × (l.view t ≡ l.view s)
  unfolding get_my_wallet
  get_my_wallet-own user_id s t res h =
      let (i, s1, e1, h) = >>=-ok _ _ s h in
      let (parsed, k1) = some_or-ok (u.parse user_id) _ s e1 in
      let (w, s2, e2, h) = >>=-ok _ _ s1 h in
      let (same, present) =
        l.wallet_found i s1 s2 w (map_error-ok _ (r.wallets.get_by_user_id i) s1 e2) in
      let (shown, k3) = pure-ok h in
      (
        i,
        w,
        parsed,
        ap (λ x. wallet_of_user i (l.view x).wallets) (sym k1) ∙ present,
        shown,
        ap l.view k3 ∙ (same ∙ ap l.view k1),
      )

  -- The same for GetMyBalance.
  get_my_balance-own :
      (rfc3339 : Time → String) (user_id : String) (s t : r.Db) (res : BalanceResponse)
      → get_my_balance r u rfc3339 user_id s ≡ (ok res, t)
      → (i : Uuid) × (w : Wallet) × (u.parse user_id ≡ some i)
        × (wallet_of_user i (l.view s).wallets ≡ some w)
        × (res ≡ balance_of u rfc3339 w)
        × (l.view t ≡ l.view s)
  unfolding get_my_balance
  get_my_balance-own rfc3339 user_id s t res h =
      let (i, s1, e1, h) = >>=-ok _ _ s h in
      let (parsed, k1) = some_or-ok (u.parse user_id) _ s e1 in
      let (w, s2, e2, h) = >>=-ok _ _ s1 h in
      let (same, present) =
        l.wallet_found i s1 s2 w (map_error-ok _ (r.wallets.get_by_user_id i) s1 e2) in
      let (shown, k3) = pure-ok h in
      (
        i,
        w,
        parsed,
        ap (λ x. wallet_of_user i (l.view x).wallets) (sym k1) ∙ present,
        shown,
        ap l.view k3 ∙ (same ∙ ap l.view k1),
      )

wallet_of_user-user_id :
    (i : Uuid) (ws : List Wallet) (w : Wallet) → wallet_of_user i ws ≡ some w → w.user_id ≡ i
wallet_of_user-user_id i [] w h = absurd (ground arith)
wallet_of_user-user_id i (x ∷ xs) w h = ground (arith, wallet_of_user-user_id i xs w)

-- If GetMyWallet and GetMyBalance, through gorm.go, each return a response to the same caller, with the
-- same tables at the start of each, then the caller's id parses, the tables have a wallet whose user is
-- the caller, both responses show that wallet (its id, its balance and its time), and neither call has
-- changed a table.
pub own_wallet_shown :
    (g : Gorm) (l : IsGorm g) (u : UuidLib) (db : g.Handle) (rfc3339 : Time → String)
    (user_id : String) (s s' t t' : Session g) (wallet : WalletResponse) (balance : BalanceResponse)
    → session_view l t ≡ session_view l s
    → get_my_wallet (gorm_repositories g u db) u user_id s ≡ (ok wallet, s')
    → get_my_balance (gorm_repositories g u db) u rfc3339 user_id t ≡ (ok balance, t')
    → (i : Uuid) × (w : Wallet) × (u.parse user_id ≡ some i)
      × (wallet_of_user i (session_view l s).wallets ≡ some w)
      × (w.user_id ≡ i)
      × (wallet ≡ to_wallet_response u w)
      × (balance ≡ balance_of u rfc3339 w)
      × (session_view l s' ≡ session_view l s)
      × (session_view l t' ≡ session_view l t)
own_wallet_shown g l u db rfc3339 user_id s s' t t' wallet balance tables h h' =
    let laws = store_laws g l u db in
    let (i, w, parsed, present, shown, same) =
      get_my_wallet-own (gorm_repositories g u db) laws u user_id s s' wallet h in
    let (j, x, parsed', present', shown', same') =
      get_my_balance-own (gorm_repositories g u db) laws u rfc3339 user_id t t' balance h' in
    let twin = some-eq present' (
      ap (λ v. wallet_of_user j v.wallets) tables
      ∙ (ap (λ k. wallet_of_user k (session_view l s).wallets) (some-eq parsed' parsed)
          ∙ present)) in
    (
      i,
      w,
      parsed,
      present,
      wallet_of_user-user_id i (session_view l s).wallets w present,
      shown,
      shown' ∙ ap (balance_of u rfc3339) twin,
      same,
      same',
    )
