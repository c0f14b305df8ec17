-- ===== src/Books/Audit.antt =====
-- A reconciliation of tables whose books are kept: internal/usecase/reconciliation.go finds nothing
-- wrong with a wallet.
use go_hermes.Base.{
  Bool, true, false, some, List, [], ◌∷◌, ◌++◌, ◌≡◌, refl, sym, ap, ◌∙◌, arith, All, All-select,
  All-mono, ◌⊎◌, select, ◌==◌, ◌&&◌, ==_iff, ==_refl, Bool-cases, inl, inr, is_some,
}
use go_hermes.Base.Int.{ℤ, pos, eq_ℤ_refl}
use go_hermes.Books.{IsBooked, entries_of, some-none}
use go_hermes.Entity.{Wallet, Transaction, LedgerEntry}
use go_hermes.Reconciliation.Check.{
  all_chain_issues, all_wallet_issues, wallet_issues, wallet_entries, has_wallet,
}
use go_hermes.Reconciliation.Entry.{chain_from, validate_wallet_ledger_chain, derived_balance}
use go_hermes.Reconciliation.Entry.Laws.{Linked, derived_balance-last}
use go_hermes.Reconciliation.Order.{before, insert_entry, sort_ledger_entries}
use go_hermes.Store.View.{wallet_by_id}
use go_hermes.Store.Wallets.{UniqueIds}
use go_hermes.UuidLib.{UuidLib}

pub select-same :
    {A : Type 0} (p q : A → Bool) (xs : List A) → ((x : A) → p x ≡ q x) → select p xs ≡ select q xs
select-same p q [] h = refl
select-same p q (x ∷ xs) h = ground (arith, h x, select-same p q xs h)

module _ (u : UuidLib) where
  -- No entry comes, in the order of the reconciliation, before one that was written earlier.
  abbrev pub InOrder : List LedgerEntry → Type 0
  InOrder [] = Unit {0}
  InOrder (e ∷ es) = All (λ x. before u x e ≡ false) es × InOrder es

  pub InOrder-select :
      (p : LedgerEntry → Bool) (es : List LedgerEntry) → InOrder es → InOrder (select p es)
  InOrder-select p [] h = tt
  InOrder-select p (e ∷ es) (first, rest) = elim (Bool-cases (p e)) [
    | inl k ↦ rw k (All-select _ p es first, InOrder-select p es rest)
    | inr k ↦ rw k (InOrder-select p es rest)
  ]

  insert_entry-first :
      (e : LedgerEntry) (es : List LedgerEntry)
      → All (λ x. before u x e ≡ false) es
      → insert_entry u e es ≡ e ∷ es
  unfolding insert_entry
  insert_entry-first e [] h = refl
  insert_entry-first e (x ∷ xs) (here, rest) = rw here

  pub sort-InOrder : (es : List LedgerEntry) → InOrder es → sort_ledger_entries u es ≡ es
  unfolding sort_ledger_entries
  sort-InOrder [] h = refl
  sort-InOrder (e ∷ es) (first, rest) =
      ap (insert_entry u e) (sort-InOrder es rest) ∙ insert_entry-first e es first

  chain_from-none :
      (start : ℤ) (es : List LedgerEntry) → Linked start es → chain_from u start es ≡ []
  unfolding chain_from
  chain_from-none start [] h = refl
  chain_from-none start (e ∷ es) (here, rest) =
      ground (arith, eq_ℤ_refl start, chain_from-none e.balance_after es rest)

  chain-none : (es : List LedgerEntry) → Linked (pos 0) es → validate_wallet_ledger_chain u es ≡ []
  unfolding validate_wallet_ledger_chain
  chain-none [] h = refl
  chain-none (e ∷ es) (here, rest) =
      ground (arith, eq_ℤ_refl (pos 0), chain_from-none e.balance_after es rest)

  module _ (ws : List Wallet) (xs : List Transaction) (ledger : List LedgerEntry) where
    own_entries :
        (w : Wallet)
        → wallet_by_id w.id ws ≡ some w
        → InOrder ledger
        → wallet_entries u ws xs ledger w ≡ entries_of w.id ledger
    unfolding wallet_entries
    own_entries w found ordered =
        ap (sort_ledger_entries u) (select-same _ _ ledger same)
        ∙ sort-InOrder (entries_of w.id ledger) (InOrder-select _ ledger ordered)
      where
        same :
            (e : LedgerEntry)
            → (e.wallet_id == w.id && has_wallet e.wallet_id ws) ≡ (e.wallet_id == w.id)
        same e = elim (Bool-cases (e.wallet_id == w.id)) [
          | inl k ↦
              let there : has_wallet e.wallet_id ws ≡ true =
                ap (λ i. has_wallet i ws) ((==_iff e.wallet_id w.id).0 k) ∙ ap is_some found in
              rw (k, there)
          | inr k ↦ rw k
        ]

    wallet-passes :
        (w : Wallet)
        → IsBooked ledger ws
        → wallet_by_id w.id ws ≡ some w
        → InOrder ledger
        → (validate_wallet_ledger_chain u (wallet_entries u ws xs ledger w) ≡ [])
          × (wallet_issues u ws xs ledger w ≡ [])
    unfolding wallet_issues
    wallet-passes w booked found ordered =
        let (recorded, linked, same) = booked.chained w.id w found in
        let own = own_entries w found ordered in
        let derived : derived_balance (wallet_entries u ws xs ledger w) ≡ w.balance =
          ap derived_balance own ∙ (derived_balance-last _ recorded linked ∙ sym same) in
        (
          ap (validate_wallet_ledger_chain u) own ∙ chain-none _ linked,
          rw derived (ground (arith, eq_ℤ_refl w.balance)),
        )

    pub wallets-pass :
        (rest : List Wallet)
        → IsBooked ledger ws
        → InOrder ledger
        → All (λ w. wallet_by_id w.id ws ≡ some w) rest
        → (all_chain_issues u ws xs ledger rest ≡ []) × (all_wallet_issues u ws xs ledger rest ≡ [])
    unfolding all_chain_issues all_wallet_issues
    wallets-pass [] booked ordered h = (refl, refl)
    wallets-pass (w ∷ rest) booked ordered (found, h) =
        let (chain, balance) = wallet-passes w booked found ordered in
        let (chains, balances) = wallets-pass rest booked ordered h in
        (
          ap (λ is. is ++ all_chain_issues u ws xs ledger rest) chain ∙ chains,
          ap (λ is. is ++ all_wallet_issues u ws xs ledger rest) balance ∙ balances,
        )

-- With unique ids every row is the row of its id.
pub rows_found : (ws : List Wallet) → UniqueIds ws → All (λ w. wallet_by_id w.id ws ≡ some w) ws
rows_found [] h = tt
rows_found (w ∷ ws) (first, rest) = (
  rw (==_refl w.id),
  All-mono (λ x found. later x found (Bool-cases (w.id == x.id))) ws (rows_found ws rest),
)
  where
    later :
        (x : Wallet)
        → wallet_by_id x.id ws ≡ some x
        → ((w.id == x.id) ≡ true) ⊎ ((w.id == x.id) ≡ false)
        → wallet_by_id x.id (w ∷ ws) ≡ some x
    later x found (inl same) = absurd (
        some-none
          (sym found ∙ (ap (λ i. wallet_by_id i ws) (sym ((==_iff w.id x.id).0 same)) ∙ first)))
    later x found (inr other) = rw other found
