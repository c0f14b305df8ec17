-- ===== src/Books.antt =====
-- What the rows of ledger_entries say of the rows of wallets: the invariant that TopUp, Transfer and
-- Register keep (internal/usecase/transaction.go, internal/usecase/auth.go) and that the
-- reconciliation checks.
pub mod Movements
pub mod Posting
pub mod Posted
pub mod History
pub mod Requests
pub mod Audit
pub mod Healthy
use mathlib.Core.List.{append-nil}
use go_hermes.Base.{
  Bool, true, false, none, some, List, [], ◌∷◌, ◌++◌, ◌≡◌, ◌≢◌, refl, sym, ap, ◌∙◌, subst, arith,
  All, select, ◌==◌, ==_iff, Bool-cases, ◌⊎◌, inl, inr,
}
use go_hermes.Base.Int.{ℤ, pos}
use go_hermes.Entity.{Uuid, Wallet, LedgerEntry}
use go_hermes.Reconciliation.Entry.Laws.{IsRecorded, Linked, last_balance}
use go_hermes.Store.View.{wallet_by_id, put_wallet}
use go_hermes.Store.Wallets.{wallet_by_id-put_ne, wallet_by_id-put_self}
use go_hermes.Store.Validity.{some-eq}

-- A wallet's entries, in the order in which they were written.
abbrev pub entries_of : Uuid → List LedgerEntry → List LedgerEntry
entries_of i = select (λ e. e.wallet_id == i)

-- Entries that each move their balance by their amount, and that lead from 0 to a balance.
abbrev pub Chain : List LedgerEntry → ℤ → Type 0
Chain es balance = All IsRecorded es × Linked (pos 0) es × (balance ≡ last_balance (pos 0) es)

-- Every wallet's entries lead to its balance, and every entry has its wallet.
pub record IsBooked (ledger : List LedgerEntry) (ws : List Wallet) : Type 0 where
  pub chained :
      (i : Uuid) (w : Wallet) → wallet_by_id i ws ≡ some w → Chain (entries_of i ledger) w.balance
  pub owned : (i : Uuid) → wallet_by_id i ws ≡ none → entries_of i ledger ≡ []

pub select-append :
    {A : Type 0} (p : A → Bool) (xs ys : List A) → select p (xs ++ ys) ≡ select p xs ++ select p ys
select-append p [] ys = refl
select-append p (x ∷ xs) ys = ground (arith, select-append p xs ys)

All-snoc :
    {A : Type 0} (P : A → Type 0) (xs : List A) (x : A) → All P xs → P x → All P (xs ++ x ∷ [])
All-snoc P [] x h p = (p, tt)
All-snoc P (y ∷ ys) x (here, rest) p = (here, All-snoc P ys x rest p)

Linked-snoc :
    (start : ℤ) (es : List LedgerEntry) (e : LedgerEntry)
    → Linked start es
    → e.balance_before ≡ last_balance start es
    → Linked start (es ++ e ∷ [])
Linked-snoc start [] e h p = (p, tt)
Linked-snoc start (x ∷ xs) e (here, rest) p = (here, Linked-snoc x.balance_after xs e rest p)

last_balance-snoc :
    (start : ℤ) (es : List LedgerEntry) (e : LedgerEntry)
    → last_balance start (es ++ e ∷ []) ≡ e.balance_after
last_balance-snoc start [] e = refl
last_balance-snoc start (x ∷ xs) e = last_balance-snoc x.balance_after xs e

pub some-none : {A : Type 0} {a : A} → some a ≡ none → ⊥
some-none p = cc

-- An entry that starts at the balance extends the chain.
pub Chain-snoc :
    (es : List LedgerEntry) (balance : ℤ) (e : LedgerEntry)
    → Chain es balance
    → IsRecorded e
    → e.balance_before ≡ balance
    → Chain (es ++ e ∷ []) e.balance_after
Chain-snoc es balance e (recorded, linked, same) here start = (
  All-snoc IsRecorded es e recorded here,
  Linked-snoc (pos 0) es e linked (start ∙ same),
  sym (last_balance-snoc (pos 0) es e),
)

module _ (ledger : List LedgerEntry) (e : LedgerEntry) (i : Uuid) where
  entries_of-own :
      (e.wallet_id == i) ≡ true → entries_of i (ledger ++ e ∷ []) ≡ entries_of i ledger ++ e ∷ []
  entries_of-own h =
      select-append (λ x. x.wallet_id == i) ledger (e ∷ [])
      ∙ ap (λ es. entries_of i ledger ++ es) (ground arith)

  entries_of-other :
      (e.wallet_id == i) ≡ false → entries_of i (ledger ++ e ∷ []) ≡ entries_of i ledger
  entries_of-other h =
      select-append (λ x. x.wallet_id == i) ledger (e ∷ [])
      ∙ (ap (λ es. entries_of i ledger ++ es) (ground arith) ∙ append-nil (entries_of i ledger))

-- A row that is written together with the entry of its change keeps the books.
module _ (ledger : List LedgerEntry) (ws : List Wallet) (a a' : Wallet) (e : LedgerEntry)
    (booked : IsBooked ledger ws) (found : wallet_by_id a.id ws ≡ some a) (id : a'.id ≡ a.id)
    (own : e.wallet_id ≡ a.id) where
  row-put : (i : Uuid) → (e.wallet_id == i) ≡ true → wallet_by_id i (put_wallet a' ws) ≡ some a'
  row-put i mine =
      subst (λ j. wallet_by_id j (put_wallet a' ws) ≡ some a')
        (id ∙ (sym own ∙ (==_iff e.wallet_id i).0 mine))
        (wallet_by_id-put_self a' ws a (ap (λ j. wallet_by_id j ws) id ∙ found))

  row-stays :
      (i : Uuid)
      → (e.wallet_id == i) ≡ false
      → wallet_by_id i (put_wallet a' ws) ≡ wallet_by_id i ws
  row-stays i other =
      wallet_by_id-put_ne i a' ws
        λ p. absurd (ground (arith, (==_iff e.wallet_id i).1 (own ∙ (sym id ∙ p))))

  pub IsBooked-put :
      e.balance_before ≡ a.balance
      → e.balance_after ≡ a'.balance
      → IsRecorded e
      → IsBooked (ledger ++ e ∷ []) (put_wallet a' ws)
  IsBooked-put before after recorded = record { chained = chain; owned = none_left }
    where
      chain :
          (i : Uuid) (w : Wallet)
          → wallet_by_id i (put_wallet a' ws) ≡ some w
          → Chain (entries_of i (ledger ++ e ∷ [])) w.balance
      chain i w h = elim (Bool-cases (e.wallet_id == i)) [
        | inl mine ↦
            let here : a.id ≡ i = sym own ∙ (==_iff e.wallet_id i).0 mine in
            let old = booked.chained i a (ap (λ j. wallet_by_id j ws) (sym here) ∙ found) in
            subst (λ b. Chain (entries_of i (ledger ++ e ∷ [])) b)
              (after ∙ ap (λ x. x.balance) (some-eq (row-put i mine) h))
              (subst (λ es. Chain es e.balance_after) (sym (entries_of-own ledger e i mine))
                (Chain-snoc (entries_of i ledger) a.balance e old recorded before))
        | inr other ↦
            subst (λ es. Chain es w.balance) (sym (entries_of-other ledger e i other))
              (booked.chained i w (sym (row-stays i other) ∙ h))
      ]

      none_left :
          (i : Uuid)
          → wallet_by_id i (put_wallet a' ws) ≡ none
          → entries_of i (ledger ++ e ∷ []) ≡ []
      none_left i h = elim (Bool-cases (e.wallet_id == i)) [
        | inl mine ↦ absurd (some-none (sym (row-put i mine) ∙ h))
        | inr other ↦
            entries_of-other ledger e i other ∙ booked.owned i (sym (row-stays i other) ∙ h)
      ]

-- A new row with an empty wallet keeps them too.
wallet_by_id-append :
    (i : Uuid) (ws : List Wallet) (w : Wallet)
    → (wallet_by_id i (ws ++ w ∷ []) ≡ wallet_by_id i ws)
      ⊎ ((wallet_by_id i ws ≡ none) × (wallet_by_id i (ws ++ w ∷ []) ≡ some w))
wallet_by_id-append i [] w = elim (Bool-cases (w.id == i)) [
  | inl h ↦ inr (refl, ground arith)
  | inr h ↦ inl (ground arith)
]
wallet_by_id-append i (x ∷ ws) w = elim (Bool-cases (x.id == i)) [
  | inl h ↦ inl (ground arith)
  | inr h ↦ elim (wallet_by_id-append i ws w) [
    | inl same ↦ inl (ground arith)
    | inr (missing, fresh) ↦ inr (ground arith, ground arith)
  ]
]

pub IsBooked-open :
    (ledger : List LedgerEntry) (ws : List Wallet) (w : Wallet)
    → w.balance ≡ pos 0
    → IsBooked ledger ws
    → IsBooked ledger (ws ++ w ∷ [])
IsBooked-open ledger ws w empty booked = record {
  chained = λ i x h. elim (wallet_by_id-append i ws w) [
    | inl same ↦ booked.chained i x (sym same ∙ h)
    | inr (missing, fresh) ↦
        subst (λ es. Chain es x.balance) (sym (booked.owned i missing))
          (tt, tt, sym (ap (λ k. k.balance) (some-eq fresh h)) ∙ empty)
  ];
  owned = λ i h. elim (wallet_by_id-append i ws w) [
    | inl same ↦ booked.owned i (sym same ∙ h)
    | inr (missing, fresh) ↦ booked.owned i missing
  ];
}
