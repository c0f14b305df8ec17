-- ===== src/Reconciliation/Check/Transactions/Pair.antt =====
-- The two entries of a transfer, as the checks of internal/usecase/reconciliation.go meet them.
use go_hermes.Base.{
  Bool, true, false, some, List, [], ◌∷◌, ◌≡◌, ◌≢◌, refl, sym, ap, ◌∙◌, arith, ◌&&◌, ◌||◌, ◌==◌,
  ◌⊎◌, inl, inr, ==_iff,
}
use go_hermes.Base.Int.{eq_ℤ, eq_ℤ→eq, eq_ℤ_refl}
use go_hermes.Entity.{Uuid, Transaction, LedgerEntry, LedgerEntryType, is_debit, is_credit}
use go_hermes.Reconciliation.Check.Transactions.{
  scan, points_to, source_debit, destination_credit, Found,
}

-- An entry that takes the transaction's amount from a wallet, and one that gives it to a wallet.
abbrev pub Debits : Transaction → Uuid → LedgerEntry → Type 0
Debits x i e = (e.wallet_id ≡ i) × (e.entry_type ≡ LedgerEntryType.debit) × (e.amount ≡ x.amount)

abbrev pub Credits : Transaction → Uuid → LedgerEntry → Type 0
Credits x i e = (e.wallet_id ≡ i) × (e.entry_type ≡ LedgerEntryType.credit) × (e.amount ≡ x.amount)

-- Two entries, in either order: a debit of the source and a credit of another wallet, the
-- destination.
abbrev pub IsPair : Transaction → List LedgerEntry → Type 0
IsPair x es =
    (src : Uuid) × (dst : Uuid) × (a : LedgerEntry) × (b : LedgerEntry) × (x.source_wallet_id
      ≡ some src)
    × (x.destination_wallet_id ≡ some dst)
    × (src ≢ dst)
    × Debits x src a
    × Credits x dst b
    × ((es ≡ a ∷ b ∷ []) ⊎ (es ≡ b ∷ a ∷ []))

abbrev pub scanned : Transaction → LedgerEntry → LedgerEntry → Found
scanned x e e' =
    scan x (record { bad_amount = false; debit_found = false; credit_found = false }) (e ∷ e' ∷ [])

pub scanned-both :
    (x : Transaction) (e e' : LedgerEntry)
    → (scanned x e e').bad_amount ≡ false
    → (eq_ℤ e.amount x.amount ≡ true)
      × (eq_ℤ e'.amount x.amount ≡ true)
      × ((scanned x e e').debit_found ≡ (source_debit x e || source_debit x e'))
      × ((scanned x e e').credit_found ≡ (destination_credit x e || destination_credit x e'))
scanned-both x e e' h = ground arith

both : (a b : Bool) → (a && b) ≡ true → (a ≡ true) × (b ≡ true)
both a b h = ground arith

pub either : (a b : Bool) → (a || b) ≡ true → (a ≡ true) ⊎ (b ≡ true)
either true b h = inl refl
either false b h = inr h

debit-type : (t : LedgerEntryType) → is_debit t ≡ true → t ≡ LedgerEntryType.debit
debit-type LedgerEntryType.debit h = refl
debit-type LedgerEntryType.credit h = absurd (ground arith)
debit-type (LedgerEntryType.other s) h = absurd (ground arith)

credit-type : (t : LedgerEntryType) → is_credit t ≡ true → t ≡ LedgerEntryType.credit
credit-type LedgerEntryType.credit h = refl
credit-type LedgerEntryType.debit h = absurd (ground arith)
credit-type (LedgerEntryType.other s) h = absurd (ground arith)

pub debit-found :
    (x : Transaction) (src : Uuid) (e : LedgerEntry)
    → x.source_wallet_id ≡ some src
    → eq_ℤ e.amount x.amount ≡ true
    → source_debit x e ≡ true
    → Debits x src e
debit-found x src e from amount h =
    let pointed = ap (λ o. points_to o e.wallet_id && is_debit e.entry_type) (sym from) ∙ h in
    let (wallet, type) = both (e.wallet_id == src) (is_debit e.entry_type) pointed in
    (
      (==_iff e.wallet_id src).0 wallet,
      debit-type e.entry_type type,
      eq_ℤ→eq e.amount x.amount amount,
    )

pub credit-found :
    (x : Transaction) (dst : Uuid) (e : LedgerEntry)
    → x.destination_wallet_id ≡ some dst
    → eq_ℤ e.amount x.amount ≡ true
    → destination_credit x e ≡ true
    → Credits x dst e
credit-found x dst e to amount h =
    let pointed = ap (λ o. points_to o e.wallet_id && is_credit e.entry_type) (sym to) ∙ h in
    let (wallet, type) = both (e.wallet_id == dst) (is_credit e.entry_type) pointed in
    (
      (==_iff e.wallet_id dst).0 wallet,
      credit-type e.entry_type type,
      eq_ℤ→eq e.amount x.amount amount,
    )

-- No entry is both a debit and a credit.
not-both : (x : Transaction) (i j : Uuid) (e : LedgerEntry) → Debits x i e → Credits x j e → ⊥
not-both x i j e (w, t, a) (w', t', a') = ground arith

pub pair-found :
    (x : Transaction) (src dst : Uuid) (e e' : LedgerEntry)
    → (Debits x src e ⊎ Debits x src e')
    → (Credits x dst e ⊎ Credits x dst e')
    → (a : LedgerEntry) × (b : LedgerEntry) × Debits x src a
      × Credits x dst b
      × (((e ∷ e' ∷ []) ≡ a ∷ b ∷ []) ⊎ ((e ∷ e' ∷ []) ≡ b ∷ a ∷ []))
pair-found x src dst e e' (inl d) (inl c) = absurd (not-both x src dst e d c)
pair-found x src dst e e' (inl d) (inr c) = (e, e', d, c, inl refl)
pair-found x src dst e e' (inr d) (inl c) = (e', e, d, c, inr refl)
pair-found x src dst e e' (inr d) (inr c) = absurd (not-both x src dst e' d c)

pub or-first : (a b : Bool) → a ≡ true → (a || b) ≡ true
or-first a b h = ground arith

pub or-second : (a b : Bool) → b ≡ true → (a || b) ≡ true
or-second a b h = ground arith

pub amount-eq :
    (x : Transaction) (e : LedgerEntry) → e.amount ≡ x.amount → eq_ℤ e.amount x.amount ≡ true
amount-eq x e h = ap (λ n. eq_ℤ e.amount n) (sym h) ∙ eq_ℤ_refl e.amount

pub Debits-found :
    (x : Transaction) (src : Uuid) (e : LedgerEntry)
    → x.source_wallet_id ≡ some src
    → Debits x src e
    → source_debit x e ≡ true
Debits-found x src e from (wallet, type, amount) =
    ap (λ o. points_to o e.wallet_id && is_debit e.entry_type) from
    ∙ (ap (λ t. (e.wallet_id == src) && is_debit t) type ∙ ground arith)

pub Credits-found :
    (x : Transaction) (dst : Uuid) (e : LedgerEntry)
    → x.destination_wallet_id ≡ some dst
    → Credits x dst e
    → destination_credit x e ≡ true
Credits-found x dst e to (wallet, type, amount) =
    ap (λ o. points_to o e.wallet_id && is_credit e.entry_type) to
    ∙ (ap (λ t. (e.wallet_id == dst) && is_credit t) type ∙ ground arith)
