-- ===== src/Books/Posted.antt =====
-- Every transaction has the entries that its check wants, and every entry has its transaction.
use go_hermes.Base.{
  true, false, Option, none, List, [], ◌∷◌, ◌++◌, ◌≡◌, inl, inr, refl, sym, ap, ◌∙◌, subst, arith,
  All, All-mono, All-both, find, select, ◌==◌, ==_iff, ==_refl, Bool-cases,
}
use mathlib.Core.List.{append-nil}
use go_hermes.Books.{select-append, some-none}
use go_hermes.Books.Posting.{Posts, Passes}
use go_hermes.Entity.{Uuid, Transaction, LedgerEntry}
use go_hermes.Reconciliation.Check.{has_transaction}
use go_hermes.Reconciliation.Entry.{validate_ledger_entry_math}
use go_hermes.Store.View.{View}
use go_hermes.UuidLib.{UuidLib}

abbrev pub transaction_by_id : Uuid → List Transaction → Option Transaction
transaction_by_id i = find (λ x. x.id == i)

-- The primary key of the transactions.
abbrev pub UniqueTransactions : List Transaction → Type 0
UniqueTransactions [] = Unit {0}
UniqueTransactions (x ∷ xs) = (transaction_by_id x.id xs ≡ none) × UniqueTransactions xs

abbrev pub posted_of : Uuid → List LedgerEntry → List LedgerEntry
posted_of i = select (λ e. e.transaction_id == i)

pub record IsPosted (u : UuidLib) (xs : List Transaction) (ledger : List LedgerEntry) : Type 0 where
  pub passes : All (λ x. Passes u x.type x (posted_of x.id ledger)) xs
  pub owned : All (λ e. has_transaction e.transaction_id xs ≡ true) ledger
  pub math : All (λ e. validate_ledger_entry_math e ≡ none) ledger

All-append : {A : Type 0} (P : A → Type 0) (xs ys : List A) → All P xs → All P ys → All P (xs ++ ys)
All-append P [] ys h k = k
All-append P (x ∷ xs) ys (here, h) k = (here, All-append P xs ys h k)

-- A row with a new id leaves lookups alone, and a lookup of its own id finds nothing before it.
UniqueTransactions-append :
    (xs : List Transaction) (row : Transaction)
    → UniqueTransactions (xs ++ row ∷ [])
    → UniqueTransactions xs × All (λ x. (x.id == row.id) ≡ false) xs
UniqueTransactions-append [] row h = (tt, tt)
UniqueTransactions-append (x ∷ xs) row (first, rest) =
    let (unique, others) = UniqueTransactions-append xs row rest in
    ((shorter x.id xs first, unique), (differs x.id xs first, others))
  where
    shorter :
        (i : Uuid) (ys : List Transaction)
        → transaction_by_id i (ys ++ row ∷ []) ≡ none
        → transaction_by_id i ys ≡ none
    shorter i [] h = refl
    shorter i (y ∷ ys) h = elim (Bool-cases (y.id == i)) [
      | inl k ↦ absurd (some-none (rw k at h))
      | inr k ↦ rw k (shorter i ys (rw k at h))
    ]

    differs :
        (i : Uuid) (ys : List Transaction)
        → transaction_by_id i (ys ++ row ∷ []) ≡ none
        → (i == row.id) ≡ false
    differs i [] h = ground arith
    differs i (y ∷ ys) h = elim (Bool-cases (y.id == i)) [
      | inl k ↦ absurd (some-none (rw k at h))
      | inr k ↦ differs i ys (rw k at h)
    ]

posted_of-other :
    (i : Uuid) (es : List LedgerEntry)
    → All (λ e. (e.transaction_id == i) ≡ false) es
    → posted_of i es ≡ []
posted_of-other i [] h = refl
posted_of-other i (e ∷ es) (here, h) = rw here (posted_of-other i es h)

posted_of-own :
    (i : Uuid) (es : List LedgerEntry)
    → All (λ e. (e.transaction_id == i) ≡ true) es
    → posted_of i es ≡ es
posted_of-own i [] h = refl
posted_of-own i (e ∷ es) (here, h) = rw here (ap (λ k. e ∷ k) (posted_of-own i es h))

-- The transaction of an entry is not a new one.
owner-old :
    (i j : Uuid) (xs : List Transaction)
    → has_transaction i xs ≡ true
    → All (λ x. (x.id == j) ≡ false) xs
    → (i == j) ≡ false
owner-old i j [] h others = absurd (ground arith)
owner-old i j (x ∷ xs) h (here, others) = elim (Bool-cases (x.id == i)) [
  | inl k ↦ subst (λ n. (n == j) ≡ false) ((==_iff x.id i).0 k) here
  | inr k ↦ owner-old i j xs (rw k at h) others
]

owner-stays :
    (i : Uuid) (xs : List Transaction) (row : Transaction)
    → has_transaction i xs ≡ true
    → has_transaction i (xs ++ row ∷ []) ≡ true
owner-stays i [] row h = absurd (ground arith)
owner-stays i (x ∷ xs) row h = elim (Bool-cases (x.id == i)) [
  | inl k ↦ rw k
  | inr k ↦ rw k (owner-stays i xs row (rw k at h))
]

owner-new :
    (xs : List Transaction) (row : Transaction) → has_transaction row.id (xs ++ row ∷ []) ≡ true
owner-new [] row = rw (==_refl row.id)
owner-new (x ∷ xs) row = elim (Bool-cases (x.id == row.id)) [
  | inl k ↦ rw k
  | inr k ↦ rw k (owner-new xs row)
]

other-of : (i j : Uuid) → (i == j) ≡ false → (j == i) ≡ false
other-of i j h = ground arith

module _ (u : UuidLib) (xs : List Transaction) (ledger : List LedgerEntry) (row : Transaction)
    (es : List LedgerEntry) (posted : IsPosted u xs ledger)
    (others : All (λ x. (x.id == row.id) ≡ false) xs)
    (own : All (λ e. e.transaction_id ≡ row.id) es) where
  old-Passes :
      (x : Transaction)
      → (x.id == row.id) ≡ false
      → Passes u x.type x (posted_of x.id ledger)
      → Passes u x.type x (posted_of x.id (ledger ++ es))
  old-Passes x other h = subst (Passes u x.type x) (sym same) h
    where
      same : posted_of x.id (ledger ++ es) ≡ posted_of x.id ledger
      same =
          select-append (λ e. e.transaction_id == x.id) ledger es
          ∙ (ap (λ k. posted_of x.id ledger ++ k)
                (posted_of-other x.id es (
                  All-mono
                    (λ e p. subst (λ n. (n == x.id) ≡ false) (sym p) (other-of x.id row.id other))
                    es own))
              ∙ append-nil (posted_of x.id ledger))

  new-entries : posted_of row.id (ledger ++ es) ≡ es
  new-entries =
      select-append (λ e. e.transaction_id == row.id) ledger es
      ∙ (ap (λ k. k ++ posted_of row.id es)
            (posted_of-other row.id ledger (
              All-mono (λ e there. owner-old e.transaction_id row.id xs there others) ledger
                posted.owned))
          ∙ posted_of-own row.id es (All-mono (λ e p. (==_iff e.transaction_id row.id).1 p) es own))

  IsPosted-add :
      Passes u row.type row es
      → All (λ e. validate_ledger_entry_math e ≡ none) es
      → IsPosted u (xs ++ row ∷ []) (ledger ++ es)
  IsPosted-add passes math = record {
    passes =
        All-append _ xs (row ∷ [])
          (All-both (λ x other h. old-Passes x other h) xs others posted.passes)
          (subst (Passes u row.type row) (sym new-entries) passes, tt);
    owned =
        All-append _ ledger es
          (All-mono (λ e there. owner-stays e.transaction_id xs row there) ledger posted.owned)
          (All-mono
            (λ e p.
              subst (λ i. has_transaction i (xs ++ row ∷ []) ≡ true) (sym p) (owner-new xs row))
            es own);
    math = All-append _ ledger es posted.math math;
  }

-- What a movement posts keeps the transactions posted, if no two of them have one id.
pub Posts-IsPosted :
    (u : UuidLib) (v v' : View)
    → Posts u v v'
    → (UniqueTransactions v.transactions → IsPosted u v.transactions v.ledger)
    → UniqueTransactions v'.transactions
    → IsPosted u v'.transactions v'.ledger
Posts-IsPosted u v v' (inl (same, kept)) posted unique =
    subst (λ xs. IsPosted u xs v'.ledger) (sym same)
      (subst (IsPosted u v.transactions) (sym kept) (posted (subst UniqueTransactions same unique)))
Posts-IsPosted u v v' (inr p) posted unique =
    let (before, others) =
      UniqueTransactions-append v.transactions p.row
        (subst UniqueTransactions p.transactions unique) in
    subst (λ xs. IsPosted u xs v'.ledger) (sym p.transactions)
      (subst (IsPosted u (v.transactions ++ p.row ∷ [])) (sym p.ledger) (
        IsPosted-add u v.transactions v.ledger p.row p.entries (posted before) others p.own p.passes
          p.math))
