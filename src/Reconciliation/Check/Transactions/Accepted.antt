-- ===== src/Reconciliation/Check/Transactions/Accepted.antt =====
-- Which entries the transaction checks of internal/usecase/reconciliation.go accept.
use go_hermes.Base.{
  Bool, true, false, Option, none, some, List, [], ◌∷◌, ◌++◌, ◌≡◌, ◌≢◌, refl, sym, ap, ◌∙◌, arith,
  not, ◌||◌, ◌⊎◌, ◌↔◌, inl, inr, is_some, true_ne_false,
}
use go_hermes.Base.Int.{eq_ℤ}
use go_hermes.Entity.{Uuid, Transaction, LedgerEntry}
use go_hermes.UuidLib.{UuidLib}
use go_hermes.Reconciliation.Entry.{issue_if}
use go_hermes.Reconciliation.Entry.Laws.{append-empty, issue_if-empty, not-false}
use go_hermes.Reconciliation.Check.Transactions.{
  validate_transfer_transaction, transfer_entry_issues, scanned_issues, same_target, points_to,
  source_debit, destination_credit, Found,
}
use go_hermes.Reconciliation.Check.Transactions.Pair.{
  Debits, Credits, IsPair, scanned, scanned-both, either, debit-found, credit-found, pair-found,
  or-first, or-second, amount-eq, Debits-found, Credits-found,
}

module _ (u : UuidLib) where
  scanned-empty :
      (x : Transaction) (es : List LedgerEntry) (f : Found)
      → scanned_issues u x es f ≡ []
      → (f.bad_amount ≡ false) × (f.debit_found ≡ true) × (f.credit_found ≡ true)
  scanned-empty x es f h =
      let (bad, rest) = append-empty (issue_if f.bad_amount _) _ h in
      let (debit, credit) = append-empty (issue_if (not f.debit_found) _) _ rest in
      (
        issue_if-empty _ _ bad,
        not-false _ (issue_if-empty _ _ debit),
        not-false _ (issue_if-empty _ _ credit),
      )

  entries-pair :
      (x : Transaction) (src dst : Uuid) (e e' : LedgerEntry)
      → x.source_wallet_id ≡ some src
      → x.destination_wallet_id ≡ some dst
      → scanned_issues u x (e ∷ e' ∷ []) (scanned x e e') ≡ []
      → (a : LedgerEntry) × (b : LedgerEntry) × Debits x src a
        × Credits x dst b
        × (((e ∷ e' ∷ []) ≡ a ∷ b ∷ []) ⊎ ((e ∷ e' ∷ []) ≡ b ∷ a ∷ []))
  entries-pair x src dst e e' from to h =
      let (good, debit, credit) = scanned-empty x (e ∷ e' ∷ []) (scanned x e e') h in
      let (first, second, debits, credits) = scanned-both x e e' good in
      pair-found x src dst e e'
        (elim (either (source_debit x e) (source_debit x e') (sym debits ∙ debit)) [
          | inl d ↦ inl (debit-found x src e from first d)
          | inr d ↦ inr (debit-found x src e' from second d)
        ])
        (elim (either (destination_credit x e) (destination_credit x e') (sym credits ∙ credit)) [
          | inl c ↦ inl (credit-found x dst e to first c)
          | inr c ↦ inr (credit-found x dst e' to second c)
        ])

  entries-IsPair :
      (x : Transaction) (src dst : Uuid) (es : List LedgerEntry)
      → x.source_wallet_id ≡ some src
      → x.destination_wallet_id ≡ some dst
      → src ≢ dst
      → transfer_entry_issues u x es ≡ []
      → IsPair x es
  entries-IsPair x src dst [] from to differ h = absurd (ground arith)
  entries-IsPair x src dst (e ∷ []) from to differ h = absurd (ground arith)
  entries-IsPair x src dst (e ∷ e' ∷ []) from to differ h =
      let (a, b, d, c, order) = entries-pair x src dst e e' from to h in
      (src, dst, a, b, from, to, differ, d, c, order)
  entries-IsPair x src dst (e ∷ e' ∷ e'' ∷ es) from to differ h = absurd (ground arith)

  present : (o : Option Uuid) → not (is_some o) ≡ false → (i : Uuid) × (o ≡ some i)
  present none h = absurd (ground arith)
  present (some i) h = (i, refl)

  apart :
      (o p : Option Uuid) (i j : Uuid) → o ≡ some i → p ≡ some j → same_target o p ≡ false → i ≢ j
  apart o p i j e f h same = absurd (ground arith)

  -- For a transfer's entries that pass the check of the transaction: they are two, a debit of the
  -- source wallet and a credit of the destination wallet, of the transaction's amount each, in one
  -- order or the other, and the wallets differ.
  pub validate_transfer_transaction-IsPair :
      (x : Transaction) (es : List LedgerEntry)
      → validate_transfer_transaction u x es ≡ []
      → IsPair x es
  unfolding validate_transfer_transaction
  validate_transfer_transaction-IsPair x es h =
      let (source, rest) = append-empty (issue_if (not (is_some x.source_wallet_id)) _) _ h in
      let (dest, rest) = append-empty (issue_if (not (is_some x.destination_wallet_id)) _) _ rest in
      let (same, entries) =
        append-empty (issue_if (same_target x.source_wallet_id x.destination_wallet_id) _) _ rest in
      let (src, from) = present x.source_wallet_id (issue_if-empty _ _ source) in
      let (dst, to) = present x.destination_wallet_id (issue_if-empty _ _ dest) in
      entries-IsPair x src dst es from to
        (apart x.source_wallet_id x.destination_wallet_id src dst from to (issue_if-empty _ _ same))
        entries

  scanned_issues-none :
      (x : Transaction) (es : List LedgerEntry) (f : Found)
      → f.bad_amount ≡ false
      → f.debit_found ≡ true
      → f.credit_found ≡ true
      → scanned_issues u x es f ≡ []
  scanned_issues-none x es f bad debit credit = ground arith

  entries-accepted :
      (x : Transaction) (e e' : LedgerEntry)
      → eq_ℤ e.amount x.amount ≡ true
      → eq_ℤ e'.amount x.amount ≡ true
      → (source_debit x e || source_debit x e') ≡ true
      → (destination_credit x e || destination_credit x e') ≡ true
      → transfer_entry_issues u x (e ∷ e' ∷ []) ≡ []
  entries-accepted x e e' first second debit credit =
      scanned_issues-none x (e ∷ e' ∷ []) (scanned x e e') (ground arith) (ground arith)
        (ground arith)

  issue_if-none :
      {A : Type 0} (b : Bool) (a : A) (rest : List A)
      → b ≡ false
      → rest ≡ []
      → issue_if b a ++ rest ≡ []
  issue_if-none true a rest e h = absurd (true_ne_false e)
  issue_if-none false a rest e h = h

  wallets-accepted :
      (x : Transaction) (es : List LedgerEntry) (src dst : Uuid)
      → x.source_wallet_id ≡ some src
      → x.destination_wallet_id ≡ some dst
      → src ≢ dst
      → transfer_entry_issues u x es ≡ []
      → validate_transfer_transaction u x es ≡ []
  unfolding validate_transfer_transaction
  wallets-accepted x es src dst from to differ entries =
      issue_if-none (not (is_some x.source_wallet_id)) _ _ (ap (λ o. not (is_some o)) from) (
        issue_if-none (not (is_some x.destination_wallet_id)) _ _ (ap (λ o. not (is_some o)) to) (
          issue_if-none (same_target x.source_wallet_id x.destination_wallet_id) _ _
            (ap (λ o. same_target o x.destination_wallet_id) from
              ∙ (ap (λ o. points_to o src) to ∙ ground arith))
            entries))

  -- Conversely: two entries, a debit of the source wallet and a credit of a different destination
  -- wallet, of the transaction's amount each, in one order or the other, pass the check.
  IsPair-validate_transfer_transaction :
      (x : Transaction) (es : List LedgerEntry)
      → IsPair x es
      → validate_transfer_transaction u x es ≡ []
  IsPair-validate_transfer_transaction x es (src, dst, a, b, from, to, differ, d, c, inl order) =
      wallets-accepted x es src dst from to differ (
        ap (transfer_entry_issues u x) order
        ∙ entries-accepted x a b (amount-eq x a d.2) (amount-eq x b c.2)
            (or-first _ _ (Debits-found x src a from d))
            (or-second _ _ (Credits-found x dst b to c)))
  IsPair-validate_transfer_transaction x es (src, dst, a, b, from, to, differ, d, c, inr order) =
      wallets-accepted x es src dst from to differ (
        ap (transfer_entry_issues u x) order
        ∙ entries-accepted x b a (amount-eq x b c.2) (amount-eq x a d.2)
            (or-second _ _ (Debits-found x src a from d))
            (or-first _ _ (Credits-found x dst b to c)))

  -- A transfer transaction passes the check of its ledger entries exactly when it names two different
  -- wallets and has two entries, in one order or the other: a debit of its source wallet and a credit
  -- of its destination wallet, of its amount each.
  pub validate_transfer_transaction_iff :
      (x : Transaction) (es : List LedgerEntry)
      → (validate_transfer_transaction u x es ≡ []) ↔ IsPair x es
  validate_transfer_transaction_iff x es =
      (validate_transfer_transaction-IsPair x es, IsPair-validate_transfer_transaction x es)
