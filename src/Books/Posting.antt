-- ===== src/Books/Posting.antt =====
-- The transaction that a movement posts, and its entries: what validateLedgerEntryMath and the checks
-- on transactions of internal/usecase/reconciliation.go look for.
use go_hermes.Base.{
  none, List, [], ◌∷◌, ◌++◌, ◌≡◌, ◌≢◌, ◌⊎◌, inl, refl, sym, ap, ◌∙◌, subst, arith, All, ==_refl,
}
use go_hermes.Base.Int.{ℤ, pos, negsuc, ◌≤ℤ◌, eq_ℤ_refl, ◌+ℤ◌, ◌-ℤ◌}
use go_hermes.Base.Int64.{IsInt64, add64, sub64, wrap64}
use go_hermes.Entity.{
  Uuid, Time, Wallet, Transaction, TransactionType, LedgerEntry, LedgerEntryType,
}
use go_hermes.Reconciliation.Check.Transactions.{
  validate_top_up_transaction, validate_transfer_transaction,
}
use go_hermes.Reconciliation.Check.Transactions.Accepted.{validate_transfer_transaction_iff}
use go_hermes.Reconciliation.Entry.{check_math, validate_ledger_entry_math}
use go_hermes.Store.View.{View}
use go_hermes.TransactionUsecase.Common.{Draws, Outcome}
use go_hermes.TransactionUsecase.TopUp.{top_up_transaction, top_up_entry}
use go_hermes.TransactionUsecase.TopUp.Effect as TopUpEffect
use go_hermes.TransactionUsecase.Transfer.{transfer_transaction, debit_entry, credit_entry}
use go_hermes.TransactionUsecase.Transfer.Effect as TransferEffect
use go_hermes.Types.{TopUpRequest, TransferRequest}
use go_hermes.UuidLib.{UuidLib}
use go_hermes.Webhook.Create.Effect.{deliver-transactions, deliver-ledger}

sub64-add64 : (a b : ℤ) → IsInt64 a → sub64 (add64 b a) b ≡ a
unfolding add64 sub64 wrap64 ◌+ℤ◌ ◌-ℤ◌
sub64-add64 (pos n) (pos m) h = ground arith
sub64-add64 (pos n) (negsuc m) h = ground arith
sub64-add64 (negsuc n) (pos m) h = ground arith
sub64-add64 (negsuc n) (negsuc m) h = ground arith

sub64_back : (a b : ℤ) → IsInt64 a → sub64 b (sub64 b a) ≡ a
unfolding add64 sub64 wrap64 ◌+ℤ◌ ◌-ℤ◌
sub64_back (pos n) (pos m) h = ground arith
sub64_back (pos n) (negsuc m) h = ground arith
sub64_back (negsuc n) (pos m) h = ground arith
sub64_back (negsuc n) (negsuc m) h = ground arith

credit-math :
    (before amount : ℤ)
    → IsInt64 amount
    → pos 1 ≤ℤ amount
    → check_math LedgerEntryType.credit before (add64 before amount) amount ≡ none
credit-math before amount range positive =
    rw (sub64-add64 amount before range) (ground (arith, eq_ℤ_refl amount))

debit-math :
    (before amount : ℤ)
    → IsInt64 amount
    → pos 1 ≤ℤ amount
    → check_math LedgerEntryType.debit before (sub64 before amount) amount ≡ none
debit-math before amount range positive =
    rw (sub64_back amount before range) (ground (arith, eq_ℤ_refl amount))

module _ (u : UuidLib) where
  -- The check that belongs to a transaction's type finds nothing.
  abbrev pub Passes : TransactionType → Transaction → List LedgerEntry → Type 0
  Passes TransactionType.top_up x es = validate_top_up_transaction u x es ≡ []
  Passes TransactionType.transfer x es = validate_transfer_transaction u x es ≡ []
  Passes (TransactionType.other s) x es = ⊥

  -- A new transaction with its entries.
  pub record Posting (v v' : View) : Type 0 where
    pub row : Transaction
    pub entries : List LedgerEntry
    pub transactions : v'.transactions ≡ v.transactions ++ row ∷ []
    pub ledger : v'.ledger ≡ v.ledger ++ entries
    pub own : All (λ e. e.transaction_id ≡ row.id) entries
    pub passes : Passes row.type row entries
    pub math : All (λ e. validate_ledger_entry_math e ≡ none) entries

  abbrev pub Posts : View → View → Type 0
  Posts v v' = ((v'.transactions ≡ v.transactions) × (v'.ledger ≡ v.ledger)) ⊎ Posting v v'

  -- The rows as the database stamps them.
  abbrev stamped : Transaction → Time → Time → Transaction
  stamped x created updated = record x { created_at = created; updated_at = updated }

  top_up-passes :
      (req : TopUpRequest) (d : Draws) (user_id : Uuid) (w : Wallet) (row : Transaction)
      (m n : Time)
      → validate_top_up_transaction u
          (stamped (top_up_transaction req user_id d w) m n)
          (top_up_entry req d row w ∷ [])
        ≡ []
  unfolding validate_top_up_transaction top_up_transaction top_up_entry
  top_up-passes req d user_id w row m n = ground (arith, ==_refl w.id, eq_ℤ_refl req.amount)

  transfer-passes :
      (req : TransferRequest) (d : Draws) (user_id : Uuid) (a b : Wallet) (row : Transaction)
      (m n : Time)
      → a.id ≢ b.id
      → validate_transfer_transaction u
          (stamped (transfer_transaction req user_id d a b) m n)
          (debit_entry req d row a ∷ credit_entry req d row b ∷ [])
        ≡ []
  unfolding transfer_transaction debit_entry credit_entry
  transfer-passes req d user_id a b row m n differ = (validate_transfer_transaction_iff u _ _).1 (
    a.id,
    b.id,
    debit_entry req d row a,
    credit_entry req d row b,
    refl,
    refl,
    differ,
    (refl, refl, refl),
    (refl, refl, refl),
    inl refl,
  )

  pub top_up-Posting :
      (req : TopUpRequest) (d : Draws) (user_id : Uuid) (w : Wallet) (v v' : View) (out : Outcome)
      → TopUpEffect.Written u req d user_id w v v' out
      → IsInt64 req.amount
      → pos 1 ≤ℤ req.amount
      → Posting v v'
  unfolding top_up_transaction top_up_entry validate_ledger_entry_math
  top_up-Posting req d user_id w v v' out f range positive = record {
    row = f.row;
    entries = top_up_entry req d f.row w ∷ [];
    transactions = ap (λ k. k.transactions) f.tables ∙ deliver-transactions _ f.delivery;
    ledger = ap (λ k. k.ledger) f.tables ∙ deliver-ledger _ f.delivery;
    own = (refl, tt);
    passes =
        subst (λ k. Passes k.type k (top_up_entry req d f.row w ∷ [])) (sym f.row_same)
          (top_up-passes req d user_id w f.row f.row.created_at f.row.updated_at);
    math = (credit-math w.balance req.amount range positive, tt);
  }

  pub transfer-Posting :
      (req : TransferRequest) (d : Draws) (user_id : Uuid) (a b : Wallet) (v v' : View)
      (out : Outcome)
      → TransferEffect.Written u req d user_id a b v v' out
      → IsInt64 req.amount
      → pos 1 ≤ℤ req.amount
      → a.id ≢ b.id
      → Posting v v'
  unfolding transfer_transaction debit_entry credit_entry validate_ledger_entry_math
  transfer-Posting req d user_id a b v v' out f range positive differ = record {
    row = f.row;
    entries = debit_entry req d f.row a ∷ credit_entry req d f.row b ∷ [];
    transactions = ap (λ k. k.transactions) f.tables ∙ deliver-transactions _ f.delivery;
    ledger = ap (λ k. k.ledger) f.tables ∙ deliver-ledger _ f.delivery;
    own = (refl, (refl, tt));
    passes =
        subst (λ k. Passes k.type k (debit_entry req d f.row a ∷ credit_entry req d f.row b ∷ []))
          (sym f.row_same)
          (transfer-passes req d user_id a b f.row f.row.created_at f.row.updated_at differ);
    math = (
      debit-math a.balance req.amount range positive,
      (credit-math b.balance req.amount range positive, tt),
    );
  }
