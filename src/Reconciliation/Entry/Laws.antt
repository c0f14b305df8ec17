-- ===== src/Reconciliation/Entry/Laws.antt =====
-- What the entry and chain checks of internal/usecase/reconciliation.go say about the balances that
-- the entries record.
use go_hermes.Base.{
  String, Bool, true, false, none, some, List, [], ◌∷◌, ◌++◌, ◌≡◌, refl, sym, ap, ◌∙◌, arith, All,
  not, ◌⊎◌, inl, inr, if◌then◌else◌,
}
use go_hermes.Base.Int.{ℤ, pos, negsuc, eq_ℤ, ◌≤ℤ◌, eq_ℤ→eq, ◌+ℤ◌, ◌-ℤ◌}
use go_hermes.Base.Int64.{add64, sub64, wrap64, IsInt64}
use go_hermes.Entity.{LedgerEntry, LedgerEntryType}
use go_hermes.UuidLib.{UuidLib}
use go_hermes.Reconciliation.Entry.{
  check_math, check_amount, validate_ledger_entry_math, chain_from, validate_wallet_ledger_chain,
  apply_entry, derived_from, derived_balance, issue_if,
}

add64-sub64 : (a b : ℤ) → IsInt64 a → IsInt64 b → add64 b (sub64 a b) ≡ a
unfolding add64 sub64 wrap64 ◌+ℤ◌ ◌-ℤ◌
add64-sub64 (pos n) (pos m) ha hb = ground arith
add64-sub64 (pos n) (negsuc m) ha hb = ground arith
add64-sub64 (negsuc n) (pos m) ha hb = ground arith
add64-sub64 (negsuc n) (negsuc m) ha hb = ground arith

sub64-sub64 : (a b : ℤ) → IsInt64 a → IsInt64 b → sub64 b (sub64 b a) ≡ a
unfolding add64 sub64 wrap64 ◌+ℤ◌ ◌-ℤ◌
sub64-sub64 (pos n) (pos m) ha hb = ground arith
sub64-sub64 (pos n) (negsuc m) ha hb = ground arith
sub64-sub64 (negsuc n) (pos m) ha hb = ground arith
sub64-sub64 (negsuc n) (negsuc m) ha hb = ground arith

-- An entry whose balances differ by its amount, upwards for a credit and downwards for a debit.
abbrev pub Moves : LedgerEntryType → ℤ → ℤ → ℤ → Type 0
Moves t before after amount =
    (pos 1 ≤ℤ amount)
    × (((t ≡ LedgerEntryType.credit) × (after ≡ add64 before amount))
        ⊎ ((t ≡ LedgerEntryType.debit) × (after ≡ sub64 before amount)))

abbrev pub IsRecorded : LedgerEntry → Type 0
IsRecorded e = Moves e.entry_type e.balance_before e.balance_after e.amount

-- The balances of an entry are int64s.
abbrev pub InRange : LedgerEntry → Type 0
InRange e = IsInt64 e.balance_before × IsInt64 e.balance_after

checked :
    (b : Bool) (s : String) (amount : ℤ)
    → (if not b then some s else check_amount amount) ≡ none
    → (b ≡ true) × (pos 1 ≤ℤ amount)
checked true s amount h = (refl, ground arith)
checked false s amount h = absurd (ground arith)

check_math-Moves :
    (t : LedgerEntryType) (before after amount : ℤ)
    → IsInt64 before
    → IsInt64 after
    → check_math t before after amount ≡ none
    → Moves t before after amount
check_math-Moves LedgerEntryType.credit before after amount rb ra h =
    let (same, positive) = checked (eq_ℤ (sub64 after before) amount) _ amount h in
    (
      positive,
      inl (
        refl,
        sym (
            ap (add64 before) (sym (eq_ℤ→eq (sub64 after before) amount same))
            ∙ add64-sub64 after before ra rb),
      ),
    )
check_math-Moves LedgerEntryType.debit before after amount rb ra h =
    let (same, positive) = checked (eq_ℤ (sub64 before after) amount) _ amount h in
    (
      positive,
      inr (
        refl,
        sym (
            ap (sub64 before) (sym (eq_ℤ→eq (sub64 before after) amount same))
            ∙ sub64-sub64 after before ra rb),
      ),
    )
check_math-Moves (LedgerEntryType.other s) before after amount rb ra h = absurd (ground arith)

-- For an entry with int64 balances that passes the entry check: its amount is positive, it is a
-- credit or a debit, and its balance after is its balance before with the amount added or taken.
pub validate_ledger_entry_math-IsRecorded :
    (e : LedgerEntry) → InRange e → validate_ledger_entry_math e ≡ none → IsRecorded e
unfolding validate_ledger_entry_math
validate_ledger_entry_math-IsRecorded e (rb, ra) h =
    check_math-Moves e.entry_type e.balance_before e.balance_after e.amount rb ra h

-- Each entry starts at the balance that the one before it left, the first at `start`.
abbrev pub Linked : ℤ → List LedgerEntry → Type 0
Linked start [] = Unit {0}
Linked start (e ∷ es) = (e.balance_before ≡ start) × Linked e.balance_after es

-- The balance that the last entry left.
abbrev pub last_balance : ℤ → List LedgerEntry → ℤ
last_balance start [] = start
last_balance start (e ∷ es) = last_balance e.balance_after es

pub append-empty {ℓ} : {A : Type ℓ} (xs ys : List A) → xs ++ ys ≡ [] → (xs ≡ []) × (ys ≡ [])
append-empty [] ys h = (refl, h)
append-empty (x ∷ xs) ys h = absurd (ground arith)

pub issue_if-empty : {A : Type 0} (b : Bool) (x : A) → issue_if b x ≡ [] → b ≡ false
issue_if-empty true x h = absurd (ground arith)
issue_if-empty false x h = refl

pub not-false : (b : Bool) → not b ≡ false → b ≡ true
not-false b h = ground arith

module _ (u : UuidLib) where
  chain_from-Linked :
      (start : ℤ) (es : List LedgerEntry) → chain_from u start es ≡ [] → Linked start es
  unfolding chain_from
  chain_from-Linked start [] h = tt
  chain_from-Linked start (e ∷ es) h =
      let (here, rest) = append-empty (issue_if (not (eq_ℤ e.balance_before start)) _) _ h in
      (
        eq_ℤ→eq e.balance_before start (not-false _ (issue_if-empty _ _ here)),
        chain_from-Linked e.balance_after es rest,
      )

  pub validate_wallet_ledger_chain-Linked :
      (es : List LedgerEntry) → validate_wallet_ledger_chain u es ≡ [] → Linked (pos 0) es
  unfolding validate_wallet_ledger_chain
  validate_wallet_ledger_chain-Linked [] h = tt
  validate_wallet_ledger_chain-Linked (e ∷ es) h =
      let (here, rest) = append-empty (issue_if (not (eq_ℤ e.balance_before (pos 0))) _) _ h in
      (
        eq_ℤ→eq e.balance_before (pos 0) (not-false _ (issue_if-empty _ _ here)),
        chain_from-Linked e.balance_after es rest,
      )

apply_entry-Moves :
    (t : LedgerEntryType) (before after amount : ℤ)
    → Moves t before after amount
    → apply_entry t before amount ≡ after
apply_entry-Moves t before after amount (positive, inl (e, f)) =
    ap (λ t. apply_entry t before amount) e ∙ sym f
apply_entry-Moves t before after amount (positive, inr (e, f)) =
    ap (λ t. apply_entry t before amount) e ∙ sym f

derived_from-last :
    (start : ℤ) (es : List LedgerEntry)
    → All IsRecorded es
    → Linked start es
    → derived_from start es ≡ last_balance start es
unfolding derived_from
derived_from-last start [] rec linked = refl
derived_from-last start (e ∷ es) (here, rec) (first, linked) =
    ap (λ b. derived_from (apply_entry e.entry_type b e.amount) es) (sym first)
    ∙ (ap (λ b. derived_from b es)
          (apply_entry-Moves e.entry_type e.balance_before e.balance_after e.amount here)
        ∙ derived_from-last e.balance_after es rec linked)

-- For entries that move their balances by their amounts and are linked from 0 on: the balance that
-- reconciliation derives from them is the one that the last entry records.
pub derived_balance-last :
    (es : List LedgerEntry)
    → All IsRecorded es
    → Linked (pos 0) es
    → derived_balance es ≡ last_balance (pos 0) es
unfolding derived_balance
derived_balance-last es rec linked = derived_from-last (pos 0) es rec linked
