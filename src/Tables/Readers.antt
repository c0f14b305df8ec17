-- ===== src/Tables/Readers.antt =====
-- The reference tables list their rows.
use mathlib.Core.List
use mathlib.Core.List.{Perm}
use go_hermes.Base.{List, ◌≡◌, sym, subst}
use go_hermes.Store.Laws.{IsTableReader}
use go_hermes.Tables.{tables}
use go_hermes.Tables.Lawful.{ok_pair}

same_rows : {A : Type 0} (xs ys : List A) → ys ≡ xs → Perm ys xs
same_rows xs ys e = subst (λ k. Perm k xs) (sym e) (List.Perm.refl xs)

pub tables-IsTableReader : IsTableReader tables (λ v. v)
tables-IsTableReader = record {
  wallets_listed = λ s t ws h. let (same, kept) = ok_pair h in (kept, same_rows s.wallets ws same);
  transactions_listed =
      λ s t xs h. let (same, kept) = ok_pair h in (kept, same_rows s.transactions xs same);
  entries_listed = λ s t es h. let (same, kept) = ok_pair h in (kept, same_rows s.ledger es same);
}
