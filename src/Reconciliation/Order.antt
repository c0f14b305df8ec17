-- ===== src/Reconciliation/Order.antt =====
-- sortLedgerEntries: by creation time, then by the text of the id. Go's sort returns a sorted
-- permutation; where no two entries agree in time and id there is one such, which the insertion
-- sort below returns too.
use go_hermes.Base.{Bool, List, [], ◌∷◌, ltb, ◌==◌, if◌then◌else◌}
use go_hermes.Entity.{LedgerEntry}
use go_hermes.UuidLib.{UuidLib}

module _ (u : UuidLib) where
  unfoldable pub before : LedgerEntry → LedgerEntry → Bool
  before a b =
      if a.created_at == b.created_at then u.text_lt a.id b.id else ltb a.created_at b.created_at

  unfoldable pub insert_entry : LedgerEntry → List LedgerEntry → List LedgerEntry
  unfolding before
  insert_entry e [] = e ∷ []
  insert_entry e (x ∷ xs) = if before x e then x ∷ insert_entry e xs else e ∷ x ∷ xs

  unfoldable pub sort_ledger_entries : List LedgerEntry → List LedgerEntry
  unfolding insert_entry
  sort_ledger_entries [] = []
  sort_ledger_entries (e ∷ es) = insert_entry e (sort_ledger_entries es)
