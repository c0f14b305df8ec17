-- ===== src/Gorm/Access.antt =====
-- Who sees which rows: the reads of one's own transactions and ledger entries through
-- internal/repository/gorm.go.
use go_hermes.Base.{
  Bool, true, false, Option, none, some, ◌≡◌, ◌⊎◌, inl, inr, refl, arith, ◌==◌, ◌&&◌, ◌||◌, ==_iff,
}
use go_hermes.Entity.{Uuid, Wallet, Transaction, LedgerEntry}
use go_hermes.Store.View.{View, wallet_by_id}
use go_hermes.Gorm.Query.{Model, Value}
use go_hermes.Gorm.Semantics.{keeps, same_value, wallet_value, wallet_of_value, nullable_uuid}
use go_hermes.Gorm.Ledgers
use go_hermes.Gorm.Transactions

-- The wallet of an id, if there is one, is the user's.
abbrev pub IsOwnedBy : View → Uuid → Option Uuid → Type 0
IsOwnedBy v user_id none = ⊥
IsOwnedBy v user_id (some i) =
    (w : Wallet) × (wallet_by_id i v.wallets ≡ some w) × (w.user_id ≡ user_id)

-- A transaction that the user initiated, or that moves the money of the user's wallet.
abbrev pub Involves : View → Uuid → Transaction → Type 0
Involves v user_id x =
    (x.initiated_by_user_id ≡ user_id)
    ⊎ (IsOwnedBy v user_id x.source_wallet_id ⊎ IsOwnedBy v user_id x.destination_wallet_id)

owned_wallet :
    (o : Option Wallet) (user_id : Uuid)
    → same_value (wallet_value o "user_id") (Value.uuid_value user_id) ≡ true
    → (w : Wallet) × (o ≡ some w) × (w.user_id ≡ user_id)
owned_wallet none user_id h = absurd (ground arith)
owned_wallet (some w) user_id h = (w, refl, (==_iff w.user_id user_id).0 h)

owned_key :
    (v : View) (user_id : Uuid) (o : Option Uuid)
    → same_value
        (wallet_value (wallet_of_value v.wallets (nullable_uuid o)) "user_id")
        (Value.uuid_value user_id)
      ≡ true
    → IsOwnedBy v user_id o
owned_key v user_id none h = absurd (ground arith)
owned_key v user_id (some i) h = owned_wallet (wallet_by_id i v.wallets) user_id h

pub or-cases : (a b : Bool) → (a || b) ≡ true → (a ≡ true) ⊎ (b ≡ true)
or-cases true b h = inl refl
or-cases false b h = inr h

pub and-parts : (a b : Bool) → (a && b) ≡ true → (a ≡ true) × (b ≡ true)
and-parts true b h = (refl, h)
and-parts false b h = absurd (ground arith)

pub Involves-keeps :
    (v : View) (user_id : Uuid) (x : Transaction)
    → keeps Model.transactions v (Transactions.of_user user_id) x ≡ true
    → Involves v user_id x
Involves-keeps v user_id x h = elim (or-cases _ _ h) [
  | inl either ↦ elim (or-cases _ _ either) [
    | inl initiated ↦ inl ((==_iff x.initiated_by_user_id user_id).0 initiated)
    | inr source ↦ inr (inl (owned_key v user_id x.source_wallet_id source))
  ]
  | inr destination ↦ inr (inr (owned_key v user_id x.destination_wallet_id destination))
]

pub Involves-keeps_id :
    (v : View) (i user_id : Uuid) (x : Transaction)
    → keeps Model.transactions v (Transactions.of_user_by_id i user_id) x ≡ true
    → (x.id ≡ i) × Involves v user_id x
Involves-keeps_id v i user_id x h =
    let (same, visible) = and-parts (x.id == i) _ h in
    ((==_iff x.id i).0 same, Involves-keeps v user_id x visible)

pub IsOwnedBy-keeps_transaction :
    (v : View) (i user_id : Uuid) (e : LedgerEntry)
    → keeps Model.ledger_entries v (Ledgers.of_transaction i user_id) e ≡ true
    → (e.transaction_id ≡ i) × IsOwnedBy v user_id (some e.wallet_id)
IsOwnedBy-keeps_transaction v i user_id e h =
    let (same, owned) = and-parts (e.transaction_id == i) _ (and-parts _ _ h).1 in
    ((==_iff e.transaction_id i).0 same, owned_key v user_id (some e.wallet_id) owned)
