-- ===== src/Store/Wallets.antt =====
-- Laws of the wallets table: what an update of one row does to lookups, to the sum of the
-- balances and to a predicate of all rows.
use go_hermes.Base.{none, some, List, [], ◌∷◌, ◌≡◌, ◌≢◌, refl, arith, All}
use go_hermes.Base.Int.{ℤ, pos, ◌+ℤ◌, int_laws}
use go_hermes.Entity.{Uuid, Wallet}
use go_hermes.Store.View.{wallet_by_id, wallet_of_user, put_wallet}

pub wallet_by_id-id :
    (i : Uuid) (ws : List Wallet) (w : Wallet) → wallet_by_id i ws ≡ some w → w.id ≡ i
wallet_by_id-id i [] w h = absurd (ground arith)
wallet_by_id-id i (x ∷ ws) w h = ground (arith, wallet_by_id-id i ws w)

pub wallet_by_id-put_ne :
    (j : Uuid) (w : Wallet) (ws : List Wallet)
    → w.id ≢ j
    → wallet_by_id j (put_wallet w ws) ≡ wallet_by_id j ws
wallet_by_id-put_ne j w [] h = refl
wallet_by_id-put_ne j w (x ∷ ws) h = ground (arith, wallet_by_id-put_ne j w ws h)

pub wallet_by_id-put_self :
    (w : Wallet) (ws : List Wallet) (old : Wallet)
    → wallet_by_id w.id ws ≡ some old
    → wallet_by_id w.id (put_wallet w ws) ≡ some w
wallet_by_id-put_self w [] old h = absurd (ground arith)
wallet_by_id-put_self w (x ∷ ws) old h = ground (arith, wallet_by_id-put_self w ws old)

-- The primary key of the wallets.
abbrev pub UniqueIds : List Wallet → Type 0
UniqueIds [] = Unit
UniqueIds (w ∷ ws) = (wallet_by_id w.id ws ≡ none) × UniqueIds ws

pub put_wallet-UniqueIds :
    (w : Wallet) (ws : List Wallet) → UniqueIds ws → UniqueIds (put_wallet w ws)
put_wallet-UniqueIds w [] h = tt
put_wallet-UniqueIds w (x ∷ ws) h =
    ground (arith, put_wallet-UniqueIds w ws h.1, wallet_by_id-put_ne x.id w ws)

-- A row found by its user is the row of its id.
pub wallet_of_user-by_id :
    (u : Uuid) (ws : List Wallet) (w : Wallet)
    → UniqueIds ws
    → wallet_of_user u ws ≡ some w
    → wallet_by_id w.id ws ≡ some w
wallet_of_user-by_id u [] w h e = absurd (ground arith)
wallet_of_user-by_id u (x ∷ ws) w h e = ground (arith, wallet_of_user-by_id u ws w h.1)

-- The money in the system.
unfoldable pub total : List Wallet → ℤ
total [] = pos 0
total (w ∷ ws) = w.balance +ℤ total ws

pub total-put_wallet :
    (w : Wallet) (ws : List Wallet) (old : Wallet)
    → wallet_by_id w.id ws ≡ some old
    → total (put_wallet w ws) +ℤ old.balance ≡ total ws +ℤ w.balance
unfolding total
total-put_wallet w [] old h = absurd (ground arith)
total-put_wallet w (x ∷ ws) old h = grind (int_laws, total-put_wallet w ws old)

pub All-put_wallet {κ} :
    (P : Wallet → Type κ) (w : Wallet) (ws : List Wallet) → P w → All P ws → All P (put_wallet w ws)
All-put_wallet P w [] p h = tt
All-put_wallet P w (x ∷ ws) p h = ground (arith, All-put_wallet P w ws p h.1)

pub All-wallet_by_id {κ} :
    (P : Wallet → Type κ) (i : Uuid) (ws : List Wallet) (w : Wallet)
    → All P ws
    → wallet_by_id i ws ≡ some w
    → P w
All-wallet_by_id P i [] w h e = absurd (ground arith)
All-wallet_by_id P i (x ∷ ws) w h e = ground (arith, All-wallet_by_id P i ws w h.1)
