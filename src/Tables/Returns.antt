-- ===== src/Tables/Returns.antt =====
-- Calls on the reference tables that are known to end well.
use go_hermes.Base.{
  arith, Bool, true, false, Option, some, List, [], ◌∷◌, ◌≡◌, ap, ◌∙◌, if◌then◌else◌,
}
use go_hermes.Base.Int.{pos, ltb_ℤ}
use go_hermes.AppError.{pg, Error, Result, ok, err}
use go_hermes.Entity.{Uuid, Wallet}
use go_hermes.Store.{M, map_error, require, some_or, ◌>>=◌, >>=-step}
use go_hermes.Store.View.{View, wallet_by_id, put_wallet, set_wallets}
use go_hermes.Tables.{tables, save_wallet, roll_back, found, rows, with_row}
use go_hermes.TransactionUsecase.Common.{World, Outcome, finish}
use go_hermes.Types.{OperationResult}
use go_hermes.Webhook.Create.{noop}

-- A call that ends well on given tables.
abbrev pub Returns : {A : Type 0} → M View A → View → Type 0
Returns {A} m v = (a : A) × (t : View) × (m v ≡ (ok a, t))

pub >>=-Returns :
    {A B : Type 0} (m : M View A) (f : A → M View B) (v t : View) (a : A)
    → m v ≡ (ok a, t)
    → Returns (f a) t
    → Returns (m >>= f) v
>>=-Returns m f v t a e (b, t', e') = (b, t', >>=-step m f v t a e ∙ e')

pub require-true : (b : Bool) (e : Error) (v : View) → b ≡ true → require b e v ≡ (ok tt, v)
unfolding require
require-true b e v h = ap (λ c. require c e v) h

pub some_or-some :
    {A : Type 0} (o : Option A) (e : Error) (v : View) (a : A)
    → o ≡ some a
    → some_or o e v ≡ (ok a, v)
unfolding some_or
some_or-some o e v a h = ap (λ p. some_or p e v) h

pub save_wallet-fits :
    (w : Wallet) (v : View)
    → ltb_ℤ w.balance (pos 0) ≡ false
    → save_wallet w v ≡ (ok w, set_wallets v (put_wallet w v.wallets))
save_wallet-fits w v fits =
    ap (λ b. if b then (err (pg "23514"), v) else (ok w, set_wallets v (put_wallet w v.wallets)))
      fits

pub found-some : {A : Type 0} (o : Option A) (v : View) (a : A) → o ≡ some a → found o v ≡ (ok a, v)
found-some o v a h = ap (λ p. found p v) h

pub rows-one :
    (i : Uuid) (ws : List Wallet) (w : Wallet)
    → wallet_by_id i ws ≡ some w
    → rows (i ∷ []) ws ≡ w ∷ []
rows-one i ws w h = ap (λ o. with_row o []) h

pub map_error-Returns :
    {A : Type 0} (f : Error → Error) (m : M View A) (v : View)
    → Returns m v
    → Returns (map_error f m) v
unfolding map_error
map_error-Returns f m v (a, t, e) = (a, t, ground arith)

pub rolled-Returns :
    {A : Type 0} (m : M View A) (v : View)
    → Returns m v
    → Returns (tables.tx.within_transaction A m) v
rolled-Returns m v (a, t, e) = (a, t, ap (roll_back v) e)

pub finish-some :
    (q : List Uuid) (p : Result Outcome × View) (a : Outcome) (t : View)
    → p ≡ (ok a, t)
    → (res : OperationResult) × (w' : World View) × (finish noop q p ≡ (ok res, w'))
finish-some q p (res, o) t e = (res, _, ap (finish noop q) e)
