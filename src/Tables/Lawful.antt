-- ===== src/Tables/Lawful.antt =====
-- The reference tables satisfy the hypotheses on the database.
use go_hermes.Base.{
  Bool, true, false, Option, none, some, List, [], ◌∷◌, ◌≡◌, refl, sym, ◌∙◌, subst, arith, All, ap,
  is_some, Bool-cases, inl, inr,
}
use go_hermes.Base.Int.{pos, ◌≤ℤ◌, ltb_ℤ}
use go_hermes.AppError.{Error, Result, ok, err}
use go_hermes.Entity.{Uuid, Wallet, Transaction, IdempotencyRecord, WebhookDelivery}
use go_hermes.Store.View.{
  View, has_id, wallet_by_id, record_by_key, set_wallets, put_wallet, add_record, add_transaction,
  add_delivery,
}
use go_hermes.Store.Laws.{IsStore, SameWallet, SameTransaction, SameDelivery}
use go_hermes.Store.Wallets.{wallet_by_id-id}
use go_hermes.Tables.{tables, roll_back, found, with_row, rows, save_wallet, store_record}

pub roll_back-ok :
    {A : Type 0} (v : View) (p : Result A × View) {a : A} {t : View}
    → roll_back v p ≡ (ok a, t)
    → p ≡ (ok a, t)
roll_back-ok v (ok a, v') h = h
roll_back-ok v (err e, v') h = absurd (ground arith)

pub roll_back-err :
    {A : Type 0} (v : View) (p : Result A × View) {e : Error} {t : View}
    → roll_back v p ≡ (err e, t)
    → t ≡ v
roll_back-err v (ok a, v') h = absurd (ground arith)
roll_back-err v (err e, v') h = ground arith

pub found-ok :
    {A : Type 0} (o : Option A) (v : View) {a : A} {t : View}
    → found o v ≡ (ok a, t)
    → (t ≡ v) × (o ≡ some a)
found-ok none v h = absurd (ground arith)
found-ok (some a) v h = (ground arith, ground arith)

pub save_wallet-ok :
    (w w' : Wallet) (v t : View)
    → save_wallet w v ≡ (ok w', t)
    → (w' ≡ w) × (pos 0 ≤ℤ w.balance) × (t ≡ set_wallets v (put_wallet w v.wallets))
save_wallet-ok w w' v t h = elim (Bool-cases (ltb_ℤ w.balance (pos 0))) [
  | inl negative ↦ absurd (refused (rw negative at h))
  | inr fine ↦ stored (rw fine at h) fine
]
  where
    refused : {e : Error} → ◌≡◌ {A = Result Wallet × View} (err e, v) (ok w', t) → ⊥
    refused p = absurd (ground arith)

    stored :
        ◌≡◌ {A = Result Wallet × View} (ok w, set_wallets v (put_wallet w v.wallets)) (ok w', t)
        → ltb_ℤ w.balance (pos 0) ≡ false
        → (w' ≡ w) × (pos 0 ≤ℤ w.balance) × (t ≡ set_wallets v (put_wallet w v.wallets))
    stored p q = (cc, ground arith, cc)

pub not_there : {A : Type 0} (o : Option A) → is_some o ≡ false → o ≡ none
not_there none h = refl
not_there (some a) h = absurd (ground arith)

pub reserve_new :
    (x : IdempotencyRecord) (v t : View)
    → store_record x v ≡ (ok true, t)
    → (record_by_key x.idempotency_key x.user_id x.endpoint v.idempotency ≡ none)
      × (t ≡ add_record v x)
reserve_new x v t h =
    elim (Bool-cases
      (is_some (record_by_key x.idempotency_key x.user_id x.endpoint v.idempotency))) [
        | inl taken ↦ absurd (refused (rw taken at h))
        | inr free ↦ (not_there _ free, stored (rw free at h))
      ]
  where
    refused : ◌≡◌ {A = Result Bool × View} (ok false, v) (ok true, t) → ⊥
    refused p = absurd (ground arith)

    stored :
        ◌≡◌ {A = Result Bool × View} (ok true, add_record v x) (ok true, t) → t ≡ add_record v x
    stored p = cc

pub reserve_old : (x : IdempotencyRecord) (v t : View) → store_record x v ≡ (ok false, t) → t ≡ v
reserve_old x v t h =
    elim (Bool-cases
      (is_some (record_by_key x.idempotency_key x.user_id x.endpoint v.idempotency))) [
        | inl taken ↦ kept (rw taken at h)
        | inr free ↦ absurd (refused (rw free at h))
      ]
  where
    refused : ◌≡◌ {A = Result Bool × View} (ok true, add_record v x) (ok false, t) → ⊥
    refused p = absurd (ground arith)

    kept : ◌≡◌ {A = Result Bool × View} (ok false, v) (ok false, t) → t ≡ v
    kept p = cc

abbrev pub LockedRow : List Wallet → List Uuid → Wallet → Type 0
LockedRow ws is w = (wallet_by_id w.id ws ≡ some w) × (has_id w.id is ≡ true)

All-weaken :
    (ws : List Wallet) (i : Uuid) (is : List Uuid) (xs : List Wallet)
    → All (LockedRow ws is) xs
    → All (LockedRow ws (i ∷ is)) xs
All-weaken ws i is [] h = tt
All-weaken ws i is (x ∷ xs) h = ((h.0.0, ground arith), All-weaken ws i is xs h.1)

with_row-locked :
    (ws : List Wallet) (i : Uuid) (is : List Uuid) (o : Option Wallet) (xs : List Wallet)
    → wallet_by_id i ws ≡ o
    → All (LockedRow ws (i ∷ is)) xs
    → All (LockedRow ws (i ∷ is)) (with_row o xs)
with_row-locked ws i is none xs e h = h
with_row-locked ws i is (some w) xs e h =
    let same = wallet_by_id-id i ws w e in ((ap (λ j. wallet_by_id j ws) same ∙ e, ground arith), h)

rows-locked : (is : List Uuid) (ws : List Wallet) → All (LockedRow ws is) (rows is ws)
rows-locked [] ws = tt
rows-locked (i ∷ is) ws =
    with_row-locked ws i is (wallet_by_id i ws) (rows is ws) refl
      (All-weaken ws i is (rows is ws) (rows-locked is ws))

pub ok_pair :
    {A : Type 0} {a b : A} {v t : View}
    → ◌≡◌ {A = Result A × View} (ok a, v) (ok b, t)
    → (b ≡ a) × (t ≡ v)
ok_pair h = (ground arith, ground arith)

pub locked-ok :
    (is : List Uuid) (v t : View) (ws : List Wallet)
    → tables.wallets.lock_by_ids is v ≡ (ok ws, t)
    → (t ≡ v) × All (LockedRow v.wallets is) ws
locked-ok is v t ws h =
    let (same, kept) = ok_pair h in
    (kept, subst (All (LockedRow v.wallets is)) (sym same) (rows-locked is v.wallets))

pub same_wallet : (w w' : Wallet) → w' ≡ w → SameWallet w w'
same_wallet w w' e = rw e

pub same_transaction : (x x' : Transaction) → x' ≡ x → SameTransaction x x'
same_transaction x x' e = rw e

pub same_delivery : (x x' : WebhookDelivery) → x' ≡ x → SameDelivery x x'
same_delivery x x' e = rw e

abbrev pub tables-IsStore : IsStore tables
tables-IsStore = record {
  view = λ v. v;
  commits = λ A f v t a calls h. (v, t, refl, roll_back-ok v (f v) h, refl);
  rolls_back = λ A f v t e calls h. roll_back-err v (f v) h;
  wallet_found = λ u v t w h. found-ok _ v h;
  wallets_locked = λ is v t ws h. locked-ok is v t ws h;
  wallet_updated = λ w w' old v t present h.
      let (same, nonneg, stored) = save_wallet-ok w w' v t h in
      (
        same_wallet w w' same,
        nonneg,
        stored ∙ ap (λ x. set_wallets v (put_wallet x v.wallets)) (sym same),
      );
  transaction_created = λ x x' v t h.
      let (same, stored) = ok_pair h in
      (same_transaction x x' same, stored ∙ ap (add_transaction v) (sym same));
  entries_created = λ es v t x h. (ok_pair h).1;
  audit_created = λ a v t x h. (ok_pair h).1;
  record_reserved =
      λ x v t h. let (free, stored) = reserve_new x v t h in (free, (x, refl, stored));
  record_present = λ x v t h. reserve_old x v t h;
  record_found = λ key u endpoint v t x h. found-ok _ v h;
  record_completed = λ i status body v t x h. (ok_pair h).1;
  delivery_created = λ d d' v t h.
      let (same, stored) = ok_pair h in
      (same_delivery d d' same, stored ∙ ap (add_delivery v) (sym same));
}
