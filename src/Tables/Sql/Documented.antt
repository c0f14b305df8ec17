-- ===== src/Tables/Sql/Documented.antt =====
-- The reference gorm satisfies the hypotheses on gorm.
use go_hermes.Base.{
  ℕ, String, Bool, true, false, Option, none, some, [], ◌∷◌, ◌≡◌, ◌≢◌, refl, sym, ap, ◌∙◌, subst,
  arith, All, is_some, Bool-cases, inl, inr, ◌⊎◌, ◌++◌, find, length, ◌≤◌, if◌then◌else◌,
}
use mathlib.Core.List
use mathlib.Core.List.{Perm}
use go_hermes.Base.Int.{pos, ◌≤ℤ◌}
use go_hermes.AppError.{Error, Result, ok, err, pg}
use go_hermes.Entity.{Wallet, IdempotencyRecord}
use go_hermes.Gorm.Idempotency.{reserve_query}
use go_hermes.Gorm.Laws.{IsGorm}
use go_hermes.Gorm.Query.{Model, Row, Query, no_clauses}
use go_hermes.Gorm.Semantics.{table, keeps, rows_of, Inserted}
use go_hermes.Store.Laws.{SameWallet, SameRecord}
use go_hermes.Store.View.{
  View, record_by_key, set_wallets, put_wallet, add_record, add_transaction, add_entries, add_audit,
  add_delivery,
}
use go_hermes.Tables.{found, open_wallet, save_wallet}
use go_hermes.Tables.Lawful.{
  roll_back-ok, roll_back-err, found-ok, save_wallet-ok, same_wallet, same_transaction,
  same_delivery, not_there, ok_pair,
}
use go_hermes.Tables.Accounts.{open_wallet-ok, same_user}
use go_hermes.Tables.Worker.{ok_written}
use go_hermes.Tables.Sql.{sql, insert, insert_record, taken_key, one_row, found_rows, lockable}
use go_hermes.Tables.Sql.Rows.{
  All-page, All-select, All-select_of, cut-limit, lockable-IsFirst, IsFirst,
}

one_row-ok :
    {A : Type 0} (p : Result A × View) {a : A} {n : ℕ} {t : View}
    → one_row p ≡ (ok (a, n), t)
    → p ≡ (ok a, t)
one_row-ok (ok b, v) h = ground arith
one_row-ok (err e, v) h = absurd (ground arith)

one_row-err :
    {A : Type 0} (p : Result A × View) {e : Error} {t : View}
    → one_row p ≡ (err e, t)
    → p ≡ (err e, t)
one_row-err (ok b, v) h = absurd (ground arith)
one_row-err (err e, v) h = ground arith

-- What a statement that always adds its row returns.
one_added :
    {A : Type 0} {x x' : A} {n : ℕ} {v t : View}
    → ◌≡◌ {A = Result (A × ℕ) × View} (ok (x, 1), v) (ok (x', n), t)
    → (x' ≡ x) × (t ≡ v)
one_added h = (ground arith, ground arith)

same_record : (x x' : IdempotencyRecord) → x' ≡ x → SameRecord x x'
same_record x x' e = rw e

insert_record-new :
    (q : Query) (x x' : IdempotencyRecord) (n : ℕ) (v t : View)
    → insert_record q x v ≡ (ok (x', n), t)
    → ((record_by_key x.idempotency_key x.user_id x.endpoint v.idempotency ≡ none)
        × (x' ≡ x)
        × (n ≡ 1)
        × (t ≡ add_record v x))
      ⊎ (taken_key q.conflict_do_nothing x v ≡ (ok (x', n), t))
insert_record-new q x x' n v t h =
    elim (Bool-cases
      (is_some (record_by_key x.idempotency_key x.user_id x.endpoint v.idempotency))) [
        | inl taken ↦ inr (rw taken at h)
        | inr free ↦ inl (stored (not_there _ free) (rw free at h))
      ]
  where
    stored :
        record_by_key x.idempotency_key x.user_id x.endpoint v.idempotency ≡ none
        → ◌≡◌ {A = Result (IdempotencyRecord × ℕ) × View}
            (ok (x, 1), add_record v x)
            (ok (x', n), t)
        → (record_by_key x.idempotency_key x.user_id x.endpoint v.idempotency ≡ none)
          × (x' ≡ x)
          × (n ≡ 1)
          × (t ≡ add_record v x)
    stored free p = (free, (one_added p).0, ground arith, (one_added p).1)

record_inserted :
    (x x' : IdempotencyRecord) (v t : View)
    → record_by_key x.idempotency_key x.user_id x.endpoint v.idempotency ≡ none
    → x' ≡ x
    → t ≡ add_record v x
    → Inserted Model.idempotency_records v x x' t
record_inserted x x' v t free same added =
    (same_record x x' same, free, added ∙ ap (add_record v) (sym same))

refused_key :
    (x x' : IdempotencyRecord) (n : ℕ) (v t : View) → taken_key [] x v ≡ (ok (x', n), t) → ⊥
refused_key x x' n v t h = absurd (ground arith)

kept_key :
    (x x' : IdempotencyRecord) (n : ℕ) (v t : View)
    → taken_key reserve_query.conflict_do_nothing x v ≡ (ok (x', n), t)
    → (n ≡ 0) × (t ≡ v)
kept_key x x' n v t h = (ground arith, ground arith)

pub created :
    (k : Model) (x x' : Row k) (n : ℕ) (v t : View)
    → insert no_clauses k x v ≡ (ok (x', n), t)
    → Inserted k v x x' t
created Model.users x x' n v t h =
    let (same, kept) = one_added h in
    (same_user x x' same, kept ∙ ap (λ y. record v { users = v.users ++ y ∷ [] }) (sym same))
created Model.wallets x x' n v t h = open_wallet-ok x x' v t (one_row-ok (open_wallet x v) h)
created Model.transactions x x' n v t h =
    let (same, kept) = one_added h in
    (same_transaction x x' same, kept ∙ ap (add_transaction v) (sym same))
created Model.ledger_entries x x' n v t h =
    let (same, kept) = one_added h in (same, kept ∙ ap (λ y. add_entries v (y ∷ [])) (sym same))
created Model.idempotency_records x x' n v t h = elim (insert_record-new no_clauses x x' n v t h) [
  | inl (free, same, one, added) ↦ record_inserted x x' v t free same added
  | inr taken ↦ absurd (refused_key x x' n v t taken)
]
created Model.audit_logs x x' n v t h =
    let (same, kept) = one_added h in (same, kept ∙ ap (add_audit v) (sym same))
created Model.webhook_deliveries x x' n v t h =
    let (same, kept) = one_added h in
    (same_delivery x x' same, kept ∙ ap (add_delivery v) (sym same))

pub reserved :
    (x x' : IdempotencyRecord) (n : ℕ) (v t : View)
    → insert_record reserve_query x v ≡ (ok (x', n), t)
    → n ≡ 1
    → Inserted Model.idempotency_records v x x' t
reserved x x' n v t h one = elim (insert_record-new reserve_query x x' n v t h) [
  | inl (free, same, _, added) ↦ record_inserted x x' v t free same added
  | inr taken ↦ absurd (omega (arith, one, (kept_key x x' n v t taken).0))
]

pub not_reserved :
    (x x' : IdempotencyRecord) (n : ℕ) (v t : View)
    → insert_record reserve_query x v ≡ (ok (x', n), t)
    → n ≢ 1
    → t ≡ v
not_reserved x x' n v t h other = elim (insert_record-new reserve_query x x' n v t h) [
  | inl (_, _, one, _) ↦ absurd (other one)
  | inr taken ↦ (kept_key x x' n v t taken).1
]

wallet_refused :
    (b : Bool) (w : Wallet) (v v' t : View) (e : Error)
    → one_row (if b then (err (pg "23505"), v) else (ok w, v')) ≡ (err e, t)
    → t ≡ v
wallet_refused true w v v' t e h = ground arith
wallet_refused false w v v' t e h = absurd (ground arith)

record_refused :
    (b : Bool) (x : IdempotencyRecord) (v v' t : View) (e : Error)
    → ◌≡◌ {A = Result (IdempotencyRecord × ℕ) × View}
        (if b then taken_key [] x v else (ok (x, 1), v'))
        (err e, t)
    → t ≡ v
record_refused true x v v' t e h = ground arith
record_refused false x v v' t e h = absurd (ground arith)

pub not_created :
    (k : Model) (x : Row k) (v t : View) (e : Error) → insert no_clauses k x v ≡ (err e, t) → t ≡ v
not_created Model.users x v t e h = absurd (ground arith)
not_created Model.wallets x v t e h = wallet_refused _ x v _ t e h
not_created Model.transactions x v t e h = absurd (ground arith)
not_created Model.ledger_entries x v t e h = absurd (ground arith)
not_created Model.idempotency_records x v t e h = record_refused _ x v _ t e h
not_created Model.audit_logs x v t e h = absurd (ground arith)
not_created Model.webhook_deliveries x v t e h = absurd (ground arith)

pub saved :
    (w w' : Wallet) (v t : View)
    → save_wallet w v ≡ (ok w', t)
    → SameWallet w w' × (pos 0 ≤ℤ w.balance) × (t ≡ set_wallets v (put_wallet w' v.wallets))
saved w w' v t h =
    let (same, nonneg, stored) = save_wallet-ok w w' v t h in
    (
      same_wallet w w' same,
      nonneg,
      stored ∙ ap (λ x. set_wallets v (put_wallet x v.wallets)) (sym same),
    )

pub found_rows-keeps :
    (k : Model) (q : Query) (v : View) → All (λ x. keeps k v q x ≡ true) (found_rows k q v)
found_rows-keeps k q v =
    All-page _ q.limit q.offset _
      (All-select _ (keeps k v q) (lockable k q.locking (table k v)) (λ x h. h))

pub found_rows-IsFirst :
    (k : Model) (q : Query) (v : View) (strength : String)
    → q.locking ≡ some strength
    → All (IsFirst k (table k v)) (found_rows k q v)
found_rows-IsFirst k q v strength h = All-page _ q.limit q.offset _ (
    All-select_of _ (keeps k v q) (lockable k q.locking (table k v))
      (lockable-IsFirst k q.locking strength (table k v) h))

pub found_rows-all :
    (k : Model) (q : Query) (v : View)
    → q.offset ≡ none
    → q.limit ≡ none
    → q.locking ≡ none
    → Perm (found_rows k q v) (rows_of k v q)
found_rows-all k q v offset limit locking =
    subst (λ rows. Perm rows (rows_of k v q)) (rw (offset, limit, locking))
      (List.Perm.refl (rows_of k v q))

pub found-missing :
    {A : Type 0} (o : Option A) (v : View) {e : Error} {t : View}
    → found o v ≡ (err e, t)
    → o ≡ none
found-missing none v h = refl
found-missing (some a) v h = absurd (ground arith)

pub found-reads : {A : Type 0} (o : Option A) (v : View) → (found o v).1 ≡ v
found-reads none v = refl
found-reads (some a) v = refl

unfoldable pub sql-IsGorm : IsGorm sql
sql-IsGorm = record {
  view = λ v. v;
  commits = λ h A f v t a on e. (1, v, t, refl, roll_back-ok v (f 1 v) e, refl);
  rolls_back = λ h A f v t e on r. roll_back-err v (f 1 v) r;
  first_reads = λ h q k v. found-reads (find (keeps k v q) (table k v)) v;
  find_reads = λ h q k v. refl;
  count_reads = λ h q k v. refl;
  first_found = λ h q k v t x e. (found-ok (find (keeps k v q) (table k v)) v e).1;
  first_missing = λ h q k v t e r _. found-missing (find (keeps k v q) (table k v)) v r;
  rows_found = λ h q k v t xs e offset limit locking.
      subst (λ rows. Perm rows (rows_of k v q)) (sym (ok_pair e).0)
        (found_rows-all k q v offset limit locking);
  rows_kept = λ h q k v t xs e.
      subst (All (λ x. keeps k v q x ≡ true)) (sym (ok_pair e).0) (found_rows-keeps k q v);
  rows_limited = λ h q k v t xs n e limit.
      subst (λ rows. length rows ≤ n) (sym (ok_pair e).0) (cut-limit q.limit n _ limit);
  rows_locked = λ h q k v t xs strength e locking.
      subst (All (IsFirst k (table k v))) (sym (ok_pair e).0)
        (found_rows-IsFirst k q v strength locking);
  counted = λ h q k v t n e. (ok_pair e).0;
  created = λ h k x x' n v t e. created k x x' n v t e;
  many_created = λ h es es' v t e. (ok_pair e).1;
  reserved = λ h x x' n v t e. reserved x x' n v t e;
  not_reserved = λ h x x' n v t e. not_reserved x x' n v t e;
  not_created = λ h k x v t e r. not_created k x v t e r;
  wallet_saved = λ h w w' old v t present e. saved w w' v t e;
  delivery_saved = λ h d v. inr (d, refl, refl);
  delivery_written = λ h d d' v t e. ok_written d d' v t (ok_pair e);
  updated = λ h q sets v t x e. (ok_pair e).1;
}
