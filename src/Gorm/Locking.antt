-- ===== src/Gorm/Locking.antt =====
-- LockByIDs of internal/repository/gorm.go: what the sorted ids are, whatever the order of the ids.
use go_hermes.Base.{true, false, ◌≡◌, refl, sym, ap, ◌∙◌, List, [], ◌∷◌, arith, map}
use mathlib.Core.List.{Perm, Permᴰ}
use mathlib.Core.Logic.{∥∥₁_elim}
use go_hermes.Entity.{Uuid}
use go_hermes.UuidLib.{UuidLib}
use go_hermes.Gorm.Query.{Value, Model}
use go_hermes.Gorm.Semantics.{same_as_one}
use go_hermes.Gorm.Session.{Gorm, with_db}
use go_hermes.Gorm.Wallets.{insert_id, sort_ids, lock_query, lock_by_ids}
use go_hermes.Store.View.{has_id}

-- Go's `<` on the texts of two UUIDs, which are distinct for distinct UUIDs: a strict total order.
pub record IsTextOrder (u : UuidLib) : Type 0 where
  pub trans : (i j k : Uuid) → u.text_lt i j ≡ true → u.text_lt j k ≡ true → u.text_lt i k ≡ true
  pub irrefl : (i : Uuid) → u.text_lt i i ≡ false
  pub total : (i j : Uuid) → u.text_lt i j ≡ false → u.text_lt j i ≡ false → i ≡ j

module _ (u : UuidLib) where
  has_id-insert : (i j : Uuid) (js : List Uuid) → has_id i (insert_id u j js) ≡ has_id i (j ∷ js)
  unfolding insert_id
  has_id-insert i j [] = refl
  has_id-insert i j (k ∷ js) = ground (arith, has_id-insert i j js)

  has_id-sort : (i : Uuid) (is : List Uuid) → has_id i (sort_ids u is) ≡ has_id i is
  unfolding sort_ids
  has_id-sort i [] = refl
  has_id-sort i (j ∷ js) = ground (arith, has_id-insert i j (sort_ids u js), has_id-sort i js)

  same_as_one-has_id :
      (i : Uuid) (is : List Uuid)
      → same_as_one (Value.uuid_value i) (map Value.uuid_value is) ≡ has_id i is
  same_as_one-has_id i [] = refl
  same_as_one-has_id i (j ∷ js) = ground (arith, same_as_one-has_id i js)

  -- `id IN ?` with the sorted ids keeps the rows of the ids.
  pub one_of_sorted :
      (i : Uuid) (is : List Uuid)
      → same_as_one (Value.uuid_value i) (map Value.uuid_value (sort_ids u is)) ≡ has_id i is
  one_of_sorted i is = same_as_one-has_id i (sort_ids u is) ∙ has_id-sort i is

  module _ (o : IsTextOrder u) where
    insert_comm :
        (i j : Uuid) (ks : List Uuid)
        → insert_id u i (insert_id u j ks) ≡ insert_id u j (insert_id u i ks)
    unfolding insert_id
    insert_comm i j [] = ground (arith, o.total i j, o.trans i j i, o.irrefl i)
    insert_comm i j (k ∷ ks) = ground (
      arith,
      insert_comm i j ks,
      o.total i j,
      o.total i k,
      o.total j k,
      o.trans i j i,
      o.trans k i j,
      o.trans k j i,
      o.trans i k j,
      o.trans j k i,
      o.trans i j k,
      o.trans j i k,
      o.irrefl i,
    )

    sort_perm : {is js : List Uuid} → Permᴰ is js → sort_ids u is ≡ sort_ids u js
    unfolding sort_ids
    sort_perm Permᴰ.nil = refl
    sort_perm (Permᴰ.cons {b = j} e d) = rw (e, sort_perm d)
    sort_perm (Permᴰ.swap {a = i} {b = j} {l = ks} p q) =
        rw (sym p, sym q, insert_comm i j (sort_ids u ks))
    sort_perm (Permᴰ.trans d d') = sort_perm d ∙ sort_perm d'

    -- LockByIDs runs the same statement, with the ids in the same order, for every permutation of its
    -- ids.
    pub lock_by_ids-Perm :
        (g : Gorm) (db : g.Handle) (is js : List Uuid)
        → Perm is js
        → lock_by_ids g u db is ≡ lock_by_ids g u db js
    unfolding lock_by_ids
    lock_by_ids-Perm g db is js p =
        ap (λ ks. with_db g db (λ h. g.find h (lock_query ks) Model.wallets))
          (∥∥₁_elim p (hlevel) sort_perm)
