-- ===== src/Store/Validity.antt =====
-- The well-formedness of the wallets table: the primary key, and balances that an int64 holds and
-- that are not negative.
use go_hermes.Base.{Option, some, List, ◌≡◌, ◌≢◌, sym, ap, ◌∙◌, subst, All, arith}
use go_hermes.Base.Int.{
  ℤ, pos, ◌+ℤ◌, ◌-ℤ◌, ◌≤ℤ◌, +ℤ_parts, -ℤ_parts, eq_of_parts, pos_part, neg_part,
}
use go_hermes.Base.Int64.{IsInt64}
use go_hermes.Entity.{Wallet}
use go_hermes.Store.View.{View, wallet_by_id, put_wallet}
use go_hermes.Store.Wallets.{
  UniqueIds, put_wallet-UniqueIds, total, total-put_wallet, All-put_wallet, wallet_by_id-put_ne,
}

pub record IsSound (a : ℤ) : Type 0 where
  pub in_range : IsInt64 a
  pub nonneg : pos 0 ≤ℤ a

pub record IsValid (v : View) : Type 0 where
  pub unique : UniqueIds v.wallets
  pub sound : All (λ w. IsSound w.balance) v.wallets

pub IsValid-put :
    (v v' : View) (w : Wallet)
    → v'.wallets ≡ put_wallet w v.wallets
    → IsSound w.balance
    → IsValid v
    → IsValid v'
IsValid-put v v' w e p h = record {
  unique = subst UniqueIds (sym e) (put_wallet-UniqueIds w v.wallets h.unique);
  sound =
      subst (All (λ w. IsSound w.balance)) (sym e)
        (All-put_wallet (λ w. IsSound w.balance) w v.wallets p h.sound);
}

pub IsValid-same : (v v' : View) → v'.wallets ≡ v.wallets → IsValid v → IsValid v'
IsValid-same v v' e h = record {
  unique = subst UniqueIds (sym e) h.unique;
  sound = subst (All (λ w. IsSound w.balance)) (sym e) h.sound;
}

cancel :
    (before between after a b a' b' amount : ℤ)
    → between +ℤ a ≡ before +ℤ a'
    → after +ℤ b ≡ between +ℤ b'
    → a' ≡ a -ℤ amount
    → b' ≡ b +ℤ amount
    → after ≡ before
cancel before between after a b a' b' amount first second less more = eq_of_parts after before (
    omega (
      arith,
      +ℤ_parts between a,
      +ℤ_parts before a',
      +ℤ_parts after b,
      +ℤ_parts between b',
      +ℤ_parts b amount,
      -ℤ_parts a amount,
      ap pos_part first,
      ap neg_part first,
      ap pos_part second,
      ap neg_part second,
      ap pos_part less,
      ap neg_part less,
      ap pos_part more,
      ap neg_part more,
    ))

-- An amount that leaves one row and enters another stays in the sum.
pub total-put_wallet_twice :
    (a b a' b' : Wallet) (amount : ℤ) (ws : List Wallet)
    → a.id ≢ b.id
    → a'.id ≡ a.id
    → b'.id ≡ b.id
    → wallet_by_id a.id ws ≡ some a
    → wallet_by_id b.id ws ≡ some b
    → a'.balance ≡ a.balance -ℤ amount
    → b'.balance ≡ b.balance +ℤ amount
    → total (put_wallet b' (put_wallet a' ws)) ≡ total ws
total-put_wallet_twice a b a' b' amount ws differ id_a id_b found_a found_b less more =
    cancel _ _ _ _ _ _ _ amount
      (total-put_wallet a' ws a (ap (λ i. wallet_by_id i ws) id_a ∙ found_a))
      (total-put_wallet b' (put_wallet a' ws) b second) less more
  where
    second : wallet_by_id b'.id (put_wallet a' ws) ≡ some b
    second = rw id_b (wallet_by_id-put_ne b.id a' ws (λ p. differ (sym id_a ∙ p)) ∙ found_b)

grow :
    (before after a a' amount : ℤ)
    → after +ℤ a ≡ before +ℤ a'
    → a' ≡ a +ℤ amount
    → after ≡ before +ℤ amount
grow before after a a' amount step more = eq_of_parts after (before +ℤ amount) (
    omega (
      arith,
      +ℤ_parts after a,
      +ℤ_parts before a',
      +ℤ_parts a amount,
      +ℤ_parts before amount,
      ap pos_part step,
      ap neg_part step,
      ap pos_part more,
      ap neg_part more,
    ))

-- An amount that enters a row enters the sum.
pub total-put_wallet_once :
    (a a' : Wallet) (amount : ℤ) (ws : List Wallet)
    → a'.id ≡ a.id
    → wallet_by_id a.id ws ≡ some a
    → a'.balance ≡ a.balance +ℤ amount
    → total (put_wallet a' ws) ≡ total ws +ℤ amount
total-put_wallet_once a a' amount ws id_a found more =
    grow _ _ _ _ amount (total-put_wallet a' ws a (ap (λ i. wallet_by_id i ws) id_a ∙ found)) more

-- The row of an id is one.
pub some-eq {ℓ} : {A : Type ℓ} {o : Option A} {a b : A} → o ≡ some a → o ≡ some b → a ≡ b
some-eq p q = cc
