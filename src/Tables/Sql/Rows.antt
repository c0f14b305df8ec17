-- ===== src/Tables/Sql/Rows.antt =====
-- What pages and first rows of a list keep.
use go_hermes.Base.{
  ℕ, zero, suc, Bool, true, Option, none, some, List, [], ◌∷◌, ◌≡◌, arith, ◌==◌, not, All, select,
  String, find, take, drop, length, length-take, ◌≤◌, if-has,
}
use go_hermes.Base.Int.{ℤ, pos, negsuc}
use go_hermes.Gorm.Query.{Model, Row}
use go_hermes.Gorm.Semantics.{primary_key}
use go_hermes.Tables.Sql.{firsts, cut, lockable}

module _ {ℓ κ} {A : Type ℓ} (P : A → Type κ) where
  pub All-select_of : (p : A → Bool) (xs : List A) → All P xs → All P (select p xs)
  All-select_of p [] h = tt
  All-select_of p (x ∷ xs) h =
      if-has (All P) (p x) (λ yes. (h.0, All-select_of p xs h.1)) (λ no. All-select_of p xs h.1)

  pub All-select : (p : A → Bool) (xs : List A) → ((x : A) → p x ≡ true → P x) → All P (select p xs)
  All-select p [] f = tt
  All-select p (x ∷ xs) f =
      if-has (All P) (p x) (λ yes. (f x yes, All-select p xs f)) (λ no. All-select p xs f)

  All-take : (n : ℕ) (xs : List A) → All P xs → All P (take n xs)
  All-take zero xs h = tt
  All-take (suc n) [] h = tt
  All-take (suc n) (x ∷ xs) h = (h.0, All-take n xs h.1)

  All-drop : (n : ℕ) (xs : List A) → All P xs → All P (drop n xs)
  All-drop zero xs h = h
  All-drop (suc n) [] h = tt
  All-drop (suc n) (x ∷ xs) h = All-drop n xs h.1

  All-cut-take : (o : Option ℤ) (xs : List A) → All P xs → All P (cut take o xs)
  All-cut-take none xs h = h
  All-cut-take (some (pos n)) xs h = All-take n xs h
  All-cut-take (some (negsuc n)) xs h = h

  All-cut-drop : (o : Option ℤ) (xs : List A) → All P xs → All P (cut drop o xs)
  All-cut-drop none xs h = h
  All-cut-drop (some (pos n)) xs h = All-drop n xs h
  All-cut-drop (some (negsuc n)) xs h = h

  pub All-page :
      (limit offset : Option ℤ) (xs : List A)
      → All P xs
      → All P (cut take limit (cut drop offset xs))
  All-page limit offset xs h = All-cut-take limit (cut drop offset xs) (All-cut-drop offset xs h)

pub cut-limit :
    {A : Type 0} (o : Option ℤ) (n : ℕ) (xs : List A)
    → o ≡ some (pos n)
    → length (cut take o xs) ≤ n
cut-limit none n xs h = absurd (ground arith)
cut-limit (some (pos m)) n xs h = ground (arith, length-take m xs)
cut-limit (some (negsuc m)) n xs h = absurd (ground arith)

module _ (k : Model) where
  -- A row is the first of its primary key.
  abbrev pub IsFirst : List (Row k) → Row k → Type 0
  IsFirst xs x = find (λ y. primary_key k y == primary_key k x) xs ≡ some x

  later_firsts :
      (x : Row k) (xs ys : List (Row k))
      → All (IsFirst xs) ys
      → All (IsFirst (x ∷ xs)) (select (λ y. not (primary_key k x == primary_key k y)) ys)
  later_firsts x xs [] h = tt
  later_firsts x xs (y ∷ ys) h =
      if-has (All (IsFirst (x ∷ xs))) (not (primary_key k x == primary_key k y))
        (λ differ. (ground (arith, differ, h.0), later_firsts x xs ys h.1))
        (λ same. later_firsts x xs ys h.1)

  pub firsts-IsFirst : (xs : List (Row k)) → All (IsFirst xs) (firsts k xs)
  firsts-IsFirst [] = tt
  firsts-IsFirst (x ∷ xs) = (ground arith, later_firsts x xs (firsts k xs) (firsts-IsFirst xs))

  pub lockable-IsFirst :
      (o : Option String) (strength : String) (xs : List (Row k))
      → o ≡ some strength
      → All (IsFirst xs) (lockable k o xs)
  lockable-IsFirst none strength xs h = absurd (ground arith)
  lockable-IsFirst (some s) strength xs h = firsts-IsFirst xs
