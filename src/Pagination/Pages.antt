-- ===== src/Pagination/Pages.antt =====
-- What the page count and the offsets of internal/pkg/pagination/pagination.go amount to.
use native.Mathlib.Nat.{mul-le-mul, mul-le-mul_right}
use go_hermes.Base.{
  ℕ, zero, suc, leb, Bool-cases, inl, inr, ◌≡◌, ◌↔◌, ◌+◌, ◌-◌, ◌*◌, ◌^◌, ◌≤◌, ◌<◌, arith, ◌∙◌, ap,
  sym, refl, subst,
}
use go_hermes.Base.Int.{ℤ, pos, negsuc, ◌≤ℤ◌, ◌-ℤ◌, ◌*ℤ◌}
use go_hermes.Base.Int64.{sub64, mul64, wrap64, wrap64_id}
use go_hermes.Pagination.{Params, new_params, offset, total_pages}

bounded : (a : ℤ) → pos 1 ≤ℤ a → a ≤ℤ pos 100 → (n : ℕ) × (a ≡ pos (suc n)) × (suc n ≤ 100)
bounded (pos n) low high = (n - 1, ground arith, ground arith)
bounded (negsuc n) low high = absurd (omega arith)

natural : (a : ℤ) → pos 1 ≤ℤ a → (n : ℕ) × (a ≡ pos (suc n))
natural (pos n) low = (n - 1, ground arith)
natural (negsuc n) low = absurd (omega arith)

page_low : (page limit : ℤ) → pos 1 ≤ℤ (new_params page limit).page
unfolding new_params
page_low page limit = ground arith

limit_low : (page limit : ℤ) → pos 1 ≤ℤ (new_params page limit).limit
unfolding new_params
limit_low page limit = ground arith

limit_high : (page limit : ℤ) → (new_params page limit).limit ≤ℤ pos 100
unfolding new_params
limit_high page limit = ground arith

small : (n : ℕ) → n < 2 ^ 63 → wrap64 (pos n) ≡ pos n
small n h = wrap64_id (pos n) (record { low = omega arith; high = omega arith })

minus_one : (k : ℕ) → pos (suc k) -ℤ pos 1 ≡ pos k
unfolding ◌-ℤ◌
minus_one k = ground arith

product : (k l : ℕ) → pos k *ℤ pos l ≡ pos (k * l)
unfolding ◌*ℤ◌
product k l = ground arith

offset_of :
    (k l : ℕ)
    → k ≤ 2 ^ 56
    → suc l ≤ 100
    → offset (record { page = pos (suc k); limit = pos (suc l) }) ≡ pos (k * suc l)
unfolding offset sub64 mul64
offset_of k l hk hl =
    ap (λ a. wrap64 (wrap64 a *ℤ pos (suc l))) (minus_one k)
    ∙ (ap (λ a. wrap64 (a *ℤ pos (suc l))) (small k (omega arith))
        ∙ (ap wrap64 (product k (suc l)) ∙ small (k * suc l) (omega (arith, mul-le-mul hk hl))))

-- A quotient of float64s, rounded up, is exact for counts this small.
abbrev pub IsCeil : (ℤ → ℤ → ℤ) → Type 0
IsCeil ceil_quotient =
    (n l : ℕ)
    → n ≤ 2 ^ 45
    → suc l ≤ 100
    → (c : ℕ) × (ceil_quotient (pos n) (pos (suc l)) ≡ pos c)
      × (n ≤ c * suc l)
      × (c * suc l < n + suc l)

-- Page k + 1 of the pages is one of the c pages that hold n rows exactly when it starts before them.
before_end : (k l n c : ℕ) → n ≤ c * suc l → c * suc l < n + suc l → (suc k ≤ c) ↔ (k * suc l < n)
before_end k l n c low high =
    (λ h. omega (arith, mul-le-mul_right (suc l) h, suc_times k (suc l)), λ h. by_cases h)
  where
    suc_times : (a b : ℕ) → suc a * b ≡ a * b + b
    suc_times a b = omega arith

    by_cases : k * suc l < n → suc k ≤ c
    by_cases h = elim (Bool-cases (leb c k)) [
      | inl below ↦
          absurd (omega (arith, mul-le-mul_right {m = c} {n = k} (suc l) (ground arith), h, low))
      | inr above ↦ ground arith
    ]

nonempty :
    (f : ℤ → ℤ → ℤ) (m : ℕ) (p : Params) → total_pages f (pos (suc m)) p ≡ f (pos (suc m)) p.limit
unfolding total_pages
nonempty f m p = ground arith

empty : (f : ℤ → ℤ → ℤ) (p : Params) → total_pages f (pos 0) p ≡ pos 0
unfolding total_pages
empty f p = refl

total_pages_of :
    (f : ℤ → ℤ → ℤ)
    → IsCeil f
    → (k l n : ℕ) → n ≤ 2 ^ 45
    → suc l ≤ 100
    → (pos (suc k) ≤ℤ total_pages f (pos n) (record { page = pos (suc k); limit = pos (suc l) }))
      ↔ (k * suc l < n)
total_pages_of f exact k l zero hn hl =
    subst (λ t. (pos (suc k) ≤ℤ t) ↔ (k * suc l < 0)) (sym (empty f _))
      (λ h. absurd (omega arith), λ h. absurd (omega arith))
total_pages_of f exact k l (suc m) hn hl =
    let (c, is_c, low, high) = exact (suc m) l hn hl in
    subst (λ t. (pos (suc k) ≤ℤ t) ↔ (k * suc l < suc m)) (sym (nonempty f m _ ∙ is_c))
      (ground (arith, before_end k l (suc m) c low high))

page_high : (page limit : ℤ) → page ≤ℤ pos (2 ^ 56) → (new_params page limit).page ≤ℤ pos (2 ^ 56)
unfolding new_params
page_high page limit h = ground arith

below : (k : ℕ) → pos (suc k) ≤ℤ pos (2 ^ 56) → k ≤ 2 ^ 56
below k h = omega arith

paged :
    (f : ℤ → ℤ → ℤ) (p : Params) (n : ℕ)
    → IsCeil f
    → n ≤ 2 ^ 45
    → pos 1 ≤ℤ p.page
    → p.page ≤ℤ pos (2 ^ 56)
    → pos 1 ≤ℤ p.limit
    → p.limit ≤ℤ pos 100
    → (m : ℕ) × (offset p ≡ pos m) × ((p.page ≤ℤ total_pages f (pos n) p) ↔ (m < n))
paged f p n exact hn low high limit_low limit_high =
    let (k, is_k) = natural p.page low in
    let (l, is_l, hl) = bounded p.limit limit_low limit_high in
    let same : record { page = pos (suc k); limit = pos (suc l) } ≡ p = rw (is_k, is_l) in
    subst (λ p. (m : ℕ) × (offset p ≡ pos m) × ((p.page ≤ℤ total_pages f (pos n) p) ↔ (m < n))) same
      (
        k * suc l,
        offset_of k l (below k (subst (λ a. a ≤ℤ pos (2 ^ 56)) is_k high)) hl,
        total_pages_of f exact k l n hn hl,
      )

-- With New's page and limit, a page of at most 2 ^ 56 and at most 2 ^ 45 rows, the offset does not
-- overflow, and the page is one of the pages that Meta counts exactly when its offset comes before
-- the end of the rows.
pub page_counted :
    (ceil_quotient : ℤ → ℤ → ℤ) (page limit : ℤ) (n : ℕ)
    → IsCeil ceil_quotient
    → page ≤ℤ pos (2 ^ 56)
    → n ≤ 2 ^ 45
    → (m : ℕ) × (offset (new_params page limit) ≡ pos m)
      × (((new_params page limit).page ≤ℤ total_pages ceil_quotient (pos n) (new_params page limit))
          ↔ (m < n))
page_counted f page limit n exact small_page hn =
    paged f (new_params page limit) n exact hn (page_low page limit)
      (page_high page limit small_page) (limit_low page limit) (limit_high page limit)
