-- ===== src/Store/Monad.antt =====
-- A call that reads and writes the database and may fail: Go's `(T, error)` after a `context`.
use go_hermes.Base.{
  Bool, true, false, Option, none, some, ◌≡◌, ◌⊎◌, inl, inr, refl, sym, ap, ◌∙◌, arith,
  if◌then◌else◌,
}
use go_hermes.AppError.{Error, Result, ok, err}

abbrev pub M : Type 0 → Type 0 → Type 0
M Db A = Db → Result A × Db

-- What follows a call, by how it ended: `if err != nil { return err }`.
pub continue : {Db A B : Type 0} → Result A × Db → (A → M Db B) → Result B × Db
continue (ok a, s) f = f a s
continue (err e, s) f = (err e, s)

infixl 5 ◌>>=◌ ◌>>◌
unfoldable pub ◌>>=◌ : {Db A B : Type 0} → M Db A → (A → M Db B) → M Db B
unfolding continue
◌>>=◌ m f s = continue (m s) f

abbrev pub ◌>>◌ : {Db A B : Type 0} → M Db A → M Db B → M Db B
m >> k = m >>= λ _. k

abbrev pub pure : {Db A : Type 0} → A → M Db A
pure a s = (ok a, s)

-- `if !test { return e }`
unfoldable pub require : {Db : Type 0} → Bool → Error → M Db (Unit {0})
require true e s = (ok tt, s)
require false e s = (err e, s)

-- `if p == nil { return e }`
unfoldable pub some_or : {Db A : Type 0} → Option A → Error → M Db A
some_or none e s = (err e, s)
some_or (some a) e s = (ok a, s)

-- The error of a call, put through a function: `if err != nil { return f(err) }`.
unfoldable pub map_error : {Db A : Type 0} → (Error → Error) → M Db A → M Db A
map_error f m s = let (r, t) = m s in elim r [ ok a ↦ (ok a, t) | err e ↦ (err (f e), t) ]

continue-ok :
    {Db A B : Type 0} (p : Result A × Db) (f : A → M Db B) {b : B} {t : Db}
    → continue p f ≡ (ok b, t)
    → (a : A) × (u : Db) × (p ≡ (ok a, u)) × (f a u ≡ (ok b, t))
unfolding continue
continue-ok (ok a, s) f h = (a, s, refl, h)
continue-ok (err e, s) f h = absurd (ground arith)

-- A chain that ends well had a first call that ended well.
pub >>=-ok :
    {Db A B : Type 0} (m : M Db A) (f : A → M Db B) (s : Db) {b : B} {t : Db}
    → (m >>= f) s ≡ (ok b, t)
    → (a : A) × (u : Db) × (m s ≡ (ok a, u)) × (f a u ≡ (ok b, t))
unfolding ◌>>=◌
>>=-ok m f s h = continue-ok (m s) f h

-- What holds of the state after each end of the first call, and after what follows, holds at the end.
continue-leaves :
    {Db A B : Type 0} (P : Db → Type 0) (p : Result A × Db) (f : A → M Db B)
    → ((a : A) (t : Db) → p ≡ (ok a, t) → P (f a t).1)
    → ((e : Error) (t : Db) → p ≡ (err e, t) → P t)
    → P (continue p f).1
unfolding continue
continue-leaves P (ok a, t) f well badly = well a t refl
continue-leaves P (err e, t) f well badly = badly e t refl

pub >>=-leaves :
    {Db A B : Type 0} (P : Db → Type 0) (m : M Db A) (f : A → M Db B) (s : Db)
    → ((a : A) (t : Db) → m s ≡ (ok a, t) → P (f a t).1)
    → ((e : Error) (t : Db) → m s ≡ (err e, t) → P t)
    → P ((m >>= f) s).1
unfolding ◌>>=◌
>>=-leaves P m f s well badly = continue-leaves P (m s) f well badly

-- The chain of a call that is known to have ended well.
pub >>=-step :
    {Db A B : Type 0} (m : M Db A) (f : A → M Db B) (s t : Db) (a : A)
    → m s ≡ (ok a, t)
    → (m >>= f) s ≡ f a t
unfolding ◌>>=◌ continue
>>=-step m f s t a e = ap (λ p. continue p f) e

-- The chain of a call that is known to have failed.
pub >>=-stops :
    {Db A B : Type 0} (m : M Db A) (f : A → M Db B) (s t : Db) (e : Error)
    → m s ≡ (err e, t)
    → (m >>= f) s ≡ (err e, t)
unfolding ◌>>=◌ continue
>>=-stops m f s t e p = ap (λ q. continue q f) p

pub require-ok :
    {Db : Type 0} (b : Bool) (e : Error) (s : Db) {t : Db} {x : Unit {0}}
    → require b e s ≡ (ok x, t)
    → (b ≡ true) × (t ≡ s)
unfolding require
require-ok true e s h = (refl, ground arith)
require-ok false e s h = absurd (ground arith)

pub some_or-ok :
    {Db A : Type 0} (o : Option A) (e : Error) (s : Db) {t : Db} {a : A}
    → some_or o e s ≡ (ok a, t)
    → (o ≡ some a) × (t ≡ s)
unfolding some_or
some_or-ok none e s h = absurd (ground arith)
some_or-ok (some b) e s h = (ground arith, ground arith)

pub pure-ok : {Db A : Type 0} {a b : A} {s t : Db} → pure a s ≡ (ok b, t) → (b ≡ a) × (t ≡ s)
pure-ok h = (ground arith, ground arith)

pub pure-not_err :
    {Db A : Type 0} {a : A} {e : Error} {s t : Db}
    → ◌≡◌ {A = Result A × Db} (ok a, s) (err e, t)
    → ⊥
pure-not_err h = absurd (ground arith)

continue-err :
    {Db A B : Type 0} (p : Result A × Db) (f : A → M Db B) {e : Error} {t : Db}
    → continue p f ≡ (err e, t)
    → (p ≡ (err e, t)) ⊎ ((a : A) × (u : Db) × (p ≡ (ok a, u)) × (f a u ≡ (err e, t)))
unfolding continue
continue-err (ok a, s) f h = inr (a, s, refl, h)
continue-err (err e, s) f h = inl (ground arith)

-- A chain that fails failed at its first call or after it.
pub >>=-err :
    {Db A B : Type 0} (m : M Db A) (f : A → M Db B) (s : Db) {e : Error} {t : Db}
    → (m >>= f) s ≡ (err e, t)
    → (m s ≡ (err e, t)) ⊎ ((a : A) × (u : Db) × (m s ≡ (ok a, u)) × (f a u ≡ (err e, t)))
unfolding ◌>>=◌
>>=-err m f s h = continue-err (m s) f h

pub require-err :
    {Db : Type 0} (b : Bool) (e : Error) (s : Db) {t : Db} {e' : Error}
    → require b e s ≡ (err e', t)
    → (t ≡ s) × (e' ≡ e)
unfolding require
require-err true e s h = absurd (ground arith)
require-err false e s h = (ground arith, ground arith)

pub some_or-err :
    {Db A : Type 0} (o : Option A) (e : Error) (s : Db) {t : Db} {e' : Error}
    → some_or o e s ≡ (err e', t)
    → (t ≡ s) × (e' ≡ e)
unfolding some_or
some_or-err none e s h = (ground arith, ground arith)
some_or-err (some a) e s h = absurd (ground arith)

mapped : {Db A : Type 0} → (Error → Error) → Result A × Db → Result A × Db
mapped f (ok a, t) = (ok a, t)
mapped f (err e, t) = (err (f e), t)

map_error-mapped :
    {Db A : Type 0} (f : Error → Error) (m : M Db A) (s : Db) → map_error f m s ≡ mapped f (m s)
unfolding map_error mapped
map_error-mapped f m s = ground arith

mapped-ok :
    {Db A : Type 0} (f : Error → Error) (p : Result A × Db) {a : A} {t : Db}
    → mapped f p ≡ (ok a, t)
    → p ≡ (ok a, t)
unfolding mapped
mapped-ok f (ok a, s) h = h
mapped-ok f (err e, s) h = absurd (ground arith)

mapped-err :
    {Db A : Type 0} (f : Error → Error) (p : Result A × Db) {e : Error} {t : Db}
    → mapped f p ≡ (err e, t)
    → (e' : Error) × (p ≡ (err e', t)) × (e ≡ f e')
unfolding mapped
mapped-err f (ok a, s) h = absurd (ground arith)
mapped-err f (err e, s) h = (e, ground arith, ground arith)

pub map_error-ok :
    {Db A : Type 0} (f : Error → Error) (m : M Db A) (s : Db) {a : A} {t : Db}
    → map_error f m s ≡ (ok a, t)
    → m s ≡ (ok a, t)
map_error-ok f m s h = mapped-ok f (m s) (sym (map_error-mapped f m s) ∙ h)

pub map_error-err :
    {Db A : Type 0} (f : Error → Error) (m : M Db A) (s : Db) {e : Error} {t : Db}
    → map_error f m s ≡ (err e, t)
    → (e' : Error) × (m s ≡ (err e', t)) × (e ≡ f e')
map_error-err f m s h = mapped-err f (m s) (sym (map_error-mapped f m s) ∙ h)

pub if-ends :
    {Db A : Type 0} (b : Bool) (f g : M Db A) (s : Db) (p : Result A × Db)
    → (if b then f else g) s ≡ p
    → ((b ≡ true) × (f s ≡ p)) ⊎ ((b ≡ false) × (g s ≡ p))
if-ends true f g s p h = inl (refl, h)
if-ends false f g s p h = inr (refl, h)
