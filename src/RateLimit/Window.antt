-- ===== src/RateLimit/Window.antt =====
-- What a limiter lets through in one window of MemoryLimiter, internal/pkg/ratelimit/limiter.go.
use Prim.Native.Nat.{min}
use go_hermes.Base.{
  ℕ, suc, ◌+◌, ◌-◌, ◌≤◌, ◌<◌, ◌^◌, String, Bool, true, false, Option, none, some, List, [], ◌∷◌,
  ◌≡◌, refl, sym, ap, ◌∙◌, inl, inr, Bool-cases, All, str_eq, str_eq_iff, leb, arith, if◌then◌else◌,
}
use go_hermes.Base.Int.{ℤ, pos, leb_ℤ, ◌+ℤ◌}
use go_hermes.Base.Int64.{add64, wrap64_id}
use go_hermes.Entity.{Time}
use go_hermes.RateLimit.{
  MemoryEntry, Entries, LimitResult, lookup, memory_allow, after, current_entry, counted_entry,
  result_of,
}

pub record Call : Type 0 where
  pub key : String
  pub limit : ℤ
  pub window : ℤ
  pub at : Time

abbrev pub allow_call : Call → Entries → LimitResult × Entries
allow_call c entries = memory_allow c.key c.limit c.window c.at entries

abbrev pub one_if : Bool → ℕ
one_if true = 1
one_if false = 0

-- The calls for a key, and those among them that a limiter lets through.
abbrev pub calls_for : String → List Call → ℕ
calls_for key [] = 0
calls_for key (c ∷ cs) = one_if (str_eq c.key key) + calls_for key cs

abbrev pub passed : String → List Call → Entries → ℕ
passed key [] entries = 0
passed key (c ∷ cs) entries =
    (if str_eq c.key key then one_if (allow_call c entries).0.allowed else 0)
    + passed key cs (allow_call c entries).1

-- The calls for the key have the limit, and come before the end of the window.
abbrev pub Within : String → ℕ → Time → Call → Type 0
Within key limit end c = str_eq c.key key ≡ true → (c.limit ≡ pos limit) × (c.at ≤ end)

str_eq_refl : (s : String) → str_eq s s ≡ true
str_eq_refl s = (str_eq_iff s s).1 refl

-- A call for another key leaves the key's entry alone.
lookup-other :
    (key : String) (c : Call) (entries : Entries)
    → str_eq c.key key ≡ false
    → lookup key (allow_call c entries).1 ≡ lookup key entries
unfolding memory_allow
lookup-other key c entries other = ground arith

up_one : (n : ℕ) → n < 2 ^ 63 - 1 → add64 (pos n) (pos 1) ≡ pos (suc n)
unfolding add64 ◌+ℤ◌
up_one n small =
    wrap64_id (pos n +ℤ pos 1) (record { low = ground arith; high = ground arith }) ∙ ground arith

allow-stores :
    (c : Call) (entries : Entries) (e : MemoryEntry)
    → leb_ℤ c.limit (pos 0) ≡ false
    → counted_entry (current_entry (lookup c.key entries) c.at c.window) ≡ e
    → allow_call c entries ≡ (result_of e c.limit, (c.key, e) ∷ entries)
unfolding memory_allow
allow-stores c entries e limited counted = ground arith

-- One call of the key with the limit: it passes if the count allows, and is counted.
Counted : String → ℕ → ℕ → Time → Call → Entries → Type 0
Counted key limit n end c entries =
    ((allow_call c entries).0.allowed ≡ leb n limit)
    × (lookup key (allow_call c entries).1 ≡ some (record { count = pos n; reset_at = end }))

allow-Counted :
    (key : String) (limit n : ℕ) (end : Time) (c : Call) (entries : Entries)
    → counted_entry (current_entry (lookup c.key entries) c.at c.window)
      ≡ record { count = pos n; reset_at = end }
    → str_eq c.key key ≡ true
    → c.limit ≡ pos limit
    → 1 ≤ limit
    → Counted key limit n end c entries
unfolding Counted
allow-Counted key limit n end c entries counted same limited least =
    let stored =
      allow-stores c entries (record { count = pos n; reset_at = end })
        (ap (λ l. leb_ℤ l (pos 0)) limited ∙ ground arith) counted in
    (
      ap (λ p. p.0.allowed) stored ∙ (ap (λ l. leb_ℤ (pos n) l) limited ∙ ground arith),
      ap (λ p. lookup key p.1) stored ∙ ground arith,
    )

current-within :
    (e : MemoryEntry) (now : Time) (window : ℤ)
    → now ≤ e.reset_at
    → current_entry (some e) now window ≡ e
current-within e now window early = ground arith

abbrev entry_of : ℤ → Time → MemoryEntry
entry_of k end = record { count = k; reset_at = end }

counted-up :
    (n : ℕ) (end : Time)
    → n < 2 ^ 63 - 1
    → counted_entry (record { count = pos n; reset_at = end })
      ≡ record { count = pos (suc n); reset_at = end }
counted-up n end small = ap (λ k. entry_of k end) (up_one n small)

allow-Within_lem :
    (key : String) (limit n : ℕ) (end : Time) (c : Call) (entries : Entries)
    → lookup key entries ≡ some (record { count = pos n; reset_at = end })
    → n < 2 ^ 63 - 1
    → 1 ≤ limit
    → str_eq c.key key ≡ true
    → c.limit ≡ pos limit
    → c.at ≤ end
    → Counted key limit (suc n) end c entries
allow-Within_lem key limit n end c entries found small least same limited early =
    allow-Counted key limit (suc n) end c entries
      (ap (λ o. counted_entry (current_entry o c.at c.window))
          (ap (λ k. lookup k entries) ((str_eq_iff c.key key).0 same) ∙ found)
        ∙ (ap counted_entry (current-within _ c.at c.window early) ∙ counted-up n end small))
      same limited least

passed-same :
    (key : String) (c : Call) (cs : List Call) (entries : Entries)
    → str_eq c.key key ≡ true
    → passed key (c ∷ cs) entries
      ≡ one_if (allow_call c entries).0.allowed + passed key cs (allow_call c entries).1
passed-same key c cs entries same =
    ap
      (λ b.
        (if b then one_if (allow_call c entries).0.allowed else 0)
        + passed key cs (allow_call c entries).1)
      same

passed-other :
    (key : String) (c : Call) (cs : List Call) (entries : Entries)
    → str_eq c.key key ≡ false
    → passed key (c ∷ cs) entries ≡ passed key cs (allow_call c entries).1
passed-other key c cs entries other =
    ap
      (λ b.
        (if b then one_if (allow_call c entries).0.allowed else 0)
        + passed key cs (allow_call c entries).1)
      other
    ∙ omega arith

calls_for-same :
    (key : String) (c : Call) (cs : List Call)
    → str_eq c.key key ≡ true
    → calls_for key (c ∷ cs) ≡ suc (calls_for key cs)
calls_for-same key c cs same = ap (λ b. one_if b + calls_for key cs) same ∙ omega arith

calls_for-other :
    (key : String) (c : Call) (cs : List Call)
    → str_eq c.key key ≡ false
    → calls_for key (c ∷ cs) ≡ calls_for key cs
calls_for-other key c cs other = ap (λ b. one_if b + calls_for key cs) other ∙ omega arith

one_more :
    (limit n m : ℕ) → one_if (leb (suc n) limit) + min (limit - suc n) m ≡ min (limit - n) (suc m)
one_more limit n m = ground arith

-- While the window lasts, a limiter that has counted `n` calls of the key lets the next ones through
-- up to the limit.
passed-Within :
    (key : String) (limit n : ℕ) (end : Time) (calls : List Call) (entries : Entries)
    → 1 ≤ limit
    → lookup key entries ≡ some (record { count = pos n; reset_at = end })
    → n + calls_for key calls < 2 ^ 63
    → All (Within key limit end) calls
    → passed key calls entries ≡ min (limit - n) (calls_for key calls)
unfolding Counted
passed-Within key limit n end [] entries least found small within = omega arith
passed-Within key limit n end (c ∷ cs) entries least found small (here, rest) =
    elim (Bool-cases (str_eq c.key key)) [
      | inl same ↦
          let number = calls_for-same key c cs same in
          let (limited, early) = here same in
          let (allowed, stored) =
            allow-Within_lem key limit n end c entries found (omega (arith, number)) least same
              limited early in
          let after =
            passed-Within key limit (suc n) end cs (allow_call c entries).1 least stored
              (omega (arith, number)) rest in
          passed-same key c cs entries same
          ∙ (ap (λ b. one_if b + passed key cs (allow_call c entries).1) allowed
              ∙ (ap (λ k. one_if (leb (suc n) limit) + k) after
                  ∙ (one_more limit n (calls_for key cs)
                      ∙ ap (λ k. min (limit - n) k) (sym number))))
      | inr other ↦
          let number = calls_for-other key c cs other in
          passed-other key c cs entries other
          ∙ (passed-Within key limit n end cs (allow_call c entries).1 least
                (lookup-other key c entries other ∙ found) (omega (arith, number)) rest
              ∙ ap (λ k. min (limit - n) k) (sym number))
    ]

-- A key without an entry, or with one whose window is over.
abbrev pub IsOver : Option MemoryEntry → Time → Type 0
IsOver none now = Unit {0}
IsOver (some e) now = e.reset_at < now

current-over :
    (o : Option MemoryEntry) (now : Time) (window : ℤ)
    → IsOver o now
    → current_entry o now window ≡ record { count = pos 0; reset_at = after now window }
current-over none now window over = refl
current-over (some e) now window over = ground arith

-- For a limit of at least 1 and fewer than 2^63 calls of a key: of the call that opens a window (the
-- key has no entry, or its window is over) and the calls that follow it up to the end of the window,
-- mixed with calls of other keys, exactly the first `limit` of the key are let through.
pub window_exact :
    (key : String) (limit : ℕ) (window : ℤ) (now : Time) (calls : List Call) (entries : Entries)
    → 1 ≤ limit
    → IsOver (lookup key entries) now
    → calls_for key calls + 1 < 2 ^ 63
    → All (Within key limit (after now window)) calls
    → passed key
        (record { key = key; limit = pos limit; window = window; at = now } ∷ calls)
        entries
      ≡ min limit (suc (calls_for key calls))
unfolding Counted
window_exact key limit window now calls entries least fresh small within =
    let opening : Call = record { key = key; limit = pos limit; window = window; at = now } in
    let (allowed, stored) =
      allow-Counted key limit 1 (after now window) opening entries
        (ap counted_entry (current-over (lookup key entries) now window fresh)
          ∙ counted-up 0 (after now window) (omega arith))
        (str_eq_refl key) refl least in
    passed-same key opening calls entries (str_eq_refl key)
    ∙ (ap (λ b. one_if b + passed key calls (allow_call opening entries).1) allowed
        ∙ (ap (λ k. one_if (leb 1 limit) + k)
              (passed-Within key limit 1 (after now window) calls (allow_call opening entries).1
                least stored (omega arith) within)
            ∙ (one_more limit 0 (calls_for key calls) ∙ omega arith)))
