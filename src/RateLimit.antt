-- ===== src/RateLimit.antt =====
-- The rate limiters: internal/pkg/ratelimit/limiter.go, and the handler of
-- internal/middleware/rate_limit.go. Counts and limits are Go ints, which are int64s here; a time
-- is a number of nanoseconds. The mutex makes each call one step; the log line and the metrics counter
-- of the handler are left out.
pub mod Window
use go_hermes.Base.{
  ℕ, ◌+◌, ◌-◌, String, Bool, true, false, Option, none, some, List, [], ◌∷◌, str_eq, ltb, ◌||◌,
  if◌then◌else◌,
}
use go_hermes.Base.Int.{ℤ, pos, pos_part, neg_part, ltb_ℤ, leb_ℤ, eq_ℤ}
use go_hermes.Base.Int64.{add64, sub64}
use go_hermes.AppError.{Result, ok, err}
use go_hermes.Entity.{Time}
use go_hermes.Store.{M, pure, ◌>>=◌}
use Prim.Native.String.{◌++◌ as ◌+s◌}

pub record LimitResult : Type 0 where
  pub allowed : Bool
  pub count : ℤ
  pub limit : ℤ
  pub remaining : ℤ
  pub reset_at : Time

pub record MemoryEntry : Type 0 where
  pub count : ℤ
  pub reset_at : Time

-- The map of the limiter, its latest entry for a key first.
abbrev pub Entries : Type 0
Entries = List (String × MemoryEntry)

abbrev pub lookup : String → Entries → Option MemoryEntry
lookup key [] = none
lookup key ((k, e) ∷ rest) = if str_eq k key then some e else lookup key rest

abbrev pub max : ℤ → ℤ → ℤ
max value fallback = if ltb_ℤ fallback value then value else fallback

-- `time.Time.Add` of a window in nanoseconds.
abbrev pub after : Time → ℤ → Time
after t d = t + pos_part d - neg_part d

-- The entry before it is counted up: a new one where there is none, or its window is over.
abbrev pub current_entry : Option MemoryEntry → Time → ℤ → MemoryEntry
current_entry none now window = record { count = pos 0; reset_at = after now window }
current_entry (some e) now window =
    if ltb e.reset_at now then (record { count = pos 0; reset_at = after now window }) else e

abbrev pub counted_entry : MemoryEntry → MemoryEntry
counted_entry e = record e { count = add64 e.count (pos 1) }

abbrev pub result_of : MemoryEntry → ℤ → LimitResult
result_of e limit = record {
  allowed = leb_ℤ e.count limit;
  count = e.count;
  limit = limit;
  remaining = max (sub64 limit e.count) (pos 0);
  reset_at = e.reset_at;
}

-- The result of a limit that is off; `ResetAt` is Go's zero time.
abbrev pub unlimited : ℤ → LimitResult
unlimited limit = record {
  allowed = true;
  count = pos 0;
  limit = limit;
  remaining = pos 0;
  reset_at = 0;
}

abbrev pub store_entry : String → ℤ → MemoryEntry → Entries → LimitResult × Entries
store_entry key limit e entries = (result_of e limit, (key, e) ∷ entries)

-- MemoryLimiter.Allow at the time `now`.
unfoldable pub memory_allow : String → ℤ → ℤ → Time → Entries → LimitResult × Entries
unfolding add64 sub64
memory_allow key limit window now entries =
    if leb_ℤ limit (pos 0)
    then (unlimited limit, entries)
    else store_entry key limit (counted_entry (current_entry (lookup key entries) now window))
        entries

-- What RedisLimiter uses of the Redis client: INCR and TTL in one pipeline, with their values, and
-- EXPIRE.
pub record RedisClient (S : Type 0) : Type 0 where
  pub incr_and_ttl : String → M S (ℤ × ℤ)
  pub expire : String → ℤ → M S (Unit {0})

module _ {S : Type 0} (client : RedisClient S) (now : Time) where
  -- The result, of the pipeline's count and of the time to live in the end.
  abbrev pub counted_result : ℤ → ℤ → ℤ → LimitResult
  counted_result limit count ttl = record {
    allowed = leb_ℤ count limit;
    count = count;
    limit = limit;
    remaining = max (sub64 limit count) (pos 0);
    reset_at = after now ttl;
  }

  abbrev pub live : ℤ → ℤ → ℤ
  live ttl window = if ltb_ℤ ttl (pos 0) then window else ttl

  unfoldable pub with_ttl : String → ℤ → ℤ → ℤ → ℤ → M S LimitResult
  unfolding sub64
  with_ttl counter limit window count ttl =
      if eq_ℤ count (pos 1) || ltb_ℤ ttl (pos 0)
      then (do
        done ← client.expire counter window
        pure (counted_result limit count (live window window)))
      else pure (counted_result limit count (live ttl window))

  -- RedisLimiter.Allow
  unfoldable pub redis_allow : String → ℤ → ℤ → M S LimitResult
  unfolding with_ttl
  redis_allow key limit window = if leb_ℤ limit (pos 0) then pure (unlimited limit) else (do
    (count, ttl) ← client.incr_and_ttl ("rate_limit:" +s key)
    with_ttl ("rate_limit:" +s key) limit window count ttl)

-- How the handler RateLimit ends: the next handler runs, with the headers of a result or without
-- them, or the request is answered 429.
pub data Handled : Type 0 where
  next : Option LimitResult → Handled
  too_many_requests : LimitResult → Handled

abbrev pub identifier : String → Option String → String
identifier ip none = ip
identifier ip (some user_id) = if str_eq user_id "" then ip else user_id

abbrev pub handled : {S : Type 0} → Result LimitResult × S → Handled × S
handled (err e, s) = (next none, s)
handled (ok a, s) = (if a.allowed then next (some a) else too_many_requests a, s)

-- The handler of the scope `name`, for a limiter that may be missing.
unfoldable pub rate_limit :
    {S : Type 0}
    → Option (String → ℤ → ℤ → M S LimitResult)
    → String
    → ℤ
    → ℤ
    → String
    → Option String
    → S
    → Handled × S
rate_limit none name limit window ip user_id s = (next none, s)
rate_limit (some allow) name limit window ip user_id s =
    if leb_ℤ limit (pos 0)
    then (next none, s)
    else handled (allow (name +s ":" +s identifier ip user_id) limit window s)
