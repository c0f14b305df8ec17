-- ===== src/Tests/RateLimit.antt =====
-- Calls of a limiter in one window.
use go_hermes.Base.{List, [], ◌∷◌, ◌≡◌, refl, arith, String, suc, ℕ}
use go_hermes.Base.Int.{pos}
use go_hermes.RateLimit.Window.{Call, passed, calls_for, window_exact}
use Prim.Native.Nat.{min}

abbrev at_time : String → ℕ → Call
at_time key at = record { key = key; limit = pos 2; window = pos 60; at = at }

abbrev later_calls : List Call
later_calls = at_time "a" 10 ∷ at_time "b" 11 ∷ at_time "a" 12 ∷ []

-- Of three calls of "a" two pass, and one of "b" in between.
window_exact_example :
    passed "a" (at_time "a" 0 ∷ later_calls) [] ≡ min 2 (suc (calls_for "a" later_calls))
window_exact_example =
    window_exact "a" 2 (pos 60) 0 later_calls [] (omega arith) tt (omega arith)
      ((λ e. (refl, omega arith)), ((λ e. (refl, omega arith)), ((λ e. (refl, omega arith)), tt)))
