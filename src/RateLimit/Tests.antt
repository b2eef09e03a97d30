-- ===== src/RateLimit/Tests.antt =====
-- util/ratelimit.go on a concrete sequence of attempts.
use revoked.Prelude.{◌≡◌, refl, true, false, some, List, [], ◌∷◌, arith}
use revoked.RateLimit.{new_rate_limiter, Event, attempt, clear, decisions}
use revoked.RateLimit.Reference.{reference, decisions-reference}

-- Two attempts in ten ticks; the third is refused, and the one at 25 is allowed again.
abbrev busy : List Event
busy =
    attempt 11 "a"
    ∷ attempt 12 "a"
    ∷ attempt 13 "a"
    ∷ attempt 14 "b"
    ∷ attempt 25 "a"
    ∷ clear "a"
    ∷ attempt 26 "a"
    ∷ []

decisions_test :
    decisions (some (new_rate_limiter 2 10 5)) busy ≡ true ∷ true ∷ false ∷ true ∷ true ∷ true ∷ []
unfolding decisions new_rate_limiter
decisions_test = refl

decisions-reference_example :
    decisions (some (new_rate_limiter 2 10 5)) busy ≡ reference 2 10 (λ _. []) busy
decisions-reference_example = decisions-reference 2 10 5 busy (omega arith) (omega arith)
