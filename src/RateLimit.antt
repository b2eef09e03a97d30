-- ===== src/RateLimit.antt =====
-- util/ratelimit.go: the sliding-window limiter.
-- Times are nanoseconds since Go's zero time, which is 0; the clock is an argument. The source
-- compares with `now - window`; here the window is added to the other side, since `-` stops at 0.
-- A missing key of the map reads as no hits, so the map is a function to lists.
pub mod Reference
pub mod Window
mod Tests
use revoked.Prelude.{
  ℕ, zero, suc, ◌+◌, String, Bool, true, false, Option, none, some, List, [], ◌∷◌, ◌++◌, ◌==◌, ltb,
  leb, length, keep, if◌then◌else◌,
}

pub record RateLimiter : Type 0 where
  pub hits : String → List ℕ
  pub limit : ℕ
  pub window : ℕ
  pub last_gc : ℕ

-- `NewRateLimiter` at a time
unfoldable pub new_rate_limiter : ℕ → ℕ → ℕ → RateLimiter
new_rate_limiter limit window now = record {
  hits = λ _. [];
  limit = limit;
  window = window;
  last_gc = now;
}

-- `t.After(now.Add(-window))`
abbrev pub live : ℕ → ℕ → ℕ → Bool
live window now t = ltb now (t + window)

-- `newest` of `gcLocked`, from the zero time
unfoldable pub newest : ℕ → List ℕ → ℕ
newest best [] = best
newest best (t ∷ ts) = newest (if ltb best t then t else best) ts

-- `gcLocked`
unfoldable pub gc_locked : RateLimiter → ℕ → RateLimiter
unfolding newest
gc_locked r now = if ltb now (r.last_gc + r.window) then r else record r {
  last_gc = now;
  hits = λ key. if live r.window now (newest 0 (r.hits key)) then r.hits key else [];
}

abbrev pub set_hits : RateLimiter → String → List ℕ → RateLimiter
set_hits r key times = record r { hits = λ k. if key == k then times else r.hits k }

-- The part of `Allow` under the mutex, after the collection.
unfoldable pub record_attempt : RateLimiter → ℕ → String → Bool × RateLimiter
record_attempt r now key =
    let kept = keep (live r.window now) (r.hits key) in
    if leb r.limit (length kept)
    then (false, set_hits r key kept)
    else (true, set_hits r key (kept ++ now ∷ []))

-- `Allow`; `none` is the nil limiter.
unfoldable pub allow : Option RateLimiter → ℕ → String → Bool × Option RateLimiter
unfolding gc_locked record_attempt
allow none now key = (true, none)
allow (some r) now key =
    if leb r.limit 0
    then (true, some r)
    else let (allowed, r') = record_attempt (gc_locked r now) now key in (allowed, some r')

-- `Reset`
unfoldable pub reset : Option RateLimiter → String → Option RateLimiter
reset none key = none
reset (some r) key = some (set_hits r key [])

-- What callers do with one limiter, in the order in which they hold the mutex.
pub data Event : Type 0 where
  attempt : ℕ → String → Event
  clear : String → Event

-- The answers to the attempts.
unfoldable pub decisions : Option RateLimiter → List Event → List Bool
unfolding allow reset
decisions r [] = []
decisions r (attempt now key ∷ es) =
    let (allowed, r') = allow r now key in allowed ∷ decisions r' es
decisions r (clear key ∷ es) = decisions (reset r key) es
