-- ===== src/RateLimit/Reference.antt =====
-- The limiter of util/ratelimit.go against a reference that forgets nothing.
use revoked.Prelude.{
  ℕ, ◌≤◌, ◌<◌, String, ◌≡◌, refl, ◌∙◌, Bool, false, some, List, [], ◌∷◌, ◌++◌, ◌==◌, eq_iff, ltb,
  leb, length, keep, if◌then◌else◌, arith, Bool-cases, inl, inr,
}
use mathlib.Core.Path.{subst₂}
use revoked.RateLimit.{
  RateLimiter, new_rate_limiter, live, newest, gc_locked, set_hits, record_attempt, allow, Event,
  attempt, clear, decisions,
}

-- The times of all attempts that were allowed since the key was last cleared.
abbrev pub History : Type 0
History = String → List ℕ

abbrev pub set_times : History → String → List ℕ → History
set_times h key times = λ k. if key == k then times else h k

-- An attempt is allowed exactly if fewer than `limit` allowed attempts lie within the window.
unfoldable pub reference : ℕ → ℕ → History → List Event → List Bool
reference limit window h [] = []
reference limit window h (attempt now key ∷ es) =
    let allowed = ltb (length (keep (live window now) (h key))) limit in
    allowed ∷ reference limit window (if allowed then set_times h key (h key ++ now ∷ []) else h) es
reference limit window h (clear key ∷ es) = reference limit window (set_times h key []) es

-- The times of the attempts do not fall.
abbrev pub Chronological : ℕ → List Event → Type 0
Chronological clock [] = Unit
Chronological clock (attempt now key ∷ es) = (clock ≤ now) × Chronological now es
Chronological clock (clear key ∷ es) = Chronological clock es

keep-keep :
    (w n m : ℕ) (ts : List ℕ) → n ≤ m → keep (live w m) (keep (live w n) ts) ≡ keep (live w m) ts
keep-keep w n m [] h = refl
keep-keep w n m (t ∷ ts) h = ground (arith, keep-keep w n m ts h)

keep-append :
    (w n : ℕ) (ts : List ℕ) (t : ℕ)
    → keep (live w n) (ts ++ t ∷ []) ≡ keep (live w n) ts ++ keep (live w n) (t ∷ [])
keep-append w n [] t = refl
keep-append w n (u ∷ ts) t = ground (arith, keep-append w n ts t)

newest-le : (best : ℕ) (ts : List ℕ) → best ≤ newest best ts
unfolding newest
newest-le best [] = omega arith
newest-le best (t ∷ ts) = ground (arith, newest-le (if ltb best t then t else best) ts)

-- If the newest hit is out of the window, all are, from then on.
keep_of_newest :
    (w n m best : ℕ) (ts : List ℕ)
    → n ≤ m
    → live w n (newest best ts) ≡ false
    → keep (live w m) ts ≡ []
unfolding newest
keep_of_newest w n m best [] h dead = refl
keep_of_newest w n m best (t ∷ ts) h dead = ground (
  arith,
  keep_of_newest w n m (if ltb best t then t else best) ts h dead,
  newest-le (if ltb best t then t else best) ts,
)

-- From `clock` on, the limiter holds the same hits within the window as the history.
abbrev Agrees : ℕ → RateLimiter → History → Type 0
Agrees clock r h =
    (key : String) (n : ℕ)
    → clock ≤ n
    → keep (live r.window n) (r.hits key) ≡ keep (live r.window n) (h key)

gc_locked-Agrees :
    (clock now : ℕ) (r : RateLimiter) (h : History)
    → clock ≤ now
    → Agrees clock r h
    → Agrees now (gc_locked r now) h
unfolding gc_locked
gc_locked-Agrees clock now r h le agrees key n later =
    ground (arith, agrees key n, keep_of_newest r.window now n 0 (r.hits key) later)

gc_locked_fields :
    (r : RateLimiter) (now : ℕ)
    → ((gc_locked r now).limit ≡ r.limit) × ((gc_locked r now).window ≡ r.window)
unfolding gc_locked
gc_locked_fields r now = ground arith

record_attempt_fields :
    (r : RateLimiter) (now : ℕ) (key : String)
    → ((record_attempt r now key).1.limit ≡ r.limit)
      × ((record_attempt r now key).1.window ≡ r.window)
unfolding record_attempt
record_attempt_fields r now key = ground arith

decision_at :
    (now : ℕ) (r : RateLimiter) (h : History) (key : String)
    → Agrees now r h
    → (record_attempt r now key).0 ≡ ltb (length (keep (live r.window now) (h key))) r.limit
unfolding record_attempt
decision_at now r h key agrees = ground (arith, agrees key now)

record_attempt-Agrees :
    (now : ℕ) (r : RateLimiter) (h : History) (key : String)
    → Agrees now r h
    → Agrees now
        (record_attempt r now key).1
        (if (record_attempt r now key).0 then set_times h key (h key ++ now ∷ []) else h)
unfolding record_attempt
record_attempt-Agrees now r h key agrees k n later =
    let kept = keep (live r.window now) (r.hits key) in
    let same = eq_iff key k in
    let old = agrees k n later in
    let short = keep-keep r.window now n (r.hits key) later in
    elim (Bool-cases (leb r.limit (length kept))) [
      | inl full ↦ rw (full, record_attempt) (ground arith)
      | inr room ↦
          rw (room, record_attempt)
            (ground (arith, keep-append r.window n kept now, keep-append r.window n (h key) now))
    ]

allow-step :
    (r : RateLimiter) (now : ℕ) (key : String)
    → 0 < r.limit
    → allow (some r) now key ≡ (
      (record_attempt (gc_locked r now) now key).0,
      some (record_attempt (gc_locked r now) now key).1,
    )
unfolding allow
allow-step r now key pos = ground arith

decisions-attempt :
    (r : RateLimiter) (now : ℕ) (key : String) (es : List Event)
    → 0 < r.limit
    → decisions (some r) (attempt now key ∷ es)
      ≡ (record_attempt (gc_locked r now) now key).0
        ∷ decisions (some (record_attempt (gc_locked r now) now key).1) es
unfolding decisions
decisions-attempt r now key es pos = rw (allow-step r now key pos)

clear-Agrees :
    (clock : ℕ) (r : RateLimiter) (h : History) (key : String)
    → Agrees clock r h
    → Agrees clock (set_hits r key []) (set_times h key [])
clear-Agrees clock r h key agrees k n later = ground (arith, agrees k n later)

decisions-nil : (r : RateLimiter) → decisions (some r) [] ≡ []
unfolding decisions
decisions-nil r = refl

decisions-clear :
    (r : RateLimiter) (key : String) (es : List Event)
    → decisions (some r) (clear key ∷ es) ≡ decisions (some (set_hits r key [])) es
unfolding decisions
decisions-clear r key es = refl

decisions_from :
    (limit window : ℕ) (es : List Event) (clock : ℕ) (r : RateLimiter) (h : History)
    → 0 < limit
    → r.limit ≡ limit
    → r.window ≡ window
    → Agrees clock r h
    → Chronological clock es
    → decisions (some r) es ≡ reference limit window h es
unfolding reference
decisions_from limit window [] clock r h pos el ew agrees c = decisions-nil r
decisions_from limit window (clear key ∷ es) clock r h pos el ew agrees c =
    decisions-clear r key es
    ∙ decisions_from limit window es clock (set_hits r key []) (set_times h key []) pos el ew
        (clear-Agrees clock r h key agrees) c
decisions_from limit window (attempt now key ∷ es) clock r h pos el ew agrees (le, c) =
    let r1 = gc_locked r now in
    let a1 = gc_locked-Agrees clock now r h le agrees in
    let h2 = if (record_attempt r1 now key).0 then set_times h key (h key ++ now ∷ []) else h in
    let f1 = gc_locked_fields r now in
    let f2 = record_attempt_fields r1 now key in
    let rest =
      decisions_from limit window es now (record_attempt r1 now key).1 h2 pos (f2.0 ∙ f1.0 ∙ el)
        (f2.1 ∙ f1.1 ∙ ew) (record_attempt-Agrees now r1 h key a1) c in
    let d = decision_at now r1 h key a1 in
    let d' =
      subst₂ (λ w l. (record_attempt r1 now key).0 ≡ ltb (length (keep (live w now) (h key))) l)
        (f1.1 ∙ ew) (f1.0 ∙ el) d in
    decisions-attempt r now key es (rw el pos) ∙ rw (← d') (rw rest)

-- A new limiter with a positive limit answers every sequence of attempts and resets, at times that
-- do not fall, as the reference does: the hits that it drops, whether on an attempt or by the
-- collection, never change an answer, and a refused attempt counts for nothing later.
pub decisions-reference :
    (limit window start : ℕ) (es : List Event)
    → 0 < limit
    → Chronological start es
    → decisions (some (new_rate_limiter limit window start)) es
      ≡ reference limit window (λ _. []) es
unfolding new_rate_limiter
decisions-reference limit window start es pos c =
    decisions_from limit window es start _ (λ _. []) pos refl refl (λ key n later. refl) c
