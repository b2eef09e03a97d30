-- ===== src/RateLimit/Window.antt =====
-- Since the last reset, no window of time holds more allowed attempts on a key than the limit.
use revoked.Prelude.{
  ltb→lt, ℕ, ◌+◌, ◌≤◌, ◌<◌, String, ◌≡◌, Bool, true, false, ◌&&◌, some, List, [], ◌∷◌, ◌++◌, ◌==◌,
  eq_iff, ltb, leb, length, keep, if◌then◌else◌, arith, Bool-cases, inl, inr, All,
}
use revoked.RateLimit.{new_rate_limiter, live, Event, attempt, clear, decisions}
use revoked.RateLimit.Reference.{History, set_times, reference, Chronological, decisions-reference}

-- The times at which attempts on a key were allowed since it was last cleared, from the answers.
abbrev pub allowed_times : String → List ℕ → List Event → List Bool → List ℕ
allowed_times key ts (attempt now k ∷ es) (b ∷ bs) =
    allowed_times key (if (k == key) && b then ts ++ now ∷ [] else ts) es bs
allowed_times key ts (clear k ∷ es) bs = allowed_times key (if k == key then [] else ts) es bs
allowed_times key ts _ _ = ts

-- The times that lie in the window that ends at `end`.
abbrev pub in_window : ℕ → ℕ → List ℕ → List ℕ
in_window window end ts = keep (λ t. leb t end && ltb end (t + window)) ts

abbrev IsBounded : ℕ → ℕ → ℕ → List ℕ → Type 0
IsBounded limit window clock ts =
    All (λ t. t ≤ clock) ts × ((end : ℕ) → length (in_window window end ts) ≤ limit)

in_window-le-live :
    (window now end : ℕ) (ts : List ℕ)
    → now ≤ end
    → length (in_window window end ts) ≤ length (keep (live window now) ts)
in_window-le-live window now end [] h = omega arith
in_window-le-live window now end (t ∷ ts) h = ground (arith, in_window-le-live window now end ts h)

length-in_window-append :
    (window end : ℕ) (ts : List ℕ) (t : ℕ)
    → length (in_window window end (ts ++ t ∷ []))
      ≡ length (in_window window end ts) + length (in_window window end (t ∷ []))
length-in_window-append window end [] t = omega arith
length-in_window-append window end (u ∷ ts) t =
    ground (arith, length-in_window-append window end ts t)

All-le-append :
    (clock now : ℕ) (ts : List ℕ)
    → clock ≤ now
    → All (λ t. t ≤ clock) ts
    → All (λ t. t ≤ now) (ts ++ now ∷ [])
All-le-append clock now [] le h = (omega arith, tt)
All-le-append clock now (t ∷ ts) le (h, hs) = (omega arith, All-le-append clock now ts le hs)

All-le_mono :
    (clock now : ℕ) (ts : List ℕ) → clock ≤ now → All (λ t. t ≤ clock) ts → All (λ t. t ≤ now) ts
All-le_mono clock now [] le h = tt
All-le_mono clock now (t ∷ ts) le (h, hs) = (omega arith, All-le_mono clock now ts le hs)

append-IsBounded :
    (limit window clock now : ℕ) (ts : List ℕ)
    → clock ≤ now
    → length (keep (live window now) ts) < limit
    → IsBounded limit window clock ts
    → IsBounded limit window now (ts ++ now ∷ [])
append-IsBounded limit window clock now ts le room (old, bound) = (
  All-le-append clock now ts le old,
  λ end. ground (
    arith,
    bound end,
    length-in_window-append window end ts now,
    in_window-le-live window now end ts,
  ),
)

mono-IsBounded :
    (limit window clock now : ℕ) (ts : List ℕ)
    → clock ≤ now
    → IsBounded limit window clock ts
    → IsBounded limit window now ts
mono-IsBounded limit window clock now ts le (old, bound) = (All-le_mono clock now ts le old, bound)

nil-IsBounded : (limit window clock : ℕ) → IsBounded limit window clock []
nil-IsBounded limit window clock = (tt, λ end. omega arith)

if-IsBounded :
    (limit window clock : ℕ) (b : Bool) (ts us : List ℕ)
    → IsBounded limit window clock ts
    → IsBounded limit window clock us
    → IsBounded limit window clock (if b then ts else us)
if-IsBounded limit window clock true ts us p q = p
if-IsBounded limit window clock false ts us p q = q

-- The history of a key after an allowed attempt on some key.
set_times-at :
    (h : History) (k key : String) (now : ℕ)
    → set_times h k (h k ++ now ∷ []) key
      ≡ (if (k == key) && true then h key ++ now ∷ [] else h key)
set_times-at h k key now = ground (arith, eq_iff k key)

kept-at :
    (h : History) (k key : String) (now : ℕ)
    → (if (k == key) && false then h key ++ now ∷ [] else h key) ≡ h key
kept-at h k key now = ground arith

allowed_from :
    (limit window : ℕ) (key : String) (es : List Event) (clock : ℕ) (h : History)
    → Chronological clock es
    → ((k : String) → IsBounded limit window clock (h k))
    → (end : ℕ)
    → length (in_window window end (allowed_times key (h key) es (reference limit window h es)))
      ≤ limit
unfolding reference
allowed_from limit window key [] clock h c b end = (b key).1 end
allowed_from limit window key (clear k ∷ es) clock h c b end =
    allowed_from limit window key es clock (set_times h k []) c
      (λ j.
        if-IsBounded limit window clock (k == j) [] (h j) (nil-IsBounded limit window clock) (b j))
      end
allowed_from limit window key (attempt now k ∷ es) clock h (le, c) b end =
    let stay = λ (j : String). mono-IsBounded limit window clock now (h j) le (b j) in
    elim (Bool-cases (ltb (length (keep (live window now) (h k))) limit)) [
      | inl room ↦
          let grown = append-IsBounded limit window clock now (h k) le (ltb→lt _ _ room) (b k) in
          let rest =
            allowed_from limit window key es now (set_times h k (h k ++ now ∷ [])) c
              (λ j. if-IsBounded limit window now (k == j) _ (h j) grown (stay j)) end in
          rw room (rw (← set_times-at h k key now) rest)
      | inr full ↦
          let rest = allowed_from limit window key es now h c stay end in
          rw full (rw (kept-at h k key now) rest)
    ]

-- Whatever the attempts and resets, at times that do not fall, no window of time that ends at
-- `end` holds more than `limit` allowed attempts on one key, counted since the key was last reset.
pub allowed_bounded :
    (limit window start : ℕ) (es : List Event) (key : String) (end : ℕ)
    → 0 < limit
    → Chronological start es
    → length (
        in_window window end
          (allowed_times key [] es (decisions (some (new_rate_limiter limit window start)) es)))
      ≤ limit
allowed_bounded limit window start es key end pos c =
    rw (decisions-reference limit window start es pos c) (
      allowed_from limit window key es start (λ _. []) c (λ _. nil-IsBounded limit window start)
        end)
