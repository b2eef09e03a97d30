-- ===== src/Reminders/Passes.antt =====
-- Every due reminder is fired after enough passes (services/reminders.go).
use revoked.Prelude.{
  ◌≡◌, refl, sym, ap, subst, ◌∙◌, ℕ, zero, suc, ◌*◌, ◌-◌, ◌≤◌, String, Bool, true, false, not, ◌&&◌,
  List, [], ◌∷◌, ◌++◌, any, keep, map, take, drop, contains, length, arith, eq_iff, inl, inr,
  length-append, Bool-cases, if◌then◌else◌,
}
use revoked.Reminders.{
  Reminder, State, World, matches_row, mark_row, notify, fire_reminder, is_due, due, due_le,
  insert_due, by_due, fire_all, batch, fire_due_reminders, reminder_batch,
}
use revoked.Reminders.Firing.{notify-told}

-- The reminders whose id is not listed.
abbrev others : List String → List Reminder → List Reminder
others ids rs = keep (λ r. not (contains ids r.id)) rs

module _ {ℓ} {A : Type ℓ} where
  keep-append : (p : A → Bool) (xs ys : List A) → keep p (xs ++ ys) ≡ keep p xs ++ keep p ys
  keep-append p [] ys = refl
  keep-append p (x ∷ xs) ys = ground (arith, keep-append p xs ys)

  keep-every : (xs : List A) → keep (λ x. true) xs ≡ xs
  keep-every [] = refl
  keep-every (x ∷ xs) = ap (λ r. x ∷ r) (keep-every xs)

  take-drop : (n : ℕ) (xs : List A) → take n xs ++ drop n xs ≡ xs
  take-drop zero xs = refl
  take-drop (suc n) [] = refl
  take-drop (suc n) (x ∷ xs) = ap (λ r. x ∷ r) (take-drop n xs)

  length-keep : (p : A → Bool) (xs : List A) → length (keep p xs) ≤ length xs
  length-keep p [] = omega arith
  length-keep p (x ∷ xs) = ground (arith, length-keep p xs)

  length-drop : (n : ℕ) (xs : List A) → length (drop n xs) ≤ length xs - n
  length-drop zero xs = omega arith
  length-drop (suc n) [] = omega arith
  length-drop (suc n) (x ∷ xs) = omega (arith, length-drop n xs)

  keep-keep : (p q : A → Bool) (xs : List A) → keep p (keep q xs) ≡ keep (λ x. q x && p x) xs
  keep-keep p q [] = refl
  keep-keep p q (x ∷ xs) = ground (arith, keep-keep p q xs)

length-keep-insert_due :
    (p : Reminder → Bool) (r : Reminder) (rs : List Reminder)
    → length (keep p (insert_due r rs)) ≡ length (keep p (r ∷ rs))
unfolding insert_due
length-keep-insert_due p r [] = refl
length-keep-insert_due p r (q ∷ qs) = elim (Bool-cases (due_le r q)) [
  | inl before ↦ rw before refl
  | inr after ↦ rw after (ground (arith, length-keep-insert_due p r qs))
]

-- The order of the query loses nothing.
length-keep-by_due :
    (p : Reminder → Bool) (rs : List Reminder) → length (keep p (by_due rs)) ≡ length (keep p rs)
unfolding by_due
length-keep-by_due p [] = refl
length-keep-by_due p (r ∷ rs) =
    length-keep-insert_due p r (by_due rs) ∙ ground (arith, length-keep-by_due p rs)

length-by_due : (rs : List Reminder) → length (by_due rs) ≡ length rs
length-by_due rs =
    sym (ap length (keep-every (by_due rs)))
    ∙ length-keep-by_due (λ r. true) rs
    ∙ ap length (keep-every rs)

listed :
    (b : List Reminder) (ids : List String)
    → ((x : String) → contains (map (λ r. r.id) b) x ≡ true → contains ids x ≡ true)
    → others ids b ≡ []
listed [] ids k = refl
listed (r ∷ rs) ids k =
    let here = k r.id (ground (arith, eq_iff r.id r.id)) in
    let rest = listed rs ids (λ x h. k x (ground (arith, h))) in ground (arith, here, rest)

due-notify :
    (w : World) (now : ℕ) (r : Reminder) (watched_id why : String) (s : State)
    → due now (notify w r watched_id why s) ≡ due now s
due-notify w now r watched_id why s = ap (keep (is_due now)) (notify-told w r watched_id why s "").0

due-marked :
    (now : ℕ) (id : String) (rs : List Reminder)
    → keep (is_due now) (map (mark_row now id) rs) ≡ others (id ∷ []) (keep (is_due now) rs)
due-marked now id [] = refl
due-marked now id (r ∷ rs) = elim (Bool-cases (matches_row id r)) [
  | inl row ↦ ground (arith, row, due-marked now id rs, eq_iff r.id id, eq_iff id r.id)
  | inr other ↦ ground (arith, other, due-marked now id rs, eq_iff r.id id, eq_iff id r.id)
]

due-none :
    (now : ℕ) (id : String) (rs : List Reminder)
    → any (matches_row id) rs ≡ false
    → keep (is_due now) rs ≡ others (id ∷ []) (keep (is_due now) rs)
due-none now id [] h = refl
due-none now id (r ∷ rs) h = ground (arith, h, due-none now id rs, eq_iff r.id id, eq_iff id r.id)

-- A reminder that is reached is no longer due; the others are as due as before.
due-fire_reminder :
    (w : World) (now : ℕ) (r : Reminder) (watched_id why : String) (s : State)
    → w.marks r.id ≡ true
    → due now (fire_reminder w now r watched_id why s) ≡ others (r.id ∷ []) (due now s)
unfolding fire_reminder
due-fire_reminder w now r watched_id why s marks =
    elim (Bool-cases (any (matches_row r.id) s.reminders)) [
      | inl unfired ↦
          let m : State = record s { reminders = map (mark_row now r.id) s.reminders } in
          rw (marks, unfired, fire_reminder)
            (due-notify w now r watched_id why m ∙ due-marked now r.id s.reminders)
      | inr fired ↦ rw (marks, fired, fire_reminder) (due-none now r.id s.reminders fired)
    ]

others-others :
    (ids : List String) (id : String) (rs : List Reminder)
    → others ids (others (id ∷ []) rs) ≡ others (id ∷ ids) rs
others-others ids id [] = refl
others-others ids id (r ∷ rs) = ground (arith, others-others ids id rs)

due-fire_all :
    (w : World) (now : ℕ) (b : List Reminder) (s : State)
    → ((id : String) → w.marks id ≡ true)
    → due now (fire_all w now b s) ≡ others (map (λ r. r.id) b) (due now s)
unfolding fire_all
due-fire_all w now [] s marks = sym (keep-every (due now s))
due-fire_all w now (r ∷ rs) s marks =
    let why : String = "You asked to be reminded about this entry today." in
    let next = fire_reminder w now r "" why s in
    due-fire_all w now rs next marks
    ∙ ap (others (map (λ r. r.id) rs)) (due-fire_reminder w now r "" why s (marks r.id))
    ∙ others-others (map (λ r. r.id) rs) r.id (due now s)

pass_fires :
    (w : World) (now : ℕ) (s : State)
    → w.loads ≡ true
    → fire_due_reminders w now s ≡ fire_all w now (batch now s) s
unfolding fire_due_reminders
pass_fires w now s loads =
    let fired = fire_all w now (batch now s) s in
    subst (λ l. (if not l then s else fired) ≡ fired) (sym loads) refl

none_left {ℓ} : {A : Type ℓ} (xs : List A) → length xs ≤ 0 → xs ≡ []
none_left [] h = refl
none_left (x ∷ xs) h = absurd (omega (arith, h))

-- A pass of a database that answers fires a whole batch, or all that is due.
pass-fewer :
    (w : World) (now : ℕ) (s : State)
    → w.loads ≡ true
    → ((id : String) → w.marks id ≡ true)
    → length (due now (fire_due_reminders w now s)) ≤ length (due now s) - reminder_batch
unfolding fire_due_reminders
pass-fewer w now s loads marks =
    let sorted = by_due (due now s) in
    let b = take reminder_batch sorted in
    let left = drop reminder_batch sorted in
    let ids = map (λ (r : Reminder). r.id) b in
    let after : length (due now (fire_all w now b s)) ≡ length (others ids (due now s)) =
      ap length (due-fire_all w now b s marks) in
    let same = length-keep-by_due (λ r. not (contains ids r.id)) (due now s) in
    let split = ap (λ l. length (others ids l)) (take-drop reminder_batch sorted) in
    let parts = ap length (keep-append (λ r. not (contains ids r.id)) b left) in
    let none_of_b = ap length (listed b ids (λ x h. h)) in
    let sum = length-append (others ids b) (others ids left) in
    let fewer = length-keep (λ r. not (contains ids r.id)) left in
    let dropped = length-drop reminder_batch sorted in
    let size = length-by_due (due now s) in
    let all_fire = pass_fires w now s loads in
    subst (λ x. length (due now x) ≤ length (due now s) - reminder_batch) (sym all_fire)
      (omega (arith, after, same, split, parts, none_of_b, sum, fewer, dropped, size))

-- So many passes.
unfoldable pub passes : ℕ → World → ℕ → State → State
unfolding fire_due_reminders
passes zero w now s = s
passes (suc k) w now s = passes k w now (fire_due_reminders w now s)

-- Where at most 500 times k date reminders are due and the database answers, k passes fire all.
pub all_due_fire :
    (k : ℕ) (w : World) (now : ℕ) (s : State)
    → w.loads ≡ true
    → ((id : String) → w.marks id ≡ true)
    → length (due now s) ≤ reminder_batch * k
    → due now (passes k w now s) ≡ []
unfolding passes
all_due_fire zero w now s loads marks few = none_left (due now s) few
all_due_fire (suc k) w now s loads marks few =
    all_due_fire k w now (fire_due_reminders w now s) loads marks
      (omega (arith, pass-fewer w now s loads marks, few))
