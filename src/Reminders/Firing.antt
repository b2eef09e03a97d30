-- ===== src/Reminders/Firing.antt =====
-- A reminder fires once (services/reminders.go).
use revoked.Prelude.{
  ◌≡◌, refl, ap, subst, ◌∙◌, ℕ, suc, ◌≤◌, String, true, false, not, List, [], ◌∷◌, ◌==◌, any, keep,
  map, length, arith, eq_iff, ◌⊎◌, inl, inr, Bool-cases, Option-cases,
}
use revoked.Reminders.{Reminder, State, World, matches_row, mark_row, notify, fire_reminder}

-- One pass reaches a reminder, with the copy of it that the pass loaded.
pub record Reached : Type 0 where
  pub world : World
  pub now : ℕ
  pub loaded : Reminder
  pub watched_id : String
  pub why : String

unfoldable pub reach : List Reached → State → State
unfolding fire_reminder
reach [] s = s
reach (f ∷ fs) s = reach fs (fire_reminder f.world f.now f.loaded f.watched_id f.why s)

abbrev pub told : String → State → ℕ
told id s = length (keep (λ n. n.reminder == id) s.notices)

-- The reminder was not told yet, or it was once and no row under its id is unfired.
abbrev pub IsOnce : String → State → Type 0
IsOnce id s = (told id s ≡ 0) ⊎ ((told id s ≡ 1) × (any (matches_row id) s.reminders ≡ false))

marked_gone :
    (now : ℕ) (id : String) (rs : List Reminder)
    → any (matches_row id) (map (mark_row now id) rs) ≡ false
marked_gone now id [] = refl
marked_gone now id (r ∷ rs) = elim (Bool-cases (matches_row id r)) [
  | inl row ↦ ground (arith, row, marked_gone now id rs)
  | inr other ↦ ground (arith, other, marked_gone now id rs)
]

marked_still :
    (now : ℕ) (id other : String) (rs : List Reminder)
    → any (matches_row id) rs ≡ false
    → any (matches_row id) (map (mark_row now other) rs) ≡ false
marked_still now id other [] h = h
marked_still now id other (r ∷ rs) h = ground (arith, marked_still now id other rs, h)

pub notify-told :
    (w : World) (r : Reminder) (watched_id why : String) (s : State) (id : String)
    → ((notify w r watched_id why s).reminders ≡ s.reminders)
      × (((told id (notify w r watched_id why s)) ≡ told id s)
          ⊎ ((r.id ≡ id) × (told id (notify w r watched_id why s) ≡ suc (told id s))))
notify-told w r watched_id why s id = elim (Bool-cases (not (w.is_member r.workspace r.user))) [
  | inl left ↦ rw left (refl, inl refl)
  | inr member ↦ elim (Option-cases (w.find_entry r.entry)) [
    | inl gone ↦ rw (member, gone) (refl, inl refl)
    | inr (entry, found) ↦ elim (Bool-cases (r.id == id)) [
      | inl this ↦ rw (member, found, this) (refl, inr ((eq_iff r.id id).0 this, refl))
      | inr other ↦ rw (member, found, other) (refl, inl refl)
    ]
  ]
]

-- What marking and telling a row that was unfired leaves.
told-IsOnce :
    (w : World) (now : ℕ) (r : Reminder) (watched_id why : String) (s : State) (id : String)
    → any (matches_row r.id) s.reminders ≡ true
    → IsOnce id s
    → IsOnce id
        (notify w r watched_id why (record s { reminders = map (mark_row now r.id) s.reminders }))
told-IsOnce w now r watched_id why s id unfired h =
    let m : State = record s { reminders = map (mark_row now r.id) s.reminders } in
    let (rows, tells) = notify-told w r watched_id why m id in
    elim h [
      | inl untold ↦ elim tells [
        | inl same ↦ inl (same ∙ untold)
        | inr (this, more) ↦ inr (
          more ∙ ap suc untold,
          rw rows (
              subst (λ k. any (matches_row k) (map (mark_row now r.id) s.reminders) ≡ false) this
                (marked_gone now r.id s.reminders)),
        )
      ]
      | inr (once, fired) ↦ elim tells [
        | inl same ↦ inr (same ∙ once, rw rows (marked_still now id r.id s.reminders fired))
        | inr (this, more) ↦
            let clash = subst (λ k. any (matches_row k) s.reminders ≡ true) this unfired in
            absurd (ground (arith, clash, fired))
      ]
    ]

fire_reminder-IsOnce :
    (w : World) (now : ℕ) (r : Reminder) (watched_id why : String) (s : State) (id : String)
    → IsOnce id s
    → IsOnce id (fire_reminder w now r watched_id why s)
unfolding fire_reminder
fire_reminder-IsOnce w now r watched_id why s id h = elim (Bool-cases (not (w.marks r.id))) [
  | inl unmarked ↦ rw (unmarked, fire_reminder) h
  | inr marks ↦ elim (Bool-cases (any (matches_row r.id) s.reminders)) [
    | inl unfired ↦
        rw (marks, unfired, fire_reminder) (told-IsOnce w now r watched_id why s id unfired h)
    | inr fired ↦ rw (marks, fired, fire_reminder) h
  ]
]

reach-IsOnce : (fs : List Reached) (s : State) (id : String) → IsOnce id s → IsOnce id (reach fs s)
unfolding reach
reach-IsOnce [] s id h = h
reach-IsOnce (f ∷ fs) s id h =
    reach-IsOnce fs (fire_reminder f.world f.now f.loaded f.watched_id f.why s) id
      (fire_reminder-IsOnce f.world f.now f.loaded f.watched_id f.why s id h)

-- However many passes reach a reminder, each with a copy that it loaded at any time before, in any
-- order and with any failures, it is told at most once.
pub told_at_most_once :
    (fs : List Reached) (s : State) (id : String) → told id s ≡ 0 → told id (reach fs s) ≤ 1
told_at_most_once fs s id untold = elim (reach-IsOnce fs s id (inl untold)) [
  | inl zero_times ↦ rw zero_times (omega arith)
  | inr (once, fired) ↦ rw once (omega arith)
]
