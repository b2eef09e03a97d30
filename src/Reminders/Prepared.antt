-- ===== src/Reminders/Prepared.antt =====
-- What a saved reminder may be: `prepareReminder` (hooks/reminders.go).
use revoked.Prelude.{
  ◌≡◌, refl, ap, subst, ◌∙◌, ℕ, Bool, true, false, not, ◌||◌, Option, none, some, ◌==◌, eqb, arith,
  ◌⊎◌, inl, inr, Bool-cases, Option-cases, if◌then◌else◌, Verdict, refused, allowed, ◌>>=◌,
  allowed_parts, past_guard, past_lookup, same_answer,
}
use revoked.Reminders.{Reminder, Watched, World, kind_date, kind_change}

pub data Refusal : Type 0 where
  kind_invalid record_missing due_required watch_missing : Refusal

abbrev pub same_date : Option ℕ → Option ℕ → Bool
same_date none none = true
same_date (some a) (some b) = eqb a b
same_date _ _ = false

-- The watch and the date that a kind leaves.
unfoldable pub by_kind : World → Watched → Reminder → Verdict Refusal Reminder
by_kind w entry r =
    if r.kind == kind_date
    then elim r.due_at as (λ _. Verdict Refusal Reminder) [
      | none ↦ refused due_required
      | some at ↦ allowed (record r { watch = "" })
    ]
    else if r.watch == ""
    then allowed (record r { due_at = none; watch = entry.id })
    else if r.watch == entry.id
    then allowed (record r { due_at = none })
    else elim (w.find_entry r.watch) as (λ _. Verdict Refusal Reminder) [
      | none ↦ refused watch_missing
      | some watched ↦
          if not (watched.workspace == entry.workspace)
          then refused watch_missing
          else allowed (record r { due_at = none })
    ]

-- Whether what the reminder waits for was changed.
abbrev pub condition_changed : Reminder → Reminder → Bool
condition_changed r original =
    not (r.kind == original.kind)
    || not (same_date r.due_at original.due_at)
    || not (r.watch == original.watch)
    || not (r.entry == original.entry)

-- What becomes of the mark: `none` for the original is a creation.
abbrev pub fired_after : Reminder → Option Reminder → Option ℕ
fired_after r none = none
fired_after r (some original) =
    if condition_changed r original
    then none
    else elim r.fired_at as (λ _. Option ℕ) [ none ↦ none | some _ ↦ original.fired_at ]

abbrev pub set_fired : Option Reminder → Reminder → Reminder
set_fired original r = record r { fired_at = fired_after r original }

abbrev in_reach : World → Option Reminder → Reminder → Watched → Verdict Refusal Reminder
in_reach w original r entry =
    if not (w.is_member entry.workspace r.user)
    then refused record_missing
    else by_kind w entry (record r { workspace = entry.workspace }) >>= λ r'.
        allowed (set_fired original r')

-- `prepareReminder`
unfoldable pub prepare_reminder : World → Option Reminder → Reminder → Verdict Refusal Reminder
unfolding by_kind
prepare_reminder w original r =
    if not (r.kind == kind_date || r.kind == kind_change)
    then refused kind_invalid
    else elim (w.find_entry r.entry) as (λ _. Verdict Refusal Reminder) [
      | none ↦ refused record_missing
      | some entry ↦ in_reach w original r entry
    ]

-- What the kinds keep of a reminder.
abbrev Keeps : Reminder → Verdict Refusal Reminder → Type 0
Keeps r (refused why) = Unit
Keeps r (allowed r') = (r'.user ≡ r.user) × (r'.workspace ≡ r.workspace) × (r'.entry ≡ r.entry)

by_kind-Keeps : (w : World) (entry : Watched) (r : Reminder) → Keeps r (by_kind w entry r)
unfolding by_kind
by_kind-Keeps w entry r = elim (Bool-cases (r.kind == kind_date)) [
  | inl dated ↦ elim (Option-cases r.due_at) [
    | inl never ↦ rw (dated, never, by_kind) tt
    | inr (at, dates) ↦ rw (dated, dates, by_kind) (refl, refl, refl)
  ]
  | inr changes ↦ elim (Bool-cases (r.watch == "")) [
    | inl itself ↦ rw (changes, itself, by_kind) (refl, refl, refl)
    | inr named ↦ elim (Bool-cases (r.watch == entry.id)) [
      | inl own ↦ rw (changes, named, own, by_kind) (refl, refl, refl)
      | inr another ↦ elim (Option-cases (w.find_entry r.watch)) [
        | inl gone ↦ rw (changes, named, another, gone, by_kind) tt
        | inr (watched, found) ↦ elim (Bool-cases (not (watched.workspace == entry.workspace))) [
          | inl outside ↦ rw (changes, named, another, found, outside, by_kind) tt
          | inr inside ↦ rw (changes, named, another, found, inside, by_kind) (refl, refl, refl)
        ]
      ]
    ]
  ]
]

-- The mark is none, or the one that the server had set.
abbrev pub IsOwnMark : Option Reminder → Option ℕ → Type 0
IsOwnMark original mark =
    (mark ≡ none) ⊎ ((o : Reminder) × (original ≡ some o) × (mark ≡ o.fired_at))

fired_after-IsOwnMark :
    (r : Reminder) (original : Option Reminder) → IsOwnMark original (fired_after r original)
fired_after-IsOwnMark r none = inl refl
fired_after-IsOwnMark r (some o) = elim (Bool-cases (condition_changed r o)) [
  | inl changed ↦ rw changed (inl refl)
  | inr same ↦ elim (Option-cases r.fired_at) [
    | inl cleared ↦ rw (same, cleared) (inl refl)
    | inr (at, set) ↦ rw (same, set) (inr (o, refl, refl))
  ]
]

-- A reminder that is saved is about an entry that is there, stands in that entry's workspace, of
-- which its owner is a member, and is marked as fired only if the server had marked it: a client
-- can clear the mark and never set it.
pub saved_is_in_reach :
    {r' : Reminder} (w : World) (original : Option Reminder) (r : Reminder)
    → prepare_reminder w original r ≡ allowed r'
    → ((entry : Watched) × (w.find_entry r'.entry ≡ some entry) × (r'.workspace ≡ entry.workspace))
      × (w.is_member r'.workspace r'.user ≡ true)
      × IsOwnMark original r'.fired_at
unfolding prepare_reminder
saved_is_in_reach {r'} w original r h =
    let (kinds, rest) =
      past_guard (not (r.kind == kind_date || r.kind == kind_change)) kind_invalid _ h in
    let (entry, found, rest) =
      past_lookup (w.find_entry r.entry) record_missing (in_reach w original r) rest in
    let (member, rest) =
      past_guard (not (w.is_member entry.workspace r.user)) record_missing _ rest in
    let placed : Reminder = record r { workspace = entry.workspace } in
    let (q, kept, last) =
      allowed_parts (by_kind w entry placed) (λ x. allowed (set_fired original x)) rest in
    let (owner, workspace, about) = subst (Keeps placed) kept (by_kind-Keeps w entry placed) in
    subst
      (λ x.
        ((e : Watched) × (w.find_entry x.entry ≡ some e) × (x.workspace ≡ e.workspace))
        × (w.is_member x.workspace x.user ≡ true)
        × IsOwnMark original x.fired_at)
      (same_answer last)
      (
        (entry, ap w.find_entry about ∙ found, workspace),
        rw (workspace, owner) (ground (arith, member)),
        fired_after-IsOwnMark q original,
      )
