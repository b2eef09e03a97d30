-- ===== src/Reminders.antt =====
-- Reminders about entries (services/reminders.go, hooks/reminders.go).
pub mod Prepared
pub mod Passes
pub mod Firing
mod Tests
use Prim.Native.String
use revoked.Prelude.{
  ◌≡◌, ℕ, zero, suc, ◌+◌, String, Bool, true, false, not, ◌&&◌, ◌||◌, Option, none, some, List, [],
  ◌∷◌, ◌++◌, ◌==◌, leb, ltb, any, keep, map, take, contains, if◌then◌else◌,
}

abbrev pub reminder_batch : ℕ
reminder_batch = 500

abbrev pub kind_date : String
kind_date = "date"

abbrev pub kind_change : String
kind_change = "change"

-- A row of reminders; `none` is an empty date.
pub record Reminder : Type 0 where
  pub id : String
  pub user : String
  pub workspace : String
  pub entry : String
  pub kind : String
  pub due_at : Option ℕ
  pub watch : String
  pub note : String
  pub fired_at : Option ℕ

-- A vault entry, as far as reminders read it.
pub record Watched : Type 0 where
  pub id : String
  pub workspace : String
  pub label : String
  pub key : String
  pub value : String
  pub sealed_value : String
  pub content_hash : String
  pub alias_of : String

-- A notification, with the reminder that it came from.
pub record Notice : Type 0 where
  pub reminder : String
  pub user : String
  pub workspace : String
  pub title : String
  pub message : String
  pub entry : String

pub record State : Type 0 where
  pub reminders : List Reminder
  pub notices : List Notice

-- The vault and its members, the number of characters of a text and its first ones, and which
-- reads and writes the database takes.
pub record World : Type 0 where
  pub find_entry : String → Option Watched
  pub aliases : String → List Watched
  pub is_member : String → String → Bool
  pub rune_count : String → ℕ
  pub take_runes : ℕ → String → String
  pub loads : Bool
  pub loads_aliases : Bool
  pub marks : String → Bool

abbrev pub is_unfired : Reminder → Bool
is_unfired r = elim r.fired_at [ none ↦ true | some _ ↦ false ]

-- `RecordName`
abbrev pub record_name : Watched → String
record_name e = if not (e.label == "") then e.label else e.key

abbrev name_or : Watched → Option Watched → String
name_or entry none = record_name entry
name_or entry (some watched) = record_name watched

-- The message of a notification, without and with the note.
abbrev pub message_of : World → Watched → String → String → String → String
message_of w entry watched_id why note =
    let name =
      if not (watched_id == entry.id)
      then name_or entry (w.find_entry watched_id)
      else record_name entry in
    let message =
      if not (watched_id == "") then String.◌++◌ "“" (String.◌++◌ name "” changed.") else why in
    if not (note == "") then String.◌++◌ note (String.◌++◌ "\n" message) else message

abbrev pub title_of : World → Watched → String
title_of w entry =
    let title = String.◌++◌ "Reminder: " (record_name entry) in
    if ltb 200 (w.rune_count title) then String.◌++◌ (w.take_runes 199 title) "…" else title

-- The guarded update: the row under an id that has not fired.
abbrev pub matches_row : String → Reminder → Bool
matches_row id r = r.id == id && is_unfired r

abbrev pub mark_row : ℕ → String → Reminder → Reminder
mark_row now id r = if matches_row id r then record r { fired_at = some now } else r

-- The notification of a reminder that was just marked.
abbrev pub notify : World → Reminder → String → String → State → State
notify w r watched_id why s =
    if not (w.is_member r.workspace r.user) then s else elim (w.find_entry r.entry) [
      | none ↦ s
      | some entry ↦
          let notice : Notice = record {
            reminder = r.id;
            user = r.user;
            workspace = r.workspace;
            title = title_of w entry;
            message = message_of w entry watched_id why r.note;
            entry = entry.id;
          } in
          record s { notices = notice ∷ s.notices }
    ]

-- `fireReminder`, on a copy of the reminder that was loaded before
unfoldable pub fire_reminder : World → ℕ → Reminder → String → String → State → State
fire_reminder w now r watched_id why s =
    if not (w.marks r.id)
    then s
    else if not (any (matches_row r.id) s.reminders)
    then s
    else notify w r watched_id why (record s { reminders = map (mark_row now r.id) s.reminders })

abbrev pub is_due : ℕ → Reminder → Bool
is_due now r =
    r.kind == kind_date && is_unfired r && (elim r.due_at [ none ↦ false | some at ↦ leb at now ])

abbrev due_le : Reminder → Reminder → Bool
due_le r q = elim r.due_at [
  | none ↦ true
  | some at ↦ elim q.due_at [ none ↦ false | some at' ↦ leb at at' ]
]

unfoldable pub insert_due : Reminder → List Reminder → List Reminder
insert_due r [] = r ∷ []
insert_due r (q ∷ qs) = let rest = insert_due r qs in if due_le r q then r ∷ q ∷ qs else q ∷ rest

-- The order of the query.
unfoldable pub by_due : List Reminder → List Reminder
unfolding insert_due
by_due [] = []
by_due (r ∷ rs) = insert_due r (by_due rs)

abbrev pub due : ℕ → State → List Reminder
due now s = keep (is_due now) s.reminders

unfoldable pub fire_all : World → ℕ → List Reminder → State → State
unfolding fire_reminder
fire_all w now [] s = s
fire_all w now (r ∷ rs) s =
    fire_all w now rs
      (fire_reminder w now r "" "You asked to be reminded about this entry today." s)

abbrev pub batch : ℕ → State → List Reminder
batch now s = take reminder_batch (by_due (due now s))

-- `FireDueReminders`
unfoldable pub fire_due_reminders : World → ℕ → State → State
unfolding fire_all by_due
fire_due_reminders w now s = if not w.loads then s else fire_all w now (batch now s) s

unfoldable pub fire_watching : World → ℕ → List Reminder → State → State
unfolding fire_reminder
fire_watching w now [] s = s
fire_watching w now (r ∷ rs) s = fire_watching w now rs (fire_reminder w now r r.watch "" s)

-- The entries whose data changed with one: itself and its aliases.
abbrev pub watched_ids : World → Watched → List String
watched_ids w changed =
    changed.id ∷ (if w.loads_aliases then map (λ a. a.id) (w.aliases changed.id) else [])

-- `FireChangeReminders`
unfoldable pub fire_change_reminders : World → ℕ → Watched → State → State
unfolding fire_watching
fire_change_reminders w now changed s =
    let watches = λ (r : Reminder).
      r.kind == kind_change && is_unfired r && contains (watched_ids w changed) r.watch in
    if not w.loads then s else fire_watching w now (keep watches s.reminders) s

-- `recordContentChanged`
abbrev pub record_content_changed : Watched → Watched → Bool
record_content_changed rec original =
    not (rec.value == original.value)
    || not (rec.sealed_value == original.sealed_value)
    || not (rec.content_hash == original.content_hash)
    || not (rec.alias_of == original.alias_of)
