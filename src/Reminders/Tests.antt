-- ===== src/Reminders/Tests.antt =====
-- Runs of reminders.
use revoked.Prelude.{◌≡◌, refl, ◌≤◌, true, none, some, [], ◌∷◌, arith, allowed}
use revoked.Reminders.{Reminder, Watched, State, World, kind_date, due, fire_reminder}
use revoked.Reminders.Firing.{Reached, reach, told, told_at_most_once}
use revoked.Reminders.Passes.{passes, all_due_fire}
use revoked.Reminders.Prepared.{by_kind, prepare_reminder, IsOwnMark, saved_is_in_reach}

abbrev entry : Watched
entry = record {
  id = "e";
  workspace = "w";
  label = "Passport";
  key = "passport";
  value = "v";
  sealed_value = "";
  content_hash = "";
  alias_of = "";
}

abbrev world : World
world = record {
  find_entry = λ id. some entry;
  aliases = λ id. [];
  is_member = λ workspace user. true;
  rune_count = λ s. 10;
  take_runes = λ n s. s;
  loads = true;
  loads_aliases = true;
  marks = λ id. true;
}

abbrev reminder : Reminder
reminder = record {
  id = "r";
  user = "ann";
  workspace = "w";
  entry = "e";
  kind = kind_date;
  due_at = some 5;
  watch = "";
  note = "";
  fired_at = none;
}

abbrev state : State
state = record { reminders = reminder ∷ []; notices = [] }

-- Two passes with the same copy: the second finds the mark.
abbrev reached : Reached
reached = record { world = world; now = 7; loaded = reminder; watched_id = ""; why = "today" }

twice : told "r" (reach (reached ∷ reached ∷ []) state) ≡ 1
unfolding reach fire_reminder
twice = refl

told_at_most_once_example : told "r" (reach (reached ∷ reached ∷ []) state) ≤ 1
told_at_most_once_example = told_at_most_once (reached ∷ reached ∷ []) state "r" refl

all_due_fire_example : due 7 (passes 1 world 7 state) ≡ []
all_due_fire_example = all_due_fire 1 world 7 state refl (λ id. refl) (omega arith)

-- A client that marks its own reminder as fired.
abbrev forged : Reminder
forged = record reminder { fired_at = some 9; workspace = "other" }

unmarked : prepare_reminder world (some reminder) forged ≡ allowed reminder
unfolding prepare_reminder by_kind
unmarked = refl

saved_is_in_reach_example :
    ((e : Watched) × (world.find_entry reminder.entry ≡ some e)
      × (reminder.workspace ≡ e.workspace))
    × (world.is_member reminder.workspace reminder.user ≡ true)
    × IsOwnMark (some reminder) reminder.fired_at
saved_is_in_reach_example = saved_is_in_reach world (some reminder) forged unmarked
