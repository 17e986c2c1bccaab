-- ===== src/Slayer.antt =====
-- The slayer task and streaks of a player: site/src/data/slayer.js, but for its elements and words.
-- What the hub sends of it may be anything: a value that is no number from 0 on, or no text with
-- something in it, is none here. Numbers are below 2 ^ 53.
use Prim.Native.String.{String}
use ha_osrs_map.Base.{ℕ, ◌-◌, min, max, List, [], ◌∷◌, ◌++◌, Option, none, some, if◌then◌else◌, ltb}
pub mod Progress
pub mod Tests

pub record SentTask : Type 0 where
  pub name : Option String
  pub location : Option String
  pub remaining : Option ℕ
  pub amount : Option ℕ

pub record SlayerTask : Type 0 where
  pub name : Option String
  pub location : Option String
  pub remaining : ℕ
  pub amount : ℕ

pub record Streaks : Type 0 where
  pub normal : Option ℕ
  pub wilderness : Option ℕ
  pub mortimer : Option ℕ

-- The hub's `slayer`, if it is an object; streaks that are left out are none.
pub record SentSlayer : Type 0 where
  pub task : Option SentTask
  pub points : Option ℕ
  pub streaks : Streaks

pub record SlayerState : Type 0 where
  pub task : Option SlayerTask
  pub points : Option ℕ
  pub streaks : Streaks

abbrev pub or_remaining : Option ℕ → ℕ → ℕ
or_remaining none remaining = remaining
or_remaining (some amount) remaining = amount

-- A task of which something remains.
abbrev pub task_remaining : SentTask → Option ℕ → Option SlayerTask
task_remaining sent none = none
task_remaining sent (some remaining) =
    if ltb 0 remaining
    then some (record {
      name = sent.name;
      location = sent.location;
      remaining = remaining;
      amount = max (or_remaining sent.amount remaining) remaining;
    })
    else none

abbrev pub task_of : Option SentTask → Option SlayerTask
task_of none = none
task_of (some sent) = task_remaining sent sent.remaining

abbrev pub state_of : SentSlayer → SlayerState
state_of sent = record { task = task_of sent.task; points = sent.points; streaks = sent.streaks }

unfoldable pub slayer_state : Option SentSlayer → Option SlayerState
slayer_state none = none
slayer_state (some sent) = some (state_of sent)

-- The streaks by name.
pub data Streak : Type 0 where
  normal_streak : Streak
  wilderness_streak : Streak
  mortimer_streak : Streak

abbrev pub if_sent : Streak → Option ℕ → List (Streak × ℕ)
if_sent streak none = []
if_sent streak (some value) = (streak, value) ∷ []

abbrev pub sent_streaks : Streaks → List (Streak × ℕ)
sent_streaks s =
    if_sent normal_streak s.normal
    ++ (if_sent wilderness_streak s.wilderness ++ if_sent mortimer_streak s.mortimer)

abbrev pub longer_of : Streak × ℕ → Streak × ℕ → Streak × ℕ
longer_of a b = if ltb a.1 b.1 then b else a

-- `sent.reduce((a, b) => (b[1] > a[1] ? b : a))`, from a first on.
abbrev pub longest_from : Streak × ℕ → List (Streak × ℕ) → Streak × ℕ
longest_from longest [] = longest
longest_from longest (next ∷ streaks) = longest_from (longer_of longest next) streaks

abbrev pub longest_of : List (Streak × ℕ) → Option (Streak × ℕ)
longest_of [] = none
longest_of (first ∷ streaks) = some (longest_from first streaks)

abbrev pub if_running : Option ℕ → Option (Streak × ℕ) → Option (Streak × ℕ)
if_running none otherwise = otherwise
if_running (some value) otherwise = if ltb 0 value then some (normal_streak, value) else otherwise

unfoldable pub main_streak : Streaks → Option (Streak × ℕ)
main_streak s = if_running s.normal (longest_of (sent_streaks s))

-- `share` of `taskProgress`, as how many are done of how many.
unfoldable pub task_share : SlayerTask → ℕ × ℕ
task_share task =
    let done = task.amount - task.remaining in
    if ltb 0 task.amount then (min task.amount done, task.amount) else (0, 1)
