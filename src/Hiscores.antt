-- ===== src/Hiscores.antt =====
-- The official hiscores: hiscoresView and guildBoard of site/src/data/hiscores.js. A board stands
-- here as what its key names; how names compare (`localeCompare`) is a parameter.
use Prim.Native.String.{String}
use ha_osrs_map.Base.{
  ℕ, suc, Bool, ◌&&◌, ◌||◌, List, [], ◌∷◌, ◌++◌, map, Option, none, some, if◌then◌else◌, ltb, leb,
  nat_beq, find_first, ◌==◌, string_eq,
}
use ha_osrs_map.Base.Sorting.{sort}
pub mod Groups
pub mod Ranking
pub mod Tests

-- A number as the hub has it: not one, one below 0, or one from 0 on.
pub data Number : Type 0 where
  no_number : Number
  below_zero : ℕ → Number
  number : ℕ → Number

pub record SkillEntry : Type 0 where
  pub skill : String
  pub level : Number
  pub xp : Number
  pub rank : Number
  pub mode_rank : Number

pub record ActivityEntry : Type 0 where
  pub activity : String
  pub kind : String
  pub score : Number
  pub rank : Number
  pub mode_rank : Number

pub record ShownSkill : Type 0 where
  pub name : String
  pub level : Option ℕ
  pub xp : Option ℕ
  pub rank : Option ℕ
  pub mode_rank : Option ℕ

pub record ShownActivity : Type 0 where
  pub name : String
  pub score : ℕ
  pub rank : Option ℕ
  pub mode_rank : Option ℕ

pub record ActivityGroups : Type 0 where
  pub bosses : List ShownActivity
  pub clues : List ShownActivity
  pub activities : List ShownActivity

abbrev pub listed : Number → Option ℕ
listed (number n) = some n
listed _ = none

-- `x ? x : null` of a number that may be none.
abbrev pub positive : Option ℕ → Option ℕ
positive none = none
positive (some n) = if nat_beq n 0 then none else some n

abbrev pub rank_of : Number → Option ℕ
rank_of value = positive (listed value)

abbrev pub shown_skill : SkillEntry → ShownSkill
shown_skill entry = record {
  name = entry.skill;
  level = listed entry.level;
  xp = listed entry.xp;
  rank = rank_of entry.rank;
  mode_rank = rank_of entry.mode_rank;
}

abbrev pub shown_activity : ActivityEntry → ℕ → ShownActivity
shown_activity entry score = record {
  name = entry.activity;
  score = score;
  rank = rank_of entry.rank;
  mode_rank = rank_of entry.mode_rank;
}

-- `groups[entry.kind] || groups.activity`, with the entry pushed to it. No kind is a name that every
-- object of JavaScript answers to, such as `constructor`.
abbrev pub push_to : String → ShownActivity → ActivityGroups → ActivityGroups
push_to kind shown groups =
    if kind == "boss"
    then record groups { bosses = groups.bosses ++ (shown ∷ []) }
    else if kind == "clue"
    then record groups { clues = groups.clues ++ (shown ∷ []) }
    else record groups { activities = groups.activities ++ (shown ∷ []) }

-- The loop over the activities, for an entry with this score.
abbrev pub group_entry : ActivityEntry → Option ℕ → ActivityGroups → ActivityGroups
group_entry entry none groups = groups
group_entry entry (some score) groups = push_to entry.kind (shown_activity entry score) groups

unfoldable pub group_entries : List ActivityEntry → ActivityGroups → ActivityGroups
group_entries [] groups = groups
group_entries (entry ∷ entries) groups =
    group_entries entries (group_entry entry (rank_of entry.score) groups)

abbrev pub most_first : ShownActivity → ShownActivity → Bool
most_first a b = leb b.score a.score

unfoldable pub activity_groups : List ActivityEntry → ActivityGroups
activity_groups entries =
    let groups = group_entries entries (record { bosses = []; clues = []; activities = [] }) in
    record groups {
      bosses = sort most_first groups.bosses;
      activities = sort most_first groups.activities;
    }

unfoldable pub shown_skills : List SkillEntry → List ShownSkill
shown_skills entries = map shown_skill entries

-- A player of the guild, as the hub lists them.
pub record Player : Type 0 where
  pub name : String
  pub skills : List SkillEntry
  pub activities : List ActivityEntry

pub data Board : Type 0 where
  skill_board : String → Board
  activity_board : String → Board

-- A player on a board: xp and level, or a score.
pub data Standing : Type 0 where
  by_skill : Option ℕ → Option ℕ → Standing
  by_score : ℕ → Standing

pub record Ranked : Type 0 where
  pub name : String
  pub standing : Standing

abbrev pub skill_standing : Option ℕ → Option ℕ → Option Standing
skill_standing none none = none
skill_standing xp level = some (by_skill xp level)

abbrev pub standing_in_skill : Option SkillEntry → Option Standing
standing_in_skill none = none
standing_in_skill (some entry) = skill_standing (listed entry.xp) (listed entry.level)

abbrev pub score_standing : Option ℕ → Option Standing
score_standing none = none
score_standing (some score) = some (by_score score)

abbrev pub standing_in_activity : Option ActivityEntry → Option Standing
standing_in_activity none = none
standing_in_activity (some entry) = score_standing (rank_of entry.score)

unfoldable pub standing_on : Board → Player → Option Standing
standing_on (skill_board name) player =
    standing_in_skill (find_first (λ (entry : SkillEntry). entry.skill == name) player.skills)
standing_on (activity_board name) player =
    standing_in_activity
      (find_first (λ (entry : ActivityEntry). entry.activity == name) player.activities)

abbrev pub ranked_if : String → Option Standing → List Ranked → List Ranked
ranked_if name none rest = rest
ranked_if name (some standing) rest = record { name = name; standing = standing } ∷ rest

unfoldable pub entries_on : Board → List Player → List Ranked
entries_on board [] = []
entries_on board (player ∷ players) =
    ranked_if player.name (standing_on board player) (entries_on board players)

-- One more than a number, and 0 for none: `?? -1`, moved up by one.
abbrev pub above_none : Option ℕ → ℕ
above_none none = 0
above_none (some n) = suc n

-- `value`: what is compared first, and next.
abbrev pub first_value : Standing → ℕ
first_value (by_skill xp level) = above_none xp
first_value (by_score score) = suc score

abbrev pub next_value : Standing → ℕ
next_value (by_skill xp level) = above_none level
next_value (by_score score) = 1

abbrev pub best_first : (String → String → Bool) → Ranked → Ranked → Bool
best_first le a b =
    ltb (first_value b.standing) (first_value a.standing)
    || nat_beq (first_value b.standing) (first_value a.standing)
      && (ltb (next_value b.standing) (next_value a.standing)
          || nat_beq (next_value b.standing) (next_value a.standing) && le a.name b.name)

unfoldable pub guild_board : (String → String → Bool) → List Player → Board → List Ranked
guild_board le players board = sort (best_first le) (entries_on board players)
