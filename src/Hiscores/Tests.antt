-- ===== src/Hiscores/Tests.antt =====
-- Three players of the hiscores, and the activities of one.
use Prim.Native.String.{String}
use ha_osrs_map.Base.{ℕ, ◌≡◌, refl, Bool, true, List, [], ◌∷◌, map, string_eq}
use ha_osrs_map.Base.Sorting.{sort, insert}
use ha_osrs_map.Hiscores.{
  ActivityEntry, ShownActivity, Player, Ranked, no_number, below_zero, number, activity_board,
  standing_on, entries_on, guild_board, activity_groups, group_entries,
}

program : Unit {0}
unfolding guild_board entries_on standing_on sort insert activity_groups group_entries
program = tt

abbrev entry : String → String → ℕ → ActivityEntry
entry activity kind score = record {
  activity = activity;
  kind = kind;
  score = number score;
  rank = below_zero 1;
  mode_rank = no_number;
}

abbrev players : List Player
players =
    record { name = "Zezima"; skills = []; activities = entry "Zulrah" "boss" 10 ∷ [] }
    ∷ record { name = "Durial"; skills = []; activities = entry "Zulrah" "boss" 20 ∷ [] }
    ∷ record { name = "Woox"; skills = []; activities = entry "Zulrah" "boss" 0 ∷ [] }
    ∷ []

abbrev in_order : String → String → Bool
in_order a b = true

ranks_two :
    map (λ (r : Ranked). r.name) (guild_board in_order players (activity_board "Zulrah"))
    ≡ "Durial" ∷ "Zezima" ∷ []
unfolding program
ranks_two = refl

abbrev entries : List ActivityEntry
entries =
    entry "Zulrah" "boss" 10
    ∷ entry "Clue Scrolls (elite)" "clue" 3
    ∷ entry "Chess" "board game" 1
    ∷ entry "Vorkath" "boss" 0
    ∷ []

-- What is unknown stands with the rest, and a score of 0 is none.
groups_them :
    map (λ (a : ShownActivity). a.name) (activity_groups entries).activities ≡ "Chess" ∷ []
unfolding program
groups_them = refl
