-- ===== src/Guild/Tests.antt =====
-- A guild of one, a poll that brings another, and the theorems at these.
use Prim.Native.String.{String}
use ha_osrs_map.Base.{
  ℕ, ◌≡◌, refl, Bool, true, false, [], ◌∷◌, none, some, Option, nat_beq, keep_if, string_eq, nat_eq,
}
use ha_osrs_map.Base.Dict.{Dict, has, get, put, delete}
use ha_osrs_map.Base.Sets.{contains, add}
use ha_osrs_map.Members.{Member, new_member}
use ha_osrs_map.Members.Update.{update_presence}
use ha_osrs_map.Members.Coherent.{new_member-IsCoherent}
use ha_osrs_map.Guild.{
  Entry, Poll, GuildData, entry_names, update_guild, enter, enter_all, take_data, ask_all, any_asks,
  leave_all, gather, conclude, sets_equal,
}
use ha_osrs_map.Guild.Roster.{update_guild-members}
use ha_osrs_map.Guild.Reload.{update_guild-from_time}
use ha_osrs_map.Regions.{Place, instance_area, place_eq, same_place}
use ha_osrs_map.Guild.Groups.{group_all, group_by_region, group_by_world}
use ha_osrs_map.Guild.Entries.{entry_of}
use ha_osrs_map.Guild.Grouped.{is_at, is_in, group_at, groups-gather}
use ha_osrs_map.Base.Sorting.{sort, insert}
use ha_osrs_map.Guild.Coherent.{AllCoherent, update_guild-AllCoherent}

abbrev no_names : Dict ℕ String
no_names = []

abbrev every_item : ℕ → Bool
every_item id = true

abbrev in_order : String → String → Bool
in_order a b = true

abbrev any_order : Option Place → Option Place → Bool
any_order a b = true

abbrev guild : GuildData ℕ
guild = record { members = ("Zezima", new_member "Zezima") ∷ []; last_told = none }

abbrev zezima_online : Entry
zezima_online = record { name = "Zezima"; online = true; last_seen = some 1000 }

abbrev poll : Poll ℕ
poll = record { cursor = some 2000; roster = zezima_online ∷ []; data_of = [] }

abbrev joined : Poll ℕ
joined = record {
  cursor = some 2000;
  roster = record { name = "Durial"; online = false; last_seen = none } ∷ [];
  data_of = [];
}

program : Unit {0}
unfolding update_guild gather conclude enter enter_all take_data ask_all any_asks leave_all has get
    put delete contains add update_presence new_member sets_equal
program = tt

-- Who has no data yet asks for a full reload, once.
newcomer_asks : (update_guild in_order no_names every_item joined guild).from_time ≡ 0
unfolding program
newcomer_asks = refl

asks_once :
    let again = (update_guild in_order no_names every_item joined guild).guild in
    (update_guild in_order no_names every_item joined again).from_time ≡ 2000
unfolding program
asks_once = refl

update_guild-members_example :
    has "Zezima" (update_guild in_order no_names every_item joined guild).guild.members
    ≡ contains "Zezima" (entry_names joined.roster)
update_guild-members_example =
    update_guild-members in_order no_names every_item joined guild "Zezima"

update_guild-from_time_example :
    (update_guild in_order no_names every_item poll guild).from_time ≡ 2000
unfolding program
update_guild-from_time_example =
    update_guild-from_time in_order no_names every_item poll guild (refl, tt)

update_guild-AllCoherent_example :
    AllCoherent no_names every_item
      (update_guild in_order no_names every_item joined guild).guild.members
update_guild-AllCoherent_example =
    update_guild-AllCoherent no_names every_item in_order joined guild
      (new_member-IsCoherent ℕ no_names every_item "Zezima", tt)

abbrev in_instance : Member ℕ
in_instance = record (new_member "Zezima") {
  online = true;
  coordinates = some (record { x = some 6500; y = some 3200; plane = some 0 });
  region = some instance_area;
}

abbrev in_world : Member ℕ
in_world = record (new_member "Durial") {
  online = true;
  stats = some (record {
    hitpoints = some 10;
    max_hitpoints = some 10;
    prayer = some 1;
    max_prayer = some 1;
    world = some 302;
  });
}

groups-gather_example :
    (keep_if
        (λ group. same_place group.place (some instance_area))
        (group_by_region any_order (in_instance ∷ in_world ∷ []))
      ≡ group_at
          (some instance_area)
          (keep_if (is_at (some instance_area)) (in_instance ∷ in_world ∷ [])))
    × (keep_if (λ group. nat_beq group.0 302) (group_by_world (in_instance ∷ in_world ∷ []))
        ≡ entry_of 302 (keep_if (is_in 302) (in_instance ∷ in_world ∷ [])))
groups-gather_example =
    groups-gather any_order (in_instance ∷ in_world ∷ []) (some instance_area) 302

-- One group at the place, of the one who is there.
one_is_there :
    group_by_region any_order (in_instance ∷ in_world ∷ [])
    ≡ group_at (some instance_area) (in_instance ∷ [])
unfolding group_by_region group_all sort insert get put new_member
one_is_there = refl
