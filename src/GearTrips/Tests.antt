-- ===== src/GearTrips/Tests.antt =====
-- Gear histories and the trips they make.
use ha_osrs_map.Base.{◌≡◌, refl, List, [], ◌∷◌, some, none, length, nat_eq}
use ha_osrs_map.Base.Dict.{get, put}
use ha_osrs_map.Base.Sets.{contains, add}
use ha_osrs_map.Base.Sorting.{insert, sort}
use ha_osrs_map.GearTrips.{
  Change, slot_map, slots_from, shared_count, wear_each, wear, close, dated_rows, begin_trip,
  trip_for, walk_row, walk, gear_trips, slot_rank,
}
use ha_osrs_map.GearTrips.Ordered.{NoOverlap, gear_trips-NoOverlap}

program : Unit {0}
unfolding slot_map slots_from shared_count wear_each wear close dated_rows begin_trip trip_for
    walk_row walk gear_trips get put contains add insert sort slot_rank
program = tt

abbrev changes : List Change
changes =
    record { changed_at = some 6000000; equipment = 11 ∷ 1 ∷ 21 ∷ 1 ∷ 31 ∷ 1 ∷ [] }
    ∷ record { changed_at = none; equipment = [] }
    ∷ record { changed_at = some 0; equipment = 11 ∷ 1 ∷ 21 ∷ 1 ∷ [] }
    ∷ record { changed_at = some 60000; equipment = 11 ∷ 1 ∷ 22 ∷ 1 ∷ [] }
    ∷ []

two_trips : length (gear_trips changes 7000000) ≡ 2
unfolding program
two_trips = refl

gear_trips-NoOverlap_example : NoOverlap (gear_trips changes 7000000)
gear_trips-NoOverlap_example = gear_trips-NoOverlap changes 7000000
