-- ===== src/EventPlaces/Tests.antt =====
-- An event put at a place, and what is remembered of it.
use ha_osrs_map.Base.{ℕ, ◌≡◌, refl, true, false, [], ◌∷◌, none, some, nat_eq}
use ha_osrs_map.Base.Dict.{Dict, get, put, delete}
use ha_osrs_map.Storage.{Json, Browser, remember, remembered}
use ha_osrs_map.EventView.{level_up}
use ha_osrs_map.EventMarkers.{prune_each}
use ha_osrs_map.EventMarkers.Kept.{Marker}
use ha_osrs_map.EventPlaces.{StoredSpot, get_place, remember_places, load, load_each, place_each}

program : Unit {0}
unfolding get_place remember_places load load_each place_each prune_each get put delete remember
    remembered
program = tt

abbrev plain : Json (Dict ℕ StoredSpot) (Dict ℕ StoredSpot)
plain = record { stringify = λ v. v; parse = λ t. some t; parse-stringify = λ v i. some v }

abbrev empty : Browser ℕ (Dict ℕ StoredSpot)
empty = record { items = []; readable = true; accepts = λ key text. true }

abbrev marker : ℕ → ℕ → Marker ℕ ℕ
marker id at = record {
  id = id;
  event = record { id = some id; event_type = level_up; value_gp = none; occurred = some at };
  x = 3200;
  y = 3201;
  plane = 0;
  color = 7;
  at = at;
  approximate = false;
  arrived = none;
}

forgets_old :
    (remember_places plain 1 (marker 5 1000 ∷ marker 6 2000000 ∷ []) 2100000 none empty).0
    ≡ some ((6, record { x = 3200; y = 3201; plane = 0; at = 2000000 }) ∷ [])
unfolding program
forgets_old = refl
