-- ===== src/EventLayer/Tests.antt =====
-- A layer with a live event of a player on the map, and the theorems at it.
use ha_osrs_map.Base.{
  ℕ, ◌≡◌, refl, true, false, List, [], ◌∷◌, Option, none, some, nat_eq, if◌then◌else◌, All,
}
use ha_osrs_map.Base.Dict.{Dict, get, has, put}
use ha_osrs_map.Base.Sets.{contains}
use ha_osrs_map.Storage.{Json, Browser, remembered}
use ha_osrs_map.EventView.{HubEvent, default_event_filters, event_is_fresh, level_up}
use ha_osrs_map.EventMarkers.{add, add_each, add_to, drop_oldest}
use ha_osrs_map.EventMarkers.Kept.{Marker}
use ha_osrs_map.EventPlaces.{StoredSpot, load, load_each}
use ha_osrs_map.EventLayer.{
  asks_places, EventLayer, Location, Player, Trails, place_of, place_at, placed_by_player,
  place_live, sync_trails,
}
use ha_osrs_map.EventLayer.Remembered.{place_live-remembered}
use ha_osrs_map.EventLayer.Synced.{kept_marks, sync_trails-marks}
use ha_osrs_map.EventLayer.Bounded.{Operation, feeds, places_live, syncs, after, IsFew, after-IsFew}

abbrev Spots : Type 0
Spots = Dict ℕ StoredSpot

abbrev plain : Json Spots Spots
plain = record { stringify = λ v. v; parse = λ t. some t; parse-stringify = λ v i. some v }

abbrev empty : Browser ℕ Spots
empty = record { items = []; readable = true; accepts = λ key text. true }

abbrev event : HubEvent ℕ
event = record { id = some 6; event_type = level_up; value_gp = none; occurred = some 2000000 }

abbrev member_of : HubEvent ℕ → ℕ
member_of _ = 1

abbrev location_of : HubEvent ℕ → Option Location
location_of _ = none

abbrev own_color : ℕ → ℕ
own_color name = name

abbrev player_at : ℕ → ℕ → Option (Player ℕ)
player_at x name =
    some (record { coordinates = some (record { x = x; y = 3201; plane = 0 }); color = some 7 })

abbrev new_layer : EventLayer ℕ ℕ ℕ ℕ
new_layer = record {
  markers = record { live = []; trails = []; pops = [] };
  places = none;
  filters = default_event_filters;
  rendered = [];
  live = event ∷ [];
  heard = true;
  is_news = true;
}

-- The event is put at x 3200, and stays there for a page that finds its player at x 3300.
place_live-remembered_example :
    let added =
      (add
        (event ∷ [])
        2010000
        (place_of member_of location_of own_color (player_at 3200) (load plain 1 none empty))
        true
        new_layer.markers).1 in
    let after_it =
      place_live member_of location_of own_color plain 1 2010000 (player_at 3200) new_layer empty in
    All
      (λ (m : Marker ℕ ℕ).
        place_of member_of location_of own_color
          (player_at 3300)
          (load plain 1 none after_it.1)
          m.event
        ≡ some (record { x = m.x; y = m.y; plane = m.plane; color = 7; known = true }))
      (placed_by_player member_of location_of own_color added)
place_live-remembered_example =
    place_live-remembered member_of location_of own_color plain 1 2010000 (player_at 3200)
      (player_at 3300) new_layer empty tt refl (λ text. refl)

is_put :
    placed_by_player member_of location_of own_color
      (add
        (event ∷ [])
        2010000
        (place_of member_of location_of own_color (player_at 3200) (load plain 1 none empty))
        true
        new_layer.markers).1
    ≡ record {
      id = 6;
      event = event;
      x = 3200;
      y = 3201;
      plane = 0;
      color = 7;
      at = 2000000;
      approximate = false;
      arrived = some 2010000;
    }
      ∷ []
unfolding add add_each add_to drop_oldest event_is_fresh place_of place_at load load_each remembered
    get has put
is_put = refl

-- The event does not say where it happened, so that the places are loaded for it.
asks_where :
    asks_places member_of location_of own_color 2010000 (λ e. none) true (event ∷ []) ([], [])
    ≡ true
unfolding asks_places add_to place_at has
asks_where = refl

abbrev trails : Trails ℕ ℕ ℕ
trails = record {
  names = 1 ∷ 2 ∷ [];
  marks_on = λ name.
      record {
        id = name;
        event = event;
        x = 3200;
        y = 3201;
        plane = 0;
        t = 2000;
        approximate = false;
      }
      ∷ [];
  color_of = λ name. name;
}

sync_trails-marks_example :
    get 2 (sync_trails trails new_layer).markers.trails
    ≡ (if contains 2 trails.names then some (kept_marks trails 2) else none)
sync_trails-marks_example = sync_trails-marks trails new_layer 2

abbrev operations : List (Operation ℕ ℕ ℕ)
operations =
    syncs trails
    ∷ places_live 2020000 (player_at 3300)
    ∷ feeds (record { events = event ∷ []; initial = true }) 2010000 (player_at 3200)
    ∷ []

after-IsFew_example :
    IsFew
      (after member_of location_of own_color plain 1
        (λ e. 0)
        (λ text. true)
        operations
        (new_layer, empty)).0.markers.live
after-IsFew_example =
    after-IsFew member_of location_of own_color plain 1 (λ e. 0) (λ text. true) operations new_layer
      empty refl
