-- ===== src/EventPlaces.antt =====
-- Where events were put on the map: EventPlaces of site/src/canvas-map/event-places.js, on the
-- browser's store. The key that they are remembered under is an argument; times are in ms.
use ha_osrs_map.Base.{ℕ, ◌-◌, Bool, List, [], ◌∷◌, Option, none, some, leb, Eq}
use ha_osrs_map.Base.Dict.{Dict, get, put}
use ha_osrs_map.Storage.{Json, Browser, remember, remembered}
use ha_osrs_map.EventMarkers.{prune_each}
use ha_osrs_map.EventMarkers.Kept.{Marker, event_marker_ms}
pub mod Reload
pub mod Tests

pub record EventSpot : Type 0 where
  pub x : ℕ
  pub y : ℕ
  pub plane : ℕ
  pub at : ℕ

-- What is stored of a place: its four numbers; what is no finite number is none.
abbrev pub StoredSpot : Type 0
StoredSpot = List (Option ℕ)

-- The places, once they are loaded.
abbrev pub EventPlaces {ℓ} : Type ℓ → Type ℓ
EventPlaces EventId = Option (Dict EventId EventSpot)

-- `Array.isArray(place) && place.length === 4 && place.every(Number.isFinite)`
abbrev pub spot_of : StoredSpot → Option EventSpot
spot_of (some x ∷ some y ∷ some plane ∷ some at ∷ []) =
    some (record { x = x; y = y; plane = plane; at = at })
spot_of _ = none

abbrev pub stored_spot : EventSpot → StoredSpot
stored_spot spot = some spot.x ∷ some spot.y ∷ some spot.plane ∷ some spot.at ∷ []

abbrev pub stored_spots {ℓ} : {EventId : Type ℓ} → Dict EventId EventSpot → Dict EventId StoredSpot
stored_spots [] = []
stored_spots ((id, spot) ∷ spots) = (id, stored_spot spot) ∷ stored_spots spots

abbrev pub is_over : ℕ → EventSpot → Bool
is_over now spot = leb event_marker_ms (now - spot.at)

module _ {ℓ} {EventId : Type ℓ} ⦃e : Eq EventId⦄ where
  abbrev pub put_if : EventId → Option EventSpot → Dict EventId EventSpot → Dict EventId EventSpot
  put_if id none spots = spots
  put_if id (some spot) spots = put id spot spots

  -- The loop of `load`.
  unfoldable pub load_each :
      Dict EventId StoredSpot → Dict EventId EventSpot → Dict EventId EventSpot
  load_each [] spots = spots
  load_each ((id, stored) ∷ entries) spots = load_each entries (put_if id (spot_of stored) spots)

  -- The first loop of `remember`.
  unfoldable pub place_each {κ} :
      {Color : Type κ}
      → List (Marker EventId Color)
      → Dict EventId EventSpot
      → Dict EventId EventSpot
  place_each [] spots = spots
  place_each (marker ∷ markers) spots = place_each markers (
      put marker.id (record { x = marker.x; y = marker.y; plane = marker.plane; at = marker.at })
        spots)

  module _ {κ ν} {Key : Type κ} {Text : Type ν} ⦃k : Eq Key⦄
      (json : Json (Dict EventId StoredSpot) Text) (key : Key) where
    unfoldable pub load : EventPlaces EventId → Browser Key Text → Dict EventId EventSpot
    load (some spots) browser = spots
    load none browser = load_each (remembered json key [] browser) []

    -- `get`: the places as they are loaded then, and where the event is.
    unfoldable pub get_place :
        EventId → EventPlaces EventId → Browser Key Text → EventPlaces EventId × Option EventSpot
    get_place id places browser = let spots = load places browser in (some spots, get id spots)

    -- `remember`: the places after it, and the browser.
    unfoldable pub remember_places {γ} :
        {Color : Type γ}
        → List (Marker EventId Color)
        → ℕ
        → EventPlaces EventId
        → Browser Key Text
        → EventPlaces EventId × Browser Key Text
    remember_places markers now places browser =
        let all = place_each markers (load places browser) in
        let kept = prune_each (is_over now) all all in
        (some kept, remember json key (stored_spots kept) browser)
