-- ===== src/EventLayer.antt =====
-- The events on the map: EventLayer of site/src/canvas-map/event-layer.js, on EventMarkers and
-- EventPlaces. Whose an event is, and where it says it happened, are functions of it, since its
-- record has only what the markers read; the players on the map, the clock and the trails are
-- arguments. Coordinates are numbers. `find` is that of EventMarkers.
use ha_osrs_map.Base.{
  is_empty, ℕ, ◌+◌, ◌-◌, ◌*◌, Bool, true, false, not, ◌&&◌, ◌||◌, List, [], ◌∷◌, map, Option, none,
  some, if◌then◌else◌, leb, length, drop, keep_if, Eq,
}
use ha_osrs_map.Base.Dict.{Dict, get, has}
use ha_osrs_map.Storage.{Json, Browser}
use ha_osrs_map.LiveEvents.{hear}
use ha_osrs_map.Trail.Point.{in_instance_space, abs_diff}
use ha_osrs_map.EventView.{event_kind, HubEvent, EventFilters, event_passes}
use ha_osrs_map.EventMarkers.{
  add, add_to, is_shown_kind, clear_live, prune, pop, set_trail_marks, keep_trails,
  trail_marks_between,
}
use ha_osrs_map.EventMarkers.Kept.{
  event_marker_ms, Whereabouts, Marker, Mark, TrailMark, EventMarkers,
}
use ha_osrs_map.EventMarkers.Visible.{visible, or_else}
use ha_osrs_map.EventMarkers.Layout.{View, Item, layout_markers}
use ha_osrs_map.EventPlaces.{EventSpot, StoredSpot, EventPlaces, load, remember_places}
pub mod Added
pub mod Remembered
pub mod Synced
pub mod Bounded
pub mod Tests

abbrev pub replay_pop_max : ℕ
replay_pop_max = 3

abbrev pub hit_slack_px : ℕ
hit_slack_px = 3

pub record Spot : Type 0 where
  pub x : ℕ
  pub y : ℕ
  pub plane : ℕ

-- Where an event says it happened, as the hub has it.
pub record Location : Type 0 where
  pub x : ℕ
  pub y : ℕ
  pub plane : Option ℕ

-- A player on the map; without coordinates when one of them is no number.
pub record Player {κ} (Color : Type κ) : Type κ where
  pub coordinates : Option Spot
  pub color : Option Color

-- What is published of the live events.
pub record Feed {ℓ} (EventId : Type ℓ) : Type ℓ where
  pub events : List (HubEvent EventId)
  pub initial : Bool

-- The trails on the map, as the layer of the trails answers.
pub record Trails {ℓ κ ν} (EventId : Type ℓ) (Color : Type κ) (Name : Type ν)
    : Type (ℓ ⊔ κ ⊔ ν) where
  pub names : List Name
  pub marks_on : Name → List (Mark EventId)
  pub color_of : Name → Color

-- `heard` is what `bringsNews` keeps.
pub record EventLayer {ℓ κ ν τ} (EventId : Type ℓ) (Color : Type κ) (Name : Type ν) (Text : Type τ)
    : Type (ℓ ⊔ κ ⊔ ν ⊔ τ) where
  pub markers : EventMarkers EventId Color Name
  pub places : EventPlaces EventId
  pub filters : EventFilters
  pub rendered : List (Item EventId Color Text)
  pub live : List (HubEvent EventId)
  pub heard : Bool
  pub is_news : Bool

abbrev pub plane_or_zero : Option ℕ → ℕ
plane_or_zero none = 0
plane_or_zero (some plane) = plane

-- `eventPlace`, of what the event says.
unfoldable pub place_at : Option Location → Option Spot
unfolding in_instance_space
place_at none = none
place_at (some location) =
    if in_instance_space location.x
    then none
    else some (record { x = location.x; y = location.y + 1; plane = plane_or_zero location.plane })

abbrev pub is_unplaced : Option Spot → Bool
is_unplaced none = true
is_unplaced (some spot) = false

abbrev pub color_or {κ} : {Color : Type κ} → Color → Option (Player Color) → Color
color_or own none = own
color_or own (some player) = elim player.color [ none ↦ own | some color ↦ color ]

abbrev pub spot_of_player {κ} : {Color : Type κ} → Option (Player Color) → Option Spot
spot_of_player none = none
spot_of_player (some player) = player.coordinates

abbrev pub remembered_spot : Option EventSpot → Option Spot
remembered_spot none = none
remembered_spot (some spot) = some (record { x = spot.x; y = spot.y; plane = spot.plane })

abbrev pub place_by_id {ℓ} :
    {EventId : Type ℓ} ⦃e : Eq EventId⦄ → Option EventId → Dict EventId EventSpot → Option Spot
place_by_id none spots = none
place_by_id (some id) spots = remembered_spot (get id spots)

abbrev pub whereabouts {κ} :
    {Color : Type κ} → Color → Bool → Option Spot → Option (Whereabouts Color)
whereabouts color known none = none
whereabouts color known (some spot) =
    some (record { x = spot.x; y = spot.y; plane = spot.plane; color = color; known = known })

-- The place that is known, or else the player's.
abbrev pub known_or {κ} :
    {Color : Type κ} → Color → Option Spot → Option Spot → Option (Whereabouts Color)
known_or color none around = whereabouts color false around
known_or color (some place) around = whereabouts color true (some place)

module _ {ℓ κ ν} {EventId : Type ℓ} {Color : Type κ} {Name : Type ν} ⦃e : Eq EventId⦄
    (member_of : HubEvent EventId → Name) (location_of : HubEvent EventId → Option Location)
    (color_for_name : Name → Color) where
  -- `placeOf`, with the places that events were put at.
  unfoldable pub place_of :
      (Name → Option (Player Color))
      → Dict EventId EventSpot
      → HubEvent EventId
      → Option (Whereabouts Color)
  place_of player_of spots event =
      let player = player_of (member_of event) in
      known_or (color_or (color_for_name (member_of event)) player)
        (or_else (place_at (location_of event)) (place_by_id event.id spots))
        (spot_of_player player)

  -- The markers of `added` that only their player places.
  abbrev pub placed_by_player : List (Marker EventId Color) → List (Marker EventId Color)
  placed_by_player added =
      keep_if
        (λ (m : Marker EventId Color).
          not m.approximate && is_unplaced (place_at (location_of m.event)))
        added

  -- Whether `add` has the place of an event looked up, and the event does not say it itself.
  abbrev pub asks_place :
      ℕ → HubEvent EventId → Option EventId → Option ℕ → Dict EventId (Marker EventId Color) → Bool
  asks_place now event (some id) (some at) live =
      not (has id live || leb event_marker_ms (now - at) || not (is_shown_kind (event_kind event)))
      && is_unplaced (place_at (location_of event))
  asks_place now event _ _ live = false

  -- Whether the places are asked for while `add` goes through the events.
  unfoldable pub asks_places :
      ℕ
      → (HubEvent EventId → Option (Whereabouts Color))
      → Bool
      → List (HubEvent EventId)
      → Dict EventId (Marker EventId Color) × List (Marker EventId Color)
      → Bool
  asks_places now place news [] so_far = false
  asks_places now place news (event ∷ events) so_far =
      asks_place now event event.id event.occurred so_far.0
      || asks_places now place news events
          (add_to now news event event.id event.occurred (place event) so_far)

  module _ {τ κ' ν'} {Text : Type τ} {Key : Type κ'} {Stored : Type ν'} ⦃k : Eq Key⦄
      (json : Json (Dict EventId StoredSpot) Stored) (key : Key) where
    -- `places.remember`, if there is anything to remember.
    abbrev pub remember_if :
        List (Marker EventId Color)
        → ℕ
        → EventLayer EventId Color Name Text
        → Browser Key Stored
        → EventLayer EventId Color Name Text × Browser Key Stored
    remember_if [] now layer browser = (layer, browser)
    remember_if (m ∷ own) now layer browser =
        let kept = remember_places json key (m ∷ own) now layer.places browser in
        (record layer { places = kept.0 }, kept.1)

    -- The layer and the browser after it, and whether the map has to be drawn again. The places
    -- are loaded when they are first asked for.
    unfoldable pub place_live :
        ℕ
        → (Name → Option (Player Color))
        → EventLayer EventId Color Name Text
        → Browser Key Stored
        → EventLayer EventId Color Name Text × Browser Key Stored × Bool
    place_live now player_of layer browser =
        let spots = load json key layer.places browser in
        let result = add layer.live now (place_of player_of spots) layer.is_news layer.markers in
        let asks =
          asks_places now (place_of player_of spots) layer.is_news layer.live
            (layer.markers.live, []) in
        let placed = record layer {
          markers = result.0;
          places = if asks then some spots else layer.places;
        } in
        let after = remember_if (placed_by_player result.1) now placed browser in
        if is_empty layer.live
        then (layer, browser, false)
        else (after.0, after.1, not (is_empty result.1))

    unfoldable pub feed :
        Feed EventId
        → ℕ
        → (Name → Option (Player Color))
        → EventLayer EventId Color Name Text
        → Browser Key Stored
        → EventLayer EventId Color Name Text × Browser Key Stored × Bool
    feed news now player_of layer browser =
        let brings = hear layer.heard news.initial in
        place_live now player_of
          (record layer {
            heard = brings.1;
            is_news = brings.0;
            markers = if news.initial then clear_live layer.markers else layer.markers;
            live = news.events;
          })
          browser

module _ {ℓ κ ν} {EventId : Type ℓ} {Color : Type κ} {Name : Type ν} where
  -- The loop of `syncTrails`.
  unfoldable pub sync_each :
      ⦃n : Eq Name⦄
      → Trails EventId Color Name
      → List Name
      → EventMarkers EventId Color Name
      → EventMarkers EventId Color Name
  sync_each trails [] m = m
  sync_each trails (name ∷ names) m =
      sync_each trails names (set_trail_marks name (trails.marks_on name) (trails.color_of name) m)

  -- `passed.slice(-REPLAY_POP_MAX)`
  abbrev pub last_passed : List (TrailMark EventId Color Name) → List (TrailMark EventId Color Name)
  last_passed passed = drop (length passed - replay_pop_max) passed

module _ {ℓ κ τ} {EventId : Type ℓ} {Color : Type κ} {Text : Type τ} where
  -- Whether the pointer is on an item, or close enough.
  abbrev pub is_hit : ℕ → ℕ → Item EventId Color Text → Bool
  is_hit x y item =
      let reach = item.r + hit_slack_px in
      let dx = abs_diff item.x x in
      let dy = abs_diff item.y y in leb (dx * dx + dy * dy) (reach * reach)

  -- The loop of `hitTest` from the last on, as the last that is hit.
  unfoldable pub last_hit :
      ℕ → ℕ → List (Item EventId Color Text) → Option (Item EventId Color Text)
  last_hit x y [] = none
  last_hit x y (item ∷ items) =
      or_else (last_hit x y items) (if is_hit x y item then some item else none)

module _ {ℓ κ ν τ} {EventId : Type ℓ} {Color : Type κ} {Name : Type ν} {Text : Type τ} where
  unfoldable pub set_filters :
      EventFilters → EventLayer EventId Color Name Text → EventLayer EventId Color Name Text
  set_filters filters layer = record layer { filters = filters }

  unfoldable pub passes : HubEvent EventId → EventLayer EventId Color Name Text → Bool
  passes event layer = event_passes event layer.filters

  unfoldable pub sync_trails :
      ⦃n : Eq Name⦄
      → Trails EventId Color Name
      → EventLayer EventId Color Name Text
      → EventLayer EventId Color Name Text
  sync_trails trails layer = record layer {
    markers = keep_trails trails.names (sync_each trails trails.names layer.markers);
  }

  unfoldable pub replay_moved :
      ⦃e : Eq EventId⦄
      → Option ℕ
      → Option ℕ
      → ℕ
      → EventLayer EventId Color Name Text
      → EventLayer EventId Color Name Text
  replay_moved (some from) (some to) now layer =
      let passed = trail_marks_between from to layer.filters layer.markers in
      if leb to from || is_empty passed then layer else record layer {
        markers =
            pop (map (λ (m : TrailMark EventId Color Name). m.mark.id) (last_passed passed)) now
              layer.markers;
      }
  replay_moved _ _ now layer = layer

  -- `draw`, but for the drawing: `on_screen` is whether a place is within LAYOUT_PAD_PX of the
  -- canvas. The layer, and in how many ms it is to be drawn again. `replay` is in ms.
  unfoldable pub draw :
      ⦃e : Eq EventId⦄
      → (HubEvent EventId → Text)
      → (Text → Bool)
      → View
      → (ℕ → ℕ → Bool)
      → ℕ
      → Option ℕ
      → EventLayer EventId Color Name Text
      → EventLayer EventId Color Name Text × Option ℕ
  draw event_label has_words view on_screen now replay layer =
      let pruned = prune now layer.markers in
      let shown = visible event_label layer.filters now replay on_screen pruned in
      let laid = layout_markers has_words shown view in
      (record layer { markers = pruned; rendered = laid.0 }, laid.1)

  unfoldable pub hit_test :
      ℕ → ℕ → EventLayer EventId Color Name Text → Option (Item EventId Color Text)
  hit_test x y layer = last_hit x y layer.rendered
