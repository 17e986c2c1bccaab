-- ===== src/EventMarkers.antt =====
-- The events on the map: the operations of EventMarkers in site/src/canvas-map/event-markers.js.
-- Times are in ms by the server's clock, those of trail marks in seconds.
use ha_osrs_map.Base.{
  ℕ, ◌-◌, ◌*◌, Bool, true, false, not, ◌&&◌, ◌||◌, List, [], ◌∷◌, ◌++◌, map, Option, none, some,
  if◌then◌else◌, ltb, leb, length, take, keep_if, find_first, Eq,
}
use ha_osrs_map.Base.Dict.{Dict, get, has, put, delete, values, keys}
use ha_osrs_map.Base.Sets.{contains}
use ha_osrs_map.Base.Sorting.{sort}
use ha_osrs_map.EventView.{
  HubEvent, EventFilters, EventKind, event_kind, event_passes, event_is_fresh,
}
use ha_osrs_map.EventMarkers.Kept.{
  event_marker_ms, event_ring_ms, event_markers_max, Whereabouts, Marker, Mark, TrailMark,
  EventMarkers, Found, on_trail, live_marker, not_shown,
}
pub mod Kept
pub mod Ids
pub mod Bounded
pub mod Passed
pub mod Fading
pub mod Lasting
pub mod Visible
pub mod Stacks
pub mod Layout
pub mod Tests

abbrev pub is_shown_kind : Option EventKind → Bool
is_shown_kind none = false
is_shown_kind (some kind) = true

module _ {ℓ κ} {EventId : Type ℓ} {Color : Type κ} where
  abbrev pub new_marker :
      ℕ → Bool → HubEvent EventId → EventId → ℕ → Whereabouts Color → Marker EventId Color
  new_marker now news event id at place =
      let fresh = news && event_is_fresh event now in
      record {
        id = id;
        event = event;
        x = place.x;
        y = place.y;
        plane = place.plane;
        color = place.color;
        at = at;
        approximate = not place.known && not fresh;
        arrived = if fresh then some now else none;
      }

  -- The markers with the oldest first.
  abbrev pub oldest_first : Dict EventId (Marker EventId Color) → List (Marker EventId Color)
  oldest_first live = sort (λ a b. leb a.at b.at) (values live)

  module _ ⦃e : Eq EventId⦄ where
    -- What the loop of `add` does with an event, its id, its time and its place: the live markers
    -- and the markers added.
    unfoldable pub add_to :
        ℕ
        → Bool
        → HubEvent EventId
        → Option EventId
        → Option ℕ
        → Option (Whereabouts Color)
        → Dict EventId (Marker EventId Color) × List (Marker EventId Color)
        → Dict EventId (Marker EventId Color) × List (Marker EventId Color)
    add_to now news event (some id) (some at) (some place) (live, added) =
        let marker = new_marker now news event id at place in
        if has id live || leb event_marker_ms (now - at) || not (is_shown_kind (event_kind event))
        then (live, added)
        else (put id marker live, added ++ (marker ∷ []))
    add_to now news event _ _ _ so_far = so_far

    unfoldable pub add_each :
        ℕ
        → (HubEvent EventId → Option (Whereabouts Color))
        → Bool
        → List (HubEvent EventId)
        → Dict EventId (Marker EventId Color) × List (Marker EventId Color)
        → Dict EventId (Marker EventId Color) × List (Marker EventId Color)
    add_each now place news [] so_far = so_far
    add_each now place news (event ∷ events) so_far =
        add_each now place news events
          (add_to now news event event.id event.occurred (place event) so_far)

    unfoldable pub delete_each :
        List (Marker EventId Color)
        → Dict EventId (Marker EventId Color)
        → Dict EventId (Marker EventId Color)
    delete_each [] live = live
    delete_each (marker ∷ markers) live = delete_each markers (delete marker.id live)

    unfoldable pub drop_oldest :
        Dict EventId (Marker EventId Color) → Dict EventId (Marker EventId Color)
    drop_oldest live =
        if ltb event_markers_max (length live)
        then delete_each (take (length live - event_markers_max) (oldest_first live)) live
        else live

-- The loop of `prune` over the entries there were, with what is left of them.
unfoldable pub prune_each {ℓ κ} :
    {K : Type ℓ} {V : Type κ} ⦃e : Eq K⦄ → (V → Bool) → Dict K V → Dict K V → Dict K V
prune_each expired [] m = m
prune_each expired ((k, v) ∷ entries) m =
    prune_each expired entries (if expired v then delete k m else m)

abbrev pub pop_each {ℓ} :
    {EventId : Type ℓ} ⦃e : Eq EventId⦄ → List EventId → ℕ → Dict EventId ℕ → Dict EventId ℕ
pop_each [] now pops = pops
pop_each (id ∷ ids) now pops = pop_each ids now (put id now pops)

abbrev pub find_live {ℓ κ ν} :
    {EventId : Type ℓ} {Color : Type κ} {Name : Type ν}
    → Option (Marker EventId Color)
    → Found EventId Color Name
find_live none = not_shown
find_live (some marker) = live_marker marker

abbrev pub found_or {ℓ κ ν} :
    {EventId : Type ℓ} {Color : Type κ} {Name : Type ν}
    → Option (TrailMark EventId Color Name)
    → Found EventId Color Name
    → Found EventId Color Name
found_or none rest = rest
found_or (some mark) rest = on_trail mark

module _ {ℓ κ ν} {EventId : Type ℓ} {Color : Type κ} {Name : Type ν} where
  -- `mark.t > from && mark.t <= to && eventPasses(mark.event, filters)`
  abbrev pub is_passed : ℕ → ℕ → EventFilters → TrailMark EventId Color Name → Bool
  is_passed from to filters mark =
      ltb from mark.mark.t && leb mark.mark.t to && event_passes mark.mark.event filters

  abbrev pub passed_marks :
      ℕ
      → ℕ
      → EventFilters
      → List (List (TrailMark EventId Color Name))
      → List (TrailMark EventId Color Name)
  passed_marks from to filters [] = []
  passed_marks from to filters (marks ∷ rest) =
      keep_if (is_passed from to filters) marks ++ passed_marks from to filters rest

  unfoldable pub trail_marks_between :
      ℕ → ℕ → EventFilters → EventMarkers EventId Color Name → List (TrailMark EventId Color Name)
  trail_marks_between from to filters m =
      sort (λ a b. leb a.mark.t b.mark.t) (passed_marks from to filters (values m.trails))

  unfoldable pub clear_live : EventMarkers EventId Color Name → EventMarkers EventId Color Name
  clear_live m = record m { live = [] }

  module _ ⦃e : Eq EventId⦄ where
    unfoldable pub add :
        List (HubEvent EventId)
        → ℕ
        → (HubEvent EventId → Option (Whereabouts Color))
        → Bool
        → EventMarkers EventId Color Name
        → EventMarkers EventId Color Name × List (Marker EventId Color)
    add events now place news m =
        let result = add_each now place news events (m.live, []) in
        (record m { live = drop_oldest result.0 }, result.1)

    unfoldable pub prune : ℕ → EventMarkers EventId Color Name → EventMarkers EventId Color Name
    prune now m = record m {
      live = prune_each (λ marker. leb event_marker_ms (now - marker.at)) m.live m.live;
      pops = prune_each (λ started. leb event_ring_ms (now - started)) m.pops m.pops;
    }

    unfoldable pub pop :
        List EventId → ℕ → EventMarkers EventId Color Name → EventMarkers EventId Color Name
    pop ids now m = record m { pops = pop_each ids now m.pops }

    abbrev pub find_in :
        EventId
        → List (List (TrailMark EventId Color Name))
        → Found EventId Color Name
        → Found EventId Color Name
    find_in id [] otherwise = otherwise
    find_in id (marks ∷ rest) otherwise =
        found_or (find_first (λ mark. e.beq mark.mark.id id) marks) (find_in id rest otherwise)

    unfoldable pub find : EventId → EventMarkers EventId Color Name → Found EventId Color Name
    find id m = find_in id (values m.trails) (find_live (get id m.live))

  module _ ⦃n : Eq Name⦄ where
    unfoldable pub set_trail_marks :
        Name
        → List (Mark EventId)
        → Color
        → EventMarkers EventId Color Name
        → EventMarkers EventId Color Name
    set_trail_marks name marks color m =
        let kept =
          map (λ mark. record { mark = mark; color = color; at = mark.t * 1000; trail = name })
            marks in
        record m { trails = put name kept m.trails }

    abbrev pub keep_each :
        List Name
        → List Name
        → Dict Name (List (TrailMark EventId Color Name))
        → Dict Name (List (TrailMark EventId Color Name))
    keep_each names [] trails = trails
    keep_each names (name ∷ shown) trails =
        keep_each names shown (if contains name names then trails else delete name trails)

    unfoldable pub keep_trails :
        List Name → EventMarkers EventId Color Name → EventMarkers EventId Color Name
    keep_trails names m = record m { trails = keep_each names (keys m.trails) m.trails }
