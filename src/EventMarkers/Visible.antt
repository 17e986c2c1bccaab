-- ===== src/EventMarkers/Visible.antt =====
-- What is drawn of the events: visible and display of
-- site/src/canvas-map/event-markers.js. The words of an event's label are a parameter.
use ha_osrs_map.Base.{
  ℕ, ◌-◌, ◌*◌, ◌/◌, Bool, false, not, ◌||◌, List, [], ◌∷◌, ◌++◌, Option, none, some, if◌then◌else◌,
  ltb, leb, Eq,
}
use ha_osrs_map.Base.Dict.{Dict, get, values}
use ha_osrs_map.Base.Sets.{contains, add}
use ha_osrs_map.EventView.{HubEvent, EventFilters, EventKind, event_kind, event_tier, event_passes}
use ha_osrs_map.EventMarkers.Kept.{
  event_marker_ms, event_ring_ms, full_alpha, marker_alpha, Marker, TrailMark, EventMarkers,
}
pub mod Once

abbrev pub event_label_ms : ℕ
event_label_ms = 20000

abbrev pub ahead_alpha : ℕ
ahead_alpha = 3 * full_alpha / 10

-- What `display` reads of a marker, whichever kind it is.
pub record Placed {ℓ κ} (EventId : Type ℓ) (Color : Type κ) : Type (ℓ ⊔ κ) where
  pub id : EventId
  pub event : HubEvent EventId
  pub x : ℕ
  pub y : ℕ
  pub plane : ℕ
  pub color : Color
  pub at : ℕ
  pub approximate : Bool

-- A marker as it is drawn.
pub record Shown {ℓ κ τ} (EventId : Type ℓ) (Color : Type κ) (Text : Type τ)
    : Type (ℓ ⊔ κ ⊔ τ) where
  pub placed : Placed EventId Color
  pub kind : Option EventKind
  pub tier : ℕ
  pub alpha : ℕ
  pub compact : Bool
  pub ring_age : Option ℕ
  pub label : Option Text
  pub label_left : Option ℕ

abbrev pub since : ℕ → Option ℕ → Option ℕ
since now none = none
since now (some time) = some (now - time)

-- `age !== null && age < bound`, and the age if it is.
abbrev pub within : ℕ → Option ℕ → Option ℕ
within bound none = none
within bound (some age) = if ltb age bound then some age else none

abbrev pub or_else {ℓ} : {A : Type ℓ} → Option A → Option A → Option A
or_else none rest = rest
or_else (some a) rest = some a

abbrev pub left_of : ℕ → Option ℕ → Option ℕ
left_of bound none = none
left_of bound (some age) = some (bound - age)

unfoldable pub ring_age_of : Option ℕ → Option ℕ → Option ℕ
ring_age_of since_pop since_arrival =
    or_else (within event_ring_ms since_pop) (within event_ring_ms since_arrival)

unfoldable pub label_left_of : Option ℕ → Option ℕ → Option ℕ
label_left_of since_arrival ring_age =
    or_else (left_of event_label_ms (within event_label_ms since_arrival))
      (left_of event_ring_ms ring_age)

abbrev pub label_if {ℓ} : {Text : Type ℓ} → Option ℕ → Text → Option Text
label_if none text = none
label_if (some left) text = some text

abbrev pub arrived_of {ℓ κ} :
    {EventId : Type ℓ} {Color : Type κ} → Option (Marker EventId Color) → Option ℕ
arrived_of none = none
arrived_of (some marker) = marker.arrived

abbrev pub arrived_live {ℓ κ} :
    {EventId : Type ℓ} {Color : Type κ} → Option ℕ → Option (Marker EventId Color) → Option ℕ
arrived_live none live = arrived_of live
arrived_live (some replay) live = none

abbrev pub time_or : ℕ → Option ℕ → ℕ
time_or now none = now
time_or now (some replay) = replay

abbrev pub of_marker {ℓ κ} :
    {EventId : Type ℓ} {Color : Type κ} → Marker EventId Color → Placed EventId Color
of_marker m = record {
  id = m.id;
  event = m.event;
  x = m.x;
  y = m.y;
  plane = m.plane;
  color = m.color;
  at = m.at;
  approximate = m.approximate;
}

abbrev pub of_mark {ℓ κ ν} :
    {EventId : Type ℓ} {Color : Type κ} {Name : Type ν}
    → TrailMark EventId Color Name
    → Placed EventId Color
of_mark m = record {
  id = m.mark.id;
  event = m.mark.event;
  x = m.mark.x;
  y = m.mark.y;
  plane = m.mark.plane;
  color = m.color;
  at = m.at;
  approximate = m.mark.approximate;
}

-- Whether a live marker is not drawn: on a trail, filtered out, out of view, or faded.
abbrev pub is_left_out {ℓ κ} :
    {EventId : Type ℓ} {Color : Type κ} ⦃e : Eq EventId⦄
    → EventFilters
    → ℕ
    → (ℕ → ℕ → Bool)
    → List EventId
    → Marker EventId Color
    → Bool
is_left_out filters now in_view on_trail marker =
    contains marker.id on_trail
    || not (event_passes marker.event filters)
    || not (in_view marker.x marker.y)
    || not (ltb 0 (marker_alpha (now - marker.at)))

module _ {ℓ κ τ} {EventId : Type ℓ} {Color : Type κ} {Text : Type τ} ⦃e : Eq EventId⦄
    (event_label : HubEvent EventId → Text) where
  unfoldable pub display :
      Dict EventId ℕ → ℕ → Placed EventId Color → ℕ → Bool → Option ℕ → Shown EventId Color Text
  display pops now m alpha compact arrived =
      let since_arrival = since now arrived in
      let ring_age = ring_age_of (since now (get m.id pops)) since_arrival in
      let label_left = label_left_of since_arrival ring_age in
      record {
        placed = m;
        kind = event_kind m.event;
        tier = event_tier m.event;
        alpha = alpha;
        compact = compact;
        ring_age = ring_age;
        label = label_if label_left (event_label m.event);
        label_left = label_left;
      }

  -- The loop over the live markers.
  unfoldable pub show_live :
      Dict EventId ℕ
      → EventFilters
      → ℕ
      → (ℕ → ℕ → Bool)
      → List EventId
      → List (Marker EventId Color)
      → List (Shown EventId Color Text)
  show_live pops filters now in_view on_trail [] = []
  show_live pops filters now in_view on_trail (marker ∷ markers) =
      let rest = show_live pops filters now in_view on_trail markers in
      let alpha = marker_alpha (now - marker.at) in
      if is_left_out filters now in_view on_trail marker
      then rest
      else display pops now (of_marker marker) alpha false marker.arrived ∷ rest

module _ {ℓ κ ν τ} {EventId : Type ℓ} {Color : Type κ} {Name : Type ν} {Text : Type τ}
    ⦃e : Eq EventId⦄ (event_label : HubEvent EventId → Text) where
  -- A mark of a trail that is neither shown already nor filtered out. `replay` is the time of the
  -- replay in ms, and `in_view` lets every place through where the source is given none.
  unfoldable pub show_mark :
      EventMarkers EventId Color Name
      → ℕ
      → Option ℕ
      → TrailMark EventId Color Name
      → Shown EventId Color Text
  show_mark m now replay mark =
      let trail_now = time_or now replay in
      let ahead = ltb trail_now mark.at in
      display event_label m.pops now (of_mark mark) (if ahead then ahead_alpha else full_alpha)
        (ahead || leb event_marker_ms (trail_now - mark.at))
        (arrived_live replay (get mark.mark.id m.live))

  -- One mark, in the loops over the trails: what is shown so far, and the ids that are on a trail.
  abbrev pub note_mark :
      EventMarkers EventId Color Name
      → EventFilters
      → ℕ
      → Option ℕ
      → (ℕ → ℕ → Bool)
      → TrailMark EventId Color Name
      → List (Shown EventId Color Text) × List EventId
      → List (Shown EventId Color Text) × List EventId
  note_mark m filters now replay in_view mark (shown, on_trail) =
      if contains mark.mark.id on_trail || not (event_passes mark.mark.event filters)
      then (shown, on_trail)
      else if in_view mark.mark.x mark.mark.y
      then (shown ++ (show_mark m now replay mark ∷ []), add mark.mark.id on_trail)
      else (shown, add mark.mark.id on_trail)

  unfoldable pub show_marks :
      EventMarkers EventId Color Name
      → EventFilters
      → ℕ
      → Option ℕ
      → (ℕ → ℕ → Bool)
      → List (TrailMark EventId Color Name)
      → List (Shown EventId Color Text) × List EventId
      → List (Shown EventId Color Text) × List EventId
  show_marks m filters now replay in_view [] so_far = so_far
  show_marks m filters now replay in_view (mark ∷ marks) so_far =
      show_marks m filters now replay in_view marks
        (note_mark m filters now replay in_view mark so_far)

  unfoldable pub show_trails :
      EventMarkers EventId Color Name
      → EventFilters
      → ℕ
      → Option ℕ
      → (ℕ → ℕ → Bool)
      → List (List (TrailMark EventId Color Name))
      → List (Shown EventId Color Text) × List EventId
      → List (Shown EventId Color Text) × List EventId
  show_trails m filters now replay in_view [] so_far = so_far
  show_trails m filters now replay in_view (marks ∷ trails) so_far =
      show_trails m filters now replay in_view trails
        (show_marks m filters now replay in_view marks so_far)

  unfoldable pub visible :
      EventFilters
      → ℕ
      → Option ℕ
      → (ℕ → ℕ → Bool)
      → EventMarkers EventId Color Name
      → List (Shown EventId Color Text)
  visible filters now replay in_view m =
      let marked = show_trails m filters now replay in_view (values m.trails) ([], []) in
      marked.0 ++ show_live event_label m.pops filters now in_view marked.1 (values m.live)
