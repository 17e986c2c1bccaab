-- ===== src/EventMarkers/Kept.antt =====
-- What the map keeps of events, and how strongly it draws them: the constants, the markers and
-- markerAlpha of site/src/canvas-map/event-markers.js.
use ha_osrs_map.Base.{ℕ, ◌+◌, ◌-◌, ◌*◌, Bool, List, Option, if◌then◌else◌, leb}
use ha_osrs_map.Base.Dict.{Dict}
use ha_osrs_map.EventView.{HubEvent}

abbrev pub event_marker_ms : ℕ
event_marker_ms = 1800000

abbrev pub event_fade_ms : ℕ
event_fade_ms = 300000

abbrev pub event_ring_ms : ℕ
event_ring_ms = 2400

abbrev pub event_markers_max : ℕ
event_markers_max = 200

-- Strengths are exact, in parts of this: a hundredth of a part of the fade.
abbrev pub full_alpha : ℕ
full_alpha = 100 * event_fade_ms

unfoldable pub marker_alpha : ℕ → ℕ
marker_alpha age =
    if leb event_marker_ms age
    then 0
    else let remaining = event_marker_ms - age in
      if leb event_fade_ms remaining then full_alpha else 15 * event_fade_ms + 85 * remaining

-- What `place` says of an event.
pub record Whereabouts {κ} (Color : Type κ) : Type κ where
  pub x : ℕ
  pub y : ℕ
  pub plane : ℕ
  pub color : Color
  pub known : Bool

pub record Marker {ℓ κ} (EventId : Type ℓ) (Color : Type κ) : Type (ℓ ⊔ κ) where
  pub id : EventId
  pub event : HubEvent EventId
  pub x : ℕ
  pub y : ℕ
  pub plane : ℕ
  pub color : Color
  pub at : ℕ
  pub approximate : Bool
  pub arrived : Option ℕ

-- A mark on a trail as the trail's caller gives it, with `t` in seconds.
pub record Mark {ℓ} (EventId : Type ℓ) : Type ℓ where
  pub id : EventId
  pub event : HubEvent EventId
  pub x : ℕ
  pub y : ℕ
  pub plane : ℕ
  pub t : ℕ
  pub approximate : Bool

-- The mark as it is kept: with its color, its time in ms and its trail.
pub record TrailMark {ℓ κ ν} (EventId : Type ℓ) (Color : Type κ) (Name : Type ν)
    : Type (ℓ ⊔ κ ⊔ ν) where
  pub mark : Mark EventId
  pub color : Color
  pub at : ℕ
  pub trail : Name

pub record EventMarkers {ℓ κ ν} (EventId : Type ℓ) (Color : Type κ) (Name : Type ν)
    : Type (ℓ ⊔ κ ⊔ ν) where
  pub live : Dict EventId (Marker EventId Color)
  pub trails : Dict Name (List (TrailMark EventId Color Name))
  pub pops : Dict EventId ℕ

pub data Found {ℓ κ ν} (EventId : Type ℓ) (Color : Type κ) (Name : Type ν) : Type (ℓ ⊔ κ ⊔ ν) where
  on_trail : TrailMark EventId Color Name → Found EventId Color Name
  live_marker : Marker EventId Color → Found EventId Color Name
  not_shown : Found EventId Color Name
