-- ===== src/TrailLayer.antt =====
-- The store of the trails on the map: TrailLayer of site/src/canvas-map/trail-layer.js, but for what
-- it draws and the shapes it draws with. `now` is in seconds; replay times, events and filters are
-- in ms. What the source tells apart by identity, a list of marks worked out at one time from one
-- worked out at another, is told apart by a number that each gets.
use Prim.Native.String.{String}
use ha_osrs_map.Base.{
  ℕ, ◌+◌, Bool, true, false, not, ◌&&◌, ◌||◌, List, [], Option, none, some, if◌then◌else◌, nat_beq,
  ◌==◌, string_eq, nat_eq,
}
use ha_osrs_map.Base.Dict.{Dict, get, has, put, delete}
use ha_osrs_map.EventView.{HubEvent}
use ha_osrs_map.Trail.Point.{Point}
use ha_osrs_map.Trail.Model.{TrailModel, build_trail_model, bool_beq}
use ha_osrs_map.Trail.Live.{
  RawTrail, Sighting, live_point, decode_trail, observe_live, merge_trail, or_default,
  live_max_points, live_max_age_s,
}
use ha_osrs_map.Trail.Marks.{MemberEvent, PlacedMark}
pub mod Marks
pub mod Timeline
pub mod FirstMark
pub mod Fresh
pub mod Renewed
pub mod Shown
pub mod Tests

-- Marks that are kept, with their number.
pub record KeptMarks : Type 0 where
  pub number : ℕ
  pub marks : List PlacedMark

-- The marks that a filter let through: which marks they are of, and the filter's version.
pub record KeptShown : Type 0 where
  pub marks : List PlacedMark
  pub of : ℕ
  pub version : ℕ

pub record Trail : Type 0 where
  pub history : List Point
  pub step : ℕ
  pub as_of : ℕ
  pub color : String
  pub light : String
  pub window_s : ℕ
  pub until : Option ℕ
  pub from : Option ℕ
  pub model : TrailModel
  pub marks : Option KeptMarks
  pub shown : Option KeptShown

pub record Seen : Type 0 where
  pub buffer : List Point
  pub position : Option Sighting
  pub online : Bool

-- The point under the pointer: whose trail it is on, and which.
pub record Hover : Type 0 where
  pub name : String
  pub index : ℕ

-- A teleport being played out.
pub record ReplayHop : Type 0 where
  pub name : String
  pub leave : ℕ
  pub land : ℕ

pub record TrailLayer : Type 0 where
  pub trails : Dict String Trail
  pub seen : Dict String Seen
  pub events : Dict String (List MemberEvent)
  pub event_filter : Option (HubEvent String → Bool)
  pub event_filter_version : ℕ
  pub replay_time : Option ℕ
  pub hop : Option ReplayHop
  pub hover : Option Hover
  -- The number for the next list of marks.
  pub numbers : ℕ

abbrev pub new_trail_layer : TrailLayer
new_trail_layer = record {
  trails = [];
  seen = [];
  events = [];
  event_filter = none;
  event_filter_version = 0;
  replay_time = none;
  hop = none;
  hover = none;
  numbers = 0;
}

abbrev pub hover_off : String → Option Hover → Option Hover
hover_off name none = none
hover_off name (some hover) = if hover.name == name then none else some hover

abbrev pub buffer_of : Option Seen → List Point
buffer_of none = []
buffer_of (some seen) = seen.buffer

abbrev pub head_at : ℕ → Option Sighting → Option Point
head_at now none = none
head_at now (some position) = some (live_point position now)

abbrev pub head_of : ℕ → Option Seen → Option Point
head_of now none = none
head_of now (some seen) = if seen.online then head_at now seen.position else none

-- Where a player was seen counts for a trail that runs until now.
abbrev pub seen_for : Option ℕ → Option Seen → Option Seen
seen_for none seen = seen
seen_for (some until) seen = none

abbrev pub rebuilt : ℕ → Option Seen → Trail → Trail
rebuilt now seen trail =
    let points =
      merge_trail trail.history (buffer_of seen) (head_of now seen) trail.as_of trail.from in
    record trail { model = build_trail_model points trail.step; marks = none }

abbrev pub rebuild_found : ℕ → String → Option Trail → TrailLayer → TrailLayer
rebuild_found now name none l = l
rebuild_found now name (some trail) l = record l {
  trails = put name (rebuilt now (seen_for trail.until (get name l.seen)) trail) l.trails;
  hover = hover_off name l.hover;
}

unfoldable pub rebuild : ℕ → String → TrailLayer → TrailLayer
rebuild now name l = rebuild_found now name (get name l.trails) l

-- What a trail is asked for and drawn with.
pub record TrailOptions : Type 0 where
  pub color : String
  pub light : String
  pub window_s : ℕ
  pub until : Option ℕ
  pub from : Option ℕ

abbrev pub day_s : ℕ
day_s = 86400

unfoldable pub set_history : ℕ → String → RawTrail → TrailOptions → TrailLayer → TrailLayer
set_history now name raw options l =
    let decoded = decode_trail raw in
    let trail : Trail = record {
      history = decoded.points;
      step = decoded.step;
      as_of = or_default decoded.as_of now;
      color = options.color;
      light = options.light;
      window_s = options.window_s;
      until = options.until;
      from = options.from;
      model = build_trail_model [] decoded.step;
      marks = none;
      shown = none;
    } in
    rebuild now name (record l { trails = put name trail l.trails })

-- The last component is what `remove` returns.
unfoldable pub remove : String → TrailLayer → TrailLayer × Bool
remove name l = (
  record l {
    hover = hover_off name l.hover;
    events = delete name l.events;
    trails = delete name l.trails;
  },
  has name l.trails,
)

unfoldable pub clear : TrailLayer → TrailLayer
clear l = record l { hover = none; events = []; trails = [] }

abbrev pub online_of : Option Seen → Bool
online_of none = false
online_of (some seen) = seen.online

unfoldable pub is_online : String → TrailLayer → Bool
is_online name l = online_of (get name l.seen)

abbrev pub runs_on : Option Trail → Bool
runs_on none = false
runs_on (some trail) = elim trail.until [ none ↦ true | some until ↦ false ]

unfoldable pub ends_now : String → TrailLayer → Bool
ends_now name l = runs_on (get name l.trails)

abbrev pub seen_or_new : Option Seen → Seen
seen_or_new none = record { buffer = []; position = none; online = false }
seen_or_new (some seen) = seen

-- A player noted at a position, if it is known: what is seen of them, and whether they moved.
abbrev pub note : ℕ → Option Sighting → Bool → Seen → Seen × Bool
note now none online seen = (record seen { online = online }, false)
note now (some position) online seen =
    let noted =
      observe_live seen.buffer position now live_max_points live_max_age_s (not seen.online) in
    if online
    then (record { buffer = noted.0; position = some position; online = online }, noted.1)
    else (record seen { position = some position; online = online }, false)

abbrev pub rebuild_if : Bool → ℕ → String → TrailLayer → TrailLayer × Bool
rebuild_if true now name l = (rebuild now name l, true)
rebuild_if false now name l = (l, false)

unfoldable pub observe : ℕ → String → Option Sighting → Bool → TrailLayer → TrailLayer × Bool
observe now name position online l =
    let before = seen_or_new (get name l.seen) in
    let noted = note now position online before in
    let after : TrailLayer = record l { seen = put name noted.0 l.seen } in
    rebuild_if (ends_now name after && (noted.1 || not (bool_beq before.online online))) now name
      after

abbrev pub unmarked : Option Trail → Dict String Trail → String → Dict String Trail
unmarked none trails name = trails
unmarked (some trail) trails name = put name (record trail { marks = none }) trails

unfoldable pub set_events : String → List MemberEvent → TrailLayer → TrailLayer
set_events name events l = record l {
  events = put name events l.events;
  trails = unmarked (get name l.trails) l.trails name;
}

-- The filter, and what it answers from now on.
unfoldable pub set_event_filter : Option (HubEvent String → Bool) → TrailLayer → TrailLayer
set_event_filter passes l = record l {
  event_filter = passes;
  event_filter_version = l.event_filter_version + 1;
}

unfoldable pub set_replay : Option ℕ → Option ReplayHop → TrailLayer → TrailLayer
set_replay none hop l = record l { replay_time = none; hop = none }
set_replay (some time) hop l = record l { replay_time = some time; hop = hop }

abbrev pub same_hover : Option Hover → Option Hover → Bool
same_hover none none = true
same_hover (some a) (some b) = a.name == b.name && nat_beq a.index b.index
same_hover _ _ = false

-- The last component is what `setHover` returns.
unfoldable pub set_hover : Option Hover → TrailLayer → TrailLayer × Bool
set_hover hit l = (record l { hover = hit }, not (same_hover l.hover hit))
