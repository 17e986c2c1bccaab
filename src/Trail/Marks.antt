-- ===== src/Trail/Marks.antt =====
-- The events of a member on their trail: eventPlace of site/src/data/event-view.js, and placeMarks
-- and timelineTicks of site/src/canvas-map/trail-model.js. Times of events and marks are in ms.
use Prim.Native.String.{String}
use ha_osrs_map.Base.{
  ℕ, ◌+◌, ◌*◌, Bool, true, false, not, ◌&&◌, List, [], ◌∷◌, ◌++◌, map, Option, none, some,
  if◌then◌else◌, leb, get_elem?, suc, ◌==◌, string_eq,
}
use ha_osrs_map.Base.Sorting.{sort}
use ha_osrs_map.EventView.{HubEvent, EventKind, event_kind, event_tier}
use ha_osrs_map.Trail.Point.{Kind, Point, is_connected, in_instance_space}
use ha_osrs_map.Trail.Model.{TrailModel, Jump}
use ha_osrs_map.Trail.Time.{Position, position_at}
use ha_osrs_map.Trail.Live.{y_offset}

abbrev pub mark_slack_s : ℕ
mark_slack_s = 60

-- Where a hub event says it happened; a coordinate that is no number is none.
pub record Location : Type 0 where
  pub x : Option ℕ
  pub y : Option ℕ
  pub plane : Option ℕ

-- A hub event with what the filters do not look at: whose it is, and where.
pub record MemberEvent : Type 0 where
  pub event : HubEvent String
  pub member : String
  pub location : Option Location

-- A place: the coordinates in parts of a tile, `den` parts to the tile. A coordinate that is no
-- number is none.
pub record EventPlace : Type 0 where
  pub x : Option ℕ
  pub y : Option ℕ
  pub den : ℕ
  pub plane : ℕ

pub record PlacedMark : Type 0 where
  pub id : String
  pub event : HubEvent String
  pub x : ℕ
  pub y : ℕ
  pub den : ℕ
  pub plane : ℕ
  pub t : ℕ
  pub approximate : Bool

pub data Tick : Type 0 where
  teleport_tick : ℕ → Tick
  event_tick : ℕ → Option EventKind → ℕ → Tick

-- A model whose times are in ms.
abbrev pub point_in_ms : Point → Point
point_in_ms p = record p { t0 = 1000 * p.t0; t1 = 1000 * p.t1 }

abbrev pub seconds_in_ms : Option ℕ → Option ℕ
seconds_in_ms none = none
seconds_in_ms (some t) = some (1000 * t)

unfoldable pub in_ms : TrailModel → TrailModel
in_ms model = record model {
  points = map point_in_ms model.points;
  gap_limit = 1000 * model.gap_limit;
  t_min = seconds_in_ms model.t_min;
  t_max = seconds_in_ms model.t_max;
}

abbrev pub is_in_instance : Option ℕ → Bool
is_in_instance none = false
is_in_instance (some x) = in_instance_space x

abbrev pub moved_north : Option ℕ → Option ℕ
moved_north none = none
moved_north (some y) = some (y + y_offset)

abbrev pub or_ground : Option ℕ → ℕ
or_ground none = 0
or_ground (some plane) = plane

unfoldable pub event_place : Option Location → Option EventPlace
event_place none = none
event_place (some location) =
    if is_in_instance location.x
    then none
    else some (record {
      x = location.x;
      y = moved_north location.y;
      den = 1;
      plane = or_ground location.plane;
    })

abbrev pub kind_is_connected : Option Kind → Bool
kind_is_connected none = false
kind_is_connected (some kind) = is_connected kind

-- Where the trail has the player, and whether that is a guess.
abbrev pub guessed_place : Option Position → Option (EventPlace × Bool)
guessed_place none = none
guessed_place (some p) = some (
  record { x = some p.x; y = some p.y; den = p.den; plane = p.plane },
  p.moving && not (kind_is_connected p.kind),
)

abbrev pub place_or_guess : Option EventPlace → Option Position → Option (EventPlace × Bool)
place_or_guess (some place) position = some (place, false)
place_or_guess none position = guessed_place position

-- The mark at a place; none where the place is no numbers.
abbrev pub mark_at_place :
    String → HubEvent String → ℕ → Option ℕ → Option ℕ → EventPlace → Bool → List PlacedMark
mark_at_place id event t (some x) (some y) place approximate =
    record {
      id = id;
      event = event;
      x = x;
      y = y;
      den = place.den;
      plane = place.plane;
      t = t;
      approximate = approximate;
    }
    ∷ []
mark_at_place id event t _ _ place approximate = []

abbrev pub mark_of_place :
    String → HubEvent String → ℕ → Option (EventPlace × Bool) → List PlacedMark
mark_of_place id event t none = []
mark_of_place id event t (some (place, approximate)) =
    mark_at_place id event t place.x place.y place approximate

-- Whether a time is within a minute of the trail's.
abbrev pub is_near_trail : TrailModel → ℕ → Option ℕ → Option ℕ → Bool
is_near_trail model t (some t_min) (some t_max) =
    leb (1000 * t_min) (t + 1000 * mark_slack_s) && leb t (1000 * t_max + 1000 * mark_slack_s)
is_near_trail model t _ _ = false

abbrev pub is_on_map : Option EventKind → Bool
is_on_map none = false
is_on_map (some kind) = true

-- One event of the loop, given its id and its time.
unfoldable pub mark_event :
    String → TrailModel → MemberEvent → Option String → Option ℕ → List PlacedMark
mark_event member model event (some id) (some t) =
    if (event.member == member && is_on_map (event_kind event.event))
      && is_near_trail model t model.t_min model.t_max
    then mark_of_place id event.event t
        (place_or_guess (event_place event.location) (position_at (in_ms model) t))
    else []
mark_event member model event _ _ = []

unfoldable pub mark_events : String → TrailModel → List MemberEvent → List PlacedMark
mark_events member model [] = []
mark_events member model (event ∷ events) =
    mark_event member model event event.event.id event.event.occurred
    ++ mark_events member model events

abbrev pub earlier_mark : PlacedMark → PlacedMark → Bool
earlier_mark a b = leb a.t b.t

unfoldable pub place_marks : List MemberEvent → String → TrailModel → List PlacedMark
place_marks events member model = sort earlier_mark (mark_events member model events)

abbrev pub time_of_tick : Tick → ℕ
time_of_tick (teleport_tick t) = t
time_of_tick (event_tick t kind tier) = t

abbrev pub earlier_tick : Tick → Tick → Bool
earlier_tick a b = leb (time_of_tick a) (time_of_tick b)

abbrev pub landing_tick : Option Point → List Tick
landing_tick none = []
landing_tick (some p) = teleport_tick (1000 * p.t0) ∷ []

abbrev pub teleport_ticks_of : List Point → Jump → Kind → List Tick
teleport_ticks_of points jump Kind.teleport = landing_tick (get_elem? points (suc jump.from))
teleport_ticks_of points jump _ = []

abbrev pub teleport_ticks : List Point → List Jump → List Tick
teleport_ticks points [] = []
teleport_ticks points (jump ∷ jumps) =
    teleport_ticks_of points jump jump.kind ++ teleport_ticks points jumps

abbrev pub tick_of_mark : PlacedMark → Tick
tick_of_mark mark = event_tick mark.t (event_kind mark.event) (event_tier mark.event)

unfoldable pub timeline_ticks : TrailModel → List PlacedMark → List Tick
timeline_ticks model marks =
    sort earlier_tick (teleport_ticks model.points model.jumps ++ map tick_of_mark marks)
