-- ===== src/TrailLayer/Marks.antt =====
-- The marks that the layer keeps for a trail: marksOn and shownMarksOn of
-- site/src/canvas-map/trail-layer.js.
use Prim.Native.String.{String}
use ha_osrs_map.Base.{
  ℕ, ◌+◌, Bool, true, not, ◌||◌, List, [], Option, none, some, if◌then◌else◌, nat_beq, keep_if,
  string_eq, nat_eq,
}
use ha_osrs_map.Base.Dict.{get, put}
use ha_osrs_map.EventView.{HubEvent}
use ha_osrs_map.Trail.Marks.{MemberEvent, PlacedMark, place_marks}
use ha_osrs_map.TrailLayer.{KeptMarks, KeptShown, Trail, TrailLayer}

abbrev pub events_of : Option (List MemberEvent) → List MemberEvent
events_of none = []
events_of (some events) = events

-- `marksOn` of a trail that is there, given the marks it keeps: the layer after it, the trail, and
-- the marks with their number.
abbrev pub marks_kept :
    String → Trail → Option KeptMarks → TrailLayer → TrailLayer × Trail × KeptMarks
marks_kept name trail (some kept) l = (l, record trail { marks = some kept }, kept)
marks_kept name trail none l =
    let kept : KeptMarks = record {
      number = l.numbers;
      marks = place_marks (events_of (get name l.events)) name trail.model;
    } in
    let after : Trail = record trail { marks = some kept } in
    (record l { trails = put name after l.trails; numbers = l.numbers + 1 }, after, kept)

abbrev pub shown_is_stale : Option KeptShown → ℕ → ℕ → Bool
shown_is_stale none number version = true
shown_is_stale (some shown) number version =
    not (nat_beq shown.of number) || not (nat_beq shown.version version)

abbrev pub shown_or_nothing : Option KeptShown → List PlacedMark
shown_or_nothing none = []
shown_or_nothing (some shown) = shown.marks

abbrev pub shown_kept :
    String
    → Trail
    → KeptMarks
    → Option KeptShown
    → Option (HubEvent String → Bool)
    → TrailLayer
    → TrailLayer × List PlacedMark
shown_kept name trail kept before none l = (l, kept.marks)
shown_kept name trail kept before (some passes) l =
    let list = keep_if (λ (mark : PlacedMark). passes mark.event) kept.marks in
    let shown : KeptShown = record {
      marks = list;
      of = kept.number;
      version = l.event_filter_version;
    } in
    if shown_is_stale before kept.number l.event_filter_version
    then (record l { trails = put name (record trail { shown = some shown }) l.trails }, list)
    else (l, shown_or_nothing before)

abbrev pub shown_of_trail : String → Option Trail → TrailLayer → TrailLayer × List PlacedMark
shown_of_trail name none l = (l, [])
shown_of_trail name (some trail) l =
    let marked = marks_kept name trail trail.marks l in
    shown_kept name marked.1 marked.2 marked.1.shown marked.0.event_filter marked.0

-- `shownMarksOn`: the layer after it, with what it keeps, and the marks.
unfoldable pub shown_marks_on : String → TrailLayer → TrailLayer × List PlacedMark
shown_marks_on name l = shown_of_trail name (get name l.trails) l
