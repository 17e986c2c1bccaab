-- ===== src/TrailLayer/Tests.antt =====
-- A layer with one trail, and the theorems at it.
use Prim.Native.String.{String}
use ha_osrs_map.Base.{
  ℕ, ◌≡◌, refl, Bool, true, false, List, [], ◌∷◌, none, some, leb, find_first, string_eq, nat_eq,
}
use ha_osrs_map.Base.Dict.{get}
use ha_osrs_map.EventView.{HubEvent, level_up}
use ha_osrs_map.Trail.Live.{Row, number, bare}
use ha_osrs_map.Trail.Marks.{MemberEvent, PlacedMark}
use ha_osrs_map.TrailLayer.{TrailOptions}
use ha_osrs_map.TrailLayer.Marks.{shown_marks_on}
use ha_osrs_map.TrailLayer.Timeline.{first_mark}
use ha_osrs_map.TrailLayer.FirstMark.{first_mark-IsFirst}
use ha_osrs_map.TrailLayer.Shown.{
  Operation, sets_history, sets_events, sets_filter, asks_marks, after, worked_out,
  shown_marks_on-worked_out,
}

abbrev options : TrailOptions
options = record { color = "red"; light = "pink"; window_s = 86400; until = none; from = none }

abbrev row : ℕ → Row
row t = record {
  x = some 3200;
  y = number 3200;
  plane = some 0;
  time = some t;
  dwell = none;
  flags = none;
  via = none;
}

abbrev level : MemberEvent
level = record {
  event = record { id = some "e1"; event_type = level_up; value_gp = none; occurred = some 150000 };
  member = "Zezima";
  location = none;
}

abbrev every_event : HubEvent String → Bool
every_event event = true

abbrev no_event : HubEvent String → Bool
no_event event = false

-- The filter changes after the marks were asked for.
abbrev operations : List Operation
operations =
    sets_filter (some no_event)
    ∷ asks_marks "Zezima"
    ∷ sets_filter (some every_event)
    ∷ sets_events "Zezima" (level ∷ [])
    ∷ sets_history 300 "Zezima" (bare (row 100 ∷ row 200 ∷ [])) options
    ∷ []

shown_marks_on-worked_out_example :
    (shown_marks_on "Zezima" (after operations)).1
    ≡ worked_out (after operations) "Zezima" (get "Zezima" (after operations).trails)
shown_marks_on-worked_out_example = shown_marks_on-worked_out operations "Zezima"

abbrev mark : ℕ → PlacedMark
mark t = record {
  id = "e1";
  event = level.event;
  x = 3200;
  y = 3201;
  den = 1;
  plane = 0;
  t = t;
  approximate = false;
}

first_mark-IsFirst_example :
    first_mark (mark 1000 ∷ mark 2000 ∷ mark 2000 ∷ mark 3000 ∷ []) 1500
    ≡ find_first
        (λ (m : PlacedMark). leb 1500 m.t)
        (mark 1000 ∷ mark 2000 ∷ mark 2000 ∷ mark 3000 ∷ [])
first_mark-IsFirst_example =
    first_mark-IsFirst (mark 1000 ∷ mark 2000 ∷ mark 2000 ∷ mark 3000 ∷ []) 1500
      ((refl, (refl, (refl, tt))), ((refl, (refl, tt)), ((refl, tt), (tt, tt))))
