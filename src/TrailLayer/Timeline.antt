-- ===== src/TrailLayer/Timeline.antt =====
-- What the replay asks of the trails: timeline and nextChangeAfter of
-- site/src/canvas-map/trail-layer.js. Times are in ms.
use Prim.Native.String.{String}
use ha_osrs_map.Base.{
  ℕ, zero, suc, ◌+◌, ◌/◌, min, max, Bool, false, ◌&&◌, List, [], ◌∷◌, ◌++◌, map, Option, none, some,
  if◌then◌else◌, ltb, leb, length, get_elem?, string_eq,
}
use ha_osrs_map.Base.Dict.{Dict}
use ha_osrs_map.Base.Sorting.{sort}
use ha_osrs_map.Trail.Time.{next_change_after}
use ha_osrs_map.Trail.Marks.{PlacedMark, Tick, in_ms, timeline_ticks, time_of_tick}
use ha_osrs_map.TrailLayer.{Trail, TrailLayer, ends_now, is_online}
use ha_osrs_map.TrailLayer.Marks.{shown_marks_on}

pub record Timeline : Type 0 where
  pub t_min : Option ℕ
  pub t_max : Option ℕ
  pub ticks : List (Tick × String)

abbrev pub earliest : Option ℕ → ℕ → ℕ
earliest none t = t
earliest (some before) t = min before t

abbrev pub latest : Option ℕ → ℕ → ℕ
latest none t = t
latest (some before) t = max before t

abbrev pub in_color : String → Tick → Tick × String
in_color color tick = (tick, color)

-- One trail of `timeline`, given the span of its model: `now_ms` is the time now.
abbrev pub add_trail :
    ℕ → String → Trail → Option ℕ → Option ℕ → TrailLayer × Timeline → TrailLayer × Timeline
add_trail now_ms name trail (some start) (some last) (l, so_far) =
    let end = if ends_now name l && is_online name l then max last now_ms else last in
    let asked = shown_marks_on name l in
    let ticks = map (in_color trail.color) (timeline_ticks trail.model asked.1) in
    (
      asked.0,
      record {
        t_min = some (earliest so_far.t_min start);
        t_max = some (latest so_far.t_max end);
        ticks = so_far.ticks ++ ticks;
      },
    )
add_trail now_ms name trail _ _ so_far = so_far

unfoldable pub add_trails : ℕ → Dict String Trail → TrailLayer × Timeline → TrailLayer × Timeline
add_trails now_ms [] so_far = so_far
add_trails now_ms ((name, trail) ∷ trails) so_far =
    let model = in_ms trail.model in
    add_trails now_ms trails (add_trail now_ms name trail model.t_min model.t_max so_far)

abbrev pub earlier_colored : Tick × String → Tick × String → Bool
earlier_colored (a, color) (b, other) = leb (time_of_tick a) (time_of_tick b)

unfoldable pub timeline : ℕ → TrailLayer → TrailLayer × Timeline
timeline now_ms l =
    let start : Timeline = record { t_min = none; t_max = none; ticks = [] } in
    let result = add_trails now_ms l.trails (l, start) in
    (result.0, record result.1 { ticks = sort earlier_colored result.1.ticks })

-- The loop of `nextChangeAfter` that looks for the first mark at or after a time.
abbrev pub mark_is_from : ℕ → Option PlacedMark → Bool
mark_is_from t none = false
mark_is_from t (some mark) = leb t mark.t

abbrev pub is_from : List PlacedMark → ℕ → ℕ → Bool
is_from marks t i = mark_is_from t (get_elem? marks i)

unfoldable pub search_marks : List PlacedMark → ℕ → ℕ → ℕ → ℕ → ℕ
search_marks marks t zero low high = low
search_marks marks t (suc fuel) low high =
    let middle = (low + high) / 2 in
    let hit = is_from marks t middle in
    let rest =
      search_marks marks t fuel (if hit then low else middle + 1) (if hit then middle else high) in
    if ltb low high then rest else low

-- Every round makes the span shorter, so one round for each mark and one more are enough.
unfoldable pub first_mark : List PlacedMark → ℕ → Option PlacedMark
first_mark marks t = get_elem? marks (search_marks marks t (length marks + 1) 0 (length marks))

abbrev pub time_of_mark : Option PlacedMark → Option ℕ
time_of_mark none = none
time_of_mark (some mark) = some mark.t

-- `if (time !== null && (next === null || time < next)) next = time`
abbrev pub sooner : Option ℕ → Option ℕ → Option ℕ
sooner next none = next
sooner none (some time) = some time
sooner (some next) (some time) = if ltb time next then some time else some next

unfoldable pub change_on : ℕ → Dict String Trail → TrailLayer × Option ℕ → TrailLayer × Option ℕ
change_on time [] so_far = so_far
change_on time ((name, trail) ∷ trails) (l, next) =
    let moved = sooner next (next_change_after (in_ms trail.model) time) in
    let asked = shown_marks_on name l in
    change_on time trails (asked.0, sooner moved (time_of_mark (first_mark asked.1 time)))

unfoldable pub layer_change_after : ℕ → TrailLayer → TrailLayer × Option ℕ
layer_change_after time l = change_on time l.trails (l, none)
