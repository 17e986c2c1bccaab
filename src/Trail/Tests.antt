-- ===== src/Trail/Tests.antt =====
-- The trail code on small trails, and its theorems at them.

use ha_osrs_map.Base.{
  ℕ, ◌≡◌, refl, Bool, true, false, Option, none, some, List, [], ◌∷◌, arith, map,
}
use ha_osrs_map.Trail.Point.{
  Via, Kind, Point, band, distance, move_kind, classify_bands, classify_unlabelled, classify_via,
  classify_step, in_instance_space,
}
use ha_osrs_map.Trail.Model.{
  TrailModel, step_kinds, cuts, split_chain, close_chain, jump_at, chain_ends, scan,
  build_trail_model, run, jump,
}
use ha_osrs_map.Trail.Model.Chain.{all_run_steps}
use ha_osrs_map.Trail.Model.Coverage.{runs-cover, jumps-cover}
use ha_osrs_map.Trail.Time.{position_at, next_change_after, next_hop, index_at}
use ha_osrs_map.Trail.Time.Order.{IsOrdered}
use ha_osrs_map.Trail.Time.Search.{IsLastReached, index_at-IsLastReached}
use ha_osrs_map.Trail.Time.Place.{IsPlaced, position_at-IsPlaced}
use ha_osrs_map.Trail.Time.Change.{ChangeOk, next_change_after-ChangeOk, HopOk, next_hop-HopOk}
use ha_osrs_map.Trail.Live.{
  Row, number, object, decode_trail, live_point, observe_live, merge_trail, same_place, is_behind,
  is_news,
}
use ha_osrs_map.Trail.Live.Decode.{IsComplete, decode_trail-worlds}
use ha_osrs_map.Trail.Live.Merge.{merge_trail-IsOrdered}
use ha_osrs_map.Trail.Live.Observe.{IsNoted, observe_live-IsNoted}

program : Unit {0}
unfolding build_trail_model step_kinds classify_step classify_via classify_unlabelled classify_bands
    move_kind distance band in_instance_space scan chain_ends jump_at close_chain split_chain cuts
program = tt

abbrev at : ℕ → ℕ → ℕ → ℕ → Bool → Option Via → Point
at x y t0 t1 boat via = record {
  x = x;
  y = y;
  plane = 0;
  t0 = t0;
  t1 = t1;
  boat = boat;
  world = none;
  via = via;
  live = false;
}

-- A walk, a boat trip, a teleport, and a step without a label.
abbrev trip : List Point
trip =
    at 3200 3200 100 110 false none
    ∷ at 3203 3200 112 112 true (some Via.move)
    ∷ at 3220 3200 120 130 true (some Via.move)
    ∷ at 2800 3400 140 140 false (some Via.teleport)
    ∷ at 2802 3400 141 150 false none
    ∷ []

kinds_of_trip : step_kinds trip 300 ≡ Kind.walk ∷ Kind.sail ∷ Kind.teleport ∷ Kind.walk ∷ []
unfolding program
kinds_of_trip = refl

runs_of_trip : (build_trail_model trip 60).runs ≡ run 0 1 false ∷ run 1 2 true ∷ run 3 4 false ∷ []
unfolding program
runs_of_trip = refl

jumps_of_trip : (build_trail_model trip 60).jumps ≡ jump 2 Kind.teleport ∷ []
unfolding program
jumps_of_trip = refl

trip-IsOrdered : IsOrdered trip
trip-IsOrdered = omega arith

abbrev here : Point
here = at 3200 3200 100 110 false none

abbrev labelled : Point
labelled = at 3203 3200 112 112 true (some Via.teleport)

runs-cover_example :
    all_run_steps (build_trail_model trip 60).runs ≡ (0, false) ∷ (1, true) ∷ (3, false) ∷ []
unfolding program
runs-cover_example = runs-cover trip 60

jumps-cover_example : (build_trail_model trip 60).jumps ≡ jump 2 Kind.teleport ∷ []
unfolding program
jumps-cover_example = jumps-cover trip 60

abbrev trip_model : TrailModel
trip_model = build_trail_model trip 60

index_at-IsLastReached_example : IsLastReached trip 125 (index_at trip 125)
index_at-IsLastReached_example = index_at-IsLastReached trip 125 trip-IsOrdered

trip_model-IsOrdered : IsOrdered trip_model.points
unfolding build_trail_model
trip_model-IsOrdered = trip-IsOrdered

position_at-IsPlaced_example : IsPlaced trip_model 115 (position_at trip_model 115)
position_at-IsPlaced_example = position_at-IsPlaced trip_model 115 trip_model-IsOrdered

next_change_after-ChangeOk_example :
    ChangeOk trip_model.points 135 (next_change_after trip_model 135)
next_change_after-ChangeOk_example = next_change_after-ChangeOk trip_model 135 trip_model-IsOrdered

next_hop-HopOk_example : HopOk 120 145 (next_hop trip_model 120 145)
next_hop-HopOk_example = next_hop-HopOk trip_model 120 145 trip_model-IsOrdered

abbrev seen : Point
seen = live_point (record { x = 2805; y = 3400; plane = 0; boat = false; world = some 390 }) 148

abbrev marker : Point
marker = live_point (record { x = 2810; y = 3400; plane = 0; boat = false; world = some 390 }) 170

merge_trail-IsOrdered_example : IsOrdered (merge_trail trip (seen ∷ []) (some marker) 147 none)
merge_trail-IsOrdered_example =
    merge_trail-IsOrdered trip (seen ∷ []) (some marker) 147 none trip-IsOrdered

not_behind : is_behind (some (at 2802 3400 141 150 false none)) 147 (some seen) marker ≡ false
unfolding is_behind same_place is_news
not_behind = refl

observe_live-IsNoted_example :
    IsNoted
      (record { x = 2810; y = 3400; plane = 0; boat = false; world = none })
      170
      240
      (observe_live
        (seen ∷ [])
        (record { x = 2810; y = 3400; plane = 0; boat = false; world = none })
        170
        240
        3600
        false).0
observe_live-IsNoted_example =
    observe_live-IsNoted (seen ∷ [])
      (record { x = 2810; y = 3400; plane = 0; boat = false; world = none }) 170 240 3600 false
      (omega arith) (omega arith)

abbrev row : ℕ → Row
row t = record {
  x = some 3200;
  y = number 3200;
  plane = some 0;
  time = some t;
  dwell = none;
  flags = some 1;
  via = some 9;
}

decode_trail-worlds_example :
    map
      (λ p. p.world)
      (decode_trail
        (object (row 10 ∷ row 20 ∷ row 30 ∷ []) ((1, 301) ∷ (2, 302) ∷ []) none none)).points
    ≡ none ∷ some 301 ∷ some 302 ∷ []
decode_trail-worlds_example =
    decode_trail-worlds (row 10 ∷ row 20 ∷ row 30 ∷ []) ((1, 301) ∷ (2, 302) ∷ []) none none
      (omega arith) (complete 10, (complete 20, (complete 30, tt)))
  where
    complete : (t : ℕ) → IsComplete (row t)
    complete t = record { x = (3200, refl); y = (3200, refl); plane = (0, refl); time = (t, refl) }
