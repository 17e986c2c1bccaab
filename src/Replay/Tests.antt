-- ===== src/Replay/Tests.antt =====
-- The replay's clock on small spans, and its theorems at them.
use ha_osrs_map.Base.{◌≡◌, ◌<◌, refl, true, none, some, [], ◌∷◌, arith, ltb, if◌then◌else◌}
use ha_osrs_map.Replay.{
  ReplayClock, NextHop, new_clock, set_range, tick, frame_step, move_on, moved_time, run_on,
  meet_hop, start_hop, stop_at_end, play_hop,
}
use ha_osrs_map.Replay.Range.{IsInRange, HopsFrom, tick-IsInRange, set_range-hop_escapes}
use ha_osrs_map.Replay.Through.{after_frames, HasEnded, after_frames-HasEnded}

program : Unit {0}
unfolding tick frame_step move_on moved_time run_on meet_hop start_hop stop_at_end play_hop
program = tt

-- A clock that plays a span of ten seconds.
abbrev playing : ReplayClock
playing = record new_clock { t_min = 1000; t_max = 11000; time = 2000; playing = true; speed = 60 }

-- The player leaves at 3 s and lands at 4 s.
abbrev one_hop : NextHop
one_hop from to =
    if◌then◌else◌ (ltb from 4000) (some (record { leave = 3000; land = 4000; animated = true }))
      none

runs_into_hop : (tick playing 100 none (some one_hop)).0 ≡ record playing {
  time = 3000;
  hop = some (record { leave = 3000; land = 4000; progress = 0 });
  hop_ms = 0;
}
unfolding program
runs_into_hop = refl

one_hop-ok : HopsFrom 1000 (some one_hop)
one_hop-ok from to hop e = (ground arith, ground arith)

playing-IsInRange : IsInRange playing
playing-IsInRange = record { from_start = omega arith; to_end = omega arith; hop_within = tt }

tick-IsInRange_example : IsInRange (tick playing 100 none (some one_hop)).0
tick-IsInRange_example = tick-IsInRange playing 100 none (some one_hop) playing-IsInRange one_hop-ok

abbrev hopping_clock : ReplayClock
hopping_clock = record playing {
  time = 3000;
  hop = some (record { leave = 3000; land = 4000; progress = 1250 });
  hop_ms = 1250;
}

set_range-hop_escapes_example :
    (set_range hopping_clock 1000 3500).t_max
    < (tick (set_range hopping_clock 1000 3500) 100 none none).0.time
set_range-hop_escapes_example =
    set_range-hop_escapes hopping_clock (record { leave = 3000; land = 4000; progress = 1250 }) 1000
      3500 100 none none refl refl (omega arith) (omega arith)

-- In the last moments of a teleport to the end of the trails.
abbrev near_end : ReplayClock
near_end = record playing {
  time = 9000;
  hop = some (record { leave = 9000; land = 11000; progress = 1298 });
  hop_ms = 1298;
}

after_frames-HasEnded_example :
    HasEnded (after_frames near_end (1 ∷ 1 ∷ 16 ∷ 16 ∷ []) none (some one_hop))
after_frames-HasEnded_example =
    after_frames-HasEnded none (some one_hop) near_end (1 ∷ 1 ∷ 16 ∷ 16 ∷ []) (omega arith) refl
      (record { from_start = omega arith; to_end = omega arith; hop_within = omega arith })
      one_hop-ok (omega arith) (omega arith)
