-- ===== src/Replay.antt =====
-- The clock of the replay (site/src/trail-scrubber/replay-clock.js). Times are in milliseconds here
-- and in seconds in the source, so that a frame of `frame` ms at speed `s` moves the clock on by
-- `frame * s`; the constants that the source gives in seconds are 1000 times theirs. Frames last
-- a whole number of ms.
pub mod Range
pub mod Ending
pub mod Through
mod Tests
use ha_osrs_map.Base.{
  ℕ, ◌+◌, ◌-◌, ◌*◌, min, max, Bool, true, false, ◌&&◌, ◌||◌, not, Option, none, some, ltb, leb,
  nat_beq, if◌then◌else◌,
}

abbrev pub max_frame_ms : ℕ
max_frame_ms = 250

abbrev pub idle_skip : ℕ
idle_skip = 600000

abbrev pub idle_lead : ℕ
idle_lead = 30000

abbrev pub landing_hold_ms : ℕ
landing_hold_ms = 1500

abbrev pub hop_duration_ms : ℕ
hop_duration_ms = 1300

abbrev pub default_speed : ℕ
default_speed = 300

-- The teleport being played out. `progress` counts in 1300ths: it is the source's times HOP_MS.
pub record PlayedHop : Type 0 where
  pub leave : ℕ
  pub land : ℕ
  pub progress : ℕ

-- What `nextHop` answers.
pub record HopAhead : Type 0 where
  pub leave : ℕ
  pub land : ℕ
  pub animated : Bool

pub record ReplayClock : Type 0 where
  pub t_min : ℕ
  pub t_max : ℕ
  pub time : ℕ
  pub playing : Bool
  pub speed : ℕ
  pub skip_idle : Bool
  pub hold_ms : ℕ
  pub hop : Option PlayedHop
  pub hop_ms : ℕ

abbrev pub NextChange : Type 0
NextChange = ℕ → Option ℕ

abbrev pub NextHop : Type 0
NextHop = ℕ → ℕ → Option HopAhead

abbrev pub new_clock : ReplayClock
new_clock = record {
  t_min = 0;
  t_max = 0;
  time = 0;
  playing = false;
  speed = default_speed;
  skip_idle = true;
  hold_ms = 0;
  hop = none;
  hop_ms = 0;
}

abbrev pub at_end : ReplayClock → Bool
at_end c = leb c.t_max c.time

abbrev pub hopping : Option PlayedHop → Bool
hopping none = false
hopping (some hop) = true

-- `Math.min(Math.max(time, lo), hi)`
abbrev pub clamp : ℕ → ℕ → ℕ → ℕ
clamp lo hi t = min (max t lo) hi

unfoldable pub set_range : ReplayClock → ℕ → ℕ → ReplayClock
set_range c lo hi = record c {
  t_min = lo;
  t_max = hi;
  time = if at_end c then hi else clamp lo hi c.time;
}

unfoldable pub seek : ReplayClock → ℕ → ReplayClock
seek c t = record c { time = clamp c.t_min c.t_max t; hold_ms = 0; hop = none }

unfoldable pub play : ReplayClock → ReplayClock
play c = record c {
  time = if at_end c && not (hopping c.hop) then c.t_min else c.time;
  playing = true;
}

abbrev pub restart_hop : Option PlayedHop → Option PlayedHop
restart_hop none = none
restart_hop (some hop) = some (record hop { progress = 0 })

unfoldable pub pause : ReplayClock → ReplayClock
pause c = record c { playing = false; hold_ms = 0; hop = restart_hop c.hop; hop_ms = 0 }

-- What is asked of the trails before a frame: nothing (`undefined`), or when something happens next.
abbrev pub ask_change : ReplayClock → Option NextChange → Option (Option ℕ)
ask_change c none = none
ask_change c (some next_change) = if c.skip_idle then some (next_change c.time) else none

unfoldable pub run_on : ReplayClock → ℕ → ℕ
run_on c frame = min (c.time + frame * c.speed) c.t_max

-- The time after a frame, before hops are looked at.
unfoldable pub moved_time : ReplayClock → ℕ → Option (Option ℕ) → ℕ
moved_time c frame none = run_on c frame
moved_time c frame (some none) = c.t_max
moved_time c frame (some (some next)) =
    if ltb idle_skip (next - c.time) then min (next - idle_lead) c.t_max else run_on c frame

abbrev pub ask_hop : Option NextHop → ℕ → ℕ → Option HopAhead
ask_hop none from to = none
ask_hop (some next_hop) from to = next_hop from to

unfoldable pub start_hop : ReplayClock → HopAhead → ReplayClock
start_hop c hop =
    if hop.animated
    then record c {
      time = hop.leave;
      hop = some (record { leave = hop.leave; land = hop.land; progress = 0 });
      hop_ms = 0;
    }
    else record c { time = hop.land; hold_ms = landing_hold_ms }

-- `hop.land > before && hop.land <= this.time`
abbrev pub lands_within : ℕ → ℕ → ℕ → Bool
lands_within before land time = ltb before land && leb land time

-- `c` is at the new time already; `before` is the time before the frame.
unfoldable pub meet_hop : ReplayClock → ℕ → Option HopAhead → ReplayClock
meet_hop c before none = c
meet_hop c before (some hop) = if lands_within before hop.land c.time then start_hop c hop else c

unfoldable pub stop_at_end : ReplayClock → ReplayClock
stop_at_end c = record c { playing = if at_end c && not (hopping c.hop) then false else c.playing }

-- A frame while a teleport is played out.
unfoldable pub play_hop : ReplayClock → PlayedHop → ℕ → ReplayClock
play_hop c hop frame =
    let hop_ms = c.hop_ms + frame in
    if ltb hop_ms hop_duration_ms
    then record c { hop_ms = hop_ms; hop = some (record hop { progress = hop_ms }) }
    else record c {
      hop_ms = hop_ms;
      time = hop.land;
      hop = none;
      playing = if leb c.t_max hop.land then false else c.playing;
    }

-- A frame in which the time moves on.
unfoldable pub move_on : ReplayClock → ℕ → Option NextChange → Option NextHop → ReplayClock
move_on c frame next_change next_hop =
    let moved = record c { time = moved_time c frame (ask_change c next_change) } in
    stop_at_end (meet_hop moved c.time (ask_hop next_hop c.time moved.time))

abbrev pub played_frame : ℕ → ℕ
played_frame elapsed = min elapsed max_frame_ms

-- A frame of a clock that plays. The source's `holdMs` may end below 0 where it stops at 0 here; it
-- is only ever compared with 0.
unfoldable pub frame_step :
    ReplayClock → Option PlayedHop → ℕ → Option NextChange → Option NextHop → ReplayClock × Bool
frame_step c (some hop) frame next_change next_hop = (play_hop c hop frame, true)
frame_step c none frame next_change next_hop =
    if ltb 0 c.hold_ms
    then (record c { hold_ms = c.hold_ms - frame }, false)
    else let moved = move_on c frame next_change next_hop in
      (moved, not (nat_beq moved.time c.time) || hopping moved.hop)

unfoldable pub tick : ReplayClock → ℕ → Option NextChange → Option NextHop → ReplayClock × Bool
tick c elapsed next_change next_hop =
    if c.playing then frame_step c c.hop (played_frame elapsed) next_change next_hop else (c, false)
