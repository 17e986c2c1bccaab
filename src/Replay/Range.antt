-- ===== src/Replay/Range.antt =====
-- The clock stays within the span of the trails.
use ha_osrs_map.Base.{
  ℕ, ◌+◌, ◌≤◌, ◌<◌, ◌≡◌, refl, sym, subst, inl, inr, true, false, Option, none, some, arith, ltb,
  if◌then◌else◌, Bool-cases,
}
use ha_osrs_map.Replay.{
  PlayedHop, HopAhead, ReplayClock, NextChange, NextHop, set_range, seek, play, pause, restart_hop,
  run_on, moved_time, ask_change, ask_hop, lands_within, start_hop, meet_hop, stop_at_end, play_hop,
  move_on, played_frame, frame_step, tick, hop_duration_ms,
}

abbrev pub HopInRange : ℕ → ℕ → Option PlayedHop → Type 0
HopInRange lo hi none = Unit
HopInRange lo hi (some hop) = (lo ≤ hop.leave) × (hop.leave ≤ hop.land) × (hop.land ≤ hi)

-- The time is between the ends of the trails, and so is the teleport that is being played out.
pub record IsInRange (c : ReplayClock) : Type 0 where
  pub from_start : c.t_min ≤ c.time
  pub to_end : c.time ≤ c.t_max
  pub hop_within : HopInRange c.t_min c.t_max c.hop

-- What the clock is told about hops: the player leaves after the trails begin, and no later than
-- they land.
abbrev pub HopsFrom : ℕ → Option NextHop → Type 0
HopsFrom lo none = Unit
HopsFrom lo (some next_hop) =
    (from to : ℕ) (hop : HopAhead)
    → next_hop from to ≡ some hop
    → (lo ≤ hop.leave) × (hop.leave ≤ hop.land)

-- A clock that plays out no teleport is within the span it is given, for every span that ends no
-- earlier than it begins.
pub set_range-IsInRange :
    (c : ReplayClock) (lo hi : ℕ) → lo ≤ hi → c.hop ≡ none → IsInRange (set_range c lo hi)
unfolding set_range
set_range-IsInRange c lo hi le e = record {
  from_start = ground arith;
  to_end = ground arith;
  hop_within = rw e tt;
}

-- A clock whose span ends no earlier than it begins is within it after it is sent to a time,
-- whichever that is and whatever teleport it was playing out.
pub seek-IsInRange : (c : ReplayClock) (t : ℕ) → c.t_min ≤ c.t_max → IsInRange (seek c t)
unfolding seek
seek-IsInRange c t le = record { from_start = omega arith; to_end = omega arith; hop_within = tt }

pub play-IsInRange : (c : ReplayClock) → IsInRange c → IsInRange (play c)
unfolding play
play-IsInRange c v = record {
  from_start = ground arith;
  to_end = ground arith;
  hop_within = v.hop_within;
}

restart_hop-InRange :
    (lo hi : ℕ) (hop : Option PlayedHop) → HopInRange lo hi hop → HopInRange lo hi (restart_hop hop)
restart_hop-InRange lo hi none h = tt
restart_hop-InRange lo hi (some hop) h = h

pub pause-IsInRange : (c : ReplayClock) → IsInRange c → IsInRange (pause c)
unfolding pause
pause-IsInRange c v = record {
  from_start = v.from_start;
  to_end = v.to_end;
  hop_within = restart_hop-InRange c.t_min c.t_max c.hop v.hop_within;
}

-- A frame moves the time on, or leaves it, within the span.
pub moved_time_bounds :
    (c : ReplayClock) (frame : ℕ) (next : Option (Option ℕ))
    → c.time ≤ c.t_max
    → (c.time ≤ moved_time c frame next) × (moved_time c frame next ≤ c.t_max)
unfolding moved_time run_on
moved_time_bounds c frame none le = (omega arith, omega arith)
moved_time_bounds c frame (some none) le = (omega arith, omega arith)
moved_time_bounds c frame (some (some next)) le = (ground arith, ground arith)

stop_at_end-IsInRange : (c : ReplayClock) → IsInRange c → IsInRange (stop_at_end c)
unfolding stop_at_end
stop_at_end-IsInRange c v = record {
  from_start = v.from_start;
  to_end = v.to_end;
  hop_within = v.hop_within;
}

start_hop-IsInRange :
    (c : ReplayClock) (h : HopAhead)
    → IsInRange c
    → c.t_min ≤ h.leave
    → h.leave ≤ h.land
    → h.land ≤ c.time
    → IsInRange (start_hop c h)
unfolding start_hop
start_hop-IsInRange c h v from le by =
    let hi = v.to_end in
    elim (Bool-cases h.animated) [
      | inl a ↦
          rw (a, start_hop)
            (record {
              from_start = from;
              to_end = omega arith;
              hop_within = (from, le, omega arith);
            })
      | inr a ↦
          rw (a, start_hop)
            (record { from_start = omega arith; to_end = omega arith; hop_within = v.hop_within })
    ]

meet_hop-IsInRange :
    (c : ReplayClock) (before : ℕ) (hop : Option HopAhead)
    → IsInRange c
    → ((h : HopAhead) → hop ≡ some h → (c.t_min ≤ h.leave) × (h.leave ≤ h.land))
    → IsInRange (meet_hop c before hop)
unfolding meet_hop
meet_hop-IsInRange c before none v ok = v
meet_hop-IsInRange c before (some h) v ok = elim (Bool-cases (lands_within before h.land c.time)) [
  | inl within ↦
      let (from, le) = ok h refl in rw within (start_hop-IsInRange c h v from le (ground arith))
  | inr beyond ↦ rw beyond v
]

ask_hop-ok :
    (lo : ℕ) (next_hop : Option NextHop) (from to : ℕ) (h : HopAhead)
    → HopsFrom lo next_hop
    → ask_hop next_hop from to ≡ some h
    → (lo ≤ h.leave) × (h.leave ≤ h.land)
ask_hop-ok lo none from to h ok e = cc
ask_hop-ok lo (some next_hop) from to h ok e = ok from to h e

move_on-IsInRange :
    (c : ReplayClock) (frame : ℕ) (next_change : Option NextChange) (next_hop : Option NextHop)
    → IsInRange c
    → HopsFrom c.t_min next_hop
    → IsInRange (move_on c frame next_change next_hop)
unfolding move_on
move_on-IsInRange c frame next_change next_hop v ok =
    let t : ℕ = moved_time c frame (ask_change c next_change) in
    let (lo, hi) = moved_time_bounds c frame (ask_change c next_change) v.to_end in
    let start = v.from_start in
    let moved : ReplayClock = record c { time = t } in
    stop_at_end-IsInRange _ (
      meet_hop-IsInRange moved c.time (ask_hop next_hop c.time t)
        (record { from_start = omega arith; to_end = hi; hop_within = v.hop_within })
        (λ h. ask_hop-ok c.t_min next_hop c.time t h ok))

play_hop-IsInRange :
    (c : ReplayClock) (hop : PlayedHop) (frame : ℕ)
    → IsInRange c
    → HopInRange c.t_min c.t_max (some hop)
    → IsInRange (play_hop c hop frame)
unfolding play_hop
play_hop-IsInRange c hop frame v h = elim (Bool-cases (ltb (c.hop_ms + frame) hop_duration_ms)) [
  | inl going ↦ rw going (record { from_start = v.from_start; to_end = v.to_end; hop_within = h })
  | inr over ↦ rw over (record { from_start = omega arith; to_end = h.2; hop_within = tt })
]

frame_step-IsInRange :
    (c : ReplayClock) (hop : Option PlayedHop) (frame : ℕ) (next_change : Option NextChange)
    (next_hop : Option NextHop)
    → c.hop ≡ hop
    → HopInRange c.t_min c.t_max hop
    → IsInRange c
    → HopsFrom c.t_min next_hop
    → IsInRange (frame_step c hop frame next_change next_hop).0
unfolding frame_step
frame_step-IsInRange c (some hop) frame next_change next_hop e h v ok =
    play_hop-IsInRange c hop frame v h
frame_step-IsInRange c none frame next_change next_hop e h v ok =
    elim (Bool-cases (ltb 0 c.hold_ms)) [
      | inl holds ↦
          rw holds
            (record { from_start = v.from_start; to_end = v.to_end; hop_within = v.hop_within })
      | inr runs ↦ rw runs (move_on-IsInRange c frame next_change next_hop v ok)
    ]

-- Where the hops asked for start within the trails, a frame keeps a clock that is within them there,
-- with the teleport it plays out, whether it runs, waits, skips or plays one out.
pub tick-IsInRange :
    (c : ReplayClock) (elapsed : ℕ) (next_change : Option NextChange) (next_hop : Option NextHop)
    → IsInRange c
    → HopsFrom c.t_min next_hop
    → IsInRange (tick c elapsed next_change next_hop).0
unfolding tick
tick-IsInRange c elapsed next_change next_hop v ok = elim (Bool-cases c.playing) [
  | inl playing ↦
      subst
        (λ b.
          IsInRange
            (if b
              then frame_step c c.hop (played_frame elapsed) next_change next_hop
              else (c, false)).0)
        (sym playing)
        (frame_step-IsInRange c c.hop (played_frame elapsed) next_change next_hop refl v.hop_within
          v ok)
  | inr paused ↦
      subst
        (λ b.
          IsInRange
            (if b
              then frame_step c c.hop (played_frame elapsed) next_change next_hop
              else (c, false)).0)
        (sym paused) v
]

-- The trails may get shorter while a teleport is played out, as when its player's trail is taken
-- off the map. `setRange` does not look at the teleport: once that is over, a clock whose span was
-- cut short of the landing stands past the end of its span.
pub set_range-hop_escapes :
    (c : ReplayClock) (hop : PlayedHop) (lo hi elapsed : ℕ) (next_change : Option NextChange)
    (next_hop : Option NextHop)
    → c.playing ≡ true
    → c.hop ≡ some hop
    → hop_duration_ms ≤ c.hop_ms + played_frame elapsed
    → hi < hop.land
    → (set_range c lo hi).t_max < (tick (set_range c lo hi) elapsed next_change next_hop).0.time
unfolding tick set_range frame_step play_hop
set_range-hop_escapes c hop lo hi elapsed next_change next_hop playing e over cut = ground arith
