-- ===== src/Replay/Ending.antt =====
-- A replay that plays comes to its end.
use ha_osrs_map.Base.{
  ℕ, ◌+◌, ◌-◌, ◌*◌, ◌≤◌, ◌<◌, ◌≡◌, refl, ap, ◌⊎◌, inl, inr, true, false, Option, none, some, arith,
  ltb, leb, leb→le, if◌then◌else◌, Bool-cases,
}
use native.Mathlib.Decide.{dec_lt}
use ha_osrs_map.Replay.Range.{moved_time_bounds}
use ha_osrs_map.Replay.{
  PlayedHop, HopAhead, ReplayClock, NextChange, NextHop, run_on, moved_time, ask_change, ask_hop,
  lands_within, start_hop, meet_hop, stop_at_end, play_hop, move_on, played_frame, frame_step, tick,
  hop_duration_ms,
}

-- How far the clock has got: while a teleport is played out, to where it lands.
abbrev pub goal_of : Option PlayedHop → ℕ → ℕ
goal_of none time = time
goal_of (some hop) time = hop.land

abbrev hop_left : Option PlayedHop → ℕ → ℕ
hop_left none hop_ms = 0
hop_left (some hop) hop_ms = 1 + (hop_duration_ms - hop_ms)

-- What is left to play: the way to the end counts more than any one wait on it.
abbrev pub left_to_play : ReplayClock → ℕ
left_to_play c = 4000 * (c.t_max - goal_of c.hop c.time) + hop_left c.hop c.hop_ms + c.hold_ms

-- The time and the teleport do not lie past the end.
pub record IsBeforeEnd (c : ReplayClock) : Type 0 where
  pub to_end : c.time ≤ c.t_max
  pub goal_to_end : goal_of c.hop c.time ≤ c.t_max

-- A frame of a playing clock either comes nearer to the end or is the last one, at the end.
pub data Progress (c : ReplayClock) (d : ReplayClock) : Type 0 where
  nearer : d.playing ≡ c.playing → left_to_play d < left_to_play c → Progress c d
  ended : d.playing ≡ false → d.time ≡ d.t_max → d.hop ≡ none → Progress c d

frame-pos : (frame speed : ℕ) → 0 < frame → 0 < speed → 0 < frame * speed
frame-pos frame speed f s = grind arith

moved_time-lt :
    (c : ReplayClock) (frame : ℕ) (next : Option (Option ℕ))
    → 0 < frame
    → 0 < c.speed
    → c.time < c.t_max
    → c.time < moved_time c frame next
unfolding moved_time run_on
moved_time-lt c frame none f s lt = omega (arith, frame-pos frame c.speed f s)
moved_time-lt c frame (some none) f s lt = lt
moved_time-lt c frame (some (some next)) f s lt = ground (arith, frame-pos frame c.speed f s)

-- Once the time is set and no hop is met, or one that is not played out.
settled-Progress :
    (c : ReplayClock) (t hold : ℕ)
    → c.playing ≡ true
    → c.hop ≡ none
    → t ≤ c.t_max
    → ((c.time < t) × (hold ≤ 1500)) ⊎ (t ≡ c.t_max)
    → Progress c (stop_at_end (record c { time = t; hold_ms = hold }))
unfolding stop_at_end
settled-Progress c t hold playing e le far = elim (Bool-cases (leb c.t_max t)) [
  | inl at ↦ ended (ground arith) (ground arith) e
  | inr before ↦ nearer (ground arith) (ground arith)
]

started-Progress :
    (c : ReplayClock) (t : ℕ) (h : HopAhead)
    → c.playing ≡ true
    → c.hop ≡ none
    → c.hold_ms ≡ 0
    → t ≤ c.t_max
    → c.time < h.land
    → h.land ≤ t
    → Progress c (stop_at_end (start_hop (record c { time = t }) h))
unfolding start_hop stop_at_end
started-Progress c t h playing e hold le after by = elim (Bool-cases h.animated) [
  | inl a ↦ rw (a, start_hop) (nearer (ground arith) (ground arith))
  | inr a ↦
      rw (a, start_hop)
        (settled-Progress c h.land 1500 playing e (omega arith) (inl (after, omega arith)))
]

-- Where the time comes to in a frame: further on, or it was at the end already.
moved_time-far :
    (c : ReplayClock) (frame : ℕ) (next : Option (Option ℕ))
    → 0 < frame
    → 0 < c.speed
    → c.time ≤ c.t_max
    → (c.time < moved_time c frame next) ⊎ (moved_time c frame next ≡ c.t_max)
moved_time-far c frame next f s le = elim (dec_lt c.time c.t_max) [
  | yes lt ↦ inl (moved_time-lt c frame next f s lt)
  | no ge ↦ inr (let b = moved_time_bounds c frame next le in omega (arith, b.0, b.1))
]

far_enough :
    (c : ReplayClock) (t : ℕ)
    → c.hold_ms ≡ 0
    → (c.time < t) ⊎ (t ≡ c.t_max)
    → ((c.time < t) × (c.hold_ms ≤ 1500)) ⊎ (t ≡ c.t_max)
far_enough c t hold (inl lt) = inl (lt, omega arith)
far_enough c t hold (inr at) = inr at

met-Progress :
    (c : ReplayClock) (t : ℕ) (hop : Option HopAhead)
    → c.playing ≡ true
    → c.hop ≡ none
    → c.hold_ms ≡ 0
    → t ≤ c.t_max
    → (c.time < t) ⊎ (t ≡ c.t_max)
    → Progress c (stop_at_end (meet_hop (record c { time = t }) c.time hop))
unfolding meet_hop
met-Progress c t none playing e hold le far =
    settled-Progress c t c.hold_ms playing e le (far_enough c t hold far)
met-Progress c t (some h) playing e hold le far = elim (Bool-cases (lands_within c.time h.land t)) [
  | inl within ↦ rw within (started-Progress c t h playing e hold le (ground arith) (ground arith))
  | inr beyond ↦ rw beyond (settled-Progress c t c.hold_ms playing e le (far_enough c t hold far))
]

play_hop-Progress :
    (c : ReplayClock) (hop : PlayedHop) (frame : ℕ)
    → 0 < frame
    → c.playing ≡ true
    → c.hop ≡ some hop
    → hop.land ≤ c.t_max
    → Progress c (play_hop c hop frame)
unfolding play_hop
play_hop-Progress c hop frame f playing e le =
    elim (Bool-cases (ltb (c.hop_ms + frame) hop_duration_ms)) [
      | inl going ↦ rw going (nearer refl (ground arith))
      | inr over ↦ elim (Bool-cases (leb c.t_max hop.land)) [
        | inl at ↦ rw (over, at) (ended refl (omega (arith, leb→le _ _ at)) refl)
        | inr before ↦ rw (over, before) (nearer refl (ground arith))
      ]
    ]

frame_step-Progress :
    (c : ReplayClock) (hop : Option PlayedHop) (frame : ℕ) (next_change : Option NextChange)
    (next_hop : Option NextHop)
    → c.hop ≡ hop
    → 0 < frame
    → 0 < c.speed
    → c.playing ≡ true
    → c.time ≤ c.t_max
    → goal_of hop c.time ≤ c.t_max
    → Progress c (frame_step c hop frame next_change next_hop).0
unfolding frame_step move_on
frame_step-Progress c (some hop) frame next_change next_hop e f s playing le goal =
    play_hop-Progress c hop frame f playing e goal
frame_step-Progress c none frame next_change next_hop e f s playing le goal =
    elim (Bool-cases (ltb 0 c.hold_ms)) [
      | inl holds ↦ rw holds (nearer refl (ground arith))
      | inr runs ↦
          let next = ask_change c next_change in
          let t : ℕ = moved_time c frame next in
          rw runs (
            met-Progress c t (ask_hop next_hop c.time t) playing e (ground arith)
              (moved_time_bounds c frame next le).1 (moved_time-far c frame next f s le))
    ]

tick-playing :
    (c : ReplayClock) (elapsed : ℕ) (next_change : Option NextChange) (next_hop : Option NextHop)
    → c.playing ≡ true
    → (tick c elapsed next_change next_hop).0
      ≡ (frame_step c c.hop (played_frame elapsed) next_change next_hop).0
unfolding tick
tick-playing c elapsed next_change next_hop playing =
    ap
      (λ b.
        (if b
          then frame_step c c.hop (played_frame elapsed) next_change next_hop
          else (c, false)).0)
      playing

-- Whatever the trails answer, a frame of at least a millisecond of a playing clock that has not
-- run past its end either leaves less to play, or stops the clock at the end of the trails.
pub tick-Progress :
    (c : ReplayClock) (elapsed : ℕ) (next_change : Option NextChange) (next_hop : Option NextHop)
    → 0 < elapsed
    → 0 < c.speed
    → c.playing ≡ true
    → IsBeforeEnd c
    → Progress c (tick c elapsed next_change next_hop).0
tick-Progress c elapsed next_change next_hop pos s playing v =
    rw (tick-playing c elapsed next_change next_hop playing) (
      frame_step-Progress c c.hop (played_frame elapsed) next_change next_hop refl (omega arith) s
        playing v.to_end v.goal_to_end)
