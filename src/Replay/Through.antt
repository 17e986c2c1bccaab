-- ===== src/Replay/Through.antt =====
-- A replay that is left to play.
use ha_osrs_map.Base.{
  ℕ, ◌≤◌, ◌<◌, ◌≡◌, refl, sym, subst, ap, ◌∙◌, inl, inr, true, false, Option, none, some, arith,
  List, [], ◌∷◌, All, length, ltb, if◌then◌else◌, Bool-cases,
}
use ha_osrs_map.Replay.{
  PlayedHop, HopAhead, ReplayClock, NextChange, NextHop, moved_time, ask_change, ask_hop, start_hop,
  meet_hop, stop_at_end, play_hop, move_on, played_frame, frame_step, tick,
}
use ha_osrs_map.Replay.Range.{HopInRange, IsInRange, HopsFrom, tick-IsInRange}
use ha_osrs_map.Replay.Ending.{
  goal_of, left_to_play, IsBeforeEnd, Progress, nearer, ended, tick-Progress,
}

goal-to_end :
    (lo hi time : ℕ) (hop : Option PlayedHop)
    → time ≤ hi
    → HopInRange lo hi hop
    → goal_of hop time ≤ hi
goal-to_end lo hi time none le h = le
goal-to_end lo hi time (some hop) le h = h.2

IsInRange→IsBeforeEnd : (c : ReplayClock) → IsInRange c → IsBeforeEnd c
IsInRange→IsBeforeEnd c v = record {
  to_end = v.to_end;
  goal_to_end = goal-to_end c.t_min c.t_max c.time c.hop v.to_end v.hop_within;
}

-- The settings that a frame leaves alone.
record HasSpanOf (c d : ReplayClock) : Type 0 where
  t_min : d.t_min ≡ c.t_min
  t_max : d.t_max ≡ c.t_max
  speed : d.speed ≡ c.speed

meet_hop-HasSpanOf :
    (c : ReplayClock) (before : ℕ) (hop : Option HopAhead)
    → HasSpanOf c (stop_at_end (meet_hop c before hop))
unfolding meet_hop start_hop stop_at_end
meet_hop-HasSpanOf c before none = record { t_min = refl; t_max = refl; speed = refl }
meet_hop-HasSpanOf c before (some h) = record {
  t_min = ground arith;
  t_max = ground arith;
  speed = ground arith;
}

frame_step-HasSpanOf :
    (c : ReplayClock) (hop : Option PlayedHop) (frame : ℕ) (next_change : Option NextChange)
    (next_hop : Option NextHop)
    → HasSpanOf c (frame_step c hop frame next_change next_hop).0
unfolding frame_step play_hop move_on
frame_step-HasSpanOf c (some hop) frame next_change next_hop = record {
  t_min = ground arith;
  t_max = ground arith;
  speed = ground arith;
}
frame_step-HasSpanOf c none frame next_change next_hop = elim (Bool-cases (ltb 0 c.hold_ms)) [
  | inl holds ↦ rw holds (record { t_min = refl; t_max = refl; speed = refl })
  | inr runs ↦
      let t : ℕ = moved_time c frame (ask_change c next_change) in
      let s = meet_hop-HasSpanOf (record c { time = t }) c.time (ask_hop next_hop c.time t) in
      rw runs (record { t_min = s.t_min; t_max = s.t_max; speed = s.speed })
]

tick-HasSpanOf :
    (c : ReplayClock) (elapsed : ℕ) (next_change : Option NextChange) (next_hop : Option NextHop)
    → HasSpanOf c (tick c elapsed next_change next_hop).0
unfolding tick
tick-HasSpanOf c elapsed next_change next_hop =
    let s = frame_step-HasSpanOf c c.hop (played_frame elapsed) next_change next_hop in
    record {
      t_min = ground (arith, s.t_min);
      t_max = ground (arith, s.t_max);
      speed = ground (arith, s.speed);
    }

-- The clock after a row of frames.
unfoldable pub after_frames :
    ReplayClock → List ℕ → Option NextChange → Option NextHop → ReplayClock
after_frames c [] next_change next_hop = c
after_frames c (elapsed ∷ frames) next_change next_hop =
    after_frames (tick c elapsed next_change next_hop).0 frames next_change next_hop

-- The clock stands at the end of the trails.
pub record HasEnded (c : ReplayClock) : Type 0 where
  pub stopped : c.playing ≡ false
  pub at_the_end : c.time ≡ c.t_max
  pub no_hop : c.hop ≡ none

after_frames-paused :
    (c : ReplayClock) (frames : List ℕ) (next_change : Option NextChange)
    (next_hop : Option NextHop)
    → c.playing ≡ false
    → after_frames c frames next_change next_hop ≡ c
unfolding after_frames tick
after_frames-paused c [] next_change next_hop e = refl
after_frames-paused c (elapsed ∷ frames) next_change next_hop e =
    ap
      (λ b.
        after_frames
          (if b
            then frame_step c c.hop (played_frame elapsed) next_change next_hop
            else (c, false)).0
          frames next_change next_hop)
      e
    ∙ after_frames-paused c frames next_change next_hop e

module _ (next_change : Option NextChange) (next_hop : Option NextHop) where
  run_through :
      (c d : ReplayClock) (frames : List ℕ)
      → Progress c d
      → (d.playing ≡ c.playing
          → left_to_play d < left_to_play c
          → HasEnded (after_frames d frames next_change next_hop))
      → HasEnded (after_frames d frames next_change next_hop)
  run_through c d frames (nearer e lt) later = later e lt
  run_through c d frames (ended stopped at none_left) later =
      rw (after_frames-paused d frames next_change next_hop stopped)
        (record { stopped = stopped; at_the_end = at; no_hop = none_left })

  -- A replay that plays at a speed above 0, within its span, ends at the end of the trails and with
  -- no teleport left in the middle, after more frames of a millisecond or longer than there is left
  -- to play. The next change that the trails answer may be any; every hop that they answer leaves
  -- no earlier than the span begins and lands no earlier than it leaves.
  pub after_frames-HasEnded :
      (c : ReplayClock) (frames : List ℕ)
      → 0 < c.speed
      → c.playing ≡ true
      → IsInRange c
      → HopsFrom c.t_min next_hop
      → All (λ elapsed. 0 < elapsed) frames
      → left_to_play c < length frames
      → HasEnded (after_frames c frames next_change next_hop)
  unfolding after_frames
  after_frames-HasEnded c [] s playing v ok long enough = absurd (omega arith)
  after_frames-HasEnded c (elapsed ∷ frames) s playing v ok long enough =
      let d : ReplayClock = (tick c elapsed next_change next_hop).0 in
      let same = tick-HasSpanOf c elapsed next_change next_hop in
      run_through c d frames
        (tick-Progress c elapsed next_change next_hop long.0 s playing (IsInRange→IsBeforeEnd c v))
        (λ e lt.
          after_frames-HasEnded d frames (rw same.speed s) (e ∙ playing)
            (tick-IsInRange c elapsed next_change next_hop v ok)
            (subst (λ lo. HopsFrom lo next_hop) (sym same.t_min) ok) long.1 (omega arith))
