-- ===== src/TrailLoads/Tests.antt =====
-- Two requests, the first of which is answered last, and the theorems at them.
use ha_osrs_map.Base.{ℕ, ◌*◌, ◌≡◌, refl, get_elem?, true, false, [], ◌∷◌, none, some, nat_eq}
use ha_osrs_map.Base.Dict.{put, delete}
use ha_osrs_map.Base.Sets.{contains}
use ha_osrs_map.TrailLoads.{
  TrailReply, trails, failed, Request, TrailLoads, keep_named, by_member, set_each, load_trails,
  take_answer, Reaches, start, then_step, loads, answers,
}
use ha_osrs_map.TrailLoads.Current.{AreOf, Reaches-selected, load_trails-overtakes}

program : Unit {0}
unfolding keep_named by_member set_each load_trails take_answer put delete contains
program = tt

abbrev new_loads : TrailLoads ℕ ℕ ℕ
new_loads = record {
  request_id = 0;
  selected = [];
  on_map = [];
  trail_data = [];
  under_way = [];
  connected = true;
  failures = 0;
  is_stale = false;
  error = none;
  refresh_in = none;
}

-- Player 1 for a day, then players 1 and 2 for two.
abbrev asked_twice : TrailLoads ℕ ℕ ℕ
asked_twice = load_trails (1 ∷ 2 ∷ []) 2 true (load_trails (1 ∷ []) 1 true new_loads)

abbrev one_day : Request ℕ ℕ
one_day = record { id = 1; names = 1 ∷ []; span = 1 }

abbrev two_days : Request ℕ ℕ
two_days = record { id = 2; names = 1 ∷ 2 ∷ []; span = 2 }

abbrev reply : ℕ → TrailReply ℕ ℕ
reply member = record { member = member; shared = true; raw = 10 * member }

abbrev answered : TrailLoads ℕ ℕ ℕ
answered =
    take_answer one_day (trails (reply 1 ∷ []) false)
      (take_answer two_days (trails (reply 1 ∷ reply 2 ∷ []) false) asked_twice)

shows_both : answered.on_map ≡ (1, (10, 2)) ∷ (2, (20, 2)) ∷ []
unfolding program
shows_both = refl

waits_longer :
    (take_answer two_days
      (failed true)
      (take_answer two_days (failed false) asked_twice)).refresh_in
    ≡ some 10000
unfolding program
waits_longer = refl

first_is_under_way : Reaches new_loads (load_trails (1 ∷ []) 1 true new_loads)
first_is_under_way = then_step start (loads (1 ∷ []) 1 true)

all_answered : Reaches new_loads answered
unfolding program
all_answered =
    then_step
      (then_step (then_step first_is_under_way (loads (1 ∷ 2 ∷ []) 2 true))
        (answers 0 two_days (trails (reply 1 ∷ reply 2 ∷ []) false) refl (refl, (refl, tt))))
      (answers 1 one_day (trails (reply 1 ∷ []) false) refl (refl, tt))

Reaches-selected_example :
    AreOf answered.selected answered.on_map × AreOf answered.selected answered.trail_data
Reaches-selected_example = Reaches-selected (refl, refl, refl) all_answered

under_way_first : get_elem? (load_trails (1 ∷ []) 1 true new_loads).under_way 0 ≡ some one_day
unfolding program
under_way_first = refl

load_trails-overtakes_example : take_answer one_day (failed true) asked_twice ≡ asked_twice
load_trails-overtakes_example =
    load_trails-overtakes 0 one_day (failed true) (1 ∷ 2 ∷ []) 2 true (refl, refl, refl)
      first_is_under_way under_way_first
