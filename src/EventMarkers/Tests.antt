-- ===== src/EventMarkers/Tests.antt =====
-- Markers of two trails and two live events, and the theorems at them.
use ha_osrs_map.Base.{
  ℕ, ◌+◌, ◌≡◌, refl, arith, Bool, true, false, [], ◌∷◌, Option, none, some, All, nat_eq, map,
}
use ha_osrs_map.Base.Dict.{get, has, put, delete, values, Distinct}
use ha_osrs_map.Base.Sets.{NoDup, contains}
use ha_osrs_map.Base.Sorting.{sort, insert}
use ha_osrs_map.EventView.{HubEvent, default_event_filters, event_passes, event_is_fresh, level_up}
use ha_osrs_map.EventMarkers.{
  add, add_each, add_to, drop_oldest, prune, prune_each, set_trail_marks, trail_marks_between,
}
use ha_osrs_map.EventMarkers.Kept.{EventMarkers, Marker, Mark, TrailMark, Whereabouts}
use ha_osrs_map.EventMarkers.Ids.{marker_ids}
use ha_osrs_map.EventMarkers.Visible.{visible}
use ha_osrs_map.EventMarkers.Visible.Once.{shown_ids, Passes, visible-IsOnce}
use ha_osrs_map.EventMarkers.Passed.{count, trail_marks_between-splits}

program : Unit {0}
unfolding add add_each add_to drop_oldest prune prune_each set_trail_marks trail_marks_between sort
    insert event_passes event_is_fresh get has put delete
program = tt

abbrev event : ℕ → HubEvent ℕ
event id = record { id = some id; event_type = level_up; value_gp = none; occurred = some 1000000 }

abbrev no_markers : EventMarkers ℕ ℕ ℕ
no_markers = record { live = []; trails = []; pops = [] }

abbrev beside : HubEvent ℕ → Option (Whereabouts ℕ)
beside event = some (record { x = 3200; y = 3201; plane = 0; color = 7; known = false })

abbrev two_live : EventMarkers ℕ ℕ ℕ
two_live = (add (event 1 ∷ event 2 ∷ event 1 ∷ []) 1010000 beside true no_markers).0

adds_two : map (λ (marker : ℕ × Marker ℕ ℕ). marker.0) two_live.live ≡ 1 ∷ 2 ∷ []
unfolding program
adds_two = refl

abbrev mark : ℕ → ℕ → Mark ℕ
mark id t = record {
  id = id;
  event = event id;
  x = 3200;
  y = 3201;
  plane = 0;
  t = t;
  approximate = false;
}

abbrev one_trail : EventMarkers ℕ ℕ ℕ
one_trail = set_trail_marks 5 (mark 1 30 ∷ mark 2 10 ∷ mark 3 20 ∷ []) 7 no_markers

passes_two :
    map
      (λ (m : TrailMark ℕ ℕ ℕ). m.mark.id)
      (trail_marks_between 10 30 default_event_filters one_trail)
    ≡ 3 ∷ 1 ∷ []
unfolding program
passes_two = refl

two_live-Distinct : Distinct two_live.live
unfolding program
two_live-Distinct = (refl, (refl, tt))

no_pops : Distinct two_live.pops
unfolding program
no_pops = tt

trail_marks_between-splits_example :
    count (λ (m : TrailMark ℕ ℕ ℕ). true) (trail_marks_between 5 30 default_event_filters one_trail)
    ≡ count
        (λ (m : TrailMark ℕ ℕ ℕ). true)
        (trail_marks_between 5 15 default_event_filters one_trail)
      + count
          (λ (m : TrailMark ℕ ℕ ℕ). true)
          (trail_marks_between 15 30 default_event_filters one_trail)
trail_marks_between-splits_example =
    trail_marks_between-splits default_event_filters (λ m. true) 5 15 30 (omega arith) (omega arith)
      one_trail

abbrev no_label : HubEvent ℕ → ℕ
no_label event = 0

abbrev everywhere : ℕ → ℕ → Bool
everywhere x y = true

two_live-NoDup : NoDup (marker_ids (values two_live.live))
unfolding program marker_ids contains
two_live-NoDup = (refl, (refl, tt))

visible-IsOnce_example :
    let drawn = visible no_label default_event_filters 1020000 none everywhere two_live in
    NoDup (shown_ids drawn) × All (Passes default_event_filters) drawn
visible-IsOnce_example =
    visible-IsOnce no_label default_event_filters 1020000 none everywhere two_live two_live-NoDup
