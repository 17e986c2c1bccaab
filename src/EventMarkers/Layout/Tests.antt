-- ===== src/EventMarkers/Layout/Tests.antt =====
-- Three markers, two of them close together, and the theorems at them.
use ha_osrs_map.Base.{
  ℕ, ◌≡◌, refl, arith, true, false, List, [], ◌∷◌, map, none, some, length, keep_if, leb, nat_eq,
  string_eq,
}
use ha_osrs_map.Base.Dict.{get, put}
use ha_osrs_map.Base.Sorting.{sort, insert}
use ha_osrs_map.EventView.{level_up, level_kind}
use ha_osrs_map.EventMarkers.Visible.{Shown}
use ha_osrs_map.EventMarkers.Stacks.{
  stack_points, stack_each, stack_point, find_near, find_in, push_at,
}
use ha_osrs_map.EventMarkers.Stacks.Apart.{IsApart, stack_points-IsApart}
use ha_osrs_map.EventMarkers.Layout.{View, Item, points_on, items_of, layout_markers}
use ha_osrs_map.EventMarkers.Layout.Whole.{of_items, layout_markers-whole}

program : Unit {0}
unfolding stack_points stack_each stack_point find_near find_in push_at get put points_on items_of
    layout_markers sort insert
program = tt

abbrev shown : ℕ → ℕ → Shown ℕ ℕ ℕ
shown id x = record {
  placed = record {
    id = id;
    event = record { id = some id; event_type = level_up; value_gp = none; occurred = some 1000 };
    x = x;
    y = 100;
    plane = 0;
    color = 7;
    at = 1000;
    approximate = false;
  };
  kind = some level_kind;
  tier = id;
  alpha = 30000000;
  compact = false;
  ring_age = none;
  label = none;
  label_left = none;
}

-- A pixel to a tile, with the canvas from 72 on.
abbrev view : View
view = record {
  width = 300;
  height = 300;
  plane = 0;
  half_tile = 2;
  to_screen = λ x y. (x, y);
  reduced_motion = false;
}

abbrev markers : List (Shown ℕ ℕ ℕ)
markers = shown 0 100 ∷ shown 1 119 ∷ shown 2 130 ∷ shown 3 5 ∷ []

-- 119 is in the next cell, and joins the first; 130 is too far from it, and 5 off the screen.
stacks_two :
    map {B = ℕ × ℕ}
      (λ (i : Item ℕ ℕ ℕ). (i.anchor_x, i.count))
      (layout_markers (λ text. true) markers view).0
    ≡ (100, 2) ∷ (130, 1) ∷ []
unfolding program
stacks_two = refl

stack_points-IsApart_example : IsApart 24 (stack_points 24 (points_on view markers))
stack_points-IsApart_example = stack_points-IsApart 24 (omega arith) (points_on view markers)

layout_markers-whole_example :
    of_items
      (λ text. true)
      view
      (λ p. leb 1 p.of.tier)
      (layout_markers (λ text. true) markers view).0
    ≡ length (keep_if (λ p. leb 1 p.of.tier) (points_on view markers))
layout_markers-whole_example =
    layout_markers-whole (λ text. true) view (λ p. leb 1 p.of.tier) markers
