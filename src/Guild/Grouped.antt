-- ===== src/Guild/Grouped.antt =====
-- That groupByRegion and groupByWorld of site/src/data/regions.js gather just the members that are
-- at a place or in a world.
use ha_osrs_map.Base.{
  ℕ, ◌≡◌, refl, ap, ◌∙◌, Bool, true, false, ◌&&◌, not, List, [], ◌∷◌, map, Option, none, some,
  nat_beq, keep_if, Bool-cases, inl, inr, nat_eq, arith,
}
use ha_osrs_map.Base.Sorting.{keep_if-sort}
use ha_osrs_map.Regions.{Place, same_place, place_eq}
use ha_osrs_map.Members.{Member, Coordinates, Stats}
use ha_osrs_map.Guild.Groups.{
  group_all, region_key, world_key, Group, group_of, larger_first, group_by_region, busier_first,
  group_by_world, has_key, place_if_there, world_of, real_world,
}
use ha_osrs_map.Guild.Entries.{
  entry_of, at_key-IsSingle, nothing-IsGrouped, group_all-IsGrouped, group_all-entry, keep_if-map,
  map-IsSingle,
}

abbrev pub is_some {ℓ} : {A : Type ℓ} → Option A → Bool
is_some none = false
is_some (some a) = true

abbrev pub plays_in : ℕ → Option Stats → Bool
plays_in world none = false
plays_in world (some stats) = has_key world stats.world

place_if_there-lem :
    (place : Option Place) (c : Option Coordinates) (region : Option Place)
    → has_key place (place_if_there c region) ≡ (is_some c && same_place region place)
place_if_there-lem place none region = refl
place_if_there-lem place (some c) region = refl

real_world-lem :
    (world : ℕ) (w : Option ℕ)
    → has_key world (real_world w) ≡ (not (nat_beq world 0) && has_key world w)
real_world-lem world none = ground arith
real_world-lem world (some w) = elim (Bool-cases (nat_beq w 0)) [
  | inl no_world ↦ rw no_world (ground (arith, no_world))
  | inr real ↦ rw real (ground (arith, real))
]

world_of-lem :
    (world : ℕ) (stats : Option Stats)
    → has_key world (world_of stats) ≡ (not (nat_beq world 0) && plays_in world stats)
world_of-lem world none = ground arith
world_of-lem world (some stats) = real_world-lem world stats.world

module _ {μ} {Meta : Type μ} where
  -- Whether a member is online, somewhere on the map, and at a place.
  abbrev pub is_at : Option Place → Member Meta → Bool
  is_at place m = m.online && (is_some m.coordinates && same_place m.region place)

  -- Whether a member is online and plays in a world; there is no world 0.
  abbrev pub is_in : ℕ → Member Meta → Bool
  is_in world m = m.online && (not (nat_beq world 0) && plays_in world m.stats)

  -- The one group of those who are at a place, if anybody is, with where the first of them is.
  abbrev pub group_at : Option Place → List (Member Meta) → List (Group Meta)
  group_at place [] = []
  group_at place (m ∷ members) =
      record { place = place; members = m ∷ members; coordinates = m.coordinates } ∷ []

  region_key-is_at :
      (place : Option Place) (m : Member Meta) → has_key place (region_key m) ≡ is_at place m
  region_key-is_at place m = elim (Bool-cases m.online) [
    | inl here ↦ rw here (place_if_there-lem place m.coordinates m.region)
    | inr away ↦ rw away
  ]

  world_key-is_in : (world : ℕ) (m : Member Meta) → has_key world (world_key m) ≡ is_in world m
  world_key-is_in world m = elim (Bool-cases m.online) [
    | inl here ↦ rw here (world_of-lem world m.stats)
    | inr away ↦ rw away
  ]

  group_of-entry :
      (place : Option Place) (members : List (Member Meta))
      → map group_of (entry_of place members) ≡ group_at place members
  group_of-entry place [] = refl
  group_of-entry place (m ∷ members) = refl

  group_by_region-gathers :
      (le : Option Place → Option Place → Bool) (members : List (Member Meta))
      (place : Option Place)
      → keep_if (λ group. same_place group.place place) (group_by_region le members)
        ≡ group_at place (keep_if (is_at place) members)
  unfolding group_by_region
  group_by_region-gathers le members place =
      let by_place = group_all region_key members [] in
      let single =
        at_key-IsSingle place by_place
          (group_all-IsGrouped region_key members [] nothing-IsGrouped).distinct in
      keep_if-sort (larger_first le) (λ group. same_place group.place place) (map group_of by_place)
        (map-IsSingle group_of _ by_place single)
      ∙ keep_if-map group_of (λ group. same_place group.place place) by_place
      ∙ ap (map group_of) (group_all-entry region_key members place)
      ∙ group_of-entry place _
      ∙ ap (λ test. group_at place (keep_if test members)) (λ i m. region_key-is_at place m i)

  group_by_world-gathers :
      (members : List (Member Meta)) (world : ℕ)
      → keep_if (λ group. nat_beq group.0 world) (group_by_world members)
        ≡ entry_of world (keep_if (is_in world) members)
  unfolding group_by_world
  group_by_world-gathers members world =
      let by_world = group_all world_key members [] in
      let single =
        at_key-IsSingle world by_world
          (group_all-IsGrouped world_key members [] nothing-IsGrouped).distinct in
      keep_if-sort busier_first (λ group. nat_beq group.0 world) by_world single
      ∙ group_all-entry world_key members world
      ∙ ap (λ test. entry_of world (keep_if test members)) (λ i m. world_key-is_in world m i)

  -- Of a list of members, the groups by place and by world have at each place and in each world one
  -- group, if anybody is there, and none otherwise: at a place those who are online, have coordinates
  -- and are at that place, and in a world those who are online and play in it, world 0 being none.
  -- They stand in the order of the list, and a group is shown where its first member is.
  pub groups-gather :
      (le : Option Place → Option Place → Bool) (members : List (Member Meta))
      (place : Option Place) (world : ℕ)
      → (keep_if (λ group. same_place group.place place) (group_by_region le members)
          ≡ group_at place (keep_if (is_at place) members))
        × (keep_if (λ group. nat_beq group.0 world) (group_by_world members)
            ≡ entry_of world (keep_if (is_in world) members))
  groups-gather le members place world =
      (group_by_region-gathers le members place, group_by_world-gathers members world)
