-- ===== src/Regions/Wilderness.antt =====
-- Where the wilderness is and what its levels are.
use ha_osrs_map.Base.{
  nat_eq, ℕ, ◌+◌, ◌-◌, ◌/◌, ◌≤◌, ◌<◌, ◌≡◌, ◌↔◌, arith, Bool, false, not, ◌&&◌, ◌||◌, Option, none,
  some, if◌then◌else◌, ltb, leb, nat_beq, [], ◌∷◌, All, Bool-cases, inl, inr,
}
use ha_osrs_map.Base.Dict.{Dict, get}
use ha_osrs_map.Regions.{
  region_id, Level, numbered, between, wilderness_lairs, is_dungeon, surface_y, level_at, lair_or,
  wilderness_level,
}

-- Two tiles have one region id exactly if they are in one square of 64 by 64 tiles.
pub region_id_iff :
    (x y x' y' : ℕ)
    → y < 16384
    → y' < 16384
    → (region_id x y ≡ region_id x' y') ↔ ((x / 64 ≡ x' / 64) × (y / 64 ≡ y' / 64))
unfolding region_id
region_id_iff x y x' y' h h' = ground arith

-- Levels are from 1 to 56, and a range of them begins before it ends.
abbrev pub IsLevel : Option Level → Type 0
IsLevel none = Unit
IsLevel (some (between low high)) = (1 ≤ low) × (low < high) × (high ≤ 56)
IsLevel (some (numbered level)) = (1 ≤ level) × (level ≤ 56)

level_at-IsLevel : (dungeon : Bool) (x y : ℕ) → IsLevel (level_at dungeon x y)
level_at-IsLevel dungeon x y = elim (Bool-cases (not dungeon && (ltb x 2944 || leb 3392 x))) [
  | inl out ↦ rw out tt
  | inr in_x ↦
      elim (Bool-cases (leb (surface_y dungeon y) 3522 || leb 3968 (surface_y dungeon y))) [
        | inl out ↦ rw (in_x, out) tt
        | inr in_y ↦ rw (in_x, in_y) (ground (arith, in_y), ground (arith, in_y))
      ]
]

lair-IsLevel :
    (lairs : Dict ℕ Level) (id : ℕ)
    → All (λ lair. IsLevel (some lair.1)) lairs
    → IsLevel (get id lairs)
unfolding get
lair-IsLevel [] id h = tt
lair-IsLevel ((other, level) ∷ lairs) id h = elim (Bool-cases (nat_beq other id)) [
  | inl same ↦ rw same h.0
  | inr different ↦ rw different (lair-IsLevel lairs id h.1)
]

lair_or-IsLevel :
    (o : Option Level) (l : Option Level) → IsLevel o → IsLevel l → IsLevel (lair_or o l)
lair_or-IsLevel none l h k = k
lair_or-IsLevel (some level) l h k = h

-- The level of a lair is from 1 to 56, and the one range of levels is within them.
wilderness_lairs-IsLevel : (id : ℕ) → IsLevel (get id wilderness_lairs)
wilderness_lairs-IsLevel id = lair-IsLevel wilderness_lairs id (ground arith)

-- Wherever a tile is, the level that it has, if any, is from 1 to 56, as is a range of levels.
pub wilderness_level-IsLevel : (x y : ℕ) → IsLevel (wilderness_level x y)
unfolding wilderness_level
wilderness_level-IsLevel x y =
    lair_or-IsLevel (get (region_id x y) wilderness_lairs) _
      (wilderness_lairs-IsLevel (region_id x y)) (level_at-IsLevel (is_dungeon (region_id x y)) x y)

-- On the surface, away from the lairs, the wilderness is the rectangle of x from 2944 to 3391 and y
-- from 3523 to 3967, and its level is one more than the eighths of the way from y 3520.
pub wilderness_level-surface :
    (x y : ℕ)
    → get (region_id x y) wilderness_lairs ≡ none
    → is_dungeon (region_id x y) ≡ false
    → wilderness_level x y ≡ (
        if leb 2944 x && ltb x 3392 && leb 3523 y && ltb y 3968
        then some (numbered ((y - 3520) / 8 + 1))
        else none)
unfolding wilderness_level
wilderness_level-surface x y lair dungeon = rw (lair, dungeon) (ground arith)
