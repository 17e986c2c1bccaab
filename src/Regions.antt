-- ===== src/Regions.antt =====
-- The names of places: site/src/data/regions.js. Tiles are natural numbers; the names that the
-- backend sends are a dictionary, in which an empty name counts as none.
use Prim.Native.String.{String}
use ha_osrs_map.Base.{
  true, false, ◌≡◌, ◌↔◌, ap, refl, subst, Eq, nat_eq, string_eq, ℕ, ◌+◌, ◌-◌, ◌*◌, ◌/◌, Bool, not,
  ◌&&◌, ◌||◌, List, [], ◌∷◌, Option, none, some, if◌then◌else◌, ltb, leb, nat_beq, any_of, ◌==◌,
  arith,
}
use ha_osrs_map.Base.Dict.{Dict, get}
use ha_osrs_map.Trail.Point.{in_instance_space}
pub mod Wilderness
pub mod Names
pub mod Tests

-- `((x >> 6) << 8) | (y >> 6)`, where `y >> 6` is below 256: tiles have y below 16384.
unfoldable pub region_id : ℕ → ℕ → ℕ
region_id x y = (x / 64) * 256 + y / 64

abbrev pub wilderness_dungeons : List ℕ
wilderness_dungeons =
    12443 ∷ 12444 ∷ 12190 ∷ 12701 ∷ 12702 ∷ 12703 ∷ 12957 ∷ 12958 ∷ 12959 ∷ 13469 ∷ 13470 ∷ 13725
    ∷ 13726 ∷ 12192 ∷ 12193 ∷ 11937 ∷ 12961 ∷ []

-- What a wilderness level is called: a number or a range. The table of lairs has texts; "40" there
-- makes the same name as the number 40 elsewhere, so that it is the number here, and "30-42" is the
-- only range.
pub data Level : Type 0 where
  numbered : ℕ → Level
  between : ℕ → ℕ → Level

abbrev pub wilderness_lairs : Dict ℕ Level
wilderness_lairs =
    (13473, numbered 40)
    ∷ (13215, numbered 35)
    ∷ (13727, numbered 35)
    ∷ (13472, between 30 42)
    ∷ (7092, numbered 21)
    ∷ (7604, numbered 21)
    ∷ (6580, numbered 29)
    ∷ []

unfoldable pub in_ferox_enclave : ℕ → ℕ → Bool
in_ferox_enclave x y = leb 3123 x && leb x 3155 && leb 3617 y && leb y 3646

unfoldable pub is_dungeon : ℕ → Bool
is_dungeon id = any_of (nat_beq id) wilderness_dungeons

-- The y of the surface above a dungeon of the wilderness. Dungeons have a y of at least 6400.
abbrev pub surface_y : Bool → ℕ → ℕ
surface_y dungeon y = if dungeon then y - 6400 else y

abbrev pub level_at : Bool → ℕ → ℕ → Option Level
level_at dungeon x y =
    let surface = surface_y dungeon y in
    if not dungeon && (ltb x 2944 || leb 3392 x)
    then none
    else if leb surface 3522 || leb 3968 surface
    then none
    else some (numbered ((surface - 3520) / 8 + 1))

abbrev pub lair_or : Option Level → Option Level → Option Level
lair_or (some level) otherwise = some level
lair_or none otherwise = otherwise

unfoldable pub wilderness_level : ℕ → ℕ → Option Level
wilderness_level x y =
    let id = region_id x y in lair_or (get id wilderness_lairs) (level_at (is_dungeon id) x y)

-- What a place is called.
pub data Place : Type 0 where
  ferox_enclave : Place
  wilderness : Level → Place
  named : String → Place
  instance_area : Place
  near : String → Place

-- A name that is there and not empty.
abbrev pub real_name : Option String → Option String
real_name none = none
real_name (some name) = if name == "" then none else some name

-- `x + d * 64` for d = 0, 1 and -1. West or south of the world there is no name, as there is none
-- for the negative id that the source computes there.
pub data Shift : Type 0 where
  stay : Shift
  up : Shift
  down : Shift

abbrev pub shifted : Shift → ℕ → Option ℕ
shifted stay x = some x
shifted up x = some (x + 64)
shifted down x = if ltb x 64 then none else some (x - 64)

abbrev pub name_at : Dict ℕ String → Option ℕ → Option ℕ → Option String
name_at names none y = none
name_at names (some x) none = none
name_at names (some x) (some y) = real_name (get (region_id x y) names)

-- The order in which neighbours are asked.
abbrev pub neighbours : List (Shift × Shift)
neighbours =
    (stay, up)
    ∷ (up, stay)
    ∷ (stay, down)
    ∷ (down, stay)
    ∷ (up, up)
    ∷ (up, down)
    ∷ (down, up)
    ∷ (down, down)
    ∷ []

abbrev pub or_near : Option String → Option Place → Option Place
or_near none rest = rest
or_near (some name) rest = some (near name)

unfoldable pub near_name : Dict ℕ String → List (Shift × Shift) → ℕ → ℕ → Option Place
near_name names [] x y = none
near_name names ((dx, dy) ∷ rest) x y =
    or_near (name_at names (shifted dx x) (shifted dy y)) (near_name names rest x y)

abbrev pub name_or_near : Dict ℕ String → Option String → ℕ → ℕ → Option Place
name_or_near names (some name) x y = some (named name)
name_or_near names none x y =
    if in_instance_space x then some instance_area else near_name names neighbours x y

abbrev pub level_or_name : Dict ℕ String → Option Level → ℕ → ℕ → Option Place
level_or_name names (some level) x y = some (wilderness level)
level_or_name names none x y = name_or_near names (real_name (get (region_id x y) names)) x y

unfoldable pub region_name : Dict ℕ String → ℕ → ℕ → Option Place
region_name names x y =
    if in_ferox_enclave x y
    then some ferox_enclave
    else level_or_name names (wilderness_level x y) x y

-- The place of a member, whose stored coordinates are one tile north; none without coordinates.
abbrev pub region_for_member : Dict ℕ String → Option (ℕ × ℕ) → Option Place
region_for_member names none = none
region_for_member names (some (x, y)) = region_name names x (y - 1)

-- Whether two places have one name. The source compares the names themselves, of which none that
-- the backend sends reads like that of another rule ("Near ...", "An instance").
abbrev pub same_level : Level → Level → Bool
same_level (numbered n) (numbered m) = nat_beq n m
same_level (between low high) (between low' high') = nat_beq low low' && nat_beq high high'
same_level _ _ = false

abbrev pub same_place : Option Place → Option Place → Bool
same_place none none = true
same_place (some ferox_enclave) (some ferox_enclave) = true
same_place (some (wilderness l)) (some (wilderness k)) = same_level l k
same_place (some (named s)) (some (named t)) = s == t
same_place (some instance_area) (some instance_area) = true
same_place (some (near s)) (some (near t)) = s == t
same_place _ _ = false

and_true : (a b : Bool) → (a && b) ≡ true → (a ≡ true) × (b ≡ true)
and_true a b h = (ground arith, ground arith)

pub eq_of_same_level : (l k : Level) → same_level l k ≡ true → l ≡ k
eq_of_same_level (numbered n) (numbered m) h = ap numbered ((nat_eq.beq_iff n m).0 h)
eq_of_same_level (between low high) (between low' high') h =
    let both = and_true (nat_beq low low') (nat_beq high high') h in
    rw ((nat_eq.beq_iff low low').0 both.0, (nat_eq.beq_iff high high').0 both.1)
eq_of_same_level (numbered n) (between low high) h = cc
eq_of_same_level (between low high) (numbered m) h = cc

pub eq_of_same_place : (p q : Option Place) → same_place p q ≡ true → p ≡ q
eq_of_same_place none none h = refl
eq_of_same_place (some ferox_enclave) (some ferox_enclave) h = refl
eq_of_same_place (some (wilderness l)) (some (wilderness k)) h =
    ap (λ l. some (wilderness l)) (eq_of_same_level l k h)
eq_of_same_place (some (named s)) (some (named t)) h =
    ap (λ s. some (named s)) ((string_eq.beq_iff s t).0 h)
eq_of_same_place (some instance_area) (some instance_area) h = refl
eq_of_same_place (some (near s)) (some (near t)) h =
    ap (λ s. some (near s)) ((string_eq.beq_iff s t).0 h)
eq_of_same_place p q h = cc

same_level_self : (l : Level) → same_level l l ≡ true
same_level_self (numbered n) = (nat_eq.beq_iff n n).1 refl
same_level_self (between low high) =
    rw ((nat_eq.beq_iff low low).1 refl, (nat_eq.beq_iff high high).1 refl)

same_place_self : (p : Option Place) → same_place p p ≡ true
same_place_self none = refl
same_place_self (some ferox_enclave) = refl
same_place_self (some (wilderness l)) = same_level_self l
same_place_self (some (named s)) = (string_eq.beq_iff s s).1 refl
same_place_self (some instance_area) = refl
same_place_self (some (near s)) = (string_eq.beq_iff s s).1 refl

pub same_place_iff : (p q : Option Place) → (same_place p q ≡ true) ↔ (p ≡ q)
same_place_iff p q = (
  eq_of_same_place p q,
  λ h. subst (λ (r : Option Place). same_place p r ≡ true) h (same_place_self p),
)

instance abbrev pub place_eq : Eq (Option Place)
place_eq = record { beq = same_place; beq_iff = same_place_iff }
