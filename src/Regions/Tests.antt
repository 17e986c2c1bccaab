-- ===== src/Regions/Tests.antt =====
-- Places of the game and their names.
use Prim.Native.String.{String}
use ha_osrs_map.Base.{ℕ, ◌≡◌, refl, [], ◌∷◌, some, nat_eq}
use ha_osrs_map.Base.Dict.{Dict, get}
use ha_osrs_map.Trail.Point.{in_instance_space}
use ha_osrs_map.Regions.{
  region_id, wilderness_level, numbered, is_dungeon, in_ferox_enclave, near_name, region_name,
  named, near,
}

program : Unit {0}
unfolding region_id wilderness_level is_dungeon in_ferox_enclave near_name region_name get
    in_instance_space
program = tt

abbrev place_names : Dict ℕ String
place_names = (12850, "Lumbridge") ∷ []

names_lumbridge : region_name place_names 3222 3218 ≡ some (named "Lumbridge")
unfolding program
names_lumbridge = refl

names_neighbour : region_name place_names 3222 3265 ≡ some (near "Lumbridge")
unfolding program
names_neighbour = refl

level_twenty : wilderness_level 3100 3675 ≡ some (numbered 20)
unfolding program
level_twenty = refl
