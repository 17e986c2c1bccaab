-- ===== src/MapLevels/Tests.antt =====
-- A zoom, a view and a tile, and the theorems at them.
use ha_osrs_map.Base.{◌/◌, ◌^◌, ◌≡◌, refl, arith, true, [], ◌∷◌}
use ha_osrs_map.MapLevels.{
  level_up, level_for_zoom, View, column, columns, level_tiles_in_view, ancestor_source,
}
use ha_osrs_map.MapLevels.Fits.{has_tile, level_tiles_in_view-covers}

program : Unit {0}
unfolding level_for_zoom level_up level_tiles_in_view columns column ancestor_source
program = tt

abbrev view : View
view = record { left = 45; right = 49; bottom = 47; top = 50 }

tiles_of_level_1 :
    level_tiles_in_view 1 view
    ≡ (22, 25) ∷ (22, 24) ∷ (23, 25) ∷ (23, 24) ∷ (24, 25) ∷ (24, 24) ∷ []
unfolding program
tiles_of_level_1 = refl

level_of_a_fifth : level_for_zoom 1 5 ≡ 2
unfolding program
level_of_a_fifth = refl

level_tiles_in_view-covers_example :
    has_tile (46 / 2 ^ 1) (48 / 2 ^ 1) (level_tiles_in_view 1 view) ≡ true
level_tiles_in_view-covers_example =
    level_tiles_in_view-covers 1 view 46 48 (omega arith) (omega arith) (omega arith) (omega arith)
      (omega arith)
