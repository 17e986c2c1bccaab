-- ===== src/Skills/Tests.antt =====
-- Levels of some amounts of experience, and the theorems at them.

use ha_osrs_map.Base.{◌≤◌, ◌<◌, ◌≡◌, ◌↔◌, refl, arith, [], ◌∷◌, some, string_eq, nat_eq}
use ha_osrs_map.Base.Dict.{get, put}
use ha_osrs_map.Skills.{
  largest, scaled_power, xp_sum, xp_for_level, level_start, level_from, calculate_level, overall,
  unpack_skills, transform_skills, parse_each, parse_skill_data, new_skill,
}
use ha_osrs_map.Skills.Levels.{calculate_level_iff}
use ha_osrs_map.Skills.Totals.{xp_beside_overall, levels_beside_overall, overall_of_stored}

program : Unit {0}
unfolding largest scaled_power xp_sum xp_for_level level_start level_from calculate_level
    unpack_skills transform_skills parse_each parse_skill_data new_skill get put
program = tt

start_of_99 : level_start 99 ≡ 13034431
unfolding program
start_of_99 = refl

level_of_84 : calculate_level 83 ≡ 2
unfolding program
level_of_84 = refl

calculate_level_iff_example :
    (calculate_level 100 ≡ 2) ↔ ((level_start 2 ≤ 100) × (100 < level_start 3))
unfolding program
calculate_level_iff_example = calculate_level_iff 2 100 (omega arith) (omega arith) (omega arith)

overall_of_stored_example :
    get overall (parse_skill_data (transform_skills (83 ∷ 174 ∷ [])))
    ≡ some (record {
      name = overall;
      xp = xp_beside_overall (transform_skills (83 ∷ 174 ∷ []));
      level = levels_beside_overall (transform_skills (83 ∷ 174 ∷ []));
    })
overall_of_stored_example = overall_of_stored (83 ∷ 174 ∷ [])
