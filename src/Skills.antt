-- ===== src/Skills.antt =====
-- Experience and levels: site/src/data/skill.js. The table of levels, which the source computes in
-- floating point, is exact here; the two agree at all of its 127 entries.
use Prim.Native.String.{String}
use ha_osrs_map.Base.{
  ℕ, zero, suc, ◌+◌, ◌-◌, ◌*◌, ◌/◌, ◌^◌, min, Bool, ◌&&◌, List, [], ◌∷◌, ◌++◌, if◌then◌else◌, ltb,
  leb, ◌==◌, string_eq,
}
use ha_osrs_map.Base.Dict.{Dict, put}
pub mod Levels
pub mod Totals
pub mod Tests

-- SkillName, in the order of its keys; each is its own value.
abbrev pub skill_names : List String
skill_names =
    "Agility" ∷ "Attack" ∷ "Construction" ∷ "Cooking" ∷ "Crafting" ∷ "Defence" ∷ "Farming"
    ∷ "Firemaking" ∷ "Fishing" ∷ "Fletching" ∷ "Herblore" ∷ "Hitpoints" ∷ "Hunter" ∷ "Magic"
    ∷ "Mining" ∷ "Overall" ∷ "Prayer" ∷ "Ranged" ∷ "Runecraft" ∷ "Slayer" ∷ "Smithing" ∷ "Strength"
    ∷ "Thieving" ∷ "Woodcutting" ∷ "Sailing" ∷ []

abbrev pub overall : String
overall = "Overall"

-- The largest number below `from + 2 ^ bits` that a test lets through, found from its highest bit.
abbrev pub doubled : ℕ → ℕ
doubled zero = 1
doubled (suc bits) = doubled bits + doubled bits

unfoldable pub largest : (ℕ → Bool) → ℕ → ℕ → ℕ
largest test zero from = from
largest test (suc bits) from =
    largest test bits (if test (from + doubled bits) then from + doubled bits else from)

-- `Math.floor(300 * 2 ** (i / 7))`: the largest number whose 7th power is at most 300^7 * 2^i.
unfoldable pub scaled_power : ℕ → ℕ
scaled_power i = largest (λ n. leb (n ^ 7) (300 ^ 7 * 2 ^ i)) 28 0

-- The loop of `xpForLevel`, for as many rounds as there are.
unfoldable pub xp_sum : ℕ → ℕ
xp_sum zero = 0
xp_sum (suc i) = xp_sum i + (suc i + scaled_power (suc i))

unfoldable pub xp_for_level : ℕ → ℕ
xp_for_level level = xp_sum level / 4

-- `levelLookup.get(level)`, for levels from 1 to 127.
unfoldable pub level_start : ℕ → ℕ
level_start zero = 0
level_start (suc zero) = 0
level_start (suc (suc i)) = xp_for_level (suc i)

abbrev pub top_level : ℕ
top_level = 126

-- The loop of `calculateLevel` from level `i`, with `rounds` left.
unfoldable pub level_from : ℕ → ℕ → ℕ → ℕ
level_from zero i xp = 1
level_from (suc rounds) i xp =
    let later = level_from rounds (suc i) xp in
    if leb (level_start i) xp && ltb xp (level_start (suc i)) then i else later

unfoldable pub calculate_level : ℕ → ℕ
calculate_level xp = level_from top_level 1 xp

pub record Skill : Type 0 where
  pub name : String
  pub xp : ℕ
  pub level : ℕ

-- `new Skill(name, xp)`. Overall has no level of its own: `parse_skill_data` gives it one.
unfoldable pub new_skill : String → ℕ → Skill
new_skill name xp = record {
  name = name;
  xp = xp;
  level = if name == overall then 0 else calculate_level xp;
}

-- How far a skill is into its level, and how long that level is.
unfoldable pub level_progress : Skill → ℕ × ℕ
level_progress skill =
    (skill.xp - level_start skill.level, level_start (suc skill.level) - level_start skill.level)

unfoldable pub xp_until_next_level : Skill → ℕ
xp_until_next_level skill = level_start (suc skill.level) - skill.xp

-- The loop of `parseSkillData`: the skills so far and the total level so far.
unfoldable pub parse_each : List (String × ℕ) → Dict String Skill × ℕ → Dict String Skill × ℕ
parse_each [] so_far = so_far
parse_each ((name, xp) ∷ entries) (skills, total) =
    let skill = new_skill name xp in
    parse_each entries
      (put name skill skills, if name == overall then total else total + min 99 skill.level)

-- `result[Overall].level = overallLevel`; without Overall the source throws.
abbrev pub set_total : ℕ → Dict String Skill → Dict String Skill
set_total total [] = []
set_total total ((name, skill) ∷ skills) =
    let rest = set_total total skills in
    (name, if name == overall then record skill { level = total } else skill) ∷ rest

unfoldable pub parse_skill_data : List (String × ℕ) → Dict String Skill
parse_skill_data entries = let parsed = parse_each entries ([], 0) in set_total parsed.1 parsed.0

-- `transformSkillsFromStorage` of guild-data.js: the experience in each skill but Overall, in
-- order, 0 where the list is too short, and their sum.
unfoldable pub unpack_skills : List String → List ℕ → List (String × ℕ) × ℕ
unpack_skills [] stored = ([], 0)
unpack_skills (name ∷ names) [] =
    let rest = unpack_skills names [] in
    if name == overall then rest else ((name, 0) ∷ rest.0, rest.1)
unpack_skills (name ∷ names) (xp ∷ stored) =
    let skipped = unpack_skills names (xp ∷ stored) in
    let taken = unpack_skills names stored in
    if name == overall then skipped else ((name, xp) ∷ taken.0, xp + taken.1)

unfoldable pub transform_skills : List ℕ → List (String × ℕ)
transform_skills stored =
    let unpacked = unpack_skills skill_names stored in unpacked.0 ++ ((overall, unpacked.1) ∷ [])
