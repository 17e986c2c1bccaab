-- ===== src/Skills/Totals.antt =====
-- Sums over the skills.
use Prim.Native.String.{String}
use ha_osrs_map.Base.{
  ℕ, ◌+◌, ◌≡◌, refl, ◌∙◌, min, Bool, true, false, List, [], ◌∷◌, ◌++◌, if◌then◌else◌, ◌==◌,
  string_eq, Bool-cases, inl, inr, arith, Option, none, some,
}
use ha_osrs_map.Base.Dict.{Dict, get, get-put}
use ha_osrs_map.Skills.{
  parse_skill_data, set_total, overall, skill_names, unpack_skills, transform_skills,
  calculate_level, parse_each, new_skill, Skill,
}

-- The experience in all skills of a list but Overall.
abbrev pub xp_beside_overall : List (String × ℕ) → ℕ
xp_beside_overall [] = 0
xp_beside_overall ((name, xp) ∷ entries) =
    (if name == overall then 0 else xp) + xp_beside_overall entries

-- The sum that the total level is.
abbrev pub levels_beside_overall : List (String × ℕ) → ℕ
levels_beside_overall [] = 0
levels_beside_overall ((name, xp) ∷ entries) =
    (if name == overall then 0 else min 99 (calculate_level xp)) + levels_beside_overall entries

levels_each : String → ℕ → ℕ
levels_each name xp = if name == overall then 0 else min 99 (calculate_level xp)

total_step :
    (same : Bool) (xp total : ℕ)
    → (if same then total else total + min 99 (if same then 0 else calculate_level xp))
      ≡ total + (if same then 0 else min 99 (calculate_level xp))
total_step true xp total = omega arith
total_step false xp total = refl

parse_each-total :
    (entries : List (String × ℕ)) (skills : Dict String Skill) (total : ℕ)
    → (parse_each entries (skills, total)).1 ≡ total + levels_beside_overall entries
unfolding parse_each new_skill
parse_each-total [] skills total = omega arith
parse_each-total ((name, xp) ∷ entries) skills total =
    parse_each-total entries _ _ ∙ omega (arith, total_step (name == overall) xp total)

unpack_skills-sum :
    (names : List String) (stored : List ℕ)
    → (unpack_skills names stored).1 ≡ xp_beside_overall (unpack_skills names stored).0
unfolding unpack_skills
unpack_skills-sum [] stored = refl
unpack_skills-sum (name ∷ names) [] = elim (Bool-cases (name == overall)) [
  | inl same ↦ rw same (unpack_skills-sum names [])
  | inr other ↦ rw (other, other) (omega (arith, unpack_skills-sum names []))
]
unpack_skills-sum (name ∷ names) (xp ∷ stored) = elim (Bool-cases (name == overall)) [
  | inl same ↦ rw same (unpack_skills-sum names (xp ∷ stored))
  | inr other ↦ rw (other, other) (omega (arith, unpack_skills-sum names stored))
]

parse_each-append :
    (entries more : List (String × ℕ)) (so_far : Dict String Skill × ℕ)
    → parse_each (entries ++ more) so_far ≡ parse_each more (parse_each entries so_far)
unfolding parse_each
parse_each-append [] more so_far = refl
parse_each-append ((name, xp) ∷ entries) more so_far = parse_each-append entries more _

with_level : ℕ → Option Skill → Option Skill
with_level total none = none
with_level total (some skill) = some (record skill { level = total })

get-set_total :
    (total : ℕ) (skills : Dict String Skill)
    → get overall (set_total total skills) ≡ with_level total (get overall skills)
unfolding get with_level
get-set_total total [] = refl
get-set_total total ((name, skill) ∷ skills) = elim (Bool-cases (name == overall)) [
  | inl same ↦ rw same
  | inr other ↦ rw other (get-set_total total skills)
]

last_overall :
    (sum : ℕ) (skills : Dict String Skill) (total level : ℕ)
    → with_level level (get overall (parse_each ((overall, sum) ∷ []) (skills, total)).0)
      ≡ some (record { name = overall; xp = sum; level = level })
unfolding parse_each with_level new_skill
last_overall sum skills total level = rw (get-put overall overall (new_skill overall sum) skills)

xp_beside_overall-append :
    (entries more : List (String × ℕ))
    → xp_beside_overall (entries ++ more) ≡ xp_beside_overall entries + xp_beside_overall more
xp_beside_overall-append [] more = omega arith
xp_beside_overall-append ((name, xp) ∷ entries) more =
    omega (arith, xp_beside_overall-append entries more)

-- Whatever list of experience a poll brings, Overall then has the sum of the experience in the
-- other skills and, as its level, the sum of their levels, of each no more than 99.
pub overall_of_stored :
    (stored : List ℕ)
    → let entries = transform_skills stored in
      get overall (parse_skill_data entries)
      ≡ some (record {
        name = overall;
        xp = xp_beside_overall entries;
        level = levels_beside_overall entries;
      })
unfolding transform_skills parse_skill_data with_level new_skill
overall_of_stored stored =
    let unpacked = unpack_skills skill_names stored in
    let entries = unpacked.0 ++ ((overall, unpacked.1) ∷ []) in
    let before = parse_each unpacked.0 ([], 0) in
    let level : (parse_each entries ([], 0)).1 ≡ levels_beside_overall entries =
      parse_each-total entries [] 0 ∙ omega arith in
    let xp : xp_beside_overall entries ≡ unpacked.1 =
      xp_beside_overall-append unpacked.0 ((overall, unpacked.1) ∷ [])
      ∙ omega (arith, unpack_skills-sum skill_names stored) in
    get-set_total (parse_each entries ([], 0)).1 (parse_each entries ([], 0)).0
    ∙ rw (level, xp, parse_each-append unpacked.0 ((overall, unpacked.1) ∷ []) ([], 0))
        (last_overall unpacked.1 before.0 before.1 (levels_beside_overall entries))
