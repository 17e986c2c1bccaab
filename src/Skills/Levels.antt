-- ===== src/Skills/Levels.antt =====
-- The table of levels and the level that an amount of experience is.
use ha_osrs_map.Base.{
  ℕ, zero, suc, ◌+◌, ◌-◌, ◌*◌, ◌^◌, ◌≤◌, ◌<◌, ◌≡◌, Bool, true, false, ◌&&◌, ltb, leb, Bool-cases,
  inl, inr, arith, leb→le, le→leb, lt→leb_false, ap, subst, sym, ◌∙◌, ◌↔◌, refl,
}
use ha_osrs_map.Skills.{
  doubled, largest, scaled_power, xp_sum, xp_for_level, level_start, level_from, calculate_level,
}

-- A search that begins at a number that passes and knows one that fails ends between the two.
largest_bounds :
    (test : ℕ → Bool) (bits from : ℕ)
    → test from ≡ true
    → test (from + doubled bits) ≡ false
    → (test (largest test bits from) ≡ true) × (test (suc (largest test bits from)) ≡ false)
unfolding largest
largest_bounds test zero from low high =
    let next : from + 1 ≡ suc from = omega arith in (low, ap test (sym next) ∙ high)
largest_bounds test (suc bits) from low high = elim (Bool-cases (test (from + doubled bits))) [
  | inl passes ↦
      let far : from + (doubled bits + doubled bits) ≡ from + doubled bits + doubled bits =
        omega arith in
      rw passes (largest_bounds test bits (from + doubled bits) passes (ap test (sym far) ∙ high))
  | inr fails ↦ rw fails (largest_bounds test bits from low fails)
]

-- The root of a term of the table is the exact one, for every term that the table has.
pub scaled_power-IsRoot :
    (i : ℕ)
    → 300 ^ 7 * 2 ^ i < 268435456 ^ 7
    → (scaled_power i ^ 7 ≤ 300 ^ 7 * 2 ^ i) × (300 ^ 7 * 2 ^ i < suc (scaled_power i) ^ 7)
unfolding scaled_power
scaled_power-IsRoot i small =
    let bounds =
      largest_bounds (λ n. leb (n ^ 7) (300 ^ 7 * 2 ^ i)) 28 0 (le→leb 0 _ (omega arith))
        (lt→leb_false _ _ small) in
    (leb→le _ _ bounds.0, ground (arith, bounds.1))

level_start_one : level_start 1 ≡ 0
unfolding level_start
level_start_one = refl

level_start_mono : (i : ℕ) → level_start i ≤ level_start (suc i)
unfolding level_start xp_for_level xp_sum
level_start_mono zero = omega arith
level_start_mono (suc zero) = omega arith
level_start_mono (suc (suc i)) = omega arith

level_start-le : (rounds i top : ℕ) → i + rounds ≡ top → level_start i ≤ level_start top
level_start-le zero i top e =
    let same : level_start i ≡ level_start top = ap level_start (omega arith) in omega (arith, same)
level_start-le (suc rounds) i top e =
    omega (arith, level_start_mono i, level_start-le rounds (suc i) top (omega arith))

-- The level found is the one whose span the experience is in.
level_from-spans :
    (rounds i top xp : ℕ)
    → i + rounds ≡ top
    → level_start i ≤ xp
    → xp < level_start top
    → let level = level_from rounds i xp in
      (i ≤ level) × (level < top) × (level_start level ≤ xp) × (xp < level_start (suc level))
unfolding level_from
level_from-spans zero i top xp e low high =
    let same : level_start i ≡ level_start top = ap level_start (omega arith) in
    absurd (omega (arith, same))
level_from-spans (suc rounds) i top xp e low high =
    elim (Bool-cases (ltb xp (level_start (suc i)))) [
      | inl here ↦
          let inside : (leb (level_start i) xp && ltb xp (level_start (suc i))) ≡ true =
            ground arith in
          rw inside (ground arith)
      | inr later ↦
          let outside : (leb (level_start i) xp && ltb xp (level_start (suc i))) ≡ false =
            ground arith in
          let above : level_start (suc i) ≤ xp = ground (arith, later) in
          let rest = level_from-spans rounds (suc i) top xp (omega arith) above high in
          rw outside (omega (arith, rest.0), rest.1, rest.2, rest.3)
    ]

-- No other level has the experience in its span.
span_unique :
    (level other xp : ℕ)
    → level_start level ≤ xp
    → xp < level_start (suc level)
    → level_start other ≤ xp
    → xp < level_start (suc other)
    → level ≡ other
span_unique level other xp low high low' high' = elim (Bool-cases (ltb level other)) [
  | inl below ↦
      let order : level < other = ground (arith, below) in
      absurd (omega (arith, level_start-le (other - suc level) (suc level) other (omega arith)))
  | inr not_below ↦ elim (Bool-cases (ltb other level)) [
    | inl above ↦
        let order : other < level = ground (arith, above) in
        absurd (omega (arith, level_start-le (level - suc other) (suc other) level (omega arith)))
    | inr not_above ↦ ground (arith, not_below, not_above)
  ]
]

-- Below the start of level 127, a level from 1 to 126 is the level of some experience exactly if
-- the experience is at least its start and below that of the next.
pub calculate_level_iff :
    (level xp : ℕ)
    → 1 ≤ level
    → level ≤ 126
    → xp < level_start 127
    → (calculate_level xp ≡ level) ↔ ((level_start level ≤ xp) × (xp < level_start (suc level)))
unfolding calculate_level
calculate_level_iff level xp low high small =
    let start : level_start 1 ≤ xp = omega (arith, level_start_one) in
    let found = level_from-spans 126 1 127 xp (omega arith) start small in
    let spans : (level_start (calculate_level xp) ≤ xp)
        × (xp < level_start (suc (calculate_level xp))) =
      (found.2, found.3) in
    (
      λ e. subst (λ l. (level_start l ≤ xp) × (xp < level_start (suc l))) e spans,
      λ h. span_unique (level_from 126 1 xp) level xp found.2 found.3 h.0 h.1,
    )

-- More experience is never a lower level, below the start of level 127; and a level is from 1 to 126.
pub calculate_level_mono :
    (xp more : ℕ)
    → xp ≤ more
    → more < level_start 127
    → (1 ≤ calculate_level xp)
      × (calculate_level xp ≤ calculate_level more)
      × (calculate_level more ≤ 126)
unfolding calculate_level
calculate_level_mono xp more le small =
    let start : level_start 1 ≤ xp = omega (arith, level_start_one) in
    let found = level_from-spans 126 1 127 xp (omega arith) start (omega arith) in
    let later = level_from-spans 126 1 127 more (omega arith) (omega (arith, start)) small in
    elim (Bool-cases (ltb (level_from 126 1 more) (level_from 126 1 xp))) [
      | inl above ↦
          let order : level_from 126 1 more < level_from 126 1 xp = ground (arith, above) in
          absurd (
            omega (
              arith,
              level_start-le (level_from 126 1 xp - suc (level_from 126 1 more))
                  (suc (level_from 126 1 more)) (level_from 126 1 xp) (omega arith),
              found.2,
              later.3,
            ))
      | inr not_above ↦ (found.0, ground (arith, not_above), omega (arith, later.1))
    ]
