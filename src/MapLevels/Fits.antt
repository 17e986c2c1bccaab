-- ===== src/MapLevels/Fits.antt =====
-- That the levels fit the zoom, and the tiles the ground.
use ha_osrs_map.Base.{
  ℕ, zero, suc, ◌+◌, ◌-◌, ◌*◌, ◌/◌, ◌^◌, ◌≤◌, ◌<◌, ◌≡◌, refl, ◌∙◌, arith, Bool, true, ◌&&◌, List,
  [], ◌∷◌, ◌++◌, if◌then◌else◌, ltb, leb, nat_beq, nat_beq_iff, any_of, Bool-cases, inl, inr,
}
use ha_osrs_map.MapLevels.{
  level_up, level_for_zoom, View, column, columns, level_tiles_in_view, ancestor_source,
}

-- A level's tiles are smaller than full size on the screen, unless it is the finest, and at least
-- half of it, unless it is the coarsest.
abbrev pub SuitsZoom : ℕ → ℕ → ℕ → Type 0
SuitsZoom num den level =
    (level ≤ 3)
    × ((if nat_beq level 0 then true else ltb (num * 2 ^ level) den) ≡ true)
    × ((if nat_beq level 3 then true else leb den (num * 2 ^ (level + 1))) ≡ true)

-- The level for a zoom is the one whose tiles are between a half and their full size on the screen,
-- as far as there are levels.
pub level_for_zoom-SuitsZoom : (num den : ℕ) → SuitsZoom num den (level_for_zoom num den)
unfolding level_for_zoom level_up
level_for_zoom-SuitsZoom num den = elim (Bool-cases (ltb (num * 2) den)) [
  | inr a ↦ rw a (omega arith, refl, ground (arith, a))
  | inl a ↦ elim (Bool-cases (ltb (num * 4) den)) [
    | inr b ↦ rw (a, b) (omega arith, a, ground (arith, b))
    | inl b ↦ elim (Bool-cases (ltb (num * 8) den)) [
      | inr c ↦ rw (a, b, c) (omega arith, b, ground (arith, c))
      | inl c ↦ rw (a, b, c) (omega arith, c, refl)
    ]
  ]
]

-- A tile of a coarser level, and the part of its image, show the ground of the tile itself: the
-- part begins where the tile does, in pixels of the tile's own level, and is as large.
pub ancestor_source-shows :
    (steps x y : ℕ)
    → steps ≤ 3
    → let source = ancestor_source steps x y in
      (source.x * 2 ^ steps * 256 + source.sx * 2 ^ steps ≡ x * 256)
      × ((source.y + 1) * 2 ^ steps * 256 ≡ (y + 1) * 256 + source.sy * 2 ^ steps)
      × (source.size * 2 ^ steps ≡ 256)
unfolding ancestor_source
ancestor_source-shows zero x y h = (omega arith, omega arith, refl)
ancestor_source-shows (suc zero) x y h = (omega arith, omega arith, refl)
ancestor_source-shows (suc (suc zero)) x y h = (omega arith, omega arith, refl)
ancestor_source-shows (suc (suc (suc zero))) x y h = (omega arith, omega arith, refl)
ancestor_source-shows (suc (suc (suc (suc steps)))) x y h = absurd (omega (arith, h))

abbrev is_tile : ℕ → ℕ → ℕ × ℕ → Bool
is_tile x y (a, b) = nat_beq a x && nat_beq b y

abbrev pub has_tile : ℕ → ℕ → List (ℕ × ℕ) → Bool
has_tile x y tiles = any_of (is_tile x y) tiles

column-has_tile :
    (rounds x y a b : ℕ) → x ≡ a → b ≤ y → y < b + rounds → has_tile a b (column rounds x y) ≡ true
unfolding column
column-has_tile zero x y a b e l h = absurd (omega (arith, l, h))
column-has_tile (suc rounds) x y a b e l h = elim (Bool-cases (nat_beq y b)) [
  | inl same ↦ ground (arith, e, same)
  | inr other ↦
      let below : b ≤ y - 1 = ground (arith, other, l) in
      let within : y - 1 < b + rounds = ground (arith, other, l, h) in
      ground (arith, column-has_tile rounds x (y - 1) a b e below within)
]

any_of-append :
    (p : ℕ × ℕ → Bool) (xs ys : List (ℕ × ℕ))
    → any_of p (xs ++ ys) ≡ (if any_of p xs then true else any_of p ys)
any_of-append p [] ys = refl
any_of-append p (t ∷ xs) ys = ground (arith, any_of-append p xs ys)

columns-has_tile :
    (rounds x height y a b : ℕ)
    → x ≤ a
    → a < x + rounds
    → b ≤ y
    → y < b + height
    → has_tile a b (columns rounds x height y) ≡ true
unfolding columns
columns-has_tile zero x height y a b l h m k = absurd (omega (arith, l, h))
columns-has_tile (suc rounds) x height y a b l h m k =
    any_of-append (is_tile a b) (column height x y) (columns rounds (x + 1) height y)
    ∙ elim (Bool-cases (nat_beq x a)) [
      | inl same ↦ rw (column-has_tile height x y a b ((nat_beq_iff x a).0 same) m k)
      | inr other ↦
          let after : x + 1 ≤ a = ground (arith, other, l) in
          let rest = columns-has_tile rounds (x + 1) height y a b after (omega (arith, h)) m k in
          ground (arith, rest)
    ]

div_mono : (level a b : ℕ) → level ≤ 3 → a ≤ b → a / 2 ^ level ≤ b / 2 ^ level
div_mono zero a b h le = omega (arith, le)
div_mono (suc zero) a b h le = omega (arith, le)
div_mono (suc (suc zero)) a b h le = omega (arith, le)
div_mono (suc (suc (suc zero))) a b h le = omega (arith, le)
div_mono (suc (suc (suc (suc level)))) a b h le = absurd (omega (arith, h))

-- Every map tile in view is within a tile of the level that is drawn.
pub level_tiles_in_view-covers :
    (level : ℕ) (view : View) (x y : ℕ)
    → level ≤ 3
    → view.left ≤ x
    → x < view.right
    → view.bottom < y
    → y ≤ view.top
    → has_tile (x / 2 ^ level) (y / 2 ^ level) (level_tiles_in_view level view) ≡ true
unfolding level_tiles_in_view
level_tiles_in_view-covers level view x y h l r b t =
    columns-has_tile _ _ _ _ _ _ (div_mono level view.left x h l)
      (omega (
        arith,
        div_mono level x (view.right - 1) h (omega (arith, r)),
        div_mono level view.left x h l,
      ))
      (div_mono level y view.top h t)
      (omega (
        arith,
        div_mono level (view.bottom + 1) y h (omega (arith, b)),
        div_mono level y view.top h t,
      ))
