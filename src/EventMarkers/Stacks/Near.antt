-- ===== src/EventMarkers/Stacks/Near.antt =====
-- What the search of the cells finds, and what it cannot miss.
use ha_osrs_map.Base.{
  ℕ, ◌/◌, ◌<◌, ◌≡◌, arith, true, false, List, [], ◌∷◌, none, some, nat_beq_iff, Bool-cases,
  Option-cases, inl, inr, get_elem?, All, beq_self, nat_eq,
}
use ha_osrs_map.Base.Dict.{get}
use ha_osrs_map.Base.Sets.{contains}
use ha_osrs_map.Trail.Point.{abs_diff}
use ha_osrs_map.EventMarkers.Stacks.{
  cell_eq, ScreenPoint, Stack, Cell, Stacking, or_none_in, is_near, find_in, find_near,
}

-- The stacks held in a cell.
abbrev pub held_in {ℓ} : {A : Type ℓ} → Stacking A → Cell → List ℕ
held_in s cell = or_none_in (get cell s.cells)

-- Two positions less than a cell apart are in one column or in neighbouring ones.
pub cells_apart : (px x y : ℕ) → 0 < px → abs_diff x y < px → abs_diff (x / px) (y / px) < 2
cells_apart px x y pos h = grind arith

module _ {ℓ} {A : Type ℓ} (px : ℕ) (point : ScreenPoint A) where
  -- What is found in a cell is held there and near.
  pub find_in-found :
      (stacks : List (Stack A)) (held : List ℕ) {i : ℕ}
      → find_in px point stacks held ≡ some i
      → (contains i held ≡ true) × (is_near px point (get_elem? stacks i) ≡ true)
  unfolding find_in contains
  find_in-found stacks [] h = cc
  find_in-found stacks (j ∷ held) {i} h =
      elim (Bool-cases (is_near px point (get_elem? stacks j))) [
        | inl near ↦ ground (arith, near, h, beq_self j)
        | inr far ↦ ground (arith, far, find_in-found stacks held (rw far at h))
      ]

  -- Nothing is found in a cell only if nothing held there is near.
  pub find_in-none :
      (stacks : List (Stack A)) (held : List ℕ) (i : ℕ)
      → find_in px point stacks held ≡ none
      → contains i held ≡ true
      → is_near px point (get_elem? stacks i) ≡ false
  unfolding find_in contains
  find_in-none stacks [] i h k = cc
  find_in-none stacks (j ∷ held) i h k = elim (Bool-cases (is_near px point (get_elem? stacks j))) [
    | inl near ↦ ground (arith, near, h)
    | inr far ↦ ground (arith, far, h, k, nat_beq_iff j i, find_in-none stacks held i (rw far at h))
  ]

  pub find_near-found :
      (s : Stacking A) (plane : ℕ) (cells : List Cell) {i : ℕ}
      → All (λ (c : Cell). c.plane ≡ plane) cells
      → find_near px point s cells ≡ some i
      → (cell : Cell) × (cell.plane ≡ plane)
        × (contains i (held_in s cell) ≡ true)
        × (is_near px point (get_elem? s.stacks i) ≡ true)
  unfolding find_near
  find_near-found s plane [] all h = cc
  find_near-found s plane (cell ∷ cells) {i} all h =
      elim (Option-cases (find_in px point s.stacks (held_in s cell))) [
        | inl nothing ↦ find_near-found s plane cells all.1 (rw nothing at h)
        | inr (j, found) ↦
            let here = find_in-found s.stacks (held_in s cell) found in
            let same : j ≡ i = ground (arith, found, h) in rw (← same) (cell, all.0, here.0, here.1)
      ]

  pub find_near-none :
      (s : Stacking A) (cells : List Cell)
      → find_near px point s cells ≡ none
      → All (λ (c : Cell). find_in px point s.stacks (held_in s c) ≡ none) cells
  unfolding find_near
  find_near-none s [] h = tt
  find_near-none s (cell ∷ cells) h =
      elim (Option-cases (find_in px point s.stacks (held_in s cell))) [
        | inl nothing ↦ (nothing, find_near-none s cells (rw nothing at h))
        | inr (j, found) ↦ ground (arith, found, h)
      ]
