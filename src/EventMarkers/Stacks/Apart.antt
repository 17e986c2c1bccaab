-- ===== src/EventMarkers/Stacks/Apart.antt =====
-- That no two stacks are close enough to be one.
use ha_osrs_map.Base.{
  get_elem?-snoc, All-of_get_elem?, ℕ, zero, suc, ◌+◌, ◌<◌, ◌≡◌, refl, ap, sym, ◌∙◌, arith, Bool,
  true, false, ◌&&◌, List, [], ◌∷◌, ◌++◌, Option, none, some, ltb, nat_beq, Bool-cases,
  Option-cases, inl, inr, length, subst, get_elem?, All, All-append, nat_eq,
}
use ha_osrs_map.Base.Dict.{get-put}
use ha_osrs_map.Base.Sets.{All-contains, contains, contains-append}
use ha_osrs_map.Trail.Point.{abs_diff}
use ha_osrs_map.EventMarkers.Stacks.{
  cell_eq, ScreenPoint, Stack, Cell, cell_beq, Stacking, cell_beq_iff, cell_at, cells_around,
  find_in, find_near, push_at, new_stack, put_point, stack_point, stack_each, stack_points,
}
use ha_osrs_map.EventMarkers.Stacks.Near.{held_in, cells_apart, find_in-none, find_near-none}

abbrev pub cell_of {ℓ} : {A : Type ℓ} → ℕ → Option (Stack A) → Option Cell
cell_of px none = none
cell_of px (some stack) = some (cell_at px stack.plane stack.x stack.y)

-- Two stacks on one plane, less than `px` apart both ways.
abbrev pub overlap {ℓ} : {A : Type ℓ} → ℕ → Stack A → Stack A → Bool
overlap px a b = nat_beq a.plane b.plane && ltb (abs_diff a.x b.x) px && ltb (abs_diff a.y b.y) px

abbrev pub IsApart {ℓ} : {A : Type ℓ} → ℕ → List (Stack A) → Type 0
IsApart px [] = Unit
IsApart px (stack ∷ stacks) =
    All (λ other. overlap px stack other ≡ false) stacks × IsApart px stacks

module _ {ℓ} {A : Type ℓ} (px : ℕ) where
  push_at-apart_from :
      (stack : Stack A) (i : ℕ) (point : ScreenPoint A) (stacks : List (Stack A))
      → All (λ other. overlap px stack other ≡ false) stacks
      → All (λ other. overlap px stack other ≡ false) (push_at i point stacks)
  unfolding push_at
  push_at-apart_from stack i point [] all = tt
  push_at-apart_from stack zero point (other ∷ stacks) all = all
  push_at-apart_from stack (suc i) point (other ∷ stacks) all =
      (all.0, push_at-apart_from stack i point stacks all.1)

  push_at-IsApart :
      (i : ℕ) (point : ScreenPoint A) (stacks : List (Stack A))
      → IsApart px stacks
      → IsApart px (push_at i point stacks)
  unfolding push_at
  push_at-IsApart i point [] apart = tt
  push_at-IsApart zero point (stack ∷ stacks) apart = apart
  push_at-IsApart (suc i) point (stack ∷ stacks) apart =
      (push_at-apart_from stack i point stacks apart.0, push_at-IsApart i point stacks apart.1)

  cell_of-push_at :
      (i j : ℕ) (point : ScreenPoint A) (stacks : List (Stack A))
      → cell_of px (get_elem? (push_at i point stacks) j) ≡ cell_of px (get_elem? stacks j)
  unfolding push_at
  cell_of-push_at i j point [] = refl
  cell_of-push_at zero zero point (stack ∷ stacks) = refl
  cell_of-push_at zero (suc j) point (stack ∷ stacks) = refl
  cell_of-push_at (suc i) zero point (stack ∷ stacks) = refl
  cell_of-push_at (suc i) (suc j) point (stack ∷ stacks) = cell_of-push_at i j point stacks

  append-IsApart :
      (stacks : List (Stack A)) (new : Stack A)
      → IsApart px stacks
      → All (λ stack. overlap px stack new ≡ false) stacks
      → IsApart px (stacks ++ (new ∷ []))
  append-IsApart [] new apart far = (tt, tt)
  append-IsApart (stack ∷ stacks) new apart far =
      (All-append _ stacks (new ∷ []) apart.0 (far.0, tt), append-IsApart stacks new apart.1 far.1)

-- Every stack is held in the cell that its place is in.
abbrev pub IsHeld {ℓ} : {A : Type ℓ} → ℕ → Stacking A → Type 0
IsHeld px s =
    (i : ℕ) (cell : Cell)
    → cell_of px (get_elem? s.stacks i) ≡ some cell
    → contains i (held_in s cell) ≡ true

-- The nine cells are all those that are next to the middle one.
cells_around-cover :
    (plane column row middle_column middle_row : ℕ)
    → abs_diff column middle_column < 2
    → abs_diff row middle_row < 2
    → contains
        (record { plane = plane; column = column + 1; row = row + 1 })
        (cells_around (record { plane = plane; column = middle_column + 1; row = middle_row + 1 }))
      ≡ true
unfolding contains
cells_around-cover plane column row middle_column middle_row h k = ground arith

module _ {ℓ} {A : Type ℓ} (px : ℕ) (positive : 0 < px) (point : ScreenPoint A) where
  -- A stack that is too close has its cell among those that are searched.
  overlap-found :
      (s : Stacking A) (i : ℕ) (stack : Stack A)
      → IsHeld px s
      → get_elem? s.stacks i ≡ some stack
      → find_near px point s (cells_around (cell_at px point.plane point.x point.y)) ≡ none
      → overlap px stack (new_stack point) ≡ false
  overlap-found s i stack held there nothing =
      elim (Bool-cases (overlap px stack (new_stack point))) [
        | inr apart ↦ apart
        | inl close ↦
            let cell = cell_at px stack.plane stack.x stack.y in
            let here = cell_at px point.plane point.x point.y in
            let column = cells_apart px stack.x point.x positive (ground (arith, close)) in
            let row = cells_apart px stack.y point.y positive (ground (arith, close)) in
            let plane : stack.plane ≡ point.plane = ground (arith, close) in
            let covered : contains cell (cells_around here) ≡ true =
              rw plane (cells_around-cover point.plane _ _ _ _ column row) in
            let empty =
              All-contains (λ (c : Cell). find_in px point s.stacks (held_in s c) ≡ none)
                (cells_around here) cell (find_near-none px point s (cells_around here) nothing)
                covered in
            let far =
              find_in-none px point s.stacks (held_in s cell) i empty
                (held i cell (ap (cell_of px) there)) in
            ground (arith, close, there, far)
      ]

  held-put_point :
      (s : Stacking A) (j : ℕ) (cell : Cell)
      → IsHeld px s
      → cell_of px (get_elem? (s.stacks ++ (new_stack point ∷ [])) j) ≡ some cell
      → contains j (held_in (put_point px point s none) cell) ≡ true
  unfolding contains
  held-put_point s j cell held h =
      let here = cell_at px point.plane point.x point.y in
      let before = held_in s here in
      let number = length s.stacks in
      let of_new = sym (ap (cell_of px) (get_elem?-snoc s.stacks (new_stack point) j)) ∙ h in
      let extended = contains-append j before (number ∷ []) in
      rw (get-put here cell (before ++ (length s.stacks ∷ [])) s.cells)
        elim (Bool-cases (nat_beq j (length s.stacks))) [
          | inl last ↦
              let same : here ≡ cell = cc (rw last at of_new) in
              rw ((cell_beq_iff here cell).1 same) (ground (arith, last, extended))
          | inr earlier ↦
              let there = held j cell (rw earlier at of_new) in
              elim (Bool-cases (cell_beq here cell)) [
                | inl same ↦
                    let kept : contains j before ≡ true =
                      subst (λ c. contains j (held_in s c) ≡ true)
                        (sym ((cell_beq_iff here cell).0 same)) there in
                    rw same (ground (arith, kept, extended))
                | inr other ↦ rw other there
              ]
        ]

  put_point-IsHeld :
      (s : Stacking A) (found : Option ℕ) → IsHeld px s → IsHeld px (put_point px point s found)
  put_point-IsHeld s none held = λ j cell h. held-put_point s j cell held h
  put_point-IsHeld s (some i) held =
      λ j cell h. held j cell (sym (cell_of-push_at px i j point s.stacks) ∙ h)

  stack_point-IsApart :
      (s : Stacking A)
      → IsHeld px s
      → IsApart px s.stacks
      → IsHeld px (stack_point px point s) × IsApart px (stack_point px point s).stacks
  unfolding stack_point
  stack_point-IsApart s held apart =
      let here = cells_around (cell_at px point.plane point.x point.y) in
      elim (Option-cases (find_near px point s here)) [
        | inl nothing ↦ rw nothing (
          put_point-IsHeld s none held,
          append-IsApart px s.stacks (new_stack point) apart (
              All-of_get_elem? _ s.stacks
                (λ i stack there. overlap-found s i stack held there nothing)),
        )
        | inr (i, found) ↦
            rw found (put_point-IsHeld s (some i) held, push_at-IsApart px i point s.stacks apart)
      ]

module _ {ℓ} {A : Type ℓ} (px : ℕ) (positive : 0 < px) where
  stack_each-IsApart :
      (points : List (ScreenPoint A)) (s : Stacking A)
      → IsHeld px s
      → IsApart px s.stacks
      → IsApart px (stack_each px points s).stacks
  unfolding stack_each
  stack_each-IsApart [] s held apart = apart
  stack_each-IsApart (point ∷ points) s held apart =
      let next = stack_point-IsApart px positive point s held apart in
      stack_each-IsApart points (stack_point px point s) next.0 next.1

  -- For a `px` above 0, no two stacks on one plane are less than `px` apart both ways, however many
  -- points there are:
  -- the nine cells that are searched hold every stack that a point could join.
  pub stack_points-IsApart : (points : List (ScreenPoint A)) → IsApart px (stack_points px points)
  unfolding stack_points
  stack_points-IsApart points =
      stack_each-IsApart points (record { cells = []; stacks = [] }) (λ i cell h. cc) tt
