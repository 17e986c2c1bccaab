-- ===== src/EventMarkers/Stacks/Together.antt =====
-- That every point is on one stack, at whose place it nearly is.
use ha_osrs_map.Base.{
  ℕ, zero, suc, ◌+◌, ◌<◌, ◌≡◌, refl, ◌∙◌, subst, arith, Bool, true, List, [], ◌∷◌, ◌++◌, Option,
  none, some, if◌then◌else◌, Bool-cases, Option-cases, inl, inr, length, get_elem?, keep_if, All,
  All-append, All-get_elem?, nat_eq,
}
use ha_osrs_map.Base.Dict.{get, get-put}
use ha_osrs_map.Base.Sets.{contains, contains-append}
use ha_osrs_map.Trail.Point.{abs_diff}
use ha_osrs_map.EventMarkers.Stacks.{
  cell_eq, ScreenPoint, Stack, Cell, Stacking, cell_beq, cell_beq_iff, cell_at, cells_around,
  or_none_in, is_near, find_near, push_point, push_at, new_stack, put_point, stack_point,
  stack_each, stack_points,
}
use ha_osrs_map.EventMarkers.Stacks.Near.{held_in, find_near-found}

-- A stack's members are on its plane, less than `px` from its place both ways.
abbrev pub IsTogether {ℓ} : {A : Type ℓ} → ℕ → Stack A → Type 0
IsTogether px stack =
    All
      (λ member.
        (member.plane ≡ stack.plane)
        × (abs_diff stack.x member.x < px)
        × (abs_diff stack.y member.y < px))
      stack.members

-- How many members pass a test.
abbrev pub total {ℓ} : {A : Type ℓ} → (ScreenPoint A → Bool) → List (Stack A) → ℕ
total p [] = 0
total p (stack ∷ stacks) = length (keep_if p stack.members) + total p stacks

abbrev pub plane_of {ℓ} : {A : Type ℓ} → Option (Stack A) → Option ℕ
plane_of none = none
plane_of (some stack) = some stack.plane

-- A stack that a cell holds is on the cell's plane.
abbrev pub HoldsPlane {ℓ} : {A : Type ℓ} → Stacking A → Type 0
HoldsPlane s =
    (i : ℕ) (cell : Cell)
    → contains i (held_in s cell) ≡ true
    → plane_of (get_elem? s.stacks i) ≡ some cell.plane

nothing_held {ℓ} : (A : Type ℓ) → HoldsPlane {A = A} (record { cells = []; stacks = [] })
unfolding get contains
nothing_held A i cell h = absurd (cc h)

module _ {ℓ} {A : Type ℓ} where
  push_at-All {κ} :
      (P : Stack A → Type κ) (i : ℕ) (point : ScreenPoint A) (stacks : List (Stack A))
      {stack : Stack A}
      → All P stacks
      → get_elem? stacks i ≡ some stack
      → P (push_point point stack)
      → All P (push_at i point stacks)
  unfolding push_at
  push_at-All P i point [] all there pushed = tt
  push_at-All P zero point (stack ∷ stacks) {stack = other} all there pushed =
      let same : other ≡ stack = cc there in
      (subst (λ s. P (push_point point s)) same pushed, all.1)
  push_at-All P (suc i) point (stack ∷ stacks) all there pushed =
      (all.0, push_at-All P i point stacks all.1 there pushed)

  plane_of-push_at :
      (i j : ℕ) (point : ScreenPoint A) (stacks : List (Stack A))
      → plane_of (get_elem? (push_at i point stacks) j) ≡ plane_of (get_elem? stacks j)
  unfolding push_at
  plane_of-push_at i j point [] = refl
  plane_of-push_at zero zero point (stack ∷ stacks) = refl
  plane_of-push_at zero (suc j) point (stack ∷ stacks) = refl
  plane_of-push_at (suc i) zero point (stack ∷ stacks) = refl
  plane_of-push_at (suc i) (suc j) point (stack ∷ stacks) = plane_of-push_at i j point stacks

  length-keep_if-snoc :
      (p : ScreenPoint A → Bool) (list : List (ScreenPoint A)) (point : ScreenPoint A)
      → length (keep_if p (list ++ (point ∷ [])))
        ≡ length (keep_if p list) + (if p point then 1 else 0)
  length-keep_if-snoc p [] point = ground arith
  length-keep_if-snoc p (x ∷ list) point = ground (arith, length-keep_if-snoc p list point)

  total-push_at :
      (p : ScreenPoint A → Bool) (i : ℕ) (point : ScreenPoint A) (stacks : List (Stack A))
      {stack : Stack A}
      → get_elem? stacks i ≡ some stack
      → total p (push_at i point stacks) ≡ total p stacks + (if p point then 1 else 0)
  unfolding push_at
  total-push_at p i point [] there = cc
  total-push_at p zero point (stack ∷ stacks) there =
      omega (arith, length-keep_if-snoc p stack.members point)
  total-push_at p (suc i) point (stack ∷ stacks) there =
      omega (arith, total-push_at p i point stacks there)

  total-snoc :
      (p : ScreenPoint A → Bool) (stacks : List (Stack A)) (point : ScreenPoint A)
      → total p (stacks ++ (new_stack point ∷ [])) ≡ total p stacks + (if p point then 1 else 0)
  total-snoc p [] point = ground arith
  total-snoc p (stack ∷ stacks) point = omega (arith, total-snoc p stacks point)

  plane_of-snoc :
      (stacks : List (Stack A)) (new : Stack A) (j plane : ℕ)
      → plane_of (get_elem? stacks j) ≡ some plane
      → plane_of (get_elem? (stacks ++ (new ∷ [])) j) ≡ some plane
  plane_of-snoc [] new j plane h = cc
  plane_of-snoc (stack ∷ stacks) new zero plane h = h
  plane_of-snoc (stack ∷ stacks) new (suc j) plane h = plane_of-snoc stacks new j plane h

  plane_of-last :
      (stacks : List (Stack A)) (new : Stack A)
      → plane_of (get_elem? (stacks ++ (new ∷ [])) (length stacks)) ≡ some new.plane
  plane_of-last [] new = refl
  plane_of-last (stack ∷ stacks) new = plane_of-last stacks new

  put_point-HoldsPlane :
      (px : ℕ) (point : ScreenPoint A) (s : Stacking A) (found : Option ℕ)
      → HoldsPlane s
      → HoldsPlane (put_point px point s found)
  unfolding contains
  put_point-HoldsPlane px point s (some i) holds =
      λ j cell h. plane_of-push_at i j point s.stacks ∙ holds j cell h
  put_point-HoldsPlane px point s none holds = λ j cell h.
      let here = cell_at px point.plane point.x point.y in
      let before = held_in s here in
      let new = new_stack point in
      let held : contains j (
            or_none_in (
              if cell_beq here cell
              then some (before ++ (length s.stacks ∷ []))
              else get cell s.cells))
          ≡ true =
        rw (get-put here cell (before ++ (length s.stacks ∷ [])) s.cells) at h in
      elim (Bool-cases (cell_beq here cell)) [
        | inr other ↦ plane_of-snoc s.stacks new j cell.plane (holds j cell (rw other at held))
        | inl same ↦
            let place = (cell_beq_iff here cell).0 same in
            subst (λ c. plane_of (get_elem? (s.stacks ++ (new ∷ [])) j) ≡ some c.plane) place
              elim (Bool-cases (contains j before)) [
                | inl old ↦ plane_of-snoc s.stacks new j point.plane (holds j here old)
                | inr fresh ↦
                    let number : j ≡ length s.stacks = ground (
                      arith,
                      rw same at held,
                      contains-append j before (length s.stacks ∷ []),
                      fresh,
                    ) in
                    rw number (plane_of-last s.stacks new)
              ]
      ]

  -- What a stacking has of the points put on it.
  pub record IsStacking (px : ℕ) (s : Stacking A) : Type ℓ where
    pub together : All (IsTogether px) s.stacks
    pub planes : HoldsPlane s

module _ {ℓ} {A : Type ℓ} (px : ℕ) (positive : 0 < px) (p : ScreenPoint A → Bool) where
  -- A point put on the stack that was found for it.
  put_found :
      (point : ScreenPoint A) (s : Stacking A) (i : ℕ) (stack : Stack A) (cell : Cell)
      → IsStacking px s
      → cell.plane ≡ point.plane
      → contains i (held_in s cell) ≡ true
      → is_near px point (get_elem? s.stacks i) ≡ true
      → get_elem? s.stacks i ≡ some stack
      → All (IsTogether px) (push_at i point s.stacks)
        × (total p (push_at i point s.stacks) ≡ total p s.stacks + (if p point then 1 else 0))
  put_found point s i stack cell v plane held near there =
      let on_plane = v.planes i cell held in
      let own = All-get_elem? (IsTogether px) s.stacks i v.together there in
      let joined : (point.plane ≡ stack.plane)
          × (abs_diff stack.x point.x < px)
          × (abs_diff stack.y point.y < px) =
        (
          ground (arith, plane, on_plane, there),
          ground (arith, near, there),
          ground (arith, near, there),
        ) in
      (
        push_at-All (IsTogether px) i point s.stacks v.together there
            (All-append _ stack.members (point ∷ []) own (joined, tt)),
        total-push_at p i point s.stacks there,
      )

  stack_point-IsStacking :
      (point : ScreenPoint A) (s : Stacking A)
      → IsStacking px s
      → IsStacking px (stack_point px point s)
        × (total p (stack_point px point s).stacks ≡ total p s.stacks + (if p point then 1 else 0))
  unfolding stack_point
  stack_point-IsStacking point s v =
      let here = cell_at px point.plane point.x point.y in
      elim (Option-cases (find_near px point s (cells_around here))) [
        | inl nothing ↦ rw nothing (
          record {
            together =
                All-append (IsTogether px) s.stacks (new_stack point ∷ []) v.together
                  (((refl, omega arith, omega arith), tt), tt);
            planes = put_point-HoldsPlane px point s none v.planes;
          },
          total-snoc p s.stacks point,
        )
        | inr (i, found) ↦
            let at =
              find_near-found px point s point.plane (cells_around here) (omega arith) found in
            elim (Option-cases (get_elem? s.stacks i)) [
              | inl nowhere ↦ cc (rw nowhere at at.3)
              | inr (stack, there) ↦
                  let pushed = put_found point s i stack at.0 v at.1 at.2 at.3 there in
                  rw found (
                    record {
                      together = pushed.0;
                      planes = put_point-HoldsPlane px point s (some i) v.planes;
                    },
                    pushed.1,
                  )
            ]
      ]

  stack_each-IsStacking :
      (points : List (ScreenPoint A)) (s : Stacking A)
      → IsStacking px s
      → All (IsTogether px) (stack_each px points s).stacks
        × (total p (stack_each px points s).stacks ≡ total p s.stacks + length (keep_if p points))
  unfolding stack_each
  stack_each-IsStacking [] s v = (v.together, omega arith)
  stack_each-IsStacking (point ∷ points) s v =
      let next = stack_point-IsStacking point s v in
      let rest = stack_each-IsStacking points (stack_point px point s) next.0 in
      (rest.0, ground (arith, rest.1, next.1))

  -- Every point is on one stack and once: of whatever is counted there is as much on the stacks as
  -- among the points. Each is on its stack's plane and less than `px` from its place both ways.
  pub stack_points-IsTogether :
      (points : List (ScreenPoint A))
      → All (IsTogether px) (stack_points px points)
        × (total p (stack_points px points) ≡ length (keep_if p points))
  unfolding stack_points get contains
  stack_points-IsTogether points =
      let empty : IsStacking px (record { cells = []; stacks = [] }) = record {
        together = tt;
        planes = nothing_held A;
      } in
      let all = stack_each-IsStacking points (record { cells = []; stacks = [] }) empty in
      (all.0, omega (arith, all.1))
