-- ===== src/EventMarkers/Stacks.antt =====
-- Screen points that are close together, drawn as one: stackPoints of
-- site/src/canvas-map/event-markers.js. Positions are whole pixels, counted from a place a whole
-- number of cells above and to the left of every point; the cells are numbered from 1, so that
-- there is a cell before each. A stack is in one cell and in the list at once: cells hold the
-- places of stacks in the list.
use ha_osrs_map.Base.{
  ℕ, zero, suc, ◌+◌, ◌-◌, ◌/◌, ◌≡◌, arith, Bool, true, false, ◌&&◌, List, [], ◌∷◌, ◌++◌, Option,
  none, some, if◌then◌else◌, ltb, nat_beq, length, get_elem?, Eq, ◌↔◌,
}
use ha_osrs_map.Base.Dict.{Dict, get, put}
use ha_osrs_map.Trail.Point.{abs_diff}
pub mod Near
pub mod Apart
pub mod Together

pub record ScreenPoint {ℓ} (A : Type ℓ) : Type ℓ where
  pub of : A
  pub x : ℕ
  pub y : ℕ
  pub plane : ℕ

pub record Stack {ℓ} (A : Type ℓ) : Type ℓ where
  pub x : ℕ
  pub y : ℕ
  pub plane : ℕ
  pub members : List (ScreenPoint A)

-- The source's key is the text of these three.
pub record Cell : Type 0 where
  pub plane : ℕ
  pub column : ℕ
  pub row : ℕ

abbrev pub cell_beq : Cell → Cell → Bool
cell_beq a b = nat_beq a.plane b.plane && nat_beq a.column b.column && nat_beq a.row b.row

pub cell_beq_iff : (a b : Cell) → (cell_beq a b ≡ true) ↔ (a ≡ b)
cell_beq_iff a b = (λ h. ground (arith, h), λ h. ground (arith, h))

instance abbrev pub cell_eq : Eq Cell
cell_eq = record { beq = cell_beq; beq_iff = cell_beq_iff }

abbrev pub cell_at : ℕ → ℕ → ℕ → ℕ → Cell
cell_at px plane x y = record { plane = plane; column = x / px + 1; row = y / px + 1 }

-- The cell and those next to it, in the order of the loops over `dx` and `dy`.
abbrev pub cells_around : Cell → List Cell
cells_around c =
    record { plane = c.plane; column = c.column - 1; row = c.row - 1 }
    ∷ record { plane = c.plane; column = c.column - 1; row = c.row }
    ∷ record { plane = c.plane; column = c.column - 1; row = c.row + 1 }
    ∷ record { plane = c.plane; column = c.column; row = c.row - 1 }
    ∷ c
    ∷ record { plane = c.plane; column = c.column; row = c.row + 1 }
    ∷ record { plane = c.plane; column = c.column + 1; row = c.row - 1 }
    ∷ record { plane = c.plane; column = c.column + 1; row = c.row }
    ∷ record { plane = c.plane; column = c.column + 1; row = c.row + 1 }
    ∷ []

pub record Stacking {ℓ} (A : Type ℓ) : Type ℓ where
  pub cells : Dict Cell (List ℕ)
  pub stacks : List (Stack A)

abbrev pub or_none_in : Option (List ℕ) → List ℕ
or_none_in none = []
or_none_in (some held) = held

abbrev pub first_of : Option ℕ → Option ℕ → Option ℕ
first_of none rest = rest
first_of (some found) rest = some found

module _ {ℓ} {A : Type ℓ} where
  -- `Math.abs(other.x - point.x) < px && Math.abs(other.y - point.y) < px`
  abbrev pub is_near : ℕ → ScreenPoint A → Option (Stack A) → Bool
  is_near px point none = false
  is_near px point (some other) =
      ltb (abs_diff other.x point.x) px && ltb (abs_diff other.y point.y) px

  -- `near?.find(…)`
  unfoldable pub find_in : ℕ → ScreenPoint A → List (Stack A) → List ℕ → Option ℕ
  find_in px point stacks [] = none
  find_in px point stacks (i ∷ held) =
      let rest = find_in px point stacks held in
      if is_near px point (get_elem? stacks i) then some i else rest

  unfoldable pub find_near : ℕ → ScreenPoint A → Stacking A → List Cell → Option ℕ
  find_near px point s [] = none
  find_near px point s (cell ∷ cells) =
      first_of (find_in px point s.stacks (or_none_in (get cell s.cells)))
        (find_near px point s cells)

  abbrev pub push_point : ScreenPoint A → Stack A → Stack A
  push_point point stack = record stack { members = stack.members ++ (point ∷ []) }

  unfoldable pub push_at : ℕ → ScreenPoint A → List (Stack A) → List (Stack A)
  push_at i point [] = []
  push_at zero point (stack ∷ stacks) = push_point point stack ∷ stacks
  push_at (suc i) point (stack ∷ stacks) = stack ∷ push_at i point stacks

  abbrev pub new_stack : ScreenPoint A → Stack A
  new_stack point = record { x = point.x; y = point.y; plane = point.plane; members = point ∷ [] }

  -- A point, on the stack that was found for it or on one of its own.
  abbrev pub put_point : ℕ → ScreenPoint A → Stacking A → Option ℕ → Stacking A
  put_point px point s (some i) = record s { stacks = push_at i point s.stacks }
  put_point px point s none =
      let cell = cell_at px point.plane point.x point.y in
      record {
        cells = put cell (or_none_in (get cell s.cells) ++ (length s.stacks ∷ [])) s.cells;
        stacks = s.stacks ++ (new_stack point ∷ []);
      }

  unfoldable pub stack_point : ℕ → ScreenPoint A → Stacking A → Stacking A
  stack_point px point s =
      put_point px point s
        (find_near px point s (cells_around (cell_at px point.plane point.x point.y)))

  unfoldable pub stack_each : ℕ → List (ScreenPoint A) → Stacking A → Stacking A
  stack_each px [] s = s
  stack_each px (point ∷ points) s = stack_each px points (stack_point px point s)

  unfoldable pub stack_points : ℕ → List (ScreenPoint A) → List (Stack A)
  stack_points px points = (stack_each px points (record { cells = []; stacks = [] })).stacks
