-- ===== src/Trail/Live/Decode.antt =====
-- What reading a trail of the server's promises (`decodeTrail`).
use mathlib.Core.Path.{ap₂}
use mathlib.Core.List.{map-append}
use ha_osrs_map.Base.{
  ℕ, suc, ◌≤◌, ◌<◌, ◌≡◌, refl, ◌∙◌, ap, inl, inr, Option, none, some, arith, List, [], ◌∷◌, ◌++◌,
  map, leb, leb→le, le→leb, lt→leb_false, sym, if◌then◌else◌, Bool-cases,
}
use ha_osrs_map.Trail.Live.{
  Row, y_of, WorldChange, advance_worlds, decode_point, decode_row, decode_rows, decode_trail,
  object,
}

-- The world of a row by itself: that of the last change at or before it.
abbrev pub latest_world : ℕ → List WorldChange → Option ℕ → Option ℕ
latest_world index [] world = world
latest_world index ((from, next) ∷ worlds) world =
    latest_world index worlds (if leb from index then some next else world)

abbrev pub row_worlds : ℕ → List Row → List WorldChange → Option ℕ → List (Option ℕ)
row_worlds index [] worlds world = []
row_worlds index (row ∷ rows) worlds world =
    latest_world index worlds world ∷ row_worlds (suc index) rows worlds world

-- The changes are in order, and none is before row `index`.
abbrev pub ChangesFrom : ℕ → List WorldChange → Type 0
ChangesFrom index [] = Unit
ChangesFrom index ((from, next) ∷ worlds) = (index ≤ from) × ChangesFrom from worlds

-- A row whose place and time are numbers.
pub record IsComplete (row : Row) : Type 0 where
  pub x : (n : ℕ) × (row.x ≡ some n)
  pub y : (n : ℕ) × (y_of row.y ≡ some n)
  pub plane : (n : ℕ) × (row.plane ≡ some n)
  pub time : (n : ℕ) × (row.time ≡ some n)

abbrev pub AllComplete : List Row → Type 0
AllComplete [] = Unit
AllComplete (row ∷ rows) = IsComplete row × AllComplete rows

latest_world_later :
    (index : ℕ) (worlds : List WorldChange) (world : Option ℕ) (from : ℕ)
    → ChangesFrom from worlds
    → index < from
    → latest_world index worlds world ≡ world
latest_world_later index [] world from c lt = refl
latest_world_later index ((f, n) ∷ worlds) world from c lt =
    rw (lt→leb_false index f (omega arith))
      (latest_world_later index worlds world f c.1 (omega arith))

-- What the loop leaves says the same of every later row, and the world it stops at is right.
advance_worlds_lem :
    (index low : ℕ) (worlds : List WorldChange) (world : Option ℕ)
    → ChangesFrom low worlds
    → ((later : ℕ)
        → index ≤ later
        → latest_world later
            (advance_worlds index worlds world).0
            (advance_worlds index worlds world).1
          ≡ latest_world later worlds world)
      × ((advance_worlds index worlds world).1 ≡ latest_world index worlds world)
      × ((n : ℕ) × ChangesFrom n (advance_worlds index worlds world).0)
unfolding advance_worlds
advance_worlds_lem index low [] world c = ((λ later le. refl), refl, (0, tt))
advance_worlds_lem index low ((f, n) ∷ worlds) world c = elim (Bool-cases (leb f index)) [
  | inl hit ↦
      let (all, here, left) = advance_worlds_lem index f worlds (some n) c.1 in
      rw hit (
        (λ later le.
            rw (le→leb f later (let h = leb→le f index hit in omega arith)) (all later le)),
        here,
        left,
      )
  | inr miss ↦ rw miss (
    (λ later le. refl),
    sym (latest_world_later index worlds world f c.1 (ground arith)),
    (low, c),
  )
]

-- A complete row gives one point, on the world that the loop stopped at.
decode_row-world :
    (row : Row) (world : Option ℕ) (x y plane time : ℕ)
    → map (λ p. p.world) (decode_row row world (some x) (some y) (some plane) (some time))
      ≡ world ∷ []
unfolding decode_row decode_point
decode_row-world row world x y plane time = refl

decode_row_complete :
    (row : Row) (world : Option ℕ)
    → IsComplete row
    → map (λ p. p.world) (decode_row row world row.x (y_of row.y) row.plane row.time) ≡ world ∷ []
decode_row_complete row world h =
    let (x, ex) = h.x in
    let (y, ey) = h.y in
    let (plane, ep) = h.plane in
    let (time, et) = h.time in cc (decode_row-world row world x y plane time)

row_worlds-eq :
    (index : ℕ) (rows : List Row) (left worlds : List WorldChange) (here world : Option ℕ)
    → ((later : ℕ) → index ≤ later → latest_world later left here ≡ latest_world later worlds world)
    → row_worlds index rows left here ≡ row_worlds index rows worlds world
row_worlds-eq index [] left worlds here world all = refl
row_worlds-eq index (row ∷ rows) left worlds here world all =
    ap₂ (λ w ws. w ∷ ws) (all index (omega arith))
      (row_worlds-eq (suc index) rows left worlds here world (λ later le. all later (omega arith)))

decode_rows-worlds :
    (index low : ℕ) (rows : List Row) (worlds : List WorldChange) (world : Option ℕ)
    → ChangesFrom low worlds
    → AllComplete rows
    → map (λ p. p.world) (decode_rows index rows worlds world) ≡ row_worlds index rows worlds world
unfolding decode_rows
decode_rows-worlds index low [] worlds world c h = refl
decode_rows-worlds index low (row ∷ rows) worlds world c h =
    let next = advance_worlds index worlds world in
    let (all, here, (n, left)) = advance_worlds_lem index low worlds world c in
    map-append (λ p. p.world) (decode_row row next.1 row.x (y_of row.y) row.plane row.time)
      (decode_rows (suc index) rows next.0 next.1)
    ∙ ap₂ (λ a b. a ++ b) (decode_row_complete row next.1 h.0)
        (decode_rows-worlds (suc index) n rows next.0 next.1 left h.1
          ∙ row_worlds-eq (suc index) rows next.0 worlds next.1 world
              (λ later le. all later (omega arith)))
    ∙ ap (λ w. w ∷ row_worlds (suc index) rows worlds world) here

-- Where every row has a place and a time, and the changes of world are in order, a trail that is
-- read has one point for each row, each on the world of the last change at or before its row.
pub decode_trail-worlds :
    (rows : List Row) (worlds : List WorldChange) (step as_of : Option ℕ)
    → ChangesFrom 0 worlds
    → AllComplete rows
    → map (λ p. p.world) (decode_trail (object rows worlds step as_of)).points
      ≡ row_worlds 0 rows worlds none
unfolding decode_trail
decode_trail-worlds rows worlds step as_of c h = decode_rows-worlds 0 0 rows worlds none c h
