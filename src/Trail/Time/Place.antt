-- ===== src/Trail/Time/Place.antt =====
-- Where `positionAt` puts a player.
use ha_osrs_map.Base.{
  ℕ, suc, ◌+◌, ◌-◌, ◌*◌, ◌≤◌, ◌<◌, max, min, ◌≡◌, refl, ◌⊎◌, inl, inr, false, Option, none, some,
  List, arith, get_elem?, le→leb, lt→leb_false, Bool-cases,
}
use native.Mathlib.Decide.{dec_le}
use ha_osrs_map.Trail.Point.{Point, Kind}
use ha_osrs_map.Trail.Model.{TrailModel, connected_at}
use ha_osrs_map.Trail.Time.{
  Position, between, under_way, place_step, place_from, position_at, index_at, standing,
}
use ha_osrs_map.Trail.Time.Order.{IsOrdered}
use ha_osrs_map.Trail.Time.Search.{index_at-IsLastReached, IsLastReached}

share-le : (d num den : ℕ) → num ≤ den → d * num ≤ d * den
share-le d num den le = grind arith

-- A share of the way lies between the two ends.
between_bounds :
    (a b num den : ℕ)
    → num ≤ den
    → (min a b * den ≤ between a b num den) × (between a b num den ≤ max a b * den)
unfolding between
between_bounds a b num den le = elim (dec_le a b) [
  | yes h ↦
      let d : ℕ = b - a in
      let e : b ≡ a + d = omega arith in
      let e₁ : a + d - a ≡ d = omega arith in
      let e₂ : a - (a + d) ≡ 0 = omega arith in
      let e₃ : min a (a + d) ≡ a = omega arith in
      let e₄ : max a (a + d) ≡ a + d = omega arith in
      rw (e, e₁, e₂, e₃, e₄)
        (omega (arith, share-le d num den le), omega (arith, share-le d num den le))
  | no h ↦
      let d : ℕ = a - b in
      let e : a ≡ b + d = omega arith in
      let e₁ : b + d - b ≡ d = omega arith in
      let e₂ : b - (b + d) ≡ 0 = omega arith in
      let e₃ : min (b + d) b ≡ b = omega arith in
      let e₄ : max (b + d) b ≡ b + d = omega arith in
      rw (e, e₁, e₂, e₃, e₄)
        (omega (arith, share-le d num den le), omega (arith, share-le d num den le))
]

between_zero : (a b den : ℕ) → between a b 0 den ≡ a * den
unfolding between
between_zero a b den = omega arith

-- What `positionAt` answers between two neighbouring points `p` and `next`: on the way, less than
-- all of it; within the box that the two points span; and standing at `p` while a step that is
-- not connected lasts.
pub record IsOnWay (kinds : List Kind) (index : ℕ) (p next : Point) (pos : Position) : Type 0 where
  pub started : 0 < pos.num
  pub unfinished : pos.num < pos.den
  pub on_floor : pos.plane ≡ p.plane
  pub x_bounds : (min p.x next.x * pos.den ≤ pos.x) × (pos.x ≤ max p.x next.x * pos.den)
  pub y_bounds : (min p.y next.y * pos.den ≤ pos.y) × (pos.y ≤ max p.y next.y * pos.den)
  pub waits : connected_at kinds index ≡ false → (pos.x ≡ p.x * pos.den) × (pos.y ≡ p.y * pos.den)

under_way-IsOnWay :
    (kinds : List Kind) (index : ℕ) (p next : Point) (t : ℕ)
    → p.t1 < t
    → t < next.t0
    → IsOnWay kinds index p next (under_way kinds index p next t)
unfolding under_way
under_way-IsOnWay kinds index p next t lo hi = elim (Bool-cases (connected_at kinds index)) [
  | inl c ↦ record {
    started = omega arith;
    unfinished = omega arith;
    on_floor = ground arith;
    x_bounds = rw c (between_bounds p.x next.x (t - p.t1) (max (next.t0 - p.t1) 1) (omega arith));
    y_bounds = rw c (between_bounds p.y next.y (t - p.t1) (max (next.t0 - p.t1) 1) (omega arith));
    waits = λ n. cc;
  }
  | inr c ↦ record {
    started = omega arith;
    unfinished = omega arith;
    on_floor = ground arith;
    x_bounds = rw c (between_bounds p.x next.x 0 (max (next.t0 - p.t1) 1) (omega arith));
    y_bounds = rw c (between_bounds p.y next.y 0 (max (next.t0 - p.t1) 1) (omega arith));
    waits = λ n. rw c (
      between_zero p.x next.x (max (next.t0 - p.t1) 1),
      between_zero p.y next.y (max (next.t0 - p.t1) 1),
    );
  }
]

-- The three places that a player can have at a time: not yet on the trail; on the tile of a point
-- that has begun and not ended, or is the last one; or on the way from a point to the next one.
pub data IsPlaced (model : TrailModel) (t : ℕ) : Option Position → Type 0 where
  ahead :
      ((j : ℕ) (q : Point) → get_elem? model.points j ≡ some q → t < q.t0) → IsPlaced model t none
  stays :
      (i : ℕ) (p : Point)
      → get_elem? model.points i ≡ some p
      → p.t0 ≤ t
      → (t ≤ p.t1) ⊎ (get_elem? model.points (suc i) ≡ none)
      → IsPlaced model t (some (standing i p))
  travels :
      (i : ℕ) (p next : Point) {pos : Position}
      → get_elem? model.points i ≡ some p
      → get_elem? model.points (suc i) ≡ some next
      → (p.t1 < t) × (t < next.t0)
      → pos.index ≡ i
      → IsOnWay model.kinds i p next pos
      → IsPlaced model t (some pos)

under_way-index :
    (kinds : List Kind) (i : ℕ) (p next : Point) (t : ℕ) → (under_way kinds i p next t).index ≡ i
unfolding under_way
under_way-index kinds i p next t = refl

module _ (model : TrailModel) (t : ℕ) where
  place_step-IsPlaced :
      (i : ℕ) (p : Point) (next : Option Point)
      → get_elem? model.points i ≡ some p
      → get_elem? model.points (suc i) ≡ next
      → p.t0 ≤ t
      → ((j : ℕ) (q : Point) → i < j → get_elem? model.points j ≡ some q → t < q.t0)
      → IsPlaced model t (place_step model.kinds t i (some p) next)
  unfolding place_step
  place_step-IsPlaced i p none e n begun later = stays i p e begun (inr n)
  place_step-IsPlaced i p (some next) e n begun later = elim (dec_le t p.t1) [
    | yes le ↦ rw (le→leb t p.t1 le) (stays i p e begun (inl le))
    | no gt ↦
        let hi = later (suc i) next (omega arith) n in
        rw (lt→leb_false p.t1 t (omega arith)) (
          travels i p next e n (omega arith, hi) (under_way-index model.kinds i p next t)
            (under_way-IsOnWay model.kinds i p next t (omega arith) hi))
  ]

  place_from-IsPlaced :
      (r : Option ℕ) → IsLastReached model.points t r → IsPlaced model t (place_from model t r)
  unfolding place_from
  place_from-IsPlaced none h = ahead h
  place_from-IsPlaced (some i) (p, e, begun, later) =
      rw e (place_step-IsPlaced i p (get_elem? model.points (suc i)) e refl begun later)

-- On a trail in the order of time `positionAt` gives, at every time, one of the three places that
-- IsPlaced names: none before the trail begins, the tile of the last point reached while the player
-- is there or no other follows, or a place on the way from it to the next.
pub position_at-IsPlaced :
    (model : TrailModel) (t : ℕ) → IsOrdered model.points → IsPlaced model t (position_at model t)
unfolding position_at
position_at-IsPlaced model t ordered =
    place_from-IsPlaced model t (index_at model.points t)
      (index_at-IsLastReached model.points t ordered)
