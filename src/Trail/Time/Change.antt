-- ===== src/Trail/Time/Change.antt =====
-- What `nextChangeAfter` and `nextHop` promise to a replay.
use ha_osrs_map.Base.{
  ℕ, zero, suc, ◌≤◌, ◌<◌, ◌≡◌, refl, ◌⊎◌, inl, inr, false, Option, none, some, List, [], ◌∷◌, arith,
  leb, leb→le, lt-length_of_get_elem?, get_elem?-some, ltb, ltb→lt, get_elem?, Bool-cases,
}
use native.Mathlib.Decide.{dec_lt}
use ha_osrs_map.Trail.Point.{Point, Kind, is_next_room}
use ha_osrs_map.Trail.Model.{TrailModel, Jump}
use ha_osrs_map.Trail.Time.{
  Hop, hop_step, hop_among, next_hop, change_after, skips, change_step, change_from,
  next_change_after, index_at,
}
use ha_osrs_map.Trail.Time.Order.{IsOrdered, IsOrdered-lt, stay-IsOrdered}
use ha_osrs_map.Trail.Time.Search.{index_at-IsLastReached, IsLastReached}

-- A time to go on to from `t`: it is not before `t`, and no point begins strictly between.
-- Without one, the last point has begun.
pub record IsNextChange (points : List Point) (t c : ℕ) : Type 0 where
  pub forward : t ≤ c
  pub nothing_between : (j : ℕ) (q : Point) → get_elem? points j ≡ some q → (q.t0 ≤ t) ⊎ (c ≤ q.t0)

abbrev pub ChangeOk : List Point → ℕ → Option ℕ → Type 0
ChangeOk points t none = (j : ℕ) (q : Point) → get_elem? points j ≡ some q → q.t0 ≤ t
ChangeOk points t (some c) = IsNextChange points t c

module _ (model : TrailModel) (t : ℕ) (ordered : IsOrdered model.points) where
  begun_before :
      (i j : ℕ) (q : Point)
      → IsLastReached model.points t (some i)
      → j ≤ i
      → get_elem? model.points j ≡ some q
      → q.t0 ≤ t
  begun_before i j q (p, e, begun, later) le f = elim (dec_lt j i) [
    | yes lt ↦ ground (
      arith,
      IsOrdered-lt model.points j i {p = q} {q = p} ordered lt f e,
      stay-IsOrdered model.points j {p = q} ordered f,
    )
    | no ge ↦ let k : i ≡ j = omega arith in ground arith
  ]

  -- It is enough to look at the points behind the last one reached.
  NextChange_of_later :
      (i c : ℕ)
      → IsLastReached model.points t (some i)
      → t ≤ c
      → ((j : ℕ) (q : Point) → i < j → get_elem? model.points j ≡ some q → c ≤ q.t0)
      → IsNextChange model.points t c
  NextChange_of_later i c r le beyond = record {
    forward = le;
    nothing_between = λ j q f. elim (dec_lt i j) [
      | yes lt ↦ inr (beyond j q lt f)
      | no ge ↦ inl (begun_before i j q r (omega arith) f)
    ];
  }

  module _ (i : ℕ) (p next : Point) (r : IsLastReached model.points t (some i))
      (e : get_elem? model.points i ≡ some p) (n : get_elem? model.points (suc i) ≡ some next) where
    end_of_stay : t ≤ p.t1 → IsNextChange model.points t p.t1
    end_of_stay le =
        NextChange_of_later i p.t1 r le
          (λ j q lt f. IsOrdered-lt model.points i j {p = p} {q = q} ordered lt e f)

    next_point : IsNextChange model.points t next.t0
    next_point =
        let hi = r.3 (suc i) next (omega arith) n in
        NextChange_of_later i next.t0 r (omega arith) (λ j q lt f. elim (dec_lt (suc i) j) [
          | yes lt' ↦ ground (
            arith,
            IsOrdered-lt model.points (suc i) j {p = next} {q = q} ordered lt' n f,
            stay-IsOrdered model.points (suc i) {p = next} ordered n,
          )
          | no ge ↦ let k : suc i ≡ j = omega arith in ground arith
        ])

    no_skip : IsNextChange model.points t t
    no_skip =
        NextChange_of_later i t r (omega arith) (λ j q lt f. let h = r.3 j q lt f in omega arith)

  change_step-ChangeOk :
      (i : ℕ) (p : Point) (next : Option Point)
      → IsLastReached model.points t (some i)
      → get_elem? model.points i ≡ some p
      → get_elem? model.points (suc i) ≡ next
      → ChangeOk model.points t (change_step model t i (some p) next)
  unfolding change_step
  change_step-ChangeOk i p none r e n = λ j q f. elim (dec_lt i j) [
    | yes lt ↦
        let len = lt-length_of_get_elem? model.points j {x = q} f in
        let (x, s) = get_elem?-some model.points (suc i) (omega arith) in cc
    | no ge ↦ begun_before i j q r (omega arith) f
  ]
  change_step-ChangeOk i p (some next) r e n = elim (Bool-cases (leb t p.t1)) [
    | inl le ↦ rw le (end_of_stay i p next r e n (leb→le t p.t1 le))
    | inr gt ↦ elim (Bool-cases (skips model i p next)) [
      | inl s ↦ rw (gt, s) (next_point i p next r e n)
      | inr s ↦ rw (gt, s) (no_skip i p next r e n)
    ]
  ]

  first_t0-le :
      (first : Point) (j : ℕ) (q : Point)
      → get_elem? model.points 0 ≡ some first
      → get_elem? model.points j ≡ some q
      → first.t0 ≤ q.t0
  first_t0-le first zero q e f = ground arith
  first_t0-le first (suc j) q e f = ground (
    arith,
    IsOrdered-lt model.points 0 (suc j) {p = first} {q = q} ordered (omega arith) e f,
    stay-IsOrdered model.points 0 {p = first} ordered e,
  )

  change_from-ChangeOk :
      (first : Point) (r : Option ℕ)
      → get_elem? model.points 0 ≡ some first
      → IsLastReached model.points t r
      → ChangeOk model.points t (change_from model t first r)
  unfolding change_from
  change_from-ChangeOk first none e r =
      let h = r 0 first e in
      record { forward = omega arith; nothing_between = λ j q f. inr (first_t0-le first j q e f) }
  change_from-ChangeOk first (some i) e (p, e', begun, later) =
      rw e'
        (change_step-ChangeOk i p (get_elem? model.points (suc i)) (p, e', begun, later) e' refl)

  change_after-ChangeOk :
      (first : Option Point)
      → get_elem? model.points 0 ≡ first
      → ChangeOk model.points t (change_after model t first)
  unfolding change_after
  change_after-ChangeOk none e = λ j q f.
      let len = lt-length_of_get_elem? model.points j {x = q} f in
      let (x, s) = get_elem?-some model.points 0 (omega arith) in cc
  change_after-ChangeOk (some first) e =
      change_from-ChangeOk first (index_at model.points t) e
        (index_at-IsLastReached model.points t ordered)

-- On a trail in the order of time `nextChangeAfter` never goes back and never skips the beginning
-- of a point; it answers that nothing more happens only once every point has begun.
pub next_change_after-ChangeOk :
    (model : TrailModel) (t : ℕ)
    → IsOrdered model.points
    → ChangeOk model.points t (next_change_after model t)
unfolding next_change_after
next_change_after-ChangeOk model t ordered =
    change_after-ChangeOk model t ordered (get_elem? model.points 0) refl

-- What a replay relies on: the player lands within the span that was asked about, and left no
-- later than they landed.
pub record IsHopWithin (from to : ℕ) (hop : Hop) : Type 0 where
  pub after : from < hop.land
  pub by : hop.land ≤ to
  pub left_first : hop.leave ≤ hop.land
  pub elsewhere : is_next_room hop.kind ≡ false

abbrev pub HopOk : ℕ → ℕ → Option Hop → Type 0
HopOk from to none = Unit
HopOk from to (some hop) = IsHopWithin from to hop

hop_step-HopOk :
    (from to : ℕ) (kind : Kind) (p q : Option Point) (rest : Option Hop)
    → is_next_room kind ≡ false
    → ((a b : Point) → p ≡ some a → q ≡ some b → a.t1 ≤ b.t0)
    → HopOk from to rest
    → HopOk from to (hop_step from to kind p q rest)
unfolding hop_step
hop_step-HopOk from to kind none q rest k o h = tt
hop_step-HopOk from to kind (some p) none rest k o h = tt
hop_step-HopOk from to kind (some p) (some q) rest k o h = elim (Bool-cases (ltb to q.t0)) [
  | inl past ↦ rw past tt
  | inr within ↦ elim (Bool-cases (ltb from q.t0)) [
    | inl here ↦
        rw (within, here)
          (record {
            after = ltb→lt from q.t0 here;
            by = ground arith;
            left_first = o p q refl refl;
            elsewhere = k;
          })
    | inr before ↦ rw (within, before) h
  ]
]

hop_among-HopOk :
    (points : List Point) (from to : ℕ) (jumps : List Jump)
    → IsOrdered points
    → HopOk from to (hop_among points from to jumps)
unfolding hop_among
hop_among-HopOk points from to [] ordered = tt
hop_among-HopOk points from to (j ∷ jumps) ordered = elim (Bool-cases (is_next_room j.kind)) [
  | inl room ↦ rw room (hop_among-HopOk points from to jumps ordered)
  | inr other ↦ rw other (
      hop_step-HopOk from to j.kind (get_elem? points j.from) (get_elem? points (suc j.from))
        (hop_among points from to jumps) other
        (λ a b e f.
          IsOrdered-lt points j.from (suc j.from) {p = a} {q = b} ordered (omega arith) e f)
        (hop_among-HopOk points from to jumps ordered))
]

-- On a trail in the order of time `nextHop` only ever gives a hop that lands in the span asked
-- about, that the player left for no later than they landed, and that is no step to a next room.
pub next_hop-HopOk :
    (model : TrailModel) (from to : ℕ)
    → IsOrdered model.points
    → HopOk from to (next_hop model from to)
unfolding next_hop
next_hop-HopOk model from to ordered = hop_among-HopOk model.points from to model.jumps ordered
