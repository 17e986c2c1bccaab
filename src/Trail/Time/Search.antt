-- ===== src/Trail/Time/Search.antt =====
-- `indexAt` finds the last point reached.
use ha_osrs_map.Base.{
  ℕ, zero, suc, ◌+◌, ◌-◌, ◌/◌, ◌≤◌, ◌<◌, ◌≡◌, refl, inl, inr, Bool, true, false, Option, none, some,
  List, arith, length, get_elem?, get_elem?-some, lt-length_of_get_elem?, if◌then◌else◌, Bool-cases,
  lt→ltb, le→ltb_false,
}
use native.Mathlib.Decide.{dec_lt}
use ha_osrs_map.Trail.Point.{Point}
use ha_osrs_map.Trail.Time.{reached, search, index_at}
use ha_osrs_map.Trail.Time.Order.{IsOrdered, IsOrdered-lt, stay-IsOrdered}

-- What a correct answer is: everything up to it has begun at `t`, and nothing behind it.
abbrev pub IsLastReached : List Point → ℕ → Option ℕ → Type 0
IsLastReached points t none = (j : ℕ) (q : Point) → get_elem? points j ≡ some q → t < q.t0
IsLastReached points t (some i) =
    (p : Point) × (get_elem? points i ≡ some p)
    × (p.t0 ≤ t)
    × ((j : ℕ) (q : Point) → i < j → get_elem? points j ≡ some q → t < q.t0)

module _ (points : List Point) (t : ℕ) (ordered : IsOrdered points) where
  missed_after :
      (i j : ℕ) {q : Point}
      → i ≤ j
      → i < length points
      → reached points t i ≡ false
      → get_elem? points j ≡ some q
      → t < q.t0
  missed_after i j {q} le lt h e = elim (dec_lt i j) [
    | yes s ↦
        let (p, f) = get_elem?-some points i lt in
        ground (
          arith,
          stay-IsOrdered points i {p = p} ordered f,
          IsOrdered-lt points i j {p = p} {q = q} ordered s f e,
        )
    | no s ↦ let k : i ≡ j = omega arith in ground arith
  ]

  abbrev IsBelow : ℕ → Option ℕ → Type 0
  IsBelow low none = low ≡ 0
  IsBelow low (some i) = (suc i ≡ low) × (reached points t i ≡ true)

  -- What the loop keeps: `found` is the last point below `low`, which has been reached; from
  -- `end` on none has.
  record Inv (low end : ℕ) (found : Option ℕ) : Type 0 where
    fits : end ≤ length points
    crossed : low ≤ end
    answer : IsBelow low found
    ahead : (j : ℕ) (q : Point) → end ≤ j → get_elem? points j ≡ some q → t < q.t0

  abbrev middle_of : ℕ → ℕ → ℕ
  middle_of low end = (low + end - 1) / 2

  hit-Inv :
      (low end : ℕ) (found : Option ℕ)
      → low < end
      → reached points t (middle_of low end) ≡ true
      → Inv low end found
      → Inv (middle_of low end + 1) end (some (middle_of low end))
  hit-Inv low end found lt h v = record {
    fits = v.fits;
    crossed = omega arith;
    answer = (omega arith, h);
    ahead = v.ahead;
  }

  miss-Inv :
      (low end : ℕ) (found : Option ℕ)
      → low < end
      → reached points t (middle_of low end) ≡ false
      → Inv low end found
      → Inv low (middle_of low end) found
  miss-Inv low end found lt h v =
      let fits = v.fits in
      record {
        fits = omega arith;
        crossed = omega arith;
        answer = v.answer;
        ahead = λ j q le. missed_after (middle_of low end) j {q = q} le (omega arith) h;
      }

  search_step :
      (fuel low end : ℕ) (found : Option ℕ) (hit : Bool)
      → low < end
      → reached points t (middle_of low end) ≡ hit
      → search points t (suc fuel) low end found
        ≡ search points t fuel
            (if hit then middle_of low end + 1 else low)
            (if hit then end else middle_of low end)
            (if hit then some (middle_of low end) else found)
  unfolding search
  search_step fuel low end found hit lt h = rw (h, lt→ltb low end lt)

  search_stop :
      (fuel low end : ℕ) (found : Option ℕ) → end ≤ low → search points t fuel low end found ≡ found
  unfolding search
  search_stop zero low end found le = refl
  search_stop (suc fuel) low end found le = rw (le→ltb_false low end le)

  reached→le :
      (i : ℕ) {p : Point} → get_elem? points i ≡ some p → reached points t i ≡ true → p.t0 ≤ t
  reached→le i {p} e h = ground arith

  stop-IsLastReached :
      (low : ℕ) (found : Option ℕ) → Inv low low found → IsLastReached points t found
  stop-IsLastReached low none v = λ j q e. v.ahead j q (let a = v.answer in omega arith) e
  stop-IsLastReached low (some i) v =
      let (p, e) =
        get_elem?-some points i (let (a, b) = v.answer in let f = v.fits in omega arith) in
      (
        p,
        e,
        reached→le i {p = p} e v.answer.1,
        λ j q lt f. v.ahead j q (let (a, b) = v.answer in omega arith) f,
      )

  search_lem :
      (fuel low end : ℕ) (found : Option ℕ)
      → end - low < fuel
      → Inv low end found
      → IsLastReached points t (search points t fuel low end found)
  search_lem zero low end found m v = absurd (omega arith)
  search_lem (suc fuel) low end found m v = elim (dec_lt low end) [
    | yes lt ↦ elim (Bool-cases (reached points t (middle_of low end))) [
      | inl h ↦ rw (search_step fuel low end found true lt h) (
          search_lem fuel (middle_of low end + 1) end (some (middle_of low end)) (omega arith)
            (hit-Inv low end found lt h v))
      | inr h ↦ rw (search_step fuel low end found false lt h) (
          search_lem fuel low (middle_of low end) found (omega arith)
            (miss-Inv low end found lt h v))
    ]
    | no ge ↦
        let c = v.crossed in
        let e : end ≡ low = omega arith in
        rw (search_stop (suc fuel) low end found (omega arith))
          (stop-IsLastReached low found (rw e at v))
  ]

  -- On a trail in the order of time `indexAt` gives the last point that begins by `t`: that point
  -- has begun and every later one has not; it gives none exactly where all points are still ahead.
  pub index_at-IsLastReached : IsLastReached points t (index_at points t)
  unfolding index_at
  index_at-IsLastReached =
      search_lem (length points + 1) 0 (length points) none (omega arith) (record {
        fits = omega arith;
        crossed = omega arith;
        answer = refl;
        ahead =
            λ j q le e. absurd (let lt = lt-length_of_get_elem? points j {x = q} e in omega arith);
      })
