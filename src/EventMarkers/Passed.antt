-- ===== src/EventMarkers/Passed.antt =====
-- What a replay passes.
use ha_osrs_map.Base.{
  ℕ, ◌+◌, ◌≤◌, ◌≡◌, refl, arith, Bool, true, List, [], ◌∷◌, ◌++◌, leb, length, keep_if, All,
  All-append, length-append, Bool-cases, inl, inr, ap,
}
use ha_osrs_map.Base.Dict.{values}
use ha_osrs_map.Base.Sorting.{IsSorted, sort-IsSorted, All-sort, length-keep_if-sort}
use ha_osrs_map.EventView.{EventFilters}
use ha_osrs_map.EventMarkers.{is_passed, passed_marks, trail_marks_between}
use ha_osrs_map.EventMarkers.Kept.{EventMarkers, TrailMark}

module _ {ℓ} {A : Type ℓ} where
  keep_if-append :
      (p : A → Bool) (xs ys : List A) → keep_if p (xs ++ ys) ≡ keep_if p xs ++ keep_if p ys
  keep_if-append p [] ys = refl
  keep_if-append p (x ∷ xs) ys = elim (Bool-cases (p x)) [
    | inl kept ↦ rw kept (ap (◌∷◌ x) (keep_if-append p xs ys))
    | inr dropped ↦ rw dropped (keep_if-append p xs ys)
  ]

  -- How many elements a test lets through.
  abbrev pub count : (A → Bool) → List A → ℕ
  count p xs = length (keep_if p xs)

  count-append : (p : A → Bool) (xs ys : List A) → count p (xs ++ ys) ≡ count p xs + count p ys
  count-append p xs ys = rw (keep_if-append p xs ys) (length-append (keep_if p xs) (keep_if p ys))

module _ {ℓ κ ν} {EventId : Type ℓ} {Color : Type κ} {Name : Type ν} (filters : EventFilters)
    (test : TrailMark EventId Color Name → Bool) (from middle to : ℕ) (h : from ≤ middle)
    (h' : middle ≤ to) where
  count-split :
      (marks : List (TrailMark EventId Color Name))
      → count test (keep_if (is_passed from to filters) marks)
        ≡ count test (keep_if (is_passed from middle filters) marks)
          + count test (keep_if (is_passed middle to filters) marks)
  count-split [] = omega arith
  count-split (mark ∷ marks) = ground (arith, count-split marks)

  count-passed :
      (trails : List (List (TrailMark EventId Color Name)))
      → count test (passed_marks from to filters trails)
        ≡ count test (passed_marks from middle filters trails)
          + count test (passed_marks middle to filters trails)
  count-passed [] = omega arith
  count-passed (marks ∷ trails) = omega (
    arith,
    count-append test (keep_if (is_passed from to filters) marks)
        (passed_marks from to filters trails),
    count-append test (keep_if (is_passed from middle filters) marks)
        (passed_marks from middle filters trails),
    count-append test (keep_if (is_passed middle to filters) marks)
        (passed_marks middle to filters trails),
    count-split marks,
    count-passed trails,
  )

  -- A replay that moves on in two steps passes each mark as often as one that moves all the way at
  -- once: no mark is missed and none is passed twice, whichever marks one counts.
  pub trail_marks_between-splits :
      (m : EventMarkers EventId Color Name)
      → count test (trail_marks_between from to filters m)
        ≡ count test (trail_marks_between from middle filters m)
          + count test (trail_marks_between middle to filters m)
  unfolding trail_marks_between
  trail_marks_between-splits m = omega (
    arith,
    length-keep_if-sort (λ a b. leb a.mark.t b.mark.t) test
        (passed_marks from to filters (values m.trails)),
    length-keep_if-sort (λ a b. leb a.mark.t b.mark.t) test
        (passed_marks from middle filters (values m.trails)),
    length-keep_if-sort (λ a b. leb a.mark.t b.mark.t) test
        (passed_marks middle to filters (values m.trails)),
    count-passed (values m.trails),
  )

module _ {ℓ κ ν} {EventId : Type ℓ} {Color : Type κ} {Name : Type ν} where
  passed_on_trail :
      (from to : ℕ) (filters : EventFilters) (marks : List (TrailMark EventId Color Name))
      → All
          (λ mark. is_passed from to filters mark ≡ true)
          (keep_if (is_passed from to filters) marks)
  passed_on_trail from to filters [] = tt
  passed_on_trail from to filters (mark ∷ marks) =
      elim (Bool-cases (is_passed from to filters mark)) [
        | inl kept ↦ rw kept (kept, passed_on_trail from to filters marks)
        | inr dropped ↦ rw dropped (passed_on_trail from to filters marks)
      ]

  passed_marks_lem :
      (from to : ℕ) (filters : EventFilters) (trails : List (List (TrailMark EventId Color Name)))
      → All (λ mark. is_passed from to filters mark ≡ true) (passed_marks from to filters trails)
  passed_marks_lem from to filters [] = tt
  passed_marks_lem from to filters (marks ∷ trails) =
      All-append _ _ _ (passed_on_trail from to filters marks)
        (passed_marks_lem from to filters trails)

  -- What a replay passes comes with the oldest first, and lies after where it was and not after
  -- where it is, on marks that the filters let through.
  pub trail_marks_between-IsSorted :
      (from to : ℕ) (filters : EventFilters) (m : EventMarkers EventId Color Name)
      → IsSorted (λ a b. leb a.mark.t b.mark.t) (trail_marks_between from to filters m)
        × All
            (λ mark. is_passed from to filters mark ≡ true)
            (trail_marks_between from to filters m)
  unfolding trail_marks_between
  trail_marks_between-IsSorted from to filters m = (
    sort-IsSorted _ (λ a b h. ground arith) (λ a b c h h'. ground arith)
        (passed_marks from to filters (values m.trails)),
    All-sort _ _ _ (passed_marks_lem from to filters (values m.trails)),
  )
