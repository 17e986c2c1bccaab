-- ===== src/TrailLayer/FirstMark.antt =====
-- That the binary search for the first mark at or after a time finds it.
use Prim.Native.String.{String}
use ha_osrs_map.Base.{
  ℕ, zero, suc, ◌+◌, ◌/◌, ◌≡◌, ◌≤◌, ◌<◌, refl, ap, ◌∙◌, arith, Bool, true, false, List, [], ◌∷◌,
  ltb, leb, length, get_elem?, find_first, Bool-cases, inl, inr, ltb→lt, get_elem?-some,
  All-get_elem?,
}
use ha_osrs_map.Base.Sorting.{IsSorted, sort-IsSorted}
use ha_osrs_map.Trail.Marks.{PlacedMark, MemberEvent, earlier_mark, place_marks, mark_events}
use ha_osrs_map.Trail.Model.{TrailModel}
use ha_osrs_map.TrailLayer.Timeline.{mark_is_from, is_from, search_marks, first_mark}

abbrev is_at_or_after : ℕ → PlacedMark → Bool
is_at_or_after t mark = leb t mark.t

-- Where the marks at or after a time begin.
abbrev IsBoundary : List PlacedMark → ℕ → ℕ → Type 0
IsBoundary marks t r =
    ((i : ℕ) → i < r → is_from marks t i ≡ false)
    × ((i : ℕ) → r ≤ i → i < length marks → is_from marks t i ≡ true)

is_from_mono :
    (marks : List PlacedMark) (t i j : ℕ)
    → IsSorted earlier_mark marks
    → i ≤ j
    → j < length marks
    → is_from marks t i ≡ true
    → is_from marks t j ≡ true
is_from_mono [] t i j s le lt h = absurd (omega (arith, lt))
is_from_mono (mark ∷ marks) t zero zero s le lt h = h
is_from_mono (mark ∷ marks) t zero (suc j) s le lt h =
    let found = get_elem?-some marks j (omega (arith, lt)) in
    let later : earlier_mark mark found.0 ≡ true =
      All-get_elem? (λ other. earlier_mark mark other ≡ true) marks j s.0 found.1 in
    let reached : leb t found.0.t ≡ true = ground (arith, h, later) in
    ap (mark_is_from t) found.1 ∙ reached
is_from_mono (mark ∷ marks) t (suc i) zero s le lt h = absurd (omega (arith, le))
is_from_mono (mark ∷ marks) t (suc i) (suc j) s le lt h =
    is_from_mono marks t i j s.1 (omega (arith, le)) (omega (arith, lt)) h

middle_between : (low high : ℕ) → low < high → (low ≤ (low + high) / 2) × ((low + high) / 2 < high)
middle_between low high lt = (omega (arith, lt), omega (arith, lt))

still_before :
    (marks : List PlacedMark) (t i j : ℕ)
    → IsSorted earlier_mark marks
    → i ≤ j
    → j < length marks
    → is_from marks t j ≡ false
    → is_from marks t i ≡ false
still_before marks t i j s le lt miss = elim (Bool-cases (is_from marks t i)) [
  | inr f ↦ f
  | inl hit ↦ let again = is_from_mono marks t i j s le lt hit in cc
]

search_marks-IsBoundary :
    (marks : List PlacedMark) (t fuel low high : ℕ)
    → IsSorted earlier_mark marks
    → high < low + fuel
    → low ≤ high
    → high ≤ length marks
    → ((i : ℕ) → i < low → is_from marks t i ≡ false)
    → ((i : ℕ) → high ≤ i → i < length marks → is_from marks t i ≡ true)
    → IsBoundary marks t (search_marks marks t fuel low high)
unfolding search_marks
search_marks-IsBoundary marks t zero low high s f le top before after =
    absurd (omega (arith, f, le))
search_marks-IsBoundary marks t (suc fuel) low high s f le top before after =
    elim (Bool-cases (ltb low high)) [
      | inr met ↦
          let same : low ≡ high = ground (arith, met, le) in
          rw met (before, λ i l. after i (omega (arith, same, l)))
      | inl apart ↦
          let m = middle_between low high (ltb→lt low high apart) in
          let middle = (low + high) / 2 in
          rw apart elim (Bool-cases (is_from marks t middle)) [
            | inl hit ↦ rw hit (
                search_marks-IsBoundary marks t fuel low middle s (omega (arith, f, m.1)) m.0
                  (omega (arith, m.1, top)) before
                  (λ i l lt. is_from_mono marks t middle i s l lt hit))
            | inr miss ↦ rw miss (
                search_marks-IsBoundary marks t fuel (middle + 1) high s (omega (arith, f, m.0))
                  (omega (arith, m.1)) top
                  (λ (i : ℕ) (l : i < middle + 1).
                    still_before marks t i middle s (omega (arith, l)) (omega (arith, m.1, top))
                      miss)
                  after)
          ]
    ]

find_first-IsBoundary :
    (marks : List PlacedMark) (t r : ℕ)
    → r ≤ length marks
    → IsBoundary marks t r
    → get_elem? marks r ≡ find_first (is_at_or_after t) marks
find_first-IsBoundary [] t r le h = refl
find_first-IsBoundary (mark ∷ marks) t zero le h =
    let first : leb t mark.t ≡ true = h.1 0 (omega arith) (omega arith) in rw first
find_first-IsBoundary (mark ∷ marks) t (suc r) le h =
    let passed : leb t mark.t ≡ false = h.0 0 (omega arith) in
    rw passed (
      find_first-IsBoundary marks t r (omega (arith, le)) (
        λ (i : ℕ) (l : i < r). h.0 (suc i) (omega (arith, l)),
        λ (i : ℕ) (l : r ≤ i) (lt : i < length marks).
            h.1 (suc i) (omega (arith, l)) (omega (arith, lt)),
      ))

search_marks-le :
    (marks : List PlacedMark) (t fuel low high : ℕ)
    → low ≤ high
    → search_marks marks t fuel low high ≤ high
unfolding search_marks
search_marks-le marks t zero low high le = le
search_marks-le marks t (suc fuel) low high le = elim (Bool-cases (ltb low high)) [
  | inr met ↦ rw met le
  | inl apart ↦
      let m = middle_between low high (ltb→lt low high apart) in
      elim (Bool-cases (is_from marks t ((low + high) / 2))) [
        | inl hit ↦
            rw (apart, hit)
              (omega (arith, search_marks-le marks t fuel low ((low + high) / 2) m.0, m.1))
        | inr miss ↦
            rw (apart, miss)
              (search_marks-le marks t fuel ((low + high) / 2 + 1) high (omega (arith, m.1)))
      ]
]

-- The binary search for the mark that a replay comes to next finds what a look at one mark after
-- another would: of marks in the order of time, the first at or after a time, or none where all are
-- before it.
pub first_mark-IsFirst :
    (marks : List PlacedMark) (t : ℕ)
    → IsSorted earlier_mark marks
    → first_mark marks t ≡ find_first (λ mark. leb t mark.t) marks
unfolding first_mark
first_mark-IsFirst marks t s =
    find_first-IsBoundary marks t _
      (search_marks-le marks t (length marks + 1) 0 (length marks) (omega arith))
      (search_marks-IsBoundary marks t (length marks + 1) 0 (length marks) s (omega arith)
        (omega arith) (omega arith) (λ (i : ℕ) (l : i < 0). absurd (omega (arith, l)))
        (λ (i : ℕ) (l : length marks ≤ i) (lt : i < length marks). absurd (omega (arith, l, lt))))

-- The marks of a trail are in the order of time.
pub place_marks-IsSorted :
    (events : List MemberEvent) (member : String) (model : TrailModel)
    → IsSorted earlier_mark (place_marks events member model)
unfolding place_marks
place_marks-IsSorted events member model =
    sort-IsSorted earlier_mark
      (λ (a b : PlacedMark) (h : earlier_mark a b ≡ false). ground (arith, h))
      (λ (a b c : PlacedMark) (h : earlier_mark a b ≡ true) (k : earlier_mark b c ≡ true).
        ground (arith, h, k))
      (mark_events member model events)
