-- ===== src/GearTrips/Ordered.antt =====
-- That the trips of a gear history stand newest first and do not overlap.
use ha_osrs_map.Base.{
  ℕ, ◌≡◌, ◌≤◌, refl, sym, subst, Bool, true, false, ◌||◌, ◌&&◌, List, [], ◌∷◌, Option, none, some,
  Bool-cases, inl, inr, arith, nat_beq, length, All, All-map, leb→le,
}
use ha_osrs_map.Base.Sorting.{sort, IsSorted, sort-IsSorted}
use ha_osrs_map.GearTrips.{
  Outfit, Row, Change, OpenTrip, Trip, Walk, wear_each, wear, close, dated_rows, earlier,
  is_after_gap, is_new_outfit, begin_trip, came_along, trip_for, walk_row, walk, close_before,
  gear_trips, open_trip,
}

-- Each trip ends no earlier than it starts, and by the time the one after it starts; the newest of
-- them, which is first, ends by `limit`.
abbrev pub IsBefore : ℕ → List Trip → Type 0
IsBefore limit [] = Unit
IsBefore limit (trip ∷ trips) =
    (trip.started_at ≤ trip.ended_at) × (trip.ended_at ≤ limit) × IsBefore trip.started_at trips

abbrev pub NoOverlap : List Trip → Type 0
NoOverlap [] = Unit
NoOverlap (trip ∷ trips) = (trip.started_at ≤ trip.ended_at) × IsBefore trip.started_at trips

abbrev FitsOpen : ℕ → Option OpenTrip → List Trip → Type 0
FitsOpen limit none trips = IsBefore limit trips
FitsOpen limit (some trip) trips =
    (trip.started_at ≤ trip.ended_at) × (trip.ended_at ≤ limit) × IsBefore trip.started_at trips

abbrev Fits : ℕ → Walk → Type 0
Fits limit w = FitsOpen limit w.trip w.trips

abbrev Dates : Type 0
Dates = ℕ × ℕ

abbrev dates : OpenTrip → Dates
dates trip = (trip.started_at, trip.ended_at)

dates-wear_each :
    (outfit : Outfit) (ms : ℕ) (trip : OpenTrip) → dates (wear_each outfit ms trip) ≡ dates trip
unfolding wear_each
dates-wear_each [] ms trip = refl
dates-wear_each ((slot, (id, quantity)) ∷ outfit) ms trip = dates-wear_each outfit ms _

dates-wear : (trip : OpenTrip) (outfit : Outfit) (ms : ℕ) → dates (wear trip outfit ms) ≡ dates trip
unfolding wear
dates-wear trip [] ms = refl
dates-wear trip (worn ∷ outfit) ms = dates-wear_each (worn ∷ outfit) ms _

dates-begin_trip :
    (previous : Option Row) (row : Row) → dates (begin_trip previous row) ≡ (row.at, row.at)
unfolding begin_trip
dates-begin_trip none row = refl
dates-begin_trip (some previous) row = elim (Bool-cases (came_along previous row)) [
  | inl e ↦ rw e (dates-wear (open_trip row.at) previous.outfit 0)
  | inr e ↦ rw e
]

IsBefore-later :
    (limit later : ℕ) (trips : List Trip)
    → limit ≤ later
    → IsBefore limit trips
    → IsBefore later trips
IsBefore-later limit later [] le h = tt
IsBefore-later limit later (trip ∷ trips) le h = (h.0, omega (arith, h.1), h.2)

FitsOpen-later :
    (limit later : ℕ) (trip : Option OpenTrip) (trips : List Trip)
    → limit ≤ later
    → FitsOpen limit trip trips
    → FitsOpen later trip trips
FitsOpen-later limit later none trips le h = IsBefore-later limit later trips le h
FitsOpen-later limit later (some trip) trips le h = (h.0, omega (arith, h.1, le), h.2)

trip_for-Fits :
    (starts : Bool) (trip : Option OpenTrip) (previous : Option Row) (row : Row) (trips : List Trip)
    (limit : ℕ)
    → limit ≤ row.at
    → FitsOpen limit trip trips
    → let current = trip_for starts trip previous row trips in
      FitsOpen row.at (some current.1) current.0
unfolding trip_for close
trip_for-Fits starts none previous row trips limit le h =
    subst (λ (d : Dates). (d.0 ≤ d.1) × (d.1 ≤ row.at) × IsBefore d.0 trips)
      (sym (dates-begin_trip previous row))
      (omega arith, omega arith, IsBefore-later limit row.at trips le h)
trip_for-Fits true (some trip) previous row trips limit le h =
    subst (λ (d : Dates). (d.0 ≤ d.1) × (d.1 ≤ row.at) × IsBefore d.0 (close trip ∷ trips))
      (sym (dates-begin_trip previous row))
      (omega arith, omega arith, (h.0, omega (arith, h.1, le), h.2))
trip_for-Fits false (some trip) previous row trips limit le h =
    (omega (arith, h.0, h.1, le), omega arith, h.2)

walk_row-Fits :
    (row : Row) (ms limit : ℕ) (w : Walk)
    → limit ≤ row.at
    → Fits limit w
    → Fits row.at (walk_row row ms w)
unfolding walk_row
walk_row-Fits row ms limit w le h =
    let starts = is_after_gap w.previous row || is_new_outfit w.trip row in
    let current = trip_for starts w.trip w.previous row w.trips in
    elim (Bool-cases (is_after_gap w.previous row && nat_beq (length row.outfit) 0)) [
      | inl e ↦ rw e (FitsOpen-later limit row.at w.trip w.trips le h)
      | inr e ↦ rw e (
          subst (λ (d : Dates). (d.0 ≤ d.1) × (d.1 ≤ row.at) × IsBefore d.0 current.0)
            (sym (dates-wear current.1 row.outfit ms))
            (trip_for-Fits starts w.trip w.previous row w.trips limit le h))
    ]

close_before-NoOverlap :
    (limit : ℕ) (trip : Option OpenTrip) (trips : List Trip)
    → FitsOpen limit trip trips
    → NoOverlap (close_before trip trips)
unfolding close
close_before-NoOverlap limit none [] h = tt
close_before-NoOverlap limit none (newest ∷ trips) h = (h.0, h.2)
close_before-NoOverlap limit (some trip) trips h = (h.0, h.2)

walk-Fits :
    (rows : List Row) (now limit : ℕ) (w : Walk)
    → All (λ row. limit ≤ row.at) rows
    → IsSorted earlier rows
    → Fits limit w
    → NoOverlap (close_before (walk rows now w).trip (walk rows now w).trips)
unfolding walk
walk-Fits [] now limit w later sorted h = close_before-NoOverlap limit w.trip w.trips h
walk-Fits (row ∷ rows) now limit w later sorted h =
    walk-Fits rows now row.at _
      (All-map _ rows (λ (next : Row) e. leb→le row.at next.at e) sorted.0) sorted.1
      (walk_row-Fits row _ limit w later.0 h)

All-from_zero : (rows : List Row) → All (λ row. 0 ≤ row.at) rows
All-from_zero [] = tt
All-from_zero (row ∷ rows) = (omega arith, All-from_zero rows)

earlier-total : (a b : Row) → earlier a b ≡ false → earlier b a ≡ true
earlier-total a b h = ground arith

earlier_trans : (a b c : Row) → earlier a b ≡ true → earlier b c ≡ true → earlier a c ≡ true
earlier_trans a b c h k = ground arith

-- The trips of a gear history stand newest first: each starts no later than it ends, and ends no
-- later than the one before it in the list starts.
pub gear_trips-NoOverlap : (changes : List Change) (now : ℕ) → NoOverlap (gear_trips changes now)
unfolding gear_trips
gear_trips-NoOverlap changes now =
    walk-Fits (sort earlier (dated_rows changes)) now 0 _ (All-from_zero _)
      (sort-IsSorted earlier earlier-total earlier_trans (dated_rows changes)) tt
