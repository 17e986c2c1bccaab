-- ===== src/Trail/Live/Observe.antt =====
-- What noting a sighting promises (`observeLive`).
use ha_osrs_map.Base.{
  ℕ, zero, suc, ◌+◌, ◌-◌, ◌≤◌, ◌<◌, max, ◌≡◌, refl, ◌∙◌, inl, inr, Bool, true, ◌&&◌, not, Option,
  none, some, List, [], ◌∷◌, arith, last?, length, drop, length-drop, Bool-cases, ltb,
}
use ha_osrs_map.Trail.Point.{Point}
use ha_osrs_map.Trail.Time.Order.{IsOrdered}
use ha_osrs_map.Trail.Live.{
  Sighting, live_point, same_place, drop_old, trim, note_sighting, observe_live, stay_until,
}
use ha_osrs_map.Trail.Live.Ends.{
  last?-append, last?-map_last, stay_until-IsOrdered, append-IsOrdered, drop-IsOrdered,
  same_place_self, same_place-times, lt-length_of_last?,
}

note_sighting-IsOrdered :
    (buffer : List Point) (last : Option Point) (s : Sighting) (now : ℕ) (fresh : Bool)
    → last? buffer ≡ last
    → IsOrdered buffer
    → IsOrdered (note_sighting buffer last s now fresh).0
unfolding note_sighting
note_sighting-IsOrdered buffer none s now fresh e o =
    append-IsOrdered buffer (live_point s now) o (λ l f. cc) (omega arith)
note_sighting-IsOrdered buffer (some last) s now fresh e o =
    elim (Bool-cases (not fresh && same_place last (live_point s now))) [
      | inl stay ↦ rw stay (stay_until-IsOrdered now buffer o)
      | inr new ↦ rw new (
          append-IsOrdered buffer (live_point s (max now last.t1)) o (λ l f. ground arith)
            (omega arith))
    ]

drop_old-IsOrdered :
    (now max_age : ℕ) (points : List Point)
    → IsOrdered points
    → IsOrdered (drop_old now max_age points)
unfolding drop_old
drop_old-IsOrdered now max_age [] o = tt
drop_old-IsOrdered now max_age (p ∷ []) o = o
drop_old-IsOrdered now max_age (p ∷ q ∷ points) o = elim (Bool-cases (ltb (p.t1 + max_age) now)) [
  | inl old ↦ rw old (drop_old-IsOrdered now max_age (q ∷ points) o.2)
  | inr young ↦ rw young o
]

length-drop_old-le :
    (now max_age : ℕ) (points : List Point) → length (drop_old now max_age points) ≤ length points
unfolding drop_old
length-drop_old-le now max_age [] = omega arith
length-drop_old-le now max_age (p ∷ []) = omega arith
length-drop_old-le now max_age (p ∷ q ∷ points) =
    ground (arith, length-drop_old-le now max_age (q ∷ points))

last?-drop_old :
    (now max_age : ℕ) (points : List Point) → last? (drop_old now max_age points) ≡ last? points
unfolding drop_old
last?-drop_old now max_age [] = refl
last?-drop_old now max_age (p ∷ []) = refl
last?-drop_old now max_age (p ∷ q ∷ points) =
    ground (arith, last?-drop_old now max_age (q ∷ points))

last?-drop :
    (n : ℕ) (points : List Point) → n < length points → last? (drop n points) ≡ last? points
last?-drop zero points lt = refl
last?-drop (suc n) [] lt = absurd (omega arith)
last?-drop (suc n) (p ∷ []) lt = absurd (omega arith)
last?-drop (suc n) (p ∷ q ∷ points) lt = last?-drop n (q ∷ points) (omega arith)

note_sighting-last :
    (buffer : List Point) (last : Option Point) (s : Sighting) (now : ℕ) (fresh : Bool)
    → last? buffer ≡ last
    → (q : Point) × (last? (note_sighting buffer last s now fresh).0 ≡ some q)
      × (same_place q (live_point s now) ≡ true)
      × (now ≤ q.t1)
unfolding note_sighting
note_sighting-last buffer none s now fresh e = (
  live_point s now,
  last?-append buffer (live_point s now),
  same_place_self (live_point s now),
  omega arith,
)
note_sighting-last buffer (some l) s now fresh e =
    elim (Bool-cases (not fresh && same_place l (live_point s now))) [
      | inl stay ↦ rw stay (
        stay_until now l,
        last?-map_last (stay_until now) buffer {x = l} e,
        same_place-times l (live_point s now) l.t0 (max l.t1 now) ∙ ground arith,
        omega arith,
      )
      | inr new ↦
          let t : ℕ = max now l.t1 in
          rw new (
            live_point s t,
            last?-append buffer (live_point s t),
            same_place-times (live_point s now) (live_point s now) t t
                ∙ same_place_self (live_point s now),
            omega arith,
          )
    ]

-- What a buffer of live points is after a sighting: in the order of time, within its bound, and
-- ending where the player was seen, at a time that is no earlier.
pub record IsNoted (s : Sighting) (now max_points : ℕ) (buffer : List Point) : Type 0 where
  pub ordered : IsOrdered buffer
  pub bounded : length buffer ≤ max_points
  pub ends :
      (q : Point) × (last? buffer ≡ some q)
      × (same_place q (live_point s now) ≡ true)
      × (now ≤ q.t1)

-- Noting a sighting in a buffer in the order of time keeps the order and the bound on its length,
-- whatever the clock says, and the buffer then ends where the player was seen, no earlier than now.
pub observe_live-IsNoted :
    (buffer : List Point) (s : Sighting) (now max_points max_age : ℕ) (fresh : Bool)
    → IsOrdered buffer
    → 0 < max_points
    → IsNoted s now max_points (observe_live buffer s now max_points max_age fresh).0
unfolding observe_live trim
observe_live-IsNoted buffer s now max_points max_age fresh o pos =
    let (q, e, here, late) = note_sighting-last buffer (last? buffer) s now fresh refl in
    let noted : List Point = (note_sighting buffer (last? buffer) s now fresh).0 in
    let n : ℕ = length noted - max_points in
    let some_left = lt-length_of_last? noted {x = q} e in
    record {
      ordered = drop_old-IsOrdered now max_age (drop n noted) (
          drop-IsOrdered n noted
            (note_sighting-IsOrdered buffer (last? buffer) s now fresh refl o));
      bounded = omega (arith, length-drop_old-le now max_age (drop n noted), length-drop n noted);
      ends = (
        q,
        last?-drop_old now max_age (drop n noted) ∙ last?-drop n noted (omega arith) ∙ e,
        here,
        late,
      );
    }
