-- ===== src/Trail/Live/Merge.antt =====
-- What joining the history with the live points promises (`mergeTrail`).
use ha_osrs_map.Base.{
  ℕ, ◌≤◌, ◌<◌, max, ◌≡◌, refl, ◌∙◌, inl, inr, Bool, true, false, ◌&&◌, Option, none, some, List, [],
  ◌∷◌, arith, last?, Bool-cases, All, lt→leb_false,
}
use ha_osrs_map.Trail.Point.{Point}
use ha_osrs_map.Trail.Time.Order.{IsOrdered}
use ha_osrs_map.Trail.Live.{
  same_place, append_point, is_news, clip, add_seen, merge_live, is_behind, merge_head, merge_trail,
  stay_until,
}
use ha_osrs_map.Trail.Live.Ends.{
  last?-append, last?-map_last, stay_until-IsOrdered, append-IsOrdered, same_place_self,
  same_place-times,
}

append_point-IsOrdered :
    (merged : List Point) (last : Option Point) (p : Point) (continues : Bool)
    → last? merged ≡ last
    → IsOrdered merged
    → IsOrdered (append_point merged last p continues)
unfolding append_point
append_point-IsOrdered merged none p continues e o =
    append-IsOrdered merged (record p { t1 = max p.t1 p.t0 }) o (λ l f. cc) (omega arith)
append_point-IsOrdered merged (some last) p continues e o =
    elim (Bool-cases (continues && same_place last p)) [
      | inl stay ↦ rw stay (stay_until-IsOrdered p.t1 merged o)
      | inr new ↦ rw new (
          append-IsOrdered merged
            (record p { t0 = max p.t0 last.t1; t1 = max p.t1 (max p.t0 last.t1) }) o
            (λ l f. ground arith) (omega arith))
    ]

add_seen-IsOrdered :
    (newest : Option Point) (as_of : ℕ) (merged : List Point) (seen : Option Point)
    → IsOrdered merged
    → IsOrdered (add_seen newest as_of merged seen)
unfolding add_seen
add_seen-IsOrdered newest as_of merged none o = o
add_seen-IsOrdered newest as_of merged (some p) o = elim (Bool-cases (is_news newest as_of p)) [
  | inl n ↦ rw n (append_point-IsOrdered merged (last? merged) p _ refl o)
  | inr n ↦ rw n o
]

merge_live-IsOrdered :
    (newest : Option Point) (as_of : ℕ) (from : Option ℕ) (merged live : List Point)
    → IsOrdered merged
    → IsOrdered (merge_live newest as_of from merged live)
unfolding merge_live
merge_live-IsOrdered newest as_of from merged [] o = o
merge_live-IsOrdered newest as_of from merged (p ∷ live) o =
    merge_live-IsOrdered newest as_of from (add_seen newest as_of merged (clip from p)) live
      (add_seen-IsOrdered newest as_of merged (clip from p) o)

merge_head-IsOrdered :
    (newest : Option Point) (as_of : ℕ) (arrived : Option Point) (merged : List Point)
    (head : Option Point)
    → IsOrdered merged
    → IsOrdered (merge_head newest as_of arrived merged head)
unfolding merge_head
merge_head-IsOrdered newest as_of arrived merged none o = o
merge_head-IsOrdered newest as_of arrived merged (some m) o =
    elim (Bool-cases (is_behind newest as_of arrived m)) [
      | inl b ↦ rw b o
      | inr b ↦ rw b (append_point-IsOrdered merged (last? merged) m true refl o)
    ]

-- A history in the order of time stays so with whatever was seen live, at whatever times, and with
-- the marker joined to it.
pub merge_trail-IsOrdered :
    (history live : List Point) (head : Option Point) (as_of : ℕ) (from : Option ℕ)
    → IsOrdered history
    → IsOrdered (merge_trail history live head as_of from)
unfolding merge_trail
merge_trail-IsOrdered history live head as_of from o =
    merge_head-IsOrdered (last? history) as_of (last? live)
      (merge_live (last? history) as_of from history live) head
      (merge_live-IsOrdered (last? history) as_of from history live o)

append_point-last :
    (merged : List Point) (last : Option Point) (p : Point)
    → last? merged ≡ last
    → (q : Point) × (last? (append_point merged last p true) ≡ some q)
      × (same_place q p ≡ true)
      × (p.t1 ≤ q.t1)
unfolding append_point
append_point-last merged none p e =
    let q : Point = record p { t1 = max p.t1 p.t0 } in
    (
      q,
      last?-append merged q,
      same_place-times p p p.t0 (max p.t1 p.t0) ∙ same_place_self p,
      omega arith,
    )
append_point-last merged (some l) p e = elim (Bool-cases (same_place l p)) [
  | inl stay ↦ rw stay (
    stay_until p.t1 l,
    last?-map_last (stay_until p.t1) merged {x = l} e,
    same_place-times l p l.t0 (max l.t1 p.t1) ∙ stay,
    omega arith,
  )
  | inr new ↦
      let t0 : ℕ = max p.t0 l.t1 in
      let q : Point = record p { t0 = t0; t1 = max p.t1 t0 } in
      rw new (
        q,
        last?-append merged q,
        same_place-times p p t0 (max p.t1 t0) ∙ same_place_self p,
        omega arith,
      )
]

-- A trail with a marker ends where the marker is and no earlier than its time, unless the marker
-- is behind the history.
pub merge_trail-head :
    (history live : List Point) (marker : Point) (as_of : ℕ) (from : Option ℕ)
    → is_behind (last? history) as_of (last? live) marker ≡ false
    → (q : Point) × (last? (merge_trail history live (some marker) as_of from) ≡ some q)
      × (same_place q marker ≡ true)
      × (marker.t1 ≤ q.t1)
unfolding merge_trail merge_head
merge_trail-head history live marker as_of from b = rw b (
    append_point-last (merge_live (last? history) as_of from history live)
      (last? (merge_live (last? history) as_of from history live)) marker refl)

-- Everything was seen before the hub gave the history.
abbrev pub AllSeenBefore : ℕ → List Point → Type 0
AllSeenBefore as_of = All (λ p. p.t0 < as_of)

add_seen-old :
    (newest : Point) (as_of : ℕ) (from : Option ℕ) (merged : List Point) (p : Point)
    → p.t0 < as_of
    → ((f : ℕ) → from ≡ some f → f < as_of)
    → add_seen (some newest) as_of merged (clip from p) ≡ merged
unfolding add_seen clip is_news
add_seen-old newest as_of none merged p lt before = rw (lt→leb_false p.t0 as_of lt)
add_seen-old newest as_of (some f) merged p lt before =
    let h = before f refl in ground (arith, lt→leb_false p.t0 as_of lt, lt→leb_false f as_of h)

merge_live-old :
    (newest : Point) (as_of : ℕ) (from : Option ℕ) (merged live : List Point)
    → AllSeenBefore as_of live
    → ((f : ℕ) → from ≡ some f → f < as_of)
    → merge_live (some newest) as_of from merged live ≡ merged
unfolding merge_live
merge_live-old newest as_of from merged [] seen before = refl
merge_live-old newest as_of from merged (p ∷ live) seen before =
    rw (add_seen-old newest as_of from merged p seen.0 before)
      (merge_live-old newest as_of from merged live seen.1 before)

-- To a history with a point, nothing is added that was seen before the hub gave it, as long as
-- the span did not begin later than that.
pub merge_trail-old :
    (history live : List Point) (newest : Point) (as_of : ℕ) (from : Option ℕ)
    → last? history ≡ some newest
    → AllSeenBefore as_of live
    → ((f : ℕ) → from ≡ some f → f < as_of)
    → merge_trail history live none as_of from ≡ history
unfolding merge_trail merge_head
merge_trail-old history live newest as_of from e seen before =
    rw e (merge_live-old newest as_of from history live seen before)
