-- ===== src/TrailLayer/Renewed.antt =====
-- That working out marks anew keeps the layer fresh.
use Prim.Native.String.{String}
use ha_osrs_map.Base.{
  ℕ, ◌+◌, ◌≡◌, refl, subst, arith, false, List, Option, none, some, nat_beq, string_eq,
}
use ha_osrs_map.Base.Dict.{get}
use ha_osrs_map.Trail.Model.{TrailModel}
use ha_osrs_map.Trail.Marks.{MemberEvent, PlacedMark, place_marks}
use ha_osrs_map.TrailLayer.{KeptMarks, KeptShown, Trail, TrailLayer}
use ha_osrs_map.TrailLayer.Marks.{marks_kept}
use ha_osrs_map.TrailLayer.Fresh.{
  Filter, IsKept, IsShown, IsFreshTrail, IsFresh, events_on, put-Fresh,
}

-- More numbers given out.
more-IsShown :
    (numbers version : ℕ) (passes : Filter) (marks : Option KeptMarks) (shown : Option KeptShown)
    → IsShown numbers version passes marks shown
    → IsShown (numbers + 1) version passes marks shown
more-IsShown numbers version passes marks none h = tt
more-IsShown numbers version passes marks (some shown) h = (omega (arith, h.0), h.1, h.2)

more-IsKept :
    (numbers : ℕ) (events : List MemberEvent) (name : String) (model : TrailModel)
    (marks : Option KeptMarks)
    → IsKept numbers events name model marks
    → IsKept (numbers + 1) events name model marks
more-IsKept numbers events name model none h = tt
more-IsKept numbers events name model (some kept) h = (h.0, omega (arith, h.1))

more-IsFreshTrail :
    (numbers version : ℕ) (passes : Filter) (events : List MemberEvent) (name : String)
    (trail : Option Trail)
    → IsFreshTrail numbers version passes events name trail
    → IsFreshTrail (numbers + 1) version passes events name trail
more-IsFreshTrail numbers version passes events name none h = tt
more-IsFreshTrail numbers version passes events name (some trail) h = (
  more-IsKept numbers events name trail.model trail.marks h.0,
  more-IsShown numbers version passes trail.marks trail.shown h.1,
)

-- Marks with a new number match nothing that is kept.
new-IsShown :
    (numbers version : ℕ) (passes : Filter) (list : List PlacedMark) (before : Option KeptMarks)
    (shown : Option KeptShown)
    → IsShown numbers version passes before shown
    → IsShown (numbers + 1) version passes (some (record { number = numbers; marks = list })) shown
new-IsShown numbers version passes list before none h = tt
new-IsShown numbers version passes list before (some shown) h =
    let other : nat_beq shown.of numbers ≡ false = ground (arith, h.0) in
    (omega (arith, h.0), h.1, rw other)

-- What `marksOn` gives: a fresh layer, the marks of the model, and what it keeps with them.
pub marks_kept-Fresh :
    (name : String) (trail : Trail) (marks : Option KeptMarks) (l : TrailLayer)
    → trail.marks ≡ marks
    → IsFreshTrail l.numbers l.event_filter_version l.event_filter
        (events_on name l)
        name
        (some trail)
    → IsFresh l
    → let r = marks_kept name trail marks l in
      IsFresh r.0
      × IsFreshTrail r.0.numbers r.0.event_filter_version r.0.event_filter
          (events_on name r.0)
          name
          (some r.1)
      × (r.1.marks ≡ some r.2)
      × (r.2.marks ≡ place_marks (events_on name l) name trail.model)
      × (r.0.event_filter ≡ l.event_filter)
marks_kept-Fresh name trail (some kept) l e one h =
    let there = subst (IsKept l.numbers (events_on name l) name trail.model) e one.0 in
    (
      h,
      (
        there,
        subst
            (λ (m : Option KeptMarks).
              IsShown l.numbers l.event_filter_version l.event_filter m trail.shown)
            e one.1,
      ),
      refl,
      there.0,
      refl,
    )
marks_kept-Fresh name trail none l e one h =
    let new : IsFreshTrail (l.numbers + 1) l.event_filter_version l.event_filter (events_on name l)
        name (some (marks_kept name trail none l).1) =
      (
        (refl, omega arith),
        new-IsShown l.numbers l.event_filter_version l.event_filter _ trail.marks trail.shown one.1,
      ) in
    (
      put-Fresh (l.numbers + 1) l.event_filter_version l.event_filter l.events l.trails name _ new
          (λ other.
            more-IsFreshTrail l.numbers l.event_filter_version l.event_filter (events_on other l)
              other (get other l.trails) (h other)),
      new,
      refl,
      refl,
      refl,
    )
