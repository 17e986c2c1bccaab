-- ===== src/TrailLayer/Fresh.antt =====
-- That the marks that are kept are those that would be worked out again.
use Prim.Native.String.{String}
use ha_osrs_map.Base.{
  ℕ, ◌+◌, ◌≡◌, ◌≤◌, ◌<◌, ap, sym, subst, ◌∙◌, arith, Bool, true, false, ◌&&◌, List, Option, none,
  some, if◌then◌else◌, nat_beq, keep_if, Bool-cases, inl, inr, string_eq,
}
use ha_osrs_map.Base.Dict.{Dict, get, put, get-put, get-delete}
use ha_osrs_map.EventView.{HubEvent}
use ha_osrs_map.Trail.Model.{TrailModel}
use ha_osrs_map.Trail.Live.{RawTrail, Sighting}
use ha_osrs_map.Trail.Marks.{MemberEvent, PlacedMark, place_marks}
use ha_osrs_map.TrailLayer.{
  KeptMarks, KeptShown, Trail, Seen, TrailLayer, TrailOptions, rebuild_found, rebuild, set_history,
  remove, observe, set_event_filter, unmarked, rebuild_if, seen_or_new, note,
}
use ha_osrs_map.TrailLayer.Marks.{events_of}

abbrev pub Filter : Type 0
Filter = Option (HubEvent String → Bool)

abbrev pub let_through : Filter → List PlacedMark → List PlacedMark
let_through none marks = marks
let_through (some passes) marks = keep_if (λ (mark : PlacedMark). passes mark.event) marks

abbrev pub IsKept : ℕ → List MemberEvent → String → TrailModel → Option KeptMarks → Type 0
IsKept numbers events name model none = Unit
IsKept numbers events name model (some kept) =
    (kept.marks ≡ place_marks events name model) × (kept.number < numbers)

abbrev pub Matches : ℕ → Filter → KeptShown → Option KeptMarks → Type 0
Matches version passes shown none = Unit
Matches version passes shown (some kept) =
    let all = let_through passes kept.marks in
    (if nat_beq shown.of kept.number && nat_beq shown.version version then shown.marks else all)
    ≡ all

abbrev pub IsShown : ℕ → ℕ → Filter → Option KeptMarks → Option KeptShown → Type 0
IsShown numbers version passes marks none = Unit
IsShown numbers version passes marks (some shown) =
    (shown.of < numbers) × (shown.version ≤ version) × Matches version passes shown marks

abbrev pub IsFreshTrail : ℕ → ℕ → Filter → List MemberEvent → String → Option Trail → Type 0
IsFreshTrail numbers version passes events name none = Unit
IsFreshTrail numbers version passes events name (some trail) =
    IsKept numbers events name trail.model trail.marks
    × IsShown numbers version passes trail.marks trail.shown

abbrev pub FreshIn : ℕ → ℕ → Filter → Dict String (List MemberEvent) → Dict String Trail → Type 0
FreshIn numbers version passes events trails =
    (name : String)
    → IsFreshTrail numbers version passes (events_of (get name events)) name (get name trails)

-- What each trail keeps is of its model, its events and the filter as they are.
abbrev pub IsFresh : TrailLayer → Type 0
IsFresh l = FreshIn l.numbers l.event_filter_version l.event_filter l.events l.trails

module _ (numbers version : ℕ) (passes : Filter) where
  pub put-Fresh :
      (events : Dict String (List MemberEvent)) (trails : Dict String Trail) (name : String)
      (trail : Trail)
      → IsFreshTrail numbers version passes (events_of (get name events)) name (some trail)
      → FreshIn numbers version passes events trails
      → FreshIn numbers version passes events (put name trail trails)
  put-Fresh events trails name trail one all other =
      rw (get-put name other trail trails) elim (Bool-cases (string_eq.beq name other)) [
        | inl same ↦ rw same (
            subst
              (λ (k : String).
                IsFreshTrail numbers version passes (events_of (get k events)) k (some trail))
              ((string_eq.beq_iff name other).0 same) one)
        | inr different ↦ rw different (all other)
      ]

  without_marks-IsShown :
      (events : List MemberEvent) (name : String) (trail : Trail)
      → IsFreshTrail numbers version passes events name (some trail)
      → IsShown numbers version passes none trail.shown
  without_marks-IsShown events name trail h = without trail.shown h.1
    where
      without :
          (shown : Option KeptShown)
          → IsShown numbers version passes trail.marks shown
          → IsShown numbers version passes none shown
      without none k = tt
      without (some shown) k = (k.0, k.1, tt)

  pub unmarked-Fresh :
      (events : Dict String (List MemberEvent)) (list : List MemberEvent) (name : String)
      (trails : Dict String Trail) (found : Option Trail)
      → get name trails ≡ found
      → IsFreshTrail numbers version passes (events_of (get name events)) name found
      → FreshIn numbers version passes events trails
      → FreshIn numbers version passes (put name list events) (unmarked found trails name)
  unmarked-Fresh events list name trails none e one all other =
      rw (get-put name other list events) elim (Bool-cases (string_eq.beq name other)) [
        | inl same ↦
            let gone : get other trails ≡ none =
              ap (λ k. get k trails) (sym ((string_eq.beq_iff name other).0 same)) ∙ e in
            rw gone tt
        | inr different ↦ rw different (all other)
      ]
  unmarked-Fresh events list name trails (some trail) e one all other =
      rw (get-put name other list events, get-put name other (record trail { marks = none }) trails)
        elim (Bool-cases (string_eq.beq name other)) [
          | inl same ↦
              rw same (tt, without_marks-IsShown (events_of (get name events)) name trail one)
          | inr different ↦ rw different (all other)
        ]

pub rebuild-Fresh :
    (now : ℕ) (name : String) (l : TrailLayer) → IsFresh l → IsFresh (rebuild now name l)
unfolding rebuild
rebuild-Fresh now name l h = found (get name l.trails) (h name)
  where
    found :
        (trail : Option Trail)
        → IsFreshTrail l.numbers l.event_filter_version l.event_filter
            (events_of (get name l.events))
            name
            trail
        → IsFresh (rebuild_found now name trail l)
    found none one = h
    found (some trail) one =
        put-Fresh l.numbers l.event_filter_version l.event_filter l.events l.trails name _
          (
            tt,
            without_marks-IsShown l.numbers l.event_filter_version l.event_filter
                (events_of (get name l.events)) name trail one,
          )
          h

pub set_history-Fresh :
    (now : ℕ) (name : String) (raw : RawTrail) (options : TrailOptions) (l : TrailLayer)
    → IsFresh l
    → IsFresh (set_history now name raw options l)
unfolding set_history
set_history-Fresh now name raw options l h =
    rebuild-Fresh now name _ (
      put-Fresh l.numbers l.event_filter_version l.event_filter l.events l.trails name _ (tt, tt) h)

pub remove-Fresh : (name : String) (l : TrailLayer) → IsFresh l → IsFresh (remove name l).0
unfolding remove
remove-Fresh name l h other =
    rw (get-delete name other l.trails, get-delete name other l.events)
      elim (Bool-cases (string_eq.beq name other)) [
        | inl same ↦ rw same tt
        | inr different ↦ rw different (h other)
      ]

pub observe-Fresh :
    (now : ℕ) (name : String) (position : Option Sighting) (online : Bool) (l : TrailLayer)
    → IsFresh l
    → IsFresh (observe now name position online l).0
unfolding observe
observe-Fresh now name position online l h =
    checked _ (record l { seen = put name noted.0 l.seen }) h
  where
    before : Seen
    before = seen_or_new (get name l.seen)

    noted : Seen × Bool
    noted = note now position online before

    checked :
        (test : Bool) (after : TrailLayer)
        → IsFresh after
        → IsFresh (rebuild_if test now name after).0
    checked true after k = rebuild-Fresh now name after k
    checked false after k = k

later_version :
    (numbers version : ℕ) (passes after : Filter) (marks : Option KeptMarks)
    (shown : Option KeptShown)
    → IsShown numbers version passes marks shown
    → IsShown numbers (version + 1) after marks shown
later_version numbers version passes after marks none h = tt
later_version numbers version passes after none (some shown) h = (h.0, omega (arith, h.1), tt)
later_version numbers version passes after (some kept) (some shown) h =
    let old : nat_beq shown.version (version + 1) ≡ false = ground (arith, h.1) in
    (
      h.0,
      omega (arith, h.1),
      rw old elim (Bool-cases (nat_beq shown.of kept.number)) [ inl e ↦ rw e | inr e ↦ rw e ],
    )

pub set_event_filter-Fresh :
    (passes : Filter) (l : TrailLayer) → IsFresh l → IsFresh (set_event_filter passes l)
unfolding set_event_filter
set_event_filter-Fresh passes l h name = found (get name l.trails) (h name)
  where
    found :
        (trail : Option Trail)
        → IsFreshTrail l.numbers l.event_filter_version l.event_filter
            (events_of (get name l.events))
            name
            trail
        → IsFreshTrail l.numbers
            (l.event_filter_version + 1)
            passes
            (events_of (get name l.events))
            name
            trail
    found none one = tt
    found (some trail) one =
        (one.0, later_version l.numbers l.event_filter_version l.event_filter passes _ _ one.1)

abbrev pub events_on : String → TrailLayer → List MemberEvent
events_on name l = events_of (get name l.events)
