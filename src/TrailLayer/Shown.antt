-- ===== src/TrailLayer/Shown.antt =====
-- That the marks a trail shows are those worked out anew, whatever has been done with the layer.
use Prim.Native.String.{String}
use ha_osrs_map.Base.{
  ℕ, ◌≡◌, ◌<◌, refl, ap, sym, subst, ◌∙◌, arith, Bool, true, false, List, [], ◌∷◌, Option, none,
  some, nat_beq, nat_beq_iff, Bool-cases, inl, inr, string_eq,
}
use ha_osrs_map.Base.Dict.{get}
use ha_osrs_map.EventView.{HubEvent}
use ha_osrs_map.Trail.Live.{RawTrail, Sighting}
use ha_osrs_map.Trail.Marks.{MemberEvent, PlacedMark, place_marks}
use ha_osrs_map.TrailLayer.{
  KeptMarks, KeptShown, Trail, Hover, ReplayHop, TrailLayer, TrailOptions, new_trail_layer,
  set_history, remove, clear, observe, set_events, set_event_filter, set_replay, set_hover,
}
use ha_osrs_map.TrailLayer.Marks.{
  marks_kept, shown_is_stale, shown_or_nothing, shown_kept, shown_of_trail, shown_marks_on,
}
use ha_osrs_map.TrailLayer.Fresh.{
  Filter, let_through, IsKept, Matches, IsShown, IsFreshTrail, IsFresh, events_on, put-Fresh,
  unmarked-Fresh, set_history-Fresh, remove-Fresh, observe-Fresh, set_event_filter-Fresh,
}
use ha_osrs_map.TrailLayer.Renewed.{marks_kept-Fresh}

not_stale :
    (numbers version : ℕ) (passes : Filter) (kept : KeptMarks) (shown : KeptShown)
    → IsShown numbers version passes (some kept) (some shown)
    → shown_is_stale (some shown) kept.number version ≡ false
    → shown.marks ≡ let_through passes kept.marks
not_stale numbers version passes kept shown h fresh =
    elim (Bool-cases (nat_beq shown.of kept.number)) [
      | inr f ↦ let stale : true ≡ false = rw f at fresh in cc
      | inl same ↦ elim (Bool-cases (nat_beq shown.version version)) [
        | inr f ↦ let stale : true ≡ false = rw (same, f) at fresh in cc
        | inl current ↦ rw (same, current) at h.2
      ]
    ]

kept_shown :
    (numbers version : ℕ) (passes : Filter) (kept : KeptMarks) (shown : Option KeptShown)
    → IsShown numbers version passes (some kept) shown
    → shown_is_stale shown kept.number version ≡ false
    → shown_or_nothing shown ≡ let_through passes kept.marks
kept_shown numbers version passes kept none h fresh = cc
kept_shown numbers version passes kept (some shown) h fresh =
    not_stale numbers version passes kept shown h fresh

Matches-itself :
    (version : ℕ) (filter : Filter) (kept : KeptMarks)
    → Matches version filter
        (record { marks = let_through filter kept.marks; of = kept.number; version = version })
        (some kept)
Matches-itself version filter kept =
    rw ((nat_beq_iff kept.number kept.number).1 refl, (nat_beq_iff version version).1 refl)

new-Matches :
    (version : ℕ) (filter : Filter) (passes : HubEvent String → Bool) (kept : KeptMarks)
    (marks : Option KeptMarks)
    → filter ≡ some passes
    → marks ≡ some kept
    → Matches version filter
        (record {
          marks = let_through (some passes) kept.marks;
          of = kept.number;
          version = version;
        })
        marks
new-Matches version filter passes kept marks f e =
    subst
      (λ (g : Filter).
        Matches version filter
          (record { marks = let_through g kept.marks; of = kept.number; version = version }) marks)
      f
      (subst
        (λ (m : Option KeptMarks).
          Matches version filter
            (record { marks = let_through filter kept.marks; of = kept.number; version = version })
            m)
        (sym e) (Matches-itself version filter kept))

-- What is shown of the marks that are kept.
shown_kept-Fresh :
    (name : String) (trail : Trail) (kept : KeptMarks) (shown : Option KeptShown) (passes : Filter)
    (l : TrailLayer)
    → l.event_filter ≡ passes
    → trail.marks ≡ some kept
    → IsShown l.numbers l.event_filter_version l.event_filter (some kept) shown
    → IsFreshTrail l.numbers l.event_filter_version l.event_filter
        (events_on name l)
        name
        (some trail)
    → kept.number < l.numbers
    → IsFresh l
    → let r = shown_kept name trail kept shown passes l in
      IsFresh r.0 × (r.1 ≡ let_through passes kept.marks)
shown_kept-Fresh name trail kept shown none l f e before one lt h = (h, refl)
shown_kept-Fresh name trail kept shown (some passes) l f e before one lt h =
    elim (Bool-cases (shown_is_stale shown kept.number l.event_filter_version)) [
      | inl stale ↦ rw stale (
        put-Fresh l.numbers l.event_filter_version l.event_filter l.events l.trails name _
            (
              one.0,
              (
                lt,
                omega arith,
                new-Matches l.event_filter_version l.event_filter passes kept trail.marks f e,
              ),
            )
            h,
        refl,
      )
      | inr fresh ↦ rw fresh (
        h,
        kept_shown l.numbers l.event_filter_version l.event_filter kept shown before fresh
            ∙ ap (λ p. let_through p kept.marks) f,
      )
    ]

-- The marks of a player's trail that the filter lets through, worked out anew.
abbrev pub worked_out : TrailLayer → String → Option Trail → List PlacedMark
worked_out l name none = []
worked_out l name (some trail) =
    let_through l.event_filter (place_marks (events_on name l) name trail.model)

shown_of_trail-Fresh :
    (name : String) (trail : Option Trail) (l : TrailLayer)
    → IsFreshTrail l.numbers l.event_filter_version l.event_filter (events_on name l) name trail
    → IsFresh l
    → let r = shown_of_trail name trail l in IsFresh r.0 × (r.1 ≡ worked_out l name trail)
shown_of_trail-Fresh name none l one h = (h, refl)
shown_of_trail-Fresh name (some trail) l one h =
    let r = marks_kept name trail trail.marks l in
    let k = marks_kept-Fresh name trail trail.marks l refl one h in
    let there =
      subst (λ (m : Option KeptMarks). IsKept r.0.numbers (events_on name r.0) name r.1.model m) k.2
        k.1.0 in
    let before =
      subst
        (λ (m : Option KeptMarks).
          IsShown r.0.numbers r.0.event_filter_version r.0.event_filter m r.1.shown)
        k.2 k.1.1 in
    let s =
      shown_kept-Fresh name r.1 r.2 r.1.shown r.0.event_filter r.0 refl k.2 before k.1 there.1
        k.0 in
    (s.0, s.1 ∙ (λ i. let_through (k.4 i) (k.3 i)))

shown_marks_on-IsFresh :
    (name : String) (l : TrailLayer)
    → IsFresh l
    → let r = shown_marks_on name l in IsFresh r.0 × (r.1 ≡ worked_out l name (get name l.trails))
unfolding shown_marks_on
shown_marks_on-IsFresh name l h = shown_of_trail-Fresh name (get name l.trails) l (h name) h

-- What can be done with the layer.
pub data Operation : Type 0 where
  sets_history : ℕ → String → RawTrail → TrailOptions → Operation
  removes : String → Operation
  clears : Operation
  observes : ℕ → String → Option Sighting → Bool → Operation
  sets_events : String → List MemberEvent → Operation
  sets_filter : Filter → Operation
  asks_marks : String → Operation
  sets_replay : Option ℕ → Option ReplayHop → Operation
  sets_hover : Option Hover → Operation

abbrev pub perform : Operation → TrailLayer → TrailLayer
perform (sets_history now name raw options) l = set_history now name raw options l
perform (removes name) l = (remove name l).0
perform clears l = clear l
perform (observes now name position online) l = (observe now name position online l).0
perform (sets_events name events) l = set_events name events l
perform (sets_filter passes) l = set_event_filter passes l
perform (asks_marks name) l = (shown_marks_on name l).0
perform (sets_replay time hop) l = set_replay time hop l
perform (sets_hover hit) l = (set_hover hit l).0

-- The layer after some operations, the first of which is last in the list.
abbrev pub after : List Operation → TrailLayer
after [] = new_trail_layer
after (operation ∷ operations) = perform operation (after operations)

set_replay-Fresh :
    (time : Option ℕ) (hop : Option ReplayHop) (l : TrailLayer)
    → IsFresh l
    → IsFresh (set_replay time hop l)
unfolding set_replay
set_replay-Fresh none hop l h = h
set_replay-Fresh (some time) hop l h = h

perform-IsFresh :
    (operation : Operation) (l : TrailLayer) → IsFresh l → IsFresh (perform operation l)
unfolding clear set_events set_hover get
perform-IsFresh (sets_history now name raw options) l h = set_history-Fresh now name raw options l h
perform-IsFresh (removes name) l h = remove-Fresh name l h
perform-IsFresh clears l h = λ name. tt
perform-IsFresh (observes now name position online) l h = observe-Fresh now name position online l h
perform-IsFresh (sets_events name events) l h =
    unmarked-Fresh l.numbers l.event_filter_version l.event_filter l.events events name l.trails
      (get name l.trails) refl (h name) h
perform-IsFresh (sets_filter passes) l h = set_event_filter-Fresh passes l h
perform-IsFresh (asks_marks name) l h = (shown_marks_on-IsFresh name l h).0
perform-IsFresh (sets_replay time hop) l h = set_replay-Fresh time hop l h
perform-IsFresh (sets_hover hit) l h = h

after-IsFresh : (operations : List Operation) → IsFresh (after operations)
unfolding get
after-IsFresh [] = λ name. tt
after-IsFresh (operation ∷ operations) =
    perform-IsFresh operation (after operations) (after-IsFresh operations)

-- Whatever has been done with the layer, the marks that a player's trail shows are those worked out
-- anew: of the trail's model, the player's events and the filter as they are. None are shown of a
-- player without a trail.
pub shown_marks_on-worked_out :
    (operations : List Operation) (name : String)
    → (shown_marks_on name (after operations)).1
      ≡ worked_out (after operations) name (get name (after operations).trails)
shown_marks_on-worked_out operations name =
    (shown_marks_on-IsFresh name (after operations) (after-IsFresh operations)).1
