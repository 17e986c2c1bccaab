-- ===== src/EventMarkers/Visible/Once.antt =====
-- That no event is drawn twice, and none that the filters keep off the map.
use ha_osrs_map.Base.{
  ℕ, ◌≡◌, refl, ap, sym, ◌∙◌, arith, Bool, true, false, not, List, [], ◌∷◌, ◌++◌, Option,
  if◌then◌else◌, All, All-append, Eq, Bool-cases, inl, inr,
}
use ha_osrs_map.Base.Dict.{Dict, values}
use ha_osrs_map.Base.Sets.{contains, add, NoDup, contains-add, contains-append, append-NoDup}
use ha_osrs_map.EventView.{HubEvent, EventFilters, event_passes}
use ha_osrs_map.EventMarkers.Kept.{EventMarkers, Marker, TrailMark}
use ha_osrs_map.EventMarkers.Ids.{marker_ids}
use ha_osrs_map.EventMarkers.Visible.{
  Shown, display, show_mark, note_mark, show_marks, show_trails, show_live, is_left_out, visible,
}

differ {ℓ} :
    {EventId : Type ℓ} ⦃e : Eq EventId⦄ (a b : EventId) (xs : List EventId)
    → contains a xs ≡ false
    → contains b xs ≡ true
    → e.beq a b ≡ false
differ ⦃e⦄ a b xs out inside = elim (Bool-cases (e.beq a b)) [
  | inr different ↦ different
  | inl same ↦
      let moved : contains a xs ≡ contains b xs =
        ap (λ k. contains k xs) ((e.beq_iff a b).0 same) in
      cc
]

module _ {ℓ κ τ} {EventId : Type ℓ} {Color : Type κ} {Text : Type τ} ⦃e : Eq EventId⦄ where
  abbrev pub shown_ids : List (Shown EventId Color Text) → List EventId
  shown_ids [] = []
  shown_ids (s ∷ shown) = s.placed.id ∷ shown_ids shown

  abbrev pub Passes : EventFilters → Shown EventId Color Text → Type 0
  Passes filters s = event_passes s.placed.event filters ≡ true

  -- What is shown so far, of events on `on_trail` only.
  abbrev IsSoFar : EventFilters → List (Shown EventId Color Text) × List EventId → Type ℓ
  IsSoFar filters (shown, on_trail) =
      NoDup (shown_ids shown)
      × All (Passes filters) shown
      × ((id : EventId) → contains id (shown_ids shown) ≡ true → contains id on_trail ≡ true)

  shown_ids-append :
      (xs ys : List (Shown EventId Color Text))
      → shown_ids (xs ++ ys) ≡ shown_ids xs ++ shown_ids ys
  shown_ids-append [] ys = refl
  shown_ids-append (s ∷ xs) ys = ap (◌∷◌ s.placed.id) (shown_ids-append xs ys)

  not_last :
      (id : EventId) (s : Shown EventId Color Text) (shown : List (Shown EventId Color Text))
      → e.beq s.placed.id id ≡ false
      → contains id (shown_ids (shown ++ (s ∷ []))) ≡ true
      → contains id (shown_ids shown) ≡ true
  unfolding contains
  not_last id s shown other i =
      let parts : contains id (shown_ids (shown ++ (s ∷ [])))
          ≡ (if contains id (shown_ids shown) then true else contains id (s.placed.id ∷ [])) =
        rw (shown_ids-append shown (s ∷ []))
          (contains-append id (shown_ids shown) (s.placed.id ∷ [])) in
      elim (Bool-cases (contains id (shown_ids shown))) [
        | inl there ↦ there
        | inr out ↦
            let nowhere : contains id (shown_ids (shown ++ (s ∷ []))) ≡ false =
              parts ∙ rw (out, other) in
            cc
      ]

  show_one-IsSoFar :
      (filters : EventFilters) (s : Shown EventId Color Text)
      (shown : List (Shown EventId Color Text)) (on_trail : List EventId)
      → contains s.placed.id on_trail ≡ false
      → Passes filters s
      → IsSoFar filters (shown, on_trail)
      → IsSoFar filters (shown ++ (s ∷ []), add s.placed.id on_trail)
  unfolding contains
  show_one-IsSoFar filters s shown on_trail new passes h = (
    rw (shown_ids-append shown (s ∷ [])) (
        append-NoDup (shown_ids shown) (s.placed.id ∷ []) h.0 (refl, tt)
          (λ (id : EventId) (i : contains id (shown_ids shown) ≡ true).
            rw (differ s.placed.id id on_trail new (h.2 id i)))),
    All-append (Passes filters) shown (s ∷ []) h.1 (passes, tt),
    λ (id : EventId) (i : contains id (shown_ids (shown ++ (s ∷ []))) ≡ true).
        elim (Bool-cases (e.beq s.placed.id id)) [
          | inl same ↦ contains-add s.placed.id id on_trail ∙ rw same
          | inr other ↦
              let before : contains id (shown_ids shown) ≡ true = not_last id s shown other i in
              contains-add s.placed.id id on_trail ∙ rw (other, h.2 id before)
        ],
  )

  note_one-IsSoFar :
      (filters : EventFilters) (id : EventId) (shown : List (Shown EventId Color Text))
      (on_trail : List EventId)
      → IsSoFar filters (shown, on_trail)
      → IsSoFar filters (shown, add id on_trail)
  note_one-IsSoFar filters id shown on_trail h = (
    h.0,
    h.1,
    λ (other : EventId) (i : contains other (shown_ids shown) ≡ true).
        contains-add id other on_trail
        ∙ rw (h.2 other i) elim (Bool-cases (e.beq id other)) [ inl s ↦ rw s | inr s ↦ rw s ],
  )

  -- Live markers: each once, none that is on a trail, all let through.
  abbrev IsLive : EventFilters → List EventId → List (Shown EventId Color Text) → Type ℓ
  IsLive filters on_trail shown =
      NoDup (shown_ids shown)
      × All (Passes filters) shown
      × ((id : EventId) → contains id (shown_ids shown) ≡ true → contains id on_trail ≡ false)

kept_in {ℓ κ} :
    {EventId : Type ℓ} {Color : Type κ} ⦃e : Eq EventId⦄ (filters : EventFilters) (now : ℕ)
    (in_view : ℕ → ℕ → Bool) (on_trail : List EventId) (marker : Marker EventId Color)
    → is_left_out filters now in_view on_trail marker ≡ false
    → (contains marker.id on_trail ≡ false) × (event_passes marker.event filters ≡ true)
kept_in filters now in_view on_trail marker h = elim (Bool-cases (contains marker.id on_trail)) [
  | inl t ↦ let left_out : true ≡ false = rw t at h in cc
  | inr f ↦ elim (Bool-cases (event_passes marker.event filters)) [
    | inl p ↦ (f, p)
    | inr n ↦ let left_out : true ≡ false = rw (f, n) at h in cc
  ]
]

module _ {ℓ κ τ} {EventId : Type ℓ} {Color : Type κ} {Text : Type τ} ⦃e : Eq EventId⦄
    (event_label : HubEvent EventId → Text) where
  show_live-within :
      (pops : Dict EventId ℕ) (filters : EventFilters) (now : ℕ) (in_view : ℕ → ℕ → Bool)
      (on_trail : List EventId) (markers : List (Marker EventId Color)) (id : EventId)
      → contains id (marker_ids markers) ≡ false
      → contains id (shown_ids (show_live event_label pops filters now in_view on_trail markers))
        ≡ false
  unfolding show_live contains marker_ids display
  show_live-within pops filters now in_view on_trail [] id h = refl
  show_live-within pops filters now in_view on_trail (marker ∷ markers) id h =
      let other : e.beq marker.id id ≡ false = ground (arith, h) in
      let absent : contains id (marker_ids markers) ≡ false = rw other at h in
      let rest = show_live-within pops filters now in_view on_trail markers id absent in
      elim (Bool-cases (is_left_out filters now in_view on_trail marker)) [
        | inl out ↦ rw out rest
        | inr shown ↦ rw (shown, other) rest
      ]

  show_live-IsLive :
      (pops : Dict EventId ℕ) (filters : EventFilters) (now : ℕ) (in_view : ℕ → ℕ → Bool)
      (on_trail : List EventId) (markers : List (Marker EventId Color))
      → NoDup (marker_ids markers)
      → IsLive filters on_trail (show_live event_label pops filters now in_view on_trail markers)
  unfolding show_live contains marker_ids display
  show_live-IsLive pops filters now in_view on_trail [] d = (tt, tt, λ id i. cc)
  show_live-IsLive pops filters now in_view on_trail (marker ∷ markers) d =
      let rest = show_live-IsLive pops filters now in_view on_trail markers d.1 in
      elim (Bool-cases (is_left_out filters now in_view on_trail marker)) [
        | inl out ↦ rw out rest
        | inr shown ↦ rw shown (
          (show_live-within pops filters now in_view on_trail markers marker.id d.0, rest.0),
          ((kept_in filters now in_view on_trail marker shown).1, rest.1),
          λ (id : EventId) i. elim (Bool-cases (e.beq marker.id id)) [
            | inl same ↦
                ap (λ k. contains k on_trail) (sym ((e.beq_iff marker.id id).0 same))
                ∙ (kept_in filters now in_view on_trail marker shown).0
            | inr other ↦ rest.2 id (rw other at i)
          ],
        )
      ]

module _ {ℓ κ ν τ} {EventId : Type ℓ} {Color : Type κ} {Name : Type ν} {Text : Type τ}
    ⦃e : Eq EventId⦄ (event_label : HubEvent EventId → Text) where
  note_mark-IsSoFar :
      (m : EventMarkers EventId Color Name) (filters : EventFilters) (now : ℕ) (replay : Option ℕ)
      (in_view : ℕ → ℕ → Bool) (mark : TrailMark EventId Color Name)
      (so_far : List (Shown EventId Color Text) × List EventId)
      → IsSoFar filters so_far
      → IsSoFar filters (note_mark event_label m filters now replay in_view mark so_far)
  unfolding show_mark display
  note_mark-IsSoFar m filters now replay in_view mark (shown, on_trail) h =
      elim (Bool-cases (contains mark.mark.id on_trail)) [
        | inl t ↦ rw t h
        | inr new ↦ elim (Bool-cases (event_passes mark.mark.event filters)) [
          | inr n ↦ rw (new, n) h
          | inl p ↦ elim (Bool-cases (in_view mark.mark.x mark.mark.y)) [
            | inl v ↦
                rw (new, p, v)
                  (show_one-IsSoFar filters (show_mark event_label m now replay mark) shown on_trail
                    new p h)
            | inr v ↦ rw (new, p, v) (note_one-IsSoFar filters mark.mark.id shown on_trail h)
          ]
        ]
      ]

  show_marks-IsSoFar :
      (m : EventMarkers EventId Color Name) (filters : EventFilters) (now : ℕ) (replay : Option ℕ)
      (in_view : ℕ → ℕ → Bool) (marks : List (TrailMark EventId Color Name))
      (so_far : List (Shown EventId Color Text) × List EventId)
      → IsSoFar filters so_far
      → IsSoFar filters (show_marks event_label m filters now replay in_view marks so_far)
  unfolding show_marks
  show_marks-IsSoFar m filters now replay in_view [] so_far h = h
  show_marks-IsSoFar m filters now replay in_view (mark ∷ marks) so_far h =
      show_marks-IsSoFar m filters now replay in_view marks _
        (note_mark-IsSoFar m filters now replay in_view mark so_far h)

  show_trails-IsSoFar :
      (m : EventMarkers EventId Color Name) (filters : EventFilters) (now : ℕ) (replay : Option ℕ)
      (in_view : ℕ → ℕ → Bool) (trails : List (List (TrailMark EventId Color Name)))
      (so_far : List (Shown EventId Color Text) × List EventId)
      → IsSoFar filters so_far
      → IsSoFar filters (show_trails event_label m filters now replay in_view trails so_far)
  unfolding show_trails
  show_trails-IsSoFar m filters now replay in_view [] so_far h = h
  show_trails-IsSoFar m filters now replay in_view (marks ∷ trails) so_far h =
      show_trails-IsSoFar m filters now replay in_view trails _
        (show_marks-IsSoFar m filters now replay in_view marks so_far h)

  -- What is drawn has no event twice, whether it is marked on several trails or live as well, and
  -- only events that the filters let through, as long as no two live markers have one id.
  pub visible-IsOnce :
      (filters : EventFilters) (now : ℕ) (replay : Option ℕ) (in_view : ℕ → ℕ → Bool)
      (m : EventMarkers EventId Color Name)
      → NoDup (marker_ids (values m.live))
      → let drawn = visible event_label filters now replay in_view m in
        NoDup (shown_ids drawn) × All (Passes filters) drawn
  unfolding visible
  visible-IsOnce filters now replay in_view m d =
      let marked =
        show_trails event_label m filters now replay in_view (values m.trails) ([], []) in
      let on_map : IsSoFar filters marked =
        show_trails-IsSoFar m filters now replay in_view (values m.trails) ([], [])
          (tt, tt, λ id i. i) in
      let rest = show_live event_label m.pops filters now in_view marked.1 (values m.live) in
      let live : IsLive filters marked.1 rest =
        show_live-IsLive event_label m.pops filters now in_view marked.1 (values m.live) d in
      (
        rw (shown_ids-append marked.0 rest) (
            append-NoDup (shown_ids marked.0) (shown_ids rest) on_map.0 live.0
              (λ (id : EventId) (i : contains id (shown_ids marked.0) ≡ true).
                elim (Bool-cases (contains id (shown_ids rest))) [
                  | inr out ↦ out
                  | inl again ↦ again ∙ ap not (sym (live.2 id again)) ∙ ap not (on_map.2 id i)
                ])),
        All-append (Passes filters) marked.0 rest on_map.1 live.1,
      )
