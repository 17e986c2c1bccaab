-- ===== src/EventLayer/Remembered.antt =====
-- That an event stays where it was put, also when the page is loaded again.
use ha_osrs_map.Base.{
  is_empty, All-keep_if, All-zip, ℕ, ◌≡◌, refl, ◌∙◌, subst, arith, Bool, true, false, not, ◌&&◌,
  List, [], ◌∷◌, Option, none, some, keep_if, if◌then◌else◌, Bool-cases, inl, inr, All, All-map, Eq,
  beq_self,
}
use ha_osrs_map.Base.Dict.{Dict, get, has, put, delete, Distinct, get-put, get-delete}
use ha_osrs_map.Base.Sets.{contains, NoDup}
use ha_osrs_map.Storage.{Json, Browser}
use ha_osrs_map.EventView.{HubEvent}
use ha_osrs_map.EventMarkers.{add, add_each, prune_each}
use ha_osrs_map.EventMarkers.Kept.{EventMarkers, Marker, Whereabouts}
use ha_osrs_map.EventMarkers.Ids.{marker_ids}
use ha_osrs_map.EventPlaces.{
  EventSpot, StoredSpot, EventPlaces, place_each, is_over, load, remember_places,
}
use ha_osrs_map.EventPlaces.Reload.{
  place_each-Distinct, prune_each-Distinct, load_each-Distinct, get-load_of_remembered,
}
use ha_osrs_map.EventLayer.{
  EventLayer, Location, Player, place_at, is_unplaced, color_or, place_of, placed_by_player,
  asks_places, remember_if, place_live,
}
use ha_osrs_map.EventLayer.Added.{IsCurrent, add-added}

abbrev spot_at {ℓ κ} : {EventId : Type ℓ} {Color : Type κ} → Marker EventId Color → EventSpot
spot_at m = record { x = m.x; y = m.y; plane = m.plane; at = m.at }

module _ {ℓ} {EventId : Type ℓ} ⦃e : Eq EventId⦄ where
  -- No entry of this key is to be dropped.
  abbrev Stays : EventId → (EventSpot → Bool) → Dict EventId EventSpot → Type 0
  Stays id over [] = Unit
  Stays id over ((j, spot) ∷ spots) = ((e.beq j id && over spot) ≡ false) × Stays id over spots

  absent-Stays :
      (id : EventId) (over : EventSpot → Bool) (spots : Dict EventId EventSpot)
      → has id spots ≡ false
      → Stays id over spots
  unfolding has
  absent-Stays id over [] h = tt
  absent-Stays id over ((j, spot) ∷ spots) h =
      (ground (arith, h), absent-Stays id over spots (ground (arith, h)))

  get-Stays :
      (id : EventId) (over : EventSpot → Bool) (spots : Dict EventId EventSpot) {spot : EventSpot}
      → Distinct spots
      → get id spots ≡ some spot
      → over spot ≡ false
      → Stays id over spots
  unfolding get
  get-Stays id over [] d h k = tt
  get-Stays id over ((j, other) ∷ spots) {spot} d h k = elim (Bool-cases (e.beq j id)) [
    | inl same ↦
        let found : other ≡ spot = cc (rw same at h) in
        let rest =
          absent-Stays id over spots
            (subst (λ i. has i spots ≡ false) ((e.beq_iff j id).0 same) d.0) in
        (rw (same, found) k, rest)
    | inr differs ↦ (rw differs, get-Stays id over spots {spot = spot} d.1 (rw differs at h) k)
  ]

  get-prune_each :
      (id : EventId) (over : EventSpot → Bool) (entries spots : Dict EventId EventSpot)
      → Stays id over entries
      → get id (prune_each over entries spots) ≡ get id spots
  unfolding prune_each
  get-prune_each id over [] spots s = refl
  get-prune_each id over ((j, spot) ∷ entries) spots s = elim (Bool-cases (over spot)) [
    | inl gone ↦ rw gone (
        get-prune_each id over entries (delete j spots) s.1
        ∙ ground (arith, gone, s.0, get-delete j id spots))
    | inr stays ↦ rw stays (get-prune_each id over entries spots s.1)
  ]

  module _ {κ} {Color : Type κ} where
    get-place_each_absent :
        (id : EventId) (markers : List (Marker EventId Color)) (spots : Dict EventId EventSpot)
        → contains id (marker_ids markers) ≡ false
        → get id (place_each markers spots) ≡ get id spots
    unfolding place_each contains marker_ids
    get-place_each_absent id [] spots h = refl
    get-place_each_absent id (m ∷ markers) spots h =
        get-place_each_absent id markers (put m.id (spot_at m) spots) (ground (arith, h))
        ∙ ground (arith, h, get-put m.id id (spot_at m) spots)

    get-place_each :
        (markers : List (Marker EventId Color)) (spots : Dict EventId EventSpot)
        → NoDup (marker_ids markers)
        → All (λ m. get m.id (place_each markers spots) ≡ some (spot_at m)) markers
    unfolding place_each marker_ids
    get-place_each [] spots d = tt
    get-place_each (m ∷ markers) spots d = (
      get-place_each_absent m.id markers (put m.id (spot_at m) spots) d.0
          ∙ ground (arith, beq_self m.id, get-put m.id m.id (spot_at m) spots),
      get-place_each markers (put m.id (spot_at m) spots) d.1,
    )

    not_kept :
        (p : Marker EventId Color → Bool) (id : EventId) (markers : List (Marker EventId Color))
        → contains id (marker_ids markers) ≡ false
        → contains id (marker_ids (keep_if p markers)) ≡ false
    unfolding contains marker_ids
    not_kept p id [] h = refl
    not_kept p id (m ∷ markers) h = ground (arith, h, not_kept p id markers)

    keep_if-NoDup :
        (p : Marker EventId Color → Bool) (markers : List (Marker EventId Color))
        → NoDup (marker_ids markers)
        → NoDup (marker_ids (keep_if p markers))
    unfolding marker_ids
    keep_if-NoDup p [] d = tt
    keep_if-NoDup p (m ∷ markers) d = elim (Bool-cases (p m)) [
      | inl kept ↦ rw kept (not_kept p m.id markers d.0, keep_if-NoDup p markers d.1)
      | inr left ↦ rw left (keep_if-NoDup p markers d.1)
    ]

    place_each-kept :
        (now : ℕ) (markers : List (Marker EventId Color)) (spots : Dict EventId EventSpot)
        → Distinct spots
        → NoDup (marker_ids markers)
        → All (IsCurrent now) markers
        → let all = place_each markers spots in
          All (λ m. get m.id (prune_each (is_over now) all all) ≡ some (spot_at m)) markers
    place_each-kept now markers spots d distinct current =
        let all = place_each markers spots in
        let placed = place_each-Distinct markers spots d in
        All-zip (IsCurrent now) (λ m. get m.id all ≡ some (spot_at m))
          (λ m. get m.id (prune_each (is_over now) all all) ≡ some (spot_at m)) markers
          (λ m c there.
            get-prune_each m.id (is_over now) all all
              (get-Stays m.id (is_over now) all {spot = spot_at m} placed there c.1)
            ∙ there)
          current (get-place_each markers spots distinct)

-- The places that are loaded are each an event's own.
abbrev pub HasOwnPlaces {ℓ} : {EventId : Type ℓ} ⦃e : Eq EventId⦄ → EventPlaces EventId → Type 0
HasOwnPlaces none = Unit
HasOwnPlaces (some spots) = Distinct spots

module _ {ℓ κ' ν'} {EventId : Type ℓ} {Key : Type κ'} {Stored : Type ν'} ⦃e : Eq EventId⦄
    ⦃k : Eq Key⦄ (json : Json (Dict EventId StoredSpot) Stored) (key : Key) where
  load-Distinct :
      (places : EventPlaces EventId) (browser : Browser Key Stored)
      → HasOwnPlaces places
      → Distinct (load json key places browser)
  unfolding load
  load-Distinct none browser own = load_each-Distinct _ [] tt
  load-Distinct (some spots) browser own = own

  -- The places have an event once, whether or not they have been loaded by now.
  asked-Distinct :
      (asks : Bool) (places : EventPlaces EventId) (browser : Browser Key Stored)
      → HasOwnPlaces places
      → Distinct
          (load json key (if asks then some (load json key places browser) else places) browser)
  unfolding load
  asked-Distinct true places browser own = load-Distinct places browser own
  asked-Distinct false places browser own = load-Distinct places browser own

module _ {ℓ κ ν} {EventId : Type ℓ} {Color : Type κ} {Name : Type ν} ⦃e : Eq EventId⦄
    (member_of : HubEvent EventId → Name) (location_of : HubEvent EventId → Option Location)
    (color_for_name : Name → Color) where
  -- Where a page puts the event of a marker, given the places it has loaded.
  place_of-remembered :
      (later : Name → Option (Player Color)) (spots : Dict EventId EventSpot)
      (m : Marker EventId Color)
      → m.event.id ≡ some m.id
      → is_unplaced (place_at (location_of m.event)) ≡ true
      → get m.id spots ≡ some (spot_at m)
      → place_of member_of location_of color_for_name later spots m.event
        ≡ some (record {
          x = m.x;
          y = m.y;
          plane = m.plane;
          color = color_or (color_for_name (member_of m.event)) (later (member_of m.event));
          known = true;
        })
  unfolding place_of
  place_of-remembered later spots m named unplaced there = ground (arith, named, unplaced, there)

module _ {ℓ κ ν} {EventId : Type ℓ} {Color : Type κ} {Name : Type ν} ⦃e : Eq EventId⦄ where
  nothing_added :
      (events : List (HubEvent EventId)) (now : ℕ)
      (place : HubEvent EventId → Option (Whereabouts Color)) (news : Bool)
      (m : EventMarkers EventId Color Name)
      → is_empty events ≡ true
      → (add events now place news m).1 ≡ []
  unfolding add add_each
  nothing_added [] now place news m empty = refl
  nothing_added (event ∷ events) now place news m empty = absurd (cc empty)

module _ {ℓ κ ν τ κ' ν'} {EventId : Type ℓ} {Color : Type κ} {Name : Type ν} {Text : Type τ}
    {Key : Type κ'} {Stored : Type ν'} ⦃e : Eq EventId⦄ ⦃k : Eq Key⦄
    (member_of : HubEvent EventId → Name) (location_of : HubEvent EventId → Option Location)
    (color_for_name : Name → Color) (json : Json (Dict EventId StoredSpot) Stored) (key : Key) where
  -- What the next page loads of markers that are remembered.
  remember_if-loads :
      (own : List (Marker EventId Color)) (now : ℕ) (layer : EventLayer EventId Color Name Text)
      (browser : Browser Key Stored)
      → Distinct (load json key layer.places browser)
      → NoDup (marker_ids own)
      → All (IsCurrent now) own
      → browser.readable ≡ true
      → ((text : Stored) → browser.accepts key text ≡ true)
      → let after =
          remember_if member_of location_of color_for_name json key own now layer browser in
        All (λ m. get m.id (load json key none after.1) ≡ some (spot_at m)) own
  unfolding remember_places load
  remember_if-loads [] now layer browser d distinct current readable accepts = tt
  remember_if-loads (m ∷ own) now layer browser d distinct current readable accepts =
      let spots = load json key layer.places browser in
      let all = place_each (m ∷ own) spots in
      let kept = prune_each (is_over now) all all in
      let kept_own : Distinct kept =
        prune_each-Distinct (is_over now) all all (place_each-Distinct (m ∷ own) spots d) in
      All-map (λ (a : Marker EventId Color). get a.id kept ≡ some (spot_at a)) (m ∷ own)
        (λ a there.
          get-load_of_remembered json key kept browser a.id kept_own readable accepts ∙ there)
        (place_each-kept now (m ∷ own) spots d distinct current)

  -- The live events were put on the map, in a browser that lets places be remembered and read, by a
  -- page that has loaded no places or one for each event at most. Each marker that was put where its
  -- player was, and is no guess, keeps its place when the page is loaded again: wherever its player
  -- is by then, its event is put where the marker is, as known.
  pub place_live-remembered :
      (now : ℕ) (player_of later : Name → Option (Player Color))
      (layer : EventLayer EventId Color Name Text) (browser : Browser Key Stored)
      → HasOwnPlaces layer.places
      → browser.readable ≡ true
      → ((text : Stored) → browser.accepts key text ≡ true)
      → let spots = load json key layer.places browser in
        let place = place_of member_of location_of color_for_name in
        let added = (add layer.live now (place player_of spots) layer.is_news layer.markers).1 in
        let after =
          place_live member_of location_of color_for_name json key now player_of layer browser in
        All
          (λ m.
            place later (load json key none after.1) m.event
            ≡ some (record {
              x = m.x;
              y = m.y;
              plane = m.plane;
              color = color_or (color_for_name (member_of m.event)) (later (member_of m.event));
              known = true;
            }))
          (placed_by_player member_of location_of color_for_name added)
  unfolding place_live
  place_live-remembered now player_of later layer browser own_places readable accepts =
      let spots = load json key layer.places browser in
      let place = place_of member_of location_of color_for_name player_of spots in
      let result = add layer.live now place layer.is_news layer.markers in
      elim (Bool-cases (is_empty layer.live)) [
        | inl empty ↦ rw (nothing_added layer.live now place layer.is_news layer.markers empty) tt
        | inr several ↦
            let by_player = λ (m : Marker EventId Color).
              not m.approximate && is_unplaced (place_at (location_of m.event)) in
            let facts = add-added layer.live now place layer.is_news layer.markers in
            let own = placed_by_player member_of location_of color_for_name result.1 in
            let good = All-keep_if (IsCurrent now) by_player result.1 facts.0 in
            let asks =
              asks_places member_of location_of color_for_name now place layer.is_news layer.live
                (layer.markers.live, []) in
            let loads =
              remember_if-loads own now
                (record layer {
                  markers = result.0;
                  places = if asks then some spots else layer.places;
                })
                browser (asked-Distinct json key asks layer.places browser own_places)
                (keep_if-NoDup by_player result.1 facts.1) (All-map _ own (λ m c. c.0) good)
                readable accepts in
            rw several (
              All-zip (λ m. IsCurrent now m × (by_player m ≡ true)) _ _ own
                (λ m c there.
                  place_of-remembered member_of location_of color_for_name later _ m c.0.0
                    (ground (arith, c.1)) there)
                good loads)
      ]
