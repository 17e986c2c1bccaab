-- ===== src/EventLayer/Bounded.antt =====
-- How many events are on the map, whatever happens.
use ha_osrs_map.Base.{
  is_empty, ℕ, ◌≤◌, ◌≡◌, refl, arith, Bool, List, [], ◌∷◌, Option, none, some, if◌then◌else◌, leb,
  length, Bool-cases, ◌||◌, inl, inr, Eq,
}
use ha_osrs_map.Base.Dict.{Dict, delete, delete-Distinct, length-delete-le}
use ha_osrs_map.Storage.{Json, Browser}
use ha_osrs_map.EventView.{HubEvent, EventFilters}
use ha_osrs_map.EventMarkers.{
  prune_each, prune, clear_live, set_trail_marks, keep_trails, pop, trail_marks_between,
}
use ha_osrs_map.EventMarkers.Kept.{EventMarkers, Marker}
use ha_osrs_map.EventMarkers.Bounded.{IsStore, delete-IsKeyed, add-IsStore}
use ha_osrs_map.EventMarkers.Layout.{View}
use ha_osrs_map.EventPlaces.{StoredSpot, load}
use ha_osrs_map.EventLayer.{
  EventLayer, Location, Player, Feed, Trails, place_of, remember_if, place_live, feed, set_filters,
  sync_each, sync_trails, replay_moved, draw,
}

module _ {ℓ κ} {EventId : Type ℓ} {Color : Type κ} ⦃e : Eq EventId⦄ where
  abbrev pub IsFew : Dict EventId (Marker EventId Color) → Type ℓ
  IsFew live = (length live ≤ 200) × IsStore live

  prune_each-IsFew :
      (over : Marker EventId Color → Bool) (entries live : Dict EventId (Marker EventId Color))
      → IsFew live
      → IsFew (prune_each over entries live)
  unfolding prune_each
  prune_each-IsFew over [] live v = v
  prune_each-IsFew over ((id, m) ∷ entries) live v = elim (Bool-cases (over m)) [
    | inr stays ↦ rw stays (prune_each-IsFew over entries live v)
    | inl goes ↦ rw goes (
        prune_each-IsFew over entries (delete id live) (
          omega (arith, length-delete-le id live, v.0),
          (delete-IsKeyed id live v.1.0, delete-Distinct id live v.1.1),
        ))
  ]

-- What can happen to the layer, with the clock, the players and the trails as they are then.
pub data Operation {ℓ κ ν} (EventId : Type ℓ) (Color : Type κ) (Name : Type ν)
    : Type (ℓ ⊔ κ ⊔ ν) where
  feeds : Feed EventId → ℕ → (Name → Option (Player Color)) → Operation EventId Color Name
  places_live : ℕ → (Name → Option (Player Color)) → Operation EventId Color Name
  sets_filters : EventFilters → Operation EventId Color Name
  syncs : Trails EventId Color Name → Operation EventId Color Name
  moves : Option ℕ → Option ℕ → ℕ → Operation EventId Color Name
  draws : View → (ℕ → ℕ → Bool) → ℕ → Option ℕ → Operation EventId Color Name

module _ {ℓ κ ν} {EventId : Type ℓ} {Color : Type κ} {Name : Type ν} ⦃n : Eq Name⦄ where
  live-sync_each :
      (trails : Trails EventId Color Name) (names : List Name) (m : EventMarkers EventId Color Name)
      → (sync_each trails names m).live ≡ m.live
  unfolding sync_each set_trail_marks
  live-sync_each trails [] m = refl
  live-sync_each trails (name ∷ names) m = live-sync_each trails names _

module _ {ℓ κ ν τ κ' ν'} {EventId : Type ℓ} {Color : Type κ} {Name : Type ν} {Text : Type τ}
    {Key : Type κ'} {Stored : Type ν'} ⦃e : Eq EventId⦄ ⦃n : Eq Name⦄ ⦃k : Eq Key⦄
    (member_of : HubEvent EventId → Name) (location_of : HubEvent EventId → Option Location)
    (color_for_name : Name → Color) (json : Json (Dict EventId StoredSpot) Stored) (key : Key)
    (event_label : HubEvent EventId → Text) (has_words : Text → Bool) where
  -- The layer and the browser after an operation, and after several, the last first.
  abbrev pub perform :
      Operation EventId Color Name
      → EventLayer EventId Color Name Text × Browser Key Stored
      → EventLayer EventId Color Name Text × Browser Key Stored
  perform (feeds news now player_of) (layer, browser) =
      let r = feed member_of location_of color_for_name json key news now player_of layer browser in
      (r.0, r.1)
  perform (places_live now player_of) (layer, browser) =
      let r =
        place_live member_of location_of color_for_name json key now player_of layer browser in
      (r.0, r.1)
  perform (sets_filters filters) (layer, browser) = (set_filters filters layer, browser)
  perform (syncs trails) (layer, browser) = (sync_trails trails layer, browser)
  perform (moves from to now) (layer, browser) = (replay_moved from to now layer, browser)
  perform (draws view on_screen now replay) (layer, browser) =
      ((draw event_label has_words view on_screen now replay layer).0, browser)

  abbrev pub after :
      List (Operation EventId Color Name)
      → EventLayer EventId Color Name Text × Browser Key Stored
      → EventLayer EventId Color Name Text × Browser Key Stored
  after [] start = start
  after (operation ∷ operations) start = perform operation (after operations start)

  markers-remember_if :
      (own : List (Marker EventId Color)) (now : ℕ) (layer : EventLayer EventId Color Name Text)
      (browser : Browser Key Stored)
      → (remember_if member_of location_of color_for_name json key own now layer browser).0.markers
        ≡ layer.markers
  markers-remember_if [] now layer browser = refl
  markers-remember_if (m ∷ own) now layer browser = refl

  place_live-IsFew :
      (now : ℕ) (player_of : Name → Option (Player Color))
      (layer : EventLayer EventId Color Name Text) (browser : Browser Key Stored)
      → IsFew layer.markers.live
      → IsFew
          (place_live member_of location_of color_for_name json key now player_of layer
            browser).0.markers.live
  unfolding place_live
  place_live-IsFew now player_of layer browser v = elim (Bool-cases (is_empty layer.live)) [
    | inl empty ↦ rw empty v
    | inr some' ↦
        let place =
          place_of member_of location_of color_for_name player_of
            (load json key layer.places browser) in
        rw (some', markers-remember_if)
          (add-IsStore layer.live now place layer.is_news layer.markers v.1)
  ]

  replay_moved-IsFew :
      (from to : Option ℕ) (now : ℕ) (layer : EventLayer EventId Color Name Text)
      → IsFew layer.markers.live
      → IsFew (replay_moved from to now layer).markers.live
  unfolding replay_moved pop
  replay_moved-IsFew none to now layer v = v
  replay_moved-IsFew (some from) none now layer v = v
  replay_moved-IsFew (some from) (some to) now layer v =
      let passed = trail_marks_between from to layer.filters layer.markers in
      elim (Bool-cases (leb to from || is_empty passed)) [
        | inl still ↦ rw still v
        | inr moved ↦ rw moved v
      ]

  perform-IsFew :
      (operation : Operation EventId Color Name) (layer : EventLayer EventId Color Name Text)
      (browser : Browser Key Stored)
      → IsFew layer.markers.live
      → IsFew (perform operation (layer, browser)).0.markers.live
  unfolding set_filters sync_trails keep_trails draw prune feed clear_live
  perform-IsFew (feeds news now player_of) layer browser v =
      let cleared : IsFew (if news.initial then clear_live layer.markers else layer.markers).live =
        elim (Bool-cases news.initial) [
          | inl over ↦ rw over (omega arith, (tt, tt))
          | inr on ↦ rw on v
        ] in
      place_live-IsFew now player_of _ browser cleared
  perform-IsFew (places_live now player_of) layer browser v =
      place_live-IsFew now player_of layer browser v
  perform-IsFew (sets_filters filters) layer browser v = v
  perform-IsFew (syncs trails) layer browser v =
      rw (live-sync_each trails trails.names layer.markers) v
  perform-IsFew (moves from to now) layer browser v = replay_moved-IsFew from to now layer v
  perform-IsFew (draws view on_screen now replay) layer browser v =
      prune_each-IsFew _ layer.markers.live layer.markers.live v

  -- Whatever happens to a layer that starts without events, at most 200 are ever live on it, each
  -- under its id and no id twice.
  pub after-IsFew :
      (operations : List (Operation EventId Color Name))
      (layer : EventLayer EventId Color Name Text) (browser : Browser Key Stored)
      → layer.markers.live ≡ []
      → IsFew (after operations (layer, browser)).0.markers.live
  after-IsFew [] layer browser empty = rw empty (omega arith, (tt, tt))
  after-IsFew (operation ∷ operations) layer browser empty =
      let before = after operations (layer, browser) in
      perform-IsFew operation before.0 before.1 (after-IsFew operations layer browser empty)
