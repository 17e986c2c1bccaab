-- ===== src/EventPlaces/Reload.antt =====
-- That a reload puts events back where they were.
use ha_osrs_map.Base.{
  ℕ, ◌≡◌, refl, ap, sym, ◌∙◌, arith, Bool, true, false, List, [], ◌∷◌, Option, none, some, Eq,
  Bool-cases, inl, inr, beq_self,
}
use ha_osrs_map.Base.Dict.{
  Dict, get, has, put, delete, Distinct, get-put, put-Distinct, delete-Distinct,
}
use ha_osrs_map.Storage.{Json, Browser, remember, remembered, remembered-remember}
use ha_osrs_map.EventMarkers.{prune_each}
use ha_osrs_map.EventMarkers.Kept.{Marker}
use ha_osrs_map.EventPlaces.{
  EventSpot, StoredSpot, spot_of, stored_spots, put_if, load_each, place_each, is_over, load,
  get_place, remember_places,
}

abbrev or_before : Option EventSpot → Option EventSpot → Option EventSpot
or_before none before = before
or_before (some spot) before = some spot

or_before_nothing : (found : Option EventSpot) → or_before found none ≡ found
or_before_nothing none = refl
or_before_nothing (some spot) = refl

read_back {κ ν τ} :
    {Key : Type κ} {Text : Type τ} {Value : Type ν} ⦃k : Eq Key⦄ (json : Json Value Text)
    (key : Key) (value fallback : Value) (browser : Browser Key Text)
    → browser.readable ≡ true
    → ((text : Text) → browser.accepts key text ≡ true)
    → remembered json key fallback (remember json key value browser) ≡ value
read_back ⦃k⦄ json key value fallback browser readable accepts =
    remembered-remember json key key value fallback browser
    ∙ rw (accepts (json.stringify value), readable, beq_self key)

module _ {ℓ} {EventId : Type ℓ} ⦃e : Eq EventId⦄ where
  get-absent :
      (id : EventId) (spots : Dict EventId EventSpot) → has id spots ≡ false → get id spots ≡ none
  unfolding get has
  get-absent id [] h = refl
  get-absent id ((j, spot) ∷ spots) h = ground (arith, get-absent id spots)

  get-load_each :
      (id : EventId) (spots acc : Dict EventId EventSpot)
      → Distinct spots
      → get id (load_each (stored_spots spots) acc) ≡ or_before (get id spots) (get id acc)
  unfolding load_each get
  get-load_each id [] acc d = refl
  get-load_each id ((j, spot) ∷ spots) acc d =
      get-load_each id spots (put j spot acc) d.1
      ∙ rw (get-put j id spot acc) elim (Bool-cases (e.beq j id)) [
        | inl same ↦
            rw
              (same, ap (λ i. get i spots) (sym ((e.beq_iff j id).0 same)) ∙ get-absent j spots d.0)
        | inr other ↦ rw other
      ]

  nothing_before : (id : EventId) (found : Option EventSpot) → or_before found (get id []) ≡ found
  unfolding get
  nothing_before id found = or_before_nothing found

  pub place_each-Distinct {κ} :
      {Color : Type κ} (markers : List (Marker EventId Color)) (spots : Dict EventId EventSpot)
      → Distinct spots
      → Distinct (place_each markers spots)
  unfolding place_each
  place_each-Distinct [] spots d = d
  place_each-Distinct (marker ∷ markers) spots d =
      place_each-Distinct markers _ (put-Distinct marker.id _ spots d)

  pub prune_each-Distinct :
      (over : EventSpot → Bool) (entries spots : Dict EventId EventSpot)
      → Distinct spots
      → Distinct (prune_each over entries spots)
  unfolding prune_each
  prune_each-Distinct over [] spots d = d
  prune_each-Distinct over ((id, spot) ∷ entries) spots d = elim (Bool-cases (over spot)) [
    | inl o ↦ rw o (prune_each-Distinct over entries (delete id spots) (delete-Distinct id spots d))
    | inr n ↦ rw n (prune_each-Distinct over entries spots d)
  ]

  pub load_each-Distinct :
      (entries : Dict EventId StoredSpot) (spots : Dict EventId EventSpot)
      → Distinct spots
      → Distinct (load_each entries spots)
  unfolding load_each
  load_each-Distinct [] spots d = d
  load_each-Distinct ((id, stored) ∷ entries) spots d =
      load_each-Distinct entries _ (put_if-Distinct (spot_of stored))
    where
      put_if-Distinct : (found : Option EventSpot) → Distinct (put_if id found spots)
      put_if-Distinct none = d
      put_if-Distinct (some spot) = put-Distinct id spot spots d

  module _ {κ ν} {Key : Type κ} {Text : Type ν} ⦃k : Eq Key⦄
      (json : Json (Dict EventId StoredSpot) Text) (key : Key) where
    -- What has been remembered is what the next page loads.
    pub get-load_of_remembered :
        (kept : Dict EventId EventSpot) (browser : Browser Key Text) (id : EventId)
        → Distinct kept
        → browser.readable ≡ true
        → ((text : Text) → browser.accepts key text ≡ true)
        → get id (load json key none (remember json key (stored_spots kept) browser)) ≡ get id kept
    unfolding load
    get-load_of_remembered kept browser id distinct readable accepts =
        ap (λ entries. get id (load_each entries []))
          (read_back json key (stored_spots kept) [] browser readable accepts)
        ∙ get-load_each id kept [] distinct
        ∙ nothing_before id (get id kept)

    -- Places were remembered by a page that had just been loaded, in a browser that lets it: the
    -- next page that is loaded there has every event where that page had it.
    pub get_place-remember_places {γ} :
        {Color : Type γ} (markers : List (Marker EventId Color)) (now : ℕ)
        (browser : Browser Key Text) (id : EventId)
        → browser.readable ≡ true
        → ((text : Text) → browser.accepts key text ≡ true)
        → let after = remember_places json key markers now none browser in
          (get_place json key id none after.1).1 ≡ (get_place json key id after.0 after.1).1
    unfolding get_place remember_places load
    get_place-remember_places markers now browser id readable accepts =
        let all = place_each markers (load_each (remembered json key [] browser) []) in
        let kept = prune_each (is_over now) all all in
        let distinct : Distinct kept = prune_each-Distinct (is_over now) all all (
          place_each-Distinct markers _
            (load_each-Distinct (remembered json key [] browser) [] tt)) in
        get-load_of_remembered kept browser id distinct readable accepts
