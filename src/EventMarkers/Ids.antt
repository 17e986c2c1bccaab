-- ===== src/EventMarkers/Ids.antt =====
-- The ids of markers: what sorting and deleting markers does to them.
use ha_osrs_map.Base.{
  ℕ, ◌+◌, ◌≡◌, refl, sym, ◌∙◌, ap, arith, Bool, true, false, List, [], ◌∷◌, length, take, All,
  All-map, Eq, Bool-cases, inl, inr, zero, suc,
}
use ha_osrs_map.Base.Dict.{Dict, has, delete, values, Distinct, has-delete, delete-Distinct}
use ha_osrs_map.Base.Sets.{contains, NoDup}
use ha_osrs_map.Base.Sorting.{sort, insert}
use ha_osrs_map.EventMarkers.{delete_each}
use ha_osrs_map.EventMarkers.Kept.{Marker}

module _ {ℓ κ} {K : Type ℓ} {V : Type κ} ⦃e : Eq K⦄ where
  length-delete-absent : (k : K) (m : Dict K V) → has k m ≡ false → length (delete k m) ≡ length m
  unfolding has delete
  length-delete-absent k [] h = refl
  length-delete-absent k ((j, v) ∷ m) h = ground (arith, length-delete-absent k m)

  length-delete-present :
      (k : K) (m : Dict K V) → Distinct m → has k m ≡ true → length (delete k m) + 1 ≡ length m
  unfolding has delete
  length-delete-present k [] d h = cc
  length-delete-present k ((j, v) ∷ m) d h = elim (Bool-cases (e.beq j k)) [
    | inl same ↦
        let gone : has k m ≡ false = ap (λ i. has i m) (sym ((e.beq_iff j k).0 same)) ∙ d.0 in
        rw same (omega (arith, length-delete-absent k m gone))
    | inr other ↦
        let there : has k m ≡ true = rw other at h in
        rw other (omega (arith, length-delete-present k m d.1 there))
  ]

module _ {ℓ κ} {EventId : Type ℓ} {Color : Type κ} ⦃e : Eq EventId⦄ where
  unfoldable pub marker_ids : List (Marker EventId Color) → List EventId
  marker_ids [] = []
  marker_ids (marker ∷ markers) = marker.id ∷ marker_ids markers

  -- Each marker stands under its id.
  abbrev pub IsKeyed : Dict EventId (Marker EventId Color) → Type ℓ
  IsKeyed [] = Unit
  IsKeyed ((id, marker) ∷ live) = (id ≡ marker.id) × IsKeyed live

  has-delete_other :
      (k : EventId) (markers : List (Marker EventId Color))
      (live : Dict EventId (Marker EventId Color))
      → contains k (marker_ids markers) ≡ false
      → All (λ marker. has marker.id live ≡ true) markers
      → All (λ marker. has marker.id (delete k live) ≡ true) markers
  unfolding contains marker_ids
  has-delete_other k [] live n h = tt
  has-delete_other k (marker ∷ markers) live n h = (
    ground
        (arith, has-delete k marker.id live, e.beq_iff k marker.id, e.beq_iff marker.id k, n, h.0),
    has-delete_other k markers live (ground (arith, n)) h.1,
  )

  pub length-delete_each :
      (markers : List (Marker EventId Color)) (live : Dict EventId (Marker EventId Color))
      → Distinct live
      → NoDup (marker_ids markers)
      → All (λ marker. has marker.id live ≡ true) markers
      → length (delete_each markers live) + length markers ≡ length live
  unfolding delete_each marker_ids
  length-delete_each [] live d n h = omega arith
  length-delete_each (marker ∷ markers) live d n h = omega (
    arith,
    length-delete-present marker.id live d h.0,
    length-delete_each markers (delete marker.id live) (delete-Distinct marker.id live d) n.1
        (has-delete_other marker.id markers live n.0 h.1),
  )

  pub marker_ids-take :
      (n : ℕ) (markers : List (Marker EventId Color))
      → marker_ids (take n markers) ≡ take n (marker_ids markers)
  unfolding marker_ids
  marker_ids-take zero markers = refl
  marker_ids-take (suc n) [] = refl
  marker_ids-take (suc n) (marker ∷ markers) = ap (◌∷◌ marker.id) (marker_ids-take n markers)

  module _ (le : Marker EventId Color → Marker EventId Color → Bool) where
    contains-insert :
        (id : EventId) (marker : Marker EventId Color) (markers : List (Marker EventId Color))
        → contains id (marker_ids (insert le marker markers))
          ≡ contains id (marker_ids (marker ∷ markers))
    unfolding insert contains marker_ids
    contains-insert id marker [] = refl
    contains-insert id marker (other ∷ markers) = elim (Bool-cases (le marker other)) [
      | inl first ↦ rw first
      | inr later ↦ rw (later, contains-insert id marker markers) (ground arith)
    ]

    insert-NoDup :
        (marker : Marker EventId Color) (markers : List (Marker EventId Color))
        → contains marker.id (marker_ids markers) ≡ false
        → NoDup (marker_ids markers)
        → NoDup (marker_ids (insert le marker markers))
    unfolding insert contains marker_ids
    insert-NoDup marker [] n d = (refl, tt)
    insert-NoDup marker (other ∷ markers) n d = elim (Bool-cases (le marker other)) [
      | inl first ↦ rw first (n, d)
      | inr later ↦ rw later (
        contains-insert other.id marker markers
            ∙ ground (arith, e.beq_iff marker.id other.id, e.beq_iff other.id marker.id, n, d.0),
        insert-NoDup marker markers (ground (arith, n)) d.1,
      )
    ]

    contains-sort :
        (id : EventId) (markers : List (Marker EventId Color))
        → contains id (marker_ids (sort le markers)) ≡ contains id (marker_ids markers)
    unfolding sort contains marker_ids
    contains-sort id [] = refl
    contains-sort id (marker ∷ markers) =
        contains-insert id marker (sort le markers) ∙ rw (contains-sort id markers)

    pub sort-NoDup :
        (markers : List (Marker EventId Color))
        → NoDup (marker_ids markers)
        → NoDup (marker_ids (sort le markers))
    unfolding sort marker_ids
    sort-NoDup [] d = tt
    sort-NoDup (marker ∷ markers) d =
        insert-NoDup marker (sort le markers) (contains-sort marker.id markers ∙ d.0)
          (sort-NoDup markers d.1)

  contains-values :
      (id : EventId) (live : Dict EventId (Marker EventId Color))
      → IsKeyed live
      → contains id (marker_ids (values live)) ≡ has id live
  unfolding marker_ids contains has
  contains-values id [] k = refl
  contains-values id ((j, marker) ∷ live) k = rw (contains-values id live k.1, sym k.0)

  pub values-NoDup :
      (live : Dict EventId (Marker EventId Color))
      → IsKeyed live
      → Distinct live
      → NoDup (marker_ids (values live))
  unfolding marker_ids
  values-NoDup [] k d = tt
  values-NoDup ((j, marker) ∷ live) k d = (
    contains-values marker.id live k.1 ∙ ap (λ i. has i live) (sym k.0) ∙ d.0,
    values-NoDup live k.1 d.1,
  )

  pub has-values :
      (live : Dict EventId (Marker EventId Color))
      → IsKeyed live
      → All (λ marker. has marker.id live ≡ true) (values live)
  unfolding has
  has-values [] k = tt
  has-values ((j, marker) ∷ live) k = (
    ground (arith, (e.beq_iff j marker.id).1 k.0),
    All-map _ (values live) (λ other h. ground (arith, h)) (has-values live k.1),
  )

  pub length-values :
      (live : Dict EventId (Marker EventId Color)) → length (values live) ≡ length live
  length-values [] = refl
  length-values (entry ∷ live) = ap suc (length-values live)
