-- ===== src/EventMarkers/Bounded.antt =====
-- How many live markers there are.
use ha_osrs_map.Base.{
  ltb→lt, ℕ, ◌-◌, ◌≤◌, ◌≡◌, refl, ◌∙◌, arith, Bool, not, ◌||◌, List, [], ◌∷◌, Option, none, some,
  ltb, leb, length, take, All-take, Eq, Bool-cases, inl, inr, length-take,
}
use ha_osrs_map.Base.Dict.{Dict, has, put, delete, values, Distinct, put-Distinct, delete-Distinct}
use ha_osrs_map.Base.Sets.{NoDup, take-NoDup}
use ha_osrs_map.Base.Sorting.{length-sort, All-sort}
use ha_osrs_map.EventView.{HubEvent, event_kind}
use ha_osrs_map.EventMarkers.{
  is_shown_kind, new_marker, oldest_first, add_to, add_each, delete_each, drop_oldest, add,
}
use ha_osrs_map.EventMarkers.Kept.{
  EventMarkers, Marker, Whereabouts, event_marker_ms, event_markers_max,
}
use ha_osrs_map.EventMarkers.Ids.{
  marker_ids, IsKeyed, length-delete_each, marker_ids-take, sort-NoDup, values-NoDup, has-values,
  length-values,
}

module _ {ℓ κ} {EventId : Type ℓ} {Color : Type κ} ⦃e : Eq EventId⦄ where
  -- At most 200 are left of however many.
  drop_oldest-le :
      (live : Dict EventId (Marker EventId Color))
      → IsKeyed live
      → Distinct live
      → length (drop_oldest live) ≤ 200
  unfolding drop_oldest
  drop_oldest-le live k d = elim (Bool-cases (ltb event_markers_max (length live))) [
    | inr few ↦ rw few (ground (arith, few))
    | inl many ↦
        let excess = take (length live - event_markers_max) (oldest_first live) in
        let nodup : NoDup (marker_ids excess) =
          rw (marker_ids-take (length live - event_markers_max) (oldest_first live)) (
            take-NoDup (length live - event_markers_max) _
              (sort-NoDup _ (values live) (values-NoDup live k d))) in
        rw many (
          omega (
            arith,
            ltb→lt event_markers_max (length live) many,
            length-values live,
            length-sort (λ (a b : Marker EventId Color). leb a.at b.at) (values live),
            length-take (length live - event_markers_max) (oldest_first live),
            length-delete_each excess live d nodup (
                All-take _ (length live - event_markers_max) (oldest_first live)
                  (All-sort _ _ (values live) (has-values live k))),
          ))
  ]

  put-IsKeyed :
      (id : EventId) (marker : Marker EventId Color) (live : Dict EventId (Marker EventId Color))
      → id ≡ marker.id
      → IsKeyed live
      → IsKeyed (put id marker live)
  unfolding put
  put-IsKeyed id marker [] h k = (h, tt)
  put-IsKeyed id marker ((j, other) ∷ live) h k = elim (Bool-cases (e.beq j id)) [
    | inl same ↦ rw same ((e.beq_iff j id).0 same ∙ h, k.1)
    | inr different ↦ rw different (k.0, put-IsKeyed id marker live h k.1)
  ]

  pub delete-IsKeyed :
      (id : EventId) (live : Dict EventId (Marker EventId Color))
      → IsKeyed live
      → IsKeyed (delete id live)
  unfolding delete
  delete-IsKeyed id [] k = tt
  delete-IsKeyed id ((j, other) ∷ live) k = elim (Bool-cases (e.beq j id)) [
    | inl same ↦ rw same (delete-IsKeyed id live k.1)
    | inr different ↦ rw different (k.0, delete-IsKeyed id live k.1)
  ]

  -- Each marker stands under its id, and no id twice.
  abbrev pub IsStore : Dict EventId (Marker EventId Color) → Type ℓ
  IsStore live = IsKeyed live × Distinct live

  delete_each-IsStore :
      (markers : List (Marker EventId Color)) (live : Dict EventId (Marker EventId Color))
      → IsStore live
      → IsStore (delete_each markers live)
  unfolding delete_each
  delete_each-IsStore [] live s = s
  delete_each-IsStore (marker ∷ markers) live s =
      delete_each-IsStore markers (delete marker.id live)
        (delete-IsKeyed marker.id live s.0, delete-Distinct marker.id live s.1)

  drop_oldest-IsStore :
      (live : Dict EventId (Marker EventId Color)) → IsStore live → IsStore (drop_oldest live)
  unfolding drop_oldest
  drop_oldest-IsStore live s = elim (Bool-cases (ltb event_markers_max (length live))) [
    | inr few ↦ rw few s
    | inl many ↦ rw many (delete_each-IsStore _ live s)
  ]

  add_to-IsStore :
      (now : ℕ) (news : Bool) (event : HubEvent EventId) (id : Option EventId) (at : Option ℕ)
      (place : Option (Whereabouts Color)) (live : Dict EventId (Marker EventId Color))
      (added : List (Marker EventId Color))
      → IsStore live
      → IsStore (add_to now news event id at place (live, added)).0
  unfolding add_to
  add_to-IsStore now news event none at place live added s = s
  add_to-IsStore now news event (some id) none place live added s = s
  add_to-IsStore now news event (some id) (some at) none live added s = s
  add_to-IsStore now news event (some id) (some at) (some place) live added s =
      let marker = new_marker now news event id at place in
      elim (Bool-cases
        (has id live || leb event_marker_ms (now - at) || not (is_shown_kind (event_kind event)))) [
          | inl skipped ↦ rw skipped s
          | inr new ↦ rw new (put-IsKeyed id marker live refl s.0, put-Distinct id marker live s.1)
        ]

  add_each-IsStore :
      (now : ℕ) (place : HubEvent EventId → Option (Whereabouts Color)) (news : Bool)
      (events : List (HubEvent EventId)) (live : Dict EventId (Marker EventId Color))
      (added : List (Marker EventId Color))
      → IsStore live
      → IsStore (add_each now place news events (live, added)).0
  unfolding add_each
  add_each-IsStore now place news [] live added s = s
  add_each-IsStore now place news (event ∷ events) live added s =
      add_each-IsStore now place news events _ _
        (add_to-IsStore now news event event.id event.occurred (place event) live added s)

module _ {ℓ κ ν} {EventId : Type ℓ} {Color : Type κ} {Name : Type ν} ⦃e : Eq EventId⦄ where
  -- Whatever events are added, and wherever they are put, at most 200 live markers are left, each
  -- under its event's id and no id twice, if that held of those there were.
  pub add-IsStore :
      (events : List (HubEvent EventId)) (now : ℕ)
      (place : HubEvent EventId → Option (Whereabouts Color)) (news : Bool)
      (m : EventMarkers EventId Color Name)
      → IsStore m.live
      → (length (add events now place news m).0.live ≤ 200)
        × IsStore (add events now place news m).0.live
  unfolding add
  add-IsStore events now place news m s =
      let added = add_each-IsStore now place news events m.live [] s in
      (drop_oldest-le _ added.0 added.1, drop_oldest-IsStore _ added)
