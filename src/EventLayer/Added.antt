-- ===== src/EventLayer/Added.antt =====
-- What the markers are like that `add` adds.
use ha_osrs_map.Base.{
  ℕ, ◌-◌, ◌≡◌, refl, subst, arith, Bool, true, false, not, ◌||◌, List, [], ◌∷◌, ◌++◌, Option, none,
  some, leb, if◌then◌else◌, Bool-cases, inl, inr, All, All-append, All-map, Eq, beq_self, beq_comm,
}
use ha_osrs_map.Base.Dict.{Dict, has, has-put}
use ha_osrs_map.Base.Sets.{contains, NoDup}
use ha_osrs_map.EventView.{HubEvent, event_kind}
use ha_osrs_map.EventMarkers.{is_shown_kind, new_marker, add_to, add_each, add}
use ha_osrs_map.EventMarkers.Kept.{EventMarkers, Marker, Whereabouts, event_marker_ms}
use ha_osrs_map.EventMarkers.Ids.{marker_ids}

module _ {ℓ κ} {EventId : Type ℓ} {Color : Type κ} ⦃e : Eq EventId⦄ where
  -- A marker has its event's id, and its time is not up.
  abbrev pub IsCurrent : ℕ → Marker EventId Color → Type ℓ
  IsCurrent now m = (m.event.id ≡ some m.id) × (leb event_marker_ms (now - m.at) ≡ false)

  pub record IsAdded (now : ℕ) (live : Dict EventId (Marker EventId Color))
      (added : List (Marker EventId Color)) : Type (ℓ ⊔ κ) where
    pub current : All (IsCurrent now) added
    pub distinct : NoDup (marker_ids added)
    pub on_map : All (λ m. has m.id live ≡ true) added

  absent_of :
      (id : EventId) (live : Dict EventId (Marker EventId Color))
      (added : List (Marker EventId Color))
      → has id live ≡ false
      → All (λ m. has m.id live ≡ true) added
      → contains id (marker_ids added) ≡ false
  unfolding contains marker_ids
  absent_of id live [] absent all = refl
  absent_of id live (m ∷ added) absent all = elim (Bool-cases (e.beq m.id id)) [
    | inl same ↦
        let there = subst (λ i. has i live ≡ true) ((e.beq_iff m.id id).0 same) all.0 in
        cc (there, absent)
    | inr other ↦ rw other (absent_of id live added absent all.1)
  ]

  contains-snoc :
      (id : EventId) (added : List (Marker EventId Color)) (new : Marker EventId Color)
      → contains id (marker_ids (added ++ (new ∷ [])))
        ≡ (if contains id (marker_ids added) then true else e.beq new.id id)
  unfolding contains marker_ids
  contains-snoc id [] new = ground arith
  contains-snoc id (m ∷ added) new = ground (arith, contains-snoc id added new)

  snoc-NoDup :
      (added : List (Marker EventId Color)) (new : Marker EventId Color)
      → NoDup (marker_ids added)
      → contains new.id (marker_ids added) ≡ false
      → NoDup (marker_ids (added ++ (new ∷ [])))
  unfolding contains marker_ids
  snoc-NoDup [] new d h = (refl, tt)
  snoc-NoDup (m ∷ added) new d h = (
    ground (arith, contains-snoc m.id added new, beq_comm m.id new.id, h, d.0),
    snoc-NoDup added new d.1 (ground (arith, h)),
  )

  add_to-IsAdded :
      (now : ℕ) (news : Bool) (event : HubEvent EventId) (id : Option EventId) (at : Option ℕ)
      (place : Option (Whereabouts Color)) (live : Dict EventId (Marker EventId Color))
      (added : List (Marker EventId Color))
      → event.id ≡ id
      → IsAdded now live added
      → let r = add_to now news event id at place (live, added) in IsAdded now r.0 r.1
  unfolding add_to
  add_to-IsAdded now news event none at place live added named v = v
  add_to-IsAdded now news event (some id) none place live added named v = v
  add_to-IsAdded now news event (some id) (some at) none live added named v = v
  add_to-IsAdded now news event (some id) (some at) (some place) live added named v =
      let marker = new_marker now news event id at place in
      elim (Bool-cases
        (has id live || leb event_marker_ms (now - at) || not (is_shown_kind (event_kind event)))) [
          | inl skipped ↦ rw skipped v
          | inr new ↦
              let absent : has id live ≡ false = ground (arith, new) in
              rw new (record {
                current =
                    All-append (IsCurrent now) added (marker ∷ []) v.current
                      ((named, ground (arith, new)), tt);
                distinct =
                    snoc-NoDup added marker v.distinct (absent_of id live added absent v.on_map);
                on_map =
                    All-append _ added (marker ∷ [])
                      (All-map _ added
                        (λ (m : Marker EventId Color) h.
                          ground (arith, has-put id m.id marker live, h))
                        v.on_map)
                      (ground (arith, has-put id id marker live, beq_self id), tt);
              })
        ]

  add_each-IsAdded :
      (now : ℕ) (place : HubEvent EventId → Option (Whereabouts Color)) (news : Bool)
      (events : List (HubEvent EventId)) (live : Dict EventId (Marker EventId Color))
      (added : List (Marker EventId Color))
      → IsAdded now live added
      → let r = add_each now place news events (live, added) in IsAdded now r.0 r.1
  unfolding add_each
  add_each-IsAdded now place news [] live added v = v
  add_each-IsAdded now place news (event ∷ events) live added v =
      add_each-IsAdded now place news events _ _
        (add_to-IsAdded now news event event.id event.occurred (place event) live added refl v)

module _ {ℓ κ ν} {EventId : Type ℓ} {Color : Type κ} {Name : Type ν} ⦃e : Eq EventId⦄ where
  -- The markers that are added have their events' ids, each once, and their time is not up.
  pub add-added :
      (events : List (HubEvent EventId)) (now : ℕ)
      (place : HubEvent EventId → Option (Whereabouts Color)) (news : Bool)
      (m : EventMarkers EventId Color Name)
      → let added = (add events now place news m).1 in
        All (IsCurrent now) added × NoDup (marker_ids added)
  unfolding add marker_ids
  add-added events now place news m =
      let all =
        add_each-IsAdded now place news events m.live []
          (record { current = tt; distinct = tt; on_map = tt }) in
      (all.current, all.distinct)
