-- ===== src/EventLayer/Synced.antt =====
-- That the marks on the map are those of the trails.
use ha_osrs_map.Base.{
  ◌*◌, ◌≡◌, refl, ap, ◌∙◌, arith, false, not, ◌&&◌, List, [], ◌∷◌, map, none, some, if◌then◌else◌,
  Bool-cases, inl, inr, Eq,
}
use ha_osrs_map.Base.Dict.{Dict, get, keys, delete, get-put, get-delete}
use ha_osrs_map.Base.Sets.{contains}
use ha_osrs_map.EventMarkers.{set_trail_marks, keep_each, keep_trails}
use ha_osrs_map.EventMarkers.Kept.{TrailMark, EventMarkers}
use ha_osrs_map.EventLayer.{EventLayer, Trails, sync_each, sync_trails}

module _ {ℓ κ ν} {EventId : Type ℓ} {Color : Type κ} {Name : Type ν} ⦃n : Eq Name⦄ where
  -- A trail's marks as the map keeps them.
  abbrev pub kept_marks : Trails EventId Color Name → Name → List (TrailMark EventId Color Name)
  kept_marks trails name =
      map
        (λ mark. record {
          mark = mark;
          color = trails.color_of name;
          at = mark.t * 1000;
          trail = name;
        })
        (trails.marks_on name)

  get-sync_each :
      (trails : Trails EventId Color Name) (names : List Name) (m : EventMarkers EventId Color Name)
      (name : Name)
      → get name (sync_each trails names m).trails
        ≡ (if contains name names then some (kept_marks trails name) else get name m.trails)
  unfolding sync_each set_trail_marks contains
  get-sync_each trails [] m name = refl
  get-sync_each trails (other ∷ names) m name =
      get-sync_each trails names _ name ∙ elim (Bool-cases (n.beq other name)) [
        | inl same ↦ ground (
          arith,
          get-put other name (kept_marks trails other) m.trails,
          same,
          ap (kept_marks trails) ((n.beq_iff other name).0 same),
        )
        | inr different ↦
            ground (arith, get-put other name (kept_marks trails other) m.trails, different)
      ]

  get-keep_each :
      (names shown : List Name) (kept : Dict Name (List (TrailMark EventId Color Name)))
      (name : Name)
      → get name (keep_each names shown kept)
        ≡ (if contains name shown && not (contains name names) then none else get name kept)
  unfolding contains
  get-keep_each names [] kept name = refl
  get-keep_each names (other ∷ shown) kept name =
      get-keep_each names shown (if contains other names then kept else delete other kept) name
      ∙ elim (Bool-cases (n.beq other name)) [
        | inl same ↦ ground (
          arith,
          same,
          get-delete other name kept,
          ap (λ x. contains x names) ((n.beq_iff other name).0 same),
        )
        | inr different ↦ ground (arith, different, get-delete other name kept)
      ]

  get-not_key :
      (name : Name) (kept : Dict Name (List (TrailMark EventId Color Name)))
      → contains name (keys kept) ≡ false
      → get name kept ≡ none
  unfolding contains get
  get-not_key name [] h = refl
  get-not_key name ((other, marks) ∷ kept) h = ground (arith, h, get-not_key name kept)

module _ {ℓ κ ν τ} {EventId : Type ℓ} {Color : Type κ} {Name : Type ν} {Text : Type τ}
    ⦃n : Eq Name⦄ where
  -- After the map has followed the trails, a player's marks on it are those of their trail, in its
  -- color and at their times, if they have one, and there are none of anyone else.
  pub sync_trails-marks :
      (trails : Trails EventId Color Name) (layer : EventLayer EventId Color Name Text)
      (name : Name)
      → get name (sync_trails trails layer).markers.trails
        ≡ (if contains name trails.names then some (kept_marks trails name) else none)
  unfolding sync_trails keep_trails
  sync_trails-marks trails layer name =
      let synced = (sync_each trails trails.names layer.markers).trails in
      elim (Bool-cases (contains name (keys synced))) [
        | inl there ↦
            get-keep_each trails.names (keys synced) synced name
            ∙ ground (arith, there, get-sync_each trails trails.names layer.markers name)
        | inr absent ↦
            get-keep_each trails.names (keys synced) synced name
            ∙ ground (
              arith,
              absent,
              get-not_key name synced absent,
              get-sync_each trails trails.names layer.markers name,
            )
      ]
