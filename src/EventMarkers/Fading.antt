-- ===== src/EventMarkers/Fading.antt =====
-- How strongly a live marker is drawn.
use ha_osrs_map.Base.{ℕ, ◌≤◌, ◌≡◌, ◌↔◌, arith}
use ha_osrs_map.EventMarkers.Kept.{marker_alpha}

-- A marker only ever fades: it is drawn in full until the fade begins, then ever less strongly, and
-- no longer at all exactly from the end of its half hour on.
pub marker_alpha-fades :
    (age later : ℕ)
    → age ≤ later
    → (marker_alpha later ≤ marker_alpha age)
      × (marker_alpha age ≤ 30000000)
      × ((marker_alpha age ≡ 0) ↔ (1800000 ≤ age))
      × ((marker_alpha age ≡ 30000000) ↔ (age ≤ 1500000))
unfolding marker_alpha
marker_alpha-fades age later h = ground arith
