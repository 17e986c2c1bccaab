-- ===== src/Trail/Steps.antt =====
-- What the classification of a step promises (`classifyStep`).
use ha_osrs_map.Base.{ℕ, ◌*◌, ◌≤◌, ◌≡◌, refl, ◌↔◌, true, false, Option, none, some, arith}
use ha_osrs_map.Trail.Point.{
  Via, Point, Band, band, band_beq, distance, move_kind, elapsed_between, sure_reach, far_reach,
  twelfths, classify_bands, classify_unlabelled, classify_via, classify_step, is_connected,
}

move_kind-is_connected : (a b : Point) → is_connected (move_kind a b) ≡ true
unfolding move_kind
move_kind-is_connected a b = ground arith

classify_bands-not-connected :
    (a b : Point) (c d : Band) → is_connected (classify_bands a b c d) ≡ false
unfolding classify_bands
classify_bands-not-connected a b c d = ground arith

-- What was run for sure is never too far for a run at all.
sure_reach-le-far_reach : (a b : Point) → sure_reach a b ≤ 4 * far_reach a b
sure_reach-le-far_reach a b = ground arith

-- The distance that a judged step may have on foot or by boat.
pub record IsReachable (a b : Point) (limit : ℕ) : Type 0 where
  pub same_band : band_beq (band a.x a.y) (band b.x b.y) ≡ true
  pub no_gap : elapsed_between a b ≤ limit
  pub near : 4 * twelfths (distance a b 0 0) ≤ sure_reach a b

module _ (a b : Point) (limit : ℕ) where
  connected→IsReachable :
      is_connected (classify_unlabelled a b limit) ≡ true → IsReachable a b limit
  unfolding classify_unlabelled
  connected→IsReachable h = record {
    same_band = ground (arith, classify_bands-not-connected a b (band a.x a.y) (band b.x b.y));
    no_gap = ground (arith, classify_bands-not-connected a b (band a.x a.y) (band b.x b.y));
    near = ground (arith, classify_bands-not-connected a b (band a.x a.y) (band b.x b.y));
  }

  IsReachable→connected :
      IsReachable a b limit → is_connected (classify_unlabelled a b limit) ≡ true
  unfolding classify_unlabelled
  IsReachable→connected r =
      ground (arith, r.same_band, move_kind-is_connected a b, sure_reach-le-far_reach a b)

  classify_via-none :
      (o : Option Via) → o ≡ none → classify_via o a b limit ≡ classify_unlabelled a b limit
  unfolding classify_via
  classify_via-none none e = refl
  classify_via-none (some v) e = cc

  classify_via-some :
      (o : Option Via) (v : Via)
      → o ≡ some v
      → (is_connected (classify_via o a b limit) ≡ true) ↔ (v ≡ Via.move)
  unfolding classify_via
  classify_via-some none v e = cc
  classify_via-some (some w) v e = ground (arith, move_kind-is_connected a b)

  -- A step without a label counts as connected exactly when both ends lie in one part of the map,
  -- there is no gap between them, and the distance was within a run (or a boat trip) for sure.
  pub classify_step-unlabelled_iff :
      b.via ≡ none → (is_connected (classify_step a b limit) ≡ true) ↔ IsReachable a b limit
  unfolding classify_step
  classify_step-unlabelled_iff e = (
    λ h. connected→IsReachable (cc (classify_via-none b.via e)),
    λ r. cc (classify_via-none b.via e, IsReachable→connected r),
  )

  -- A step with a label counts as connected exactly when the label is a move, wherever the two
  -- points are and however far apart.
  pub classify_step-labelled_iff :
      (v : Via) → b.via ≡ some v → (is_connected (classify_step a b limit) ≡ true) ↔ (v ≡ Via.move)
  unfolding classify_step
  classify_step-labelled_iff v e = classify_via-some b.via v e
