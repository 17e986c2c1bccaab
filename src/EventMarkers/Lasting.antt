-- ===== src/EventMarkers/Lasting.antt =====
-- How long markers stay, and how many there are.
use ha_osrs_map.Base.{
  ℕ, ◌-◌, ◌≡◌, refl, sym, ◌∙◌, ap, arith, Bool, true, false, [], ◌∷◌, Option, none, some,
  if◌then◌else◌, leb, Eq, Bool-cases, inl, inr,
}
use ha_osrs_map.Base.Dict.{Dict, get, has, Distinct, get-delete}
use ha_osrs_map.EventMarkers.{prune_each, prune}
use ha_osrs_map.EventMarkers.Kept.{EventMarkers}

-- What is left of a value: nothing of one that has had its time.
abbrev pub unexpired {κ} : {V : Type κ} → (V → Bool) → Option V → Option V
unexpired expired none = none
unexpired expired (some v) = if expired v then none else some v

module _ {ℓ κ} {K : Type ℓ} {V : Type κ} ⦃e : Eq K⦄ (expired : V → Bool) where
  -- Whether some entry of a key has had its time.
  has_expired : K → Dict K V → Bool
  has_expired k [] = false
  has_expired k ((j, v) ∷ m) =
      let rest = has_expired k m in if e.beq j k then (if expired v then true else rest) else rest

  get-prune_each :
      (k : K) (entries m : Dict K V)
      → get k (prune_each expired entries m) ≡ (if has_expired k entries then none else get k m)
  unfolding prune_each has_expired
  get-prune_each k [] m = refl
  get-prune_each k ((j, v) ∷ entries) m = elim (Bool-cases (expired v)) [
    | inl old ↦ get-prune_each k entries _ ∙ rw (old, get-delete j k m) (ground arith)
    | inr young ↦ get-prune_each k entries _ ∙ rw young (ground arith)
  ]

  not_has_expired : (k : K) (m : Dict K V) → has k m ≡ false → has_expired k m ≡ false
  unfolding has has_expired
  not_has_expired k [] h = refl
  not_has_expired k ((j, v) ∷ m) h = ground (arith, not_has_expired k m)

  has_expired-get :
      (k : K) (m : Dict K V)
      → Distinct m
      → (if has_expired k m then none else get k m) ≡ unexpired expired (get k m)
  unfolding get has_expired
  has_expired-get k [] d = refl
  has_expired-get k ((j, v) ∷ m) d = elim (Bool-cases (e.beq j k)) [
    | inl same ↦
        let gone = not_has_expired k m (ap (λ i. has i m) (sym ((e.beq_iff j k).0 same)) ∙ d.0) in
        rw (same, gone) (ground arith)
    | inr other ↦ rw other (has_expired-get k m d.1)
  ]

module _ {ℓ κ ν} {EventId : Type ℓ} {Color : Type κ} {Name : Type ν} ⦃e : Eq EventId⦄ where
  -- Pruning takes off exactly the live markers that have had their half hour and the rings that
  -- are over, and leaves every other as it is.
  pub prune-lasts :
      (now : ℕ) (m : EventMarkers EventId Color Name) (id : EventId)
      → Distinct m.live
      → Distinct m.pops
      → (get id (prune now m).live
          ≡ unexpired (λ marker. leb 1800000 (now - marker.at)) (get id m.live))
        × (get id (prune now m).pops
            ≡ unexpired (λ started. leb 2400 (now - started)) (get id m.pops))
  unfolding prune
  prune-lasts now m id d d' = (
    get-prune_each _ id m.live m.live ∙ has_expired-get _ id m.live d,
    get-prune_each _ id m.pops m.pops ∙ has_expired-get _ id m.pops d',
  )
