-- ===== src/LiveEvents/Feed.antt =====
-- What `apply` does to the feed.
use ha_osrs_map.Base.{
  ℕ, ◌+◌, ◌≤◌, ◌≡◌, refl, ap, arith, true, false, not, ◌&&◌, List, [], ◌∷◌, ◌++◌, Option, none,
  some, nat_beq, length, take, keep_if, length-take, Eq, Bool-cases, inl, inr, All, All-map, ◌||◌,
  take-all, length-append, length-keep_if-le, zero, suc,
}
use ha_osrs_map.Base.Sets.{
  contains, NoDup, contains-append, take-NoDup, append-NoDup, contains-keep_if, keep_if-NoDup,
}
use ha_osrs_map.LiveEvents.{
  Event, LiveEvents, Publication, keep, or_zero, is_none, newest, ids, fresh_of, heard, apply,
}

module _ {ℓ} {EventId : Type ℓ} ⦃e : Eq EventId⦄ where
  ids-append : (xs ys : List (Event EventId)) → ids (xs ++ ys) ≡ ids xs ++ ids ys
  ids-append [] ys = refl
  ids-append (x ∷ xs) ys = ap (◌∷◌ x.id) (ids-append xs ys)

  ids-take : (n : ℕ) (xs : List (Event EventId)) → ids (take n xs) ≡ take n (ids xs)
  ids-take zero xs = refl
  ids-take (suc n) [] = refl
  ids-take (suc n) (x ∷ xs) = ap (◌∷◌ x.id) (ids-take n xs)

  ids-fresh :
      (known batch : List (Event EventId))
      → ids (fresh_of known batch) ≡ keep_if (λ id. not (contains id (ids known))) (ids batch)
  unfolding fresh_of
  ids-fresh known [] = refl
  ids-fresh known (event ∷ batch) = elim (Bool-cases (contains event.id (ids known))) [
    | inl old ↦ rw old (ids-fresh known batch)
    | inr new ↦ rw new (ap (◌∷◌ event.id) (ids-fresh known batch))
  ]

  -- What is fresh is what the batch has and the feed does not.
  pub contains-fresh :
      (id : EventId) (known batch : List (Event EventId))
      → contains id (ids (fresh_of known batch))
        ≡ (contains id (ids batch) && not (contains id (ids known)))
  contains-fresh id known batch =
      rw
        (ids-fresh known batch, contains-keep_if (λ x. not (contains x (ids known))) id (ids batch))
        (ground arith)

  fresh-NoDup :
      (known batch : List (Event EventId)) → NoDup (ids batch) → NoDup (ids (fresh_of known batch))
  fresh-NoDup known batch d = rw (ids-fresh known batch) (keep_if-NoDup _ (ids batch) d)

  -- At most 300 events, no two with one id.
  abbrev pub IsFeed : List (Event EventId) → Type 0
  IsFeed events = (length events ≤ 300) × NoDup (ids events)

  merged-IsFeed :
      (known batch : List (Event EventId))
      → IsFeed known
      → NoDup (ids batch)
      → IsFeed (take keep (fresh_of known batch ++ known))
  merged-IsFeed known batch feed d = (
    omega (arith, length-take keep (fresh_of known batch ++ known)),
    rw (ids-take keep (fresh_of known batch ++ known), ids-append (fresh_of known batch) known)
        (take-NoDup keep _ (
          append-NoDup _ _ (fresh-NoDup known batch d) feed.1
            (λ x h. ground (arith, contains-fresh x known batch, h)))),
  )

  -- A batch of events with ids of their own, whatever of it is known already, leaves at most 300
  -- events in the feed, no two with one id.
  pub apply-IsFeed :
      (live : LiveEvents EventId) (batch : List (Event EventId)) (server_latest : Option ℕ)
      → IsFeed live.events
      → NoDup (ids batch)
      → IsFeed (apply live batch server_latest).0.events
  unfolding apply
  apply-IsFeed live batch server_latest feed d =
      let merged = merged-IsFeed live.events batch feed d in
      elim (Bool-cases (not (is_none live.latest) && nat_beq (length batch) 0)) [
        | inl quiet ↦ rw quiet feed
        | inr loud ↦ rw loud merged
      ]

  -- At most 300 events are at most 300 after any batch.
  pub apply-IsShort :
      (live : LiveEvents EventId) (batch : List (Event EventId)) (server_latest : Option ℕ)
      → length live.events ≤ 300
      → length (apply live batch server_latest).0.events ≤ 300
  unfolding apply
  apply-IsShort live batch server_latest short =
      let merged : length (take keep (fresh_of live.events batch ++ live.events)) ≤ 300 =
        omega (arith, length-take keep (fresh_of live.events batch ++ live.events)) in
      elim (Bool-cases (not (is_none live.latest) && nat_beq (length batch) 0)) [
        | inl quiet ↦ rw quiet short
        | inr loud ↦ rw loud merged
      ]

  newest-bounds : (batch : List (Event EventId)) → All (λ event. event.seq ≤ newest batch) batch
  newest-bounds [] = tt
  newest-bounds (event ∷ batch) =
      (omega arith, All-map _ batch (λ x h. omega (arith, h)) (newest-bounds batch))

  apply-latest :
      (live : LiveEvents EventId) (batch : List (Event EventId)) (server_latest : Option ℕ)
      → (apply live batch server_latest).0.latest ≡ some (heard live batch server_latest)
  unfolding apply
  apply-latest live batch server_latest =
      elim (Bool-cases (not (is_none live.latest) && nat_beq (length batch) 0)) [
        | inl quiet ↦ rw quiet
        | inr loud ↦ rw loud
      ]

  -- The number that the next request asks after never goes back, and is at least that of every
  -- event of the batch.
  pub apply-IsLater :
      (live : LiveEvents EventId) (batch : List (Event EventId)) (server_latest : Option ℕ)
      → let told = or_zero (apply live batch server_latest).0.latest in
        (or_zero live.latest ≤ told) × All (λ event. event.seq ≤ told) batch
  apply-IsLater live batch server_latest =
      rw (apply-latest live batch server_latest)
        (omega arith, All-map _ batch (λ x h. omega (arith, h)) (newest-bounds batch))

  nothing-contains :
      (id : EventId) (batch : List (Event EventId))
      → nat_beq (length batch) 0 ≡ true
      → contains id (ids batch) ≡ false
  unfolding contains
  nothing-contains id [] h = refl
  nothing-contains id (event ∷ batch) h = ground (arith, h)

  merged-feeds :
      (known batch : List (Event EventId)) (id : EventId)
      → length batch + length known ≤ 300
      → contains id (ids (take keep (fresh_of known batch ++ known)))
        ≡ (contains id (ids batch) || contains id (ids known))
  unfolding fresh_of
  merged-feeds known batch id room =
      let short : length (fresh_of known batch ++ known) ≤ 300 = omega (
        arith,
        length-append (fresh_of known batch) known,
        length-keep_if-le (λ event. not (contains event.id (ids known))) batch,
      ) in
      rw
        (
          take-all 300 (fresh_of known batch ++ known) short,
          ids-append (fresh_of known batch) known,
          contains-append id (ids (fresh_of known batch)) (ids known),
          contains-fresh id known batch,
        )
        (ground arith)

  -- Where the batch and the feed are together at most 300 events, the feed has after the batch is
  -- applied the events that it had and those of the batch, and no others.
  pub apply-feeds :
      (live : LiveEvents EventId) (batch : List (Event EventId)) (server_latest : Option ℕ)
      (id : EventId)
      → length batch + length live.events ≤ 300
      → contains id (ids (apply live batch server_latest).0.events)
        ≡ (contains id (ids batch) || contains id (ids live.events))
  unfolding apply
  apply-feeds live batch server_latest id room =
      let merged = merged-feeds live.events batch id room in
      elim (Bool-cases (not (is_none live.latest) && nat_beq (length batch) 0)) [
        | inl quiet ↦ rw quiet (ground (arith, quiet, nothing-contains id batch))
        | inr loud ↦ rw loud merged
      ]

  -- What a publication says was added, if there is one: nothing at the first load, and otherwise
  -- what the batch has and the feed had not.
  abbrev pub AddsNew :
      LiveEvents EventId → List (Event EventId) → Option (Publication EventId) → Type ℓ
  AddsNew live batch none = Unit
  AddsNew live batch (some publication) =
      (id : EventId)
      → contains id (ids publication.added) ≡ (
          not (is_none live.latest)
          && contains id (ids batch)
          && not (contains id (ids live.events)))

  -- A publication adds nothing at the first load, and otherwise what the batch has and the feed
  -- had not.
  pub apply-AddsNew :
      (live : LiveEvents EventId) (batch : List (Event EventId)) (server_latest : Option ℕ)
      → AddsNew live batch (apply live batch server_latest).1
  unfolding apply contains
  apply-AddsNew live batch server_latest =
      elim (Bool-cases (not (is_none live.latest) && nat_beq (length batch) 0)) [
        | inl quiet ↦ rw quiet tt
        | inr loud ↦ rw loud (λ id. elim (Bool-cases (is_none live.latest)) [
          | inl first ↦ rw first
          | inr later ↦ rw later (contains-fresh id live.events batch)
        ])
      ]
