-- ===== src/PubSub/Tests.antt =====
-- The topics at a small history, and their theorems at it.
use ha_osrs_map.Base.{nat_eq, ◌≡◌, refl, ℕ, true, List, [], ◌∷◌, map}
use ha_osrs_map.Base.Dict.{get, put}
use ha_osrs_map.Base.Sets.{contains, add, remove, NoDup}
use ha_osrs_map.PubSub.{listeners, publish, subscribe, unsubscribe}
use ha_osrs_map.PubSub.History.{
  Operation, subscribing, unsubscribing, publishing, after, listens, publish-reaches,
}

-- Subscribers 1 and 2 come to topic 7, 1 leaves, and two values are published, the last one first.
abbrev history : List (Operation ℕ ℕ ℕ)
history =
    publishing 7 40
    ∷ unsubscribing 7 1
    ∷ publishing 7 30
    ∷ subscribing 7 2 true
    ∷ subscribing 7 1 true
    ∷ []

publish_calls : (publish 7 50 (after history)).1 ≡ (2, 50) ∷ []
unfolding publish listeners subscribe unsubscribe get put add remove
publish_calls = refl

replays_last : (subscribe 7 3 true (after history)).1 ≡ (3, 40) ∷ []
unfolding publish listeners subscribe unsubscribe get put add remove
replays_last = refl

publish-reaches_example :
    NoDup (map (λ (call : ℕ × ℕ). call.0) (publish 7 50 (after history)).1)
    × ((s : ℕ)
        → contains s (map (λ (call : ℕ × ℕ). call.0) (publish 7 50 (after history)).1)
          ≡ listens 7 s history)
publish-reaches_example = publish-reaches 7 50 history
