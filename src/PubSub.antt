-- ===== src/PubSub.antt =====
-- The topics through which the client's parts talk: PubSub in site/src/data/pubsub.js. Subscribers
-- are told apart by a key, and a topic's arguments are one value. An operation gives the calls it
-- makes, in order; what a subscriber does when called is no part of the operation.
use ha_osrs_map.Base.{Bool, List, [], ◌∷◌, map, Option, none, some, if◌then◌else◌, Eq}
use ha_osrs_map.Base.Dict.{Dict, get, put, delete}
use ha_osrs_map.Base.Sets.{add, remove}
pub mod History
pub mod Tests

pub record PubSub {τ ℓ κ} (T : Type τ) (S : Type ℓ) (V : Type κ) : Type (τ ⊔ ℓ ⊔ κ) where
  pub subscribers : Dict T (List S)
  pub most_recent : Dict T V

abbrev pub listeners_of {ℓ} : {S : Type ℓ} → Option (List S) → List S
listeners_of none = []
listeners_of (some set) = set

abbrev pub replay {ℓ κ} : {S : Type ℓ} {V : Type κ} → S → Option V → List (S × V)
replay subscriber none = []
replay subscriber (some args) = (subscriber, args) ∷ []

module _ {τ ℓ κ} {T : Type τ} {S : Type ℓ} {V : Type κ} ⦃k : Eq T⦄ where
  abbrev pub no_topics : PubSub T S V
  no_topics = record { subscribers = []; most_recent = [] }

  -- Who is subscribed to a topic, in the order they are called in.
  unfoldable pub listeners : T → PubSub T S V → List S
  listeners topic p = listeners_of (get topic p.subscribers)

  unfoldable pub get_most_recent : T → PubSub T S V → Option V
  get_most_recent topic p = get topic p.most_recent

  unfoldable pub publish : T → V → PubSub T S V → PubSub T S V × List (S × V)
  publish topic args p = (
    record p { most_recent = put topic args p.most_recent },
    map (λ subscriber. (subscriber, args)) (listeners topic p),
  )

  unfoldable pub unpublish : T → PubSub T S V → PubSub T S V
  unpublish topic p = record p { most_recent = delete topic p.most_recent }

  unfoldable pub unpublish_all : PubSub T S V → PubSub T S V
  unpublish_all p = record p { most_recent = [] }

  module _ ⦃e : Eq S⦄ where
    unfoldable pub subscribe : T → S → Bool → PubSub T S V → PubSub T S V × List (S × V)
    subscribe topic subscriber receive_most_recent p = (
      record p { subscribers = put topic (add subscriber (listeners topic p)) p.subscribers },
      if receive_most_recent then replay subscriber (get topic p.most_recent) else [],
    )

    abbrev pub unsubscribe_from : T → S → Option (List S) → PubSub T S V → PubSub T S V
    unsubscribe_from topic subscriber none p = p
    unsubscribe_from topic subscriber (some set) p = record p {
      subscribers = put topic (remove subscriber set) p.subscribers;
    }

    unfoldable pub unsubscribe : T → S → PubSub T S V → PubSub T S V
    unsubscribe topic subscriber p = unsubscribe_from topic subscriber (get topic p.subscribers) p
