-- ===== src/PubSub/History.antt =====
-- What a history of operations leaves behind, said from the operations alone.
use ha_osrs_map.Base.{
  ◌≡◌, refl, Bool, true, false, List, [], ◌∷◌, map, Option, none, some, if◌then◌else◌, arith, Eq,
  Bool-cases, inl, inr, ap, ◌∙◌, sym,
}
use ha_osrs_map.Base.Dict.{Dict, get, put, get-put, get-delete}
use ha_osrs_map.Base.Sets.{
  contains, add, remove, contains-add, contains-remove, NoDup, add-NoDup, remove-NoDup,
}
use ha_osrs_map.PubSub.{
  PubSub, no_topics, listeners_of, listeners, get_most_recent, publish, unpublish, unpublish_all,
  subscribe, unsubscribe, unsubscribe_from,
}

pub data Operation {τ ℓ κ} (T : Type τ) (S : Type ℓ) (V : Type κ) : Type (τ ⊔ ℓ ⊔ κ) where
  subscribing : T → S → Bool → Operation T S V
  unsubscribing : T → S → Operation T S V
  publishing : T → V → Operation T S V
  unpublishing : T → Operation T S V
  unpublishing_all : Operation T S V

contains-put {τ ℓ} :
    {T : Type τ} {S : Type ℓ} ⦃k : Eq T⦄ ⦃e : Eq S⦄ (topic t : T) (s : S) (set : List S)
    (m : Dict T (List S))
    → contains s (listeners_of (get topic (put t set m)))
      ≡ (if k.beq t topic then contains s set else contains s (listeners_of (get topic m)))
contains-put ⦃k⦄ topic t s set m =
    rw (get-put t topic set m)
      elim (Bool-cases (k.beq t topic)) [ inl same ↦ rw same | inr other ↦ rw other ]

called {ℓ κ} :
    {S : Type ℓ} {V : Type κ} (v : V) (set : List S)
    → map (λ (call : S × V). call.0) (map (λ s. (s, v)) set) ≡ set
called v [] = refl
called v (s ∷ set) = ap (◌∷◌ s) (called v set)

put-NoDup {τ ℓ} :
    {T : Type τ} {S : Type ℓ} ⦃k : Eq T⦄ ⦃e : Eq S⦄ (topic t : T) (set : List S)
    (m : Dict T (List S))
    → NoDup set
    → NoDup (listeners_of (get topic m))
    → NoDup (listeners_of (get topic (put t set m)))
put-NoDup ⦃k⦄ topic t set m new old =
    rw (get-put t topic set m)
      elim (Bool-cases (k.beq t topic)) [ inl same ↦ rw same new | inr other ↦ rw other old ]

module _ {τ ℓ κ} {T : Type τ} {S : Type ℓ} {V : Type κ} ⦃k : Eq T⦄ where
  -- What the last value of a topic is after an operation, given what it was.
  abbrev pub last_value : T → Operation T S V → Option V → Option V
  last_value topic (publishing t v) before = if k.beq t topic then some v else before
  last_value topic (unpublishing t) before = if k.beq t topic then none else before
  last_value topic unpublishing_all before = none
  last_value topic _ before = before

  -- A history has its last operation first.
  abbrev pub last_published : T → List (Operation T S V) → Option V
  last_published topic [] = none
  last_published topic (o ∷ history) = last_value topic o (last_published topic history)

  module _ ⦃e : Eq S⦄ where
    abbrev pub perform : Operation T S V → PubSub T S V → PubSub T S V
    perform (subscribing t s receive) p = (subscribe t s receive p).0
    perform (unsubscribing t s) p = unsubscribe t s p
    perform (publishing t v) p = (publish t v p).0
    perform (unpublishing t) p = unpublish t p
    perform unpublishing_all p = unpublish_all p

    abbrev pub after : List (Operation T S V) → PubSub T S V
    after [] = no_topics
    after (o ∷ history) = perform o (after history)

    -- Whether a subscriber listens to a topic after an operation, given whether it did.
    abbrev pub listens_after : T → S → Operation T S V → Bool → Bool
    listens_after topic s (subscribing t other receive) before =
        if k.beq t topic then (if e.beq other s then true else before) else before
    listens_after topic s (unsubscribing t other) before =
        if k.beq t topic then (if e.beq other s then false else before) else before
    listens_after topic s _ before = before

    abbrev pub listens : T → S → List (Operation T S V) → Bool
    listens topic s [] = false
    listens topic s (o ∷ history) = listens_after topic s o (listens topic s history)

    get_most_recent-unsubscribe_from :
        (topic t : T) (s : S) (set : Option (List S)) (p : PubSub T S V)
        → get_most_recent topic (unsubscribe_from t s set p) ≡ get_most_recent topic p
    unfolding get_most_recent
    get_most_recent-unsubscribe_from topic t s none p = refl
    get_most_recent-unsubscribe_from topic t s (some set) p = refl

    get_most_recent-perform :
        (topic : T) (o : Operation T S V) (p : PubSub T S V)
        → get_most_recent topic (perform o p) ≡ last_value topic o (get_most_recent topic p)
    unfolding get_most_recent publish unpublish unpublish_all subscribe unsubscribe get
    get_most_recent-perform topic (subscribing t s receive) p = refl
    get_most_recent-perform topic (unsubscribing t s) p =
        get_most_recent-unsubscribe_from topic t s (get t p.subscribers) p
    get_most_recent-perform topic (publishing t v) p = get-put t topic v p.most_recent
    get_most_recent-perform topic (unpublishing t) p = get-delete t topic p.most_recent
    get_most_recent-perform topic unpublishing_all p = refl

    -- After any history of operations, the last value of a topic is the one published last, if
    -- nothing has unpublished it since.
    pub get_most_recent-after :
        (topic : T) (history : List (Operation T S V))
        → get_most_recent topic (after history) ≡ last_published topic history
    unfolding get_most_recent get
    get_most_recent-after topic [] = refl
    get_most_recent-after topic (o ∷ history) =
        get_most_recent-perform topic o (after history)
        ∙ ap (last_value topic o) (get_most_recent-after topic history)

    contains-unsubscribe_from :
        (topic t : T) (s other : S) (set : Option (List S)) (p : PubSub T S V)
        → get t p.subscribers ≡ set
        → contains s (listeners topic (unsubscribe_from t other set p))
          ≡ listens_after topic s (unsubscribing t other) (contains s (listeners topic p))
    unfolding listeners contains
    contains-unsubscribe_from topic t s other none p h = elim (Bool-cases (k.beq t topic)) [
      | inl same ↦ rw (same, sym ((k.beq_iff t topic).0 same), h) ground arith
      | inr different ↦ rw different
    ]
    contains-unsubscribe_from topic t s other (some set) p h =
        rw (contains-put topic t s (remove other set) p.subscribers, contains-remove other s set)
          elim (Bool-cases (k.beq t topic)) [
            | inl same ↦ rw (same, sym ((k.beq_iff t topic).0 same), h)
            | inr different ↦ rw different
          ]

    listeners-perform :
        (topic : T) (s : S) (o : Operation T S V) (p : PubSub T S V)
        → contains s (listeners topic (perform o p))
          ≡ listens_after topic s o (contains s (listeners topic p))
    unfolding listeners publish unpublish unpublish_all subscribe unsubscribe
    listeners-perform topic s (subscribing t other receive) p =
        rw
          (
            contains-put topic t s (add other (listeners t p)) p.subscribers,
            contains-add other s (listeners t p),
          )
          elim (Bool-cases (k.beq t topic)) [
            | inl same ↦ rw (same, sym ((k.beq_iff t topic).0 same))
            | inr different ↦ rw different
          ]
    listeners-perform topic s (unsubscribing t other) p =
        contains-unsubscribe_from topic t s other (get t p.subscribers) p refl
    listeners-perform topic s (publishing t v) p = refl
    listeners-perform topic s (unpublishing t) p = refl
    listeners-perform topic s unpublishing_all p = refl

    listeners-after :
        (topic : T) (s : S) (history : List (Operation T S V))
        → contains s (listeners topic (after history)) ≡ listens topic s history
    unfolding listeners get contains
    listeners-after topic s [] = refl
    listeners-after topic s (o ∷ history) =
        listeners-perform topic s o (after history)
        ∙ ap (listens_after topic s o) (listeners-after topic s history)

    unsubscribe_from-NoDup :
        (topic t : T) (s : S) (set : Option (List S)) (p : PubSub T S V)
        → NoDup (listeners_of set)
        → NoDup (listeners topic p)
        → NoDup (listeners topic (unsubscribe_from t s set p))
    unfolding listeners
    unsubscribe_from-NoDup topic t s none p set rest = rest
    unsubscribe_from-NoDup topic t s (some set) p d rest =
        put-NoDup topic t (remove s set) p.subscribers (remove-NoDup s set d) rest

    perform-NoDup :
        (o : Operation T S V) (p : PubSub T S V)
        → ((topic : T) → NoDup (listeners topic p))
        → (topic : T) → NoDup (listeners topic (perform o p))
    unfolding listeners publish unpublish unpublish_all subscribe unsubscribe
    perform-NoDup (subscribing t s receive) p d topic =
        put-NoDup topic t (add s (listeners t p)) p.subscribers (add-NoDup s _ (d t)) (d topic)
    perform-NoDup (unsubscribing t s) p d topic =
        unsubscribe_from-NoDup topic t s (get t p.subscribers) p (d t) (d topic)
    perform-NoDup (publishing t v) p d topic = d topic
    perform-NoDup (unpublishing t) p d topic = d topic
    perform-NoDup unpublishing_all p d topic = d topic

    listeners-NoDup :
        (topic : T) (history : List (Operation T S V)) → NoDup (listeners topic (after history))
    unfolding listeners get
    listeners-NoDup topic [] = tt
    listeners-NoDup topic (o ∷ history) =
        perform-NoDup o (after history) (λ t. listeners-NoDup t history) topic

    -- A value published after any history goes, once each, to the subscribers that have subscribed
    -- to the topic and not unsubscribed since, and to nobody else.
    pub publish-reaches :
        (topic : T) (v : V) (history : List (Operation T S V))
        → let reached = map (λ (call : S × V). call.0) (publish topic v (after history)).1 in
          NoDup reached × ((s : S) → contains s reached ≡ listens topic s history)
    unfolding publish
    publish-reaches topic v history =
        rw (called v (listeners topic (after history)))
          (listeners-NoDup topic history, λ s. listeners-after topic s history)
