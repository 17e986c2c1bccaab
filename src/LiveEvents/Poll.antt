-- ===== src/LiveEvents/Poll.antt =====
-- A whole poll.
use ha_osrs_map.Base.{
  ℕ, ◌≡◌, ◌≤◌, length, refl, ap, arith, Bool, true, false, not, List, [], ◌∷◌, Option, none, some,
  Eq, Bool-cases, inl, inr, suc, map,
}
use ha_osrs_map.Base.Sets.{NoDup}
use ha_osrs_map.LiveEvents.{
  Event, EventsPage, Request, LiveEvents, Publication, ids, apply, request, is_behind, take_answer,
  poll_on, poll, news,
}
use ha_osrs_map.LiveEvents.Feed.{IsFeed, apply-IsFeed, apply-IsShort}

module _ {ℓ} {EventId : Type ℓ} ⦃e : Eq EventId⦄ where
  -- The events of a page have ids of their own.
  abbrev pub IsClean : Option (EventsPage EventId) → Type 0
  IsClean none = Unit
  IsClean (some page) = NoDup (ids page.events)

  -- A poll with fuel for two requests has a result, and its events are as `P` says.
  abbrev Ends :
      (List (Event EventId) → Type 0)
      → Option (LiveEvents EventId × Option (Publication EventId))
      → Type ℓ
  Ends P polled =
      (r : LiveEvents EventId × Option (Publication EventId)) × (polled ≡ some r) × P r.0.events

  -- What holds of no events and after every page that answers as `Q` says holds after a poll.
  module _ (P : List (Event EventId) → Type 0) (Q : Option (EventsPage EventId) → Type 0)
      (nothing : P [])
      (kept : (live : LiveEvents EventId) (page : EventsPage EventId)
        → Q (some page)
        → P live.events
        → P (apply live page.events page.latest).0.events)
      (backend : ℕ → Request → Option (EventsPage EventId))
      (answers : (asked : ℕ) (request : Request) → Q (backend asked request)) where
    -- A poller that has heard of nothing never starts over.
    first_answer :
        (ask : LiveEvents EventId → Option (LiveEvents EventId × Option (Publication EventId)))
        (live : LiveEvents EventId) (answer : Option (EventsPage EventId))
        → live.latest ≡ none
        → P live.events
        → Q answer
        → Ends P (poll_on ask (take_answer live answer))
    first_answer ask live none h p q = ((live, none), refl, p)
    first_answer ask live (some page) h p q =
        let ahead : is_behind live.latest page.latest ≡ false =
          ap (λ l. is_behind l page.latest) h in
        rw ahead (apply live page.events page.latest, refl, kept live page q p)

    second_poll :
        (fuel asked : ℕ) (live : LiveEvents EventId)
        → live.latest ≡ none
        → P live.events
        → Ends P (poll (suc fuel) asked backend live)
    unfolding poll
    second_poll fuel asked live h p =
        first_answer (poll fuel (suc asked) backend) live (backend asked (request live)) h p
          (answers asked (request live))

    poll_answered :
        (fuel asked : ℕ) (live : LiveEvents EventId) (answer : Option (EventsPage EventId))
        → P live.events
        → Q answer
        → Ends P (poll_on (poll (suc fuel) (suc asked) backend) (take_answer live answer))
    poll_answered fuel asked live none p q = ((live, none), refl, p)
    poll_answered fuel asked live (some page) p q =
        elim (Bool-cases (is_behind live.latest page.latest)) [
          | inl behind ↦ rw behind (second_poll fuel (suc asked) _ refl nothing)
          | inr ahead ↦ rw ahead (apply live page.events page.latest, refl, kept live page q p)
        ]

    two_requests :
        (fuel asked : ℕ) (live : LiveEvents EventId)
        → P live.events
        → Ends P (poll (suc (suc fuel)) asked backend live)
    unfolding poll
    two_requests fuel asked live p =
        poll_answered fuel asked live (backend asked (request live)) p
          (answers asked (request live))

  abbrev pub IsShort : List (Event EventId) → Type 0
  IsShort events = length events ≤ 300

  abbrev AnyAnswer : Option (EventsPage EventId) → Type 0
  AnyAnswer answer = Unit

  -- A poll has a result with fuel for two requests, whatever the backend answers to each, even
  -- with ids that stand twice; at most 300 events are at most 300 after it.
  pub poll-ends :
      (backend : ℕ → Request → Option (EventsPage EventId)) (fuel asked : ℕ)
      (live : LiveEvents EventId)
      → length live.events ≤ 300
      → (r : LiveEvents EventId × Option (Publication EventId)) × (poll
            (suc (suc fuel))
            asked
            backend
            live
          ≡ some r)
        × (length r.0.events ≤ 300)
  poll-ends backend fuel asked live short =
      two_requests IsShort AnyAnswer (omega arith)
        (λ live page q p. apply-IsShort live page.events page.latest p) backend
        (λ asked request. tt) fuel asked live short

  -- If the events of every answer have ids of their own, a poll leaves a feed in order: at most 300
  -- events, no two with one id.
  pub poll-IsFeed :
      (backend : ℕ → Request → Option (EventsPage EventId))
      → ((asked : ℕ) (request : Request) → IsClean (backend asked request))
      → (fuel asked : ℕ) (live : LiveEvents EventId) → IsFeed live.events
      → (r : LiveEvents EventId × Option (Publication EventId)) × (poll
            (suc (suc fuel))
            asked
            backend
            live
          ≡ some r)
        × IsFeed r.0.events
  poll-IsFeed backend clean fuel asked live feed =
      two_requests IsFeed IsClean (omega arith, tt)
        (λ live page q p. apply-IsFeed live page.events page.latest p q) backend clean fuel asked
        live feed

news_later : (flags : List Bool) → news true flags ≡ map not flags
unfolding news
news_later [] = refl
news_later (initial ∷ flags) = ap (◌∷◌ (not initial)) (news_later flags)

-- The first publication that a tracker gets is no news, and a later one is unless it is a first load.
pub news-tracks :
    (initial : Bool) (flags : List Bool) → news false (initial ∷ flags) ≡ false ∷ map not flags
unfolding news
news-tracks initial flags = ap (◌∷◌ false) (news_later flags)
