-- ===== src/LiveEvents.antt =====
-- The poller of the hub's events: LiveEvents in site/src/data/live-events.js. The backend is an
-- argument: what it answers to a request, or nothing where the request fails. Sequence numbers and
-- counts are natural numbers, and an event without a number has 0.
use ha_osrs_map.Base.{
  ℕ, zero, suc, Bool, true, false, not, ◌&&◌, List, [], ◌∷◌, ◌++◌, Option, none, some,
  if◌then◌else◌, max, ltb, nat_beq, length, take, keep_if, Eq,
}
use ha_osrs_map.Base.Sets.{contains}
pub mod Feed
pub mod Poll
pub mod Tests

abbrev pub keep : ℕ
keep = 300

abbrev pub page_limit : ℕ
page_limit = 200

pub record Event {ℓ} (EventId : Type ℓ) : Type ℓ where
  pub id : EventId
  pub seq : ℕ

-- What is published under "live-events".
pub record Publication {ℓ} (EventId : Type ℓ) : Type ℓ where
  pub events : List (Event EventId)
  pub added : List (Event EventId)
  pub initial : Bool

-- The interval is a matter of the browser; `running` says whether there is one.
pub record LiveEvents {ℓ} (EventId : Type ℓ) : Type ℓ where
  pub events : List (Event EventId)
  pub latest : Option ℕ
  pub running : Bool

pub record Request : Type 0 where
  pub limit : ℕ
  pub after : Option ℕ

pub record EventsPage {ℓ} (EventId : Type ℓ) : Type ℓ where
  pub events : List (Event EventId)
  pub latest : Option ℕ

-- `null` counts as 0.
abbrev pub or_zero : Option ℕ → ℕ
or_zero none = 0
or_zero (some n) = n

abbrev pub is_none {ℓ} : {A : Type ℓ} → Option A → Bool
is_none none = true
is_none (some a) = false

-- What a poll does with the answer: it is done, or it has started over and asks again.
pub data Outcome {ℓ} (EventId : Type ℓ) : Type ℓ where
  done : LiveEvents EventId → Option (Publication EventId) → Outcome EventId
  again : LiveEvents EventId → Outcome EventId

-- The backend counts from 1 again.
abbrev pub is_behind : Option ℕ → Option ℕ → Bool
is_behind (some seen) (some told) = ltb told seen
is_behind _ _ = false

module _ {ℓ} {EventId : Type ℓ} where
  -- `event.seq` of the newest event of a batch
  abbrev pub newest : List (Event EventId) → ℕ
  newest [] = 0
  newest (event ∷ batch) = max event.seq (newest batch)

  abbrev pub ids : List (Event EventId) → List EventId
  ids [] = []
  ids (event ∷ events) = event.id ∷ ids events

  abbrev pub new_live_events : LiveEvents EventId
  new_live_events = record { events = []; latest = none; running = false }

  unfoldable pub start : LiveEvents EventId → LiveEvents EventId
  start live = if live.running then live else record { events = []; latest = none; running = true }

  unfoldable pub stop : LiveEvents EventId → LiveEvents EventId
  stop live = record { events = []; latest = none; running = false }

  abbrev pub request : LiveEvents EventId → Request
  request live = record {
    limit = if is_none live.latest then keep else page_limit;
    after = live.latest;
  }

  module _ ⦃e : Eq EventId⦄ where
    unfoldable pub fresh_of : List (Event EventId) → List (Event EventId) → List (Event EventId)
    fresh_of known batch = keep_if (λ event. not (contains event.id (ids known))) batch

    -- The number of the newest event heard of.
    abbrev pub heard : LiveEvents EventId → List (Event EventId) → Option ℕ → ℕ
    heard live batch server_latest =
        max (max (or_zero live.latest) (newest batch))
          (if is_none live.latest then or_zero server_latest else 0)

    unfoldable pub apply :
        LiveEvents EventId
        → List (Event EventId)
        → Option ℕ
        → LiveEvents EventId × Option (Publication EventId)
    apply live batch server_latest =
        let initial = is_none live.latest in
        let latest = some (heard live batch server_latest) in
        let fresh = fresh_of live.events batch in
        let events = take keep (fresh ++ live.events) in
        if not initial && nat_beq (length batch) 0
        then (record live { latest = latest }, none)
        else (
          record live { events = events; latest = latest },
          some (record {
            events = events;
            added = if initial then [] else fresh;
            initial = initial;
          }),
        )

    abbrev pub finish : LiveEvents EventId × Option (Publication EventId) → Outcome EventId
    finish (live, publication) = done live publication

    abbrev pub take_answer : LiveEvents EventId → Option (EventsPage EventId) → Outcome EventId
    take_answer live none = done live none
    take_answer live (some page) =
        if is_behind live.latest page.latest
        then again (record live { events = []; latest = none })
        else finish (apply live page.events page.latest)

    -- What comes of an answer, where asking once more is an argument.
    abbrev pub poll_on :
        (LiveEvents EventId → Option (LiveEvents EventId × Option (Publication EventId)))
        → Outcome EventId
        → Option (LiveEvents EventId × Option (Publication EventId))
    poll_on ask (done live publication) = some (live, publication)
    poll_on ask (again live) = ask live

    -- `poll` on fuel, a unit for each request; `none` where it is used up. The backend's answer
    -- depends on the number of requests before, since it changes between them.
    unfoldable pub poll :
        ℕ
        → ℕ
        → (ℕ → Request → Option (EventsPage EventId))
        → LiveEvents EventId
        → Option (LiveEvents EventId × Option (Publication EventId))
    poll zero asked backend live = none
    poll (suc fuel) asked backend live =
        poll_on (poll fuel (suc asked) backend) (take_answer live (backend asked (request live)))

-- `newsTracker`: whether a publication is news, and what is remembered for the next one.
abbrev pub hear : Bool → Bool → Bool × Bool
hear heard_before initial = (heard_before && not initial, true)

-- A tracker's answers to the publications it gets, by whether they are a first load.
unfoldable pub news : Bool → List Bool → List Bool
news heard_before [] = []
news heard_before (initial ∷ rest) =
    let answer = hear heard_before initial in answer.0 ∷ news answer.1 rest
