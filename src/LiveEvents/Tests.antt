-- ===== src/LiveEvents/Tests.antt =====
-- A feed of two events, and its theorems at it.
use ha_osrs_map.Base.{
  nat_eq, ℕ, ◌≡◌, ◌≤◌, length, refl, arith, true, false, ◌||◌, List, [], ◌∷◌, Option, none, some,
  zero, suc,
}
use ha_osrs_map.Base.Sets.{contains, NoDup}
use ha_osrs_map.LiveEvents.{
  Event, EventsPage, Request, LiveEvents, Publication, fresh_of, apply, poll, ids, news,
}
use ha_osrs_map.LiveEvents.Feed.{IsFeed, apply-feeds}
use ha_osrs_map.LiveEvents.Poll.{IsClean, poll-ends, poll-IsFeed}

abbrev event : ℕ → ℕ → Event ℕ
event id seq = record { id = id; seq = seq }

abbrev feed : LiveEvents ℕ
feed = record { events = event 1 10 ∷ event 2 11 ∷ []; latest = some 11; running = true }

abbrev batch : List (Event ℕ)
batch = event 3 12 ∷ event 2 11 ∷ []

adds_one : (apply feed batch none).0.events ≡ event 3 12 ∷ event 1 10 ∷ event 2 11 ∷ []
unfolding apply fresh_of contains
adds_one = refl

two_events : IsFeed feed.events
unfolding contains
two_events = (omega arith, (refl, (refl, tt)))

batch-NoDup : NoDup (ids batch)
unfolding contains
batch-NoDup = (refl, (refl, tt))

-- The backend restarts: it says 5 to the first request, and has one event.
abbrev restarted : ℕ → Request → Option (EventsPage ℕ)
restarted zero request = some (record { events = []; latest = some 5 })
restarted (suc asked) request = some (record { events = event 9 5 ∷ []; latest = some 5 })

restarted-IsClean : (asked : ℕ) (request : Request) → IsClean (restarted asked request)
unfolding contains
restarted-IsClean zero request = tt
restarted-IsClean (suc asked) request = (refl, tt)

starts_over :
    poll 2 0 restarted feed
    ≡ some (
      record { events = event 9 5 ∷ []; latest = some 5; running = true },
      some (record { events = event 9 5 ∷ []; added = []; initial = true }),
    )
unfolding poll apply fresh_of contains
starts_over = refl

apply-feeds_example :
    contains 3 (ids (apply feed batch none).0.events)
    ≡ (contains 3 (ids batch) || contains 3 (ids feed.events))
apply-feeds_example = apply-feeds feed batch none 3 (omega arith)

poll-ends_example :
    (r : LiveEvents ℕ × Option (Publication ℕ)) × (poll 2 0 restarted feed ≡ some r)
    × (length r.0.events ≤ 300)
poll-ends_example = poll-ends restarted 0 0 feed (omega arith)

restarted-poll-IsFeed :
    (r : LiveEvents ℕ × Option (Publication ℕ)) × (poll 2 0 restarted feed ≡ some r)
    × IsFeed r.0.events
restarted-poll-IsFeed = poll-IsFeed restarted restarted-IsClean 0 0 feed two_events

news_of_three : news false (true ∷ false ∷ true ∷ []) ≡ false ∷ true ∷ false ∷ []
unfolding news
news_of_three = refl
