-- ===== src/GearTrips.antt =====
-- Gear history as trips: site/src/data/gear-trips.js. The text of a change's time stands here as
-- the time that it parses to, in milliseconds, or as none where it is no time.
use ha_osrs_map.Base.{
  ℕ, suc, ◌+◌, ◌-◌, ◌*◌, min, Bool, true, false, ◌&&◌, ◌||◌, List, [], ◌∷◌, map, Option, none, some,
  if◌then◌else◌, ltb, leb, nat_beq, length, nat_eq,
}
use ha_osrs_map.Base.Dict.{Dict, get, put}
use ha_osrs_map.Base.Sets.{contains, add, set_of}
use ha_osrs_map.Base.Sorting.{sort}
pub mod Keys
pub mod Ordered
pub mod Tests
use ha_osrs_map.GearTrips.Keys.{Key, key_eq}

abbrev pub trip_gap_ms : ℕ
trip_gap_ms = 20 * 60000

abbrev pub trip_min_shared : ℕ
trip_min_shared = 2

abbrev pub slot_order : List ℕ
slot_order = 0 ∷ 1 ∷ 2 ∷ 13 ∷ 3 ∷ 4 ∷ 5 ∷ 7 ∷ 9 ∷ 10 ∷ 12 ∷ []

-- What is worn: by slot, the item and how many of it.
abbrev pub Outfit : Type 0
Outfit = Dict ℕ (ℕ × ℕ)

pub record Change : Type 0 where
  pub changed_at : Option ℕ
  pub equipment : List ℕ

pub record Row : Type 0 where
  pub at : ℕ
  pub outfit : Outfit

-- How long an item was worn in a slot.
pub record Worn : Type 0 where
  pub quantity : ℕ
  pub ms : ℕ
  pub order : ℕ

-- A trip that goes on.
pub record OpenTrip : Type 0 where
  pub started_at : ℕ
  pub ended_at : ℕ
  pub swaps : ℕ
  pub ids : List ℕ
  pub setups : List Key
  pub worn : Dict ℕ (Dict ℕ Worn)
  pub seen : ℕ

pub record Trip : Type 0 where
  pub started_at : ℕ
  pub ended_at : ℕ
  pub swaps : ℕ
  pub setups : ℕ
  pub kit : List (ℕ × List (ℕ × ℕ))

-- The loop of `slotMap` from slot `slot` on.
unfoldable pub slots_from : ℕ → List ℕ → Outfit
slots_from slot [] = []
slots_from slot (id ∷ []) = []
slots_from slot (id ∷ quantity ∷ equipment) =
    let rest = slots_from (suc slot) equipment in
    if nat_beq id 0 then rest else (slot, (id, quantity)) ∷ rest

unfoldable pub slot_map : List ℕ → Outfit
slot_map equipment = slots_from 0 equipment

unfoldable pub shared_count : Outfit → List ℕ → ℕ
shared_count [] ids = 0
shared_count ((slot, (id, quantity)) ∷ outfit) ids =
    let n = shared_count outfit ids in if contains id ids then n + 1 else n

-- `setKey`: the slots stand in order already, and the text has each slot and id.
abbrev pub set_key : Outfit → Key
set_key [] = []
set_key ((slot, (id, quantity)) ∷ outfit) = (slot, id) ∷ set_key outfit

abbrev pub one_on : Option ℕ → Option ℕ
one_on none = none
one_on (some i) = some (suc i)

-- `SLOT_ORDER.indexOf(slot)`, and what `slotRank` makes of it.
abbrev pub index_of : ℕ → List ℕ → Option ℕ
index_of slot [] = none
index_of slot (other ∷ slots) =
    let later = one_on (index_of slot slots) in if nat_beq other slot then some 0 else later

unfoldable pub slot_rank : ℕ → ℕ
slot_rank slot = elim (index_of slot slot_order) [ none ↦ length slot_order + slot | some i ↦ i ]

abbrev pub open_trip : ℕ → OpenTrip
open_trip changed_at = record {
  started_at = changed_at;
  ended_at = changed_at;
  swaps = 0;
  ids = [];
  setups = [];
  worn = [];
  seen = 0;
}

abbrev pub or_nothing : Option (Dict ℕ Worn) → Dict ℕ Worn
or_nothing none = []
or_nothing (some by_id) = by_id

-- The item of a slot that is worn for `ms`: the entry, and whether it is a new one.
abbrev pub wear_longer : Option Worn → ℕ → ℕ → ℕ → Worn × Bool
wear_longer none quantity ms seen = (record { quantity = quantity; ms = ms; order = seen }, true)
wear_longer (some entry) quantity ms seen = (record entry { ms = entry.ms + ms }, false)

-- The loop of `wear`.
unfoldable pub wear_each : Outfit → ℕ → OpenTrip → OpenTrip
wear_each [] ms trip = trip
wear_each ((slot, (id, quantity)) ∷ outfit) ms trip =
    let by_id = or_nothing (get slot trip.worn) in
    let entry = wear_longer (get id by_id) quantity ms trip.seen in
    wear_each outfit ms (record trip {
      ids = add id trip.ids;
      worn = put slot (put id entry.0 by_id) trip.worn;
      seen = if entry.1 then trip.seen + 1 else trip.seen;
    })

unfoldable pub wear : OpenTrip → Outfit → ℕ → OpenTrip
wear trip [] ms = trip
wear trip (worn ∷ outfit) ms =
    wear_each (worn ∷ outfit) ms
      (record trip { setups = add (set_key (worn ∷ outfit)) trip.setups })

abbrev pub longest_first : ℕ × Worn → ℕ × Worn → Bool
longest_first (id, a) (other, b) = ltb b.ms a.ms || (nat_beq b.ms a.ms && leb a.order b.order)

abbrev pub item_of : ℕ × Worn → ℕ × ℕ
item_of (id, entry) = (id, entry.quantity)

abbrev pub by_rank : ℕ × Dict ℕ Worn → ℕ × Dict ℕ Worn → Bool
by_rank (a, items) (b, others) = leb (slot_rank a) (slot_rank b)

abbrev pub kit_of_slot : ℕ × Dict ℕ Worn → ℕ × List (ℕ × ℕ)
kit_of_slot (slot, items) = (slot, map item_of (sort longest_first items))

unfoldable pub close : OpenTrip → Trip
close trip = record {
  started_at = trip.started_at;
  ended_at = trip.ended_at;
  swaps = trip.swaps;
  setups = length trip.setups;
  kit = map kit_of_slot (sort by_rank trip.worn);
}

-- The changes with a time, in order of time.
abbrev pub dated : Option ℕ → List ℕ → List Row → List Row
dated none equipment rows = rows
dated (some at) equipment rows = record { at = at; outfit = slot_map equipment } ∷ rows

unfoldable pub dated_rows : List Change → List Row
dated_rows [] = []
dated_rows (change ∷ changes) = dated change.changed_at change.equipment (dated_rows changes)

abbrev pub earlier : Row → Row → Bool
earlier a b = leb a.at b.at

-- The state of the loop: the trips that are over, the newest first as `reverse` leaves them, the one
-- that goes on, and the row before.
pub record Walk : Type 0 where
  pub trips : List Trip
  pub trip : Option OpenTrip
  pub previous : Option Row

abbrev pub next_at : List Row → ℕ → ℕ
next_at [] now = now
next_at (row ∷ rows) now = row.at

abbrev pub is_after_gap : Option Row → Row → Bool
is_after_gap none row = false
is_after_gap (some previous) row = leb trip_gap_ms (row.at - previous.at)

abbrev pub is_new_outfit : Option OpenTrip → Row → Bool
is_new_outfit none row = false
is_new_outfit (some trip) row =
    ltb 0 (length trip.ids)
    && ltb trip_min_shared (length row.outfit)
    && ltb (shared_count row.outfit trip.ids) trip_min_shared

abbrev pub ids_of : Outfit → List ℕ
ids_of [] = []
ids_of ((slot, (id, quantity)) ∷ outfit) = id ∷ ids_of outfit

abbrev pub close_before : Option OpenTrip → List Trip → List Trip
close_before none trips = trips
close_before (some trip) trips = close trip ∷ trips

-- Whether the set worn before a trip came along on it.
abbrev pub came_along : Row → Row → Bool
came_along previous row =
    let before = set_of (ids_of previous.outfit) in
    ltb 0 (length before)
    && ltb 0 (length row.outfit)
    && leb trip_min_shared (shared_count row.outfit before)

-- The new trip: with the set worn before it, where that came along.
unfoldable pub begin_trip : Option Row → Row → OpenTrip
begin_trip none row = open_trip row.at
begin_trip (some previous) row =
    if came_along previous row
    then record (wear (open_trip row.at) previous.outfit 0) { swaps = 1 }
    else open_trip row.at

abbrev pub swap : Row → OpenTrip → OpenTrip
swap row trip = record trip { swaps = trip.swaps + 1; ended_at = row.at }

-- The trips that are over and the one that the row is part of.
unfoldable pub trip_for :
    Bool → Option OpenTrip → Option Row → Row → List Trip → List Trip × OpenTrip
trip_for starts none previous row trips = (trips, begin_trip previous row)
trip_for starts (some trip) previous row trips =
    if starts then (close trip ∷ trips, begin_trip previous row) else (trips, swap row trip)

-- One round of the loop; `ms` is how long the set was worn.
unfoldable pub walk_row : Row → ℕ → Walk → Walk
walk_row row ms w =
    let after_gap = is_after_gap w.previous row in
    let current = trip_for (after_gap || is_new_outfit w.trip row) w.trip w.previous row w.trips in
    if after_gap && nat_beq (length row.outfit) 0
    then record w { previous = some row }
    else record {
      trips = current.0;
      trip = some (wear current.1 row.outfit ms);
      previous = some row;
    }

unfoldable pub walk : List Row → ℕ → Walk → Walk
walk [] now w = w
walk (row ∷ rows) now w =
    walk rows now (walk_row row (min (next_at rows now - row.at) trip_gap_ms) w)

unfoldable pub gear_trips : List Change → ℕ → List Trip
gear_trips changes now =
    let w =
      walk (sort earlier (dated_rows changes)) now
        (record { trips = []; trip = none; previous = none }) in
    close_before w.trip w.trips
