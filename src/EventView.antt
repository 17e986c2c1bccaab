-- ===== src/EventView.antt =====
-- How a hub event counts on the map: the kinds, filters, tiers and times of
-- site/src/data/event-view.js. An event's time is what `Date.parse` makes of it, if it is a time.
use ha_osrs_map.Base.{
  ℕ, ◌-◌, Bool, true, false, ◌&&◌, ◌||◌, Option, none, some, if◌then◌else◌, ltb, leb,
}

pub data EventType : Type 0 where
  loot : EventType
  pk_loot : EventType
  level_up : EventType
  death : EventType
  collection_log : EventType
  achievement_diary : EventType
  combat_task : EventType
  superior_spawn : EventType
  slayer_task_complete : EventType
  -- Any other text.
  unlisted : EventType

pub data EventKind : Type 0 where
  loot_kind : EventKind
  level_kind : EventKind
  death_kind : EventKind
  other_kind : EventKind

-- An event without an id, or with an empty one, has none.
pub record HubEvent {ℓ} (EventId : Type ℓ) : Type ℓ where
  pub id : Option EventId
  pub event_type : EventType
  pub value_gp : Option ℕ
  pub occurred : Option ℕ

pub record EventFilters : Type 0 where
  pub shows_loot : Bool
  pub shows_level : Bool
  pub shows_death : Bool
  pub shows_other : Bool
  pub min_loot : Option ℕ
  pub toasts : Bool

abbrev pub default_event_filters : EventFilters
default_event_filters = record {
  shows_loot = true;
  shows_level = true;
  shows_death = true;
  shows_other = true;
  min_loot = some 100000;
  toasts = true;
}

abbrev pub fresh_ms : ℕ
fresh_ms = 90000

abbrev pub notable_gp : ℕ
notable_gp = 1000000

abbrev pub big_gp : ℕ
big_gp = 10000000

abbrev pub value_or_zero : Option ℕ → ℕ
value_or_zero none = 0
value_or_zero (some n) = n

-- The table EVENT_KINDS, by type.
abbrev pub kind_of_type : EventType → Option EventKind
kind_of_type loot = some loot_kind
kind_of_type pk_loot = some loot_kind
kind_of_type level_up = some level_kind
kind_of_type death = some death_kind
kind_of_type collection_log = some other_kind
kind_of_type achievement_diary = some other_kind
kind_of_type combat_task = some other_kind
kind_of_type superior_spawn = some other_kind
kind_of_type slayer_task_complete = some other_kind
kind_of_type unlisted = none

abbrev pub shows : EventFilters → EventKind → Bool
shows filters loot_kind = filters.shows_loot
shows filters level_kind = filters.shows_level
shows filters death_kind = filters.shows_death
shows filters other_kind = filters.shows_other

abbrev pub is_loot : EventKind → Bool
is_loot loot_kind = true
is_loot _ = false

abbrev pub tier_of_value : ℕ → Bool → ℕ
tier_of_value value always_notable =
    if leb big_gp value then 2 else if leb notable_gp value || always_notable then 1 else 0

abbrev pub event_tier_by_type : EventType → ℕ → ℕ
event_tier_by_type loot value = tier_of_value value false
event_tier_by_type pk_loot value = tier_of_value value false
event_tier_by_type collection_log value = tier_of_value value true
event_tier_by_type _ value = 0

abbrev pub time_is_fresh : ℕ → Option ℕ → Bool
time_is_fresh now none = false
time_is_fresh now (some time) = ltb (now - time) fresh_ms

module _ {ℓ} {EventId : Type ℓ} where
  abbrev pub event_kind : HubEvent EventId → Option EventKind
  event_kind event = kind_of_type event.event_type

  abbrev pub kind_passes : HubEvent EventId → EventFilters → Option EventKind → Bool
  kind_passes event filters none = false
  kind_passes event filters (some kind) =
      shows filters kind
      && (if is_loot kind
          then leb (value_or_zero filters.min_loot) (value_or_zero event.value_gp)
          else true)

  unfoldable pub event_passes : HubEvent EventId → EventFilters → Bool
  event_passes event filters = kind_passes event filters (event_kind event)

  unfoldable pub event_tier : HubEvent EventId → ℕ
  event_tier event = event_tier_by_type event.event_type (value_or_zero event.value_gp)

  unfoldable pub event_is_fresh : HubEvent EventId → ℕ → Bool
  event_is_fresh event now = time_is_fresh now event.occurred
