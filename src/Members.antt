-- ===== src/Members.antt =====
-- A member of the guild: MemberData in site/src/data/member-data.js, and the transforms from
-- storage of guild-data.js. An operation gives the member after it and what it tells its topics, in
-- order. What the source computes from a member's name alone (the colours) is left out.
use Prim.Native.String.{String}
use ha_osrs_map.Base.{
  ℕ, ◌+◌, Bool, false, List, [], ◌∷◌, Option, none, some, get_elem?, string_eq, nat_eq,
}
use ha_osrs_map.Base.Dict.{Dict}
use ha_osrs_map.Regions.{Place}
use ha_osrs_map.Skills.{Skill, transform_skills}
use ha_osrs_map.Items.{Item, transform_items}
pub mod Update
pub mod Sections
pub mod Coherent
pub mod Tests

-- A section of a poll: not in it, empty in it (`null` once it is unpacked), or there.
pub data Section {ℓ} (A : Type ℓ) : Type ℓ where
  unchanged : Section A
  gone : Section A
  given : A → Section A

pub record Stats : Type 0 where
  pub hitpoints : Option ℕ
  pub max_hitpoints : Option ℕ
  pub prayer : Option ℕ
  pub max_prayer : Option ℕ
  pub world : Option ℕ

-- A coordinate that the stored list is too short for is missing.
pub record Coordinates : Type 0 where
  pub x : Option ℕ
  pub y : Option ℕ
  pub plane : Option ℕ

abbrev pub plus_one : Option ℕ → Option ℕ
plus_one none = none
plus_one (some y) = some (y + 1)

unfoldable pub transform_stats : List ℕ → Stats
transform_stats stored = record {
  hitpoints = get_elem? stored 0;
  max_hitpoints = get_elem? stored 1;
  prayer = get_elem? stored 2;
  max_prayer = get_elem? stored 3;
  world = get_elem? stored 6;
}

unfoldable pub transform_coordinates : List ℕ → Coordinates
transform_coordinates stored = record {
  x = get_elem? stored 0;
  y = plus_one (get_elem? stored 1);
  plane = get_elem? stored 2;
}

-- One round of `transformFromStorage`: a section that is left out or null, an empty one, or a list.
abbrev pub unpack {ℓ} : {A : Type ℓ} → (List ℕ → A) → Option (List ℕ) → Section A
unpack transform none = unchanged
unpack transform (some []) = gone
unpack transform (some (n ∷ stored)) = given (transform (n ∷ stored))

-- The data of one member in a poll, as it is sent and unpacked. What the hub says about the member
-- (`meta`) is no section: there or not.
pub record StoredData {μ} (Meta : Type μ) : Type μ where
  pub meta : Option Meta
  pub inventory : Option (List ℕ)
  pub equipment : Option (List ℕ)
  pub skills : Option (List ℕ)
  pub stats : Option (List ℕ)
  pub coordinates : Option (List ℕ)

pub record PolledData {μ} (Meta : Type μ) : Type μ where
  pub meta : Option Meta
  pub inventory : Section (List Item)
  pub equipment : Section (List Item)
  pub skills : Section (List (String × ℕ))
  pub stats : Section Stats
  pub coordinates : Section Coordinates

unfoldable pub transform_from_storage {μ} : {Meta : Type μ} → StoredData Meta → PolledData Meta
transform_from_storage stored = record {
  meta = stored.meta;
  inventory = unpack transform_items stored.inventory;
  equipment = unpack transform_items stored.equipment;
  skills = unpack transform_skills stored.skills;
  stats = unpack transform_stats stored.stats;
  coordinates = unpack transform_coordinates stored.coordinates;
}

pub record Member {μ} (Meta : Type μ) : Type μ where
  pub name : String
  pub online : Bool
  pub last_seen : Option ℕ
  pub meta : Option Meta
  pub stats : Option Stats
  pub coordinates : Option Coordinates
  pub skills : Option (Dict String Skill)
  pub inventory : Option (List Item)
  pub equipment : Option (List Item)
  pub inventory_quantities : Dict ℕ (Option ℕ)
  pub equipment_quantities : Dict ℕ (Option ℕ)
  pub region : Option Place
  pub combat_level : Option ℕ
  pub has_data : Bool
  pub reload_requested : Bool

unfoldable pub new_member {μ} : {Meta : Type μ} → String → Member Meta
new_member name = record {
  name = name;
  online = false;
  last_seen = none;
  meta = none;
  stats = none;
  coordinates = none;
  skills = none;
  inventory = none;
  equipment = none;
  inventory_quantities = [];
  equipment_quantities = [];
  region = none;
  combat_level = none;
  has_data = false;
  reload_requested = false;
}

pub data Attribute : Type 0 where
  stats_part : Attribute
  meta_part : Attribute
  coordinates_part : Attribute
  skills_part : Attribute
  inventory_part : Attribute
  equipment_part : Attribute

-- What is published under a member's topics, and which topics are emptied.
pub data Message : Type 0 where
  presence_told : Bool → Message
  active_told : Message
  inactive_told : Message
  told : Attribute → Message
  region_told : Option Place → Message
  skill_told : String → Message
  xp_told : List (String × ℕ) → Message
  forgotten : Attribute → Message
  skill_forgotten : String → Message

-- A member, what it has told, and the attributes that changed.
pub record Updated {μ} (Meta : Type μ) : Type μ where
  pub member : Member Meta
  pub messages : List Message
  pub attributes : List Attribute
