-- ===== src/Guild.antt =====
-- The guild's members and their polls: GuildData of site/src/data/guild-data.js, and setsEqual of
-- site/src/utility.js. How names compare (`localeCompare`) is a parameter.
use Prim.Native.String.{String}
use ha_osrs_map.Base.{
  ℕ, Bool, true, false, not, ◌&&◌, ◌||◌, List, [], ◌∷◌, ◌++◌, Option, none, some, if◌then◌else◌,
  nat_beq, length, string_eq, nat_eq, Eq,
}
use ha_osrs_map.Base.Dict.{Dict, get, has, put, delete, keys, values}
use ha_osrs_map.Base.Sets.{contains, add, set_of}
use ha_osrs_map.Base.Sorting.{sort}
use ha_osrs_map.Regions.{region_for_member, same_place}
use ha_osrs_map.Items.{quantity_of}
use ha_osrs_map.Members.{
  Member, new_member, Message, StoredData, PolledData, transform_from_storage,
}
use ha_osrs_map.Members.Update.{bool_same, place_of, update_presence, update_region, update}
pub mod Roster
pub mod Reload
pub mod Coherent
pub mod Groups
pub mod Entries
pub mod Grouped
pub mod Tests

-- `setsEqual`, of two sets.
abbrev pub every_in {ℓ} : {A : Type ℓ} ⦃e : Eq A⦄ → List A → List A → Bool
every_in [] b = true
every_in (x ∷ a) b = contains x b && every_in a b

unfoldable pub sets_equal {ℓ} : {A : Type ℓ} ⦃e : Eq A⦄ → List A → List A → Bool
sets_equal a b = nat_beq (length a) (length b) && every_in a b

pub record Entry : Type 0 where
  pub name : String
  pub online : Bool
  pub last_seen : Option ℕ

-- A poll, as it is sent. Times are in milliseconds.
pub record Poll {μ} (Meta : Type μ) : Type μ where
  pub cursor : Option ℕ
  pub roster : List Entry
  pub data_of : List (String × StoredData Meta)

-- The members, and the names in the list that `members-updated` told last.
pub record GuildData {μ} (Meta : Type μ) : Type μ where
  pub members : Dict String (Member Meta)
  pub last_told : Option (List String)

-- What a poll builds up: the members, what they told, the names that changed, whether anyone's
-- presence did, and whether a name appeared.
pub record Round {μ} (Meta : Type μ) : Type μ where
  pub members : Dict String (Member Meta)
  pub told : List (String × Message)
  pub changed : List String
  pub online_changed : Bool
  pub needs_full_reload : Bool

-- What a poll tells (`members-updated`, `roster-changed`) and the start of the next one.
pub record Outcome {μ} (Meta : Type μ) : Type μ where
  pub guild : GuildData Meta
  pub told : List (String × Message)
  pub members_updated : Option (List (Member Meta))
  pub roster_changed : Option (List String)
  pub from_time : ℕ

abbrev pub under : String → List Message → List (String × Message)
under name [] = []
under name (message ∷ messages) = (name, message) ∷ under name messages

abbrev pub member_or_new {μ} : {Meta : Type μ} → String → Option (Member Meta) → Member Meta
member_or_new name none = new_member name
member_or_new name (some m) = m

-- One entry of the roster.
unfoldable pub enter {μ} : {Meta : Type μ} → Entry → Round Meta → Round Meta
enter entry r =
    let known_before = has entry.name r.members in
    let m = member_or_new entry.name (get entry.name r.members) in
    let presence = update_presence entry.online entry.last_seen m in
    record {
      members = put entry.name presence.0.0 r.members;
      told = r.told ++ under entry.name presence.0.1;
      changed = if not known_before || presence.1 then add entry.name r.changed else r.changed;
      online_changed =
          (r.online_changed || not known_before) || not (bool_same m.online presence.0.0.online);
      needs_full_reload = r.needs_full_reload || not known_before;
    }

unfoldable pub enter_all {μ} : {Meta : Type μ} → List Entry → Round Meta → Round Meta
enter_all [] r = r
enter_all (entry ∷ entries) r = enter_all entries (enter entry r)

abbrev pub is_empty {ℓ} : {A : Type ℓ} → List A → Bool
is_empty [] = true
is_empty (x ∷ xs) = false

-- The data of one member in the poll.
module _ {μ} {Meta : Type μ} (names : Dict ℕ String) (known : ℕ → Bool) where
  abbrev pub take_for : String → PolledData Meta → Option (Member Meta) → Round Meta → Round Meta
  take_for name polled none r = r
  take_for name polled (some m) r =
      let updated = update names known polled m in
      let after = updated.member in
      record r {
        members = put name (record after { has_data = true }) r.members;
        told = r.told ++ under name updated.messages;
        changed = if is_empty updated.attributes then r.changed else add name r.changed;
      }

  unfoldable pub take_data : List (String × StoredData Meta) → Round Meta → Round Meta
  take_data [] r = r
  take_data ((name, stored) ∷ data_of) r =
      take_data data_of (take_for name (transform_from_storage stored) (get name r.members) r)

-- Whoever has no data and has not asked for a reload asks for one.
abbrev pub asks {μ} : {Meta : Type μ} → Member Meta → Bool
asks m = not m.has_data && not m.reload_requested

abbrev pub ask {μ} : {Meta : Type μ} → Member Meta → Member Meta
ask m = if asks m then record m { reload_requested = true } else m

unfoldable pub ask_all {μ} : {Meta : Type μ} → Dict String (Member Meta) → Dict String (Member Meta)
ask_all [] = []
ask_all ((name, m) ∷ members) = (name, ask m) ∷ ask_all members

unfoldable pub any_asks {μ} : {Meta : Type μ} → Dict String (Member Meta) → Bool
any_asks [] = false
any_asks ((name, m) ∷ members) = asks m || any_asks members

abbrev pub request_reload {μ} : {Meta : Type μ} → Round Meta → Round Meta
request_reload r =
    if r.needs_full_reload
    then record r { members = ask_all r.members; needs_full_reload = any_asks r.members }
    else r

-- Whoever is not on the roster leaves; the first list is the keys of the members at the start.
abbrev pub leave_unless {μ} : {Meta : Type μ} → List String → String → Round Meta → Round Meta
leave_unless on_roster name r = if contains name on_roster then r else record r {
  members = delete name r.members;
  changed = add name r.changed;
  online_changed = true;
}

unfoldable pub leave_all {μ} : {Meta : Type μ} → List String → List String → Round Meta → Round Meta
leave_all [] on_roster r = r
leave_all (name ∷ names) on_roster r = leave_all names on_roster (leave_unless on_roster name r)

abbrev pub entry_names : List Entry → List String
entry_names [] = []
entry_names (entry ∷ entries) = entry.name ∷ entry_names entries

abbrev pub list_is_stale : Option (List String) → List String → Bool → Bool
list_is_stale none current online_changed = true
list_is_stale (some previous) current online_changed =
    not (sets_equal (set_of current) (set_of previous)) || online_changed

abbrev pub time_or_zero : Option ℕ → ℕ
time_or_zero none = 0
time_or_zero (some time) = time

abbrev pub names_of {μ} : {Meta : Type μ} → List (Member Meta) → List String
names_of [] = []
names_of (m ∷ members) = m.name ∷ names_of members

module _ {μ} {Meta : Type μ} (le : String → String → Bool) where
  -- `sortedMembers`
  unfoldable pub sorted_members : Dict String (Member Meta) → List (Member Meta)
  sorted_members members = sort (λ (a b : Member Meta). le a.name b.name) (values members)

  -- The end of `update`: what is told, and the start of the next poll.
  unfoldable pub conclude : Option (List String) → Option ℕ → Round Meta → Outcome Meta
  conclude last_told cursor r =
      let stale = list_is_stale last_told (keys r.members) r.online_changed in
      let list = sorted_members r.members in
      record {
        guild = record {
          members = r.members;
          last_told = if stale then some (names_of list) else last_told;
        };
        told = r.told;
        members_updated = if stale then some list else none;
        roster_changed = if is_empty r.changed then none else some r.changed;
        from_time = if r.needs_full_reload then 0 else time_or_zero cursor;
      }

  unfoldable pub gather :
      Dict ℕ String → (ℕ → Bool) → Poll Meta → Dict String (Member Meta) → Round Meta
  gather names known poll members =
      let start : Round Meta = record {
        members = members;
        told = [];
        changed = [];
        online_changed = false;
        needs_full_reload = false;
      } in
      let r = request_reload (take_data names known poll.data_of (enter_all poll.roster start)) in
      leave_all (keys r.members) (set_of (entry_names poll.roster)) r

  unfoldable pub update_guild :
      Dict ℕ String → (ℕ → Bool) → Poll Meta → GuildData Meta → Outcome Meta
  update_guild names known poll guild =
      conclude guild.last_told poll.cursor (gather names known poll guild.members)

-- `refreshRegions`: the members after it, what they told and the names that changed.
module _ {μ} {Meta : Type μ} (names : Dict ℕ String) (known : ℕ → Bool) where
  unfoldable pub refresh_regions :
      Dict String (Member Meta) → Dict String (Member Meta) × List (String × Message) × List String
  refresh_regions [] = ([], [], [])
  refresh_regions ((name, m) ∷ members) =
      let place = region_for_member names (place_of m.coordinates) in
      let u = update_region names known (record { member = m; messages = []; attributes = [] }) in
      let rest = refresh_regions members in
      (
        (name, u.member) ∷ rest.0,
        under name u.messages ++ rest.1,
        if same_place place m.region then rest.2 else name ∷ rest.2,
      )

-- `inventoryQuantityForItem`, of the inventory or the equipment.
abbrev pub quantity_in {μ} : {Meta : Type μ} → ℕ → Bool → Option (Member Meta) → ℕ
quantity_in id in_inventory none = 0
quantity_in id in_inventory (some m) =
    quantity_of id (if in_inventory then m.inventory_quantities else m.equipment_quantities)

unfoldable pub inventory_quantity_for_item {μ} :
    {Meta : Type μ} → ℕ → String → Bool → Dict String (Member Meta) → ℕ
inventory_quantity_for_item id name in_inventory members =
    quantity_in id in_inventory (get name members)
