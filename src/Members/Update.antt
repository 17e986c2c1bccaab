-- ===== src/Members/Update.antt =====
-- What a poll does to a member: updatePresence, update, drop and what update works out, of
-- site/src/data/member-data.js.
use Prim.Native.String.{String}
use ha_osrs_map.Base.{
  ℕ, ◌+◌, ◌-◌, ◌*◌, ◌/◌, min, max, Bool, true, false, not, ◌&&◌, ◌||◌, List, [], ◌∷◌, ◌++◌, map,
  Option, none, some, if◌then◌else◌, ltb, nat_beq, ◌==◌, string_eq, nat_eq,
}
use ha_osrs_map.Base.Dict.{Dict, get}
use ha_osrs_map.Regions.{region_for_member, same_place}
use ha_osrs_map.Skills.{Skill, skill_names, overall, parse_skill_data}
use ha_osrs_map.Items.{Item, parse_item_data, item_quantities}
use ha_osrs_map.Members.{
  Section, gone, given, Stats, Coordinates, PolledData, Member, Attribute, stats_part, meta_part,
  coordinates_part, skills_part, inventory_part, equipment_part, Message, presence_told,
  active_told, inactive_told, told, region_told, skill_told, xp_told, forgotten, skill_forgotten,
  Updated,
}

abbrev pub bool_same : Bool → Bool → Bool
bool_same true b = b
bool_same false b = not b

abbrev pub time_same : Option ℕ → Option ℕ → Bool
time_same none none = true
time_same (some a) (some b) = nat_beq a b
time_same _ _ = false

module _ {μ} {Meta : Type μ} where
  -- `updatePresence`: the last component says whether anything changed.
  unfoldable pub update_presence :
      Bool → Option ℕ → Member Meta → (Member Meta × List Message) × Bool
  update_presence online last_seen m =
      let changed = not (bool_same m.online online) || not (time_same m.last_seen last_seen) in
      let presence = if changed then presence_told online ∷ [] else [] in
      let went_online = if online && not m.online then active_told ∷ [] else [] in
      let went_offline = if not online && m.online then inactive_told ∷ [] else [] in
      (
        (
          record m { online = online; last_seen = last_seen },
          presence ++ (went_online ++ went_offline),
        ),
        changed,
      )

  abbrev pub say : List Message → Updated Meta → Updated Meta
  say messages u = record u { messages = u.messages ++ messages }

  abbrev pub mark : Attribute → Updated Meta → Updated Meta
  mark attribute u = record u { attributes = u.attributes ++ (attribute ∷ []) }

  abbrev pub change : (Member Meta → Member Meta) → Updated Meta → Updated Meta
  change f u = record u { member = f u.member }

abbrev pub both_of : Option ℕ → Option ℕ → Option (ℕ × ℕ)
both_of (some x) (some y) = some (x, y)
both_of _ _ = none

-- Where `regionForMember` looks: nowhere if a coordinate is missing (`isNaN`).
abbrev pub place_of : Option Coordinates → Option (ℕ × ℕ)
place_of none = none
place_of (some c) = both_of c.x c.y

-- `computeXpDrops` for one skill, given it as it is and as it was: what is told, and what is gained.
abbrev pub xp_change :
    String
    → Option Skill
    → Option Skill
    → List Message × List (String × ℕ)
    → List Message × List (String × ℕ)
xp_change name (some now) (some before) (messages, drops) = (
  if nat_beq now.xp before.xp then messages else messages ++ (skill_told name ∷ []),
  if ltb before.xp now.xp && not (name == overall)
      then drops ++ ((name, now.xp - before.xp) ∷ [])
      else drops,
)
xp_change name _ _ so_far = so_far

unfoldable pub xp_changes :
    Dict String Skill
    → Dict String Skill
    → List String
    → List Message × List (String × ℕ)
    → List Message × List (String × ℕ)
xp_changes skills previous [] so_far = so_far
xp_changes skills previous (name ∷ names) so_far =
    xp_changes skills previous names (xp_change name (get name skills) (get name previous) so_far)

abbrev pub tell_drops : List Message × List (String × ℕ) → List Message
tell_drops (messages, []) = messages
tell_drops (messages, drop ∷ drops) = messages ++ (xp_told (drop ∷ drops) ∷ [])

unfoldable pub compute_xp_drops : Dict String Skill → Option (Dict String Skill) → List Message
compute_xp_drops skills none = map skill_told skill_names
compute_xp_drops skills (some previous) =
    tell_drops (xp_changes skills previous skill_names ([], []))

-- The level of a skill in the formula, if the skill is there.
abbrev pub capped : Option Skill → Option ℕ
capped none = none
capped (some skill) = some (min skill.level 99)

infixl 5 ◌>>=◌
abbrev pub ◌>>=◌ : Option ℕ → (ℕ → Option ℕ) → Option ℕ
none >>= f = none
some n >>= f = f n

-- The formula of `computeCombatLevel`, in fortieths: `s` is 13 of them. The source computes it in
-- floating point; the two agree at all levels up to 99.
unfoldable pub combat_formula : ℕ → ℕ → ℕ → ℕ → ℕ → ℕ → ℕ → ℕ
combat_formula defence hitpoints prayer attack strength ranged magic =
    let base = 10 * (defence + hitpoints + prayer / 2) in
    let melee = 13 * (attack + strength) in
    let range = 13 * (ranged / 2 + ranged) in
    let mage = 13 * (magic / 2 + magic) in (base + max (max melee range) mage) / 40

-- None where not all seven skills are there.
unfoldable pub combat_level_of : Dict String Skill → Option ℕ
combat_level_of skills = do
  defence ← capped (get "Defence" skills)
  hitpoints ← capped (get "Hitpoints" skills)
  prayer ← capped (get "Prayer" skills)
  attack ← capped (get "Attack" skills)
  strength ← capped (get "Strength" skills)
  ranged ← capped (get "Ranged" skills)
  magic ← capped (get "Magic" skills)
  some (combat_formula defence hitpoints prayer attack strength ranged magic)

-- `computeCombatLevel` leaves the level as it is where a skill is missing.
abbrev pub or_as_it_was : Option ℕ → Option ℕ → Option ℕ
or_as_it_was none before = before
or_as_it_was (some level) before = some level

module _ {μ} {Meta : Type μ} (names : Dict ℕ String) (known : ℕ → Bool) where
  unfoldable pub update_region : Updated Meta → Updated Meta
  update_region u =
      let region = region_for_member names (place_of u.member.coordinates) in
      if same_place region u.member.region
      then u
      else say (region_told region ∷ []) (change (λ m. record m { region = region }) u)

  -- `drop`, by section.
  unfoldable pub drop : Attribute → Updated Meta → Updated Meta
  drop stats_part u = say (forgotten stats_part ∷ []) (change (λ m. record m { stats = none }) u)
  drop coordinates_part u = say (told coordinates_part ∷ []) (
      update_region
        (say (forgotten coordinates_part ∷ []) (change (λ m. record m { coordinates = none }) u)))
  drop skills_part u =
      say (forgotten skills_part ∷ map skill_forgotten skill_names)
        (change (λ m. record m { skills = none; combat_level = none }) u)
  drop inventory_part u =
      say (forgotten inventory_part ∷ [])
        (change (λ m. record m { inventory = none; inventory_quantities = [] }) u)
  drop equipment_part u =
      say (forgotten equipment_part ∷ [])
        (change (λ m. record m { equipment = none; equipment_quantities = [] }) u)
  drop meta_part u = u

  -- The first loop of `update`, for one section.
  abbrev pub drop_if_gone {ℓ} : {A : Type ℓ} → Attribute → Section A → Updated Meta → Updated Meta
  drop_if_gone attribute gone u = mark attribute (drop attribute u)
  drop_if_gone attribute _ u = u

  abbrev pub set_stats : Section Stats → Updated Meta → Updated Meta
  set_stats (given stats) u =
      mark stats_part (say (told stats_part ∷ []) (change (λ m. record m { stats = some stats }) u))
  set_stats _ u = u

  abbrev pub set_meta : Option Meta → Updated Meta → Updated Meta
  set_meta none u = u
  set_meta (some meta) u = mark meta_part (change (λ m. record m { meta = some meta }) u)

  abbrev pub set_coordinates : Section Coordinates → Updated Meta → Updated Meta
  set_coordinates (given c) u = mark coordinates_part (
      say (told coordinates_part ∷ [])
        (update_region (change (λ m. record m { coordinates = some c }) u)))
  set_coordinates _ u = u

  abbrev pub set_skills : Section (List (String × ℕ)) → Updated Meta → Updated Meta
  set_skills (given entries) u =
      let skills = parse_skill_data entries in
      let messages = compute_xp_drops skills u.member.skills in
      let level = or_as_it_was (combat_level_of skills) u.member.combat_level in
      say messages
        (mark skills_part (change (λ m. record m { skills = some skills; combat_level = level }) u))
  set_skills _ u = u

  abbrev pub set_inventory : Section (List Item) → Updated Meta → Updated Meta
  set_inventory (given data_items) u =
      let items = parse_item_data known data_items in
      mark inventory_part (
        say (told inventory_part ∷ []) (
          change
            (λ m. record m { inventory = some items; inventory_quantities = item_quantities items })
            u))
  set_inventory _ u = u

  abbrev pub set_equipment : Section (List Item) → Updated Meta → Updated Meta
  set_equipment (given data_items) u =
      let items = parse_item_data known data_items in
      mark equipment_part (
        say (told equipment_part ∷ []) (
          change
            (λ m. record m { equipment = some items; equipment_quantities = item_quantities items })
            u))
  set_equipment _ u = u

  abbrev pub tell_meta : Option Meta → Updated Meta → Updated Meta
  tell_meta none u = u
  tell_meta (some meta) u = say (told meta_part ∷ []) u

  unfoldable pub drop_gone : PolledData Meta → Updated Meta → Updated Meta
  drop_gone polled u = drop_if_gone equipment_part polled.equipment (
      drop_if_gone inventory_part polled.inventory (
        drop_if_gone skills_part polled.skills (
          drop_if_gone coordinates_part polled.coordinates
            (drop_if_gone stats_part polled.stats u))))

  unfoldable pub update : PolledData Meta → Member Meta → Updated Meta
  update polled m =
      let dropped = drop_gone polled (record { member = m; messages = []; attributes = [] }) in
      let told_of = set_meta polled.meta (set_stats polled.stats dropped) in
      let moved = set_skills polled.skills (set_coordinates polled.coordinates told_of) in
      tell_meta polled.meta (set_equipment polled.equipment (set_inventory polled.inventory moved))
