-- ===== src/Members/Sections.antt =====
-- What a poll leaves of a member, section by section, and that `update` does just that.
use Prim.Native.String.{String}
use ha_osrs_map.Base.{
  ℕ, ◌≡◌, refl, ap, sym, ◌∙◌, Bool, List, [], Option, none, some, Bool-cases, inl, inr, string_eq,
  nat_eq,
}
use ha_osrs_map.Base.Dict.{Dict}
use ha_osrs_map.Regions.{region_for_member, same_place, eq_of_same_place}
use ha_osrs_map.Skills.{Skill, parse_skill_data}
use ha_osrs_map.Items.{Item, parse_item_data, item_quantities}
use ha_osrs_map.Members.{
  Section, unchanged, gone, given, Stats, Coordinates, PolledData, Member, stats_part,
  coordinates_part, skills_part, inventory_part, equipment_part, Updated,
}
use ha_osrs_map.Members.Update.{
  place_of, combat_level_of, or_as_it_was, update_region, drop, drop_if_gone, drop_gone,
}

-- What a section of a poll makes of what was there.
abbrev pub settled {ℓ κ} : {A : Type ℓ} {B : Type κ} → B → (A → B) → Section A → B → B
settled nothing f unchanged b = b
settled nothing f gone b = nothing
settled nothing f (given a) b = f a

abbrev pub newer {ℓ} : {A : Type ℓ} → Option A → Option A → Option A
newer none b = b
newer (some a) b = some a

abbrev pub quantities_of : Option (List Item) → Dict ℕ (Option ℕ)
quantities_of none = []
quantities_of (some items) = item_quantities items

-- A combat level beside the skills of the same member: none without skills, and the one worked out
-- from them where all seven that count are there.
abbrev pub IsLevelBeside : Option (Dict String Skill) → Option ℕ → Type 0
IsLevelBeside none level = level ≡ none
IsLevelBeside (some skills) level = or_as_it_was (combat_level_of skills) level ≡ level

-- The two halves of `settled`: the loop that drops, and what follows it.
abbrev pub cleared {ℓ κ} : {A : Type ℓ} {B : Type κ} → B → Section A → B → B
cleared nothing gone b = nothing
cleared nothing _ b = b

abbrev pub replaced {ℓ κ} : {A : Type ℓ} {B : Type κ} → (A → B) → Section A → B → B
replaced f (given a) b = f a
replaced f _ b = b

pub replaced-cleared {ℓ κ} :
    {A : Type ℓ} {B : Type κ} (nothing : B) (f : A → B) (s : Section A) (b : B)
    → replaced f s (cleared nothing s b) ≡ settled nothing f s b
replaced-cleared nothing f unchanged b = refl
replaced-cleared nothing f gone b = refl
replaced-cleared nothing f (given a) b = refl

abbrev pub level_after : Option ℕ → List (String × ℕ) → Option ℕ
level_after before entries = or_as_it_was (combat_level_of (parse_skill_data entries)) before

abbrev pub skills_from : List (String × ℕ) → Option (Dict String Skill)
skills_from entries = some (parse_skill_data entries)

abbrev pub items_from : (ℕ → Bool) → List Item → Option (List Item)
items_from known data_items = some (parse_item_data known data_items)

module _ {μ} {Meta : Type μ} (names : Dict ℕ String) (known : ℕ → Bool) where
  -- The place and the quantities are those of the sections they come from. There is no combat level
  -- without skills, and where all seven skills that count are there it is the one worked out from
  -- them; beside skills of which one of the seven is missing it may be any.
  abbrev pub IsCoherent : Member Meta → Type 0
  IsCoherent m =
      (m.region ≡ region_for_member names (place_of m.coordinates))
      × (m.inventory_quantities ≡ quantities_of m.inventory)
      × (m.equipment_quantities ≡ quantities_of m.equipment)
      × IsLevelBeside m.skills m.combat_level

  -- The member that a poll describes.
  abbrev pub described : PolledData Meta → Member Meta → Member Meta
  described polled m =
      let coordinates = settled none some polled.coordinates m.coordinates in
      let inventory = settled none (items_from known) polled.inventory m.inventory in
      let equipment = settled none (items_from known) polled.equipment m.equipment in
      record m {
        stats = settled none some polled.stats m.stats;
        meta = newer polled.meta m.meta;
        coordinates = coordinates;
        region = region_for_member names (place_of coordinates);
        skills = settled none skills_from polled.skills m.skills;
        combat_level = settled none (level_after m.combat_level) polled.skills m.combat_level;
        inventory = inventory;
        inventory_quantities = quantities_of inventory;
        equipment = equipment;
        equipment_quantities = quantities_of equipment;
      }

  abbrev moved : Member Meta → Member Meta
  moved m = record m { region = region_for_member names (place_of m.coordinates) }

  pub update_region-member :
      (u : Updated Meta) → (update_region names known u).member ≡ moved u.member
  unfolding update_region
  update_region-member u =
      let region = region_for_member names (place_of u.member.coordinates) in
      elim (Bool-cases (same_place region u.member.region)) [
        | inl same ↦
            rw same (λ i. record u.member {
              region = sym (eq_of_same_place region u.member.region same) i;
            })
        | inr different ↦ rw different
      ]

  abbrev pub after_drops : PolledData Meta → Member Meta → Member Meta
  after_drops polled m = record m {
    stats = cleared none polled.stats m.stats;
    coordinates = cleared none polled.coordinates m.coordinates;
    region = cleared none polled.coordinates m.region;
    skills = cleared none polled.skills m.skills;
    combat_level = cleared none polled.skills m.combat_level;
    inventory = cleared none polled.inventory m.inventory;
    inventory_quantities = cleared [] polled.inventory m.inventory_quantities;
    equipment = cleared none polled.equipment m.equipment;
    equipment_quantities = cleared [] polled.equipment m.equipment_quantities;
  }

  abbrev without_stats : Section Stats → Member Meta → Member Meta
  without_stats s m = record m { stats = cleared none s m.stats }

  abbrev without_coordinates : Section Coordinates → Member Meta → Member Meta
  without_coordinates s m = record m {
    coordinates = cleared none s m.coordinates;
    region = cleared none s m.region;
  }

  abbrev without_skills : Section (List (String × ℕ)) → Member Meta → Member Meta
  without_skills s m = record m {
    skills = cleared none s m.skills;
    combat_level = cleared none s m.combat_level;
  }

  abbrev without_inventory : Section (List Item) → Member Meta → Member Meta
  without_inventory s m = record m {
    inventory = cleared none s m.inventory;
    inventory_quantities = cleared [] s m.inventory_quantities;
  }

  abbrev without_equipment : Section (List Item) → Member Meta → Member Meta
  without_equipment s m = record m {
    equipment = cleared none s m.equipment;
    equipment_quantities = cleared [] s m.equipment_quantities;
  }

  drop-stats :
      (s : Section Stats) (u : Updated Meta)
      → (drop_if_gone names known stats_part s u).member ≡ without_stats s u.member
  unfolding drop
  drop-stats unchanged u = refl
  drop-stats gone u = refl
  drop-stats (given a) u = refl

  drop-coordinates :
      (s : Section Coordinates) (u : Updated Meta)
      → (drop_if_gone names known coordinates_part s u).member ≡ without_coordinates s u.member
  unfolding drop
  drop-coordinates unchanged u = refl
  drop-coordinates gone u = update_region-member _
  drop-coordinates (given a) u = refl

  drop-skills :
      (s : Section (List (String × ℕ))) (u : Updated Meta)
      → (drop_if_gone names known skills_part s u).member ≡ without_skills s u.member
  unfolding drop
  drop-skills unchanged u = refl
  drop-skills gone u = refl
  drop-skills (given a) u = refl

  drop-inventory :
      (s : Section (List Item)) (u : Updated Meta)
      → (drop_if_gone names known inventory_part s u).member ≡ without_inventory s u.member
  unfolding drop
  drop-inventory unchanged u = refl
  drop-inventory gone u = refl
  drop-inventory (given a) u = refl

  drop-equipment :
      (s : Section (List Item)) (u : Updated Meta)
      → (drop_if_gone names known equipment_part s u).member ≡ without_equipment s u.member
  unfolding drop
  drop-equipment unchanged u = refl
  drop-equipment gone u = refl
  drop-equipment (given a) u = refl

  pub drop_gone-member :
      (polled : PolledData Meta) (u : Updated Meta)
      → (drop_gone names known polled u).member ≡ after_drops polled u.member
  unfolding drop_gone
  drop_gone-member polled u =
      drop-equipment polled.equipment _
      ∙ ap (without_equipment polled.equipment) (
          drop-inventory polled.inventory _
          ∙ ap (without_inventory polled.inventory) (
              drop-skills polled.skills _
              ∙ ap (without_skills polled.skills) (
                  drop-coordinates polled.coordinates _
                  ∙ ap (without_coordinates polled.coordinates) (drop-stats polled.stats u))))
