-- ===== src/Members/Coherent.antt =====
-- That `update` makes of a member the one that the poll describes.
use Prim.Native.String.{String}
use ha_osrs_map.Base.{
  ℕ, ◌≡◌, refl, ap, sym, subst, ◌∙◌, Bool, List, [], Option, none, some, string_eq, nat_eq,
}
use ha_osrs_map.Base.Dict.{Dict}
use ha_osrs_map.Regions.{Place, region_for_member}
use ha_osrs_map.Skills.{Skill, parse_skill_data}
use ha_osrs_map.Items.{Item, parse_item_data, item_quantities}
use ha_osrs_map.Members.{
  Section, unchanged, gone, given, Stats, Coordinates, PolledData, Member, Updated, new_member,
}
use ha_osrs_map.Members.Update.{
  place_of, combat_level_of, or_as_it_was, set_stats, set_meta, set_coordinates, set_skills,
  set_inventory, set_equipment, tell_meta, drop_gone, update,
}
use ha_osrs_map.Members.Sections.{
  newer, settled, cleared, replaced, replaced-cleared, quantities_of, IsLevelBeside, level_after,
  skills_from, items_from, IsCoherent, described, update_region-member, after_drops,
  drop_gone-member,
}

module _ (names : Dict ℕ String) where
  abbrev region_at : Coordinates → Option Place
  region_at c = region_for_member names (place_of (some c))

  settled-region :
      (s : Section Coordinates) (before : Option Coordinates) (region : Option Place)
      → region ≡ region_for_member names (place_of before)
      → replaced region_at s (cleared none s region)
        ≡ region_for_member names (place_of (settled none some s before))
  settled-region unchanged before region h = h
  settled-region gone before region h = refl
  settled-region (given a) before region h = refl

module _ (known : ℕ → Bool) where
  abbrev quantities_from : List Item → Dict ℕ (Option ℕ)
  quantities_from data_items = item_quantities (parse_item_data known data_items)

  settled-quantities :
      (s : Section (List Item)) (before : Option (List Item)) (quantities : Dict ℕ (Option ℕ))
      → quantities ≡ quantities_of before
      → replaced quantities_from s (cleared [] s quantities)
        ≡ quantities_of (settled none (items_from known) s before)
  settled-quantities unchanged before quantities h = h
  settled-quantities gone before quantities h = refl
  settled-quantities (given a) before quantities h = refl

settled-level :
    (s : Section (List (String × ℕ))) (before : Option ℕ)
    → replaced (level_after (cleared none s before)) s (cleared none s before)
      ≡ settled none (level_after before) s before
settled-level unchanged before = refl
settled-level gone before = refl
settled-level (given a) before = refl

or_as_it_was_twice :
    (level before : Option ℕ)
    → or_as_it_was level (or_as_it_was level before) ≡ or_as_it_was level before
or_as_it_was_twice none before = refl
or_as_it_was_twice (some level) before = refl

settled-IsLevelBeside :
    (s : Section (List (String × ℕ))) (skills : Option (Dict String Skill)) (before : Option ℕ)
    → IsLevelBeside skills before
    → IsLevelBeside (settled none skills_from s skills) (settled none (level_after before) s before)
settled-IsLevelBeside unchanged skills before h = h
settled-IsLevelBeside gone skills before h = refl
settled-IsLevelBeside (given entries) skills before h =
    or_as_it_was_twice (combat_level_of (parse_skill_data entries)) before

module _ {μ} {Meta : Type μ} (names : Dict ℕ String) (known : ℕ → Bool) where
  abbrev with_stats : Section Stats → Member Meta → Member Meta
  with_stats s m = record m { stats = replaced some s m.stats }

  abbrev with_meta : Option Meta → Member Meta → Member Meta
  with_meta s m = record m { meta = newer s m.meta }

  abbrev with_coordinates : Section Coordinates → Member Meta → Member Meta
  with_coordinates s m = record m {
    coordinates = replaced some s m.coordinates;
    region = replaced (region_at names) s m.region;
  }

  abbrev with_skills : Section (List (String × ℕ)) → Member Meta → Member Meta
  with_skills s m = record m {
    skills = replaced skills_from s m.skills;
    combat_level = replaced (level_after m.combat_level) s m.combat_level;
  }

  abbrev with_inventory : Section (List Item) → Member Meta → Member Meta
  with_inventory s m = record m {
    inventory = replaced (items_from known) s m.inventory;
    inventory_quantities = replaced (quantities_from known) s m.inventory_quantities;
  }

  abbrev with_equipment : Section (List Item) → Member Meta → Member Meta
  with_equipment s m = record m {
    equipment = replaced (items_from known) s m.equipment;
    equipment_quantities = replaced (quantities_from known) s m.equipment_quantities;
  }

  set-stats :
      (s : Section Stats) (u : Updated Meta)
      → (set_stats names known s u).member ≡ with_stats s u.member
  set-stats unchanged u = refl
  set-stats gone u = refl
  set-stats (given a) u = refl

  set-meta :
      (s : Option Meta) (u : Updated Meta)
      → (set_meta names known s u).member ≡ with_meta s u.member
  set-meta none u = refl
  set-meta (some meta) u = refl

  set-coordinates :
      (s : Section Coordinates) (u : Updated Meta)
      → (set_coordinates names known s u).member ≡ with_coordinates s u.member
  set-coordinates unchanged u = refl
  set-coordinates gone u = refl
  set-coordinates (given a) u = update_region-member names known _

  set-skills :
      (s : Section (List (String × ℕ))) (u : Updated Meta)
      → (set_skills names known s u).member ≡ with_skills s u.member
  set-skills unchanged u = refl
  set-skills gone u = refl
  set-skills (given a) u = refl

  set-inventory :
      (s : Section (List Item)) (u : Updated Meta)
      → (set_inventory names known s u).member ≡ with_inventory s u.member
  set-inventory unchanged u = refl
  set-inventory gone u = refl
  set-inventory (given a) u = refl

  set-equipment :
      (s : Section (List Item)) (u : Updated Meta)
      → (set_equipment names known s u).member ≡ with_equipment s u.member
  set-equipment unchanged u = refl
  set-equipment gone u = refl
  set-equipment (given a) u = refl

  tell-meta : (s : Option Meta) (u : Updated Meta) → (tell_meta names known s u).member ≡ u.member
  tell-meta none u = refl
  tell-meta (some meta) u = refl

  abbrev after_sections : PolledData Meta → Member Meta → Member Meta
  after_sections polled m = with_equipment polled.equipment (
      with_inventory polled.inventory (
        with_skills polled.skills (
          with_coordinates polled.coordinates
            (with_meta polled.meta (with_stats polled.stats (after_drops names known polled m))))))

  update-member :
      (polled : PolledData Meta) (m : Member Meta)
      → (update names known polled m).member ≡ after_sections polled m
  unfolding update
  update-member polled m =
      let start : Updated Meta = record { member = m; messages = []; attributes = [] } in
      let dropped : Updated Meta = drop_gone names known polled start in
      let u1 : Updated Meta = set_stats names known polled.stats dropped in
      let u2 : Updated Meta = set_meta names known polled.meta u1 in
      let u3 : Updated Meta = set_coordinates names known polled.coordinates u2 in
      let u4 : Updated Meta = set_skills names known polled.skills u3 in
      let u5 : Updated Meta = set_inventory names known polled.inventory u4 in
      let u6 : Updated Meta = set_equipment names known polled.equipment u5 in
      let e0 : dropped.member ≡ after_drops names known polled m =
        drop_gone-member names known polled start in
      let e1 = set-stats polled.stats dropped ∙ ap (with_stats polled.stats) e0 in
      let e2 = set-meta polled.meta u1 ∙ ap (with_meta polled.meta) e1 in
      let e3 =
        set-coordinates polled.coordinates u2 ∙ ap (with_coordinates polled.coordinates) e2 in
      let e4 = set-skills polled.skills u3 ∙ ap (with_skills polled.skills) e3 in
      let e5 = set-inventory polled.inventory u4 ∙ ap (with_inventory polled.inventory) e4 in
      tell-meta polled.meta u6
      ∙ set-equipment polled.equipment u5
      ∙ ap (with_equipment polled.equipment) e5

  -- A poll makes of a coherent member just what it describes: a section that it leaves out stays,
  -- one that it has empty is gone, one that it has is taken over, and the place and the quantities
  -- are those of the sections after the poll. The combat level is worked out from the skills that
  -- the poll has, if all seven that count are among them; it is gone with skills that are gone; it
  -- stays as it was where the poll leaves the skills out or one of the seven is missing. Nothing
  -- else of the member changes.
  pub update-described :
      (polled : PolledData Meta) (m : Member Meta)
      → IsCoherent names known m
      → (update names known polled m).member ≡ described names known polled m
  update-described polled m coherent = update-member polled m ∙ (λ i. record m {
    stats = replaced-cleared none some polled.stats m.stats i;
    meta = newer polled.meta m.meta;
    coordinates = replaced-cleared none some polled.coordinates m.coordinates i;
    region = settled-region names polled.coordinates m.coordinates m.region coherent.0 i;
    skills = replaced-cleared none skills_from polled.skills m.skills i;
    combat_level = settled-level polled.skills m.combat_level i;
    inventory = replaced-cleared none (items_from known) polled.inventory m.inventory i;
    inventory_quantities = settled-quantities known polled.inventory m.inventory _ coherent.1 i;
    equipment = replaced-cleared none (items_from known) polled.equipment m.equipment i;
    equipment_quantities = settled-quantities known polled.equipment m.equipment _ coherent.2 i;
  })

  -- A poll keeps a member coherent: the place is that of the coordinates, the quantities are those
  -- of the items, there is no combat level without skills, and where all seven skills that count
  -- are there it is the one worked out from them.
  pub update-IsCoherent :
      (polled : PolledData Meta) (m : Member Meta)
      → IsCoherent names known m
      → IsCoherent names known (update names known polled m).member
  update-IsCoherent polled m coherent =
      subst (IsCoherent names known) (sym (update-described polled m coherent))
        (refl, refl, refl, settled-IsLevelBeside polled.skills m.skills m.combat_level coherent.3)

-- A member that a poll has just made is coherent.
pub new_member-IsCoherent {μ} :
    (Meta : Type μ) (names : Dict ℕ String) (known : ℕ → Bool) (name : String)
    → IsCoherent names known (new_member {Meta = Meta} name)
unfolding new_member
new_member-IsCoherent Meta names known name = (refl, refl, refl, refl)
