-- ===== src/Members/Tests.antt =====
-- A member who shares little, a poll about them, and the theorems at these.
use Prim.Native.String.{String}
use ha_osrs_map.Base.{ℕ, ◌≡◌, refl, Bool, true, [], ◌∷◌, none, some, string_eq, nat_eq}
use ha_osrs_map.Base.Dict.{Dict}
use ha_osrs_map.Members.{Member, new_member, StoredData, PolledData, transform_from_storage, gone}
use ha_osrs_map.Members.Update.{update}
use ha_osrs_map.Members.Sections.{IsCoherent, described}
use ha_osrs_map.Members.Coherent.{update-described, update-IsCoherent, new_member-IsCoherent}

abbrev no_names : Dict ℕ String
no_names = []

abbrev every_item : ℕ → Bool
every_item id = true

abbrev newcomer : Member ℕ
newcomer = new_member "Zezima"

-- Ten of item 995 and two of it again, no equipment any more, and nothing about the skills.
abbrev stored : StoredData ℕ
stored = record {
  meta = some 4;
  inventory = some (995 ∷ 10 ∷ 995 ∷ 2 ∷ []);
  equipment = some [];
  skills = none;
  stats = some (10 ∷ 10 ∷ 1 ∷ 1 ∷ 0 ∷ 0 ∷ 302 ∷ []);
  coordinates = some (3222 ∷ 3218 ∷ 0 ∷ []);
}

abbrev polled : PolledData ℕ
polled = transform_from_storage stored

equipment_is_gone : polled.equipment ≡ gone
unfolding transform_from_storage
equipment_is_gone = refl

update-described_example :
    (update no_names every_item polled newcomer).member
    ≡ described no_names every_item polled newcomer
update-described_example =
    update-described no_names every_item polled newcomer
      (new_member-IsCoherent ℕ no_names every_item "Zezima")

update-IsCoherent_example :
    IsCoherent no_names every_item (update no_names every_item polled newcomer).member
update-IsCoherent_example =
    update-IsCoherent no_names every_item polled newcomer
      (new_member-IsCoherent ℕ no_names every_item "Zezima")
