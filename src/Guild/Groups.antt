-- ===== src/Guild/Groups.antt =====
-- The members by place and by world: groupByRegion and groupByWorld of site/src/data/regions.js. How
-- names compare (`localeCompare`) is a parameter.

use ha_osrs_map.Base.{
  ℕ, ◌≡◌, ap, sym, ◌∙◌, Bool, false, ◌&&◌, ◌||◌, List, [], ◌∷◌, ◌++◌, map, Option, none, some,
  if◌then◌else◌, ltb, leb, nat_beq, length, keep_if, Eq, Bool-cases, inl, inr, append_nil,
  append_assoc, nat_eq,
}
use ha_osrs_map.Base.Dict.{Dict, get, put, get-put}
use ha_osrs_map.Base.Sorting.{sort}
use ha_osrs_map.Regions.{Place, place_eq}
use ha_osrs_map.Members.{Member, Coordinates, Stats}

abbrev pub group_or_new {ℓ} : {A : Type ℓ} → Option (List A) → List A
group_or_new none = []
group_or_new (some group) = group

-- A member put into the group of a key; one without a key is passed over.
abbrev pub group_one {ℓ κ} :
    {A : Type ℓ} {K : Type κ} ⦃e : Eq K⦄ → Option K → A → Dict K (List A) → Dict K (List A)
group_one none a groups = groups
group_one (some k) a groups = put k (group_or_new (get k groups) ++ (a ∷ [])) groups

unfoldable pub group_all {ℓ κ} :
    {A : Type ℓ} {K : Type κ} ⦃e : Eq K⦄
    → (A → Option K)
    → List A
    → Dict K (List A)
    → Dict K (List A)
group_all key [] groups = groups
group_all key (a ∷ members) groups = group_all key members (group_one (key a) a groups)

-- The place of an online member who is somewhere: none inside where the place has no name.
abbrev pub place_if_there : Option Coordinates → Option Place → Option (Option Place)
place_if_there none place = none
place_if_there (some c) place = some place

abbrev pub region_key {μ} : {Meta : Type μ} → Member Meta → Option (Option Place)
region_key m = if m.online then place_if_there m.coordinates m.region else none

-- A world that is 0 or missing is none.
abbrev pub real_world : Option ℕ → Option ℕ
real_world none = none
real_world (some world) = if nat_beq world 0 then none else some world

abbrev pub world_of : Option Stats → Option ℕ
world_of none = none
world_of (some stats) = real_world stats.world

abbrev pub world_key {μ} : {Meta : Type μ} → Member Meta → Option ℕ
world_key m = if m.online then world_of m.stats else none

-- A group of members at a place, and where the first of them is.
pub record Group {μ} (Meta : Type μ) : Type μ where
  pub place : Option Place
  pub members : List (Member Meta)
  pub coordinates : Option Coordinates

abbrev pub first_coordinates {μ} : {Meta : Type μ} → List (Member Meta) → Option Coordinates
first_coordinates [] = none
first_coordinates (m ∷ members) = m.coordinates

abbrev pub group_of {μ} : {Meta : Type μ} → Option Place × List (Member Meta) → Group Meta
group_of (place, members) = record {
  place = place;
  members = members;
  coordinates = first_coordinates members;
}

abbrev pub larger_first {μ} :
    {Meta : Type μ} → (Option Place → Option Place → Bool) → Group Meta → Group Meta → Bool
larger_first le a b =
    ltb (length b.members) (length a.members)
    || (nat_beq (length b.members) (length a.members) && le a.place b.place)

unfoldable pub group_by_region {μ} :
    {Meta : Type μ} → (Option Place → Option Place → Bool) → List (Member Meta) → List (Group Meta)
group_by_region le members = sort (larger_first le) (map group_of (group_all region_key members []))

abbrev pub busier_first {μ} :
    {Meta : Type μ} → ℕ × List (Member Meta) → ℕ × List (Member Meta) → Bool
busier_first (a, here) (b, there) =
    ltb (length there) (length here) || (nat_beq (length there) (length here) && leb a b)

unfoldable pub group_by_world {μ} :
    {Meta : Type μ} → List (Member Meta) → List (ℕ × List (Member Meta))
group_by_world members = sort busier_first (group_all world_key members [])

abbrev pub has_key {κ} : {K : Type κ} ⦃e : Eq K⦄ → K → Option K → Bool
has_key k none = false
has_key ⦃e⦄ k (some j) = e.beq j k

append_swap_nil {ℓ} : {A : Type ℓ} (xs ys : List A) → (xs ++ []) ++ ys ≡ xs ++ ys
append_swap_nil xs ys = ap (λ zs. zs ++ ys) (append_nil xs)

module _ {ℓ κ} {A : Type ℓ} {K : Type κ} ⦃e : Eq K⦄ (key : A → Option K) where
  one_more :
      (k : K) (found : Option K) (a : A) (groups : Dict K (List A))
      → group_or_new (get k (group_one found a groups))
        ≡ group_or_new (get k groups) ++ (if has_key k found then a ∷ [] else [])
  one_more k none a groups = sym (append_nil (group_or_new (get k groups)))
  one_more k (some j) a groups =
      rw (get-put j k (group_or_new (get j groups) ++ (a ∷ [])) groups)
        elim (Bool-cases (e.beq j k)) [
          | inl same ↦
              rw same (ap (λ i. group_or_new (get i groups) ++ (a ∷ [])) ((e.beq_iff j k).0 same))
          | inr other ↦ rw other (sym (append_nil (group_or_new (get k groups))))
        ]

  group_all_from :
      (members : List A) (k : K) (groups : Dict K (List A))
      → group_or_new (get k (group_all key members groups))
        ≡ group_or_new (get k groups) ++ keep_if (λ a. has_key k (key a)) members
  unfolding group_all
  group_all_from [] k groups = sym (append_nil (group_or_new (get k groups)))
  group_all_from (a ∷ members) k groups =
      group_all_from members k (group_one (key a) a groups)
      ∙ ap (λ l. l ++ keep_if (λ b. has_key k (key b)) members) (one_more k (key a) a groups)
      ∙ elim (Bool-cases (has_key k (key a))) [
        | inl here ↦ rw here (append_assoc (group_or_new (get k groups)) _ a)
        | inr away ↦ rw away (append_swap_nil (group_or_new (get k groups)) _)
      ]

  -- The group of a key has just those with that key, in the order they were in, and there is none
  -- where nobody has it.
  pub group_all-members :
      (members : List A) (k : K)
      → group_or_new (get k (group_all key members [])) ≡ keep_if (λ a. has_key k (key a)) members
  unfolding get
  group_all-members members k = group_all_from members k []
