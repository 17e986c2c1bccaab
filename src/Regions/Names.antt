-- ===== src/Regions/Names.antt =====
-- Which name a place gets.
use Prim.Native.String.{String}
use ha_osrs_map.Base.{
  ℕ, ◌≡◌, ◌++◌, ◌∙◌, append_nil, append_assoc, sym, subst, refl, true, false, Option, none, some,
  List, [], ◌∷◌, Bool-cases, Option-cases, inl, inr, nat_eq,
}
use ha_osrs_map.Base.Dict.{Dict, get}
use ha_osrs_map.Trail.Point.{in_instance_space}
use ha_osrs_map.Regions.{
  region_id, Level, wilderness_level, in_ferox_enclave, Place, ferox_enclave, wilderness, named,
  instance_area, near, real_name, Shift, shifted, name_at, neighbours, near_name, region_name,
}

-- None of some neighbours has a name.
abbrev pub Nameless : Dict ℕ String → List (Shift × Shift) → ℕ → ℕ → Type 0
Nameless names [] x y = Unit
Nameless names ((dx, dy) ∷ rest) x y =
    (name_at names (shifted dx x) (shifted dy y) ≡ none) × Nameless names rest x y

-- What a place's name says about the place, in the order in which the rules are asked.
pub data IsNameOf (names : Dict ℕ String) (x y : ℕ) : Option Place → Type 0 where
  in_enclave : in_ferox_enclave x y ≡ true → IsNameOf names x y (some ferox_enclave)
  in_wilderness :
      (level : Level)
      → in_ferox_enclave x y ≡ false
      → wilderness_level x y ≡ some level
      → IsNameOf names x y (some (wilderness level))
  by_name :
      (name : String)
      → in_ferox_enclave x y ≡ false
      → wilderness_level x y ≡ none
      → real_name (get (region_id x y) names) ≡ some name
      → IsNameOf names x y (some (named name))
  in_instance :
      wilderness_level x y ≡ none
      → real_name (get (region_id x y) names) ≡ none
      → in_instance_space x ≡ true
      → IsNameOf names x y (some instance_area)
  by_neighbour :
      (before after : List (Shift × Shift)) (dx dy : Shift) (name : String)
      → wilderness_level x y ≡ none
      → real_name (get (region_id x y) names) ≡ none
      → in_instance_space x ≡ false
      → neighbours ≡ before ++ ((dx, dy) ∷ after)
      → Nameless names before x y
      → name_at names (shifted dx x) (shifted dy y) ≡ some name
      → IsNameOf names x y (some (near name))
  nowhere :
      wilderness_level x y ≡ none
      → real_name (get (region_id x y) names) ≡ none
      → in_instance_space x ≡ false
      → Nameless names neighbours x y
      → IsNameOf names x y none

module _ (names : Dict ℕ String) (x y : ℕ) (level : wilderness_level x y ≡ none)
    (unnamed : real_name (get (region_id x y) names) ≡ none)
    (inside : in_instance_space x ≡ false) where
  Nameless-snoc :
      (before : List (Shift × Shift)) (dx dy : Shift)
      → Nameless names before x y
      → name_at names (shifted dx x) (shifted dy y) ≡ none
      → Nameless names (before ++ ((dx, dy) ∷ [])) x y
  Nameless-snoc [] dx dy h e = (e, tt)
  Nameless-snoc ((ex, ey) ∷ before) dx dy h e = (h.0, Nameless-snoc before dx dy h.1 e)

  near_name-IsNameOf :
      (before rest : List (Shift × Shift))
      → neighbours ≡ before ++ rest
      → Nameless names before x y
      → IsNameOf names x y (near_name names rest x y)
  unfolding near_name
  near_name-IsNameOf before [] split h =
      nowhere level unnamed inside
        (subst (λ l. Nameless names l x y) (sym (split ∙ append_nil before)) h)
  near_name-IsNameOf before ((dx, dy) ∷ rest) split h =
      elim (Option-cases (name_at names (shifted dx x) (shifted dy y))) [
        | inl e ↦ rw e (
            near_name-IsNameOf (before ++ ((dx, dy) ∷ [])) rest
              (split ∙ sym (append_assoc before rest (dx, dy))) (Nameless-snoc before dx dy h e))
        | inr (name, e) ↦ rw e (by_neighbour before rest dx dy name level unnamed inside split h e)
      ]

-- The name of a place follows the rules in their order: the enclave, the wilderness, the name of
-- its region, an instance, the first neighbouring region with a name, and otherwise none.
pub region_name-IsNameOf :
    (names : Dict ℕ String) (x y : ℕ) → IsNameOf names x y (region_name names x y)
unfolding region_name
region_name-IsNameOf names x y = elim (Bool-cases (in_ferox_enclave x y)) [
  | inl enclave ↦ rw enclave (in_enclave enclave)
  | inr outside ↦ elim (Option-cases (wilderness_level x y)) [
    | inr (level, e) ↦ rw (outside, e) (in_wilderness level outside e)
    | inl safe ↦ elim (Option-cases (real_name (get (region_id x y) names))) [
      | inr (name, e) ↦ rw (outside, safe, e) (by_name name outside safe e)
      | inl unnamed ↦ elim (Bool-cases (in_instance_space x)) [
        | inl away ↦ rw (outside, safe, unnamed, away) (in_instance safe unnamed away)
        | inr inside ↦
            rw (outside, safe, unnamed, inside)
              (near_name-IsNameOf names x y safe unnamed inside [] neighbours refl tt)
      ]
    ]
  ]
]
