-- ===== src/Selection/Tests.antt =====
-- The selection on a small page, and its theorems at it.
use ha_osrs_map.Base.{
  nat_eq, ◌≡◌, ◌&&◌, ◌||◌, leb, refl, arith, ℕ, true, not, List, [], ◌∷◌, none, some, length,
  if◌then◌else◌, nat_beq,
}
use ha_osrs_map.Base.Dict.{get, put}
use ha_osrs_map.Base.Sets.{contains, add, remove}
use ha_osrs_map.Storage.{Json, remember, remembered}
use ha_osrs_map.Selection.{
  Page, Stored, toggle_trail, show_trails, retain_trails, restore, drop_missing,
}
use ha_osrs_map.Selection.Trails.{
  IsSound, Reaches, start, then_step, toggling, Reaches-IsSound, toggle_trail-toggles,
}
use ha_osrs_map.Selection.Restore.{IsKept, Step-IsKept}

program : Unit {0}
unfolding toggle_trail show_trails retain_trails restore drop_missing contains add remove remember
    remembered get put
program = tt

-- JSON whose text is the value itself.
abbrev plain : Json (Stored ℕ) (Stored ℕ)
plain = record { stringify = λ v. v; parse = λ t. some t; parse-stringify = λ v i. some v }

abbrev empty_page : Page ℕ ℕ (Stored ℕ)
empty_page = record {
  trails = [];
  last_selected = none;
  browser = record { items = []; readable = true; accepts = λ key text. true };
}

abbrev two_trails : Page ℕ ℕ (Stored ℕ)
two_trails = (toggle_trail plain 0 5 (toggle_trail plain 0 3 empty_page).0.0).0.0

abbrev roster : List ℕ
roster = 5 ∷ []

shows_two : two_trails.trails ≡ 3 ∷ 5 ∷ []
unfolding program
shows_two = refl

restores_two :
    (restore plain 0 (record empty_page { browser = two_trails.browser })).0.trails ≡ 3 ∷ 5 ∷ []
unfolding program
restores_two = refl

two_steps : Reaches plain 0 empty_page two_trails
two_steps =
    then_step (then_step start (toggling empty_page 3))
      (toggling (toggle_trail plain 0 3 empty_page).0.0 5)

Reaches-IsSound_example : IsSound two_trails.trails
Reaches-IsSound_example = Reaches-IsSound plain 0 {p = empty_page} refl two_steps

toggle_trail-toggles_example :
    let result = toggle_trail plain 0 3 two_trails in
    (result.1 ≡ (contains 3 two_trails.trails || not (leb 8 (length two_trails.trails))))
    × ((x : ℕ)
        → contains x result.0.0.trails ≡ (
            if result.1 && nat_beq 3 x
            then not (contains 3 two_trails.trails)
            else contains x two_trails.trails))
toggle_trail-toggles_example = toggle_trail-toggles plain 0 3 two_trails

empty_page-IsKept : IsKept plain 0 empty_page
unfolding program
empty_page-IsKept = record {
  willing = record { readable = refl; accepts = λ key text. refl };
  restored = refl;
}

Step-IsKept_example : IsKept plain 0 (toggle_trail plain 0 3 empty_page).0.0
Step-IsKept_example =
    Step-IsKept plain 0 (toggling empty_page 3) (omega arith, tt) empty_page-IsKept
