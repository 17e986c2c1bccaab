-- ===== src/Selection.antt =====
-- Which player is selected and whose trails are shown: site/src/data/selection.js. An operation
-- gives the page after it and the values it publishes, in order.
use ha_osrs_map.Base.{
  ℕ, Bool, true, false, List, [], ◌∷◌, map, Option, none, some, if◌then◌else◌, Eq, leb, length,
  take, nat_beq,
}
use ha_osrs_map.Base.Sets.{contains, add, remove, set_of}
use ha_osrs_map.Storage.{Json, Browser, remember, remembered}
pub mod Trails
pub mod Restore
pub mod Tests

abbrev pub max_trails : ℕ
max_trails = 8

-- A value read from the browser, as `restore` tells values apart: a list of values of which some
-- are names, or something else.
pub data Stored {ℓ} (Name : Type ℓ) : Type ℓ where
  array : List (Option Name) → Stored Name
  not_array : Stored Name

-- The topics that the selection publishes to.
pub data Message {ℓ} (Name : Type ℓ) : Type ℓ where
  player_selected : Option (Name × Bool) → Message Name
  trails_changed : List Name → Message Name
  map_focus : ℕ → ℕ → ℕ → Option ℕ → Message Name

-- `last_selected` is the most recent value of the topic player-selected.
pub record Page {ℓ κ τ} (Name : Type ℓ) (Key : Type κ) (Text : Type τ) : Type (ℓ ⊔ κ ⊔ τ) where
  pub trails : List Name
  pub last_selected : Option (Option (Name × Bool))
  pub browser : Browser Key Text

abbrev pub selected_name {ℓ} : {Name : Type ℓ} → Option (Option (Name × Bool)) → Option Name
selected_name none = none
selected_name (some none) = none
selected_name (some (some (name, follow))) = some name

abbrev pub stored_names {ℓ} : {Name : Type ℓ} → List Name → Stored Name
stored_names names = array (map (λ name. some name) names)

-- `names.filter((name) => typeof name === "string")`
abbrev pub only_names {ℓ} : {Name : Type ℓ} → List (Option Name) → List Name
only_names [] = []
only_names (none ∷ values) = only_names values
only_names (some name ∷ values) = name ∷ only_names values

abbrev pub names_of {ℓ} : {Name : Type ℓ} → Stored Name → List (Option Name)
names_of (array values) = values
names_of not_array = []

module _ {ℓ κ τ} {Name : Type ℓ} {Key : Type κ} {Text : Type τ} where
  abbrev pub selected : Page Name Key Text → Option Name
  selected page = selected_name page.last_selected

  unfoldable pub select :
      Name → Bool → Page Name Key Text → Page Name Key Text × List (Message Name)
  select name follow page = (
    record page { last_selected = some (some (name, follow)) },
    player_selected (some (name, follow)) ∷ [],
  )

  abbrev pub clear_selected :
      Option Name → Page Name Key Text → Page Name Key Text × List (Message Name)
  clear_selected none page = (page, [])
  clear_selected (some name) page =
      (record page { last_selected = some none }, player_selected none ∷ [])

  unfoldable pub clear : Page Name Key Text → Page Name Key Text × List (Message Name)
  clear page = clear_selected (selected page) page

  unfoldable pub focus_map :
      ℕ → ℕ → ℕ → Option ℕ → Page Name Key Text → Page Name Key Text × List (Message Name)
  focus_map x y plane zoom page = (page, map_focus x y plane zoom ∷ [])

  unfoldable pub reset : Page Name Key Text → Page Name Key Text
  reset page = record page { trails = [] }

-- The loop of `retainTrails` over the names that were shown, with the trails and whether they changed.
unfoldable pub drop_missing {ℓ} :
    {Name : Type ℓ} ⦃e : Eq Name⦄ → List Name → List Name → List Name → Bool → List Name × Bool
drop_missing names [] trails changed = (trails, changed)
drop_missing names (name ∷ shown) trails changed =
    let stays = contains name names in
    drop_missing names shown (if stays then trails else remove name trails)
      (if stays then changed else true)

module _ {ℓ κ τ} {Name : Type ℓ} {Key : Type κ} {Text : Type τ} ⦃e : Eq Name⦄ ⦃k : Eq Key⦄
    (json : Json (Stored Name) Text) (trails_key : Key) where
  abbrev pub has_trail : Name → Page Name Key Text → Bool
  has_trail name page = contains name page.trails

  -- `trailsChanged`, with the trails as they are now.
  unfoldable pub show_trails :
      List Name → Page Name Key Text → Page Name Key Text × List (Message Name)
  show_trails trails page = (
    record page {
      trails = trails;
      browser = remember json trails_key (stored_names trails) page.browser;
    },
    trails_changed trails ∷ [],
  )

  -- The last component is false where the limit is reached.
  unfoldable pub toggle_trail :
      Name → Page Name Key Text → (Page Name Key Text × List (Message Name)) × Bool
  toggle_trail name page =
      if contains name page.trails
      then (show_trails (remove name page.trails) page, true)
      else if leb max_trails (length page.trails)
      then ((page, []), false)
      else (show_trails (add name page.trails) page, true)

  unfoldable pub clear_trails : Page Name Key Text → Page Name Key Text × List (Message Name)
  clear_trails page = show_trails [] page

  unfoldable pub retain_trails :
      List Name → Page Name Key Text → Page Name Key Text × List (Message Name)
  retain_trails names page =
      let kept = drop_missing names page.trails page.trails false in
      if nat_beq (length names) 0
      then (page, [])
      else if kept.1
      then show_trails kept.0 page
      else (record page { trails = kept.0 }, [])

  unfoldable pub restore : Page Name Key Text → Page Name Key Text × List (Message Name)
  restore page =
      let stored = remembered json trails_key (array []) page.browser in
      let trails = set_of (take max_trails (only_names (names_of stored))) in
      (
        record page { trails = trails },
        if nat_beq (length trails) 0 then [] else trails_changed trails ∷ [],
      )
