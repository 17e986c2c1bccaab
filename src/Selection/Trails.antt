-- ===== src/Selection/Trails.antt =====
-- The trails shown: at most eight, each once, and those that the operations ask for.
use ha_osrs_map.Base.{
  ◌≤◌, ◌+◌, ◌≡◌, refl, Bool, true, false, not, List, [], ◌∷◌, Option, none, some, if◌then◌else◌, Eq,
  Bool-cases, inl, inr, ◌∙◌, arith, leb, length, length-take, take, nat_beq, ◌&&◌, ◌||◌,
}
use ha_osrs_map.Base.Sets.{
  contains, add, remove, add_all, set_of, NoDup, contains-add, contains-remove, add-NoDup,
  remove-NoDup, add_all-NoDup, length-add-le, length-remove-le,
}
use ha_osrs_map.Storage.{Json, remembered}
use ha_osrs_map.Selection.{
  Page, Stored, max_trails, only_names, names_of, array, select, clear, clear_selected, selected,
  reset, show_trails, toggle_trail, clear_trails, retain_trails, drop_missing, restore,
}

-- At most eight trails, each of another player.
abbrev pub IsSound {ℓ} : {Name : Type ℓ} ⦃e : Eq Name⦄ → List Name → Type 0
IsSound trails = (length trails ≤ 8) × NoDup trails

module _ {ℓ} {Name : Type ℓ} ⦃e : Eq Name⦄ where
  pub remove-IsSound :
      (name : Name) (trails : List Name) → IsSound trails → IsSound (remove name trails)
  remove-IsSound name trails s =
      (omega (arith, length-remove-le name trails), remove-NoDup name trails s.1)

  pub add-IsSound :
      (name : Name) (trails : List Name)
      → leb 8 (length trails) ≡ false
      → IsSound trails
      → IsSound (add name trails)
  add-IsSound name trails room s =
      (ground (arith, length-add-le name trails), add-NoDup name trails s.1)

  keep_or_remove-IsSound :
      (stays : Bool) (name : Name) (trails : List Name)
      → IsSound trails
      → IsSound (if stays then trails else remove name trails)
  keep_or_remove-IsSound true name trails s = s
  keep_or_remove-IsSound false name trails s = remove-IsSound name trails s

  contains-keep_or_remove :
      (stays : Bool) (name x : Name) (trails : List Name)
      → contains x (if stays then trails else remove name trails)
        ≡ (if stays then contains x trails else if e.beq name x then false else contains x trails)
  contains-keep_or_remove true name x trails = refl
  contains-keep_or_remove false name x trails = contains-remove name x trails

  pub drop_missing-IsSound :
      (names shown trails : List Name) (changed : Bool)
      → IsSound trails
      → IsSound (drop_missing names shown trails changed).0
  unfolding drop_missing
  drop_missing-IsSound names [] trails changed s = s
  drop_missing-IsSound names (name ∷ shown) trails changed s =
      drop_missing-IsSound names shown _ _
        (keep_or_remove-IsSound (contains name names) name trails s)

  length-add_all-le : (xs s : List Name) → length (add_all xs s) ≤ length xs + length s
  length-add_all-le [] s = omega arith
  length-add_all-le (x ∷ xs) s = omega (arith, length-add_all-le xs (add x s), length-add-le x s)

  set_of-IsSound : (names : List Name) → IsSound (set_of (take max_trails names))
  set_of-IsSound names = (
    omega (arith, length-add_all-le (take max_trails names) [], length-take max_trails names),
    add_all-NoDup (take max_trails names) [] tt,
  )

  -- What is left by the loop: of the names it looked at, those in `names`.
  contains-drop_missing :
      (names shown trails : List Name) (changed : Bool) (x : Name)
      → contains x (drop_missing names shown trails changed).0 ≡ (
          if contains x names
          then contains x trails
          else if contains x shown
          then false
          else contains x trails)
  unfolding drop_missing contains
  contains-drop_missing names [] trails changed x = ground arith
  contains-drop_missing names (name ∷ shown) trails changed x =
      contains-drop_missing names shown _ _ x
      ∙ rw (contains-keep_or_remove (contains name names) name x trails)
          elim (Bool-cases (e.beq name x)) [
            | inl same ↦ rw (same, (e.beq_iff name x).0 same) ground arith
            | inr different ↦ rw different ground arith
          ]

module _ {ℓ κ τ} {Name : Type ℓ} {Key : Type κ} {Text : Type τ} ⦃e : Eq Name⦄ ⦃k : Eq Key⦄
    (json : Json (Stored Name) Text) (trails_key : Key) where
  -- One operation on the page, whatever it publishes.
  pub data Step : Page Name Key Text → Page Name Key Text → Type (ℓ ⊔ κ ⊔ τ) where
    selecting :
        (p : Page Name Key Text) (name : Name) (follow : Bool) → Step p (select name follow p).0
    clearing : (p : Page Name Key Text) → Step p (clear p).0
    toggling :
        (p : Page Name Key Text) (name : Name) → Step p (toggle_trail json trails_key name p).0.0
    clearing_trails : (p : Page Name Key Text) → Step p (clear_trails json trails_key p).0
    retaining :
        (p : Page Name Key Text) (names : List Name)
        → Step p (retain_trails json trails_key names p).0
    restoring : (p : Page Name Key Text) → Step p (restore json trails_key p).0

  pub data Reaches (p : Page Name Key Text) : Page Name Key Text → Type (ℓ ⊔ κ ⊔ τ) where
    start : Reaches p p
    then_step : {q r : Page Name Key Text} → Reaches p q → Step q r → Reaches p r
    then_reset : {q : Page Name Key Text} → Reaches p q → Reaches p (reset q)

  clear_selected-trails :
      (o : Option Name) (p : Page Name Key Text) → (clear_selected o p).0.trails ≡ p.trails
  clear_selected-trails none p = refl
  clear_selected-trails (some name) p = refl

  pub Step-IsSound : {p q : Page Name Key Text} → Step p q → IsSound p.trails → IsSound q.trails
  unfolding select clear toggle_trail clear_trails retain_trails restore reset show_trails
  Step-IsSound (selecting p name follow) s = s
  Step-IsSound (clearing p) s = rw (clear_selected-trails (selected p) p) s
  Step-IsSound (toggling p name) s = elim (Bool-cases (contains name p.trails)) [
    | inl shown ↦ rw shown (remove-IsSound name p.trails s)
    | inr hidden ↦ elim (Bool-cases (leb 8 (length p.trails))) [
      | inl full ↦ rw (hidden, full) s
      | inr room ↦ rw (hidden, room) (add-IsSound name p.trails room s)
    ]
  ]
  Step-IsSound (clearing_trails p) s = (omega arith, tt)
  Step-IsSound (retaining p names) s =
      let kept = drop_missing-IsSound names p.trails p.trails false s in
      elim (Bool-cases (nat_beq (length names) 0)) [
        | inl empty ↦ rw empty s
        | inr loaded ↦ elim (Bool-cases (drop_missing names p.trails p.trails false).1) [
          | inl changed ↦ rw (loaded, changed) kept
          | inr same ↦ rw (loaded, same) kept
        ]
      ]
  Step-IsSound (restoring p) s =
      set_of-IsSound (only_names (names_of (remembered json trails_key (array []) p.browser)))

  reset-IsSound : (p : Page Name Key Text) → IsSound (reset p).trails
  unfolding reset
  reset-IsSound p = (omega arith, tt)

  -- However the page is used and whatever the browser remembered, from a page without trails on
  -- there are never more than eight, and each player has one.
  pub Reaches-IsSound : {p q : Page Name Key Text} → p.trails ≡ [] → Reaches p q → IsSound q.trails
  Reaches-IsSound {p} empty start = rw empty (omega arith, tt)
  Reaches-IsSound {p} empty (then_step r step) = Step-IsSound step (Reaches-IsSound {p = p} empty r)
  Reaches-IsSound {p} empty (then_reset {q} r) = reset-IsSound q

  -- Toggling is refused exactly where the player has no trail and eight are shown. Where it is not,
  -- the player has a trail if they had none, and none otherwise; everybody else's stays as it was,
  -- and where it is refused everybody's.
  pub toggle_trail-toggles :
      (name : Name) (p : Page Name Key Text)
      → let result = toggle_trail json trails_key name p in
        (result.1 ≡ (contains name p.trails || not (leb 8 (length p.trails))))
        × ((x : Name)
            → contains x result.0.0.trails ≡ (
                if result.1 && e.beq name x
                then not (contains name p.trails)
                else contains x p.trails))
  unfolding toggle_trail show_trails
  toggle_trail-toggles name p = elim (Bool-cases (contains name p.trails)) [
    | inl shown ↦ rw shown (refl, λ x. contains-remove name x p.trails)
    | inr hidden ↦ elim (Bool-cases (leb 8 (length p.trails))) [
      | inl full ↦ rw (hidden, full) (refl, λ x. refl)
      | inr room ↦ rw (hidden, room) (refl, λ x. contains-add name x p.trails)
    ]
  ]

  retain_trails-trails :
      (names : List Name) (p : Page Name Key Text)
      → nat_beq (length names) 0 ≡ false
      → (retain_trails json trails_key names p).0.trails
        ≡ (drop_missing names p.trails p.trails false).0
  unfolding retain_trails show_trails
  retain_trails-trails names p loaded =
      elim (Bool-cases (drop_missing names p.trails p.trails false).1) [
        | inl changed ↦ rw (loaded, changed)
        | inr same ↦ rw (loaded, same)
      ]

  -- Once the roster has loaded, the trails that stay are those of players on it.
  pub retain_trails-keeps :
      (names : List Name) (p : Page Name Key Text) (x : Name)
      → nat_beq (length names) 0 ≡ false
      → contains x (retain_trails json trails_key names p).0.trails
        ≡ (contains x p.trails && contains x names)
  retain_trails-keeps names p x loaded =
      rw
        (retain_trails-trails names p loaded, contains-drop_missing names p.trails p.trails false x)
        (ground arith)
