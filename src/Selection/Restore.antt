-- ===== src/Selection/Restore.antt =====
-- What is shown after the page was reloaded.
use ha_osrs_map.Base.{
  append_nil, append_assoc, ◌≡◌, refl, true, false, List, [], ◌∷◌, ◌++◌, map, Option, none, some,
  Eq, Bool-cases, inl, inr, ap, ◌∙◌, sym, arith, leb, beq_self, length, take-all, nat_beq,
}
use ha_osrs_map.Base.Sets.{contains, add, remove, add_all, set_of, NoDup, contains-add, add-absent}
use ha_osrs_map.Storage.{Json, Browser, remember, remembered-remember}
use ha_osrs_map.Selection.{
  Page, Stored, only_names, stored_names, array, select, clear, clear_selected, selected,
  show_trails, toggle_trail, clear_trails, retain_trails, drop_missing, restore,
}
use ha_osrs_map.Selection.Trails.{
  IsSound, Step, selecting, clearing, toggling, clearing_trails, retaining, restoring,
  remove-IsSound, add-IsSound, drop_missing-IsSound,
}

only_names-stored {ℓ} :
    {Name : Type ℓ} (names : List Name) → only_names (map (λ name. some name) names) ≡ names
only_names-stored [] = refl
only_names-stored (name ∷ names) = ap (◌∷◌ name) (only_names-stored names)

module _ {ℓ} {Name : Type ℓ} ⦃e : Eq Name⦄ where
  IsApart : List Name → List Name → Type 0
  IsApart [] s = Unit
  IsApart (x ∷ xs) s = (contains x s ≡ false) × IsApart xs s

  nothing-IsApart : (xs : List Name) → IsApart xs []
  unfolding IsApart contains
  nothing-IsApart [] = tt
  nothing-IsApart (x ∷ xs) = (refl, nothing-IsApart xs)

  add-IsApart :
      (x : Name) (xs s : List Name) → contains x xs ≡ false → IsApart xs s → IsApart xs (add x s)
  unfolding IsApart contains
  add-IsApart x [] s new apart = tt
  add-IsApart x (y ∷ xs) s new apart =
      ground (arith, contains-add x y s, e.beq_iff x y, e.beq_iff y x, add-IsApart x xs s)

  add_all-apart : (xs s : List Name) → NoDup xs → IsApart xs s → add_all xs s ≡ s ++ xs
  unfolding IsApart
  add_all-apart [] s d apart = sym (append_nil s)
  add_all-apart (x ∷ xs) s d apart =
      add_all-apart xs (add x s) d.1 (add-IsApart x xs s d.0 apart.1)
      ∙ rw (add-absent x s apart.0) (append_assoc s xs x)

  -- A set made of names among which none stands twice has them in the same order.
  set_of-NoDup : (names : List Name) → NoDup names → set_of names ≡ names
  set_of-NoDup names d = add_all-apart names [] d (nothing-IsApart names)

  drop_missing-changed :
      (names shown trails : List Name) → (drop_missing names shown trails true).1 ≡ true
  unfolding drop_missing
  drop_missing-changed names [] trails = refl
  drop_missing-changed names (name ∷ shown) trails = elim (Bool-cases (contains name names)) [
    | inl stays ↦ rw (drop_missing, stays) (drop_missing-changed names shown trails)
    | inr gone ↦ rw (drop_missing, gone) (drop_missing-changed names shown (remove name trails))
  ]

  drop_missing-same :
      (names shown trails : List Name)
      → (drop_missing names shown trails false).1 ≡ false
      → (drop_missing names shown trails false).0 ≡ trails
  unfolding drop_missing
  drop_missing-same names [] trails same = refl
  drop_missing-same names (name ∷ shown) trails same = elim (Bool-cases (contains name names)) [
    | inl stays ↦
        rw (drop_missing, stays)
          (drop_missing-same names shown trails (rw (drop_missing, stays) at same))
    | inr gone ↦
        let changed = drop_missing-changed names shown (remove name trails) in
        let unchanged = rw (drop_missing, gone) at same in cc
  ]

module _ {ℓ κ τ} {Name : Type ℓ} {Key : Type κ} {Text : Type τ} ⦃e : Eq Name⦄ ⦃k : Eq Key⦄
    (json : Json (Stored Name) Text) (trails_key : Key) where
  -- A browser that can be read and accepts everything.
  pub record IsWilling (browser : Browser Key Text) : Type (κ ⊔ τ) where
    pub readable : browser.readable ≡ true
    pub accepts : (key : Key) (text : Text) → browser.accepts key text ≡ true

  -- A page loaded now would show the trails that this one shows.
  pub record IsKept (p : Page Name Key Text) : Type (ℓ ⊔ κ ⊔ τ) where
    pub willing : IsWilling p.browser
    pub restored : (restore json trails_key p).0.trails ≡ p.trails

  remember-IsWilling :
      (value : Stored Name) (browser : Browser Key Text)
      → IsWilling browser
      → IsWilling (remember json trails_key value browser)
  unfolding remember
  remember-IsWilling value browser willing =
      rw (willing.accepts trails_key (json.stringify value))
        (record { readable = willing.readable; accepts = willing.accepts })

  show_trails-IsKept :
      (trails : List Name) (p : Page Name Key Text)
      → IsSound trails
      → IsWilling p.browser
      → IsKept (show_trails json trails_key trails p).0
  unfolding show_trails restore
  show_trails-IsKept trails p sound willing = record {
    willing = remember-IsWilling (stored_names trails) p.browser willing;
    restored =
        rw
          (
            remembered-remember json trails_key trails_key (stored_names trails) (array [])
                p.browser,
            willing.readable,
            willing.accepts trails_key (json.stringify (stored_names trails)),
            beq_self trails_key,
            only_names-stored trails,
            take-all 8 trails sound.0,
          )
          (set_of-NoDup trails sound.1);
  }

  -- The trails and the browser alone decide.
  IsKept-same :
      (p q : Page Name Key Text) → q.trails ≡ p.trails → q.browser ≡ p.browser → IsKept p → IsKept q
  unfolding restore
  IsKept-same p q trails browser kept = record {
    willing = rw browser kept.willing;
    restored = rw (trails, browser) kept.restored;
  }

  clear_selected-IsKept :
      (o : Option Name) (p : Page Name Key Text) → IsKept p → IsKept (clear_selected o p).0
  clear_selected-IsKept none p kept = kept
  clear_selected-IsKept (some name) p kept = IsKept-same p _ refl refl kept

  -- Where a page loaded now would show the trails that are shown, from a willing browser, and they
  -- are at most eight of different players, the same is so after every operation but reset.
  pub Step-IsKept :
      {p q : Page Name Key Text} → Step json trails_key p q → IsSound p.trails → IsKept p → IsKept q
  unfolding select clear toggle_trail clear_trails retain_trails restore
  Step-IsKept (selecting p name follow) sound kept = IsKept-same p _ refl refl kept
  Step-IsKept (clearing p) sound kept = clear_selected-IsKept (selected p) p kept
  Step-IsKept (toggling p name) sound kept = elim (Bool-cases (contains name p.trails)) [
    | inl shown ↦
        rw shown (show_trails-IsKept _ p (remove-IsSound name p.trails sound) kept.willing)
    | inr hidden ↦ elim (Bool-cases (leb 8 (length p.trails))) [
      | inl full ↦ rw (hidden, full) kept
      | inr room ↦
          rw (hidden, room)
            (show_trails-IsKept _ p (add-IsSound name p.trails room sound) kept.willing)
    ]
  ]
  Step-IsKept (clearing_trails p) sound kept =
      show_trails-IsKept [] p (omega arith, tt) kept.willing
  Step-IsKept (retaining p names) sound kept = elim (Bool-cases (nat_beq (length names) 0)) [
    | inl empty ↦ rw empty kept
    | inr loaded ↦ elim (Bool-cases (drop_missing names p.trails p.trails false).1) [
      | inl changed ↦
          rw (loaded, changed)
            (show_trails-IsKept _ p (drop_missing-IsSound names p.trails p.trails false sound)
              kept.willing)
      | inr same ↦
          rw (loaded, same)
            (IsKept-same p _ (drop_missing-same names p.trails p.trails same) refl kept)
    ]
  ]
  Step-IsKept (restoring p) sound kept = record { willing = kept.willing; restored = refl }
