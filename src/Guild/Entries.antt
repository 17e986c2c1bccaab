-- ===== src/Guild/Entries.antt =====
-- That every key has one entry among the groups of site/src/data/regions.js, with all its members.
use ha_osrs_map.Base.{
  ◌≡◌, refl, ap, sym, ◌∙◌, Bool, true, false, List, [], ◌∷◌, ◌++◌, map, Option, none, some,
  if◌then◌else◌, keep_if, Eq, Bool-cases, inl, inr, nat_eq, arith,
}
use ha_osrs_map.Base.Dict.{Dict, get, has, put, Distinct, get-put, put-Distinct}
use ha_osrs_map.Base.Sorting.{IsSingle}
use ha_osrs_map.Regions.{place_eq}
use ha_osrs_map.Guild.Groups.{group_or_new, group_one, group_all, has_key, group_all-members}

-- The entry that a key has if it has members: one with all of them, and none where there is nobody.
abbrev pub entry_of {ℓ κ} : {A : Type ℓ} {K : Type κ} → K → List A → Dict K (List A)
entry_of k [] = []
entry_of k (a ∷ members) = (k, a ∷ members) ∷ []

module _ {ℓ κ} {A : Type ℓ} {K : Type κ} ⦃e : Eq K⦄ where
  abbrev pub at_key : K → K × List A → Bool
  at_key k entry = e.beq entry.0 k

  at_key-absent : (k : K) (d : Dict K (List A)) → has k d ≡ false → keep_if (at_key k) d ≡ []
  unfolding has
  at_key-absent k [] absent = refl
  at_key-absent k ((j, members) ∷ d) absent = elim (Bool-cases (e.beq j k)) [
    | inl same ↦ absurd (ground (arith, same, absent))
    | inr other ↦ rw other (at_key-absent k d (rw other at absent))
  ]

  at_key-rest :
      (i k : K) (d : Dict K (List A))
      → e.beq i k ≡ true
      → has i d ≡ false
      → keep_if (at_key k) d ≡ []
  at_key-rest i k d same absent =
      at_key-absent k d (ap (λ j. has j d) (sym ((e.beq_iff i k).0 same)) ∙ absent)

  pub at_key-IsSingle : (k : K) (d : Dict K (List A)) → Distinct d → IsSingle (at_key k) d
  at_key-IsSingle k [] distinct = tt
  at_key-IsSingle k ((j, members) ∷ d) distinct =
      (λ same. at_key-rest j k d same distinct.0, at_key-IsSingle k d distinct.1)

  at_key-put :
      (j k : K) (members : List A) (d : Dict K (List A))
      → Distinct d
      → keep_if (at_key k) (put j members d)
        ≡ (if e.beq j k then (j, members) ∷ [] else keep_if (at_key k) d)
  unfolding put
  at_key-put j k members [] distinct = refl
  at_key-put j k members ((i, old) ∷ d) distinct = elim (Bool-cases (e.beq i j)) [
    | inl here ↦ elim (Bool-cases (e.beq j k)) [
      | inl same ↦
          let this : e.beq i k ≡ true = ground (arith, here, same, e.beq_iff i j) in
          let rest = at_key-rest i k d this distinct.0 in
          rw (here, same, this, rest, (e.beq_iff i j).0 here)
      | inr other ↦
          let past : e.beq i k ≡ false = ground (arith, here, other, e.beq_iff i j) in
          rw (here, other, past)
    ]
    | inr elsewhere ↦ elim (Bool-cases (e.beq i k)) [
      | inl this ↦
          let other : e.beq j k ≡ false =
            ground (arith, elsewhere, this, e.beq_iff i k, e.beq_iff j k, e.beq_iff i j) in
          rw (elsewhere, this, at_key-put j k members d distinct.1, other)
      | inr past ↦ rw (elsewhere, past) (at_key-put j k members d distinct.1)
    ]
  ]

  -- Every key of some groups has one entry if it has members, and none otherwise.
  pub record IsGrouped (d : Dict K (List A)) : Type (ℓ ⊔ κ) where
    pub distinct : Distinct d
    pub entry : (k : K) → keep_if (at_key k) d ≡ entry_of k (group_or_new (get k d))

  entry_of-snoc :
      (k : K) (members : List A) (a : A)
      → entry_of k (members ++ (a ∷ [])) ≡ (k, members ++ (a ∷ [])) ∷ []
  entry_of-snoc k [] a = refl
  entry_of-snoc k (b ∷ members) a = refl

  pub nothing-IsGrouped : IsGrouped []
  unfolding get
  nothing-IsGrouped = record { distinct = tt; entry = λ k. refl }

  group_one-IsGrouped :
      (found : Option K) (a : A) (d : Dict K (List A))
      → IsGrouped d
      → IsGrouped (group_one found a d)
  group_one-IsGrouped none a d grouped = grouped
  group_one-IsGrouped (some j) a d grouped =
      let members = group_or_new (get j d) ++ (a ∷ []) in
      record {
        distinct = put-Distinct j members d grouped.distinct;
        entry = λ k.
            rw (at_key-put j k members d grouped.distinct, get-put j k members d)
              elim (Bool-cases (e.beq j k)) [
                | inl same ↦
                    rw (same, (e.beq_iff j k).0 same)
                      (sym (entry_of-snoc k (group_or_new (get k d)) a))
                | inr other ↦ rw other (grouped.entry k)
              ];
      }

  module _ (key : A → Option K) where
    pub group_all-IsGrouped :
        (members : List A) (d : Dict K (List A)) → IsGrouped d → IsGrouped (group_all key members d)
    unfolding group_all
    group_all-IsGrouped [] d grouped = grouped
    group_all-IsGrouped (a ∷ members) d grouped =
        group_all-IsGrouped members (group_one (key a) a d)
          (group_one-IsGrouped (key a) a d grouped)

    pub group_all-entry :
        (members : List A) (k : K)
        → keep_if (at_key k) (group_all key members [])
          ≡ entry_of k (keep_if (λ a. has_key k (key a)) members)
    group_all-entry members k =
        (group_all-IsGrouped members [] nothing-IsGrouped).entry k
        ∙ ap (entry_of k) (group_all-members key members k)

pub keep_if-map {ℓ κ} :
    {A : Type ℓ} {B : Type κ} (f : A → B) (p : B → Bool) (xs : List A)
    → keep_if p (map f xs) ≡ map f (keep_if (λ x. p (f x)) xs)
keep_if-map f p [] = refl
keep_if-map f p (x ∷ xs) = elim (Bool-cases (p (f x))) [
  | inl yes' ↦ rw yes' (ap (◌∷◌ (f x)) (keep_if-map f p xs))
  | inr no' ↦ rw no' (keep_if-map f p xs)
]

pub map-IsSingle {ℓ κ} :
    {A : Type ℓ} {B : Type κ} (f : A → B) (p : B → Bool) (xs : List A)
    → IsSingle (λ x. p (f x)) xs
    → IsSingle p (map f xs)
map-IsSingle f p [] single = tt
map-IsSingle f p (x ∷ xs) single =
    (λ here. keep_if-map f p xs ∙ ap (map f) (single.0 here), map-IsSingle f p xs single.1)
