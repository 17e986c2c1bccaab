-- ===== src/Base/Sorting.antt =====
-- JavaScript's `sort`: stable, by a comparison `le a b` that stands for `compare(a, b) <= 0`.
use Prim.Native.Nat.{suc}
use mathlib.Core.Path.{◌≡◌, refl, ap, ◌∙◌}
use mathlib.Core.Bool.{Bool, true, false}
use mathlib.Core.Logic.{inl, inr}
use mathlib.Core.List.{List, [], ◌∷◌}
use native.Mathlib.Omega.{arith}
use ha_osrs_map.Base.Tests.{if◌then◌else◌, Bool-cases}
use ha_osrs_map.Base.Lists.{length, All, All-map, keep_if}

-- At most one element passes a test.
abbrev pub IsSingle {ℓ} : {A : Type ℓ} → (A → Bool) → List A → Type ℓ
IsSingle p [] = Unit
IsSingle p (x ∷ xs) = (p x ≡ true → keep_if p xs ≡ []) × IsSingle p xs

module _ {ℓ} {A : Type ℓ} (le : A → A → Bool) where
  unfoldable pub insert : A → List A → List A
  insert x [] = x ∷ []
  insert x (y ∷ ys) = let rest = insert x ys in if le x y then x ∷ y ∷ ys else y ∷ rest

  unfoldable pub sort : List A → List A
  sort [] = []
  sort (x ∷ xs) = insert x (sort xs)

  abbrev pub IsSorted : List A → Type 0
  IsSorted [] = Unit
  IsSorted (x ∷ xs) = All (λ y. le x y ≡ true) xs × IsSorted xs

  pub All-insert {κ} : (P : A → Type κ) (x : A) (ys : List A) → P x → All P ys → All P (insert x ys)
  unfolding insert
  All-insert P x [] px h = (px, tt)
  All-insert P x (y ∷ ys) px h = elim (Bool-cases (le x y)) [
    | inl e ↦ rw e (px, h)
    | inr e ↦ rw e (h.0, All-insert P x ys px h.1)
  ]

  pub All-sort {κ} : (P : A → Type κ) (xs : List A) → All P xs → All P (sort xs)
  unfolding sort
  All-sort P [] h = tt
  All-sort P (x ∷ xs) h = All-insert P x (sort xs) h.0 (All-sort P xs h.1)

  pub length-insert : (x : A) (ys : List A) → length (insert x ys) ≡ suc (length ys)
  unfolding insert
  length-insert x [] = refl
  length-insert x (y ∷ ys) = ground (arith, length-insert x ys)

  pub length-sort : (xs : List A) → length (sort xs) ≡ length xs
  unfolding sort
  length-sort [] = refl
  length-sort (x ∷ xs) = ground (arith, length-insert x (sort xs), length-sort xs)

  -- Whatever a test lets through stays as often as it was: the result is a permutation.
  length-keep_if-insert :
      (p : A → Bool) (x : A) (ys : List A)
      → length (keep_if p (insert x ys)) ≡ length (keep_if p (x ∷ ys))
  unfolding insert
  length-keep_if-insert p x [] = refl
  length-keep_if-insert p x (y ∷ ys) = ground (arith, length-keep_if-insert p x ys)

  pub length-keep_if-sort :
      (p : A → Bool) (xs : List A) → length (keep_if p (sort xs)) ≡ length (keep_if p xs)
  unfolding sort
  length-keep_if-sort p [] = refl
  length-keep_if-sort p (x ∷ xs) =
      ground (arith, length-keep_if-insert p x (sort xs), length-keep_if-sort p xs)

  keep_if-insert :
      (p : A → Bool) (x : A) (ys : List A)
      → (p x ≡ true → keep_if p ys ≡ [])
      → keep_if p (insert x ys) ≡ keep_if p (x ∷ ys)
  unfolding insert
  keep_if-insert p x [] alone = refl
  keep_if-insert p x (y ∷ ys) alone = elim (Bool-cases (le x y)) [
    | inl e ↦ rw e
    | inr e ↦ elim (Bool-cases (p x)) [
      | inl px ↦ elim (Bool-cases (p y)) [
        | inl py ↦ let none_left = rw py at (alone px) in cc
        | inr py ↦ rw (e, px, py) (rw px at (keep_if-insert p x ys (rw py at alone)))
      ]
      | inr px ↦
          let rest = keep_if-insert p x ys (λ t. absurd (ground (arith, t, px))) in rw (e, rest, px)
    ]
  ]

  pub keep_if-sort :
      (p : A → Bool) (xs : List A) → IsSingle p xs → keep_if p (sort xs) ≡ keep_if p xs
  unfolding sort
  keep_if-sort p [] single = refl
  keep_if-sort p (x ∷ xs) single =
      keep_if-insert p x (sort xs) (λ px. keep_if-sort p xs single.1 ∙ single.0 px)
      ∙ ap (λ rest. if p x then x ∷ rest else rest) (keep_if-sort p xs single.1)

  module _ (total : (a b : A) → le a b ≡ false → le b a ≡ true)
      (trans : (a b c : A) → le a b ≡ true → le b c ≡ true → le a c ≡ true) where
    pub insert-IsSorted : (x : A) (ys : List A) → IsSorted ys → IsSorted (insert x ys)
    unfolding insert
    insert-IsSorted x [] s = (tt, tt)
    insert-IsSorted x (y ∷ ys) s = elim (Bool-cases (le x y)) [
      | inl e ↦ rw e ((e, All-map _ ys (λ z h. trans x y z e h) s.0), s)
      | inr e ↦
          rw e (All-insert (λ z. le y z ≡ true) x ys (total x y e) s.0, insert-IsSorted x ys s.1)
    ]

    pub sort-IsSorted : (xs : List A) → IsSorted (sort xs)
    unfolding sort
    sort-IsSorted [] = tt
    sort-IsSorted (x ∷ xs) = insert-IsSorted x (sort xs) (sort-IsSorted xs)
