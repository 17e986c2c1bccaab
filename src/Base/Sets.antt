-- ===== src/Base/Sets.antt =====
-- JavaScript's `Set`: a list in order of insertion in which nothing stands twice.
use Prim.Native.Nat.{suc, zero, ℕ, ◌+◌, ◌≤◌}
use mathlib.Core.Path.{◌≡◌, refl, ap, subst}
use mathlib.Core.Bool.{Bool, true, false}
use mathlib.Core.Logic.{inl, inr}
use mathlib.Core.List.{List, [], ◌∷◌, ◌++◌}
use native.Mathlib.Omega.{arith}
use ha_osrs_map.Base.Tests.{if◌then◌else◌, Bool-cases}
use ha_osrs_map.Base.Lists.{All, length, keep_if, take}
use ha_osrs_map.Base.Equality.{Eq, beq_self}

module _ {ℓ} {A : Type ℓ} ⦃e : Eq A⦄ where
  -- `set.has(a)` and `xs.includes(a)`
  unfoldable pub contains : A → List A → Bool
  contains a [] = false
  contains a (x ∷ xs) = let rest = contains a xs in if e.beq x a then true else rest

  -- `set.add(a)`, `set.delete(a)` and `new Set(xs)`
  unfoldable pub add : A → List A → List A
  add a [] = a ∷ []
  add a (x ∷ xs) = let rest = add a xs in if e.beq x a then x ∷ xs else x ∷ rest

  unfoldable pub remove : A → List A → List A
  remove a [] = []
  remove a (x ∷ xs) = let rest = remove a xs in if e.beq x a then rest else x ∷ rest

  abbrev pub add_all : List A → List A → List A
  add_all [] s = s
  add_all (x ∷ xs) s = add_all xs (add x s)

  abbrev pub set_of : List A → List A
  set_of xs = add_all xs []

  -- Nothing stands twice.
  abbrev pub NoDup : List A → Type 0
  NoDup [] = Unit
  NoDup (x ∷ xs) = (contains x xs ≡ false) × NoDup xs

  pub contains-add :
      (a b : A) (xs : List A) → contains b (add a xs) ≡ (if e.beq a b then true else contains b xs)
  unfolding contains add
  contains-add a b [] = refl
  contains-add a b (x ∷ xs) =
      ground (arith, e.beq_iff a b, e.beq_iff x a, e.beq_iff x b, contains-add a b xs)

  pub contains-remove :
      (a b : A) (xs : List A)
      → contains b (remove a xs) ≡ (if e.beq a b then false else contains b xs)
  unfolding contains remove
  contains-remove a b [] = ground arith
  contains-remove a b (x ∷ xs) =
      ground (arith, e.beq_iff a b, e.beq_iff x a, e.beq_iff x b, contains-remove a b xs)

  pub add-NoDup : (a : A) (xs : List A) → NoDup xs → NoDup (add a xs)
  unfolding contains add
  add-NoDup a [] d = (refl, tt)
  add-NoDup a (x ∷ xs) d =
      ground (arith, e.beq_iff x a, e.beq_iff a x, contains-add a x xs, add-NoDup a xs)

  pub remove-NoDup : (a : A) (xs : List A) → NoDup xs → NoDup (remove a xs)
  unfolding remove
  remove-NoDup a [] d = tt
  remove-NoDup a (x ∷ xs) d = ground (arith, contains-remove a x xs, remove-NoDup a xs)

  pub add_all-NoDup : (xs s : List A) → NoDup s → NoDup (add_all xs s)
  add_all-NoDup [] s d = d
  add_all-NoDup (x ∷ xs) s d = add_all-NoDup xs (add x s) (add-NoDup x s d)

  pub length-add-le : (a : A) (xs : List A) → length (add a xs) ≤ length xs + 1
  unfolding add
  length-add-le a [] = omega arith
  length-add-le a (x ∷ xs) = ground (arith, length-add-le a xs)

  pub length-remove-le : (a : A) (xs : List A) → length (remove a xs) ≤ length xs
  unfolding remove
  length-remove-le a [] = omega arith
  length-remove-le a (x ∷ xs) = ground (arith, length-remove-le a xs)

  -- Removing what has just been added, or was never there, changes nothing.
  pub remove_of_absent : (a : A) (xs : List A) → contains a xs ≡ false → remove a xs ≡ xs
  unfolding remove contains
  remove_of_absent a [] h = refl
  remove_of_absent a (x ∷ xs) h = ground (arith, remove_of_absent a xs)

  pub remove-add_of_absent :
      (a : A) (xs : List A) → contains a xs ≡ false → remove a (add a xs) ≡ xs
  unfolding remove add contains
  remove-add_of_absent a [] h = ground (arith, e.beq_iff a a)
  remove-add_of_absent a (x ∷ xs) h = ground (arith, remove-add_of_absent a xs)

  pub add-absent : (a : A) (xs : List A) → contains a xs ≡ false → add a xs ≡ xs ++ (a ∷ [])
  unfolding add contains
  add-absent a [] h = refl
  add-absent a (x ∷ xs) h = ground (arith, add-absent a xs)

  pub contains-keep_if :
      (p : A → Bool) (a : A) (xs : List A)
      → contains a (keep_if p xs) ≡ (if p a then contains a xs else false)
  unfolding contains
  contains-keep_if p a [] = ground arith
  contains-keep_if p a (x ∷ xs) = elim (Bool-cases (e.beq x a)) [
    | inl s ↦ ground (arith, ap (λ b. p b) ((e.beq_iff x a).0 s), contains-keep_if p a xs)
    | inr s ↦ ground (arith, contains-keep_if p a xs)
  ]

  pub keep_if-NoDup : (p : A → Bool) (xs : List A) → NoDup xs → NoDup (keep_if p xs)
  keep_if-NoDup p [] d = tt
  keep_if-NoDup p (x ∷ xs) d = ground (arith, contains-keep_if p x xs, keep_if-NoDup p xs)

  pub contains-append :
      (a : A) (xs ys : List A)
      → contains a (xs ++ ys) ≡ (if contains a xs then true else contains a ys)
  unfolding contains
  contains-append a [] ys = refl
  contains-append a (x ∷ xs) ys = ground (arith, contains-append a xs ys)

  pub not_contains-take :
      (a : A) (n : ℕ) (xs : List A) → contains a xs ≡ false → contains a (take n xs) ≡ false
  unfolding contains
  not_contains-take a zero xs h = refl
  not_contains-take a (suc n) [] h = refl
  not_contains-take a (suc n) (x ∷ xs) h = ground (arith, not_contains-take a n xs)

  pub take-NoDup : (n : ℕ) (xs : List A) → NoDup xs → NoDup (take n xs)
  take-NoDup zero xs d = tt
  take-NoDup (suc n) [] d = tt
  take-NoDup (suc n) (x ∷ xs) d = (not_contains-take x n xs d.0, take-NoDup n xs d.1)

  pub append-NoDup :
      (xs ys : List A)
      → NoDup xs
      → NoDup ys
      → ((x : A) → contains x xs ≡ true → contains x ys ≡ false)
      → NoDup (xs ++ ys)
  unfolding contains
  append-NoDup [] ys dx dy apart = dy
  append-NoDup (x ∷ xs) ys dx dy apart =
      let apart_xs = λ (y : A) (h : contains y xs ≡ true). apart y (ground (arith, h)) in
      (
        ground (arith, contains-append x xs ys, beq_self x, apart x),
        append-NoDup xs ys dx.1 dy apart_xs,
      )

pub All-contains {ℓ κ} :
    {B : Type ℓ} ⦃e : Eq B⦄ (P : B → Type κ) (list : List B) (a : B)
    → All P list
    → contains a list ≡ true
    → P a
unfolding contains
All-contains P [] a all h = cc
All-contains ⦃e⦄ P (x ∷ list) a all h = elim (Bool-cases (e.beq x a)) [
  | inl same ↦ subst P ((e.beq_iff x a).0 same) all.0
  | inr other ↦ All-contains P list a all.1 (rw other at h)
]
