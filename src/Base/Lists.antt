-- ===== src/Base/Lists.antt =====
-- Lists measured and indexed by native numbers, and the predicates on lists that proofs use.
use Prim.Native.Nat.{ℕ, zero, suc, ◌+◌, ◌-◌, ◌≤◌, ◌<◌, min}
use mathlib.Core.Path.{◌≡◌, refl, ap}
use mathlib.Core.Bool.{Bool, true, false}
use mathlib.Core.List.{List, [], ◌∷◌, ◌++◌}
use mathlib.Core.Option.{Option, none, some}
use native.Mathlib.Omega.{arith}
use mathlib.Core.Logic.{inl, inr}
use ha_osrs_map.Base.Tests.{if◌then◌else◌, nat_beq, Bool-cases}

module _ {ℓ} {A : Type ℓ} where
  abbrev pub length : List A → ℕ
  length [] = 0
  length (x ∷ xs) = suc (length xs)

  abbrev pub get_elem? : List A → ℕ → Option A
  get_elem? [] i = none
  get_elem? (x ∷ xs) zero = some x
  get_elem? (x ∷ xs) (suc i) = get_elem? xs i

  abbrev pub take : ℕ → List A → List A
  take zero xs = []
  take (suc n) [] = []
  take (suc n) (x ∷ xs) = x ∷ take n xs

  abbrev pub drop : ℕ → List A → List A
  drop zero xs = xs
  drop (suc n) [] = []
  drop (suc n) (x ∷ xs) = drop n xs

  -- `xs[xs.length - 1]`
  abbrev pub last? : List A → Option A
  last? [] = none
  last? (x ∷ []) = some x
  last? (x ∷ y ∷ xs) = last? (y ∷ xs)

  -- `xs.filter(p)` and `xs.some(p)`
  abbrev pub keep_if : (A → Bool) → List A → List A
  keep_if p [] = []
  keep_if p (x ∷ xs) = let rest = keep_if p xs in if p x then x ∷ rest else rest

  abbrev pub any_of : (A → Bool) → List A → Bool
  any_of p [] = false
  any_of p (x ∷ xs) = let rest = any_of p xs in if p x then true else rest

  abbrev pub is_empty : List A → Bool
  is_empty [] = true
  is_empty (x ∷ xs) = false

  -- `xs.find(p)`
  abbrev pub find_first : (A → Bool) → List A → Option A
  find_first p [] = none
  find_first p (x ∷ xs) = let rest = find_first p xs in if p x then some x else rest

  pub length-append : (xs ys : List A) → length (xs ++ ys) ≡ length xs + length ys
  length-append [] ys = omega arith
  length-append (x ∷ xs) ys = omega (arith, length-append xs ys)

  pub length-take : (n : ℕ) (xs : List A) → length (take n xs) ≡ min n (length xs)
  length-take zero xs = omega arith
  length-take (suc n) [] = omega arith
  length-take (suc n) (x ∷ xs) = omega (arith, length-take n xs)

  pub length-drop : (n : ℕ) (xs : List A) → length (drop n xs) ≡ length xs - n
  length-drop zero xs = omega arith
  length-drop (suc n) [] = omega arith
  length-drop (suc n) (x ∷ xs) = omega (arith, length-drop n xs)

  -- `slice` to a length that the list does not exceed leaves it as it is.
  pub take-all : (limit : ℕ) (list : List A) → length list ≤ limit → take limit list ≡ list
  take-all zero [] short = refl
  take-all (suc limit) [] short = refl
  take-all (suc limit) (x ∷ list) short = ap (◌∷◌ x) (take-all limit list (omega arith))
  take-all zero (x ∷ list) short = absurd (omega arith)

  pub length-keep_if-le : (p : A → Bool) (xs : List A) → length (keep_if p xs) ≤ length xs
  length-keep_if-le p [] = omega arith
  length-keep_if-le p (x ∷ xs) = ground (arith, length-keep_if-le p xs)

  -- A list is within its bounds exactly where it has an element.
  pub get_elem?-some : (xs : List A) (i : ℕ) → i < length xs → (x : A) × (get_elem? xs i ≡ some x)
  get_elem?-some [] i h = absurd (omega arith)
  get_elem?-some (x ∷ xs) zero h = (x, refl)
  get_elem?-some (x ∷ xs) (suc i) h = get_elem?-some xs i (omega arith)

  pub get_elem?-none : (xs : List A) (i : ℕ) → length xs ≤ i → get_elem? xs i ≡ none
  get_elem?-none [] i h = refl
  get_elem?-none (x ∷ xs) zero h = absurd (omega arith)
  get_elem?-none (x ∷ xs) (suc i) h = get_elem?-none xs i (omega arith)

  pub lt-length_of_get_elem? :
      (xs : List A) (i : ℕ) {x : A} → get_elem? xs i ≡ some x → i < length xs
  lt-length_of_get_elem? [] i h = cc
  lt-length_of_get_elem? (x ∷ xs) zero h = omega arith
  lt-length_of_get_elem? (x ∷ xs) (suc i) h = omega (arith, lt-length_of_get_elem? xs i h)

pub append_nil {ℓ} : {A : Type ℓ} (xs : List A) → xs ++ [] ≡ xs
append_nil [] = refl
append_nil (x ∷ xs) = ap (◌∷◌ x) (append_nil xs)

pub append_assoc {ℓ} :
    {A : Type ℓ} (xs ys : List A) (y : A) → (xs ++ (y ∷ [])) ++ ys ≡ xs ++ (y ∷ ys)
append_assoc [] ys y = refl
append_assoc (x ∷ xs) ys y = ap (◌∷◌ x) (append_assoc xs ys y)

-- A predicate by recursion computes to tuples, which the tactics read and build.
abbrev pub All {ℓ κ} : {A : Type ℓ} → (A → Type κ) → List A → Type κ
All P [] = Unit
All P (x ∷ xs) = P x × All P xs

module _ {ℓ κ} {A : Type ℓ} (P : A → Type κ) where
  pub All-append : (xs ys : List A) → All P xs → All P ys → All P (xs ++ ys)
  All-append [] ys hx hy = hy
  All-append (x ∷ xs) ys hx hy = (hx.0, All-append xs ys hx.1 hy)

  pub All-take : (n : ℕ) (xs : List A) → All P xs → All P (take n xs)
  All-take zero xs h = tt
  All-take (suc n) [] h = tt
  All-take (suc n) (x ∷ xs) h = (h.0, All-take n xs h.1)

  pub All-drop : (n : ℕ) (xs : List A) → All P xs → All P (drop n xs)
  All-drop zero xs h = h
  All-drop (suc n) [] h = tt
  All-drop (suc n) (x ∷ xs) h = All-drop n xs h.1

  pub All-map : {Q : A → Type κ} (xs : List A) → ((x : A) → P x → Q x) → All P xs → All Q xs
  All-map [] f h = tt
  All-map (x ∷ xs) f h = (f x h.0, All-map xs f h.1)

  pub All-get_elem? : (xs : List A) (i : ℕ) {x : A} → All P xs → get_elem? xs i ≡ some x → P x
  All-get_elem? [] i h e = cc
  All-get_elem? (y ∷ ys) zero {x} h e = ground (arith, h.0)
  All-get_elem? (y ∷ ys) (suc i) h e = All-get_elem? ys i h.1 e

-- Of a list that another is put on the end of.
pub get_elem?-snoc {ℓ} :
    {B : Type ℓ} (list : List B) (last : B) (i : ℕ)
    → get_elem? (list ++ (last ∷ [])) i
      ≡ (if nat_beq i (length list) then some last else get_elem? list i)
get_elem?-snoc [] last zero = refl
get_elem?-snoc [] last (suc i) = ground arith
get_elem?-snoc (x ∷ list) last zero = ground arith
get_elem?-snoc (x ∷ list) last (suc i) = ground (arith, get_elem?-snoc list last i)

pub All-of_get_elem? {ℓ κ} :
    {B : Type ℓ} (P : B → Type κ) (list : List B)
    → ((i : ℕ) (x : B) → get_elem? list i ≡ some x → P x)
    → All P list
All-of_get_elem? P [] each = tt
All-of_get_elem? P (x ∷ list) each =
    (each 0 x refl, All-of_get_elem? P list (λ i y h. each (suc i) y h))

pub All-zip {ℓ κ κ' ν} :
    {A : Type ℓ} (P : A → Type κ) (Q : A → Type κ') (R : A → Type ν) (list : List A)
    → ((a : A) → P a → Q a → R a)
    → All P list
    → All Q list
    → All R list
All-zip P Q R [] f p q = tt
All-zip P Q R (a ∷ list) f p q = (f a p.0 q.0, All-zip P Q R list f p.1 q.1)

pub All-keep_if {ℓ κ} :
    {A : Type ℓ} (P : A → Type κ) (p : A → Bool) (list : List A)
    → All P list
    → All (λ a. P a × (p a ≡ true)) (keep_if p list)
All-keep_if P p [] all = tt
All-keep_if P p (a ∷ list) all = elim (Bool-cases (p a)) [
  | inl yes' ↦ rw yes' ((all.0, yes'), All-keep_if P p list all.1)
  | inr no' ↦ rw no' (All-keep_if P p list all.1)
]
