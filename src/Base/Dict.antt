-- ===== src/Base/Dict.antt =====
-- JavaScript's `Map` and `Set`: association lists in order of insertion. `set` on a key that is
-- there keeps its place, as in JavaScript.
use Prim.Native.Nat.{◌+◌, ◌≤◌}
use mathlib.Core.Path.{◌≡◌, refl}
use mathlib.Core.Bool.{Bool, true, false}
use mathlib.Core.Logic.{inl, inr}
use mathlib.Core.Option.{Option, none, some}
use mathlib.Core.List.{List, [], ◌∷◌}
use native.Mathlib.Omega.{arith}
use ha_osrs_map.Base.Tests.{if◌then◌else◌, Bool-cases}
use ha_osrs_map.Base.Lists.{length}
use ha_osrs_map.Base.Equality.{Eq}

abbrev pub Dict {ℓ κ} : Type ℓ → Type κ → Type (ℓ ⊔ κ)
Dict K V = List (K × V)

module _ {ℓ κ} {K : Type ℓ} {V : Type κ} where
  abbrev pub keys : Dict K V → List K
  keys [] = []
  keys ((k, v) ∷ m) = k ∷ keys m

  abbrev pub values : Dict K V → List V
  values [] = []
  values ((k, v) ∷ m) = v ∷ values m

module _ {ℓ κ} {K : Type ℓ} {V : Type κ} ⦃e : Eq K⦄ where
  -- `map.get(k)`, `map.has(k)`, `map.set(k, v)`, `map.delete(k)`
  unfoldable pub get : K → Dict K V → Option V
  get k [] = none
  get k ((j, v) ∷ m) = let rest = get k m in if e.beq j k then some v else rest

  unfoldable pub has : K → Dict K V → Bool
  has k [] = false
  has k ((j, v) ∷ m) = let rest = has k m in if e.beq j k then true else rest

  unfoldable pub put : K → V → Dict K V → Dict K V
  put k v [] = (k, v) ∷ []
  put k v ((j, w) ∷ m) = let rest = put k v m in if e.beq j k then (j, v) ∷ m else (j, w) ∷ rest

  unfoldable pub delete : K → Dict K V → Dict K V
  delete k [] = []
  delete k ((j, w) ∷ m) = let rest = delete k m in if e.beq j k then rest else (j, w) ∷ rest

  -- No key stands twice.
  abbrev pub Distinct : Dict K V → Type 0
  Distinct [] = Unit
  Distinct ((k, v) ∷ m) = (has k m ≡ false) × Distinct m

  pub has-put :
      (k j : K) (v : V) (m : Dict K V) → has j (put k v m) ≡ (if e.beq k j then true else has j m)
  unfolding has put
  has-put k j v [] = refl
  has-put k j v ((i, w) ∷ m) =
      ground (arith, e.beq_iff k j, e.beq_iff i k, e.beq_iff i j, has-put k j v m)

  pub get-put :
      (k j : K) (v : V) (m : Dict K V) → get j (put k v m) ≡ (if e.beq k j then some v else get j m)
  unfolding get put
  get-put k j v [] = refl
  get-put k j v ((i, w) ∷ m) =
      ground (arith, e.beq_iff k j, e.beq_iff i k, e.beq_iff i j, get-put k j v m)

  pub has-delete :
      (k j : K) (m : Dict K V) → has j (delete k m) ≡ (if e.beq k j then false else has j m)
  unfolding has delete
  has-delete k j [] = ground arith
  has-delete k j ((i, w) ∷ m) =
      ground (arith, e.beq_iff k j, e.beq_iff i k, e.beq_iff i j, has-delete k j m)

  pub get-delete :
      (k j : K) (m : Dict K V) → get j (delete k m) ≡ (if e.beq k j then none else get j m)
  unfolding get delete
  get-delete k j [] = ground arith
  get-delete k j ((i, w) ∷ m) =
      ground (arith, e.beq_iff k j, e.beq_iff i k, e.beq_iff i j, get-delete k j m)

  pub has-get : (k : K) (m : Dict K V) {v : V} → get k m ≡ some v → has k m ≡ true
  unfolding has get
  has-get k [] h = cc
  has-get k ((j, w) ∷ m) {v} h = elim (Bool-cases (e.beq j k)) [
    | inl s ↦ rw s
    | inr s ↦ rw s (has-get k m {v = v} (rw s at h))
  ]

  pub put-Distinct : (k : K) (v : V) (m : Dict K V) → Distinct m → Distinct (put k v m)
  unfolding put has
  put-Distinct k v [] d = (refl, tt)
  put-Distinct k v ((j, w) ∷ m) d =
      ground (arith, e.beq_iff j k, e.beq_iff k j, has-put k j v m, put-Distinct k v m)

  pub delete-Distinct : (k : K) (m : Dict K V) → Distinct m → Distinct (delete k m)
  unfolding delete
  delete-Distinct k [] d = tt
  delete-Distinct k ((j, w) ∷ m) d = ground (arith, has-delete k j m, delete-Distinct k m)

  pub length-put-le : (k : K) (v : V) (m : Dict K V) → length (put k v m) ≤ length m + 1
  unfolding put
  length-put-le k v [] = omega arith
  length-put-le k v ((j, w) ∷ m) = ground (arith, length-put-le k v m)

  pub length-delete-le : (k : K) (m : Dict K V) → length (delete k m) ≤ length m
  unfolding delete
  length-delete-le k [] = omega arith
  length-delete-le k ((j, w) ∷ m) = ground (arith, length-delete-le k m)
