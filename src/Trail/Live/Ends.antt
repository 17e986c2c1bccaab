-- ===== src/Trail/Live/Ends.antt =====
-- The last point of a trail: reading it, replacing it, and adding one behind it.
use ha_osrs_map.Base.{
  ℕ, zero, suc, ◌≤◌, ◌<◌, ◌≡◌, refl, some, List, [], ◌∷◌, ◌++◌, arith, true, length, last?, drop,
}
use ha_osrs_map.Trail.Point.{Point}
use ha_osrs_map.Trail.Time.Order.{IsOrdered}
use ha_osrs_map.Trail.Live.{map_last, stay_until, same_place}

pub last?-append {ℓ} : {A : Type ℓ} (xs : List A) (x : A) → last? (xs ++ x ∷ []) ≡ some x
last?-append [] x = refl
last?-append (y ∷ []) x = refl
last?-append (y ∷ z ∷ xs) x = last?-append (z ∷ xs) x

pub last?-map_last {ℓ} :
    {A : Type ℓ} (f : A → A) (xs : List A) {x : A}
    → last? xs ≡ some x
    → last? (map_last f xs) ≡ some (f x)
last?-map_last f [] e = cc
last?-map_last f (y ∷ []) e = cc
last?-map_last f (y ∷ z ∷ []) {x} e = last?-map_last f (z ∷ []) {x = x} e
last?-map_last f (y ∷ z ∷ w ∷ xs) {x} e = last?-map_last f (z ∷ w ∷ xs) {x = x} e

pub length-map_last {ℓ} :
    {A : Type ℓ} (f : A → A) (xs : List A) → length (map_last f xs) ≡ length xs
length-map_last f [] = refl
length-map_last f (y ∷ []) = refl
length-map_last f (y ∷ z ∷ xs) = omega (arith, length-map_last f (z ∷ xs))

-- A later end of the last stay.
pub stay_until-IsOrdered :
    (t : ℕ) (points : List Point) → IsOrdered points → IsOrdered (map_last (stay_until t) points)
stay_until-IsOrdered t [] o = tt
stay_until-IsOrdered t (p ∷ []) o = omega arith
stay_until-IsOrdered t (p ∷ q ∷ []) o = (o.0, o.1, stay_until-IsOrdered t (q ∷ []) o.2)
stay_until-IsOrdered t (p ∷ q ∷ r ∷ points) o =
    (o.0, o.1, stay_until-IsOrdered t (q ∷ r ∷ points) o.2)

-- A point that begins when the last one ended or later.
pub append-IsOrdered :
    (points : List Point) (p : Point)
    → IsOrdered points
    → ((last : Point) → last? points ≡ some last → last.t1 ≤ p.t0)
    → p.t0 ≤ p.t1
    → IsOrdered (points ++ p ∷ [])
append-IsOrdered [] p o h le = le
append-IsOrdered (q ∷ []) p o h le = (o, h q refl, le)
append-IsOrdered (q ∷ r ∷ points) p o h le = (o.0, o.1, append-IsOrdered (r ∷ points) p o.2 h le)

pub tail-IsOrdered : (p : Point) (points : List Point) → IsOrdered (p ∷ points) → IsOrdered points
tail-IsOrdered p [] o = tt
tail-IsOrdered p (q ∷ points) o = o.2

pub drop-IsOrdered : (n : ℕ) (points : List Point) → IsOrdered points → IsOrdered (drop n points)
drop-IsOrdered zero points o = o
drop-IsOrdered (suc n) [] o = tt
drop-IsOrdered (suc n) (p ∷ points) o = drop-IsOrdered n points (tail-IsOrdered p points o)

pub same_place_self : (p : Point) → same_place p p ≡ true
unfolding same_place
same_place_self p = ground arith

-- Only the place of a point counts, not its times.
pub same_place-times :
    (q p : Point) (t0 t1 : ℕ) → same_place (record q { t0 = t0; t1 = t1 }) p ≡ same_place q p
unfolding same_place
same_place-times q p t0 t1 = refl

pub lt-length_of_last? {ℓ} : {A : Type ℓ} (xs : List A) {x : A} → last? xs ≡ some x → 0 < length xs
lt-length_of_last? [] e = cc
lt-length_of_last? (y ∷ xs) e = omega arith
