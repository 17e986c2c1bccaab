-- ===== src/Trail/Time/Order.antt =====
-- Trails in the order of time.
use ha_osrs_map.Base.{ℕ, zero, suc, ◌≤◌, ◌<◌, ◌≡◌, refl, some, List, [], ◌∷◌, arith, get_elem?}
use ha_osrs_map.Trail.Point.{Point}

-- A stay ends when it began or later, and the next one begins when it ended or later.
abbrev pub IsOrdered : List Point → Type 0
IsOrdered [] = Unit
IsOrdered (p ∷ []) = p.t0 ≤ p.t1
IsOrdered (p ∷ q ∷ points) = (p.t0 ≤ p.t1) × (p.t1 ≤ q.t0) × IsOrdered (q ∷ points)

pub stay-IsOrdered :
    (points : List Point) (i : ℕ) {p : Point}
    → IsOrdered points
    → get_elem? points i ≡ some p
    → p.t0 ≤ p.t1
stay-IsOrdered [] i o e = cc
stay-IsOrdered (p ∷ []) zero o e = ground arith
stay-IsOrdered (p ∷ []) (suc i) o e = cc
stay-IsOrdered (p ∷ q ∷ points) zero o e = ground arith
stay-IsOrdered (p ∷ q ∷ points) (suc i) o e = stay-IsOrdered (q ∷ points) i o.2 e

-- Of two points the earlier one ends before the later one begins.
pub IsOrdered-lt :
    (points : List Point) (i j : ℕ) {p q : Point}
    → IsOrdered points
    → i < j
    → get_elem? points i ≡ some p
    → get_elem? points j ≡ some q
    → p.t1 ≤ q.t0
IsOrdered-lt [] i j o lt e f = cc
IsOrdered-lt (p ∷ points) i zero o lt e f = absurd (omega arith)
IsOrdered-lt (p ∷ []) i (suc j) o lt e f = cc
IsOrdered-lt (p ∷ q ∷ points) zero (suc zero) o lt e f = ground arith
IsOrdered-lt (p ∷ q ∷ points) zero (suc (suc j)) {p = a} {q = b} o lt e f =
    let h = IsOrdered-lt (q ∷ points) zero (suc j) {p = q} {q = b} o.2 (omega arith) refl f in
    ground (arith, h, stay-IsOrdered (q ∷ points) zero {p = q} o.2 refl)
IsOrdered-lt (p ∷ q ∷ points) (suc i) (suc j) o lt e f =
    IsOrdered-lt (q ∷ points) i j o.2 (omega arith) e f
