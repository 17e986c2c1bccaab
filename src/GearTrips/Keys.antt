-- ===== src/GearTrips/Keys.antt =====
-- The key of a set of gear: each slot that something is worn in, and what.
use ha_osrs_map.Base.{
  ℕ, ◌≡◌, refl, subst, Bool, true, false, ◌&&◌, List, [], ◌∷◌, nat_beq, nat_beq_iff, arith, Eq,
}

abbrev pub Key : Type 0
Key = List (ℕ × ℕ)

abbrev pub same_key : Key → Key → Bool
same_key [] [] = true
same_key ((slot, id) ∷ a) ((other, its) ∷ b) = nat_beq slot other && nat_beq id its && same_key a b
same_key _ _ = false

pub eq_of_same_key : (a b : Key) → same_key a b ≡ true → a ≡ b
eq_of_same_key [] [] h = refl
eq_of_same_key ((slot, id) ∷ a) ((other, its) ∷ b) h =
    ground (arith, nat_beq_iff slot other, nat_beq_iff id its, eq_of_same_key a b)
eq_of_same_key [] (k ∷ b) h = cc
eq_of_same_key (k ∷ a) [] h = cc

pub same_key_self : (a : Key) → same_key a a ≡ true
same_key_self [] = refl
same_key_self ((slot, id) ∷ a) = ground (arith, same_key_self a)

instance abbrev pub key_eq : Eq Key
key_eq = record {
  beq = same_key;
  beq_iff = λ a b. (eq_of_same_key a b, λ h. subst (λ k. same_key a k ≡ true) h (same_key_self a));
}
