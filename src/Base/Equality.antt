-- ===== src/Base/Equality.antt =====
-- JavaScript's `===` on the keys that the program compares, as an interface.
use Prim.Native.Nat.{ℕ}
use Prim.Native.String.{String}
use mathlib.Core.Path.{◌≡◌}
use mathlib.Core.Logic.{◌↔◌}
use mathlib.Core.Bool.{Bool, true}
use native.Mathlib.Omega.{arith}
use text.Mathlib.Text.{◌==◌ as str_eq}
use text.Mathlib.TextEquality.{eq_iff}
use ha_osrs_map.Base.Tests.{nat_beq, nat_beq_iff}

pub record Eq {ℓ} (A : Type ℓ) : Type ℓ where
  pub beq : A → A → Bool
  pub beq_iff : (a b : A) → (beq a b ≡ true) ↔ (a ≡ b)

module _ {ℓ} {A : Type ℓ} ⦃e : Eq A⦄ where
  pub beq_self : (a : A) → e.beq a a ≡ true
  beq_self a = (e.beq_iff a a).1 (λ i. a)

  pub beq_comm : (a b : A) → e.beq a b ≡ e.beq b a
  beq_comm a b = ground (arith, e.beq_iff a b, e.beq_iff b a)

instance abbrev pub string_eq : Eq String
string_eq = record { beq = str_eq; beq_iff = eq_iff }

instance abbrev pub nat_eq : Eq ℕ
nat_eq = record { beq = nat_beq; beq_iff = nat_beq_iff }

infix 50 ◌==◌
abbrev pub ◌==◌ {ℓ} : {A : Type ℓ} ⦃e : Eq A⦄ → A → A → Bool
◌==◌ ⦃e⦄ = e.beq
