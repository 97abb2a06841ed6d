-- ===== src/Prelude/Eq.antt =====
-- Equality tests as an interface, with the instances the program compares by `==`.
use Prim.Native.Nat.{ℕ}
use Prim.Native.String.{String}
use mathlib.Core.Path.{◌≡◌, refl}
use mathlib.Core.Logic.{◌↔◌}
use mathlib.Core.Bool.{Bool, true, false, ◌&&◌}
use mathlib.Core.Option.{Option, none, some}
use mathlib.Core.List.{List, [], ◌∷◌}
use native.Mathlib.Omega.{arith}
use text.Mathlib.Text.{◌==◌ as str_eq}
use text.Mathlib.TextEquality.{eq_iff}
use adn_dmr_peer_server.Prelude.Tests.{nat_beq, nat_beq_iff}

pub record Eq {ℓ} (A : Type ℓ) : Type ℓ where
  pub beq : A → A → Bool
  pub beq_iff : (a b : A) → (beq a b ≡ true) ↔ (a ≡ b)

instance abbrev pub nat_eq : Eq ℕ
nat_eq = record { beq = nat_beq; beq_iff = nat_beq_iff }

abbrev pub list_beq : List ℕ → List ℕ → Bool
list_beq [] [] = true
list_beq [] (y ∷ ys) = false
list_beq (x ∷ xs) [] = false
list_beq (x ∷ xs) (y ∷ ys) = nat_beq x y && list_beq xs ys

pub list_beq_iff : (a b : List ℕ) → (list_beq a b ≡ true) ↔ (a ≡ b)
list_beq_iff [] [] = ground arith
list_beq_iff [] (y ∷ ys) = ground arith
list_beq_iff (x ∷ xs) [] = ground arith
list_beq_iff (x ∷ xs) (y ∷ ys) = ground (arith, list_beq_iff xs ys)

instance abbrev pub bytes_eq : Eq (List ℕ)
bytes_eq = record { beq = list_beq; beq_iff = list_beq_iff }

infix 50 ◌==◌
abbrev pub ◌==◌ {ℓ} : {A : Type ℓ} ⦃e : Eq A⦄ → A → A → Bool
◌==◌ ⦃e⦄ = e.beq

instance abbrev pub string_eq : Eq String
string_eq = record { beq = str_eq; beq_iff = eq_iff }

abbrev pub key_beq : List ℕ × List ℕ → List ℕ × List ℕ → Bool
key_beq (a, b) (c, d) = list_beq a c && list_beq b d

pub key_beq_iff : (k j : List ℕ × List ℕ) → (key_beq k j ≡ true) ↔ (k ≡ j)
key_beq_iff (a, b) (c, d) = ground (arith, list_beq_iff a c, list_beq_iff b d)

instance abbrev pub key_eq : Eq (List ℕ × List ℕ)
key_eq = record { beq = key_beq; beq_iff = key_beq_iff }

abbrev pub id_beq : ℕ × ℕ × String → ℕ × ℕ × String → Bool
id_beq (a, b, c) (x, y, z) = nat_beq a x && nat_beq b y && str_eq c z

pub id_beq_iff : (i j : ℕ × ℕ × String) → (id_beq i j ≡ true) ↔ (i ≡ j)
id_beq_iff (a, b, c) (x, y, z) = ground (arith, nat_beq_iff a x, nat_beq_iff b y, eq_iff c z)

instance abbrev pub id_eq : Eq (ℕ × ℕ × String)
id_eq = record { beq = id_beq; beq_iff = id_beq_iff }

abbrev pub leg_beq : String × ℕ × ℕ → String × ℕ × ℕ → Bool
leg_beq (a, b, c) (x, y, z) = str_eq a x && nat_beq b y && nat_beq c z

pub leg_beq_iff : (i j : String × ℕ × ℕ) → (leg_beq i j ≡ true) ↔ (i ≡ j)
leg_beq_iff (a, b, c) (x, y, z) = ground (arith, eq_iff a x, nat_beq_iff b y, nat_beq_iff c z)

instance abbrev pub leg_eq : Eq (String × ℕ × ℕ)
leg_eq = record { beq = leg_beq; beq_iff = leg_beq_iff }

module _ {ℓ} {A : Type ℓ} ⦃e : Eq A⦄ where
  pub ==-refl : (a : A) → (a == a) ≡ true
  ==-refl a = (e.beq_iff a a).1 refl

  abbrev pub option_beq : Option A → Option A → Bool
  option_beq none none = true
  option_beq none (some b) = false
  option_beq (some a) none = false
  option_beq (some a) (some b) = a == b

  pub option_beq_iff : (a b : Option A) → (option_beq a b ≡ true) ↔ (a ≡ b)
  option_beq_iff none none = ground arith
  option_beq_iff none (some b) = ground arith
  option_beq_iff (some a) none = ground arith
  option_beq_iff (some a) (some b) = ground (arith, e.beq_iff a b)
