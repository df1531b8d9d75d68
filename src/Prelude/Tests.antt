-- ===== src/Prelude/Tests.antt =====
-- Boolean tests on the native numbers and on texts, the conditional, and equality as an interface.
use Prim.Native.Nat.{ℕ, compare, Ordering}
use Prim.Native.String.{String}
use mathlib.Core.Path.{◌≡◌, refl}
use mathlib.Core.Logic.{◌↔◌, ◌⊎◌, inl, inr}
use mathlib.Core.Bool.{Bool, true, false}
use mathlib.Core.Option.{Option, none, some}
use native.Mathlib.Omega.{arith}
use text.Mathlib.Text.{◌==◌ as str_eq}
use text.Mathlib.TextEquality.{eq_iff as str_eq_iff}

abbrev pub ltb : ℕ → ℕ → Bool
ltb a b = elim (compare a b) [ Ordering.lt ↦ true | _ ↦ false ]

abbrev pub leb : ℕ → ℕ → Bool
leb a b = elim (compare a b) [ Ordering.gt ↦ false | _ ↦ true ]

abbrev pub nat_beq : ℕ → ℕ → Bool
nat_beq a b = elim (compare a b) [ Ordering.eq ↦ true | _ ↦ false ]

infix 1 if◌then◌else◌
abbrev pub if◌then◌else◌ {ℓ} : {A : Type ℓ} → Bool → A → A → A
if true then x else y = x
if false then x else y = y

pub nat_beq_iff : (a b : ℕ) → (nat_beq a b ≡ true) ↔ (a ≡ b)
nat_beq_iff a b = ground arith

infix 50 ◌==◌
-- Go's constraint of the same name: the types of a map's keys.
pub record Comparable {ℓ} (K : Type ℓ) : Type ℓ where
  pub same : K → K → Bool
  pub same_iff : (k j : K) → (same k j ≡ true) ↔ (k ≡ j)

-- k == j
abbrev pub ◌==◌ {κ} : {K : Type κ} ⦃c : Comparable K⦄ (k j : K) → Bool
◌==◌ ⦃c⦄ k j = c.same k j

pub eq_iff {ℓ} : {A : Type ℓ} ⦃e : Comparable A⦄ (a b : A) → ((a == b) ≡ true) ↔ (a ≡ b)
eq_iff ⦃e⦄ = e.same_iff

pub eq_refl {ℓ} : {A : Type ℓ} ⦃e : Comparable A⦄ (a : A) → (a == a) ≡ true
eq_refl ⦃e⦄ a = (e.same_iff a a).1 refl

instance abbrev pub nat_eq : Comparable ℕ
nat_eq = record { same = nat_beq; same_iff = nat_beq_iff }

instance abbrev pub string_eq : Comparable String
string_eq = record { same = str_eq; same_iff = str_eq_iff }

pub Bool-cases : (b : Bool) → (b ≡ true) ⊎ (b ≡ false)
Bool-cases true = inl refl
Bool-cases false = inr refl

pub Option-cases {ℓ} : {A : Type ℓ} (o : Option A) → (o ≡ none) ⊎ ((a : A) × (o ≡ some a))
Option-cases none = inl refl
Option-cases (some a) = inr (a, refl)

-- What holds of both branches holds of the test.
pub both : {A : Type 0} (P : A → Type 0) (b : Bool) {x y : A} → P x → P y → P (if b then x else y)
both P true px py = px
both P false px py = py
