-- ===== src/Base/Tests.antt =====
-- Boolean tests on the native numbers, the conditional, and case lemmas that keep an equation.
use Prim.Native.Nat.{ℕ, ◌<◌, compare, Ordering}
use mathlib.Core.Path.{◌≡◌, refl}
use mathlib.Core.Logic.{◌↔◌, ◌⊎◌, inl, inr}
use mathlib.Core.Bool.{Bool, true, false, ◌||◌}
use mathlib.Core.Option.{Option, none, some}
use native.Mathlib.Omega.{arith}

abbrev pub ltb : ℕ → ℕ → Bool
ltb a b = elim (compare a b) [ Ordering.lt ↦ true | _ ↦ false ]

abbrev pub leb : ℕ → ℕ → Bool
leb a b = elim (compare a b) [ Ordering.gt ↦ false | _ ↦ true ]

infix 50 ◌==◌
abbrev pub ◌==◌ : ℕ → ℕ → Bool
a == b = elim (compare a b) [ Ordering.eq ↦ true | _ ↦ false ]

infix 1 if◌then◌else◌
abbrev pub if◌then◌else◌ {ℓ} : {A : Type ℓ} → Bool → A → A → A
if true then x else y = x
if false then x else y = y

pub ltb→lt : (a b : ℕ) → ltb a b ≡ true → a < b
ltb→lt a b h = ground arith

pub lt→ltb : (a b : ℕ) → a < b → ltb a b ≡ true
lt→ltb a b h = ground arith

pub ==_iff : (a b : ℕ) → ((a == b) ≡ true) ↔ (a ≡ b)
==_iff a b = ground arith

pub ==_refl : (a : ℕ) → (a == a) ≡ true
==_refl a = ground arith

pub Bool-cases : (b : Bool) → (b ≡ true) ⊎ (b ≡ false)
Bool-cases true = inl refl
Bool-cases false = inr refl

pub Option-cases {ℓ} : {A : Type ℓ} (o : Option A) → (o ≡ none) ⊎ ((a : A) × (o ≡ some a))
Option-cases none = inl refl
Option-cases (some a) = inr (a, refl)

-- Two tests that hold together are equal.
pub Bool-eq_iff : (a b : Bool) → (a ≡ true → b ≡ true) → (b ≡ true → a ≡ true) → a ≡ b
Bool-eq_iff a b f g = ground arith

-- Two ways to regroup alternatives.
module _ {A B D E N S : Type 0} where
  pub regroup_iff : A ↔ (B ⊎ N) → B ↔ (S ⊎ E) → D ↔ (S ⊎ N) → A ↔ (E ⊎ D)
  regroup_iff a b d = (λ x. there (a.0 x), back)
    where
      first : S ⊎ E → E ⊎ D
      first (inl s) = inr (d.1 (inl s))
      first (inr e) = inl e

      there : B ⊎ N → E ⊎ D
      there (inl y) = first (b.0 y)
      there (inr n) = inr (d.1 (inr n))

      last : S ⊎ N → A
      last (inl s) = a.1 (inl (b.1 (inl s)))
      last (inr n) = a.1 (inr n)

      back : E ⊎ D → A
      back (inl e) = a.1 (inl (b.1 (inr e)))
      back (inr x) = last (d.0 x)

module _ {B D E S : Type 0} where
  pub swap_iff : B ↔ (S ⊎ E) → D ↔ S → B ↔ (E ⊎ D)
  swap_iff b d = (λ x. there (b.0 x), back)
    where
      there : S ⊎ E → E ⊎ D
      there (inl s) = inr (d.1 s)
      there (inr e) = inl e

      back : E ⊎ D → B
      back (inl e) = b.1 (inr e)
      back (inr x) = b.1 (inl (d.0 x))

pub ||_iff : (a b : Bool) → ((a || b) ≡ true) ↔ ((a ≡ true) ⊎ (b ≡ true))
||_iff true b = (λ h. inl refl, λ h. refl)
||_iff false true = (λ h. inr refl, λ h. refl)
||_iff false false = (λ h. cc, λ h. elim h [ inl e ↦ e | inr e ↦ e ])
