-- ===== src/Parser/Ends.antt =====
-- What a part of the parser guarantees if it does not end the program.
use computer_networks_projec.Base.{
  ℕ, ◌<◌, ◌≡◌, refl, sym, subst, Bool, true, false, Bool-cases, inl, inr, ◌==◌, ==_iff,
  if◌then◌else◌, not, ◌||◌, ◌&&◌,
}
use computer_networks_projec.Config.{Text}
use computer_networks_projec.Parser.{
  Outcome, parsed, exit_failure, exit_success, ◌and_then◌, Strtoll, parse_numerical,
}
use computer_networks_projec.Parser.Numbers.{parse_numerical_lt}

abbrev pub Ends : {A : Type 0} → (A → Type 0) → Outcome A → Type 0
Ends P (parsed a) = P a
Ends P exit_failure = Unit {0}
Ends P exit_success = Unit {0}

pub Ends-parsed :
    {A : Type 0} (P : A → Type 0) (o : Outcome A) (a : A) → Ends P o → o ≡ parsed a → P a
Ends-parsed P o a h e = subst (Ends P) e h

pub Ends-and_then :
    {A B : Type 0} (P : A → Type 0) (Q : B → Type 0) (o : Outcome A) (f : A → Outcome B)
    → Ends P o
    → ((a : A) → P a → Ends Q (f a))
    → Ends Q (o and_then f)
unfolding ◌and_then◌
Ends-and_then P Q (parsed a) f h g = g a h
Ends-and_then P Q exit_failure f h g = tt
Ends-and_then P Q exit_success f h g = tt

-- One case of the `switch`.
pub Ends-case :
    {A : Type 0} (P : ℕ → A → Type 0) (opt f : ℕ) (o rest : Outcome A)
    → Ends (P f) o
    → Ends (P opt) rest
    → Ends (P opt) (if opt == f then o else rest)
Ends-case P opt f o rest h g = elim (Bool-cases (opt == f)) [
  | inl here ↦ rw here (subst (λ x. Ends (P x) o) (sym ((==_iff opt f).0 here)) h)
  | inr there ↦ rw there g
]

-- What is parsed fits into its type.
pub Ends-parse_numerical :
    (strtoll : Strtoll) (size : ℕ) (s : Text)
    → 0 < size
    → Ends (λ n. n < size) (parse_numerical strtoll size s)
Ends-parse_numerical strtoll size s h =
    bounded (parse_numerical strtoll size s) (parse_numerical_lt strtoll size s)
  where
    bounded :
        (o : Outcome ℕ) → ((n : ℕ) → 0 < size → o ≡ parsed n → n < size) → Ends (λ n. n < size) o
    bounded (parsed n) f = f n h refl
    bounded exit_failure f = tt
    bounded exit_success f = tt

-- The test after the loop.
pub Ends-unless :
    {A : Type 0} (P : A → Type 0) (equal complete : Bool) (a : A)
    → (equal ≡ true → complete ≡ true → P a)
    → Ends P (if not equal || not complete then exit_failure else parsed a)
Ends-unless P true true a h = h refl refl
Ends-unless P true false a h = tt
Ends-unless P false complete a h = tt

pub not-true : (b : Bool) → not b ≡ true → b ≡ false
not-true true h = absurd (cc)
not-true false h = refl

pub and-not : (a b : Bool) → (a && not b) ≡ true → (a ≡ true) × (b ≡ false)
and-not true b e = (refl, not-true b e)
and-not false b e = absurd (cc)
