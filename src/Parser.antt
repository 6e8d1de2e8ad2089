-- ===== src/Parser.antt =====
-- The numbers and addresses on the command line (src/config/parser.cpp), with the function of the C
-- library that reads a number as a parameter. A call of `exit` is a result; the messages that the
-- code prints before are left out.
pub mod Flags
pub mod Ends
pub mod Client
pub mod Addresses
pub mod Numbers
pub mod Options
pub mod Server
use computer_networks_projec.Base.{
  ℕ, zero, suc, ◌+◌, ◌-◌, ◌%◌, List, [], ◌∷◌, Bool, true, false, not, ◌||◌, none, some, Option, ltb,
  ◌==◌, if◌then◌else◌, take,
}
use computer_networks_projec.Base.Int.{ℤ, pos, negsuc}
use computer_networks_projec.Config.{Text, u16_size}

-- What `exit` ends with, or a value.
pub data Outcome {ℓ} (A : Type ℓ) : Type ℓ where
  parsed : A → Outcome A
  exit_failure : Outcome A
  exit_success : Outcome A

infixl 20 ◌and_then◌
unfoldable pub ◌and_then◌ : {A B : Type 0} → Outcome A → (A → Outcome B) → Outcome B
parsed a and_then f = f a
exit_failure and_then f = exit_failure
exit_success and_then f = exit_success

-- What `strtoll` comes to: a number of 64 bits with a sign, what it has left of the text, and
-- whether it has set `errno` to `ERANGE`.
pub record Scanned : Type 0 where
  pub number : ℤ
  pub rest : Text
  pub out_of_range : Bool

abbrev pub Strtoll : Type 0
Strtoll = Text → Scanned

abbrev pub u64_size : ℕ
u64_size = 18446744073709551616

-- The conversion of a number with a sign to `uint64_t`.
unfoldable pub to_u64 : ℤ → ℕ
to_u64 (pos n) = n % u64_size
to_u64 (negsuc n) = u64_size - 1 - n % u64_size

abbrev pub is_empty : Text → Bool
is_empty [] = true
is_empty (c ∷ s) = false

unfoldable pub get_numerical_value : Strtoll → Text → Outcome ℕ
get_numerical_value strtoll s =
    let r = strtoll s in
    if r.out_of_range || not (is_empty r.rest) then exit_failure else parsed (to_u64 r.number)

unfoldable pub validate_limit : ℕ → ℕ → Outcome (Unit {0})
validate_limit val limit = if ltb limit val then exit_failure else parsed tt

-- A number of a type with so many values.
unfoldable pub parse_numerical : Strtoll → ℕ → Text → Outcome ℕ
unfolding ◌and_then◌ get_numerical_value validate_limit
parse_numerical strtoll size [] = exit_failure
parse_numerical strtoll size (c ∷ s) =
    if c == 45
    then exit_failure
    else get_numerical_value strtoll (c ∷ s)
      and_then (λ t. validate_limit t (size - 1) and_then (λ u. parsed (t % size)))

abbrev pub drop : {A : Type 0} → ℕ → List A → List A
drop zero xs = xs
drop (suc n) [] = []
drop (suc n) (x ∷ xs) = drop n xs

-- The place of the last of the characters that are equal to the one given.
unfoldable pub find_last_of : ℕ → Text → Option ℕ
find_last_of d [] = none
find_last_of d (c ∷ s) = elim (find_last_of d s) [
  | some i ↦ some (suc i)
  | none ↦ if c == d then some 0 else none
]

-- An address with its port.
unfoldable pub parse_address : Strtoll → Text → Outcome (Text × ℕ)
unfolding ◌and_then◌ parse_numerical find_last_of
parse_address strtoll s = elim (find_last_of Flags.address_delimiter s) [
  | none ↦ exit_failure
  | some i ↦ parse_numerical strtoll u16_size (drop (i + 1) s) and_then (λ n. parsed (take i s, n))
]
