-- ===== src/Parser/Numbers.antt =====
-- What the parser takes for a number or an address.
use computer_networks_projec.Base.{
  ℕ, suc, ◌+◌, ◌-◌, ◌*◌, ◌%◌, ◌<◌, ◌≤◌, ◌≡◌, ◌≢◌, refl, ◌∙◌, ap, sym, [], ◌∷◌, Bool, true, false,
  Bool-cases, inl, inr, ◌&&◌, ltb, ltb→lt, lt→ltb, ◌==◌, if◌then◌else◌, All, arith,
}
use mathlib.Core.Bool.{and-true, and-false}
use native.Mathlib.Nat.{mod-eq_of_lt}
use computer_networks_projec.Base.Int.{pos, negsuc}
use computer_networks_projec.Config.{Text}
use computer_networks_projec.Parser.{
  Outcome, parsed, exit_failure, exit_success, ◌and_then◌, Strtoll, to_u64, u64_size,
  get_numerical_value, validate_limit, parse_numerical,
}

abbrev pub IsDigit : ℕ → Type 0
IsDigit c = (48 ≤ c) × (c < 58)

-- The value of decimal digits, after digits with the value `n`.
unfoldable pub value_from : ℕ → Text → ℕ
value_from n [] = n
value_from n (c ∷ s) = value_from (n * 10 + (c - 48)) s

-- The text is a decimal number.
abbrev pub IsDecimal : Text → ℕ → Type 0
IsDecimal s n = (s ≢ []) × All IsDigit s × (value_from 0 s ≡ n)

-- 2 ^ 63
abbrev pub i64_bound : ℕ
i64_bound = 9223372036854775808

-- What the C standard says of `strtoll` for decimal digits, and for a blank and a minus before them.
pub record IsStrtoll (strtoll : Strtoll) : Type 0 where
  pub decimal :
      (s : Text) (n : ℕ)
      → IsDecimal s n
      → n < i64_bound
      → strtoll s ≡ record { number = pos n; rest = []; out_of_range = false }
  pub too_big : (s : Text) (n : ℕ) → IsDecimal s n → i64_bound ≤ n → (strtoll s).out_of_range ≡ true
  pub blank_minus :
      (s : Text) (n : ℕ)
      → IsDecimal s (suc n)
      → n < i64_bound
      → strtoll (32 ∷ 45 ∷ s) ≡ record { number = negsuc n; rest = []; out_of_range = false }

-- A value within the limit is handed on as it is.
limit_lem :
    (size t : ℕ)
    → 0 < size
    → (validate_limit t (size - 1) and_then (λ u. parsed (t % size)))
      ≡ (if ltb t size then parsed t else exit_failure)
unfolding ◌and_then◌ validate_limit
limit_lem size t h = elim (Bool-cases (ltb t size)) [
  | inl below ↦
      let within : ltb (size - 1) t ≡ false = ground (arith, ltb→lt _ _ below) in
      let same : t % size ≡ t = mod-eq_of_lt (ltb→lt _ _ below) in rw (below, within, same) refl
  | inr above ↦ let beyond : ltb (size - 1) t ≡ true = ground (arith, h) in rw (above, beyond) refl
]

chosen :
    (b : Bool) (t n : ℕ) → (if b then parsed t else exit_failure) ≡ parsed n → (b ≡ true) × (t ≡ n)
chosen true t n e = (refl, cc)
chosen false t n e = absurd (cc)

-- A number that is accepted after the check of the limit is within it.
limited :
    (size : ℕ) (o : Outcome ℕ) (n : ℕ)
    → 0 < size
    → (o and_then (λ t. validate_limit t (size - 1) and_then (λ u. parsed (t % size)))) ≡ parsed n
    → n < size
unfolding ◌and_then◌
limited size (parsed t) n h e =
    let (below, same) = chosen (ltb t size) t n (sym (limit_lem size t h) ∙ e) in
    omega (arith, same, ltb→lt _ _ below)
limited size exit_failure n h e = cc
limited size exit_success n h e = cc

past_minus :
    (size n : ℕ) (minus : Bool) (o : Outcome ℕ)
    → 0 < size
    → (if minus
        then exit_failure
        else o and_then (λ t. validate_limit t (size - 1) and_then (λ u. parsed (t % size))))
      ≡ parsed n
    → n < size
past_minus size n true o h e = absurd (cc)
past_minus size n false o h e = limited size o n h e

module _ (strtoll : Strtoll) where
  -- Whatever `strtoll` does, a number that is accepted fits into its type.
  pub parse_numerical_lt :
      (size : ℕ) (s : Text) (n : ℕ)
      → 0 < size
      → parse_numerical strtoll size s ≡ parsed n
      → n < size
  unfolding parse_numerical
  parse_numerical_lt size [] n h e = cc
  parse_numerical_lt size (c ∷ s) n h e =
      past_minus size n (c == 45) (get_numerical_value strtoll (c ∷ s)) h e

  module _ (std : IsStrtoll strtoll) where
    -- If `strtoll` does what the C standard says, a text of decimal digits is accepted if, and only
    -- if, its value is one of the type and below 2^63, and then it is read as this value; for every
    -- other value the program ends with a failure.
    pub parse_numerical-IsDecimal :
        (size : ℕ) (s : Text) (n : ℕ)
        → 0 < size
        → IsDecimal s n
        → parse_numerical strtoll size s
          ≡ (if ltb n size && ltb n i64_bound then parsed n else exit_failure)
    unfolding parse_numerical get_numerical_value to_u64 ◌and_then◌
    parse_numerical-IsDecimal size [] n h d = absurd (d.0 refl)
    parse_numerical-IsDecimal size (c ∷ s) n h d =
        let digit = d.1.0 in
        let other : (c == 45) ≡ false = ground (arith, digit) in
        elim (Bool-cases (ltb n i64_bound)) [
          | inl short ↦
              let lt = ltb→lt _ _ short in
              let same : n % u64_size ≡ n = omega (arith, lt) in
              rw (other, std.decimal (c ∷ s) n d lt, same, short)
                (limit_lem size n h
                  ∙ ap (λ b. if b then parsed n else exit_failure) (sym (and-true (ltb n size))))
          | inr long ↦
              rw (other, std.too_big (c ∷ s) n d (ground arith), long, and-false (ltb n size)) refl
        ]

    -- If `strtoll` does what the C standard says, a negative number behind a blank passes the check
    -- for a minus, and is accepted for a type of 64 bits as a number of 2^63 or more.
    pub parse_numerical-blank_minus :
        (s : Text) (n : ℕ)
        → IsDecimal s (suc n)
        → n < i64_bound
        → parse_numerical strtoll u64_size (32 ∷ 45 ∷ s) ≡ parsed (u64_size - suc n)
    unfolding parse_numerical get_numerical_value to_u64 ◌and_then◌
    parse_numerical-blank_minus s n d h =
        let same : n % u64_size ≡ n = omega (arith, h) in
        let lt : u64_size - suc n < u64_size = omega (arith, h) in
        let even : u64_size - 1 - n ≡ u64_size - suc n = omega (arith, h) in
        rw (std.blank_minus s n d h, same, even)
          (limit_lem u64_size (u64_size - suc n) (omega arith)
            ∙ ap (λ b. if b then parsed (u64_size - suc n) else exit_failure) (lt→ltb _ _ lt))
