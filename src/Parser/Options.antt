-- ===== src/Parser/Options.antt =====
-- What a sequence of options says, in any order and with options given more than once.
use computer_networks_projec.Base.{
  ℕ, ◌+◌, ◌*◌, ◌<◌, ◌≡◌, ◌≢◌, refl, ◌∙◌, List, [], ◌∷◌, Bool, true, false, ◌==◌, if◌then◌else◌,
  length, All, arith, lt→ltb,
}
use computer_networks_projec.Config.{Text}
use computer_networks_projec.Parser.{parsed, Strtoll, parse_numerical}
use computer_networks_projec.Parser.Numbers.{
  IsDigit, value_from, i64_bound, IsStrtoll, parse_numerical-IsDecimal,
}

-- The options with their arguments.
abbrev pub Given : Type 0
Given = List (ℕ × Text)

abbrev pub number : Text → ℕ
number s = value_from 0 s

-- Decimal digits with a value of the type.
abbrev pub IsNumber : ℕ → Text → Type 0
IsNumber size s = (s ≢ []) × All IsDigit s × (number s < size) × (number s < i64_bound)

-- What the last argument of the option says, or what was there before.
unfoldable pub last : {A : Type 0} → (Text → A) → ℕ → Given → A → A
last read f [] d = d
last read f (o ∷ os) d = last read f os (if o.0 == f then read o.1 else d)

abbrev pub last_text : ℕ → Given → Text → Text
last_text = last (λ s. s)

abbrev pub last_number : ℕ → Given → ℕ → ℕ
last_number = last number

-- Whether the option is still required after these, if it was before.
unfoldable pub still : ℕ → Given → Bool → Bool
still f [] r = r
still f (o ∷ os) r = still f os (if o.0 == f then false else r)

unfoldable pub counter_after : Given → ℕ → ℕ
counter_after [] c = c
counter_after (o ∷ os) c = counter_after os (c + 2)

-- The option is there.
abbrev pub IsGiven : ℕ → Given → Type 0
IsGiven f os = still f os true ≡ false

pub counter_after_lem : (os : Given) (c : ℕ) → counter_after os c ≡ c + 2 * length os
unfolding counter_after
counter_after_lem [] c = omega arith
counter_after_lem (o ∷ os) c = omega (arith, counter_after_lem os (c + 2))

-- What is not required stays so.
pub unasked : (f : ℕ) (os : Given) → still f os false ≡ false
unfolding still
unasked f [] = refl
unasked f (o ∷ os) = never (o.0 == f) (unasked f os)
  where
    never : (b : Bool) → still f os false ≡ false → still f os (if b then false else false) ≡ false
    never true e = e
    never false e = e

-- What is given does not depend on what was there before.
pub last_any :
    {A : Type 0} (read : Text → A) (f : ℕ) (os : Given) (d d' : A)
    → IsGiven f os
    → last read f os d ≡ last read f os d'
unfolding last still
last_any read f [] d d' h = absurd (cc)
last_any {A} read f (o ∷ os) d d' h = any (o.0 == f) h (last_any read f os d d')
  where
    any :
        (b : Bool)
        → still f os (if b then false else true) ≡ false
        → (IsGiven f os → last read f os d ≡ last read f os d')
        → last read f os (if b then read o.1 else d) ≡ last read f os (if b then read o.1 else d')
    any true e rest = refl
    any false e rest = rest e

pub parse_numerical-IsNumber :
    (strtoll : Strtoll) (size : ℕ) (s : Text)
    → IsStrtoll strtoll
    → IsNumber size s
    → parse_numerical strtoll size s ≡ parsed (number s)
parse_numerical-IsNumber strtoll size s std (some_digit, digits, below, short) =
    parse_numerical-IsDecimal strtoll std size s (number s) (omega arith) (some_digit, digits, refl)
    ∙ rw (lt→ltb _ _ below, lt→ltb _ _ short) refl
