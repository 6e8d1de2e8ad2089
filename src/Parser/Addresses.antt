-- ===== src/Parser/Addresses.antt =====
-- Which text is an address with a port.
use computer_networks_projec.Base.{
  ℕ, suc, ◌+◌, ◌≡◌, refl, ap, subst, [], ◌∷◌, ◌++◌, true, false, ltb, ltb→lt, Bool-cases, inl, inr,
  ◌==◌, if◌then◌else◌, ◌&&◌, none, some, length, take, All, arith,
}
use computer_networks_projec.Config.{Text, u16_size}
use computer_networks_projec.Parser.{
  parsed, exit_failure, ◌and_then◌, Strtoll, drop, find_last_of, parse_address,
}
use computer_networks_projec.Parser.Flags
use computer_networks_projec.Parser.Numbers.{
  IsDigit, IsDecimal, IsStrtoll, i64_bound, parse_numerical-IsDecimal,
}

find_last_of-none : (d : ℕ) (s : Text) → All (λ c. (c == d) ≡ false) s → find_last_of d s ≡ none
unfolding find_last_of
find_last_of-none d [] h = refl
find_last_of-none d (c ∷ s) h = rw (find_last_of-none d s h.1, h.0) refl

-- A colon is no digit.
no_colon : (s : Text) → All IsDigit s → All (λ c. (c == Flags.address_delimiter) ≡ false) s
no_colon [] h = tt
no_colon (c ∷ s) h = (ground (arith, h.0), no_colon s h.1)

find_last_of-append :
    (d : ℕ) (h s : Text) → find_last_of d s ≡ none → find_last_of d (h ++ d ∷ s) ≡ some (length h)
unfolding find_last_of
find_last_of-append d [] s e = let same : (d == d) ≡ true = ground arith in rw (e, same) refl
find_last_of-append d (c ∷ h) s e = rw (find_last_of-append d h s e) refl

take-length_append : (h s : Text) → take (length h) (h ++ s) ≡ h
take-length_append [] s = refl
take-length_append (c ∷ h) s = ap (λ (t : Text). c ∷ t) (take-length_append h s)

drop-length_append : (d : ℕ) (h s : Text) → drop (length h + 1) (h ++ d ∷ s) ≡ s
drop-length_append d [] s = refl
drop-length_append d (c ∷ h) s =
    let longer : suc (length h + 1) ≡ suc (length h) + 1 = omega arith in
    subst (λ k. drop k (c ∷ (h ++ d ∷ s)) ≡ s) longer (drop-length_append d h s)

in_range :
    (n : ℕ) (host : Text)
    → ◌and_then◌ {B = Text × ℕ}
        (if ltb n u16_size && ltb n i64_bound then parsed n else exit_failure)
        (λ p. parsed (host, p))
      ≡ (if ltb n u16_size then parsed (host, n) else exit_failure)
unfolding ◌and_then◌
in_range n host = elim (Bool-cases (ltb n u16_size)) [
  | inl below ↦
      let short : ltb n i64_bound ≡ true = ground (arith, ltb→lt _ _ below) in
      rw (below, short) refl
  | inr above ↦ rw above refl
]

-- If `strtoll` does what the C standard says, any host with a colon and a decimal port below 65536
-- is read as this host and this port, also if there are colons in the host; with a greater port the
-- program ends with a failure.
pub parse_address-IsDecimal :
    (strtoll : Strtoll) (host port : Text) (n : ℕ)
    → IsStrtoll strtoll
    → IsDecimal port n
    → parse_address strtoll (host ++ Flags.address_delimiter ∷ port)
      ≡ (if ltb n u16_size then parsed (host, n) else exit_failure)
unfolding parse_address ◌and_then◌
parse_address-IsDecimal strtoll host port n std d =
    let (_, digits, _) = d in
    let found =
      find_last_of-append Flags.address_delimiter host port
        (find_last_of-none Flags.address_delimiter port (no_colon port digits)) in
    rw
      (
        parse_address,
        found,
        take-length_append host (Flags.address_delimiter ∷ port),
        drop-length_append Flags.address_delimiter host port,
        parse_numerical-IsDecimal strtoll std u16_size port n (omega arith) d,
      )
      (in_range n host)

-- Without a colon there is no address.
pub parse_address-none :
    (strtoll : Strtoll) (s : Text)
    → All (λ c. (c == Flags.address_delimiter) ≡ false) s
    → parse_address strtoll s ≡ exit_failure
unfolding parse_address
parse_address-none strtoll s h =
    rw (parse_address, find_last_of-none Flags.address_delimiter s h) refl
