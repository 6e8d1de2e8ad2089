-- ===== src/Network/ByteOrder.antt =====
-- The conversion of numbers between the host's byte order and the network's, and the C library's
-- functions that it calls.
use computer_networks_projec.Base.{
  ℕ, zero, suc, ◌/◌, ◌%◌, ◌^◌, ◌<◌, ◌≡◌, refl, sym, ◌∙◌, ap, Option, none, some, List, [], ◌∷◌,
  arith, length, ◌==◌, if◌then◌else◌,
}

-- What the code uses of the platform: the bytes of an unsigned object of a number of bytes, as
-- `memcpy` and a cast of a pointer see them, and the functions of <arpa/inet.h> and <endian.h>.
pub record Platform : Type 0 where
  pub store : ℕ → ℕ → List ℕ
  pub load : List ℕ → ℕ
  pub htons : ℕ → ℕ
  pub htonl : ℕ → ℕ
  pub htobe64 : ℕ → ℕ
  pub ntohs : ℕ → ℕ
  pub ntohl : ℕ → ℕ
  pub be64toh : ℕ → ℕ

-- The network byte order: the byte of the highest weight comes first.
unfoldable pub big_endian : ℕ → ℕ → List ℕ
big_endian zero v = []
big_endian (suc n) v = (v / 256 ^ n % 256) ∷ big_endian n v

-- A function from the host's order to the network's for objects of `n` bytes, and the one back.
pub record Converts (p : Platform) (n : ℕ) (to_network to_host : ℕ → ℕ) : Type 0 where
  pub in_network_order : (v : ℕ) → v < 256 ^ n → p.store n (to_network v) ≡ big_endian n v
  pub bounded : (v : ℕ) → v < 256 ^ n → to_network v < 256 ^ n
  pub inverse : (v : ℕ) → v < 256 ^ n → to_host (to_network v) ≡ v

-- What the documentation of these functions, and the language, say.
pub record IsPlatform (p : Platform) : Type 0 where
  pub load-store : (n v : ℕ) → v < 256 ^ n → p.load (p.store n v) ≡ v
  pub length-store : (n v : ℕ) → length (p.store n v) ≡ n
  pub one_byte : (v : ℕ) → v < 256 → p.store 1 v ≡ v ∷ []
  pub short : Converts p 2 p.htons p.ntohs
  pub long : Converts p 4 p.htonl p.ntohl
  pub quad : Converts p 8 p.htobe64 p.be64toh

module _ (p : Platform) where
  -- The switch over the size; the buffer is given by its first `n` bytes, and `none` is
  -- `std::invalid_argument`.
  unfoldable pub convert_host_to_network_byte_order : ℕ → List ℕ → Option (List ℕ)
  convert_host_to_network_byte_order n buffer =
      if n == 1
      then some buffer
      else if n == 2
      then some (p.store 2 (p.htons (p.load buffer)))
      else if n == 4
      then some (p.store 4 (p.htonl (p.load buffer)))
      else if n == 8
      then some (p.store 8 (p.htobe64 (p.load buffer)))
      else none

  unfoldable pub convert_network_to_host_byte_order : ℕ → List ℕ → Option (List ℕ)
  convert_network_to_host_byte_order n buffer =
      if n == 1
      then some buffer
      else if n == 2
      then some (p.store 2 (p.ntohs (p.load buffer)))
      else if n == 4
      then some (p.store 4 (p.ntohl (p.load buffer)))
      else if n == 8
      then some (p.store 8 (p.be64toh (p.load buffer)))
      else none

-- The unsigned types that the program sends; `char` is sent as its byte.
pub data Width : Type 0 where
  u8 u16 u32 u64 : Width

-- `sizeof(T)`
abbrev pub size_of : Width → ℕ
size_of u8 = 1
size_of u16 = 2
size_of u32 = 4
size_of u64 = 8

-- `v` is a value of the type.
abbrev pub Fits : Width → ℕ → Type 0
Fits w v = v < 256 ^ size_of w

pub length-big_endian : (n v : ℕ) → length (big_endian n v) ≡ n
unfolding big_endian
length-big_endian zero v = refl
length-big_endian (suc n) v = ap suc (length-big_endian n v)

one_byte-big_endian : (v : ℕ) → v < 256 → v ∷ [] ≡ big_endian 1 v
unfolding big_endian
one_byte-big_endian v h = ground arith

module _ (p : Platform) (laws : IsPlatform p) where
  -- A number of a supported size comes out in the network's order, whatever the host's is.
  pub to_network :
      (w : Width) (v : ℕ)
      → Fits w v
      → convert_host_to_network_byte_order p (size_of w) (p.store (size_of w) v)
        ≡ some (big_endian (size_of w) v)
  unfolding convert_host_to_network_byte_order
  to_network u8 v h = ap some (laws.one_byte v h ∙ one_byte-big_endian v h)
  to_network u16 v h = rw (laws.load-store 2 v h) (ap some (laws.short.in_network_order v h))
  to_network u32 v h = rw (laws.load-store 4 v h) (ap some (laws.long.in_network_order v h))
  to_network u64 v h = rw (laws.load-store 8 v h) (ap some (laws.quad.in_network_order v h))

  back :
      (n v : ℕ) (f g : ℕ → ℕ)
      → Converts p n f g
      → v < 256 ^ n
      → p.store n (g (p.load (big_endian n v))) ≡ p.store n v
  back n v f g c h =
      rw (sym (c.in_network_order v h), laws.load-store n (f v) (c.bounded v h), c.inverse v h)

  -- The bytes of a number in the network's order give the number's object on the host.
  pub to_host :
      (w : Width) (v : ℕ)
      → Fits w v
      → convert_network_to_host_byte_order p (size_of w) (big_endian (size_of w) v)
        ≡ some (p.store (size_of w) v)
  unfolding convert_network_to_host_byte_order
  to_host u8 v h = ap some (sym (one_byte-big_endian v h) ∙ sym (laws.one_byte v h))
  to_host u16 v h = ap some (back 2 v p.htons p.ntohs laws.short h)
  to_host u32 v h = ap some (back 4 v p.htonl p.ntohl laws.long h)
  to_host u64 v h = ap some (back 8 v p.htobe64 p.be64toh laws.quad h)
