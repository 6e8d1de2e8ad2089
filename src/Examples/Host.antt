-- ===== src/Examples/Host.antt =====
-- A host with the lowest byte first, and a socket that takes one byte at a call.
use computer_networks_projec.Base.{
  ℕ, zero, suc, ◌+◌, ◌*◌, ◌/◌, ◌%◌, ◌^◌, ◌<◌, ◌≡◌, ◌≢◌, refl, ap, subst, some, none, List, [], ◌∷◌,
  arith, length, All,
}
use computer_networks_projec.Config.{IsU8}
use computer_networks_projec.Network.ByteOrder.{
  Platform, IsPlatform, Converts, big_endian, length-big_endian,
}
use computer_networks_projec.Network.Tcp.{Socket, IsSocket}

abbrev pub store : ℕ → ℕ → List ℕ
store zero v = []
store (suc n) v = v % 256 ∷ store n (v / 256)

abbrev pub load : List ℕ → ℕ
load [] = 0
load (b ∷ bs) = b + 256 * load bs

-- The bytes in the other order.
abbrev pub swap : ℕ → ℕ → ℕ
swap n v = load (big_endian n v)

abbrev pub host : Platform
host = record {
  store = store;
  load = load;
  htons = swap 2;
  htonl = swap 4;
  htobe64 = swap 8;
  ntohs = swap 2;
  ntohl = swap 4;
  be64toh = swap 8;
}

load-store : (n v : ℕ) → v < 256 ^ n → load (store n v) ≡ v
load-store zero v h = omega arith
load-store (suc n) v h = omega (arith, load-store n (v / 256) (omega arith))

length-store : (n v : ℕ) → length (store n v) ≡ n
length-store zero v = refl
length-store (suc n) v = ap suc (length-store n (v / 256))

store-load : (bs : List ℕ) → All IsU8 bs → store (length bs) (load bs) ≡ bs
store-load [] a = refl
store-load (b ∷ bs) a =
    let low : (b + 256 * load bs) % 256 ≡ b = omega (arith, a.0) in
    let high : (b + 256 * load bs) / 256 ≡ load bs = omega (arith, a.0) in
    rw (low, high) (ap (λ (cs : List ℕ). b ∷ cs) (store-load bs a.1))

big_endian_bytes : (n v : ℕ) → All IsU8 (big_endian n v)
unfolding big_endian
big_endian_bytes zero v = tt
big_endian_bytes (suc n) v = (omega arith, big_endian_bytes n v)

pow_suc : (n : ℕ) → 256 ^ suc n ≡ 256 * 256 ^ n
pow_suc n = omega arith

load-bounded : (bs : List ℕ) → All IsU8 bs → load bs < 256 ^ length bs
load-bounded [] a = omega arith
load-bounded (b ∷ bs) a = omega (arith, a.0, load-bounded bs a.1, pow_suc (length bs))

swap_short : (v : ℕ) → v < 256 ^ 2 → swap 2 (swap 2 v) ≡ v
unfolding big_endian
swap_short v h = omega arith

swap_long : (v : ℕ) → v < 256 ^ 4 → swap 4 (swap 4 v) ≡ v
unfolding big_endian
swap_long v h = omega arith

swap_quad : (v : ℕ) → v < 256 ^ 8 → swap 8 (swap 8 v) ≡ v
unfolding big_endian
swap_quad v h = omega arith

swap-Converts :
    (n : ℕ) → ((v : ℕ) → v < 256 ^ n → swap n (swap n v) ≡ v) → Converts host n (swap n) (swap n)
swap-Converts n inverse = record {
  in_network_order = λ v h.
      subst (λ k. store k (swap n v) ≡ big_endian n v) (length-big_endian n v)
        (store-load (big_endian n v) (big_endian_bytes n v));
  bounded = λ v h.
      subst (λ k. swap n v < 256 ^ k) (length-big_endian n v)
        (load-bounded (big_endian n v) (big_endian_bytes n v));
  inverse = inverse;
}

pub host-IsPlatform : IsPlatform host
host-IsPlatform = record {
  load-store = load-store;
  length-store = length-store;
  one_byte = λ v h. ap (λ (b : ℕ). b ∷ []) (omega arith);
  short = swap-Converts 2 swap_short;
  long = swap-Converts 4 swap_long;
  quad = swap-Converts 8 swap_quad;
}

abbrev pub slow_socket : Socket
slow_socket = record { send = λ call n. some 1 }

pub slow_socket-IsSocket : IsSocket slow_socket
slow_socket-IsSocket = record { takes = λ call n m h e. ground arith }

pub slow_socket_up : (call n : ℕ) → slow_socket.send call n ≢ none
slow_socket_up call n e = cc
