-- ===== src/Network/Tcp.antt =====
-- `TCPHandler` of src/network/network_handler.h and .cpp: numbers on a stream of bytes that arrives
-- and leaves in pieces of any size.
use computer_networks_projec.Base.{
  ℕ, zero, suc, ◌≤◌, ◌<◌, ◌≡◌, Option, none, some, ◌>>=◌, List, [], ◌∷◌, ◌++◌, length, ltb,
  if◌then◌else◌, take,
}
use computer_networks_projec.Network.ByteOrder.{
  Platform, Width, size_of, convert_host_to_network_byte_order, convert_network_to_host_byte_order,
}

-- What calls of `recv` return: bytes, or an error. No bytes, like the end of the list, is the end of
-- the stream.
pub data Received : Type 0 where
  received : List ℕ → Received
  failed : Received

-- The handler with its socket: bytes that were read ahead, what `recv` still returns, what the
-- socket has taken over from `send`, and the number of calls of `send` so far.
pub record Tcp : Type 0 where
  pub recv_deque : List ℕ
  pub incoming : List Received
  pub outgoing : List ℕ
  pub sends : ℕ

-- `send`: to the call with a number, for so many bytes, the number of bytes taken; `none` is -1.
pub record Socket : Type 0 where
  pub send : ℕ → ℕ → Option ℕ

-- A blocking `send` of some bytes takes at least one and no more than it is given, or fails.
pub record IsSocket (s : Socket) : Type 0 where
  pub takes : (call n m : ℕ) → 0 < n → s.send call n ≡ some m → (0 < m) × (m ≤ n)

abbrev pub drop : ℕ → List ℕ → List ℕ
drop zero xs = xs
drop (suc n) [] = []
drop (suc n) (x ∷ xs) = drop n xs

-- `return_when_n_bytes_in_deque`: the deque and what is still to come; `none` is `TCPError`.
unfoldable pub fill : ℕ → List ℕ → List Received → Option (List ℕ × List Received)
fill n deque [] = if ltb (length deque) n then none else some (deque, [])
fill n deque (failed ∷ rest) = if ltb (length deque) n then none else some (deque, failed ∷ rest)
fill n deque (received [] ∷ rest) =
    if ltb (length deque) n then none else some (deque, received [] ∷ rest)
fill n deque (received (b ∷ bs) ∷ rest) =
    let more = fill n (deque ++ b ∷ bs) rest in
    if ltb (length deque) n then more else some (deque, received (b ∷ bs) ∷ rest)

unfoldable pub return_when_n_bytes_in_deque : ℕ → Tcp → Option Tcp
unfolding fill
return_when_n_bytes_in_deque n t =
    fill n t.recv_deque t.incoming >>= λ r. some (record t { recv_deque = r.0; incoming = r.1 })

-- The outcome of the loop of `send_n_bytes`; the code has no `out_of_fuel`.
pub data Sent : Type 0 where
  sent : Tcp → Sent
  error : Sent
  out_of_fuel : Sent

-- On fuel: every successful `send` takes a byte at least.
unfoldable pub send_loop : Socket → ℕ → List ℕ → Tcp → Sent
send_loop s fuel [] t = sent t
send_loop s zero (b ∷ bs) t = out_of_fuel
send_loop s (suc fuel) (b ∷ bs) t = elim (s.send t.sends (length (b ∷ bs))) [
  | none ↦ error
  | some m ↦
      send_loop s fuel (drop m (b ∷ bs))
        (record t { outgoing = t.outgoing ++ take m (b ∷ bs); sends = suc t.sends })
]

unfoldable pub send_n_bytes : Socket → List ℕ → Tcp → Sent
unfolding send_loop
send_n_bytes s bytes t = send_loop s (length bytes) bytes t

module _ (p : Platform) where
  -- `read_element<T>`
  unfoldable pub read_element : Width → Tcp → Option (ℕ × Tcp)
  unfolding return_when_n_bytes_in_deque
  read_element w t = do
    t' ← return_when_n_bytes_in_deque (size_of w) t
    host ← convert_network_to_host_byte_order p (size_of w) (take (size_of w) t'.recv_deque)
    some (p.load host, record t' { recv_deque = drop (size_of w) t'.recv_deque })

  -- `send_element<T>`; `none` is an exception.
  unfoldable pub send_element : Socket → Width → ℕ → Tcp → Option Tcp
  unfolding send_n_bytes
  send_element s w v t = do
    bytes ← convert_host_to_network_byte_order p (size_of w) (p.store (size_of w) v)
    elim (send_n_bytes s bytes t) [ sent t' ↦ some t' | error ↦ none | out_of_fuel ↦ none ]
