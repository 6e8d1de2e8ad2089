-- ===== src/Network/Stream.antt =====
-- What `TCPHandler` promises, however the bytes are cut into pieces: a reader gets the numbers that
-- were sent, and a sender hands over every byte once and in order.
use computer_networks_projec.Base.{
  ℕ, zero, suc, ◌+◌, ◌<◌, ◌≤◌, ◌≡◌, refl, sym, ◌∙◌, ap, inl, inr, Option, none, some, ◌>>=◌, List,
  [], ◌∷◌, ◌++◌, arith, length, length-append, append-nil, append_assoc, ltb, Bool-cases,
  Option-cases, take, Returns, Returns-some,
}
use computer_networks_projec.Network.ByteOrder.{
  Platform, IsPlatform, Width, size_of, Fits, big_endian, length-big_endian, to_host,
}
use computer_networks_projec.Network.Tcp.{
  Received, received, failed, Tcp, Socket, IsSocket, drop, fill, return_when_n_bytes_in_deque, Sent,
  sent, error, out_of_fuel, send_loop, send_n_bytes, read_element,
}

-- The bytes that the calls of `recv` bring before the first error or the end of the stream.
unfoldable pub stream : List Received → List ℕ
stream [] = []
stream (failed ∷ rest) = []
stream (received [] ∷ rest) = []
stream (received (b ∷ bs) ∷ rest) = (b ∷ bs) ++ stream rest

-- All bytes that the handler can still hand out.
unfoldable pub pending : Tcp → List ℕ
unfolding stream
pending t = t.recv_deque ++ stream t.incoming

fill-enough :
    (n : ℕ) (deque : List ℕ) (incoming : List Received)
    → n ≤ length (deque ++ stream incoming)
    → Returns
        (λ r. (r.0 ++ stream r.1 ≡ deque ++ stream incoming) × (n ≤ length r.0))
        (fill n deque incoming)
unfolding fill stream
fill-enough n deque [] h = ground (arith, append-nil deque)
fill-enough n deque (failed ∷ rest) h = ground (arith, append-nil deque)
fill-enough n deque (received [] ∷ rest) h = ground (arith, append-nil deque)
fill-enough n deque (received (b ∷ bs) ∷ rest) h = elim (Bool-cases (ltb (length deque) n)) [
  | inl short ↦
      rw (short, sym (append_assoc deque (b ∷ bs) (stream rest)))
        (fill-enough n (deque ++ b ∷ bs) rest (rw (append_assoc deque (b ∷ bs) (stream rest)) h))
  | inr enough ↦ rw enough (refl, ground arith)
]

cons_injective : (x y : ℕ) (xs ys : List ℕ) → x ∷ xs ≡ y ∷ ys → (x ≡ y) × (xs ≡ ys)
cons_injective x y xs ys e = (cc, cc)

-- A front that is long enough splits at the same place.
take-front :
    (xs ys cs bs : List ℕ)
    → xs ++ ys ≡ cs ++ bs
    → length cs ≤ length xs
    → (take (length cs) xs ≡ cs) × (drop (length cs) xs ++ ys ≡ bs)
take-front xs ys [] bs e h = (refl, e)
take-front [] ys (c ∷ cs) bs e h = absurd (omega arith)
take-front (x ∷ xs) ys (c ∷ cs) bs e h =
    let (same, rest) = cons_injective x c (xs ++ ys) (cs ++ bs) e in
    let (front, back) = take-front xs ys cs bs rest (omega arith) in (rw (same, front) refl, back)

-- The reader takes exactly these bytes, whatever comes behind them, and returns this value.
abbrev pub Reads {ℓ} : {A : Type ℓ} → (Tcp → Option (A × Tcp)) → List ℕ → A → Type ℓ
Reads f bytes a =
    (rest : List ℕ) (t : Tcp)
    → pending t ≡ bytes ++ rest
    → (t' : Tcp) × (f t ≡ some (a, t')) × (pending t' ≡ rest)

pub Reads-bind {ℓ κ} :
    {A : Type ℓ} {B : Type κ} (f : Tcp → Option (A × Tcp)) (g : A → Tcp → Option (B × Tcp))
    (bytes more : List ℕ) (a : A) (b : B)
    → Reads f bytes a
    → Reads (g a) more b
    → Reads (λ t. f t >>= λ r. g r.0 r.1) (bytes ++ more) b
Reads-bind f g bytes more a b hf hg rest t e =
    let (t', e', left) = hf (more ++ rest) t (e ∙ append_assoc bytes more rest) in
    let (t'', e'', left') = hg rest t' left in (t'', rw (e') e'', left')

pub Reads-some {ℓ} : {A : Type ℓ} (a : A) → Reads (λ t. some (a, t)) [] a
Reads-some a rest t e = (t, refl, e)

module _ (p : Platform) (laws : IsPlatform p) where
  -- On a host that keeps the laws of its byte order: a number of its type that arrives in the
  -- network's order, in pieces of any size, is read as it was sent, and nothing behind it is lost.
  pub read_element-Reads :
      (w : Width) (v : ℕ) → Fits w v → Reads (read_element p w) (big_endian (size_of w) v) v
  unfolding read_element return_when_n_bytes_in_deque pending
  read_element-Reads w v h rest t e =
      let n = length-big_endian (size_of w) v in
      let ((deque, incoming), filled, (kept, enough)) =
        Returns-some _ (fill (size_of w) t.recv_deque t.incoming) (
          fill-enough (size_of w) t.recv_deque t.incoming
            (rw e (omega (arith, n, length-append (big_endian (size_of w) v) rest)))) in
      let (front, back) =
        take-front deque (stream incoming) (big_endian (size_of w) v) rest (kept ∙ e)
          (omega (arith, n)) in
      let front' : take (size_of w) deque ≡ big_endian (size_of w) v =
        ap (λ (k : ℕ). take k deque) (sym n) ∙ front in
      let back' : drop (size_of w) deque ++ stream incoming ≡ rest =
        ap (λ (k : ℕ). drop k deque ++ stream incoming) (sym n) ∙ back in
      (
        record t { recv_deque = drop (size_of w) deque; incoming = incoming },
        rw (filled, front', to_host p laws w v h, laws.load-store (size_of w) v h) refl,
        back',
      )

fill_short :
    (n : ℕ) (deque : List ℕ) (incoming : List Received)
    → length (deque ++ stream incoming) < n
    → fill n deque incoming ≡ none
unfolding fill stream
fill_short n deque [] h = ground (arith, append-nil deque)
fill_short n deque (failed ∷ rest) h = ground (arith, append-nil deque)
fill_short n deque (received [] ∷ rest) h = ground (arith, append-nil deque)
fill_short n deque (received (b ∷ bs) ∷ rest) h = ground (
  arith,
  append_assoc deque (b ∷ bs) (stream rest),
  length-append deque ((b ∷ bs) ++ stream rest),
  fill_short n (deque ++ b ∷ bs) rest,
)

-- With fewer bytes than the number has before the stream ends or fails, the call throws.
pub read_element_short :
    (p : Platform) (w : Width) (t : Tcp)
    → length (pending t) < size_of w
    → read_element p w t ≡ none
unfolding read_element return_when_n_bytes_in_deque pending
read_element_short p w t h = rw (fill_short (size_of w) t.recv_deque t.incoming h) refl

-- What the outcome of a loop of `send` says.
abbrev pub Outcome : Socket → List ℕ → Tcp → Sent → Type 0
Outcome s bytes t (sent t') =
    (t'.outgoing ≡ t.outgoing ++ bytes)
    × (t'.recv_deque ≡ t.recv_deque)
    × (t'.incoming ≡ t.incoming)
Outcome s bytes t error = (call : ℕ) × (n : ℕ) × (s.send call n ≡ none)
Outcome s bytes t out_of_fuel = ⊥

take-drop : (m : ℕ) (xs : List ℕ) → take m xs ++ drop m xs ≡ xs
take-drop zero xs = refl
take-drop (suc m) [] = refl
take-drop (suc m) (x ∷ xs) = ap (λ (ys : List ℕ). x ∷ ys) (take-drop m xs)

length-drop : (m : ℕ) (xs : List ℕ) → m ≤ length xs → length (drop m xs) + m ≡ length xs
length-drop zero xs h = omega arith
length-drop (suc m) [] h = absurd (omega arith)
length-drop (suc m) (x ∷ xs) h = omega (arith, length-drop m xs (omega arith))

Outcome-step :
    (s : Socket) (bytes : List ℕ) (m : ℕ) (t : Tcp) (r : Sent)
    → Outcome s
        (drop m bytes)
        (record t { outgoing = t.outgoing ++ take m bytes; sends = suc t.sends })
        r
    → Outcome s bytes t r
Outcome-step s bytes m t (sent t') h = (
  h.0
      ∙ append_assoc t.outgoing (take m bytes) (drop m bytes)
      ∙ ap (λ (ys : List ℕ). t.outgoing ++ ys) (take-drop m bytes),
  h.1,
  h.2,
)
Outcome-step s bytes m t error h = h
Outcome-step s bytes m t out_of_fuel h = h

module _ (s : Socket) (law : IsSocket s) where
  send_loop-Outcome :
      (fuel : ℕ) (bytes : List ℕ) (t : Tcp)
      → length bytes ≤ fuel
      → Outcome s bytes t (send_loop s fuel bytes t)
  unfolding send_loop
  send_loop-Outcome fuel [] t h = (sym (append-nil t.outgoing), refl, refl)
  send_loop-Outcome zero (b ∷ bs) t h = absurd (omega arith)
  send_loop-Outcome (suc fuel) (b ∷ bs) t h =
      elim (Option-cases (s.send t.sends (length (b ∷ bs)))) [
        | inl e ↦ rw (send_loop, e) (t.sends, length (b ∷ bs), e)
        | inr (m, e) ↦
            let (some_taken, no_more) = law.takes t.sends (length (b ∷ bs)) m (omega arith) e in
            let left = length-drop m (b ∷ bs) no_more in
            rw (send_loop, e)
              (Outcome-step s (b ∷ bs) m t
                (send_loop s fuel (drop m (b ∷ bs))
                  (record t { outgoing = t.outgoing ++ take m (b ∷ bs); sends = suc t.sends }))
                (send_loop-Outcome fuel (drop m (b ∷ bs)) _ (omega (arith, left))))
      ]

  -- With a socket that takes at least one byte at a successful call, the loop ends: either the
  -- socket has taken all the bytes, each once and in order, and what was received is not touched,
  -- or a call of `send` has failed.
  pub send_n_bytes-Outcome : (bytes : List ℕ) (t : Tcp) → Outcome s bytes t (send_n_bytes s bytes t)
  unfolding send_n_bytes
  send_n_bytes-Outcome bytes t = send_loop-Outcome (length bytes) bytes t (omega arith)
