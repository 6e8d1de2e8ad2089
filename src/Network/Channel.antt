-- ===== src/Network/Channel.antt =====
-- What the serialisers of src/network/messages.cpp send their numbers to: both handlers have the
-- same operation, `send_element` for TCP and `append_to_outcoming_packet` for UDP.
use computer_networks_projec.Base.{
  ℕ, ◌≡◌, ◌≢◌, refl, ◌∙◌, Option, some, ◌>>=◌, List, [], ◌++◌, append-nil, append_assoc, sym, subst,
  none,
}
use computer_networks_projec.Network.ByteOrder.{
  Platform, IsPlatform, Width, size_of, Fits, big_endian, to_network,
}
use computer_networks_projec.Network.Tcp.{
  Tcp, Socket, IsSocket, Sent, sent, error, out_of_fuel, send_n_bytes, send_element,
}
use computer_networks_projec.Network.Stream.{Outcome, send_n_bytes-Outcome}

-- `put` is `none` where the handler throws.
pub record Channel : Type 1 where
  pub State : Type 0
  pub put : Width → ℕ → State → Option State

-- `out` is what was put so far; `Room` says that the handler takes so many bytes more.
pub record IsChannel (c : Channel) : Type 1 where
  pub out : c.State → List ℕ
  pub Room : List ℕ → c.State → Type 0
  pub put_lem :
      (w : Width) (v : ℕ) (rest : List ℕ) (t : c.State)
      → Fits w v
      → Room (big_endian (size_of w) v ++ rest) t
      → (t' : c.State) × (c.put w v t ≡ some t')
        × (out t' ≡ out t ++ big_endian (size_of w) v)
        × Room rest t'

module _ {c : Channel} (l : IsChannel c) where
  -- With room for the bytes and more, the sender puts exactly these bytes and leaves the room for
  -- the rest.
  abbrev pub Writes : (c.State → Option c.State) → List ℕ → Type 0
  Writes f bytes =
      (rest : List ℕ) (t : c.State)
      → l.Room (bytes ++ rest) t
      → (t' : c.State) × (f t ≡ some t') × (l.out t' ≡ l.out t ++ bytes) × l.Room rest t'

  pub Writes-put : (w : Width) (v : ℕ) → Fits w v → Writes (c.put w v) (big_endian (size_of w) v)
  Writes-put w v h rest t room = l.put_lem w v rest t h room

  pub Writes-bind :
      (f g : c.State → Option c.State) (bytes more : List ℕ)
      → Writes f bytes
      → Writes g more
      → Writes (λ t. f t >>= g) (bytes ++ more)
  Writes-bind f g bytes more hf hg rest t room =
      let (t', e, o, room') =
        hf (more ++ rest) t (subst (λ bs. l.Room bs t) (append_assoc bytes more rest) room) in
      let (t'', e', o', room'') = hg rest t' room' in
      (t'', rw e e', o' ∙ rw (o, append_assoc (l.out t) bytes more) refl, room'')

  pub Writes-some : Writes (λ t. some t) []
  Writes-some rest t room = (t, refl, sym (append-nil (l.out t)), room)

module _ (p : Platform) (laws : IsPlatform p) (s : Socket) (law : IsSocket s) where
  abbrev pub tcp : Channel
  tcp = record { State = Tcp; put = send_element p s }

  put_tcp :
      (up : (call n : ℕ) → s.send call n ≢ none) (w : Width) (v : ℕ) (t : Tcp)
      → Fits w v
      → (t' : Tcp) × (send_element p s w v t ≡ some t')
        × (t'.outgoing ≡ t.outgoing ++ big_endian (size_of w) v)
  unfolding send_element
  put_tcp up w v t h = rw (to_network p laws w v h) (
      finish (send_n_bytes s (big_endian (size_of w) v) t)
        (send_n_bytes-Outcome s law (big_endian (size_of w) v) t))
    where
      finish :
          (r : Sent)
          → Outcome s (big_endian (size_of w) v) t r
          → (t' : Tcp) × ((elim r [ sent t' ↦ some t' | error ↦ none | out_of_fuel ↦ none ])
              ≡ some t')
            × (t'.outgoing ≡ t.outgoing ++ big_endian (size_of w) v)
      finish (sent t') o = (t', refl, o.0)
      finish error (call, n, e) = absurd (up call n e)
      finish out_of_fuel o = absurd o

  -- A socket whose `send` does not fail takes any number of bytes.
  pub tcp-IsChannel : (up : (call n : ℕ) → s.send call n ≢ none) → IsChannel tcp
  tcp-IsChannel up = record {
    out = λ t. t.outgoing;
    Room = λ bytes t. Unit {0};
    put_lem = λ w v rest t h room. let (t', e, o) = put_tcp up w v t h in (t', e, o, tt);
  }
