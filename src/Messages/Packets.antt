-- ===== src/Messages/Packets.antt =====
-- The packets for the GUI, byte by byte: a description of them that knows nothing of buffers and
-- serialisers, and that the code sends exactly these.
pub mod Sent
use computer_networks_projec.Base.{
  ℕ, ◌+◌, ◌%◌, ◌≤◌, ◌≡◌, refl, sym, ap, ◌∙◌, subst, true, false, Bool, Option, some, ◌>>=◌, List,
  [], ◌∷◌, ◌++◌, append-nil, append_assoc, arith, length, length-append, take, All, ltb,
  if◌then◌else◌,
}
use computer_networks_projec.Config.{
  IsU8, IsU16, IsU32, IsText, Text, container_len_max, str_len_max, udp_buff_size,
}
use computer_networks_projec.Messages.{Position, Player, Bomb, LobbyMessage, GameMessage}
use computer_networks_projec.Messages.Write.{
  put_all, put_entry, serialize_string, serialize_map, serialize_vector, serialize_position,
  serialize_player, serialize_bomb, serialize_lobby_message, serialize_game_message, sent_length,
}
use computer_networks_projec.Messages.Containers.{
  clip, take-sent_length, length-sent, sent_length-IsU8, All-take,
}
use computer_networks_projec.Messages.RoundTrip.{IsPosition, IsPlayer, IsVector}
use computer_networks_projec.Messages.Gui.{DrawMessage, lobby, game, send_gui_message}
use computer_networks_projec.Network.ByteOrder.{
  Platform, IsPlatform, Width, u8, u16, u32, size_of, Fits, big_endian,
}
use computer_networks_projec.Network.Channel.{
  Channel, IsChannel, Writes, Writes-put, Writes-bind, Writes-some,
}
use computer_networks_projec.Network.Udp.{Udp, udp, udp-IsChannel, flush_outcoming_packet}

abbrev pub bytes_of : Width → ℕ → List ℕ
bytes_of w v = big_endian (size_of w) v

unfoldable pub concat : {A : Type 0} → (A → List ℕ) → List A → List ℕ
concat f [] = []
concat f (a ∷ as') = f a ++ concat f as'

-- At most 255 bytes, after their number.
unfoldable pub string_format : Text → List ℕ
string_format s = bytes_of u8 (length (clip s)) ++ concat (bytes_of u8) (clip s)

unfoldable pub vector_format : {A : Type 0} → (A → List ℕ) → List A → List ℕ
unfolding concat
vector_format f v = bytes_of u32 (length v) ++ concat f v

-- A vector of keys and values.
unfoldable pub map_format : {V : Type 0} → (V → List ℕ) → List (ℕ × V) → List ℕ
unfolding vector_format
map_format f m = vector_format (λ e. bytes_of u8 e.0 ++ f e.1) m

unfoldable pub position_format : Position → List ℕ
position_format q = bytes_of u16 q.x ++ bytes_of u16 q.y

unfoldable pub player_format : Player → List ℕ
unfolding string_format
player_format q = string_format q.name ++ string_format q.address

unfoldable pub bomb_format : Bomb → List ℕ
unfolding position_format
bomb_format b = position_format b.position ++ bytes_of u16 b.timer

-- The code of the message, then its members in the order of the protocol.
unfoldable pub packet_format : DrawMessage → List ℕ
unfolding string_format map_format vector_format position_format player_format bomb_format
packet_format (lobby m) =
    bytes_of u8 0
    ++ (string_format m.server_name
        ++ (bytes_of u8 m.players_count
            ++ (bytes_of u16 m.size_x
                ++ (bytes_of u16 m.size_y
                    ++ (bytes_of u16 m.game_length
                        ++ (bytes_of u16 m.explosion_radius
                            ++ (bytes_of u16 m.bomb_timer
                                ++ map_format player_format m.players)))))))
packet_format (game m) =
    bytes_of u8 1
    ++ (string_format m.server_name
        ++ (bytes_of u16 m.size_x
            ++ (bytes_of u16 m.size_y
                ++ (bytes_of u16 m.game_length
                    ++ (bytes_of u16 m.turn
                        ++ (map_format player_format m.players
                            ++ (map_format position_format m.player_positions
                                ++ (vector_format position_format m.blocks
                                    ++ (vector_format bomb_format m.bombs
                                        ++ (vector_format position_format m.explosions
                                            ++ map_format (bytes_of u32) m.scores))))))))))

-- A map whose size, keys and values have the types that the code gives them.
abbrev pub IsEntries : {V : Type 0} → (V → Type 0) → List (ℕ × V) → Type 0
IsEntries P m = (length m ≤ container_len_max) × All (λ e. IsU8 e.0 × P e.1) m

abbrev pub IsBomb : Bomb → Type 0
IsBomb b = IsPosition b.position × IsU16 b.timer

-- All members have their types.
abbrev pub IsDrawMessage : DrawMessage → Type 0
IsDrawMessage (lobby m) =
    IsText m.server_name
    × IsU8 m.players_count
    × IsU16 m.size_x
    × IsU16 m.size_y
    × IsU16 m.game_length
    × IsU16 m.explosion_radius
    × IsU16 m.bomb_timer
    × IsEntries IsPlayer m.players
IsDrawMessage (game m) =
    IsText m.server_name
    × IsU16 m.size_x
    × IsU16 m.size_y
    × IsU16 m.game_length
    × IsU16 m.turn
    × IsEntries IsPlayer m.players
    × IsEntries IsPosition m.player_positions
    × IsVector IsPosition m.blocks
    × IsVector IsBomb m.bombs
    × IsVector IsPosition m.explosions
    × IsEntries IsU32 m.scores

module _ {c : Channel} (l : IsChannel c) where
  put_all-Writes :
      {A : Type 0} (P : A → Type 0) (f : A → c.State → Option c.State) (g : A → List ℕ)
      → ((a : A) → P a → Writes l (f a) (g a))
      → (v : List A) → All P v
      → Writes l (put_all c f v) (concat g v)
  unfolding put_all concat
  put_all-Writes P f g k [] h = Writes-some l
  put_all-Writes P f g k (a ∷ v) h =
      Writes-bind l (f a) (put_all c f v) (g a) (concat g v) (k a h.0)
        (put_all-Writes P f g k v h.1)

  pub string-Writes : (s : Text) → IsText s → Writes l (serialize_string c s) (string_format s)
  unfolding serialize_string string_format
  string-Writes s a =
      Writes-bind l (c.put u8 (sent_length s)) (put_all c (c.put u8) (take (sent_length s) s))
        (bytes_of u8 (length (clip s))) (concat (bytes_of u8) (clip s))
        (rw (length-sent s) (Writes-put l u8 (sent_length s) (sent_length-IsU8 s)))
        (rw (take-sent_length s) (
          put_all-Writes IsU8 (c.put u8) (bytes_of u8) (λ b h. Writes-put l u8 b h) (clip s)
            (All-take IsU8 str_len_max s a)))

  pub vector-Writes :
      {A : Type 0} (P : A → Type 0) (f : A → c.State → Option c.State) (g : A → List ℕ)
      → ((a : A) → P a → Writes l (f a) (g a))
      → (v : List A) → IsVector P v
      → Writes l (serialize_vector c f v) (vector_format g v)
  unfolding serialize_vector vector_format
  vector-Writes P f g k v h =
      let fits : ltb container_len_max (length v) ≡ false = ground (arith, h.0) in
      let same : length v % 4294967296 ≡ length v = omega (arith, h.0) in
      rw (fits, same)
        (Writes-bind l (c.put u32 (length v)) (put_all c f v) (bytes_of u32 (length v)) (concat g v)
          (Writes-put l u32 (length v) (omega (arith, h.0))) (put_all-Writes P f g k v h.1))

  pub map-Writes :
      {V : Type 0} (P : V → Type 0) (f : V → c.State → Option c.State) (g : V → List ℕ)
      → ((a : V) → P a → Writes l (f a) (g a))
      → (m : List (ℕ × V)) → IsEntries P m
      → Writes l (serialize_map c f m) (map_format g m)
  unfolding serialize_map map_format vector_format put_entry
  map-Writes P f g k m h =
      let fits : ltb container_len_max (length m) ≡ false = ground (arith, h.0) in
      let same : length m % 4294967296 ≡ length m = omega (arith, h.0) in
      rw (fits, same)
        (Writes-bind l (c.put u32 (length m)) (put_all c (put_entry c f) m)
          (bytes_of u32 (length m)) (concat (λ e. bytes_of u8 e.0 ++ g e.1) m)
          (Writes-put l u32 (length m) (omega (arith, h.0)))
          (put_all-Writes (λ e. IsU8 e.0 × P e.1) (put_entry c f) (λ e. bytes_of u8 e.0 ++ g e.1)
            (λ e q.
              Writes-bind l (c.put u8 e.0) (f e.1) (bytes_of u8 e.0) (g e.1)
                (Writes-put l u8 e.0 q.0) (k e.1 q.1))
            m h.1))

  pub position-Writes :
      (q : Position) → IsPosition q → Writes l (serialize_position c q) (position_format q)
  unfolding serialize_position position_format
  position-Writes q h = Writes-bind l _ _ _ _ (Writes-put l u16 q.x h.0) (Writes-put l u16 q.y h.1)

  pub player-Writes : (q : Player) → IsPlayer q → Writes l (serialize_player c q) (player_format q)
  unfolding serialize_player player_format
  player-Writes q h = Writes-bind l _ _ _ _ (string-Writes q.name h.0) (string-Writes q.address h.1)

  pub bomb-Writes : (b : Bomb) → IsBomb b → Writes l (serialize_bomb c b) (bomb_format b)
  unfolding serialize_bomb bomb_format
  bomb-Writes b h =
      Writes-bind l _ _ _ _ (position-Writes b.position h.0) (Writes-put l u16 b.timer h.1)
