-- ===== src/Messages/Packets/Sent.antt =====
-- What `send_gui_message` sends.
use computer_networks_projec.Base.{
  ℕ, ◌≤◌, ◌≡◌, refl, ap, ◌∙◌, subst, true, Bool, Option, none, some, ◌>>=◌, List, [], ◌∷◌, ◌++◌,
  append-nil, Returns, arith, length,
}
use computer_networks_projec.Config.{IsU32, udp_buff_size}
use computer_networks_projec.Messages.{LobbyMessage, GameMessage}
use computer_networks_projec.Messages.Write.{
  serialize_lobby_message, serialize_game_message, serialize_player, serialize_position,
  serialize_bomb,
}
use computer_networks_projec.Messages.RoundTrip.{IsPosition, IsPlayer}
use computer_networks_projec.Messages.Gui.{DrawMessage, lobby, game, send_gui_message}
use computer_networks_projec.Messages.Packets.{
  bytes_of, player_format, position_format, bomb_format, packet_format, IsDrawMessage, IsBomb,
  string-Writes, map-Writes, vector-Writes, player-Writes, position-Writes, bomb-Writes,
}
use computer_networks_projec.Network.ByteOrder.{Platform, IsPlatform, u8, u16, u32}
use computer_networks_projec.Network.Channel.{Channel, IsChannel, Writes, Writes-put, Writes-bind}
use computer_networks_projec.Network.Udp.{Udp, udp, channel_after, flush_outcoming_packet}

module _ {c : Channel} (l : IsChannel c) where
  lobby-Writes :
      (m : LobbyMessage)
      → IsDrawMessage (lobby m)
      → Writes l (λ t. c.put u8 0 t >>= serialize_lobby_message c m) (packet_format (lobby m))
  unfolding serialize_lobby_message packet_format
  lobby-Writes m (name, count, x, y, len, radius, timer, players) =
      Writes-bind l _ _ _ _ (Writes-put l u8 0 (omega arith)) (
        Writes-bind l _ _ _ _ (string-Writes l m.server_name name) (
          Writes-bind l _ _ _ _ (Writes-put l u8 m.players_count count) (
            Writes-bind l _ _ _ _ (Writes-put l u16 m.size_x x) (
              Writes-bind l _ _ _ _ (Writes-put l u16 m.size_y y) (
                Writes-bind l _ _ _ _ (Writes-put l u16 m.game_length len) (
                  Writes-bind l _ _ _ _ (Writes-put l u16 m.explosion_radius radius) (
                    Writes-bind l _ _ _ _ (Writes-put l u16 m.bomb_timer timer) (
                      map-Writes l IsPlayer (serialize_player c) player_format (player-Writes l)
                        m.players players))))))))

  game-Writes :
      (m : GameMessage)
      → IsDrawMessage (game m)
      → Writes l (λ t. c.put u8 1 t >>= serialize_game_message c m) (packet_format (game m))
  unfolding serialize_game_message packet_format
  game-Writes m (name, x, y, len, turn, players, positions, blocks, bombs, explosions, scores) =
      Writes-bind l _ _ _ _ (Writes-put l u8 1 (omega arith)) (
        Writes-bind l _ _ _ _ (string-Writes l m.server_name name) (
          Writes-bind l _ _ _ _ (Writes-put l u16 m.size_x x) (
            Writes-bind l _ _ _ _ (Writes-put l u16 m.size_y y) (
              Writes-bind l _ _ _ _ (Writes-put l u16 m.game_length len) (
                Writes-bind l _ _ _ _ (Writes-put l u16 m.turn turn) (
                  Writes-bind l _ _ _ _
                    (map-Writes l IsPlayer (serialize_player c) player_format (player-Writes l)
                      m.players players)
                    (Writes-bind l _ _ _ _
                      (map-Writes l IsPosition (serialize_position c) position_format
                        (position-Writes l) m.player_positions positions)
                      (Writes-bind l _ _ _ _
                        (vector-Writes l IsPosition (serialize_position c) position_format
                          (position-Writes l) m.blocks blocks)
                        (Writes-bind l _ _ _ _
                          (vector-Writes l IsBomb (serialize_bomb c) bomb_format (bomb-Writes l)
                            m.bombs bombs)
                          (Writes-bind l _ _ _ _
                            (vector-Writes l IsPosition (serialize_position c) position_format
                              (position-Writes l) m.explosions explosions)
                            (map-Writes l IsU32 (c.put u32) (bytes_of u32)
                              (λ v h. Writes-put l u32 v h) m.scores scores)))))))))))

bind_assoc :
    {A : Type 0} (o : Option A) (f g : A → Option A) → ((o >>= f) >>= g) ≡ (o >>= λ a. f a >>= g)
bind_assoc none f g = refl
bind_assoc (some a) f g = refl

-- One packet was sent.
abbrev Sends : Udp → List ℕ → Option Udp → Type 0
Sends t bytes = Returns (λ t'. (t'.outcoming ≡ []) × (t'.packets ≡ t.packets ++ bytes ∷ []))

module _ (p : Platform) (laws : IsPlatform p) (accepts : List ℕ → Bool) where
  -- The packet in the buffer goes out.
  flushed :
      (send : Udp → Option Udp) (bytes : List ℕ) (t : Udp)
      → Writes (channel_after p laws t.packets) send bytes
      → t.outcoming ≡ []
      → length bytes ≤ udp_buff_size
      → accepts bytes ≡ true
      → Sends t bytes (send t >>= flush_outcoming_packet accepts)
  unfolding flush_outcoming_packet
  flushed send bytes t w clean fits up =
      let none_before : length t.outcoming ≡ 0 = ap (λ (bs : List ℕ). length bs) clean in
      let whole : length (bytes ++ []) ≡ length bytes = rw (append-nil bytes) refl in
      let (t', e, o, room) = w [] t (omega arith, refl) in
      let content : t'.outcoming ≡ bytes = o ∙ rw clean refl in
      let taken : accepts t'.outcoming ≡ true = rw content up in
      rw (e, flush_outcoming_packet, taken) (refl, rw (content, room.1) refl)

  -- If the members of a picture have their types, the buffer is empty, the packet of the picture is
  -- not longer than the buffer, and the socket takes it, then exactly one packet is sent, with exactly
  -- the bytes of the protocol: the code, the strings cut to 255 bytes behind their lengths, the
  -- numbers in network byte order and the containers behind their sizes; after it the buffer is
  -- empty again.
  pub send_gui_message-packet_format :
      (m : DrawMessage) (t : Udp)
      → IsDrawMessage m
      → t.outcoming ≡ []
      → length (packet_format m) ≤ udp_buff_size
      → accepts (packet_format m) ≡ true
      → Returns
          (λ t'. (t'.outcoming ≡ []) × (t'.packets ≡ t.packets ++ packet_format m ∷ []))
          (send_gui_message p accepts m t)
  unfolding send_gui_message
  send_gui_message-packet_format (lobby m) t h clean fits up =
      subst (Sends t (packet_format (lobby m)))
        (bind_assoc ((udp p).put u8 0 t) (serialize_lobby_message (udp p) m)
          (flush_outcoming_packet accepts))
        (flushed (λ s. (udp p).put u8 0 s >>= serialize_lobby_message (udp p) m)
          (packet_format (lobby m)) t (lobby-Writes (channel_after p laws t.packets) m h) clean fits
          up)
  send_gui_message-packet_format (game m) t h clean fits up =
      subst (Sends t (packet_format (game m)))
        (bind_assoc ((udp p).put u8 1 t) (serialize_game_message (udp p) m)
          (flush_outcoming_packet accepts))
        (flushed (λ s. (udp p).put u8 1 s >>= serialize_game_message (udp p) m)
          (packet_format (game m)) t (game-Writes (channel_after p laws t.packets) m h) clean fits
          up)
