-- ===== src/Messages/Write.antt =====
-- The serialisers of src/network/messages.cpp, for a channel. `none` is an exception.
use computer_networks_projec.Base.{
  ℕ, ◌%◌, Option, none, some, ◌>>=◌, List, [], ◌∷◌, length, take, ltb, if◌then◌else◌,
}
use computer_networks_projec.Config.{u8_size, u32_size, str_len_max, container_len_max, Text}
use computer_networks_projec.Messages.{
  Position, Player, Bomb, Hello, AcceptedPlayer, Event, bomb_placed, bomb_exploded, player_moved,
  block_placed, Turn, LobbyMessage, GameMessage,
}
use computer_networks_projec.Network.ByteOrder.{u8, u16, u32}
use computer_networks_projec.Network.Channel.{Channel}

-- The length that `serialize_string` sends.
unfoldable pub sent_length : Text → ℕ
sent_length s = if ltb (length s) str_len_max then length s % u8_size else str_len_max

module _ (c : Channel) where
  -- The loop over the elements of a container.
  unfoldable pub put_all :
      {A : Type 0} → (A → c.State → Option c.State) → List A → c.State → Option c.State
  put_all send_element [] t = some t
  put_all send_element (a ∷ as') t = send_element a t >>= λ t'. put_all send_element as' t'

  unfoldable pub serialize_string : Text → c.State → Option c.State
  unfolding sent_length put_all
  serialize_string s t =
      c.put u8 (sent_length s) t >>= λ t'. put_all (c.put u8) (take (sent_length s) s) t'

  unfoldable pub put_entry :
      {V : Type 0} → (V → c.State → Option c.State) → ℕ × V → c.State → Option c.State
  put_entry send_val (key, value) t = c.put u8 key t >>= λ t'. send_val value t'

  -- All maps that are sent have one-byte keys.
  unfoldable pub serialize_map :
      {V : Type 0} → (V → c.State → Option c.State) → List (ℕ × V) → c.State → Option c.State
  unfolding put_all put_entry
  serialize_map send_val m t =
      if ltb container_len_max (length m)
      then none
      else (c.put u32 (length m % u32_size) t >>= λ t'. put_all (put_entry send_val) m t')

  unfoldable pub serialize_vector :
      {A : Type 0} → (A → c.State → Option c.State) → List A → c.State → Option c.State
  unfolding put_all
  serialize_vector send_element v t =
      if ltb container_len_max (length v)
      then none
      else (c.put u32 (length v % u32_size) t >>= λ t'. put_all send_element v t')

  unfoldable pub serialize_position : Position → c.State → Option c.State
  serialize_position p t = c.put u16 p.x t >>= λ t'. c.put u16 p.y t'

  unfoldable pub serialize_player : Player → c.State → Option c.State
  unfolding serialize_string
  serialize_player p t = serialize_string p.name t >>= λ t'. serialize_string p.address t'

  unfoldable pub serialize_hello : Hello → c.State → Option c.State
  unfolding serialize_string
  serialize_hello h t = do
    t1 ← serialize_string h.server_name t
    t2 ← c.put u8 h.players_count t1
    t3 ← c.put u16 h.size_x t2
    t4 ← c.put u16 h.size_y t3
    t5 ← c.put u16 h.game_length t4
    t6 ← c.put u16 h.explosion_radius t5
    c.put u16 h.bomb_timer t6

  unfoldable pub serialize_accepted_player : AcceptedPlayer → c.State → Option c.State
  unfolding serialize_player
  serialize_accepted_player a t = c.put u8 a.id t >>= λ t'. serialize_player a.player t'

  -- `serialize` of `GameStarted` and of `GameEnded`.
  unfoldable pub serialize_players : List (ℕ × Player) → c.State → Option c.State
  unfolding serialize_map serialize_player
  serialize_players players t = serialize_map serialize_player players t

  unfoldable pub serialize_scores : List (ℕ × ℕ) → c.State → Option c.State
  unfolding serialize_map
  serialize_scores scores t = serialize_map (c.put u32) scores t

  -- The code of the event comes first.
  unfoldable pub serialize_event : Event → c.State → Option c.State
  unfolding serialize_position serialize_vector
  serialize_event (bomb_placed id p) t = do
    t1 ← c.put u8 0 t
    t2 ← c.put u32 id t1
    serialize_position p t2
  serialize_event (bomb_exploded id robots blocks) t = do
    t1 ← c.put u8 1 t
    t2 ← c.put u32 id t1
    t3 ← serialize_vector (c.put u8) robots t2
    serialize_vector serialize_position blocks t3
  serialize_event (player_moved id p) t = do
    t1 ← c.put u8 2 t
    t2 ← c.put u8 id t1
    serialize_position p t2
  serialize_event (block_placed p) t = c.put u8 3 t >>= λ t'. serialize_position p t'

  unfoldable pub serialize_turn : Turn → c.State → Option c.State
  unfolding serialize_vector serialize_event
  serialize_turn turn t =
      c.put u16 turn.turn t >>= λ t'. serialize_vector serialize_event turn.events t'

  unfoldable pub serialize_bomb : Bomb → c.State → Option c.State
  unfolding serialize_position
  serialize_bomb b t = serialize_position b.position t >>= λ t'. c.put u16 b.timer t'

  unfoldable pub serialize_lobby_message : LobbyMessage → c.State → Option c.State
  unfolding serialize_string serialize_map serialize_player
  serialize_lobby_message m t = do
    t1 ← serialize_string m.server_name t
    t2 ← c.put u8 m.players_count t1
    t3 ← c.put u16 m.size_x t2
    t4 ← c.put u16 m.size_y t3
    t5 ← c.put u16 m.game_length t4
    t6 ← c.put u16 m.explosion_radius t5
    t7 ← c.put u16 m.bomb_timer t6
    serialize_map serialize_player m.players t7

  unfoldable pub serialize_game_message : GameMessage → c.State → Option c.State
  unfolding serialize_string serialize_map serialize_vector serialize_player serialize_position
      serialize_bomb
  serialize_game_message m t = do
    t1 ← serialize_string m.server_name t
    t2 ← c.put u16 m.size_x t1
    t3 ← c.put u16 m.size_y t2
    t4 ← c.put u16 m.game_length t3
    t5 ← c.put u16 m.turn t4
    t6 ← serialize_map serialize_player m.players t5
    t7 ← serialize_map serialize_position m.player_positions t6
    t8 ← serialize_vector serialize_position m.blocks t7
    t9 ← serialize_vector serialize_bomb m.bombs t8
    t10 ← serialize_vector serialize_position m.explosions t9
    serialize_map (c.put u32) m.scores t10
