-- ===== src/Messages/RoundTrip.antt =====
-- Every message arrives as it was sent, over any channel.
use computer_networks_projec.Base.{
  ℕ, ◌≤◌, ◌≡◌, refl, Option, some, ◌>>=◌, List, arith, length, All, map, subst,
}
use computer_networks_projec.Config.{IsU8, IsU16, IsU32, IsText, container_len_max}
use computer_networks_projec.Messages.{
  Position, Player, Hello, Event, bomb_placed, bomb_exploded, player_moved, block_placed, Turn,
  ClientMessage, join, ServerMessage, hello, accepted_player, game_started, game_ended,
}
use computer_networks_projec.Messages.Write.{
  serialize_position, serialize_player, serialize_hello, serialize_accepted_player,
  serialize_players, serialize_scores, serialize_event, serialize_turn, serialize_map,
  serialize_vector,
}
use computer_networks_projec.Messages.Read.{
  read_position, read_player, read_hello, read_accepted_player, read_event, read_event_body,
  read_bomb_placed, read_bomb_exploded, read_player_moved, read_block_placed, read_turn, read_map,
  read_vector, Reader,
}
use computer_networks_projec.Messages.Manager.{
  send_client_message, send_server_message, read_server_message, read_server_body,
  read_client_message, read_client_body,
}
use computer_networks_projec.Messages.Carries.{Carries, Carries-put, Carries-bind, Carries-map}
use computer_networks_projec.Messages.Containers.{
  clip, IsSorted, map_id, string-Carries, vector-Carries, map-Carries,
}
use computer_networks_projec.Network.ByteOrder.{Platform, IsPlatform, u8, u16, u32}
use computer_networks_projec.Network.Channel.{Channel, IsChannel}
use computer_networks_projec.Network.Tcp.{Tcp, read_element}

abbrev pub IsPosition : Position → Type 0
IsPosition p = IsU16 p.x × IsU16 p.y

abbrev pub IsPlayer : Player → Type 0
IsPlayer p = IsText p.name × IsText p.address

abbrev pub clip_player : Player → Player
clip_player p = record { name = clip p.name; address = clip p.address }

-- A map whose size, keys and values have the types that the code gives them.
abbrev pub IsMap : {V : Type 0} → (V → Type 0) → List (ℕ × V) → Type 0
IsMap P m = (length m ≤ container_len_max) × All (λ e. IsU8 e.0 × P e.1) m × IsSorted m

abbrev pub IsVector : {A : Type 0} → (A → Type 0) → List A → Type 0
IsVector P v = (length v ≤ container_len_max) × All P v

abbrev pub IsEvent : Event → Type 0
IsEvent (bomb_placed id p) = IsU32 id × IsPosition p
IsEvent (bomb_exploded id robots blocks) =
    IsU32 id × IsVector IsU8 robots × IsVector IsPosition blocks
IsEvent (player_moved id p) = IsU8 id × IsPosition p
IsEvent (block_placed p) = IsPosition p

abbrev pub IsHello : Hello → Type 0
IsHello h =
    IsText h.server_name
    × IsU8 h.players_count
    × IsU16 h.size_x
    × IsU16 h.size_y
    × IsU16 h.game_length
    × IsU16 h.explosion_radius
    × IsU16 h.bomb_timer

abbrev pub IsTurn : Turn → Type 0
IsTurn t = IsU16 t.turn × IsVector IsEvent t.events

abbrev pub IsServerMessage : ServerMessage → Type 0
IsServerMessage (hello h) = IsHello h
IsServerMessage (accepted_player a) = IsU8 a.id × IsPlayer a.player
IsServerMessage (game_started players) = IsMap IsPlayer players
IsServerMessage (ServerMessage.turn t) = IsTurn t
IsServerMessage (game_ended scores) = IsMap IsU32 scores

abbrev pub IsClientMessage : ClientMessage → Type 0
IsClientMessage (join name) = IsText name
IsClientMessage ClientMessage.place_bomb = Unit {0}
IsClientMessage ClientMessage.place_block = Unit {0}
IsClientMessage (ClientMessage.move direction) = IsU8 direction

-- What arrives of a message: strings are cut.
abbrev pub arrived : ServerMessage → ServerMessage
arrived (hello h) = hello (record h { server_name = clip h.server_name })
arrived (accepted_player a) = accepted_player (record a { player = clip_player a.player })
arrived (game_started players) = game_started (map (λ e. (e.0, clip_player e.1)) players)
arrived (ServerMessage.turn t) = ServerMessage.turn t
arrived (game_ended scores) = game_ended scores

abbrev pub received_as : ClientMessage → ClientMessage
received_as (join name) = join (clip name)
received_as ClientMessage.place_bomb = ClientMessage.place_bomb
received_as ClientMessage.place_block = ClientMessage.place_block
received_as (ClientMessage.move direction) = ClientMessage.move direction

module _ {c : Channel} (l : IsChannel c) (p : Platform) (laws : IsPlatform p) where
  position-Carries :
      (q : Position) → IsPosition q → Carries l (serialize_position c q) (read_position p) q
  unfolding serialize_position read_position
  position-Carries q h =
      Carries-bind l (c.put u16 q.x) (c.put u16 q.y) (read_element p u16)
        (λ x t. read_element p u16 t >>= λ r. some (record { x = x; y = r.0 }, r.1))
        (Carries-put l p laws u16 q.x h.0)
        (Carries-map l (λ y. record { x = q.x; y = y }) _ _ (Carries-put l p laws u16 q.y h.1))

  player-Carries :
      (q : Player) → IsPlayer q → Carries l (serialize_player c q) (read_player p) (clip_player q)
  unfolding serialize_player read_player
  player-Carries q h = Carries-bind l _ _ _ _ (string-Carries l p laws q.name h.0) (
      Carries-map l (λ a. record { name = clip q.name; address = a }) _ _
        (string-Carries l p laws q.address h.1))

  -- A vector whose elements arrive unchanged.
  plain_vector-Carries :
      {A : Type 0} (P : A → Type 0) (f : A → c.State → Option c.State) (g : Reader A)
      → ((a : A) → P a → Carries l (f a) g a)
      → (v : List A) → IsVector P v
      → Carries l (serialize_vector c f v) (read_vector p g) v
  plain_vector-Carries P f g k v h =
      subst (λ u. Carries l (serialize_vector c f v) (read_vector p g) u) (map_id v)
        (vector-Carries l p laws P (λ a. a) f g k v h.0 h.1)

  hello-Carries :
      (h : Hello)
      → IsHello h
      → Carries l
          (serialize_hello c h)
          (read_hello p)
          (record h { server_name = clip h.server_name })
  unfolding serialize_hello read_hello
  hello-Carries h f = Carries-bind l _ _ _ _ (string-Carries l p laws h.server_name f.0) (
      Carries-bind l _ _ _ _ (Carries-put l p laws u8 h.players_count f.1) (
        Carries-bind l _ _ _ _ (Carries-put l p laws u16 h.size_x f.2) (
          Carries-bind l _ _ _ _ (Carries-put l p laws u16 h.size_y f.3) (
            Carries-bind l _ _ _ _ (Carries-put l p laws u16 h.game_length f.4) (
              Carries-bind l _ _ _ _ (Carries-put l p laws u16 h.explosion_radius f.5) (
                Carries-map l
                  (λ timer. record h { server_name = clip h.server_name; bomb_timer = timer }) _ _
                  (Carries-put l p laws u16 h.bomb_timer f.6)))))))

  event-Carries : (e : Event) → IsEvent e → Carries l (serialize_event c e) (read_event p) e
  unfolding serialize_event read_event read_event_body read_bomb_placed read_bomb_exploded
      read_player_moved read_block_placed
  event-Carries (bomb_placed id q) h =
      Carries-bind l _ _ _ (read_event_body p) (Carries-put l p laws u8 0 (omega arith)) (
        Carries-bind l _ _ _ _ (Carries-put l p laws u32 id h.0)
          (Carries-map l (λ r. bomb_placed id r) _ _ (position-Carries q h.1)))
  event-Carries (bomb_exploded id robots blocks) h =
      Carries-bind l _ _ _ (read_event_body p) (Carries-put l p laws u8 1 (omega arith)) (
        Carries-bind l _ _ _ _ (Carries-put l p laws u32 id h.0) (
          Carries-bind l _ _ _ _
            (plain_vector-Carries IsU8 (c.put u8) (read_element p u8)
              (λ b f. Carries-put l p laws u8 b f) robots h.1)
            (Carries-map l (λ r. bomb_exploded id robots r) _ _
              (plain_vector-Carries IsPosition (serialize_position c) (read_position p)
                position-Carries blocks h.2))))
  event-Carries (player_moved id q) h =
      Carries-bind l _ _ _ (read_event_body p) (Carries-put l p laws u8 2 (omega arith)) (
        Carries-bind l _ _ _ _ (Carries-put l p laws u8 id h.0)
          (Carries-map l (λ r. player_moved id r) _ _ (position-Carries q h.1)))
  event-Carries (block_placed q) h =
      Carries-bind l _ _ _ (read_event_body p) (Carries-put l p laws u8 3 (omega arith))
        (Carries-map l (λ r. block_placed r) _ _ (position-Carries q h))

  turn-Carries : (t : Turn) → IsTurn t → Carries l (serialize_turn c t) (read_turn p) t
  unfolding serialize_turn read_turn
  turn-Carries t h = Carries-bind l _ _ _ _ (Carries-put l p laws u16 t.turn h.0) (
      Carries-map l (λ es. record { turn = t.turn; events = es }) _ _
        (plain_vector-Carries IsEvent (serialize_event c) (read_event p) event-Carries t.events
          h.1))

  -- For a message of the server whose fields have their types, a channel with room for it, and a
  -- host that keeps the laws of its byte order: the message is written without an exception, and a
  -- client who reads the bytes from TCP gets it, every string cut to its first 255 bytes, and
  -- leaves what follows it in the stream.
  pub send_client_message-Carries :
      (m : ServerMessage)
      → IsServerMessage m
      → Carries l (send_client_message c m) (read_server_message p) (arrived m)
  unfolding send_client_message read_server_message read_server_body serialize_accepted_player
      read_accepted_player serialize_players serialize_scores
  send_client_message-Carries (hello h) f =
      Carries-bind l _ _ _ (read_server_body p) (Carries-put l p laws u8 0 (omega arith))
        (Carries-map l hello _ _ (hello-Carries h f))
  send_client_message-Carries (accepted_player a) f =
      Carries-bind l _ _ _ (read_server_body p) (Carries-put l p laws u8 1 (omega arith)) (
        Carries-map l accepted_player _ _ (
          Carries-bind l _ _ _ _ (Carries-put l p laws u8 a.id f.0) (
            Carries-map l (λ q. record { id = a.id; player = q }) _ _
              (player-Carries a.player f.1))))
  send_client_message-Carries (game_started players) f =
      Carries-bind l _ _ _ (read_server_body p) (Carries-put l p laws u8 2 (omega arith)) (
        Carries-map l game_started _ _ (
          map-Carries l p laws IsPlayer clip_player (serialize_player c) (read_player p)
            player-Carries players f.0 f.1 f.2))
  send_client_message-Carries (ServerMessage.turn t) f =
      Carries-bind l _ _ _ (read_server_body p) (Carries-put l p laws u8 3 (omega arith))
        (Carries-map l ServerMessage.turn _ _ (turn-Carries t f))
  send_client_message-Carries (game_ended scores) f =
      Carries-bind l _ _ _ (read_server_body p) (Carries-put l p laws u8 4 (omega arith)) (
        Carries-map l game_ended _ _ (
          subst
            (λ u.
              Carries l (serialize_map c (c.put u32) scores) (read_map p (read_element p u32)) u)
            (map_id scores)
            (map-Carries l p laws IsU32 (λ b. b) (c.put u32) (read_element p u32)
              (λ b h. Carries-put l p laws u32 b h) scores f.0 f.1 f.2)))

  -- A message that is its code and nothing else.
  code_alone :
      (code : ℕ) (m : ClientMessage)
      → IsU8 code
      → ((t : Tcp) → read_client_body p code t ≡ some (m, t))
      → Carries l (c.put u8 code) (read_client_message p) m
  unfolding read_client_message
  code_alone code m h e =
      let (bytes, w, r) = Carries-put l p laws u8 code h in
      (bytes, w, λ rest t a. let (t', e', left) = r rest t a in (t', rw e' (e t'), left))

  -- For a message of a client whose fields have their types, a channel with room for it, and a host
  -- that keeps the laws of its byte order: the message is written without an exception, and a
  -- server that reads the bytes from TCP gets it, a name cut to its first 255 bytes, and leaves
  -- what follows it in the stream.
  pub send_server_message-Carries :
      (m : ClientMessage)
      → IsClientMessage m
      → Carries l (send_server_message c m) (read_client_message p) (received_as m)
  unfolding send_server_message read_client_message read_client_body
  send_server_message-Carries (join name) f =
      Carries-bind l _ _ _ (read_client_body p) (Carries-put l p laws u8 0 (omega arith))
        (Carries-map l join _ _ (string-Carries l p laws name f))
  send_server_message-Carries ClientMessage.place_bomb f =
      code_alone 1 ClientMessage.place_bomb (omega arith) (λ t. refl)
  send_server_message-Carries ClientMessage.place_block f =
      code_alone 2 ClientMessage.place_block (omega arith) (λ t. refl)
  send_server_message-Carries (ClientMessage.move direction) f =
      Carries-bind l _ _ _ (read_client_body p) (Carries-put l p laws u8 3 (omega arith))
        (Carries-map l ClientMessage.move _ _ (Carries-put l p laws u8 direction f))
