-- ===== src/Messages/Read.antt =====
-- The constructors of src/network/messages.cpp that read a message from a TCP connection. `none` is
-- an exception.
use computer_networks_projec.Base.{
  ℕ, zero, suc, Option, none, some, ◌>>=◌, List, [], ◌∷◌, ◌++◌, ◌==◌, if◌then◌else◌,
}
use computer_networks_projec.Config.{Text}
use computer_networks_projec.Messages.{
  Position, Player, Hello, AcceptedPlayer, Event, bomb_placed, bomb_exploded, player_moved,
  block_placed, Turn,
}
use computer_networks_projec.Container.Map
use computer_networks_projec.Network.ByteOrder.{Platform, u8, u16, u32}
use computer_networks_projec.Network.Tcp.{Tcp, read_element}

abbrev pub Reader : Type 0 → Type 0
Reader A = Tcp → Option (A × Tcp)

-- The loops count down the elements that are left.
unfoldable pub read_elements : {A : Type 0} → Reader A → ℕ → List A → Reader (List A)
read_elements f zero v t = some (v, t)
read_elements f (suc left) v t = f t >>= λ r. read_elements f left (v ++ r.0 ∷ []) r.1

unfoldable pub read_entry : {V : Type 0} → Reader ℕ → Reader V → Reader (ℕ × V)
read_entry fk fv t = fk t >>= λ k. fv k.1 >>= λ v. some ((k.0, v.0), v.1)

unfoldable pub read_entries :
    {V : Type 0} → Reader ℕ → Reader V → ℕ → List (ℕ × V) → Reader (List (ℕ × V))
unfolding read_entry
read_entries fk fv zero m t = some (m, t)
read_entries fk fv (suc left) m t =
    read_entry fk fv t >>= λ e. read_entries fk fv left (Map.insert e.0.0 e.0.1 m) e.1

module _ (p : Platform) where
  unfoldable pub read_string : Reader Text
  unfolding read_elements
  read_string t = read_element p u8 t >>= λ len. read_elements (read_element p u8) len.0 [] len.1

  unfoldable pub read_vector : {A : Type 0} → Reader A → Reader (List A)
  unfolding read_elements
  read_vector f t = read_element p u32 t >>= λ len. read_elements f len.0 [] len.1

  -- All maps that are read have one-byte keys.
  unfoldable pub read_map : {V : Type 0} → Reader V → Reader (List (ℕ × V))
  unfolding read_entries
  read_map fv t = read_element p u32 t >>= λ len. read_entries (read_element p u8) fv len.0 [] len.1

  unfoldable pub read_position : Reader Position
  read_position t = do
    (x, t1) ← read_element p u16 t
    (y, t2) ← read_element p u16 t1
    some (record { x = x; y = y }, t2)

  unfoldable pub read_player : Reader Player
  unfolding read_string
  read_player t = do
    (name, t1) ← read_string t
    (address, t2) ← read_string t1
    some (record { name = name; address = address }, t2)

  unfoldable pub read_hello : Reader Hello
  unfolding read_string
  read_hello t = do
    (server_name, t1) ← read_string t
    (players_count, t2) ← read_element p u8 t1
    (size_x, t3) ← read_element p u16 t2
    (size_y, t4) ← read_element p u16 t3
    (game_length, t5) ← read_element p u16 t4
    (explosion_radius, t6) ← read_element p u16 t5
    (bomb_timer, t7) ← read_element p u16 t6
    some (
      record {
        server_name = server_name;
        players_count = players_count;
        size_x = size_x;
        size_y = size_y;
        game_length = game_length;
        explosion_radius = explosion_radius;
        bomb_timer = bomb_timer;
      },
      t7,
    )

  unfoldable pub read_accepted_player : Reader AcceptedPlayer
  unfolding read_player
  read_accepted_player t = do
    (id, t1) ← read_element p u8 t
    (player, t2) ← read_player t1
    some (record { id = id; player = player }, t2)

  unfoldable pub read_bomb_placed : Reader Event
  unfolding read_position
  read_bomb_placed t = do
    (id, t1) ← read_element p u32 t
    (position, t2) ← read_position t1
    some (bomb_placed id position, t2)

  unfoldable pub read_bomb_exploded : Reader Event
  unfolding read_vector read_position
  read_bomb_exploded t = do
    (id, t1) ← read_element p u32 t
    (robots, t2) ← read_vector (read_element p u8) t1
    (blocks, t3) ← read_vector read_position t2
    some (bomb_exploded id robots blocks, t3)

  unfoldable pub read_player_moved : Reader Event
  unfolding read_position
  read_player_moved t = do
    (id, t1) ← read_element p u8 t
    (position, t2) ← read_position t1
    some (player_moved id position, t2)

  unfoldable pub read_block_placed : Reader Event
  unfolding read_position
  read_block_placed t = read_position t >>= λ r. some (block_placed r.0, r.1)

  unfoldable pub read_event_body : ℕ → Reader Event
  unfolding read_bomb_placed read_bomb_exploded read_player_moved read_block_placed
  read_event_body code t =
      if code == 0
      then read_bomb_placed t
      else if code == 1
      then read_bomb_exploded t
      else if code == 2
      then read_player_moved t
      else if code == 3
      then read_block_placed t
      else none

  unfoldable pub read_event : Reader Event
  unfolding read_event_body
  read_event t = read_element p u8 t >>= λ code. read_event_body code.0 code.1

  unfoldable pub read_turn : Reader Turn
  unfolding read_vector read_event
  read_turn t = do
    (turn, t1) ← read_element p u16 t
    (events, t2) ← read_vector read_event t1
    some (record { turn = turn; events = events }, t2)
