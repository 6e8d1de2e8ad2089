-- ===== src/Messages.antt =====
-- The messages of src/network/messages.h. A `std::variant` is a data type whose constructors take
-- the fields of the alternatives; a `std::map` is the list of its entries by ascending key.
pub mod Write
pub mod Carries
pub mod Gui
pub mod Manager
pub mod Packets
pub mod RoundTrip
pub mod Containers
pub mod Read
use computer_networks_projec.Base.{ℕ, Bool, List, ◌&&◌, ◌==◌}
use computer_networks_projec.Config.{Text}

-- The values of the enumeration; a byte read from a client may be none of them.
abbrev pub direction_up : ℕ
direction_up = 0

abbrev pub direction_right : ℕ
direction_right = 1

abbrev pub direction_down : ℕ
direction_down = 2

pub record Position : Type 0 where
  pub x : ℕ
  pub y : ℕ

-- `Position::operator==`
unfoldable pub same : Position → Position → Bool
same p q = p.x == q.x && p.y == q.y

pub record Player : Type 0 where
  pub name : Text
  pub address : Text

pub record Bomb : Type 0 where
  pub position : Position
  pub timer : ℕ

pub record Hello : Type 0 where
  pub server_name : Text
  pub players_count : ℕ
  pub size_x : ℕ
  pub size_y : ℕ
  pub game_length : ℕ
  pub explosion_radius : ℕ
  pub bomb_timer : ℕ

pub record AcceptedPlayer : Type 0 where
  pub id : ℕ
  pub player : Player

pub data Event : Type 0 where
  bomb_placed : ℕ → Position → Event
  bomb_exploded : ℕ → List ℕ → List Position → Event
  player_moved : ℕ → Position → Event
  block_placed : Position → Event

pub record Turn : Type 0 where
  pub turn : ℕ
  pub events : List Event

pub record LobbyMessage : Type 0 where
  pub server_name : Text
  pub players_count : ℕ
  pub size_x : ℕ
  pub size_y : ℕ
  pub game_length : ℕ
  pub explosion_radius : ℕ
  pub bomb_timer : ℕ
  pub players : List (ℕ × Player)

pub record GameMessage : Type 0 where
  pub server_name : Text
  pub size_x : ℕ
  pub size_y : ℕ
  pub game_length : ℕ
  pub turn : ℕ
  pub players : List (ℕ × Player)
  pub player_positions : List (ℕ × Position)
  pub blocks : List Position
  pub bombs : List Bomb
  pub explosions : List Position
  pub scores : List (ℕ × ℕ)

-- From client to server.
pub data ClientMessage : Type 0 where
  join : Text → ClientMessage
  place_bomb place_block : ClientMessage
  move : ℕ → ClientMessage

-- From server to client.
pub data ServerMessage : Type 0 where
  hello : Hello → ServerMessage
  accepted_player : AcceptedPlayer → ServerMessage
  game_started : List (ℕ × Player) → ServerMessage
  turn : Turn → ServerMessage
  game_ended : List (ℕ × ℕ) → ServerMessage

-- From GUI to client.
pub data InputMessage : Type 0 where
  place_bomb place_block : InputMessage
  move : ℕ → InputMessage
  invalid_message : InputMessage
