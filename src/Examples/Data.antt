-- ===== src/Examples/Data.antt =====
-- A generator, options, players and a running game.
use computer_networks_projec.Base.{ℕ, ◌*◌, ◌%◌, ◌<◌, ◌≡◌, refl, List, [], ◌∷◌, arith, true, false}
use computer_networks_projec.Messages.{Position, Player, same, ClientMessage, direction_right}
use computer_networks_projec.Container.Map
use computer_networks_projec.Container.PositionSet
use computer_networks_projec.Concurrency.AcceptedPlayers.{IsFullLobby}
use computer_networks_projec.Concurrency.MoveContainer.{Slots}
use computer_networks_projec.Game.{Game}
use computer_networks_projec.Game.Server.{Options, Generator, GameServer}
use computer_networks_projec.Game.WellFormed.{IsWellFormed}
use computer_networks_projec.Game.Progress.Start.{IsPlayable}

-- The recurrence of `std::minstd_rand`.
abbrev pub minstd_rand : Generator
minstd_rand = record {
  State = ℕ;
  seeded = λ seed. seed;
  next = λ state. (state * 48271 % 2147483647, state * 48271 % 2147483647);
}

abbrev pub options : Options
options = record {
  bomb_timer = 1;
  players_count = 2;
  turn_duration = 100;
  explosion_radius = 2;
  initial_blocks = 1;
  game_length = 2;
  server_name = 83 ∷ [];
  port = 4000;
  seed = 7;
  size_x = 3;
  size_y = 3;
}

pub options-IsPlayable : IsPlayable options
options-IsPlayable = ground arith

abbrev pub alice : Player
alice = record { name = 65 ∷ []; address = 49 ∷ [] }

abbrev pub bob : Player
bob = record { name = 66 ∷ []; address = 50 ∷ [] }

abbrev pub lobby : List (ℕ × Player)
lobby = (0, alice) ∷ (1, bob) ∷ []

pub lobby-IsFullLobby : IsFullLobby 2 lobby
unfolding Map.find
lobby-IsFullLobby = record { joined = λ k lt e. ground arith; nobody_else = λ k lt. ground arith }

abbrev pub at : ℕ → ℕ → Position
at x y = record { x = x; y = y }

-- The second player is beside a bomb that explodes in the next turn; a block shields the first.
abbrev pub board : Game
board = record {
  server_name = 83 ∷ [];
  size_x = 3;
  size_y = 3;
  game_length = 2;
  bomb_timer = 1;
  explosion_radius = 2;
  players = [];
  turn = 1;
  player_positions = (0, at 0 0) ∷ (1, at 2 1) ∷ [];
  blocks = at 1 0 ∷ [];
  bombs = (5, record { position = at 2 0; timer = 1 }) ∷ [];
  scores = (0, 4) ∷ (1, 0) ∷ [];
  turn_robots_destroyed = 1 ∷ [];
  turn_blocks_destroyed = [];
  explosions = [];
}

on_block : (p : Position) → PositionSet.contains p board.blocks ≡ true → (p.x < 3) × (p.y < 3)
unfolding PositionSet.contains same
on_block p e = ground arith

pub board-IsWellFormed : IsWellFormed 2 board
unfolding Map.find PositionSet.contains
board-IsWellFormed = record {
  wide = omega arith;
  tall = omega arith;
  width = omega arith;
  height = omega arith;
  scored = refl;
  placed = λ k lt e. ground arith;
  players_on_board = λ k p e. ground arith;
  blocks_on_board = λ p e. on_block p e;
  bombs_on_board = λ k b e. ground arith;
  distinct = (refl, tt);
}

abbrev pub session : GameServer ℕ
session = record {
  game = board;
  random = 7;
  turn_duration = 100;
  initial_blocks = 1;
  bomb_counter = 6;
}

-- The first player has asked for a step to the right, into the block.
abbrev pub moves : Slots
moves = (true, ClientMessage.move direction_right) ∷ (false, ClientMessage.place_bomb) ∷ []
