-- ===== src/Game/Client.antt =====
-- src/game_logic/game.cpp, class `GameClient`: the client's copy of the game, kept up to date by
-- the server's turns.
use computer_networks_projec.Base.{ℕ, none, some, List, [], ◌∷◌, map}
use computer_networks_projec.Messages.{
  Position, Player, Hello, Event, bomb_placed, bomb_exploded, player_moved, block_placed, Turn,
  GameMessage,
}
use computer_networks_projec.Container.Map
use computer_networks_projec.Container.IdSet
use computer_networks_projec.Container.PositionSet
use computer_networks_projec.Game.{Game, find_explosions, decrease_bomb_timers, update_scores}

-- `Position p{}`
abbrev pub origin : Position
origin = record { x = 0; y = 0 }

-- The loop of the constructor over `players`.
unfoldable pub initial_positions : List (ℕ × Player) → List (ℕ × Position) → List (ℕ × Position)
initial_positions [] m = m
initial_positions ((id, player) ∷ players) m = initial_positions players (Map.insert id origin m)

unfoldable pub initial_scores : List (ℕ × Player) → List (ℕ × ℕ) → List (ℕ × ℕ)
initial_scores [] m = m
initial_scores ((id, player) ∷ players) m = initial_scores players (Map.insert id 0 m)

-- `GameClient(hello, start)`. The code leaves `turn` indeterminate until the first turn: `turn` is
-- an argument here.
unfoldable pub create : ℕ → Hello → List (ℕ × Player) → Game
unfolding initial_positions initial_scores
create turn h players = record {
  server_name = h.server_name;
  size_x = h.size_x;
  size_y = h.size_y;
  game_length = h.game_length;
  bomb_timer = h.bomb_timer;
  explosion_radius = h.explosion_radius;
  players = players;
  turn = turn;
  player_positions = initial_positions players [];
  blocks = [];
  bombs = [];
  scores = initial_scores players [];
  turn_robots_destroyed = [];
  turn_blocks_destroyed = [];
  explosions = [];
}

-- The exploding bomb marks its fields and is erased; an unknown bomb does nothing.
unfoldable pub explode_known : ℕ → Game → Game
explode_known id g = elim (Map.find id g.bombs) [
  | none ↦ g
  | some bomb ↦ record (find_explosions bomb g) { bombs = Map.erase id g.bombs }
]

-- `apply_event`, by the alternative of the event.
unfoldable pub apply_event : Event → Game → Game
unfolding explode_known
apply_event (bomb_placed id p) g = record g {
  bombs = Map.emplace id (record { position = p; timer = g.bomb_timer }) g.bombs;
}
apply_event (bomb_exploded id robots blocks) g =
    let g' = explode_known id g in
    record g' {
      turn_robots_destroyed = IdSet.insert_all robots g'.turn_robots_destroyed;
      turn_blocks_destroyed = PositionSet.insert_all blocks g'.turn_blocks_destroyed;
    }
apply_event (player_moved id p) g = record g {
  player_positions = Map.assign id p g.player_positions;
}
apply_event (block_placed p) g = record g { blocks = PositionSet.insert p g.blocks }

unfoldable pub apply_events : List Event → Game → Game
unfolding apply_event
apply_events [] g = g
apply_events (e ∷ es) g = apply_events es (apply_event e g)

-- What `apply_turn` does before it looks at the events.
unfoldable pub begin_turn : ℕ → Game → Game
begin_turn turn g = record (decrease_bomb_timers (record g { turn = turn })) {
  explosions = [];
  turn_blocks_destroyed = [];
  turn_robots_destroyed = [];
}

-- And what it does after them.
unfoldable pub end_turn : Game → Game
end_turn g =
    update_scores (record g { blocks = PositionSet.erase_all g.turn_blocks_destroyed g.blocks })

unfoldable pub apply_turn : Turn → Game → Game
unfolding begin_turn apply_events end_turn
apply_turn t g = end_turn (apply_events t.events (begin_turn t.turn g))

unfoldable pub get_game_state : Game → GameMessage
get_game_state g = record {
  server_name = g.server_name;
  size_x = g.size_x;
  size_y = g.size_y;
  game_length = g.game_length;
  turn = g.turn;
  players = g.players;
  player_positions = g.player_positions;
  blocks = g.blocks;
  bombs = map (λ b. b.1) g.bombs;
  explosions = g.explosions;
  scores = g.scores;
}
