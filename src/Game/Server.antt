-- ===== src/Game/Server.antt =====
-- src/game_logic/game.cpp, class `GameServer`. An exception that leaves a method, and a remainder
-- by zero, is `none`.
use computer_networks_projec.Base.{
  ℕ, zero, suc, ◌+◌, ◌%◌, Bool, false, not, ◌&&◌, ◌||◌, Option, none, some, ◌>>=◌, List, [], ◌∷◌,
  ◌++◌, ◌==◌, if◌then◌else◌, length, get_elem?,
}
use computer_networks_projec.Base.Int.{ℤ, pos, ◌+ℤ◌, leb_ℤ, ltb_ℤ}
use computer_networks_projec.Config.{Text, u16_size, u32_size}
use computer_networks_projec.Messages.{
  Position, Bomb, Hello, Event, bomb_placed, bomb_exploded, player_moved, block_placed, Turn,
  ClientMessage, join, direction_up, direction_right, direction_down,
}
use computer_networks_projec.Container.Map
use computer_networks_projec.Container.IdSet
use computer_networks_projec.Container.PositionSet
use computer_networks_projec.Concurrency.MoveContainer.{Slots, atomic_snapshot_and_clear}
use computer_networks_projec.Game.{
  Game, find_explosions, decrease_bomb_timers, update_scores, minus_one, cell,
}

-- `options_server` of src/config/parser.h.
pub record Options : Type 0 where
  pub bomb_timer : ℕ
  pub players_count : ℕ
  pub turn_duration : ℕ
  pub explosion_radius : ℕ
  pub initial_blocks : ℕ
  pub game_length : ℕ
  pub server_name : Text
  pub port : ℕ
  pub seed : ℕ
  pub size_x : ℕ
  pub size_y : ℕ

-- `Hello(options)`
unfoldable pub hello_of : Options → Hello
hello_of op = record {
  server_name = op.server_name;
  players_count = op.players_count;
  size_x = op.size_x;
  size_y = op.size_y;
  game_length = op.game_length;
  explosion_radius = op.explosion_radius;
  bomb_timer = op.bomb_timer;
}

-- `std::minstd_rand`, of which the code uses the constructor and the call operator.
pub record Generator : Type 1 where
  pub State : Type 0
  pub seeded : ℕ → State
  pub next : State → ℕ × State

-- The members of `GameServer` behind those of `Game`.
pub record GameServer (State : Type 0) : Type 0 where
  pub game : Game
  pub open game use *
  pub random : State
  pub turn_duration : ℕ
  pub initial_blocks : ℕ
  pub bomb_counter : ℕ

-- The loop of the constructor over the players.
unfoldable pub zero_scores : ℕ → ℕ → List (ℕ × ℕ) → List (ℕ × ℕ)
zero_scores zero i scores = scores
zero_scores (suc left) i scores = zero_scores left (suc i) (Map.insert i 0 scores)

-- The step of a move: `dx`, `dy`. Any other byte is a step to the left.
unfoldable pub step_of : ℕ → ℤ × ℤ
step_of direction =
    if direction == direction_up
    then (pos 0, pos 1)
    else if direction == direction_right
    then (pos 1, pos 0)
    else if direction == direction_down
    then (pos 0, minus_one)
    else (minus_one, pos 0)

unfoldable pub is_position_legal : Game → Position → ℤ → ℤ → Bool
is_position_legal g p dx dy =
    if p.x == 0 && ltb_ℤ dx (pos 0) || leb_ℤ (pos g.size_x) (pos p.x +ℤ dx)
    then false
    else if p.y == 0 && ltb_ℤ dy (pos 0) || leb_ℤ (pos g.size_y) (pos p.y +ℤ dy)
    then false
    else not (PositionSet.contains (cell (pos p.x +ℤ dx) (pos p.y +ℤ dy)) g.blocks)

-- The elements of `explosions` that are blocks, in the order of the loop.
unfoldable pub hit_blocks : List Position → List Position → List Position
hit_blocks blocks [] = []
hit_blocks blocks (p ∷ ps) =
    if PositionSet.contains p blocks then p ∷ hit_blocks blocks ps else hit_blocks blocks ps

-- The players who stand on an exploded field.
unfoldable pub hit_players : List Position → List (ℕ × Position) → List ℕ
hit_players explosions [] = []
hit_players explosions ((id, p) ∷ players) =
    if PositionSet.contains p explosions
    then id ∷ hit_players explosions players
    else hit_players explosions players

-- `a % b` on unsigned numbers.
unfoldable pub remainder : ℕ → ℕ → Option ℕ
remainder a b = if b == 0 then none else some (a % b)

module _ {State : Type 0} where
  -- `handle_exploding_bomb`; `none` where `bombs.at` throws.
  unfoldable pub handle_exploding_bomb :
      ℕ → GameServer State → List Event → Option (GameServer State × List Event)
  unfolding hit_blocks hit_players
  handle_exploding_bomb id s events = do
    bomb ← Map.find id s.bombs
    let g = find_explosions bomb (record s.game { explosions = [] })
    let blocks = hit_blocks g.blocks g.explosions
    let robots = hit_players g.explosions g.player_positions
    let g' = record g {
      turn_blocks_destroyed = PositionSet.insert_all blocks g.turn_blocks_destroyed;
      turn_robots_destroyed = IdSet.insert_all robots g.turn_robots_destroyed;
    }
    some (record s { game = g' }, events ++ bomb_exploded id robots blocks ∷ [])

  unfoldable pub erase_bomb : ℕ → GameServer State → GameServer State
  erase_bomb id s = record s { game = record s.game { bombs = Map.erase id s.game.bombs } }

  -- One round of the loop over the bombs: `it` is at the bomb `id`.
  unfoldable pub visit_bomb :
      ℕ → Bomb → GameServer State → List Event → Option (GameServer State × List Event)
  unfolding handle_exploding_bomb erase_bomb
  visit_bomb id bomb s events =
      if bomb.timer == 0
      then (handle_exploding_bomb id s events >>= λ r. some (erase_bomb id r.0, r.1))
      else some (s, events)

  -- The loop, over the entries that it still has to meet. It erases only the entry that it is at.
  unfoldable pub explode_bombs :
      List (ℕ × Bomb) → GameServer State → List Event → Option (GameServer State × List Event)
  unfolding visit_bomb
  explode_bombs [] s events = some (s, events)
  explode_bombs ((id, bomb) ∷ bombs) s events =
      visit_bomb id bomb s events >>= λ r. explode_bombs bombs r.0 r.1

  -- `apply_player_move` for `PlaceBomb`.
  unfoldable pub drop_bomb :
      ℕ → GameServer State → List Event → Option (GameServer State × List Event)
  drop_bomb id s events = do
    p ← Map.find id s.player_positions
    let bomb : Bomb = record { position = p; timer = s.bomb_timer }
    let g = record s.game { bombs = Map.emplace s.bomb_counter bomb s.game.bombs }
    some (
      record s { game = g; bomb_counter = (s.bomb_counter + 1) % u32_size },
      events ++ bomb_placed s.bomb_counter p ∷ [],
    )

  -- `apply_player_move` for `PlaceBlock`.
  unfoldable pub drop_block :
      ℕ → GameServer State → List Event → Option (GameServer State × List Event)
  drop_block id s events = do
    p ← Map.find id s.player_positions
    if PositionSet.contains p s.blocks
        then some (s, events)
        else some (
          record s { game = record s.game { blocks = PositionSet.insert p s.game.blocks } },
          events ++ block_placed p ∷ [],
        )

  -- `apply_player_move` for `Move`.
  unfoldable pub walk :
      ℕ → ℕ → GameServer State → List Event → Option (GameServer State × List Event)
  unfolding step_of is_position_legal
  walk direction id s events = do
    p ← Map.find id s.player_positions
    let d = step_of direction
    let p' = cell (pos p.x +ℤ d.0) (pos p.y +ℤ d.1)
    if is_position_legal s.game p d.0 d.1
        then some (
          record s {
            game = record s.game { player_positions = Map.assign id p' s.game.player_positions };
          },
          events ++ player_moved id p' ∷ [],
        )
        else some (s, events)

  -- `apply_player_move`, by the alternative of the move.
  unfoldable pub apply_player_move :
      ClientMessage → ℕ → GameServer State → List Event → Option (GameServer State × List Event)
  unfolding drop_bomb drop_block walk
  apply_player_move (join name) id s events = some (s, events)
  apply_player_move ClientMessage.place_bomb id s events = drop_bomb id s events
  apply_player_move ClientMessage.place_block id s events = drop_block id s events
  apply_player_move (ClientMessage.move direction) id s events = walk direction id s events

  unfoldable pub update_blocks : GameServer State → GameServer State
  update_blocks s = record s {
    game = record s.game {
      blocks = PositionSet.erase_all s.game.turn_blocks_destroyed s.game.blocks;
    };
  }

module _ (rng : Generator) where
  -- Two calls of `random`, the first for `x`.
  unfoldable pub random_position : ℕ → ℕ → rng.State → Option (Position × rng.State)
  unfolding remainder
  random_position size_x size_y state = do
    let (r, state') = rng.next state
    let (r', state'') = rng.next state'
    x ← remainder r size_x
    y ← remainder r' size_y
    some (record { x = x % u16_size; y = y % u16_size }, state'')

  unfoldable pub create : Options → GameServer rng.State
  unfolding zero_scores
  create op = record {
    game = record {
      server_name = op.server_name;
      size_x = op.size_x;
      size_y = op.size_y;
      game_length = op.game_length;
      bomb_timer = op.bomb_timer;
      explosion_radius = op.explosion_radius;
      players = [];
      turn = 0;
      player_positions = [];
      blocks = [];
      bombs = [];
      scores = zero_scores op.players_count 0 [];
      turn_robots_destroyed = [];
      turn_blocks_destroyed = [];
      explosions = [];
    };
    random = rng.seeded op.seed;
    turn_duration = op.turn_duration;
    initial_blocks = op.initial_blocks;
    bomb_counter = 0;
  }

  -- One round of the first loop of `game_init`.
  unfoldable pub spawn :
      ℕ → GameServer rng.State → List Event → Option (GameServer rng.State × List Event)
  unfolding random_position
  spawn id s events = do
    (p, state) ← random_position s.size_x s.size_y s.random
    let g = record s.game { player_positions = Map.insert id p s.game.player_positions }
    some (record s { game = g; random = state }, events ++ player_moved id p ∷ [])

  -- The rounds left, and the next identifier; there are at most 255 players, so it does not wrap.
  unfoldable pub spawn_all :
      ℕ → ℕ → GameServer rng.State → List Event → Option (GameServer rng.State × List Event)
  unfolding spawn
  spawn_all zero id s events = some (s, events)
  spawn_all (suc left) id s events = spawn id s events >>= λ r. spawn_all left (suc id) r.0 r.1

  -- One round of the second loop.
  unfoldable pub put_block :
      GameServer rng.State → List Event → Option (GameServer rng.State × List Event)
  unfolding random_position
  put_block s events = do
    (p, state) ← random_position s.size_x s.size_y s.random
    let g = record s.game { blocks = PositionSet.insert p s.game.blocks }
    some (record s { game = g; random = state }, events ++ block_placed p ∷ [])

  unfoldable pub put_blocks :
      ℕ → GameServer rng.State → List Event → Option (GameServer rng.State × List Event)
  unfolding put_block
  put_blocks zero s events = some (s, events)
  put_blocks (suc left) s events = put_block s events >>= λ r. put_blocks left r.0 r.1

  unfoldable pub game_init : GameServer rng.State → Option (GameServer rng.State × Turn)
  unfolding spawn_all put_blocks
  game_init s = do
    (s1, events) ← spawn_all (length s.scores) 0 s []
    (s2, events') ← put_blocks s1.initial_blocks s1 events
    some (s2, record { turn = 0; events = events' })

  -- A destroyed player comes back at a random position.
  unfoldable pub respawn :
      ℕ → GameServer rng.State → List Event → Option (GameServer rng.State × List Event)
  unfolding random_position
  respawn id s events = do
    (p, state) ← random_position s.size_x s.size_y s.random
    old ← Map.find id s.player_positions
    let g = record s.game { player_positions = Map.assign id p s.game.player_positions }
    some (record s { game = g; random = state }, events ++ player_moved id p ∷ [])

  -- A player who was not destroyed makes the move in the slot, if it is new.
  unfoldable pub play :
      Slots → ℕ → GameServer rng.State → List Event → Option (GameServer rng.State × List Event)
  unfolding apply_player_move
  play moves id s events = get_elem? moves id >>= λ slot.
      if slot.0 then apply_player_move slot.1 id s events else some (s, events)

  -- One round of the loop over the players.
  unfoldable pub serve_player :
      Slots → ℕ → GameServer rng.State → List Event → Option (GameServer rng.State × List Event)
  unfolding respawn play
  serve_player moves id s events =
      if IdSet.contains id s.turn_robots_destroyed
      then respawn id s events
      else play moves id s events

  unfoldable pub serve_players :
      ℕ → ℕ → Slots → GameServer rng.State → List Event → Option (GameServer rng.State × List Event)
  unfolding serve_player
  serve_players zero id moves s events = some (s, events)
  serve_players (suc left) id moves s events =
      serve_player moves id s events >>= λ r. serve_players left (suc id) moves r.0 r.1

  -- The sets of the turn are cleared and the timers run down, before any bomb is looked at.
  unfoldable pub begin_turn : GameServer rng.State → GameServer rng.State
  begin_turn s = record s {
    game =
        decrease_bomb_timers
          (record s.game { turn_blocks_destroyed = []; turn_robots_destroyed = [] });
  }

  -- Blocks and scores after all moves, and the number of the turn.
  unfoldable pub end_turn : GameServer rng.State → GameServer rng.State
  unfolding update_blocks
  end_turn s =
      let s' = update_blocks s in
      let g = update_scores s'.game in
      record s' { game = record g { turn = (g.turn + 1) % u16_size } }

  -- The game and the container of moves after the turn, and the message.
  unfoldable pub apply_moves :
      GameServer rng.State → Slots → Option (GameServer rng.State × Slots × Turn)
  unfolding begin_turn explode_bombs serve_players end_turn
  apply_moves s slots = do
    let (moves, slots') = atomic_snapshot_and_clear slots
    let s1 = begin_turn s
    (s2, events) ← explode_bombs s1.bombs s1 []
    (s3, events') ← serve_players (length s2.scores) 0 moves s2 events
    let s4 = end_turn s3
    some (s4, slots', record { turn = s4.turn; events = events' })

  unfoldable pub get_score_map : GameServer rng.State → List (ℕ × ℕ)
  get_score_map s = s.scores
