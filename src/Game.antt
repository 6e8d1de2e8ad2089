-- ===== src/Game.antt =====
-- src/game_logic: the state of a game and what server and client do to it alike (class `Game`).
pub mod Client
pub mod Lobby
pub mod Server
pub mod Scores
pub mod WellFormed
pub mod Progress
pub mod Blast
pub mod Agreement
use computer_networks_projec.Base.{
  ℕ, zero, suc, ◌+◌, ◌%◌, ◌-◌, Bool, true, false, ◌&&◌, Option, none, some, List, [], ◌∷◌, ltb, leb,
  if◌then◌else◌,
}
use computer_networks_projec.Base.Int.{ℤ, pos, negsuc, ◌+ℤ◌, leb_ℤ, ltb_ℤ, pos_part}
use computer_networks_projec.Config.{Text, u16_size, u32_size}
use computer_networks_projec.Messages.{Position, Player, Bomb}
use computer_networks_projec.Container.Map
use computer_networks_projec.Container.PositionSet

-- The data members of class `Game`.
pub record Game : Type 0 where
  pub server_name : Text
  pub size_x : ℕ
  pub size_y : ℕ
  pub game_length : ℕ
  pub bomb_timer : ℕ
  pub explosion_radius : ℕ
  pub players : List (ℕ × Player)
  pub turn : ℕ
  pub player_positions : List (ℕ × Position)
  pub blocks : List Position
  pub bombs : List (ℕ × Bomb)
  pub scores : List (ℕ × ℕ)
  pub turn_robots_destroyed : List ℕ
  pub turn_blocks_destroyed : List Position
  pub explosions : List Position

-- Both coordinates are on the board.
unfoldable pub in_range : Game → ℤ → ℤ → Bool
in_range g x y =
    leb_ℤ (pos 0) x && ltb_ℤ x (pos g.size_x) && leb_ℤ (pos 0) y && ltb_ℤ y (pos g.size_y)

-- The conversion to `types::size_xy_t`: a negative number wraps around.
abbrev pub to_u16 : ℤ → ℕ
to_u16 (pos n) = n % u16_size
to_u16 (negsuc n) = u16_size - 1 - n % u16_size

-- `(types::size_xy_t) curr_x`, `(types::size_xy_t) curr_y`.
unfoldable pub cell : ℤ → ℤ → Position
cell x y = record { x = to_u16 x; y = to_u16 y }

-- The loop of `explode_one_direction`, on fuel; the result is `explosions` after it.
unfoldable pub explode_loop : Game → ℕ → ℤ → ℤ → ℤ → ℤ → ℕ → List Position → List Position
unfolding in_range cell
explode_loop g zero dx dy x y radius explosions = explosions
explode_loop g (suc fuel) dx dy x y radius explosions =
    let explosions' = PositionSet.insert (cell x y) explosions in
    let further =
      explode_loop g fuel dx dy (x +ℤ dx) (y +ℤ dy) ((radius + 1) % u16_size) explosions' in
    let here = if PositionSet.contains (cell x y) g.blocks then explosions' else further in
    if in_range g x y && leb radius g.explosion_radius then here else explosions

-- Every step comes nearer to an edge of the board: from a field of it, the longer side's number of
-- steps leads off it.
unfoldable pub board_fuel : Game → ℕ
board_fuel g = if ltb g.size_x g.size_y then g.size_y else g.size_x

unfoldable pub explode_one_direction : Position → ℤ → ℤ → Game → Game
unfolding explode_loop board_fuel
explode_one_direction p dx dy g = record g {
  explosions = explode_loop g (board_fuel g) dx dy (pos p.x) (pos p.y) 0 g.explosions;
}

abbrev pub minus_one : ℤ
minus_one = negsuc 0

unfoldable pub find_explosions : Bomb → Game → Game
unfolding explode_one_direction
find_explosions bomb g = explode_one_direction bomb.position minus_one (pos 0) (
    explode_one_direction bomb.position (pos 0) minus_one (
      explode_one_direction bomb.position (pos 1) (pos 0)
        (explode_one_direction bomb.position (pos 0) (pos 1) g)))

-- `(types::bomb_timer_t) (bomb.timer - 1)`
unfoldable pub tick : Bomb → Bomb
tick bomb = record bomb { timer = (bomb.timer + u16_size - 1) % u16_size }

unfoldable pub decrease_bomb_timers : Game → Game
unfolding tick
decrease_bomb_timers g = record g { bombs = Map.map_values tick g.bombs }

-- `if (it != scores.end()) it->second += 1`
unfoldable pub add_point : ℕ → List (ℕ × ℕ) → List (ℕ × ℕ)
add_point id scores = elim (Map.find id scores) [
  | none ↦ scores
  | some score ↦ Map.assign id ((score + 1) % u32_size) scores
]

unfoldable pub add_points : List ℕ → List (ℕ × ℕ) → List (ℕ × ℕ)
unfolding add_point
add_points [] scores = scores
add_points (id ∷ ids) scores = add_points ids (add_point id scores)

unfoldable pub update_scores : Game → Game
unfolding add_points
update_scores g = record g { scores = add_points g.turn_robots_destroyed g.scores }
