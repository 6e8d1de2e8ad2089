-- ===== src/Examples/Play.antt =====
-- A turn, a game and explosions on the board of the data module.
use computer_networks_projec.Base.{
  ℕ, ◌≡◌, refl, true, false, ◌↔◌, ◌⊎◌, [], ◌∷◌, arith, length, Returns, Post, if◌then◌else◌, ◌==◌,
}
use computer_networks_projec.Base.Int.{pos, ◌+ℤ◌}
use computer_networks_projec.Messages.{ClientMessage, direction_down, same}
use computer_networks_projec.Container.Map
use computer_networks_projec.Container.IdSet
use computer_networks_projec.Container.PositionSet
use computer_networks_projec.Concurrency.MoveContainer
use computer_networks_projec.Concurrency.TurnContainer
use computer_networks_projec.Concurrency.Blocking.{returned}
use computer_networks_projec.Game.{
  Game, update_scores, find_explosions, explode_one_direction, cell,
}
use computer_networks_projec.Game.Client.{apply_turn}
use computer_networks_projec.Game.Client
use computer_networks_projec.Game.Server.{
  game_init, apply_moves, hello_of, step_of, is_position_legal, handle_exploding_bomb,
}
use computer_networks_projec.Game.Server
use computer_networks_projec.Game.Scores.{find-update_scores, bump}
use computer_networks_projec.Game.WellFormed.{IsWellFormed, OnBoard, legal_step}
use computer_networks_projec.Game.Progress.Turns.{apply_moves-Keeps}
use computer_networks_projec.Game.Progress.Start.{game_init-IsWellFormed}
use computer_networks_projec.Game.Agreement.Events.{Agrees}
use computer_networks_projec.Game.Agreement.Turns.{InStep, apply_moves-Follows}
use computer_networks_projec.Game.Agreement.Opening.{game_init-Follows}
use computer_networks_projec.Game.Blast.Ray.{right, Hits, dx, dy}
use computer_networks_projec.Game.Blast.Cross.{explode_one_direction-Hits}
use computer_networks_projec.Game.Blast.Bombs.{Blasts, find_explosions-Blasts}
use computer_networks_projec.Server.Match.{Updates, play_match, play_match-InStep}
use computer_networks_projec.Server.Rounds.{apply_turns}
use computer_networks_projec.Examples.Data.{
  minstd_rand, options, options-IsPlayable, lobby, lobby-IsFullLobby, at, board, board-IsWellFormed,
  session, moves,
}

abbrev updates : ℕ → Updates
updates i =
    if i == 0
    then (0, ClientMessage.place_bomb) ∷ (0, ClientMessage.place_block) ∷ []
    else (1, ClientMessage.place_bomb) ∷ []

play_match-InStep_example :
    Returns
      (λ r.
        let client = apply_turns r.2.turns (Client.create 0 (hello_of options) lobby) in
        (length r.2.turns ≡ 3)
        × InStep r.0.game client
        × ((k : ℕ) → Map.find k r.1 ≡ Map.find k client.scores)
        × (TurnContainer.return_when_game_finished r.2 ≡ returned r.1))
      (play_match minstd_rand options updates (MoveContainer.create 2) TurnContainer.create)
play_match-InStep_example =
    play_match-InStep minstd_rand options updates 0 lobby options-IsPlayable lobby-IsFullLobby

-- A client who agrees with the server, with everything in another order than the server has it.
abbrev client : Game
client = record board {
  player_positions = (1, at 2 1) ∷ (0, at 0 0) ∷ [];
  explosions = at 1 1 ∷ [];
}

client-Agrees : Agrees board client
unfolding Map.find
client-Agrees = record {
  size_x = refl;
  size_y = refl;
  bomb_timer = refl;
  explosion_radius = refl;
  positions = λ k. ground arith;
  blocks = λ p. refl;
  bombs = λ k. refl;
  scores = λ k. refl;
  robots_destroyed = refl;
  blocks_destroyed = λ p. refl;
}

apply_moves-Follows_example :
    Post (λ r. InStep r.0.game (apply_turn r.2 client)) (apply_moves minstd_rand session moves)
apply_moves-Follows_example = apply_moves-Follows minstd_rand session moves client client-Agrees

apply_moves-Keeps_example :
    Returns
      (λ r. IsWellFormed 2 r.0.game × (length r.1 ≡ 2))
      (apply_moves minstd_rand session moves)
apply_moves-Keeps_example =
    apply_moves-Keeps minstd_rand 2 session moves board-IsWellFormed (omega arith)

game_init-Follows_example :
    Post
      (λ r. InStep r.0.game (apply_turn r.1 (Client.create 0 (hello_of options) lobby)))
      (game_init minstd_rand (Server.create minstd_rand options))
game_init-Follows_example = game_init-Follows minstd_rand options 0 lobby lobby-IsFullLobby

game_init-IsWellFormed_example :
    Returns
      (λ r. IsWellFormed 2 r.0.game)
      (game_init minstd_rand (Server.create minstd_rand options))
game_init-IsWellFormed_example = game_init-IsWellFormed minstd_rand options options-IsPlayable

find-update_scores_example : Map.find 1 (update_scores board).scores ≡ (
    if IdSet.contains 1 board.turn_robots_destroyed
    then Map.map_option bump (Map.find 1 board.scores)
    else Map.find 1 board.scores)
find-update_scores_example = find-update_scores 1 board tt

down_is_legal :
    is_position_legal board (at 2 1) (step_of direction_down).0 (step_of direction_down).1 ≡ true
unfolding is_position_legal step_of cell ◌+ℤ◌ PositionSet.contains same
down_is_legal = refl

legal_step_example :
    let target = cell (pos 2 +ℤ (step_of direction_down).0) (pos 1 +ℤ (step_of direction_down).1) in
    OnBoard board target × (PositionSet.contains target board.blocks ≡ false)
legal_step_example =
    legal_step board (at 2 1) direction_down (omega arith) (omega arith) (omega arith, omega arith)
      down_is_legal

find_explosions-Blasts_example :
    (PositionSet.contains
        (at 2 1)
        (find_explosions (record { position = at 2 0; timer = 1 }) board).explosions
      ≡ true)
    ↔ ((PositionSet.contains (at 2 1) board.explosions ≡ true) ⊎ Blasts board (at 2 0) (at 2 1))
find_explosions-Blasts_example =
    find_explosions-Blasts board (record { position = at 2 0; timer = 1 }) (at 2 1) (omega arith)
      (omega arith) (omega arith, omega arith)

explode_one_direction-Hits_example :
    (PositionSet.contains
        (at 1 0)
        (explode_one_direction (at 0 0) (dx right) (dy right) board).explosions
      ≡ true)
    ↔ ((PositionSet.contains (at 1 0) board.explosions ≡ true) ⊎ Hits board right (at 0 0) (at 1 0))
explode_one_direction-Hits_example =
    explode_one_direction-Hits board right (omega arith) (omega arith) (at 0 0) (at 1 0)
      (omega arith, omega arith)
