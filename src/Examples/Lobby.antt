-- ===== src/Examples/Lobby.antt =====
-- The containers that the server's threads share, and the report of an explosion.
use computer_networks_projec.Base.{
  ℕ, ◌<◌, ◌≤◌, ◌≡◌, ◌≢◌, refl, true, false, ◌||◌, ◌↔◌, none, some, List, [], ◌∷◌, ◌++◌, arith,
  length, get_elem?,
}
use computer_networks_projec.Messages.{Position, Player, bomb_exploded, ClientMessage, Turn}
use computer_networks_projec.Container.Map
use computer_networks_projec.Container.IdSet
use computer_networks_projec.Container.Laws.{IsDistinct}
use computer_networks_projec.Container.PositionSet
use computer_networks_projec.Concurrency.Blocking.{returned, blocked, threw}
use computer_networks_projec.Concurrency.AcceptedPlayers.{
  AcceptedPlayers, IsValid, IsFullLobby, add_new_player, add_new_player_lem, add_new_player_rejects,
  add_players, add_players_lem, return_when_target_players_joined,
  return_when_target_players_joined-IsFullLobby, get_accepted_player, get_accepted_player_lem,
}
use computer_networks_projec.Concurrency.MoveContainer.{
  receive, last_move, atomic_snapshot_and_clear, snapshot-receive,
}
use computer_networks_projec.Concurrency.TurnContainer.{
  TurnContainer, get_turn, append_new_turn, mark_the_game_as_finished, get_turn-append,
  get_turn_stable, get_turn-ne-threw,
}
use computer_networks_projec.Game.{Game}
use computer_networks_projec.Game.Server.{handle_exploding_bomb}
use computer_networks_projec.Game.Blast.Bombs.{Blasts}
use computer_networks_projec.Game.Blast.Report.{handle_exploding_bomb_lem}
use computer_networks_projec.Examples.Data.{
  alice, bob, lobby, lobby-IsFullLobby, at, board, session, moves,
}

-- One player has joined a game for two, or both.
abbrev waiting : AcceptedPlayers
waiting = record { accepted_players = (0, alice) ∷ []; target_players_count = 2 }

waiting-IsValid : IsValid waiting
unfolding Map.find
waiting-IsValid = record {
  small = omega arith;
  room = omega arith;
  numbered = record { joined = λ k lt e. ground arith; nobody_else = λ k lt. ground arith };
}

abbrev full : AcceptedPlayers
full = record { accepted_players = lobby; target_players_count = 2 }

full-IsValid : IsValid full
full-IsValid = record { small = omega arith; room = omega arith; numbered = lobby-IsFullLobby }

add_new_player_example :
    (c' : AcceptedPlayers) × (add_new_player bob waiting ≡ some (1, c'))
    × (length c'.accepted_players ≡ 2)
    × (Map.find 1 c'.accepted_players ≡ some bob)
    × ((k : ℕ) → k < 1 → Map.find k c'.accepted_players ≡ Map.find k waiting.accepted_players)
    × (c'.target_players_count ≡ 2)
    × IsValid c'
add_new_player_example = add_new_player_lem bob waiting waiting-IsValid (omega arith)

add_new_player_rejects_example : add_new_player bob full ≡ none
add_new_player_rejects_example = add_new_player_rejects bob full full-IsValid refl

add_players_example :
    (length (add_players (bob ∷ alice ∷ bob ∷ []) waiting).accepted_players ≡ 2)
    × ((add_players (bob ∷ alice ∷ bob ∷ []) waiting).target_players_count ≡ 2)
    × IsValid (add_players (bob ∷ alice ∷ bob ∷ []) waiting)
add_players_example = add_players_lem (bob ∷ alice ∷ bob ∷ []) waiting waiting-IsValid

full-returns : return_when_target_players_joined full ≡ returned lobby
unfolding return_when_target_players_joined
full-returns = refl

return_when_target_players_joined_example : IsFullLobby 2 lobby
return_when_target_players_joined_example =
    return_when_target_players_joined-IsFullLobby full lobby full-IsValid full-returns

get_accepted_player_example :
    (2 ≤ 1 → get_accepted_player 1 waiting ≡ threw)
    × (1 < 2 → 1 ≤ 1 → get_accepted_player 1 waiting ≡ blocked)
    × (1 < 1
        → (p : Player) × (Map.find 1 waiting.accepted_players ≡ some p)
          × (get_accepted_player 1 waiting ≡ returned (record { id = 1; player = p })))
get_accepted_player_example = get_accepted_player_lem 1 waiting waiting-IsValid

snapshot-receive_example :
    get_elem?
      (atomic_snapshot_and_clear (
        receive
          ((1, ClientMessage.place_bomb) ∷ (1, ClientMessage.place_block) ∷ [])
          (atomic_snapshot_and_clear moves).1)).0
      1
    ≡ some
        (elim (last_move 1 ((1, ClientMessage.place_bomb) ∷ (1, ClientMessage.place_block) ∷ [])) [
          | none ↦ (false, ClientMessage.place_bomb)
          | some n ↦ (true, n)
        ])
snapshot-receive_example =
    snapshot-receive 1 ClientMessage.place_bomb false moves
      ((1, ClientMessage.place_bomb) ∷ (1, ClientMessage.place_block) ∷ []) refl

abbrev first : Turn
first = record { turn = 0; events = [] }

abbrev second : Turn
second = record { turn = 1; events = [] }

abbrev published : TurnContainer
published = record { turns = first ∷ []; score_map = []; finished = false }

get_turn-append_example :
    (get_turn 1 published ≡ blocked)
    × (get_turn 1 (append_new_turn second published) ≡ returned second)
get_turn-append_example = get_turn-append second published

first-returned : get_turn 0 published ≡ returned first
unfolding get_turn
first-returned = refl

get_turn_stable_example :
    (get_turn 0 (append_new_turn second published) ≡ returned first)
    × (get_turn 0 (mark_the_game_as_finished ((0, 3) ∷ []) published) ≡ returned first)
get_turn_stable_example = get_turn_stable 0 first second ((0, 3) ∷ []) published first-returned

get_turn-ne-threw_example : get_turn 4 published ≢ threw
get_turn-ne-threw_example = get_turn-ne-threw 4 published

bomb_five : Map.find 5 board.bombs ≡ some (record { position = at 2 0; timer = 1 })
unfolding Map.find
bomb_five = refl

board-IsDistinct : IsDistinct board.player_positions
unfolding Map.find
board-IsDistinct = (refl, (refl, tt))

handle_exploding_bomb_example :
    (robots : List ℕ) × (gone : List Position) × (g : Game) × (handle_exploding_bomb 5 session []
      ≡ some (record session { game = g }, [] ++ bomb_exploded 5 robots gone ∷ []))
    × ((q : Position)
        → (PositionSet.contains q gone ≡ true)
          ↔ ((PositionSet.contains q board.blocks ≡ true) × Blasts board (at 2 0) q))
    × ((k : ℕ) (p : Position)
        → Map.find k board.player_positions ≡ some p
        → (IdSet.contains k robots ≡ true) ↔ Blasts board (at 2 0) p)
    × ((k : ℕ)
        → IdSet.contains k g.turn_robots_destroyed
          ≡ (IdSet.contains k robots || IdSet.contains k board.turn_robots_destroyed))
    × ((q : Position)
        → PositionSet.contains q g.turn_blocks_destroyed
          ≡ (PositionSet.contains q gone || PositionSet.contains q board.turn_blocks_destroyed))
    × (g.bombs ≡ board.bombs)
    × (g.blocks ≡ board.blocks)
    × (g.player_positions ≡ board.player_positions)
handle_exploding_bomb_example =
    handle_exploding_bomb_lem session 5 (record { position = at 2 0; timer = 1 }) (omega arith)
      (omega arith) (omega arith, omega arith) board-IsDistinct [] bomb_five
