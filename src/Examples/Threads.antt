-- ===== src/Examples/Threads.antt =====
-- A client's thread of the server: its player joins, the game starts, and a move comes to its slot.
use computer_networks_projec.Base.{ℕ, Bool, refl, true, false, some, [], ◌∷◌}
use computer_networks_projec.Config.{Text}
use computer_networks_projec.Messages.{ClientMessage, join}
use computer_networks_projec.Container.Map
use computer_networks_projec.Concurrency.AcceptedPlayers.{add_new_player}
use computer_networks_projec.Concurrency.AcceptedPlayers
use computer_networks_projec.Concurrency.MoveContainer
use computer_networks_projec.Concurrency.TurnContainer
use computer_networks_projec.Server.Shared.{SharedState, put_at}
use computer_networks_projec.Server.Inbound.{
  Inbound, Task, reading, looking, handling, updating, Steps, done, followed_by, goes, get_recent,
  handle_message, ask_to_join, check_move, initial_thread, in_step_at,
}

abbrev fresh : SharedState
fresh = record {
  game_started = false;
  game_version = 1;
  accepted_players = λ v. AcceptedPlayers.create 2;
  move_container = λ v. MoveContainer.create 2;
  turn_container = λ v. TurnContainer.create;
}

abbrev address : Text
address = 49 ∷ []

abbrev thread : Task → ℕ → Bool → Inbound
thread task version joined = record {
  task = task;
  last_game_version = version;
  joined_the_game = joined;
  player_id = 0;
  current = version;
}

-- After `add_new_player`, and after the start of the game.
abbrev joined : SharedState
joined = record fresh {
  accepted_players =
      put_at 1
        (record {
          target_players_count = 2;
          accepted_players = (0, record { name = 65 ∷ []; address = address }) ∷ [];
        })
        (λ v. AcceptedPlayers.create 2);
}

abbrev started : SharedState
started = record joined { game_started = true }

-- The thread before it calls `update_slot`.
abbrev at_slot : Inbound
at_slot = thread (updating ClientMessage.place_bomb) 1 true

moves : Steps 2 started (thread reading 1 true) started at_slot
unfolding in_step_at get_recent handle_message ask_to_join check_move initial_thread add_new_player
    AcceptedPlayers.create Map.insert Map.find Map.place
moves =
    followed_by
      (goes {s' = started} {t' = thread (looking ClientMessage.place_bomb) 1 true} (some address)
        ClientMessage.place_bomb refl)
      (followed_by
        (goes {s' = started} {t' = thread (handling ClientMessage.place_bomb) 1 true} (some address)
          (join []) refl)
        (followed_by (goes {s' = started} {t' = at_slot} (some address) (join []) refl) done))
