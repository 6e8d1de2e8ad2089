-- ===== src/Examples/Server.antt =====
-- The whole server at a small game, under a schedule of its threads.
use computer_networks_projec.Base.{
  All, ◌>>=◌, ℕ, zero, suc, ◌≡◌, ◌≢◌, ◌⊎◌, refl, sym, ◌∙◌, ap, length, some, true, false, List, [],
  ◌∷◌, ◌++◌, arith,
}
use computer_networks_projec.Messages.{Player, Turn, AcceptedPlayer, ServerMessage, hello}
use computer_networks_projec.Messages.Gui.{lobby}
use computer_networks_projec.Concurrency.Blocking.{Blocking, returned, blocked, threw}
use computer_networks_projec.Concurrency.AcceptedPlayers.{after_call}
use computer_networks_projec.Concurrency.AcceptedPlayers
use computer_networks_projec.Concurrency.MoveContainer
use computer_networks_projec.Concurrency.TurnContainer
use computer_networks_projec.Client.{Screen, udp_screen, server_rounds, show_all}
use computer_networks_projec.Network.Udp.{Udp}
use computer_networks_projec.Examples.Host.{host}
use computer_networks_projec.Client.Sessions.{lobby_place, lobby_pictures, game_pictures}
use computer_networks_projec.Game.Client
use computer_networks_projec.Game.Lobby
use computer_networks_projec.Game.Lobby.{get_lobby_state}
use computer_networks_projec.Container.Map
use computer_networks_projec.Container.IdSet
use computer_networks_projec.Game.{update_scores, decrease_bomb_timers}
use computer_networks_projec.Game.Server.{Options, hello_of, game_init, apply_moves}
use computer_networks_projec.Game.Server
use computer_networks_projec.Server.Shared.{SharedState, put_at, reset_shared}
use computer_networks_projec.Server.Outbound.{
  greeting, fetching, out_step, turning, show_turn, and_send,
}
use computer_networks_projec.Server.Outbound.Counter.{
  Runs, begins, goes_on, IsTurning, Runs-IsTurning,
}
use computer_networks_projec.Server.Main.{copying, main_step}
use computer_networks_projec.Server.System.{
  System, kept, Reach, here, next, main_goes, out_goes, joins, IsStart,
}
use computer_networks_projec.Server.System.Invariant.{IsListed, IsWholeGame, ToldGame}
use computer_networks_projec.Server.System.Games.{
  main_step-ne-threw, out_step-ne-threw, fetching-ToldGame, server_rounds-sent,
}
use computer_networks_projec.Server.System.Drains.{Alone, Holds, Alone-ToldGame}
use computer_networks_projec.Examples.Data.{minstd_rand, options, options-IsPlayable, alice, bob}

abbrev empty_server : SharedState
empty_server = record {
  game_started = false;
  game_version = 1;
  accepted_players = λ v. AcceptedPlayers.create 2;
  move_container = λ v. MoveContainer.create 2;
  turn_container = λ v. TurnContainer.create;
}

abbrev AnyServer : Type 0
AnyServer = System minstd_rand.State

abbrev start : AnyServer
start = record { shared = empty_server; main = copying; out = greeting; sent = [] }

start-IsStart : IsStart minstd_rand options start
start-IsStart = record {
  lobbies = λ v. refl;
  slots = λ v. refl;
  turns = λ v. refl;
  main_copies = refl;
  out_greets = refl;
  nothing_sent = refl;
}

-- Which thread goes next: the main loop, the outgoing thread, or a thread of a player who joins.
data Turning : Type 0 where
  main_turn out_turn : Turning
  join_turn : Player → Turning

-- A thread that waits leaves everything as it is.
unfoldable after : {A : Type 0} → Blocking A → (A → AnyServer) → AnyServer → AnyServer
after (returned a) f x = f a
after blocked f x = x
after threw f x = x

after-Reach :
    {A : Type 0} (b : Blocking A) (f : A → AnyServer) (x : AnyServer)
    → ((a : A) → b ≡ returned a → Reach minstd_rand options start (f a))
    → Reach minstd_rand options start x
    → Reach minstd_rand options start (after b f x)
unfolding after
after-Reach (returned a) f x goes stays = goes a refl
after-Reach blocked f x goes stays = stays
after-Reach threw f x goes stays = stays

unfoldable go : Turning → AnyServer → AnyServer
unfolding after
go main_turn x =
    after (main_step minstd_rand options x.shared x.main)
      (λ r. record x { shared = r.0; main = r.1 }) x
go out_turn x =
    after (out_step options x.shared x.out)
      (λ r. record x { out = r.0; sent = kept x.out x.sent ++ r.1 }) x
go (join_turn p) x = record x {
  shared = record x.shared {
    accepted_players =
        put_at 1 (after_call p (x.shared.accepted_players 1)) x.shared.accepted_players;
  };
}

unfoldable play : List Turning → AnyServer
unfolding go
play [] = start
play (turn ∷ before) = go turn (play before)

go-Reach :
    (turn : Turning) (x : AnyServer)
    → Reach minstd_rand options start x
    → Reach minstd_rand options start (go turn x)
unfolding go
go-Reach main_turn x r =
    after-Reach (main_step minstd_rand options x.shared x.main)
      (λ q. record x { shared = q.0; main = q.1 }) x (λ q e. next r (main_goes e)) r
go-Reach out_turn x r =
    after-Reach (out_step options x.shared x.out)
      (λ q. record x { out = q.0; sent = kept x.out x.sent ++ q.1 }) x (λ q e. next r (out_goes e))
      r
go-Reach (join_turn p) x r = next r (joins 1 p)

play-Reach : (turns : List Turning) → Reach minstd_rand options start (play turns)
unfolding play
play-Reach [] = here
play-Reach (turn ∷ before) = go-Reach turn (play before) (play-Reach before)

times : ℕ → Turning → List Turning → List Turning
times zero turn before = before
times (suc n) turn before = turn ∷ times n turn before

-- Both players join while the thread greets and shows the first of them, and the game is played.
abbrev marked : List Turning
marked = times 8 main_turn (join_turn bob ∷ times 4 out_turn (join_turn alice ∷ []))

abbrev drained : List Turning
drained = times 8 out_turn marked

marked_finished : ((play marked).shared.turn_container 1).finished ≡ true
unfolding play go after main_step out_step times AcceptedPlayers.get_accepted_player after_call
    AcceptedPlayers.add_new_player AcceptedPlayers.create Map.insert Map.find
    AcceptedPlayers.return_when_target_players_joined game_init Server.create apply_moves
    decrease_bomb_timers Map.map_values IdSet.contains MoveContainer.atomic_snapshot_and_clear
    MoveContainer.create update_scores reset_shared TurnContainer.get_turn
    TurnContainer.mark_the_game_as_finished TurnContainer.append_new_turn TurnContainer.create
    TurnContainer.return_when_game_finished kept
marked_finished = refl

marked-Holds : Holds 1 (play marked).out
unfolding play go after main_step out_step times AcceptedPlayers.get_accepted_player after_call
    AcceptedPlayers.add_new_player AcceptedPlayers.create Map.insert Map.find
    AcceptedPlayers.return_when_target_players_joined game_init Server.create apply_moves
    decrease_bomb_timers Map.map_values IdSet.contains MoveContainer.atomic_snapshot_and_clear
    MoveContainer.create update_scores reset_shared TurnContainer.get_turn
    TurnContainer.mark_the_game_as_finished TurnContainer.append_new_turn TurnContainer.create
    TurnContainer.return_when_game_finished kept
marked-Holds = refl

drained_out : (play drained).out ≡ fetching
unfolding play go after main_step out_step times AcceptedPlayers.get_accepted_player after_call
    AcceptedPlayers.add_new_player AcceptedPlayers.create Map.insert Map.find
    AcceptedPlayers.return_when_target_players_joined game_init Server.create apply_moves
    decrease_bomb_timers Map.map_values IdSet.contains MoveContainer.atomic_snapshot_and_clear
    MoveContainer.create update_scores reset_shared TurnContainer.get_turn
    TurnContainer.mark_the_game_as_finished TurnContainer.append_new_turn TurnContainer.create
    TurnContainer.return_when_game_finished kept
drained_out = refl

drained_sent : length (play drained).sent ≡ 7
unfolding play go after main_step out_step times AcceptedPlayers.get_accepted_player after_call
    AcceptedPlayers.add_new_player AcceptedPlayers.create Map.insert Map.find
    AcceptedPlayers.return_when_target_players_joined game_init Server.create apply_moves
    decrease_bomb_timers Map.map_values IdSet.contains MoveContainer.atomic_snapshot_and_clear
    MoveContainer.create update_scores reset_shared TurnContainer.get_turn
    TurnContainer.mark_the_game_as_finished TurnContainer.append_new_turn TurnContainer.create
    TurnContainer.return_when_game_finished kept
drained_sent = refl

one_message : (m : ServerMessage) → length (m ∷ []) ≡ 1
one_message m = refl

drained_later : (play drained).sent ≢ hello (hello_of options) ∷ []
drained_later e =
    let counted =
      sym drained_sent
      ∙ (ap (λ (ms : List ServerMessage). length ms) e ∙ one_message (hello (hello_of options))) in
    omega (arith, counted)

main_step-ne-threw_example :
    main_step minstd_rand options (play marked).shared (play marked).main ≢ threw
main_step-ne-threw_example =
    main_step-ne-threw minstd_rand options 0 (omega arith) (omega arith) options-IsPlayable start
      (play marked) start-IsStart (play-Reach marked)

out_step-ne-threw_example : out_step options (play marked).shared (play marked).out ≢ threw
out_step-ne-threw_example =
    out_step-ne-threw minstd_rand options 0 (omega arith) (omega arith) options-IsPlayable start
      (play marked) start-IsStart (play-Reach marked)

fetching-ToldGame_example :
    ((play drained).sent ≡ hello (hello_of options) ∷ [])
    ⊎ ToldGame minstd_rand options 0 (play drained).sent
fetching-ToldGame_example =
    fetching-ToldGame minstd_rand options 0 (omega arith) (omega arith) options-IsPlayable start
      (play drained) start-IsStart (play-Reach drained) drained_out

abbrev screen : Screen
screen = udp_screen host (λ bytes. true)

abbrev blank : Udp
blank = record { packet = []; recv_pointer = 0; incoming = []; outcoming = []; packets = [] }

server_rounds-sent_example :
    (accepted : List AcceptedPlayer) × (players : List (ℕ × Player)) × (turns : List Turn)
    × (scores : List (ℕ × ℕ)) × IsListed 2 accepted
    × All (λ a. Map.find a.id players ≡ some a.player) accepted
    × IsWholeGame options 0 players turns scores
    × (server_rounds screen 0
          (play drained).sent
          (lobby_place screen 0 (hello_of options) (Lobby.create (hello_of options)) true blank)
        ≡ (show_all screen
              (lobby_pictures accepted (Lobby.create (hello_of options))
                ++ (game_pictures turns (Client.create 0 (hello_of options) players)
                    ++ lobby (get_lobby_state (Lobby.create (hello_of options))) ∷ []))
              blank
            >>= λ d'. some (
                lobby_place screen 0
                  (hello_of options)
                  (Lobby.create (hello_of options))
                  false
                  d')))
server_rounds-sent_example =
    server_rounds-sent minstd_rand options 0 (omega arith) (omega arith) options-IsPlayable start
      (play drained) start-IsStart (play-Reach drained) screen (Lobby.create (hello_of options))
      true blank drained_out drained_later

Alone-ToldGame_example :
    (told : List ServerMessage) × Alone options
      (play marked).shared
      (play marked).out
      (play marked).sent
      fetching
      told
    × ToldGame minstd_rand options 0 told
Alone-ToldGame_example =
    Alone-ToldGame minstd_rand options 0 1 start (play marked) (omega arith) (omega arith)
      options-IsPlayable start-IsStart (play-Reach marked) marked-Holds marked_finished

-- A game with as many turns as the options can ask for.
abbrev endless : Options
endless = record options { game_length = 65535 }

endless_run : Runs endless (turning 1 0) (turning 1 1)
unfolding play go after main_step out_step times AcceptedPlayers.get_accepted_player after_call
    AcceptedPlayers.add_new_player AcceptedPlayers.create Map.insert Map.find
    AcceptedPlayers.return_when_target_players_joined game_init Server.create apply_moves
    decrease_bomb_timers Map.map_values IdSet.contains MoveContainer.atomic_snapshot_and_clear
    MoveContainer.create update_scores reset_shared TurnContainer.get_turn
    TurnContainer.mark_the_game_as_finished TurnContainer.append_new_turn TurnContainer.create
    TurnContainer.return_when_game_finished show_turn and_send
endless_run = goes_on (play marked).shared begins refl

Runs-IsTurning_example : IsTurning 1 (turning 1 1)
Runs-IsTurning_example = Runs-IsTurning endless 1 (turning 1 1) (omega arith) endless_run
