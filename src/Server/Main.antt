-- ===== src/Server/Main.antt =====
-- The endless loop of `main` of src/server.cpp.
use computer_networks_projec.Base.{ℕ, zero, suc, true, none, some, List}
use computer_networks_projec.Concurrency.Blocking.{Blocking, returned, blocked, threw}
use computer_networks_projec.Concurrency.AcceptedPlayers.{return_when_target_players_joined}
use computer_networks_projec.Concurrency.TurnContainer.{append_new_turn, mark_the_game_as_finished}
use computer_networks_projec.Game.Server.{
  Options, Generator, GameServer, game_init, apply_moves, get_score_map,
}
use computer_networks_projec.Game.Server
use computer_networks_projec.Server.Shared.{SharedState, put_at, reset_shared}

-- Where the loop is, with the version whose pointers it copied and its variables: in the game, the
-- rounds that are left.
pub data Main (State : Type 0) : Type 0 where
  copying : Main State
  waiting : ℕ → Main State
  starting : ℕ → Main State
  playing : ℕ → ℕ → GameServer State → Main State
  resetting : ℕ → List (ℕ × ℕ) → Main State
  finishing : ℕ → List (ℕ × ℕ) → Main State

-- A step of the loop. The snapshot of the moves and the publication of the turn are one step: no
-- other thread reads the container of turns and then writes one of moves in between.
module _ (rng : Generator) (op : Options) where
  abbrev pub Stepping : Type 0
  Stepping = Blocking (SharedState × Main rng.State)

  -- Enough players: the game starts.
  unfoldable pub await_players : SharedState → ℕ → Stepping
  await_players s v = elim (return_when_target_players_joined (s.accepted_players v)) [
    | returned players ↦ returned (record s { game_started = true }, starting v)
    | blocked ↦ blocked
    | threw ↦ threw
  ]

  unfoldable pub set_up : SharedState → ℕ → Stepping
  set_up s v = elim (game_init rng (Server.create rng op)) [
    | none ↦ threw
    | some r ↦ returned (
      record s {
        turn_container = put_at v (append_new_turn r.1 (s.turn_container v)) s.turn_container;
      },
      playing v op.game_length r.0,
    )
  ]

  unfoldable pub carry_out_turn : SharedState → ℕ → ℕ → GameServer rng.State → Stepping
  carry_out_turn s v left game = elim (apply_moves rng game (s.move_container v)) [
    | none ↦ threw
    | some r ↦ returned (
      record s {
        move_container = put_at v r.1 s.move_container;
        turn_container = put_at v (append_new_turn r.2 (s.turn_container v)) s.turn_container;
      },
      playing v left r.0,
    )
  ]

  unfoldable pub main_step : SharedState → Main rng.State → Stepping
  unfolding await_players set_up carry_out_turn
  main_step s copying = returned (s, waiting s.game_version)
  main_step s (waiting v) = await_players s v
  main_step s (starting v) = set_up s v
  main_step s (playing v zero game) = returned (s, resetting v (get_score_map rng game))
  main_step s (playing v (suc left) game) = carry_out_turn s v left game
  main_step s (resetting v scores) = returned (reset_shared op.players_count s, finishing v scores)
  main_step s (finishing v scores) = returned (
    record s {
      turn_container =
          put_at v (mark_the_game_as_finished scores (s.turn_container v)) s.turn_container;
    },
    copying,
  )
