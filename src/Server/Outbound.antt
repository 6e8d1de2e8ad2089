-- ===== src/Server/Outbound.antt =====
-- `handle_tcp_stream_out` of src/server.cpp: what a client is told, game after game.
pub mod Counter
use computer_networks_projec.Base.{ℕ, ◌+◌, ◌%◌, Bool, List, [], ◌∷◌, ltb, if◌then◌else◌}
use computer_networks_projec.Config.{u16_size, u8_size}
use computer_networks_projec.Messages.{
  ServerMessage, hello, accepted_player, game_started, game_ended,
}
use computer_networks_projec.Concurrency.Blocking.{Blocking, returned, blocked, threw}
use computer_networks_projec.Concurrency.AcceptedPlayers.{
  get_accepted_player, return_when_target_players_joined,
}
use computer_networks_projec.Concurrency.TurnContainer.{get_turn, return_when_game_finished}
use computer_networks_projec.Game.Server.{Options, hello_of}
use computer_networks_projec.Server.Shared.{SharedState}

-- Where the thread is in its code, with the version whose pointers it copied and its counter.
pub data Outbound : Type 0 where
  greeting : Outbound
  fetching : Outbound
  checking : ℕ → Outbound
  accepting : ℕ → ℕ → Outbound
  awaiting : ℕ → Outbound
  turning : ℕ → ℕ → Outbound
  ending : ℕ → Outbound

-- A step of the thread: its place after the step, and what it sends.
abbrev pub Sending : Type 0
Sending = Blocking (Outbound × List ServerMessage)

-- `send_client_message` of what a call returned.
unfoldable pub and_send : {A : Type 0} → Outbound → (A → ServerMessage) → Blocking A → Sending
and_send o message (returned a) = returned (o, message a ∷ [])
and_send o message blocked = blocked
and_send o message threw = threw

module _ (op : Options) where
  -- The loop over the accepted players.
  unfoldable pub show_player : SharedState → ℕ → ℕ → Sending
  unfolding and_send
  show_player s v i =
      if ltb i op.players_count
      then and_send (accepting v ((i + 1) % u8_size)) accepted_player
          (get_accepted_player i (s.accepted_players v))
      else returned (awaiting v, [])

  -- The loop over the turns. The bound is an `int`, the counter has 16 bits.
  unfoldable pub show_turn : SharedState → ℕ → ℕ → Sending
  unfolding and_send
  show_turn s v i =
      if ltb i (op.game_length + 1)
      then and_send (turning v ((i + 1) % u16_size)) ServerMessage.turn
          (get_turn i (s.turn_container v))
      else returned (ending v, [])

  unfoldable pub out_step : SharedState → Outbound → Sending
  unfolding show_player show_turn and_send
  out_step s greeting = returned (fetching, hello (hello_of op) ∷ [])
  out_step s fetching = returned (checking s.game_version, [])
  out_step s (checking v) = returned (if s.game_started then awaiting v else accepting v 0, [])
  out_step s (accepting v i) = show_player s v i
  out_step s (awaiting v) =
      and_send (turning v 0) game_started (return_when_target_players_joined (s.accepted_players v))
  out_step s (turning v i) = show_turn s v i
  out_step s (ending v) =
      and_send fetching game_ended (return_when_game_finished (s.turn_container v))
