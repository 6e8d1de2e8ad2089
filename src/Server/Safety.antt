-- ===== src/Server/Safety.antt =====
-- The thread of `handle_tcp_stream_in` is never ended by its own moves.
pub mod Kept
use computer_networks_projec.Base.{
  ◌+◌, true, ◌&&◌, arith, Option-cases, Bool-cases, inl, inr, ltb, ltb→lt, Post, Post-some, Option,
  ◌==◌, length-set, set,
}
use computer_networks_projec.Messages.{Player}
use computer_networks_projec.Concurrency.AcceptedPlayers.{
  AcceptedPlayers, IsValid, add_new_player, add_new_player_lem, add_new_player_rejects,
  after_call_lem,
}
use computer_networks_projec.Concurrency.AcceptedPlayers
use computer_networks_projec.Concurrency.MoveContainer.{Slots, update_slot}
use computer_networks_projec.Concurrency.MoveContainer
use computer_networks_projec.Server.Shared.{put_at, reset_shared}
use computer_networks_projec.Server.Inbound.{
  Task, reading, looking, handling, updating, Inbound, get_recent, ask_to_join, check_move,
  make_move, handle_message, in_step_at,
}
