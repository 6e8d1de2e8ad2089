-- ===== src/Messages/Manager.antt =====
-- src/network/message_manager.cpp: messages with their codes. `none` is an exception.
use computer_networks_projec.Base.{ℕ, Option, none, some, ◌>>=◌, ◌==◌, if◌then◌else◌}
use computer_networks_projec.Messages.{
  ClientMessage, join, ServerMessage, hello, accepted_player, game_started, game_ended,
}
use computer_networks_projec.Messages.Write.{
  serialize_string, serialize_hello, serialize_accepted_player, serialize_players, serialize_turn,
  serialize_scores,
}
use computer_networks_projec.Messages.Read.{
  Reader, read_string, read_hello, read_accepted_player, read_map, read_player, read_turn,
}
use computer_networks_projec.Network.ByteOrder.{Platform, u8, u32}
use computer_networks_projec.Network.Channel.{Channel}
use computer_networks_projec.Network.Tcp.{read_element}

module _ (c : Channel) where
  -- `ServerMessageManager::send_client_message`
  unfoldable pub send_client_message : ServerMessage → c.State → Option c.State
  send_client_message (hello h) t = c.put u8 0 t >>= λ t'. serialize_hello c h t'
  send_client_message (accepted_player a) t =
      c.put u8 1 t >>= λ t'. serialize_accepted_player c a t'
  send_client_message (game_started players) t =
      c.put u8 2 t >>= λ t'. serialize_players c players t'
  send_client_message (ServerMessage.turn turn) t = c.put u8 3 t >>= λ t'. serialize_turn c turn t'
  send_client_message (game_ended scores) t = c.put u8 4 t >>= λ t'. serialize_scores c scores t'

  -- `ClientMessageManager::send_server_message`
  unfoldable pub send_server_message : ClientMessage → c.State → Option c.State
  send_server_message (join name) t = c.put u8 0 t >>= λ t'. serialize_string c name t'
  send_server_message ClientMessage.place_bomb t = c.put u8 1 t
  send_server_message ClientMessage.place_block t = c.put u8 2 t
  send_server_message (ClientMessage.move direction) t =
      c.put u8 3 t >>= λ t'. c.put u8 direction t'

module _ (p : Platform) where
  -- The switch of `read_server_message`.
  unfoldable pub read_server_body : ℕ → Reader ServerMessage
  read_server_body code t =
      if code == 0
      then (read_hello p t >>= λ r. some (hello r.0, r.1))
      else if code == 1
      then (read_accepted_player p t >>= λ r. some (accepted_player r.0, r.1))
      else if code == 2
      then (read_map p (read_player p) t >>= λ r. some (game_started r.0, r.1))
      else if code == 3
      then (read_turn p t >>= λ r. some (ServerMessage.turn r.0, r.1))
      else if code == 4
      then (read_map p (read_element p u32) t >>= λ r. some (game_ended r.0, r.1))
      else none

  unfoldable pub read_server_message : Reader ServerMessage
  unfolding read_server_body
  read_server_message t = read_element p u8 t >>= λ code. read_server_body code.0 code.1

  -- The switch of `read_client_message`; a direction is any byte.
  unfoldable pub read_client_body : ℕ → Reader ClientMessage
  read_client_body code t =
      if code == 0
      then (read_string p t >>= λ r. some (join r.0, r.1))
      else if code == 1
      then some (ClientMessage.place_bomb, t)
      else if code == 2
      then some (ClientMessage.place_block, t)
      else if code == 3
      then (read_element p u8 t >>= λ r. some (ClientMessage.move r.0, r.1))
      else none

  unfoldable pub read_client_message : Reader ClientMessage
  unfolding read_client_body
  read_client_message t = read_element p u8 t >>= λ code. read_client_body code.0 code.1
