-- ===== src/Game/Lobby.antt =====
-- src/game_logic/lobby.cpp: the client's view of the lobby.
use computer_networks_projec.Base.{ℕ, List, []}
use computer_networks_projec.Messages.{Hello, Player, AcceptedPlayer, LobbyMessage}
use computer_networks_projec.Config.{Text}
use computer_networks_projec.Container.Map

pub record LobbyClient : Type 0 where
  pub server_name : Text
  pub players_count : ℕ
  pub size_x : ℕ
  pub size_y : ℕ
  pub game_length : ℕ
  pub explosion_radius : ℕ
  pub bomb_timer : ℕ
  pub players : List (ℕ × Player)

unfoldable pub create : Hello → LobbyClient
create h = record {
  server_name = h.server_name;
  players_count = h.players_count;
  size_x = h.size_x;
  size_y = h.size_y;
  game_length = h.game_length;
  explosion_radius = h.explosion_radius;
  bomb_timer = h.bomb_timer;
  players = [];
}

unfoldable pub accept : AcceptedPlayer → LobbyClient → LobbyClient
accept a l = record l { players = Map.insert a.id a.player l.players }

unfoldable pub get_lobby_state : LobbyClient → LobbyMessage
get_lobby_state l = record {
  server_name = l.server_name;
  players_count = l.players_count;
  size_x = l.size_x;
  size_y = l.size_y;
  game_length = l.game_length;
  explosion_radius = l.explosion_radius;
  bomb_timer = l.bomb_timer;
  players = l.players;
}
