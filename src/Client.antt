-- ===== src/Client.antt =====
-- src/client.cpp: the two threads of a client. A step of a thread is one read or write of an atomic
-- variable, one receiving of a message or one sending.
pub mod Sessions
pub mod Joins
use computer_networks_projec.Base.{
  ℕ, zero, suc, Bool, true, false, Option, none, some, ◌>>=◌, List, [], ◌∷◌, if◌then◌else◌,
}
use computer_networks_projec.Config.{Text}
use computer_networks_projec.Messages.{
  Hello, InputMessage, invalid_message, ClientMessage, ServerMessage, accepted_player, game_started,
  game_ended, hello, join,
}
use computer_networks_projec.Messages.Gui.{DrawMessage, lobby, game, send_gui_message}
use computer_networks_projec.Network.ByteOrder.{Platform}
use computer_networks_projec.Network.Udp.{Udp}
use computer_networks_projec.Game.{Game}
use computer_networks_projec.Game.Client.{apply_turn, get_game_state}
use computer_networks_projec.Game.Client
use computer_networks_projec.Game.Lobby.{LobbyClient, accept, get_lobby_state}
use computer_networks_projec.Game.Lobby

pub data State : Type 0 where
  in_lobby in_game : State

-- The atomic variables that both threads see.
pub record Flags : Type 0 where
  pub state : State
  pub join_sent : Bool

-- Where the pictures go; `none` is an exception of `send_gui_message`, which ends the client.
pub record Screen : Type 1 where
  pub Device : Type 0
  pub show : DrawMessage → Device → Option Device

-- The screen behind the UDP handler.
abbrev pub udp_screen : Platform → (List ℕ → Bool) → Screen
udp_screen p accepts = record { Device = Udp; show = send_gui_message p accepts }

-- Where `guiClientServerStream` is in its code, with the message that it has read.
pub data GuiPlace : Type 0 where
  reading : GuiPlace
  testing_state : InputMessage → GuiPlace
  testing_sent : InputMessage → GuiPlace
  joining : GuiPlace
  storing : GuiPlace
  forwarding : InputMessage → GuiPlace

-- `manager.send_server_message(arg)`: a message of the GUI as a message to the server.
unfoldable pub forwarded : InputMessage → List ClientMessage
forwarded InputMessage.place_bomb = ClientMessage.place_bomb ∷ []
forwarded InputMessage.place_block = ClientMessage.place_block ∷ []
forwarded (InputMessage.move direction) = ClientMessage.move direction ∷ []
forwarded invalid_message = []

-- A message of the GUI, if the thread reads one; elsewhere nothing happens.
unfoldable pub gui_receive : InputMessage → GuiPlace → GuiPlace
gui_receive invalid_message reading = reading
gui_receive InputMessage.place_bomb reading = testing_state InputMessage.place_bomb
gui_receive InputMessage.place_block reading = testing_state InputMessage.place_block
gui_receive (InputMessage.move d) reading = testing_state (InputMessage.move d)
gui_receive m (testing_state m') = testing_state m'
gui_receive m (testing_sent m') = testing_sent m'
gui_receive m joining = joining
gui_receive m storing = storing
gui_receive m (forwarding m') = forwarding m'

-- A step of the thread: its place after the step, the variables, and what goes to the server. `up` says
-- whether a sending succeeds; `none` is an exception, which ends the client.
unfoldable pub gui_step :
    Text → Bool → GuiPlace → Flags → Option (GuiPlace × Flags × List ClientMessage)
unfolding forwarded
gui_step name up reading f = some (reading, f, [])
gui_step name up (testing_state m) f =
    some (elim f.state [ in_lobby ↦ testing_sent m | in_game ↦ forwarding m ], f, [])
gui_step name up (testing_sent m) f = some (if f.join_sent then forwarding m else joining, f, [])
gui_step name up joining f = if up then some (storing, f, join name ∷ []) else none
gui_step name up storing f = some (reading, record f { join_sent = true }, [])
gui_step name up (forwarding m) f = if up then some (reading, f, forwarded m) else none

-- Where `serverClientGuiStream` is in its code, with its objects and the message that it has read last.
pub data ServerPlace : Type 0 where
  greeting : ServerPlace
  entering : Hello → ServerMessage → ServerPlace
  lobby_testing : Hello → LobbyClient → ServerMessage → ServerPlace
  lobby_reading : Hello → LobbyClient → ServerPlace
  starting : Hello → LobbyClient → ServerMessage → ServerPlace
  lobby_showing : Hello → LobbyClient → ServerMessage → ServerPlace
  game_testing : Hello → Game → ServerMessage → ServerPlace
  game_reading : Hello → Game → ServerPlace
  ending : Hello → Game → ServerMessage → ServerPlace
  unsending : Hello → Game → ServerMessage → ServerPlace
  game_showing : Hello → Game → ServerMessage → ServerPlace

-- A message of the server, if the thread reads one; elsewhere nothing happens. `none` is an exception.
unfoldable pub receive_first : ServerMessage → Option ServerPlace
receive_first (hello h) = some (entering h (hello h))
receive_first (accepted_player a) = none
receive_first (game_started players) = none
receive_first (ServerMessage.turn t) = none
receive_first (game_ended scores) = none

unfoldable pub receive_in_lobby : Hello → LobbyClient → ServerMessage → Option ServerPlace
receive_in_lobby h l (game_started players) = some (starting h l (game_started players))
receive_in_lobby h l (accepted_player a) = some (lobby_showing h (accept a l) (accepted_player a))
receive_in_lobby h l (hello h') = none
receive_in_lobby h l (ServerMessage.turn t) = none
receive_in_lobby h l (game_ended scores) = none

unfoldable pub receive_in_game : Hello → Game → ServerMessage → ServerPlace
receive_in_game h g (game_ended scores) = ending h g (game_ended scores)
receive_in_game h g (ServerMessage.turn t) = game_showing h (apply_turn t g) (ServerMessage.turn t)
receive_in_game h g (hello h') = game_testing h g (hello h')
receive_in_game h g (accepted_player a) = game_testing h g (accepted_player a)
receive_in_game h g (game_started players) = game_testing h g (game_started players)

unfoldable pub receive : ServerMessage → ServerPlace → Option ServerPlace
unfolding receive_first receive_in_lobby receive_in_game
receive m greeting = receive_first m
receive m (entering h m') = some (entering h m')
receive m (lobby_testing h l m') = some (lobby_testing h l m')
receive m (lobby_reading h l) = receive_in_lobby h l m
receive m (starting h l m') = some (starting h l m')
receive m (lobby_showing h l m') = some (lobby_showing h l m')
receive m (game_testing h g m') = some (game_testing h g m')
receive m (game_reading h g) = some (receive_in_game h g m)
receive m (ending h g m') = some (ending h g m')
receive m (unsending h g m') = some (unsending h g m')
receive m (game_showing h g m') = some (game_showing h g m')

-- After the loop of the lobby: `std::get<GameStarted>(message)` and the new game. `turn` is what the
-- game's member `turn` holds until the first turn.
unfoldable pub create_game : ℕ → Hello → ServerMessage → Option ServerPlace
create_game turn h (game_started players) =
    some (game_testing h (Client.create turn h players) (game_started players))
create_game turn h (hello h') = none
create_game turn h (accepted_player a) = none
create_game turn h (ServerMessage.turn t) = none
create_game turn h (game_ended scores) = none

module _ (gui : Screen) where
  -- The thread with what it sees.
  pub record Seen : Type 0 where
    pub place : ServerPlace
    pub flags : Flags
    pub device : gui.Device

  -- A picture goes to the GUI.
  unfoldable pub draw : DrawMessage → ServerPlace → Flags → gui.Device → Option Seen
  draw picture place f d =
      gui.show picture d >>= λ d'. some (record { place = place; flags = f; device = d' })

  -- A step of the thread where it does not read; where it reads, it waits.
  unfoldable pub server_step_at : ℕ → ServerPlace → Flags → gui.Device → Option Seen
  unfolding draw create_game
  server_step_at turn greeting f d = some (record { place = greeting; flags = f; device = d })
  server_step_at turn (entering h m) f d =
      draw (lobby (get_lobby_state (Lobby.create h))) (lobby_testing h (Lobby.create h) m) f d
  server_step_at turn (lobby_testing h l m) f d = elim f.state [
    | in_lobby ↦ some (record { place = lobby_reading h l; flags = f; device = d })
    | in_game ↦
        create_game turn h m >>= λ place. some (record { place = place; flags = f; device = d })
  ]
  server_step_at turn (lobby_reading h l) f d =
      some (record { place = lobby_reading h l; flags = f; device = d })
  server_step_at turn (starting h l m) f d =
      some
        (record { place = lobby_testing h l m; flags = record f { state = in_game }; device = d })
  server_step_at turn (lobby_showing h l m) f d =
      draw (lobby (get_lobby_state l)) (lobby_testing h l m) f d
  server_step_at turn (game_testing h g m) f d = some (record {
    place = elim f.state [ in_game ↦ game_reading h g | in_lobby ↦ entering h m ];
    flags = f;
    device = d;
  })
  server_step_at turn (game_reading h g) f d =
      some (record { place = game_reading h g; flags = f; device = d })
  server_step_at turn (ending h g m) f d =
      some (record { place = unsending h g m; flags = record f { state = in_lobby }; device = d })
  server_step_at turn (unsending h g m) f d =
      some
        (record { place = game_testing h g m; flags = record f { join_sent = false }; device = d })
  server_step_at turn (game_showing h g m) f d =
      draw (game (get_game_state g)) (game_testing h g m) f d

  abbrev pub server_step : ℕ → Seen → Option Seen
  server_step turn c = server_step_at turn c.place c.flags c.device

  -- So many steps of the thread alone.
  unfoldable pub settle : ℕ → ℕ → Seen → Option Seen
  unfolding server_step_at
  settle turn zero c = some c
  settle turn (suc n) c = server_step turn c >>= λ c'. settle turn n c'

  -- The thread alone between two readings. From one to the next it takes at most five steps: both
  -- stores and the test at the end of a game, the picture and the test of the next lobby.
  unfoldable pub server_round : ℕ → ServerMessage → Seen → Option Seen
  unfolding receive settle
  server_round turn m c = receive m c.place >>= λ place. settle turn 5 (record c { place = place })

  -- The thread alone with these messages, one after the other.
  unfoldable pub server_rounds : ℕ → List ServerMessage → Seen → Option Seen
  unfolding server_round
  server_rounds turn [] c = some c
  server_rounds turn (m ∷ ms) c = server_round turn m c >>= λ c'. server_rounds turn ms c'

  -- The pictures, one after the other.
  unfoldable pub show_all : List DrawMessage → gui.Device → Option gui.Device
  show_all [] d = some d
  show_all (picture ∷ pictures) d = gui.show picture d >>= λ d'. show_all pictures d'
