-- ===== src/Examples/Wire.antt =====
-- Messages on the wire, between that host and itself.
use computer_networks_projec.Base.{
  ℕ, Bool, List, ◌>>=◌, ◌+◌, ◌≤◌, ◌≡◌, refl, some, [], ◌∷◌, ◌++◌, arith, length, Returns, true,
  false, none,
}
use computer_networks_projec.Messages.{
  hello, ServerMessage, bomb_exploded, join, InputMessage, Hello,
}
use computer_networks_projec.Messages.Carries.{Carries}
use computer_networks_projec.Messages.Manager.{
  send_client_message, send_server_message, read_server_message, read_client_message,
}
use computer_networks_projec.Messages.RoundTrip.{
  send_client_message-Carries, send_server_message-Carries,
}
use computer_networks_projec.Messages.Gui.{
  meaning, read_gui_message, read_gui_message-meaning, lobby,
}
use computer_networks_projec.Network.ByteOrder.{u32, big_endian}
use computer_networks_projec.Network.Channel.{tcp, tcp-IsChannel}
use computer_networks_projec.Network.Udp.{Udp}
use computer_networks_projec.Network.Tcp.{Tcp, received, failed, read_element, send_n_bytes}
use computer_networks_projec.Network.Stream.{
  Reads, read_element-Reads, read_element_short, send_n_bytes-Outcome, Outcome, pending,
}
use computer_networks_projec.Client.{Screen, udp_screen, server_rounds, show_all}
use computer_networks_projec.Client.Sessions.{
  lobby_place, game_messages, lobby_pictures, game_pictures, server_rounds-game_messages,
}
use computer_networks_projec.Client.Joins.{
  Move, gui_reads, gui_goes, server_reads, server_goes, moves, initial, moves-joins,
}
use computer_networks_projec.Game.Client
use computer_networks_projec.Game.Lobby.{get_lobby_state}
use computer_networks_projec.Game.Lobby
use computer_networks_projec.Game.Server.{hello_of}
use computer_networks_projec.Examples.Data.{alice, bob, at, options}
use computer_networks_projec.Examples.Data
use computer_networks_projec.Examples.Host.{
  host, host-IsPlatform, slow_socket, slow_socket-IsSocket, slow_socket_up,
}

abbrev explosion : ServerMessage
explosion =
    ServerMessage.turn (record { turn = 258; events = bomb_exploded 5 (1 ∷ []) (at 1 0 ∷ []) ∷ [] })

send_client_message_example :
    Carries
      (tcp-IsChannel host host-IsPlatform slow_socket slow_socket-IsSocket slow_socket_up)
      (send_client_message (tcp host host-IsPlatform slow_socket slow_socket-IsSocket) explosion)
      (read_server_message host)
      explosion
send_client_message_example =
    send_client_message-Carries
      (tcp-IsChannel host host-IsPlatform slow_socket slow_socket-IsSocket slow_socket_up) host
      host-IsPlatform explosion (ground arith)

send_server_message_example :
    Carries
      (tcp-IsChannel host host-IsPlatform slow_socket slow_socket-IsSocket slow_socket_up)
      (send_server_message
        (tcp host host-IsPlatform slow_socket slow_socket-IsSocket)
        (join (65 ∷ 66 ∷ [])))
      (read_client_message host)
      (join (65 ∷ 66 ∷ []))
send_server_message_example =
    send_server_message-Carries
      (tcp-IsChannel host host-IsPlatform slow_socket slow_socket-IsSocket slow_socket_up) host
      host-IsPlatform (join (65 ∷ 66 ∷ [])) (omega arith, (omega arith, tt))

read_element_example : Reads (read_element host u32) (big_endian 4 70000) 70000
read_element_example = read_element-Reads host host-IsPlatform u32 70000 (omega arith)

-- Three bytes and a failure.
abbrev broken : Tcp
broken = record {
  recv_deque = 1 ∷ [];
  incoming = received (2 ∷ 3 ∷ []) ∷ failed ∷ [];
  outgoing = [];
  sends = 0;
}

broken_short : length (pending broken) ≤ 3
unfolding pending
broken_short = omega arith

read_element_short_example : read_element host u32 broken ≡ none
read_element_short_example = read_element_short host u32 broken (omega (arith, broken_short))

send_n_bytes_example :
    Outcome slow_socket (7 ∷ 8 ∷ []) broken (send_n_bytes slow_socket (7 ∷ 8 ∷ []) broken)
send_n_bytes_example = send_n_bytes-Outcome slow_socket slow_socket-IsSocket (7 ∷ 8 ∷ []) broken

abbrev mailbox : Udp
mailbox = record {
  packet = [];
  recv_pointer = 0;
  incoming = received (2 ∷ 3 ∷ []) ∷ [];
  outcoming = [];
  packets = [];
}

read_gui_message_example :
    Returns
      (λ r. (r.0 ≡ meaning (2 ∷ 3 ∷ [])) × (r.1.incoming ≡ []))
      (read_gui_message host mailbox)
read_gui_message_example =
    read_gui_message-meaning host host-IsPlatform (2 ∷ 3 ∷ []) [] mailbox
      (omega arith, (omega arith, tt)) (omega arith) refl

abbrev greeting : Hello
greeting = hello_of options

abbrev takes_all : List ℕ → Bool
takes_all bytes = true

abbrev screen : Screen
screen = udp_screen host takes_all

server_rounds_example :
    server_rounds screen 0
      (game_messages
        (record { id = 0; player = alice } ∷ [])
        Data.lobby
        (record { turn = 0; events = [] } ∷ [])
        [])
      (lobby_place screen 0 greeting (Lobby.create greeting) true mailbox)
    ≡ (show_all screen
          (lobby_pictures (record { id = 0; player = alice } ∷ []) (Lobby.create greeting)
            ++ (game_pictures
                  (record { turn = 0; events = [] } ∷ [])
                  (Client.create 0 greeting Data.lobby)
                ++ lobby (get_lobby_state (Lobby.create greeting)) ∷ []))
          mailbox
        >>= λ d'. some (lobby_place screen 0 greeting (Lobby.create greeting) false d'))
server_rounds_example =
    server_rounds-game_messages screen 0 greeting (record { id = 0; player = alice } ∷ [])
      Data.lobby (record { turn = 0; events = [] } ∷ []) [] (Lobby.create greeting) true mailbox

-- The client asks to join, and its next message is forwarded, while the greeting is read and shown.
abbrev schedule : List Move
schedule =
    gui_reads InputMessage.place_bomb
    ∷ server_reads (hello greeting)
    ∷ gui_goes true
    ∷ gui_goes true
    ∷ server_goes
    ∷ gui_goes true
    ∷ gui_goes true
    ∷ server_goes
    ∷ gui_reads InputMessage.place_bomb
    ∷ gui_goes true
    ∷ gui_goes true
    ∷ gui_goes true
    ∷ []

moves-joins_example :
    (moves screen (65 ∷ []) 0 schedule (initial screen (65 ∷ []) 0 mailbox)).1
    ≤ (moves screen (65 ∷ []) 0 schedule (initial screen (65 ∷ []) 0 mailbox)).2 + 1
moves-joins_example = moves-joins screen (65 ∷ []) 0 schedule mailbox
