-- ===== src/Lib.antt =====
-- Computer-Networks-Project-2: a multiplayer game of bombs on a board, with a server and clients
-- that talk over TCP, and a GUI that a client talks to over UDP. This library models the program and
-- proves what makes it work.
--
-- How the parts work together. The server's main loop (src/server.cpp) waits until the container of
-- accepted players is full, sets up a game, carries out its turns and publishes every turn in the
-- container of turns. For every client one thread takes moves into the container of moves, and one
-- sends the greeting, the players, the turns and the scores. The client (src/client.cpp) makes its
-- own copy of the game from the greeting and the players, and applies the turns to it.
--
-- The files:
-- Config — the integer types of src/config/config.h, as the number of their values.
-- Messages — the structures of src/network/messages.h.
-- Container — `std::map`, `std::set`, `std::unordered_map`, `std::unordered_set`. A map is the list
-- of its entries, a set the list of its elements; the ordered ones ascend. The hash of a position
-- only decides the order of an unordered set, and that order is the list's.
-- Concurrency — src/concurrency. A method that holds the mutex is one step on the container's state;
-- a wait on a condition variable is the value `blocked`. A thread's calls between two other steps
-- are a list, so every interleaving of whole calls is a list of calls.
-- Game, Game.Client, Game.Server — src/game_logic/game.cpp, every method of `Game`, `GameClient` and
-- `GameServer`. Game.Scores, Game.WellFormed, Game.Progress, Game.Agreement and Game.Blast are
-- about, in this order: the points; what keeps the board whole; that turns return; that client
-- and server agree; which fields an explosion reaches.
-- Network.ByteOrder, Network.Tcp — src/network/network_handler.cpp and .h, the conversion of byte
-- orders, `read_element` and `send_element` of a TCP connection, with the functions of the C
-- library as a parameter `Platform` and the calls of `recv` and `send` as data or a parameter.
-- Network.Udp — the UDP handler of the same files. Network.Stream is about what TCP carries; Network.Channel is
-- the interface of both handlers to the serialisers, with the law that they fulfil.
-- Messages.Write, Messages.Read — src/network/messages.cpp, `serialize` and the reading constructors.
-- Messages.Manager, Messages.Gui — src/network/message_manager.cpp, towards the server and the GUI.
-- Messages.Packets — what the packets for the GUI look like, and that these are sent.
-- Messages.Carries, Messages.Containers, Messages.RoundTrip relate what is written to what is read.
-- Game.Lobby — src/game_logic/lobby.cpp.
-- Client — src/client.cpp. A step of a thread is one access to an atomic variable, one reading or one
-- sending. A picture goes to a `Screen`, whose `show` may fail as `send_gui_message` may; `udp_screen`
-- is the one of the program. Client.Sessions runs the thread of the server alone: the other
-- thread writes `join_sent` only, which this one never reads. Client.Joins interleaves all steps of
-- both threads.
-- Server.Shared — `shared_state` and `reset_shared` of src/server.cpp. A pointer to a container is the
-- version of the game whose container it is, since a thread keeps old containers alive.
-- Server.Main — the loop of `main`. Server.Outbound — `handle_tcp_stream_out`; Server.Outbound.Counter
-- is about its 16-bit counter. Server.Inbound, Server.Safety — `handle_tcp_stream_in`.
-- Server.Rounds, Server.Match — one round of `main` without interleaving, with what a client does.
-- Server.System — the main loop, the outgoing thread of a client and what the other threads do to the
-- containers, as one relation. The state has one outgoing thread: these threads only read what is
-- shared, so that each of them sees the same system. Grows, Invariant, Keeps, MainLoop, Told and
-- OutLoop prepare what Games and Drains state.
-- Parser — src/config/parser.cpp, with `strtoll`, `getopt` and the clock as parameters; an `exit` is a
-- result. Parser.Flags — the characters of the options in src/config/config.h.
-- Examples — the theorems at one small game, and at command lines with a `strtoll` and a `getopt`.
--
-- Exceptions, a remainder by zero and `at` on a missing key are `none`. Machine integers keep their
-- wrap-around. `std::minstd_rand` is the parameter `Generator`: any state, seed and next number.
--
-- Fuel: `explode_loop` gets the longer side of the board, since every step comes nearer to an edge.
-- `send_loop` gets the number of bytes, since a successful `send` takes at least one.
--
-- Not modelled: sockets' set-up and errors' texts, `sleep_for`, the thread that accepts connections
-- and starts the others, and the end of a client's threads when its connection fails.
pub mod Base
pub mod Client
pub mod Concurrency
pub mod Config
pub mod Container
pub mod Examples
pub mod Game
pub mod Messages
pub mod Network
pub mod Parser
pub mod Server
