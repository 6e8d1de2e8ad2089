-- ===== src/Client/Sessions.antt =====
-- A whole game as the client sees it, from the lobby to the next lobby.
use computer_networks_projec.Base.{
  ℕ, ◌≡◌, refl, Option, Option-cases, inl, inr, some, ◌>>=◌, List, [], ◌∷◌, ◌++◌, map, Bool, false,
}
use computer_networks_projec.Messages.{
  Hello, Turn, Player, AcceptedPlayer, ServerMessage, game_started, game_ended, accepted_player,
}
use computer_networks_projec.Messages.Gui.{DrawMessage, lobby, game}
use computer_networks_projec.Game.{Game}
use computer_networks_projec.Game.Client.{apply_turn, get_game_state}
use computer_networks_projec.Game.Client
use computer_networks_projec.Game.Lobby.{LobbyClient, accept, get_lobby_state}
use computer_networks_projec.Game.Lobby
use computer_networks_projec.Client.{
  in_lobby, in_game, Screen, lobby_reading, game_reading, Seen, draw, create_game, receive,
  receive_in_lobby, receive_in_game, server_step_at, settle, server_round, server_rounds, show_all,
}

-- The pictures of the lobby while players are accepted, and the lobby after them.
unfoldable pub lobby_pictures : List AcceptedPlayer → LobbyClient → List DrawMessage
lobby_pictures [] l = []
lobby_pictures (a ∷ as') l = lobby (get_lobby_state (accept a l)) ∷ lobby_pictures as' (accept a l)

-- The pictures of a game, one after each turn.
unfoldable pub game_pictures : List Turn → Game → List DrawMessage
game_pictures [] g = []
game_pictures (t ∷ ts) g =
    game (get_game_state (apply_turn t g)) ∷ game_pictures ts (apply_turn t g)

-- What the server sends for one game.
unfoldable pub game_messages :
    List AcceptedPlayer → List (ℕ × Player) → List Turn → List (ℕ × ℕ) → List ServerMessage
game_messages accepted players turns scores =
    map accepted_player accepted
    ++ (game_started players ∷ (map ServerMessage.turn turns ++ game_ended scores ∷ []))

module _ (gui : Screen) (turn : ℕ) (h : Hello) where
  -- The thread where it reads in the lobby, and in the game.
  abbrev pub lobby_place : LobbyClient → Bool → gui.Device → Seen gui
  lobby_place l sent d = record {
    place = lobby_reading h l;
    flags = record { state = in_lobby; join_sent = sent };
    device = d;
  }

  abbrev game_place : Game → Bool → gui.Device → Seen gui
  game_place g sent d = record {
    place = game_reading h g;
    flags = record { state = in_game; join_sent = sent };
    device = d;
  }

  abbrev back : gui.Device → Option (Seen gui)
  back d = some (lobby_place (Lobby.create h) false d)

  play_turns :
      (ts : List Turn) (scores : List (ℕ × ℕ)) (g : Game) (sent : Bool) (d : gui.Device)
      → server_rounds gui turn
          (map ServerMessage.turn ts ++ game_ended scores ∷ [])
          (game_place g sent d)
        ≡ (show_all gui (game_pictures ts g ++ lobby (get_lobby_state (Lobby.create h)) ∷ []) d
            >>= back)
  unfolding server_rounds server_round receive receive_in_game settle server_step_at draw show_all
      game_pictures
  play_turns [] scores g sent d =
      elim (Option-cases (gui.show (lobby (get_lobby_state (Lobby.create h))) d)) [
        | inl e ↦ rw e refl
        | inr (d', e) ↦ rw e refl
      ]
  play_turns (t ∷ ts) scores g sent d =
      elim (Option-cases (gui.show (game (get_game_state (apply_turn t g))) d)) [
        | inl e ↦ rw e refl
        | inr (d', e) ↦ rw e (play_turns ts scores (apply_turn t g) sent d')
      ]

  -- For the messages of one game, with any players, turns and scores, the client's thread that
  -- takes them, run alone, shows the lobby after every accepted player, the board after every
  -- turn, and at the end an empty lobby. It throws if, and only if, one of these pictures cannot
  -- be sent to the GUI; otherwise it is in the lobby again, ready to ask for the next game.
  pub server_rounds-game_messages :
      (accepted : List AcceptedPlayer) (players : List (ℕ × Player)) (ts : List Turn)
      (scores : List (ℕ × ℕ)) (l : LobbyClient) (sent : Bool) (d : gui.Device)
      → server_rounds gui turn (game_messages accepted players ts scores) (lobby_place l sent d) ≡ (
          show_all gui
            (lobby_pictures accepted l
              ++ (game_pictures ts (Client.create turn h players)
                  ++ lobby (get_lobby_state (Lobby.create h)) ∷ []))
            d
          >>= λ d'. some (lobby_place (Lobby.create h) false d'))
  unfolding server_rounds server_round receive receive_in_lobby settle server_step_at draw
      create_game show_all lobby_pictures game_messages
  server_rounds-game_messages [] players ts scores l sent d =
      play_turns ts scores (Client.create turn h players) sent d
  server_rounds-game_messages (a ∷ accepted) players ts scores l sent d =
      elim (Option-cases (gui.show (lobby (get_lobby_state (accept a l))) d)) [
        | inl e ↦ rw e refl
        | inr (d', e) ↦
            rw e (server_rounds-game_messages accepted players ts scores (accept a l) sent d')
      ]
