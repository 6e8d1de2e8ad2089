-- ===== src/Server/System/Invariant.antt =====
-- What holds of the server between any two steps.
use computer_networks_projec.Base.{
  ℕ, zero, suc, ◌+◌, ◌<◌, ◌≤◌, ◌≡◌, true, false, ◌⊎◌, List, [], ◌∷◌, ◌++◌, map, length, take, All,
  some,
}
use computer_networks_projec.Messages.{
  Player, AcceptedPlayer, Turn, ServerMessage, hello, accepted_player, game_started,
}
use computer_networks_projec.Container.Map
use computer_networks_projec.Concurrency.AcceptedPlayers.{IsFullLobby}
use computer_networks_projec.Concurrency.TurnContainer
use computer_networks_projec.Client.Sessions.{game_messages}
use computer_networks_projec.Game.{Game}
use computer_networks_projec.Game.Client
use computer_networks_projec.Game.Server.{Options, Generator, hello_of}
use computer_networks_projec.Server.Shared.{SharedState, IsFor}
use computer_networks_projec.Server.Rounds.{apply_turns, Shown}
use computer_networks_projec.Server.Outbound.{
  Outbound, greeting, fetching, checking, accepting, awaiting, turning, ending,
}
use computer_networks_projec.Server.Main.{
  Main, copying, waiting, starting, playing, resetting, finishing,
}
use computer_networks_projec.Server.System.{System}
use computer_networks_projec.Server.System.Grows.{InLobby}

-- 0 … n - 1
unfoldable pub upto : ℕ → List ℕ
upto zero = []
upto (suc n) = upto n ++ n ∷ []

abbrev pub ids : List AcceptedPlayer → List ℕ
ids accepted = map (λ a. a.id) accepted

-- A client is shown nobody, if the game has started, or everybody in the order of the identifiers.
abbrev pub IsListed : ℕ → List AcceptedPlayer → Type 0
IsListed n accepted = (accepted ≡ []) ⊎ (ids accepted ≡ upto n)

-- The first `i` players of so many.
abbrev pub IsPrefix : ℕ → ℕ → List AcceptedPlayer → Type 0
IsPrefix n i accepted = (i ≤ n) × (ids accepted ≡ upto i)

-- Players, turns and scores of a whole game: the lobby was full, there are as many turns as the
-- options say, and a client who applies them comes to the scores.
pub record IsWholeGame (op : Options) (t : ℕ) (players : List (ℕ × Player)) (turns : List Turn)
    (scores : List (ℕ × ℕ)) : Type 0 where
  pub everybody : length players ≡ op.players_count
  pub full : IsFullLobby op.players_count players
  pub counted : length turns ≡ op.game_length + 1
  pub reached :
      (k : ℕ)
      → Map.find k scores
        ≡ Map.find k (apply_turns turns (Client.create t (hello_of op) players)).scores

module _ (rng : Generator) (op : Options) (t : ℕ) where
  -- The game of a version, from its containers.
  abbrev pub IsGameOf : SharedState → ℕ → List (ℕ × ℕ) → Type 0
  IsGameOf s v scores =
      IsWholeGame op t (s.accepted_players v).accepted_players (s.turn_container v).turns scores

  abbrev pub IsFull : SharedState → ℕ → Type 0
  IsFull s v = length (s.accepted_players v).accepted_players ≡ op.players_count

  abbrev pub client_of : SharedState → ℕ → Game
  client_of s v = Client.create t (hello_of op) (s.accepted_players v).accepted_players

  pub record SharedOk (s : SharedState) : Type 0 where
    pub lobbies : (v : ℕ) → IsFor op.players_count (s.accepted_players v)
    pub slots : (v : ℕ) → length (s.move_container v) ≡ op.players_count
    pub finished :
        (v : ℕ) → (s.turn_container v).finished ≡ true → IsGameOf s v (s.turn_container v).score_map

  pub record Playing (s : SharedState) (v left : ℕ) (game : Game) : Type 0 where
    pub current : v ≡ s.game_version
    pub full : IsFull s v
    pub unfinished : (s.turn_container v).finished ≡ false
    pub done : ℕ
    pub counted : done + left ≡ op.game_length + 1
    pub shown : Shown op.players_count done (client_of s v) game (s.turn_container v)

  abbrev pub MainOk : SharedState → Main rng.State → Type 0
  MainOk s copying = s.turn_container s.game_version ≡ TurnContainer.create
  MainOk s (waiting v) = (v ≡ s.game_version) × (s.turn_container v ≡ TurnContainer.create)
  MainOk s (starting v) =
      (v ≡ s.game_version) × (s.turn_container v ≡ TurnContainer.create) × IsFull s v
  MainOk s (playing v left game) = Playing s v left game.game
  MainOk s (resetting v scores) = (v ≡ s.game_version) × IsGameOf s v scores
  MainOk s (finishing v scores) =
      (v < s.game_version)
      × (s.turn_container s.game_version ≡ TurnContainer.create)
      × IsGameOf s v scores

  -- The players that a client was told about.
  pub record Told (s : SharedState) (v : ℕ) (IsShown : List AcceptedPlayer → Type 0)
      (messages : List ServerMessage) : Type 0 where
    pub known : v ≤ s.game_version
    pub accepted : List AcceptedPlayer
    pub listed : IsShown accepted
    pub in_lobby : All (InLobby (s.accepted_players v)) accepted
    pub told : messages ≡ map accepted_player accepted

  pub record ToldTurns (s : SharedState) (v i : ℕ) (messages : List ServerMessage) : Type 0 where
    pub known : v ≤ s.game_version
    pub full : IsFull s v
    pub accepted : List AcceptedPlayer
    pub listed : IsListed op.players_count accepted
    pub in_lobby : All (InLobby (s.accepted_players v)) accepted
    pub published : i ≤ length (s.turn_container v).turns
    pub bounded : i ≤ op.game_length + 1
    pub told :
        messages
        ≡ map accepted_player accepted
          ++ (game_started (s.accepted_players v).accepted_players
              ∷ map ServerMessage.turn (take i (s.turn_container v).turns))

  -- All messages of one game: the players as they are listed, the lobby, the turns and the scores.
  pub record ToldGame (messages : List ServerMessage) : Type 0 where
    pub accepted : List AcceptedPlayer
    pub listed : IsListed op.players_count accepted
    pub players : List (ℕ × Player)
    pub turns : List Turn
    pub scores : List (ℕ × ℕ)
    pub in_lobby : All (λ a. Map.find a.id players ≡ some a.player) accepted
    pub whole : IsWholeGame op t players turns scores
    pub told : messages ≡ game_messages accepted players turns scores

  abbrev pub OutOk : SharedState → Outbound → List ServerMessage → Type 0
  OutOk s greeting messages = messages ≡ []
  OutOk s fetching messages = (messages ≡ hello (hello_of op) ∷ []) ⊎ ToldGame messages
  OutOk s (checking v) messages = (v ≤ s.game_version) × (messages ≡ [])
  OutOk s (accepting v i) messages = Told s v (IsPrefix op.players_count i) messages
  OutOk s (awaiting v) messages = Told s v (IsListed op.players_count) messages
  OutOk s (turning v i) messages = ToldTurns s v i messages
  OutOk s (ending v) messages = ToldTurns s v (op.game_length + 1) messages

  pub record IsOk (x : System rng.State) : Type 0 where
    pub shared : SharedOk x.shared
    pub main : MainOk x.shared x.main
    pub out : OutOk x.shared x.out x.sent
