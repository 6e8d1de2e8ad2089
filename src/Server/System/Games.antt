-- ===== src/Server/System/Games.antt =====
-- Whatever the threads do and in whatever order: nobody throws, and a client is told whole games.
use computer_networks_projec.Base.{
  All, ℕ, ◌+◌, ◌<◌, ◌≡◌, ◌≢◌, refl, ◌∙◌, subst, Bool, true, false, ◌>>=◌, ◌⊎◌, inl, inr, List, [],
  ◌∷◌, ◌++◌, length, some,
}
use computer_networks_projec.Config.{u8_size, u16_size}
use computer_networks_projec.Messages.{Player, Turn, hello, AcceptedPlayer}
use computer_networks_projec.Concurrency.Blocking.{Blocking, returned, threw}
use computer_networks_projec.Concurrency.AcceptedPlayers.{
  AcceptedPlayers, after_call, create-IsValid,
}
use computer_networks_projec.Concurrency.AcceptedPlayers
use computer_networks_projec.Concurrency.MoveContainer.{
  Slots, written, length-written, length-create,
}
use computer_networks_projec.Concurrency.TurnContainer.{TurnContainer}
use computer_networks_projec.Concurrency.TurnContainer
use computer_networks_projec.Container.Map
use computer_networks_projec.Client.{Screen, server_rounds, show_all}
use computer_networks_projec.Client.Sessions.{
  lobby_place, lobby_pictures, game_pictures, server_rounds-game_messages,
}
use computer_networks_projec.Messages.Gui.{lobby}
use computer_networks_projec.Game.Client
use computer_networks_projec.Game.Lobby.{LobbyClient, get_lobby_state}
use computer_networks_projec.Game.Lobby
use computer_networks_projec.Game.Server.{Options, Generator, hello_of}
use computer_networks_projec.Game.Progress.Start.{IsPlayable}
use computer_networks_projec.Server.Shared.{
  SharedState, put_at, put_at_lem, IsFor, after_call-IsFor,
}
use computer_networks_projec.Server.Outbound.{fetching, out_step}
use computer_networks_projec.Server.Main.{main_step}
use computer_networks_projec.Server.System.{
  System, Step, joins, moves, main_goes, out_goes, IsStart, Reach, here, next,
}
use computer_networks_projec.Server.System.Grows.{
  put_at-cases, after_call_full, joins-Grows, kept_turns-Grows,
}
use computer_networks_projec.Server.System.Invariant.{
  IsListed, IsWholeGame, SharedOk, OutOk, ToldGame, IsOk, IsFull,
}
use computer_networks_projec.Server.System.Keeps.{Goes, Kept, keep_main, keep_shared}
use computer_networks_projec.Server.System.MainLoop.{main_step-Kept}
use computer_networks_projec.Server.System.OutLoop.{out_step-Kept}
use computer_networks_projec.Server.System.Told.{OutOk-Grows}

-- What goes, and came to a value, has the property; it did not throw.
Goes-returned :
    {A : Type 0} (P : A → Type 0) (r : Blocking A) (a : A) → Goes P r → r ≡ returned a → P a
Goes-returned P r a h e = subst (Goes P) e h

Goes-ne-threw : {A : Type 0} (P : A → Type 0) (r : Blocking A) → Goes P r → r ≢ threw
Goes-ne-threw P r h e = subst (Goes P) e h

unstarted : {c : TurnContainer} → c ≡ TurnContainer.create → c.finished ≢ true
unfolding TurnContainer.create
unstarted e h = cc

module _ (rng : Generator) (op : Options) (t : ℕ) (small : op.players_count < u8_size)
    (short : op.game_length + 1 < u16_size) (playable : IsPlayable op) where
  start-IsOk : (x : System rng.State) → IsStart rng op x → IsOk rng op t x
  unfolding TurnContainer.create AcceptedPlayers.create
  start-IsOk x a = record {
    shared = record {
      lobbies = λ v. rw (a.lobbies v) (create-IsValid op.players_count small, refl);
      slots = λ v. rw (a.slots v) (length-create op.players_count);
      finished = λ v e. absurd (unstarted (a.turns v) e);
    };
    main = rw a.main_copies (a.turns x.shared.game_version);
    out = rw a.out_greets a.nothing_sent;
  }

  -- A full lobby is not changed by somebody who asks to join.
  joins_same :
      (s : SharedState) (v : ℕ) (p : Player)
      → SharedOk rng op t s
      → (w : ℕ) → IsFull rng op t s w
      → put_at v (after_call p (s.accepted_players v)) s.accepted_players w ≡ s.accepted_players w
  joins_same s v p a w full =
      put_at-cases
        (λ u c.
          length (s.accepted_players u).accepted_players ≡ op.players_count
          → c ≡ s.accepted_players u)
        v (after_call p (s.accepted_players v)) s.accepted_players
        (after_call_full op.players_count p (s.accepted_players v) (a.lobbies v)) (λ u e. refl) w
        full

  Step-IsOk : (x y : System rng.State) → Step rng op x y → IsOk rng op t x → IsOk rng op t y
  Step-IsOk x y (joins v p) a =
      let s = x.shared in
      let f = put_at v (after_call p (s.accepted_players v)) s.accepted_players in
      let same = joins_same s v p a.shared in
      record {
        shared =
            keep_shared rng op t s f s.move_container same a.shared
              (put_at_lem (IsFor op.players_count) v (after_call p (s.accepted_players v))
                s.accepted_players
                (after_call-IsFor op.players_count p (s.accepted_players v) (a.shared.lobbies v))
                a.shared.lobbies)
              a.shared.slots;
        main = keep_main rng op t s f s.move_container same x.main a.main;
        out =
            OutOk-Grows rng op t s _ x.out x.sent
              (joins-Grows op.players_count s v p a.shared.lobbies) a.out;
      }
  Step-IsOk x y (moves v id m) a =
      let s = x.shared in
      let g = put_at v (written id m (s.move_container v)) s.move_container in
      record {
        shared =
            keep_shared rng op t s s.accepted_players g (λ w h. refl) a.shared a.shared.lobbies
              (put_at_lem (λ (c : Slots). length c ≡ op.players_count) v
                (written id m (s.move_container v)) s.move_container
                (length-written id m (s.move_container v) ∙ a.shared.slots v) a.shared.slots);
        main = keep_main rng op t s s.accepted_players g (λ w h. refl) x.main a.main;
        out =
            OutOk-Grows rng op t s _ x.out x.sent
              (kept_turns-Grows op.players_count s _ refl refl refl) a.out;
      }
  Step-IsOk x y (main_goes {s} {m} e) a =
      let (shared, main, grows) =
        Goes-returned (Kept rng op t x.shared) (main_step rng op x.shared x.main) (s, m)
          (main_step-Kept rng op t small playable x.shared x.main a.shared a.main) e in
      record {
        shared = shared;
        main = main;
        out = OutOk-Grows rng op t x.shared s x.out x.sent grows a.out;
      }
  Step-IsOk x y (out_goes {o} {messages} e) a = record {
    shared = a.shared;
    main = a.main;
    out =
        Goes-returned _ (out_step op x.shared x.out) (o, messages)
          (out_step-Kept rng op t x.shared x.out x.sent small short a.shared a.out) e;
  }

  pub Reach-IsOk :
      (start x : System rng.State) → IsStart rng op start → Reach rng op start x → IsOk rng op t x
  Reach-IsOk start x a here = start-IsOk start a
  Reach-IsOk start x a (next {x = y} r step) = Step-IsOk y x step (Reach-IsOk start y a r)

  module _ (start x : System rng.State) (begins : IsStart rng op start)
      (reached : Reach rng op start x) where
    ok : IsOk rng op t x
    ok = Reach-IsOk start x begins reached

    -- The server starts with empty containers for fewer players than 256, on a board whose sizes
    -- are above 0 and fit 16 bits, for a game of fewer than 65535 turns; its threads take their
    -- steps in any order, and any players join and move. Then the main loop never throws.
    pub main_step-ne-threw : main_step rng op x.shared x.main ≢ threw
    main_step-ne-threw =
        Goes-ne-threw (Kept rng op t x.shared) (main_step rng op x.shared x.main)
          (main_step-Kept rng op t small playable x.shared x.main ok.shared ok.main)

    -- The server starts with empty containers for fewer players than 256, on a board whose sizes
    -- are above 0 and fit 16 bits, for a game of fewer than 65535 turns; its threads take their
    -- steps in any order, and any players join and move. Then the outgoing thread of a client
    -- never throws of its own: it never asks for a player who cannot join any more.
    pub out_step-ne-threw : out_step op x.shared x.out ≢ threw
    out_step-ne-threw =
        Goes-ne-threw _ (out_step op x.shared x.out)
          (out_step-Kept rng op t x.shared x.out x.sent small short ok.shared ok.out)

    -- The server starts with empty containers for fewer players than 256, on a board whose sizes
    -- are above 0 and fit 16 bits, for a game of fewer than 65535 turns; its threads take their
    -- steps in any order, and any players join and move. Whenever a client's outgoing thread is
    -- about to copy the pointers, it has sent only the greeting, or, since it copied them before,
    -- the messages of exactly one game: either no player or all players of its lobby in the order
    -- of their identifiers, the full lobby, all turns that the options ask for, and scores that a
    -- client comes to who applies these turns.
    pub fetching-ToldGame :
        x.out ≡ fetching → (x.sent ≡ hello (hello_of op) ∷ []) ⊎ ToldGame rng op t x.sent
    fetching-ToldGame e = subst (λ o. OutOk rng op t x.shared o x.sent) e ok.out

    -- The server starts with empty containers for fewer players than 256, on a board whose sizes
    -- are above 0 and fit 16 bits, for a game of fewer than 65535 turns; its threads take their
    -- steps in any order, and any players join and move. Whenever a client's outgoing thread is
    -- about to copy the pointers and has sent more than the greeting, it has sent, since it copied
    -- them before, the messages of a whole game: either no player or all players of the lobby in
    -- the order of their identifiers, the full lobby, the turns, and the scores that a client
    -- comes to by them. The thread of a client in the lobby that takes these messages, run alone,
    -- shows the lobby after each player and the board after each turn; it throws if, and only if,
    -- one of these pictures cannot be sent to its GUI, and otherwise returns to the lobby.
    pub server_rounds-sent :
        (gui : Screen) (l : LobbyClient) (join_sent : Bool) (d : gui.Device)
        → x.out ≡ fetching
        → x.sent ≢ hello (hello_of op) ∷ []
        → (accepted : List AcceptedPlayer) × (players : List (ℕ × Player)) × (turns : List Turn)
          × (scores : List (ℕ × ℕ)) × IsListed op.players_count accepted
          × All (λ a. Map.find a.id players ≡ some a.player) accepted
          × IsWholeGame op t players turns scores
          × (server_rounds gui t x.sent (lobby_place gui t (hello_of op) l join_sent d) ≡ (
              show_all gui
                (lobby_pictures accepted l
                  ++ (game_pictures turns (Client.create t (hello_of op) players)
                      ++ lobby (get_lobby_state (Lobby.create (hello_of op))) ∷ []))
                d
              >>= λ d'.
                  some (lobby_place gui t (hello_of op) (Lobby.create (hello_of op)) false d')))
    server_rounds-sent gui l join_sent d e later = elim (fetching-ToldGame e) [
      | inl greeted ↦ absurd (later greeted)
      | inr a ↦ (
        a.accepted,
        a.players,
        a.turns,
        a.scores,
        a.listed,
        a.in_lobby,
        a.whole,
        rw a.told (
            server_rounds-game_messages gui t (hello_of op) a.accepted a.players a.turns a.scores l
              join_sent d),
      )
    ]
