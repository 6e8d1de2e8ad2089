-- ===== src/Server/System.antt =====
-- The whole server as one relation: the main loop, one client's outgoing thread, and what the
-- incoming threads of all clients do to the containers, in any order.
pub mod Drains
pub mod Games
pub mod Grows
pub mod Invariant
pub mod Keeps
pub mod MainLoop
pub mod OutLoop
pub mod Told
use computer_networks_projec.Base.{ℕ, ◌+◌, ◌≡◌, false, List, [], ◌∷◌, ◌++◌}
use computer_networks_projec.Messages.{Player, ClientMessage, ServerMessage}
use computer_networks_projec.Concurrency.Blocking.{returned}
use computer_networks_projec.Concurrency.AcceptedPlayers.{after_call}
use computer_networks_projec.Concurrency.AcceptedPlayers
use computer_networks_projec.Concurrency.MoveContainer.{written}
use computer_networks_projec.Concurrency.MoveContainer
use computer_networks_projec.Concurrency.TurnContainer
use computer_networks_projec.Game.Server.{Options, Generator}
use computer_networks_projec.Server.Shared.{SharedState, put_at}
use computer_networks_projec.Server.Outbound.{
  Outbound, greeting, fetching, checking, accepting, awaiting, turning, ending, out_step,
}
use computer_networks_projec.Server.Main.{Main, copying, main_step}

-- `sent` is what the outgoing thread has sent since it last copied the pointers.
pub record System (State : Type 0) : Type 0 where
  pub shared : SharedState
  pub main : Main State
  pub out : Outbound
  pub sent : List ServerMessage

-- A thread that copies the pointers begins with a new game.
unfoldable pub kept : Outbound → List ServerMessage → List ServerMessage
kept greeting sent = sent
kept fetching sent = []
kept (checking v) sent = sent
kept (accepting v i) sent = sent
kept (awaiting v) sent = sent
kept (turning v i) sent = sent
kept (ending v) sent = sent

module _ (rng : Generator) (op : Options) where
  pub data Step : System rng.State → System rng.State → Type 0 where
    joins :
        {x : System rng.State} (v : ℕ) (p : Player)
        → Step x (record x {
          shared = record x.shared {
            accepted_players =
                put_at v (after_call p (x.shared.accepted_players v)) x.shared.accepted_players;
          };
        })
    moves :
        {x : System rng.State} (v id : ℕ) (m : ClientMessage)
        → Step x (record x {
          shared = record x.shared {
            move_container =
                put_at v (written id m (x.shared.move_container v)) x.shared.move_container;
          };
        })
    main_goes :
        {x : System rng.State} {s : SharedState} {m : Main rng.State}
        → main_step rng op x.shared x.main ≡ returned (s, m)
        → Step x (record x { shared = s; main = m })
    out_goes :
        {x : System rng.State} {o : Outbound} {messages : List ServerMessage}
        → out_step op x.shared x.out ≡ returned (o, messages)
        → Step x (record x { out = o; sent = kept x.out x.sent ++ messages })

  -- After the first `reset_shared`, with a client that has just connected. The other versions have
  -- no containers yet, or hold what games before left.
  pub record IsStart (x : System rng.State) : Type 0 where
    pub lobbies : (v : ℕ) → x.shared.accepted_players v ≡ AcceptedPlayers.create op.players_count
    pub slots : (v : ℕ) → x.shared.move_container v ≡ MoveContainer.create op.players_count
    pub turns : (v : ℕ) → x.shared.turn_container v ≡ TurnContainer.create
    pub main_copies : x.main ≡ copying
    pub out_greets : x.out ≡ greeting
    pub nothing_sent : x.sent ≡ []

  pub data Reach (start : System rng.State) : System rng.State → Type 0 where
    here : Reach start start
    next : {x y : System rng.State} → Reach start x → Step x y → Reach start y
