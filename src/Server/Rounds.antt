-- ===== src/Server/Rounds.antt =====
-- A turn of the server's loop, against a client who applies the turns that it publishes.
use computer_networks_projec.Base.{
  ℕ, suc, ◌≤◌, ◌≡◌, refl, List, [], ◌∷◌, ◌++◌, arith, length, length-append, Returns, Returns-some,
  Post-some,
}
use computer_networks_projec.Messages.{Player, Turn}
use computer_networks_projec.Concurrency.AcceptedPlayers.{IsFullLobby}
use computer_networks_projec.Concurrency.MoveContainer.{Slots}
use computer_networks_projec.Concurrency.TurnContainer.{TurnContainer, append_new_turn}
use computer_networks_projec.Concurrency.TurnContainer
use computer_networks_projec.Game.{Game}
use computer_networks_projec.Game.Client.{apply_turn}
use computer_networks_projec.Game.Client
use computer_networks_projec.Game.Server.{
  Options, Generator, GameServer, game_init, apply_moves, hello_of,
}
use computer_networks_projec.Game.Server
use computer_networks_projec.Game.WellFormed.{IsWellFormed}
use computer_networks_projec.Game.Progress.Turns.{apply_moves-Keeps}
use computer_networks_projec.Game.Progress.Start.{IsPlayable, game_init-IsWellFormed}
use computer_networks_projec.Game.Agreement.Turns.{InStep, apply_moves-Follows}
use computer_networks_projec.Game.Agreement.Opening.{game_init-Follows}

-- What a client does with a list of turns.
unfoldable pub apply_turns : List Turn → Game → Game
apply_turns [] g = g
apply_turns (t ∷ ts) g = apply_turns ts (apply_turn t g)

apply_turns-append :
    (ts : List Turn) (t : Turn) (g : Game)
    → apply_turns (ts ++ t ∷ []) g ≡ apply_turn t (apply_turns ts g)
unfolding apply_turns
apply_turns-append [] t g = refl
apply_turns-append (u ∷ ts) t g = apply_turns-append ts t (apply_turn u g)

-- The server's game and container after so many turns, against a client who got those turns.
pub record Shown (n k : ℕ) (client s : Game) (c : TurnContainer) : Type 0 where
  pub in_step : InStep s (apply_turns c.turns client)
  pub well_formed : IsWellFormed n s
  pub counted : length c.turns ≡ k

append-Shown :
    (n k : ℕ) (client s s' : Game) (c : TurnContainer) (t : Turn)
    → Shown n k client s c
    → InStep s' (apply_turn t (apply_turns c.turns client))
    → IsWellFormed n s'
    → Shown n (suc k) client s' (append_new_turn t c)
unfolding append_new_turn
append-Shown n k client s s' c t a i w = record {
  in_step = rw (apply_turns-append c.turns t client) i;
  well_formed = w;
  counted = omega (arith, length-append c.turns (t ∷ []), a.counted);
}

module _ (rng : Generator) where
  -- One more turn keeps client and server together.
  pub apply_moves-Shown :
      (n k : ℕ) (client : Game) (s : GameServer rng.State) (slots : Slots) (c : TurnContainer)
      → Shown n k client s.game c
      → n ≤ length slots
      → Returns
          (λ r.
            Shown n (suc k) client r.0.game (append_new_turn r.2 c) × (length r.1 ≡ length slots))
          (apply_moves rng s slots)
  apply_moves-Shown n k client s slots c a h =
      let (r, e, (w, same)) =
        Returns-some _ (apply_moves rng s slots)
          (apply_moves-Keeps rng n s slots a.well_formed h) in
      let step =
        Post-some _ (apply_moves rng s slots)
          (apply_moves-Follows rng s slots (apply_turns c.turns client) a.in_step.agrees) e in
      rw e (append-Shown n k client s.game r.0.game c r.2 a step w, same)

  -- Turn 0, for a client that was made from the greeting and a full lobby.
  pub game_init-Shown :
      (op : Options) (t : ℕ) (players : List (ℕ × Player))
      → IsPlayable op
      → IsFullLobby op.players_count players
      → Returns
          (λ r.
            Shown op.players_count 1
              (Client.create t (hello_of op) players)
              r.0.game
              (append_new_turn r.1 TurnContainer.create))
          (game_init rng (Server.create rng op))
  unfolding append_new_turn TurnContainer.create apply_turns
  game_init-Shown op t players h full =
      let (r, e, w) =
        Returns-some _ (game_init rng (Server.create rng op)) (game_init-IsWellFormed rng op h) in
      let i =
        Post-some _ (game_init rng (Server.create rng op)) (game_init-Follows rng op t players full)
          e in
      rw e (record { in_step = i; well_formed = w; counted = refl })
