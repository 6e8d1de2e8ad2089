-- ===== src/Server/Match.antt =====
-- One round of the loop of `main` in src/server.cpp: a whole game, and the clients' view of it.
use computer_networks_projec.Base.{
  ℕ, zero, suc, ◌+◌, ◌≤◌, ◌≡◌, refl, subst, Option, some, ◌>>=◌, List, arith, length, Returns,
  Returns-some,
}
use computer_networks_projec.Messages.{Player, ClientMessage}
use computer_networks_projec.Container.Map
use computer_networks_projec.Concurrency.AcceptedPlayers.{IsFullLobby}
use computer_networks_projec.Concurrency.MoveContainer.{
  Slots, receive, length-receive, length-create,
}
use computer_networks_projec.Concurrency.MoveContainer
use computer_networks_projec.Concurrency.TurnContainer.{
  TurnContainer, append_new_turn, mark_the_game_as_finished, get_turn,
}
use computer_networks_projec.Concurrency.TurnContainer
use computer_networks_projec.Concurrency.Blocking.{returned}
use computer_networks_projec.Game.{Game}
use computer_networks_projec.Game.Client.{apply_turn}
use computer_networks_projec.Game.Client
use computer_networks_projec.Game.Server.{
  Options, Generator, GameServer, game_init, apply_moves, get_score_map, hello_of,
}
use computer_networks_projec.Game.Server
use computer_networks_projec.Server.Rounds.{apply_turns, Shown, apply_moves-Shown, game_init-Shown}
use computer_networks_projec.Game.Progress.Start.{IsPlayable}
use computer_networks_projec.Game.Agreement.Turns.{InStep}

-- The moves that the clients' threads put into the container while a turn waits for its snapshot.
abbrev pub Updates : Type 0
Updates = List (ℕ × ClientMessage)

module _ (rng : Generator) where
  -- The loop over the turns: the rounds left, the round's number, and the moves that come in each.
  unfoldable pub carry_out :
      ℕ
      → ℕ
      → (ℕ → Updates)
      → GameServer rng.State
      → Slots
      → TurnContainer
      → Option (GameServer rng.State × Slots × TurnContainer)
  unfolding append_new_turn
  carry_out zero i us s slots c = some (s, slots, c)
  carry_out (suc left) i us s slots c = apply_moves rng s (receive (us i) slots) >>= λ r.
      carry_out left (suc i) us r.0 r.1 (append_new_turn r.2 c)

  -- From the start of the game to its end, on the containers of this game: the scores, and the
  -- container of turns that the clients' threads read. `reset_shared`, which comes before the mark,
  -- makes new containers and does not touch these.
  unfoldable pub play_match :
      Options
      → (ℕ → Updates)
      → Slots
      → TurnContainer
      → Option (GameServer rng.State × List (ℕ × ℕ) × TurnContainer)
  unfolding carry_out mark_the_game_as_finished get_score_map
  play_match op updates slots c = game_init rng (Server.create rng op) >>= λ r.
      carry_out op.game_length 0 updates r.0 slots (append_new_turn r.1 c) >>= λ q.
      let scores = get_score_map rng q.0 in some (q.0, scores, mark_the_game_as_finished scores q.2)

module _ (rng : Generator) (n : ℕ) (client : Game) where
  carry_out-Shown :
      (left i k : ℕ) (us : ℕ → Updates) (s : GameServer rng.State) (slots : Slots)
      (c : TurnContainer)
      → Shown n k client s.game c
      → n ≤ length slots
      → Returns (λ r. Shown n (k + left) client r.0.game r.2) (carry_out rng left i us s slots c)
  unfolding carry_out
  carry_out-Shown zero i k us s slots c a h = subst (λ j. Shown n j client s.game c) (omega arith) a
  carry_out-Shown (suc left) i k us s slots c a h =
      let slots' = receive (us i) slots in
      let room = length-receive (us i) slots in
      let (r, e, (next, same)) =
        Returns-some _ (apply_moves rng s slots')
          (apply_moves-Shown rng n k client s slots' c a (omega (arith, room))) in
      rw e (
        subst
          (λ j.
            Returns (λ q. Shown n j client q.0.game q.2)
              (carry_out rng left (suc i) us r.0 r.1 (append_new_turn r.2 c)))
          (omega arith)
          (carry_out-Shown left (suc i) (suc k) us r.0 r.1 (append_new_turn r.2 c) next
            (omega (arith, room, same))))

-- The whole game, on a board whose sizes are above 0 and fit 16 bits, for any generator, any lobby of the full set
-- of players and any moves that arrive at any time: the server plays it to the end without an
-- exception. It publishes turn 0 and as many turns as the options say. A client that was made from
-- the greeting and the list of players, and applied the turns in order, agrees with the server on the
-- board, the bombs, the positions, the scores and the turn's number; its scores are those that the
-- server announces.
pub play_match-InStep :
    (rng : Generator) (op : Options) (updates : ℕ → Updates) (t : ℕ) (players : List (ℕ × Player))
    → IsPlayable op
    → IsFullLobby op.players_count players
    → Returns
        (λ r.
          let client = apply_turns r.2.turns (Client.create t (hello_of op) players) in
          (length r.2.turns ≡ op.game_length + 1)
          × InStep r.0.game client
          × ((k : ℕ) → Map.find k r.1 ≡ Map.find k client.scores)
          × (TurnContainer.return_when_game_finished r.2 ≡ returned r.1))
        (play_match rng op updates (MoveContainer.create op.players_count) TurnContainer.create)
unfolding play_match
play_match-InStep rng op updates t players h full =
    let n = op.players_count in
    let client = Client.create t (hello_of op) players in
    let slots = MoveContainer.create n in
    let (r, e, start) =
      Returns-some _ (game_init rng (Server.create rng op))
        (game_init-Shown rng op t players h full) in
    let c = append_new_turn r.1 TurnContainer.create in
    let (q, e', a) = Returns-some _ (carry_out rng op.game_length 0 updates r.0 slots c) (
      carry_out-Shown rng n client op.game_length 0 1 updates r.0 slots c start
        (omega (arith, length-create n))) in
    rw (e, e')
      (
        omega (arith, a.counted),
        a.in_step,
        unfold get_score_map in a.in_step.agrees.scores,
        unfold TurnContainer.return_when_game_finished in refl,
      )
