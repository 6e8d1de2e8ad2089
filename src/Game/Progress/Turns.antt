-- ===== src/Game/Progress/Turns.antt =====
-- `GameServer::apply_moves` always returns, and `GameServer::game_init` sets up a well-formed game.
use computer_networks_projec.Base.{ℕ, ◌≤◌, ◌≡◌, [], arith, length, Returns, Returns-bind}
use computer_networks_projec.Concurrency.MoveContainer.{Slots, atomic_snapshot_and_clear}
use computer_networks_projec.Game.Server.{
  Generator, GameServer, explode_bombs, serve_players, begin_turn, apply_moves,
}
use computer_networks_projec.Game.WellFormed.{IsWellFormed}
use computer_networks_projec.Concurrency.MoveContainer.{length-mark_seen}
use computer_networks_projec.Game.Progress.Steps.{Keeps}
use computer_networks_projec.Game.Progress.Loops.{
  serve_players-Keeps, explode_bombs-Keeps, begin_turn-Keeps, end_turn-Keeps,
}

-- A turn on a well-formed game with a slot for every player throws nothing and divides by zero
-- nowhere; it leaves a well-formed game for the same players, and as many slots as before.
pub apply_moves-Keeps :
    (rng : Generator) (n : ℕ) (s : GameServer rng.State) (slots : Slots)
    → IsWellFormed n s.game
    → n ≤ length slots
    → Returns (λ r. IsWellFormed n r.0.game × (length r.1 ≡ length slots)) (apply_moves rng s slots)
unfolding apply_moves atomic_snapshot_and_clear
apply_moves-Keeps rng n s slots w h =
    let s1 = begin_turn rng s in
    let w1 = begin_turn-Keeps rng n s w in
    Returns-bind (Keeps n) _ (explode_bombs s1.bombs s1 []) _
      (explode_bombs-Keeps n s1.bombs s1 [] w1.distinct (λ k b e. e) w1)
      (λ r w2.
        Returns-bind (Keeps n) _ (serve_players rng (length r.0.scores) 0 slots r.0 r.1) _
          (serve_players-Keeps rng n (length r.0.scores) 0 slots r.0 r.1 (omega (arith, w2.scored))
            h w2)
          (λ q w3. (end_turn-Keeps rng n q.0 w3, length-mark_seen slots)))
