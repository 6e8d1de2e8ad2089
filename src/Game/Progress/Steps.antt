-- ===== src/Game/Progress/Steps.antt =====
-- No step of the server's loops throws on a well-formed game, and the game stays well formed.
use computer_networks_projec.Base.{
  ℕ, ◌≤◌, ◌<◌, ◌≡◌, refl, some, List, arith, ◌==◌, length, Bool-cases, Option-cases, inl, inr, ◌⊎◌,
  Returns, Returns-some, get_elem?-total,
}
use computer_networks_projec.Messages.{Position, Bomb, Event, ClientMessage, join}
use computer_networks_projec.Container.Map
use computer_networks_projec.Container.IdSet
use computer_networks_projec.Container.PositionSet
use computer_networks_projec.Container.Laws.{
  assign-MapAll, emplace-MapAll, erase-MapAll, emplace-IsDistinct, erase-IsDistinct, assign-Has,
  insert-SetAll,
}
use computer_networks_projec.Concurrency.MoveContainer.{Slots}
use computer_networks_projec.Game.{find_explosions, explode_one_direction}
use computer_networks_projec.Game.Server.{
  Generator, GameServer, handle_exploding_bomb, erase_bomb, visit_bomb, drop_bomb, drop_block, walk,
  apply_player_move, random_position, respawn, play, serve_player, step_of, is_position_legal,
}
use computer_networks_projec.Game.WellFormed.{
  OnBoard, IsWellFormed, legal_step, random_position-OnBoard, with_positions, with_blocks,
  with_bombs, with_turn,
}

-- The state that a step returns is well formed; the events do not matter.
abbrev pub Keeps : {State : Type 0} → ℕ → GameServer State × List Event → Type 0
Keeps n r = IsWellFormed n r.0.game

module _ {State : Type 0} (n : ℕ) (s : GameServer State) (es : List Event)
    (w : IsWellFormed n s.game) where
  -- A visit keeps the game well formed; it leaves the bombs alone, or erases the one it is at.
  pub visit_bomb-Keeps :
      (id : ℕ) (bomb : Bomb)
      → Map.find id s.bombs ≡ some bomb
      → Returns
          (λ r. Keeps n r × ((r.0.bombs ≡ s.bombs) ⊎ (r.0.bombs ≡ Map.erase id s.bombs)))
          (visit_bomb id bomb s es)
  unfolding visit_bomb handle_exploding_bomb erase_bomb find_explosions explode_one_direction
  visit_bomb-Keeps id bomb e = elim (Bool-cases (bomb.timer == 0)) [
    | inr later ↦ rw later (w, inl refl)
    | inl now ↦
        rw (now, e)
          (
            with_turn
                (with_bombs w (Map.erase id s.bombs) (erase-MapAll _ id s.bombs w.bombs_on_board)
                  (erase-IsDistinct id s.bombs w.distinct))
                s.turn _ _ _,
            inr refl,
          )
  ]

  -- A player who is in the game has a position.
  module _ (id : ℕ) (lt : id < n) where
    position : (p : Position) × (Map.find id s.player_positions ≡ some p) × OnBoard s.game p
    position = elim (Option-cases (Map.find id s.player_positions)) [
      | inl e ↦ absurd (w.placed id lt e)
      | inr (p, e) ↦ (p, e, w.players_on_board id p e)
    ]

    drop_bomb-Keeps : Returns (Keeps n) (drop_bomb id s es)
    unfolding drop_bomb
    drop_bomb-Keeps =
        let (p, e, b) = position in
        rw e (
          with_bombs w _ (emplace-MapAll _ s.bomb_counter _ s.bombs b w.bombs_on_board)
            (emplace-IsDistinct s.bomb_counter _ s.bombs w.distinct))

    drop_block-Keeps : Returns (Keeps n) (drop_block id s es)
    unfolding drop_block
    drop_block-Keeps =
        let (p, e, b) = position in
        elim (Bool-cases (PositionSet.contains p s.blocks)) [
          | inl taken ↦ rw (e, taken) w
          | inr free ↦
              rw (e, free) (with_blocks w _ (insert-SetAll _ p s.blocks b w.blocks_on_board))
        ]

    walk-Keeps : (direction : ℕ) → Returns (Keeps n) (walk direction id s es)
    unfolding walk
    walk-Keeps direction =
        let (p, e, b) = position in
        elim (Bool-cases (is_position_legal s.game p (step_of direction).0 (step_of direction).1)) [
          | inr blocked ↦ rw (e, blocked) w
          | inl legal ↦
              rw (e, legal)
                (with_positions w n _ (assign-Has n id _ s.player_positions w.placed) (
                  assign-MapAll _ id _ s.player_positions
                    (legal_step s.game p direction w.width w.height b legal).0 w.players_on_board))
        ]

    apply_player_move-Keeps : (m : ClientMessage) → Returns (Keeps n) (apply_player_move m id s es)
    unfolding apply_player_move
    apply_player_move-Keeps (join name) = w
    apply_player_move-Keeps ClientMessage.place_bomb = drop_bomb-Keeps
    apply_player_move-Keeps ClientMessage.place_block = drop_block-Keeps
    apply_player_move-Keeps (ClientMessage.move direction) = walk-Keeps direction

module _ (rng : Generator) (n : ℕ) (s : GameServer rng.State) (es : List Event)
    (w : IsWellFormed n s.game) (id : ℕ) (lt : id < n) where
  respawn-Keeps : Returns (Keeps n) (respawn rng id s es)
  unfolding respawn
  respawn-Keeps =
      let (old, found, _) = position n s es w id lt in
      let ((p, state), e, b) =
        Returns-some _ (random_position rng s.size_x s.size_y s.random)
          (random_position-OnBoard rng s.game s.random w.wide w.tall w.width w.height) in
      rw (e, found)
        (with_positions w n _ (assign-Has n id p s.player_positions w.placed)
          (assign-MapAll _ id p s.player_positions b w.players_on_board))

  play-Keeps : (moves : Slots) → n ≤ length moves → Returns (Keeps n) (play rng moves id s es)
  unfolding play
  play-Keeps moves h =
      let (slot, e) = get_elem?-total moves id (omega arith) in
      elim (Bool-cases slot.0) [
        | inl new ↦ rw (e, new) (apply_player_move-Keeps n s es w id lt slot.1)
        | inr old ↦ rw (e, old) w
      ]

  pub serve_player-Keeps :
      (moves : Slots) → n ≤ length moves → Returns (Keeps n) (serve_player rng moves id s es)
  unfolding serve_player
  serve_player-Keeps moves h = elim (Bool-cases (IdSet.contains id s.turn_robots_destroyed)) [
    | inl destroyed ↦ rw destroyed respawn-Keeps
    | inr alive ↦ rw alive (play-Keeps moves h)
  ]
