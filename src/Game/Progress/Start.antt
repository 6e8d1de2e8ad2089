-- ===== src/Game/Progress/Start.antt =====
-- `GameServer(options)` and `game_init`: the game before its first turn is well formed.
use computer_networks_projec.Base.{
  ℕ, zero, suc, ◌+◌, ◌≤◌, ◌<◌, ◌≡◌, refl, sym, ◌∙◌, subst, none, some, List, [], arith, leb, ltb,
  ◌&&◌, if◌then◌else◌, length, Returns, Returns-bind, Returns-some,
}
use computer_networks_projec.Config.{IsU16}
use computer_networks_projec.Messages.{Event}
use computer_networks_projec.Container.Map
use computer_networks_projec.Container.PositionSet
use computer_networks_projec.Container.Laws.{insert-MapAll, insert-Has, insert-SetAll}
use computer_networks_projec.Game.Server.{
  Generator, GameServer, handle_exploding_bomb, erase_bomb, visit_bomb, explode_bombs, drop_bomb,
  drop_block, walk, apply_player_move, random_position, respawn, play, serve_player, serve_players,
  update_blocks, begin_turn, end_turn, apply_moves, step_of, is_position_legal,
}
use computer_networks_projec.Game.WellFormed.{
  IsWellFormed, random_position-OnBoard, with_positions, with_blocks,
}
use computer_networks_projec.Game.Progress.Steps.{Keeps}
use computer_networks_projec.Game.Server.{
  zero_scores, spawn, spawn_all, put_block, put_blocks, game_init, Options,
}
use computer_networks_projec.Game.Server
use computer_networks_projec.Game.WellFormed.{IsSound}

-- What the scores of a new game hold, and how many they are.
pub find-zero_scores :
    (left i : ℕ) (m : List (ℕ × ℕ))
    → ((k : ℕ) → i ≤ k → Map.find k m ≡ none)
    → (k : ℕ)
    → Map.find k (zero_scores left i m)
      ≡ (if leb i k && ltb k (i + left) then some 0 else Map.find k m)
unfolding zero_scores
find-zero_scores zero i m h k = ground arith
find-zero_scores (suc left) i m h k = ground (
  arith,
  find-zero_scores left (suc i) (Map.insert i 0 m)
      (λ j lt. ground (arith, Map.find-insert j i 0 m, h j (omega arith))) k,
  Map.find-insert k i 0 m,
  h i (omega arith),
)

length-zero_scores :
    (left i : ℕ) (m : List (ℕ × ℕ))
    → ((k : ℕ) → i ≤ k → Map.find k m ≡ none)
    → length (zero_scores left i m) ≡ length m + left
unfolding zero_scores
length-zero_scores zero i m h = omega arith
length-zero_scores (suc left) i m h = omega (
  arith,
  length-zero_scores left (suc i) (Map.insert i 0 m)
      (λ j lt. ground (arith, Map.find-insert j i 0 m, h j (omega arith))),
  Map.length-insert i 0 m (h i (omega arith)),
)

-- Every player has a score.
pub create_scored :
    (rng : Generator) (op : Options) → length (Server.create rng op).scores ≡ op.players_count
unfolding Server.create Map.find
create_scored rng op = length-zero_scores op.players_count 0 [] (λ k lt. refl) ∙ omega arith

-- A board with at least one field, in the 16 bits of its sides.
abbrev pub IsPlayable : Options → Type 0
IsPlayable op = (0 < op.size_x) × (0 < op.size_y) × IsU16 op.size_x × IsU16 op.size_y

pub create-IsSound :
    (rng : Generator) (op : Options)
    → IsPlayable op
    → IsSound op.players_count 0 (Server.create rng op).game
unfolding Server.create Map.find PositionSet.contains
create-IsSound rng op h = record {
  wide = h.0;
  tall = h.1;
  width = h.2;
  height = h.3;
  scored = create_scored rng op;
  placed = λ k lt e. omega arith;
  players_on_board = λ k p e. cc;
  blocks_on_board = λ p e. cc;
  bombs_on_board = λ k b e. cc;
  distinct = tt;
}

module _ (rng : Generator) (n : ℕ) where
  spawn-IsSound :
      (id : ℕ) (s : GameServer rng.State) (es : List Event)
      → IsSound n id s.game
      → Returns (λ r. IsSound n (suc id) r.0.game) (spawn rng id s es)
  unfolding spawn
  spawn-IsSound id s es w =
      let ((p, state), e, b) =
        Returns-some _ (random_position rng s.size_x s.size_y s.random)
          (random_position-OnBoard rng s.game s.random w.wide w.tall w.width w.height) in
      rw e (
        with_positions w (suc id) _ (insert-Has id p s.player_positions w.placed)
          (insert-MapAll _ id p s.player_positions b w.players_on_board))

  spawn_all-IsSound :
      (left id : ℕ) (s : GameServer rng.State) (es : List Event)
      → IsSound n id s.game
      → Returns (λ r. IsSound n (id + left) r.0.game) (spawn_all rng left id s es)
  unfolding spawn_all
  spawn_all-IsSound zero id s es w = subst (λ k. IsSound n k s.game) (omega arith) w
  spawn_all-IsSound (suc left) id s es w =
      Returns-bind (λ r. IsSound n (suc id) r.0.game) _ (spawn rng id s es) _
        (spawn-IsSound id s es w)
        (λ r v.
          subst (λ k. Returns (λ q. IsSound n k q.0.game) (spawn_all rng left (suc id) r.0 r.1))
            (omega arith) (spawn_all-IsSound left (suc id) r.0 r.1 v))

  put_block-Keeps :
      (s : GameServer rng.State) (es : List Event)
      → IsWellFormed n s.game
      → Returns (Keeps n) (put_block rng s es)
  unfolding put_block
  put_block-Keeps s es w =
      let ((p, state), e, b) =
        Returns-some _ (random_position rng s.size_x s.size_y s.random)
          (random_position-OnBoard rng s.game s.random w.wide w.tall w.width w.height) in
      rw e (with_blocks w _ (insert-SetAll _ p s.blocks b w.blocks_on_board))

  put_blocks-Keeps :
      (left : ℕ) (s : GameServer rng.State) (es : List Event)
      → IsWellFormed n s.game
      → Returns (Keeps n) (put_blocks rng left s es)
  unfolding put_blocks
  put_blocks-Keeps zero s es w = w
  put_blocks-Keeps (suc left) s es w =
      Returns-bind (Keeps n) (Keeps n) (put_block rng s es) _ (put_block-Keeps s es w)
        (λ r v. put_blocks-Keeps left r.0 r.1 v)

-- With sizes of the board that are above 0 and fit 16 bits the game is set up without an exception,
-- and everybody and everything stands on the board.
pub game_init-IsWellFormed :
    (rng : Generator) (op : Options)
    → IsPlayable op
    → Returns (λ r. IsWellFormed op.players_count r.0.game) (game_init rng (Server.create rng op))
unfolding game_init
game_init-IsWellFormed rng op h =
    let s = Server.create rng op in
    let n = op.players_count in
    let w = create-IsSound rng op h in
    Returns-bind (Keeps n) _ (spawn_all rng (length s.scores) 0 s []) _
      (subst (λ k. Returns (Keeps n) (spawn_all rng k 0 s [])) (sym w.scored)
        (subst (λ k. Returns (λ q. IsSound n k q.0.game) (spawn_all rng n 0 s [])) (omega arith)
          (spawn_all-IsSound rng n n 0 s [] w)))
      (λ r v.
        Returns-bind (Keeps n) _ (put_blocks rng r.0.initial_blocks r.0 r.1) _
          (put_blocks-Keeps rng n r.0.initial_blocks r.0 r.1 v) (λ q u. u))
