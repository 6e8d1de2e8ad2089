-- ===== src/Game/WellFormed.antt =====
-- The invariant of the server's game: everything stands on the board, and every player has a
-- position and a score.
use computer_networks_projec.Base.{ℕ, ◌<◌, ◌≡◌, true, false, List, arith, length, Returns}
use computer_networks_projec.Base.Int.{pos, ◌+ℤ◌}
use computer_networks_projec.Config.{IsU16}
use computer_networks_projec.Messages.{Position, Bomb}
use computer_networks_projec.Container.PositionSet
use computer_networks_projec.Container.Laws.{MapAll, SetAll, Has, IsDistinct}
use computer_networks_projec.Game.{Game, cell}
use computer_networks_projec.Game.Server.{
  Generator, is_position_legal, step_of, random_position, remainder,
}

abbrev pub OnBoard : Game → Position → Type 0
OnBoard g p = (p.x < g.size_x) × (p.y < g.size_y)

-- `players` have a score, and `standing` of them a position: while a game is set up, these differ.
pub record IsSound (players standing : ℕ) (g : Game) : Type 0 where
  pub wide : 0 < g.size_x
  pub tall : 0 < g.size_y
  pub width : IsU16 g.size_x
  pub height : IsU16 g.size_y
  pub scored : length g.scores ≡ players
  pub placed : Has standing g.player_positions
  pub players_on_board : MapAll (OnBoard g) g.player_positions
  pub blocks_on_board : SetAll (OnBoard g) g.blocks
  pub bombs_on_board : MapAll (λ (b : Bomb). OnBoard g b.position) g.bombs
  pub distinct : IsDistinct g.bombs

-- Between two turns.
abbrev pub IsWellFormed : ℕ → Game → Type 0
IsWellFormed n = IsSound n n

-- On a board whose sizes fit 16 bits, a legal step from a field of the board ends on the board, on
-- a field that is not blocked.
pub legal_step :
    (g : Game) (p : Position) (direction : ℕ)
    → IsU16 g.size_x
    → IsU16 g.size_y
    → OnBoard g p
    → is_position_legal g p (step_of direction).0 (step_of direction).1 ≡ true
    → let target = cell (pos p.x +ℤ (step_of direction).0) (pos p.y +ℤ (step_of direction).1) in
      OnBoard g target × (PositionSet.contains target g.blocks ≡ false)
unfolding is_position_legal step_of cell ◌+ℤ◌
legal_step g p direction hx hy b legal = ground arith

module _ (rng : Generator) (g : Game) where
  pub random_position-OnBoard :
      (state : rng.State)
      → 0 < g.size_x
      → 0 < g.size_y
      → IsU16 g.size_x
      → IsU16 g.size_y
      → Returns (λ r. OnBoard g r.0) (random_position rng g.size_x g.size_y state)
  unfolding random_position remainder
  random_position-OnBoard state wx wy hx hy = ground arith

module _ {players placed : ℕ} {g : Game} (w : IsSound players placed g) where
  pub with_positions :
      (placed' : ℕ) (m : List (ℕ × Position))
      → Has placed' m
      → MapAll (OnBoard g) m
      → IsSound players placed' (record g { player_positions = m })
  with_positions placed' m h a = record {
    wide = w.wide;
    tall = w.tall;
    width = w.width;
    height = w.height;
    scored = w.scored;
    placed = h;
    players_on_board = a;
    blocks_on_board = w.blocks_on_board;
    bombs_on_board = w.bombs_on_board;
    distinct = w.distinct;
  }

  pub with_blocks :
      (s : List Position) → SetAll (OnBoard g) s → IsSound players placed (record g { blocks = s })
  with_blocks s a = record {
    wide = w.wide;
    tall = w.tall;
    width = w.width;
    height = w.height;
    scored = w.scored;
    placed = w.placed;
    players_on_board = w.players_on_board;
    blocks_on_board = a;
    bombs_on_board = w.bombs_on_board;
    distinct = w.distinct;
  }

  pub with_bombs :
      (m : List (ℕ × Bomb))
      → MapAll (λ (b : Bomb). OnBoard g b.position) m
      → IsDistinct m
      → IsSound players placed (record g { bombs = m })
  with_bombs m a d = record {
    wide = w.wide;
    tall = w.tall;
    width = w.width;
    height = w.height;
    scored = w.scored;
    placed = w.placed;
    players_on_board = w.players_on_board;
    blocks_on_board = w.blocks_on_board;
    bombs_on_board = a;
    distinct = d;
  }

  pub with_scores :
      (m : List (ℕ × ℕ)) → length m ≡ players → IsSound players placed (record g { scores = m })
  with_scores m e = record {
    wide = w.wide;
    tall = w.tall;
    width = w.width;
    height = w.height;
    scored = e;
    placed = w.placed;
    players_on_board = w.players_on_board;
    blocks_on_board = w.blocks_on_board;
    bombs_on_board = w.bombs_on_board;
    distinct = w.distinct;
  }

  -- The sets of the turn, the explosions and the turn's number do not matter.
  pub with_turn :
      (turn : ℕ) (robots : List ℕ) (gone explosions : List Position)
      → IsSound players placed (record g {
        turn = turn;
        turn_robots_destroyed = robots;
        turn_blocks_destroyed = gone;
        explosions = explosions;
      })
  with_turn turn robots gone explosions = record {
    wide = w.wide;
    tall = w.tall;
    width = w.width;
    height = w.height;
    scored = w.scored;
    placed = w.placed;
    players_on_board = w.players_on_board;
    blocks_on_board = w.blocks_on_board;
    bombs_on_board = w.bombs_on_board;
    distinct = w.distinct;
  }
