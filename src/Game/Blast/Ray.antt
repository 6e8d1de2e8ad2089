-- ===== src/Game/Blast/Ray.antt =====
-- The fields in one direction from a field, by their distance.
use computer_networks_projec.Base.{
  ℕ, zero, suc, ◌+◌, ◌≤◌, ◌<◌, ◌≡◌, ◌↔◌, ◌⊎◌, inl, inr, true, false, arith,
}
use computer_networks_projec.Base.Int.{ℤ, pos, ◌+ℤ◌}
use computer_networks_projec.Config.{IsU16}
use computer_networks_projec.Messages.{Position}
use computer_networks_projec.Container.PositionSet
use computer_networks_projec.Game.{Game, minus_one, in_range, cell}
use computer_networks_projec.Game.WellFormed.{OnBoard}

pub data Way : Type 0 where
  up right down left : Way

-- The arguments with which `find_explosions` calls `explode_one_direction`.
abbrev pub dx : Way → ℤ
dx up = pos 0
dx right = pos 1
dx down = pos 0
dx left = minus_one

abbrev pub dy : Way → ℤ
dy up = pos 1
dy right = pos 0
dy down = minus_one
dy left = pos 0

-- `q` lies `k` fields from `p` on.
abbrev pub Ahead : Way → ℕ → Position → Position → Type 0
Ahead up k p q = (q.x ≡ p.x) × (q.y ≡ p.y + k)
Ahead right k p q = (q.x ≡ p.x + k) × (q.y ≡ p.y)
Ahead down k p q = (q.x ≡ p.x) × (q.y + k ≡ p.y)
Ahead left k p q = (q.x + k ≡ p.x) × (q.y ≡ p.y)

-- An explosion at `p` reaches `q`: `q` is on the board, not farther than the radius, and no field
-- before it, `p` included, is a block.
pub record Hits (g : Game) (w : Way) (p q : Position) : Type 0 where
  pub distance : ℕ
  pub ahead : Ahead w distance p q
  pub near : distance ≤ g.explosion_radius
  pub on_board : OnBoard g q
  pub clear :
      (j : ℕ) (b : Position)
      → j < distance
      → Ahead w j p b
      → PositionSet.contains b g.blocks ≡ false

-- One step from a field: off the board's left or lower edge, or to the next field.
abbrev pub Next : Game → Way → Position → Type 0
Next g w p =
    ((in_range g (pos p.x +ℤ dx w) (pos p.y +ℤ dy w) ≡ false)
      × ((k : ℕ) (q : Position) → ¬ Ahead w (suc k) p q))
    ⊎ ((p' : Position) × (pos p.x +ℤ dx w ≡ pos p'.x)
        × (pos p.y +ℤ dy w ≡ pos p'.y)
        × ((k : ℕ) (q : Position) → Ahead w (suc k) p q ↔ Ahead w k p' q))

Next-down : (g : Game) (x y : ℕ) → Next g down (record { x = x; y = y })
unfolding in_range ◌+ℤ◌
Next-down g x zero = inl (ground arith, λ k q h. omega arith)
Next-down g x (suc y) = inr (
  record { x = x; y = y },
  ground arith,
  ground arith,
  λ k q. (λ h. omega arith, λ h. omega arith),
)

Next-left : (g : Game) (x y : ℕ) → Next g left (record { x = x; y = y })
unfolding in_range ◌+ℤ◌
Next-left g zero y = inl (ground arith, λ k q h. omega arith)
Next-left g (suc x) y = inr (
  record { x = x; y = y },
  ground arith,
  ground arith,
  λ k q. (λ h. omega arith, λ h. omega arith),
)

pub Next-field : (g : Game) (w : Way) (p : Position) → Next g w p
unfolding in_range ◌+ℤ◌
Next-field g up p = inr (
  record p { y = p.y + 1 },
  ground arith,
  ground arith,
  λ k q. (λ h. omega arith, λ h. omega arith),
)
Next-field g right p = inr (
  record p { x = p.x + 1 },
  ground arith,
  ground arith,
  λ k q. (λ h. omega arith, λ h. omega arith),
)
Next-field g down p = Next-down g p.x p.y
Next-field g left p = Next-left g p.x p.y

pub in_range_iff : (g : Game) (p : Position) → (in_range g (pos p.x) (pos p.y) ≡ true) ↔ OnBoard g p
unfolding in_range
in_range_iff g p = (λ h. ground arith, λ h. ground arith)

-- On the board the cast to 16 bits loses nothing.
pub cell_lem :
    (g : Game) (p : Position)
    → IsU16 g.size_x
    → IsU16 g.size_y
    → OnBoard g p
    → cell (pos p.x) (pos p.y) ≡ p
unfolding cell
cell_lem g p hx hy b = ground arith
