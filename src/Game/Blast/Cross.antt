-- ===== src/Game/Blast/Cross.antt =====
-- The fields that an explosion reaches are those in the four directions from the bomb, on the
-- board, within the radius and not behind a block.
use computer_networks_projec.Base.{
  ℕ, zero, suc, ◌+◌, ◌≤◌, ◌<◌, ◌≡◌, sym, ◌∙◌, subst, ◌↔◌, ◌⊎◌, inl, inr, Bool, true, false, arith,
  Bool-cases, List,
}
use computer_networks_projec.Base.Int.{ℤ, pos}
use computer_networks_projec.Config.{IsU16}
use computer_networks_projec.Messages.{Position}
use computer_networks_projec.Container.PositionSet
use computer_networks_projec.Game.{Game, in_range, board_fuel, explode_one_direction}
use computer_networks_projec.Game.WellFormed.{OnBoard}
use computer_networks_projec.Game.Blast.Ray.{
  Way, up, right, down, left, dx, dy, Ahead, Hits, Next-field, in_range_iff, cell_lem,
}
use computer_networks_projec.Game.Blast.Loop.{
  Reached, Leaves, Added, Reached-in_range, explode_loop-Added,
}

-- So many steps lead off the board.
abbrev Enough : Way → Game → ℕ → Position → Type 0
Enough up g f p = g.size_y ≤ p.y + f
Enough right g f p = g.size_x ≤ p.x + f
Enough down g f p = p.y < f
Enough left g f p = p.x < f

Enough-step :
    (w : Way) (g : Game) (f : ℕ) (p p' : Position)
    → Enough w g (suc f) p
    → Ahead w 1 p p'
    → Enough w g f p'
Enough-step up g f p p' e a = omega arith
Enough-step right g f p p' e a = omega arith
Enough-step down g f p p' e a = omega arith
Enough-step left g f p p' e a = omega arith

Enough-off : (w : Way) (g : Game) (p : Position) → Enough w g 0 p → ¬ OnBoard g p
Enough-off up g p e b = omega arith
Enough-off right g p e b = omega arith
Enough-off down g p e b = omega arith
Enough-off left g p e b = omega arith

Ahead-self : (w : Way) (p : Position) → Ahead w 0 p p
Ahead-self up p = omega arith
Ahead-self right p = omega arith
Ahead-self down p = omega arith
Ahead-self left p = omega arith

Ahead-zero : (w : Way) (p q : Position) → Ahead w 0 p q → p ≡ q
Ahead-zero up p q a = ground arith
Ahead-zero right p q a = ground arith
Ahead-zero down p q a = ground arith
Ahead-zero left p q a = ground arith

-- A field between two fields of the board is on the board.
OnBoard-between :
    (w : Way) (g : Game) (k : ℕ) (p p' q : Position)
    → Ahead w 1 p p'
    → Ahead w k p' q
    → OnBoard g p
    → OnBoard g q
    → OnBoard g p'
OnBoard-between up g k p p' q a b hp hq = omega arith
OnBoard-between right g k p p' q a b hp hq = omega arith
OnBoard-between down g k p p' q a b hp hq = omega arith
OnBoard-between left g k p p' q a b hp hq = omega arith

module _ (g : Game) (w : Way) where
  off-Leaves : (f : ℕ) (x y : ℤ) → in_range g x y ≡ false → Leaves g (dx w) (dy w) f x y
  off-Leaves zero x y h = h
  off-Leaves (suc f) x y h = inl h

  Enough-Leaves :
      (f : ℕ) (p : Position) → Enough w g f p → Leaves g (dx w) (dy w) f (pos p.x) (pos p.y)
  Enough-Leaves zero p e = elim (Bool-cases (in_range g (pos p.x) (pos p.y))) [
    | inl here ↦ absurd (Enough-off w g p e ((in_range_iff g p).0 here))
    | inr out ↦ out
  ]
  Enough-Leaves (suc f) p e = elim (Next-field g w p) [
    | inl (out, _) ↦ inr (off-Leaves f _ _ out)
    | inr (p', ex, ey, ah) ↦ inr (
        rw (ex, ey) (Enough-Leaves f p' (Enough-step w g f p p' e ((ah 0 p').1 (Ahead-self w p')))))
  ]

  -- `k` steps lead from `p` to `q`, which is on the board, and there is no block before it.
  abbrev Line : ℕ → Position → Position → Type 0
  Line k p q =
      Ahead w k p q
      × OnBoard g q
      × ((j : ℕ) (b : Position) → j < k → Ahead w j p b → PositionSet.contains b g.blocks ≡ false)

  module _ (hx : IsU16 g.size_x) (hy : IsU16 g.size_y) where
    Reached-Line :
        (k : ℕ) (p q : Position) → Reached g (dx w) (dy w) k (pos p.x) (pos p.y) q → Line k p q
    Reached-Line zero p q (i, e) =
        let b = (in_range_iff g p).0 i in
        let same : p ≡ q = sym (cell_lem g p hx hy b) ∙ e in
        (subst (Ahead w 0 p) same (Ahead-self w p), subst (OnBoard g) same b, λ j c h. elim h [ ])
    Reached-Line (suc k) p q (i, free, rest) = elim (Next-field g w p) [
      | inl (out, _) ↦ absurd (contradiction out (Reached-in_range g (dx w) (dy w) k _ _ q rest))
      | inr (p', ex, ey, ah) ↦
          let (a, b, clear) = Reached-Line k p' q (rw (ex, ey) at rest) in
          ((ah k q).1 a, b, clear_from p' ah clear)
    ]
      where
        contradiction : {t : Bool} → t ≡ false → t ≡ true → ⊥
        contradiction a b = cc

        here_free : PositionSet.contains p g.blocks ≡ false
        here_free = rw (cell_lem g p hx hy ((in_range_iff g p).0 i)) at free

        clear_from :
            (p' : Position)
            → ((m : ℕ) (c : Position) → Ahead w (suc m) p c ↔ Ahead w m p' c)
            → ((j : ℕ) (c : Position)
                → j < k
                → Ahead w j p' c
                → PositionSet.contains c g.blocks ≡ false)
            → (j : ℕ) (c : Position) → j < suc k
            → Ahead w j p c
            → PositionSet.contains c g.blocks ≡ false
        clear_from p' ah clear zero c h a =
            subst (λ b. PositionSet.contains b g.blocks ≡ false) (Ahead-zero w p c a) here_free
        clear_from p' ah clear (suc j) c h a = clear j c (omega arith) ((ah j c).0 a)

    Line-Reached :
        (k : ℕ) (p q : Position)
        → OnBoard g p
        → Line k p q
        → Reached g (dx w) (dy w) k (pos p.x) (pos p.y) q
    Line-Reached zero p q b l =
        ((in_range_iff g p).1 b, cell_lem g p hx hy b ∙ Ahead-zero w p q l.0)
    Line-Reached (suc k) p q b l = elim (Next-field g w p) [
      | inl (_, none_ahead) ↦ absurd (none_ahead k q l.0)
      | inr (p', ex, ey, ah) ↦
          let a = (ah k q).0 l.0 in
          let one = (ah 0 p').1 (Ahead-self w p') in
          (
            (in_range_iff g p).1 b,
            rw (cell_lem g p hx hy b) (l.2 0 p (omega arith) (Ahead-self w p)),
            rw (ex, ey)
                (Line-Reached k p' q (OnBoard-between w g k p p' q one a b l.1)
                  (a, l.1, λ j c h d. l.2 (suc j) c (omega arith) ((ah j c).1 d))),
          )
    ]

    -- On a board whose sizes fit 16 bits, a call of `explode_one_direction` from a field of it, in
    -- one of the four directions, adds the fields that it hits in that direction, and no others.
    pub explode_one_direction-Hits :
        (p q : Position)
        → OnBoard g p
        → (PositionSet.contains q (explode_one_direction p (dx w) (dy w) g).explosions ≡ true)
          ↔ ((PositionSet.contains q g.explosions ≡ true) ⊎ Hits g w p q)
    unfolding explode_one_direction board_fuel
    explode_one_direction-Hits p q b =
        let loop =
          explode_loop-Added g (dx w) (dy w) (board_fuel g) (pos p.x) (pos p.y) 0 g.explosions q
            (ground arith) (Enough-Leaves (board_fuel g) p (enough w b)) in
        (λ e. there (loop.0 e), λ h. loop.1 (back h))
      where
        enough : (v : Way) → OnBoard g p → Enough v g (board_fuel g) p
        enough up h = ground arith
        enough right h = ground arith
        enough down h = ground arith
        enough left h = ground arith

        there :
            (PositionSet.contains q g.explosions ≡ true)
              ⊎ Added g (dx w) (dy w) (pos p.x) (pos p.y) 0 q
            → (PositionSet.contains q g.explosions ≡ true) ⊎ Hits g w p q
        there (inl e) = inl e
        there (inr (k, near, reached)) =
            let (a, on, clear) = Reached-Line k p q reached in
            inr
              (record { distance = k; ahead = a; near = omega arith; on_board = on; clear = clear })

        back :
            (PositionSet.contains q g.explosions ≡ true) ⊎ Hits g w p q
            → (PositionSet.contains q g.explosions ≡ true)
              ⊎ Added g (dx w) (dy w) (pos p.x) (pos p.y) 0 q
        back (inl e) = inl e
        back (inr h) = inr (
          h.distance,
          omega (arith, h.near),
          Line-Reached h.distance p q b (h.ahead, h.on_board, h.clear),
        )

-- What is hit does not depend on what has exploded before.
pub Hits-explosions :
    (g : Game) (es : List Position) (w : Way) (p q : Position)
    → Hits (record g { explosions = es }) w p q ↔ Hits g w p q
Hits-explosions g es w p q = (
  λ h. record {
    distance = h.distance;
    ahead = h.ahead;
    near = h.near;
    on_board = h.on_board;
    clear = h.clear;
  },
  λ h. record {
    distance = h.distance;
    ahead = h.ahead;
    near = h.near;
    on_board = h.on_board;
    clear = h.clear;
  },
)
