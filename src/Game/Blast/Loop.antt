-- ===== src/Game/Blast/Loop.antt =====
-- The loop of `explode_one_direction`, step by step: which fields it adds, and that its fuel is
-- enough.
use computer_networks_projec.Base.{
  ℕ, zero, suc, ◌+◌, ◌%◌, ◌≤◌, ◌<◌, ◌≡◌, ◌↔◌, ◌⊎◌, inl, inr, true, false, arith, leb, Bool-cases,
  List, regroup_iff, swap_iff,
}
use computer_networks_projec.Base.Int.{ℤ, ◌+ℤ◌}
use computer_networks_projec.Config.{u16_size}
use computer_networks_projec.Messages.{Position, same}
use computer_networks_projec.Container.PositionSet
use computer_networks_projec.Game.{Game, in_range, cell, explode_loop}

or_contradiction : {A B : Type 0} → A ⊎ B → ¬ B → A
or_contradiction (inl a) h = a
or_contradiction (inr b) h = absurd (h b)

module _ (g : Game) (dx dy : ℤ) where
  -- After `k` steps over free fields of the board the loop stands on the field `q` of it.
  abbrev pub Reached : ℕ → ℤ → ℤ → Position → Type 0
  Reached zero x y q = (in_range g x y ≡ true) × (cell x y ≡ q)
  Reached (suc k) x y q =
      (in_range g x y ≡ true)
      × (PositionSet.contains (cell x y) g.blocks ≡ false)
      × Reached k (x +ℤ dx) (y +ℤ dy) q

  -- Within `f` steps the way leaves the board.
  abbrev pub Leaves : ℕ → ℤ → ℤ → Type 0
  Leaves zero x y = in_range g x y ≡ false
  Leaves (suc f) x y = (in_range g x y ≡ false) ⊎ Leaves f (x +ℤ dx) (y +ℤ dy)

  abbrev pub Added : ℤ → ℤ → ℕ → Position → Type 0
  Added x y r q = (k : ℕ) × (r + k ≤ g.explosion_radius) × Reached k x y q

  pub Reached-in_range : (k : ℕ) (x y : ℤ) (q : Position) → Reached k x y q → in_range g x y ≡ true
  Reached-in_range zero x y q h = h.0
  Reached-in_range (suc k) x y q h = h.0

  not-Added : (x y : ℤ) (r : ℕ) (q : Position) → in_range g x y ≡ false → ¬ Added x y r q
  not-Added x y r q h (k, near, reached) = ground (arith, Reached-in_range k x y q reached)

  -- What the loop adds is what one step adds and what the rest of the way adds.
  Added-step :
      (x y : ℤ) (r : ℕ) (q : Position)
      → in_range g x y ≡ true
      → r ≤ g.explosion_radius
      → PositionSet.contains (cell x y) g.blocks ≡ false
      → Added x y r q ↔ ((same (cell x y) q ≡ true) ⊎ Added (x +ℤ dx) (y +ℤ dy) (r + 1) q)
  Added-step x y r q i n b = (there, back)
    where
      there : Added x y r q → (same (cell x y) q ≡ true) ⊎ Added (x +ℤ dx) (y +ℤ dy) (r + 1) q
      there (zero, near, h) = inl ((PositionSet.same_iff (cell x y) q).1 h.1)
      there (suc k, near, h) = inr (k, omega arith, h.2)

      back : (same (cell x y) q ≡ true) ⊎ Added (x +ℤ dx) (y +ℤ dy) (r + 1) q → Added x y r q
      back (inl h) = (0, omega arith, (i, (PositionSet.same_iff (cell x y) q).0 h))
      back (inr (k, near, h)) = (suc k, omega arith, (i, b, h))

  Added-blocked :
      (x y : ℤ) (r : ℕ) (q : Position)
      → in_range g x y ≡ true
      → r ≤ g.explosion_radius
      → PositionSet.contains (cell x y) g.blocks ≡ true
      → Added x y r q ↔ (same (cell x y) q ≡ true)
  Added-blocked x y r q i n b = (there, back)
    where
      there : Added x y r q → same (cell x y) q ≡ true
      there (zero, near, h) = (PositionSet.same_iff (cell x y) q).1 h.1
      there (suc k, near, h) = ground arith

      back : same (cell x y) q ≡ true → Added x y r q
      back h = (0, omega arith, (i, (PositionSet.same_iff (cell x y) q).0 h))

  not-Added_far :
      (x y : ℤ) (r : ℕ) (q : Position) → leb r g.explosion_radius ≡ false → ¬ Added x y r q
  not-Added_far x y r q h (k, near, reached) = ground arith

  Leaves-tail :
      (f : ℕ) (x y : ℤ) → Leaves (suc f) x y → in_range g x y ≡ true → Leaves f (x +ℤ dx) (y +ℤ dy)
  Leaves-tail f x y (inl out) h = cc
  Leaves-tail f x y (inr l) h = l

  next_radius : (r f : ℕ) → r + suc f < u16_size → (r + 1) % u16_size ≡ r + 1
  next_radius r f h = omega arith

  -- The way leaves the board while there is fuel: then the loop adds the fields that are reached,
  -- and no others.
  pub explode_loop-Added :
      (f : ℕ) (x y : ℤ) (r : ℕ) (es : List Position) (q : Position)
      → r + f < u16_size
      → Leaves f x y
      → (PositionSet.contains q (explode_loop g f dx dy x y r es) ≡ true)
        ↔ ((PositionSet.contains q es ≡ true) ⊎ Added x y r q)
  unfolding explode_loop
  explode_loop-Added zero x y r es q h out =
      (λ e. inl e, λ s. or_contradiction s (not-Added x y r q out))
  explode_loop-Added (suc f) x y r es q h leaves = elim (Bool-cases (in_range g x y)) [
    | inr out ↦ rw out (λ e. inl e, λ s. or_contradiction s (not-Added x y r q out))
    | inl here ↦ elim (Bool-cases (leb r g.explosion_radius)) [
      | inr far ↦ rw (here, far) (λ e. inl e, λ s. or_contradiction s (not-Added_far x y r q far))
      | inl near ↦ elim (Bool-cases (PositionSet.contains (cell x y) g.blocks)) [
        | inl blocked ↦
            rw (here, near, blocked)
              (swap_iff (PositionSet.contains-insert_iff q (cell x y) es)
                (Added-blocked x y r q here (ground arith) blocked))
        | inr free ↦
            rw (here, near, free, next_radius r f h)
              (regroup_iff
                (explode_loop-Added f (x +ℤ dx) (y +ℤ dy) (r + 1) (PositionSet.insert (cell x y) es)
                  q (omega arith) (Leaves-tail f x y leaves here))
                (PositionSet.contains-insert_iff q (cell x y) es)
                (Added-step x y r q here (ground arith) free))
      ]
    ]
  ]
