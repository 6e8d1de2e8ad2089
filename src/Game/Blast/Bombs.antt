-- ===== src/Game/Blast/Bombs.antt =====
-- A whole explosion: the fields that `find_explosions` marks.
use computer_networks_projec.Base.{◌≡◌, ◌↔◌, ◌⊎◌, inl, inr, true, List}
use computer_networks_projec.Config.{IsU16}
use computer_networks_projec.Messages.{Position, Bomb}
use computer_networks_projec.Container.PositionSet
use computer_networks_projec.Game.{Game, explode_one_direction, find_explosions}
use computer_networks_projec.Game.WellFormed.{OnBoard}
use computer_networks_projec.Game.Blast.Ray.{Way, up, right, down, left, dx, dy, Hits}
use computer_networks_projec.Game.Blast.Cross.{explode_one_direction-Hits, Hits-explosions}

-- A bomb at `p` reaches `q`, in one direction at least.
pub record Blasts (g : Game) (p q : Position) : Type 0 where
  pub way : Way
  pub hits : Hits g way p q

module _ (g : Game) (p : Position) (hx : IsU16 g.size_x) (hy : IsU16 g.size_y)
    (b : OnBoard g p) where
  after : Way → List Position → List Position
  after w es = (explode_one_direction p (dx w) (dy w) (record g { explosions = es })).explosions

  after-Marks :
      (w : Way) (es : List Position) (q : Position)
      → (PositionSet.contains q (after w es) ≡ true)
        ↔ ((PositionSet.contains q es ≡ true) ⊎ Hits g w p q)
  unfolding after
  after-Marks w es q = (λ e. there (step.0 e), λ h. step.1 (back h))
    where
      step :
          (PositionSet.contains q (after w es) ≡ true)
          ↔ ((PositionSet.contains q es ≡ true) ⊎ Hits (record g { explosions = es }) w p q)
      step = explode_one_direction-Hits (record g { explosions = es }) w hx hy p q b

      there :
          (PositionSet.contains q es ≡ true) ⊎ Hits (record g { explosions = es }) w p q
          → (PositionSet.contains q es ≡ true) ⊎ Hits g w p q
      there (inl e) = inl e
      there (inr h) = inr ((Hits-explosions g es w p q).0 h)

      back :
          (PositionSet.contains q es ≡ true) ⊎ Hits g w p q
          → (PositionSet.contains q es ≡ true) ⊎ Hits (record g { explosions = es }) w p q
      back (inl e) = inl e
      back (inr h) = inr ((Hits-explosions g es w p q).1 h)

  four :
      (q : Position)
      → (es : List Position)
      → (PositionSet.contains q (after left (after down (after right (after up es)))) ≡ true)
        ↔ ((PositionSet.contains q es ≡ true) ⊎ Blasts g p q)
  four q es = (there, back)
    where
      e1 : List Position
      e1 = after up es

      e2 : List Position
      e2 = after right e1

      e3 : List Position
      e3 = after down e2

      blast : (w : Way) → Hits g w p q → (PositionSet.contains q es ≡ true) ⊎ Blasts g p q
      blast w h = inr (record { way = w; hits = h })

      from_up :
          (PositionSet.contains q es ≡ true) ⊎ Hits g up p q
          → (PositionSet.contains q es ≡ true) ⊎ Blasts g p q
      from_up (inl e) = inl e
      from_up (inr h) = blast up h

      from_right :
          (PositionSet.contains q e1 ≡ true) ⊎ Hits g right p q
          → (PositionSet.contains q es ≡ true) ⊎ Blasts g p q
      from_right (inl e) = from_up ((after-Marks up es q).0 e)
      from_right (inr h) = blast right h

      from_down :
          (PositionSet.contains q e2 ≡ true) ⊎ Hits g down p q
          → (PositionSet.contains q es ≡ true) ⊎ Blasts g p q
      from_down (inl e) = from_right ((after-Marks right e1 q).0 e)
      from_down (inr h) = blast down h

      from_left :
          (PositionSet.contains q e3 ≡ true) ⊎ Hits g left p q
          → (PositionSet.contains q es ≡ true) ⊎ Blasts g p q
      from_left (inl e) = from_down ((after-Marks down e2 q).0 e)
      from_left (inr h) = blast left h

      there :
          PositionSet.contains q (after left e3) ≡ true
          → (PositionSet.contains q es ≡ true) ⊎ Blasts g p q
      there e = from_left ((after-Marks left e3 q).0 e)

      up_to_left : PositionSet.contains q e1 ≡ true → PositionSet.contains q (after left e3) ≡ true
      up_to_left e =
          (after-Marks left e3 q).1
            (inl ((after-Marks down e2 q).1 (inl ((after-Marks right e1 q).1 (inl e)))))

      back_blast : (w : Way) → Hits g w p q → PositionSet.contains q (after left e3) ≡ true
      back_blast up h = up_to_left ((after-Marks up es q).1 (inr h))
      back_blast right h =
          (after-Marks left e3 q).1
            (inl ((after-Marks down e2 q).1 (inl ((after-Marks right e1 q).1 (inr h)))))
      back_blast down h = (after-Marks left e3 q).1 (inl ((after-Marks down e2 q).1 (inr h)))
      back_blast left h = (after-Marks left e3 q).1 (inr h)

      back :
          (PositionSet.contains q es ≡ true) ⊎ Blasts g p q
          → PositionSet.contains q (after left e3) ≡ true
      back (inl e) = up_to_left ((after-Marks up es q).1 (inl e))
      back (inr h) = back_blast h.way h.hits

-- On a board whose sizes fit 16 bits, the fields that `find_explosions` marks for a bomb on it are
-- those that the bomb reaches in one of the four directions: on the board, within the radius, with
-- no block before them. Nothing else is marked, and what was marked stays so.
pub find_explosions-Blasts :
    (g : Game) (bomb : Bomb) (q : Position)
    → IsU16 g.size_x
    → IsU16 g.size_y
    → OnBoard g bomb.position
    → (PositionSet.contains q (find_explosions bomb g).explosions ≡ true)
      ↔ ((PositionSet.contains q g.explosions ≡ true) ⊎ Blasts g bomb.position q)
unfolding find_explosions explode_one_direction after
find_explosions-Blasts g bomb q hx hy b = four g bomb.position hx hy b q g.explosions
