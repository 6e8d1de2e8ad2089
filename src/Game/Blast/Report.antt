-- ===== src/Game/Blast/Report.antt =====
-- `GameServer::handle_exploding_bomb`: which players and blocks the server reports as destroyed.
use computer_networks_projec.Base.{
  ℕ, ◌≡◌, refl, ap, ◌↔◌, ◌⊎◌, inl, inr, Bool, true, false, ◌&&◌, ◌||◌, arith, List, [], ◌∷◌, ◌++◌,
  Option, none, some,
}
use computer_networks_projec.Config.{IsU16}
use computer_networks_projec.Messages.{Position, Bomb, Event, bomb_exploded}
use computer_networks_projec.Container.Map
use computer_networks_projec.Container.IdSet
use computer_networks_projec.Container.PositionSet
use computer_networks_projec.Container.Laws.{IsDistinct}
use computer_networks_projec.Game.{Game, find_explosions}
use computer_networks_projec.Game.Server.{
  GameServer, handle_exploding_bomb, hit_blocks, hit_players,
}
use computer_networks_projec.Game.WellFormed.{OnBoard}
use computer_networks_projec.Game.Blast.Cross.{Hits-explosions}
use computer_networks_projec.Game.Agreement.Events.{find_explosions_else}
use computer_networks_projec.Game.Blast.Bombs.{Blasts, find_explosions-Blasts}

Blasts-explosions :
    (g : Game) (es : List Position) (p q : Position)
    → Blasts (record g { explosions = es }) p q ↔ Blasts g p q
Blasts-explosions g es p q = (
  λ h. record { way = h.way; hits = (Hits-explosions g es h.way p q).0 h.hits },
  λ h. record { way = h.way; hits = (Hits-explosions g es h.way p q).1 h.hits },
)

contains-hit_blocks :
    (q : Position) (blocks es : List Position)
    → PositionSet.contains q (hit_blocks blocks es)
      ≡ (PositionSet.contains q es && PositionSet.contains q blocks)
unfolding hit_blocks PositionSet.contains
contains-hit_blocks q blocks [] = refl
contains-hit_blocks q blocks (p ∷ es) = ground (
  arith,
  contains-hit_blocks q blocks es,
  PositionSet.same_iff p q,
  ap (λ (r : Position). PositionSet.contains r blocks) {x = p} {y = q},
)

-- Is the player on one of the fields?
stands_on : List Position → Option Position → Bool
stands_on es none = false
stands_on es (some p) = PositionSet.contains p es

contains-hit_players :
    (k : ℕ) (es : List Position) (players : List (ℕ × Position))
    → IsDistinct players
    → IdSet.contains k (hit_players es players) ≡ stands_on es (Map.find k players)
unfolding hit_players stands_on IdSet.contains Map.find
contains-hit_players k es [] d = refl
contains-hit_players k es ((id, p) ∷ players) d = ground (
  arith,
  contains-hit_players k es players d.1,
  ap (λ (i : ℕ). Map.find i players) {x = id} {y = k},
)

module _ {State : Type 0} (s : GameServer State) (id : ℕ) (bomb : Bomb) (hx : IsU16 s.game.size_x)
    (hy : IsU16 s.game.size_y) (b : OnBoard s.game bomb.position)
    (d : IsDistinct s.game.player_positions) where
  -- The fields of the explosion, which start from none.
  fields : List Position
  fields = (find_explosions bomb (record s.game { explosions = [] })).explosions

  contains-fields :
      (q : Position) → (PositionSet.contains q fields ≡ true) ↔ Blasts s.game bomb.position q
  unfolding fields PositionSet.contains
  contains-fields q =
      (λ e. there (marks.0 e), λ h. marks.1 (inr ((Blasts-explosions s.game [] _ q).1 h)))
    where
      marks : (PositionSet.contains q fields ≡ true) ↔ (
          (PositionSet.contains q [] ≡ true)
          ⊎ Blasts (record s.game { explosions = [] }) bomb.position q)
      marks = find_explosions-Blasts (record s.game { explosions = [] }) bomb q hx hy b

      there :
          (PositionSet.contains q [] ≡ true)
            ⊎ Blasts (record s.game { explosions = [] }) bomb.position q
          → Blasts s.game bomb.position q
      there (inl e) = cc
      there (inr h) = (Blasts-explosions s.game [] bomb.position q).0 h

  gone_lem :
      (q : Position)
      → (PositionSet.contains q (hit_blocks s.game.blocks fields) ≡ true)
        ↔ ((PositionSet.contains q s.game.blocks ≡ true) × Blasts s.game bomb.position q)
  gone_lem q = (
    λ e. (ground (arith, split), (contains-fields q).0 (ground (arith, split))),
    λ h. ground (arith, split, (contains-fields q).1 h.1),
  )
    where
      split :
          PositionSet.contains q (hit_blocks s.game.blocks fields)
          ≡ (PositionSet.contains q fields && PositionSet.contains q s.game.blocks)
      split = contains-hit_blocks q s.game.blocks fields

  robots_lem :
      (k : ℕ) (p : Position)
      → Map.find k s.game.player_positions ≡ some p
      → (IdSet.contains k (hit_players fields s.game.player_positions) ≡ true)
        ↔ Blasts s.game bomb.position p
  robots_lem k p e =
      rw (contains-hit_players k fields s.game.player_positions d, e)
        (unfold stands_on in contains-fields p)

  -- For a bomb that is there, on a board whose sizes fit 16 bits, with one position for each
  -- player: the event reports exactly the blocks that the bomb reaches, and exactly the players who
  -- stand on a field that it reaches; they join those that the turn's sets had. The bombs, the
  -- blocks and the positions are not changed.
  pub handle_exploding_bomb_lem :
      (es : List Event)
      → Map.find id s.game.bombs ≡ some bomb
      → (robots : List ℕ) × (gone : List Position) × (g : Game) × (handle_exploding_bomb id s es
          ≡ some (record s { game = g }, es ++ bomb_exploded id robots gone ∷ []))
        × ((q : Position)
            → (PositionSet.contains q gone ≡ true)
              ↔ ((PositionSet.contains q s.game.blocks ≡ true) × Blasts s.game bomb.position q))
        × ((k : ℕ) (p : Position)
            → Map.find k s.game.player_positions ≡ some p
            → (IdSet.contains k robots ≡ true) ↔ Blasts s.game bomb.position p)
        × ((k : ℕ)
            → IdSet.contains k g.turn_robots_destroyed
              ≡ (IdSet.contains k robots || IdSet.contains k s.game.turn_robots_destroyed))
        × ((q : Position)
            → PositionSet.contains q g.turn_blocks_destroyed ≡ (
                PositionSet.contains q gone || PositionSet.contains q s.game.turn_blocks_destroyed))
        × (g.bombs ≡ s.game.bombs)
        × (g.blocks ≡ s.game.blocks)
        × (g.player_positions ≡ s.game.player_positions)
  unfolding handle_exploding_bomb fields
  handle_exploding_bomb_lem es found =
      let robots = hit_players fields s.game.player_positions in
      let gone = hit_blocks s.game.blocks fields in
      let g = record s.game {
        turn_robots_destroyed = IdSet.insert_all robots s.game.turn_robots_destroyed;
        turn_blocks_destroyed = PositionSet.insert_all gone s.game.turn_blocks_destroyed;
        explosions = fields;
      } in
      (
        robots,
        gone,
        g,
        rw (found, find_explosions_else) refl,
        gone_lem,
        robots_lem,
        λ k. IdSet.contains-insert_all k robots s.game.turn_robots_destroyed,
        λ q. PositionSet.contains-insert_all q gone s.game.turn_blocks_destroyed,
        refl,
        refl,
        refl,
      )
