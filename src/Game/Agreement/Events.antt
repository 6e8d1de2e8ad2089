-- ===== src/Game/Agreement/Events.antt =====
-- The relation between the server's game and the client's copy, and that an event keeps it.
use computer_networks_projec.Base.{ℕ, ◌≡◌, refl, sym, ap, ◌∙◌, some, List, [], ◌∷◌, ◌++◌}
use computer_networks_projec.Messages.{
  Position, Bomb, Event, bomb_placed, bomb_exploded, player_moved, block_placed,
}
use computer_networks_projec.Container.Map
use computer_networks_projec.Container.IdSet
use computer_networks_projec.Container.PositionSet
use computer_networks_projec.Game.{Game, find_explosions, explode_one_direction}
use computer_networks_projec.Game.Client.{apply_event, apply_events, explode_known}

-- Everything of the game but its turn's number: the settings, and the content of every container.
-- An unordered container may keep its elements in another order.
pub record Agrees (s c : Game) : Type 0 where
  pub size_x : s.size_x ≡ c.size_x
  pub size_y : s.size_y ≡ c.size_y
  pub bomb_timer : s.bomb_timer ≡ c.bomb_timer
  pub explosion_radius : s.explosion_radius ≡ c.explosion_radius
  pub positions : (k : ℕ) → Map.find k s.player_positions ≡ Map.find k c.player_positions
  pub blocks : (p : Position) → PositionSet.contains p s.blocks ≡ PositionSet.contains p c.blocks
  pub bombs : (k : ℕ) → Map.find k s.bombs ≡ Map.find k c.bombs
  pub scores : (k : ℕ) → Map.find k s.scores ≡ Map.find k c.scores
  pub robots_destroyed : s.turn_robots_destroyed ≡ c.turn_robots_destroyed
  pub blocks_destroyed :
      (p : Position)
      → PositionSet.contains p s.turn_blocks_destroyed
        ≡ PositionSet.contains p c.turn_blocks_destroyed

-- An explosion changes the set of exploded fields and nothing else.
pub find_explosions_else :
    (b : Bomb) (g : Game)
    → find_explosions b g ≡ record g { explosions = (find_explosions b g).explosions }
unfolding find_explosions explode_one_direction
find_explosions_else b g = refl

pub apply_events-append :
    (es : List Event) (e : Event) (c : Game)
    → apply_events (es ++ e ∷ []) c ≡ apply_event e (apply_events es c)
unfolding apply_events
apply_events-append [] e c = refl
apply_events-append (x ∷ es) e c = apply_events-append es e (apply_event x c)

module _ (s c : Game) (a : Agrees s c) where
  pub bomb_placed-Agrees :
      (id : ℕ) (p : Position)
      → Agrees
          (record s {
            bombs = Map.emplace id (record { position = p; timer = s.bomb_timer }) s.bombs;
          })
          (apply_event (bomb_placed id p) c)
  unfolding apply_event
  bomb_placed-Agrees id p = record {
    size_x = a.size_x;
    size_y = a.size_y;
    bomb_timer = a.bomb_timer;
    explosion_radius = a.explosion_radius;
    positions = a.positions;
    blocks = a.blocks;
    bombs = λ k. rw (Map.find-emplace, Map.find-emplace, a.bombs k, a.bombs id, a.bomb_timer);
    scores = a.scores;
    robots_destroyed = a.robots_destroyed;
    blocks_destroyed = a.blocks_destroyed;
  }

  pub player_moved-Agrees :
      (id : ℕ) (p : Position)
      → Agrees
          (record s { player_positions = Map.assign id p s.player_positions })
          (apply_event (player_moved id p) c)
  unfolding apply_event
  player_moved-Agrees id p = record {
    size_x = a.size_x;
    size_y = a.size_y;
    bomb_timer = a.bomb_timer;
    explosion_radius = a.explosion_radius;
    positions = λ k. rw (Map.find-assign, Map.find-assign, a.positions k, a.positions id);
    blocks = a.blocks;
    bombs = a.bombs;
    scores = a.scores;
    robots_destroyed = a.robots_destroyed;
    blocks_destroyed = a.blocks_destroyed;
  }

  pub block_placed-Agrees :
      (p : Position)
      → Agrees
          (record s { blocks = PositionSet.insert p s.blocks })
          (apply_event (block_placed p) c)
  unfolding apply_event
  block_placed-Agrees p = record {
    size_x = a.size_x;
    size_y = a.size_y;
    bomb_timer = a.bomb_timer;
    explosion_radius = a.explosion_radius;
    positions = a.positions;
    blocks = λ q. rw (PositionSet.contains-insert, PositionSet.contains-insert, a.blocks q);
    bombs = a.bombs;
    scores = a.scores;
    robots_destroyed = a.robots_destroyed;
    blocks_destroyed = a.blocks_destroyed;
  }

  -- The client looks the bomb up; the server has it, marks its fields and erases it.
  pub bomb_exploded-Agrees :
      (id : ℕ) (bomb : Bomb) (robots : List ℕ) (gone explosions : List Position)
      → Map.find id s.bombs ≡ some bomb
      → Agrees
          (record s {
            explosions = explosions;
            bombs = Map.erase id s.bombs;
            turn_robots_destroyed = IdSet.insert_all robots s.turn_robots_destroyed;
            turn_blocks_destroyed = PositionSet.insert_all gone s.turn_blocks_destroyed;
          })
          (apply_event (bomb_exploded id robots gone) c)
  unfolding apply_event explode_known
  bomb_exploded-Agrees id bomb robots gone explosions e =
      rw (sym (a.bombs id) ∙ e, explode_known, find_explosions_else)
        record {
          size_x = a.size_x;
          size_y = a.size_y;
          bomb_timer = a.bomb_timer;
          explosion_radius = a.explosion_radius;
          positions = a.positions;
          blocks = a.blocks;
          bombs = λ k. rw (Map.find-erase, Map.find-erase, a.bombs k);
          scores = a.scores;
          robots_destroyed = ap (IdSet.insert_all robots) a.robots_destroyed;
          blocks_destroyed = λ p. rw (
            PositionSet.contains-insert_all,
            PositionSet.contains-insert_all,
            a.blocks_destroyed p,
          );
        }
