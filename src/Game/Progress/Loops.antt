-- ===== src/Game/Progress/Loops.antt =====
-- The loops of `GameServer::apply_moves` end without an exception, and keep the game well formed.
use computer_networks_projec.Base.{
  ℕ, zero, suc, ◌+◌, ◌≤◌, ◌≡◌, refl, ap, ◌∙◌, none, some, List, [], ◌∷◌, arith, length,
  Option-cases, inl, inr, ◌⊎◌, Returns, Returns-bind,
}
use computer_networks_projec.Messages.{Bomb, Event}
use computer_networks_projec.Container.Map
use computer_networks_projec.Container.Laws.{
  IsDistinct, map_values-IsDistinct, map_values-MapAll, erase_all-SetAll,
}
use computer_networks_projec.Concurrency.MoveContainer.{Slots}
use computer_networks_projec.Game.{decrease_bomb_timers, tick, update_scores, add_point, add_points}
use computer_networks_projec.Game.Server.{
  Generator, GameServer, visit_bomb, explode_bombs, serve_player, serve_players, update_blocks,
  begin_turn, end_turn,
}
use computer_networks_projec.Game.WellFormed.{
  OnBoard, IsWellFormed, with_blocks, with_bombs, with_scores, with_turn,
}
use computer_networks_projec.Game.Progress.Steps.{Keeps, visit_bomb-Keeps, serve_player-Keeps}

-- The bombs that the loop still has to meet are still there.
abbrev pub Covers : List (ℕ × Bomb) → List (ℕ × Bomb) → Type 0
Covers rest m = (k : ℕ) (b : Bomb) → Map.find k rest ≡ some b → Map.find k m ≡ some b

pub serve_players-Keeps :
    (rng : Generator) (n left id : ℕ) (moves : Slots) (s : GameServer rng.State) (es : List Event)
    → id + left ≤ n
    → n ≤ length moves
    → IsWellFormed n s.game
    → Returns (Keeps n) (serve_players rng left id moves s es)
unfolding serve_players
serve_players-Keeps rng n zero id moves s es h hm w = w
serve_players-Keeps rng n (suc left) id moves s es h hm w =
    Returns-bind (Keeps n) (Keeps n) (serve_player rng moves id s es) _
      (serve_player-Keeps rng n s es w id (omega arith) moves hm)
      (λ r v. serve_players-Keeps rng n left (suc id) moves r.0 r.1 (omega arith) hm v)

-- The entries behind the one that a visit is at are still there afterwards.
Covers-step :
    (id : ℕ) (rest m m' : List (ℕ × Bomb))
    → Map.find id rest ≡ none
    → Covers rest m
    → (m' ≡ m) ⊎ (m' ≡ Map.erase id m)
    → Covers rest m'
Covers-step id rest m m' d c (inl same) k b e = rw same (c k b e)
Covers-step id rest m m' d c (inr erased) k b e = rw erased (
    ground
      (arith, Map.find-erase k id m, c k b e, ap (λ (i : ℕ). Map.find i rest) {x = id} {y = k}))

Covers-head :
    (id : ℕ) (b : Bomb) (rest m : List (ℕ × Bomb))
    → Covers ((id, b) ∷ rest) m
    → Map.find id m ≡ some b
unfolding Map.find
Covers-head id b rest m c = c id b (ground arith)

Covers-tail :
    (id : ℕ) (b : Bomb) (rest m : List (ℕ × Bomb))
    → Map.find id rest ≡ none
    → Covers ((id, b) ∷ rest) m
    → Covers rest m
unfolding Map.find
Covers-tail id b rest m d c k v e =
    c k v (ground (arith, ap (λ (i : ℕ). Map.find i rest) {x = id} {y = k}))

pub explode_bombs-Keeps :
    {State : Type 0} (n : ℕ) (bombs : List (ℕ × Bomb)) (s : GameServer State) (es : List Event)
    → IsDistinct bombs
    → Covers bombs s.bombs
    → IsWellFormed n s.game
    → Returns (Keeps n) (explode_bombs bombs s es)
unfolding explode_bombs
explode_bombs-Keeps n [] s es d c w = w
explode_bombs-Keeps n ((id, bomb) ∷ bombs) s es d c w =
    Returns-bind (λ r. Keeps n r × ((r.0.bombs ≡ s.bombs) ⊎ (r.0.bombs ≡ Map.erase id s.bombs)))
      (Keeps n) (visit_bomb id bomb s es) _
      (visit_bomb-Keeps n s es w id bomb (Covers-head id bomb bombs s.bombs c))
      (λ r v.
        explode_bombs-Keeps n bombs r.0 r.1 d.1
          (Covers-step id bombs s.bombs r.0.bombs d.0 (Covers-tail id bomb bombs s.bombs d.0 c) v.1)
          v.0)

length-add_point : (id : ℕ) (m : List (ℕ × ℕ)) → length (add_point id m) ≡ length m
unfolding add_point
length-add_point id m = elim (Option-cases (Map.find id m)) [
  | inl e ↦ rw (e, add_point)
  | inr (v, e) ↦ rw (e, add_point) (Map.length-assign id _ m)
]

length-add_points : (ids : List ℕ) (m : List (ℕ × ℕ)) → length (add_points ids m) ≡ length m
unfolding add_points
length-add_points [] m = refl
length-add_points (id ∷ ids) m = length-add_points ids (add_point id m) ∙ length-add_point id m

module _ (rng : Generator) (n : ℕ) (s : GameServer rng.State) (w : IsWellFormed n s.game) where
  pub begin_turn-Keeps : IsWellFormed n (begin_turn rng s).game
  unfolding begin_turn decrease_bomb_timers tick
  begin_turn-Keeps =
      with_turn
        (with_bombs w (Map.map_values tick s.bombs)
          (map_values-MapAll (λ (b : Bomb). OnBoard s.game b.position) tick s.bombs (λ b h. h)
            w.bombs_on_board)
          (map_values-IsDistinct tick s.bombs w.distinct))
        s.turn [] [] s.explosions

  pub end_turn-Keeps : IsWellFormed n (end_turn rng s).game
  unfolding end_turn update_blocks update_scores
  end_turn-Keeps =
      with_turn
        (with_scores
          (with_blocks w _ (erase_all-SetAll _ s.turn_blocks_destroyed s.blocks w.blocks_on_board))
          (add_points s.turn_robots_destroyed s.scores)
          (length-add_points s.turn_robots_destroyed s.scores ∙ w.scored))
        _ s.turn_robots_destroyed s.turn_blocks_destroyed s.explosions
