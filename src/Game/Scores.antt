-- ===== src/Game/Scores.antt =====
-- `Game::update_scores`: who gets a point.
use computer_networks_projec.Base.{
  ℕ, ◌+◌, ◌%◌, ◌≡◌, refl, ap, ◌∙◌, List, [], ◌∷◌, arith, ◌==◌, if◌then◌else◌,
}
use computer_networks_projec.Config.{u32_size}
use computer_networks_projec.Container.Map
use computer_networks_projec.Container.IdSet
use computer_networks_projec.Container.IdSet.{IsAbove, IsAscending}
use computer_networks_projec.Game.{Game, add_point, add_points, update_scores}

-- One point, in the 32 bits of a score.
abbrev pub bump : ℕ → ℕ
bump score = (score + 1) % u32_size

pub find-add_point :
    (k id : ℕ) (m : List (ℕ × ℕ))
    → Map.find k (add_point id m)
      ≡ (if id == k then Map.map_option bump (Map.find k m) else Map.find k m)
unfolding add_point
find-add_point k id m = ground (
  arith,
  Map.find-assign {V = ℕ} k id (bump (Map.or_else (Map.find id m) 0)) m,
  ap (λ (i : ℕ). Map.find i m) {x = id} {y = k},
)

-- Maps with the same content have the same content after the points.
pub add_points_ext :
    (ids : List ℕ) (m n : List (ℕ × ℕ))
    → ((k : ℕ) → Map.find k m ≡ Map.find k n)
    → (k : ℕ) → Map.find k (add_points ids m) ≡ Map.find k (add_points ids n)
unfolding add_points
add_points_ext [] m n h = h
add_points_ext (id ∷ ids) m n h =
    add_points_ext ids (add_point id m) (add_point id n)
      (λ k. find-add_point k id m ∙ rw (h k, find-add_point k id n))

find-add_points :
    (k : ℕ) (ids : List ℕ) (m : List (ℕ × ℕ))
    → IsAscending ids
    → Map.find k (add_points ids m)
      ≡ (if IdSet.contains k ids then Map.map_option bump (Map.find k m) else Map.find k m)
unfolding add_points IdSet.contains
find-add_points k [] m a = refl
find-add_points k (id ∷ ids) m a = ground (
  arith,
  find-add_points k ids (add_point id m) (tail_IsAscending id ids a),
  find-add_point k id m,
  IdSet.contains_self id ids a,
  ap (λ (i : ℕ). IdSet.contains i ids) {x = id} {y = k},
)
  where
    tail_IsAscending : (i : ℕ) (js : List ℕ) → IsAbove i js → IsAscending js
    tail_IsAscending i [] b = tt
    tail_IsAscending i (j ∷ js) b = b.1

-- If the set of destroyed players ascends: a player in it gets exactly one point, modulo 2^32; the
-- score of every other player stays as it was, and nobody enters or leaves the map.
pub find-update_scores :
    (k : ℕ) (g : Game)
    → IsAscending g.turn_robots_destroyed
    → Map.find k (update_scores g).scores ≡ (
        if IdSet.contains k g.turn_robots_destroyed
        then Map.map_option bump (Map.find k g.scores)
        else Map.find k g.scores)
unfolding update_scores
find-update_scores k g a = find-add_points k g.turn_robots_destroyed g.scores a
