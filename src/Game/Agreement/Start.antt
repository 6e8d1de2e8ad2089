-- ===== src/Game/Agreement/Start.antt =====
-- The client that starts from the server's greeting and list of players agrees with the server once
-- it has applied turn 0.
use computer_networks_projec.Base.{
  ℕ, zero, suc, ◌+◌, ◌≡◌, sym, ap, ◌∙◌, subst, Option, none, some, List, [], ◌∷◌, arith,
  Option-cases, Bool-cases, inl, inr, Post,
}
use computer_networks_projec.Messages.{Position, Event, player_moved, block_placed}
use computer_networks_projec.Container.Map
use computer_networks_projec.Game.{Game}
use computer_networks_projec.Game.Client.{apply_event, apply_events}
use computer_networks_projec.Game.Server.{
  Generator, GameServer, random_position, spawn, spawn_all, put_block, put_blocks,
}
use computer_networks_projec.Game.Agreement.Events.{
  Agrees, apply_events-append, player_moved-Agrees, block_placed-Agrees,
}
use computer_networks_projec.Base.{◌≤◌, ◌<◌, ◌≢◌, ltb}
use computer_networks_projec.Messages.{Player}
use computer_networks_projec.Game.Client.{initial_positions, initial_scores, origin}
use computer_networks_projec.Game.Agreement.Turns.{Follows}

-- The first of the players with an identifier decides, and all start alike.
module _ {V : Type 0} (v : V) where
  abbrev pub started : List (ℕ × Player) → List (ℕ × V) → ℕ → Option V
  started players m k = elim (Map.find k m) [
    | some w ↦ some w
    | none ↦ elim (Map.find k players) [ none ↦ none | some p ↦ some v ]
  ]

  started_step :
      (id : ℕ) (p : Player) (players : List (ℕ × Player)) (m : List (ℕ × V)) (k : ℕ)
      → started players (Map.insert id v m) k ≡ started ((id, p) ∷ players) m k
  unfolding Map.find
  started_step id p players m k =
      ground (arith, Map.find-insert k id v m, ap (λ (i : ℕ). Map.find i m) {x = id} {y = k})

pub find-initial_positions :
    (players : List (ℕ × Player)) (m : List (ℕ × Position)) (k : ℕ)
    → Map.find k (initial_positions players m) ≡ started origin players m k
unfolding initial_positions Map.find
find-initial_positions [] m k = ground arith
find-initial_positions ((id, p) ∷ players) m k =
    find-initial_positions players (Map.insert id origin m) k ∙ started_step origin id p players m k

pub find-initial_scores :
    (players : List (ℕ × Player)) (m : List (ℕ × ℕ)) (k : ℕ)
    → Map.find k (initial_scores players m) ≡ started 0 players m k
unfolding initial_scores Map.find
find-initial_scores [] m k = ground arith
find-initial_scores ((id, p) ∷ players) m k =
    find-initial_scores players (Map.insert id 0 m) k ∙ started_step 0 id p players m k

-- While the server places its players, the client has a position for each of the `n`; they agree on
-- those that are placed, the ones below `id`.
pub record IsSpawning (n id : ℕ) (s c : Game) : Type 0 where
  pub others : Agrees (record s { player_positions = c.player_positions }) c
  pub spawned : (k : ℕ) → k < id → Map.find k s.player_positions ≡ Map.find k c.player_positions
  pub waiting : (k : ℕ) → id ≤ k → Map.find k s.player_positions ≡ none
  pub known : (k : ℕ) → k < n → Map.find k c.player_positions ≢ none
  pub nobody_else : (k : ℕ) → n ≤ k → Map.find k c.player_positions ≡ none

-- Nothing was destroyed yet, and the turn is 0.
abbrev pub IsQuiet : Game → Type 0
IsQuiet s = (s.turn_robots_destroyed ≡ []) × (s.turn_blocks_destroyed ≡ []) × (s.turn ≡ 0)

pub IsSpawning-done : (n : ℕ) (s c : Game) → IsSpawning n n s c → Agrees s c
IsSpawning-done n s c a = record {
  size_x = a.others.size_x;
  size_y = a.others.size_y;
  bomb_timer = a.others.bomb_timer;
  explosion_radius = a.others.explosion_radius;
  positions = λ k. elim (Bool-cases (ltb k n)) [
    | inl lt ↦ a.spawned k (ground arith)
    | inr ge ↦ a.waiting k (ground arith) ∙ sym (a.nobody_else k (ground arith))
  ];
  blocks = a.others.blocks;
  bombs = a.others.bombs;
  scores = a.others.scores;
  robots_destroyed = a.others.robots_destroyed;
  blocks_destroyed = a.others.blocks_destroyed;
}

module _ (n id : ℕ) (p : Position) (s c : Game) (a : IsSpawning n id s c) (lt : id < n) where
  spawn-IsSpawning :
      IsSpawning n
        (suc id)
        (record s { player_positions = Map.insert id p s.player_positions })
        (apply_event (player_moved id p) c)
  unfolding apply_event
  spawn-IsSpawning = record {
    others =
        player_moved-Agrees (record s { player_positions = c.player_positions }) c a.others id p;
    spawned = λ k h. ground (
      arith,
      Map.find-insert k id p s.player_positions,
      Map.find-assign k id p c.player_positions,
      a.waiting id,
      a.known id lt,
      a.spawned k,
    );
    waiting = λ k h. ground (arith, Map.find-insert k id p s.player_positions, a.waiting k);
    known = λ k h e. ground (
      arith,
      Map.find-assign k id p c.player_positions,
      a.known k h,
      ap (λ (i : ℕ). Map.find i c.player_positions) {x = id} {y = k},
    );
    nobody_else =
        λ k h. ground (arith, Map.find-assign k id p c.player_positions, a.nobody_else k h);
  }

module _ (rng : Generator) (n : ℕ) (c : Game) where
  abbrev pub SpawnedUpTo : ℕ → GameServer rng.State × List Event → Type 0
  SpawnedUpTo id r = IsSpawning n id r.0.game (apply_events r.1 c) × IsQuiet r.0.game

  pub spawn_all-IsSpawning :
      (left id : ℕ) (s : GameServer rng.State) (es : List Event)
      → id + left ≡ n
      → SpawnedUpTo id (s, es)
      → Post (SpawnedUpTo n) (spawn_all rng left id s es)
  unfolding spawn_all spawn
  spawn_all-IsSpawning zero id s es h a = subst (λ k. SpawnedUpTo k (s, es)) (omega arith) a
  spawn_all-IsSpawning (suc left) id s es h a =
      elim (Option-cases (random_position rng s.size_x s.size_y s.random)) [
        | inl e ↦ rw e tt
        | inr ((p, state), e) ↦ rw e (
            spawn_all-IsSpawning left (suc id) _ _ (omega arith) (
              rw (apply_events-append es (player_moved id p) c)
                (spawn-IsSpawning n id p s.game (apply_events es c) a.0 (omega arith), a.1)))
      ]

  abbrev pub Placing : GameServer rng.State × List Event → Type 0
  Placing r = Follows c r × IsQuiet r.0.game

  pub put_blocks-Placing :
      (left : ℕ) (s : GameServer rng.State) (es : List Event)
      → Placing (s, es)
      → Post Placing (put_blocks rng left s es)
  unfolding put_blocks put_block
  put_blocks-Placing zero s es a = a
  put_blocks-Placing (suc left) s es a =
      elim (Option-cases (random_position rng s.size_x s.size_y s.random)) [
        | inl e ↦ rw e tt
        | inr ((p, state), e) ↦ rw e (
            put_blocks-Placing left _ _ (
              rw (apply_events-append es (block_placed p) c)
                (block_placed-Agrees s.game (apply_events es c) a.0 p, a.1)))
      ]
