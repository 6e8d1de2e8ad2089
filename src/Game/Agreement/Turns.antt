-- ===== src/Game/Agreement/Turns.antt =====
-- A turn of the server and the client's `apply_turn` on the message keep the two games in
-- agreement; each round of each loop of `apply_moves` does so for the events that it adds.
use computer_networks_projec.Base.{
  ℕ, zero, suc, ◌≡◌, refl, sym, ◌∙◌, true, false, List, [], ◌∷◌, ◌++◌, ◌==◌, Option-cases,
  Bool-cases, inl, inr, Post, Post-bind, Post-some, get_elem?, length,
}
use computer_networks_projec.Messages.{
  Bomb, Event, bomb_placed, bomb_exploded, player_moved, block_placed, Turn, ClientMessage, join,
}
use computer_networks_projec.Container.Map
use computer_networks_projec.Container.IdSet
use computer_networks_projec.Container.PositionSet
use computer_networks_projec.Concurrency.MoveContainer.{Slots, atomic_snapshot_and_clear}
use computer_networks_projec.Game.{
  Game, find_explosions, explode_one_direction, decrease_bomb_timers, tick, update_scores,
}
use computer_networks_projec.Game.Scores.{add_points_ext}
use computer_networks_projec.Game.Client.{apply_event, apply_events, apply_turn, explode_known}
use computer_networks_projec.Game.Client
use computer_networks_projec.Game.Server.{
  Generator, GameServer, handle_exploding_bomb, erase_bomb, visit_bomb, explode_bombs, drop_bomb,
  drop_block, walk, apply_player_move, random_position, respawn, play, serve_player, serve_players,
  update_blocks, apply_moves, spawn, spawn_all, put_block, put_blocks, game_init, hit_blocks,
  hit_players, step_of, is_position_legal,
}
use computer_networks_projec.Game.Server
use computer_networks_projec.Game.Agreement.Events.{
  Agrees, apply_events-append, bomb_placed-Agrees, player_moved-Agrees, block_placed-Agrees,
  bomb_exploded-Agrees,
}

-- The server's state and the events of the turn so far, against the client after those events.
abbrev pub Follows : {State : Type 0} → Game → GameServer State × List Event → Type 0
Follows c r = Agrees r.0.game (apply_events r.1 c)

-- One event more on both sides.
Follows-append :
    {State : Type 0} (s : GameServer State) (es : List Event) (e : Event) (c : Game)
    → Agrees s.game (apply_event e (apply_events es c))
    → Follows c (s, es ++ e ∷ [])
Follows-append s es e c a = rw (apply_events-append es e c) a

module _ {State : Type 0} (c : Game) (s : GameServer State) (es : List Event)
    (a : Follows c (s, es)) where
  visit_bomb-Follows : (id : ℕ) (bomb : Bomb) → Post (Follows c) (visit_bomb id bomb s es)
  unfolding visit_bomb handle_exploding_bomb erase_bomb find_explosions explode_one_direction
  visit_bomb-Follows id bomb = elim (Bool-cases (bomb.timer == 0)) [
    | inr later ↦ rw later a
    | inl now ↦ elim (Option-cases (Map.find id s.game.bombs)) [
      | inl e ↦ rw (now, e) tt
      | inr (b, e) ↦
          rw (now, e, apply_events-append es _ c)
            (bomb_exploded-Agrees s.game (apply_events es c) a id b _ _ _ e)
    ]
  ]

  drop_bomb-Follows : (id : ℕ) → Post (Follows c) (drop_bomb id s es)
  unfolding drop_bomb
  drop_bomb-Follows id = elim (Option-cases (Map.find id s.player_positions)) [
    | inl e ↦ rw e tt
    | inr (p, e) ↦
        rw (e, apply_events-append es _ c)
          (bomb_placed-Agrees s.game (apply_events es c) a s.bomb_counter p)
  ]

  drop_block-Follows : (id : ℕ) → Post (Follows c) (drop_block id s es)
  unfolding drop_block
  drop_block-Follows id = elim (Option-cases (Map.find id s.player_positions)) [
    | inl e ↦ rw e tt
    | inr (p, e) ↦ elim (Bool-cases (PositionSet.contains p s.blocks)) [
      | inl taken ↦ rw (e, taken) a
      | inr free ↦
          rw (e, free, apply_events-append es _ c)
            (block_placed-Agrees s.game (apply_events es c) a p)
    ]
  ]

  walk-Follows : (direction id : ℕ) → Post (Follows c) (walk direction id s es)
  unfolding walk
  walk-Follows direction id = elim (Option-cases (Map.find id s.player_positions)) [
    | inl e ↦ rw e tt
    | inr (p, e) ↦
        let d = step_of direction in
        elim (Bool-cases (is_position_legal s.game p d.0 d.1)) [
          | inr blocked ↦ rw (e, blocked) a
          | inl legal ↦
              rw (e, legal, apply_events-append es _ c)
                (player_moved-Agrees s.game (apply_events es c) a id _)
        ]
  ]

  apply_player_move-Follows :
      (m : ClientMessage) (id : ℕ) → Post (Follows c) (apply_player_move m id s es)
  unfolding apply_player_move
  apply_player_move-Follows (join name) id = a
  apply_player_move-Follows ClientMessage.place_bomb id = drop_bomb-Follows id
  apply_player_move-Follows ClientMessage.place_block id = drop_block-Follows id
  apply_player_move-Follows (ClientMessage.move direction) id = walk-Follows direction id

module _ (rng : Generator) (c : Game) (s : GameServer rng.State) (es : List Event)
    (a : Follows c (s, es)) where
  respawn-Follows : (id : ℕ) → Post (Follows c) (Server.respawn rng id s es)
  unfolding respawn
  respawn-Follows id = elim (Option-cases (random_position rng s.size_x s.size_y s.random)) [
    | inl e ↦ rw e tt
    | inr ((p, state), e) ↦ elim (Option-cases (Map.find id s.player_positions)) [
      | inl missing ↦ rw (e, missing) tt
      | inr (old, present) ↦
          rw (e, present, apply_events-append es _ c)
            (player_moved-Agrees s.game (apply_events es c) a id p)
    ]
  ]

  pub put_block-Follows : Post (Follows c) (put_block rng s es)
  unfolding put_block
  put_block-Follows = elim (Option-cases (random_position rng s.size_x s.size_y s.random)) [
    | inl e ↦ rw e tt
    | inr ((p, state), e) ↦
        rw (e, apply_events-append es _ c) (block_placed-Agrees s.game (apply_events es c) a p)
  ]

  play-Follows : (moves : Slots) (id : ℕ) → Post (Follows c) (play rng moves id s es)
  unfolding play
  play-Follows moves id = elim (Option-cases (get_elem? moves id)) [
    | inl e ↦ rw e tt
    | inr ((true, m), e) ↦ rw e (apply_player_move-Follows c s es a m id)
    | inr ((false, m), e) ↦ rw e a
  ]

  serve_player-Follows :
      (moves : Slots) (id : ℕ) → Post (Follows c) (serve_player rng moves id s es)
  unfolding serve_player
  serve_player-Follows moves id = elim (Bool-cases (IdSet.contains id s.turn_robots_destroyed)) [
    | inl destroyed ↦ rw destroyed (respawn-Follows id)
    | inr alive ↦ rw alive (play-Follows moves id)
  ]

explode_bombs-Follows :
    {State : Type 0} (c : Game) (bombs : List (ℕ × Bomb)) (s : GameServer State) (es : List Event)
    → Follows c (s, es)
    → Post (Follows c) (explode_bombs bombs s es)
unfolding explode_bombs
explode_bombs-Follows c [] s es a = a
explode_bombs-Follows c ((id, bomb) ∷ bombs) s es a =
    Post-bind (Follows c) (Follows c) (visit_bomb id bomb s es) _
      (visit_bomb-Follows c s es a id bomb) (λ r b. explode_bombs-Follows c bombs r.0 r.1 b)

module _ (rng : Generator) (c : Game) where
  serve_players-Follows :
      (left id : ℕ) (moves : Slots) (s : GameServer rng.State) (es : List Event)
      → Follows c (s, es)
      → Post (Follows c) (serve_players rng left id moves s es)
  unfolding serve_players
  serve_players-Follows zero id moves s es a = a
  serve_players-Follows (suc left) id moves s es a =
      Post-bind (Follows c) (Follows c) (serve_player rng moves id s es) _
        (serve_player-Follows rng c s es a moves id)
        (λ r b. serve_players-Follows left (suc id) moves r.0 r.1 b)

  pub put_blocks-Follows :
      (left : ℕ) (s : GameServer rng.State) (es : List Event)
      → Follows c (s, es)
      → Post (Follows c) (put_blocks rng left s es)
  unfolding put_blocks
  put_blocks-Follows zero s es a = a
  put_blocks-Follows (suc left) s es a =
      Post-bind (Follows c) (Follows c) (put_block rng s es) _ (put_block-Follows rng c s es a)
        (λ r b. put_blocks-Follows left r.0 r.1 b)

-- Both sides clear the sets of the turn and run the timers down.
begin_turn-Agrees :
    (rng : Generator) (turn : ℕ) (s : GameServer rng.State) (c : Game)
    → Agrees s.game c
    → Agrees (Server.begin_turn rng s).game (Client.begin_turn turn c)
unfolding Server.begin_turn Client.begin_turn decrease_bomb_timers
begin_turn-Agrees rng turn s c a = record {
  size_x = a.size_x;
  size_y = a.size_y;
  bomb_timer = a.bomb_timer;
  explosion_radius = a.explosion_radius;
  positions = a.positions;
  blocks = a.blocks;
  bombs =
      λ k. Map.find-map_values k tick s.bombs ∙ rw (a.bombs k, Map.find-map_values k tick c.bombs);
  scores = a.scores;
  robots_destroyed = refl;
  blocks_destroyed = λ p. refl;
}

-- Both sides remove the blocks that were destroyed, and count the points.
pub end_turn-Agrees :
    (rng : Generator) (s : GameServer rng.State) (c : Game)
    → Agrees s.game c
    → Agrees (Server.end_turn rng s).game (Client.end_turn c)
unfolding Server.end_turn Client.end_turn update_scores update_blocks
end_turn-Agrees rng s c a = record {
  size_x = a.size_x;
  size_y = a.size_y;
  bomb_timer = a.bomb_timer;
  explosion_radius = a.explosion_radius;
  positions = a.positions;
  blocks = λ p.
      PositionSet.contains-erase_all p s.turn_blocks_destroyed s.blocks
      ∙ rw (a.blocks p, a.blocks_destroyed p)
          (sym (PositionSet.contains-erase_all p c.turn_blocks_destroyed c.blocks));
  bombs = a.bombs;
  scores = λ k.
      rw a.robots_destroyed (add_points_ext c.turn_robots_destroyed s.scores c.scores a.scores k);
  robots_destroyed = a.robots_destroyed;
  blocks_destroyed = a.blocks_destroyed;
}

explode_known-turn : (id : ℕ) (c : Game) → (explode_known id c).turn ≡ c.turn
unfolding explode_known find_explosions explode_one_direction
explode_known-turn id c = elim (Option-cases (Map.find id c.bombs)) [
  | inl e ↦ rw (e, explode_known)
  | inr (b, e) ↦ rw (e, explode_known)
]

apply_event-turn : (e : Event) (c : Game) → (apply_event e c).turn ≡ c.turn
unfolding apply_event
apply_event-turn (bomb_placed id p) c = refl
apply_event-turn (bomb_exploded id robots gone) c = explode_known-turn id c
apply_event-turn (player_moved id p) c = refl
apply_event-turn (block_placed p) c = refl

-- The events leave the number of the turn alone.
apply_events-turn : (es : List Event) (c : Game) → (apply_events es c).turn ≡ c.turn
unfolding apply_events
apply_events-turn [] c = refl
apply_events-turn (e ∷ es) c = apply_events-turn es (apply_event e c) ∙ apply_event-turn e c

pub apply_turn-turn : (t : Turn) (c : Game) → (apply_turn t c).turn ≡ t.turn
unfolding apply_turn Client.begin_turn Client.end_turn update_scores decrease_bomb_timers
apply_turn-turn t c = apply_events-turn t.events _

-- What the client knows after the message of a turn is what the server has after the turn.
pub record InStep (s c : Game) : Type 0 where
  pub agrees : Agrees s c
  pub same_turn : s.turn ≡ c.turn

-- If the client agrees with the server before a turn, and the turn returns a message, then the
-- client agrees with the server after it has applied that message, the turn's number included.
pub apply_moves-Follows :
    (rng : Generator) (s : GameServer rng.State) (slots : Slots) (c : Game)
    → Agrees s.game c
    → Post (λ r. InStep r.0.game (apply_turn r.2 c)) (apply_moves rng s slots)
unfolding apply_moves
apply_moves-Follows rng s slots c a =
    let s1 = Server.begin_turn rng s in
    let moves = (atomic_snapshot_and_clear slots).0 in
    elim (Option-cases (explode_bombs s1.bombs s1 [])) [
      | inl e ↦ rw e tt
      | inr (r, e) ↦ elim (Option-cases (serve_players rng (length r.0.scores) 0 moves r.0 r.1)) [
        | inl e' ↦ rw (e, e') tt
        | inr (q, e') ↦
            let t = (Server.end_turn rng q.0).turn in
            let c1 = Client.begin_turn t c in
            let f1 =
              Post-some (Follows c1) (explode_bombs s1.bombs s1 [])
                (explode_bombs-Follows c1 s1.bombs s1 []
                  (unfold apply_events in begin_turn-Agrees rng t s c a))
                e in
            let f2 =
              Post-some (Follows c1) (serve_players rng (length r.0.scores) 0 moves r.0 r.1)
                (serve_players-Follows rng c1 (length r.0.scores) 0 moves r.0 r.1 f1) e' in
            rw (e, e')
              (record {
                agrees = unfold apply_turn in end_turn-Agrees rng q.0 (apply_events q.1 c1) f2;
                same_turn = sym (apply_turn-turn (record { turn = t; events = q.1 }) c);
              })
      ]
    ]
