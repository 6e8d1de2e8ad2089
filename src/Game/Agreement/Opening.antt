-- ===== src/Game/Agreement/Opening.antt =====
-- `game_init` and turn 0: the client that starts from the server's greeting and the full list of
-- players agrees with the server once it has applied the first message.
use computer_networks_projec.Base.{
  ℕ, refl, sym, ap, ◌∙◌, List, [], arith, Option-cases, inl, inr, Post, Post-some, length,
}
use computer_networks_projec.Messages.{Turn}
use computer_networks_projec.Container.Map
use computer_networks_projec.Container.PositionSet
use computer_networks_projec.Game.{Game, add_points, decrease_bomb_timers, update_scores}
use computer_networks_projec.Game.Client.{apply_event, apply_events, apply_turn, explode_known}
use computer_networks_projec.Game.Client
use computer_networks_projec.Game.Server.{
  Generator, GameServer, handle_exploding_bomb, erase_bomb, visit_bomb, explode_bombs, drop_bomb,
  drop_block, walk, apply_player_move, random_position, respawn, play, serve_player, serve_players,
  update_blocks, apply_moves, spawn, spawn_all, put_block, put_blocks, game_init, hit_blocks,
  hit_players, step_of, is_position_legal,
}
use computer_networks_projec.Game.Server
use computer_networks_projec.Game.Agreement.Events.{Agrees}
use computer_networks_projec.Messages.{Player}
use computer_networks_projec.Concurrency.AcceptedPlayers.{IsFullLobby}
use computer_networks_projec.Game.Client.{initial_positions, initial_scores, origin}
use computer_networks_projec.Game.Server.{Options, hello_of, zero_scores}
use computer_networks_projec.Game.Progress.Start.{find-zero_scores, create_scored}
use computer_networks_projec.Game.Agreement.Turns.{InStep, apply_turn-turn}
use computer_networks_projec.Game.Agreement.Start.{
  find-initial_positions, find-initial_scores, IsSpawning, IsQuiet, IsSpawning-done, SpawnedUpTo,
  Placing, spawn_all-IsSpawning, put_blocks-Placing,
}

module _ (rng : Generator) (op : Options) (t : ℕ) (players : List (ℕ × Player))
    (full : IsFullLobby op.players_count players) where
  abbrev new_client : Game
  new_client = Client.create t (hello_of op) players

  create-IsSpawning :
      IsSpawning op.players_count 0 (Server.create rng op).game (Client.begin_turn 0 new_client)
      × IsQuiet (Server.create rng op).game
  unfolding Server.create Client.create Client.begin_turn decrease_bomb_timers hello_of Map.find
      Map.map_values
  create-IsSpawning = (
    record {
      others = record {
        size_x = refl;
        size_y = refl;
        bomb_timer = refl;
        explosion_radius = refl;
        positions = λ k. refl;
        blocks = λ p. refl;
        bombs = λ k. refl;
        scores = λ k. ground (
          arith,
          find-zero_scores op.players_count 0 [] (λ j h. refl) k,
          find-initial_scores players [] k,
          full.joined k,
          full.nobody_else k,
        );
        robots_destroyed = refl;
        blocks_destroyed = λ p. refl;
      };
      spawned = λ k h. absurd (omega arith);
      waiting = λ k h. refl;
      known = λ k h e. ground (arith, find-initial_positions players [] k, full.joined k h);
      nobody_else =
          λ k h. ground (arith, find-initial_positions players [] k, full.nobody_else k h);
    },
    (refl, refl, refl),
  )

-- With nothing destroyed, the end of the client's turn changes no content.
end_quiet_turn-Agrees : (s c : Game) → Agrees s c → IsQuiet s → Agrees s (Client.end_turn c)
unfolding Client.end_turn update_scores PositionSet.contains
end_quiet_turn-Agrees s c a q = record {
  size_x = a.size_x;
  size_y = a.size_y;
  bomb_timer = a.bomb_timer;
  explosion_radius = a.explosion_radius;
  positions = a.positions;
  blocks = λ p. ground (
    arith,
    PositionSet.contains-erase_all p c.turn_blocks_destroyed c.blocks,
    a.blocks p,
    a.blocks_destroyed p,
    ap (PositionSet.contains p) q.1,
  );
  bombs = a.bombs;
  scores = λ k. rw (sym a.robots_destroyed ∙ q.0) (unfold add_points in a.scores k);
  robots_destroyed = a.robots_destroyed;
  blocks_destroyed = a.blocks_destroyed;
}

-- For every full lobby: if the game is set up, then the client that was made from the greeting and
-- the list of players agrees with the server after turn 0, the turn's number included.
pub game_init-Follows :
    (rng : Generator) (op : Options) (t : ℕ) (players : List (ℕ × Player))
    → IsFullLobby op.players_count players
    → Post
        (λ r. InStep r.0.game (apply_turn r.1 (Client.create t (hello_of op) players)))
        (game_init rng (Server.create rng op))
unfolding game_init
game_init-Follows rng op t players full =
    let s = Server.create rng op in
    let n = op.players_count in
    let c = Client.begin_turn 0 (Client.create t (hello_of op) players) in
    let left = length s.scores in
    elim (Option-cases (spawn_all rng left 0 s [])) [
      | inl e ↦ rw e tt
      | inr (r, e) ↦ elim (Option-cases (put_blocks rng r.0.initial_blocks r.0 r.1)) [
        | inl e' ↦ rw (e, e') tt
        | inr (q, e') ↦
            let spawned =
              Post-some (SpawnedUpTo rng n c n) (spawn_all rng left 0 s [])
                (spawn_all-IsSpawning rng n c left 0 s [] (omega (arith, create_scored rng op))
                  (unfold apply_events in create-IsSpawning rng op t players full))
                e in
            let (follows, quiet) =
              Post-some (Placing rng n c) (put_blocks rng r.0.initial_blocks r.0 r.1)
                (put_blocks-Placing rng n c r.0.initial_blocks r.0 r.1
                  (IsSpawning-done n r.0.game (apply_events r.1 c) spawned.0, spawned.1))
                e' in
            let message : Turn = record { turn = 0; events = q.1 } in
            rw (e, e')
              (record {
                agrees =
                    unfold apply_turn in
                    end_quiet_turn-Agrees q.0.game (apply_events q.1 c) follows quiet;
                same_turn =
                    quiet.2 ∙ sym (apply_turn-turn message (Client.create t (hello_of op) players));
              })
      ]
    ]
