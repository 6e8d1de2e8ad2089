-- ===== src/Server/System/MainLoop.antt =====
-- The main loop never throws, and keeps what holds of the server.
use computer_networks_projec.Base.{
  ℕ, zero, suc, ◌+◌, ◌<◌, ◌≡◌, refl, ◌∙◌, true, Bool-cases, inl, inr, List, arith, length, ◌==◌,
  Returns-some,
}
use computer_networks_projec.Config.{u8_size}
use computer_networks_projec.Concurrency.AcceptedPlayers.{
  AcceptedPlayers, IsFullLobby, return_when_target_players_joined, create-IsValid,
}
use computer_networks_projec.Concurrency.AcceptedPlayers
use computer_networks_projec.Concurrency.MoveContainer.{Slots, length-create}
use computer_networks_projec.Concurrency.MoveContainer
use computer_networks_projec.Concurrency.TurnContainer.{
  TurnContainer, append_new_turn, mark_the_game_as_finished,
}
use computer_networks_projec.Concurrency.TurnContainer
use computer_networks_projec.Game.Server.{
  Options, Generator, GameServer, game_init, apply_moves, get_score_map,
}
use computer_networks_projec.Game.Server
use computer_networks_projec.Game.Progress.Start.{IsPlayable}
use computer_networks_projec.Server.Shared.{SharedState, put_at, put_at_lem, reset_shared, IsFor}
use computer_networks_projec.Server.Rounds.{apply_moves-Shown, game_init-Shown}
use computer_networks_projec.Server.Main.{
  Main, copying, waiting, starting, playing, resetting, finishing, main_step, await_players, set_up,
  carry_out_turn,
}
use computer_networks_projec.Server.System.Grows.{
  put_at-cases, put_at_self, put_at_else, put_at_above, turns-Grows, appended, marked,
  kept_turns-Grows, reset-Grows,
}
use computer_networks_projec.Server.System.Invariant.{
  IsWholeGame, SharedOk, MainOk, Playing, client_of,
}
use computer_networks_projec.Server.System.Keeps.{Goes, joined_cases, full-IsFullLobby, Kept}

module _ (rng : Generator) (op : Options) (t : ℕ) where
  module _ (small : op.players_count < u8_size) (playable : IsPlayable op) where
    await-Kept :
        (s : SharedState) (v : ℕ)
        → SharedOk rng op t s
        → MainOk rng op t s (waiting v)
        → Goes (Kept rng op t s) (await_players rng op s v)
    unfolding await_players
    await-Kept s v a (e, c) = elim (joined_cases (s.accepted_players v)) [
      | inl (full, r) ↦
          rw (await_players, r)
            (
              record { lobbies = a.lobbies; slots = a.slots; finished = a.finished },
              (e, c, full ∙ (a.lobbies v).1),
              kept_turns-Grows op.players_count s (record s { game_started = true }) refl refl refl,
            )
      | inr r ↦ rw (await_players, r) tt
    ]

    set_up-Kept :
        (s : SharedState) (v : ℕ)
        → SharedOk rng op t s
        → MainOk rng op t s (starting v)
        → Goes (Kept rng op t s) (set_up rng op s v)
    unfolding set_up TurnContainer.create append_new_turn
    set_up-Kept s v a (e, c, full) =
        let lobby = full-IsFullLobby op.players_count (s.accepted_players v) (a.lobbies v) full in
        let (r, e', shown) =
          Returns-some _ (game_init rng (Server.create rng op))
            (game_init-Shown rng op t (s.accepted_players v).accepted_players playable lobby) in
        let new = append_new_turn r.1 (s.turn_container v) in
        rw (set_up, e')
          (
            record {
              lobbies = a.lobbies;
              slots = a.slots;
              finished =
                  put_at-cases
                    (λ u d.
                      d.finished ≡ true
                      → IsWholeGame op t (s.accepted_players u).accepted_players d.turns
                          d.score_map)
                    v new s.turn_container (λ fin. cc) a.finished;
            },
            record {
              current = e;
              full = full;
              unfinished = rw (put_at_self v new s.turn_container) (cc);
              done = 1;
              counted = omega arith;
              shown = rw (put_at_self v new s.turn_container, c) shown;
            },
            turns-Grows op.players_count s _ refl refl (appended op.players_count s v r.1),
          )

    turn-Kept :
        (s : SharedState) (v left : ℕ) (game : GameServer rng.State)
        → SharedOk rng op t s
        → MainOk rng op t s (playing v (suc left) game)
        → Goes (Kept rng op t s) (carry_out_turn rng op s v left game)
    unfolding carry_out_turn append_new_turn
    turn-Kept s v left game a p =
        let n = op.players_count in
        let slots = s.move_container v in
        let (r, e, (shown, same)) = Returns-some _ (apply_moves rng game slots) (
          apply_moves-Shown rng n p.done (client_of rng op t s v) game slots (s.turn_container v)
            p.shown (omega (arith, a.slots v))) in
        let new = append_new_turn r.2 (s.turn_container v) in
        rw (carry_out_turn, e)
          (
            record {
              lobbies = a.lobbies;
              slots =
                  put_at_lem (λ c. length c ≡ n) v r.1 s.move_container (same ∙ a.slots v) a.slots;
              finished =
                  put_at-cases
                    (λ u d.
                      d.finished ≡ true
                      → IsWholeGame op t (s.accepted_players u).accepted_players d.turns
                          d.score_map)
                    v new s.turn_container (λ fin. cc (p.unfinished)) a.finished;
            },
            record {
              current = p.current;
              full = p.full;
              unfinished = rw (put_at_self v new s.turn_container) p.unfinished;
              done = suc p.done;
              counted = omega (arith, p.counted);
              shown = rw (put_at_self v new s.turn_container) shown;
            },
            turns-Grows n s _ refl refl (appended n s v r.2),
          )

    over-Kept :
        (s : SharedState) (v : ℕ) (game : GameServer rng.State)
        → SharedOk rng op t s
        → Playing rng op t s v zero game.game
        → Kept rng op t s (s, resetting v (get_score_map rng game))
    unfolding get_score_map
    over-Kept s v game a p = (
      a,
      (
        p.current,
        record {
          everybody = p.full;
          full = full-IsFullLobby op.players_count (s.accepted_players v) (a.lobbies v) p.full;
          counted = omega (arith, p.counted, p.shown.counted);
          reached = p.shown.in_step.agrees.scores;
        },
      ),
      kept_turns-Grows op.players_count s s refl refl refl,
    )

    reset-Kept :
        (s : SharedState) (v : ℕ) (scores : List (ℕ × ℕ))
        → SharedOk rng op t s
        → MainOk rng op t s (resetting v scores)
        → Kept rng op t s (reset_shared op.players_count s, finishing v scores)
    unfolding reset_shared AcceptedPlayers.create TurnContainer.create
    reset-Kept s v scores a (e, whole) =
        let n = op.players_count in
        let w = s.game_version + 1 in
        (
          record {
            lobbies =
                put_at_lem (IsFor n) w (AcceptedPlayers.create n) s.accepted_players
                  (create-IsValid n small, refl) a.lobbies;
            slots =
                put_at_lem (λ c. length c ≡ n) w (MoveContainer.create n) s.move_container
                  (length-create n) a.slots;
            finished = λ u. elim (Bool-cases (w == u)) [
              | inl here ↦ rw here (λ fin. cc)
              | inr there ↦ rw there (a.finished u)
            ];
          },
          (
            omega arith,
            put_at_self w TurnContainer.create s.turn_container,
            rw
                (
                  put_at_else w v (AcceptedPlayers.create n) s.accepted_players (omega arith),
                  put_at_else w v TurnContainer.create s.turn_container (omega arith),
                )
                whole,
          ),
          unfold reset_shared in reset-Grows n s n,
        )

    finish-Kept :
        (s : SharedState) (v : ℕ) (scores : List (ℕ × ℕ))
        → SharedOk rng op t s
        → MainOk rng op t s (finishing v scores)
        → Kept rng op t s (
          record s {
            turn_container =
                put_at v (mark_the_game_as_finished scores (s.turn_container v)) s.turn_container;
          },
          copying,
        )
    unfolding mark_the_game_as_finished
    finish-Kept s v scores a (lt, fresh, whole) =
        let new = mark_the_game_as_finished scores (s.turn_container v) in
        (
          record {
            lobbies = a.lobbies;
            slots = a.slots;
            finished =
                put_at-cases
                  (λ u d.
                    d.finished ≡ true
                    → IsWholeGame op t (s.accepted_players u).accepted_players d.turns d.score_map)
                  v new s.turn_container (λ fin. whole) a.finished;
          },
          put_at_above v s.game_version new s.turn_container lt ∙ fresh,
          turns-Grows op.players_count s _ refl refl (marked op.players_count s v scores),
        )

    -- No step of the main loop throws, and each keeps what holds.
    pub main_step-Kept :
        (s : SharedState) (m : Main rng.State)
        → SharedOk rng op t s
        → MainOk rng op t s m
        → Goes (Kept rng op t s) (main_step rng op s m)
    unfolding main_step
    main_step-Kept s copying a b =
        (a, (refl, b), kept_turns-Grows op.players_count s s refl refl refl)
    main_step-Kept s (waiting v) a b = await-Kept s v a b
    main_step-Kept s (starting v) a b = set_up-Kept s v a b
    main_step-Kept s (playing v zero game) a b = over-Kept s v game a b
    main_step-Kept s (playing v (suc left) game) a b = turn-Kept s v left game a b
    main_step-Kept s (resetting v scores) a b = reset-Kept s v scores a b
    main_step-Kept s (finishing v scores) a b = finish-Kept s v scores a b
