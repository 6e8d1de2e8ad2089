-- ===== src/Server/Safety/Kept.antt =====
-- What a step of `handle_tcp_stream_in` keeps, and that it returns.
use computer_networks_projec.Base.{
  ℕ, ◌+◌, ◌<◌, ◌≡◌, ◌≢◌, refl, ◌∙◌, subst, Bool, true, false, ◌&&◌, none, some, arith, length,
  Option-cases, Bool-cases, inl, inr, ltb, ltb→lt, [], Returns, Post, Post-some, Option, ◌==◌,
  length-set, set, length-replicate,
}
use computer_networks_projec.Config.{Text, u8_size}
use computer_networks_projec.Messages.{Player, ClientMessage, join}
use computer_networks_projec.Concurrency.AcceptedPlayers.{
  AcceptedPlayers, IsValid, add_new_player, add_new_player_lem, add_new_player_rejects, after_call,
  after_call_lem, create-IsValid,
}
use computer_networks_projec.Concurrency.AcceptedPlayers
use computer_networks_projec.Concurrency.MoveContainer.{
  Slots, update_slot, written, mark_seen, length-written, length-mark_seen,
}
use computer_networks_projec.Concurrency.MoveContainer
use computer_networks_projec.Server.Shared.{
  SharedState, put_at, reset_shared, put_at_lem, IsFor, after_call-IsFor,
}
use computer_networks_projec.Server.Inbound.{
  Task, reading, looking, handling, updating, Inbound, get_recent, ask_to_join, check_move,
  make_move, handle_message, in_step_at,
}

-- Only who has joined the game comes to `update_slot`.
abbrev pub IsReady : Task → Bool → Type 0
IsReady reading joined = Unit {0}
IsReady (looking m) joined = Unit {0}
IsReady (handling m) joined = Unit {0}
IsReady (updating m) joined = joined ≡ true

pub record IsSafe (n : ℕ) (s : SharedState) (t : Inbound) : Type 0 where
  pub lobbies : (v : ℕ) → IsFor n (s.accepted_players v)
  pub slots : (v : ℕ) → length (s.move_container v) ≡ n
  pub numbered : t.joined_the_game ≡ true → t.player_id < n
  pub ready : IsReady t.task t.joined_the_game

-- The identifier of a new player is one of the game.
add_new_player_bound :
    (p : Player) (c : AcceptedPlayers) (id : ℕ) (c' : AcceptedPlayers)
    → IsValid c
    → add_new_player p c ≡ some (id, c')
    → id < c.target_players_count
add_new_player_bound p c id c' v e =
    elim (Bool-cases (ltb (length c.accepted_players) c.target_players_count)) [
      | inl room ↦
          let accepted = add_new_player_lem p c v (ltb→lt _ _ room) in
          subst (λ i. i < c.target_players_count) (same_id accepted.0 accepted.1) (ltb→lt _ _ room)
      | inr full ↦ absurd (never (add_new_player_rejects p c v (ground (arith, v.room))))
    ]
  where
    same_id :
        (d : AcceptedPlayers)
        → add_new_player p c ≡ some (length c.accepted_players, d)
        → length c.accepted_players ≡ id
    same_id d e' = cc

    never : add_new_player p c ≢ none
    never e' = cc

update_slot-some :
    (id : ℕ) (m : ClientMessage) (slots : Slots)
    → id < length slots
    → update_slot id m slots ≡ some (set slots id (true, m))
unfolding update_slot
update_slot-some id m slots h = ground arith

some_injective : {A : Type 0} {a b : A} → some a ≡ some b → a ≡ b
some_injective e = cc

module _ (n : ℕ) (small : n < u8_size) where
  pub reset-IsSafe : (s : SharedState) (t : Inbound) → IsSafe n s t → IsSafe n (reset_shared n s) t
  unfolding reset_shared AcceptedPlayers.create MoveContainer.create
  reset-IsSafe s t a = record {
    lobbies =
        put_at_lem (IsFor n) (s.game_version + 1) (AcceptedPlayers.create n) s.accepted_players
          (create-IsValid n small, refl) a.lobbies;
    slots =
        put_at_lem (λ c. length c ≡ n) (s.game_version + 1) (MoveContainer.create n)
          s.move_container (length-replicate {A = Bool × ClientMessage} n (false, join [])) a.slots;
    numbered = a.numbered;
    ready = a.ready;
  }

  -- A task without a condition changes nothing else.
  tasked :
      (task : Task) (s : SharedState) (t : Inbound)
      → IsReady task t.joined_the_game
      → IsSafe n s t
      → IsSafe n s (record t { task = task })
  tasked task s t r a = record {
    lobbies = a.lobbies;
    slots = a.slots;
    numbered = a.numbered;
    ready = r;
  }

  abbrev pub Safely : SharedState × Inbound → Type 0
  Safely r = IsSafe n r.0 r.1

  -- With a name of the peer the code returns; without one it may throw.
  abbrev pub Passes : Option Text → Option (SharedState × Inbound) → Type 0
  Passes (some address) o = Returns Safely o
  Passes none o = Post Safely o

  Passes-some : (peer : Option Text) (r : SharedState × Inbound) → Safely r → Passes peer (some r)
  Passes-some none r h = h
  Passes-some (some address) r h = h

  -- The new player is in the lobby under an identifier of the game.
  joins-IsSafe :
      (p : Player) (id : ℕ) (c : AcceptedPlayers) (s : SharedState) (t : Inbound)
      → IsSafe n s t
      → add_new_player p (s.accepted_players t.current) ≡ some (id, c)
      → IsSafe n
          (record s { accepted_players = put_at t.current c s.accepted_players })
          (record t { task = reading; player_id = id; joined_the_game = true })
  unfolding after_call
  joins-IsSafe p id c s t a e =
      let after : after_call p (s.accepted_players t.current) ≡ c = rw (after_call, e) refl in
      let valid =
        subst (IsFor n) after
          (after_call-IsFor n p (s.accepted_players t.current) (a.lobbies t.current)) in
      let bound =
        add_new_player_bound p (s.accepted_players t.current) id c (a.lobbies t.current).0 e in
      record {
        lobbies = put_at_lem (IsFor n) t.current c s.accepted_players valid a.lobbies;
        slots = a.slots;
        numbered = λ h. omega (arith, bound, (a.lobbies t.current).1);
        ready = tt;
      }

  ask_to_join-IsSafe :
      (peer : Option Text) (name : Text) (s : SharedState) (t : Inbound)
      → IsSafe n s t
      → Passes peer (ask_to_join peer name s t)
  unfolding ask_to_join
  ask_to_join-IsSafe none name s t a = elim (Bool-cases t.joined_the_game) [
    | inl joined ↦
        let r : ask_to_join none name s t ≡ some (s, record t { task = reading }) = ground arith in
        rw r (tasked reading s t tt a)
    | inr new ↦ rw (ask_to_join, new) tt
  ]
  ask_to_join-IsSafe (some address) name s t a = elim (Bool-cases t.joined_the_game) [
    | inl joined ↦
        let r : ask_to_join (some address) name s t ≡ some (s, record t { task = reading }) =
          ground arith in
        rw r (tasked reading s t tt a)
    | inr new ↦
        let p : Player = record { name = name; address = address } in
        elim (Option-cases (add_new_player p (s.accepted_players t.current))) [
          | inl e ↦
              let r : ask_to_join (some address) name s t ≡ some (s, record t { task = reading }) =
                ground arith in
              rw r (tasked reading s t tt a)
          | inr ((id, c), e) ↦
              let r : ask_to_join (some address) name s t
                  ≡ some (
                    record s { accepted_players = put_at t.current c s.accepted_players },
                    record t { task = reading; player_id = id; joined_the_game = true },
                  ) =
                ground arith in
              rw r (joins-IsSafe p id c s t a e)
        ]
  ]

  check_move-IsSafe :
      (m : ClientMessage) (s : SharedState) (t : Inbound)
      → IsSafe n s t
      → IsSafe n s (check_move m s t)
  unfolding check_move
  check_move-IsSafe m s t a = elim (Bool-cases (t.joined_the_game && s.game_started)) [
    | inl playing ↦ rw (check_move, playing) (tasked (updating m) s t (ground arith) a)
    | inr idle ↦ rw (check_move, idle) (tasked reading s t tt a)
  ]

  -- The call of `update_slot` returns and leaves a safe state.
  make_move-IsSafe :
      (m : ClientMessage) (s : SharedState) (t : Inbound)
      → t.joined_the_game ≡ true
      → IsSafe n s t
      → Returns Safely (make_move m s t)
  unfolding make_move
  make_move-IsSafe m s t joined a =
      let slots = s.move_container t.current in
      let slots' = set slots t.player_id (true, m) in
      let e =
        update_slot-some t.player_id m slots
          (omega (arith, a.numbered joined, a.slots t.current)) in
      rw (make_move, e)
        (record {
          lobbies = a.lobbies;
          slots =
              put_at_lem (λ c. length c ≡ n) t.current slots' s.move_container
                (length-set slots t.player_id (true, m) ∙ a.slots t.current) a.slots;
          numbered = a.numbered;
          ready = tt;
        })

  handle_message-IsSafe :
      (peer : Option Text) (m : ClientMessage) (s : SharedState) (t : Inbound)
      → IsSafe n s t
      → Passes peer (handle_message peer m s t)
  unfolding handle_message
  handle_message-IsSafe peer (join name) s t a = ask_to_join-IsSafe peer name s t a
  handle_message-IsSafe peer ClientMessage.place_bomb s t a =
      Passes-some peer _ (check_move-IsSafe _ s t a)
  handle_message-IsSafe peer ClientMessage.place_block s t a =
      Passes-some peer _ (check_move-IsSafe _ s t a)
  handle_message-IsSafe peer (ClientMessage.move d) s t a =
      Passes-some peer _ (check_move-IsSafe _ s t a)

  get_recent-IsSafe :
      (m : ClientMessage) (s : SharedState) (t : Inbound)
      → IsSafe n s t
      → IsSafe n s (get_recent m s t)
  unfolding get_recent
  get_recent-IsSafe m s t a = elim (Bool-cases (t.last_game_version == s.game_version)) [
    | inl same ↦
        rw (get_recent, same)
          (record { lobbies = a.lobbies; slots = a.slots; numbered = a.numbered; ready = tt })
    | inr newer ↦
        rw (get_recent, newer)
          (record { lobbies = a.lobbies; slots = a.slots; numbered = λ h. cc; ready = tt })
  ]

  Passes-Returns :
      (peer : Option Text) (o : Option (SharedState × Inbound)) → Returns Safely o → Passes peer o
  Passes-Returns peer none h = absurd h
  Passes-Returns peer (some r) h = Passes-some peer r h

  -- A step of the thread in any safe state.
  pub in_step-IsSafe :
      (peer : Option Text) (next : ClientMessage) (task : Task) (s : SharedState) (t : Inbound)
      → t.task ≡ task
      → IsSafe n s t
      → Passes peer (in_step_at peer next task s t)
  unfolding in_step_at
  in_step-IsSafe peer next reading s t e a = Passes-some peer _ (tasked (looking next) s t tt a)
  in_step-IsSafe peer next (looking m) s t e a = Passes-some peer _ (get_recent-IsSafe m s t a)
  in_step-IsSafe peer next (handling m) s t e a = handle_message-IsSafe peer m s t a
  in_step-IsSafe peer next (updating m) s t e a =
      Passes-Returns peer _
        (make_move-IsSafe m s t (subst (λ k. IsReady k t.joined_the_game) e a.ready) a)

  pub Passes-Post :
      (peer : Option Text) (o : Option (SharedState × Inbound)) (r : SharedState × Inbound)
      → Passes peer o
      → o ≡ some r
      → Safely r
  Passes-Post none o r h e = Post-some Safely o h e
  Passes-Post (some address) none r h e = absurd h
  Passes-Post (some address) (some q) r h e = subst Safely (some_injective e) h
