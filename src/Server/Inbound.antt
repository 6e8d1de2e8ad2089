-- ===== src/Server/Inbound.antt =====
-- `handle_tcp_stream_in` of src/server.cpp: a client's thread takes moves, while the other threads
-- and the main loop go on.
use computer_networks_projec.Base.{
  ℕ, ◌≡◌, Bool, true, false, ◌&&◌, Option, none, some, ◌>>=◌, ◌==◌, if◌then◌else◌,
}
use computer_networks_projec.Config.{Text}
use computer_networks_projec.Messages.{Player, ClientMessage, join}
use computer_networks_projec.Concurrency.TurnContainer.{TurnContainer}
use computer_networks_projec.Server.Shared.{SharedState, put_at, reset_shared}
use computer_networks_projec.Concurrency.AcceptedPlayers.{
  AcceptedPlayers, IsValid, add_new_player, after_call,
}
use computer_networks_projec.Concurrency.AcceptedPlayers
use computer_networks_projec.Concurrency.MoveContainer.{Slots, update_slot, written, mark_seen}
use computer_networks_projec.Concurrency.MoveContainer

-- Where the thread is in its code, with the message that it has read.
pub data Task : Type 0 where
  reading : Task
  looking : ClientMessage → Task
  handling : ClientMessage → Task
  updating : ClientMessage → Task

-- The variables of the thread; `current` is the version whose pointers it copied last.
pub record Inbound : Type 0 where
  pub task : Task
  pub last_game_version : ℕ
  pub joined_the_game : Bool
  pub player_id : ℕ
  pub current : ℕ

unfoldable pub initial_thread : Inbound
initial_thread = record {
  task = reading;
  last_game_version = 0;
  joined_the_game = false;
  player_id = 0;
  current = 0;
}

-- The pointers are copied under the lock, and a new version is noticed.
unfoldable pub get_recent : ClientMessage → SharedState → Inbound → Inbound
get_recent m s t =
    if t.last_game_version == s.game_version
    then record t { task = handling m; current = s.game_version }
    else record {
      task = handling m;
      last_game_version = s.game_version;
      joined_the_game = false;
      player_id = t.player_id;
      current = s.game_version;
    }

-- `Join`, with what `get_client_name` returns: the address of the peer, or `none` where it throws,
-- which ends the thread.
unfoldable pub ask_to_join :
    Option Text → Text → SharedState → Inbound → Option (SharedState × Inbound)
ask_to_join peer name s t =
    if t.joined_the_game
    then some (s, record t { task = reading })
    else (peer >>= λ address.
        elim (add_new_player (record { name = name; address = address })
          (s.accepted_players t.current)) [
            | none ↦ some (s, record t { task = reading })
            | some r ↦ some (
              record s { accepted_players = put_at t.current r.1 s.accepted_players },
              record t { task = reading; player_id = r.0; joined_the_game = true },
            )
          ])

-- Any other message: `joined_the_game && is_game_started()`.
unfoldable pub check_move : ClientMessage → SharedState → Inbound → Inbound
check_move m s t = record t {
  task = if t.joined_the_game && s.game_started then updating m else reading;
}

-- `update_slot`; `none` where it throws, which ends the thread.
unfoldable pub make_move : ClientMessage → SharedState → Inbound → Option (SharedState × Inbound)
make_move m s t = elim (update_slot t.player_id m (s.move_container t.current)) [
  | none ↦ none
  | some slots ↦ some (
    record s { move_container = put_at t.current slots s.move_container },
    record t { task = reading },
  )
]

unfoldable pub handle_message :
    Option Text → ClientMessage → SharedState → Inbound → Option (SharedState × Inbound)
unfolding ask_to_join check_move
handle_message peer (join name) s t = ask_to_join peer name s t
handle_message peer ClientMessage.place_bomb s t = some (s, check_move ClientMessage.place_bomb s t)
handle_message peer ClientMessage.place_block s t =
    some (s, check_move ClientMessage.place_block s t)
handle_message peer (ClientMessage.move d) s t = some (s, check_move (ClientMessage.move d) s t)

-- A step of the thread, with the next message of the client.
unfoldable pub in_step_at :
    Option Text → ClientMessage → Task → SharedState → Inbound → Option (SharedState × Inbound)
unfolding get_recent handle_message make_move
in_step_at peer next reading s t = some (s, record t { task = looking next })
in_step_at peer next (looking m) s t = some (s, get_recent m s t)
in_step_at peer next (handling m) s t = handle_message peer m s t
in_step_at peer next (updating m) s t = make_move m s t

abbrev pub in_step :
    Option Text → ClientMessage → SharedState → Inbound → Option (SharedState × Inbound)
in_step peer next s t = in_step_at peer next t.task s t

-- The steps of this thread, of the other clients' threads and of the main loop, in any order. What is
-- done under one lock is one step: the copy of the pointers, the test whether the game has started,
-- and a call of a container's method. Between two of them, any steps of the others may come.
pub data Step (n : ℕ) : SharedState → Inbound → SharedState → Inbound → Type 0 where
  goes :
      {s s' : SharedState} {t t' : Inbound} (peer : Option Text) (next : ClientMessage)
      → in_step peer next s t ≡ some (s', t')
      → Step n s t s' t'
  other_joins :
      {s : SharedState} {t : Inbound} (v : ℕ) (p : Player)
      → Step n s t
          (record s {
            accepted_players = put_at v (after_call p (s.accepted_players v)) s.accepted_players;
          })
          t
  other_moves :
      {s : SharedState} {t : Inbound} (v id : ℕ) (m : ClientMessage)
      → Step n s t
          (record s {
            move_container = put_at v (written id m (s.move_container v)) s.move_container;
          })
          t
  snapshot :
      {s : SharedState} {t : Inbound} (v : ℕ)
      → Step n s t
          (record s { move_container = put_at v (mark_seen (s.move_container v)) s.move_container })
          t
  starts : {s : SharedState} {t : Inbound} → Step n s t (record s { game_started = true }) t
  -- Whatever is done to the containers of turns.
  turns :
      {s : SharedState} {t : Inbound} (c : ℕ → TurnContainer)
      → Step n s t (record s { turn_container = c }) t
  resets : {s : SharedState} {t : Inbound} → Step n s t (reset_shared n s) t

pub data Steps (n : ℕ) : SharedState → Inbound → SharedState → Inbound → Type 0 where
  done : {s : SharedState} {t : Inbound} → Steps n s t s t
  followed_by :
      {s s' s'' : SharedState} {t t' t'' : Inbound}
      → Step n s t s' t'
      → Steps n s' t' s'' t''
      → Steps n s t s'' t''

-- The containers are those that resets make.
pub record IsFresh (n : ℕ) (s : SharedState) : Type 0 where
  pub lobbies : (v : ℕ) → s.accepted_players v ≡ AcceptedPlayers.create n
  pub slots : (v : ℕ) → s.move_container v ≡ MoveContainer.create n
