-- ===== src/Server/System/Drains.antt =====
-- A client's outgoing thread after the end of its game: it comes to the end of its messages alone.
use computer_networks_projec.Base.{
  ℕ, zero, suc, ◌+◌, ◌%◌, ◌<◌, ◌≤◌, ◌≡◌, ◌≢◌, refl, subst, Bool, true, false, Bool-cases, inl, inr,
  List, [], ◌∷◌, ◌++◌, arith, length, get_elem?-total, ltb, ltb→lt, lt→ltb, ◌==◌, if◌then◌else◌,
}
use computer_networks_projec.Config.{u8_size, u16_size}
use computer_networks_projec.Messages.{
  Turn, ServerMessage, hello, accepted_player, game_started, game_ended,
}
use computer_networks_projec.Concurrency.Blocking.{returned}
use computer_networks_projec.Concurrency.AcceptedPlayers.{
  get_accepted_player_lem, return_when_target_players_joined,
}
use computer_networks_projec.Concurrency.TurnContainer.{get_turn, return_when_game_finished}
use computer_networks_projec.Game.Server.{Options, Generator, hello_of}
use computer_networks_projec.Game.Progress.Start.{IsPlayable}
use computer_networks_projec.Server.Shared.{SharedState}
use computer_networks_projec.Server.Outbound.{
  Outbound, greeting, fetching, checking, accepting, awaiting, turning, ending, out_step,
  show_player, show_turn, and_send,
}
use computer_networks_projec.Server.System.{System, kept, IsStart, Reach, next, out_goes}
use computer_networks_projec.Server.System.Invariant.{SharedOk, OutOk, ToldGame}
use computer_networks_projec.Server.System.Games.{Reach-IsOk, fetching-ToldGame}

-- The thread takes steps, nobody else does.
pub data Alone (op : Options) (s : SharedState)
    : Outbound → List ServerMessage → Outbound → List ServerMessage → Type 0 where
  stays : {o : Outbound} {sent : List ServerMessage} → Alone op s o sent o sent
  goes :
      {o o' o'' : Outbound} {sent messages sent'' : List ServerMessage}
      → out_step op s o ≡ returned (o', messages)
      → Alone op s o' (kept o sent ++ messages) o'' sent''
      → Alone op s o sent o'' sent''

-- The thread is in the game of the version.
abbrev pub Holds : ℕ → Outbound → Type 0
Holds v greeting = ⊥
Holds v fetching = ⊥
Holds v (checking w) = v ≡ w
Holds v (accepting w i) = v ≡ w
Holds v (awaiting w) = v ≡ w
Holds v (turning w i) = v ≡ w
Holds v (ending w) = v ≡ w

not_below : (i n : ℕ) → n ≤ i → ltb i n ≡ false
not_below i n h = ground arith

module _ (rng : Generator) (op : Options) (t : ℕ) (s : SharedState) (v : ℕ)
    (small : op.players_count < u8_size) (short : op.game_length + 1 < u16_size)
    (ok : SharedOk rng op t s) (over : (s.turn_container v).finished ≡ true) where
  -- All messages of the game can be sent, the last are the scores.
  abbrev Drained : Outbound → List ServerMessage → Type 0
  Drained o sent =
      (before : List ServerMessage) × Alone op s o sent fetching
        (before ++ game_ended (s.turn_container v).score_map ∷ [])

  ending-Drained : (sent : List ServerMessage) → Drained (ending v) sent
  unfolding out_step kept and_send return_when_game_finished
  ending-Drained sent = (sent, goes (rw (return_when_game_finished, over) refl) stays)

  -- In a finished game no turn is waited for.
  there_is_turn :
      (i : ℕ)
      → i < op.game_length + 1
      → (turn : Turn) × (get_turn i (s.turn_container v) ≡ returned turn)
  unfolding get_turn
  there_is_turn i h =
      let lt : i < length (s.turn_container v).turns = rw (ok.finished v over).counted h in
      let (turn, e) = get_elem?-total (s.turn_container v).turns i lt in
      (turn, rw (get_turn, lt→ltb _ _ lt, e) refl)

  turning-Drained :
      (k i : ℕ) (sent : List ServerMessage)
      → i ≤ op.game_length + 1
      → op.game_length + 1 ≤ i + k
      → Drained (turning v i) sent
  unfolding out_step kept and_send show_turn
  turning-Drained zero i sent le h =
      let (before, r) = ending-Drained (sent ++ []) in
      (before, goes (rw (show_turn, not_below i (op.game_length + 1) (omega arith)) refl) r)
  turning-Drained (suc k) i sent le h = elim (Bool-cases (ltb i (op.game_length + 1))) [
    | inr past ↦
        let (before, r) = ending-Drained (sent ++ []) in
        (before, goes (rw (show_turn, past) refl) r)
    | inl more ↦
        let lt = ltb→lt _ _ more in
        let (turn, e) = there_is_turn i lt in
        let (before, r) =
          turning-Drained k (suc i) (sent ++ ServerMessage.turn turn ∷ []) (omega arith)
            (omega arith) in
        let counter : (i + 1) % u16_size ≡ suc i = omega arith in
        (before, goes (rw (show_turn, more, e, and_send, counter) refl) r)
  ]

  awaiting-Drained : (sent : List ServerMessage) → Drained (awaiting v) sent
  unfolding out_step kept and_send return_when_target_players_joined
  awaiting-Drained sent =
      let c = s.accepted_players v in
      let full : (c.target_players_count == length c.accepted_players) ≡ true =
        ground (arith, (ok.lobbies v).1, (ok.finished v over).everybody) in
      let (before, r) =
        turning-Drained (op.game_length + 1) 0 (sent ++ game_started c.accepted_players ∷ [])
          (omega arith) (omega arith) in
      (before, goes (rw (return_when_target_players_joined, full) refl) r)

  accepting-Drained :
      (k i : ℕ) (sent : List ServerMessage)
      → op.players_count ≤ i + k
      → Drained (accepting v i) sent
  unfolding out_step kept and_send show_player
  accepting-Drained zero i sent h =
      let (before, r) = awaiting-Drained (sent ++ []) in
      (before, goes (rw (show_player, not_below i op.players_count (omega arith)) refl) r)
  accepting-Drained (suc k) i sent h = elim (Bool-cases (ltb i op.players_count)) [
    | inr past ↦
        let (before, r) = awaiting-Drained (sent ++ []) in
        (before, goes (rw (show_player, past) refl) r)
    | inl more ↦
        let (valid, target) = ok.lobbies v in
        let everybody = (ok.finished v over).everybody in
        let lt = ltb→lt _ _ more in
        let (p, _, e) = (get_accepted_player_lem i (s.accepted_players v) valid).2 (omega arith) in
        let (before, r) =
          accepting-Drained k (suc i) (sent ++ accepted_player (record { id = i; player = p }) ∷ [])
            (omega arith) in
        let counter : (i + 1) % u8_size ≡ suc i = omega arith in
        (before, goes (rw (show_player, more, e, and_send, counter) refl) r)
  ]

  checking-Drained :
      (begun : Bool) (sent : List ServerMessage)
      → Drained (if begun then awaiting v else accepting v 0) sent
  checking-Drained true sent = awaiting-Drained sent
  checking-Drained false sent = accepting-Drained op.players_count 0 sent (omega arith)

  Holds-Drained :
      (o : Outbound) (sent : List ServerMessage)
      → OutOk rng op t s o sent
      → Holds v o
      → Drained o sent
  unfolding out_step kept
  Holds-Drained greeting sent a h = absurd h
  Holds-Drained fetching sent a h = absurd h
  Holds-Drained (checking w) sent a h =
      let (before, r) = checking-Drained s.game_started (sent ++ []) in
      subst (λ u. Drained (checking u) sent) h (before, goes refl r)
  Holds-Drained (accepting w i) sent a h =
      subst (λ u. Drained (accepting u i) sent) h
        (accepting-Drained op.players_count i sent (omega arith))
  Holds-Drained (awaiting w) sent a h =
      subst (λ u. Drained (awaiting u) sent) h (awaiting-Drained sent)
  Holds-Drained (turning w i) sent a h =
      subst (λ u. Drained (turning u i) sent) h
        (turning-Drained (op.game_length + 1) i sent a.bounded (omega arith))
  Holds-Drained (ending w) sent a h = subst (λ u. Drained (ending u) sent) h (ending-Drained sent)

told-ne-hello :
    (op : Options) (before : List ServerMessage) (scores : List (ℕ × ℕ))
    → before ++ game_ended scores ∷ [] ≢ hello (hello_of op) ∷ []
told-ne-hello op [] scores e = cc
told-ne-hello op (m ∷ []) scores e = cc
told-ne-hello op (m ∷ m' ∷ before) scores e = cc

module _ (rng : Generator) (op : Options) where
  Alone-Reach :
      (start x : System rng.State) (o o' : Outbound) (sent sent' : List ServerMessage)
      → Alone op x.shared o sent o' sent'
      → Reach rng op start (record x { out = o; sent = sent })
      → Reach rng op start (record x { out = o'; sent = sent' })
  Alone-Reach start x o o' sent sent' stays r = r
  Alone-Reach start x o o' sent sent' (goes {o' = m} {messages} e more) r =
      Alone-Reach start x m o' (kept o sent ++ messages) sent' more (next r (out_goes e))

  -- The server starts with empty containers for fewer players than 256, on a board whose sizes are
  -- above 0 and fit 16 bits, for a game of fewer than 65535 turns; its threads take their steps in
  -- any order, and any players join and move. When a game is marked as finished, the outgoing
  -- thread of a client that holds this game can send the rest of its messages while no other
  -- thread takes a step: it waits for nobody, and what it has sent then are the messages of
  -- exactly one whole game.
  pub Alone-ToldGame :
      (t v : ℕ) (start x : System rng.State)
      → op.players_count < u8_size
      → op.game_length + 1 < u16_size
      → IsPlayable op
      → IsStart rng op start
      → Reach rng op start x
      → Holds v x.out
      → (x.shared.turn_container v).finished ≡ true
      → (told : List ServerMessage) × Alone op x.shared x.out x.sent fetching told
        × ToldGame rng op t told
  Alone-ToldGame t v start x small short playable begins reached held over =
      let ok = Reach-IsOk rng op t small short playable start x begins reached in
      let (before, r) =
        Holds-Drained rng op t x.shared v small short ok.shared over x.out x.sent ok.out held in
      let scores = (x.shared.turn_container v).score_map in
      let told = before ++ game_ended scores ∷ [] in
      let last = Alone-Reach start x x.out fetching x.sent told r reached in
      elim (fetching-ToldGame rng op t small short playable start
        (record x { out = fetching; sent = told }) begins last refl) [
          | inl greeted ↦ absurd (told-ne-hello op before scores greeted)
          | inr game ↦ (told, r, game)
        ]
