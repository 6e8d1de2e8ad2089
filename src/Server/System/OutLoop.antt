-- ===== src/Server/System/OutLoop.antt =====
-- The outgoing thread never throws, and keeps what holds of what it has sent.
use computer_networks_projec.Base.{
  ℕ, zero, suc, ◌+◌, ◌%◌, ◌<◌, ◌≡◌, refl, ◌∙◌, ap, subst, true, false, Bool, Bool-cases, ◌⊎◌, inl,
  inr, some, List, [], ◌∷◌, ◌++◌, map, append_assoc, append-nil, arith, length, take, All-append,
  get_elem?, get_elem?-total, ltb, ltb→lt, if◌then◌else◌,
}
use mathlib.Core.List.{map-append}
use computer_networks_projec.Config.{u8_size, u16_size}
use computer_networks_projec.Messages.{
  Player, AcceptedPlayer, Turn, ServerMessage, accepted_player, game_started, game_ended,
}
use computer_networks_projec.Container.Map
use computer_networks_projec.Concurrency.Blocking.{returned, blocked}
use computer_networks_projec.Concurrency.AcceptedPlayers.{
  AcceptedPlayers, get_accepted_player, get_accepted_player_lem,
}
use computer_networks_projec.Concurrency.TurnContainer.{
  TurnContainer, get_turn, return_when_game_finished,
}
use computer_networks_projec.Client.Sessions.{game_messages}
use computer_networks_projec.Game.Server.{Options, Generator}
use computer_networks_projec.Server.Shared.{SharedState, IsFor}
use computer_networks_projec.Server.Outbound.{
  Outbound, greeting, fetching, checking, accepting, awaiting, turning, ending, out_step,
  show_player, show_turn, and_send,
}
use computer_networks_projec.Server.System.{kept}
use computer_networks_projec.Server.System.Grows.{InLobby}
use computer_networks_projec.Server.System.Invariant.{
  SharedOk, OutOk, Told, ids, upto, IsListed, IsPrefix, ToldTurns,
}
use computer_networks_projec.Server.System.Keeps.{Goes, joined_cases}

-- One element more.
take-suc :
    {A : Type 0} (i : ℕ) (xs : List A) (x : A)
    → get_elem? xs i ≡ some x
    → take (suc i) xs ≡ take i xs ++ x ∷ []
take-suc i [] x e = cc
take-suc {A} zero (y ∷ xs) x e = ap (λ (z : A). z ∷ []) (cc)
take-suc {A} (suc i) (y ∷ xs) x e = ap (λ (zs : List A). y ∷ zs) (take-suc i xs x e)

take_whole : {A : Type 0} (xs : List A) (n : ℕ) → length xs ≡ n → take n xs ≡ xs
take_whole [] zero e = refl
take_whole [] (suc n) e = refl
take_whole (x ∷ xs) zero e = absurd (omega arith)
take_whole {A} (x ∷ xs) (suc n) e = ap (λ (ys : List A). x ∷ ys) (take_whole xs n (omega arith))

pub get_turn_cases :
    (i : ℕ) (c : TurnContainer)
    → ((turn : Turn) × (i < length c.turns)
        × (get_elem? c.turns i ≡ some turn)
        × (get_turn i c ≡ returned turn))
      ⊎ (get_turn i c ≡ blocked)
unfolding get_turn
get_turn_cases i c = elim (Bool-cases (ltb i (length c.turns))) [
  | inl there ↦
      let lt = ltb→lt _ _ there in
      let (turn, e) = get_elem?-total c.turns i lt in
      inl (turn, lt, e, rw (get_turn, there, e) refl)
  | inr later ↦ inr (rw (get_turn, later) refl)
]

pub player_cases :
    (n i : ℕ) (c : AcceptedPlayers)
    → IsFor n c
    → i < n
    → ((p : Player) × (Map.find i c.accepted_players ≡ some p)
        × (get_accepted_player i c ≡ returned (record { id = i; player = p })))
      ⊎ (get_accepted_player i c ≡ blocked)
player_cases n i c (v, e) h =
    let (_, waits, there) = get_accepted_player_lem i c v in
    elim (Bool-cases (ltb i (length c.accepted_players))) [
      | inl lt ↦ inl (there (ltb→lt _ _ lt))
      | inr ge ↦ inr (waits (omega arith) (ground arith))
    ]

module _ (rng : Generator) (op : Options) (t : ℕ) where
  -- What is shown after a step that sends, from what was shown before.
  abbrev OutKept : SharedState → List ServerMessage → Outbound × List ServerMessage → Type 0
  OutKept s messages r = OutOk rng op t s r.0 (messages ++ r.1)

  one_more :
      (i : ℕ) (accepted : List AcceptedPlayer) (b : AcceptedPlayer)
      → b.id ≡ i
      → ids accepted ≡ upto i
      → ids (accepted ++ b ∷ []) ≡ upto (suc i)
  unfolding upto
  one_more i accepted b e h = map-append (λ a. a.id) accepted (b ∷ []) ∙ rw (h, e) refl

  accepting-Kept :
      (s : SharedState) (v i : ℕ) (messages : List ServerMessage)
      → op.players_count < u8_size
      → SharedOk rng op t s
      → Told rng op t s v (IsPrefix op.players_count i) messages
      → Goes (OutKept s messages) (show_player op s v i)
  unfolding show_player and_send
  accepting-Kept s v i messages small ok a = elim (Bool-cases (ltb i op.players_count)) [
    | inr over ↦
        let last : i ≡ op.players_count = ground (arith, a.listed.0) in
        rw (show_player, over, append-nil messages)
          (record {
            known = a.known;
            accepted = a.accepted;
            listed = inr (subst (λ k. ids a.accepted ≡ upto k) last a.listed.1);
            in_lobby = a.in_lobby;
            told = a.told;
          })
    | inl more ↦
        elim (player_cases op.players_count i (s.accepted_players v) (ok.lobbies v)
          (ltb→lt _ _ more)) [
            | inr e ↦ rw (show_player, more, e, and_send) tt
            | inl (p, there, e) ↦
                let b : AcceptedPlayer = record { id = i; player = p } in
                let before = ltb→lt _ _ more in
                let counter : (i + 1) % u8_size ≡ suc i = omega arith in
                rw (show_player, more, e, and_send, counter)
                  (record {
                    known = a.known;
                    accepted = a.accepted ++ b ∷ [];
                    listed = (before, one_more i a.accepted b refl a.listed.1);
                    in_lobby =
                        All-append (InLobby (s.accepted_players v)) a.accepted (b ∷ []) a.in_lobby
                          (there, tt);
                    told = rw (a.told, map-append accepted_player a.accepted (b ∷ [])) refl;
                  })
          ]
  ]

  awaiting-Kept :
      (s : SharedState) (v : ℕ) (messages : List ServerMessage)
      → SharedOk rng op t s
      → Told rng op t s v (IsListed op.players_count) messages
      → Goes (OutKept s messages) (out_step op s (awaiting v))
  unfolding out_step
  awaiting-Kept s v messages ok a = elim (joined_cases (s.accepted_players v)) [
    | inr e ↦ rw (e, and_send) tt
    | inl (full, e) ↦
        rw (e, and_send)
          (record {
            known = a.known;
            full = full ∙ (ok.lobbies v).1;
            accepted = a.accepted;
            listed = a.listed;
            in_lobby = a.in_lobby;
            published = omega arith;
            bounded = omega arith;
            told =
                ap
                  (λ (ms : List ServerMessage).
                    ms ++ game_started (s.accepted_players v).accepted_players ∷ [])
                  a.told;
          })
  ]

  -- The counter of turns has 16 bits: it reaches its bound if the bound has 16 bits, too.
  turning-Kept :
      (s : SharedState) (v i : ℕ) (messages : List ServerMessage)
      → op.game_length + 1 < u16_size
      → ToldTurns rng op t s v i messages
      → Goes (OutKept s messages) (show_turn op s v i)
  unfolding show_turn and_send
  turning-Kept s v i messages short a = elim (Bool-cases (ltb i (op.game_length + 1))) [
    | inr over ↦
        let last : i ≡ op.game_length + 1 = ground (arith, a.bounded) in
        rw (show_turn, over, append-nil messages)
          (subst (λ j. ToldTurns rng op t s v j messages) last a)
    | inl more ↦ elim (get_turn_cases i (s.turn_container v)) [
      | inr e ↦ rw (show_turn, more, e, and_send) tt
      | inl (turn, lt, there, e) ↦
          let ts = (s.turn_container v).turns in
          let players = (s.accepted_players v).accepted_players in
          let before = ltb→lt _ _ more in
          let counter : (i + 1) % u16_size ≡ suc i = omega arith in
          rw (show_turn, more, e, and_send, counter)
            (record {
              known = a.known;
              full = a.full;
              accepted = a.accepted;
              listed = a.listed;
              in_lobby = a.in_lobby;
              published = omega arith;
              bounded = omega arith;
              told =
                  rw
                    (
                      a.told,
                      take-suc i ts turn there,
                      map-append ServerMessage.turn (take i ts) (turn ∷ []),
                    )
                    (append_assoc (map accepted_player a.accepted)
                      (game_started players ∷ map ServerMessage.turn (take i ts))
                      (ServerMessage.turn turn ∷ []));
            })
    ]
  ]

  pub finished_cases :
      (c : TurnContainer)
      → ((c.finished ≡ true) × (return_when_game_finished c ≡ returned c.score_map))
        ⊎ (return_when_game_finished c ≡ blocked)
  unfolding return_when_game_finished
  finished_cases c = elim (Bool-cases c.finished) [
    | inl over ↦ inl (over, ground arith)
    | inr going ↦ inr (ground arith)
  ]

  ending-Kept :
      (s : SharedState) (v : ℕ) (messages : List ServerMessage)
      → SharedOk rng op t s
      → ToldTurns rng op t s v (op.game_length + 1) messages
      → Goes (OutKept s messages) (out_step op s (ending v))
  unfolding out_step game_messages
  ending-Kept s v messages ok a = elim (finished_cases (s.turn_container v)) [
    | inr e ↦ rw (e, and_send) tt
    | inl (over, e) ↦
        let c = s.turn_container v in
        let players = (s.accepted_players v).accepted_players in
        let whole = ok.finished v over in
        rw (e, and_send)
          (inr (record {
            accepted = a.accepted;
            listed = a.listed;
            players = players;
            turns = c.turns;
            scores = c.score_map;
            in_lobby = a.in_lobby;
            whole = whole;
            told =
                rw (a.told, take_whole c.turns (op.game_length + 1) whole.counted)
                  (append_assoc (map accepted_player a.accepted)
                    (game_started players ∷ map ServerMessage.turn c.turns)
                    (game_ended c.score_map ∷ []));
          }))
  ]

  checking-Kept :
      (s : SharedState) (v : ℕ) (begun : Bool) (messages : List ServerMessage)
      → OutOk rng op t s (checking v) messages
      → OutOk rng op t s (if begun then awaiting v else accepting v 0) (messages ++ [])
  unfolding upto
  checking-Kept s v true messages a = record {
    known = a.0;
    accepted = [];
    listed = inl refl;
    in_lobby = tt;
    told = append-nil messages ∙ a.1;
  }
  checking-Kept s v false messages a = record {
    known = a.0;
    accepted = [];
    listed = (omega arith, refl);
    in_lobby = tt;
    told = append-nil messages ∙ a.1;
  }

  -- No step of the thread throws, and each keeps what holds.
  pub out_step-Kept :
      (s : SharedState) (o : Outbound) (messages : List ServerMessage)
      → op.players_count < u8_size
      → op.game_length + 1 < u16_size
      → SharedOk rng op t s
      → OutOk rng op t s o messages
      → Goes (OutKept s (kept o messages)) (out_step op s o)
  unfolding out_step kept
  out_step-Kept s greeting messages small short ok a = inl (rw a refl)
  out_step-Kept s fetching messages small short ok a = (omega arith, refl)
  out_step-Kept s (checking v) messages small short ok a =
      checking-Kept s v s.game_started messages a
  out_step-Kept s (accepting v i) messages small short ok a =
      accepting-Kept s v i messages small ok a
  out_step-Kept s (awaiting v) messages small short ok a = awaiting-Kept s v messages ok a
  out_step-Kept s (turning v i) messages small short ok a = turning-Kept s v i messages short a
  out_step-Kept s (ending v) messages small short ok a = ending-Kept s v messages ok a
