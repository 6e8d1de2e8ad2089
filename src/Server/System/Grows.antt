-- ===== src/Server/System/Grows.antt =====
-- What the steps of the server leave in the containers that a thread holds: a full lobby stays as it
-- is, and turns are only appended.
use computer_networks_projec.Base.{
  ℕ, zero, suc, ◌+◌, ◌<◌, ◌≤◌, ◌≡◌, refl, sym, ◌∙◌, ap, subst, some, List, [], ◌∷◌, ◌++◌,
  append-nil, arith, length, take, ◌==◌, ==_iff, Bool-cases, inl, inr, ltb, ltb→lt,
}
use computer_networks_projec.Messages.{Player, AcceptedPlayer, Turn}
use computer_networks_projec.Container.Map
use computer_networks_projec.Concurrency.AcceptedPlayers.{
  AcceptedPlayers, IsValid, after_call, add_new_player, add_new_player_lem, add_new_player_rejects,
}
use computer_networks_projec.Concurrency.TurnContainer.{
  TurnContainer, append_new_turn, mark_the_game_as_finished,
}
use computer_networks_projec.Concurrency.AcceptedPlayers
use computer_networks_projec.Concurrency.TurnContainer
use computer_networks_projec.Server.Shared.{SharedState, put_at, reset_shared, IsFor}

-- The player is in the lobby under the identifier.
abbrev pub InLobby : AcceptedPlayers → AcceptedPlayer → Type 0
InLobby c a = Map.find a.id c.accepted_players ≡ some a.player

pub put_at-cases :
    {A : Type 0} (P : ℕ → A → Type 0) (v : ℕ) (a : A) (f : ℕ → A)
    → P v a
    → ((w : ℕ) → P w (f w))
    → (w : ℕ) → P w (put_at v a f w)
put_at-cases P v a f pa pf w = elim (Bool-cases (v == w)) [
  | inl here ↦ rw here (subst (λ u. P u a) ((==_iff v w).0 here) pa)
  | inr there ↦ rw there (pf w)
]

pub put_at_else : {A : Type 0} (v w : ℕ) (a : A) (f : ℕ → A) → w < v → put_at v a f w ≡ f w
put_at_else v w a f h = ground arith

pub put_at_above : {A : Type 0} (v w : ℕ) (a : A) (f : ℕ → A) → v < w → put_at v a f w ≡ f w
put_at_above v w a f h = ground arith

pub put_at_self : {A : Type 0} (v : ℕ) (a : A) (f : ℕ → A) → put_at v a f v ≡ a
put_at_self v a f = ground arith

-- A full lobby accepts nobody.
pub after_call_full :
    (n : ℕ) (p : Player) (c : AcceptedPlayers)
    → IsFor n c
    → length c.accepted_players ≡ n
    → after_call p c ≡ c
unfolding after_call
after_call_full n p c (v, e) h = rw (after_call, add_new_player_rejects p c v (h ∙ sym e)) refl

-- Whoever is in the lobby stays.
after_call-InLobby :
    (p : Player) (c : AcceptedPlayers) (a : AcceptedPlayer)
    → IsValid c
    → InLobby c a
    → InLobby (after_call p c) a
unfolding after_call
after_call-InLobby p c a v known =
    elim (Bool-cases (ltb (length c.accepted_players) c.target_players_count)) [
      | inl room ↦
          let (c', e, _, _, others, _, _) = add_new_player_lem p c v (ltb→lt _ _ room) in
          let r : after_call p c ≡ c' = rw (after_call, e) refl in
          rw r (others a.id (ground (arith, v.numbered.nobody_else a.id)) ∙ known)
      | inr full ↦
          let r : after_call p c ≡ c =
            rw (after_call, add_new_player_rejects p c v (ground (arith, v.room))) refl in
          rw r known
    ]

pub record Grows (n : ℕ) (s s' : SharedState) : Type 0 where
  pub version : s.game_version ≤ s'.game_version
  pub lobby :
      (v : ℕ)
      → v ≤ s.game_version
      → length (s.accepted_players v).accepted_players ≡ n
      → s'.accepted_players v ≡ s.accepted_players v
  pub known :
      (v : ℕ) (a : AcceptedPlayer)
      → v ≤ s.game_version
      → InLobby (s.accepted_players v) a
      → InLobby (s'.accepted_players v) a
  pub turns :
      (v : ℕ)
      → v ≤ s.game_version
      → (more : List Turn) × ((s'.turn_container v).turns ≡ (s.turn_container v).turns ++ more)

module _ (n : ℕ) (s : SharedState) where
  same_turns :
      (v : ℕ)
      → (more : List Turn) × ((s.turn_container v).turns ≡ (s.turn_container v).turns ++ more)
  same_turns v = ([], sym (append-nil (s.turn_container v).turns))

  pub joins-Grows :
      (w : ℕ) (p : Player)
      → ((v : ℕ) → IsFor n (s.accepted_players v))
      → Grows n s (record s {
        accepted_players = put_at w (after_call p (s.accepted_players w)) s.accepted_players;
      })
  joins-Grows w p valid = record {
    version = omega arith;
    lobby = λ v h full.
        put_at-cases
          (λ u c. length (s.accepted_players u).accepted_players ≡ n → c ≡ s.accepted_players u) w
          (after_call p (s.accepted_players w)) s.accepted_players
          (after_call_full n p (s.accepted_players w) (valid w)) (λ u e. refl) v full;
    known = λ v a h k.
        put_at-cases (λ u c. InLobby (s.accepted_players u) a → InLobby c a) w
          (after_call p (s.accepted_players w)) s.accepted_players
          (after_call-InLobby p (s.accepted_players w) a (valid w).0) (λ u e. e) v k;
    turns = λ v h. same_turns v;
  }

  -- A step that touches neither lobbies nor the version, and only appends turns.
  pub turns-Grows :
      (s' : SharedState)
      → s'.game_version ≡ s.game_version
      → s'.accepted_players ≡ s.accepted_players
      → ((v : ℕ)
          → (more : List Turn) × ((s'.turn_container v).turns ≡ (s.turn_container v).turns ++ more))
      → Grows n s s'
  turns-Grows s' e e' grows = record {
    version = omega arith;
    lobby = λ v h full. ap (λ (f : ℕ → AcceptedPlayers). f v) e';
    known = λ v a h k. subst (λ f. InLobby (f v) a) (sym e') k;
    turns = λ v h. grows v;
  }

  pub appended :
      (v : ℕ) (t : Turn) (w : ℕ)
      → (more : List Turn) × ((put_at v
            (append_new_turn t (s.turn_container v))
            s.turn_container
            w).turns
          ≡ (s.turn_container w).turns ++ more)
  unfolding append_new_turn
  appended v t =
      put_at-cases (λ u c. (more : List Turn) × (c.turns ≡ (s.turn_container u).turns ++ more)) v
        (append_new_turn t (s.turn_container v)) s.turn_container (t ∷ [], refl) same_turns

  pub marked :
      (v : ℕ) (scores : List (ℕ × ℕ)) (w : ℕ)
      → (more : List Turn) × ((put_at v
            (mark_the_game_as_finished scores (s.turn_container v))
            s.turn_container
            w).turns
          ≡ (s.turn_container w).turns ++ more)
  unfolding mark_the_game_as_finished
  marked v scores =
      put_at-cases (λ u c. (more : List Turn) × (c.turns ≡ (s.turn_container u).turns ++ more)) v
        (mark_the_game_as_finished scores (s.turn_container v)) s.turn_container (same_turns v)
        same_turns

  pub kept_turns-Grows :
      (s' : SharedState)
      → s'.game_version ≡ s.game_version
      → s'.accepted_players ≡ s.accepted_players
      → s'.turn_container ≡ s.turn_container
      → Grows n s s'
  kept_turns-Grows s' e e' e'' = turns-Grows s' e e' (λ v.
      subst (λ f. (more : List Turn) × ((f v).turns ≡ (s.turn_container v).turns ++ more)) (sym e'')
        (same_turns v))

  -- A reset makes a version that nobody holds yet.
  pub reset-Grows : (k : ℕ) → Grows n s (reset_shared k s)
  unfolding reset_shared
  reset-Grows k = record {
    version = omega arith;
    lobby = λ v h full. put_at_else (s.game_version + 1) v _ s.accepted_players (omega arith);
    known = λ v a h m.
        rw
          (put_at_else (s.game_version + 1) v (AcceptedPlayers.create k) s.accepted_players
            (omega arith))
          m;
    turns = λ v h.
        rw (put_at_else (s.game_version + 1) v TurnContainer.create s.turn_container (omega arith))
          (same_turns v);
  }

pub take-append :
    {A : Type 0} (i : ℕ) (xs ys : List A) → i ≤ length xs → take i (xs ++ ys) ≡ take i xs
take-append zero xs ys h = refl
take-append (suc i) [] ys h = absurd (omega arith)
take-append {A} (suc i) (x ∷ xs) ys h =
    ap (λ (zs : List A). x ∷ zs) (take-append i xs ys (omega arith))
