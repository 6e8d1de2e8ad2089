-- ===== src/Server/Shared.antt =====
-- The state that the threads of src/server.cpp share.
use computer_networks_projec.Base.{
  ℕ, ◌+◌, ◌≡◌, ◌∙◌, Bool, false, ◌==◌, if◌then◌else◌, Bool-cases, inl, inr,
}
use computer_networks_projec.Messages.{Player}
use computer_networks_projec.Concurrency.AcceptedPlayers.{
  AcceptedPlayers, IsValid, after_call, after_call_lem,
}
use computer_networks_projec.Concurrency.AcceptedPlayers
use computer_networks_projec.Concurrency.MoveContainer.{Slots}
use computer_networks_projec.Concurrency.MoveContainer
use computer_networks_projec.Concurrency.TurnContainer.{TurnContainer}
use computer_networks_projec.Concurrency.TurnContainer

-- `shared_state`. The containers that a reset replaces live on in the threads that hold a pointer:
-- a pointer to a container is the version of its game.
pub record SharedState : Type 0 where
  pub game_started : Bool
  pub game_version : ℕ
  pub accepted_players : ℕ → AcceptedPlayers
  pub move_container : ℕ → Slots
  pub turn_container : ℕ → TurnContainer

abbrev pub put_at : {A : Type 0} → ℕ → A → (ℕ → A) → ℕ → A
put_at v a f w = if v == w then a else f w

-- `reset_shared`, for a number of players.
unfoldable pub reset_shared : ℕ → SharedState → SharedState
reset_shared n s = record {
  game_started = false;
  game_version = s.game_version + 1;
  accepted_players = put_at (s.game_version + 1) (AcceptedPlayers.create n) s.accepted_players;
  move_container = put_at (s.game_version + 1) (MoveContainer.create n) s.move_container;
  turn_container = put_at (s.game_version + 1) TurnContainer.create s.turn_container;
}

-- A container of players that is valid and meant for so many.
abbrev pub IsFor : ℕ → AcceptedPlayers → Type 0
IsFor n c = IsValid c × (c.target_players_count ≡ n)

pub put_at_lem :
    {A : Type 0} (P : A → Type 0) (v : ℕ) (a : A) (f : ℕ → A)
    → P a
    → ((w : ℕ) → P (f w))
    → (w : ℕ) → P (put_at v a f w)
put_at_lem P v a f pa pf w = elim (Bool-cases (v == w)) [
  | inl here ↦ rw here pa
  | inr there ↦ rw there (pf w)
]

pub after_call-IsFor :
    (n : ℕ) (p : Player) (c : AcceptedPlayers) → IsFor n c → IsFor n (after_call p c)
after_call-IsFor n p c (v, e) = let (_, same, v') = after_call_lem p c v in (v', same ∙ e)
