-- ===== src/Server/System/Keeps.antt =====
-- What a change of the containers leaves as it was.
use computer_networks_projec.Base.{ℕ, ◌≡◌, subst, Bool-cases, ◌⊎◌, inl, inr, arith, length, ◌==◌}
use computer_networks_projec.Concurrency.Blocking.{Blocking, returned, blocked, threw}
use computer_networks_projec.Concurrency.AcceptedPlayers.{
  AcceptedPlayers, IsFullLobby, return_when_target_players_joined,
}
use computer_networks_projec.Concurrency.MoveContainer.{Slots}
use computer_networks_projec.Game.Server.{Options, Generator}
use computer_networks_projec.Server.Shared.{SharedState, IsFor}
use computer_networks_projec.Server.Main.{
  Main, copying, waiting, starting, playing, resetting, finishing,
}
use computer_networks_projec.Server.System.Grows.{Grows}
use computer_networks_projec.Server.System.Invariant.{IsFull, SharedOk, MainOk}

-- What a call that may wait comes to, if it does not wait; it does not throw.
abbrev pub Goes : {A : Type 0} → (A → Type 0) → Blocking A → Type 0
Goes P (returned a) = P a
Goes P blocked = Unit {0}
Goes P threw = ⊥

pub joined_cases :
    (c : AcceptedPlayers)
    → ((length c.accepted_players ≡ c.target_players_count)
        × (return_when_target_players_joined c ≡ returned c.accepted_players))
      ⊎ (return_when_target_players_joined c ≡ blocked)
unfolding return_when_target_players_joined
joined_cases c = elim (Bool-cases (c.target_players_count == length c.accepted_players)) [
  | inl full ↦ inl (ground arith, ground arith)
  | inr short ↦ inr (ground arith)
]

pub full-IsFullLobby :
    (n : ℕ) (c : AcceptedPlayers)
    → IsFor n c
    → length c.accepted_players ≡ n
    → IsFullLobby n c.accepted_players
full-IsFullLobby n c (v, e) h = subst (λ k. IsFullLobby k c.accepted_players) h v.numbered

module _ (rng : Generator) (op : Options) (t : ℕ) where
  -- After a step of the main loop.
  abbrev pub Kept : SharedState → SharedState × Main rng.State → Type 0
  Kept s r = SharedOk rng op t r.0 × MainOk rng op t r.0 r.1 × Grows op.players_count s r.0

  -- A change of lobbies and moves that leaves the full lobbies.
  module _ (s : SharedState) (f : ℕ → AcceptedPlayers) (g : ℕ → Slots)
      (same : (v : ℕ) → IsFull rng op t s v → f v ≡ s.accepted_players v) where
    pub keep_main :
        (m : Main rng.State)
        → MainOk rng op t s m
        → MainOk rng op t (record s { accepted_players = f; move_container = g }) m
    keep_main copying a = a
    keep_main (waiting v) a = a
    keep_main (starting v) (e, c, full) = (e, c, rw (same v full) full)
    keep_main (playing v left game) a = record {
      current = a.current;
      full = rw (same v a.full) a.full;
      unfinished = a.unfinished;
      done = a.done;
      counted = a.counted;
      shown = rw (same v a.full) a.shown;
    }
    keep_main (resetting v scores) (e, a) = (e, rw (same v a.everybody) a)
    keep_main (finishing v scores) (lt, c, a) = (lt, c, rw (same v a.everybody) a)

    pub keep_shared :
        SharedOk rng op t s
        → ((v : ℕ) → IsFor op.players_count (f v))
        → ((v : ℕ) → length (g v) ≡ op.players_count)
        → SharedOk rng op t (record s { accepted_players = f; move_container = g })
    keep_shared a lobbies slots = record {
      lobbies = lobbies;
      slots = slots;
      finished = λ v e. let whole = a.finished v e in rw (same v whole.everybody) whole;
    }
