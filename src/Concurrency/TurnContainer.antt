-- ===== src/Concurrency/TurnContainer.antt =====
-- src/concurrency/turn_container.cpp: the turns of the current game, and its scores at the end.
use computer_networks_projec.Base.{
  ℕ, ◌≡◌, Bool, true, false, none, some, List, [], ◌∷◌, ◌++◌, arith, ltb, if◌then◌else◌, length,
  get_elem?, get_elem?-append_left, get_elem?-append_here, length-append, get_elem?-total, ◌≢◌,
}
use computer_networks_projec.Messages.{Turn}
use computer_networks_projec.Concurrency.Blocking.{Blocking, returned, blocked, threw}

pub record TurnContainer : Type 0 where
  pub turns : List Turn
  pub score_map : List (ℕ × ℕ)
  pub finished : Bool

unfoldable pub create : TurnContainer
create = record { turns = []; score_map = []; finished = false }

unfoldable pub append_new_turn : Turn → TurnContainer → TurnContainer
append_new_turn t c = record c { turns = c.turns ++ t ∷ [] }

unfoldable pub get_turn : ℕ → TurnContainer → Blocking Turn
get_turn turn_id c =
    if ltb turn_id (length c.turns)
    then elim (get_elem? c.turns turn_id) [ none ↦ threw | some t ↦ returned t ]
    else blocked

unfoldable pub return_when_game_finished : TurnContainer → Blocking (List (ℕ × ℕ))
return_when_game_finished c = if c.finished then returned c.score_map else blocked

unfoldable pub mark_the_game_as_finished : List (ℕ × ℕ) → TurnContainer → TurnContainer
mark_the_game_as_finished scores c = record c { finished = true; score_map = scores }

-- A call for the turn after the last one waits, and returns the turn as soon as it is appended.
pub get_turn-append :
    (t : Turn) (c : TurnContainer)
    → (get_turn (length c.turns) c ≡ blocked)
      × (get_turn (length c.turns) (append_new_turn t c) ≡ returned t)
unfolding get_turn append_new_turn
get_turn-append t c =
    ground (arith, get_elem?-append_here c.turns [] t, length-append c.turns (t ∷ []))

-- A call that returned a turn returns the same turn after another turn is appended, and after the
-- game is marked as finished.
pub get_turn_stable :
    (i : ℕ) (t u : Turn) (scores : List (ℕ × ℕ)) (c : TurnContainer)
    → get_turn i c ≡ returned t
    → (get_turn i (append_new_turn u c) ≡ returned t)
      × (get_turn i (mark_the_game_as_finished scores c) ≡ returned t)
unfolding get_turn append_new_turn mark_the_game_as_finished
get_turn_stable i t u scores c h =
    ground (arith, get_elem?-append_left c.turns (u ∷ []) i, length-append c.turns (u ∷ []))

-- `turns.at(turn_id)` never throws: the call waits until the turn is there.
pub get_turn-ne-threw : (i : ℕ) (c : TurnContainer) → get_turn i c ≢ threw
unfolding get_turn
get_turn-ne-threw i c h = ground (arith, get_elem?-total c.turns i)
