-- ===== src/Server/Outbound/Counter.antt =====
-- The counter of the turns that a client is shown, where the game has as many as it can have.
use computer_networks_projec.Base.{
  ℕ, ◌+◌, ◌%◌, ◌<◌, ◌≡◌, refl, sym, ◌∙◌, subst, true, List, arith, ltb,
}
use computer_networks_projec.Config.{u16_size}
use computer_networks_projec.Messages.{ServerMessage}
use computer_networks_projec.Concurrency.Blocking.{Blocking, returned, blocked, threw}
use computer_networks_projec.Concurrency.TurnContainer.{get_turn}
use computer_networks_projec.Game.Server.{Options}
use computer_networks_projec.Server.Shared.{SharedState}
use computer_networks_projec.Server.Outbound.{Outbound, turning, out_step, show_turn, and_send}

-- The thread takes steps, whatever the shared state is at each of them.
pub data Runs (op : Options) : Outbound → Outbound → Type 0 where
  begins : {o : Outbound} → Runs op o o
  goes_on :
      {o o' o'' : Outbound} {messages : List ServerMessage} (s : SharedState)
      → Runs op o o'
      → out_step op s o' ≡ returned (o'', messages)
      → Runs op o o''

-- The thread is in the loop over the turns.
abbrev pub IsTurning : ℕ → Outbound → Type 0
IsTurning v o = (i : ℕ) × (i < u16_size) × (o ≡ turning v i)

and_send_next :
    {A : Type 0} (o o' : Outbound) (f : A → ServerMessage) (r : Blocking A)
    (messages : List ServerMessage)
    → and_send o f r ≡ returned (o', messages)
    → o' ≡ o
unfolding and_send
and_send_next o o' f (returned a) messages e = cc
and_send_next o o' f blocked messages e = cc
and_send_next o o' f threw messages e = cc

show_turn-IsTurning :
    (op : Options) (s : SharedState) (v i : ℕ) (o : Outbound) (messages : List ServerMessage)
    → op.game_length + 1 ≡ u16_size
    → i < u16_size
    → show_turn op s v i ≡ returned (o, messages)
    → IsTurning v o
unfolding show_turn
show_turn-IsTurning op s v i o messages long small e =
    let more : ltb i (op.game_length + 1) ≡ true = ground (arith, long, small) in
    let sends : show_turn op s v i
        ≡ and_send (turning v ((i + 1) % u16_size)) ServerMessage.turn
            (get_turn i (s.turn_container v)) =
      rw (show_turn, more) refl in
    (
      (i + 1) % u16_size,
      omega arith,
      and_send_next (turning v ((i + 1) % u16_size)) o ServerMessage.turn
          (get_turn i (s.turn_container v)) messages (sym sends ∙ e),
    )

-- If a game has 65535 turns, the thread that shows the turns of a game to a client, whatever the
-- shared state is at each of its steps, never leaves the loop over the turns: its counter has 16
-- bits and does not come to 65536.
pub Runs-IsTurning :
    (op : Options) (v : ℕ) (o : Outbound)
    → op.game_length + 1 ≡ u16_size
    → Runs op (turning v 0) o
    → IsTurning v o
unfolding out_step
Runs-IsTurning op v o long begins = (0, omega arith, refl)
Runs-IsTurning op v o long (goes_on {o' = o'} {messages} s r e) =
    let (i, small, at) = Runs-IsTurning op v o' long r in
    show_turn-IsTurning op s v i o messages long small
      (subst (λ p. out_step op s p ≡ returned (o, messages)) at e)
