-- ===== src/Server/System/Told.antt =====
-- What a client is told stays in step with the containers, whatever the other threads do.
use computer_networks_projec.Base.{ℕ, ◌+◌, ap, List, [], ◌∷◌, arith, length, All, length-append}
use computer_networks_projec.Messages.{AcceptedPlayer, ServerMessage}
use computer_networks_projec.Game.Server.{Options, Generator}
use computer_networks_projec.Server.Shared.{SharedState}
use computer_networks_projec.Server.Outbound.{
  Outbound, greeting, fetching, checking, accepting, awaiting, turning, ending,
}
use computer_networks_projec.Server.System.Grows.{Grows, InLobby, take-append}
use computer_networks_projec.Server.System.Invariant.{OutOk, Told, ToldTurns}

All-weaken :
    {A : Type 0} (P Q : A → Type 0) (xs : List A) → ((a : A) → P a → Q a) → All P xs → All Q xs
All-weaken P Q [] f h = tt
All-weaken P Q (x ∷ xs) f h = (f x h.0, All-weaken P Q xs f h.1)

module _ (rng : Generator) (op : Options) (t : ℕ) where
  Told-Grows :
      (s s' : SharedState) (v : ℕ) (P : List AcceptedPlayer → Type 0)
      (messages : List ServerMessage)
      → Grows op.players_count s s'
      → Told rng op t s v P messages
      → Told rng op t s' v P messages
  Told-Grows s s' v P messages g a = record {
    known = omega (arith, a.known, g.version);
    accepted = a.accepted;
    listed = a.listed;
    in_lobby =
        All-weaken (InLobby (s.accepted_players v)) (InLobby (s'.accepted_players v)) a.accepted
          (λ b k. g.known v b a.known k) a.in_lobby;
    told = a.told;
  }

  ToldTurns-Grows :
      (s s' : SharedState) (v i : ℕ) (messages : List ServerMessage)
      → Grows op.players_count s s'
      → ToldTurns rng op t s v i messages
      → ToldTurns rng op t s' v i messages
  ToldTurns-Grows s s' v i messages g a =
      let same = g.lobby v a.known a.full in
      let (more, longer) = g.turns v a.known in
      record {
        known = omega (arith, a.known, g.version);
        full = rw same a.full;
        accepted = a.accepted;
        listed = a.listed;
        in_lobby = rw same a.in_lobby;
        published =
            omega
              (arith, a.published, ap length longer, length-append (s.turn_container v).turns more);
        bounded = a.bounded;
        told = rw (same, longer, take-append i (s.turn_container v).turns more a.published) a.told;
      }

  pub OutOk-Grows :
      (s s' : SharedState) (o : Outbound) (messages : List ServerMessage)
      → Grows op.players_count s s'
      → OutOk rng op t s o messages
      → OutOk rng op t s' o messages
  OutOk-Grows s s' greeting messages g a = a
  OutOk-Grows s s' fetching messages g a = a
  OutOk-Grows s s' (checking v) messages g a = (omega (arith, a.0, g.version), a.1)
  OutOk-Grows s s' (accepting v i) messages g a = Told-Grows s s' v _ messages g a
  OutOk-Grows s s' (awaiting v) messages g a = Told-Grows s s' v _ messages g a
  OutOk-Grows s s' (turning v i) messages g a = ToldTurns-Grows s s' v i messages g a
  OutOk-Grows s s' (ending v) messages g a =
      ToldTurns-Grows s s' v (op.game_length + 1) messages g a
