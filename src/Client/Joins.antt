-- ===== src/Client/Joins.antt =====
-- The client asks for a game once: the two threads together, in any order of their steps.
use computer_networks_projec.Base.{
  ℕ, suc, ◌+◌, ◌≤◌, ◌≡◌, refl, Bool, true, false, Option, none, some, ◌>>=◌, List, [], ◌∷◌, arith,
  Post, if◌then◌else◌, Post-some, Option-cases, inl, inr,
}
use computer_networks_projec.Config.{Text}
use computer_networks_projec.Messages.{
  InputMessage, invalid_message, ClientMessage, join, ServerMessage, hello, accepted_player,
  game_started, game_ended,
}
use computer_networks_projec.Messages.Gui.{DrawMessage}
use computer_networks_projec.Client.{
  State, in_lobby, in_game, Flags, Screen, GuiPlace, reading, testing_state, testing_sent, joining,
  storing, forwarding, forwarded, gui_receive, gui_step, ServerPlace, greeting, entering,
  lobby_testing, lobby_reading, starting, lobby_showing, game_testing, game_reading, ending,
  unsending, game_showing, receive_first, receive_in_lobby, receive_in_game, receive, create_game,
  draw, server_step_at,
}

-- A step of one of the threads: the one of the GUI reads a message, or goes on, where a sending may
-- fail; or the one of the server does.
pub data Move : Type 0 where
  gui_reads : InputMessage → Move
  gui_goes : Bool → Move
  server_reads : ServerMessage → Move
  server_goes : Move

unfoldable pub count_joins : List ClientMessage → ℕ
count_joins [] = 0
count_joins (join name ∷ ms) = suc (count_joins ms)
count_joins (ClientMessage.place_bomb ∷ ms) = count_joins ms
count_joins (ClientMessage.place_block ∷ ms) = count_joins ms
count_joins (ClientMessage.move d ∷ ms) = count_joins ms

-- The end of a game, if the thread reads it.
unfoldable pub ends : ServerMessage → ServerPlace → ℕ
ends (game_ended scores) (game_reading h g) = 1
ends _ _ = 0

-- What is left of the right to ask, with a request that is decided on; and a reset that is due.
abbrev free : GuiPlace → Bool → ℕ
free joining sent = 1
free storing sent = 0
free reading sent = if sent then 0 else 1
free (testing_state m) sent = if sent then 0 else 1
free (testing_sent m) sent = if sent then 0 else 1
free (forwarding m) sent = if sent then 0 else 1

abbrev due : ServerPlace → ℕ
due greeting = 0
due (entering h m) = 0
due (lobby_testing h l m) = 0
due (lobby_reading h l) = 0
due (starting h l m) = 0
due (lobby_showing h l m) = 0
due (game_testing h g m) = 0
due (game_reading h g) = 0
due (ending h g m) = 1
due (unsending h g m) = 1
due (game_showing h g m) = 0

module _ (screen : Screen) (player_name : Text) (turn : ℕ) where
  pub record Client : Type 0 where
    pub gui : GuiPlace
    pub server : ServerPlace
    pub flags : Flags
    pub device : screen.Device

  -- At the start of both threads.
  abbrev pub initial : screen.Device → Client
  initial d = record {
    gui = reading;
    server = greeting;
    flags = record { state = in_lobby; join_sent = false };
    device = d;
  }

  -- The client after a step, the requests to join that it sent, and the games whose end it read.
  unfoldable pub move : Move → Client → Option (Client × ℕ × ℕ)
  unfolding gui_receive gui_step receive server_step_at count_joins ends
  move (gui_reads m) c = some (record c { gui = gui_receive m c.gui }, 0, 0)
  move (gui_goes up) c = gui_step player_name up c.gui c.flags >>= λ r.
      some (record c { gui = r.0; flags = r.1 }, count_joins r.2, 0)
  move (server_reads m) c =
      receive m c.server >>= λ place. some (record c { server = place }, 0, ends m c.server)
  move server_goes c = server_step_at screen turn c.server c.flags c.device >>= λ r.
      some (record c { server = r.place; flags = r.flags; device = r.device }, 0, 0)

  -- An exception ends the client: there are no steps after it.
  unfoldable pub moves : List Move → Client → Client × ℕ × ℕ
  unfolding move
  moves [] c = (c, 0, 0)
  moves (m ∷ ms) c = elim (move m c) [
    | none ↦ (c, 0, 0)
    | some r ↦ let q = moves ms r.0 in (q.0, r.1 + q.1, r.2 + q.2)
  ]

  abbrev budget : Client → ℕ
  budget c = free c.gui c.flags.join_sent + due c.server

  abbrev Bounded : ℕ → Client × ℕ × ℕ → Type 0
  Bounded b r = budget r.0 + r.1 ≤ b + r.2

  free_le : (g : GuiPlace) → free g false ≤ 1
  free_le reading = omega arith
  free_le (testing_state m) = omega arith
  free_le (testing_sent m) = omega arith
  free_le joining = omega arith
  free_le storing = omega arith
  free_le (forwarding m) = omega arith

  gui_reads-Bounded :
      (m : InputMessage) (c : Client) → Post (Bounded (budget c)) (move (gui_reads m) c)
  unfolding move gui_receive
  gui_reads-Bounded m c = same m c.gui
    where
      same :
          (m : InputMessage) (g : GuiPlace)
          → free (gui_receive m g) c.flags.join_sent + due c.server + 0
            ≤ free g c.flags.join_sent + due c.server + 0
      same invalid_message reading = omega arith
      same InputMessage.place_bomb reading = omega arith
      same InputMessage.place_block reading = omega arith
      same (InputMessage.move d) reading = omega arith
      same m (testing_state m') = omega arith
      same m (testing_sent m') = omega arith
      same m joining = omega arith
      same m storing = omega arith
      same m (forwarding m') = omega arith

  abbrev client_at : ServerPlace → GuiPlace → State → Bool → screen.Device → Client
  client_at sv g st sent d = record {
    gui = g;
    server = sv;
    flags = record { state = st; join_sent = sent };
    device = d;
  }

  forwarded_none : (m : InputMessage) → count_joins (forwarded m) ≡ 0
  unfolding forwarded count_joins
  forwarded_none invalid_message = refl
  forwarded_none InputMessage.place_bomb = refl
  forwarded_none InputMessage.place_block = refl
  forwarded_none (InputMessage.move d) = refl

  gui_goes-Bounded :
      (up : Bool) (g : GuiPlace) (st : State) (sent : Bool) (sv : ServerPlace) (d : screen.Device)
      → let c = client_at sv g st sent d in Post (Bounded (budget c)) (move (gui_goes up) c)
  unfolding move gui_step count_joins
  gui_goes-Bounded up reading st sent sv d = omega arith
  gui_goes-Bounded up (testing_state m) in_lobby sent sv d = omega arith
  gui_goes-Bounded up (testing_state m) in_game sent sv d = omega arith
  gui_goes-Bounded up (testing_sent m) st true sv d = omega arith
  gui_goes-Bounded up (testing_sent m) st false sv d = omega arith
  gui_goes-Bounded true joining st sent sv d = omega arith
  gui_goes-Bounded false joining st sent sv d = tt
  gui_goes-Bounded up storing st sent sv d = omega arith
  gui_goes-Bounded true (forwarding m) st sent sv d = omega (arith, forwarded_none m)
  gui_goes-Bounded false (forwarding m) st sent sv d = tt

  server_reads-Bounded :
      (m : ServerMessage) (sv : ServerPlace) (g : GuiPlace) (f : Flags) (d : screen.Device)
      → let c : Client = record { gui = g; server = sv; flags = f; device = d } in
        Post (Bounded (budget c)) (move (server_reads m) c)
  unfolding move receive receive_first receive_in_lobby receive_in_game ends
  server_reads-Bounded (hello h) greeting g f d = omega arith
  server_reads-Bounded (accepted_player a) greeting g f d = tt
  server_reads-Bounded (game_started players) greeting g f d = tt
  server_reads-Bounded (ServerMessage.turn t) greeting g f d = tt
  server_reads-Bounded (game_ended scores) greeting g f d = tt
  server_reads-Bounded (hello h') (lobby_reading h l) g f d = tt
  server_reads-Bounded (accepted_player a) (lobby_reading h l) g f d = omega arith
  server_reads-Bounded (game_started players) (lobby_reading h l) g f d = omega arith
  server_reads-Bounded (ServerMessage.turn t) (lobby_reading h l) g f d = tt
  server_reads-Bounded (game_ended scores) (lobby_reading h l) g f d = tt
  server_reads-Bounded (hello h') (game_reading h k) g f d = omega arith
  server_reads-Bounded (accepted_player a) (game_reading h k) g f d = omega arith
  server_reads-Bounded (game_started players) (game_reading h k) g f d = omega arith
  server_reads-Bounded (ServerMessage.turn t) (game_reading h k) g f d = omega arith
  server_reads-Bounded (game_ended scores) (game_reading h k) g f d = omega arith
  server_reads-Bounded m (entering h m') g f d = omega arith
  server_reads-Bounded m (lobby_testing h l m') g f d = omega arith
  server_reads-Bounded m (starting h l m') g f d = omega arith
  server_reads-Bounded m (lobby_showing h l m') g f d = omega arith
  server_reads-Bounded m (game_testing h k m') g f d = omega arith
  server_reads-Bounded m (ending h k m') g f d = omega arith
  server_reads-Bounded m (unsending h k m') g f d = omega arith
  server_reads-Bounded m (game_showing h k m') g f d = omega arith

  -- A picture leaves the variables and owes nothing.
  draw-Bounded :
      (picture : DrawMessage) (place : ServerPlace) (c : Client)
      → due place ≡ 0
      → Post (Bounded (budget c)) (
          draw screen picture place c.flags c.device >>= λ r.
          some (record c { server = r.place; flags = r.flags; device = r.device }, 0, 0))
  unfolding draw
  draw-Bounded picture place c h = elim (Option-cases (screen.show picture c.device)) [
    | inl e ↦ rw e tt
    | inr (d', e) ↦ rw e (omega (arith, h))
  ]

  server_goes-Bounded :
      (sv : ServerPlace) (g : GuiPlace) (st : State) (sent : Bool) (d : screen.Device)
      → let c = client_at sv g st sent d in Post (Bounded (budget c)) (move server_goes c)
  unfolding move server_step_at create_game
  server_goes-Bounded greeting g st sent d = omega arith
  server_goes-Bounded (entering h m) g st sent d =
      draw-Bounded _ _ (client_at (entering h m) g st sent d) refl
  server_goes-Bounded (lobby_testing h l m) g in_lobby sent d = omega arith
  server_goes-Bounded (lobby_testing h l (game_started players)) g in_game sent d = omega arith
  server_goes-Bounded (lobby_testing h l (hello h')) g in_game sent d = tt
  server_goes-Bounded (lobby_testing h l (accepted_player a)) g in_game sent d = tt
  server_goes-Bounded (lobby_testing h l (ServerMessage.turn t)) g in_game sent d = tt
  server_goes-Bounded (lobby_testing h l (game_ended scores)) g in_game sent d = tt
  server_goes-Bounded (lobby_reading h l) g st sent d = omega arith
  server_goes-Bounded (starting h l m) g st sent d = omega arith
  server_goes-Bounded (lobby_showing h l m) g st sent d =
      draw-Bounded _ _ (client_at (lobby_showing h l m) g st sent d) refl
  server_goes-Bounded (game_testing h k m) g in_lobby sent d = omega arith
  server_goes-Bounded (game_testing h k m) g in_game sent d = omega arith
  server_goes-Bounded (game_reading h k) g st sent d = omega arith
  server_goes-Bounded (ending h k m) g st sent d = omega arith
  server_goes-Bounded (unsending h k m) g st sent d = omega (arith, free_le g)
  server_goes-Bounded (game_showing h k m) g st sent d =
      draw-Bounded _ _ (client_at (game_showing h k m) g st sent d) refl

  move-Bounded : (m : Move) (c : Client) → Post (Bounded (budget c)) (move m c)
  move-Bounded (gui_reads m) c = gui_reads-Bounded m c
  move-Bounded (gui_goes up) c =
      gui_goes-Bounded up c.gui c.flags.state c.flags.join_sent c.server c.device
  move-Bounded (server_reads m) c = server_reads-Bounded m c.server c.gui c.flags c.device
  move-Bounded server_goes c =
      server_goes-Bounded c.server c.gui c.flags.state c.flags.join_sent c.device

  moves-Bounded : (ms : List Move) (c : Client) → Bounded (budget c) (moves ms c)
  unfolding moves
  moves-Bounded [] c = omega arith
  moves-Bounded (m ∷ ms) c = elim (Option-cases (move m c)) [
    | inl e ↦ rw (moves, e) (omega arith)
    | inr (r, e) ↦
        let first = Post-some (Bounded (budget c)) (move m c) (move-Bounded m c) e in
        let later = moves-Bounded ms r.0 in rw (moves, e) (omega (arith, first, later))
  ]

  -- However the steps of the two threads of a client follow each other from their start, single reads
  -- and writes of the two atomic variables included, whatever the GUI and the server send, and
  -- whichever sendings fail, the client sends at most one request to join more than it has read ends
  -- of games.
  pub moves-joins :
      (ms : List Move) (d : screen.Device) → (moves ms (initial d)).1 ≤ (moves ms (initial d)).2 + 1
  moves-joins ms d = omega (arith, moves-Bounded ms (initial d))
