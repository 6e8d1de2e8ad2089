-- ===== src/Parser/Server/Refused.antt =====
-- Command lines that the server refuses: what holds of every one that it takes.
use computer_networks_projec.Base.{
  ℕ, ◌+◌, ◌*◌, ◌%◌, ◌≡◌, refl, sym, ◌∙◌, ap, List, [], ◌∷◌, true, false, not, ◌&&◌, ◌==◌, ==_iff,
  length, All, arith,
}
use computer_networks_projec.Config.{Text, u32_size}
use computer_networks_projec.Game.Server.{Options}
use computer_networks_projec.Parser.{Outcome, parsed, exit_failure, exit_success, Strtoll}
use computer_networks_projec.Parser.Flags
use computer_networks_projec.Parser.Ends.{
  Ends, Ends-parsed, Ends-and_then, Ends-unless, and-not, not-true,
}
use computer_networks_projec.Parser.Options.{Given, still, counter_after, counter_after_lem}
use computer_networks_projec.Parser.Server.{
  RequiredServer, required_server, required_specified_server, ServerSettings, server_option,
  server_options, parse_server,
}
use computer_networks_projec.Parser.Server.Steps.{
  IsInRange, InRange, StepOf, is_setting, required_after,
}
use computer_networks_projec.Parser.Server.Steps.Switch.{server_option-StepOf}
use computer_networks_projec.Parser.Server.Accepted.{AllGiven}

record RunOf (s : ServerSettings) (os : Given) (s' : ServerSettings) : Type 0 where
  known : All (λ o. is_setting o.0 ≡ true) os
  required : s'.required ≡ required_after os s.required
  counted : s'.counter ≡ counter_after os s.counter
  in_range : InRange s → InRange s'

server_options-RunOf :
    (strtoll : Strtoll) (os : Given) (s : ServerSettings)
    → Ends (RunOf s os) (server_options strtoll os s)
unfolding server_options still counter_after
server_options-RunOf strtoll [] s = record {
  known = tt;
  required = refl;
  counted = refl;
  in_range = λ r. r;
}
server_options-RunOf strtoll (o ∷ os) s =
    Ends-and_then (StepOf s o.0) (RunOf s (o ∷ os)) (server_option strtoll o.0 o.1 s)
      (λ s'. server_options strtoll os s') (server_option-StepOf strtoll o.0 o.1 s)
      (λ s' step.
        weaken s' step (server_options strtoll os s') (server_options-RunOf strtoll os s'))
  where
    weaken :
        (s' : ServerSettings)
        → StepOf s o.0 s'
        → (r : Outcome ServerSettings) → Ends (RunOf s' os) r
        → Ends (RunOf s (o ∷ os)) r
    weaken s' step (parsed s'') run = record {
      known = (step.known, run.known);
      required = run.required ∙ ap (required_after os) step.required;
      counted = run.counted ∙ ap (counter_after os) step.counted;
      in_range = λ r. run.in_range (step.in_range r);
    }
    weaken s' step exit_failure run = tt
    weaken s' step exit_success run = tt

-- If nothing required is left, everything is given.
complete :
    (r : RequiredServer)
    → required_specified_server r ≡ true
    → (r.bomb_timer ≡ false)
      × (r.players_count ≡ false)
      × (r.turn_duration ≡ false)
      × (r.explosion_radius ≡ false)
      × (r.initial_blocks ≡ false)
      × (r.game_length ≡ false)
      × (r.server_name ≡ false)
      × (r.port ≡ false)
      × (r.seed ≡ false)
      × (r.size_x ≡ false)
      × (r.size_y ≡ false)
unfolding required_specified_server
complete r e =
    let (e10, h10) =
      and-not
        (not r.bomb_timer
          && not r.players_count
          && not r.turn_duration
          && not r.explosion_radius
          && not r.initial_blocks
          && not r.game_length
          && not r.server_name
          && not r.port
          && not r.seed
          && not r.size_x)
        r.size_y e in
    let (e9, h9) =
      and-not
        (not r.bomb_timer
          && not r.players_count
          && not r.turn_duration
          && not r.explosion_radius
          && not r.initial_blocks
          && not r.game_length
          && not r.server_name
          && not r.port
          && not r.seed)
        r.size_x e10 in
    let (e8, h8) =
      and-not
        (not r.bomb_timer
          && not r.players_count
          && not r.turn_duration
          && not r.explosion_radius
          && not r.initial_blocks
          && not r.game_length
          && not r.server_name
          && not r.port)
        r.seed e9 in
    let (e7, h7) =
      and-not
        (not r.bomb_timer
          && not r.players_count
          && not r.turn_duration
          && not r.explosion_radius
          && not r.initial_blocks
          && not r.game_length
          && not r.server_name)
        r.port e8 in
    let (e6, h6) =
      and-not
        (not r.bomb_timer
          && not r.players_count
          && not r.turn_duration
          && not r.explosion_radius
          && not r.initial_blocks
          && not r.game_length)
        r.server_name e7 in
    let (e5, h5) =
      and-not
        (not r.bomb_timer
          && not r.players_count
          && not r.turn_duration
          && not r.explosion_radius
          && not r.initial_blocks)
        r.game_length e6 in
    let (e4, h4) =
      and-not
        (not r.bomb_timer && not r.players_count && not r.turn_duration && not r.explosion_radius)
        r.initial_blocks e5 in
    let (e3, h3) =
      and-not (not r.bomb_timer && not r.players_count && not r.turn_duration) r.explosion_radius
        e4 in
    let (e2, h2) = and-not (not r.bomb_timer && not r.players_count) r.turn_duration e3 in
    let (e1, h1) = and-not (not r.bomb_timer) r.players_count e2 in
    (not-true r.bomb_timer e1, h1, h2, h3, h4, h5, h6, h7, h8, h9, h10)

module _ (strtoll : Strtoll) (getopt : Text → List Text → Given) (unset : Options) (now : ℕ)
    (argv : List Text) where
  abbrev os : Given
  os = getopt Flags.server_optstring argv

  abbrev initial : ServerSettings
  initial = record {
    options = record unset { seed = now % u32_size };
    required = required_server;
    counter = 1;
  }

  initial-InRange : InRange initial
  initial-InRange = record {
    bomb_timer = λ e. absurd (cc);
    players_count = λ e. absurd (cc);
    turn_duration = λ e. absurd (cc);
    explosion_radius = λ e. absurd (cc);
    initial_blocks = λ e. absurd (cc);
    game_length = λ e. absurd (cc);
    port = λ e. absurd (cc);
    seed = λ e. omega arith;
    size_x = λ e. absurd (cc);
    size_y = λ e. absurd (cc);
  }

  -- What the parser takes.
  abbrev Taken : Options → Type 0
  Taken op =
      IsInRange op
      × All (λ o. is_setting o.0 ≡ true) os
      × AllGiven os
      × (length argv ≡ 1 + 2 * length os)

  parse_server-Taken : Ends Taken (parse_server strtoll getopt unset now argv)
  unfolding parse_server
  parse_server-Taken =
      Ends-and_then (RunOf initial os) Taken (server_options strtoll os initial) _
        (server_options-RunOf strtoll os initial)
        (λ s run.
          Ends-unless Taken (length argv == s.counter) (required_specified_server s.required)
            s.options
            (λ equal nothing_left.
              let (h0, h1, h2, h3, h4, h5, h6, h7, h8, h9, h10) =
                complete s.required nothing_left in
              let r = run.in_range initial-InRange in
              let left = run.required in
              (
                record {
                  bomb_timer = r.bomb_timer h0;
                  players_count = r.players_count h1;
                  turn_duration = r.turn_duration h2;
                  explosion_radius = r.explosion_radius h3;
                  initial_blocks = r.initial_blocks h4;
                  game_length = r.game_length h5;
                  port = r.port h7;
                  seed = r.seed h8;
                  size_x = r.size_x h9;
                  size_y = r.size_y h10;
                },
                run.known,
                (
                  sym (ap (λ (q : RequiredServer). q.bomb_timer) left) ∙ h0,
                  sym (ap (λ (q : RequiredServer). q.players_count) left) ∙ h1,
                  sym (ap (λ (q : RequiredServer). q.turn_duration) left) ∙ h2,
                  sym (ap (λ (q : RequiredServer). q.explosion_radius) left) ∙ h3,
                  sym (ap (λ (q : RequiredServer). q.initial_blocks) left) ∙ h4,
                  sym (ap (λ (q : RequiredServer). q.game_length) left) ∙ h5,
                  sym (ap (λ (q : RequiredServer). q.server_name) left) ∙ h6,
                  sym (ap (λ (q : RequiredServer). q.port) left) ∙ h7,
                  sym (ap (λ (q : RequiredServer). q.size_x) left) ∙ h9,
                  sym (ap (λ (q : RequiredServer). q.size_y) left) ∙ h10,
                ),
                (==_iff (length argv) s.counter).0 equal ∙ run.counted ∙ counter_after_lem os 1,
              )))

  -- Whatever `strtoll` and `getopt` return, and whatever the members hold that are not initialised:
  -- if the server is started with options, all their numbers fit into their types, `getopt` has
  -- found options of the server only, all required ones among them, and there were two arguments
  -- on the command line for each.
  pub parse_server-IsInRange :
      (op : Options)
      → parse_server strtoll getopt unset now argv ≡ parsed op
      → IsInRange op
        × All (λ o. is_setting o.0 ≡ true) os
        × AllGiven os
        × (length argv ≡ 1 + 2 * length os)
  parse_server-IsInRange op e =
      Ends-parsed Taken (parse_server strtoll getopt unset now argv) op parse_server-Taken e
