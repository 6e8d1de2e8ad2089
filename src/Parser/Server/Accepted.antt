-- ===== src/Parser/Server/Accepted.antt =====
-- Command lines that the server takes, and the options that it reads from them.
use computer_networks_projec.Base.{
  ℕ, ◌+◌, ◌*◌, ◌%◌, ◌≡◌, refl, ap, List, [], ◌∷◌, true, ◌==◌, ==_refl, length, All,
}
use computer_networks_projec.Config.{Text, u8_size, u16_size, u32_size}
use computer_networks_projec.Game.Server.{Options}
use computer_networks_projec.Parser.{parsed, ◌and_then◌, Strtoll, u64_size}
use computer_networks_projec.Parser.Flags
use computer_networks_projec.Parser.Numbers.{IsStrtoll}
use computer_networks_projec.Parser.Options.{
  Given, number, IsNumber, last_text, last_number, still, counter_after, counter_after_lem, IsGiven,
  last, last_any, parse_numerical-IsNumber, unasked,
}
use computer_networks_projec.Parser.Server.{
  required_server, required_specified_server, ServerSettings, number_option, server_option,
  server_options, parse_server,
}

-- An option of the server with an argument that it takes.
pub data IsSetting : ℕ → Text → Type 0 where
  set_bomb_timer : {s : Text} → IsNumber u16_size s → IsSetting Flags.bomb_timer s
  set_players_count : {s : Text} → IsNumber u8_size s → IsSetting Flags.player_count s
  set_turn_duration : {s : Text} → IsNumber u64_size s → IsSetting Flags.turn_duration s
  set_explosion_radius : {s : Text} → IsNumber u16_size s → IsSetting Flags.explosion_radius s
  set_initial_blocks : {s : Text} → IsNumber u16_size s → IsSetting Flags.initial_blocks s
  set_game_length : {s : Text} → IsNumber u16_size s → IsSetting Flags.game_length s
  set_server_name : {s : Text} → IsSetting Flags.server_name s
  set_port : {s : Text} → IsNumber u16_size s → IsSetting Flags.port s
  set_seed : {s : Text} → IsNumber u32_size s → IsSetting Flags.seed s
  set_size_x : {s : Text} → IsNumber u16_size s → IsSetting Flags.size_x s
  set_size_y : {s : Text} → IsNumber u16_size s → IsSetting Flags.size_y s

-- The local variables after the options, from those before.
abbrev settings_after : Given → ServerSettings → ServerSettings
settings_after os s = record {
  options = record {
    bomb_timer = last_number Flags.bomb_timer os s.options.bomb_timer;
    players_count = last_number Flags.player_count os s.options.players_count;
    turn_duration = last_number Flags.turn_duration os s.options.turn_duration;
    explosion_radius = last_number Flags.explosion_radius os s.options.explosion_radius;
    initial_blocks = last_number Flags.initial_blocks os s.options.initial_blocks;
    game_length = last_number Flags.game_length os s.options.game_length;
    server_name = last_text Flags.server_name os s.options.server_name;
    port = last_number Flags.port os s.options.port;
    seed = last_number Flags.seed os s.options.seed;
    size_x = last_number Flags.size_x os s.options.size_x;
    size_y = last_number Flags.size_y os s.options.size_y;
  };
  required = record {
    bomb_timer = still Flags.bomb_timer os s.required.bomb_timer;
    players_count = still Flags.player_count os s.required.players_count;
    turn_duration = still Flags.turn_duration os s.required.turn_duration;
    explosion_radius = still Flags.explosion_radius os s.required.explosion_radius;
    initial_blocks = still Flags.initial_blocks os s.required.initial_blocks;
    game_length = still Flags.game_length os s.required.game_length;
    server_name = still Flags.server_name os s.required.server_name;
    port = still Flags.port os s.required.port;
    seed = still Flags.seed os s.required.seed;
    size_x = still Flags.size_x os s.required.size_x;
    size_y = still Flags.size_y os s.required.size_y;
  };
  counter = counter_after os s.counter;
}

set_number :
    (strtoll : Strtoll) (size : ℕ) (v : Text) (set : ℕ → ServerSettings)
    → IsStrtoll strtoll
    → IsNumber size v
    → number_option strtoll size v set ≡ parsed (set (number v))
unfolding number_option ◌and_then◌
set_number strtoll size v set std h =
    rw (number_option, parse_numerical-IsNumber strtoll size v std h) refl

server_option_lem :
    (strtoll : Strtoll) (f : ℕ) (v : Text) (s : ServerSettings)
    → IsStrtoll strtoll
    → IsSetting f v
    → server_option strtoll f v s ≡ parsed (settings_after ((f, v) ∷ []) s)
unfolding server_option last still counter_after
server_option_lem strtoll f v s std (set_bomb_timer h) = set_number strtoll u16_size v _ std h
server_option_lem strtoll f v s std (set_players_count h) = set_number strtoll u8_size v _ std h
server_option_lem strtoll f v s std (set_turn_duration h) = set_number strtoll u64_size v _ std h
server_option_lem strtoll f v s std (set_explosion_radius h) = set_number strtoll u16_size v _ std h
server_option_lem strtoll f v s std (set_initial_blocks h) = set_number strtoll u16_size v _ std h
server_option_lem strtoll f v s std (set_game_length h) = set_number strtoll u16_size v _ std h
server_option_lem strtoll f v s std set_server_name = refl
server_option_lem strtoll f v s std (set_port h) = set_number strtoll u16_size v _ std h
server_option_lem strtoll f v s std (set_seed h) = set_number strtoll u32_size v _ std h
server_option_lem strtoll f v s std (set_size_x h) = set_number strtoll u16_size v _ std h
server_option_lem strtoll f v s std (set_size_y h) = set_number strtoll u16_size v _ std h

server_options_lem :
    (strtoll : Strtoll) (os : Given) (s : ServerSettings)
    → IsStrtoll strtoll
    → All (λ o. IsSetting o.0 o.1) os
    → server_options strtoll os s ≡ parsed (settings_after os s)
unfolding server_options ◌and_then◌ last still counter_after
server_options_lem strtoll [] s std h = refl
server_options_lem strtoll (o ∷ os) s std h =
    rw (server_options, server_option_lem strtoll o.0 o.1 s std h.0)
      (server_options_lem strtoll os (settings_after (o ∷ []) s) std h.1)

-- Every option that is required.
abbrev pub AllGiven : Given → Type 0
AllGiven os =
    IsGiven Flags.bomb_timer os
    × IsGiven Flags.player_count os
    × IsGiven Flags.turn_duration os
    × IsGiven Flags.explosion_radius os
    × IsGiven Flags.initial_blocks os
    × IsGiven Flags.game_length os
    × IsGiven Flags.server_name os
    × IsGiven Flags.port os
    × IsGiven Flags.size_x os
    × IsGiven Flags.size_y os

-- The options that are given, with the seed of the clock unless there is another.
abbrev pub given_options : Given → ℕ → Options
given_options os now = record {
  bomb_timer = last_number Flags.bomb_timer os 0;
  players_count = last_number Flags.player_count os 0;
  turn_duration = last_number Flags.turn_duration os 0;
  explosion_radius = last_number Flags.explosion_radius os 0;
  initial_blocks = last_number Flags.initial_blocks os 0;
  game_length = last_number Flags.game_length os 0;
  server_name = last_text Flags.server_name os [];
  port = last_number Flags.port os 0;
  seed = last_number Flags.seed os (now % u32_size);
  size_x = last_number Flags.size_x os 0;
  size_y = last_number Flags.size_y os 0;
}

module _ (strtoll : Strtoll) (getopt : Text → List Text → Given) (unset : Options) (now : ℕ)
    (argv : List Text) where
  abbrev os : Given
  os = getopt Flags.server_optstring argv

  abbrev initial : ServerSettings
  initial = record {
    options = record unset { seed = now % u32_size };
    required = required_server;
    counter = 1;
  }

  complete : AllGiven os → required_specified_server (settings_after os initial).required ≡ true
  unfolding required_specified_server
  complete (g0, g1, g2, g3, g4, g5, g6, g7, g8, g9) =
      rw (required_specified_server, g0, g1, g2, g3, g4, g5, g6, g7, g8, g9, unasked Flags.seed os)
        refl

  same_options : AllGiven os → (settings_after os initial).options ≡ given_options os now
  same_options (g0, g1, g2, g3, g4, g5, g6, g7, g8, g9) =
      rw
        (
          last_any number Flags.bomb_timer os unset.bomb_timer 0 g0,
          last_any number Flags.player_count os unset.players_count 0 g1,
          last_any number Flags.turn_duration os unset.turn_duration 0 g2,
          last_any number Flags.explosion_radius os unset.explosion_radius 0 g3,
          last_any number Flags.initial_blocks os unset.initial_blocks 0 g4,
          last_any number Flags.game_length os unset.game_length 0 g5,
          last_any (λ s. s) Flags.server_name os unset.server_name [] g6,
          last_any number Flags.port os unset.port 0 g7,
          last_any number Flags.size_x os unset.size_x 0 g8,
          last_any number Flags.size_y os unset.size_y 0 g9,
        )
        refl

  -- Take any command line. If `getopt` finds in it options of the server only, each with a decimal
  -- argument of its type and below 2^63, all required ones among them, and two arguments of the
  -- command line for each, then the server is started with these options, whatever their order; of
  -- an option that is given twice the last argument counts, and the seed may be left out.
  pub parse_server-IsSetting :
      IsStrtoll strtoll
      → All (λ o. IsSetting o.0 o.1) os
      → AllGiven os
      → length argv ≡ 1 + 2 * length os
      → parse_server strtoll getopt unset now argv ≡ parsed (given_options os now)
  unfolding parse_server ◌and_then◌
  parse_server-IsSetting std settings given counted =
      let equal : (length argv == counter_after os 1) ≡ true =
        rw (counted, counter_after_lem os 1) (==_refl (1 + 2 * length os)) in
      rw (parse_server, server_options_lem strtoll os initial std settings, equal, complete given)
        (ap (λ (x : Options). parsed x) (same_options given))
