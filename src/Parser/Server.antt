-- ===== src/Parser/Server.antt =====
-- `parse_server` of src/config/parser.cpp.
pub mod Accepted
pub mod Refused
pub mod Steps
use computer_networks_projec.Base.{
  ℕ, ◌+◌, ◌%◌, List, [], ◌∷◌, Bool, true, false, not, ◌&&◌, ◌||◌, ◌==◌, if◌then◌else◌, length,
}
use computer_networks_projec.Config.{Text, u8_size, u16_size, u32_size}
use computer_networks_projec.Game.Server.{Options}
use computer_networks_projec.Parser.{
  Outcome, parsed, exit_failure, exit_success, ◌and_then◌, Strtoll, parse_numerical, u64_size,
}
use computer_networks_projec.Parser.Flags

-- What is still required.
pub record RequiredServer : Type 0 where
  pub bomb_timer : Bool
  pub players_count : Bool
  pub turn_duration : Bool
  pub explosion_radius : Bool
  pub initial_blocks : Bool
  pub game_length : Bool
  pub server_name : Bool
  pub port : Bool
  pub seed : Bool
  pub size_x : Bool
  pub size_y : Bool

abbrev pub required_server : RequiredServer
required_server = record {
  bomb_timer = true;
  players_count = true;
  turn_duration = true;
  explosion_radius = true;
  initial_blocks = true;
  game_length = true;
  server_name = true;
  port = true;
  seed = false;
  size_x = true;
  size_y = true;
}

unfoldable pub required_specified_server : RequiredServer → Bool
required_specified_server r =
    not r.bomb_timer
    && not r.players_count
    && not r.turn_duration
    && not r.explosion_radius
    && not r.initial_blocks
    && not r.game_length
    && not r.server_name
    && not r.port
    && not r.seed
    && not r.size_x
    && not r.size_y

-- The local variables of `parse_server`.
pub record ServerSettings : Type 0 where
  pub options : Options
  pub required : RequiredServer
  pub counter : ℕ

-- A number for an option.
unfoldable pub number_option : Strtoll → ℕ → Text → (ℕ → ServerSettings) → Outcome ServerSettings
unfolding ◌and_then◌
number_option strtoll size optarg set =
    parse_numerical strtoll size optarg and_then (λ n. parsed (set n))

-- One round of the loop, for what `getopt` returned and `optarg`.
unfoldable pub server_option : Strtoll → ℕ → Text → ServerSettings → Outcome ServerSettings
unfolding number_option
server_option strtoll opt optarg s =
    let counted = record s { counter = s.counter + 2 } in
    if opt == Flags.bomb_timer
    then number_option strtoll u16_size optarg (λ n. record counted {
      options = record s.options { bomb_timer = n };
      required = record s.required { bomb_timer = false };
    })
    else if opt == Flags.player_count
    then number_option strtoll u8_size optarg (λ n. record counted {
      options = record s.options { players_count = n };
      required = record s.required { players_count = false };
    })
    else if opt == Flags.turn_duration
    then number_option strtoll u64_size optarg (λ n. record counted {
      options = record s.options { turn_duration = n };
      required = record s.required { turn_duration = false };
    })
    else if opt == Flags.explosion_radius
    then number_option strtoll u16_size optarg (λ n. record counted {
      options = record s.options { explosion_radius = n };
      required = record s.required { explosion_radius = false };
    })
    else if opt == Flags.initial_blocks
    then number_option strtoll u16_size optarg (λ n. record counted {
      options = record s.options { initial_blocks = n };
      required = record s.required { initial_blocks = false };
    })
    else if opt == Flags.game_length
    then number_option strtoll u16_size optarg (λ n. record counted {
      options = record s.options { game_length = n };
      required = record s.required { game_length = false };
    })
    else if opt == Flags.server_name
    then parsed (record counted {
      options = record s.options { server_name = optarg };
      required = record s.required { server_name = false };
    })
    else if opt == Flags.port
    then number_option strtoll u16_size optarg (λ n. record counted {
      options = record s.options { port = n };
      required = record s.required { port = false };
    })
    else if opt == Flags.seed
    then number_option strtoll u32_size optarg (λ n. record counted {
      options = record s.options { seed = n };
      required = record s.required { seed = false };
    })
    else if opt == Flags.size_x
    then number_option strtoll u16_size optarg (λ n. record counted {
      options = record s.options { size_x = n };
      required = record s.required { size_x = false };
    })
    else if opt == Flags.size_y
    then number_option strtoll u16_size optarg (λ n. record counted {
      options = record s.options { size_y = n };
      required = record s.required { size_y = false };
    })
    else if opt == Flags.help
    then exit_success
    else exit_failure

unfoldable pub server_options : Strtoll → List (ℕ × Text) → ServerSettings → Outcome ServerSettings
unfolding server_option ◌and_then◌
server_options strtoll [] s = parsed s
server_options strtoll (o ∷ os) s =
    server_option strtoll o.0 o.1 s and_then (λ s'. server_options strtoll os s')

-- The values in `unset` are those of the members that the code leaves uninitialised, `now` is the
-- time of the system clock.
unfoldable pub parse_server :
    Strtoll → (Text → List Text → List (ℕ × Text)) → Options → ℕ → List Text → Outcome Options
unfolding server_options ◌and_then◌ required_specified_server
parse_server strtoll getopt unset now argv =
    server_options strtoll (getopt Flags.server_optstring argv) (record {
      options = record unset { seed = now % u32_size };
      required = required_server;
      counter = 1;
    })
    and_then (λ s.
        if not (length argv == s.counter) || not (required_specified_server s.required)
        then exit_failure
        else parsed s.options)
