-- ===== src/Parser/Server/Steps.antt =====
-- What one option does to the local variables of `parse_server`, if it is taken.
pub mod Rules
pub mod Place
pub mod Switch
use computer_networks_projec.Base.{
  ℕ, ◌+◌, ◌<◌, ◌≡◌, refl, [], ◌∷◌, Bool, true, false, ◌||◌, ◌==◌, arith,
}
use computer_networks_projec.Config.{Text, u8_size, u16_size, u32_size}
use computer_networks_projec.Game.Server.{Options}
use computer_networks_projec.Parser.{parsed, Strtoll, parse_numerical, u64_size}
use computer_networks_projec.Parser.Flags
use computer_networks_projec.Parser.Ends.{Ends, Ends-and_then, Ends-case, Ends-parse_numerical}
use computer_networks_projec.Parser.Options.{Given, still}
use computer_networks_projec.Parser.Server.{
  RequiredServer, ServerSettings, number_option, server_option,
}

-- Every number fits into its type.
pub record IsInRange (op : Options) : Type 0 where
  pub bomb_timer : op.bomb_timer < u16_size
  pub players_count : op.players_count < u8_size
  pub turn_duration : op.turn_duration < u64_size
  pub explosion_radius : op.explosion_radius < u16_size
  pub initial_blocks : op.initial_blocks < u16_size
  pub game_length : op.game_length < u16_size
  pub port : op.port < u16_size
  pub seed : op.seed < u32_size
  pub size_x : op.size_x < u16_size
  pub size_y : op.size_y < u16_size

-- The option is one of the server's, and not the one for help.
unfoldable pub is_setting : ℕ → Bool
is_setting opt =
    opt == Flags.bomb_timer
    || opt == Flags.player_count
    || opt == Flags.turn_duration
    || opt == Flags.explosion_radius
    || opt == Flags.initial_blocks
    || opt == Flags.game_length
    || opt == Flags.server_name
    || opt == Flags.port
    || opt == Flags.seed
    || opt == Flags.size_x
    || opt == Flags.size_y

-- What one option leaves required.
abbrev pub required_after : Given → RequiredServer → RequiredServer
required_after os r = record {
  bomb_timer = still Flags.bomb_timer os r.bomb_timer;
  players_count = still Flags.player_count os r.players_count;
  turn_duration = still Flags.turn_duration os r.turn_duration;
  explosion_radius = still Flags.explosion_radius os r.explosion_radius;
  initial_blocks = still Flags.initial_blocks os r.initial_blocks;
  game_length = still Flags.game_length os r.game_length;
  server_name = still Flags.server_name os r.server_name;
  port = still Flags.port os r.port;
  seed = still Flags.seed os r.seed;
  size_x = still Flags.size_x os r.size_x;
  size_y = still Flags.size_y os r.size_y;
}

-- The numbers may be left unset only where the option is still required.
pub record InRange (s : ServerSettings) : Type 0 where
  pub bomb_timer : s.required.bomb_timer ≡ false → s.options.bomb_timer < u16_size
  pub players_count : s.required.players_count ≡ false → s.options.players_count < u8_size
  pub turn_duration : s.required.turn_duration ≡ false → s.options.turn_duration < u64_size
  pub explosion_radius : s.required.explosion_radius ≡ false → s.options.explosion_radius < u16_size
  pub initial_blocks : s.required.initial_blocks ≡ false → s.options.initial_blocks < u16_size
  pub game_length : s.required.game_length ≡ false → s.options.game_length < u16_size
  pub port : s.required.port ≡ false → s.options.port < u16_size
  pub seed : s.required.seed ≡ false → s.options.seed < u32_size
  pub size_x : s.required.size_x ≡ false → s.options.size_x < u16_size
  pub size_y : s.required.size_y ≡ false → s.options.size_y < u16_size

pub record StepOf (s : ServerSettings) (opt : ℕ) (s' : ServerSettings) : Type 0 where
  pub known : is_setting opt ≡ true
  pub required : s'.required ≡ required_after ((opt, []) ∷ []) s.required
  pub counted : s'.counter ≡ s.counter + 2
  pub in_range : InRange s → InRange s'
