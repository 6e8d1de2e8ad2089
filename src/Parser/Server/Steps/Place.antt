-- ===== src/Parser/Server/Steps/Place.antt =====
-- The options of `parse_server` on the server and the board.
use computer_networks_projec.Base.{ℕ, ◌+◌, ◌<◌, refl, false}
use computer_networks_projec.Config.{Text, u16_size, u32_size}
use computer_networks_projec.Parser.Flags
use computer_networks_projec.Parser.Options.{still}
use computer_networks_projec.Parser.Server.{ServerSettings}
use computer_networks_projec.Parser.Server.Steps.{StepOf, is_setting}

pub sets_server_name :
    (s : ServerSettings) (v : Text)
    → StepOf s Flags.server_name (record s {
      options = record s.options { server_name = v };
      required = record s.required { server_name = false };
      counter = s.counter + 2;
    })
unfolding is_setting still
sets_server_name s v = record {
  known = refl;
  required = refl;
  counted = refl;
  in_range = λ r. record {
    bomb_timer = r.bomb_timer;
    players_count = r.players_count;
    turn_duration = r.turn_duration;
    explosion_radius = r.explosion_radius;
    initial_blocks = r.initial_blocks;
    game_length = r.game_length;
    port = r.port;
    seed = r.seed;
    size_x = r.size_x;
    size_y = r.size_y;
  };
}

pub sets_port :
    (s : ServerSettings) (n : ℕ)
    → n < u16_size
    → StepOf s Flags.port (record s {
      options = record s.options { port = n };
      required = record s.required { port = false };
      counter = s.counter + 2;
    })
unfolding is_setting still
sets_port s n lt = record {
  known = refl;
  required = refl;
  counted = refl;
  in_range = λ r. record {
    bomb_timer = r.bomb_timer;
    players_count = r.players_count;
    turn_duration = r.turn_duration;
    explosion_radius = r.explosion_radius;
    initial_blocks = r.initial_blocks;
    game_length = r.game_length;
    port = λ e. lt;
    seed = r.seed;
    size_x = r.size_x;
    size_y = r.size_y;
  };
}

pub sets_seed :
    (s : ServerSettings) (n : ℕ)
    → n < u32_size
    → StepOf s Flags.seed (record s {
      options = record s.options { seed = n };
      required = record s.required { seed = false };
      counter = s.counter + 2;
    })
unfolding is_setting still
sets_seed s n lt = record {
  known = refl;
  required = refl;
  counted = refl;
  in_range = λ r. record {
    bomb_timer = r.bomb_timer;
    players_count = r.players_count;
    turn_duration = r.turn_duration;
    explosion_radius = r.explosion_radius;
    initial_blocks = r.initial_blocks;
    game_length = r.game_length;
    port = r.port;
    seed = λ e. lt;
    size_x = r.size_x;
    size_y = r.size_y;
  };
}

pub sets_size_x :
    (s : ServerSettings) (n : ℕ)
    → n < u16_size
    → StepOf s Flags.size_x (record s {
      options = record s.options { size_x = n };
      required = record s.required { size_x = false };
      counter = s.counter + 2;
    })
unfolding is_setting still
sets_size_x s n lt = record {
  known = refl;
  required = refl;
  counted = refl;
  in_range = λ r. record {
    bomb_timer = r.bomb_timer;
    players_count = r.players_count;
    turn_duration = r.turn_duration;
    explosion_radius = r.explosion_radius;
    initial_blocks = r.initial_blocks;
    game_length = r.game_length;
    port = r.port;
    seed = r.seed;
    size_x = λ e. lt;
    size_y = r.size_y;
  };
}

pub sets_size_y :
    (s : ServerSettings) (n : ℕ)
    → n < u16_size
    → StepOf s Flags.size_y (record s {
      options = record s.options { size_y = n };
      required = record s.required { size_y = false };
      counter = s.counter + 2;
    })
unfolding is_setting still
sets_size_y s n lt = record {
  known = refl;
  required = refl;
  counted = refl;
  in_range = λ r. record {
    bomb_timer = r.bomb_timer;
    players_count = r.players_count;
    turn_duration = r.turn_duration;
    explosion_radius = r.explosion_radius;
    initial_blocks = r.initial_blocks;
    game_length = r.game_length;
    port = r.port;
    seed = r.seed;
    size_x = r.size_x;
    size_y = λ e. lt;
  };
}
