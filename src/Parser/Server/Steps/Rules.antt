-- ===== src/Parser/Server/Steps/Rules.antt =====
-- The options of `parse_server` on the rules of the game.
use computer_networks_projec.Base.{ℕ, ◌+◌, ◌<◌, refl, false}
use computer_networks_projec.Config.{u8_size, u16_size}
use computer_networks_projec.Parser.{u64_size}
use computer_networks_projec.Parser.Flags
use computer_networks_projec.Parser.Options.{still}
use computer_networks_projec.Parser.Server.{ServerSettings}
use computer_networks_projec.Parser.Server.Steps.{StepOf, is_setting}

pub sets_bomb_timer :
    (s : ServerSettings) (n : ℕ)
    → n < u16_size
    → StepOf s Flags.bomb_timer (record s {
      options = record s.options { bomb_timer = n };
      required = record s.required { bomb_timer = false };
      counter = s.counter + 2;
    })
unfolding is_setting still
sets_bomb_timer s n lt = record {
  known = refl;
  required = refl;
  counted = refl;
  in_range = λ r. record {
    bomb_timer = λ e. lt;
    players_count = r.players_count;
    turn_duration = r.turn_duration;
    explosion_radius = r.explosion_radius;
    initial_blocks = r.initial_blocks;
    game_length = r.game_length;
    port = r.port;
    seed = r.seed;
    size_x = r.size_x;
    size_y = r.size_y;
  };
}

pub sets_players_count :
    (s : ServerSettings) (n : ℕ)
    → n < u8_size
    → StepOf s Flags.player_count (record s {
      options = record s.options { players_count = n };
      required = record s.required { players_count = false };
      counter = s.counter + 2;
    })
unfolding is_setting still
sets_players_count s n lt = record {
  known = refl;
  required = refl;
  counted = refl;
  in_range = λ r. record {
    bomb_timer = r.bomb_timer;
    players_count = λ e. lt;
    turn_duration = r.turn_duration;
    explosion_radius = r.explosion_radius;
    initial_blocks = r.initial_blocks;
    game_length = r.game_length;
    port = r.port;
    seed = r.seed;
    size_x = r.size_x;
    size_y = r.size_y;
  };
}

pub sets_turn_duration :
    (s : ServerSettings) (n : ℕ)
    → n < u64_size
    → StepOf s Flags.turn_duration (record s {
      options = record s.options { turn_duration = n };
      required = record s.required { turn_duration = false };
      counter = s.counter + 2;
    })
unfolding is_setting still
sets_turn_duration s n lt = record {
  known = refl;
  required = refl;
  counted = refl;
  in_range = λ r. record {
    bomb_timer = r.bomb_timer;
    players_count = r.players_count;
    turn_duration = λ e. lt;
    explosion_radius = r.explosion_radius;
    initial_blocks = r.initial_blocks;
    game_length = r.game_length;
    port = r.port;
    seed = r.seed;
    size_x = r.size_x;
    size_y = r.size_y;
  };
}

pub sets_explosion_radius :
    (s : ServerSettings) (n : ℕ)
    → n < u16_size
    → StepOf s Flags.explosion_radius (record s {
      options = record s.options { explosion_radius = n };
      required = record s.required { explosion_radius = false };
      counter = s.counter + 2;
    })
unfolding is_setting still
sets_explosion_radius s n lt = record {
  known = refl;
  required = refl;
  counted = refl;
  in_range = λ r. record {
    bomb_timer = r.bomb_timer;
    players_count = r.players_count;
    turn_duration = r.turn_duration;
    explosion_radius = λ e. lt;
    initial_blocks = r.initial_blocks;
    game_length = r.game_length;
    port = r.port;
    seed = r.seed;
    size_x = r.size_x;
    size_y = r.size_y;
  };
}

pub sets_initial_blocks :
    (s : ServerSettings) (n : ℕ)
    → n < u16_size
    → StepOf s Flags.initial_blocks (record s {
      options = record s.options { initial_blocks = n };
      required = record s.required { initial_blocks = false };
      counter = s.counter + 2;
    })
unfolding is_setting still
sets_initial_blocks s n lt = record {
  known = refl;
  required = refl;
  counted = refl;
  in_range = λ r. record {
    bomb_timer = r.bomb_timer;
    players_count = r.players_count;
    turn_duration = r.turn_duration;
    explosion_radius = r.explosion_radius;
    initial_blocks = λ e. lt;
    game_length = r.game_length;
    port = r.port;
    seed = r.seed;
    size_x = r.size_x;
    size_y = r.size_y;
  };
}

pub sets_game_length :
    (s : ServerSettings) (n : ℕ)
    → n < u16_size
    → StepOf s Flags.game_length (record s {
      options = record s.options { game_length = n };
      required = record s.required { game_length = false };
      counter = s.counter + 2;
    })
unfolding is_setting still
sets_game_length s n lt = record {
  known = refl;
  required = refl;
  counted = refl;
  in_range = λ r. record {
    bomb_timer = r.bomb_timer;
    players_count = r.players_count;
    turn_duration = r.turn_duration;
    explosion_radius = r.explosion_radius;
    initial_blocks = r.initial_blocks;
    game_length = λ e. lt;
    port = r.port;
    seed = r.seed;
    size_x = r.size_x;
    size_y = r.size_y;
  };
}
