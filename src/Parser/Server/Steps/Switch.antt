-- ===== src/Parser/Server/Steps/Switch.antt =====
-- The `switch` of `parse_server`.
use computer_networks_projec.Base.{ℕ, ◌<◌, arith}
use computer_networks_projec.Config.{Text, u8_size, u16_size, u32_size}
use computer_networks_projec.Parser.{parsed, Strtoll, parse_numerical, u64_size}
use computer_networks_projec.Parser.Flags
use computer_networks_projec.Parser.Ends.{Ends, Ends-and_then, Ends-case, Ends-parse_numerical}
use computer_networks_projec.Parser.Server.{ServerSettings, number_option, server_option}
use computer_networks_projec.Parser.Server.Steps.{StepOf}
use computer_networks_projec.Parser.Server.Steps.Rules.{
  sets_bomb_timer, sets_players_count, sets_turn_duration, sets_explosion_radius,
  sets_initial_blocks, sets_game_length,
}
use computer_networks_projec.Parser.Server.Steps.Place.{
  sets_server_name, sets_port, sets_seed, sets_size_x, sets_size_y,
}

module _ (strtoll : Strtoll) where
  Ends-number_option :
      (size : ℕ) (v : Text) (set : ℕ → ServerSettings) (P : ServerSettings → Type 0)
      → 0 < size
      → ((n : ℕ) → n < size → P (set n))
      → Ends P (number_option strtoll size v set)
  unfolding number_option
  Ends-number_option size v set P h f =
      Ends-and_then (λ n. n < size) P (parse_numerical strtoll size v) (λ n. parsed (set n))
        (Ends-parse_numerical strtoll size v h) f

  pub server_option-StepOf :
      (opt : ℕ) (v : Text) (s : ServerSettings)
      → Ends (StepOf s opt) (server_option strtoll opt v s)
  unfolding server_option
  server_option-StepOf opt v s =
      Ends-case (StepOf s) opt Flags.bomb_timer _ _
        (Ends-number_option u16_size v _ (StepOf s Flags.bomb_timer) (omega arith)
          (sets_bomb_timer s))
        (Ends-case (StepOf s) opt Flags.player_count _ _
          (Ends-number_option u8_size v _ (StepOf s Flags.player_count) (omega arith)
            (sets_players_count s))
          (Ends-case (StepOf s) opt Flags.turn_duration _ _
            (Ends-number_option u64_size v _ (StepOf s Flags.turn_duration) (omega arith)
              (sets_turn_duration s))
            (Ends-case (StepOf s) opt Flags.explosion_radius _ _
              (Ends-number_option u16_size v _ (StepOf s Flags.explosion_radius) (omega arith)
                (sets_explosion_radius s))
              (Ends-case (StepOf s) opt Flags.initial_blocks _ _
                (Ends-number_option u16_size v _ (StepOf s Flags.initial_blocks) (omega arith)
                  (sets_initial_blocks s))
                (Ends-case (StepOf s) opt Flags.game_length _ _
                  (Ends-number_option u16_size v _ (StepOf s Flags.game_length) (omega arith)
                    (sets_game_length s))
                  (Ends-case (StepOf s) opt Flags.server_name _ _ (sets_server_name s v) (
                    Ends-case (StepOf s) opt Flags.port _ _
                      (Ends-number_option u16_size v _ (StepOf s Flags.port) (omega arith)
                        (sets_port s))
                      (Ends-case (StepOf s) opt Flags.seed _ _
                        (Ends-number_option u32_size v _ (StepOf s Flags.seed) (omega arith)
                          (sets_seed s))
                        (Ends-case (StepOf s) opt Flags.size_x _ _
                          (Ends-number_option u16_size v _ (StepOf s Flags.size_x) (omega arith)
                            (sets_size_x s))
                          (Ends-case (StepOf s) opt Flags.size_y _ _
                            (Ends-number_option u16_size v _ (StepOf s Flags.size_y) (omega arith)
                              (sets_size_y s))
                            (Ends-case (StepOf s) opt Flags.help _ _ tt tt)))))))))))
