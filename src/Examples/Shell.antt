-- ===== src/Examples/Shell.antt =====
-- Command lines of the server and the client, with a `strtoll` and a `getopt`.
use computer_networks_projec.Base.{
  ℕ, zero, suc, ◌+◌, ◌-◌, ◌*◌, ◌<◌, ◌≡◌, ◌≢◌, refl, ◌∙◌, List, [], ◌∷◌, ◌++◌, true, false, ◌==◌,
  ltb, leb, ◌&&◌, lt→ltb, if◌then◌else◌, length, All, arith,
}
use computer_networks_projec.Base.Int.{pos, negsuc}
use computer_networks_projec.Config.{Text, u16_size}
use computer_networks_projec.Parser.{
  parsed, exit_failure, Scanned, Strtoll, parse_numerical, parse_address, u64_size,
}
use computer_networks_projec.Parser.Flags
use computer_networks_projec.Parser.Numbers.{
  IsDigit, IsDecimal, IsStrtoll, value_from, i64_bound, parse_numerical-IsDecimal,
  parse_numerical-blank_minus,
}
use computer_networks_projec.Parser.Addresses.{parse_address-IsDecimal}
use computer_networks_projec.Parser.Options.{Given, number, IsNumber, still}
use computer_networks_projec.Game.Server.{Options}
use computer_networks_projec.Parser.Server.{parse_server}
use computer_networks_projec.Parser.Server.Accepted.{
  IsSetting, set_bomb_timer, set_players_count, set_turn_duration, set_explosion_radius, set_size_x,
  set_size_y, set_initial_blocks, set_game_length, set_server_name, set_port, AllGiven,
  given_options, parse_server-IsSetting,
}
use computer_networks_projec.Parser.Server.Steps.{IsInRange, is_setting}
use computer_networks_projec.Parser.Server.Refused.{parse_server-IsInRange}
use computer_networks_projec.Parser.Client.{OptionsClient, parse_client}
use computer_networks_projec.Parser.Client.Accepted.{written_address, parse_client-written_address}
use computer_networks_projec.Examples.Data.{options}

-- The digits at the start of a text, after digits with the value `n`, and the rest.
scan : ℕ → Text → ℕ × Text
scan n [] = (n, [])
scan n (c ∷ s) = if leb 48 c && ltb c 58 then scan (n * 10 + (c - 48)) s else (n, c ∷ s)

clamp : ℕ × Text → Scanned
clamp r =
    if ltb r.0 i64_bound
    then record { number = pos r.0; rest = r.1; out_of_range = false }
    else record { number = pos (i64_bound - 1); rest = r.1; out_of_range = true }

negate : ℕ × Text → Scanned
negate (zero, s) = record { number = pos 0; rest = s; out_of_range = false }
negate (suc n, s) =
    if ltb n i64_bound
    then record { number = negsuc n; rest = s; out_of_range = false }
    else record { number = negsuc (i64_bound - 1); rest = s; out_of_range = true }

signed : Text → Scanned
signed [] = clamp (scan 0 [])
signed (c ∷ s) = if c == 45 then negate (scan 0 s) else clamp (scan 0 (c ∷ s))

strtoll : Strtoll
strtoll [] = signed []
strtoll (c ∷ s) = if c == 32 then strtoll s else signed (c ∷ s)

scan-IsDigit : (n : ℕ) (s : Text) → All IsDigit s → scan n s ≡ (value_from n s, [])
unfolding scan value_from
scan-IsDigit n [] h = refl
scan-IsDigit n (c ∷ s) h =
    let digit : (leb 48 c && ltb c 58) ≡ true = ground (arith, h.0) in
    rw (scan, digit) (scan-IsDigit (n * 10 + (c - 48)) s h.1)

strtoll_decimal : (s : Text) (n : ℕ) → IsDecimal s n → strtoll s ≡ clamp (n, [])
unfolding strtoll signed
strtoll_decimal [] n d = absurd (d.0 refl)
strtoll_decimal (c ∷ s) n (some_digit, digits, e) =
    let no_blank : (c == 32) ≡ false = ground (arith, digits.0) in
    let no_minus : (c == 45) ≡ false = ground (arith, digits.0) in
    rw (strtoll, no_blank, signed, no_minus, scan-IsDigit 0 (c ∷ s) digits, e) refl

strtoll-IsStrtoll : IsStrtoll strtoll
unfolding clamp negate strtoll signed
strtoll-IsStrtoll = record {
  decimal = λ s n d h. strtoll_decimal s n d ∙ rw (clamp, lt→ltb _ _ h) refl;
  too_big = λ s n d h.
      let above : ltb n i64_bound ≡ false = ground arith in rw (strtoll_decimal s n d, above) refl;
  blank_minus =
      λ s n d h. let (_, digits, e) = d in rw (scan-IsDigit 0 s digits, e, lt→ltb _ _ h) refl;
}

-- Every option with its argument behind it.
pairs : List Text → Given
pairs [] = []
pairs ((m ∷ f ∷ []) ∷ v ∷ rest) = (f, v) ∷ pairs rest
pairs _ = []

getopt : Text → List Text → Given
getopt optstring [] = []
getopt optstring (program ∷ args) = pairs args

not_empty : (c : ℕ) (s : Text) → c ∷ s ≢ []
not_empty c s e = cc

abbrev seven : Text
seven = 55 ∷ []

abbrev twelve : Text
twelve = 49 ∷ 50 ∷ []

seven-IsDecimal : IsDecimal seven 7
unfolding value_from
seven-IsDecimal = (not_empty 55 [], ((omega arith, omega arith), tt), refl)

seven-IsNumber : (size : ℕ) → 7 < size → IsNumber size seven
unfolding value_from
seven-IsNumber size h = (not_empty 55 [], ((omega arith, omega arith), tt), h, omega arith)

twelve-IsNumber : (size : ℕ) → 12 < size → IsNumber size twelve
unfolding value_from
twelve-IsNumber size h = (
  not_empty 49 (50 ∷ []),
  ((omega arith, omega arith), ((omega arith, omega arith), tt)),
  h,
  omega arith,
)

parse_numerical-IsDecimal_example :
    parse_numerical strtoll u16_size seven
    ≡ (if ltb 7 u16_size && ltb 7 i64_bound then parsed 7 else exit_failure)
parse_numerical-IsDecimal_example =
    parse_numerical-IsDecimal strtoll strtoll-IsStrtoll u16_size seven 7 (omega arith)
      seven-IsDecimal

parse_numerical-blank_minus_example :
    parse_numerical strtoll u64_size (32 ∷ 45 ∷ seven) ≡ parsed (u64_size - 7)
parse_numerical-blank_minus_example =
    parse_numerical-blank_minus strtoll strtoll-IsStrtoll seven 6 seven-IsDecimal (omega arith)

parse_address-IsDecimal_example :
    parse_address strtoll ((58 ∷ 58 ∷ 49 ∷ []) ++ Flags.address_delimiter ∷ seven)
    ≡ (if ltb 7 u16_size then parsed (58 ∷ 58 ∷ 49 ∷ [], 7) else exit_failure)
parse_address-IsDecimal_example =
    parse_address-IsDecimal strtoll (58 ∷ 58 ∷ 49 ∷ []) seven 7 strtoll-IsStrtoll seven-IsDecimal

-- The options of the server with the seed left out.
abbrev server_line : List Text
server_line =
    (115 ∷ [])
    ∷ (45 ∷ 98 ∷ [])
    ∷ seven
    ∷ (45 ∷ 99 ∷ [])
    ∷ seven
    ∷ (45 ∷ 100 ∷ [])
    ∷ twelve
    ∷ (45 ∷ 101 ∷ [])
    ∷ seven
    ∷ (45 ∷ 120 ∷ [])
    ∷ twelve
    ∷ (45 ∷ 121 ∷ [])
    ∷ seven
    ∷ (45 ∷ 107 ∷ [])
    ∷ seven
    ∷ (45 ∷ 108 ∷ [])
    ∷ twelve
    ∷ (45 ∷ 110 ∷ [])
    ∷ (83 ∷ [])
    ∷ (45 ∷ 112 ∷ [])
    ∷ twelve
    ∷ []

server_settings : All (λ o. IsSetting o.0 o.1) (getopt Flags.server_optstring server_line)
unfolding getopt pairs
server_settings = (
  set_bomb_timer (seven-IsNumber _ (omega arith)),
  (
    set_players_count (seven-IsNumber _ (omega arith)),
    (
      set_turn_duration (twelve-IsNumber _ (omega arith)),
      (
        set_explosion_radius (seven-IsNumber _ (omega arith)),
        (
          set_size_x (twelve-IsNumber _ (omega arith)),
          (
            set_size_y (seven-IsNumber _ (omega arith)),
            (
              set_initial_blocks (seven-IsNumber _ (omega arith)),
              (
                set_game_length (twelve-IsNumber _ (omega arith)),
                (set_server_name, (set_port (twelve-IsNumber _ (omega arith)), tt)),
              ),
            ),
          ),
        ),
      ),
    ),
  ),
)

server_given : AllGiven (getopt Flags.server_optstring server_line)
unfolding getopt pairs still
server_given = (refl, refl, refl, refl, refl, refl, refl, refl, refl, refl)

server_counted : length server_line ≡ 1 + 2 * length (getopt Flags.server_optstring server_line)
unfolding getopt pairs
server_counted = refl

parse_server-IsSetting_example :
    parse_server strtoll getopt options 1234 server_line
    ≡ parsed (given_options (getopt Flags.server_optstring server_line) 1234)
parse_server-IsSetting_example =
    parse_server-IsSetting strtoll getopt options 1234 server_line strtoll-IsStrtoll server_settings
      server_given server_counted

abbrev server_options_given : Options
server_options_given = given_options (getopt Flags.server_optstring server_line) 1234

parse_server-IsInRange_example :
    IsInRange server_options_given
    × All (λ o. is_setting o.0 ≡ true) (getopt Flags.server_optstring server_line)
    × AllGiven (getopt Flags.server_optstring server_line)
    × (length server_line ≡ 1 + 2 * length (getopt Flags.server_optstring server_line))
parse_server-IsInRange_example =
    parse_server-IsInRange strtoll getopt options 1234 server_line server_options_given
      parse_server-IsSetting_example

abbrev client_line : List Text
client_line =
    (99 ∷ [])
    ∷ (45 ∷ 100 ∷ [])
    ∷ written_address (104 ∷ []) seven
    ∷ (45 ∷ 110 ∷ [])
    ∷ (65 ∷ [])
    ∷ (45 ∷ 112 ∷ [])
    ∷ twelve
    ∷ (45 ∷ 115 ∷ [])
    ∷ written_address (58 ∷ 49 ∷ []) seven
    ∷ []

client_given :
    getopt Flags.client_optstring client_line
    ≡ (Flags.gui_address, written_address (104 ∷ []) seven)
      ∷ (Flags.player_name, 65 ∷ [])
      ∷ (Flags.port, twelve)
      ∷ (Flags.server_address, written_address (58 ∷ 49 ∷ []) seven)
      ∷ []
unfolding getopt pairs
client_given = refl

abbrev unset_client : OptionsClient
unset_client = record {
  gui_address = [];
  gui_port = 5;
  player_name = [];
  port = 6;
  server_address = [];
  server_port = 7;
}

parse_client-written_address_example : parse_client strtoll getopt unset_client client_line ≡ (
    if length client_line == 9
    then parsed (record {
      gui_address = 104 ∷ [];
      gui_port = number seven;
      player_name = 65 ∷ [];
      port = number twelve;
      server_address = 58 ∷ 49 ∷ [];
      server_port = number seven;
    })
    else exit_failure)
parse_client-written_address_example =
    parse_client-written_address strtoll getopt unset_client client_line (104 ∷ []) seven (65 ∷ [])
      twelve (58 ∷ 49 ∷ []) seven strtoll-IsStrtoll (seven-IsNumber u16_size (omega arith))
      (twelve-IsNumber u16_size (omega arith)) (seven-IsNumber u16_size (omega arith)) client_given
