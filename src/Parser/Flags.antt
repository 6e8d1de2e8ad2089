-- ===== src/Parser/Flags.antt =====
-- The characters of the options (`namespace options` of src/config/config.h).
use computer_networks_projec.Base.{ℕ, [], ◌∷◌}
use computer_networks_projec.Config.{Text}

abbrev pub help : ℕ
help = 104

abbrev pub port : ℕ
port = 112

abbrev pub address_delimiter : ℕ
address_delimiter = 58

-- "d:hn:p:s:"
abbrev pub client_optstring : Text
client_optstring = 100 ∷ 58 ∷ 104 ∷ 110 ∷ 58 ∷ 112 ∷ 58 ∷ 115 ∷ 58 ∷ []

abbrev pub gui_address : ℕ
gui_address = 100

abbrev pub player_name : ℕ
player_name = 110

abbrev pub server_address : ℕ
server_address = 115

-- "b:c:d:e:hk:l:n:p:s:x:y:"
abbrev pub server_optstring : Text
server_optstring =
    98 ∷ 58 ∷ 99 ∷ 58 ∷ 100 ∷ 58 ∷ 101 ∷ 58 ∷ 104 ∷ 107 ∷ 58 ∷ 108 ∷ 58 ∷ 110 ∷ 58 ∷ 112 ∷ 58 ∷ 115
    ∷ 58 ∷ 120 ∷ 58 ∷ 121 ∷ 58 ∷ []

abbrev pub bomb_timer : ℕ
bomb_timer = 98

abbrev pub player_count : ℕ
player_count = 99

abbrev pub turn_duration : ℕ
turn_duration = 100

abbrev pub explosion_radius : ℕ
explosion_radius = 101

abbrev pub initial_blocks : ℕ
initial_blocks = 107

abbrev pub game_length : ℕ
game_length = 108

abbrev pub server_name : ℕ
server_name = 110

abbrev pub seed : ℕ
seed = 115

abbrev pub size_x : ℕ
size_x = 120

abbrev pub size_y : ℕ
size_y = 121
