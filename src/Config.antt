-- ===== src/Config.antt =====
-- The integer types and buffer sizes of src/config/config.h, as the number of values of each type.
use computer_networks_projec.Base.{ℕ, ◌<◌, List, All}

abbrev pub u8_size : ℕ
u8_size = 256

abbrev pub u16_size : ℕ
u16_size = 65536

abbrev pub u32_size : ℕ
u32_size = 4294967296

-- `std::numeric_limits<types::str_len_t>::max()`.
abbrev pub str_len_max : ℕ
str_len_max = 255

-- `std::numeric_limits<types::map_len_t>::max()`, and that of `types::vec_len_t`.
abbrev pub container_len_max : ℕ
container_len_max = 4294967295

-- `UDP_BUFF_SIZE`.
abbrev pub udp_buff_size : ℕ
udp_buff_size = 65536

abbrev pub IsU8 : ℕ → Type 0
IsU8 n = n < u8_size

abbrev pub IsU16 : ℕ → Type 0
IsU16 n = n < u16_size

abbrev pub IsU32 : ℕ → Type 0
IsU32 n = n < u32_size

-- A `std::string`, as its bytes.
abbrev pub Text : Type 0
Text = List ℕ

abbrev pub IsText : Text → Type 0
IsText = All IsU8
