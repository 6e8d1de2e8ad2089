-- ===== src/Parser/Client.antt =====
-- `parse_client` of src/config/parser.cpp.
pub mod Accepted
use computer_networks_projec.Base.{
  ℕ, ◌+◌, List, [], ◌∷◌, Bool, true, false, not, ◌&&◌, ◌||◌, ◌==◌, if◌then◌else◌, length,
}
use computer_networks_projec.Config.{Text, u16_size}
use computer_networks_projec.Parser.{
  Outcome, parsed, exit_failure, exit_success, ◌and_then◌, Strtoll, parse_numerical, parse_address,
}
use computer_networks_projec.Parser.Flags

pub record OptionsClient : Type 0 where
  pub gui_address : Text
  pub gui_port : ℕ
  pub player_name : Text
  pub port : ℕ
  pub server_address : Text
  pub server_port : ℕ

-- What is still required.
pub record RequiredClient : Type 0 where
  pub gui_address : Bool
  pub gui_port : Bool
  pub player_name : Bool
  pub port : Bool
  pub server_address : Bool
  pub server_port : Bool

abbrev pub required_client : RequiredClient
required_client = record {
  gui_address = true;
  gui_port = true;
  player_name = true;
  port = true;
  server_address = true;
  server_port = true;
}

unfoldable pub required_specified_client : RequiredClient → Bool
required_specified_client r =
    not r.gui_address
    && not r.gui_port
    && not r.player_name
    && not r.port
    && not r.server_address
    && not r.server_port

-- The local variables of `parse_client`.
pub record ClientSettings : Type 0 where
  pub options : OptionsClient
  pub required : RequiredClient
  pub counter : ℕ

-- One round of the loop, for what `getopt` returned and `optarg`.
unfoldable pub client_option : Strtoll → ℕ → Text → ClientSettings → Outcome ClientSettings
unfolding ◌and_then◌
client_option strtoll opt optarg s =
    let counted = record s { counter = s.counter + 2 } in
    if opt == Flags.gui_address
    then parse_address strtoll optarg and_then (λ a. parsed (record counted {
      options = record s.options { gui_address = a.0; gui_port = a.1 };
      required = record s.required { gui_address = false; gui_port = false };
    }))
    else if opt == Flags.player_name
    then parsed (record counted {
      options = record s.options { player_name = optarg };
      required = record s.required { player_name = false };
    })
    else if opt == Flags.port
    then parse_numerical strtoll u16_size optarg and_then (λ n. parsed (record counted {
      options = record s.options { port = n };
      required = record s.required { port = false };
    }))
    else if opt == Flags.server_address
    then parse_address strtoll optarg and_then (λ a. parsed (record counted {
      options = record s.options { server_address = a.0; server_port = a.1 };
      required = record s.required { server_address = false; server_port = false };
    }))
    else if opt == Flags.help
    then exit_success
    else exit_failure

unfoldable pub client_options : Strtoll → List (ℕ × Text) → ClientSettings → Outcome ClientSettings
unfolding client_option ◌and_then◌
client_options strtoll [] s = parsed s
client_options strtoll (o ∷ os) s =
    client_option strtoll o.0 o.1 s and_then (λ s'. client_options strtoll os s')

-- The values in `unset` are those of the members that the code leaves uninitialised.
unfoldable pub parse_client :
    Strtoll
    → (Text → List Text → List (ℕ × Text))
    → OptionsClient
    → List Text
    → Outcome OptionsClient
unfolding client_options ◌and_then◌ required_specified_client
parse_client strtoll getopt unset argv =
    client_options strtoll (getopt Flags.client_optstring argv)
      (record { options = unset; required = required_client; counter = 1 })
    and_then (λ s.
        if not (length argv == s.counter) || not (required_specified_client s.required)
        then exit_failure
        else parsed s.options)
