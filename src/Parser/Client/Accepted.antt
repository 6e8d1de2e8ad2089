-- ===== src/Parser/Client/Accepted.antt =====
-- Command lines of the client for given options.
use computer_networks_projec.Base.{
  ◌≡◌, refl, ◌∙◌, List, [], ◌∷◌, ◌++◌, Bool, true, false, not, ◌||◌, ◌==◌, if◌then◌else◌, length,
  lt→ltb,
}
use computer_networks_projec.Config.{Text, u16_size}
use computer_networks_projec.Parser.{
  Outcome, parsed, exit_failure, ◌and_then◌, Strtoll, parse_address,
}
use computer_networks_projec.Parser.Flags
use computer_networks_projec.Parser.Numbers.{IsStrtoll}
use computer_networks_projec.Parser.Addresses.{parse_address-IsDecimal}
use computer_networks_projec.Parser.Options.{Given, number, IsNumber, parse_numerical-IsNumber}
use computer_networks_projec.Parser.Client.{
  OptionsClient, required_specified_client, client_option, client_options, parse_client,
}

-- An address as it is written.
abbrev pub written_address : Text → Text → Text
written_address host port = host ++ Flags.address_delimiter ∷ port

parse_written :
    (strtoll : Strtoll) (host port : Text)
    → IsStrtoll strtoll
    → IsNumber u16_size port
    → parse_address strtoll (written_address host port) ≡ parsed (host, number port)
parse_written strtoll host port std (some_digit, digits, below, short) =
    parse_address-IsDecimal strtoll host port (number port) std (some_digit, digits, refl)
    ∙ rw (lt→ltb _ _ below) refl

refused_unless :
    (b : Bool) (o : Outcome OptionsClient)
    → (if not b || false then exit_failure else o) ≡ (if b then o else exit_failure)
refused_unless true o = refl
refused_unless false o = refl

module _ (strtoll : Strtoll) (getopt : Text → List Text → Given) (unset : OptionsClient)
    (argv : List Text) where
  -- If `strtoll` does what the C standard says, and `getopt` finds the four options of the client,
  -- the addresses of the GUI and of the server as a host, a colon and a decimal port, and the port as
  -- a decimal number, all ports below 65536, then the client is started with exactly these hosts,
  -- ports and this name, if the command line has nine arguments; with another number it fails.
  pub parse_client-written_address :
      (gui_host gui_port name port server_host server_port : Text)
      → IsStrtoll strtoll
      → IsNumber u16_size gui_port
      → IsNumber u16_size port
      → IsNumber u16_size server_port
      → getopt Flags.client_optstring argv
        ≡ (Flags.gui_address, written_address gui_host gui_port)
          ∷ (Flags.player_name, name)
          ∷ (Flags.port, port)
          ∷ (Flags.server_address, written_address server_host server_port)
          ∷ []
      → parse_client strtoll getopt unset argv ≡ (
          if length argv == 9
          then parsed (record {
            gui_address = gui_host;
            gui_port = number gui_port;
            player_name = name;
            port = number port;
            server_address = server_host;
            server_port = number server_port;
          })
          else exit_failure)
  unfolding parse_client client_options client_option ◌and_then◌ required_specified_client
  parse_client-written_address gui_host gui_port name port server_host server_port std g p q e =
      rw
        (
          parse_client,
          e,
          parse_written strtoll gui_host gui_port std g,
          parse_numerical-IsNumber strtoll u16_size port std p,
          parse_written strtoll server_host server_port std q,
        )
        (refused_unless (length argv == 9) _)
