-- ===== src/Examples/Pictures.antt =====
-- A picture of the lobby on its way to the GUI.
use computer_networks_projec.Base.{ℕ, ◌≡◌, refl, true, Bool, List, [], ◌∷◌, length, arith, Returns}
use computer_networks_projec.Messages.Gui.{DrawMessage, lobby, send_gui_message}
use computer_networks_projec.Messages.Packets.{
  packet_format, IsDrawMessage, player_format, string_format, map_format, vector_format, concat,
}
use computer_networks_projec.Messages.Packets.Sent.{send_gui_message-packet_format}
use computer_networks_projec.Network.ByteOrder.{big_endian}
use computer_networks_projec.Network.Udp.{Udp}
use computer_networks_projec.Examples.Data.{alice}
use computer_networks_projec.Examples.Host.{host, host-IsPlatform}

abbrev picture : DrawMessage
picture = lobby (record {
  server_name = 83 ∷ [];
  players_count = 2;
  size_x = 3;
  size_y = 4;
  game_length = 5;
  explosion_radius = 6;
  bomb_timer = 7;
  players = (0, alice) ∷ [];
})

abbrev empty : Udp
empty = record { packet = []; recv_pointer = 0; incoming = []; outcoming = []; packets = [] }

abbrev takes_all : List ℕ → Bool
takes_all bytes = true

packet_size : length (packet_format picture) ≡ 23
unfolding packet_format player_format string_format map_format vector_format concat big_endian
packet_size = refl

picture-IsDrawMessage : IsDrawMessage picture
picture-IsDrawMessage = (
  (omega arith, tt),
  omega arith,
  omega arith,
  omega arith,
  omega arith,
  omega arith,
  omega arith,
  (omega arith, ((omega arith, ((omega arith, tt), (omega arith, tt))), tt)),
)

send_gui_message-packet_format_example :
    Returns
      (λ t'. (t'.outcoming ≡ []) × (t'.packets ≡ packet_format picture ∷ []))
      (send_gui_message host takes_all picture empty)
send_gui_message-packet_format_example =
    send_gui_message-packet_format host host-IsPlatform takes_all picture empty
      picture-IsDrawMessage refl (omega (arith, packet_size)) refl
