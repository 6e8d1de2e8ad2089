-- ===== src/Messages/Gui.antt =====
-- The packets between client and GUI (src/network/message_manager.cpp).
use computer_networks_projec.Base.{
  ℕ, suc, ◌≤◌, ◌≡◌, refl, sym, false, Bool, Option, some, ◌>>=◌, List, [], ◌∷◌, arith, length, ltb,
  ◌==◌, if◌then◌else◌, All, Returns,
}
use computer_networks_projec.Config.{IsU8, udp_buff_size}
use computer_networks_projec.Messages.{InputMessage, invalid_message, LobbyMessage, GameMessage}
use computer_networks_projec.Messages.Write.{serialize_lobby_message, serialize_game_message}
use computer_networks_projec.Messages.Containers.{take_all}
use computer_networks_projec.Network.ByteOrder.{
  Platform, IsPlatform, u8, convert_network_to_host_byte_order,
}
use computer_networks_projec.Network.Tcp.{Received, received}
use computer_networks_projec.Network.Udp.{
  Udp, read_incoming_packet, read_next_packet_element, flush_outcoming_packet, udp,
}

-- `DrawMessage`
pub data DrawMessage : Type 0 where
  lobby : LobbyMessage → DrawMessage
  game : GameMessage → DrawMessage

module _ (p : Platform) where
  -- The direction of a move, once the packet has the size of one.
  unfoldable pub read_gui_direction : Udp → Option (InputMessage × Udp)
  unfolding read_next_packet_element
  read_gui_direction t = read_next_packet_element p u8 t >>= λ d.
      if ltb d.0 4 then some (InputMessage.move d.0, d.1) else some (invalid_message, d.1)

  -- The switch over the code; anything else is an invalid message.
  unfoldable pub read_gui_body : ℕ → ℕ → Udp → Option (InputMessage × Udp)
  unfolding read_gui_direction
  read_gui_body packet_size code t =
      if code == 0
      then (if packet_size == 1
          then some (InputMessage.place_bomb, t)
          else some (invalid_message, t))
      else if code == 1
      then (if packet_size == 1
          then some (InputMessage.place_block, t)
          else some (invalid_message, t))
      else if code == 2
      then (if packet_size == 2 then read_gui_direction t else some (invalid_message, t))
      else some (invalid_message, t)

  unfoldable pub read_gui_message : Udp → Option (InputMessage × Udp)
  unfolding read_incoming_packet read_next_packet_element read_gui_body
  read_gui_message t = read_incoming_packet t >>= λ r.
      if r.0 == 0
      then some (invalid_message, r.1)
      else (read_next_packet_element p u8 r.1 >>= λ code. read_gui_body r.0 code.0 code.1)

  unfoldable pub send_gui_message : (List ℕ → Bool) → DrawMessage → Udp → Option Udp
  unfolding flush_outcoming_packet
  send_gui_message accepts (lobby m) t = do
    t1 ← (udp p).put u8 0 t
    t2 ← serialize_lobby_message (udp p) m t1
    flush_outcoming_packet accepts t2
  send_gui_message accepts (game m) t = do
    t1 ← (udp p).put u8 1 t
    t2 ← serialize_game_message (udp p) m t1
    flush_outcoming_packet accepts t2

-- What a packet means.
unfoldable pub meaning : List ℕ → InputMessage
meaning [] = invalid_message
meaning (code ∷ []) =
    if code == 0
    then InputMessage.place_bomb
    else if code == 1
    then InputMessage.place_block
    else invalid_message
meaning (code ∷ d ∷ []) =
    if code == 2
    then (if ltb d 4 then InputMessage.move d else invalid_message)
    else invalid_message
meaning (code ∷ d ∷ e ∷ rest) = invalid_message

module _ (p : Platform) (laws : IsPlatform p) where
  load_one : (b : ℕ) → IsU8 b → p.load (b ∷ []) ≡ b
  load_one b h = rw (sym (laws.one_byte b h)) (laws.load-store 1 b h)

  abbrev Means : List ℕ → Udp → InputMessage × Udp → Type 0
  Means bytes t r = (r.0 ≡ meaning bytes) × (r.1.incoming ≡ t.incoming)

  -- The message in a packet that is in the buffer.
  abbrev message_in : List ℕ → Udp → Option (InputMessage × Udp)
  message_in bytes t =
      let t' = record t { packet = bytes; recv_pointer = 0 } in
      if length bytes == 0
      then some (invalid_message, t')
      else (read_next_packet_element p u8 t' >>= λ code.
          read_gui_body p (length bytes) code.0 code.1)

  message_in-Means :
      (bytes : List ℕ) (t : Udp) → All IsU8 bytes → Returns (Means bytes t) (message_in bytes t)
  unfolding meaning read_next_packet_element read_gui_body read_gui_direction
      convert_network_to_host_byte_order
  message_in-Means [] t a = (refl, refl)
  message_in-Means (code ∷ []) t a = rw (load_one code a.0) (ground arith)
  message_in-Means (code ∷ d ∷ []) t a = rw (load_one code a.0) (ground (arith, load_one d a.1.0))
  message_in-Means (code ∷ d ∷ e ∷ rest) t a =
      let fits : ltb (suc (suc (suc (length rest)))) 1 ≡ false = ground arith in
      let more : (suc (suc (suc (length rest))) == 0) ≡ false = ground arith in
      rw (more, fits, load_one code a.0) (ground arith)

  -- Whatever bytes the GUI sends in a packet that the buffer holds, on a host that keeps the laws
  -- of its byte order, reading it returns: the empty packet, a packet of another size than its code
  -- wants, an unknown code and an unknown direction are invalid messages, and every other packet is
  -- its message. The next packet is still to be read.
  pub read_gui_message-meaning :
      (bytes : List ℕ) (rest : List Received) (t : Udp)
      → All IsU8 bytes
      → length bytes ≤ udp_buff_size
      → t.incoming ≡ received bytes ∷ rest
      → Returns (λ r. (r.0 ≡ meaning bytes) × (r.1.incoming ≡ rest)) (read_gui_message p t)
  unfolding read_gui_message read_incoming_packet
  read_gui_message-meaning bytes rest t a h e =
      rw (e, take_all udp_buff_size bytes h)
        (message_in-Means bytes (record t { incoming = rest }) a)
