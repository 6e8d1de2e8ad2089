-- ===== src/Network/Udp.antt =====
-- `UDPHandler` of src/network/network_handler.h and .cpp: one packet that is read, one that is
-- written.
use computer_networks_projec.Base.{
  ℕ, ◌+◌, ◌≤◌, ◌≡◌, refl, ◌∙◌, false, Bool, Option, none, some, ◌>>=◌, List, [], ◌∷◌, ◌++◌, arith,
  length, length-append, take, ltb, if◌then◌else◌,
}
use computer_networks_projec.Config.{udp_buff_size}
use computer_networks_projec.Network.ByteOrder.{
  Platform, IsPlatform, Width, size_of, Fits, big_endian, length-big_endian,
  convert_host_to_network_byte_order, convert_network_to_host_byte_order, to_network,
}
use computer_networks_projec.Network.Tcp.{Received, received, failed, drop}
use computer_networks_projec.Network.Channel.{Channel, IsChannel}

-- The bytes of the last packet and the place of the next element in it, what `recv` still returns,
-- the bytes in the send buffer, and the packets that went out.
pub record Udp : Type 0 where
  pub packet : List ℕ
  pub recv_pointer : ℕ
  pub incoming : List Received
  pub outcoming : List ℕ
  pub packets : List (List ℕ)

-- `recv` on a datagram socket cuts a packet to the buffer. `none` is `UDPError`, or no packet any
-- more.
unfoldable pub read_incoming_packet : Udp → Option (ℕ × Udp)
read_incoming_packet t = elim t.incoming [
  | [] ↦ none
  | failed ∷ rest ↦ none
  | received bytes ∷ rest ↦
      let packet = take udp_buff_size bytes in
      some (length packet, record t { packet = packet; recv_pointer = 0; incoming = rest })
]

module _ (p : Platform) where
  -- The conversion in place touches only bytes that the pointer then leaves behind.
  unfoldable pub read_next_packet_element : Width → Udp → Option (ℕ × Udp)
  read_next_packet_element w t =
      if ltb (length t.packet) (t.recv_pointer + size_of w)
      then none
      else (convert_network_to_host_byte_order p (size_of w)
            (take (size_of w) (drop t.recv_pointer t.packet))
          >>= λ host. some (p.load host, record t { recv_pointer = t.recv_pointer + size_of w }))

  unfoldable pub append_to_outcoming_packet : Width → ℕ → Udp → Option Udp
  append_to_outcoming_packet w v t =
      if ltb udp_buff_size (length t.outcoming + size_of w)
      then none
      else (convert_host_to_network_byte_order p (size_of w) (p.store (size_of w) v) >>= λ bytes.
          some (record t { outcoming = t.outcoming ++ bytes }))

-- The socket takes a packet whole or fails.
unfoldable pub flush_outcoming_packet : (List ℕ → Bool) → Udp → Option Udp
flush_outcoming_packet accepts t =
    if accepts t.outcoming
    then some (record t { outcoming = []; packets = t.packets ++ t.outcoming ∷ [] })
    else none

abbrev pub udp : Platform → Channel
udp p = record { State = Udp; put = append_to_outcoming_packet p }

module _ (p : Platform) (laws : IsPlatform p) where
  pub append_lem :
      (w : Width) (v : ℕ) (rest : List ℕ) (t : Udp)
      → Fits w v
      → length t.outcoming + length (big_endian (size_of w) v ++ rest) ≤ udp_buff_size
      → (t' : Udp) × (append_to_outcoming_packet p w v t ≡ some t')
        × (t'.outcoming ≡ t.outcoming ++ big_endian (size_of w) v)
        × (length t'.outcoming + length rest ≤ udp_buff_size)
        × (t'.packets ≡ t.packets)
  unfolding append_to_outcoming_packet
  append_lem w v rest t h room =
      let bytes = big_endian (size_of w) v in
      let n = length-big_endian (size_of w) v in
      let m = length-append bytes rest in
      let k = length-append t.outcoming bytes in
      let fits : ltb udp_buff_size (length t.outcoming + size_of w) ≡ false =
        ground (arith, n, m) in
      (
        record t { outcoming = t.outcoming ++ bytes },
        rw (fits, to_network p laws w v h) refl,
        refl,
        omega (arith, room, n, m, k),
        refl,
      )

  -- As long as the packet does not exceed the buffer, every number goes into it.
  pub udp-IsChannel : IsChannel (udp p)
  udp-IsChannel = record {
    out = λ t. t.outcoming;
    Room = λ bytes t. length t.outcoming + length bytes ≤ udp_buff_size;
    put_lem = λ w v rest t h room.
        let (t', e, o, room', same) = append_lem w v rest t h room in (t', e, o, room');
  }

  -- The same, while these packets have been sent.
  abbrev pub channel_after : List (List ℕ) → IsChannel (udp p)
  channel_after packets = record {
    out = λ t. t.outcoming;
    Room = λ bytes t. (length t.outcoming + length bytes ≤ udp_buff_size) × (t.packets ≡ packets);
    put_lem = λ w v rest t h room.
        let (t', e, o, room', same) = append_lem w v rest t h room.0 in
        (t', e, o, (room', same ∙ room.1));
  }
