-- ===== src/Net/Delivery.antt =====
-- What comes of `sendto` of one host at `eth_in` of another.
use attos.Common.{
  ℕ, ◌+◌, ◌^◌, ◌≤◌, ◌<◌, ◌≡◌, [], ◌∷◌, ◌++◌, none, some, ◌⊎◌, inl, inr, length, u16, arith,
  take_all, le→leb,
}
use attos.Net.Wire.{Bytes, Mac, broadcast, mac_bytes, be16, ok, read}
use attos.Net.Device.{Device, ArpEntry, Socket, sent, received}
use attos.Net.Arp.{ethertype_ipv4, find_arp_entry}
use attos.Net.Ipv4.{make_header, protocol_udp, next_hop, frame, ipv4_out, sendto}
use attos.Net.Sockets.{find_open_udp_socket}
use attos.Net.Frames.{udp_in, ipv4_in, ipv4_frame_in, eth_in}
use attos.Net.Checksum.{inet_csum-make_header}

-- The hardware address to which `ipv4_out` sends a datagram for `dst`.
abbrev pub Resolves : Device → ℕ → Mac → Type 0
Resolves d dst m =
    ((next_hop d dst ≡ ok none) × (m ≡ broadcast))
    ⊎ ((tpa : ℕ) × (e : ArpEntry) × (next_hop d dst ≡ ok (some tpa))
        × (find_arp_entry d.arp_entries tpa ≡ some e)
        × (m ≡ e.ha))

-- The packet that `sendto` hands to `ipv4_out`.
abbrev pub datagram : ℕ → ℕ → ℕ → ℕ → Bytes → Bytes
datagram src src_port dst dst_port payload =
    make_header protocol_udp (u16 (28 + length payload)) src dst
    ++ (be16 src_port
        ++ (be16 dst_port ++ (be16 (u16 (8 + length payload)) ++ (be16 0 ++ payload))))

ipv4_out_resolved :
    (d : Device) (src src_port dst dst_port : ℕ) (payload : Bytes) (m : Mac)
    → length payload ≤ 1458
    → dst < 2 ^ 32
    → Resolves d dst m
    → ipv4_out d (datagram src src_port dst dst_port payload)
      ≡ ok (frame d m (datagram src src_port dst dst_port payload))
unfolding ipv4_out make_header
ipv4_out_resolved d src src_port dst dst_port payload m h hd (inl (hop, e)) = ground arith
ipv4_out_resolved d src src_port dst dst_port payload m h hd (inr (tpa, entry, hop, found, e)) =
    ground arith

udp_frame_in :
    (b : Device) (t : Socket) (src src_port dst dst_port : ℕ) (payload : Bytes)
    → length payload ≤ 1458
    → src < 2 ^ 32
    → dst < 2 ^ 32
    → dst_port < 2 ^ 16
    → find_open_udp_socket b.sockets dst dst_port ≡ some t
    → ipv4_frame_in b (datagram src src_port dst dst_port payload) ≡ ok (b, received t payload ∷ [])
unfolding ipv4_frame_in ipv4_in udp_in make_header read
udp_frame_in b t src src_port dst dst_port payload h hs hd hp found = ground (
  arith,
  inet_csum-make_header protocol_udp (u16 (28 + length payload)) src dst,
  take_all (length payload) payload,
)

pub sendto_resolved :
    (a : Device) (s : Socket) (dst dst_port : ℕ) (payload : Bytes) (m : Mac)
    → length payload ≤ 1458
    → dst < 2 ^ 32
    → Resolves a dst m
    → sendto a s dst dst_port payload ≡ ok (frame a m (datagram s.addr s.port dst dst_port payload))
unfolding sendto
sendto_resolved a s dst dst_port payload m h hd to =
    rw (le→leb (length payload) 1458 h)
      (ipv4_out_resolved a s.addr s.port dst dst_port payload m h hd to)

-- Data of up to 1458 bytes, sent to an address whose hardware address the sender can tell (by
-- broadcast or its ARP table), arrives: the frame, taken in by a host that has a socket open for
-- the destination, gives that socket's function exactly the data, and changes nothing else there.
pub sendto-eth_in :
    (a b : Device) (s t : Socket) (dst dst_port : ℕ) (payload : Bytes) (m : Mac)
    → length payload ≤ 1458
    → s.addr < 2 ^ 32
    → dst < 2 ^ 32
    → dst_port < 2 ^ 16
    → Resolves a dst m
    → find_open_udp_socket b.sockets dst dst_port ≡ some t
    → (f : Bytes) × (sendto a s dst dst_port payload ≡ ok (sent f))
      × (eth_in b f ≡ ok (b, received t payload ∷ []))
unfolding eth_in read
sendto-eth_in a b s t dst dst_port payload m h hs hd hp to found =
    let packet : Bytes = datagram s.addr s.port dst dst_port payload in
    (
      mac_bytes m ++ (mac_bytes a.hw ++ (be16 ethertype_ipv4 ++ packet)),
      sendto_resolved a s dst dst_port payload m h hd to,
      ground (arith, udp_frame_in b t s.addr s.port dst dst_port payload h hs hd hp found),
    )
