-- ===== src/Net/Ipv4.antt =====
-- IPv4 output, ICMP echo and UDP output in attos/net/tftp.cpp.
use attos.Common.{
  ℕ, ◌+◌, ◌-◌, ◌==◌, ◌!=◌, ◌&&◌, List, [], ◌∷◌, ◌++◌, Option, none, some, if◌then◌else◌, leb, ltb,
  length, take, drop, u16, bit_and,
}
use attos.Net.Wire.{
  Bytes, Mac, broadcast, mac_bytes, byte_at, be32_at, be16, be32, Result, ok, fatal, require, ◌>>=◌,
  ◌>>◌, read, inet_csum,
}
use attos.Net.Device.{Device, Socket, Event, sent, inaddr_any, inaddr_broadcast}
use attos.Net.Arp.{ethertype_ipv4, arp_request, find_arp_entry, send_arp}

abbrev pub ethernet_max_bytes : ℕ
ethernet_max_bytes = 1500

-- `sizeof(ethernet_header)`, `sizeof(ipv4_header)`, `sizeof(icmp_header)`, `sizeof(udp_header)`
abbrev pub ethernet_header_size : ℕ
ethernet_header_size = 14

abbrev pub ipv4_header_size : ℕ
ipv4_header_size = 20

abbrev pub icmp_header_size : ℕ
icmp_header_size = 8

abbrev pub udp_header_size : ℕ
udp_header_size = 8

abbrev pub protocol_icmp : ℕ
protocol_icmp = 1

abbrev pub protocol_igmp : ℕ
protocol_igmp = 2

abbrev pub protocol_tcp : ℕ
protocol_tcp = 6

abbrev pub protocol_udp : ℕ
protocol_udp = 17

-- The header that `sendto` and `icmp_in` fill in, with a checksum: version 4, five words long, all
-- else but these fields 0. The time to live is 64.
abbrev pub header_with : ℕ → ℕ → ℕ → ℕ → ℕ → Bytes
header_with protocol len src dst checksum =
    0x45 ∷ 0 ∷ be16 len ++ (0 ∷ 0 ∷ 0 ∷ 0 ∷ 64 ∷ protocol ∷ be16 checksum ++ (be32 src ++ be32 dst))

-- The checksum is that of the header with a checksum of 0.
unfoldable pub make_header : ℕ → ℕ → ℕ → ℕ → Bytes
make_header protocol len src dst =
    header_with protocol len src dst (inet_csum (header_with protocol len src dst 0) 0)

-- Where a datagram for `dst` goes: to all, to the host, or to the gateway. `none` is the broadcast.
unfoldable pub next_hop : Device → ℕ → Result (Option ℕ)
next_hop d dst =
    if dst == inaddr_broadcast
    then ok none
    else if dst == inaddr_any
    then fatal
    else if bit_and dst d.config.netmask == bit_and d.config.addr d.config.netmask
    then ok (some dst)
    else if d.config.gateway == inaddr_any
    then fatal
    else ok (some d.config.gateway)

abbrev pub frame : Device → Mac → Bytes → Event
frame d dst packet = sent (mac_bytes dst ++ (mac_bytes d.hw ++ (be16 ethertype_ipv4 ++ packet)))

-- `ipv4_out`: a packet, behind room for the Ethernet header. An unknown hardware address is asked
-- for, and the packet is dropped.
unfoldable pub ipv4_out : Device → Bytes → Result Event
ipv4_out d packet = do
  require (
      leb ipv4_header_size (length packet)
      && leb (ethernet_header_size + length packet) ethernet_max_bytes)
  require (byte_at packet 0 == 0x45)
  hop ← next_hop d (be32_at packet 16)
  elim hop [
    | none ↦ ok (frame d broadcast packet)
    | some tpa ↦ elim (find_arp_entry d.arp_entries tpa) [
      | some e ↦ ok (frame d e.ha packet)
      | none ↦ ok (send_arp d arp_request d.config.addr broadcast tpa)
    ]
  ]

-- `udp_socket::sendto`.
unfoldable pub sendto : Device → Socket → ℕ → ℕ → Bytes → Result Event
sendto d s remote_addr remote_port payload = do
  require (
      leb (length payload)
        (ethernet_max_bytes - (ethernet_header_size + ipv4_header_size + udp_header_size)))
  ipv4_out d (
      make_header protocol_udp (u16 (ipv4_header_size + udp_header_size + length payload)) s.addr
        remote_addr
      ++ (be16 s.port
          ++ (be16 remote_port
              ++ (be16 (u16 (udp_header_size + length payload)) ++ (be16 0 ++ payload)))))

-- The answer to an echo request: the rest of the request's header, and its data.
abbrev pub echo_with : Bytes → Bytes → ℕ → Bytes
echo_with rest_of_header payload checksum = 0 ∷ 0 ∷ be16 checksum ++ (rest_of_header ++ payload)

-- `icmp_in`: the packet begins with its `icmp_header`, and has `len` bytes of data behind it.
unfoldable pub icmp_in : Device → ℕ → ℕ → Bytes → ℕ → Result (Device × List Event)
icmp_in d src dst packet len =
    let reply : Result (Device × List Event) = do
      require (byte_at packet 1 == 0)
      require (
          ltb len
            (ethernet_max_bytes - (ethernet_header_size + ipv4_header_size + icmp_header_size)))
      payload ← read len (drop icmp_header_size packet)
      let icmp = echo_with (take 4 (drop 4 packet)) payload
      e ← ipv4_out d (
          make_header protocol_icmp (u16 (ipv4_header_size + icmp_header_size + len)) dst src
          ++ icmp (inet_csum (icmp 0) 0))
      ok (d, e ∷ [])
    in if dst != inaddr_any && dst == d.config.addr && byte_at packet 0 == 8
      then reply
      else ok (d, [])
