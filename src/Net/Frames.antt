-- ===== src/Net/Frames.antt =====
-- The input path of `ipv4_ethernet_device` (attos/net/tftp.cpp): Ethernet frames, IPv4, UDP.
use attos.Common.{
  ℕ, ◌+◌, ◌-◌, ◌*◌, ◌/◌, ◌%◌, ◌^◌, ◌==◌, List, [], ◌∷◌, none, some, if◌then◌else◌, leb, length,
  drop, u16, u32,
}
use attos.Net.Wire.{
  Bytes, byte_at, be16_at, be32_at, Result, ok, fatal, require, ◌>>=◌, ◌>>◌, read, inet_csum,
}
use attos.Net.Device.{Device, Event, received}
use attos.Net.Arp.{ethertype_ipv4, ethertype_arp, ethertype_ipv6, arp_header_at, arp_in}
use attos.Net.Ipv4.{
  ipv4_header_size, udp_header_size, icmp_header_size, ethernet_header_size, protocol_icmp,
  protocol_igmp, protocol_tcp, protocol_udp, icmp_in,
}
use attos.Net.Sockets.{find_open_udp_socket}

-- `udp_in`: `len` is what the IPv4 header leaves behind the `udp_header`. The socket's function
-- reads the `uh.length - 8` bytes that it is given.
unfoldable pub udp_in : Device → ℕ → Bytes → ℕ → Result (Device × List Event)
udp_in d dst packet len = do
  let uh_length = be16_at packet 4
  require (leb udp_header_size uh_length)
  require (leb (uh_length - udp_header_size) len)
  elim (find_open_udp_socket d.sockets dst (be16_at packet 2)) [
    | none ↦ ok (d, [])
    | some s ↦ read (uh_length - udp_header_size) (drop udp_header_size packet) >>= λ payload.
        ok (d, received s payload ∷ [])
  ]

-- `ipv4_in`: `len` is a `uint32_t`, and the packet what the buffer holds from there on.
unfoldable pub ipv4_in : Device → ℕ → ℕ → ℕ → Bytes → ℕ → Result (Device × List Event)
ipv4_in d protocol src dst packet len =
    let icmp : Result (Device × List Event) = do
      require (leb icmp_header_size len)
      bytes ← read (u16 len) packet
      require (inet_csum bytes 0 == 0)
      header ← read icmp_header_size packet
      icmp_in d src dst packet (len - icmp_header_size)
    in let udp : Result (Device × List Event) = do
      require (leb udp_header_size len)
      header ← read udp_header_size packet
      udp_in d dst packet (len - udp_header_size)
      in if protocol == protocol_icmp
        then icmp
        else if protocol == protocol_igmp
        then ok (d, [])
        else if protocol == protocol_tcp
        then ok (d, [])
        else if protocol == protocol_udp
        then udp
        else fatal

-- The IPv4 case of `eth_in`. `ih.length - ih.ihl * 4` is converted to a `uint32_t`.
unfoldable pub ipv4_frame_in : Device → Bytes → Result (Device × List Event)
ipv4_frame_in d packet = do
  require (leb ipv4_header_size (length packet))
  header ← read ipv4_header_size packet
  let ihl = byte_at packet 0 % 2 ^ 4
  let total = be16_at packet 2
  require (byte_at packet 0 / 2 ^ 4 == 4)
  require (leb 5 ihl)
  require (leb (ihl * 4) (length packet))
  require (leb total (length packet))
  with_options ← read (ihl * 4) packet
  require (inet_csum with_options 0 == 0)
  ipv4_in d (byte_at packet 9) (be32_at packet 12) (be32_at packet 16) (drop (ihl * 4) packet)
      (u32 (total + 2 ^ 32 - ihl * 4))

-- `sizeof(arp_header)`
abbrev pub arp_header_size : ℕ
arp_header_size = 28

-- Each cast of the packet to a header is a `read` of its bytes, ahead of the fields. Of IPv6 one byte is read.
unfoldable pub eth_in : Device → Bytes → Result (Device × List Event)
eth_in d frame =
    let type = be16_at frame 12 in
    let packet = drop ethernet_header_size frame in
    let arp : Result (Device × List Event) = do
      require (leb arp_header_size (length packet))
      header ← read arp_header_size packet
      arp_in d (arp_header_at packet)
    in let ipv6 : Result (Device × List Event) = do
      require (leb 40 (length packet))
      version ← read 1 packet
      require (byte_at packet 0 / 2 ^ 4 == 6)
      ok (d, [])
      in do
        require (leb ethernet_header_size (length frame))
        header ← read ethernet_header_size frame
        if type == ethertype_ipv4
            then ipv4_frame_in d packet
            else if type == ethertype_arp
            then arp
            else if type == ethertype_ipv6
            then ipv6
            else fatal
