-- ===== src/Net/Tests.antt =====
-- Two hosts, 10.0.0.1 and 10.0.0.2, on one network.
use attos.Common.{ℕ, ◌≡◌, ◌≢◌, refl, [], ◌∷◌, ◌++◌, arith, inr}
use attos.Net.Wire.{Bytes, Mac, broadcast, ok, out_of_bounds, inet_csum, be16, sum_words, fold_sum}
use attos.Net.Device.{Device, Socket, NetConfig, Event, sent, received, ipv4_address}
use attos.Net.Arp.{send_arp, arp_request, find_arp_entry}
use attos.Net.Ipv4.{make_header, protocol_udp, sendto, next_hop}
use attos.Net.Sockets.{find_open_udp_socket, udp_close}
use attos.Net.Frames.{eth_in, ipv4_frame_in}
use attos.Net.Delivery.{sendto-eth_in}
use attos.Net.Bounds.{eth_in_bounds, short_total_overruns}
use attos.Net.Ports.{NoShadow, udp_close_removes}
use attos.Net.Resolution.{arp_resolves, event_bytes, Knows}

abbrev mac_of : ℕ → Mac
mac_of n = record { b0 = 2; b1 = 0; b2 = 0; b3 = 0; b4 = 0; b5 = n }

abbrev config_of : ℕ → NetConfig
config_of n = record {
  addr = ipv4_address 10 0 0 n;
  netmask = ipv4_address 255 255 255 0;
  gateway = ipv4_address 10 0 0 254;
}

abbrev bob_socket : Socket
bob_socket = record { addr = 0; port = 69 }

abbrev alice_socket : Socket
alice_socket = record { addr = ipv4_address 10 0 0 1; port = 49152 }

abbrev bob : Device
bob = record {
  hw = mac_of 2;
  config = config_of 2;
  arp_entries = [];
  sockets = bob_socket ∷ record { addr = ipv4_address 10 0 0 2; port = 7 } ∷ [];
}

abbrev alice : Device
alice = record {
  hw = mac_of 1;
  config = config_of 1;
  arp_entries = record { pa = ipv4_address 10 0 0 2; ha = mac_of 2 } ∷ [];
  sockets = alice_socket ∷ [];
}

sendto-eth_in_example :
    (f : Bytes) × (sendto alice alice_socket 0x0a000002 69 (1 ∷ 2 ∷ 3 ∷ []) ≡ ok (sent f))
    × (eth_in bob f ≡ ok (bob, received bob_socket (1 ∷ 2 ∷ 3 ∷ []) ∷ []))
unfolding next_hop find_arp_entry find_open_udp_socket
sendto-eth_in_example =
    sendto-eth_in alice bob alice_socket bob_socket 0x0a000002 69 (1 ∷ 2 ∷ 3 ∷ []) (mac_of 2)
      (omega arith) (omega arith) (omega arith) (omega arith)
      (inr (0x0a000002, record { pa = 0x0a000002; ha = mac_of 2 }, refl, refl, refl)) refl

-- a frame whose IPv4 packet is cut off behind its first bytes
abbrev runt : Bytes
runt = 2 ∷ 0 ∷ 0 ∷ 0 ∷ 0 ∷ 2 ∷ 2 ∷ 0 ∷ 0 ∷ 0 ∷ 0 ∷ 1 ∷ 8 ∷ 0 ∷ 0x45 ∷ 0 ∷ 0 ∷ 28 ∷ []

eth_in_bounds_example : eth_in bob runt ≢ out_of_bounds
eth_in_bounds_example = eth_in_bounds bob runt (inr (omega arith))

-- A header with a total length of 0, and a UDP header that claims 100 bytes.
short_packet : Bytes
short_packet =
    make_header protocol_udp 0 0x0a000001 0x0a000002
    ++ (be16 5 ++ (be16 69 ++ (be16 100 ++ be16 0)))

short_total_overruns_example : ipv4_frame_in bob short_packet ≡ out_of_bounds
unfolding short_packet make_header inet_csum sum_words fold_sum find_open_udp_socket
short_total_overruns_example =
    short_total_overruns bob short_packet bob_socket refl refl (omega arith) (omega arith) refl
      (omega arith) (omega arith) refl

arp_resolves_example :
    (a' b' : Device) × (answer : Event) × (eth_in bob
        (event_bytes (send_arp alice arp_request 0x0a000001 broadcast 0x0a000002))
      ≡ ok (b', answer ∷ []))
    × (eth_in alice (event_bytes answer) ≡ ok (a', []))
    × Knows b' 0x0a000001 (mac_of 1)
    × Knows a' 0x0a000002 (mac_of 2)
arp_resolves_example =
    arp_resolves alice bob (omega arith) (omega arith) (omega arith) (omega arith) refl refl

udp_close_removes_example :
    (udp_close bob 0 69
      ≡ ok (record bob { sockets = record { addr = ipv4_address 10 0 0 2; port = 7 } ∷ [] }))
    × NoShadow (record { addr = ipv4_address 10 0 0 2; port = 7 } ∷ [])
udp_close_removes_example =
    udp_close_removes bob [] (record { addr = ipv4_address 10 0 0 2; port = 7 } ∷ []) bob_socket
      refl ((refl, tt), (tt, tt))
