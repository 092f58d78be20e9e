-- ===== src/Net/Bounds.antt =====
-- Reads past the end of a frame on the input path of `eth_in`.
use attos.Common.{
  ℕ, ◌+◌, ◌-◌, ◌*◌, ◌%◌, ◌^◌, ◌≤◌, ◌<◌, ◌≡◌, ◌≢◌, refl, [], ◌∷◌, some, ◌⊎◌, length, take, drop, u32,
  le→leb, Bool, true, false, arith, length-drop, ltb, ◌==◌, if◌then◌else◌,
}
use attos.Net.Wire.{
  Bytes, byte_at, be16_at, be32_at, Result, ok, fatal, out_of_bounds, require, ◌>>=◌, read,
  inet_csum,
}
use attos.Net.Device.{Device, Socket}
use attos.Net.Arp.{ethertype_ipv4, ArpHeader, arp_in, arp_header_at, add_arp_entry}
use attos.Net.Ipv4.{protocol_udp, next_hop, ipv4_out, icmp_in}
use attos.Net.Sockets.{find_open_udp_socket}
use attos.Net.Frames.{udp_in, ipv4_in, ipv4_frame_in, eth_in}

-- A chain of steps stays inside if every step does.
>>=-in {ℓ κ} :
    {A : Type ℓ} {B : Type κ} (m : Result A) (f : A → Result B)
    → m ≢ out_of_bounds
    → ((a : A) → f a ≢ out_of_bounds)
    → (m >>= f) ≢ out_of_bounds
>>=-in (ok a) f hm hf = hf a
>>=-in fatal f hm hf = λ e. cc
>>=-in out_of_bounds f hm hf = λ e. hm refl

ok-in {ℓ} : {A : Type ℓ} (a : A) → ok a ≢ out_of_bounds
ok-in a e = cc

require-in : (b : Bool) → require b ≢ out_of_bounds
require-in true = λ e. cc
require-in false = λ e. cc

if-in {ℓ} :
    {A : Type ℓ} (b : Bool) (x y : Result A)
    → x ≢ out_of_bounds
    → y ≢ out_of_bounds
    → (if b then x else y) ≢ out_of_bounds
if-in true x y hx hy = hx
if-in false x y hx hy = hy

next_hop-in : (d : Device) (dst : ℕ) → next_hop d dst ≢ out_of_bounds
unfolding next_hop
next_hop-in d dst = ground arith

ipv4_out-in : (d : Device) (packet : Bytes) → ipv4_out d packet ≢ out_of_bounds
unfolding ipv4_out
ipv4_out-in d packet = ground (arith, next_hop-in d (be32_at packet 16))

read-in : (n : ℕ) (bs : Bytes) → n ≤ length bs → read n bs ≢ out_of_bounds
unfolding read
read-in n bs h = ground arith

arp_in-in : (d : Device) (ah : ArpHeader) → arp_in d ah ≢ out_of_bounds
unfolding arp_in add_arp_entry
arp_in-in d ah = ground arith

icmp_in-in :
    (d : Device) (src dst : ℕ) (packet : Bytes) (len : ℕ)
    → len + 8 ≤ length packet
    → icmp_in d src dst packet len ≢ out_of_bounds
unfolding icmp_in
icmp_in-in d src dst packet len h =
    if-in _ _ _
      (>>=-in (require (byte_at packet 1 == 0)) _ (require-in _) λ _.
        >>=-in (require (ltb len 1458)) _ (require-in _) λ _.
          >>=-in (read len (drop 8 packet)) _
            (read-in len (drop 8 packet) (omega (arith, length-drop 8 packet)))
            λ payload. >>=-in (ipv4_out d _) _ (ipv4_out-in d _) λ e. ok-in (d, e ∷ []))
      (ok-in (d, []))

udp_in-in :
    (d : Device) (dst : ℕ) (packet : Bytes) (len : ℕ)
    → len + 8 ≤ length packet
    → udp_in d dst packet len ≢ out_of_bounds
unfolding udp_in read
udp_in-in d dst packet len h = ground (arith, length-drop 8 packet)

ipv4_in-in :
    (d : Device) (protocol src dst : ℕ) (packet : Bytes) (len : ℕ)
    → len ≤ length packet
    → ipv4_in d protocol src dst packet len ≢ out_of_bounds
unfolding ipv4_in read
ipv4_in-in d protocol src dst packet len h =
    ground (arith, icmp_in-in d src dst packet (len - 8), udp_in-in d dst packet (len - 8))

ipv4_frame_in-in :
    (d : Device) (packet : Bytes)
    → byte_at packet 0 % 16 * 4 ≤ be16_at packet 2
    → ipv4_frame_in d packet ≢ out_of_bounds
unfolding ipv4_frame_in read
ipv4_frame_in-in d packet h = ground (
  arith,
  length-drop (byte_at packet 0 % 16 * 4) packet,
  ipv4_in-in d (byte_at packet 9) (be32_at packet 12) (be32_at packet 16)
      (drop (byte_at packet 0 % 16 * 4) packet)
      (u32 (be16_at packet 2 + 2 ^ 32 - byte_at packet 0 % 16 * 4)),
)

-- A frame is taken in with no read outside of it: unless it is an IPv4 packet whose total length is
-- less than the length of its header.
pub eth_in_bounds :
    (d : Device) (frame : Bytes)
    → (be16_at frame 12 ≢ ethertype_ipv4)
      ⊎ (byte_at (drop 14 frame) 0 % 16 * 4 ≤ be16_at (drop 14 frame) 2)
    → eth_in d frame ≢ out_of_bounds
unfolding eth_in read
eth_in_bounds d frame h =
    ground (arith, ipv4_frame_in-in d (drop 14 frame), arp_in-in d (arp_header_at (drop 14 frame)))

udp_in_overruns :
    (d : Device) (dst : ℕ) (packet : Bytes) (len : ℕ) (t : Socket)
    → length packet < be16_at packet 4
    → 8 ≤ length packet
    → be16_at packet 4 ≤ len
    → find_open_udp_socket d.sockets dst (be16_at packet 2) ≡ some t
    → udp_in d dst packet len ≡ out_of_bounds
unfolding udp_in read
udp_in_overruns d dst packet len t h h8 hl found = ground (arith, length-drop 8 packet)

udp_overruns :
    (d : Device) (src dst : ℕ) (packet : Bytes) (len : ℕ) (t : Socket)
    → length packet < be16_at packet 4
    → 8 ≤ length packet
    → be16_at packet 4 + 8 ≤ len
    → find_open_udp_socket d.sockets dst (be16_at packet 2) ≡ some t
    → ipv4_in d protocol_udp src dst packet len ≡ out_of_bounds
unfolding ipv4_in read
udp_overruns d src dst packet len t h h8 hl found =
    ground (arith, udp_in_overruns d dst packet (len - 8) t)

-- The other way: a total length below that of the header wraps to a large one, and a UDP header can
-- then make the socket's function read past the end of the packet.
pub short_total_overruns :
    (d : Device) (packet : Bytes) (t : Socket)
    → byte_at packet 0 ≡ 0x45
    → byte_at packet 9 ≡ protocol_udp
    → 28 ≤ length packet
    → be16_at packet 2 < 20
    → inet_csum (take 20 packet) 0 ≡ 0
    → length packet < be16_at (drop 20 packet) 4
    → be16_at (drop 20 packet) 4 < 2 ^ 16
    → find_open_udp_socket d.sockets (be32_at packet 16) (be16_at (drop 20 packet) 2) ≡ some t
    → ipv4_frame_in d packet ≡ out_of_bounds
unfolding ipv4_frame_in read
short_total_overruns d packet t h0 h9 hl ht hc hu hm found =
    rw
      (
        h0,
        h9,
        le→leb 20 (length packet) (omega arith),
        le→leb (be16_at packet 2) (length packet) (omega arith),
        hc,
      )
      (udp_overruns d (be32_at packet 12) (be32_at packet 16) (drop 20 packet) _ t
        (omega (arith, length-drop 20 packet)) (omega (arith, length-drop 20 packet)) (omega arith)
        found)
