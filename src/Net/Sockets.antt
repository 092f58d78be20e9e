-- ===== src/Net/Sockets.antt =====
-- The open UDP sockets of `ipv4_ethernet_device` (attos/net/tftp.cpp).
use attos.Common.{
  ℕ, zero, suc, ◌+◌, ◌==◌, ◌&&◌, ◌||◌, Bool, true, false, List, [], ◌∷◌, ◌++◌, Option, none, some,
  if◌then◌else◌, ◌-◌,
}
use attos.Net.Wire.{Result, ok, fatal, require, ◌>>◌}
use attos.Net.Device.{Device, Socket, inaddr_any}

-- Does the socket take what is sent to this address and port?
abbrev pub matches : Socket → ℕ → ℕ → Bool
matches s local_addr local_port =
    (s.addr == inaddr_any || s.addr == local_addr) && s.port == local_port

unfoldable pub find_open_udp_socket : List Socket → ℕ → ℕ → Option Socket
find_open_udp_socket [] local_addr local_port = none
find_open_udp_socket (s ∷ ss) local_addr local_port =
    if matches s local_addr local_port
    then some s
    else find_open_udp_socket ss local_addr local_port

-- `udp_sockets_.erase(find_open_udp_socket(..))`
unfoldable pub erase_socket : List Socket → ℕ → ℕ → List Socket
erase_socket [] local_addr local_port = []
erase_socket (s ∷ ss) local_addr local_port =
    if matches s local_addr local_port then ss else s ∷ erase_socket ss local_addr local_port

abbrev pub is_none {ℓ} : {A : Type ℓ} → Option A → Bool
is_none none = true
is_none (some a) = false

-- The search for an unused port from `local_port` on, in `rounds` steps.
unfoldable pub search_port : List Socket → ℕ → ℕ → ℕ → ℕ
search_port ss local_addr zero local_port = local_port
search_port ss local_addr (suc rounds) local_port =
    let further = search_port ss local_addr rounds (local_port + 1) in
    if is_none (find_open_udp_socket ss local_addr local_port) then local_port else further

-- The port that `udp_open` settles on: 0 asks for one between 49152 and 65535.
unfoldable pub choose_port : List Socket → ℕ → ℕ → ℕ
choose_port ss local_addr local_port =
    if local_port == 0 then search_port ss local_addr (65535 - 49152) 49152 else local_port

unfoldable pub udp_open : Device → ℕ → ℕ → Result (Device × Socket)
udp_open d local_addr local_port = do
  let port = choose_port d.sockets local_addr local_port
  require (local_addr == d.config.addr || local_addr == inaddr_any)
  require (is_none (find_open_udp_socket d.sockets local_addr port))
  let s : Socket = record { addr = local_addr; port = port }
  ok (record d { sockets = d.sockets ++ s ∷ [] }, s)

unfoldable pub udp_close : Device → ℕ → ℕ → Result Device
udp_close d local_addr port = elim (find_open_udp_socket d.sockets local_addr port) [
  | none ↦ fatal
  | some s ↦ ok (record d { sockets = erase_socket d.sockets local_addr port })
]
