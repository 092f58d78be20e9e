-- ===== src/Net/Dhcp/Handler.antt =====
-- The state machine of `dhcp_handler`, and the loop of `do_dhcp` (attos/net/tftp.cpp).
use attos.Common.{
  ℕ, ◌-◌, ◌==◌, ◌!=◌, ◌&&◌, Bool, true, false, List, [], ◌∷◌, ◌++◌, if◌then◌else◌, leb, ltb, length,
  replicate,
}
use attos.Net.Wire.{Bytes, Mac, mac_bytes, be16, be32, Result, ok, fatal, require, ◌>>=◌, ◌>>◌}
use attos.Net.Device.{
  Device, Socket, NetConfig, config_none, Event, inaddr_any, inaddr_broadcast, ipv4_address,
  set_config,
}
use attos.Net.Ipv4.{sendto}
use attos.Net.Dhcp.Reply.{
  ParseResult, Progress, finished, spinning, and_then, parse_reply, transaction_id,
  dhcp_magic_cookie, dhcp_header_size, message_type, requested_ip, server_identifier, end_option,
  discover, offer, request, ack,
}

pub data State : Type 0 where
  wait_for_offer wait_for_ack done : State

pub record Handler : Type 0 where
  pub config : NetConfig
  pub state : State
  pub timeout : ℕ

abbrev pub dhcp_src_port : ℕ
dhcp_src_port = 68

abbrev pub dhcp_dst_port : ℕ
dhcp_dst_port = 67

abbrev pub bootp_broadcast_flag : ℕ
bootp_broadcast_flag = 0x8000

abbrev pub request_timeout : ℕ
request_timeout = 50

-- The socket that the handler has opened.
abbrev pub dhcp_socket : Socket
dhcp_socket = record { addr = inaddr_any; port = dhcp_src_port }

-- The `dhcp_header` that `start_request` fills in: all other fields are 0.
unfoldable pub start_request : Mac → ℕ → ℕ → Bytes
start_request hw type flags =
    1 ∷ 1 ∷ 6 ∷ 0 ∷ be32 transaction_id
    ++ (be16 0
        ++ (be16 flags
            ++ (replicate 16 0
                ++ (mac_bytes hw
                    ++ (replicate 202 0
                        ++ (be32 dhcp_magic_cookie ++ message_type ∷ 1 ∷ type ∷ []))))))

unfoldable pub put_option : ℕ → ℕ → Bytes
put_option opt addr = opt ∷ 4 ∷ be32 addr

-- `finish_request`: the packet must leave room in the 512 bytes of `buffer_`.
unfoldable pub finish_request : Device → Handler → Bytes → Result (Handler × List Event)
finish_request d h bs = do
  require (leb dhcp_header_size (length bs) && ltb (length bs) (512 - 1))
  e ← sendto d dhcp_socket inaddr_broadcast dhcp_dst_port (bs ++ end_option ∷ [])
  ok (record h { timeout = request_timeout }, e ∷ [])

unfoldable pub send_dhcp_discover : Device → Handler → Result (Handler × List Event)
send_dhcp_discover d h =
    finish_request d h (start_request d.hw discover bootp_broadcast_flag) >>= λ r.
    ok (record r.0 { state = wait_for_offer }, r.1)

unfoldable pub send_dhcp_request : Device → Handler → ℕ → ℕ → Result (Handler × List Event)
send_dhcp_request d h addr server_id =
    finish_request d h (
      start_request d.hw request bootp_broadcast_flag
      ++ (put_option requested_ip addr ++ put_option server_identifier server_id))
    >>= λ r. ok (record r.0 { state = wait_for_ack }, r.1)

-- The configuration that an offer makes: without a netmask it is 255.255.255.0.
abbrev pub offered : ParseResult → NetConfig
offered pr = record {
  addr = pr.yiaddr;
  netmask = if pr.netmask == inaddr_any then ipv4_address 255 255 255 0 else pr.netmask;
  gateway = pr.router_addr;
}

unfoldable pub on_offer : Device → Handler → ParseResult → Result (Handler × List Event)
on_offer d h pr = do
  require (pr.yiaddr != inaddr_any && pr.yiaddr != inaddr_broadcast)
  send_dhcp_request d (record h { config = offered pr; state = wait_for_ack }) pr.yiaddr
      pr.server_id

unfoldable pub on_ack : Handler → ParseResult → Result (Handler × List Event)
on_ack h pr = do require (pr.yiaddr == h.config.addr); ok (record h { state = done }, [])

abbrev pub continue_with {ℓ κ} :
    {A : Type ℓ} {B : Type κ} → Progress A → (A → Result B) → Progress B
continue_with (finished r) k = finished (r >>= k)
continue_with spinning k = spinning

-- `dhcp_in`. When all is done, packets are ignored.
unfoldable pub dispatch : ℕ → Device → Handler → State → Bytes → Progress (Handler × List Event)
dispatch fuel d h wait_for_offer bs = continue_with (parse_reply fuel d.hw offer bs) (on_offer d h)
dispatch fuel d h wait_for_ack bs = continue_with (parse_reply fuel d.hw ack bs) (on_ack h)
dispatch fuel d h done bs = finished (ok (h, []))

unfoldable pub dhcp_in : ℕ → Device → Handler → Bytes → Progress (Handler × List Event)
unfolding dispatch
dhcp_in fuel d h bs = dispatch fuel d h h.state bs

unfoldable pub tick : Device → Handler → Result (Handler × List Event)
tick d h =
    let late = send_dhcp_discover d (record h { timeout = 0 }) in
    if h.timeout == 0
    then ok (h, [])
    else if h.timeout - 1 == 0
    then late
    else ok (record h { timeout = h.timeout - 1 }, [])

-- The constructor of the handler.
unfoldable pub start : Device → Result (Handler × List Event)
start d =
    send_dhcp_discover d (record { config = config_none; state = wait_for_offer; timeout = 0 })

abbrev pub is_finished : State → Bool
is_finished done = true
is_finished _ = false

-- The packets of one round of `do_dhcp` that reach the handler's socket.
unfoldable pub receive_all : ℕ → Device → Handler → List Bytes → Progress Handler
receive_all fuel d h [] = finished (ok h)
receive_all fuel d h (p ∷ ps) = elim (dhcp_in fuel d h p) [
  | finished (ok r) ↦ receive_all fuel d r.0 ps
  | finished Result.fatal ↦ finished fatal
  | finished Result.out_of_bounds ↦ finished Result.out_of_bounds
  | spinning ↦ spinning
]

-- `do_dhcp`: the packets of each round until `should_quit`. The result says whether the device has
-- been configured.
unfoldable pub do_dhcp : ℕ → Device → Handler → List (List Bytes) → Progress (Bool × Device)
do_dhcp fuel d h [] = finished (ok (false, d))
do_dhcp fuel d h (arrived ∷ rounds) =
    let configured = and_then (set_config d h.config) λ d'. finished (ok (true, d')) in
    let waiting : Progress (Bool × Device) = and_then (tick d h) λ r.
      elim (receive_all fuel d r.0 arrived) [
        | finished (ok h') ↦ do_dhcp fuel d h' rounds
        | finished Result.fatal ↦ finished fatal
        | finished Result.out_of_bounds ↦ finished Result.out_of_bounds
        | spinning ↦ spinning
      ] in
    if is_finished h.state then configured else waiting
