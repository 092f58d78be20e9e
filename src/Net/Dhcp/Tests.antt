-- ===== src/Net/Dhcp/Tests.antt =====
-- A lease of 10.0.0.1 by the server 10.0.0.2.
use attos.Common.{◌≡◌, ◌≢◌, refl, [], ◌∷◌, ◌++◌, arith, length}
use attos.Net.Wire.{Bytes, Mac, ok}
use attos.Net.Device.{Device, Event, config_none, set_config}
use attos.Net.Dhcp.Reply.{ParseResult, finished, spinning, parse_options, parse_reply}
use attos.Net.Dhcp.Handler.{
  Handler, wait_for_offer, done, start, dhcp_in, send_dhcp_discover, start_request,
}
use attos.Net.Dhcp.Options.{padding_spins, parse_options_fuel}
use attos.Net.Dhcp.Lease.{here, next, receives, done-set_config}
use attos.Net.Dhcp.Unknown.{options_with, unknown_option_replaces_netmask}
use attos.Net.Dhcp.Handshake.{
  lease_result, server_reply, lease_options, parse_reply-server_reply, lease, finish_request_sends,
  dhcp_frame, request_message,
}

abbrev hw : Mac
hw = record { b0 = 2; b1 = 0; b2 = 0; b3 = 0; b4 = 0; b5 = 1 }

abbrev device : Device
device = record { hw = hw; config = config_none; arp_entries = []; sockets = [] }

abbrev none_yet : ParseResult
none_yet = record { yiaddr = 0x0a000001; server_id = 0; netmask = 0; router_addr = 0 }

padding_spins_example : parse_options 9 none_yet (0 ∷ 255 ∷ 0 ∷ []) ≡ spinning
padding_spins_example = padding_spins 9 none_yet 255 (0 ∷ [])

parse_options_fuel_example :
    parse_options 4 none_yet (0 ∷ 255 ∷ 0 ∷ []) ≡ parse_options 9 none_yet (0 ∷ 255 ∷ 0 ∷ [])
parse_options_fuel_example =
    parse_options_fuel 4 9 none_yet (0 ∷ 255 ∷ 0 ∷ []) (omega arith) (omega arith)

parse_reply-server_reply_example :
    parse_reply 4 hw 2
      (server_reply hw 2 0x0a000001 0 (lease_options 0xffffff00 0x0a0000fe 0x0a000002))
    ≡ finished (
        ok (record {
          yiaddr = 0x0a000001;
          server_id = 0x0a000002;
          netmask = 0xffffff00;
          router_addr = 0x0a0000fe;
        }))
parse_reply-server_reply_example =
    parse_reply-server_reply 0 hw 2 0x0a000001 0 0xffffff00 0x0a0000fe 0x0a000002 (omega arith)
      (omega arith) (omega arith) (omega arith) (omega arith) (omega arith)

unknown_option_replaces_netmask_example :
    parse_reply 5 hw 2
      (server_reply hw 2 0x0a000001 0 (options_with 0xffffff00 0x0a0000fe 0x0a000002 42 0x0a000009))
    ≡ finished (ok (lease_result 0x0a000001 0x0a000009 0x0a0000fe 0x0a000002))
unknown_option_replaces_netmask_example =
    unknown_option_replaces_netmask 0 hw 2 0x0a000001 0 0xffffff00 0x0a0000fe 0x0a000002 42
      0x0a000009 (omega arith) (omega arith) (omega arith) (omega arith) (omega arith) (omega arith)
      (omega arith) (λ k. omega (arith, k))

abbrev waiting : Handler
waiting = record { config = config_none; state = wait_for_offer; timeout = 50 }

lease_example :
    (h1 h2 : Handler) × (dhcp_in 4 device waiting
        (server_reply hw 2 0x0a000001 0 (lease_options 0xffffff00 0x0a0000fe 0x0a000002))
      ≡ finished (ok (h1, dhcp_frame device (request_message hw 0x0a000001 0x0a000002) ∷ [])))
    × (dhcp_in 4 device h1
          (server_reply hw 5 0x0a000001 0 (lease_options 0xffffff00 0x0a0000fe 0x0a000002))
        ≡ finished (ok (h2, [])))
    × (h2.state ≡ done)
    × (h2.config ≡ record { addr = 0x0a000001; netmask = 0xffffff00; gateway = 0x0a0000fe })
lease_example =
    lease 0 device waiting 0x0a000001 0 0xffffff00 0x0a0000fe 0x0a000002 refl (omega arith)
      (omega arith) (omega arith) (omega arith) (omega arith) (omega arith) (omega arith)
      (omega arith) (omega arith)

started : (h : Handler) × (e : Event) × (start device ≡ ok (h, e ∷ [])) × (h.state ≡ wait_for_offer)
unfolding start send_dhcp_discover
started =
    let h : Handler = record { config = config_none; state = wait_for_offer; timeout = 0 } in
    let bs : Bytes = start_request hw 1 0x8000 in
    let size : length bs ≡ 243 = unfold start_request in refl in
    let sends = finish_request_sends device h bs (omega (arith, size)) (omega (arith, size)) in
    (record h { timeout = 50 }, dhcp_frame device (bs ++ 255 ∷ []), rw sends refl, refl)

abbrev leased :
    (h1 h2 : Handler) × (dhcp_in 4 device started.0
        (server_reply hw 2 0x0a000001 0 (lease_options 0xffffff00 0x0a0000fe 0x0a000002))
      ≡ finished (ok (h1, dhcp_frame device (request_message hw 0x0a000001 0x0a000002) ∷ [])))
    × (dhcp_in 4 device h1
          (server_reply hw 5 0x0a000001 0 (lease_options 0xffffff00 0x0a0000fe 0x0a000002))
        ≡ finished (ok (h2, [])))
    × (h2.state ≡ done)
    × (h2.config ≡ record { addr = 0x0a000001; netmask = 0xffffff00; gateway = 0x0a0000fe })
leased =
    lease 0 device started.0 0x0a000001 0 0xffffff00 0x0a0000fe 0x0a000002 started.3 (omega arith)
      (omega arith) (omega arith) (omega arith) (omega arith) (omega arith) (omega arith)
      (omega arith) (omega arith)

done-set_config_example :
    (set_config device leased.1.config ≡ ok (record device { config = leased.1.config }))
    × (leased.1.config.addr ≢ 0)
    × (leased.1.config.addr ≢ 0xffffffff)
    × (leased.1.config.netmask ≢ 0)
done-set_config_example =
    done-set_config device started.0 leased.1 (started.1 ∷ []) started.2
      (next
        (next here (
          receives 4 _ leased.0 (dhcp_frame device (request_message hw 0x0a000001 0x0a000002) ∷ [])
            leased.2))
        (receives 4 _ leased.1 [] leased.3))
      leased.4 refl
