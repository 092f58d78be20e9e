-- ===== src/Net/Dhcp/Unknown.antt =====
-- Options that the client of attos/net/tftp.cpp does not know.
use attos.Common.{ℕ, suc, ◌^◌, ◌<◌, ◌≡◌, ◌≢◌, ap, ◌∙◌, [], ◌∷◌, ◌++◌, arith, ◌⊎◌}
use attos.Net.Wire.{Bytes, Mac, ok}
use attos.Net.Device.{inaddr_any, inaddr_broadcast}
use attos.Net.Dhcp.Reply.{
  ParseResult, finished, parse_reply, parse_options, on_option, at_end, subnet_mask, router,
  domain_name_server, domain_name, broadcast_address, netbios_name_server, lease_time,
  server_identifier, renewal_time, rebinding_time, end_option, padding,
}
use attos.Net.Dhcp.Handler.{put_option}
use attos.Net.Dhcp.Handshake.{
  server_reply, lease_result, first_result, parse_reply_steps, server_reply_valid,
}

-- The options that the switch of `parse_reply` has a case for, the padding and the end.
abbrev pub IsKnown : ℕ → Type 0
IsKnown type =
    (type ≡ subnet_mask)
    ⊎ (type ≡ router)
    ⊎ (type ≡ domain_name_server)
    ⊎ (type ≡ domain_name)
    ⊎ (type ≡ broadcast_address)
    ⊎ (type ≡ netbios_name_server)
    ⊎ (type ≡ lease_time)
    ⊎ (type ≡ server_identifier)
    ⊎ (type ≡ renewal_time)
    ⊎ (type ≡ rebinding_time)
    ⊎ (type ≡ padding)
    ⊎ (type ≡ end_option)

abbrev pub options_with : ℕ → ℕ → ℕ → ℕ → ℕ → Bytes
options_with mask gateway server type value =
    put_option subnet_mask mask
    ++ (put_option router gateway
        ++ (put_option server_identifier server ++ (put_option type value ++ end_option ∷ [])))

options_with_read :
    (fuel mask gateway server type value : ℕ) (res : ParseResult)
    → mask < 2 ^ 32
    → gateway < 2 ^ 32
    → server < 2 ^ 32
    → value < 2 ^ 32
    → server ≢ inaddr_any
    → server ≢ inaddr_broadcast
    → ¬ IsKnown type
    → parse_options
        (suc (suc (suc (suc (suc fuel)))))
        res
        (options_with mask gateway server type value)
      ≡ finished (ok (lease_result res.yiaddr value gateway server))
unfolding parse_options on_option at_end put_option
options_with_read fuel mask gateway server type value res hm hg hs hd n1 n2 unknown = ground arith

-- A server's answer of four options: a netmask, a router, the server's identifier (neither 0.0.0.0 nor
-- 255.255.255.255), and one that the client does not know, of four bytes. The client takes the bytes of the unknown
-- option for the netmask, whatever the netmask was, and the rest of the answer as it is.
pub unknown_option_replaces_netmask :
    (fuel : ℕ) (hw : Mac) (kind yiaddr siaddr mask gateway server type value : ℕ)
    → yiaddr < 2 ^ 32
    → mask < 2 ^ 32
    → gateway < 2 ^ 32
    → server < 2 ^ 32
    → value < 2 ^ 32
    → server ≢ inaddr_any
    → server ≢ inaddr_broadcast
    → ¬ IsKnown type
    → parse_reply
        (suc (suc (suc (suc (suc fuel)))))
        hw
        kind
        (server_reply hw kind yiaddr siaddr (options_with mask gateway server type value))
      ≡ finished (ok (lease_result yiaddr value gateway server))
unfolding put_option
unknown_option_replaces_netmask fuel hw kind yiaddr siaddr mask gateway server type value hy hm hg
      hs hd n1 n2 unknown =
    let options : Bytes = options_with mask gateway server type value in
    let bs : Bytes = server_reply hw kind yiaddr siaddr options in
    let same : (first_result bs).yiaddr ≡ yiaddr = omega arith in
    parse_reply_steps (suc (suc (suc (suc (suc fuel))))) hw kind bs
      (lease_result yiaddr value gateway server) (omega arith)
      (server_reply_valid hw kind yiaddr siaddr options)
      (options_with_read fuel mask gateway server type value (first_result bs) hm hg hs hd n1 n2
          unknown
        ∙ ap (λ y. finished (ok (lease_result y value gateway server))) same)
      n1
