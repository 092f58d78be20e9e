-- ===== src/Net/Dhcp/Reply.antt =====
-- `parse_reply` of `dhcp_handler` (attos/net/tftp.cpp), with the option codes of attos/net/net.h.
use attos.Common.{
  ℕ, zero, suc, ◌+◌, ◌%◌, ◌==◌, ◌!=◌, ◌&&◌, Bool, if◌then◌else◌, leb, ltb, length, drop,
}
use attos.Net.Wire.{Bytes, Mac, mac_at, mac_eq, byte_at, be32_at, Result, ok, fatal, require, ◌>>◌}
use attos.Net.Device.{inaddr_any, inaddr_broadcast}

abbrev pub transaction_id : ℕ
transaction_id = 0x2A2A2A2A

abbrev pub dhcp_magic_cookie : ℕ
dhcp_magic_cookie = 0x63825363

-- `sizeof(dhcp_header)`
abbrev pub dhcp_header_size : ℕ
dhcp_header_size = 243

-- `dhcp_option`
abbrev pub padding : ℕ
padding = 0

abbrev pub subnet_mask : ℕ
subnet_mask = 1

abbrev pub router : ℕ
router = 3

abbrev pub domain_name_server : ℕ
domain_name_server = 6

abbrev pub domain_name : ℕ
domain_name = 15

abbrev pub broadcast_address : ℕ
broadcast_address = 28

abbrev pub netbios_name_server : ℕ
netbios_name_server = 44

abbrev pub requested_ip : ℕ
requested_ip = 50

abbrev pub lease_time : ℕ
lease_time = 51

abbrev pub message_type : ℕ
message_type = 53

abbrev pub server_identifier : ℕ
server_identifier = 54

abbrev pub renewal_time : ℕ
renewal_time = 58

abbrev pub rebinding_time : ℕ
rebinding_time = 59

abbrev pub end_option : ℕ
end_option = 255

-- `dhcp_message_type`
abbrev pub discover : ℕ
discover = 1

abbrev pub offer : ℕ
offer = 2

abbrev pub request : ℕ
request = 3

abbrev pub ack : ℕ
ack = 5

-- `dhcp_parse_result`; of the header the handler uses `yiaddr` alone.
pub record ParseResult : Type 0 where
  pub yiaddr : ℕ
  pub server_id : ℕ
  pub netmask : ℕ
  pub router_addr : ℕ

-- The `switch` on an option. Its `default` has no `break`, and goes on into `subnet_mask`.
unfoldable pub on_option : ParseResult → ℕ → ℕ → Bytes → Result ParseResult
on_option res type len bs =
    let fixed = require (len == 4) >> ok res in
    let addresses = require (leb 4 len && len % 4 == 0) >> ok res in
    if type == router
    then require (leb 4 len && len % 4 == 0) >> ok (record res { router_addr = be32_at bs 0 })
    else if type == domain_name_server
    then addresses
    else if type == domain_name
    then require (ltb 0 len) >> ok res
    else if type == broadcast_address
    then fixed
    else if type == netbios_name_server
    then addresses
    else if type == lease_time
    then fixed
    else if type == server_identifier
    then require (len == 4)
      >> (require (be32_at bs 0 != inaddr_any && be32_at bs 0 != inaddr_broadcast)
          >> ok (record res { server_id = be32_at bs 0 }))
    else if type == renewal_time
    then fixed
    else if type == rebinding_time
    then fixed
    else require (len == 4) >> ok (record res { netmask = be32_at bs 0 })

-- A loop on fuel: `spinning` when the fuel has run out.
pub data Progress {ℓ} (A : Type ℓ) : Type ℓ where
  finished : Result A → Progress A
  spinning : Progress A

abbrev pub and_then {ℓ κ} : {A : Type ℓ} {B : Type κ} → Result A → (A → Progress B) → Progress B
and_then (ok a) f = f a
and_then Result.fatal f = finished fatal
and_then Result.out_of_bounds f = finished Result.out_of_bounds

-- The check behind the loop.
unfoldable pub at_end : ParseResult → Bytes → Result ParseResult
at_end res bs = require (leb 1 (length bs) && byte_at bs 0 == 0xff) >> ok res

-- The loop over the options. A padding option is `continue`, with nothing consumed.
unfoldable pub parse_options : ℕ → ParseResult → Bytes → Progress ParseResult
parse_options zero res bs = spinning
parse_options (suc fuel) res bs =
    let again = parse_options fuel res bs in
    let type = byte_at bs 0 in
    let len = byte_at bs 1 in
    let option = require (leb (len + 2) (length bs)) >> on_option res type len (drop 2 bs) in
    let next = and_then option λ res'. parse_options fuel res' (drop len (drop 2 bs)) in
    if ltb 1 (length bs)
    then if type == padding
      then again
      else if type == end_option
      then finished (at_end res bs)
      else next
    else finished (at_end res bs)

-- The header's fields, in the order of the checks.
unfoldable pub header_is_valid : Mac → ℕ → Bytes → Bool
header_is_valid hw expected bs =
    byte_at bs 0 == 2
    && byte_at bs 1 == 1
    && byte_at bs 2 == 6
    && be32_at bs 4 == transaction_id
    && mac_eq (mac_at bs 28) hw
    && be32_at bs 236 == dhcp_magic_cookie
    && byte_at bs 240 == message_type
    && byte_at bs 241 == 1
    && byte_at bs 242 == expected
    && be32_at bs 24 == inaddr_any

-- Without a server identifier the server is `siaddr`.
unfoldable pub with_server : ℕ → ParseResult → ParseResult
with_server siaddr res =
    if res.server_id == inaddr_any then record res { server_id = siaddr } else res

unfoldable pub parse_reply : ℕ → Mac → ℕ → Bytes → Progress ParseResult
parse_reply fuel hw expected bs =
    let start : ParseResult = record {
      yiaddr = be32_at bs 16;
      server_id = inaddr_any;
      netmask = inaddr_any;
      router_addr = inaddr_any;
    } in
    and_then (require (leb (dhcp_header_size + 1) (length bs))) λ _.
      and_then (require (header_is_valid hw expected bs)) λ _.
        elim (parse_options fuel start (drop dhcp_header_size bs)) [
          | finished (ok res) ↦ finished (ok (with_server (be32_at bs 20) res))
          | other ↦ other
        ]
