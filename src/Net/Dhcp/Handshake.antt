-- ===== src/Net/Dhcp/Handshake.antt =====
-- A server that offers and acknowledges a lease, and the handler of the client.
use attos.Common.{
  ℕ, suc, ◌^◌, ◌≤◌, ◌<◌, ◌≡◌, ◌≢◌, refl, ap, ◌∙◌, true, [], ◌∷◌, ◌++◌, length, replicate, arith,
  inl, drop, length-append, le→leb, lt→ltb, eq→==, ne→!=,
}
use attos.Net.Wire.{Bytes, Mac, broadcast, mac_bytes, be32, be32_at, ok, mac_eq}
use attos.Net.Device.{Device, Event, inaddr_any, inaddr_broadcast}
use attos.Net.Ipv4.{next_hop, frame}
use attos.Net.Delivery.{sendto_resolved, datagram}
use attos.Net.Dhcp.Reply.{
  ParseResult, finished, parse_reply, parse_options, on_option, at_end, header_is_valid,
  with_server, transaction_id, dhcp_magic_cookie, message_type, offer, ack, subnet_mask, router,
  server_identifier, end_option,
}
use attos.Net.Dhcp.Handler.{
  Handler, wait_for_offer, wait_for_ack, done, finish_request, send_dhcp_request, on_offer, on_ack,
  dhcp_in, dispatch, offered, start_request, continue_with, put_option, dhcp_socket, dhcp_dst_port,
  request_timeout,
}

-- A server's answer to a client with this hardware address.
abbrev pub server_reply : Mac → ℕ → ℕ → ℕ → Bytes → Bytes
server_reply hw type yiaddr siaddr options =
    2 ∷ 1 ∷ 6 ∷ 0 ∷ be32 transaction_id
    ++ (replicate 8 0
        ++ (be32 yiaddr
            ++ (be32 siaddr
                ++ (be32 0
                    ++ (mac_bytes hw
                        ++ (replicate 202 0
                            ++ (be32 dhcp_magic_cookie ++ message_type ∷ 1 ∷ type ∷ options)))))))

abbrev pub lease_options : ℕ → ℕ → ℕ → Bytes
lease_options mask gateway server =
    put_option subnet_mask mask
    ++ (put_option router gateway ++ (put_option server_identifier server ++ end_option ∷ []))

abbrev pub lease_result : ℕ → ℕ → ℕ → ℕ → ParseResult
lease_result yiaddr mask gateway server = record {
  yiaddr = yiaddr;
  server_id = server;
  netmask = mask;
  router_addr = gateway;
}

lease_options_read :
    (fuel mask gateway server : ℕ) (res : ParseResult)
    → mask < 2 ^ 32
    → gateway < 2 ^ 32
    → server < 2 ^ 32
    → server ≢ inaddr_any
    → server ≢ inaddr_broadcast
    → parse_options (suc (suc (suc (suc fuel)))) res (lease_options mask gateway server)
      ≡ finished (ok (lease_result res.yiaddr mask gateway server))
unfolding parse_options on_option at_end put_option
lease_options_read fuel mask gateway server res hm hg hs n1 n2 = ground arith

mac_eq_self : (m : Mac) → mac_eq m m ≡ true
mac_eq_self m = ground arith

pub server_reply_valid :
    (hw : Mac) (type yiaddr siaddr : ℕ) (options : Bytes)
    → header_is_valid hw type (server_reply hw type yiaddr siaddr options) ≡ true
unfolding header_is_valid
server_reply_valid hw type yiaddr siaddr options = rw (mac_eq_self hw) (ground arith)

abbrev pub first_result : Bytes → ParseResult
first_result bs = record {
  yiaddr = be32_at bs 16;
  server_id = inaddr_any;
  netmask = inaddr_any;
  router_addr = inaddr_any;
}

with_server_set : (s : ℕ) (res : ParseResult) → res.server_id ≢ inaddr_any → with_server s res ≡ res
unfolding with_server
with_server_set s res n = ground arith

pub parse_reply_steps :
    (fuel : ℕ) (hw : Mac) (expected : ℕ) (bs : Bytes) (res : ParseResult)
    → 244 ≤ length bs
    → header_is_valid hw expected bs ≡ true
    → parse_options fuel (first_result bs) (drop 243 bs) ≡ finished (ok res)
    → res.server_id ≢ inaddr_any
    → parse_reply fuel hw expected bs ≡ finished (ok res)
unfolding parse_reply
parse_reply_steps fuel hw expected bs res long valid options n =
    rw (le→leb 244 (length bs) long, valid, options)
      (ap (λ r. finished (ok r)) (with_server_set (be32_at bs 20) res n))

-- With fuel for four options, `parse_reply` reads from a server's answer, with a netmask, a router
-- and the server's identifier (not 0.0.0.0 nor 255.255.255.255) as its options, what the server put
-- there.
pub parse_reply-server_reply :
    (fuel : ℕ) (hw : Mac) (type yiaddr siaddr mask gateway server : ℕ)
    → yiaddr < 2 ^ 32
    → mask < 2 ^ 32
    → gateway < 2 ^ 32
    → server < 2 ^ 32
    → server ≢ inaddr_any
    → server ≢ inaddr_broadcast
    → parse_reply
        (suc (suc (suc (suc fuel))))
        hw
        type
        (server_reply hw type yiaddr siaddr (lease_options mask gateway server))
      ≡ finished (ok (lease_result yiaddr mask gateway server))
unfolding put_option
parse_reply-server_reply fuel hw type yiaddr siaddr mask gateway server hy hm hg hs n1 n2 =
    let bs : Bytes = server_reply hw type yiaddr siaddr (lease_options mask gateway server) in
    let same : (first_result bs).yiaddr ≡ yiaddr = omega arith in
    parse_reply_steps (suc (suc (suc (suc fuel)))) hw type bs
      (lease_result yiaddr mask gateway server) (omega arith)
      (server_reply_valid hw type yiaddr siaddr (lease_options mask gateway server))
      (lease_options_read fuel mask gateway server (first_result bs) hm hg hs n1 n2
        ∙ ap (λ y. finished (ok (lease_result y mask gateway server))) same)
      n1

-- The frame of a client's message: from port 68 of 0.0.0.0 to port 67 of all hosts.
abbrev pub dhcp_frame : Device → Bytes → Event
dhcp_frame d message = frame d broadcast (datagram 0 68 0xffffffff 67 message)

-- The message that asks for an address that a server has offered, byte by byte: BOOTREQUEST on Ethernet
-- with the broadcast flag, the cookie, message type 3, the address (option 50), the server (option 54).
abbrev pub request_message : Mac → ℕ → ℕ → Bytes
request_message hw addr server =
    1 ∷ 1 ∷ 6 ∷ 0 ∷ be32 transaction_id
    ++ (0 ∷ 0 ∷ 0x80 ∷ 0 ∷ replicate 16 0
        ++ (mac_bytes hw
            ++ (replicate 202 0
                ++ (0x63 ∷ 0x82 ∷ 0x53 ∷ 0x63 ∷ 53 ∷ 1 ∷ 3 ∷ 50 ∷ 4 ∷ be32 addr
                    ++ (54 ∷ 4 ∷ be32 server ++ 255 ∷ [])))))

pub finish_request_sends :
    (d : Device) (h : Handler) (bs : Bytes)
    → 243 ≤ length bs
    → length bs < 511
    → finish_request d h bs
      ≡ ok (record h { timeout = request_timeout }, dhcp_frame d (bs ++ end_option ∷ []) ∷ [])
unfolding finish_request next_hop
finish_request_sends d h bs lo hi =
    rw
      (
        le→leb 243 (length bs) lo,
        lt→ltb (length bs) 511 hi,
        sendto_resolved d dhcp_socket inaddr_broadcast dhcp_dst_port (bs ++ end_option ∷ [])
            broadcast (omega (arith, length-append bs (end_option ∷ []))) (omega arith)
            (inl (refl, refl)),
      )
      refl

length-request :
    (d : Device) (addr server : ℕ)
    → length (start_request d.hw 3 0x8000 ++ (put_option 50 addr ++ put_option 54 server)) ≡ 255
unfolding start_request put_option
length-request d addr server = refl

request_lem :
    (hw : Mac) (addr server : ℕ)
    → (start_request hw 3 0x8000 ++ (put_option 50 addr ++ put_option 54 server)) ++ end_option ∷ []
      ≡ request_message hw addr server
unfolding start_request put_option
request_lem hw addr server = refl

on_offer_sends :
    (d : Device) (h : Handler) (pr : ParseResult)
    → pr.yiaddr ≢ inaddr_any
    → pr.yiaddr ≢ inaddr_broadcast
    → on_offer d h pr
      ≡ ok (
        record { config = offered pr; state = wait_for_ack; timeout = request_timeout },
        dhcp_frame d (request_message d.hw pr.yiaddr pr.server_id) ∷ [],
      )
unfolding on_offer send_dhcp_request
on_offer_sends d h pr n1 n2 =
    let sends =
      finish_request_sends d (record h { config = offered pr; state = wait_for_ack })
        (start_request d.hw 3 0x8000 ++ (put_option 50 pr.yiaddr ++ put_option 54 pr.server_id))
        (omega (arith, length-request d pr.yiaddr pr.server_id))
        (omega (arith, length-request d pr.yiaddr pr.server_id)) in
    rw
      (
        ne→!= pr.yiaddr inaddr_any n1,
        ne→!= pr.yiaddr inaddr_broadcast n2,
        sends,
        request_lem d.hw pr.yiaddr pr.server_id,
      )
      refl

offer_step :
    (fuel : ℕ) (d : Device) (h : Handler) (bs : Bytes) (pr : ParseResult)
    → h.state ≡ wait_for_offer
    → parse_reply fuel d.hw offer bs ≡ finished (ok pr)
    → dhcp_in fuel d h bs ≡ finished (on_offer d h pr)
unfolding dhcp_in dispatch
offer_step fuel d h bs pr st po =
    ap (λ s. dispatch fuel d h s bs) st ∙ ap (λ p. continue_with p (on_offer d h)) po

ack_step :
    (fuel : ℕ) (d : Device) (h : Handler) (bs : Bytes) (pr : ParseResult)
    → h.state ≡ wait_for_ack
    → parse_reply fuel d.hw ack bs ≡ finished (ok pr)
    → pr.yiaddr ≡ h.config.addr
    → dhcp_in fuel d h bs ≡ finished (ok (record h { state = done }, []))
unfolding dhcp_in on_ack
ack_step fuel d h bs pr st po e =
    rw (st, dispatch) (rw po (rw (eq→== pr.yiaddr h.config.addr e) refl))

-- A handler that waits for an offer gets an offer, with a netmask that is not 0.0.0.0 and addresses
-- of client and server that are neither 0.0.0.0 nor 255.255.255.255, and then an acknowledgement of
-- the same address. With fuel for four options it sends one frame, the request for the address that was
-- offered to the server that offered it, ends, and holds the configuration that the server's packets said.
pub lease :
    (fuel : ℕ) (d : Device) (h : Handler) (yiaddr siaddr mask gateway server : ℕ)
    → h.state ≡ wait_for_offer
    → yiaddr < 2 ^ 32
    → mask < 2 ^ 32
    → gateway < 2 ^ 32
    → server < 2 ^ 32
    → server ≢ inaddr_any
    → server ≢ inaddr_broadcast
    → yiaddr ≢ inaddr_any
    → yiaddr ≢ inaddr_broadcast
    → mask ≢ inaddr_any
    → (h1 h2 : Handler) × (dhcp_in
          (suc (suc (suc (suc fuel))))
          d
          h
          (server_reply d.hw offer yiaddr siaddr (lease_options mask gateway server))
        ≡ finished (ok (h1, dhcp_frame d (request_message d.hw yiaddr server) ∷ [])))
      × (dhcp_in
            (suc (suc (suc (suc fuel))))
            d
            h1
            (server_reply d.hw ack yiaddr siaddr (lease_options mask gateway server))
          ≡ finished (ok (h2, [])))
      × (h2.state ≡ done)
      × (h2.config ≡ record { addr = yiaddr; netmask = mask; gateway = gateway })
lease fuel d h yiaddr siaddr mask gateway server st hy hm hg hs n1 n2 n3 n4 n5 =
    let pr : ParseResult = lease_result yiaddr mask gateway server in
    let h1 : Handler = record {
      config = offered pr;
      state = wait_for_ack;
      timeout = request_timeout;
    } in
    let asks = on_offer_sends d h pr n3 n4 in
    (
      h1,
      record h1 { state = done },
      offer_step (suc (suc (suc (suc fuel)))) d h _ pr st (
            parse_reply-server_reply fuel d.hw offer yiaddr siaddr mask gateway server hy hm hg hs
              n1 n2)
          ∙ ap finished asks,
      ack_step (suc (suc (suc (suc fuel)))) d h1 _ pr refl
          (parse_reply-server_reply fuel d.hw ack yiaddr siaddr mask gateway server hy hm hg hs n1
            n2)
          refl,
      refl,
      ground arith,
    )
