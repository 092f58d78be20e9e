-- ===== src/Net/Dhcp/Lease.antt =====
-- The configuration that the handler ends with, on a history of packets and ticks.
use attos.Common.{ℕ, ◌≡◌, ◌≢◌, refl, List, arith, ◌⊎◌, inl, inr}
use attos.Net.Wire.{Bytes, Result, ok, fatal}
use attos.Net.Device.{Device, NetConfig, Event, inaddr_any, inaddr_broadcast, set_config}
use attos.Net.Dhcp.Reply.{ParseResult, Progress, finished, spinning, parse_reply, offer, ack}
use attos.Net.Dhcp.Handler.{
  Handler, State, wait_for_offer, wait_for_ack, done, finish_request, send_dhcp_discover,
  send_dhcp_request, on_offer, on_ack, dhcp_in, dispatch, tick, start, continue_with, offered,
}

abbrev pub IsUsable : NetConfig → Type 0
IsUsable c = (c.addr ≢ inaddr_any) × (c.addr ≢ inaddr_broadcast) × (c.netmask ≢ inaddr_any)

-- Once an offer has been taken the configuration is usable.
abbrev pub Inv : Handler → Type 0
Inv h = (h.state ≡ wait_for_offer) ⊎ IsUsable h.config

finish_request-keeps :
    (d : Device) (h h' : Handler) (bs : Bytes) (es : List Event)
    → finish_request d h bs ≡ ok (h', es)
    → h'.config ≡ h.config
unfolding finish_request
finish_request-keeps d h h' bs es e = ground arith

discover-Inv :
    (d : Device) (h h' : Handler) (es : List Event)
    → send_dhcp_discover d h ≡ ok (h', es)
    → h'.state ≡ wait_for_offer
unfolding send_dhcp_discover
discover-Inv d h h' es e = ground arith

request-keeps :
    (d : Device) (h h' : Handler) (addr server : ℕ) (es : List Event)
    → send_dhcp_request d h addr server ≡ ok (h', es)
    → (h'.config ≡ h.config) × (h'.state ≡ wait_for_ack)
unfolding send_dhcp_request finish_request
request-keeps d h h' addr server es e = ground arith

on_offer-IsUsable :
    (d : Device) (h h' : Handler) (pr : ParseResult) (es : List Event)
    → on_offer d h pr ≡ ok (h', es)
    → IsUsable h'.config × (h'.config ≡ offered pr) × (h'.state ≡ wait_for_ack)
unfolding on_offer
on_offer-IsUsable d h h' pr es e = ground (
  arith,
  request-keeps d (record h { config = offered pr; state = wait_for_ack }) h' pr.yiaddr pr.server_id
      es,
)

on_ack-Inv :
    (h h' : Handler) (pr : ParseResult) (es : List Event)
    → on_ack h pr ≡ ok (h', es)
    → (h'.config ≡ h.config) × (h'.state ≡ done)
unfolding on_ack
on_ack-Inv h h' pr es e = ground arith

tick-Inv : (d : Device) (h h' : Handler) (es : List Event) → Inv h → tick d h ≡ ok (h', es) → Inv h'
unfolding tick
tick-Inv d h h' es v e = ground (arith, discover-Inv d (record h { timeout = 0 }) h' es)

offer_cases :
    (d : Device) (h h' : Handler) (es : List Event) (p : Progress ParseResult)
    → continue_with p (on_offer d h) ≡ finished (ok (h', es))
    → Inv h'
offer_cases d h h' es (finished (ok pr)) e = inr (ground (arith, on_offer-IsUsable d h h' pr es))
offer_cases d h h' es (finished fatal) e = cc
offer_cases d h h' es (finished Result.out_of_bounds) e = cc
offer_cases d h h' es spinning e = cc

ack_cases :
    (h h' : Handler) (es : List Event) (p : Progress ParseResult)
    → h.state ≡ wait_for_ack
    → Inv h
    → continue_with p (on_ack h) ≡ finished (ok (h', es))
    → Inv h'
ack_cases h h' es (finished (ok pr)) st v e = ground (arith, on_ack-Inv h h' pr es)
ack_cases h h' es (finished fatal) st v e = cc
ack_cases h h' es (finished Result.out_of_bounds) st v e = cc
ack_cases h h' es spinning st v e = cc

dispatch-Inv :
    (fuel : ℕ) (d : Device) (h h' : Handler) (s : State) (bs : Bytes) (es : List Event)
    → h.state ≡ s
    → Inv h
    → dispatch fuel d h s bs ≡ finished (ok (h', es))
    → Inv h'
unfolding dispatch
dispatch-Inv fuel d h h' wait_for_offer bs es st v e =
    offer_cases d h h' es (parse_reply fuel d.hw offer bs) e
dispatch-Inv fuel d h h' wait_for_ack bs es st v e =
    ack_cases h h' es (parse_reply fuel d.hw ack bs) st v e
dispatch-Inv fuel d h h' done bs es st v e = ground arith

-- What may happen to a handler: a tick of `do_dhcp`, or a packet.
pub data Step (d : Device) (h : Handler) : Handler → Type 0 where
  ticks : (h' : Handler) (es : List Event) → tick d h ≡ ok (h', es) → Step d h h'
  receives :
      (fuel : ℕ) (bs : Bytes) (h' : Handler) (es : List Event)
      → dhcp_in fuel d h bs ≡ finished (ok (h', es))
      → Step d h h'

pub data Reach (d : Device) (h : Handler) : Handler → Type 0 where
  here : Reach d h h
  next : {j k : Handler} → Reach d h j → Step d j k → Reach d h k

Step-Inv : (d : Device) {h h' : Handler} → Step d h h' → Inv h → Inv h'
Step-Inv d {h} (ticks h' es e) v = tick-Inv d h h' es v e
Step-Inv d {h} (receives fuel bs h' es e) v =
    dispatch-Inv fuel d h h' h.state bs es refl v (unfold dhcp_in in e)

Reach-Inv : (d : Device) {h h' : Handler} → Inv h → Reach d h h' → Inv h'
Reach-Inv d v here = v
Reach-Inv d v (next r s) = Step-Inv d s (Reach-Inv d v r)

-- A handler that has come from its start to the end, by any ticks and packets, holds a configuration
-- that the device takes, if it has none yet: the address is not 0.0.0.0 nor 255.255.255.255, and the
-- netmask is not 0.0.0.0.
pub done-set_config :
    (d : Device) (h h' : Handler) (es : List Event)
    → start d ≡ ok (h, es)
    → Reach d h h'
    → h'.state ≡ done
    → d.config.addr ≡ inaddr_any
    → (set_config d h'.config ≡ ok (record d { config = h'.config }))
      × (h'.config.addr ≢ inaddr_any)
      × (h'.config.addr ≢ inaddr_broadcast)
      × (h'.config.netmask ≢ inaddr_any)
unfolding set_config start
done-set_config d h h' es e r st free =
    ground (arith, Reach-Inv d (inl (discover-Inv d _ h es e)) r)
