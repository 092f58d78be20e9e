-- ===== src/Net/Ports.antt =====
-- The table of open UDP sockets over `udp_open` and `udp_close`.
use attos.Common.{
  ℕ, zero, suc, ◌+◌, ◌≤◌, ◌≡◌, ◌≢◌, refl, ap, sym, subst, false, List, [], ◌∷◌, ◌++◌, none, some,
  arith, ◌⊎◌,
}
use attos.Net.Wire.{ok}
use attos.Net.Device.{Device, Socket}
use attos.Net.Sockets.{
  matches, find_open_udp_socket, erase_socket, search_port, choose_port, udp_open, udp_close,
}

-- The socket takes nothing that is sent to one of the list.
abbrev pub Clear : Socket → List Socket → Type 0
Clear s [] = Unit {0}
Clear s (t ∷ ts) = (matches s t.addr t.port ≡ false) × Clear s ts

-- No socket stands in the way of a later one: each is the first that takes its own address and port.
abbrev pub NoShadow : List Socket → Type 0
NoShadow [] = Unit {0}
NoShadow (s ∷ ss) = Clear s ss × NoShadow ss

Clear-append :
    (s t : Socket) (ss : List Socket)
    → Clear s ss
    → matches s t.addr t.port ≡ false
    → Clear s (ss ++ t ∷ [])
Clear-append s t [] c h = (h, tt)
Clear-append s t (x ∷ xs) c h = (c.0, Clear-append s t xs c.1 h)

NoShadow-append :
    (t : Socket) (ss : List Socket)
    → NoShadow ss
    → find_open_udp_socket ss t.addr t.port ≡ none
    → NoShadow (ss ++ t ∷ [])
unfolding find_open_udp_socket
NoShadow-append t [] n h = (tt, tt)
NoShadow-append t (x ∷ xs) n h =
    let passed : matches x t.addr t.port ≡ false = ground arith in
    let later : find_open_udp_socket xs t.addr t.port ≡ none = ground arith in
    (Clear-append x t xs n.0 passed, NoShadow-append t xs n.1 later)

find-append :
    (t : Socket) (ss : List Socket)
    → find_open_udp_socket ss t.addr t.port ≡ none
    → find_open_udp_socket (ss ++ t ∷ []) t.addr t.port ≡ some t
unfolding find_open_udp_socket
find-append t [] h = ground arith
find-append t (x ∷ xs) h = ground (arith, find-append t xs)

search_port_range :
    (ss : List Socket) (addr rounds port : ℕ)
    → (port ≤ search_port ss addr rounds port) × (search_port ss addr rounds port ≤ port + rounds)
unfolding search_port
search_port_range ss addr zero port = omega arith
search_port_range ss addr (suc rounds) port =
    ground (arith, search_port_range ss addr rounds (port + 1))

choose_port_range :
    (ss : List Socket) (addr port : ℕ)
    → ((port ≢ 0) × (choose_port ss addr port ≡ port))
      ⊎ ((port ≡ 0) × (49152 ≤ choose_port ss addr port) × (choose_port ss addr port ≤ 65535))
unfolding choose_port
choose_port_range ss addr port = ground (arith, search_port_range ss addr 16383 49152)

-- Where no socket of the table stands in the way of another, `udp_open`, if it succeeds, adds one
-- socket, at the end, which then takes what is sent to its address and port, and none is in the way
-- of another still. A port that the caller leaves open is between 49152 and 65535.
pub udp_open_adds :
    (d d' : Device) (addr port : ℕ) (s : Socket)
    → NoShadow d.sockets
    → udp_open d addr port ≡ ok (d', s)
    → NoShadow d'.sockets
      × (d'.sockets ≡ d.sockets ++ s ∷ [])
      × (find_open_udp_socket d'.sockets s.addr s.port ≡ some s)
      × (s.addr ≡ addr)
      × (((port ≢ 0) × (s.port ≡ port)) ⊎ ((port ≡ 0) × (49152 ≤ s.port) × (s.port ≤ 65535)))
unfolding udp_open
udp_open_adds d d' addr port s n e =
    let new : Socket = record { addr = addr; port = choose_port d.sockets addr port } in
    let free : find_open_udp_socket d.sockets new.addr new.port ≡ none =
      unfold choose_port in ground arith in
    let same : s ≡ new = unfold choose_port in ground arith in
    let out : d'.sockets ≡ d.sockets ++ new ∷ [] = unfold choose_port in ground arith in
    (
      subst NoShadow (sym out) (NoShadow-append new d.sockets n free),
      rw same out,
      rw (same, out) (find-append new d.sockets free),
      rw same refl,
      rw same (choose_port_range d.sockets addr port),
    )

Clear-middle :
    (x : Socket) (before after : List Socket) (s : Socket)
    → Clear x (before ++ s ∷ after)
    → matches x s.addr s.port ≡ false
Clear-middle x [] after s c = c.0
Clear-middle x (y ∷ ys) after s c = Clear-middle x ys after s c.1

Clear-without :
    (x : Socket) (before after : List Socket) (s : Socket)
    → Clear x (before ++ s ∷ after)
    → Clear x (before ++ after)
Clear-without x [] after s c = c.1
Clear-without x (y ∷ ys) after s c = (c.0, Clear-without x ys after s c.1)

NoShadow-without :
    (before after : List Socket) (s : Socket)
    → NoShadow (before ++ s ∷ after)
    → NoShadow (before ++ after)
NoShadow-without [] after s n = n.1
NoShadow-without (x ∷ xs) after s n =
    (Clear-without x xs after s n.0, NoShadow-without xs after s n.1)

erase_middle :
    (before after : List Socket) (s : Socket)
    → NoShadow (before ++ s ∷ after)
    → (find_open_udp_socket (before ++ s ∷ after) s.addr s.port ≡ some s)
      × (erase_socket (before ++ s ∷ after) s.addr s.port ≡ before ++ after)
unfolding find_open_udp_socket erase_socket
erase_middle [] after s n = ground arith
erase_middle (x ∷ xs) after s n =
    let passed = Clear-middle x xs after s n.0 in
    let rest = erase_middle xs after s n.1 in (rw passed rest.0, rw passed (ap (λ l. x ∷ l) rest.1))

-- Where no socket of the table stands in the way of another, `udp_close` with the address and port
-- of an open socket removes that socket and no other.
pub udp_close_removes :
    (d : Device) (before after : List Socket) (s : Socket)
    → d.sockets ≡ before ++ s ∷ after
    → NoShadow d.sockets
    → (udp_close d s.addr s.port ≡ ok (record d { sockets = before ++ after }))
      × NoShadow (before ++ after)
unfolding udp_close
udp_close_removes d before after s e n =
    let n' = subst NoShadow e n in
    let r = erase_middle before after s n' in
    (
      ground (
        arith,
        r.0,
        r.1,
        ap (λ l. find_open_udp_socket l s.addr s.port) e,
        ap (λ l. erase_socket l s.addr s.port) e,
      ),
      NoShadow-without before after s n',
    )
