-- ===== src/Net/Resolution.antt =====
-- An ARP request and its answer between two hosts.
use attos.Common.{
  ℕ, ◌^◌, ◌<◌, ◌≡◌, ◌≢◌, refl, ap, ◌∙◌, List, [], ◌∷◌, ◌++◌, none, some, true, false, Bool-cases,
  Option-cases, inl, inr, arith, if◌then◌else◌, ◌==◌,
}
use attos.Net.Wire.{Bytes, Mac, broadcast, mac_eq, ok, read}
use attos.Net.Device.{Device, ArpEntry, Event, inaddr_any}
use attos.Net.Arp.{
  ArpHeader, arp_request, arp_reply, find_arp_entry, update_arp_entry, add_arp_entry, send_arp,
  arp_is_valid, merge_arp, arp_in, arp_header_at,
}
use attos.Net.Frames.{eth_in}

-- What the table says of a host: its hardware address.
abbrev pub Knows : Device → ℕ → Mac → Type 0
Knows d ip m =
    (e : ArpEntry) × (find_arp_entry d.arp_entries ip ≡ some e) × (e.ha ≡ m) × (e.pa ≡ ip)

find-update :
    (es : List ArpEntry) (ip : ℕ) (m : Mac) (e : ArpEntry)
    → find_arp_entry es ip ≡ some e
    → find_arp_entry (update_arp_entry es ip m) ip ≡ some (record e { ha = m })
unfolding find_arp_entry update_arp_entry
find-update [] ip m e h = cc
find-update (x ∷ xs) ip m e h = ground (arith, find-update xs ip m e)

find-add :
    (es : List ArpEntry) (ip : ℕ) (m : Mac)
    → find_arp_entry es ip ≡ none
    → find_arp_entry (es ++ record { pa = ip; ha = m } ∷ []) ip ≡ some (record { pa = ip; ha = m })
unfolding find_arp_entry
find-add [] ip m h = ground arith
find-add (x ∷ xs) ip m h = ground (arith, find-add xs ip m)

find-pa : (es : List ArpEntry) (ip : ℕ) (e : ArpEntry) → find_arp_entry es ip ≡ some e → e.pa ≡ ip
unfolding find_arp_entry
find-pa [] ip e h = cc
find-pa (x ∷ xs) ip e h = ground (arith, find-pa xs ip e)

mac_eq_refl : (m n : Mac) → mac_eq m n ≡ true → m ≡ n
mac_eq_refl m n h = ground arith

-- A valid packet for this host's address: afterwards the sender is known by the address in the
-- packet, whether it was known before or not, and the rest of the host is as it was.
arp_in_target :
    (d : Device) (ah : ArpHeader)
    → arp_is_valid ah ≡ true
    → d.config.addr ≢ inaddr_any
    → d.config.addr ≡ ah.tpa
    → (d' : Device) × (arp_in d ah
        ≡ ok (
          d',
          if ah.oper == arp_request then send_arp d arp_reply ah.tpa ah.sha ah.spa ∷ [] else [],
        ))
      × Knows d' ah.spa ah.sha
      × (d'.hw ≡ d.hw)
      × (d'.config ≡ d.config)
      × (d'.sockets ≡ d.sockets)
unfolding arp_in merge_arp add_arp_entry
arp_in_target d ah valid set target = elim (Option-cases (find_arp_entry d.arp_entries ah.spa)) [
  | inl unknown ↦ (
    record d { arp_entries = d.arp_entries ++ record { pa = ah.spa; ha = ah.sha } ∷ [] },
    ground arith,
    (record { pa = ah.spa; ha = ah.sha }, find-add d.arp_entries ah.spa ah.sha unknown, refl, refl),
    refl,
    refl,
    refl,
  )
  | inr (e, known) ↦ elim (Bool-cases (mac_eq e.ha ah.sha)) [
    | inl same ↦ (
      d,
      ground arith,
      (e, known, mac_eq_refl e.ha ah.sha same, find-pa d.arp_entries ah.spa e known),
      refl,
      refl,
      refl,
    )
    | inr changed ↦ (
      record d { arp_entries = update_arp_entry d.arp_entries ah.spa ah.sha },
      ground arith,
      (
        record e { ha = ah.sha },
        find-update d.arp_entries ah.spa ah.sha e known,
        refl,
        find-pa d.arp_entries ah.spa e known,
      ),
      refl,
      refl,
      refl,
    )
  ]
]

abbrev pub event_bytes : Event → Bytes
event_bytes (Event.sent f) = f
event_bytes (Event.received s f) = f

-- A frame that `send_arp` makes is read back by `eth_in` as the packet that it was made of.
eth_in-send_arp :
    (d s : Device) (oper spa : ℕ) (tha : Mac) (tpa : ℕ)
    → oper < 2 ^ 16
    → spa < 2 ^ 32
    → tpa < 2 ^ 32
    → eth_in d (event_bytes (send_arp s oper spa tha tpa))
      ≡ arp_in d (record {
        htype = 1;
        ptype = 0x0800;
        hlen = 6;
        plen = 4;
        oper = oper;
        sha = s.hw;
        spa = spa;
        tha = tha;
        tpa = tpa;
      })
unfolding eth_in read send_arp arp_header_at
eth_in-send_arp d s oper spa tha tpa ho hs ht = ap (arp_in d) (ground arith)

-- Two hosts that are configured and whose hardware addresses are not the broadcast address: one
-- asks for the hardware address of the other. The other takes the request in, comes to know the
-- asker, and answers; the asker takes the answer in, sends nothing more, and knows the other.
pub arp_resolves :
    (a b : Device)
    → a.config.addr ≢ inaddr_any
    → b.config.addr ≢ inaddr_any
    → a.config.addr < 2 ^ 32
    → b.config.addr < 2 ^ 32
    → mac_eq a.hw broadcast ≡ false
    → mac_eq b.hw broadcast ≡ false
    → (a' b' : Device) × (answer : Event) × (eth_in b
          (event_bytes (send_arp a arp_request a.config.addr broadcast b.config.addr))
        ≡ ok (b', answer ∷ []))
      × (eth_in a (event_bytes answer) ≡ ok (a', []))
      × Knows b' a.config.addr a.hw
      × Knows a' b.config.addr b.hw
arp_resolves a b sa sb la lb ha hb =
    let asked : ArpHeader = record {
      htype = 1;
      ptype = 0x0800;
      hlen = 6;
      plen = 4;
      oper = arp_request;
      sha = a.hw;
      spa = a.config.addr;
      tha = broadcast;
      tpa = b.config.addr;
    } in
    let answered : ArpHeader = record {
      htype = 1;
      ptype = 0x0800;
      hlen = 6;
      plen = 4;
      oper = arp_reply;
      sha = b.hw;
      spa = b.config.addr;
      tha = a.hw;
      tpa = a.config.addr;
    } in
    let answer : Event = send_arp b arp_reply b.config.addr a.hw a.config.addr in
    let (b', eb, kb, _, _, _) = arp_in_target b asked (unfold arp_is_valid in rw ha refl) sb refl in
    let (a', ea, ka, _, _, _) =
      arp_in_target a answered (unfold arp_is_valid in rw hb refl) sa refl in
    (
      a',
      b',
      send_arp b arp_reply b.config.addr a.hw a.config.addr,
      eth_in-send_arp b a arp_request a.config.addr broadcast b.config.addr (omega arith) la lb
          ∙ eb,
      eth_in-send_arp a b arp_reply b.config.addr a.hw a.config.addr (omega arith) lb la ∙ ea,
      kb,
      ka,
    )
