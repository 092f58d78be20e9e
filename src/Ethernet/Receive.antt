-- ===== src/Ethernet/Receive.antt =====
-- The receive descriptors of `i825x_ethernet_device` in kernel/i825x.cpp, and `do_process_packets`.
use attos.Common.{
  ℕ, zero, suc, ◌+◌, ◌/◌, ◌%◌, ◌==◌, Bool, if◌then◌else◌, Option, some, ◌>>=◌, ◌>>◌, require, List,
  [], ◌∷◌, ◌++◌, not, take,
}

abbrev pub num_rx_descriptors : ℕ
num_rx_descriptors = 16

-- `rx_desc` with the buffer that belongs to it.
pub record RxDesc : Type 0 where
  pub status : ℕ
  pub errors : ℕ
  pub length : ℕ
  pub buffer : List ℕ

-- The part of the device that receives: `rdt` is what RDT0 was last set to.
pub record Receiver : Type 0 where
  pub rx_desc : ℕ → RxDesc
  pub rx_head : ℕ
  pub rdt : ℕ

-- `RXD_STAT_DD`, `RXD_STAT_EOP`
abbrev pub is_done : RxDesc → Bool
is_done d = d.status % 2 == 1

abbrev pub is_end_of_packet : RxDesc → Bool
is_end_of_packet d = d.status / 2 % 2 == 1

abbrev pub set_desc : (ℕ → RxDesc) → ℕ → RxDesc → ℕ → RxDesc
set_desc descs i d k = if k == i then d else descs k

-- What `ppf` is called with.
abbrev pub handed_over : RxDesc → List (List ℕ)
handed_over d = if d.errors == 0 then take d.length d.buffer ∷ [] else []

-- The descriptor at the head goes back to the device.
abbrev pub release : Receiver → Receiver
release r = record {
  rx_desc = set_desc r.rx_desc r.rx_head (record (r.rx_desc r.rx_head) { status = 0 });
  rx_head = (r.rx_head + 1) % num_rx_descriptors;
  rdt = r.rx_head;
}

-- The loop: the packets that are handed over, in their order.
unfoldable pub process_rounds : ℕ → Receiver → Option (List (List ℕ) × Receiver)
process_rounds zero r = some ([], r)
process_rounds (suc n) r =
    let d = r.rx_desc r.rx_head in
    let round =
      require (is_end_of_packet d)
      >> (process_rounds n (release r) >>= λ (rest, r'). some (handed_over d ++ rest, r')) in
    if is_done d then round else some ([], r)

unfoldable pub do_process_packets : ℕ → Receiver → Option (List (List ℕ) × Receiver)
do_process_packets max_packets r = require (not (max_packets == 0)) >> process_rounds max_packets r
