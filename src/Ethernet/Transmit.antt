-- ===== src/Ethernet/Transmit.antt =====
-- The transmit descriptors of `i825x_ethernet_device` in kernel/i825x.cpp, and `do_send_packet`.
use attos.Common.{
  ℕ, zero, suc, ◌+◌, ◌%◌, ◌^◌, ◌==◌, Bool, leb, not, if◌then◌else◌, Option, none, some, ◌>>◌,
  require,
}

abbrev pub num_tx_descriptors : ℕ
num_tx_descriptors = 16

-- `tx_desc`: the words `lower` and `upper`, of which the low byte of `upper` is the status.
pub record TxDesc : Type 0 where
  pub buffer_addr : ℕ
  pub lower : ℕ
  pub upper : ℕ

-- The part of the device that sends: `tdt` is what TDT0 was last set to.
pub record Transmitter : Type 0 where
  pub tx_desc : ℕ → TxDesc
  pub tx_tail : ℕ
  pub tdt : ℕ

abbrev pub status_of : TxDesc → ℕ
status_of d = d.upper % 2 ^ 8

-- What the device shows during a call: the link in STATUS, the status byte of the descriptor at each look of
-- the loop, and TDH0 at the end.
pub record Answers : Type 0 where
  pub link_up : Bool
  pub status_at : ℕ → ℕ
  pub tdh : ℕ

pub data Outcome : Type 0 where
  dropped : Outcome
  timed_out : Outcome
  sent : Outcome

-- `length | TXD_CMD_RS | TXD_CMD_EOP | TXD_CMD_IFCS`, which share no bits with a length.
abbrev pub command_of : ℕ → ℕ
command_of len = len + 0x08000000 + 0x01000000 + 0x02000000

abbrev pub set_tx_desc : (ℕ → TxDesc) → ℕ → TxDesc → ℕ → TxDesc
set_tx_desc descs i d k = if k == i then d else descs k

-- The loop that waits for the status, from the look `at` on, with the value of `timeout`.
unfoldable pub wait_sent : Answers → ℕ → ℕ → Option ℕ
wait_sent a at zero = if a.status_at at == 0 then none else some (a.status_at at)
wait_sent a at (suc timeout) =
    let rest = wait_sent a (at + 1) timeout in
    if a.status_at at == 0 then rest else some (a.status_at at)

-- The descriptor at the tail, as it is prepared.
abbrev pub prepared : Transmitter → ℕ → ℕ → Transmitter
prepared t addr len = record {
  tx_desc =
      set_tx_desc t.tx_desc t.tx_tail
        (record { buffer_addr = addr; lower = command_of len; upper = 0 });
  tx_tail = (t.tx_tail + 1) % num_tx_descriptors;
  tdt = (t.tx_tail + 1) % num_tx_descriptors;
}

-- `addr` is the physical address of the data.
unfoldable pub do_send_packet : Answers → Transmitter → ℕ → ℕ → Option (Outcome × Transmitter)
do_send_packet a t addr len = do
  require (leb len 1500)
  if not a.link_up then some (dropped, t) else do
    require (status_of (t.tx_desc t.tx_tail) == 0)
    elim (wait_sent a 0 100) [
      | none ↦ some (timed_out, prepared t addr len)
      | some status ↦
          require (status == 1)
          >> (require (a.tdh == (prepared t addr len).tdt) >> some (sent, prepared t addr len))
    ]
