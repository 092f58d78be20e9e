-- ===== src/Ethernet/Reset.antt =====
-- `reset` and `isr` of `i825x_ethernet_device` in kernel/i825x.cpp, over registers that are a parameter.
use attos.Common.{
  ℕ, zero, suc, ◌+◌, ◌-◌, ◌*◌, ◌/◌, ◌%◌, ◌^◌, ◌==◌, if◌then◌else◌, Option, none, some, ◌>>=◌, ◌>>◌,
  require, List, [], ◌∷◌, bit_and, bit_or, u32, get_or,
}
use attos.Ethernet.Receive.{Receiver, num_rx_descriptors}
use attos.Ethernet.Transmit.{Transmitter, num_tx_descriptors}

-- The registers of the device; reading one may change it.
pub record Registers (S : Type 0) : Type 0 where
  pub read : S → ℕ → ℕ × S
  pub write : S → ℕ → ℕ → S

-- The registers that `reset` and `isr` use.
abbrev pub ctrl : ℕ
ctrl = 0x00000

abbrev pub icr : ℕ
icr = 0x000C0

abbrev pub ctrl_rst : ℕ
ctrl_rst = 0x04000000

abbrev pub ctrl_phy_rst : ℕ
ctrl_phy_rst = 0x80000000

-- `x & ~mask` on 32 bits.
abbrev pub clear_bits : ℕ → ℕ → ℕ
clear_bits x mask = bit_and x (2 ^ 32 - 1 - mask)

-- Where the descriptors and buffers lie, and the address of the card.
pub record Layout : Type 0 where
  pub rx_desc_phys : ℕ
  pub tx_desc_phys : ℕ
  pub buffers : ℕ → List ℕ
  pub mac_addr : List ℕ

abbrev pub empty_receiver : Layout → Receiver
empty_receiver l = record {
  rx_desc = λ i. record { status = 0; errors = 0; length = 0; buffer = l.buffers i };
  rx_head = 0;
  rdt = num_rx_descriptors - 1;
}

abbrev pub empty_transmitter : Transmitter
empty_transmitter = record {
  tx_desc = λ i. record { buffer_addr = 0; lower = 0; upper = 0 };
  tx_tail = 0;
  tdt = 0;
}

module _ {S : Type 0} (registers : Registers S) where
  abbrev pub write_all : S → List (ℕ × ℕ) → S
  write_all s [] = s
  write_all s (w ∷ ws) = write_all (registers.write s w.0 w.1) ws

  -- The loop over the Multicast Table Array.
  abbrev pub clear_mta : ℕ → ℕ → S → S
  clear_mta at zero s = s
  clear_mta at (suc n) s = clear_mta (at + 1) n (registers.write s (0x05200 + at * 4) 0)

  unfoldable pub phy_reset : S → S
  phy_reset s =
      let orig = registers.read s ctrl in
      let held = registers.write orig.1 ctrl (bit_or (bit_or orig.0 ctrl_rst) ctrl_phy_rst) in
      registers.write held ctrl (clear_bits orig.0 ctrl_phy_rst)

  -- The loop that waits for the device to be reset, with the looks that are left.
  unfoldable pub wait_reset : ℕ → S → Option S
  wait_reset zero s = none
  wait_reset (suc n) s =
      let look = registers.read s ctrl in
      let rest = wait_reset n look.1 in if bit_and look.0 ctrl_rst == 0 then some look.1 else rest

  -- The address registers, the multicast table, the interrupt mask and the receive ring.
  unfoldable pub set_up_receive : Layout → S → S
  set_up_receive l s =
      let octet : ℕ → ℕ = λ i. get_or l.mac_addr i 0 in
      let named = write_all s (
        (0x05400, octet 0 + octet 1 * 2 ^ 8 + octet 2 * 2 ^ 16 + octet 3 * 2 ^ 24)
        ∷ (0x05404, octet 4 + octet 5 * 2 ^ 8 + 2 ^ 31)
        ∷ []) in
      write_all (clear_mta 0 128 named) (
        (0x000D8, 2 ^ 32 - 1)
        ∷ (0x000C0, 2 ^ 32 - 1)
        ∷ (0x000D0, 0x01 + 0x04 + 0x10 + 0x80)
        ∷ (0x02800, u32 l.rx_desc_phys)
        ∷ (0x02804, u32 (l.rx_desc_phys / 2 ^ 32))
        ∷ (0x02808, num_rx_descriptors * 16)
        ∷ (0x02810, 0)
        ∷ (0x02818, num_rx_descriptors - 1)
        ∷ (0x00100, 0x02 + 0x04 + 0x08 + 0x10 + 0x8000)
        ∷ [])

  unfoldable pub set_up_transmit : Layout → S → S
  set_up_transmit l s =
      let based = write_all s (
        (0x03800, u32 l.tx_desc_phys)
        ∷ (0x03804, u32 (l.tx_desc_phys / 2 ^ 32))
        ∷ (0x03808, num_tx_descriptors * 16)
        ∷ []) in
      let policy = registers.read based 0x03828 in
      let placed = write_all policy.1 (
        (0x03828, bit_or (bit_and policy.0 0x003F0000) 0x01010000)
        ∷ (0x03810, 0)
        ∷ (0x03818, 0)
        ∷ []) in
      let control = registers.read placed 0x00400 in
      registers.write control.1 0x00400 (bit_or (bit_or control.0 0x02) 0x08)

  -- The bit that resets the device is set, after the reset of the PHY.
  abbrev pub reset_requested : S → S
  reset_requested s =
      let first = registers.read (phy_reset s) ctrl in
      registers.write first.1 ctrl (bit_or first.0 ctrl_rst)

  unfoldable pub reset : Layout → S → Option (S × Receiver × Transmitter)
  reset l s = do
    s1 ← wait_reset 1000 (reset_requested s)
    let link = registers.read s1 ctrl
    let s2 =
        registers.write link.1 ctrl
          (bit_or (bit_or (clear_bits link.0 (0x08 + 0x80 + 0x40000000)) 0x20) 0x40)
    let s3 = set_up_receive l s2
    require (l.tx_desc_phys % 16 == 0)
    some (set_up_transmit l s3, empty_receiver l, empty_transmitter)

  unfoldable pub isr : S → S
  isr s = let cause = registers.read s icr in registers.write cause.1 icr cause.0
