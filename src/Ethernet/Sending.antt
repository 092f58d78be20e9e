-- ===== src/Ethernet/Sending.antt =====
-- Packets that are sent one after the other, in kernel/i825x.cpp.
use attos.Common.{
  ℕ, zero, suc, ◌+◌, ◌%◌, ◌≤◌, ◌<◌, ◌≡◌, refl, ap, ◌∙◌, ◌==◌, true, if◌then◌else◌, some, arith,
  Bool-cases, inl, inr, subst,
}
use attos.Ethernet.Transmit.{
  Transmitter, num_tx_descriptors, status_of, Answers, sent, command_of, wait_sent, prepared,
  do_send_packet,
}

-- The device is done with a packet at look `n` of the loop, and has fetched all descriptors.
pub record IsAnswer (a : Answers) (t : Transmitter) (n : ℕ) : Type 0 where
  pub up : a.link_up ≡ true
  pub waits : (k : ℕ) → k < n → a.status_at k ≡ 0
  pub done : a.status_at n ≡ 1
  pub fetched : a.tdh ≡ (t.tx_tail + 1) % num_tx_descriptors

-- No descriptor is in use.
pub record IsIdle (t : Transmitter) : Type 0 where
  pub tail : t.tx_tail < num_tx_descriptors
  pub told : t.tdt ≡ t.tx_tail
  pub free : (k : ℕ) → status_of (t.tx_desc k) ≡ 0

wait_sent_at :
    (a : Answers) (at n timeout : ℕ)
    → ((k : ℕ) → at ≤ k → k < at + n → a.status_at k ≡ 0)
    → a.status_at (at + n) ≡ 1
    → n ≤ timeout
    → wait_sent a at timeout ≡ some 1
unfolding wait_sent
wait_sent_at a at zero zero waits done le =
    (let here : a.status_at at ≡ 1 = subst (λ x. a.status_at x ≡ 1) (omega arith) done in
      ground (arith, here))
wait_sent_at a at zero (suc timeout) waits done le =
    (let here : a.status_at at ≡ 1 = subst (λ x. a.status_at x ≡ 1) (omega arith) done in
      ground (arith, here))
wait_sent_at a at (suc n) zero waits done le = absurd (omega (arith, le))
wait_sent_at a at (suc n) (suc timeout) waits done le =
    let here : a.status_at at ≡ 0 = waits at (omega arith) (omega arith) in
    let later =
      wait_sent_at a (at + 1) n timeout
        (λ k low high. waits k (omega (arith, low)) (omega (arith, high)))
        (subst (λ x. a.status_at x ≡ 1) (omega arith) done) (omega (arith, le)) in
    ground (arith, here, later)

-- If no descriptor is in use, the link is up, and the device reports the packet as sent within 100 halts, then
-- do_send_packet sends it: the descriptor at the tail has its address, length and command, the tail is one
-- further round the ring, and again no descriptor is in use, so that any number of packets can follow.
pub do_send_packet-IsIdle :
    (a : Answers) (t : Transmitter) (addr len n : ℕ)
    → IsIdle t
    → len ≤ 1500
    → IsAnswer a t n
    → n ≤ 100
    → (t' : Transmitter) × (do_send_packet a t addr len ≡ some (sent, t'))
      × IsIdle t'
      × (t'.tx_tail ≡ (t.tx_tail + 1) % num_tx_descriptors)
      × (t'.tx_desc t.tx_tail ≡ record { buffer_addr = addr; lower = command_of len; upper = 0 })
unfolding do_send_packet
do_send_packet-IsIdle a t addr len n idle short answer soon =
    let waited : wait_sent a 0 100 ≡ some 1 =
      wait_sent_at a 0 n 100 (λ k low high. answer.waits k (omega (arith, high)))
        (subst (λ x. a.status_at x ≡ 1) (omega arith) answer.done) soon in
    let unused : status_of (t.tx_desc t.tx_tail) ≡ 0 = idle.free t.tx_tail in
    (
      prepared t addr len,
      ground (arith, short, answer.up, unused, waited, answer.fetched),
      record {
        tail = omega arith;
        told = refl;
        free = λ k. elim (Bool-cases (k == t.tx_tail)) [
          | inl e ↦
              ap
                (λ b. status_of (
                  if b
                  then record { buffer_addr = addr; lower = command_of len; upper = 0 }
                  else t.tx_desc k))
                e
          | inr e ↦
              ap
                (λ b. status_of (
                  if b
                  then record { buffer_addr = addr; lower = command_of len; upper = 0 }
                  else t.tx_desc k))
                e
              ∙ idle.free k
        ];
      },
      refl,
      ground arith,
    )
