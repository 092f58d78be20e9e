-- ===== src/Ethernet/Late.antt =====
-- A packet that is reported as sent after `do_send_packet` of kernel/i825x.cpp has given up on it.
use attos.Common.{
  ℕ, suc, ◌+◌, ◌%◌, ◌<◌, ◌≡◌, ◌≢◌, sym, ap, ◌∙◌, ◌==◌, Bool, true, false, leb, if◌then◌else◌,
  Option, none, some, ◌>>=◌, ◌>>◌, require, List, [], ◌∷◌, length, arith, Bool-cases, inl, inr, not,
  bind-some, require-some, if-true, if-false,
}
use attos.Ethernet.Transmit.{
  Transmitter, num_tx_descriptors, status_of, Answers, Outcome, dropped, timed_out, sent,
  command_of, set_tx_desc, wait_sent, prepared, do_send_packet,
}
use attos.Ethernet.Sending.{IsIdle}

pub record Request : Type 0 where
  pub answers : Answers
  pub addr : ℕ
  pub len : ℕ

abbrev pub was_sent : Outcome → Bool
was_sent dropped = false
was_sent timed_out = false
was_sent sent = true

-- Packets that are all sent, one after the other.
abbrev pub send_all : List Request → Transmitter → Option Transmitter
send_all [] t = some t
send_all (q ∷ qs) t = do_send_packet q.answers t q.addr q.len >>= λ (outcome, t').
    require (was_sent outcome) >> send_all qs t'

-- The device reports the packet of a descriptor as sent.
abbrev pub completed : Transmitter → ℕ → Transmitter
completed t slot = record t {
  tx_desc = set_tx_desc t.tx_desc slot (record (t.tx_desc slot) { upper = 1 });
}

settled :
    (o : Option ℕ) (tdh : ℕ) (p t' : Transmitter) (outcome : Outcome)
    → ◌≡◌ {A = Option (Outcome × Transmitter)}
        (elim o [
          | none ↦ some (timed_out, p)
          | some status ↦ require (status == 1) >> (require (tdh == p.tdt) >> some (sent, p))
        ])
        (some (outcome, t'))
    → p ≡ t'
settled none tdh p t' outcome e = ground (arith, e)
settled (some status) tdh p t' outcome e =
    let c = require-some (status == 1) _ _ e in
    let d = require-some (tdh == p.tdt) _ _ c.1 in ground (arith, d.1)

-- A call that returns and does not drop the packet has prepared its descriptor.
do_send_packet-prepared :
    (a : Answers) (t t' : Transmitter) (addr len : ℕ) (outcome : Outcome)
    → do_send_packet a t addr len ≡ some (outcome, t')
    → ¬ (outcome ≡ dropped)
    → prepared t addr len ≡ t'
unfolding do_send_packet
do_send_packet-prepared a t t' addr len outcome e kept =
    let c = require-some (leb len 1500) _ _ e in
    elim (Bool-cases (not a.link_up)) [
      | inl down ↦
          let gone : some (dropped, t) ≡ some (outcome, t') =
            if-true (not a.link_up) _ _ _ down c.1 in
          absurd (kept (ground (arith, gone)))
      | inr up ↦
          let d =
            require-some (status_of (t.tx_desc t.tx_tail) == 0) _ _
              (if-false (not a.link_up) _ _ _ up c.1) in
          settled (wait_sent a 0 100) a.tdh (prepared t addr len) t' outcome d.1
    ]

not_dropped : (outcome : Outcome) → was_sent outcome ≡ true → ¬ (outcome ≡ dropped)
not_dropped dropped was e = absurd cc
not_dropped timed_out was e = absurd cc
not_dropped sent was e = absurd cc

other_slot :
    (t : Transmitter) (addr len slot : ℕ)
    → t.tx_tail ≢ slot
    → (prepared t addr len).tx_desc slot ≡ t.tx_desc slot
other_slot t addr len slot n =
    (let other : (slot == t.tx_tail) ≡ false = ground (arith, n) in
      ap
        (λ b.
          if b
          then record { buffer_addr = addr; lower = command_of len; upper = 0 }
          else t.tx_desc slot)
        other)

send_all_keeps :
    (qs : List Request) (t t' : Transmitter) (slot : ℕ)
    → t.tx_tail < num_tx_descriptors
    → ((k : ℕ) → k < length qs → (t.tx_tail + k) % num_tx_descriptors ≢ slot)
    → send_all qs t ≡ some t'
    → (t'.tx_tail ≡ (t.tx_tail + length qs) % num_tx_descriptors)
      × (t'.tx_desc slot ≡ t.tx_desc slot)
send_all_keeps [] t t' slot small off e =
    let same : t ≡ t' = ground (arith, e) in
    (ap (λ x. x.tx_tail) (sym same) ∙ omega (arith, small), ap (λ x. x.tx_desc slot) (sym same))
send_all_keeps (q ∷ qs) t t' slot small off e =
    let b = bind-some (do_send_packet q.answers t q.addr q.len) _ _ e in
    let c = require-some (was_sent b.0.0) _ _ b.2 in
    let same : prepared t q.addr q.len ≡ b.0.1 =
      do_send_packet-prepared q.answers t b.0.1 q.addr q.len b.0.0 b.1 (not_dropped b.0.0 c.0) in
    let step =
      send_all_keeps qs (prepared t q.addr q.len) t' slot (omega arith)
        (λ k lt bad. off (suc k) (omega (arith, lt)) (omega (arith, bad)))
        (ap (send_all qs) same ∙ c.1) in
    (
      omega (arith, step.0),
      step.1
          ∙ other_slot t q.addr q.len slot (λ bad. off 0 (omega arith) (omega (arith, bad, small))),
    )

-- A packet times out while no other is in flight, and the device reports it as sent after that. Then, when 15
-- more packets have been sent, the next one stops the kernel, whatever the device answers while the link is up.
pub late_completion_stops :
    (a b : Answers) (t t1 t2 : Transmitter) (addr len addr' len' : ℕ) (qs : List Request)
    → IsIdle t
    → do_send_packet a t addr len ≡ some (timed_out, t1)
    → length qs ≡ 15
    → send_all qs (completed t1 t.tx_tail) ≡ some t2
    → b.link_up ≡ true
    → do_send_packet b t2 addr' len' ≡ none
unfolding do_send_packet
late_completion_stops a b t t1 t2 addr len addr' len' qs idle late count sends up =
    let slot : ℕ = t.tx_tail in
    let same : prepared t addr len ≡ t1 =
      do_send_packet-prepared a t t1 addr len timed_out late (λ e. absurd cc) in
    let after : (t1.tx_tail ≡ (slot + 1) % num_tx_descriptors) = ap (λ x. x.tx_tail) (sym same) in
    let (tail, kept) =
      send_all_keeps qs (completed t1 slot) t2 slot (omega (arith, after))
        (λ k lt bad. omega (arith, bad, lt, count, after, idle.tail)) sends in
    let back : t2.tx_tail ≡ slot = omega (arith, tail, count, after, idle.tail) in
    let mark : (completed t1 slot).tx_desc slot ≡ record (t1.tx_desc slot) { upper = 1 } =
      ground arith in
    let status : status_of (t2.tx_desc t2.tx_tail) ≡ 1 =
      ap (λ i. status_of (t2.tx_desc i)) back ∙ ap status_of kept ∙ ap status_of mark in
    ground (arith, status, up)
