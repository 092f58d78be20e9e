-- ===== src/Ethernet/Reception.antt =====
-- Packets from the wire to the handler: kernel/i825x.cpp with the device that fills its ring.
use attos.Common.{
  ℕ, ◌+◌, ◌*◌, ◌%◌, ◌≤◌, ◌≡◌, ◌≢◌, refl, sym, ap, ◌∙◌, ◌==◌, true, false, if◌then◌else◌, some, ◌>>◌,
  require, List, [], ◌∷◌, ◌++◌, take, drop, length, arith, subst, not, take-append-drop, take_all,
  length-append, bind-some, require-some,
}
use mathlib.Core.List.{append_assoc}
use attos.Ethernet.Receive.{
  RxDesc, Receiver, num_rx_descriptors, is_done, set_desc, process_rounds, do_process_packets,
}
use attos.Ethernet.Ring.{
  Packet, Holds, Held-set, Held-append, IsRing, delivered, all_delivered, process_rounds-IsRing,
}
use attos.Ethernet.Reset.{Layout, Registers, reset, reset_requested, wait_reset, empty_receiver}
use attos.Ethernet.Transmit.{Transmitter}

-- The descriptor in which the device has stored a packet, with the two bits of its status set.
abbrev pub stored : Receiver → ℕ → ℕ → Packet → Receiver
stored r next flags p = record r {
  rx_desc =
      set_desc r.rx_desc next
        (record { status = flags * 4 + 3; errors = p.errors; length = p.length; buffer = p.bytes });
}

-- A run of the driver with the device: the next descriptor of the device, the packets from the wire and those
-- handed over. The device stores a packet where RDH0 points, unless that is where RDT0 points, and goes on; this
-- is what the data sheet says of it.
pub data Run : Receiver → ℕ → List Packet → List (List ℕ) → Type 0 where
  started : (l : Layout) → Run (empty_receiver l) 0 [] []
  arrives :
      (r : Receiver) (next flags : ℕ) (p : Packet) (wire : List Packet) (out : List (List ℕ))
      → Run r next wire out
      → next ≢ r.rdt
      → Run (stored r next flags p) ((next + 1) % num_rx_descriptors) (wire ++ p ∷ []) out
  processed :
      (r r' : Receiver) (next max_packets : ℕ) (wire : List Packet) (out more : List (List ℕ))
      → Run r next wire out
      → do_process_packets max_packets r ≡ some (more, r')
      → Run r' next wire (out ++ more)

empty_receiver-IsRing : (l : Layout) → IsRing 0 (empty_receiver l) []
empty_receiver-IsRing l = record {
  head = omega arith;
  tail = refl;
  next_at = refl;
  room = omega arith;
  held = tt;
  free = λ k low high. refl;
}

stored-IsRing :
    (r : Receiver) (next flags : ℕ) (p : Packet) (pending : List Packet)
    → IsRing next r pending
    → next ≢ r.rdt
    → IsRing ((next + 1) % num_rx_descriptors) (stored r next flags p) (pending ++ p ∷ [])
stored-IsRing r next flags p pending v free =
    let longer : length (pending ++ p ∷ []) ≡ length pending + 1 = length-append pending (p ∷ []) in
    let d : RxDesc = record {
      status = flags * 4 + 3;
      errors = p.errors;
      length = p.length;
      buffer = p.bytes;
    } in
    let here : ((r.rx_head + length pending) % num_rx_descriptors == next) ≡ true =
      ground (arith, v.next_at) in
    record {
      head = v.head;
      tail = v.tail;
      next_at = omega (arith, v.next_at, longer);
      room = omega (arith, longer, v.next_at, v.room, v.tail, free);
      held =
          Held-append (stored r next flags p).rx_desc r.rx_head pending p
            (Held-set r.rx_desc r.rx_head next d pending
              (λ k lt e. omega (arith, e, lt, v.next_at, v.room)) v.held)
            (subst
              (λ b.
                Holds
                  (if b then d else r.rx_desc ((r.rx_head + length pending) % num_rx_descriptors))
                  p)
              (sym here) (ground arith, ground arith, refl, refl, refl));
      free = λ k low high.
          (let other : ((r.rx_head + k) % num_rx_descriptors == next) ≡ false =
              ground (arith, low, high, longer, v.next_at, v.head) in
            ap (λ b. is_done (if b then d else r.rx_desc ((r.rx_head + k) % num_rx_descriptors)))
              other
            ∙ v.free k (omega (arith, low, longer)) high);
    }

all_delivered-append :
    (ps qs : List Packet) → all_delivered (ps ++ qs) ≡ all_delivered ps ++ all_delivered qs
all_delivered-append [] qs = refl
all_delivered-append (p ∷ ps) qs =
    ap (λ l. delivered p ++ l) (all_delivered-append ps qs)
    ∙ sym (append_assoc (delivered p) (all_delivered ps) (all_delivered qs))

-- In every run, the packets handed over are the first of those from the wire, without the bad ones and in their
-- order; those that follow are in the ring.
pub Run-IsRing :
    (r : Receiver) (next : ℕ) (wire : List Packet) (out : List (List ℕ))
    → Run r next wire out
    → (past pending : List Packet) × (wire ≡ past ++ pending)
      × (out ≡ all_delivered past)
      × IsRing next r pending
unfolding do_process_packets
Run-IsRing r next wire out (started l) = ([], [], refl, refl, empty_receiver-IsRing l)
Run-IsRing r next wire out (arrives s before flags p w o run free) =
    let (past, pending, split, sent, ring) = Run-IsRing s before w o run in
    (
      past,
      pending ++ p ∷ [],
      ap (λ l. l ++ p ∷ []) split ∙ append_assoc past pending (p ∷ []),
      sent,
      stored-IsRing s before flags p pending ring free,
    )
Run-IsRing r next wire out (processed s r' n max_packets w o more run e) =
    let (past, pending, split, sent, ring) = Run-IsRing s n w o run in
    let (r'', done, ring') = process_rounds-IsRing max_packets n s pending ring in
    let rounds = require-some (not (max_packets == 0)) _ _ e in
    let same : some (all_delivered (take max_packets pending), r'') ≡ some (more, r') =
      sym done ∙ rounds.1 in
    let same_more : all_delivered (take max_packets pending) ≡ more = ground (arith, same) in
    let same_r : r'' ≡ r' = ground (arith, same) in
    (
      past ++ take max_packets pending,
      drop max_packets pending,
      split
          ∙ ap (λ l. past ++ l) (sym (take-append-drop max_packets pending))
          ∙ sym (append_assoc past (take max_packets pending) (drop max_packets pending)),
      ap (λ l. l ++ more) sent
          ∙ ap (λ l. all_delivered past ++ l) (sym same_more)
          ∙ sym (all_delivered-append past (take max_packets pending)),
      subst (λ x. IsRing n x (drop max_packets pending)) same_r ring',
    )

-- Whatever has happened, a call of do_process_packets for 15 packets or more succeeds, and after it every
-- packet from the wire that is without errors has been handed over, once and in order.
pub do_process_packets-Run :
    (r : Receiver) (next max_packets : ℕ) (wire : List Packet) (out : List (List ℕ))
    → Run r next wire out
    → 15 ≤ max_packets
    → (r' : Receiver) × (more : List (List ℕ)) × (do_process_packets max_packets r
        ≡ some (more, r'))
      × (out ++ more ≡ all_delivered wire)
unfolding do_process_packets
do_process_packets-Run r next max_packets wire out run enough =
    let (past, pending, split, sent, ring) = Run-IsRing r next wire out run in
    let (r', done, ring') = process_rounds-IsRing max_packets next r pending ring in
    let every : take max_packets pending ≡ pending =
      take_all max_packets pending (omega (arith, ring.room, enough)) in
    let positive : not (max_packets == 0) ≡ true = ground (arith, enough) in
    (
      r',
      all_delivered pending,
      ap (λ b. require b >> process_rounds max_packets r) positive
          ∙ done
          ∙ ap (λ l. some (all_delivered l, r')) every,
      ap (λ l. l ++ all_delivered pending) sent
          ∙ sym (all_delivered-append past pending)
          ∙ ap all_delivered (sym split),
    )

-- A run starts with what `reset` leaves.
pub reset-Run :
    {S : Type 0} (registers : Registers S) (l : Layout) (s s' : S) (r : Receiver) (t : Transmitter)
    → reset registers l s ≡ some (s', r, t)
    → Run r 0 [] []
unfolding reset
reset-Run registers l s s' r t e =
    let b = bind-some (wait_reset registers 1000 (reset_requested registers s)) _ _ e in
    let c = require-some (l.tx_desc_phys % 16 == 0) _ _ b.2 in
    let same : empty_receiver l ≡ r = ground (arith, c.1) in
    subst (λ x. Run x 0 [] []) same (started l)
