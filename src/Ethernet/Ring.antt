-- ===== src/Ethernet/Ring.antt =====
-- The receive ring of kernel/i825x.cpp: packets that the device has stored, in order, from the driver's head on.
use attos.Common.{
  ℕ, zero, suc, ◌+◌, ◌%◌, ◌≤◌, ◌<◌, ◌≡◌, ◌≢◌, refl, sym, ap, ◌∙◌, ◌==◌, true, false, if◌then◌else◌,
  some, List, [], ◌∷◌, ◌++◌, take, drop, length, arith, Bool-cases, inl, inr, subst,
}
use attos.Ethernet.Receive.{
  RxDesc, Receiver, num_rx_descriptors, is_done, is_end_of_packet, set_desc, handed_over, release,
  process_rounds,
}

-- A packet as the device stores it.
pub record Packet : Type 0 where
  pub errors : ℕ
  pub length : ℕ
  pub bytes : List ℕ

abbrev pub Holds : RxDesc → Packet → Type 0
Holds d p =
    (is_done d ≡ true)
    × (is_end_of_packet d ≡ true)
    × (d.errors ≡ p.errors)
    × (d.length ≡ p.length)
    × (d.buffer ≡ p.bytes)

-- Packets in consecutive descriptors.
abbrev pub Held : (ℕ → RxDesc) → ℕ → List Packet → Type 0
Held descs at [] = Unit
Held descs at (p ∷ ps) = Holds (descs (at % num_rx_descriptors)) p × Held descs (at + 1) ps

-- `next` is the descriptor that the device fills next.
pub record IsRing (next : ℕ) (r : Receiver) (pending : List Packet) : Type 0 where
  pub head : r.rx_head < num_rx_descriptors
  pub tail : r.rdt ≡ (r.rx_head + 15) % num_rx_descriptors
  pub next_at : next ≡ (r.rx_head + length pending) % num_rx_descriptors
  pub room : length pending ≤ 15
  pub held : Held r.rx_desc r.rx_head pending
  pub free :
      (k : ℕ)
      → length pending ≤ k
      → k < num_rx_descriptors
      → is_done (r.rx_desc ((r.rx_head + k) % num_rx_descriptors)) ≡ false

-- The packets that reach the handler: those without errors.
abbrev pub delivered : Packet → List (List ℕ)
delivered p = if p.errors == 0 then take p.length p.bytes ∷ [] else []

abbrev pub all_delivered : List Packet → List (List ℕ)
all_delivered [] = []
all_delivered (p ∷ ps) = delivered p ++ all_delivered ps

pub Held-mod :
    (descs : ℕ → RxDesc) (at at' : ℕ) (ps : List Packet)
    → at % num_rx_descriptors ≡ at' % num_rx_descriptors
    → Held descs at ps
    → Held descs at' ps
Held-mod descs at at' [] e h = h
Held-mod descs at at' (p ∷ ps) e (h, rest) = (
  subst (λ i. Holds (descs i) p) e h,
  Held-mod descs (at + 1) (at' + 1) ps (omega (arith, e)) rest,
)

-- A descriptor that holds none of the packets is changed.
pub Held-set :
    (descs : ℕ → RxDesc) (at i : ℕ) (d : RxDesc) (ps : List Packet)
    → ((k : ℕ) → k < length ps → (at + k) % num_rx_descriptors ≢ i)
    → Held descs at ps
    → Held (set_desc descs i d) at ps
Held-set descs at i d [] off h = h
Held-set descs at i d (p ∷ ps) off (h, rest) = (
  (let other : (at % num_rx_descriptors == i) ≡ false = ground (arith, off 0 (omega arith)) in
      subst (λ b. Holds (if b then d else descs (at % num_rx_descriptors)) p) (sym other) h),
  Held-set descs (at + 1) i d ps (λ k lt e. off (suc k) (omega (arith, lt)) (omega (arith, e)))
      rest,
)

pub Held-append :
    (descs : ℕ → RxDesc) (at : ℕ) (ps : List Packet) (p : Packet)
    → Held descs at ps
    → Holds (descs ((at + length ps) % num_rx_descriptors)) p
    → Held descs at (ps ++ p ∷ [])
Held-append descs at [] p h last = (subst (λ i. Holds (descs i) p) (omega arith) last, h)
Held-append descs at (q ∷ ps) p (h, rest) last =
    (h, Held-append descs (at + 1) ps p rest (subst (λ i. Holds (descs i) p) (omega arith) last))

release-free :
    (next : ℕ) (r : Receiver) (p : Packet) (ps : List Packet)
    → IsRing next r (p ∷ ps)
    → (k : ℕ) → length ps ≤ k
    → k < num_rx_descriptors
    → is_done
        ((release r).rx_desc (((r.rx_head + 1) % num_rx_descriptors + k) % num_rx_descriptors))
      ≡ false
release-free next r p ps v k low high =
    let i : ℕ = ((r.rx_head + 1) % num_rx_descriptors + k) % num_rx_descriptors in
    let given_back : RxDesc = record (r.rx_desc r.rx_head) { status = 0 } in
    elim (Bool-cases (i == r.rx_head)) [
      | inl e ↦ ap (λ b. is_done (if b then given_back else r.rx_desc i)) e
      | inr e ↦
          let other : i ≢ r.rx_head = ground (arith, e) in
          ap (λ b. is_done (if b then given_back else r.rx_desc i)) e
          ∙ subst (λ x. is_done (r.rx_desc x) ≡ false) (omega arith)
              (v.free (k + 1) (omega (arith, low)) (omega (arith, high, other, v.head)))
    ]

-- A packet taken from the head.
pub release-IsRing :
    (next : ℕ) (r : Receiver) (p : Packet) (ps : List Packet)
    → IsRing next r (p ∷ ps)
    → IsRing next (release r) ps
release-IsRing next r p ps v = record {
  head = omega arith;
  tail = omega (arith, v.head);
  next_at = omega (arith, v.next_at, v.head);
  room = omega (arith, v.room);
  held =
      Held-mod (release r).rx_desc (r.rx_head + 1) ((r.rx_head + 1) % num_rx_descriptors) ps
        (omega arith)
        (Held-set r.rx_desc (r.rx_head + 1) r.rx_head (record (r.rx_desc r.rx_head) { status = 0 })
          ps (λ k lt e. omega (arith, lt, e, v.room, v.head)) v.held.1);
  free = λ k low high. release-free next r p ps v k low high;
}

-- The packets up to a number are handed over, and what is left is still in the ring.
pub process_rounds-IsRing :
    (n next : ℕ) (r : Receiver) (pending : List Packet)
    → IsRing next r pending
    → (r' : Receiver) × (process_rounds n r ≡ some (all_delivered (take n pending), r'))
      × IsRing next r' (drop n pending)
unfolding process_rounds
process_rounds-IsRing zero next r pending v = (r, refl, v)
process_rounds-IsRing (suc n) next r [] v =
    let nothing : is_done (r.rx_desc r.rx_head) ≡ false =
      subst (λ i. is_done (r.rx_desc i) ≡ false) (omega (arith, v.head))
        (v.free 0 (omega arith) (omega arith)) in
    (r, ground (arith, nothing), v)
process_rounds-IsRing (suc n) next r (p ∷ ps) v =
    let (r', done, v') =
      process_rounds-IsRing n next (release r) ps (release-IsRing next r p ps v) in
    let (full, whole, same_errors, same_length, same_bytes) : Holds (r.rx_desc r.rx_head) p =
      subst (λ i. Holds (r.rx_desc i) p) (omega (arith, v.head)) v.held.0 in
    let handed : handed_over (r.rx_desc r.rx_head) ≡ delivered p =
      rw (same_errors, same_length, same_bytes) in
    (r', ground (arith, full, whole, done, handed), v')
