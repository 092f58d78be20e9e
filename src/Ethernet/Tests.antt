-- ===== src/Ethernet/Tests.antt =====
-- The driver of kernel/i825x.cpp on concrete packets.
use attos.Common.{
  ℕ, ◌+◌, ◌%◌, ◌≡◌, refl, ◌==◌, true, if◌then◌else◌, Option, none, some, List, [], ◌∷◌, ◌++◌, arith,
}
use attos.Ethernet.Receive.{Receiver, do_process_packets}
use attos.Ethernet.Ring.{Packet, IsRing, all_delivered}
use attos.Ethernet.Reset.{Layout, empty_receiver, empty_transmitter}
use attos.Ethernet.Reception.{Run, started, arrives, stored, Run-IsRing, do_process_packets-Run}
use attos.Ethernet.Transmit.{
  Transmitter, Answers, sent, timed_out, do_send_packet, wait_sent, num_tx_descriptors, prepared,
  command_of,
}
use attos.Ethernet.Sending.{IsIdle, do_send_packet-IsIdle}
use attos.Ethernet.Late.{Request, send_all, completed, late_completion_stops}

abbrev a_layout : Layout
a_layout = record { rx_desc_phys = 4096; tx_desc_phys = 8192; buffers = λ i. []; mac_addr = [] }

abbrev good_packet : Packet
good_packet = record { errors = 0; length = 2; bytes = 7 ∷ 8 ∷ 9 ∷ [] }

abbrev bad_packet : Packet
bad_packet = record { errors = 1; length = 2; bytes = 1 ∷ 2 ∷ 3 ∷ [] }

abbrev one_stored : Receiver
one_stored = stored (empty_receiver a_layout) 0 0 bad_packet

abbrev two_stored : Receiver
two_stored = stored one_stored 1 0 good_packet

two_arrive : Run two_stored 2 (bad_packet ∷ good_packet ∷ []) []
two_arrive =
    arrives one_stored 1 0 good_packet (bad_packet ∷ []) []
      (arrives (empty_receiver a_layout) 0 0 bad_packet [] [] (started a_layout)
        (λ e. omega (arith, e)))
      (λ e. omega (arith, e))

Run-IsRing_example :
    (past pending : List Packet) × (bad_packet ∷ good_packet ∷ [] ≡ past ++ pending)
    × ([] ≡ all_delivered past)
    × IsRing 2 two_stored pending
Run-IsRing_example = Run-IsRing two_stored 2 (bad_packet ∷ good_packet ∷ []) [] two_arrive

do_process_packets-Run_example :
    (r : Receiver) × (more : List (List ℕ)) × (do_process_packets 16 two_stored ≡ some (more, r))
    × ([] ++ more ≡ all_delivered (bad_packet ∷ good_packet ∷ []))
do_process_packets-Run_example =
    do_process_packets-Run two_stored 2 16 (bad_packet ∷ good_packet ∷ []) [] two_arrive
      (omega arith)

-- The device is done at the third look.
abbrev third_look : Answers
third_look = record { link_up = true; status_at = λ k. if k == 2 then 1 else 0; tdh = 1 }

empty_transmitter-IsIdle : IsIdle empty_transmitter
empty_transmitter-IsIdle = record { tail = omega arith; told = refl; free = λ k. refl }

do_send_packet-IsIdle_example :
    (t : Transmitter) × (do_send_packet third_look empty_transmitter 4096 60 ≡ some (sent, t))
    × IsIdle t
    × (t.tx_tail ≡ (0 + 1) % num_tx_descriptors)
    × (t.tx_desc 0 ≡ record { buffer_addr = 4096; lower = command_of 60; upper = 0 })
do_send_packet-IsIdle_example =
    do_send_packet-IsIdle third_look empty_transmitter 4096 60 2 empty_transmitter-IsIdle
      (omega arith)
      (record { up = refl; waits = λ k lt. ground arith; done = refl; fetched = refl })
      (omega arith)

-- The device never answers.
abbrev no_answer : Answers
no_answer = record { link_up = true; status_at = λ k. 0; tdh = 0 }

abbrev at_once : ℕ → Request
at_once head = record {
  answers = record { link_up = true; status_at = λ k. 1; tdh = head };
  addr = 4096;
  len = 60;
}

abbrev fifteen : List Request
fifteen =
    at_once 2
    ∷ at_once 3
    ∷ at_once 4
    ∷ at_once 5
    ∷ at_once 6
    ∷ at_once 7
    ∷ at_once 8
    ∷ at_once 9
    ∷ at_once 10
    ∷ at_once 11
    ∷ at_once 12
    ∷ at_once 13
    ∷ at_once 14
    ∷ at_once 15
    ∷ at_once 0
    ∷ []

abbrev given_up : Transmitter
given_up = prepared empty_transmitter 4096 60

abbrev transmitter_of : Option Transmitter → Transmitter
transmitter_of none = empty_transmitter
transmitter_of (some t) = t

abbrev after_fifteen : Transmitter
after_fifteen = transmitter_of (send_all fifteen (completed given_up 0))

timed_out_first : do_send_packet no_answer empty_transmitter 4096 60 ≡ some (timed_out, given_up)
unfolding do_send_packet wait_sent
timed_out_first = refl

fifteen_sent : send_all fifteen (completed given_up 0) ≡ some after_fifteen
unfolding do_send_packet wait_sent
fifteen_sent = refl

late_completion_stops_example : do_send_packet third_look after_fifteen 4096 60 ≡ none
late_completion_stops_example =
    late_completion_stops no_answer third_look empty_transmitter given_up after_fifteen 4096 60 4096
      60 fifteen empty_transmitter-IsIdle timed_out_first refl fifteen_sent refl
