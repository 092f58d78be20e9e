-- ===== src/Net/Tftp/Tests.antt =====
-- A file of three bytes, sent and read.
use attos.Common.{
  ℕ, ◌*◌, ◌-◌, ◌^◌, ◌≡◌, refl, List, [], ◌∷◌, ◌++◌, some, arith, true, false, length, replicate,
  length-replicate,
}
use attos.Net.Tftp.Codec.{Bytes, wrq, put_opcode, put_string, block_count, legal_size}
use attos.Net.Tftp.Op.{do_op}
use attos.Net.Tftp.Reader.{Reader, open_reader, send_rrq, octet}
use attos.Net.Tftp.Writer.{Writer, open_writer, send_wrq, writing}
use attos.Net.Tftp.Writer
use attos.Net.Tftp.Largest.{largest_file_not_sent}
use attos.Net.Tftp.Exchange.{transfer, ack_packet, IsComplete}

abbrev name : Bytes
name = b'a' ∷ []

abbrev file : Bytes
file = 1 ∷ 2 ∷ 3 ∷ []

abbrev opened : Writer
opened = record { filename = name; contents = file; last_ack = 65535; timeout = 50 }

abbrev reader : Reader
reader = record { filename = name; last_block = 0; contents = []; done = false; timeout = 50 }

transfer_example :
    (w' : Writer) × (out : List Bytes) × (Writer.tftp_in opened (ack_packet 0) ≡ some (w', out))
    × IsComplete file (block_count 3) w' reader out
unfolding open_writer open_reader send_wrq send_rrq legal_size
transfer_example = transfer name name file _ _ opened reader refl refl

zeros : (n : ℕ) → (d : Bytes) × (length d ≡ n)
zeros n = (replicate n 0, length-replicate n 0)

abbrev largest : (d : Bytes) × (length d ≡ 512 * (2 ^ 16 - 2))
largest = zeros (512 * (2 ^ 16 - 2))

largest_file_not_sent_example :
    (w : Writer) × (open_writer name largest.0
      ≡ some (w, put_opcode wrq ++ put_string name ++ put_string octet))
    × (do_op writing w ([] ∷ []) ≡ some (true, w, []))
largest_file_not_sent_example = largest_file_not_sent name largest.0 [] (omega arith) largest.1
