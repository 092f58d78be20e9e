-- ===== src/Net/Tftp/Largest.antt =====
-- The largest file that `legal_size` of attos/net/tftp.h admits, in the hands of `tftp_writer`.
use attos.Common.{
  ◌-◌, ◌*◌, ◌^◌, ◌<◌, ◌≡◌, refl, true, List, [], ◌∷◌, ◌++◌, some, ◌>>=◌, length, arith,
}
use attos.Net.Tftp.Codec.{Bytes, wrq, put_string, block_count, legal_size, put_opcode}
use attos.Net.Tftp.Op.{receive_all, do_op, tick}
use attos.Net.Tftp.Reader.{octet}
use attos.Net.Tftp.Writer.{Writer, open_writer, blocks, send_wrq, is_done, writing}

is_done_stops :
    (w : Writer) (rounds : List (List Bytes))
    → is_done w ≡ true
    → do_op writing w ([] ∷ rounds) ≡ some (true, w, [])
unfolding do_op receive_all tick
is_done_stops w rounds e = rw (e, ◌>>=◌) refl

-- The largest legal file: its number of blocks is `no_acks`, so a new writer, which has sent its write request,
-- counts as done. Unless an answer has arrived by the first round, its operation reports success in that round and
-- has sent no packet more, so none of the data.
pub largest_file_not_sent :
    (name d : Bytes) (rounds : List (List Bytes))
    → length name < 64
    → length d ≡ 512 * (2 ^ 16 - 2)
    → (w : Writer) × (open_writer name d
        ≡ some (w, put_opcode wrq ++ put_string name ++ put_string octet))
      × (do_op writing w ([] ∷ rounds) ≡ some (true, w, []))
unfolding open_writer send_wrq legal_size
largest_file_not_sent name d rounds h e =
    let w : Writer = record {
      filename = name;
      contents = d;
      last_ack = 2 ^ 16 - 1;
      timeout = 50;
    } in
    (w, ground arith, is_done_stops w rounds (unfold is_done blocks block_count in ground arith))
