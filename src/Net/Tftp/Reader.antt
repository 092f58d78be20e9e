-- ===== src/Net/Tftp/Reader.antt =====
-- `tftp_reader` of attos/net/tftp.cpp.
use attos.Common.{
  ℕ, ◌+◌, Bool, true, false, List, [], ◌∷◌, ◌++◌, Option, none, some, leb, ltb, ◌==◌, ◌!=◌,
  if◌then◌else◌, ◌>>=◌, ◌>>◌, require, length,
}
use attos.Net.Tftp.Codec.{
  Bytes, rrq, ack, data_op, error, block_size, put_opcode, put_u16, put_string, get_u16, get_opcode,
  get_error,
}
use attos.Net.Tftp.Op.{Operation, default_timeout}

pub record Reader : Type 0 where
  pub filename : Bytes
  pub last_block : ℕ
  pub contents : Bytes
  pub done : Bool
  pub timeout : ℕ

-- "octet"
abbrev pub octet : Bytes
octet = b'o' ∷ b'c' ∷ b't' ∷ b'e' ∷ b't' ∷ []

unfoldable pub send_rrq : Reader → Reader × Bytes
send_rrq r = (
  record r { last_block = 0; contents = []; done = false; timeout = default_timeout },
  put_opcode rrq ++ put_string r.filename ++ put_string octet,
)

unfoldable pub send_ack : Reader → ℕ → Reader × Bytes
send_ack r block_number =
    (record r { timeout = default_timeout }, put_opcode ack ++ put_u16 block_number)

-- `filename_` holds 64 bytes with the terminator.
unfoldable pub open_reader : Bytes → Option (Reader × Bytes)
open_reader filename = do
  require (ltb (length filename) 64)
  some (
      send_rrq
        (record { filename = filename; last_block = 0; contents = []; done = false; timeout = 0 }))

unfoldable pub on_timeout : Reader → Option (Reader × List Bytes)
on_timeout r = let (r', p) = send_rrq r in if r.last_block == 0 then some (r', p ∷ []) else none

-- A data packet behind its opcode. `block_number - 1` is an `int`, so 0 fits no `last_block_`.
unfoldable pub on_data : Reader → Bytes → Option (Reader × List Bytes)
on_data r bs = do
  (block_number, payload) ← get_u16 bs
  require (block_number == r.last_block + 1)
  let (r', p) =
      send_ack (record r { contents = r.contents ++ payload; last_block = block_number })
        block_number
  let finished = length payload != block_size
  some (if finished then record r' { done = true } else r', p ∷ [])

-- `tftp_in` with the reader's `on_packet`. An error reply, like any other packet, is fatal.
unfoldable pub tftp_in : Reader → Bytes → Option (Reader × List Bytes)
tftp_in r packet = do
  require (leb (length packet) (4 + block_size))
  (op, rest) ← get_opcode packet
  elim op [ data_op ↦ on_data r rest | error ↦ get_error rest >>= (λ _. none) | _ ↦ none ]

-- `data()`: only when all has been read.
unfoldable pub read_contents : Reader → Option Bytes
read_contents r = do require r.done; some r.contents

abbrev pub reading : Operation Reader
reading = record {
  is_done = λ r. r.done;
  timeout = λ r. r.timeout;
  set_timeout = λ r t. record r { timeout = t };
  on_timeout = on_timeout;
  tftp_in = tftp_in;
}
