-- ===== src/Net/Tftp/Writer.antt =====
-- `tftp_writer` of attos/net/tftp.cpp.
use attos.Common.{
  ℕ, ◌+◌, ◌-◌, ◌*◌, ◌^◌, Bool, ◌&&◌, List, [], ◌∷◌, ◌++◌, Option, none, some, leb, ltb, ◌==◌,
  if◌then◌else◌, ◌>>=◌, ◌>>◌, require, length, take, drop, u16, u32, min,
}
use attos.Net.Tftp.Codec.{
  Bytes, wrq, ack, data_op, error, block_size, block_count, legal_size, put_opcode, put_u16,
  put_string, get_u16, get_opcode, get_error,
}
use attos.Net.Tftp.Op.{Operation, default_timeout}
use attos.Net.Tftp.Reader.{octet}

pub record Writer : Type 0 where
  pub filename : Bytes
  pub contents : Bytes
  pub last_ack : ℕ
  pub timeout : ℕ

abbrev pub no_acks : ℕ
no_acks = 2 ^ 16 - 1

unfoldable pub blocks : Writer → ℕ
blocks w = block_count (length w.contents)

unfoldable pub send_wrq : Writer → Writer × Bytes
send_wrq w = (
  record w { last_ack = no_acks; timeout = default_timeout },
  put_opcode wrq ++ put_string w.filename ++ put_string octet,
)

-- The bytes of a block: `index` is a `uint32_t`.
unfoldable pub block : Bytes → ℕ → Bytes
block contents block_number =
    let index = u32 ((block_number - 1) * block_size) in
    take (min block_size (length contents - index)) (drop index contents)

unfoldable pub send_data : Writer → ℕ → Option (Writer × List Bytes)
send_data w block_number = do
  require (leb 1 block_number && leb block_number (blocks w))
  some (
    record w { timeout = default_timeout },
    (put_opcode data_op ++ put_u16 block_number ++ block w.contents block_number) ∷ [],
  )

unfoldable pub open_writer : Bytes → Bytes → Option (Writer × Bytes)
open_writer filename contents = do
  require (ltb (length filename) 64)
  require (legal_size (length contents))
  some (send_wrq (record { filename = filename; contents = contents; last_ack = 0; timeout = 0 }))

unfoldable pub is_done : Writer → Bool
is_done w = w.last_ack == blocks w

unfoldable pub on_timeout : Writer → Option (Writer × List Bytes)
on_timeout w =
    let (w', p) = send_wrq w in
    if w.last_ack == no_acks
    then some (w', p ∷ [])
    else if ltb w.last_ack (blocks w)
    then send_data w (u16 (w.last_ack + 1))
    else none

-- An acknowledgement behind its opcode.
unfoldable pub on_ack : Writer → Bytes → Option (Writer × List Bytes)
on_ack w bs = do
  (block_number, _) ← get_u16 bs
  require (leb block_number (blocks w))
  let w' = record w { last_ack = block_number }
  if ltb block_number (blocks w) then send_data w' (u16 (block_number + 1)) else some (w', [])

-- `tftp_in` with the writer's `on_packet`.
unfoldable pub tftp_in : Writer → Bytes → Option (Writer × List Bytes)
tftp_in w packet = do
  require (leb (length packet) (4 + block_size))
  (op, rest) ← get_opcode packet
  elim op [ ack ↦ on_ack w rest | error ↦ get_error rest >>= (λ _. none) | _ ↦ none ]

abbrev pub writing : Operation Writer
writing = record {
  is_done = is_done;
  timeout = λ w. w.timeout;
  set_timeout = λ w t. record w { timeout = t };
  on_timeout = on_timeout;
  tftp_in = tftp_in;
}
