-- ===== src/Net/Tftp/Exchange.antt =====
-- A `tftp_writer` of attos/net/tftp.cpp against a `tftp_reader`.
use mathlib.Core.List.{append-nil}
use attos.Common.{
  ℕ, zero, suc, ◌+◌, ◌-◌, ◌*◌, ◌^◌, ◌≤◌, ◌<◌, ◌≡◌, refl, ap, sym, ◌∙◌, true, false, List, [], ◌∷◌,
  ◌++◌, Option, none, some, ◌!=◌, if◌then◌else◌, ◌>>=◌, length, take, drop, u32, min, arith,
  length-take, length-drop, take_all,
}
use attos.Net.Tftp.Codec.{
  Bytes, ack, data_op, block_size, block_count, legal_size, put_opcode, put_u16, get_u16,
  get_opcode, to_opcode,
}
use attos.Net.Tftp.Op.{default_timeout, receive_all}
use attos.Net.Tftp.Reader.{Reader, open_reader, send_rrq, on_data, send_ack, octet}
use attos.Net.Tftp.Reader
use attos.Net.Tftp.Writer.{
  Writer, open_writer, blocks, block, send_data, send_wrq, is_done, on_ack, writing,
}
use attos.Net.Tftp.Writer

abbrev pub data_packet : ℕ → Bytes → Bytes
data_packet k payload = put_opcode data_op ++ put_u16 k ++ payload

abbrev pub ack_packet : ℕ → Bytes
ack_packet k = put_opcode ack ++ put_u16 k

-- The packets under way to the reader are delivered in order, and its answers to the writer.
unfoldable pub exchange : ℕ → Writer → Reader → List Bytes → Option (Writer × Reader)
exchange fuel w r [] = some (w, r)
exchange zero w r (p ∷ ps) = none
exchange (suc fuel) w r (p ∷ ps) = do
  (r', acks) ← Reader.tftp_in r p
  (w', more) ← receive_all writing w acks
  exchange fuel w' r' (ps ++ more)

take_add {ℓ} :
    {A : Type ℓ} (a b : ℕ) (xs : List A) → take (a + b) xs ≡ take a xs ++ take b (drop a xs)
take_add zero b xs = let e : zero + b ≡ b = omega arith in rw e
take_add (suc a) zero [] = let e : suc a + zero ≡ suc a = omega arith in rw e
take_add (suc a) (suc b) [] = let e : suc a + suc b ≡ suc (a + suc b) = omega arith in rw e
take_add (suc a) b (x ∷ xs) =
    let e : suc a + b ≡ suc (a + b) = omega arith in rw e (ap (λ l. x ∷ l) (take_add a b xs))

reader_takes :
    (r : Reader) (k : ℕ) (payload : Bytes)
    → k ≡ r.last_block + 1
    → k < 2 ^ 16
    → length payload ≤ 512
    → Reader.tftp_in r (data_packet k payload)
      ≡ some (
        record r {
          contents = r.contents ++ payload;
          last_block = k;
          timeout = default_timeout;
          done = if length payload != 512 then true else r.done;
        },
        ack_packet k ∷ [],
      )
unfolding Reader.tftp_in get_opcode get_u16 to_opcode on_data send_ack put_opcode put_u16
reader_takes r k payload e h l = ground arith

writer_sends :
    (w : Writer) (k : ℕ)
    → k < blocks w
    → blocks w < 2 ^ 16
    → Writer.tftp_in w (ack_packet k)
      ≡ some (
        record w { last_ack = k; timeout = default_timeout },
        data_packet (k + 1) (block w.contents (k + 1)) ∷ [],
      )
unfolding Writer.tftp_in get_opcode get_u16 to_opcode on_ack send_data put_opcode put_u16 blocks
writer_sends w k h b = ground arith

writer_ends :
    (w : Writer) (k : ℕ)
    → k ≡ blocks w
    → blocks w < 2 ^ 16
    → Writer.tftp_in w (ack_packet k) ≡ some (record w { last_ack = k }, [])
unfolding Writer.tftp_in get_opcode get_u16 to_opcode on_ack put_opcode put_u16 blocks
writer_ends w k h b = ground arith

exchange_one :
    (fuel : ℕ) (w w' : Writer) (r r' : Reader) (p a : Bytes) (out : List Bytes)
    → Reader.tftp_in r p ≡ some (r', a ∷ [])
    → Writer.tftp_in w a ≡ some (w', out)
    → exchange (suc fuel) w r (p ∷ []) ≡ exchange fuel w' r' out
unfolding exchange receive_all
exchange_one fuel w w' r r' p a out e f =
    rw (e, ◌>>=◌, receive_all) (rw (f, ◌>>=◌) (ap (exchange fuel w' r') (append-nil out)))

-- The exchange ends with the reader holding `d`, and both sides done.
abbrev pub IsComplete : Bytes → ℕ → Writer → Reader → List Bytes → Type 0
IsComplete d fuel w r out =
    (w' : Writer) × (r' : Reader) × (exchange fuel w r out ≡ some (w', r'))
    × (r'.contents ≡ d)
    × (r'.done ≡ true)
    × (is_done w' ≡ true)

module _ (d : Bytes) (fits : length d ≤ 512 * (2 ^ 16 - 2)) where
  abbrev count : ℕ
  count = block_count (length d)

  count-lt :
      (count < 2 ^ 16) × (512 * (count - 1) ≤ length d) × (length d < 512 * count) × (0 < count)
  unfolding block_count
  count-lt = omega arith

  -- A block that is not the last is full.
  block_full :
      (k : ℕ)
      → 0 < k
      → k < count
      → (length (block d k) ≡ 512) × (take ((k - 1) * 512) d ++ block d k ≡ take (k * 512) d)
  unfolding block
  block_full k pos below =
      let b = count-lt in
      let index : u32 ((k - 1) * block_size) ≡ (k - 1) * 512 = omega arith in
      let whole : min block_size (length d - (k - 1) * 512) ≡ 512 = omega arith in
      let next : (k - 1) * 512 + 512 ≡ k * 512 = omega arith in
      (
        rw (index, whole)
            (omega
              (arith, length-take 512 (drop ((k - 1) * 512) d), length-drop ((k - 1) * 512) d)),
        rw (index, whole) (sym (take_add ((k - 1) * 512) 512 d) ∙ ap (λ n. take n d) next),
      )

  -- The last block is short, and completes the file.
  block_last : (length (block d count) < 512) × (take ((count - 1) * 512) d ++ block d count ≡ d)
  unfolding block
  block_last =
      let b = count-lt in
      let index : u32 ((count - 1) * block_size) ≡ (count - 1) * 512 = omega arith in
      let rest : min block_size (length d - (count - 1) * 512) ≡ length d - (count - 1) * 512 =
        omega arith in
      (
        rw (index, rest)
            (omega (
              arith,
              length-take (length d - (count - 1) * 512) (drop ((count - 1) * 512) d),
              length-drop ((count - 1) * 512) d,
            )),
        rw (index, rest)
            (sym (take_add ((count - 1) * 512) (length d - (count - 1) * 512) d)
              ∙ take_all ((count - 1) * 512 + (length d - (count - 1) * 512)) d (omega arith)),
      )

  -- The reader has the blocks below `k`, and block `k` is under way.
  record IsSynced (k : ℕ) (w : Writer) (r : Reader) : Type 0 where
    sends : w.contents ≡ d
    last : r.last_block + 1 ≡ k
    has : r.contents ≡ take ((k - 1) * 512) d
    open_end : r.done ≡ false

  exchange_synced :
      (m fuel k : ℕ) (w : Writer) (r : Reader)
      → m < fuel
      → 0 < k
      → k + m ≡ count
      → IsSynced k w r
      → IsComplete d fuel w r (data_packet k (block d k) ∷ [])
  exchange_synced m zero k w r lt pos e s = absurd (omega arith)
  exchange_synced zero (suc fuel) k w r lt pos e s =
      let b = count-lt in
      let here : k ≡ count = omega arith in
      let r' : Reader = record r {
        contents = r.contents ++ block d k;
        last_block = k;
        timeout = default_timeout;
        done = if length (block d k) != 512 then true else r.done;
      } in
      let w' : Writer = record w { last_ack = k } in
      let short : length (block d k) < 512 = rw here block_last.0 in
      let all : blocks w ≡ count = unfold blocks in ap (λ c. block_count (length c)) s.sends in
      let all' : blocks w' ≡ count = unfold blocks in ap (λ c. block_count (length c)) s.sends in
      (
        w',
        r',
        exchange_one fuel w w' r r' (data_packet k (block d k)) (ack_packet k) []
              (reader_takes r k (block d k) (sym s.last) (omega arith) (omega arith))
              (writer_ends w k (here ∙ sym all) (omega arith))
            ∙ (unfold exchange in refl),
        ap (λ c. c ++ block d k) s.has ∙ (rw here block_last.1),
        ground arith,
        (unfold is_done in ground (arith, all')),
      )
  exchange_synced (suc m) (suc fuel) k w r lt pos e s =
      let b = count-lt in
      let r' : Reader = record r {
        contents = r.contents ++ block d k;
        last_block = k;
        timeout = default_timeout;
        done = if length (block d k) != 512 then true else r.done;
      } in
      let w' : Writer = record w { last_ack = k; timeout = default_timeout } in
      let full = block_full k pos (omega arith) in
      let all : blocks w ≡ count = unfold blocks in ap (λ c. block_count (length c)) s.sends in
      let rest =
        exchange_synced m fuel (k + 1) w' r' (omega arith) (omega arith) (omega arith) (record {
          sends = s.sends;
          last = refl;
          has = ap (λ c. c ++ block d k) s.has ∙ full.1 ∙ ap (λ n. take (n * 512) d) (omega arith);
          open_end = ground (arith, s.open_end);
        }) in
      let step : exchange (suc fuel) w r (data_packet k (block d k) ∷ [])
          ≡ exchange fuel w' r' (data_packet (k + 1) (block d (k + 1)) ∷ []) =
        exchange_one fuel w w' r r' (data_packet k (block d k)) (ack_packet k) _
          (reader_takes r k (block d k) (sym s.last) (omega arith) (omega arith))
          (writer_sends w k (omega arith) (omega arith)
            ∙ ap (λ c. some (w', data_packet (k + 1) (block c (k + 1)) ∷ [])) s.sends) in
      (rest.0, rest.1, step ∙ rest.2, rest.3, rest.4, rest.5)

-- A writer that has been opened for `d`, once its request is acknowledged, hands every block to a
-- reader that has been opened: the reader ends with `d`, and both are done.
pub transfer :
    (name name' d request request' : Bytes) (w : Writer) (r : Reader)
    → open_writer name d ≡ some (w, request)
    → open_reader name' ≡ some (r, request')
    → (w' : Writer) × (out : List Bytes) × (Writer.tftp_in w (ack_packet 0) ≡ some (w', out))
      × IsComplete d (block_count (length d)) w' r out
unfolding open_writer open_reader send_wrq send_rrq legal_size
transfer name name' d request request' w r ew er =
    let small : length d ≤ 512 * (2 ^ 16 - 2) = ground arith in
    let b = count-lt d small in
    let sends : w.contents ≡ d = ground arith in
    let all : blocks w ≡ block_count (length d) =
      unfold blocks in ap (λ c. block_count (length c)) sends in
    let w' : Writer = record w { last_ack = 0; timeout = default_timeout } in
    (
      w',
      data_packet 1 (block d 1) ∷ [],
      writer_sends w 0 (omega arith) (omega arith)
          ∙ ap (λ c. some (w', data_packet 1 (block c 1) ∷ [])) sends,
      exchange_synced d small (block_count (length d) - 1) (block_count (length d)) 1 w' r
          (omega arith) (omega arith) (omega arith)
          (record {
            sends = sends;
            last = ground arith;
            has = ground arith;
            open_end = ground arith;
          }),
    )
