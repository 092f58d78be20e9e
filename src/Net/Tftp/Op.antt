-- ===== src/Net/Tftp/Op.antt =====
-- The clock of `tftp_base`, and the loop of `tftp_op`.
use attos.Common.{
  ℕ, ◌-◌, ◌==◌, Bool, true, false, List, [], ◌∷◌, ◌++◌, Option, some, if◌then◌else◌, ◌>>=◌,
}
use attos.Net.Tftp.Codec.{Bytes}

pub data Outcome : Type 0 where
  running timed_out done : Outcome

abbrev pub default_timeout : ℕ
default_timeout = 50

-- The virtual functions of `tftp_base`, its `timeout_`, and the packets that a call sends.
pub record Operation (S : Type 0) : Type 0 where
  pub is_done : S → Bool
  pub timeout : S → ℕ
  pub set_timeout : S → ℕ → S
  pub on_timeout : S → Option (S × List Bytes)
  pub tftp_in : S → Bytes → Option (S × List Bytes)

module _ {S : Type 0} (op : Operation S) where
  open op use {is_done, timeout, set_timeout, on_timeout, tftp_in}

  unfoldable pub tick : S → Option (Outcome × S × List Bytes)
  tick s =
      let late = on_timeout (set_timeout s 0) >>= (λ r. some (timed_out, r.0, r.1)) in
      if is_done s
      then some (done, s, [])
      else if timeout s == 0
      then some (running, s, [])
      else if timeout s - 1 == 0
      then late
      else some (running, set_timeout s (timeout s - 1), [])

  -- `process_packets`: the datagrams that have arrived, in order.
  unfoldable pub receive_all : S → List Bytes → Option (S × List Bytes)
  receive_all s [] = some (s, [])
  receive_all s (p ∷ ps) = do
    (s', out) ← tftp_in s p
    (s'', more) ← receive_all s' ps
    some (s'', out ++ more)

  -- `do_op`: the datagrams of each round until `should_quit`. The result says whether it is done, and
  -- gives the packets that were sent.
  unfoldable pub do_op : S → List (List Bytes) → Option (Bool × S × List Bytes)
  do_op s [] = some (false, s, [])
  do_op s (arrived ∷ rounds) = do
    (s', out) ← receive_all s arrived
    (o, s'', more) ← tick s'
    let going_on : Option (Bool × S × List Bytes) = do
      (finished, last, others) ← do_op s'' rounds
      some (finished, last, (out ++ more) ++ others)
    elim o [ done ↦ some (true, s'', out ++ more) | _ ↦ going_on ]
