-- ===== src/Ps2/Tests.antt =====
-- The keyboard on a buffer whose positions are about to wrap.
use attos.Common.{◌-◌, ◌^◌, ◌≡◌, refl, [], ◌∷◌, ◌++◌, true, arith, replicate}
use attos.Ps2.Buffer.{Queue, IsQueue, size, contents, iterate}
use attos.Ps2.Keys.{translate, waiting, read_key, key_available}
use attos.Ps2.Refine.{next_key, Agrees, read_key-next_key}
use attos.Ps2.Available.{ignored_release_waits}

-- 0xE0 0x9D 0x1E 0x9E at the end of the buffer and at its beginning: the positions wrap
abbrev typed : Queue
typed = record {
  elems = 0x1E ∷ 0x9E ∷ replicate 28 0 ++ 0xE0 ∷ 0x9D ∷ [];
  read_pos = 2 ^ 32 - 2;
  write_pos = 2;
}

typed-IsQueue : IsQueue typed
unfolding size
typed-IsQueue = record {
  room = refl;
  read_word = omega arith;
  write_word = omega arith;
  bounded = omega arith;
}

-- the release of the left control key
abbrev control : Queue
control = record { elems = 0x9D ∷ replicate 31 0; read_pos = 0; write_pos = 1 }

control-IsQueue : IsQueue control
unfolding size
control-IsQueue = record {
  room = refl;
  read_word = omega arith;
  write_word = omega arith;
  bounded = omega arith;
}

typed-contents : contents typed ≡ 0xE0 ∷ 0x9D ∷ 0x1E ∷ 0x9E ∷ []
unfolding contents size iterate
typed-contents = refl

read_key-next_key_example : Agrees (next_key 0 (contents typed ++ [])) (read_key 5 [] typed)
unfolding contents size iterate
read_key-next_key_example = read_key-next_key 5 [] typed typed-IsQueue (omega arith)

ignored_release_waits_example : (key_available control ≡ true) × (read_key 2 [] control ≡ waiting)
unfolding contents size iterate translate
ignored_release_waits_example =
    ignored_release_waits 0 0x9D control control-IsQueue refl (omega arith) (omega arith) refl
