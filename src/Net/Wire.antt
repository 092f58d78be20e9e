-- ===== src/Net/Wire.antt =====
-- Packets as lists of bytes: the big-endian fields of attos/net/net.h, `inet_csum` of
-- attos/net/net.cpp, and what a handler of a packet may come to.
use attos.Common.{
  ℕ, ◌+◌, ◌-◌, ◌*◌, ◌/◌, ◌%◌, ◌^◌, ◌<◌, ◌≡◌, List, [], ◌∷◌, Bool, true, false, u8, u32, length,
  get_or, take, leb, if◌then◌else◌, arith, ◌&&◌, ◌==◌,
}

abbrev pub Bytes : Type 0
Bytes = List ℕ

-- A `REQUIRE` that fails stops the kernel. Reading past the end of the packet is `out_of_bounds`.
pub data Result {ℓ} (A : Type ℓ) : Type ℓ where
  ok : A → Result A
  fatal : Result A
  out_of_bounds : Result A

infixl 5 ◌>>=◌ ◌>>◌
abbrev pub ◌>>=◌ {ℓ κ} : {A : Type ℓ} {B : Type κ} → Result A → (A → Result B) → Result B
ok a >>= f = f a
fatal >>= f = fatal
out_of_bounds >>= f = out_of_bounds

abbrev pub ◌>>◌ {ℓ} : {B : Type ℓ} → Result (Unit {0}) → Result B → Result B
m >> k = m >>= λ _. k

abbrev pub require : Bool → Result (Unit {0})
require true = ok tt
require false = fatal

-- The first `n` bytes at a pointer that has the bytes `bs` behind it.
unfoldable pub read : ℕ → Bytes → Result Bytes
read n bs = if leb n (length bs) then ok (take n bs) else out_of_bounds

-- A field of a header that has been read, or whose size has been checked.
abbrev pub byte_at : Bytes → ℕ → ℕ
byte_at bs i = get_or bs i 0

-- `be_int` fields: most significant byte first.
abbrev pub be16_at : Bytes → ℕ → ℕ
be16_at bs i = byte_at bs i * 2 ^ 8 + byte_at bs (i + 1)

abbrev pub be32_at : Bytes → ℕ → ℕ
be32_at bs i = be16_at bs i * 2 ^ 16 + be16_at bs (i + 2)

abbrev pub be16 : ℕ → Bytes
be16 x = u8 (x / 2 ^ 8) ∷ u8 x ∷ []

abbrev pub be32 : ℕ → Bytes
be32 x = u8 (x / 2 ^ 24) ∷ u8 (x / 2 ^ 16) ∷ u8 (x / 2 ^ 8) ∷ u8 x ∷ []

-- `mac_address`
pub record Mac : Type 0 where
  pub b0 : ℕ
  pub b1 : ℕ
  pub b2 : ℕ
  pub b3 : ℕ
  pub b4 : ℕ
  pub b5 : ℕ

abbrev pub broadcast : Mac
broadcast = record { b0 = 255; b1 = 255; b2 = 255; b3 = 255; b4 = 255; b5 = 255 }

abbrev pub mac_bytes : Mac → Bytes
mac_bytes m = m.b0 ∷ m.b1 ∷ m.b2 ∷ m.b3 ∷ m.b4 ∷ m.b5 ∷ []

abbrev pub mac_at : Bytes → ℕ → Mac
mac_at bs i = record {
  b0 = byte_at bs i;
  b1 = byte_at bs (i + 1);
  b2 = byte_at bs (i + 2);
  b3 = byte_at bs (i + 3);
  b4 = byte_at bs (i + 4);
  b5 = byte_at bs (i + 5);
}

abbrev pub mac_eq : Mac → Mac → Bool
mac_eq l r =
    l.b0 == r.b0 && l.b1 == r.b1 && l.b2 == r.b2 && l.b3 == r.b3 && l.b4 == r.b4 && l.b5 == r.b5

-- The loop of `inet_csum`: `result` is a `uint32_t`, and a last odd byte is a high byte.
unfoldable pub sum_words : ℕ → Bytes → ℕ
sum_words result [] = result
sum_words result (a ∷ []) = u32 (result + a * 2 ^ 8)
sum_words result (a ∷ b ∷ rest) = sum_words (u32 (result + (a * 2 ^ 8 + b))) rest

-- The carries are added twice, and the sum is complemented.
unfoldable pub fold_sum : ℕ → ℕ
fold_sum sum =
    let once = sum / 2 ^ 16 + sum % 2 ^ 16 in
    let twice = u32 (once + once / 2 ^ 16) in 2 ^ 16 - 1 - twice % 2 ^ 16

unfoldable pub inet_csum : Bytes → ℕ → ℕ
inet_csum src init = fold_sum (sum_words init src)

abbrev pub IsBytes : Bytes → Type 0
IsBytes [] = Unit {0}
IsBytes (b ∷ bs) = (b < 256) × IsBytes bs

-- A sum that holds its own folded complement folds to 0.
pub fold_sum_zero : (s : ℕ) → s < 2 ^ 31 → 0 < s → fold_sum (s + fold_sum s) ≡ 0
unfolding fold_sum
fold_sum_zero s h p = omega arith

pub fold_sum-lt : (s : ℕ) → fold_sum s < 2 ^ 16
unfolding fold_sum
fold_sum-lt s = omega arith

-- the words of a list of bytes, with no wrap
abbrev pub plain_sum : Bytes → ℕ
plain_sum [] = 0
plain_sum (a ∷ []) = a * 2 ^ 8
plain_sum (a ∷ b ∷ rest) = a * 2 ^ 8 + b + plain_sum rest

pub sum_words-plain :
    (bs : Bytes) (r : ℕ) → r + plain_sum bs < 2 ^ 32 → sum_words r bs ≡ r + plain_sum bs
unfolding sum_words
sum_words-plain [] r h = omega arith
sum_words-plain (a ∷ []) r h = omega arith
sum_words-plain (a ∷ b ∷ rest) r h =
    omega (arith, sum_words-plain rest (u32 (r + (a * 2 ^ 8 + b))) (omega arith))
