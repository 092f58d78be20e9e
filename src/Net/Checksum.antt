-- ===== src/Net/Checksum.antt =====
-- The headers that this stack sends under the check that it makes of headers.
use attos.Common.{ℕ, ◌+◌, ◌^◌, ◌<◌, ◌≡◌, ◌∙◌, ap, arith}
use attos.Net.Wire.{
  inet_csum, fold_sum, fold_sum_zero, fold_sum-lt, sum_words, plain_sum, sum_words-plain,
}
use attos.Net.Ipv4.{header_with, make_header}

module _ (protocol len src dst : ℕ) (hp : protocol < 256) (hl : len < 2 ^ 16) where
  sum-header_with :
      (c : ℕ)
      → c < 2 ^ 16
      → sum_words 0 (header_with protocol len src dst c)
        ≡ plain_sum (header_with protocol len src dst 0) + c
  sum-header_with c h =
      sum_words-plain (header_with protocol len src dst c) 0 (omega arith) ∙ omega arith

  pub inet_csum-make_header : inet_csum (make_header protocol len src dst) 0 ≡ 0
  unfolding inet_csum make_header
  inet_csum-make_header =
      let s : ℕ = plain_sum (header_with protocol len src dst 0) in
      let zero_sum : sum_words 0 (header_with protocol len src dst 0) ≡ s =
        sum-header_with 0 (omega arith) ∙ omega arith in
      let c : fold_sum (sum_words 0 (header_with protocol len src dst 0)) ≡ fold_sum s =
        ap fold_sum zero_sum in
      rw c (
        ap fold_sum (sum-header_with (fold_sum s) (fold_sum-lt s))
        ∙ fold_sum_zero s (omega arith) (omega arith))
