-- ===== src/Ata/Strings.antt =====
-- The strings of a drive in kernel/ata.cpp: bytes in swapped pairs, padded with spaces.
use attos.Common.{
  ℕ, zero, suc, ◌+◌, ◌≡◌, ◌≢◌, refl, sym, ap, ◌∙◌, List, [], ◌∷◌, ◌++◌, arith, length, get_or, set,
  take, replicate, length-append, length-replicate,
}
use mathlib.Core.List.{append_assoc}
use attos.Ata.Device.{swap_pairs, clear_spaces, ata_string}

take-append : (xs ys : List ℕ) → take (length xs) (xs ++ ys) ≡ xs
take-append [] ys = refl
take-append (x ∷ xs) ys = ap (λ r. x ∷ r) (take-append xs ys)

get_or-append : (xs ys : List ℕ) (y d : ℕ) → get_or (xs ++ y ∷ ys) (length xs) d ≡ y
get_or-append [] ys y d = refl
get_or-append (x ∷ xs) ys y d = get_or-append xs ys y d

set-append : (xs ys : List ℕ) (y v : ℕ) → set (xs ++ y ∷ ys) (length xs) v ≡ xs ++ v ∷ ys
set-append [] ys y v = refl
set-append (x ∷ xs) ys y v = ap (λ r. x ∷ r) (set-append xs ys y v)

replicate-append : (k a : ℕ) (ys : List ℕ) → replicate k a ++ a ∷ ys ≡ a ∷ replicate k a ++ ys
replicate-append zero a ys = refl
replicate-append (suc k) a ys = ap (λ r. a ∷ r) (replicate-append k a ys)

clear_spaces_go :
    (i : ℕ) (dst : List ℕ)
    → get_or dst i 0 ≡ 0x20
    → clear_spaces (suc i) dst ≡ clear_spaces i (set dst i 0)
unfolding clear_spaces
clear_spaces_go i dst e = ground (arith, e)

clear_spaces_stop : (i : ℕ) (dst : List ℕ) → get_or dst i 0 ≢ 0x20 → clear_spaces (suc i) dst ≡ dst
unfolding clear_spaces
clear_spaces_stop i dst e = ground (arith, e)

-- Spaces at the end become zeroes, down to the first character that is none.
clear_spaces_padded :
    (k c : ℕ) (body tail : List ℕ)
    → c ≢ 0x20
    → clear_spaces (length (body ++ c ∷ []) + k) ((body ++ c ∷ []) ++ (replicate k 0x20 ++ tail))
      ≡ (body ++ c ∷ []) ++ (replicate k 0 ++ tail)
unfolding clear_spaces
clear_spaces_padded zero c body tail other =
    let dst : List ℕ = (body ++ c ∷ []) ++ tail in
    let joined : dst ≡ body ++ c ∷ tail = append_assoc body (c ∷ []) tail in
    let last : get_or dst (length body) 0 ≡ c =
      ap (λ l. get_or l (length body) 0) joined ∙ get_or-append body tail c 0 in
    let size : length (body ++ c ∷ []) + 0 ≡ suc (length body) =
      omega (arith, length-append body (c ∷ [])) in
    ap (λ n. clear_spaces n dst) size
    ∙ clear_spaces_stop (length body) dst (λ e. other (sym last ∙ e))
clear_spaces_padded (suc k) c body tail other =
    let text : List ℕ = body ++ c ∷ [] in
    let before : List ℕ = text ++ replicate k 0x20 in
    let at : length before ≡ length text + k =
      length-append text (replicate k 0x20) ∙ ap (λ n. length text + n) (length-replicate k 0x20) in
    let apart : text ++ (replicate (suc k) 0x20 ++ tail) ≡ before ++ 0x20 ∷ tail =
      ap (λ r. text ++ r) (sym (replicate-append k 0x20 tail))
      ∙ sym (append_assoc text (replicate k 0x20) (0x20 ∷ tail)) in
    let size : length text + suc k ≡ suc (length before) = omega (arith, at) in
    ap (λ l. clear_spaces (length text + suc k) l) apart
    ∙ ap (λ n. clear_spaces n (before ++ 0x20 ∷ tail)) size
    ∙ clear_spaces_go (length before) (before ++ 0x20 ∷ tail) (get_or-append before tail 0x20 0)
    ∙ ap (clear_spaces (length before)) (set-append before tail 0x20 0)
    ∙ ap (λ n. clear_spaces n (before ++ 0 ∷ tail)) at
    ∙ ap (λ l. clear_spaces (length text + k) l) (append_assoc text (replicate k 0x20) (0 ∷ tail))
    ∙ clear_spaces_padded k c body (0 ∷ tail) other
    ∙ ap (λ r. text ++ r) (replicate-append k 0 tail)

-- What a drive keeps of a string, as words of two characters: the first one is in the high byte.
abbrev pub Word : Type 0
Word = ℕ × ℕ

abbrev pub characters : List Word → List ℕ
characters [] = []
characters ((first, second) ∷ ws) = first ∷ second ∷ characters ws

-- The words in the memory of the processor, where the low byte of a word comes first.
abbrev pub stored : List Word → List ℕ
stored [] = []
stored ((high, low) ∷ ws) = low ∷ high ∷ stored ws

swap_pairs-stored : (ws : List Word) → swap_pairs (stored ws) ≡ characters ws
swap_pairs-stored [] = refl
swap_pairs-stored ((high, low) ∷ ws) = ap (λ r. high ∷ low ∷ r) (swap_pairs-stored ws)

length-stored : (ws : List Word) → length (stored ws) ≡ length (characters ws)
length-stored [] = refl
length-stored ((high, low) ∷ ws) = ap (λ n. suc (suc n)) (length-stored ws)

-- Of the words that a drive keeps, first character in the high byte, and that stand in memory with the low byte
-- first, ata_string reads the characters back, when they are a string that is not empty and does not end in a space,
-- padded with spaces: the string, a 0 for each space of the padding, and the 0 at the end, whatever follows
-- in the buffer.
pub ata_string-stored :
    (ws : List Word) (body rest : List ℕ) (c k : ℕ)
    → c ≢ 0x20
    → characters ws ≡ (body ++ c ∷ []) ++ replicate k 0x20
    → ata_string (length (stored ws)) (stored ws ++ rest)
      ≡ (body ++ c ∷ []) ++ (replicate k 0 ++ 0 ∷ [])
unfolding ata_string
ata_string-stored ws body rest c k other is =
    let text : List ℕ = body ++ c ∷ [] in
    let blank : ℕ = 0x20 in
    let size : ℕ = length (stored ws) in
    let whole : size ≡ length text + k =
      length-stored ws
      ∙ ap length is
      ∙ length-append text (replicate k blank)
      ∙ ap (λ n. length text + n) (length-replicate k blank) in
    ap (λ l. clear_spaces size (swap_pairs l ++ 0 ∷ [])) (take-append (stored ws) rest)
    ∙ ap (λ l. clear_spaces size (l ++ 0 ∷ [])) (swap_pairs-stored ws ∙ is)
    ∙ ap (clear_spaces size) (append_assoc text (replicate k 0x20) (0 ∷ []))
    ∙ ap (λ n. clear_spaces n (text ++ (replicate k 0x20 ++ 0 ∷ []))) whole
    ∙ clear_spaces_padded k c body (0 ∷ []) other
