-- ===== src/Ps2/Buffer.antt =====
-- `fixed_size_queue<uint8_t, 32>` of kernel/ps2.cpp, the one instance of the template.
use attos.Common.{
  ℕ, zero, suc, ◌+◌, ◌-◌, ◌%◌, ◌^◌, ◌≤◌, ◌<◌, ◌≡◌, refl, ap, ◌∙◌, List, [], ◌∷◌, ◌++◌, Bool, ◌==◌,
  arith, length, get_or, set, u32, length-set, get_or-set_self, get_or-set_ne, replicate,
}

-- `Size`, a power of two: `pos & (Size - 1)` is `pos % Size`.
abbrev pub capacity : ℕ
capacity = 32

-- The positions are `uint32_t`, and run on beyond the capacity.
pub record Queue : Type 0 where
  pub elems : List ℕ
  pub read_pos : ℕ
  pub write_pos : ℕ

abbrev pub new : Queue
new = record { elems = replicate capacity 0; read_pos = 0; write_pos = 0 }

unfoldable pub size : Queue → ℕ
size q = u32 (2 ^ 32 + q.write_pos - q.read_pos)

unfoldable pub empty : Queue → Bool
empty q = size q == 0

unfoldable pub full : Queue → Bool
full q = size q == capacity

unfoldable pub push : Queue → ℕ → Queue
push q elem = record q {
  elems = set q.elems (q.write_pos % capacity) elem;
  write_pos = u32 (q.write_pos + 1);
}

unfoldable pub pop : Queue → ℕ × Queue
pop q = (get_or q.elems (q.read_pos % capacity) 0, record q { read_pos = u32 (q.read_pos + 1) })

-- The iteration from a position on, over `n` elements.
unfoldable pub iterate : List ℕ → ℕ → ℕ → List ℕ
iterate elems pos zero = []
iterate elems pos (suc n) = get_or elems (pos % capacity) 0 ∷ iterate elems (u32 (pos + 1)) n

-- What `begin()` to `end()` runs through.
unfoldable pub contents : Queue → List ℕ
contents q = iterate q.elems q.read_pos (size q)

pub record IsQueue (q : Queue) : Type 0 where
  pub room : length q.elems ≡ capacity
  pub read_word : q.read_pos < 2 ^ 32
  pub write_word : q.write_pos < 2 ^ 32
  pub bounded : size q ≤ capacity

length-iterate : (elems : List ℕ) (pos n : ℕ) → length (iterate elems pos n) ≡ n
unfolding iterate
length-iterate elems pos zero = refl
length-iterate elems pos (suc n) = ap suc (length-iterate elems (u32 (pos + 1)) n)

pub length-contents : (q : Queue) → length (contents q) ≡ size q
unfolding contents
length-contents q = length-iterate q.elems q.read_pos (size q)

-- Writing behind the elements that are iterated over leaves them, and adds one.
iterate-push :
    (elems : List ℕ) (pos n i x : ℕ)
    → length elems ≡ capacity
    → pos < 2 ^ 32
    → n < capacity
    → (pos + n) % capacity ≡ i
    → iterate (set elems i x) pos (suc n) ≡ iterate elems pos n ++ x ∷ []
unfolding iterate
iterate-push elems pos zero i x len word lt e =
    let here : pos % capacity ≡ i = omega (arith, e) in
    rw here (ap (λ v. v ∷ []) (get_or-set_self elems i x 0 (omega (arith, e, len))))
iterate-push elems pos (suc n) i x len word lt e =
    rw (get_or-set_ne elems i (pos % capacity) x 0 (λ same. omega (arith, e, same))) (
      ap (λ l. get_or elems (pos % capacity) 0 ∷ l)
        (iterate-push elems (u32 (pos + 1)) n i x len (omega arith) (omega arith)
          (omega (arith, e))))

-- A push to a queue that is not full adds its element at the end.
pub contents-push :
    (q : Queue) (x : ℕ)
    → IsQueue q
    → size q < capacity
    → IsQueue (push q x) × (contents (push q x) ≡ contents q ++ x ∷ [])
unfolding push contents
contents-push q x v lt =
    let i : ℕ = q.write_pos % capacity in
    let at : (q.read_pos + size q) % capacity ≡ i =
      unfold size in omega (arith, v.read_word, v.write_word) in
    let more : size (record q { elems = set q.elems i x; write_pos = u32 (q.write_pos + 1) })
        ≡ suc (size q) =
      unfold size in omega (arith, v.read_word, v.write_word) in
    (
      record {
        room = length-set q.elems i x ∙ v.room;
        read_word = v.read_word;
        write_word = omega arith;
        bounded = omega (arith, more);
      },
      rw more (iterate-push q.elems q.read_pos (size q) i x v.room v.read_word lt at),
    )

pop-iterate :
    (q : Queue) (x : ℕ) (xs : List ℕ) (n : ℕ)
    → IsQueue q
    → size q ≡ n
    → iterate q.elems q.read_pos n ≡ x ∷ xs
    → ((pop q).0 ≡ x) × (contents (pop q).1 ≡ xs) × IsQueue (pop q).1
unfolding contents pop iterate
pop-iterate q x xs zero v s e = absurd cc
pop-iterate q x xs (suc n) v s e =
    let less : size (record q { read_pos = u32 (q.read_pos + 1) }) ≡ n =
      unfold size in omega (arith, s, v.read_word, v.write_word) in
    (
      cc,
      rw less cc,
      record {
        room = v.room;
        read_word = omega arith;
        write_word = v.write_word;
        bounded = omega (arith, less, v.bounded, s);
      },
    )

-- A pop takes the first element.
pub contents-pop :
    (q : Queue) (x : ℕ) (xs : List ℕ)
    → IsQueue q
    → contents q ≡ x ∷ xs
    → ((pop q).0 ≡ x) × (contents (pop q).1 ≡ xs) × IsQueue (pop q).1
unfolding contents
contents-pop q x xs v e = pop-iterate q x xs (size q) v refl e
