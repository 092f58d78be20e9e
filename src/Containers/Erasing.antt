-- ===== src/Containers/Erasing.antt =====
-- What `erase` of attos/containers.h does to the elements.
use attos.Common.{
  ℕ, zero, suc, ◌+◌, ◌≤◌, ◌≡◌, refl, ap, sym, ◌∙◌, List, [], ◌∷◌, ◌++◌, Option, none, some, ◌>>=◌,
  length, take, drop, arith,
}
use attos.Containers.KVector.{move_down, erase_from}

module _ {ℓ} {A : Type ℓ} where
  move_down_lem : (x : A) (rest : List A) → move_down x rest ≡ rest
  unfolding move_down
  move_down_lem x [] = refl
  move_down_lem x (y ∷ rest) = ap (λ l. y ∷ l) (move_down_lem y rest)

  erase_from_tail :
      (x : A) (rest ys : List A) (i : ℕ) (r : Option (List A))
      → erase_from rest i ≡ r
      → (r >>= (λ l. some (x ∷ l))) ≡ some ys
      → ((zs : List A) (j : ℕ)
          → erase_from rest j ≡ some zs
          → (zs ≡ take j rest ++ drop (suc j) rest) × (length zs + 1 ≡ length rest))
      → (ys ≡ x ∷ (take i rest ++ drop (suc i) rest)) × (length ys + 1 ≡ suc (length rest))
  erase_from_tail x rest ys i none s e ih = absurd cc
  erase_from_tail x rest ys i (some zs) s e ih = ground (arith, ih zs i s)

  pub erase_from_lem :
      (xs ys : List A) (i : ℕ)
      → erase_from xs i ≡ some ys
      → (ys ≡ take i xs ++ drop (suc i) xs) × (length ys + 1 ≡ length xs)
  unfolding erase_from
  erase_from_lem [] ys i e = absurd cc
  erase_from_lem (x ∷ rest) ys zero e =
      let got : some rest ≡ some ys = ap some (sym (move_down_lem x rest)) ∙ e in
      ground (arith, got)
  erase_from_lem (x ∷ rest) ys (suc i) e =
      erase_from_tail x rest ys i (erase_from rest i) refl e (erase_from_lem rest)

  pub drop_all : (n : ℕ) (xs : List A) → length xs ≤ n → drop n xs ≡ []
  drop_all zero [] h = refl
  drop_all zero (x ∷ xs) h = absurd (omega arith)
  drop_all (suc n) [] h = refl
  drop_all (suc n) (x ∷ xs) h = drop_all n xs (omega arith)
