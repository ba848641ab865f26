-- ===== src/Base/Cuts.antt =====
-- Lists that are cut behind a prefix.
use unito_blockchain_25_26_p.Base.{List, [], arith, refl, suc, zero, ℕ, ◌++◌, ◌∷◌, ◌≡◌, ◌≤◌}
use unito_blockchain_25_26_p.Base.Lists.{length, take}

module _ {ℓ} {A : Type ℓ} where
  -- `xs[n:]`
  abbrev pub drop : ℕ → List A → List A
  drop zero xs = xs
  drop (suc n) [] = []
  drop (suc n) (x ∷ xs) = drop n xs

  pub take_append : (n : ℕ) (xs ys : List A) → length xs ≡ n → take n (xs ++ ys) ≡ xs
  take_append zero [] ys e = refl
  take_append zero (x ∷ xs) ys e = absurd (omega arith)
  take_append (suc n) [] ys e = absurd (omega arith)
  take_append (suc n) (x ∷ xs) ys e = cc (take_append n xs ys (omega arith))

  pub drop_append : (n : ℕ) (xs ys : List A) → length xs ≡ n → drop n (xs ++ ys) ≡ ys
  drop_append zero [] ys e = refl
  drop_append zero (x ∷ xs) ys e = absurd (omega arith)
  drop_append (suc n) [] ys e = absurd (omega arith)
  drop_append (suc n) (x ∷ xs) ys e = drop_append n xs ys (omega arith)

  pub drop_of_length_le : (n : ℕ) (xs : List A) → length xs ≤ n → drop n xs ≡ []
  drop_of_length_le zero [] h = refl
  drop_of_length_le zero (x ∷ xs) h = absurd (omega arith)
  drop_of_length_le (suc n) [] h = refl
  drop_of_length_le (suc n) (x ∷ xs) h = drop_of_length_le n xs (omega arith)
