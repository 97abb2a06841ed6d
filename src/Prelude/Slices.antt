-- ===== src/Prelude/Slices.antt =====
-- Slices of concatenations, by the lengths of the parts.
use Prim.Native.Nat.{ℕ, zero, suc, ◌-◌, ◌≤◌}
use mathlib.Core.Path.{◌≡◌, refl, ap, ◌∙◌, subst}
use mathlib.Core.List.{List, [], ◌∷◌, ◌++◌}
use mathlib.Core.Option.{some}
use native.Mathlib.Omega.{arith}
use adn_dmr_peer_server.Prelude.Lists.{
  length, take, drop, slice, get_elem?, take-append, drop-append,
}

module _ {ℓ} {A : Type ℓ} where
  pub take-append_at : (n : ℕ) (xs ys : List A) → length xs ≡ n → take n (xs ++ ys) ≡ xs
  take-append_at n xs ys h = subst (λ k. take k (xs ++ ys) ≡ xs) h (take-append xs ys)

  pub drop-append_at : (n : ℕ) (xs ys : List A) → length xs ≡ n → drop n (xs ++ ys) ≡ ys
  drop-append_at n xs ys h = subst (λ k. drop k (xs ++ ys) ≡ ys) h (drop-append xs ys)

  -- A field behind `pre` is read by its bounds.
  pub slice-field :
      (i j : ℕ) (pre xs post : List A)
      → length pre ≡ i
      → length xs ≡ j - i
      → slice i j (pre ++ (xs ++ post)) ≡ xs
  slice-field i j pre xs post h k =
      ap (take (j - i)) (drop-append_at i pre (xs ++ post) h) ∙ take-append_at (j - i) xs post k

  pub get_elem?-append_at :
      (n : ℕ) (xs ys : List A) (a : A) → length xs ≡ n → get_elem? (xs ++ (a ∷ ys)) n ≡ some a
  get_elem?-append_at zero [] ys a h = refl
  get_elem?-append_at (suc n) [] ys a h = absurd (omega arith)
  get_elem?-append_at zero (x ∷ xs) ys a h = absurd (omega arith)
  get_elem?-append_at (suc n) (x ∷ xs) ys a h = get_elem?-append_at n xs ys a (omega arith)

  -- Two cuts of a list give it back in three parts.
  pub take-append-drop : (n : ℕ) (xs : List A) → take n xs ++ drop n xs ≡ xs
  take-append-drop zero xs = refl
  take-append-drop (suc n) [] = refl
  take-append-drop (suc n) (x ∷ xs) = ap (λ t. x ∷ t) (take-append-drop n xs)

  pub take-append_le : (n : ℕ) (xs ys : List A) → n ≤ length xs → take n (xs ++ ys) ≡ take n xs
  take-append_le zero xs ys h = refl
  take-append_le (suc n) [] ys h = absurd (omega arith)
  take-append_le (suc n) (x ∷ xs) ys h = ap (λ t. x ∷ t) (take-append_le n xs ys (omega arith))

  pub take-all : (n : ℕ) (xs : List A) → length xs ≤ n → take n xs ≡ xs
  take-all zero [] h = refl
  take-all zero (x ∷ xs) h = absurd (omega arith)
  take-all (suc n) [] h = refl
  take-all (suc n) (x ∷ xs) h = ap (λ t. x ∷ t) (take-all n xs (omega arith))
