-- ===== src/Prelude/Lists.antt =====
-- Lists measured by native numbers, under the library's names.
use Prim.Native.Nat.{ℕ, zero, suc, ◌+◌, ◌-◌, ◌≤◌, min}
use mathlib.Core.Path.{◌≡◌, refl, sym, ap, ◌∙◌}
use mathlib.Core.Option.{Option, none, some}
use mathlib.Core.List.{List, [], ◌∷◌, ◌++◌}
use native.Mathlib.Omega.{arith}

module _ {ℓ} {A : Type ℓ} where
  abbrev pub length : List A → ℕ
  length [] = 0
  length (x ∷ xs) = suc (length xs)

  abbrev pub take : ℕ → List A → List A
  take zero xs = []
  take (suc n) [] = []
  take (suc n) (x ∷ xs) = x ∷ take n xs

  abbrev pub drop : ℕ → List A → List A
  drop zero xs = xs
  drop (suc n) [] = []
  drop (suc n) (x ∷ xs) = drop n xs

  abbrev pub get_elem? : List A → ℕ → Option A
  get_elem? [] n = none
  get_elem? (x ∷ xs) zero = some x
  get_elem? (x ∷ xs) (suc n) = get_elem? xs n

  -- An element, if any, and what is behind it.
  abbrev pub uncons : Option A → List A → List A
  uncons none xs = []
  uncons (some x) xs = x ∷ xs

  pub drop-get_elem? : (n : ℕ) (xs : List A) → drop n xs ≡ uncons (get_elem? xs n) (drop (suc n) xs)
  drop-get_elem? zero [] = refl
  drop-get_elem? zero (x ∷ xs) = refl
  drop-get_elem? (suc n) [] = refl
  drop-get_elem? (suc n) (x ∷ xs) = drop-get_elem? n xs

  pub get_elem?-beyond : (n : ℕ) (xs : List A) → length xs ≤ n → get_elem? xs n ≡ none
  get_elem?-beyond n [] h = refl
  get_elem?-beyond zero (x ∷ xs) h = absurd (omega arith)
  get_elem?-beyond (suc n) (x ∷ xs) h = get_elem?-beyond n xs (omega arith)

  pub length-append : (xs ys : List A) → length (xs ++ ys) ≡ length xs + length ys
  length-append [] ys = omega arith
  length-append (x ∷ xs) ys = omega (arith, length-append xs ys)

  pub take-append-drop : (n : ℕ) (xs : List A) → take n xs ++ drop n xs ≡ xs
  take-append-drop zero xs = refl
  take-append-drop (suc n) [] = refl
  take-append-drop (suc n) (x ∷ xs) = rw (take-append-drop n xs)

  pub length-take : (n : ℕ) (xs : List A) → length (take n xs) ≡ min n (length xs)
  length-take zero xs = omega arith
  length-take (suc n) [] = omega arith
  length-take (suc n) (x ∷ xs) = omega (arith, length-take n xs)

  pub length-drop : (n : ℕ) (xs : List A) → length (drop n xs) ≡ length xs - n
  length-drop zero xs = omega arith
  length-drop (suc n) [] = omega arith
  length-drop (suc n) (x ∷ xs) = omega (arith, length-drop n xs)

  pub drop-all : (n : ℕ) (xs : List A) → length xs ≤ n → drop n xs ≡ []
  drop-all zero [] h = refl
  drop-all zero (x ∷ xs) h = absurd (omega arith)
  drop-all (suc n) [] h = refl
  drop-all (suc n) (x ∷ xs) h = drop-all n xs (omega arith)

  pub drop-add : (m n : ℕ) (xs : List A) → drop (m + n) xs ≡ drop n (drop m xs)
  drop-add zero n xs = ap (λ k. drop k xs) (omega arith)
  drop-add (suc m) n [] = drop-all (suc m + n) [] (omega arith) ∙ sym (drop-all n [] (omega arith))
  drop-add (suc m) n (x ∷ xs) = ap (λ k. drop k (x ∷ xs)) shift ∙ drop-add m n xs
    where
      shift : suc m + n ≡ suc (m + n)
      shift = omega arith

  pub take-all : (n : ℕ) (xs : List A) → length xs ≤ n → take n xs ≡ xs
  take-all zero [] h = refl
  take-all zero (x ∷ xs) h = absurd (omega arith)
  take-all (suc n) [] h = refl
  take-all (suc n) (x ∷ xs) h = ap (◌∷◌ x) (take-all n xs (omega arith))
