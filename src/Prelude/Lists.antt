-- ===== src/Prelude/Lists.antt =====
-- Lists measured and indexed by native numbers, under the library's names.
use Prim.Native.Nat.{ℕ, zero, suc, ◌+◌, ◌≤◌}
use mathlib.Core.Path.{◌≡◌, refl, ap, ◌∙◌, subst}
use mathlib.Core.Option.{Option, none, some}
use mathlib.Core.List.{List, [], ◌∷◌, ◌++◌}
use native.Mathlib.Omega.{arith}

module _ {ℓ} {A : Type ℓ} where
  abbrev pub length : List A → ℕ
  length [] = 0
  length (x ∷ xs) = suc (length xs)

  abbrev pub take : ℕ → List A → List A
  take zero xs = []
  take (suc n) [] = []
  take (suc n) (x ∷ xs) = x ∷ take n xs

  abbrev pub drop : ℕ → List A → List A
  drop zero xs = xs
  drop (suc n) [] = []
  drop (suc n) (x ∷ xs) = drop n xs

  pub length-append : (xs ys : List A) → length (xs ++ ys) ≡ length xs + length ys
  length-append [] ys = omega arith
  length-append (x ∷ xs) ys = omega (arith, length-append xs ys)

  pub take-length_append : (xs ys : List A) → take (length xs) (xs ++ ys) ≡ xs
  take-length_append [] ys = refl
  take-length_append (x ∷ xs) ys = ap (◌∷◌ x) (take-length_append xs ys)

  pub drop-length_append : (xs ys : List A) → drop (length xs) (xs ++ ys) ≡ ys
  drop-length_append [] ys = refl
  drop-length_append (x ∷ xs) ys = drop-length_append xs ys

  pub drop-behind : (c : A) (xs ys : List A) → drop (length xs + 1) (xs ++ c ∷ ys) ≡ ys
  drop-behind c [] ys = refl
  drop-behind c (x ∷ xs) ys =
      let e : suc (length xs + 1) ≡ suc (length xs) + 1 = omega arith in
      subst (λ n. drop n (x ∷ (xs ++ c ∷ ys)) ≡ ys) e (drop-behind c xs ys)

  pub take-all : (n : ℕ) (xs : List A) → length xs ≤ n → take n xs ≡ xs
  take-all zero [] h = refl
  take-all zero (x ∷ xs) h = absurd (omega arith)
  take-all (suc n) [] h = refl
  take-all (suc n) (x ∷ xs) h = ap (◌∷◌ x) (take-all n xs (omega arith))

  pub length-drop-le : (n : ℕ) (xs : List A) → length (drop n xs) ≤ length xs
  length-drop-le zero xs = omega arith
  length-drop-le (suc n) [] = omega arith
  length-drop-le (suc n) (x ∷ xs) = omega (arith, length-drop-le n xs)

-- What a partial function picks from a list, in order.
module _ {ℓ} {B : Type ℓ} where
  abbrev pub cons? : Option B → List B → List B
  cons? none ys = ys
  cons? (some y) ys = y ∷ ys

  cons?-append : (y : Option B) (ys zs : List B) → cons? y (ys ++ zs) ≡ cons? y ys ++ zs
  cons?-append none ys zs = refl
  cons?-append (some y) ys zs = refl

module _ {ℓ κ} {A : Type ℓ} {B : Type κ} where
  abbrev pub select : (A → Option B) → List A → List B
  select f [] = []
  select f (x ∷ xs) = cons? (f x) (select f xs)

  pub select-append :
      (f : A → Option B) (xs ys : List A) → select f (xs ++ ys) ≡ select f xs ++ select f ys
  select-append f [] ys = refl
  select-append f (x ∷ xs) ys =
      ap (cons? (f x)) (select-append f xs ys) ∙ cons?-append (f x) (select f xs) (select f ys)
