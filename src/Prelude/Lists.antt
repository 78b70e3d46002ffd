-- ===== src/Prelude/Lists.antt =====
-- Lists measured and indexed by native numbers, under the library's names.
use Prim.Native.Nat.{ℕ, zero, suc, ◌+◌, ◌-◌, ◌<◌, ◌≤◌}
use mathlib.Core.Path.{◌≡◌, refl, sym, ap, ap₂, ◌∙◌, subst, subst₂}
use mathlib.Core.List.{List, [], ◌∷◌, ◌++◌}
use mathlib.Core.Option.{Option, none, some}
use native.Mathlib.Nat.{add-zero}
use native.Mathlib.Omega.{arith}

module _ {ℓ} {A : Type ℓ} where
  abbrev pub length : List A → ℕ
  length [] = 0
  length (x ∷ xs) = suc (length xs)

  abbrev pub get_elem? : List A → ℕ → Option A
  get_elem? [] i = none
  get_elem? (x ∷ xs) zero = some x
  get_elem? (x ∷ xs) (suc i) = get_elem? xs i

  abbrev pub get_or : List A → ℕ → A → A
  get_or [] i d = d
  get_or (x ∷ xs) zero d = x
  get_or (x ∷ xs) (suc i) d = get_or xs i d

  abbrev pub take : ℕ → List A → List A
  take zero xs = []
  take (suc n) [] = []
  take (suc n) (x ∷ xs) = x ∷ take n xs

  abbrev pub drop : ℕ → List A → List A
  drop zero xs = xs
  drop (suc n) [] = []
  drop (suc n) (x ∷ xs) = drop n xs

  abbrev pub replicate : ℕ → A → List A
  replicate zero a = []
  replicate (suc n) a = a ∷ replicate n a

  -- f i, f (i + 1), …, f (i + n - 1)
  abbrev pub tabulate_from : (ℕ → A) → ℕ → ℕ → List A
  tabulate_from f i zero = []
  tabulate_from f i (suc n) = f i ∷ tabulate_from f (i + 1) n

  pub length-append : (xs ys : List A) → length (xs ++ ys) ≡ length xs + length ys
  length-append [] ys = omega arith
  length-append (x ∷ xs) ys = omega (arith, length-append xs ys)

  pub length-replicate : (n : ℕ) (a : A) → length (replicate n a) ≡ n
  length-replicate zero a = refl
  length-replicate (suc n) a = ap suc (length-replicate n a)

  pub length-drop : (n : ℕ) (xs : List A) → length (drop n xs) ≡ length xs - n
  length-drop zero xs = omega arith
  length-drop (suc n) [] = omega arith
  length-drop (suc n) (x ∷ xs) = omega (arith, length-drop n xs)

  pub length-tabulate_from : (f : ℕ → A) (i n : ℕ) → length (tabulate_from f i n) ≡ n
  length-tabulate_from f i zero = refl
  length-tabulate_from f i (suc n) = ap suc (length-tabulate_from f (i + 1) n)

  pub tabulate_from-add :
      (f : ℕ → A) (i m n k : ℕ)
      → i + m ≡ k
      → tabulate_from f i (m + n) ≡ tabulate_from f i m ++ tabulate_from f k n
  tabulate_from-add f i zero n k e = ap₂ (tabulate_from f) (omega arith) (omega arith)
  tabulate_from-add f i (suc m) n k e =
      ap (tabulate_from f i) {y = suc (m + n)} (omega arith)
      ∙ ap (λ t. f i ∷ t) (tabulate_from-add f (i + 1) m n k (omega arith))

  -- Two tables that agree at each place below `n`.
  pub tabulate_from-congr :
      (f g : ℕ → A) (i j n : ℕ)
      → ((k : ℕ) → k < n → f (i + k) ≡ g (j + k))
      → tabulate_from f i n ≡ tabulate_from g j n
  tabulate_from-congr f g i j zero h = refl
  tabulate_from-congr f g i j (suc n) h =
      ap₂ ◌∷◌ (subst₂ (λ a b. f a ≡ g b) (add-zero i) (add-zero j) (h 0 (omega arith))) (
        tabulate_from-congr f g (i + 1) (j + 1) n
          λ k lt. subst₂ (λ a b. f a ≡ g b) (omega arith) (omega arith) (h (suc k) (omega arith)))

  pub replicate-eq-tabulate_from :
      (f : ℕ → A) (a : A) (i n : ℕ)
      → ((k : ℕ) → k < n → f (i + k) ≡ a)
      → replicate n a ≡ tabulate_from f i n
  replicate-eq-tabulate_from f a i zero h = refl
  replicate-eq-tabulate_from f a i (suc n) h =
      ap₂ ◌∷◌ (subst (λ b. a ≡ f b) (add-zero i) (sym (h 0 (omega arith)))) (
        replicate-eq-tabulate_from f a (i + 1) n
          λ k lt. subst (λ b. f b ≡ a) (omega arith) (h (suc k) (omega arith)))

  pub drop-append : (xs ys : List A) → drop (length xs) (xs ++ ys) ≡ ys
  drop-append [] ys = refl
  drop-append (x ∷ xs) ys = drop-append xs ys

  pub take-length : (xs : List A) (n : ℕ) → length xs ≤ n → take n xs ≡ xs
  take-length [] zero h = refl
  take-length [] (suc n) h = refl
  take-length (x ∷ xs) zero h = absurd (omega arith)
  take-length (x ∷ xs) (suc n) h = ap (λ t. x ∷ t) (take-length xs n (omega arith))
