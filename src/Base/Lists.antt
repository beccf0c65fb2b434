-- ===== src/Base/Lists.antt =====
-- C arrays and buffers as lists with native indices.
use Prim.Native.Nat.{ℕ, zero, suc, ◌+◌, ◌-◌, ◌≤◌, ◌<◌}
use mathlib.Core.Path.{◌≡◌, refl, ap, ◌∙◌}
use mathlib.Core.List.{List, [], ◌∷◌, ◌++◌, append-nil}
use native.Mathlib.Omega.{arith}

module _ {ℓ} {A : Type ℓ} where
  abbrev pub length : List A → ℕ
  length [] = 0
  length (x ∷ xs) = suc (length xs)

  abbrev pub get_or : List A → ℕ → A → A
  get_or [] i d = d
  get_or (x ∷ xs) zero d = x
  get_or (x ∷ xs) (suc i) d = get_or xs i d

  -- A write out of range changes nothing; the bounds theorems rule it out.
  abbrev pub set : List A → ℕ → A → List A
  set [] i v = []
  set (x ∷ xs) zero v = v ∷ xs
  set (x ∷ xs) (suc i) v = x ∷ set xs i v

  abbrev pub take : ℕ → List A → List A
  take zero xs = []
  take (suc n) [] = []
  take (suc n) (x ∷ xs) = x ∷ take n xs

  abbrev pub drop : ℕ → List A → List A
  drop zero xs = xs
  drop (suc n) [] = []
  drop (suc n) (x ∷ xs) = drop n xs

  abbrev pub replicate : ℕ → A → List A
  replicate zero a = []
  replicate (suc n) a = a ∷ replicate n a

  pub length-append : (xs ys : List A) → length (xs ++ ys) ≡ length xs + length ys
  length-append [] ys = omega arith
  length-append (x ∷ xs) ys = omega (arith, length-append xs ys)

  pub length-set : (xs : List A) (i : ℕ) (v : A) → length (set xs i v) ≡ length xs
  length-set [] i v = refl
  length-set (x ∷ xs) zero v = refl
  length-set (x ∷ xs) (suc i) v = ap suc (length-set xs i v)

  -- Writing just past a prefix extends it by the value written.
  pub take-set :
      (xs : List A) (n : ℕ) (v : A)
      → n < length xs
      → take (suc n) (set xs n v) ≡ take n xs ++ v ∷ []
  take-set [] n v h = absurd (omega arith)
  take-set (x ∷ xs) zero v h = refl
  take-set (x ∷ xs) (suc n) v h = ap (λ l. x ∷ l) (take-set xs n v (omega arith))

  pub length-take : (n : ℕ) (xs : List A) → n ≤ length xs → length (take n xs) ≡ n
  length-take zero xs h = refl
  length-take (suc n) [] h = absurd (omega arith)
  length-take (suc n) (x ∷ xs) h = ap suc (length-take n xs (omega arith))

  pub take_all : (n : ℕ) (xs : List A) → length xs ≤ n → take n xs ≡ xs
  take_all zero [] h = refl
  take_all zero (x ∷ xs) h = absurd (omega arith)
  take_all (suc n) [] h = refl
  take_all (suc n) (x ∷ xs) h = ap (λ l. x ∷ l) (take_all n xs (omega arith))

  pub take-append-drop : (n : ℕ) (xs : List A) → take n xs ++ drop n xs ≡ xs
  take-append-drop zero xs = refl
  take-append-drop (suc n) [] = refl
  take-append-drop (suc n) (x ∷ xs) = ap (λ l. x ∷ l) (take-append-drop n xs)

  pub length-drop : (n : ℕ) (xs : List A) → length (drop n xs) ≡ length xs - n
  length-drop zero xs = omega arith
  length-drop (suc n) [] = omega arith
  length-drop (suc n) (x ∷ xs) = omega (arith, length-drop n xs)

  pub length-replicate : (n : ℕ) (a : A) → length (replicate n a) ≡ n
  length-replicate zero a = refl
  length-replicate (suc n) a = ap suc (length-replicate n a)

  -- the `n` values of `f` from index `i` on
  abbrev pub fill : (ℕ → A) → ℕ → ℕ → List A
  fill f i zero = []
  fill f i (suc n) = f i ∷ fill f (i + 1) n

  -- `memcpy(&dst[at], src, len)`: the prefix up to `at`, the bytes, and what stood behind them.
  abbrev pub copy_at : List A → ℕ → List A → List A
  copy_at dst at src = take at dst ++ (src ++ drop (at + length src) dst)

  pub take-append : (xs ys : List A) (n : ℕ) → take (length xs + n) (xs ++ ys) ≡ xs ++ take n ys
  take-append [] ys n = ap (λ k. take k ys) (omega arith)
  take-append (x ∷ xs) ys n =
      ap (λ k. take k (x ∷ (xs ++ ys))) shift ∙ ap (λ l. x ∷ l) (take-append xs ys n)
    where
      shift : suc (length xs) + n ≡ suc (length xs + n)
      shift = omega arith

  pub length-copy_at :
      (dst : List A) (at : ℕ) (src : List A)
      → at + length src ≤ length dst
      → length (copy_at dst at src) ≡ length dst
  length-copy_at dst at src h = omega (
    arith,
    length-append (take at dst) (src ++ drop (at + length src) dst),
    length-append src (drop (at + length src) dst),
    length-take at dst (omega arith),
    length-drop (at + length src) dst,
  )

  -- What `memcpy` wrote is what stands there.
  pub take-copy_at :
      (dst : List A) (at : ℕ) (src : List A)
      → at + length src ≤ length dst
      → take (at + length src) (copy_at dst at src) ≡ take at dst ++ src
  take-copy_at dst at src h =
      ap (λ k. take k (take at dst ++ (src ++ rest))) end
      ∙ take-append (take at dst) (src ++ rest) (length src)
      ∙ ap (λ l. take at dst ++ l) (rw all at (take-append src rest 0) ∙ append-nil src)
    where
      rest : List A
      rest = drop (at + length src) dst

      end : at + length src ≡ length (take at dst) + length src
      end = omega (arith, length-take at dst (omega arith))

      all : length src + 0 ≡ length src
      all = omega arith

  pub take-copy_at_start :
      (dst src : List A) → length src ≤ length dst → take (length src) (copy_at dst 0 src) ≡ src
  take-copy_at_start dst src h =
      ap (λ k. take k (copy_at dst 0 src)) at_start ∙ take-copy_at dst 0 src (omega arith)
    where
      at_start : length src ≡ 0 + length src
      at_start = omega arith

-- Each element has the property.
abbrev pub All : {A : Type 0} → (A → Type 0) → List A → Type 0
All P [] = Unit
All P (x ∷ xs) = P x × All P xs

pub All-append :
    {A : Type 0} (P : A → Type 0) (xs ys : List A) → All P xs → All P ys → All P (xs ++ ys)
All-append P [] ys hx hy = hy
All-append P (x ∷ xs) ys hx hy = (hx.0, All-append P xs ys hx.1 hy)
