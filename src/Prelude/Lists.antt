-- ===== src/Prelude/Lists.antt =====
-- Lists measured and indexed by native numbers, under the library's names, and a block of memory
-- that a copy overwrites in part.
use Prim.Native.Nat.{ℕ, zero, suc, ◌+◌, ◌-◌, ◌≤◌, min}
use mathlib.Core.Path.{◌≡◌, refl, ap, sym, ◌∙◌}
use mathlib.Core.List.{List, [], ◌∷◌, ◌++◌}
use mathlib.Core.Option.{Option, none, some}
use native.Mathlib.Omega.{arith}

module _ {ℓ} {A : Type ℓ} where
  abbrev pub length : List A → ℕ
  length [] = 0
  length (x ∷ xs) = suc (length xs)

  abbrev pub get_elem? : List A → ℕ → Option A
  get_elem? [] i = none
  get_elem? (x ∷ xs) zero = some x
  get_elem? (x ∷ xs) (suc i) = get_elem? xs i

  abbrev pub take : ℕ → List A → List A
  take zero xs = []
  take (suc n) [] = []
  take (suc n) (x ∷ xs) = x ∷ take n xs

  abbrev pub drop : ℕ → List A → List A
  drop zero xs = xs
  drop (suc n) [] = []
  drop (suc n) (x ∷ xs) = drop n xs

  abbrev pub replicate : ℕ → A → List A
  replicate zero a = []
  replicate (suc n) a = a ∷ replicate n a

  pub length-append : (xs ys : List A) → length (xs ++ ys) ≡ length xs + length ys
  length-append [] ys = omega arith
  length-append (x ∷ xs) ys = omega (arith, length-append xs ys)

  pub length-take : (n : ℕ) (xs : List A) → length (take n xs) ≡ min n (length xs)
  length-take zero xs = omega arith
  length-take (suc n) [] = omega arith
  length-take (suc n) (x ∷ xs) = omega (arith, length-take n xs)

  pub length-drop : (n : ℕ) (xs : List A) → length (drop n xs) ≡ length xs - n
  length-drop zero xs = omega arith
  length-drop (suc n) [] = omega arith
  length-drop (suc n) (x ∷ xs) = omega (arith, length-drop n xs)

  pub length-replicate : (n : ℕ) (a : A) → length (replicate n a) ≡ n
  length-replicate zero a = refl
  length-replicate (suc n) a = ap suc (length-replicate n a)

module _ {ℓ} {A : Type ℓ} where
  -- A prefix that lies inside the first list.
  pub take-append : (n : ℕ) (xs ys : List A) → n ≤ length xs → take n (xs ++ ys) ≡ take n xs
  take-append zero xs ys h = refl
  take-append (suc n) [] ys h = absurd (omega arith)
  take-append (suc n) (x ∷ xs) ys h = rw (take-append n xs ys (omega arith))

  -- A prefix that reaches into the second list.
  pub take-append_past :
      (n : ℕ) (xs ys : List A) → take (length xs + n) (xs ++ ys) ≡ xs ++ take n ys
  take-append_past n [] ys = ap (λ k. take k ys) (omega arith)
  take-append_past n (x ∷ xs) ys = rw (← take-append_past n xs ys) (
      ap (λ k. take k (x ∷ (xs ++ ys))) {x = suc (length xs) + n} {y = suc (length xs + n)}
        (omega arith))

  pub take-ge : (n : ℕ) (xs : List A) → length xs ≤ n → take n xs ≡ xs
  take-ge zero [] h = refl
  take-ge zero (x ∷ xs) h = absurd (omega arith)
  take-ge (suc n) [] h = refl
  take-ge (suc n) (x ∷ xs) h = rw (take-ge n xs (omega arith))

  pub drop-nil : (n : ℕ) (xs : List A) → xs ≡ [] → drop n xs ≡ []
  drop-nil zero xs e = e
  drop-nil (suc n) xs e = rw e

  pub take-nil : (n : ℕ) (xs : List A) → xs ≡ [] → take n xs ≡ []
  take-nil zero xs e = refl
  take-nil (suc n) xs e = rw e

  pub take-zero : (n : ℕ) (xs : List A) → n ≡ 0 → take n xs ≡ []
  take-zero zero xs e = refl
  take-zero (suc n) xs e = absurd (omega arith)

  -- A prefix in two parts.
  pub take-add : (m n : ℕ) (xs : List A) → take (m + n) xs ≡ take m xs ++ take n (drop m xs)
  take-add zero n xs = ap (λ k. take k xs) (omega arith)
  take-add (suc m) n [] = take-nil (suc m + n) [] refl ∙ sym (take-nil n [] refl)
  take-add (suc m) n (x ∷ xs) =
      ap (λ k. take k (x ∷ xs)) {x = suc m + n} {y = suc (m + n)} (omega arith)
      ∙ ap (λ k. x ∷ k) (take-add m n xs)

  pub drop-add : (m n : ℕ) (xs : List A) → drop (m + n) xs ≡ drop n (drop m xs)
  drop-add zero n xs = ap (λ k. drop k xs) (omega arith)
  drop-add (suc m) n [] =
      ap (λ k. drop k []) {x = suc m + n} {y = suc (m + n)} (omega arith) ∙ sym (drop-nil n [] refl)
  drop-add (suc m) n (x ∷ xs) =
      ap (λ k. drop k (x ∷ xs)) {x = suc m + n} {y = suc (m + n)} (omega arith) ∙ drop-add m n xs

  pub take-append-drop : (n : ℕ) (xs : List A) → take n xs ++ drop n xs ≡ xs
  take-append-drop zero xs = refl
  take-append-drop (suc n) [] = refl
  take-append-drop (suc n) (x ∷ xs) = rw (take-append-drop n xs)

module _ {ℓ} {A : Type ℓ} where
  -- The block after a copy of `src` to offset `i`, which is meant to lie inside.
  abbrev pub splice : List A → ℕ → List A → List A
  splice block i src = take i block ++ src ++ drop (i + length src) block

  pub length-splice :
      (block : List A) (i : ℕ) (src : List A)
      → i + length src ≤ length block
      → length (splice block i src) ≡ length block
  length-splice block i src h = omega (
    arith,
    length-append (take i block ++ src) (drop (i + length src) block),
    length-append (take i block) src,
    length-take i block,
    length-drop (i + length src) block,
  )

  -- The copy extends the part of the block that stands before it.
  pub take-splice :
      (block : List A) (i : ℕ) (src : List A)
      → i + length src ≤ length block
      → take (i + length src) (splice block i src) ≡ take i block ++ src
  take-splice block i src h =
      take-append (i + length src) (take i block ++ src) (drop (i + length src) block)
        (omega (arith, length-append (take i block) src, length-take i block))
      ∙ take-ge (i + length src) (take i block ++ src)
          (omega (arith, length-append (take i block) src, length-take i block))

module _ {ℓ} {A : Type ℓ} where
  pub length-take_le : (n : ℕ) (xs : List A) → n ≤ length xs → length (take n xs) ≡ n
  length-take_le n xs h = omega (arith, length-take n xs)

  pub length-copy :
      (block : List A) (i n : ℕ) (src : List A)
      → i + n ≤ length block
      → n ≤ length src
      → length (splice block i (take n src)) ≡ length block
  length-copy block i n src h k =
      length-splice block i (take n src) (omega (arith, length-take_le n src))

  pub take-copy :
      (block : List A) (i n : ℕ) (src : List A)
      → i + n ≤ length block
      → n ≤ length src
      → take (i + n) (splice block i (take n src)) ≡ take i block ++ take n src
  take-copy block i n src h k =
      ap (λ m. take (i + m) (splice block i (take n src))) (sym (length-take_le n src k))
      ∙ take-splice block i (take n src) (omega (arith, length-take_le n src))

module _ {ℓ} {A : Type ℓ} where
  -- What is left behind the first list.
  pub drop-append_past : (n : ℕ) (xs ys : List A) → drop (length xs + n) (xs ++ ys) ≡ drop n ys
  drop-append_past n [] ys = ap (λ k. drop k ys) {x = 0 + n} (omega arith)
  drop-append_past n (x ∷ xs) ys =
      ap (λ k. drop k (x ∷ (xs ++ ys))) {x = suc (length xs) + n} {y = suc (length xs + n)}
        (omega arith)
      ∙ drop-append_past n xs ys

  -- A block whose front has been written: what the next copy leaves.
  pub splice-written :
      (xs src block : List A)
      → splice (xs ++ drop (length xs) block) (length xs) src
        ≡ (xs ++ src) ++ drop (length (xs ++ src)) block
  splice-written xs src block =
      let front : take (length xs) (xs ++ drop (length xs) block) ≡ xs =
        take-append (length xs) xs (drop (length xs) block) (omega arith)
        ∙ take-ge (length xs) xs (omega arith) in
      let back : drop (length xs + length src) (xs ++ drop (length xs) block)
          ≡ drop (length (xs ++ src)) block =
        drop-append_past (length src) xs (drop (length xs) block)
        ∙ sym (drop-add (length xs) (length src) block)
        ∙ ap (λ k. drop k block) (sym (length-append xs src)) in
      rw (front, back) refl
