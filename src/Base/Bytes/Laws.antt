-- ===== src/Base/Bytes/Laws.antt =====
-- How slices and overwritten arrays meet one another and `++`.
use Prim.Native.Nat.{ℕ, zero, suc, ◌+◌, ◌-◌, ◌≤◌}
use mathlib.Core.Path.{◌≡◌, refl, ap, sym, ◌∙◌}
use mathlib.Core.List.{List, [], ◌∷◌, ◌++◌}
use native.Mathlib.Omega.{arith}
use tinytcp.Base.Lists.{length, take, drop, length-take, length-drop}
use tinytcp.Base.Bytes.{slice, overwrite}

module _ {A : Type 0} where
  pub take-nil : (n : ℕ) → take {A = A} n [] ≡ []
  take-nil zero = refl
  take-nil (suc n) = refl

  pub drop-nil : (n : ℕ) → drop {A = A} n [] ≡ []
  drop-nil zero = refl
  drop-nil (suc n) = refl

  pub length-overwrite : (xs : List A) (i : ℕ) (s : List A) → length (overwrite xs i s) ≡ length xs
  length-overwrite [] i s = refl
  length-overwrite (x ∷ xs) (suc i) s = ap suc (length-overwrite xs i s)
  length-overwrite (x ∷ xs) zero [] = refl
  length-overwrite (x ∷ xs) zero (y ∷ s) = ap suc (length-overwrite xs zero s)

  pub length-slice : (xs : List A) (i n : ℕ) → i + n ≤ length xs → length (slice xs i n) ≡ n
  length-slice xs i n h = omega (arith, length-take n (drop i xs), length-drop i xs)

  pub overwrite-nil : (xs : List A) (i : ℕ) → overwrite xs i [] ≡ xs
  overwrite-nil [] i = refl
  overwrite-nil (x ∷ xs) zero = refl
  overwrite-nil (x ∷ xs) (suc i) = ap (◌∷◌ x) (overwrite-nil xs i)

  pub overwrite-append_right :
      (xs ys : List A) (i : ℕ) (s : List A)
      → overwrite (xs ++ ys) (length xs + i) s ≡ xs ++ overwrite ys i s
  overwrite-append_right [] ys i s = ap (λ (t : ℕ). overwrite ys t s) (omega arith)
  overwrite-append_right (x ∷ xs) ys i s =
      ap (λ (t : ℕ). overwrite (x ∷ xs ++ ys) t s) {y = suc (length xs + i)} (omega arith)
      ∙ ap (◌∷◌ x) (overwrite-append_right xs ys i s)

  pub overwrite-append_left :
      (xs ys : List A) (i : ℕ) (s : List A)
      → i + length s ≤ length xs
      → overwrite (xs ++ ys) i s ≡ overwrite xs i s ++ ys
  overwrite-append_left [] ys i [] h = overwrite-nil ys i
  overwrite-append_left [] ys i (z ∷ s) h = absurd (omega arith)
  overwrite-append_left (x ∷ xs) ys (suc i) s h =
      ap (◌∷◌ x) (overwrite-append_left xs ys i s (omega arith))
  overwrite-append_left (x ∷ xs) ys zero [] h = refl
  overwrite-append_left (x ∷ xs) ys zero (z ∷ s) h =
      ap (◌∷◌ z) (overwrite-append_left xs ys zero s (omega arith))

  pub overwrite-overwrite :
      (xs : List A) (i : ℕ) (a b : List A)
      → overwrite (overwrite xs i a) (i + length a) b ≡ overwrite xs i (a ++ b)
  overwrite-overwrite [] i a b = refl
  overwrite-overwrite (x ∷ xs) (suc i) a b =
      ap (λ (t : ℕ). overwrite (x ∷ overwrite xs i a) t b) {y = suc (i + length a)} (omega arith)
      ∙ ap (◌∷◌ x) (overwrite-overwrite xs i a b)
  overwrite-overwrite (x ∷ xs) zero [] b = refl
  overwrite-overwrite (x ∷ xs) zero (y ∷ a) b =
      ap (λ (t : ℕ). overwrite (y ∷ overwrite xs zero a) t b) {y = suc (zero + length a)}
        (omega arith)
      ∙ ap (◌∷◌ y) (overwrite-overwrite xs zero a b)

  take-overwrite :
      (xs : List A) (s o : ℕ) (src : List A)
      → o + length src ≤ s
      → take s (overwrite xs o src) ≡ overwrite (take s xs) o src
  take-overwrite [] s o src h = take-nil s ∙ sym (ap (λ t. overwrite t o src) (take-nil s))
  take-overwrite (x ∷ xs) zero o [] h = refl
  take-overwrite (x ∷ xs) zero o (y ∷ src) h = absurd (omega arith)
  take-overwrite (x ∷ xs) (suc s) (suc o) src h =
      ap (◌∷◌ x) (take-overwrite xs s o src (omega arith))
  take-overwrite (x ∷ xs) (suc s) zero [] h = refl
  take-overwrite (x ∷ xs) (suc s) zero (y ∷ src) h =
      ap (◌∷◌ y) (take-overwrite xs s zero src (omega arith))

  -- What a block shows of a write inside its bytes.
  pub slice-overwrite :
      (xs : List A) (d s o : ℕ) (src : List A)
      → d ≤ o
      → o + length src ≤ d + s
      → slice (overwrite xs o src) d s ≡ overwrite (slice xs d s) (o - d) src
  slice-overwrite xs zero s o src h g =
      take-overwrite xs s o src (omega arith)
      ∙ ap (λ (t : ℕ). overwrite (take s xs) t src) (omega arith)
  slice-overwrite [] (suc d) s o src h g =
      take-nil s ∙ sym (ap (λ t. overwrite t (o - suc d) src) (take-nil s))
  slice-overwrite (x ∷ xs) (suc d) s zero src h g = absurd (omega arith)
  slice-overwrite (x ∷ xs) (suc d) s (suc o) src h g =
      slice-overwrite xs d s o src (omega arith) (omega arith)
      ∙ ap (λ (t : ℕ). overwrite (slice xs d s) t src) (omega arith)

  pub slice-append_right :
      (xs ys : List A) (i n : ℕ) → slice (xs ++ ys) (length xs + i) n ≡ slice ys i n
  slice-append_right [] ys i n = ap (λ (t : ℕ). slice ys t n) (omega arith)
  slice-append_right (x ∷ xs) ys i n =
      ap (λ (t : ℕ). slice (x ∷ xs ++ ys) t n) {y = suc (length xs + i)} (omega arith)
      ∙ slice-append_right xs ys i n

  take-append_left : (xs ys : List A) (n : ℕ) → n ≤ length xs → take n (xs ++ ys) ≡ take n xs
  take-append_left xs ys zero h = refl
  take-append_left [] ys (suc n) h = absurd (omega arith)
  take-append_left (x ∷ xs) ys (suc n) h = ap (◌∷◌ x) (take-append_left xs ys n (omega arith))

  pub slice-append_left :
      (xs ys : List A) (i n : ℕ) → i + n ≤ length xs → slice (xs ++ ys) i n ≡ slice xs i n
  slice-append_left xs ys zero n h = take-append_left xs ys n (omega arith)
  slice-append_left [] ys (suc i) n h = absurd (omega arith)
  slice-append_left (x ∷ xs) ys (suc i) n h = slice-append_left xs ys i n (omega arith)

  slice-take : (xs : List A) (s i n : ℕ) → i + n ≤ s → slice (take s xs) i n ≡ slice xs i n
  slice-take [] s i n h = ap (λ t. slice t i n) (take-nil s)
  slice-take (x ∷ xs) zero zero zero h = refl
  slice-take (x ∷ xs) zero zero (suc n) h = absurd (omega arith)
  slice-take (x ∷ xs) zero (suc i) n h = absurd (omega arith)
  slice-take (x ∷ xs) (suc s) zero zero h = refl
  slice-take (x ∷ xs) (suc s) zero (suc n) h = ap (◌∷◌ x) (slice-take xs s zero n (omega arith))
  slice-take (x ∷ xs) (suc s) (suc i) n h = slice-take xs s i n (omega arith)

  -- What a block shows of a read inside its bytes.
  pub slice-slice :
      (xs : List A) (d s i n : ℕ) → i + n ≤ s → slice (slice xs d s) i n ≡ slice xs (d + i) n
  slice-slice xs zero s i n h = slice-take xs s i n h ∙ ap (λ (t : ℕ). slice xs t n) (omega arith)
  slice-slice [] (suc d) s i n h =
      ap (λ t. slice t i n) (take-nil s) ∙ ap (take n) (drop-nil i ∙ sym (drop-nil (suc d + i)))
  slice-slice (x ∷ xs) (suc d) s i n h =
      slice-slice xs d s i n h ∙ ap (λ (t : ℕ). slice (x ∷ xs) t n) {x = suc (d + i)} (omega arith)

  pub take-append-drop : (xs : List A) (a b : ℕ) → take a xs ++ take b (drop a xs) ≡ take (a + b) xs
  take-append-drop xs zero b = ap (λ (t : ℕ). take t xs) (omega arith)
  take-append-drop [] (suc a) b = take-nil b ∙ sym (take-nil (suc a + b))
  take-append-drop (x ∷ xs) (suc a) b =
      ap (◌∷◌ x) (take-append-drop xs a b)
      ∙ ap (λ (t : ℕ). take t (x ∷ xs)) {x = suc (a + b)} (omega arith)

  pub slice-append-slice :
      (xs : List A) (i a b : ℕ) → slice xs i a ++ slice xs (i + a) b ≡ slice xs i (a + b)
  slice-append-slice xs zero a b =
      ap (λ (t : ℕ). take a xs ++ slice xs t b) (omega arith) ∙ take-append-drop xs a b
  slice-append-slice [] (suc i) a b =
      ap₃ (take-nil a) (ap (take b) (drop-nil (suc i + a)) ∙ take-nil b) ∙ sym (take-nil (a + b))
    where
      ap₃ : {u v w z : List A} → u ≡ v → w ≡ z → u ++ w ≡ v ++ z
      ap₃ p q = λ i. p i ++ q i
  slice-append-slice (x ∷ xs) (suc i) a b =
      ap (λ (t : ℕ). slice xs i a ++ slice (x ∷ xs) t b) {y = suc (i + a)} (omega arith)
      ∙ slice-append-slice xs i a b

  -- What was written is read back.
  pub slice-overwrite_self :
      (xs : List A) (i : ℕ) (s : List A)
      → i + length s ≤ length xs
      → slice (overwrite xs i s) i (length s) ≡ s
  slice-overwrite_self [] i [] h = ap (take 0) (drop-nil i)
  slice-overwrite_self [] i (y ∷ s) h = absurd (omega arith)
  slice-overwrite_self (x ∷ xs) (suc i) s h = slice-overwrite_self xs i s (omega arith)
  slice-overwrite_self (x ∷ xs) zero [] h = refl
  slice-overwrite_self (x ∷ xs) zero (y ∷ s) h =
      ap (◌∷◌ y) (slice-overwrite_self xs zero s (omega arith))

  pub drop-append_left :
      (xs ys : List A) (n : ℕ) → n ≤ length xs → drop n (xs ++ ys) ≡ drop n xs ++ ys
  drop-append_left xs ys zero h = refl
  drop-append_left [] ys (suc n) h = absurd (omega arith)
  drop-append_left (x ∷ xs) ys (suc n) h = drop-append_left xs ys n (omega arith)

  pub drop-append_right :
      (xs ys : List A) (n : ℕ) → length xs ≤ n → drop n (xs ++ ys) ≡ drop (n - length xs) ys
  drop-append_right [] ys n h = ap (λ (t : ℕ). drop t ys) (omega arith)
  drop-append_right (x ∷ xs) ys zero h = absurd (omega arith)
  drop-append_right (x ∷ xs) ys (suc n) h =
      drop-append_right xs ys n (omega arith) ∙ ap (λ (t : ℕ). drop t ys) (omega arith)

  drop-take : (xs : List A) (s n : ℕ) → drop s (take n xs) ≡ take (n - s) (drop s xs)
  drop-take xs zero n = ap (λ (t : ℕ). take t xs) (omega arith)
  drop-take [] (suc s) n = ap (drop (suc s)) (take-nil n) ∙ sym (take-nil (n - suc s))
  drop-take (x ∷ xs) (suc s) zero = sym (ap (λ (t : ℕ). take t (drop s xs)) {y = 0} (omega arith))
  drop-take (x ∷ xs) (suc s) (suc n) =
      drop-take xs s n ∙ ap (λ (t : ℕ). take t (drop s xs)) (omega arith)

  drop-drop : (xs : List A) (i j : ℕ) → drop i (drop j xs) ≡ drop (j + i) xs
  drop-drop xs i zero = ap (λ (t : ℕ). drop t xs) (omega arith)
  drop-drop [] i (suc j) = drop-nil i ∙ sym (drop-nil (suc j + i))
  drop-drop (x ∷ xs) i (suc j) =
      drop-drop xs i j ∙ ap (λ (t : ℕ). drop t (x ∷ xs)) {x = suc (j + i)} (omega arith)

  -- Bytes taken off the front of a slice.
  pub drop-slice : (xs : List A) (i n s : ℕ) → drop s (slice xs i n) ≡ slice xs (i + s) (n - s)
  drop-slice xs i n s = drop-take (drop i xs) s n ∙ ap (take (n - s)) (drop-drop xs s i)
