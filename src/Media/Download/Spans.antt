-- ===== src/Media/Download/Spans.antt =====
-- Spans of a file: `between file a b` is its bytes from `a` up to `b`.
use wbf_matrix_client.Common.{
  ℕ, zero, suc, ◌+◌, ◌-◌, ◌≤◌, ◌≡◌, refl, sym, ap, ◌∙◌, arith, List, [], ◌∷◌, ◌++◌, some, length,
  take, drop, drop-drop, length-take, length-drop, slice, slice_lem, take_all,
}

module _ {ℓ} {A : Type ℓ} where
  abbrev pub between : List A → ℕ → ℕ → List A
  between xs a b = take (b - a) (drop a xs)

  pub length-between : (xs : List A) (a b : ℕ) → b ≤ length xs → length (between xs a b) ≡ b - a
  length-between xs a b h = omega (arith, length-take (b - a) (drop a xs), length-drop a xs)

  drop-take : (m n : ℕ) (xs : List A) → drop m (take n xs) ≡ take (n - m) (drop m xs)
  drop-take zero n xs = let e : n ≡ n - 0 = omega arith in ap (λ k. take k xs) e
  drop-take (suc m) zero xs =
      let e : 0 ≡ 0 - suc m = omega arith in ap (λ k. take k (drop (suc m) xs)) e
  drop-take (suc m) (suc n) [] = sym (take_all (suc n - suc m) [] (omega arith))
  drop-take (suc m) (suc n) (x ∷ xs) =
      let e : n - m ≡ suc n - suc m = omega arith in
      drop-take m n xs ∙ ap (λ k. take k (drop m xs)) e

  pub take-take : (m n : ℕ) (xs : List A) → m ≤ n → take m (take n xs) ≡ take m xs
  take-take zero n xs h = refl
  take-take (suc m) zero xs h = absurd (omega arith)
  take-take (suc m) (suc n) [] h = refl
  take-take (suc m) (suc n) (x ∷ xs) h = ap (λ t. x ∷ t) (take-take m n xs (omega arith))

  -- A span of a span.
  pub slice-between :
      (xs : List A) (s e a b : ℕ)
      → a ≤ b
      → s + b ≤ e
      → e ≤ length xs
      → slice (between xs s e) a b ≡ some (between xs (s + a) (s + b))
  slice-between xs s e a b ab be fits =
      slice_lem (between xs s e) a b ab (omega (arith, length-between xs s e fits))
      ∙ ap (λ t. some (take (b - a) t)) (drop-take a (e - s) (drop s xs))
      ∙ ap some (take-take (b - a) (e - s - a) (drop a (drop s xs)) (omega arith))
      ∙ ap (λ t. some (take (b - a) t)) (drop-drop a s xs)
      ∙ (let same : b - a ≡ s + b - (s + a) = omega arith in
          ap (λ k. some (take k (drop (s + a) xs))) same)

  take-add : (m n : ℕ) (xs : List A) → take (m + n) xs ≡ take m xs ++ take n (drop m xs)
  take-add zero n xs = let e : 0 + n ≡ n = omega arith in ap (λ k. take k xs) e
  take-add (suc m) n [] = take_all (suc m + n) [] (omega arith) ∙ sym (take_all n [] (omega arith))
  take-add (suc m) n (x ∷ xs) =
      let e : suc m + n ≡ suc (m + n) = omega arith in
      ap (λ k. take k (x ∷ xs)) e ∙ ap (λ t. x ∷ t) (take-add m n xs)

  -- Adjacent spans join.
  pub between-append :
      (xs : List A) (a m b : ℕ) → a ≤ m → m ≤ b → between xs a m ++ between xs m b ≡ between xs a b
  between-append xs a m b am mb =
      let start : a + (m - a) ≡ m = omega arith in
      let whole : m - a + (b - m) ≡ b - a = omega arith in
      ap (λ k. between xs a m ++ take (b - m) (drop k xs)) (sym start)
      ∙ ap (λ t. between xs a m ++ take (b - m) t) (sym (drop-drop (m - a) a xs))
      ∙ sym (take-add (m - a) (b - m) (drop a xs))
      ∙ ap (λ k. take k (drop a xs)) whole

  pub between_whole : (xs : List A) → between xs 0 (length xs) ≡ xs
  between_whole xs = take_all (length xs - 0) xs (omega arith)

  pub between_empty : (xs : List A) (a b : ℕ) → b ≤ a → between xs a b ≡ []
  between_empty xs a b h = let e : b - a ≡ 0 = omega arith in ap (λ k. take k (drop a xs)) e
