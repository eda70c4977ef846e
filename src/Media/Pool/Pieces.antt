-- ===== src/Media/Pool/Pieces.antt =====
-- A text cut into pieces of one size, as the pool cuts a file into segments
-- (crates/wbf-sdk/src/media_pool.rs), and what a write leaves of the bytes before it.
use wbf_matrix_client.Common.{
  ℕ, zero, suc, ◌+◌, ◌-◌, ◌*◌, ◌≤◌, ◌<◌, min, max, ◌⊎◌, inl, inr, true, false, leb, leb→le,
  Bool-cases, ◌≡◌, refl, sym, ap, ap₂, ◌∙◌, arith, [], ◌∷◌, ◌++◌, append-nil, some, length, take,
  drop, replicate, length-append, length-take, length-drop, take-append-drop, drop-drop,
  take-append_le, drop-append_le, drop_nil, take-append, drop-append, slice, slice_lem,
  slice-eq_some,
}
use wbf_matrix_client.Common.Bytes.{Bytes}
use native.Mathlib.Decide.{ℕ_discrete}
use wbf_matrix_client.Media.SeekStore.{write_at}

-- A whole piece stands before every later one.
pub piece_end : (size i n : ℕ) → i < n → i * size + size ≤ n * size
piece_end size i zero lt = absurd (omega arith)
piece_end size i (suc n) lt = elim (ℕ_discrete i n) [
  | yes same ↦ omega (arith, ap (λ k. k * size) same)
  | no other ↦ omega (arith, piece_end size i n (omega arith))
]

-- How often `r` goes into `n` times `r` and a rest of at most `r`.
pub quotient_bounds :
    (r n rest q : ℕ)
    → 0 < r
    → rest ≤ r
    → q * r ≤ n * r + rest
    → n * r + rest < q * r + r
    → (n ≤ q) × (q ≤ suc n) × (suc n ≤ q → rest ≡ r)
quotient_bounds r n rest q pos small below above = (
  not_below (Bool-cases (leb n q)),
  not_above (Bool-cases (leb q (suc n))),
  λ more. omega (arith, piece_end r n q more),
)
  where
    not_below : (leb n q ≡ true) ⊎ (leb n q ≡ false) → n ≤ q
    not_below (inl h) = leb→le n q h
    not_below (inr h) = let lt : q < n = ground arith in absurd (omega (arith, piece_end r q n lt))

    not_above : (leb q (suc n) ≡ true) ⊎ (leb q (suc n) ≡ false) → q ≤ suc n
    not_above (inl h) = leb→le q (suc n) h
    not_above (inr h) =
        let lt : suc n < q = ground arith in absurd (omega (arith, piece_end r (suc n) q lt))

unfoldable pub piece : ℕ → Bytes → ℕ → Bytes
piece size text i = take size (drop (i * size) text)

take_nil : (n : ℕ) → take {A = ℕ} n [] ≡ []
take_nil zero = refl
take_nil (suc n) = refl

pub take_add : (m n : ℕ) (xs : Bytes) → take (m + n) xs ≡ take m xs ++ take n (drop m xs)
take_add zero n xs = let e : 0 + n ≡ n = omega arith in ap (λ k. take k xs) e
take_add (suc m) n [] =
    let e : suc m + n ≡ suc (m + n) = omega arith in
    ap (λ k. take {A = ℕ} k []) e ∙ sym (take_nil n)
take_add (suc m) n (x ∷ xs) =
    let e : suc m + n ≡ suc (m + n) = omega arith in
    ap (λ k. take k (x ∷ xs)) e ∙ ap (λ t. x ∷ t) (take_add m n xs)

module _ (size : ℕ) (text : Bytes) where
  pub take_none : [] ≡ take (0 * size) text
  take_none = let none_yet : 0 ≡ 0 * size = omega arith in ap (λ k. take k text) none_yet

  pub length-piece : (i : ℕ) → i * size + size ≤ length text → length (piece size text i) ≡ size
  unfolding piece
  length-piece i fits =
      omega (arith, length-take size (drop (i * size) text), length-drop (i * size) text)

  pub length-piece-min : (i : ℕ) → length (piece size text i) ≡ min size (length text - i * size)
  unfolding piece
  length-piece-min i =
      length-take size (drop (i * size) text) ∙ ap (λ k. min size k) (length-drop (i * size) text)

  -- Bytes behind the text change none of its whole pieces.
  pub piece-append :
      (more : Bytes) (i : ℕ)
      → i * size + size ≤ length text
      → piece size (text ++ more) i ≡ piece size text i
  unfolding piece
  piece-append more i fits =
      ap (take size) (drop-append_le (i * size) text more (omega arith))
      ∙ take-append_le size (drop (i * size) text) more (omega (arith, length-drop (i * size) text))

  -- The text up to a piece, and that piece.
  pub take-piece : (i : ℕ) → take (i * size) text ++ piece size text i ≡ take (suc i * size) text
  unfolding piece
  take-piece i =
      let e : suc i * size ≡ i * size + size = omega arith in
      sym (ap (λ n. take n text) e ∙ take_add (i * size) size text)

-- What stands before a cut is read from the part up to it.
pub slice-take :
    (xs : Bytes) (n a b : ℕ) (ys : Bytes)
    → b ≤ n
    → slice xs a b ≡ some ys
    → slice (take n xs) a b ≡ some ys
slice-take xs n a b ys h e =
    let (le, fits, same) = slice-eq_some xs a b ys e in
    let size : b ≤ length (take n xs) = omega (arith, length-take n xs) in
    slice_lem (take n xs) a b le size
    ∙ ap some (
        sym (
          take-append_le (b - a) (drop a (take n xs)) (drop n xs)
            (omega (arith, length-drop a (take n xs))))
        ∙ ap (take (b - a)) (
            sym (drop-append_le a (take n xs) (drop n xs) (omega arith))
            ∙ ap (drop a) (take-append-drop n xs))
        ∙ sym same)

-- A write at the end of a front part: what stood there is overwritten from its start.
pub write_at-append :
    (front tail bs : Bytes)
    → write_at (front ++ tail) (length front) bs ≡ front ++ (bs ++ drop (length bs) tail)
unfolding write_at
write_at-append front tail [] = refl
write_at-append front tail (b ∷ bs) =
    let whole = front ++ tail in
    ap₂ (λ u v. u ++ ((b ∷ bs) ++ v))
      (take-append_le (length front) whole (replicate (length front - length whole) 0)
          (omega (arith, length-append front tail))
        ∙ take-append front tail)
      (sym (drop-drop (length (b ∷ bs)) (length front) whole)
        ∙ ap (drop (length (b ∷ bs))) (drop-append front tail))

-- Two writes that reached the disk in part are one that reached further.
pub overlay :
    (m n : ℕ) (bs : Bytes) → take n bs ++ drop (length (take n bs)) (take m bs) ≡ take (max m n) bs
overlay m zero bs = let e : m ≡ max m 0 = omega arith in ap (λ k. take k bs) e
overlay m (suc n) [] = take_nil m ∙ sym (take_nil (max m (suc n)))
overlay zero (suc n) (b ∷ bs) =
    let e : suc n ≡ max 0 (suc n) = omega arith in
    ap (λ t. (b ∷ take n bs) ++ t) (drop_nil (suc (length (take n bs))))
    ∙ append-nil (b ∷ take n bs)
    ∙ ap (λ k. take k (b ∷ bs)) e
overlay (suc m) (suc n) (b ∷ bs) =
    let e : suc (max m n) ≡ max (suc m) (suc n) = omega arith in
    ap (λ t. b ∷ t) (overlay m n bs) ∙ ap (λ k. take k (b ∷ bs)) e
