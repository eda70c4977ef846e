-- ===== src/Media/SeekStore/Files.antt =====
-- What a write behind the end of a file leaves as it was (crates/wbf-sdk/src/seek_store.rs).
use wbf_matrix_client.Common.{
  ℕ, zero, suc, ◌+◌, ◌-◌, ◌≤◌, ◌<◌, ◌≡◌, ◌≢◌, refl, sym, ap, ap₂, ◌∙◌, arith, List, [], ◌∷◌, ◌++◌,
  append-nil, append_assoc, some, length, get_elem?, set, replicate, length-append,
  length-replicate, take_all, drop_all, slice, slice-append,
}
use wbf_matrix_client.Common.Bytes.{Bytes}
use wbf_matrix_client.Media.SeekStore.{write_at}

abbrev pub zeros : ℕ → Bytes
zeros n = replicate n 0

length-zeros : (n : ℕ) → length (zeros n) ≡ n
length-zeros n = length-replicate {A = ℕ} n 0

-- The bytes that a write at `offset` puts behind a file that ends there or before.
abbrev pub added : Bytes → ℕ → Bytes → Bytes
added file offset [] = []
added file offset (b ∷ bs) = zeros (offset - length file) ++ (b ∷ bs)

pub write_at-added :
    (file : Bytes) (offset : ℕ) (bs : Bytes)
    → length file ≤ offset
    → write_at file offset bs ≡ file ++ added file offset bs
unfolding write_at
write_at-added file offset [] h = sym (append-nil file)
write_at-added file offset (b ∷ bs) h =
    let gap = zeros (offset - length file) in
    let size : length (file ++ gap) ≤ offset =
      omega (arith, length-append file gap, length-zeros (offset - length file)) in
    ap₂ (λ u v. u ++ ((b ∷ bs) ++ v)) (take_all offset (file ++ gap) size)
      (drop_all (offset + length (b ∷ bs)) file (omega arith))
    ∙ ap (λ v. (file ++ gap) ++ v) (append-nil (b ∷ bs))
    ∙ append_assoc file gap (b ∷ bs)

pub length-added :
    (file : Bytes) (offset : ℕ) (bs : Bytes)
    → length file ≤ offset
    → length (file ++ added file offset bs) ≤ offset + length bs
length-added file offset [] h = omega (arith, ap length (append-nil file))
length-added file offset (b ∷ bs) h =
    let gap = zeros (offset - length file) in
    omega (
      arith,
      length-append file (gap ++ (b ∷ bs)),
      length-append gap (b ∷ bs),
      length-zeros (offset - length file),
    )

-- What was written is read back.
pub slice-added :
    (file : Bytes) (offset : ℕ) (bs : Bytes)
    → length file ≤ offset
    → 0 < length bs
    → slice (file ++ added file offset bs) offset (offset + length bs) ≡ some bs
slice-added file offset [] h pos = absurd (omega arith)
slice-added file offset (b ∷ bs) h pos =
    let gap = zeros (offset - length file) in
    let front : offset ≡ length (file ++ gap) =
      omega (arith, length-append file gap, length-zeros (offset - length file)) in
    ap (λ t. slice t offset (offset + length (b ∷ bs)))
      (sym (append_assoc file gap (b ∷ bs))
        ∙ ap (λ t. (file ++ gap) ++ t) (sym (append-nil (b ∷ bs))))
    ∙ slice-append (file ++ gap) (b ∷ bs) [] offset (offset + length (b ∷ bs)) front refl

module _ {ℓ} {A : Type ℓ} where
  pub get-set : (xs : List A) (i : ℕ) (v : A) → i < length xs → get_elem? (set xs i v) i ≡ some v
  get-set [] i v lt = absurd (omega arith)
  get-set (x ∷ xs) zero v lt = refl
  get-set (x ∷ xs) (suc i) v lt = get-set xs i v (omega arith)

  pub get-set_other :
      (xs : List A) (i j : ℕ) (v : A) → i ≢ j → get_elem? (set xs i v) j ≡ get_elem? xs j
  get-set_other [] i j v ne = refl
  get-set_other (x ∷ xs) zero zero v ne = absurd (ne refl)
  get-set_other (x ∷ xs) zero (suc j) v ne = refl
  get-set_other (x ∷ xs) (suc i) zero v ne = refl
  get-set_other (x ∷ xs) (suc i) (suc j) v ne = get-set_other xs i j v (λ e. ne (ap suc e))

  pub get_elem?-lt : (xs : List A) (i : ℕ) (v : A) → get_elem? xs i ≡ some v → i < length xs
  get_elem?-lt [] i v h = absurd cc
  get_elem?-lt (x ∷ xs) zero v h = omega arith
  get_elem?-lt (x ∷ xs) (suc i) v h = omega (arith, get_elem?-lt xs i v h)
