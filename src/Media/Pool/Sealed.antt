-- ===== src/Media/Pool/Sealed.antt =====
-- Reading back what a writer has sealed, while it still writes (crates/wbf-sdk/src/media_pool.rs).
use wbf_matrix_client.Common.{
  ℕ, zero, suc, ◌+◌, ◌-◌, ◌*◌, ◌/◌, ◌≤◌, ◌<◌, min, ◌≡◌, ◌⊎◌, inl, inr, refl, sym, ap, ◌∙◌, arith,
  [], ◌++◌, some, take, drop, slice, drop-drop, Result, ok, err, true, false, ◌||◌, ltb,
  if◌then◌else◌, if-holds, Bool-cases, ltb→lt, ltb→le,
}
use wbf_matrix_client.Common.Bytes.{Bytes}
use native.Mathlib.Nat.{div-add-mod', mod-lt, mul-le-mul, le_refl}
use wbf_matrix_client.Media.SeekStore.{Sealer}
use wbf_matrix_client.Media.Pool.Format.{PoolError, usage}
use wbf_matrix_client.Media.Pool.Writer.{PoolWriter, sealed_plain_len, read_pieces, read_sealed}
use wbf_matrix_client.Media.Pool.Pieces.{piece, piece_end, length-piece, take_add}
use wbf_matrix_client.Media.Pool.Writing.{IsImage, file-Opens}
use wbf_matrix_client.Media.Pool.Reading.{window}

module _ (x : Sealer) (w : PoolWriter) (h : IsImage x w) where
  -- The text from a place to an end, by its first part and the rest.
  parts :
      (text : Bytes) (p c e : ℕ)
      → p + c ≤ e
      → take c (drop p text) ++ take (e - (p + c)) (drop (p + c) text) ≡ take (e - p) (drop p text)
  parts text p c e le =
      let sum : c + (e - (p + c)) ≡ e - p = omega arith in
      ap (λ t. take c (drop p text) ++ take (e - (p + c)) t) (sym (drop-drop c p text))
      ∙ sym (take_add c (e - (p + c)) (drop p text))
      ∙ ap (λ k. take k (drop p text)) sum

  nothing_left :
      (p e : ℕ)
      → e ≤ p
      → ◌≡◌ {A = Result PoolError Bytes} (ok []) (ok (take (e - p) (drop p w.hashed)))
  nothing_left p e done =
      let none_left : 0 ≡ e - p = omega arith in ap (λ k. ok (take k (drop p w.hashed))) none_left

  index_inside :
      (p e : ℕ)
      → p < e
      → e ≤ w.segments_written * w.header.segment_size
      → p / w.header.segment_size < w.segments_written
  index_inside p e lt inside = below (Bool-cases (ltb (p / size) w.segments_written))
    where
      size : ℕ
      size = w.header.segment_size

      below :
          (ltb (p / size) w.segments_written ≡ true) ⊎ (ltb (p / size) w.segments_written ≡ false)
          → p / size < w.segments_written
      below (inl y) = ltb→lt (p / size) w.segments_written y
      below (inr n) = absurd (
          omega (
            arith,
            mul-le-mul (ltb→le (p / size) w.segments_written n) (le_refl size),
            div-add-mod' p size,
            lt,
            inside,
          ))

  read_pieces-lem :
      (fuel p e : ℕ)
      → p ≤ e
      → e ≤ w.segments_written * w.header.segment_size
      → e ≤ p + fuel
      → read_pieces x fuel w p e ≡ ok (take (e - p) (drop p w.hashed))
  unfolding read_pieces
  read_pieces-lem zero p e le inside enough =
      let done : ltb p e ≡ false = ground arith in rw done (nothing_left p e (omega arith))
  read_pieces-lem (suc fuel) p e le inside enough =
      if-holds {A = Result PoolError Bytes} (λ r. r ≡ ok (take (e - p) (drop p w.hashed))) (ltb p e)
        _ _
        (λ more.
          let lt = ltb→lt p e more in
          let size = w.header.segment_size in
          let sum = div-add-mod' p size in
          let rest = mod-lt p h.header_ok.filled in
          let below = index_inside p e lt inside in
          let (segment, opened, found, len) = file-Opens x w h (p / size) below in
          let full =
            length-piece size w.hashed (p / size)
              (omega (arith, h.whole, piece_end size (p / size) w.segments_written below)) in
          let to = min (e - p / size * size) segment.len in
          let offset = p - p / size * size in
          let wide : offset < to = omega (arith, len, full, sum, rest, lt) in
          let ends : offset + (to - offset) ≡ to = omega (arith, wide) in
          let start : p / size * size + offset ≡ p = omega (arith, sum) in
          let there : slice (piece size w.hashed (p / size)) offset to
              ≡ some (take (to - offset) (drop p w.hashed)) =
            ap (λ b. slice (piece size w.hashed (p / size)) offset b) (sym ends)
            ∙ window size w.hashed (p / size) offset (to - offset) (omega (arith, len))
            ∙ ap (λ k. some (take (to - offset) (drop k w.hashed))) start in
          let next : p / size * size + to ≡ p + (to - offset) = omega (arith, sum, wide) in
          let go =
            read_pieces-lem fuel (p + (to - offset)) e (omega (arith, wide, sum)) inside
              (omega (arith, wide)) in
          rw (opened, found, there, next, go)
            (ap ok (parts w.hashed p (to - offset) e (omega (arith, wide, sum)))))
        λ done. nothing_left p e (ltb→le p e done)

  -- The part of the sealed text between two places, at any time: `read_sealed` gives it where it is
  -- sealed, and the usage error elsewhere.
  pub read_sealed-lem :
      (start end : ℕ)
      → read_sealed x w start end ≡ (
          if ltb end start || ltb (sealed_plain_len w) end
          then err usage
          else ok (take (end - start) (drop start w.hashed)))
  unfolding read_sealed sealed_plain_len
  read_sealed-lem start end = split (Bool-cases (ltb end start || ltb (sealed_plain_len w) end))
    where
      split :
          ((ltb end start || ltb (sealed_plain_len w) end) ≡ true)
            ⊎ ((ltb end start || ltb (sealed_plain_len w) end) ≡ false)
          → read_sealed x w start end ≡ (
              if ltb end start || ltb (sealed_plain_len w) end
              then err usage
              else ok (take (end - start) (drop start w.hashed)))
      split (inl outside) = rw outside refl
      split (inr inside) =
          let le : start ≤ end = ground arith in
          let sealed : end ≤ w.segments_written * w.header.segment_size = ground arith in
          rw inside (read_pieces-lem (end - start) start end le sealed (omega arith))
