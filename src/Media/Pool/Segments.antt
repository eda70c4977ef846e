-- ===== src/Media/Pool/Segments.antt =====
-- A sealed segment opens to what was sealed, and a header reads back
-- (crates/wbf-sdk/src/media_pool.rs).
use wbf_matrix_client.Common.{
  ℕ, suc, ◌+◌, ◌-◌, ◌^◌, ◌≤◌, ◌<◌, ◌≡◌, refl, sym, ap, ◌∙◌, arith, [], ◌++◌, append-nil, Option,
  none, some, length, take, drop, replicate, length-append, length-take, length-drop,
  length-replicate, take-append, drop-append, drop-drop, take_all, slice, slice_lem, slice-append,
  slice-eq_some, ok, ok_injective, >>=-eq-ok, false, ltb, ◌==◌, ◌||◌, refuse, ok_or, ◌>>◌,
}
use wbf_matrix_client.Common.Bytes.{
  Bytes, to_le_bytes, from_le_bytes, length-to_le_bytes, from_le_bytes-to_le_bytes,
}
use wbf_matrix_client.Media.Block.{text_eq}
use wbf_matrix_client.Media.SeekStore.{Sealer, entry_of}
use wbf_matrix_client.Media.Pool.Pieces.{piece_end}
use wbf_matrix_client.Media.Pool.Format.{
  io, Header, OpenedSegment, seal_segment, open_segment, check_segment, segment_data,
  segment_offset, record_len, pad_segment, segment_nonce, segment_aad, encode_pool_header,
  read_header,
}

pub segment_offset-suc :
    (h : Header) (i : ℕ) → segment_offset h (suc i) ≡ segment_offset h i + record_len h
unfolding segment_offset
segment_offset-suc h i = omega arith

pub record_len-positive : (h : Header) → 0 < record_len h
unfolding record_len
record_len-positive h = omega arith

-- A whole segment stands before the place of every later one.
pub segment_end :
    (h : Header) (i n : ℕ) → i < n → segment_offset h i + record_len h ≤ segment_offset h n
unfolding segment_offset
segment_end h i n lt = omega (arith, piece_end (record_len h) i n lt)

pub slice-behind :
    (h : Header) (n : ℕ) (front cell : Bytes)
    → length front ≡ segment_offset h n
    → length cell ≡ record_len h
    → slice (front ++ cell) (segment_offset h n) (segment_offset h n + record_len h) ≡ some cell
slice-behind h n front cell ended size =
    ap (λ t. slice t (segment_offset h n) (segment_offset h n + record_len h))
      (ap (λ t. front ++ t) (sym (append-nil cell)))
    ∙ slice-append front cell [] (segment_offset h n) (segment_offset h n + record_len h)
        (sym ended) (ap (λ k. segment_offset h n + k) (sym size))

length-pad_segment :
    (h : Header) (bs : Bytes)
    → length bs ≤ h.segment_size
    → length (pad_segment h bs) ≡ 4 + h.segment_size
unfolding pad_segment
length-pad_segment h bs fits =
    let gap : Bytes = replicate (h.segment_size - length bs) 0 in
    omega (
      arith,
      length-append (to_le_bytes 4 (length bs)) (bs ++ gap),
      length-append bs gap,
      length-to_le_bytes 4 (length bs),
      length-replicate {A = ℕ} (h.segment_size - length bs) 0,
    )

-- A segment of the file opens to some bytes.
abbrev pub Opens : Sealer → Header → Bytes → ℕ → Bytes → Type 0
Opens x h file i bs =
    (segment : OpenedSegment) × (open_segment x h file i ≡ ok segment)
    × (segment_data segment ≡ ok bs)
    × (segment.len ≡ length bs)

-- The checks find the bytes in a padded segment.
check_segment-pad_segment :
    (h : Header) (bs : Bytes)
    → 0 < length bs
    → length bs ≤ h.segment_size
    → h.segment_size < 2 ^ 32
    → (check_segment h (pad_segment h bs)
        ≡ ok (record { plain = pad_segment h bs; len = length bs }))
      × (segment_data (record { plain = pad_segment h bs; len = length bs }) ≡ ok bs)
unfolding check_segment segment_data pad_segment
check_segment-pad_segment h bs pos fits small =
    let field = to_le_bytes 4 (length bs) in
    let gap : Bytes = replicate (h.segment_size - length bs) 0 in
    let four = length-to_le_bytes 4 (length bs) in
    let read_field : slice (field ++ (bs ++ gap)) 0 4 ≡ some field =
      slice-append [] field (bs ++ gap) 0 4 refl (omega (arith, four)) in
    let number = from_le_bytes-to_le_bytes 4 (length bs) (omega arith) in
    let read_bytes : slice (field ++ (bs ++ gap)) 4 (4 + length bs) ≡ some bs =
      slice-append field bs gap 4 (4 + length bs) (sym four) refl in
    let counted : ((length bs == 0) || ltb h.segment_size (length bs)) ≡ false = ground arith in
    (rw (read_field, number, counted) refl, ap (λ o. ok_or o io) read_bytes)

pub seal_segment-bounds :
    (x : Sealer) (h : Header) (i : ℕ) (bs cell : Bytes)
    → seal_segment x h i bs ≡ some cell
    → (0 < length bs)
      × (length bs ≤ h.segment_size)
      × (x.encrypt (segment_nonce h i) (segment_aad h i) (pad_segment h bs) ≡ some cell)
unfolding seal_segment
seal_segment-bounds x h i bs cell e = ground arith

pub length-seal_segment :
    (x : Sealer) (h : Header) (i : ℕ) (bs cell : Bytes)
    → seal_segment x h i bs ≡ some cell
    → length cell ≡ record_len h
unfolding record_len
length-seal_segment x h i bs cell e =
    let (pos, fits, sealed) = seal_segment-bounds x h i bs cell e in
    omega (arith, x.length-encrypt _ _ _ cell sealed, length-pad_segment h bs fits)

pub seal_segment-Opens :
    (x : Sealer) (h : Header) (file : Bytes) (i : ℕ) (bs cell : Bytes)
    → h.segment_size < 2 ^ 32
    → seal_segment x h i bs ≡ some cell
    → slice file (segment_offset h i) (segment_offset h i + record_len h) ≡ some cell
    → Opens x h file i bs
unfolding open_segment
seal_segment-Opens x h file i bs cell small e there =
    let (pos, fits, sealed) = seal_segment-bounds x h i bs cell e in
    let (checked, found) = check_segment-pad_segment h bs pos fits small in
    let opened = x.decrypt-encrypt _ _ _ cell sealed in
    (record { plain = pad_segment h bs; len = length bs }, rw (there, opened) checked, found, refl)

pub ok_or-some : {o : Option Bytes} {cell : Bytes} → ok_or o io ≡ ok cell → o ≡ some cell
ok_or-some {o = none} e = absurd cc
ok_or-some {o = some c} e = ap some (ok_injective e)

-- What opens depends only on its own bytes of the file.
pub Opens-slice :
    (x : Sealer) (h : Header) (file file' : Bytes) (i : ℕ) (bs : Bytes)
    → ((cell : Bytes)
        → slice file (segment_offset h i) (segment_offset h i + record_len h) ≡ some cell
        → slice file' (segment_offset h i) (segment_offset h i + record_len h) ≡ some cell)
    → Opens x h file i bs
    → Opens x h file' i bs
unfolding open_segment
Opens-slice x h file file' i bs same (segment, opened, found, size) =
    let (cell, there, rest) = >>=-eq-ok (ok_or (slice file _ _) io) _ opened in
    (segment, rw (same cell (ok_or-some there)) rest, found, size)

-- So does the header.
pub read_header-slice :
    (file file' : Bytes) (h : Header)
    → ((bytes : Bytes) → slice file 0 32 ≡ some bytes → slice file' 0 32 ≡ some bytes)
    → read_header file ≡ ok h
    → read_header file' ≡ ok h
unfolding read_header
read_header-slice file file' h same e =
    let (bytes, there, rest) = >>=-eq-ok (ok_or (slice file 0 32) io) _ e in
    rw (same bytes (ok_or-some there)) rest

pub length-encode_pool_header :
    (h : Header) → length h.nonce_base ≡ 16 → length (encode_pool_header h) ≡ 32
unfolding encode_pool_header
length-encode_pool_header h size =
    let field = to_le_bytes 4 h.segment_size in
    let owner4 = to_le_bytes 4 h.owner in
    omega (
      arith,
      size,
      length-append field (h.nonce_base ++ owner4),
      length-append h.nonce_base owner4,
      length-to_le_bytes 4 h.segment_size,
      length-to_le_bytes 4 h.owner,
    )

pub slice_whole : (xs : Bytes) (n : ℕ) → length xs ≡ n → slice xs 0 n ≡ some xs
slice_whole xs n size =
    slice_lem xs 0 n (omega arith) (omega (arith, size))
    ∙ ap some (take_all (n - 0) xs (omega (arith, size)))

-- The header of a file reads back.
pub read_header-encode_pool_header :
    (h : Header) (file : Bytes)
    → 0 < h.segment_size
    → h.segment_size < 2 ^ 32
    → length h.nonce_base ≡ 16
    → h.owner < 2 ^ 32
    → slice file 0 32 ≡ some (encode_pool_header h)
    → read_header file ≡ ok h
unfolding read_header encode_pool_header entry_of text_eq
read_header-encode_pool_header h file pos small base_size owned there =
    let field = to_le_bytes 4 h.segment_size in
    let owner4 = to_le_bytes 4 h.owner in
    let rest = h.nonce_base ++ owner4 in
    let four = length-to_le_bytes 4 h.segment_size in
    let first : take 4 (field ++ rest) ≡ field =
      ap (λ k. take k (field ++ rest)) (sym four) ∙ take-append field rest in
    let behind : drop 4 (field ++ rest) ≡ rest =
      ap (λ k. drop k (field ++ rest)) (sym four) ∙ drop-append field rest in
    let base : take 16 rest ≡ h.nonce_base =
      ap (λ k. take k rest) (sym base_size) ∙ take-append h.nonce_base owner4 in
    let last : drop 20 (field ++ rest) ≡ owner4 =
      sym (drop-drop 16 4 (field ++ rest))
      ∙ ap (drop 16) behind
      ∙ ap (λ k. drop k rest) (sym base_size)
      ∙ drop-append h.nonce_base owner4 in
    let whole : take 4 owner4 ≡ owner4 =
      take_all 4 owner4 (omega (arith, length-to_le_bytes 4 h.owner)) in
    let size = from_le_bytes-to_le_bytes 4 h.segment_size small in
    let owner = from_le_bytes-to_le_bytes 4 h.owner owned in
    let filled : (h.segment_size == 0) ≡ false = ground arith in
    rw (there, first, size, filled, behind, base, last, whole, owner) refl

checked_bounds :
    (h : Header) (plain : Bytes) (segment : OpenedSegment)
    → check_segment h plain ≡ ok segment
    → (0 < segment.len) × (segment.len ≤ h.segment_size)
unfolding check_segment
checked_bounds h plain segment e =
    let (field, read, e1) = >>=-eq-ok (ok_or (slice plain 0 4) io) _ e in
    bounds (from_le_bytes field) e1
  where
    bounds :
        (n : ℕ)
        → (refuse ((n == 0) || ltb h.segment_size n) io >> ok (record { plain = plain; len = n }))
          ≡ ok segment
        → (0 < segment.len) × (segment.len ≤ h.segment_size)
    bounds n e = ground arith

pub segment_data-length :
    (segment : OpenedSegment) (bs : Bytes) → segment_data segment ≡ ok bs → segment.len ≡ length bs
unfolding segment_data
segment_data-length segment bs found =
    let (le, fits, e) = slice-eq_some segment.plain 4 (4 + segment.len) bs (ok_or-some found) in
    omega (
      arith,
      ap length e,
      length-take (4 + segment.len - 4) (drop 4 segment.plain),
      length-drop 4 segment.plain,
    )

-- The bytes of an opened segment are as many as its length says, and no more than a segment holds.
pub open_segment-Opens :
    (x : Sealer) (h : Header) (file : Bytes) (i : ℕ) (segment : OpenedSegment) (bs : Bytes)
    → open_segment x h file i ≡ ok segment
    → segment_data segment ≡ ok bs
    → Opens x h file i bs
      × (0 < length bs)
      × (length bs ≤ h.segment_size)
      × (segment_offset h i + record_len h ≤ length file)
unfolding open_segment
open_segment-Opens x h file i segment bs opened found =
    let (cell, there, e1) = >>=-eq-ok (ok_or (slice file _ _) io) _ opened in
    let (plain, decrypted, e2) = >>=-eq-ok (ok_or (x.decrypt _ _ cell) io) _ e1 in
    let (_, whole, _) = slice-eq_some file _ _ cell (ok_or-some there) in
    let (pos, fits) = checked_bounds h plain segment e2 in
    let size = segment_data-length segment bs found in
    ((segment, opened, found, size), omega (arith, size), omega (arith, size), whole)
