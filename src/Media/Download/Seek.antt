-- ===== src/Media/Download/Seek.antt =====
-- `seek_read` returns the span that was asked for (crates/wbf-sdk/src/download.rs).
use wbf_matrix_client.Common.{
  ℕ, zero, suc, ◌+◌, ◌-◌, ◌*◌, ◌/◌, ◌%◌, ◌^◌, ◌≤◌, ◌<◌, ◌≡◌, min, max, refl, ap, ap₂, ◌∙◌, arith,
  List, [], ◌∷◌, ◌++◌, append-nil, append_assoc, length, Result, ok, Bool, Option, none, some, ltb,
  leb, slice, false, lt→ltb, le→ltb,
}
use wbf_matrix_client.Common.Bytes.{Bytes}
use native.Mathlib.Decide.{dec_le}
use native.Mathlib.Nat.{div-add-mod', mod-lt, mul-le-mul}
use wbf_matrix_client.Media.Geometry.{chunk_count, locate, div_ceil, max_chunk_index}
use wbf_matrix_client.Media.Geometry.Division.{lt-div_ceil, div_ceil-le, div_ceil_bounds}
use wbf_matrix_client.Media.Geometry.Partition.{chunk_count-eq_some, chunk_count-starts}
use wbf_matrix_client.Media.Block.{ChunkedBlock}
use wbf_matrix_client.Media.Download.{SdkError, VerifiedTarget, seek_end, seek_loop, seek_read}
use wbf_matrix_client.Media.Download.Spans.{between, slice-between, between-append, between_empty}
use wbf_matrix_client.Media.Download.Chunks.{chunk_of, Serves, length-chunk_of}

-- `i`, `i + 1` and so on, `k` of them.
abbrev pub range : ℕ → ℕ → List ℕ
range i zero = []
range i (suc k) = i ∷ range (suc i) k

module _ (next : ℕ → Result SdkError Bytes) (file : Bytes) (cs n at end : ℕ)
    (serves : Serves next file cs n) (counted : chunk_count (length file) cs ≡ some n)
    (forward : at ≤ end) (inside : end ≤ length file) where
  cs_pos : 0 < cs
  cs_pos = (chunk_count-eq_some (length file) cs n counted).0

  -- What one round takes from its chunk.
  round_slice :
      (i : ℕ)
      → i * cs < end
      → at < suc i * cs
      → slice (chunk_of file cs i) (at - i * cs) (min (end - i * cs) (length (chunk_of file cs i)))
        ≡ some (between file (max at (i * cs)) (min end (suc i * cs)))
  round_slice i begins late =
      let lt : i < n = (chunk_count-starts (length file) cs n i counted).1 (omega arith) in
      let (len, _) = length-chunk_of file cs n i counted lt in
      let to = min (end - i * cs) (length (chunk_of file cs i)) in
      let e : i * cs + (at - i * cs) ≡ max at (i * cs) = omega arith in
      let e' : i * cs + to ≡ min end (suc i * cs) = omega (arith, len) in
      slice-between file (i * cs) (min (suc i * cs) (length file)) (at - i * cs) to
        (omega (arith, len)) (omega (arith, len)) (omega arith)
      ∙ ap₂ (λ x y. some (between file x y)) e e'

  -- A round's bytes and those of the later rounds.
  round_join :
      (i : ℕ)
      → at < suc i * cs
      → i * cs < end
      → between file (max at (i * cs)) (min end (suc i * cs))
          ++ between file (max at (suc i * cs)) end
        ≡ between file (max at (i * cs)) end
  round_join i late begins = elim (dec_le (suc i * cs) end) [
    | yes more ↦
        let m : min end (suc i * cs) ≡ suc i * cs = omega arith in
        let m' : max at (suc i * cs) ≡ suc i * cs = omega arith in
        ap₂ (λ x y. between file (max at (i * cs)) x ++ between file y end) m m'
        ∙ between-append file (max at (i * cs)) (suc i * cs) end (omega arith) more
    | no last ↦
        let m : min end (suc i * cs) ≡ end = omega arith in
        ap (λ x. between file (max at (i * cs)) x ++ between file (max at (suc i * cs)) end) m
        ∙ ap (λ t. between file (max at (i * cs)) end ++ t)
            (between_empty file (max at (suc i * cs)) end (omega arith))
        ∙ append-nil (between file (max at (i * cs)) end)
  ]

  seek_loop_lem :
      (fuel k i : ℕ) (bytes : Bytes) (read : List ℕ)
      → div_ceil end cs ≡ i + k
      → k < fuel
      → at < suc i * cs
      → seek_loop next at cs end fuel i bytes read
        ≡ ok (bytes ++ between file (max at (i * cs)) end, read ++ range i k)
  unfolding seek_loop
  seek_loop_lem zero k i bytes read e lt late = absurd (omega arith)
  seek_loop_lem (suc fuel) zero i bytes read e lt late =
      let past : end ≤ i * cs = div_ceil-le i end cs cs_pos (omega arith) in
      rw (
        le→ltb (i * cs) end past,
        between_empty file (max at (i * cs)) end (omega arith),
        append-nil bytes,
        append-nil read,
      )
  seek_loop_lem (suc fuel) (suc k) i bytes read e lt late =
      let begins : i * cs < end = lt-div_ceil i end cs cs_pos (omega arith) in
      let lt' : i < n = (chunk_count-starts (length file) cs n i counted).1 (omega arith) in
      let rest =
        seek_loop_lem fuel k (suc i)
          (bytes ++ between file (max at (i * cs)) (min end (suc i * cs))) (read ++ (i ∷ []))
          (omega arith) (omega arith) (omega arith) in
      rw (lt→ltb (i * cs) end begins, serves i lt', round_slice i begins late)
        (rest
          ∙ ap₂ (λ x y. ok (x, y))
              (append_assoc bytes _ _ ∙ ap (λ t. bytes ++ t) (round_join i late begins))
              (append_assoc read (i ∷ []) (range (suc i) k)))

-- The end of the span, without the bound of the machine word.
abbrev pub span_end : ℕ → ℕ → ℕ → Option ℕ → ℕ
span_end at cs fs none = min (suc (at / cs) * cs) fs
span_end at cs fs (some len) = min (at + len) fs

abbrev pub runs_past : ℕ → ℕ → Option ℕ → Bool
runs_past at fs none = false
runs_past at fs (some len) = ltb fs (at + len)

seek_end_lem :
    (at cs fs : ℕ) (len : Option ℕ)
    → fs < 2 ^ 64 - 1
    → seek_end at cs fs (at / cs) len ≡ (span_end at cs fs len, runs_past at fs len)
unfolding seek_end
seek_end_lem at cs fs none h =
    let e : at / cs + 1 ≡ suc (at / cs) = omega arith in ap (λ k. (min (k * cs) fs, false)) e
seek_end_lem at cs fs (some len) h = ground arith

span_end_bounds :
    (at cs fs : ℕ) (len : Option ℕ)
    → 0 < cs
    → at < fs
    → (at ≤ span_end at cs fs len) × (span_end at cs fs len ≤ fs) × (at < suc (at / cs) * cs)
span_end_bounds at cs fs none h lt = omega (arith, div-add-mod' at cs, mod-lt at h)
span_end_bounds at cs fs (some len) h lt = omega (arith, div-add-mod' at cs, mod-lt at h)

file_small : (fs cs n : ℕ) → chunk_count fs cs ≡ some n → cs < 2 ^ 32 → fs < 2 ^ 64 - 1
file_small fs cs n h small =
    let (pos, e, top) = chunk_count-eq_some fs cs n h in
    omega (
      arith,
      div_ceil_bounds fs cs pos,
      mul-le-mul top small,
      ap (λ (k : ℕ). k * cs) e,
      mul-le-mul top (le_of_small cs small),
    )
  where
    le_of_small : (c : ℕ) → c < 2 ^ 32 → c ≤ 2 ^ 32 - 1
    le_of_small c lt = omega arith

locate_lem :
    (at cs : ℕ)
    → 0 < cs
    → at / cs ≤ max_chunk_index
    → locate at cs ≡ some (record { index = at / cs; offset = at % cs })
unfolding locate
locate_lem at cs pos top = ground arith

lt→leb : (a b : ℕ) → b < a → leb a b ≡ false
lt→leb a b lt = ground arith

-- From a server of a file of the target's size and count, with a chunk size below 2 ^ 32,
-- `seek_read` at a position inside the file ends and returns exactly the bytes of the span: from
-- the position to the end of its chunk, or of the length that was asked for, but never past the
-- end of the file. It reads the chunks that the span touches, each once and in order, and says
-- whether the wanted length ran past the end.
pub seek_read-span :
    (next : ℕ → Result SdkError Bytes) (block : ChunkedBlock) (target : VerifiedTarget)
    (file : Bytes) (at : ℕ) (len : Option ℕ)
    → Serves next file block.chunk_size target.chunk_count
    → chunk_count (length file) block.chunk_size ≡ some target.chunk_count
    → target.file_size ≡ length file
    → block.chunk_size < 2 ^ 32
    → at < length file
    → seek_read next block target at len
      ≡ ok (record {
        bytes = between file at (span_end at block.chunk_size (length file) len);
        chunks_read = range (at / block.chunk_size) (
            div_ceil (span_end at block.chunk_size (length file) len) block.chunk_size
            - at / block.chunk_size);
        truncated = runs_past at (length file) len;
      })
unfolding seek_read
seek_read-span next block target file at len serves counted size small inside =
    let cs = block.chunk_size in
    let i = at / cs in
    let end = span_end at cs (length file) len in
    let (pos, count, top) = chunk_count-eq_some (length file) cs target.chunk_count counted in
    let (lo, hi, late) = span_end_bounds at cs (length file) len pos inside in
    let first : i * cs ≤ at = omega (arith, div-add-mod' at cs) in
    let first' : i < target.chunk_count =
      (chunk_count-starts (length file) cs target.chunk_count i counted).1 (omega arith) in
    let gap : div_ceil end cs ≡ i + (div_ceil end cs - i) =
      grind (arith, div_ceil_bounds end cs pos) in
    let few : div_ceil end cs - i < suc target.chunk_count =
      grind (arith, div_ceil_bounds end cs pos, div_ceil_bounds (length file) cs pos, count) in
    let run =
      seek_loop_lem next file cs target.chunk_count at end serves counted lo hi
        (suc target.chunk_count) (div_ceil end cs - i) i [] [] gap few late in
    let here : max at (i * cs) ≡ at = omega arith in
    let small' : length file < 2 ^ 64 - 1 =
      file_small (length file) cs target.chunk_count counted small in
    let top' : i ≤ max_chunk_index = omega arith in
    rw
      (
        size,
        lt→leb (length file) at inside,
        locate_lem at cs pos top',
        seek_end_lem at cs (length file) len small',
        run,
        here,
      )
      refl
