-- ===== src/Media/Pool/Crash.antt =====
-- What is taken up of a file that a writer left at any moment (crates/wbf-sdk/src/media_pool.rs).
use wbf_matrix_client.Common.{
  ℕ, zero, suc, ◌+◌, ◌-◌, ◌*◌, ◌/◌, ◌≤◌, ◌<◌, ◌≡◌, ◌≢◌, ◌⊎◌, inl, inr, refl, sym, ap, ◌∙◌, subst,
  arith, [], ◌++◌, some, length, take, length-append, length-take, take_all, take-length,
  take-append-drop, slice, Result, ok, true, false, ◌==◌, ==_self,
}
use wbf_matrix_client.Common.Bytes.{Bytes}
use native.Mathlib.Nat.{div-add-mod', mod-lt}
use native.Mathlib.Decide.{ℕ_discrete}
use wbf_matrix_client.Media.Block.{Text}
use wbf_matrix_client.Media.SeekStore.{Sealer}
use wbf_matrix_client.Media.Pool.Format.{
  PoolError, segment_offset, record_len, read_header, owner_of, seal_segment,
}
use wbf_matrix_client.Media.Pool.Writer.{
  PoolWriter, new_writer, hash, truncate_to_written, note_data, note_segment, resume_scan,
  resume_pending, sealed_plain_len,
}
use wbf_matrix_client.Media.Pool.Pieces.{
  piece, piece_end, quotient_bounds, length-piece, take-piece, take_none,
}
use wbf_matrix_client.Media.Pool.Segments.{
  slice-behind, record_len-positive, Opens, seal_segment-Opens, length-seal_segment,
}
use wbf_matrix_client.Media.Pool.Writing.{IsImage, IsSound, headed-append, file-Opens}
use wbf_matrix_client.Media.Pool.Resumed.{resume_pending-IsSound}

module _ (x : Sealer) where
  -- The loop goes on over a full segment.
  scan_full :
      (left index : ℕ) (w : PoolWriter) (bs : Bytes)
      → Opens x w.header w.file index bs
      → length bs ≡ w.header.segment_size
      → resume_scan x (suc left) index w
        ≡ resume_scan x left (suc index) (record (hash w bs) { segments_written = suc index })
  unfolding resume_scan note_segment note_data
  scan_full left index w bs (segment, opened, found, size) full =
      let at_size : (segment.len == w.header.segment_size) ≡ true = ground arith in
      rw (opened, found, at_size) refl

  -- It ends at a short segment that is the last.
  scan_last :
      (index : ℕ) (w : PoolWriter) (bs : Bytes)
      → Opens x w.header w.file index bs
      → length bs ≢ w.header.segment_size
      → resume_scan x 1 index w
        ≡ ok (record (hash w bs) { buffer = w.buffer ++ bs; holds_final_segment = true })
  unfolding resume_scan note_segment note_data
  scan_last index w bs (segment, opened, found, size) short =
      let at_size : (segment.len == w.header.segment_size) ≡ false = ground arith in
      rw (opened, found, at_size) refl

module _ (x : Sealer) (w : PoolWriter) (image : IsImage x w) where
  -- The writer of the scan when it has hashed so much.
  abbrev scanning : ℕ → Bytes → ℕ → PoolWriter
  scanning index hs n = record (new_writer w.header w.file) {
    segments_written = index;
    hashed = hs;
    plain_len = n;
  }

  -- What is found: a front part of the bytes, with every whole segment.
  abbrev Recovers : Result PoolError PoolWriter → Type 0
  Recovers r =
      (v : PoolWriter) × (m : ℕ) × (r ≡ ok v)
      × (v.hashed ≡ take m w.hashed)
      × (sealed_plain_len w ≤ m)
      × (m ≤ length w.hashed)

  -- A whole record behind the segments is the buffer, sealed.
  torn-Opens :
      length image.tail ≡ record_len w.header → Opens x w.header w.file w.segments_written w.buffer
  unfolding record_len
  torn-Opens full = from_tail image.torn
    where
      from_tail :
          (image.tail ≡ [])
            ⊎ ((cell : Bytes) × (k : ℕ) × (seal_segment x w.header w.segments_written w.buffer
                  ≡ some cell)
                × (image.tail ≡ take k cell))
          → Opens x w.header w.file w.segments_written w.buffer
      from_tail (inl clean) = absurd (omega (arith, ap length clean))
      from_tail (inr (cell, k, sealed, same)) =
          let size = length-seal_segment x w.header w.segments_written w.buffer cell sealed in
          let whole : image.tail ≡ cell =
            same ∙ take_all k cell (omega (arith, ap length same, length-take k cell)) in
          seal_segment-Opens x w.header w.file w.segments_written w.buffer cell
            image.header_ok.small sealed
            (ap
                (λ f.
                  slice f (segment_offset w.header w.segments_written)
                    (segment_offset w.header w.segments_written + record_len w.header))
                (image.parts ∙ ap (λ t. image.front ++ t) whole)
              ∙ slice-behind w.header w.segments_written image.front cell image.ended size)

  all_taken : take (w.segments_written * w.header.segment_size) w.hashed ++ w.buffer ≡ w.hashed
  all_taken =
      ap (λ t. take (w.segments_written * w.header.segment_size) w.hashed ++ t) image.held
      ∙ take-append-drop (w.segments_written * w.header.segment_size) w.hashed

  scan_end :
      (left : ℕ) (hs : Bytes) (n : ℕ)
      → hs ≡ take (w.segments_written * w.header.segment_size) w.hashed
      → left ≤ 1
      → (1 ≤ left → length image.tail ≡ record_len w.header)
      → Recovers (resume_scan x left w.segments_written (scanning w.segments_written hs n))
  unfolding resume_scan sealed_plain_len new_writer hash
  scan_end zero hs n e few full =
      (_, w.segments_written * w.header.segment_size, refl, e, omega arith, image.whole)
  scan_end (suc zero) hs n e few full = elim (ℕ_discrete (length w.buffer) w.header.segment_size) [
    | yes same ↦ (
      _,
      length w.hashed,
      scan_full x 0 w.segments_written (scanning w.segments_written hs n) w.buffer
          (torn-Opens (full (omega arith))) same,
      ap (λ t. t ++ w.buffer) e ∙ all_taken ∙ sym (take-length w.hashed),
      image.whole,
      omega arith,
    )
    | no other ↦ (
      _,
      length w.hashed,
      scan_last x w.segments_written (scanning w.segments_written hs n) w.buffer
          (torn-Opens (full (omega arith))) other,
      ap (λ t. t ++ w.buffer) e ∙ all_taken ∙ sym (take-length w.hashed),
      image.whole,
      omega arith,
    )
  ]
  scan_end (suc (suc left)) hs n e few full = absurd (omega arith)

  at_end :
      (left index : ℕ) (hs : Bytes) (n : ℕ)
      → hs ≡ take (index * w.header.segment_size) w.hashed
      → index ≡ w.segments_written
      → left ≤ 1
      → (1 ≤ left → length image.tail ≡ record_len w.header)
      → Recovers (resume_scan x left index (scanning index hs n))
  at_end left index hs n e same few full =
      subst (λ i. Recovers (resume_scan x left i (scanning i hs n))) (sym same)
        (scan_end left hs n (e ∙ ap (λ i. take (i * w.header.segment_size) w.hashed) same) few full)

  scan-Recovers :
      (left index : ℕ) (hs : Bytes) (n : ℕ)
      → hs ≡ take (index * w.header.segment_size) w.hashed
      → index ≤ w.segments_written
      → w.segments_written ≤ left + index
      → left + index ≤ suc w.segments_written
      → (suc w.segments_written ≤ left + index → length image.tail ≡ record_len w.header)
      → Recovers (resume_scan x left index (scanning index hs n))
  unfolding new_writer hash
  scan-Recovers zero index hs n e before enough few full =
      at_end zero index hs n e (omega arith) (omega arith) (λ more. full (omega arith))
  scan-Recovers (suc left) index hs n e before enough few full =
      elim (ℕ_discrete index w.segments_written) [
        | yes same ↦ at_end (suc left) index hs n e same (omega arith) (λ more. full (omega arith))
        | no other ↦
            let bs = piece w.header.segment_size w.hashed index in
            let lt : index < w.segments_written = omega arith in
            let size = length-piece w.header.segment_size w.hashed index (
              omega (
                arith,
                image.whole,
                piece_end w.header.segment_size index w.segments_written lt,
              )) in
            subst Recovers
              (sym (
                scan_full x left index (scanning index hs n) bs (file-Opens x w image index lt)
                  size))
              (scan-Recovers left (suc index) (hs ++ bs) (n + length bs)
                (ap (λ t. t ++ bs) e ∙ take-piece w.header.segment_size w.hashed index)
                (omega arith) (omega arith) (omega arith) (λ more. full (omega arith)))
      ]

  tail_bound : length image.tail ≤ record_len w.header
  tail_bound = bound image.torn
    where
      bound :
          (image.tail ≡ [])
            ⊎ ((cell : Bytes) × (k : ℕ) × (seal_segment x w.header w.segments_written w.buffer
                  ≡ some cell)
                × (image.tail ≡ take k cell))
          → length image.tail ≤ record_len w.header
      bound (inl clean) = omega (arith, ap length clean)
      bound (inr (cell, k, sealed, same)) = omega (
        arith,
        ap length same,
        length-take k cell,
        length-seal_segment x w.header w.segments_written w.buffer cell sealed,
      )

  -- How many whole records stand in the file.
  records_bounds :
      (r q : ℕ)
      → r ≡ record_len w.header
      → q ≡ (length w.file - 32) / r
      → (w.segments_written ≤ q)
        × (q ≤ suc w.segments_written)
        × (suc w.segments_written ≤ q → length image.tail ≡ record_len w.header)
  unfolding segment_offset
  records_bounds r q size e =
      let pos : 0 < r = omega (arith, size, record_len-pos) in
      let body : length w.file - 32 ≡ w.segments_written * r + length image.tail = omega (
        arith,
        ap length image.parts,
        length-append image.front image.tail,
        image.ended,
        ap (λ k. w.segments_written * k) size,
      ) in
      let product : q * r ≡ (length w.file - 32) / r * r = ap (λ k. k * r) e in
      let (low, high, full) =
        quotient_bounds r w.segments_written (length image.tail) q pos
          (omega (arith, tail_bound, size))
          (omega (
            arith,
            product,
            body,
            div-add-mod' (length w.file - 32) r,
            mod-lt (length w.file - 32) pos,
          ))
          (omega (
            arith,
            product,
            body,
            div-add-mod' (length w.file - 32) r,
            mod-lt (length w.file - 32) pos,
          )) in
      (low, high, λ more. full more ∙ size)
    where
      record_len-pos : 0 < record_len w.header
      record_len-pos = record_len-positive w.header

  -- A file that was left at any moment, in the midst of a write too, is taken up under its owner
  -- and with its segment size, which is between 1 and 2 ^ 32: `resume_pending` gives a sound writer
  -- of a front part of the bytes that the writer had taken, with all that it had in whole segments.
  pub resume_pending-IsImage :
      (blake3 : Text → Bytes) (mxc : Text)
      → w.header.owner ≡ owner_of blake3 mxc
      → (v : PoolWriter) × (m : ℕ) × (resume_pending x blake3 w.header.segment_size mxc w.file
          ≡ ok v)
        × IsSound x v
        × (v.hashed ≡ take m w.hashed)
        × (sealed_plain_len w ≤ m)
        × (m ≤ length w.hashed)
  unfolding resume_pending truncate_to_written new_writer
  resume_pending-IsImage blake3 mxc owned =
      let (low, high, full) = records_bounds (record_len w.header) _ refl refl in
      let (v, m, scanned, same, kept, short) =
        scan-Recovers ((length w.file - 32) / record_len w.header) 0 [] 0
          (take_none w.header.segment_size w.hashed) (omega arith) (omega arith) (omega arith)
          (λ more. full (omega arith)) in
      let resumed : resume_pending x blake3 w.header.segment_size mxc w.file
          ≡ ok (truncate_to_written v) =
        rw (headed, ==_self w.header.segment_size, mine, scanned) refl in
      (
        truncate_to_written v,
        m,
        resumed,
        (resume_pending-IsSound x blake3 w.header.segment_size mxc w.file (truncate_to_written v)
            image.header_ok.filled image.header_ok.small resumed).0,
        same,
        kept,
        short,
      )
    where
      headed : read_header w.file ≡ ok w.header
      headed = ap read_header image.parts ∙ headed-append x w image image.tail

      mine : (w.header.owner == owner_of blake3 mxc) ≡ true
      mine = ground (arith, owned)
