-- ===== src/Media/Pool/Resuming.antt =====
-- Taking up a file that was left: what the scan of `resume_pending` finds in any file
-- (crates/wbf-sdk/src/media_pool.rs).
use wbf_matrix_client.Common.{
  ℕ, zero, suc, ◌+◌, ◌*◌, ◌≤◌, ◌<◌, ◌≡◌, ◌⊎◌, inl, inr, refl, sym, ap, ap₂, ◌∙◌, subst, arith, [],
  ◌++◌, length, take, drop, length-append, length-drop, take_all, drop_all, drop-append, Result, ok,
  err, ok_injective, >>=-eq-ok, Bool, true, false, ◌==◌, Bool-cases, if_true, if_false,
}
use wbf_matrix_client.Common.Bytes.{Bytes}
use native.Mathlib.Decide.{ℕ_discrete}
use wbf_matrix_client.Media.SeekStore.{Sealer}
use wbf_matrix_client.Media.Pool.Format.{
  PoolError, OpenedSegment, segment_offset, record_len, segment_data, open_segment,
}
use wbf_matrix_client.Media.Pool.Writer.{
  PoolWriter, hash, rehash_from, rehash_up_to, note_data, note_segment, resume_scan,
}
use wbf_matrix_client.Media.Pool.Pieces.{piece, piece_end, piece-append, take-piece, take_none}
use wbf_matrix_client.Media.Pool.Segments.{
  segment_offset-suc, Opens, open_segment-Opens, segment_data-length,
}

-- What the scan knows of a writer over a whole file.
pub record IsScanned (x : Sealer) (w : PoolWriter) : Type 0 where
  pub opens :
      (i : ℕ)
      → i < w.segments_written
      → Opens x w.header w.file i (piece w.header.segment_size w.hashed i)
  pub inside : segment_offset w.header w.segments_written ≤ length w.file
  pub whole : w.segments_written * w.header.segment_size ≤ length w.hashed
  pub held : w.buffer ≡ drop (w.segments_written * w.header.segment_size) w.hashed
  pub counted : w.plain_len ≡ length w.hashed
  pub short : length w.buffer ≤ w.header.segment_size

-- While the loop goes on the buffer is empty and the writer stands at the segment.
pub record IsAt (x : Sealer) (w : PoolWriter) (index : ℕ) : Type 0 where
  pub scanned : IsScanned x w
  pub at_index : w.segments_written ≡ index
  pub empty : w.buffer ≡ []

module _ (x : Sealer) where
  all_hashed :
      (w : PoolWriter) (index : ℕ)
      → IsAt x w index
      → length w.hashed ≡ index * w.header.segment_size
  all_hashed w index h = omega (
    arith,
    h.scanned.whole,
    ap (λ k. k * w.header.segment_size) h.at_index,
    ap length (sym h.empty ∙ h.scanned.held),
    length-drop (w.segments_written * w.header.segment_size) w.hashed,
  )

  -- The piece behind what was hashed, and the buffer that it would make.
  next_piece :
      (w : PoolWriter) (index : ℕ) (bs : Bytes)
      → IsAt x w index
      → drop (index * w.header.segment_size) (w.hashed ++ bs) ≡ bs
  next_piece w index bs h =
      ap (λ k. drop k (w.hashed ++ bs)) (sym (all_hashed w index h)) ∙ drop-append w.hashed bs

  old_piece :
      (w : PoolWriter) (index i : ℕ) (bs : Bytes)
      → IsAt x w index
      → i < index
      → piece w.header.segment_size (w.hashed ++ bs) i ≡ piece w.header.segment_size w.hashed i
  old_piece w index i bs h lt =
      piece-append w.header.segment_size w.hashed bs i
        (omega (arith, all_hashed w index h, piece_end w.header.segment_size i index lt))

  -- A full segment goes on to the next one.
  keep-IsAt :
      (w : PoolWriter) (index : ℕ) (bs : Bytes)
      → IsAt x w index
      → Opens x w.header w.file index bs
      → length bs ≡ w.header.segment_size
      → segment_offset w.header index + record_len w.header ≤ length w.file
      → IsAt x (record (hash w bs) { segments_written = suc index }) (suc index)
  unfolding hash piece
  keep-IsAt w index bs h opened full fits = record {
    scanned = record {
      opens = λ i lt. elim (ℕ_discrete i index) [
        | yes same ↦
            subst (λ k. Opens x w.header w.file k (piece w.header.segment_size (w.hashed ++ bs) k))
              (sym same) (subst (Opens x w.header w.file index) (sym last_piece) opened)
        | no other ↦
            subst (Opens x w.header w.file i) (sym (old_piece w index i bs h (omega arith)))
              (h.scanned.opens i (omega (arith, h.at_index)))
      ];
      inside = omega (arith, segment_offset-suc w.header index);
      whole = omega (arith, length-append w.hashed bs, all_hashed w index h);
      held =
          h.empty
          ∙ sym (
              drop_all _ (w.hashed ++ bs)
                (omega (arith, length-append w.hashed bs, all_hashed w index h)));
      counted = omega (arith, h.scanned.counted, length-append w.hashed bs);
      short = h.scanned.short;
    };
    at_index = refl;
    empty = h.empty;
  }
    where
      last_piece : piece w.header.segment_size (w.hashed ++ bs) index ≡ bs
      last_piece =
          ap (take w.header.segment_size) (next_piece w index bs h)
          ∙ take_all w.header.segment_size bs (omega arith)

  -- A short last segment goes into the buffer.
  final-IsScanned :
      (w : PoolWriter) (index : ℕ) (bs : Bytes) (final : Bool)
      → IsAt x w index
      → length bs ≤ w.header.segment_size
      → IsScanned x (record (hash w bs) { buffer = w.buffer ++ bs; holds_final_segment = final })
  unfolding hash
  final-IsScanned w index bs final h fits = record {
    opens = λ i lt.
        subst (Opens x w.header w.file i)
          (sym (old_piece w index i bs h (omega (arith, h.at_index)))) (h.scanned.opens i lt);
    inside = h.scanned.inside;
    whole = omega (arith, length-append w.hashed bs, h.scanned.whole);
    held =
        ap (λ t. t ++ bs) h.empty
        ∙ sym (
            ap (λ k. drop (k * w.header.segment_size) (w.hashed ++ bs)) h.at_index
            ∙ next_piece w index bs h);
    counted = omega (arith, h.scanned.counted, length-append w.hashed bs);
    short = omega (arith, ap length h.empty, length-append w.buffer bs);
  }

  -- The state of a writer in the course of hashing its segments again.
  abbrev rehashing : PoolWriter → ℕ → Bytes → ℕ → PoolWriter
  rehashing w index hashed n = record w { hashed = hashed; plain_len = n; segments_written = index }

  rehash_from-hashed :
      (w : PoolWriter) (index left kept : ℕ) (hs : Bytes) (n : ℕ)
      → IsAt x w index
      → kept + left ≡ index
      → hs ≡ take (kept * w.header.segment_size) w.hashed
      → n ≡ length hs
      → rehash_from x left kept (rehashing w index hs n)
        ≡ ok (rehashing w index w.hashed (length w.hashed))
  unfolding rehash_from hash
  rehash_from-hashed w index zero kept hs n h all e size =
      let same : hs ≡ w.hashed =
        e
        ∙ take_all (kept * w.header.segment_size) w.hashed
            (omega (arith, all_hashed w index h, ap (λ k. k * w.header.segment_size) (all' all))) in
      ap₂ (λ t k. ok (rehashing w index t k)) same (size ∙ ap length same)
    where
      all' : kept + 0 ≡ index → kept ≡ index
      all' eq = omega arith
  rehash_from-hashed w index (suc left) kept hs n h all e size =
      let (segment, opened, found, len) = h.scanned.opens kept (omega (arith, h.at_index)) in
      rw (opened, found)
        (rehash_from-hashed w index left (suc kept)
          (hs ++ piece w.header.segment_size w.hashed kept)
          (n + length (piece w.header.segment_size w.hashed kept)) h (omega arith)
          (ap (λ t. t ++ piece w.header.segment_size w.hashed kept) e
            ∙ take-piece w.header.segment_size w.hashed kept)
          (omega (arith, length-append hs (piece w.header.segment_size w.hashed kept))))

  rehash_up_to-IsScanned :
      (w : PoolWriter) (index : ℕ) (bs : Bytes) (v : PoolWriter)
      → IsAt x w index
      → rehash_up_to x index (hash w bs) ≡ ok v
      → IsScanned x v × (v.header ≡ w.header) × (v.file ≡ w.file)
  unfolding rehash_up_to hash
  rehash_up_to-IsScanned w index bs v h e =
      let same : rehashing w index w.hashed (length w.hashed) ≡ v = ok_injective (
        sym (
          rehash_from-hashed w index index 0 [] 0 h (omega arith)
            (take_none w.header.segment_size w.hashed) refl)
        ∙ e) in
      subst (λ v. IsScanned x v × (v.header ≡ w.header) × (v.file ≡ w.file)) same
        (
          record {
            opens = λ i lt. h.scanned.opens i (omega (arith, h.at_index));
            inside =
                subst (λ k. segment_offset w.header k ≤ length w.file) h.at_index h.scanned.inside;
            whole = omega (arith, all_hashed w index h);
            held = h.scanned.held ∙ ap (λ k. drop (k * w.header.segment_size) w.hashed) h.at_index;
            counted = refl;
            short = h.scanned.short;
          },
          refl,
          refl,
        )

  -- What the scan gives for any file.
  abbrev Found : PoolWriter → PoolWriter → Type 0
  Found w v = IsScanned x v × (v.header ≡ w.header) × (v.file ≡ w.file)

  note_data-Found :
      (left index : ℕ) (w : PoolWriter) (len : ℕ) (next : PoolWriter → Result PoolError PoolWriter)
      (bs : Bytes) (v : PoolWriter)
      → IsAt x w index
      → Opens x w.header w.file index bs
      → len ≡ length bs
      → length bs ≤ w.header.segment_size
      → segment_offset w.header index + record_len w.header ≤ length w.file
      → ((w' v : PoolWriter) → IsAt x w' (suc index) → next w' ≡ ok v → Found w' v)
      → note_data x left index w len next bs ≡ ok v
      → Found w v
  unfolding note_data hash
  note_data-Found left index w len next bs v h opened size fits inside go e =
      split (Bool-cases (len == w.header.segment_size)) (Bool-cases (left == 0))
    where
      split :
          ((len == w.header.segment_size) ≡ true) ⊎ ((len == w.header.segment_size) ≡ false)
          → ((left == 0) ≡ true) ⊎ ((left == 0) ≡ false)
          → Found w v
      split (inl full) b =
          go _ v (keep-IsAt w index bs h opened (ground arith) inside) (if_true _ _ full e)
      split (inr short) (inl last) =
          subst (Found w) (ok_injective (if_true _ _ last (if_false _ _ short e)))
            (final-IsScanned w index bs true h fits, refl, refl)
      split (inr short) (inr more) =
          rehash_up_to-IsScanned w index bs v h (if_false _ _ more (if_false _ _ short e))

  note_segment-Found :
      (left index : ℕ) (w : PoolWriter) (next : PoolWriter → Result PoolError PoolWriter)
      (r : Result PoolError OpenedSegment) (v : PoolWriter)
      → IsAt x w index
      → open_segment x w.header w.file index ≡ r
      → ((w' v : PoolWriter) → IsAt x w' (suc index) → next w' ≡ ok v → Found w' v)
      → note_segment x left index w next r ≡ ok v
      → Found w v
  unfolding note_segment
  note_segment-Found left index w next (err error) v h opened go e =
      subst (Found w) (ok_injective e) (h.scanned, refl, refl)
  note_segment-Found left index w next (ok segment) v h opened go e =
      let (bs, found, rest) =
        >>=-eq-ok (segment_data segment) (note_data x left index w segment.len next) e in
      let (opens, pos, fits, inside) =
        open_segment-Opens x w.header w.file index segment bs opened found in
      note_data-Found left index w segment.len next bs v h opens
        (segment_data-length segment bs found) fits inside go rest

  pub resume_scan-Found :
      (left index : ℕ) (w v : PoolWriter)
      → IsAt x w index
      → resume_scan x left index w ≡ ok v
      → Found w v
  unfolding resume_scan
  resume_scan-Found zero index w v h e = subst (Found w) (ok_injective e) (h.scanned, refl, refl)
  resume_scan-Found (suc left) index w v h e =
      note_segment-Found left index w (λ w'. resume_scan x left (suc index) w') _ v h refl
        (λ w' v' h' e'. resume_scan-Found left (suc index) w' v' h' e') e
