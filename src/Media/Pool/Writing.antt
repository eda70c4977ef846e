-- ===== src/Media/Pool/Writing.antt =====
-- The state of a writer: what its file holds of the bytes it took, and that taking bytes and
-- sealing a full segment keep it so (crates/wbf-sdk/src/media_pool.rs).
use wbf_matrix_client.Common.{
  ℕ, suc, ◌+◌, ◌*◌, ◌^◌, ◌≤◌, ◌<◌, max, ◌≡◌, ◌⊎◌, inl, inr, refl, sym, ap, ap₂, ◌∙◌, subst, arith,
  [], ◌++◌, append-nil, some, length, take, drop, length-append, length-take, length-drop, take_all,
  drop_all, drop_nil, drop-append_le, length-eq-zero, slice-append_some, ok,
}
use wbf_matrix_client.Common.Bytes.{Bytes}
use native.Mathlib.Decide.{ℕ_discrete}
use wbf_matrix_client.Media.SeekStore.{Sealer, write_at}
use wbf_matrix_client.Media.Pool.Format.{Header, seal_segment, segment_offset, read_header}
use wbf_matrix_client.Media.Pool.Writer.{PoolWriter, hash, take_in}
use wbf_matrix_client.Media.Pool.Pieces.{piece, piece_end, piece-append, write_at-append, overlay}
use wbf_matrix_client.Media.Pool.Segments.{
  segment_offset-suc, slice-behind, Opens, Opens-slice, seal_segment-Opens, read_header-slice,
  length-seal_segment,
}

some_injective : {a b : Bytes} → some a ≡ some b → a ≡ b
some_injective h = cc

pub record IsHeader (h : Header) : Type 0 where
  pub filled : 0 < h.segment_size
  pub small : h.segment_size < 2 ^ 32

-- The file of a writer: the header and the whole segments in front, and behind them at most a
-- part of the segment that the buffer makes.
pub record IsImage (x : Sealer) (w : PoolWriter) : Type 0 where
  pub header_ok : IsHeader w.header
  pub front : Bytes
  pub tail : Bytes
  pub parts : w.file ≡ front ++ tail
  pub ended : length front ≡ segment_offset w.header w.segments_written
  pub headed : read_header front ≡ ok w.header
  pub opens :
      (i : ℕ)
      → i < w.segments_written
      → Opens x w.header front i (piece w.header.segment_size w.hashed i)
  pub whole : w.segments_written * w.header.segment_size ≤ length w.hashed
  pub held : w.buffer ≡ drop (w.segments_written * w.header.segment_size) w.hashed
  pub counted : w.plain_len ≡ length w.hashed
  pub short : length w.buffer ≤ w.header.segment_size
  pub torn :
      (tail ≡ [])
      ⊎ ((cell : Bytes) × (k : ℕ) × (seal_segment x w.header w.segments_written w.buffer
            ≡ some cell)
          × (tail ≡ take k cell))

-- A writer that can go on: part of a segment is behind the file only while its buffer is full.
pub record IsSound (x : Sealer) (w : PoolWriter) : Type 0 where
  pub image : IsImage x w
  pub ready : (image.tail ≡ []) ⊎ (length w.buffer ≡ w.header.segment_size)

module _ (x : Sealer) (w : PoolWriter) where
  pub length-held :
      IsImage x w → length w.hashed ≡ w.segments_written * w.header.segment_size + length w.buffer
  length-held h = omega (
    arith,
    h.whole,
    ap length h.held,
    length-drop (w.segments_written * w.header.segment_size) w.hashed,
  )

  -- A piece that fits goes into the buffer.
  pub take_in-IsSound :
      (bs : Bytes)
      → IsSound x w
      → length bs + length w.buffer ≤ w.header.segment_size
      → IsSound x (take_in w bs)
  unfolding take_in hash
  take_in-IsSound bs h fits = record {
    image = record {
      header_ok = h.image.header_ok;
      front = h.image.front;
      tail = h.image.tail;
      parts = h.image.parts;
      ended = h.image.ended;
      headed = h.image.headed;
      opens = λ i lt.
          subst (Opens x w.header h.image.front i)
            (sym (piece-append w.header.segment_size w.hashed bs i (inside i lt)))
            (h.image.opens i lt);
      whole = omega (arith, h.image.whole, length-append w.hashed bs);
      held = ap (λ t. t ++ bs) h.image.held ∙ sym (drop-append_le _ w.hashed bs h.image.whole);
      counted = omega (arith, h.image.counted, length-append w.hashed bs);
      short = omega (arith, length-append w.buffer bs);
      torn = still_torn h.image.torn;
    };
    ready = still_ready h.ready;
  }
    where
      inside :
          (i : ℕ)
          → i < w.segments_written
          → i * w.header.segment_size + w.header.segment_size ≤ length w.hashed
      inside i lt =
          omega (arith, h.image.whole, piece_end w.header.segment_size i w.segments_written lt)

      full_stays : length w.buffer ≡ w.header.segment_size → w.buffer ++ bs ≡ w.buffer
      full_stays full =
          ap (λ t. w.buffer ++ t) (length-eq-zero bs (omega arith)) ∙ append-nil w.buffer

      still_ready :
          (h.image.tail ≡ []) ⊎ (length w.buffer ≡ w.header.segment_size)
          → (h.image.tail ≡ []) ⊎ (length (w.buffer ++ bs) ≡ w.header.segment_size)
      still_ready (inl clean) = inl clean
      still_ready (inr full) = inr (ap length (full_stays full) ∙ full)

      IsTorn : Bytes → Type 0
      IsTorn buffer =
          (cell : Bytes) × (k : ℕ) × (seal_segment x w.header w.segments_written buffer ≡ some cell)
          × (h.image.tail ≡ take k cell)

      still_torn_of :
          (h.image.tail ≡ []) ⊎ (length w.buffer ≡ w.header.segment_size)
          → IsTorn w.buffer
          → (h.image.tail ≡ []) ⊎ IsTorn (w.buffer ++ bs)
      still_torn_of (inl clean) t = inl clean
      still_torn_of (inr full) t = inr (subst IsTorn (sym (full_stays full)) t)

      still_torn :
          (h.image.tail ≡ []) ⊎ IsTorn w.buffer → (h.image.tail ≡ []) ⊎ IsTorn (w.buffer ++ bs)
      still_torn (inl clean) = inl clean
      still_torn (inr t) = still_torn_of h.ready t

  -- The tail behind a write of a part of the segment, over what an earlier write left there.
  rewritten :
      (h : IsImage x w) (cell : Bytes) (k : ℕ)
      → seal_segment x w.header w.segments_written w.buffer ≡ some cell
      → (m : ℕ) × (take k cell ++ drop (length (take k cell)) h.tail ≡ take m cell)
  rewritten h cell k e = over h.torn
    where
      over :
          (h.tail ≡ [])
            ⊎ ((c : Bytes) × (m : ℕ) × (seal_segment x w.header w.segments_written w.buffer
                  ≡ some c)
                × (h.tail ≡ take m c))
          → (m : ℕ) × (take k cell ++ drop (length (take k cell)) h.tail ≡ take m cell)
      over (inl clean) = (
        k,
        ap (λ t. take k cell ++ drop (length (take k cell)) t) clean
            ∙ ap (λ t. take k cell ++ t) (drop_nil (length (take k cell)))
            ∙ append-nil (take k cell),
      )
      over (inr (c, m, sealed, same)) =
          let one : c ≡ cell = some_injective (sym sealed ∙ e) in
          (
            max m k,
            ap (λ t. take k cell ++ drop (length (take k cell)) t) (same ∙ ap (take m) one)
                ∙ overlay m k cell,
          )

  -- The file after a write of bytes at the place of the next segment.
  written :
      (h : IsImage x w) (bs : Bytes)
      → write_at w.file (segment_offset w.header w.segments_written) bs
        ≡ h.front ++ (bs ++ drop (length bs) h.tail)
  written h bs =
      ap₂ (λ f o. write_at f o bs) h.parts (sym h.ended) ∙ write_at-append h.front h.tail bs

  -- A part of the segment reaches the file.
  pub torn-IsImage :
      (h : IsImage x w) (cell : Bytes) (k : ℕ)
      → seal_segment x w.header w.segments_written w.buffer ≡ some cell
      → IsImage x (record w {
        file = write_at w.file (segment_offset w.header w.segments_written) (take k cell);
      })
  torn-IsImage h cell k e = record {
    header_ok = h.header_ok;
    front = h.front;
    tail = take k cell ++ drop (length (take k cell)) h.tail;
    parts = written h (take k cell);
    ended = h.ended;
    headed = h.headed;
    opens = h.opens;
    whole = h.whole;
    held = h.held;
    counted = h.counted;
    short = h.short;
    torn = let (m, same) = rewritten h cell k e in inr (cell, m, e, same);
  }

  last_piece : IsImage x w → piece w.header.segment_size w.hashed w.segments_written ≡ w.buffer
  unfolding piece
  last_piece h =
      ap (take w.header.segment_size) (sym h.held) ∙ take_all w.header.segment_size w.buffer h.short

  -- The file when the whole segment of the buffer has reached it.
  pub landed-parts :
      (h : IsImage x w) (cell : Bytes)
      → seal_segment x w.header w.segments_written w.buffer ≡ some cell
      → write_at w.file (segment_offset w.header w.segments_written) cell ≡ h.front ++ cell
  landed-parts h cell e =
      written h cell
      ∙ ap (λ t. h.front ++ (cell ++ t)) (drop_all (length cell) h.tail (tail_size h.torn))
      ∙ ap (λ t. h.front ++ t) (append-nil cell)
    where
      tail_size :
          (h.tail ≡ [])
            ⊎ ((c : Bytes) × (m : ℕ) × (seal_segment x w.header w.segments_written w.buffer
                  ≡ some c)
                × (h.tail ≡ take m c))
          → length h.tail ≤ length cell
      tail_size (inl clean) = omega (arith, ap length clean)
      tail_size (inr (c, m, sealed, same)) =
          omega
            (arith, ap length same, length-take m c, ap length (some_injective (sym sealed ∙ e)))

  pub length-landed :
      (h : IsImage x w) (cell : Bytes)
      → seal_segment x w.header w.segments_written w.buffer ≡ some cell
      → length (h.front ++ cell) ≡ segment_offset w.header (suc w.segments_written)
  length-landed h cell e = omega (
    arith,
    length-append h.front cell,
    h.ended,
    length-seal_segment x w.header w.segments_written w.buffer cell e,
    segment_offset-suc w.header w.segments_written,
  )

  pub headed-append : (h : IsImage x w) (more : Bytes) → read_header (h.front ++ more) ≡ ok w.header
  headed-append h more =
      read_header-slice h.front (h.front ++ more) w.header
        (λ bytes there. slice-append_some h.front more 0 32 bytes there) h.headed

  -- Then every segment up to this one opens.
  pub landed-Opens :
      (h : IsImage x w) (cell : Bytes)
      → seal_segment x w.header w.segments_written w.buffer ≡ some cell
      → (i : ℕ) → i < suc w.segments_written
      → Opens x w.header (h.front ++ cell) i (piece w.header.segment_size w.hashed i)
  landed-Opens h cell e i lt = elim (ℕ_discrete i w.segments_written) [
    | yes same ↦
        subst (λ i. Opens x w.header (h.front ++ cell) i (piece w.header.segment_size w.hashed i))
          (sym same) last_opens
    | no other ↦
        Opens-slice x w.header h.front (h.front ++ cell) i _
          (λ c there. slice-append_some h.front cell _ _ c there) (h.opens i (omega arith))
  ]
    where
      last_opens :
          Opens x w.header
            (h.front ++ cell)
            w.segments_written
            (piece w.header.segment_size w.hashed w.segments_written)
      last_opens =
          subst (Opens x w.header (h.front ++ cell) w.segments_written) (sym (last_piece h)) (
            seal_segment-Opens x w.header (h.front ++ cell) w.segments_written w.buffer cell
              h.header_ok.small e
              (slice-behind w.header w.segments_written h.front cell h.ended
                (length-seal_segment x w.header w.segments_written w.buffer cell e)))

  -- A full segment reaches the file.
  pub landed-IsSound :
      (h : IsImage x w) (cell : Bytes)
      → seal_segment x w.header w.segments_written w.buffer ≡ some cell
      → length w.buffer ≡ w.header.segment_size
      → IsSound x (record w {
        file = write_at w.file (segment_offset w.header w.segments_written) cell;
        segments_written = suc w.segments_written;
        buffer = [];
      })
  landed-IsSound h cell e full = record {
    image = record {
      header_ok = h.header_ok;
      front = h.front ++ cell;
      tail = [];
      parts = landed-parts h cell e ∙ sym (append-nil (h.front ++ cell));
      ended = length-landed h cell e;
      headed = headed-append h cell;
      opens = landed-Opens h cell e;
      whole = omega (arith, length-held h);
      held = sym (drop_all _ w.hashed (omega (arith, length-held h)));
      counted = h.counted;
      short = omega arith;
      torn = inl refl;
    };
    ready = inl refl;
  }

  -- The whole segments open from the file as well.
  pub file-Opens :
      (h : IsImage x w) (i : ℕ)
      → i < w.segments_written
      → Opens x w.header w.file i (piece w.header.segment_size w.hashed i)
  file-Opens h i lt =
      subst (λ f. Opens x w.header f i (piece w.header.segment_size w.hashed i)) (sym h.parts)
        (Opens-slice x w.header h.front (h.front ++ h.tail) i _
          (λ cell there. slice-append_some h.front h.tail _ _ cell there) (h.opens i lt))
