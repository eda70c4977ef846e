-- ===== src/Media/Pool/Writer.antt =====
-- `PoolWriter`: append, seal, finish, and the resumption of a file that was left
-- (crates/wbf-sdk/src/media_pool.rs). Both hashes are over the same bytes, which the model keeps.
use wbf_matrix_client.Common.{
  ℕ, zero, suc, ◌+◌, ◌-◌, ◌*◌, ◌/◌, min, Bool, true, false, not, ◌&&◌, ◌||◌, Option, none, some, [],
  ◌∷◌, ◌++◌, ltb, ◌==◌, if◌then◌else◌, Result, ok, err, ◌>>=◌, ◌>>◌, ok_or, refuse, length, take,
  drop, replicate, slice,
}
use wbf_matrix_client.Common.Bytes.{Bytes}
use wbf_matrix_client.Media.Block.{Text}
use wbf_matrix_client.Media.SeekStore.{Sealer, Disk, lands, fails_after, write_at}
use wbf_matrix_client.Media.Pool.Format.{
  PoolError, usage, io, endless, Header, OpenedSegment, owner_of, encode_pool_header, read_header,
  record_len, segment_offset, segment_data, seal_segment, open_segment, pool_header_len,
}

-- `SEGMENT_SIZE`; the operations take the size of this build as an argument.
abbrev pub built_segment_size : ℕ
built_segment_size = 65536

pub record PoolWriter : Type 0 where
  pub header : Header
  pub file : Bytes
  pub segments_written : ℕ
  pub buffer : Bytes
  pub hashed : Bytes
  pub plain_len : ℕ
  pub holds_final_segment : Bool

pub record Finished : Type 0 where
  pub hash_hex : Text
  pub sha256_hex : Text
  pub plain_len : ℕ
  pub segments : ℕ
  pub bytes_on_disk : ℕ

abbrev pub Written : Type 0
Written = Result PoolError (Unit {0}) × PoolWriter

-- `PoolWriter::new`.
unfoldable pub new_writer : Header → Bytes → PoolWriter
new_writer h file = record {
  header = h;
  file = file;
  segments_written = 0;
  buffer = [];
  hashed = [];
  plain_len = 0;
  holds_final_segment = false;
}

unfoldable pub sealed_plain_len : PoolWriter → ℕ
sealed_plain_len w = w.segments_written * w.header.segment_size

-- `PoolWriter::hash`.
unfoldable pub hash : PoolWriter → Bytes → PoolWriter
hash w bytes = record w { hashed = w.hashed ++ bytes; plain_len = w.plain_len + length bytes }

-- `File::set_len`.
unfoldable pub set_len : Bytes → ℕ → Bytes
set_len file end = take end (file ++ replicate (end - length file) 0)

unfoldable pub truncate_to_written : PoolWriter → PoolWriter
truncate_to_written w = record w {
  file = set_len w.file (segment_offset w.header w.segments_written);
}

-- What the disk does with a sealed segment at its place.
unfoldable pub land_segment : Disk → PoolWriter → Option Bytes → Written
land_segment disk w none = (err io, w)
land_segment lands w (some sealed) = (
  ok tt,
  record w {
    file = write_at w.file (segment_offset w.header w.segments_written) sealed;
    segments_written = suc w.segments_written;
    buffer = [];
  },
)
land_segment (fails_after k) w (some sealed) = (
  err io,
  record w { file = write_at w.file (segment_offset w.header w.segments_written) (take k sealed) },
)

-- `?` behind an operation on the writer.
unfoldable pub after : Written → (PoolWriter → Written) → Written
after (ok u, w) next = next w
after (err e, w) next = (err e, w)

-- A piece of what is written goes into the buffer and the hashes.
unfoldable pub take_in : PoolWriter → Bytes → PoolWriter
take_in w piece = record (hash w piece) { buffer = w.buffer ++ piece }

-- `create_pending`; the nonce base is the draw from the operating system, if it gives one.
unfoldable pub create_pending :
    (Text → Bytes) → ℕ → Disk → Option Bytes → Text → Result PoolError PoolWriter
create_pending blake3 size disk none mxc = err io
create_pending blake3 size (fails_after k) (some base) mxc = err io
create_pending blake3 size lands (some base) mxc =
    let h : Header = record {
      segment_size = size;
      nonce_base = base;
      owner = owner_of blake3 mxc;
    } in
    ok (new_writer h (encode_pool_header h))

-- How many bytes fit before the buffer is full.
unfoldable pub fitting : PoolWriter → Bytes → ℕ
fitting w rest = min (w.header.segment_size - length w.buffer) (length rest)

module _ (x : Sealer) where
  unfoldable pub seal_buffer : Disk → PoolWriter → Written
  seal_buffer disk w =
      if length w.buffer == 0
      then (ok tt, w)
      else land_segment disk w (seal_segment x w.header w.segments_written w.buffer)

  -- A full buffer is sealed; `disk` says what happens to each segment number.
  unfoldable pub seal_full : (ℕ → Disk) → PoolWriter → Written
  seal_full disk w =
      if length w.buffer == w.header.segment_size
      then seal_buffer (disk w.segments_written) w
      else (ok tt, w)

  unfoldable pub write_loop : ℕ → (ℕ → Disk) → PoolWriter → Bytes → Written
  write_loop fuel disk w [] = (ok tt, w)
  write_loop zero disk w (b ∷ bs) = (err endless, w)
  write_loop (suc fuel) disk w (b ∷ bs) =
      after (seal_full disk (take_in w (take (fitting w (b ∷ bs)) (b ∷ bs))))
        λ w'. write_loop fuel disk w' (drop (fitting w (b ∷ bs)) (b ∷ bs))

  -- `Write::write`.
  unfoldable pub write : (ℕ → Disk) → PoolWriter → Bytes → Written
  write disk w bytes =
      if w.holds_final_segment && not (length bytes == 0)
      then (err io, w)
      else write_loop (suc (length bytes)) disk w bytes

  -- `finish`; `synced` says whether `sync_all` succeeds, the hashes give their hex text.
  unfoldable pub finish_with :
      (Bytes → Text) → (Bytes → Text) → Bool → Written → Result PoolError Finished × PoolWriter
  finish_with blake3 sha256 synced (err e, w) = (err e, w)
  finish_with blake3 sha256 false (ok u, w) = (err io, w)
  finish_with blake3 sha256 true (ok u, w) = (
    ok (record {
      hash_hex = blake3 w.hashed;
      sha256_hex = sha256 w.hashed;
      plain_len = w.plain_len;
      segments = w.segments_written;
      bytes_on_disk = length w.file;
    }),
    w,
  )

  unfoldable pub finish :
      (Bytes → Text)
      → (Bytes → Text)
      → Bool
      → Disk
      → PoolWriter
      → Result PoolError Finished × PoolWriter
  finish blake3 sha256 synced disk w =
      if w.plain_len == 0
      then (err usage, w)
      else finish_with blake3 sha256 synced (seal_buffer disk w)

  -- The segments before a broken one are hashed again from the first.
  unfoldable pub rehash_from : ℕ → ℕ → PoolWriter → Result PoolError PoolWriter
  rehash_from zero kept w = ok w
  rehash_from (suc left) kept w = do
    segment ← open_segment x w.header w.file kept
    bytes ← segment_data segment
    rehash_from left (suc kept) (hash w bytes)

  unfoldable pub rehash_up_to : ℕ → PoolWriter → Result PoolError PoolWriter
  rehash_up_to index w =
      rehash_from index 0 (record w { hashed = []; plain_len = 0; segments_written = index })

  -- A segment that opened: a full one is kept, a short one is the last or cuts the file.
  unfoldable pub note_data :
      ℕ
      → ℕ
      → PoolWriter
      → ℕ
      → (PoolWriter → Result PoolError PoolWriter)
      → Bytes
      → Result PoolError PoolWriter
  note_data left index w len next bytes =
      if len == w.header.segment_size
      then next (record (hash w bytes) { segments_written = suc index })
      else if left == 0
      then ok (record (hash w bytes) { buffer = w.buffer ++ bytes; holds_final_segment = true })
      else rehash_up_to index (hash w bytes)

  -- One round of the loop over the records, `left` more behind it; a segment that does not open
  -- ends the loop.
  unfoldable pub note_segment :
      ℕ
      → ℕ
      → PoolWriter
      → (PoolWriter → Result PoolError PoolWriter)
      → Result PoolError OpenedSegment
      → Result PoolError PoolWriter
  note_segment left index w next (err e) = ok w
  note_segment left index w next (ok segment) =
      segment_data segment >>= note_data left index w segment.len next

  unfoldable pub resume_scan : ℕ → ℕ → PoolWriter → Result PoolError PoolWriter
  resume_scan zero index w = ok w
  resume_scan (suc left) index w =
      note_segment left index w (λ w'. resume_scan left (suc index) w')
        (open_segment x w.header w.file index)

  -- `resume_pending` on the bytes of the file; `size` is the segment size of this build.
  unfoldable pub resume_pending : (Text → Bytes) → ℕ → Text → Bytes → Result PoolError PoolWriter
  resume_pending blake3 size mxc file = do
    h ← read_header file
    refuse (not (h.segment_size == size)) io
    refuse (not (h.owner == owner_of blake3 mxc)) io
    w ← resume_scan ((length file - pool_header_len) / record_len h) 0 (new_writer h file)
    ok (truncate_to_written w)

  -- The loop of `read_sealed`: `fuel` rounds from `position` on.
  unfoldable pub read_pieces : ℕ → PoolWriter → ℕ → ℕ → Result PoolError Bytes
  read_pieces zero w position end = if ltb position end then err endless else ok []
  read_pieces (suc fuel) w position end =
      if ltb position end
      then (let index = position / w.header.segment_size in
          let start = index * w.header.segment_size in
          do
            segment ← open_segment x w.header w.file index
            bytes ← segment_data segment
            let to = min (end - start) segment.len
            piece ← ok_or (slice bytes (position - start) to) io
            rest ← read_pieces fuel w (start + to) end
            ok (piece ++ rest))
      else ok []

  unfoldable pub read_sealed : PoolWriter → ℕ → ℕ → Result PoolError Bytes
  read_sealed w start end =
      if ltb end start || ltb (sealed_plain_len w) end
      then err usage
      else read_pieces (end - start) w start end
