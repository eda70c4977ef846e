-- ===== src/Media/Download/Chunks.antt =====
-- Reading and opening the chunks of a file that was sealed chunk by chunk
-- (crates/wbf-sdk/src/download.rs, `open_chunk_data`).
use wbf_matrix_client.Common.{
  ℕ, suc, ◌-◌, ◌*◌, ◌<◌, ◌≡◌, min, ap, ◌∙◌, arith, length, Result, ok, some,
}
use wbf_matrix_client.Common.Bytes.{Bytes}
use wbf_matrix_client.Media.Geometry.{chunk_count, expected_plain_len}
use wbf_matrix_client.Media.Geometry.Partition.{chunk_count-starts, expected_plain_len_lem}
use wbf_matrix_client.Media.Cipher.{Aead}
use wbf_matrix_client.Media.Block.{ChunkedBlock}
use wbf_matrix_client.Media.FileCipher.{IsSound, seal_chunk}
use wbf_matrix_client.Media.FileCipher.Sealing.{open_chunk-seal_chunk}
use wbf_matrix_client.Media.Download.{
  SdkError, VerifiedTarget, open_chunk_data, read_and_open_chunk,
}
use wbf_matrix_client.Media.Download.Spans.{between, length-between}

-- Chunk `i` of a file cut every `cs` bytes.
abbrev pub chunk_of : Bytes → ℕ → ℕ → Bytes
chunk_of file cs i = between file (i * cs) (min (suc i * cs) (length file))

-- `next` hands out the chunks of `file`.
abbrev pub Serves : (ℕ → Result SdkError Bytes) → Bytes → ℕ → ℕ → Type 0
Serves next file cs n = (i : ℕ) → i < n → next i ≡ ok (chunk_of file cs i)

pub length-chunk_of :
    (file : Bytes) (cs n i : ℕ)
    → chunk_count (length file) cs ≡ some n
    → i < n
    → (length (chunk_of file cs i) ≡ min (length file - i * cs) cs) × (i * cs < length file)
length-chunk_of file cs n i h lt =
    let begins : i * cs < length file = (chunk_count-starts (length file) cs n i h).0 lt in
    (omega (arith, length-between file (i * cs) (min (suc i * cs) (length file)), begins), begins)

-- A server that keeps the chunks of a file as they were sealed under sound parameters, of the
-- target's size and count, serves the file: reading and opening an index below the count gives the
-- bytes of that chunk.
pub read_and_open_chunk-Serves :
    (a : Aead) (read : ℕ → Result SdkError Bytes) (block : ChunkedBlock) (target : VerifiedTarget)
    (file : Bytes) (sealed : ℕ → Bytes)
    → IsSound target.file_cipher
    → target.file_size ≡ length file
    → chunk_count (length file) block.chunk_size ≡ some target.chunk_count
    → ((i : ℕ)
        → i < target.chunk_count
        → (seal_chunk a target.file_cipher i (chunk_of file block.chunk_size i) ≡ ok (sealed i))
          × (read i ≡ ok (sealed i)))
    → Serves (read_and_open_chunk a read block target) file block.chunk_size target.chunk_count
unfolding read_and_open_chunk open_chunk_data
read_and_open_chunk-Serves a read block target file sealed sound size count stored i lt =
    let text = chunk_of file block.chunk_size i in
    let (made, kept) = stored i lt in
    let (len, begins) = length-chunk_of file block.chunk_size target.chunk_count i count lt in
    let expected : expected_plain_len target.file_size block.chunk_size i ≡ some (length text) =
      ap (λ fs. expected_plain_len fs block.chunk_size i) size
      ∙ expected_plain_len_lem (length file) block.chunk_size target.chunk_count i count lt
      ∙ (let same : min (length file - i * block.chunk_size) block.chunk_size ≡ length text =
            omega (arith, len) in
          ap some same) in
    let (_, opened) = open_chunk-seal_chunk a target.file_cipher i text (sealed i) sound made in
    rw (kept, expected, opened)
