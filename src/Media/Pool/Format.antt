-- ===== src/Media/Pool/Format.antt =====
-- The bytes of a pool file: its header and its sealed segments (crates/wbf-sdk/src/media_pool.rs).
-- The cipher under the key of the pool and the hash of an address are arguments.
use wbf_matrix_client.Common.{
  ℕ, ◌+◌, ◌-◌, ◌*◌, not, ◌||◌, Option, none, [], ◌∷◌, ◌++◌, ltb, ◌==◌, if◌then◌else◌, Result, ok,
  ◌>>=◌, ◌>>◌, ok_or, refuse, length, take, drop, get_elem?, replicate, slice,
}
use wbf_matrix_client.Common.Bytes.{Bytes, to_le_bytes, from_le_bytes}
use wbf_matrix_client.Media.Block.{Text, text_eq}
use wbf_matrix_client.Media.SeekStore.{Sealer, entry_of}

-- `SdkError` as far as the pool makes it: `pool_error` is an `Io`. The model's `endless` stands for
-- a loop that does not end.
pub data PoolError : Type 0 where
  usage io endless : PoolError

abbrev pub pool_magic : Bytes
pool_magic = b'W' ∷ b'B' ∷ b'F' ∷ b'P' ∷ []

abbrev pub pool_format_version : ℕ
pool_format_version = 2

abbrev pub pool_header_len : ℕ
pool_header_len = 32

abbrev pub nonce_base_len : ℕ
nonce_base_len = 16

abbrev pub pool_tag_len : ℕ
pool_tag_len = 16

abbrev pub pool_len_field : ℕ
pool_len_field = 4

-- The text "wbf-media-pool v2".
abbrev pub pool_aad_prefix : Bytes
pool_aad_prefix =
    b'w' ∷ b'b' ∷ b'f' ∷ b'-' ∷ b'm' ∷ b'e' ∷ b'd' ∷ b'i' ∷ b'a' ∷ b'-' ∷ b'p' ∷ b'o' ∷ b'o' ∷ b'l'
    ∷ b' ' ∷ b'v' ∷ b'2' ∷ []

pub record Header : Type 0 where
  pub segment_size : ℕ
  pub nonce_base : Bytes
  pub owner : ℕ

-- The first four bytes of the hash, read as a number.
unfoldable pub owner_of : (Text → Bytes) → Text → ℕ
owner_of blake3 mxc = from_le_bytes (take 4 (blake3 mxc))

unfoldable pub encode_pool_header : Header → Bytes
encode_pool_header h =
    pool_magic
    ++ ((pool_format_version ∷ 0 ∷ 0 ∷ 0 ∷ [])
        ++ (to_le_bytes 4 h.segment_size ++ (h.nonce_base ++ to_le_bytes 4 h.owner)))

unfoldable pub read_header : Bytes → Result PoolError Header
read_header file = do
  bytes ← ok_or (slice file 0 pool_header_len) io
  refuse (not (text_eq (take 4 bytes) pool_magic)) io
  refuse (not (entry_of (get_elem? bytes 4) == pool_format_version)) io
  refuse (from_le_bytes (take 4 (drop 8 bytes)) == 0) io
  ok (record {
    segment_size = from_le_bytes (take 4 (drop 8 bytes));
    nonce_base = take nonce_base_len (drop 12 bytes);
    owner = from_le_bytes (take 4 (drop 28 bytes));
  })

unfoldable pub record_len : Header → ℕ
record_len h = pool_len_field + h.segment_size + pool_tag_len

unfoldable pub segment_offset : Header → ℕ → ℕ
segment_offset h index = pool_header_len + index * record_len h

unfoldable pub segment_nonce : Header → ℕ → Bytes
segment_nonce h index = h.nonce_base ++ to_le_bytes 8 index

unfoldable pub segment_aad : Header → ℕ → Bytes
segment_aad h index = pool_aad_prefix ++ (h.nonce_base ++ to_le_bytes 8 index)

-- The length, the bytes, and zeros up to a full segment.
unfoldable pub pad_segment : Header → Bytes → Bytes
pad_segment h bytes =
    to_le_bytes 4 (length bytes) ++ (bytes ++ replicate (h.segment_size - length bytes) 0)

pub record OpenedSegment : Type 0 where
  pub plain : Bytes
  pub len : ℕ

-- `OpenedSegment::data`.
unfoldable pub segment_data : OpenedSegment → Result PoolError Bytes
segment_data segment = ok_or (slice segment.plain pool_len_field (pool_len_field + segment.len)) io

-- The checks on the length of a segment that has been decrypted.
unfoldable pub check_segment : Header → Bytes → Result PoolError OpenedSegment
check_segment h plain = do
  field ← ok_or (slice plain 0 4) io
  refuse ((from_le_bytes field == 0) || ltb h.segment_size (from_le_bytes field)) io
  ok (record { plain = plain; len = from_le_bytes field })

module _ (x : Sealer) where
  unfoldable pub seal_segment : Header → ℕ → Bytes → Option Bytes
  seal_segment h index bytes =
      if (length bytes == 0) || ltb h.segment_size (length bytes)
      then none
      else x.encrypt (segment_nonce h index) (segment_aad h index) (pad_segment h bytes)

  unfoldable pub open_segment : Header → Bytes → ℕ → Result PoolError OpenedSegment
  open_segment h file index = do
    sealed ← ok_or (slice file (segment_offset h index) (segment_offset h index + record_len h)) io
    plain ← ok_or (x.decrypt (segment_nonce h index) (segment_aad h index) sealed) io
    check_segment h plain
