-- ===== src/Media/Download.antt =====
-- crates/wbf-sdk/src/download.rs: a whole file, or a span of it, from the chunks that a server hands
-- out. The server's replies, the sink that is written to, SHA-256 and the JSON of a description are
-- arguments; an error keeps its class and loses its text.
pub mod Info
pub mod Spans
pub mod Chunks
pub mod Whole
pub mod Seek
mod Tests
use wbf_matrix_client.Common.{
  ℕ, zero, suc, ◌+◌, ◌-◌, ◌*◌, ◌^◌, min, Bool, true, false, not, ◌&&◌, Option, none, some, List, [],
  ◌∷◌, ◌++◌, ltb, leb, ◌==◌, if◌then◌else◌, Result, ok, err, ◌>>=◌, ◌>>◌, ok_or, refuse, length,
  slice, is_some,
}
use wbf_matrix_client.Common.Bytes.{Bytes}
use wbf_matrix_client.Media.Geometry.{SeekTarget, chunk_count, expected_plain_len, locate}
use wbf_matrix_client.Media.Cipher.{Aead, CryptoError}
use wbf_matrix_client.Media.Block.{
  ChunkedBlock, BlockError, Text, text_eq, check_as_event_block, check_as_description,
  is_consistent_with_description,
}
use wbf_matrix_client.Media.FileCipher.{
  FileCipher, DescriptionSlot, create, seal, from_event_block, open_chunk, open_description,
}

pub data SdkError : Type 0 where
  usage server integrity network protocol io timeout : SdkError
  fuel_ran_out : SdkError

-- `SdkError::from` of the two errors below it.
abbrev pub from_crypto {ℓ} : {A : Type ℓ} → Result CryptoError A → Result SdkError A
from_crypto (ok a) = ok a
from_crypto (err e) = err integrity

abbrev pub from_block {ℓ} : {A : Type ℓ} → Result BlockError A → Result SdkError A
from_block (ok a) = ok a
from_block (err e) = err integrity

pub record VerifiedTarget : Type 0 where
  pub file_cipher : FileCipher
  pub file_size : ℕ
  pub chunk_count : ℕ

-- `protocol::InfoAck`, the fields that the download reads.
pub record InfoAck : Type 0 where
  pub file_size : Option ℕ
  pub chunk_size : Option ℕ
  pub chunk_count : Option ℕ
  pub truncated : Option Bool

pub record DownloadReport : Type 0 where
  pub chunks : ℕ
  pub bytes : ℕ
  pub sha256_verified : Bool

pub record SeekResult : Type 0 where
  pub bytes : Bytes
  pub chunks_read : List ℕ
  pub truncated : Bool

-- `Manifest::file_size`.
unfoldable pub manifest_file_size : ChunkedBlock → ℕ
manifest_file_size block = elim block.file_size [ none ↦ 0 | some size ↦ size ]

unfoldable pub sizes_differ : Option ℕ → Option ℕ → Bool
sizes_differ (some a) (some b) = not (a == b)
sizes_differ _ _ = false

unfoldable pub is_true : Option Bool → Bool
is_true (some true) = true
is_true _ = false

unfoldable pub check_info_against_block : InfoAck → ChunkedBlock → ℕ → Result SdkError (Unit {0})
check_info_against_block info block expected_count = do
  info_chunk_size ← ok_or info.chunk_size integrity
  info_chunk_count ← ok_or info.chunk_count integrity
  refuse (not (info_chunk_size == block.chunk_size)) integrity
  refuse (not (info_chunk_count == expected_count)) integrity
  refuse (sizes_differ info.file_size block.file_size) integrity
  refuse (is_true info.truncated) integrity

module _ (a : Aead) where
  -- The description opens in the slot of `Seal`, or else in that of `Create`.
  unfoldable pub open_either : FileCipher → Bytes → Result SdkError Bytes
  open_either f sealed = elim (open_description a f seal sealed) [
    | ok json ↦ ok json
    | err e ↦ from_crypto (open_description a f create sealed)
  ]

  -- `parse` is `serde_json::from_slice`; `from_description_json` checks what it gives.
  unfoldable pub check_description :
      (Bytes → Option ChunkedBlock) → FileCipher → ChunkedBlock → Bytes → Result SdkError (Unit {0})
  check_description parse f block sealed = do
    refuse (length sealed == 0) integrity
    json ← open_either f sealed
    description ← ok_or (parse json) integrity
    from_block (check_as_description description)
    refuse (not (is_consistent_with_description block description)) integrity

  unfoldable pub verify_info :
      (Bytes → Option ChunkedBlock)
      → ChunkedBlock
      → InfoAck
      → Bytes
      → Result SdkError VerifiedTarget
  verify_info parse block info sealed = do
    file_cipher ← from_block (from_event_block block)
    expected_count ← ok_or (chunk_count (manifest_file_size block) block.chunk_size) integrity
    check_info_against_block info block expected_count
    check_description parse file_cipher block sealed
    ok (record {
      file_cipher = file_cipher;
      file_size = manifest_file_size block;
      chunk_count = expected_count;
    })

  unfoldable pub open_chunk_data : ChunkedBlock → VerifiedTarget → ℕ → Bytes → Result SdkError Bytes
  open_chunk_data block target index sealed = do
    expected ← ok_or (expected_plain_len target.file_size block.chunk_size index) integrity
    from_crypto (open_chunk a target.file_cipher index sealed expected)

  -- `read` is the data of the server's reply to `Download/Read` for an index.
  unfoldable pub read_and_open_chunk :
      (ℕ → Result SdkError Bytes) → ChunkedBlock → VerifiedTarget → ℕ → Result SdkError Bytes
  read_and_open_chunk read block target index = do
    sealed ← read index
    open_chunk_data block target index sealed

-- The loop of `download` over the chunks that are left, from `index` on: `next` reads and opens a
-- chunk, `write` appends to the sink. It carries what was hashed and what the sink holds.
unfoldable pub download_loop :
    (ℕ → Result SdkError Bytes)
    → (Bytes → Bytes → Result SdkError Bytes)
    → ℕ
    → ℕ
    → Bytes
    → Bytes
    → Result SdkError (Bytes × Bytes)
download_loop next write zero index hashed out = ok (hashed, out)
download_loop next write (suc left) index hashed out = next index >>= λ text.
    write out text >>= λ out'. download_loop next write left (suc index) (hashed ++ text) out'

unfoldable pub is_lower_hex : ℕ → Bool
is_lower_hex c = if leb b'0' c && leb c b'9' then true else leb b'a' c && leb c b'f'

abbrev all_lower_hex : Text → Bool
all_lower_hex [] = true
all_lower_hex (c ∷ cs) = is_lower_hex c && all_lower_hex cs

unfoldable pub parse_sha256_field : ChunkedBlock → Result SdkError (Option Text)
unfolding is_lower_hex
parse_sha256_field block = elim block.sha256 [
  | none ↦ ok none
  | some text ↦
      if not ((length text == 64) && all_lower_hex text) then err integrity else ok (some text)
]

-- `sha256` is the hash of bytes in lower-case hexadecimal digits.
unfoldable pub check_hash : (Bytes → Text) → Option Text → Bytes → Result SdkError Bool
check_hash sha256 none hashed = ok false
check_hash sha256 (some expected) hashed =
    if not (text_eq (sha256 hashed) expected) then err integrity else ok true

-- `download`, once the target is verified: the report, and what the sink holds.
unfoldable pub download :
    (Bytes → Text)
    → (ℕ → Result SdkError Bytes)
    → (Bytes → Bytes → Result SdkError Bytes)
    → ChunkedBlock
    → VerifiedTarget
    → Bytes
    → Result SdkError (DownloadReport × Bytes)
download sha256 next write block target out = do
  expected ← parse_sha256_field block
  (hashed, out') ← download_loop next write target.chunk_count 0 [] out
  refuse (not (length hashed == target.file_size)) integrity
  verified ← check_hash sha256 expected hashed
  ok (
    record { chunks = target.chunk_count; bytes = length hashed; sha256_verified = verified },
    out',
  )

-- `u64::saturating_add`.
abbrev saturating_add : ℕ → ℕ → ℕ
saturating_add x y = min (x + y) (2 ^ 64 - 1)

-- Where the wanted span ends, and whether the file ends before it.
unfoldable pub seek_end : ℕ → ℕ → ℕ → ℕ → Option ℕ → ℕ × Bool
seek_end at chunk_size file_size first_index none =
    (min ((first_index + 1) * chunk_size) file_size, false)
seek_end at chunk_size file_size first_index (some len) =
    (min (saturating_add at len) file_size, ltb file_size (saturating_add at len))

-- The loop of `seek_read` while the chunk begins before the end, on fuel. That it runs out is no
-- error of the source; `Seek` shows that it never does.
unfoldable pub seek_loop :
    (ℕ → Result SdkError Bytes)
    → ℕ
    → ℕ
    → ℕ
    → ℕ
    → ℕ
    → Bytes
    → List ℕ
    → Result SdkError (Bytes × List ℕ)
seek_loop next at chunk_size end zero index bytes chunks_read = err fuel_ran_out
seek_loop next at chunk_size end (suc fuel) index bytes chunks_read =
    let rest = next index >>= λ text.
    ok_or (slice text (at - index * chunk_size) (min (end - index * chunk_size) (length text)))
      integrity
    >>= λ wanted.
        seek_loop next at chunk_size end fuel (suc index) (bytes ++ wanted)
          (chunks_read ++ (index ∷ [])) in
    if ltb (index * chunk_size) end then rest else ok (bytes, chunks_read)

-- `seek_read`, once the target is verified.
unfoldable pub seek_read :
    (ℕ → Result SdkError Bytes)
    → ChunkedBlock
    → VerifiedTarget
    → ℕ
    → Option ℕ
    → Result SdkError SeekResult
seek_read next block target at len = do
  refuse (leb target.file_size at) usage
  start ← ok_or (locate at block.chunk_size) usage
  let span = seek_end at block.chunk_size target.file_size start.index len
  (bytes, chunks_read) ←
      seek_loop next at block.chunk_size span.0 (suc target.chunk_count) start.index [] []
  ok (record { bytes = bytes; chunks_read = chunks_read; truncated = span.1 })
