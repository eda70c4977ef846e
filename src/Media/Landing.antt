-- ===== src/Media/Landing.antt =====
-- `MediaDownload` of crates/wbf-sdk/src/media.rs: a file that is being downloaded, which the chunks
-- land in one after another, with the chunks that a player jumped to beside it.
pub mod Prefix
pub mod Whole
pub mod Ending
pub mod Opening
mod Tests
use wbf_matrix_client.Common.{
  ℕ, suc, ◌+◌, ◌-◌, ◌*◌, ◌/◌, ◌^◌, min, Bool, true, false, not, ◌&&◌, ◌||◌, Option, none, some,
  List, [], ◌∷◌, map, ltb, leb, ◌==◌, if◌then◌else◌, Result, ok, err, ◌>>=◌, ◌>>◌, ok_or, refuse,
  length, drop,
}
use wbf_matrix_client.Common.Bytes.{Bytes}
use wbf_matrix_client.Media.Geometry.{chunk_count, expected_plain_len}
use wbf_matrix_client.Media.Cipher.{Aead}
use wbf_matrix_client.Media.Block.{ChunkedBlock, Text, text_eq}
use wbf_matrix_client.Media.Download.{
  SdkError, usage, integrity, io, fuel_ran_out, VerifiedTarget, InfoAck, verify_info,
  open_chunk_data, manifest_file_size,
}
use wbf_matrix_client.Media.SeekStore.{
  Sealer, SeekError, SeekStore, Disk, lands, append, open_store, saturating_u32,
}
use wbf_matrix_client.Media.Pool.Format.{PoolError}
use wbf_matrix_client.Media.Pool.Writer.{
  PoolWriter, Finished, create_pending, finish, read_sealed, resume_pending, sealed_plain_len,
  write,
}

-- `SdkError::from` of the errors of the pool and of the seek store.
unfoldable pub from_pool {ℓ} : {A : Type ℓ} → Result PoolError A → Result SdkError A
from_pool (ok a) = ok a
from_pool (err PoolError.usage) = err usage
from_pool (err PoolError.io) = err io
from_pool (err PoolError.endless) = err fuel_ran_out

unfoldable pub from_seek {ℓ} : {A : Type ℓ} → Result SeekError A → Result SdkError A
from_seek (ok a) = ok a
from_seek (err SeekError.usage) = err usage
from_seek (err SeekError.pool) = err io
from_seek (err SeekError.io) = err io

pub record MediaDownload : Type 0 where
  pub block : ChunkedBlock
  pub mxc : Text
  pub writer : PoolWriter
  pub seek : Option SeekStore
  pub target : Option VerifiedTarget
  pub file_size : ℕ
  pub chunk_size : ℕ
  pub chunk_count : ℕ

abbrev pub Landed : Type 0 → Type 0
Landed A = Result SdkError A × MediaDownload

unfoldable pub next_chunk : MediaDownload → ℕ
next_chunk md = saturating_u32 (md.writer.plain_len / md.chunk_size)

unfoldable pub is_written : MediaDownload → Bool
is_written md = md.writer.plain_len == md.file_size

unfoldable pub chunk_range : MediaDownload → ℕ → Result SdkError (ℕ × ℕ)
chunk_range md index = do
  len ← ok_or (expected_plain_len md.file_size md.chunk_size index) integrity
  ok (index * md.chunk_size, index * md.chunk_size + len)

unfoldable pub keep_written :
    MediaDownload → Result PoolError (Unit {0}) × PoolWriter → Landed (Unit {0})
keep_written md (r, w) = (from_pool r, record md { writer = w })

-- The answer of `advance_from_seek_store` behind a chunk that landed.
unfoldable pub moved_over : Landed (Unit {0}) → Landed Bool
moved_over (ok u, md) = (ok true, md)
moved_over (err e, md) = (err e, md)

module _ (x : Sealer) where
  -- A chunk within its range: what lies before the end of the file is dropped.
  unfoldable pub land_within :
      (ℕ → Disk) → MediaDownload → Bytes → Result SdkError (ℕ × ℕ) → Landed (Unit {0})
  land_within disk md plain (err e) = (err e, md)
  land_within disk md plain (ok (start, end)) =
      if not (length plain == end - start)
      then (err integrity, md)
      else if ltb md.writer.plain_len start || leb end md.writer.plain_len
      then (err usage, md)
      else keep_written md (write x disk md.writer (drop (md.writer.plain_len - start) plain))

  unfoldable pub land_chunk : (ℕ → Disk) → MediaDownload → ℕ → Bytes → Landed (Unit {0})
  land_chunk disk md index plain = land_within disk md plain (chunk_range md index)

  -- What the seek store answers for the next chunk lands, if there is one.
  unfoldable pub advance_with : (ℕ → Disk) → MediaDownload → Option Bytes × SeekStore → Landed Bool
  advance_with disk md (none, seek) = (ok false, record md { seek = some seek })
  advance_with disk md (some plain, seek) =
      moved_over (land_chunk disk (record md { seek = some seek }) (next_chunk md) plain)

  unfoldable pub advance_of : (ℕ → Disk) → MediaDownload → Option SeekStore → Landed Bool
  advance_of disk md none = (ok false, md)
  advance_of disk md (some seek) =
      advance_with disk md (wbf_matrix_client.Media.SeekStore.read x seek (next_chunk md))

  unfoldable pub advance_from_seek_store : (ℕ → Disk) → MediaDownload → Landed Bool
  advance_from_seek_store disk md = advance_of disk md md.seek

  -- A chunk beside the main file.
  unfoldable pub keep_seek : MediaDownload → Option Bytes × SeekStore → Landed (Option Bytes)
  keep_seek md (found, seek) = (ok found, record md { seek = some seek })

  unfoldable pub read_beside : MediaDownload → ℕ → Option SeekStore → Landed (Option Bytes)
  read_beside md index none = (ok none, md)
  read_beside md index (some seek) =
      keep_seek md (wbf_matrix_client.Media.SeekStore.read x seek index)

  unfoldable pub read_within : MediaDownload → ℕ → Result SdkError (ℕ × ℕ) → Landed (Option Bytes)
  read_within md index (err e) = (err e, md)
  read_within md index (ok (start, end)) =
      if leb end (sealed_plain_len md.writer)
      then (from_pool (read_sealed x md.writer start end) >>= λ bytes. ok (some bytes), md)
      else read_beside md index md.seek

  unfoldable pub read_local_chunk : MediaDownload → ℕ → Landed (Option Bytes)
  read_local_chunk md index = read_within md index (chunk_range md index)

-- `resume_pending` where it gives no more than the file has, else a new main file.
unfoldable pub resumed_or_new :
    (Text → Bytes)
    → ℕ
    → Disk
    → Option Bytes
    → Text
    → ℕ
    → Result PoolError PoolWriter
    → Result PoolError PoolWriter
resumed_or_new blake3 size disk draw mxc file_size (err e) =
    create_pending blake3 size disk draw mxc
resumed_or_new blake3 size disk draw mxc file_size (ok w) =
    if leb w.plain_len file_size then ok w else create_pending blake3 size disk draw mxc

module _ (a : Aead) where
  unfoldable pub open_with :
      ChunkedBlock → ℕ → Bytes → Option VerifiedTarget → Result SdkError Bytes
  open_with block index sealed none = err usage
  open_with block index sealed (some target) = open_chunk_data a block target index sealed

  -- `MediaDownload::open_chunk`.
  unfoldable pub open_arrived : MediaDownload → ℕ → Bytes → Result SdkError Bytes
  open_arrived md index sealed = open_with md.block index sealed md.target

  unfoldable pub accept_target : MediaDownload → Result SdkError VerifiedTarget → Landed (Unit {0})
  accept_target md (err e) = (err e, md)
  accept_target md (ok target) = (ok tt, record md { target = some target })

  unfoldable pub accept_info :
      (Bytes → Option ChunkedBlock) → MediaDownload → InfoAck → Bytes → Landed (Unit {0})
  accept_info parse md info sealed = accept_target md (verify_info a parse md.block info sealed)

-- `Verification` of crates/wbf-sdk/src/media_kind.rs.
pub data Verification : Type 0 where
  unknown matched mismatched : Verification

-- `u8::to_ascii_lowercase`, and `eq_ignore_ascii_case`.
unfoldable pub ascii_lower : ℕ → ℕ
ascii_lower b = if leb 65 b && leb b 90 then b + 32 else b

unfoldable pub of_hex : Option Text → Text → Verification
of_hex none actual = unknown
of_hex (some expected) actual =
    if text_eq (map ascii_lower expected) (map ascii_lower actual) then matched else mismatched

-- `Result::ok`.
unfoldable pub to_option {ε ℓ} : {E : Type ε} {A : Type ℓ} → Result E A → Option A
to_option (ok a) = some a
to_option (err e) = none

-- A count of chunks that is not 0.
unfoldable pub positive : Option ℕ → Option ℕ
positive none = none
positive (some n) = if n == 0 then none else some n

module _ (x : Sealer) where
  unfoldable pub seek_beside : Disk → Option Bytes → Option Bytes → Text → ℕ → ℕ → Option SeekStore
  seek_beside disk none draw mxc size count = none
  seek_beside disk (some file) draw mxc size count =
      to_option (open_store x disk (some file) draw mxc size count)

  -- `MediaDownload::open`: `main` and `beside` are the two files of the name, where they are there.
  unfoldable pub open_download :
      (Text → Bytes)
      → ℕ
      → Disk
      → Option Bytes
      → Option Bytes
      → Option Bytes
      → Option Bytes
      → Text
      → ChunkedBlock
      → Result SdkError MediaDownload
  open_download blake3 size disk draw seek_draw main beside mxc block = do
    count ← ok_or (positive (chunk_count (manifest_file_size block) block.chunk_size)) integrity
    writer ← from_pool (
        resumed_or_new blake3 size disk draw mxc (manifest_file_size block)
          (ok_or main PoolError.io >>= resume_pending x blake3 size mxc))
    ok (record {
      block = block;
      mxc = mxc;
      writer = writer;
      seek = seek_beside disk beside seek_draw mxc block.chunk_size count;
      target = none;
      file_size = manifest_file_size block;
      chunk_size = block.chunk_size;
      chunk_count = count;
    })

  unfoldable pub seek_or_open :
      Disk
      → Option Bytes
      → Option Bytes
      → MediaDownload
      → Option SeekStore
      → Result SeekError SeekStore
  seek_or_open disk beside draw md none =
      open_store x disk beside draw md.mxc md.chunk_size md.chunk_count
  seek_or_open disk beside draw md (some seek) = ok seek

  unfoldable pub keep_appended :
      MediaDownload → Result SeekError (Unit {0}) × SeekStore → Landed (Unit {0})
  keep_appended md (r, seek) = (from_seek r, record md { seek = some seek })

  unfoldable pub store_with :
      Disk → MediaDownload → ℕ → Bytes → Result SeekError SeekStore → Landed (Unit {0})
  store_with disk md index plain (err e) = (from_seek (err e), md)
  store_with disk md index plain (ok seek) = keep_appended md (append x disk seek index plain)

  unfoldable pub store_seek_chunk :
      Disk → Option Bytes → Option Bytes → MediaDownload → ℕ → Bytes → Landed (Unit {0})
  store_seek_chunk disk beside draw md index plain =
      store_with disk md index plain (seek_or_open disk beside draw md md.seek)

  -- `finish`, behind the writer's; `moved` says whether `adopt` and `discard_seek` succeed.
  unfoldable pub finish_landed :
      Bool
      → Option Text
      → Result PoolError Finished × PoolWriter
      → Result SdkError (Finished × Verification)
  finish_landed moved expected (err e, w) = from_pool (err e)
  finish_landed false expected (ok f, w) = err io
  finish_landed true expected (ok f, w) = ok (f, of_hex expected f.sha256_hex)

  unfoldable pub finish_download :
      (Bytes → Text)
      → (Bytes → Text)
      → Bool
      → Bool
      → Disk
      → MediaDownload
      → Result SdkError (Finished × Verification)
  finish_download blake3 sha256 synced moved disk md =
      if not (md.writer.plain_len == md.file_size)
      then err integrity
      else finish_landed moved md.block.sha256 (finish x blake3 sha256 synced disk md.writer)
