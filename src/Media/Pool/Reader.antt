-- ===== src/Media/Pool/Reader.antt =====
-- `PoolReader`: a finished file as a text with a position (crates/wbf-sdk/src/media_pool.rs).
use wbf_matrix_client.Common.{
  ℕ, ◌+◌, ◌-◌, ◌*◌, ◌/◌, ◌%◌, ◌^◌, min, Bool, true, not, ◌&&◌, ◌||◌, Option, none, some, [], ◌∷◌,
  ltb, leb, ◌==◌, if◌then◌else◌, Result, ok, err, ◌>>=◌, ◌>>◌, ok_or, refuse, length, take, slice,
}
use wbf_matrix_client.Common.Bytes.{Bytes}
use wbf_matrix_client.Media.Block.{Text}
use wbf_matrix_client.Media.SeekStore.{Sealer}
use wbf_matrix_client.Media.Pool.Format.{
  PoolError, usage, io, Header, read_header, record_len, segment_data, open_segment,
  pool_header_len,
}

pub record PoolReader : Type 0 where
  pub header : Header
  pub file : Bytes
  pub segments : ℕ
  pub plain_len : ℕ
  pub position : ℕ
  pub loaded_segment : Option (ℕ × Bytes)

-- `u8::is_ascii_hexdigit`: 0 to 9, A to F, a to f.
unfoldable pub is_hexdigit : ℕ → Bool
is_hexdigit b = (leb 48 b && leb b 57) || (leb 65 b && leb b 70) || (leb 97 b && leb b 102)

unfoldable pub all_hexdigits : Text → Bool
all_hexdigits [] = true
all_hexdigits (b ∷ bs) = is_hexdigit b && all_hexdigits bs

-- `path_of`: the directory of the first two digits, and the name in it.
unfoldable pub path_of : Text → Result PoolError (Text × Text)
path_of pool_file = do
  refuse (ltb (length pool_file) 4 || not (all_hexdigits pool_file)) usage
  ok (take 2 pool_file, pool_file)

-- `SeekFrom`, its signed offsets as a direction and a number.
pub data Offset : Type 0 where
  forward back : ℕ → Offset

pub data SeekFrom : Type 0 where
  from_start : ℕ → SeekFrom
  from_end from_current : Offset → SeekFrom

-- A place moved by a signed offset, if it is not negative.
unfoldable pub moved : ℕ → Offset → Option ℕ
moved place (forward n) = some (place + n)
moved place (back n) = if ltb place n then none else some (place - n)

unfoldable pub seek_base : PoolReader → SeekFrom → Option ℕ
seek_base r (from_start n) = some n
seek_base r (from_end offset) = moved r.plain_len offset
seek_base r (from_current offset) = moved r.position offset

-- `base as u64`.
unfoldable pub seek_to : PoolReader → Option ℕ → Result PoolError ℕ × PoolReader
seek_to r none = (err io, r)
seek_to r (some base) = (ok (base % 2 ^ 64), record r { position = base % 2 ^ 64 })

-- `Seek::seek`.
unfoldable pub seek : SeekFrom → PoolReader → Result PoolError ℕ × PoolReader
seek target r = seek_to r (seek_base r target)

-- The segment that is loaded, where it is the wanted one.
unfoldable pub loaded : Option (ℕ × Bytes) → ℕ → Option Bytes
loaded none index = none
loaded (some (at, bytes)) index = if at == index then some bytes else none

unfoldable pub keep_loaded :
    ℕ → PoolReader → Result PoolError Bytes → Result PoolError Bytes × PoolReader
keep_loaded index r (err e) = (err e, r)
keep_loaded index r (ok bytes) = (ok bytes, record r { loaded_segment = some (index, bytes) })

-- The copy of a window of the segment into the caller's buffer.
unfoldable pub copy_out : PoolReader → Option Bytes → Result PoolError Bytes × PoolReader
copy_out r none = (err io, r)
copy_out r (some bytes) = (ok bytes, record r { position = r.position + length bytes })

unfoldable pub read_window :
    ℕ → ℕ → Result PoolError Bytes × PoolReader → Result PoolError Bytes × PoolReader
read_window count offset (err e, r) = (err e, r)
read_window count offset (ok segment, r) =
    if leb (length segment) offset
    then (ok [], r)
    else copy_out r (slice segment offset (offset + min (length segment - offset) count))

module _ (x : Sealer) where
  -- `open_read`; `existing` is the file of that path, where it opens.
  unfoldable pub open_read : Text → Option Bytes → Result PoolError PoolReader
  open_read pool_file existing = do
    path ← path_of pool_file
    file ← ok_or existing io
    h ← read_header file
    let body = length file - pool_header_len
    refuse ((body == 0) || not (body % record_len h == 0)) io
    last ← open_segment x h file (body / record_len h - 1)
    ok (record {
      header = h;
      file = file;
      segments = body / record_len h;
      plain_len = (body / record_len h - 1) * h.segment_size + last.len;
      position = 0;
      loaded_segment = none;
    })

  -- A segment that is read from the file; all but the last must be full.
  unfoldable pub fetch_segment : ℕ → PoolReader → Result PoolError Bytes
  fetch_segment index r = do
    segment ← open_segment x r.header r.file index
    refuse (ltb (index + 1) r.segments && not (segment.len == r.header.segment_size)) io
    segment_data segment

  unfoldable pub load_from : ℕ → PoolReader → Option Bytes → Result PoolError Bytes × PoolReader
  load_from index r (some bytes) = (ok bytes, r)
  load_from index r none = keep_loaded index r (fetch_segment index r)

  unfoldable pub load_segment : ℕ → PoolReader → Result PoolError Bytes × PoolReader
  load_segment index r = load_from index r (loaded r.loaded_segment index)

  -- `Read::read` into a buffer of `count` bytes.
  unfoldable pub read : ℕ → PoolReader → Result PoolError Bytes × PoolReader
  read count r =
      if leb r.plain_len r.position || (count == 0)
      then (ok [], r)
      else read_window count (r.position % r.header.segment_size)
          (load_segment (r.position / r.header.segment_size) r)
