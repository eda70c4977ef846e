-- ===== src/Media/SeekStore.antt =====
-- crates/wbf-sdk/src/seek_store.rs: the file beside a download that keeps the chunks a player jumped
-- to, one in each cell, and the table that finds them. The file is its bytes; the cipher under the
-- key of the pool is an argument; what the disk does to a write is an argument too.
pub mod Files
pub mod Soundness
pub mod Reading
pub mod Numbers
pub mod Scanning
pub mod Opening
mod Tests
use wbf_matrix_client.Common.{
  ℕ, zero, suc, min, ◌/◌, ◌+◌, ◌-◌, ◌*◌, ◌^◌, ◌≡◌, Bool, false, true, not, ◌&&◌, Option, none, some,
  List, [], ◌∷◌, ◌++◌, ltb, leb, ◌==◌, if◌then◌else◌, Result, ok, err, ◌>>=◌, ◌>>◌, ok_or, refuse,
  length, take, drop, get_elem?, set, replicate, slice,
}
use wbf_matrix_client.Common.Bytes.{Bytes, to_le_bytes, from_le_bytes}
use wbf_matrix_client.Media.Geometry.{div_ceil}
use wbf_matrix_client.Media.Block.{Text, text_eq}

-- `encrypt` and `decrypt` of `XChaCha20Poly1305` under one key: nonce, associated data, message.
pub record Sealer : Type 0 where
  pub encrypt : Bytes → Bytes → Bytes → Option Bytes
  pub decrypt : Bytes → Bytes → Bytes → Option Bytes
  pub decrypt-encrypt :
      (nonce aad msg sealed : Bytes)
      → encrypt nonce aad msg ≡ some sealed
      → decrypt nonce aad sealed ≡ some msg
  pub length-encrypt :
      (nonce aad msg sealed : Bytes)
      → encrypt nonce aad msg ≡ some sealed
      → length sealed ≡ length msg + 16

pub data SeekError : Type 0 where
  usage pool io : SeekError

abbrev pub magic : Bytes
magic = b'W' ∷ b'B' ∷ b'F' ∷ b'S' ∷ []

abbrev pub store_version : ℕ
store_version = 1

abbrev pub header_len : ℕ
header_len = 32

abbrev pub index_field : ℕ
index_field = 4

abbrev pub len_field : ℕ
len_field = 4

abbrev pub seek_tag_len : ℕ
seek_tag_len = 16

-- The text "wbf-media-seek v1".
abbrev pub aad_prefix : Bytes
aad_prefix =
    b'w' ∷ b'b' ∷ b'f' ∷ b'-' ∷ b'm' ∷ b'e' ∷ b'd' ∷ b'i' ∷ b'a' ∷ b'-' ∷ b's' ∷ b'e' ∷ b'e' ∷ b'k'
    ∷ b' ' ∷ b'v' ∷ b'1' ∷ []

abbrev pub max_seek_chunks : ℕ
max_seek_chunks = 2 ^ 26

pub record SeekStore : Type 0 where
  pub file : Bytes
  pub nonce_base : Bytes
  pub chunk_size : ℕ
  pub mxc : Text
  pub slots : List ℕ
  pub cells : ℕ

unfoldable pub cell_len : ℕ → ℕ
cell_len chunk_size = index_field + len_field + chunk_size + seek_tag_len

unfoldable pub cell_offset : ℕ → ℕ → ℕ
cell_offset chunk_size slot = header_len + slot * cell_len chunk_size

unfoldable pub cell_nonce : Bytes → ℕ → Bytes
cell_nonce nonce_base slot = nonce_base ++ to_le_bytes 8 slot

unfoldable pub cell_aad : SeekStore → ℕ → ℕ → Bytes
cell_aad store slot index =
    aad_prefix
    ++ (store.nonce_base
        ++ (to_le_bytes 8 slot
            ++ (to_le_bytes 4 index ++ (to_le_bytes 4 store.chunk_size ++ store.mxc))))

-- The entry of the table, which is 0 where there is none.
unfoldable pub entry_of : Option ℕ → ℕ
entry_of none = 0
entry_of (some entry) = entry

unfoldable pub has : SeekStore → ℕ → Bool
has store index = not (entry_of (get_elem? store.slots index) == 0)

-- What the disk does with a write and the `sync_data` behind it: all of it lands, or the call fails
-- when so many of the bytes have reached the file.
pub data Disk : Type 0 where
  lands : Disk
  fails_after : ℕ → Disk

-- A write at an offset: a gap before it is filled with zeros, and nothing at all changes no file.
unfoldable pub write_at : Bytes → ℕ → Bytes → Bytes
write_at file offset [] = file
write_at file offset (b ∷ bs) =
    take offset (file ++ replicate (offset - length file) 0)
    ++ ((b ∷ bs) ++ drop (offset + length (b ∷ bs)) file)

unfoldable pub land : Disk → SeekStore → ℕ → ℕ → Bytes → Result SeekError (Unit {0}) × SeekStore
land lands store slot index cell = (
  ok tt,
  record store {
    file = write_at store.file (cell_offset store.chunk_size slot) cell;
    slots = set store.slots index (suc slot);
  },
)
land (fails_after k) store slot index cell = (
  err io,
  record store { file = write_at store.file (cell_offset store.chunk_size slot) (take k cell) },
)

-- The length, the bytes of the chunk, and zeros up to the size of a full one.
unfoldable pub pad : ℕ → Bytes → Bytes
pad chunk_size text =
    to_le_bytes 4 (length text) ++ (text ++ replicate (chunk_size - length text) 0)

-- The refusals before a cell number is taken.
unfoldable pub admit : SeekStore → ℕ → Bytes → Result SeekError (Unit {0})
admit store index text = do
  refuse (length text == 0) usage
  refuse (ltb store.chunk_size (length text)) usage
  refuse (not (ltb (store.cells + 1) (2 ^ 32))) usage

-- The part of `append` behind the refusals: the number is taken first, whatever comes then.
unfoldable pub append_sealed :
    Disk → SeekStore → ℕ → Option Bytes → Result SeekError (Unit {0}) × SeekStore
append_sealed disk store index none = (err pool, record store { cells = suc store.cells })
append_sealed disk store index (some sealed) =
    land disk (record store { cells = suc store.cells }) store.cells index
      (to_le_bytes 4 index ++ sealed)

-- The checks on an opened cell.
unfoldable pub open_padded : ℕ → Bytes → Result SeekError Bytes
open_padded chunk_size padded = do
  field ← ok_or (slice padded 0 len_field) pool
  refuse (from_le_bytes field == 0) pool
  refuse (ltb chunk_size (from_le_bytes field)) pool
  ok_or (slice padded len_field (len_field + from_le_bytes field)) pool

-- A cell that does not open, or holds another chunk, is taken out of the table.
unfoldable pub settle : SeekStore → ℕ → Result SeekError (ℕ × Bytes) → Option Bytes × SeekStore
settle store index (err e) = (none, record store { slots = set store.slots index 0 })
settle store index (ok (stored, text)) =
    if stored == index
    then (some text, store)
    else (none, record store { slots = set store.slots index 0 })

module _ (x : Sealer) where
  unfoldable pub seal_cell : SeekStore → ℕ → ℕ → Bytes → Option Bytes
  seal_cell store slot index text =
      x.encrypt (cell_nonce store.nonce_base slot) (cell_aad store slot index)
        (pad store.chunk_size text)

  unfoldable pub append_admitted :
      Disk
      → SeekStore
      → ℕ
      → Bytes
      → Result SeekError (Unit {0})
      → Result SeekError (Unit {0}) × SeekStore
  append_admitted disk store index text (err e) = (err e, store)
  append_admitted disk store index text (ok u) =
      append_sealed disk store index (seal_cell store store.cells index text)

  unfoldable pub append : Disk → SeekStore → ℕ → Bytes → Result SeekError (Unit {0}) × SeekStore
  append disk store index text =
      if leb (length store.slots) index
      then (err usage, store)
      else if has store index
      then (ok tt, store)
      else append_admitted disk store index text (admit store index text)

  unfoldable pub read_cell : SeekStore → ℕ → Result SeekError (ℕ × Bytes)
  read_cell store slot = do
    cell ←
        ok_or
          (slice store.file (cell_offset store.chunk_size slot)
            (cell_offset store.chunk_size slot + cell_len store.chunk_size))
          io
    field ← ok_or (slice cell 0 index_field) pool
    padded ←
        ok_or
          (x.decrypt (cell_nonce store.nonce_base slot) (cell_aad store slot (from_le_bytes field))
            (drop index_field cell))
          pool
    text ← open_padded store.chunk_size padded
    ok (from_le_bytes field, text)

  unfoldable pub read : SeekStore → ℕ → Option Bytes × SeekStore
  read store index =
      if has store index
      then settle store index (read_cell store (entry_of (get_elem? store.slots index) - 1))
      else (none, store)

-- One cell of a file that is there already: a number out of range is skipped, a second cell of the
-- same chunk too.
unfoldable pub note_entry : List ℕ → ℕ → ℕ → Option ℕ → List ℕ
note_entry slots index slot none = slots
note_entry slots index slot (some entry) = if entry == 0 then set slots index (suc slot) else slots

unfoldable pub note_cell : List ℕ → ℕ → ℕ → List ℕ
note_cell slots index slot = note_entry slots index slot (get_elem? slots index)

unfoldable pub scan_cells : Bytes → ℕ → ℕ → ℕ → List ℕ → Result SeekError (List ℕ)
scan_cells file chunk_size zero slot slots = ok slots
scan_cells file chunk_size (suc left) slot slots =
    ok_or (slice file (cell_offset chunk_size slot) (cell_offset chunk_size slot + index_field)) io
    >>= λ field.
        scan_cells file chunk_size left (suc slot) (note_cell slots (from_le_bytes field) slot)

unfoldable pub encode_header : ℕ → ℕ → Bytes → Bytes
encode_header chunk_size chunk_count nonce_base =
    magic
    ++ (store_version ∷ 0 ∷ 0 ∷ 0 ∷ [])
    ++ to_le_bytes 4 chunk_size
    ++ to_le_bytes 4 chunk_count
    ++ nonce_base

unfoldable pub is_our_header : Bytes → ℕ → ℕ → Bool
is_our_header file chunk_size chunk_count =
    leb header_len (length file)
    && text_eq (take 4 file) magic
    && (entry_of (get_elem? file 4) == store_version)
    && (from_le_bytes (take 4 (drop 8 file)) == chunk_size)
    && (from_le_bytes (take 4 (drop 12 file)) == chunk_count)

-- `u32::try_from(n).unwrap_or(u32::MAX)`.
abbrev pub saturating_u32 : ℕ → ℕ
saturating_u32 n = min n (2 ^ 32 - 1)

-- A file whose first cell does not open is not ours.
unfoldable pub try_first :
    SeekStore → Result SeekError (ℕ × Bytes) → Result SeekError (Option SeekStore)
try_first store (err e) = ok none
try_first store (ok cell) = ok (some store)

module _ (x : Sealer) where
  -- The table of a file with our header, and the trial of its first cell.
  unfoldable pub rebuild : Bytes → Text → ℕ → ℕ → Result SeekError (Option SeekStore)
  rebuild file mxc chunk_size chunk_count =
      let body = length file - header_len in
      let whole = saturating_u32 (body / cell_len chunk_size) in
      scan_cells file chunk_size whole 0 (replicate chunk_count 0) >>= λ slots.
      let store : SeekStore = record {
        file = file;
        nonce_base = take 16 (drop 16 file);
        chunk_size = chunk_size;
        mxc = mxc;
        slots = slots;
        cells = saturating_u32 (div_ceil body (cell_len chunk_size));
      } in
      if whole == 0 then ok (some store) else try_first store (read_cell x store 0)

  unfoldable pub reopen : Bytes → Text → ℕ → ℕ → Result SeekError (Option SeekStore)
  reopen file mxc chunk_size chunk_count =
      if is_our_header file chunk_size chunk_count
      then rebuild file mxc chunk_size chunk_count
      else ok none

-- A new file; `draw` is the nonce base from the operating system.
unfoldable pub new_store : Bytes → Text → ℕ → ℕ → SeekStore
new_store nonce_base mxc chunk_size chunk_count = record {
  file = encode_header chunk_size chunk_count nonce_base;
  nonce_base = nonce_base;
  chunk_size = chunk_size;
  mxc = mxc;
  slots = replicate chunk_count 0;
  cells = 0;
}

unfoldable pub create : Disk → Option Bytes → Text → ℕ → ℕ → Result SeekError SeekStore
create disk none mxc chunk_size chunk_count = err io
create (fails_after k) (some nonce_base) mxc chunk_size chunk_count = err io
create lands (some nonce_base) mxc chunk_size chunk_count =
    ok (new_store nonce_base mxc chunk_size chunk_count)

unfoldable pub or_create :
    Disk → Option Bytes → Text → ℕ → ℕ → Option SeekStore → Result SeekError SeekStore
or_create disk draw mxc chunk_size chunk_count (some store) = ok store
or_create disk draw mxc chunk_size chunk_count none = create disk draw mxc chunk_size chunk_count

module _ (x : Sealer) where
  unfoldable pub reopen_existing : Option Bytes → Text → ℕ → ℕ → Result SeekError (Option SeekStore)
  reopen_existing none mxc chunk_size chunk_count = ok none
  reopen_existing (some file) mxc chunk_size chunk_count = reopen x file mxc chunk_size chunk_count

  -- `SeekStore::open`; `existing` is the file of that name, where it opens.
  unfoldable pub open_store :
      Disk → Option Bytes → Option Bytes → Text → ℕ → ℕ → Result SeekError SeekStore
  open_store disk existing draw mxc chunk_size chunk_count = do
    refuse (chunk_size == 0) usage
    refuse (chunk_count == 0) usage
    refuse (ltb max_seek_chunks chunk_count) usage
    found ← reopen_existing existing mxc chunk_size chunk_count
    or_create disk draw mxc chunk_size chunk_count found
