-- ===== src/Wire/Pack.antt =====
-- crates/wbf-wire/src/pack.rs: the frame of 32 bytes around a meta section and a data section, each
-- with a CRC-32C. Bytes are numbers below 256, and a `usize` has 64 bits. The field `data` of the
-- source is `payload` here, and `crc32c`, of a third-party crate, is an argument.
pub mod Kinds
pub mod Layout
pub mod Positions
pub mod RoundTrip
pub mod Canonical
pub mod Refusals
pub mod Tampering
use wbf_matrix_client.Common.{
  ℕ, zero, suc, ◌+◌, ◌-◌, ◌^◌, ◌<◌, bit_and, bit_or, Bool, not, Option, none, some, List, [], ◌∷◌,
  ◌++◌, ltb, ◌==◌, if◌then◌else◌, Result, ok, err, ◌>>=◌, ◌>>◌, ok_or, refuse, checked_add, length,
  slice,
}
use wbf_matrix_client.Common.Bytes.{Bytes, to_be_bytes, from_be_bytes, read_be}

abbrev pub version : ℕ
version = 1

abbrev pub min_pack_len : ℕ
min_pack_len = 32

pub data Kind : Type 0 where
  control stream upload download invite session account room event receipt device keys : Kind

-- `kind as u8`.
unfoldable pub to_byte : Kind → ℕ
to_byte control = 0x01
to_byte stream = 0x02
to_byte upload = 0x03
to_byte download = 0x04
to_byte invite = 0x05
to_byte session = 0x10
to_byte account = 0x11
to_byte room = 0x13
to_byte event = 0x14
to_byte receipt = 0x15
to_byte device = 0x16
to_byte keys = 0x17

unfoldable pub from_byte : ℕ → Option Kind
from_byte byte =
    if byte == 0x01
    then some control
    else if byte == 0x02
    then some stream
    else if byte == 0x03
    then some upload
    else if byte == 0x04
    then some download
    else if byte == 0x05
    then some invite
    else if byte == 0x10
    then some session
    else if byte == 0x11
    then some account
    else if byte == 0x13
    then some room
    else if byte == 0x14
    then some event
    else if byte == 0x15
    then some receipt
    else if byte == 0x16
    then some device
    else if byte == 0x17
    then some keys
    else none

abbrev pub meta_encrypted : ℕ
meta_encrypted = 0x01

abbrev pub want_ack : ℕ
want_ack = 0x02

abbrev pub is_response : ℕ
is_response = 0x04

abbrev pub is_last : ℕ
is_last = 0x08

abbrev pub is_bridged : ℕ
is_bridged = 0x10

-- `KNOWN`, and `!KNOWN` on a `u8`.
abbrev pub known : ℕ
known = bit_or (bit_or (bit_or (bit_or meta_encrypted want_ack) is_response) is_last) is_bridged

abbrev pub reserved : ℕ
reserved = 255 - known

pub record Pack : Type 0 where
  pub kind : Kind
  pub subtype : ℕ
  pub flags : ℕ
  pub id : ℕ
  pub seq : ℕ
  pub meta : Bytes
  pub payload : Bytes

pub data DecodeError : Type 0 where
  too_short : DecodeError
  unsupported_version : ℕ → DecodeError
  unknown_kind : ℕ → DecodeError
  reserved_flags : ℕ → DecodeError
  meta_crc : ℕ → ℕ → DecodeError
  data_crc : ℕ → ℕ → DecodeError
  truncated : DecodeError
  trailing_bytes : DecodeError

pub data EncodeError : Type 0 where
  meta_too_long : ℕ → EncodeError
  data_too_long : ℕ → EncodeError
  bad_flags : ℕ → EncodeError

-- `u32::try_from(len)`.
unfoldable pub try_u32 : ℕ → Option ℕ
try_u32 len = if ltb len (2 ^ 32) then some len else none

-- The bytes that the meta CRC covers.
unfoldable pub head : Pack → ℕ → Bytes
head p meta_len =
    (version ∷ to_byte p.kind ∷ p.subtype ∷ p.flags ∷ [])
    ++ (to_be_bytes 8 p.id ++ (to_be_bytes 4 p.seq ++ (to_be_bytes 4 meta_len ++ p.meta)))

unfoldable pub read_u32 : Bytes → ℕ → Option ℕ
read_u32 bytes at = read_be 4 bytes at

unfoldable pub read_u64 : Bytes → ℕ → Option ℕ
read_u64 bytes at = read_be 8 bytes at

unfoldable pub decode_header : Bytes → Result DecodeError (Kind × ℕ × ℕ)
decode_header (version_byte ∷ kind_byte ∷ subtype ∷ flags ∷ rest) = do
  refuse (not (version_byte == version)) (unsupported_version version_byte)
  kind ← ok_or (from_byte kind_byte) (unknown_kind kind_byte)
  refuse (not (bit_and flags reserved == 0)) (reserved_flags flags)
  ok (kind, subtype, flags)
decode_header _ = err too_short

module _ (crc32c : Bytes → ℕ) where
  -- The bytes behind `head`.
  unfoldable pub sections : Pack → ℕ → ℕ → Bytes
  sections p meta_len data_len =
      to_be_bytes 4 (crc32c (head p meta_len))
      ++ (to_be_bytes 4 data_len ++ (p.payload ++ to_be_bytes 4 (crc32c p.payload)))

  unfoldable pub encode : Pack → Result EncodeError Bytes
  encode p = do
    refuse (not (bit_and p.flags reserved == 0)) (bad_flags p.flags)
    meta_len ← ok_or (try_u32 (length p.meta)) (meta_too_long (length p.meta))
    data_len ← ok_or (try_u32 (length p.payload)) (data_too_long (length p.payload))
    ok (head p meta_len ++ sections p meta_len data_len)

  -- Where the meta section ends, once its length and its CRC are checked.
  unfoldable pub decode_meta : Bytes → Result DecodeError ℕ
  decode_meta bytes = do
    meta_len ← ok_or (read_u32 bytes 16) truncated
    meta_end ← ok_or (checked_add 20 meta_len) truncated
    section_end ← ok_or (checked_add meta_end 8) truncated
    refuse (ltb (length bytes) section_end) truncated
    expected ← ok_or (read_u32 bytes meta_end) truncated
    covered ← ok_or (slice bytes 0 meta_end) truncated
    refuse (not (crc32c covered == expected)) (meta_crc expected (crc32c covered))
    ok meta_end

  unfoldable pub decode_data : Bytes → ℕ → Result DecodeError Bytes
  decode_data bytes meta_end = do
    data_len ← ok_or (read_u32 bytes (meta_end + 4)) truncated
    data_end ← ok_or (checked_add (meta_end + 8) data_len) truncated
    pack_end ← ok_or (checked_add data_end 4) truncated
    refuse (ltb (length bytes) pack_end) truncated
    payload ← ok_or (slice bytes (meta_end + 8) data_end) truncated
    expected ← ok_or (read_u32 bytes data_end) truncated
    refuse (not (crc32c payload == expected)) (data_crc expected (crc32c payload))
    refuse (not (pack_end == length bytes)) trailing_bytes
    ok payload

  unfoldable pub decode : Bytes → Result DecodeError Pack
  decode bytes = do
    refuse (ltb (length bytes) min_pack_len) too_short
    (kind, subtype, flags) ← decode_header bytes
    id ← ok_or (read_u64 bytes 4) too_short
    seq ← ok_or (read_u32 bytes 12) too_short
    meta_end ← decode_meta bytes
    payload ← decode_data bytes meta_end
    meta ← ok_or (slice bytes 20 meta_end) truncated
    ok (record {
      kind = kind;
      subtype = subtype;
      flags = flags;
      id = id;
      seq = seq;
      meta = meta;
      payload = payload;
    })

-- What the types of the source's fields say: `u8`, `u64`, `u32` and byte vectors.
pub record IsTyped (p : Pack) : Type 0 where
  pub subtype_u8 : p.subtype < 256
  pub flags_u8 : p.flags < 256
  pub id_u64 : p.id < 2 ^ 64
  pub seq_u32 : p.seq < 2 ^ 32
