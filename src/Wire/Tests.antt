-- ===== src/Wire/Tests.antt =====
-- Runs of crates/wbf-wire on concrete bytes, and its theorems at these inputs.
use wbf_matrix_client.Common.{
  ℕ, ◌+◌, ◌%◌, ◌^◌, ◌<◌, ◌≡◌, refl, arith, some, [], ◌∷◌, ◌++◌, ok, err, slice,
}
use wbf_matrix_client.Common.Bytes.{Bytes, to_be_bytes, from_be_bytes, read_be}
use wbf_matrix_client.Wire.Pack.{
  Pack, IsTyped, upload, encode, decode, head, sections, try_u32, decode_header, decode_meta,
  decode_data, read_u32, read_u64, to_byte, from_byte, trailing_bytes,
}
use wbf_matrix_client.Wire.Pack.RoundTrip.{decode-encode}
use wbf_matrix_client.Wire.Pack.Canonical.{encode-decode}
use wbf_matrix_client.Wire.Pack.Refusals.{decode-append}
use wbf_matrix_client.Wire.Pack.Layout.{Fits}
use wbf_matrix_client.Wire.Id.{compose}
use wbf_matrix_client.Wire.FileInfo.{FileInfo, to_bytes}

-- A checksum that can stand for CRC-32C: below 2 ^ 32, and zero on no bytes.
abbrev byte_sum : Bytes → ℕ
byte_sum [] = 0
byte_sum (b ∷ bs) = (b + byte_sum bs) % 2 ^ 32

byte_sum-lt : (bs : Bytes) → byte_sum bs < 2 ^ 32
byte_sum-lt [] = omega arith
byte_sum-lt (b ∷ bs) = omega arith

-- An upload's chunk 5 that wants an acknowledgement.
abbrev chunk_pack : Pack
chunk_pack = record {
  kind = upload;
  subtype = 2;
  flags = 2;
  id = 0x0322_3344_5566_7788;
  seq = 5;
  meta = 1 ∷ 2 ∷ [];
  payload = 7 ∷ 8 ∷ 9 ∷ [];
}

abbrev chunk_bytes : Bytes
chunk_bytes =
    1 ∷ 3 ∷ 2 ∷ 2 ∷ 3 ∷ 34 ∷ 51 ∷ 68 ∷ 85 ∷ 102 ∷ 119 ∷ 136 ∷ 0 ∷ 0 ∷ 0 ∷ 5 ∷ 0 ∷ 0 ∷ 0 ∷ 2 ∷ 1 ∷ 2
    ∷ 0 ∷ 0 ∷ 2 ∷ 104 ∷ 0 ∷ 0 ∷ 0 ∷ 3 ∷ 7 ∷ 8 ∷ 9 ∷ 0 ∷ 0 ∷ 0 ∷ 24 ∷ []

encode_run : encode byte_sum chunk_pack ≡ ok chunk_bytes
unfolding encode head sections try_u32 to_byte to_be_bytes
encode_run = refl

decode_run : decode byte_sum chunk_bytes ≡ ok chunk_pack
unfolding decode decode_header decode_meta decode_data read_u32 read_u64 read_be from_be_bytes
    from_byte slice
decode_run = refl

chunk_pack-IsTyped : IsTyped chunk_pack
chunk_pack-IsTyped = omega arith

chunk_pack-Fits : Fits byte_sum chunk_pack
chunk_pack-Fits = record { flags_known = refl; meta_fits = omega arith; payload_fits = omega arith }

decode-encode_example : decode byte_sum chunk_bytes ≡ ok chunk_pack
decode-encode_example =
    decode-encode byte_sum byte_sum-lt chunk_pack chunk_bytes chunk_pack-IsTyped encode_run

encode-decode_example : encode byte_sum chunk_pack ≡ ok chunk_bytes
encode-decode_example = encode-decode byte_sum chunk_bytes chunk_pack (omega arith) decode_run

decode-append_example : decode byte_sum (chunk_bytes ++ (0 ∷ [])) ≡ err trailing_bytes
decode-append_example = decode-append byte_sum chunk_bytes [] 0 chunk_pack decode_run

compose_run : compose 3 0x22_3344_5566_7788 ≡ some 0x0322_3344_5566_7788
unfolding compose
compose_run = refl

abbrev small_file : FileInfo
small_file = record { file_size = 132056; chunk_size = 65536; chunk_count = 3 }

to_bytes_run :
    to_bytes small_file ≡ 0 ∷ 0 ∷ 0 ∷ 0 ∷ 0 ∷ 2 ∷ 3 ∷ 216 ∷ 0 ∷ 1 ∷ 0 ∷ 0 ∷ 0 ∷ 0 ∷ 0 ∷ 3 ∷ []
unfolding to_bytes to_be_bytes
to_bytes_run = refl

abbrev two_bytes : Bytes
two_bytes = 1 ∷ 2 ∷ []
