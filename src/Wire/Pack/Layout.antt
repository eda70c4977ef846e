-- ===== src/Wire/Pack/Layout.antt =====
-- `decode` reads back what `encode` wrote (crates/wbf-wire/src/pack.rs).
use wbf_matrix_client.Common.{
  ℕ, ◌+◌, ◌^◌, ◌<◌, ◌≡◌, arith, bit_and, ◌++◌, ok, length, length-append,
}
use wbf_matrix_client.Common.Bytes.{Bytes, to_be_bytes, length-to_be_bytes}
use wbf_matrix_client.Wire.Pack.{Pack, try_u32, head, sections, encode, decode_header, reserved}
use wbf_matrix_client.Wire.Pack.Kinds.{from_byte-to_byte}

pub length-head : (p : Pack) (n : ℕ) → length (head p n) ≡ 20 + length p.meta
unfolding head
length-head p n = omega (
  arith,
  length-append (to_be_bytes 8 p.id) (to_be_bytes 4 p.seq ++ (to_be_bytes 4 n ++ p.meta)),
  length-append (to_be_bytes 4 p.seq) (to_be_bytes 4 n ++ p.meta),
  length-append (to_be_bytes 4 n) p.meta,
  length-to_be_bytes 8 p.id,
  length-to_be_bytes 4 p.seq,
  length-to_be_bytes 4 n,
)

pub decode_header-head :
    (p : Pack) (n : ℕ) (back : Bytes)
    → bit_and p.flags reserved ≡ 0
    → decode_header (head p n ++ back) ≡ ok (p.kind, p.subtype, p.flags)
unfolding decode_header head
decode_header-head p n back h = rw (from_byte-to_byte, h)

module _ (crc32c : Bytes → ℕ) where
  pub length-sections :
      (p : Pack) (m n : ℕ) → length (sections crc32c p m n) ≡ 12 + length p.payload
  unfolding sections
  length-sections p m n =
      let c = crc32c (head p m) in
      let e = crc32c p.payload in
      omega (
        arith,
        length-append (to_be_bytes 4 c) (to_be_bytes 4 n ++ (p.payload ++ to_be_bytes 4 e)),
        length-append (to_be_bytes 4 n) (p.payload ++ to_be_bytes 4 e),
        length-append p.payload (to_be_bytes 4 e),
        length-to_be_bytes 4 c,
        length-to_be_bytes 4 n,
        length-to_be_bytes 4 e,
      )

  -- The bytes of a pack whose lengths fit.
  unfoldable pub wire : Pack → Bytes
  wire p = head p (length p.meta) ++ sections crc32c p (length p.meta) (length p.payload)

  pub length-wire : (p : Pack) → length (wire p) ≡ 32 + length p.meta + length p.payload
  unfolding wire
  length-wire p = omega (
    arith,
    length-append (head p (length p.meta)) (sections crc32c p (length p.meta) (length p.payload)),
    length-head p (length p.meta),
    length-sections p (length p.meta) (length p.payload),
  )

  pub record Fits (p : Pack) : Type 0 where
    pub flags_known : bit_and p.flags reserved ≡ 0
    pub meta_fits : length p.meta < 2 ^ 32
    pub payload_fits : length p.payload < 2 ^ 32

  pub encode-wire : (p : Pack) → Fits p → encode crc32c p ≡ ok (wire p)
  unfolding encode try_u32 wire
  encode-wire p f = ground arith

  pub encode-eq_ok : (p : Pack) (bs : Bytes) → encode crc32c p ≡ ok bs → Fits p × (bs ≡ wire p)
  unfolding encode try_u32 wire
  encode-eq_ok p bs h = ground arith
