-- ===== src/Wire/Pack/RoundTrip.antt =====
-- `decode` after `encode` (crates/wbf-wire/src/pack.rs).
use wbf_matrix_client.Common.{
  ℕ, ◌+◌, ◌^◌, ◌<◌, ◌≡◌, refl, sym, arith, some, [], ◌∷◌, ok, length, slice, subst,
}
use wbf_matrix_client.Common.Bytes.{Bytes}
use wbf_matrix_client.Wire.Pack.{
  Pack, IsTyped, to_byte, head, sections, encode, decode, decode_header, decode_meta, decode_data,
  read_u32, read_u64, version,
}
use wbf_matrix_client.Wire.Pack.Layout.{wire, length-wire, Fits, encode-eq_ok, decode_header-head}
use wbf_matrix_client.Wire.Pack.Positions.{
  read_id, read_seq, slice_meta, decode_meta-whole, decode_data-whole,
}

module _ (crc32c : Bytes → ℕ) (crc32c-lt : (bs : Bytes) → crc32c bs < 2 ^ 32) where
  module _ (p : Pack) (t : IsTyped p) (f : Fits crc32c p) where
    abbrev h : Bytes
    h = version ∷ to_byte p.kind ∷ p.subtype ∷ p.flags ∷ []

    abbrev m_crc : ℕ
    m_crc = crc32c (head p (length p.meta))

    abbrev d_crc : ℕ
    d_crc = crc32c p.payload

    id-wire : read_u64 (wire crc32c p) 4 ≡ some p.id
    unfolding wire head sections
    id-wire =
        read_id h p.meta p.payload p.id p.seq (length p.meta) m_crc (length p.payload) d_crc refl
          t.id_u64

    seq-wire : read_u32 (wire crc32c p) 12 ≡ some p.seq
    unfolding wire head sections
    seq-wire =
        read_seq h p.meta p.payload p.id p.seq (length p.meta) m_crc (length p.payload) d_crc refl
          t.seq_u32

    meta-wire : slice (wire crc32c p) 20 (20 + length p.meta) ≡ some p.meta
    unfolding wire head sections
    meta-wire =
        slice_meta h p.meta p.payload p.id p.seq (length p.meta) m_crc (length p.payload) d_crc refl

    decode_meta-wire : decode_meta crc32c (wire crc32c p) ≡ ok (20 + length p.meta)
    unfolding wire head sections
    decode_meta-wire =
        decode_meta-whole h p.meta p.payload p.id p.seq (length p.meta) m_crc (length p.payload)
          d_crc refl crc32c f.meta_fits refl (crc32c-lt (head p (length p.meta))) refl

    decode_data-wire : decode_data crc32c (wire crc32c p) (20 + length p.meta) ≡ ok p.payload
    unfolding wire head sections
    decode_data-wire =
        decode_data-whole h p.meta p.payload p.id p.seq (length p.meta) m_crc (length p.payload)
          d_crc refl crc32c f.meta_fits refl f.payload_fits refl (crc32c-lt p.payload) refl

    header-wire : decode_header (wire crc32c p) ≡ ok (p.kind, p.subtype, p.flags)
    unfolding wire
    header-wire =
        decode_header-head p (length p.meta) (sections crc32c p (length p.meta) (length p.payload))
          f.flags_known

    decode-wire : decode crc32c (wire crc32c p) ≡ ok p
    unfolding decode
    decode-wire = ground (
      arith,
      id-wire,
      seq-wire,
      meta-wire,
      decode_meta-wire,
      decode_data-wire,
      header-wire,
      length-wire crc32c p,
    )

  -- For a checksum below 2 ^ 32 and a pack whose fields are of their types, `decode` of the bytes
  -- that `encode` gives returns that pack.
  pub decode-encode :
      (p : Pack) (bs : Bytes) → IsTyped p → encode crc32c p ≡ ok bs → decode crc32c bs ≡ ok p
  decode-encode p bs t e =
      let (f, same) = encode-eq_ok crc32c p bs e in
      subst (λ w. decode crc32c w ≡ ok p) (sym same) (decode-wire p t f)
