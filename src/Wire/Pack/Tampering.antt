-- ===== src/Wire/Pack/Tampering.antt =====
-- A section whose bytes were changed on the way (crates/wbf-wire/src/pack.rs, `decode`).
use wbf_matrix_client.Common.{
  ℕ, ◌+◌, ◌^◌, ◌<◌, ◌≡◌, ◌≢◌, refl, sym, arith, some, [], ◌∷◌, ◌++◌, ok, err, length,
}
use wbf_matrix_client.Common.Bytes.{Bytes, to_be_bytes}
use wbf_matrix_client.Wire.Pack.{
  Pack, IsTyped, to_byte, head, decode, decode_header, decode_meta, decode_data, version, data_crc,
  meta_crc, read_u32, read_u64,
}
use wbf_matrix_client.Wire.Pack.Layout.{Fits, decode_header-head}
use wbf_matrix_client.Wire.Pack.Positions.{
  read_id, read_seq, decode_meta-whole, decode_meta_refuses, decode_data_refuses, length-whole,
}

-- The bytes that `encode` gives for `p`, with the meta section `m` and the data section `d` in place
-- of its own, while the lengths and the two checksums still are those of `p`.
unfoldable pub tampered : (Bytes → ℕ) → Pack → Bytes → Bytes → Bytes
unfolding head
tampered crc32c p m d =
    head (record p { meta = m }) (length p.meta)
    ++ (to_be_bytes 4 (crc32c (head p (length p.meta)))
        ++ (to_be_bytes 4 (length p.payload) ++ (d ++ to_be_bytes 4 (crc32c p.payload))))

abbrev first_bytes : Pack → Bytes
first_bytes p = version ∷ to_byte p.kind ∷ p.subtype ∷ p.flags ∷ []

module _ (crc32c : Bytes → ℕ) (crc32c-lt : (bs : Bytes) → crc32c bs < 2 ^ 32) where
  module _ (p : Pack) (m d : Bytes) (t : IsTyped p) (f : Fits crc32c p)
      (m-length : length m ≡ length p.meta) where
    abbrev m_sum : ℕ
    m_sum = crc32c (head p (length p.meta))

    abbrev d_sum : ℕ
    d_sum = crc32c p.payload

    id-tampered : read_u64 (tampered crc32c p m d) 4 ≡ some p.id
    unfolding tampered
    id-tampered =
        read_id (first_bytes p) m d p.id p.seq (length p.meta) m_sum (length p.payload) d_sum refl
          t.id_u64

    seq-tampered : read_u32 (tampered crc32c p m d) 12 ≡ some p.seq
    unfolding tampered
    seq-tampered =
        read_seq (first_bytes p) m d p.id p.seq (length p.meta) m_sum (length p.payload) d_sum refl
          t.seq_u32

    length-tampered : length (tampered crc32c p m d) ≡ 32 + length m + length d
    unfolding tampered
    length-tampered =
        length-whole (first_bytes p) m d p.id p.seq (length p.meta) m_sum (length p.payload) d_sum
          refl

    header-tampered : decode_header (tampered crc32c p m d) ≡ ok (p.kind, p.subtype, p.flags)
    unfolding tampered
    header-tampered = decode_header-head (record p { meta = m }) (length p.meta) _ f.flags_known

    meta-tampered :
        crc32c (head (record p { meta = m }) (length p.meta)) ≢ m_sum
        → decode_meta crc32c (tampered crc32c p m d)
          ≡ err (meta_crc m_sum (crc32c (head (record p { meta = m }) (length p.meta))))
    unfolding tampered
    meta-tampered bad =
        decode_meta_refuses (first_bytes p) m d p.id p.seq (length p.meta) m_sum (length p.payload)
          d_sum refl crc32c f.meta_fits (sym m-length) bad (crc32c-lt (head p (length p.meta)))

    -- A meta section that was replaced by another of its length, under a checksum that differs, is
    -- refused with the checksum of the pack and that of the bytes, whatever became of the data.
    pub decode-tampered_meta :
        crc32c (head (record p { meta = m }) (length p.meta)) ≢ crc32c (head p (length p.meta))
        → decode crc32c (tampered crc32c p m d)
          ≡ err (
              meta_crc
                (crc32c (head p (length p.meta)))
                (crc32c (head (record p { meta = m }) (length p.meta))))
    unfolding decode
    decode-tampered_meta bad =
        ground
          (arith, id-tampered, seq-tampered, length-tampered, header-tampered, meta-tampered bad)

  module _ (p : Pack) (d : Bytes) (t : IsTyped p) (f : Fits crc32c p)
      (d-length : length d ≡ length p.payload) where
    data-tampered :
        crc32c d ≢ crc32c p.payload
        → decode_data crc32c (tampered crc32c p p.meta d) (20 + length p.meta)
          ≡ err (data_crc (crc32c p.payload) (crc32c d))
    unfolding tampered
    data-tampered bad =
        decode_data_refuses (first_bytes p) p.meta d p.id p.seq (length p.meta)
          (crc32c (head p (length p.meta))) (length p.payload) (crc32c p.payload) refl crc32c
          f.meta_fits refl f.payload_fits (sym d-length) (crc32c-lt p.payload) bad

    meta-kept : decode_meta crc32c (tampered crc32c p p.meta d) ≡ ok (20 + length p.meta)
    unfolding tampered
    meta-kept =
        decode_meta-whole (first_bytes p) p.meta d p.id p.seq (length p.meta)
          (crc32c (head p (length p.meta))) (length p.payload) (crc32c p.payload) refl crc32c
          f.meta_fits refl (crc32c-lt (head p (length p.meta))) refl

    -- A data section that was replaced by another of its length and another checksum, behind an
    -- unchanged meta section, is refused with the checksum of the pack and that of the bytes.
    pub decode-tampered_data :
        crc32c d ≢ crc32c p.payload
        → decode crc32c (tampered crc32c p p.meta d) ≡ err (data_crc (crc32c p.payload) (crc32c d))
    unfolding decode
    decode-tampered_data bad = ground (
      arith,
      id-tampered p p.meta d t f refl,
      seq-tampered p p.meta d t f refl,
      length-tampered p p.meta d t f refl,
      header-tampered p p.meta d t f refl,
      meta-kept,
      data-tampered bad,
    )
