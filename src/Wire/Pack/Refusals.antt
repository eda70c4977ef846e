-- ===== src/Wire/Pack/Refusals.antt =====
-- What `decode` refuses (crates/wbf-wire/src/pack.rs): bytes behind a pack, a cut pack, and a
-- section that its CRC does not fit.
use wbf_matrix_client.Common.{
  ℕ, ◌+◌, ◌≡◌, ◌≢◌, arith, [], ◌∷◌, ◌++◌, ok, err, length-append, slice-append_some,
}
use wbf_matrix_client.Common.Bytes.{Bytes, read_be-append_some}
use wbf_matrix_client.Wire.Pack.{
  Pack, Kind, decode, decode_header, decode_meta, decode_data, read_u32, read_u64, trailing_bytes,
}
use wbf_matrix_client.Wire.Pack.Canonical.{meta-eq_ok, data-eq_ok, decode-eq_ok}

header-append :
    (bs more : Bytes) (r : Kind × ℕ × ℕ)
    → decode_header bs ≡ ok r
    → decode_header (bs ++ more) ≡ ok r
unfolding decode_header
header-append [] more r e = cc
header-append (a ∷ []) more r e = cc
header-append (a ∷ b ∷ []) more r e = cc
header-append (a ∷ b ∷ c ∷ []) more r e = cc
header-append (a ∷ b ∷ c ∷ d ∷ rest) more r e = e

module _ (crc32c : Bytes → ℕ) where
  meta-append :
      (bs more : Bytes) (e : ℕ)
      → decode_meta crc32c bs ≡ ok e
      → decode_meta crc32c (bs ++ more) ≡ ok e
  unfolding decode_meta read_u32
  meta-append bs more e h =
      let (n, c, len, end, fits, covered, crc) = meta-eq_ok crc32c bs e h in
      ground (
        arith,
        read_be-append_some 4 16 n bs more len,
        slice-append_some bs more 0 e c covered,
        read_be-append_some 4 e (crc32c c) bs more crc,
        length-append bs more,
      )

  data-append :
      (bs more d : Bytes) (x e : ℕ)
      → decode_data crc32c bs e ≡ ok d
      → decode_data crc32c (bs ++ (x ∷ more)) e ≡ err trailing_bytes
  unfolding decode_data read_u32
  data-append bs more d x e h =
      let (n, len, body, crc, all) = data-eq_ok crc32c bs d e h in
      ground (
        arith,
        read_be-append_some 4 (e + 4) n bs (x ∷ more) len,
        slice-append_some bs (x ∷ more) (e + 8) (e + 8 + n) d body,
        read_be-append_some 4 (e + 8 + n) (crc32c d) bs (x ∷ more) crc,
        length-append bs (x ∷ more),
      )

  -- Bytes behind an accepted pack are never ignored: the input is refused as having trailing
  -- bytes.
  pub decode-append :
      (bs more : Bytes) (x : ℕ) (p : Pack)
      → decode crc32c bs ≡ ok p
      → decode crc32c (bs ++ (x ∷ more)) ≡ err trailing_bytes
  unfolding decode read_u32 read_u64
  decode-append bs more x p h =
      let (e, header, id, seq, hm, hd, meta) = decode-eq_ok crc32c bs p h in
      ground (
        arith,
        header-append bs (x ∷ more) (p.kind, p.subtype, p.flags) header,
        read_be-append_some 8 4 p.id bs (x ∷ more) id,
        read_be-append_some 4 12 p.seq bs (x ∷ more) seq,
        meta-append bs (x ∷ more) e hm,
        data-append bs more p.payload x e hd,
        length-append bs (x ∷ more),
      )

  -- A pack cut short is never taken for another pack: no proper prefix of an accepted input is
  -- accepted.
  pub decode_cut :
      (front back : Bytes) (x : ℕ) (p q : Pack)
      → decode crc32c (front ++ (x ∷ back)) ≡ ok p
      → decode crc32c front ≢ ok q
  decode_cut front back x p q whole cut = cc (decode-append front back x q cut)
