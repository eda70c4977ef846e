-- ===== src/Wire/Pack/Positions.antt =====
-- The places of the fields in a frame of crates/wbf-wire/src/pack.rs.
use wbf_matrix_client.Common.{
  ℕ, ◌+◌, ◌^◌, ◌<◌, ◌≡◌, refl, sym, subst, arith, some, [], ◌++◌, append-nil, append_assoc, ok, err,
  ◌≢◌, err, length, length-append, slice, slice-append,
}
use wbf_matrix_client.Common.Bytes.{Bytes, to_be_bytes, length-to_be_bytes, read_be, read_be-append}
use wbf_matrix_client.Wire.Pack.{decode_meta, decode_data, read_u32, read_u64, meta_crc, data_crc}

read_number :
    (k n at : ℕ) (front back bs : Bytes)
    → bs ≡ front ++ (to_be_bytes k n ++ back)
    → at ≡ length front
    → n < 256 ^ k
    → read_be k bs at ≡ some n
read_number k n at front back bs e ha hn = rw e (read_be-append k n at front back ha hn)

-- What stands where in a pack, for any contents `h` (4 bytes), `m` and `d` of the three parts that
-- have no fixed form.
module _ (h m d : Bytes) (id seq m_len m_crc d_len d_crc : ℕ) (h-length : length h ≡ 4) where
  abbrev front : Bytes
  front = h ++ (to_be_bytes 8 id ++ (to_be_bytes 4 seq ++ (to_be_bytes 4 m_len ++ m)))

  abbrev whole : Bytes
  whole = front ++ (to_be_bytes 4 m_crc ++ (to_be_bytes 4 d_len ++ (d ++ to_be_bytes 4 d_crc)))

  abbrev from_data : Bytes
  from_data = d ++ to_be_bytes 4 d_crc

  abbrev from_meta : Bytes
  from_meta = m ++ (to_be_bytes 4 m_crc ++ (to_be_bytes 4 d_len ++ from_data))

  abbrev from_seq : Bytes
  from_seq = to_be_bytes 4 seq ++ (to_be_bytes 4 m_len ++ from_meta)

  length-front : length front ≡ 20 + length m
  length-front = omega (
    arith,
    h-length,
    length-append h (to_be_bytes 8 id ++ (to_be_bytes 4 seq ++ (to_be_bytes 4 m_len ++ m))),
    length-append (to_be_bytes 8 id) (to_be_bytes 4 seq ++ (to_be_bytes 4 m_len ++ m)),
    length-append (to_be_bytes 4 seq) (to_be_bytes 4 m_len ++ m),
    length-append (to_be_bytes 4 m_len) m,
    length-to_be_bytes 8 id,
    length-to_be_bytes 4 seq,
    length-to_be_bytes 4 m_len,
  )

  pub read_id : id < 2 ^ 64 → read_u64 whole 4 ≡ some id
  unfolding read_u64
  read_id fits = read_number 8 id 4 h from_seq whole (simp append_assoc) (sym h-length) fits

  pub read_seq : seq < 2 ^ 32 → read_u32 whole 12 ≡ some seq
  unfolding read_u32
  read_seq fits =
      read_number 4 seq 12 (h ++ to_be_bytes 8 id) (to_be_bytes 4 m_len ++ from_meta) whole
        (simp append_assoc)
        (omega (arith, h-length, length-append h (to_be_bytes 8 id), length-to_be_bytes 8 id)) fits

  read_meta_len : m_len < 2 ^ 32 → read_u32 whole 16 ≡ some m_len
  unfolding read_u32
  read_meta_len fits =
      read_number 4 m_len 16 (h ++ (to_be_bytes 8 id ++ to_be_bytes 4 seq)) from_meta whole
        (simp append_assoc)
        (omega (
          arith,
          h-length,
          length-append h (to_be_bytes 8 id ++ to_be_bytes 4 seq),
          length-append (to_be_bytes 8 id) (to_be_bytes 4 seq),
          length-to_be_bytes 8 id,
          length-to_be_bytes 4 seq,
        ))
        fits

  read_meta_crc : m_crc < 2 ^ 32 → read_u32 whole (20 + length m) ≡ some m_crc
  unfolding read_u32
  read_meta_crc fits =
      read_number 4 m_crc (20 + length m) front _ whole refl (sym length-front) fits

  slice_covered : slice whole 0 (20 + length m) ≡ some front
  slice_covered = slice-append [] front _ 0 (20 + length m) refl (omega (arith, length-front))

  pub slice_meta : slice whole 20 (20 + length m) ≡ some m
  slice_meta =
      subst (λ w. slice w 20 (20 + length m) ≡ some m) (simp append_assoc)
        (slice-append (h ++ (to_be_bytes 8 id ++ (to_be_bytes 4 seq ++ to_be_bytes 4 m_len))) m
          (to_be_bytes 4 m_crc ++ (to_be_bytes 4 d_len ++ (d ++ to_be_bytes 4 d_crc))) 20
          (20 + length m)
          (omega (
            arith,
            h-length,
            length-append h (to_be_bytes 8 id ++ (to_be_bytes 4 seq ++ to_be_bytes 4 m_len)),
            length-append (to_be_bytes 8 id) (to_be_bytes 4 seq ++ to_be_bytes 4 m_len),
            length-append (to_be_bytes 4 seq) (to_be_bytes 4 m_len),
            length-to_be_bytes 8 id,
            length-to_be_bytes 4 seq,
            length-to_be_bytes 4 m_len,
          ))
          refl)

  read_data_len : d_len < 2 ^ 32 → read_u32 whole (20 + length m + 4) ≡ some d_len
  unfolding read_u32
  read_data_len fits =
      read_number 4 d_len (20 + length m + 4) (front ++ to_be_bytes 4 m_crc) from_data whole
        (simp append_assoc)
        (omega (
          arith,
          length-front,
          length-append front (to_be_bytes 4 m_crc),
          length-to_be_bytes 4 m_crc,
        ))
        fits

  length-before_data :
      length (front ++ (to_be_bytes 4 m_crc ++ to_be_bytes 4 d_len)) ≡ 28 + length m
  length-before_data = omega (
    arith,
    length-front,
    length-append front (to_be_bytes 4 m_crc ++ to_be_bytes 4 d_len),
    length-append (to_be_bytes 4 m_crc) (to_be_bytes 4 d_len),
    length-to_be_bytes 4 m_crc,
    length-to_be_bytes 4 d_len,
  )

  slice_data : slice whole (20 + length m + 8) (20 + length m + 8 + length d) ≡ some d
  slice_data =
      subst (λ w. slice w (20 + length m + 8) (20 + length m + 8 + length d) ≡ some d)
        (simp append_assoc)
        (slice-append (front ++ (to_be_bytes 4 m_crc ++ to_be_bytes 4 d_len)) d
          (to_be_bytes 4 d_crc) (20 + length m + 8) (20 + length m + 8 + length d)
          (omega (arith, length-before_data)) refl)

  read_data_crc : d_crc < 2 ^ 32 → read_u32 whole (20 + length m + 8 + length d) ≡ some d_crc
  unfolding read_u32
  read_data_crc fits =
      read_number 4 d_crc (20 + length m + 8 + length d)
        (front ++ (to_be_bytes 4 m_crc ++ (to_be_bytes 4 d_len ++ d))) [] whole
        (simp (append_assoc, append-nil))
        (omega (
          arith,
          length-front,
          length-append front (to_be_bytes 4 m_crc ++ (to_be_bytes 4 d_len ++ d)),
          length-append (to_be_bytes 4 m_crc) (to_be_bytes 4 d_len ++ d),
          length-append (to_be_bytes 4 d_len) d,
          length-to_be_bytes 4 m_crc,
          length-to_be_bytes 4 d_len,
        ))
        fits

  pub length-whole : length whole ≡ 32 + length m + length d
  length-whole = omega (
    arith,
    length-before_data,
    length-front,
    length-append front (to_be_bytes 4 m_crc ++ (to_be_bytes 4 d_len ++ from_data)),
    length-append (to_be_bytes 4 m_crc) (to_be_bytes 4 d_len ++ from_data),
    length-append (to_be_bytes 4 d_len) from_data,
    length-append d (to_be_bytes 4 d_crc),
    length-to_be_bytes 4 m_crc,
    length-to_be_bytes 4 d_len,
    length-to_be_bytes 4 d_crc,
  )

  module _ (crc32c : Bytes → ℕ) (m_small : m_len < 2 ^ 32) (m_eq : m_len ≡ length m) where
    pub decode_meta-whole :
        m_crc < 2 ^ 32 → crc32c front ≡ m_crc → decode_meta crc32c whole ≡ ok (20 + length m)
    unfolding decode_meta
    decode_meta-whole small e =
        ground (arith, read_meta_len m_small, read_meta_crc small, slice_covered, length-whole)

    pub decode_meta_refuses :
        (bad : crc32c front ≢ m_crc)
        → m_crc < 2 ^ 32
        → decode_meta crc32c whole ≡ err (meta_crc m_crc (crc32c front))
    unfolding decode_meta
    decode_meta_refuses bad small =
        ground (arith, read_meta_len m_small, read_meta_crc small, slice_covered, length-whole)

    pub decode_data_refuses :
        d_len < 2 ^ 32
        → d_len ≡ length d
        → d_crc < 2 ^ 32
        → crc32c d ≢ d_crc
        → decode_data crc32c whole (20 + length m) ≡ err (data_crc d_crc (crc32c d))
    unfolding decode_data
    decode_data_refuses d_small d_eq small bad =
        ground (arith, read_data_len d_small, read_data_crc small, slice_data, length-whole)

    pub decode_data-whole :
        d_len < 2 ^ 32
        → d_len ≡ length d
        → d_crc < 2 ^ 32
        → crc32c d ≡ d_crc
        → decode_data crc32c whole (20 + length m) ≡ ok d
    unfolding decode_data
    decode_data-whole d_small d_eq small e =
        ground (arith, read_data_len d_small, read_data_crc small, slice_data, length-whole)
