-- ===== src/Wire/Pack/Canonical.antt =====
-- What `decode` accepts (crates/wbf-wire/src/pack.rs): only the bytes that `encode` gives.
use wbf_matrix_client.Common.{
  ℕ, ◌+◌, ◌^◌, ◌≤◌, ◌<◌, ◌≡◌, sym, ap, ap₂, ◌∙◌, arith, bit_and, some, [], ◌∷◌, ◌++◌, ok, length,
  slice, drop, Option-cases, drop_all, append-injective_left, slice-drop, append-nil, append_assoc,
  inl, inr,
}
use wbf_matrix_client.Common.Bytes.{Bytes, AreBytes, to_be_bytes, read_be-drop}
use wbf_matrix_client.Wire.Pack.{
  Pack, Kind, to_byte, head, sections, encode, decode, decode_header, decode_meta, decode_data,
  read_u32, read_u64, reserved, version,
}
use wbf_matrix_client.Wire.Pack.Kinds.{from_byte-eq_some}
use wbf_matrix_client.Wire.Pack.Layout.{wire, Fits, encode-wire, length-head}

header-eq_ok :
    (bs : Bytes) (k : Kind) (s f : ℕ)
    → decode_header bs ≡ ok (k, s, f)
    → (bs ≡ (version ∷ to_byte k ∷ s ∷ f ∷ []) ++ drop 4 bs) × (bit_and f reserved ≡ 0)
unfolding decode_header
header-eq_ok [] k s f e = cc
header-eq_ok (a ∷ []) k s f e = cc
header-eq_ok (a ∷ b ∷ []) k s f e = cc
header-eq_ok (a ∷ b ∷ c ∷ []) k s f e = cc
header-eq_ok (a ∷ b ∷ c ∷ d ∷ rest) k s f e = ground (arith, from_byte-eq_some b k)

module _ (crc32c : Bytes → ℕ) where
  pub meta-eq_ok :
      (bs : Bytes) (e : ℕ)
      → decode_meta crc32c bs ≡ ok e
      → (n : ℕ) × (c : Bytes) × (read_u32 bs 16 ≡ some n)
        × (e ≡ 20 + n)
        × (e + 8 ≤ length bs)
        × (slice bs 0 e ≡ some c)
        × (read_u32 bs e ≡ some (crc32c c))
  unfolding decode_meta
  meta-eq_ok bs e h = elim (Option-cases (read_u32 bs 16)) [
    | inl missing ↦ absurd (ground arith)
    | inr (n, found) ↦ elim (Option-cases (slice bs 0 (20 + n))) [
      | inl missing ↦ absurd (ground arith)
      | inr (c, covered) ↦ (n, c, found, ground arith, ground arith, ground arith, ground arith)
    ]
  ]

  pub data-eq_ok :
      (bs d : Bytes) (e : ℕ)
      → decode_data crc32c bs e ≡ ok d
      → (n : ℕ) × (read_u32 bs (e + 4) ≡ some n)
        × (slice bs (e + 8) (e + 8 + n) ≡ some d)
        × (read_u32 bs (e + 8 + n) ≡ some (crc32c d))
        × (e + 8 + n + 4 ≡ length bs)
  unfolding decode_data
  data-eq_ok bs d e h = ground arith

  pub decode-eq_ok :
      (bs : Bytes) (p : Pack)
      → decode crc32c bs ≡ ok p
      → (e : ℕ) × (decode_header bs ≡ ok (p.kind, p.subtype, p.flags))
        × (read_u64 bs 4 ≡ some p.id)
        × (read_u32 bs 12 ≡ some p.seq)
        × (decode_meta crc32c bs ≡ ok e)
        × (decode_data crc32c bs e ≡ ok p.payload)
        × (slice bs 20 e ≡ some p.meta)
  unfolding decode
  decode-eq_ok bs p h = ground arith

  -- The three parts of a decoded pack, from the tail of the bytes to the whole.
  data-bytes :
      (bs d : Bytes) (e : ℕ)
      → AreBytes bs
      → decode_data crc32c bs e ≡ ok d
      → (drop (e + 4) bs ≡ to_be_bytes 4 (length d) ++ (d ++ to_be_bytes 4 (crc32c d)))
        × (length d < 2 ^ 32)
  unfolding read_u32
  data-bytes bs d e hb h =
      let (n, len, body, crc, all) = data-eq_ok bs d e h in
      let (len_drop, len_lt, _) = read_be-drop 4 (e + 4) n bs hb len in
      let (body_drop, body_len) = slice-drop bs (e + 8) (e + 8 + n) d body in
      let (crc_drop, _, _) = read_be-drop 4 (e + 8 + n) (crc32c d) bs hb crc in
      let size : n ≡ length d = omega arith in
      let end : drop (e + 8 + n + 4) bs ≡ [] = drop_all (e + 8 + n + 4) bs (omega arith) in
      let next : drop (e + 4 + 4) bs ≡ drop (e + 8) bs =
        (let same : e + 4 + 4 ≡ e + 8 = omega arith in ap (λ k. drop k bs) same) in
      (
        cc (len_drop, body_drop, crc_drop, size, end, next, append-nil (to_be_bytes 4 (crc32c d))),
        omega arith,
      )

  meta-bytes :
      (bs m : Bytes) (e : ℕ)
      → AreBytes bs
      → decode_meta crc32c bs ≡ ok e
      → slice bs 20 e ≡ some m
      → (c : Bytes) × (drop 16 bs ≡ to_be_bytes 4 (length m) ++ (m ++ drop e bs))
        × (drop e bs ≡ to_be_bytes 4 (crc32c c) ++ drop (e + 4) bs)
        × (bs ≡ c ++ drop e bs)
        × (length c ≡ 20 + length m)
        × (e ≡ 20 + length m)
        × (length m < 2 ^ 32)
  unfolding read_u32
  meta-bytes bs m e hb h hm =
      let (n, c, len, end, fits, covered, crc) = meta-eq_ok bs e h in
      let (len_drop, len_lt, _) = read_be-drop 4 16 n bs hb len in
      let (meta_drop, meta_len) = slice-drop bs 20 e m hm in
      let (crc_drop, _, _) = read_be-drop 4 e (crc32c c) bs hb crc in
      let (c_drop, c_len) = slice-drop bs 0 e c covered in
      let size : n ≡ length m = omega arith in
      (c, cc (len_drop, meta_drop, size), crc_drop, c_drop, omega arith, omega arith, omega arith)

  -- The bytes that a decoded pack came from, up to its checksums.
  decoded-wire :
      (bs : Bytes) (p : Pack)
      → AreBytes bs
      → decode crc32c bs ≡ ok p
      → Fits crc32c p × (bs ≡ wire crc32c p)
  unfolding read_u32 read_u64 wire head sections
  decoded-wire bs p hb h =
      let (e, header, id, seq, hm, hd, meta) = decode-eq_ok bs p h in
      let (header_drop, flags) = header-eq_ok bs p.kind p.subtype p.flags header in
      let (id_drop, _, _) = read_be-drop 8 4 p.id bs hb id in
      let (seq_drop, _, _) = read_be-drop 4 12 p.seq bs hb seq in
      let (c, meta_drop, crc_drop, c_front, c_len, end, meta_lt) =
        meta-bytes bs p.meta e hb hm meta in
      let (data_drop, data_lt) = data-bytes bs p.payload e hb hd in
      let behind : drop 4 bs
          ≡ to_be_bytes 8 p.id
            ++ (to_be_bytes 4 p.seq ++ (to_be_bytes 4 (length p.meta) ++ (p.meta ++ drop e bs))) =
        cc (id_drop, seq_drop, meta_drop) in
      let front : bs ≡ head p (length p.meta) ++ drop e bs =
        header_drop
        ∙ ap (λ r. (version ∷ to_byte p.kind ∷ p.subtype ∷ p.flags ∷ []) ++ r) behind
        ∙ simp append_assoc in
      let same : c ≡ head p (length p.meta) =
        append-injective_left c (head p (length p.meta)) (drop e bs) (drop e bs)
          (omega (arith, c_len, length-head p (length p.meta))) (sym c_front ∙ front) in
      (
        record { flags_known = flags; meta_fits = meta_lt; payload_fits = data_lt },
        front
            ∙ ap (λ r. head p (length p.meta) ++ r)
                (crc_drop ∙ ap₂ (λ x y. to_be_bytes 4 (crc32c x) ++ y) same data_drop),
      )

  -- For a checksum below 2 ^ 32, every accepted input of bytes is the encoding of the pack it
  -- decodes to: there is one wire form of each pack, and `decode` takes no other.
  pub encode-decode :
      (bs : Bytes) (p : Pack) → AreBytes bs → decode crc32c bs ≡ ok p → encode crc32c p ≡ ok bs
  encode-decode bs p hb h =
      let (fits, same) = decoded-wire bs p hb h in encode-wire crc32c p fits ∙ ap ok (sym same)
