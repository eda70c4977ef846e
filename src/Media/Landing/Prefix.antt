-- ===== src/Media/Landing/Prefix.antt =====
-- What lands is a front part of the file, in order, whatever the disk does (crates/wbf-sdk/src/media.rs).
use wbf_matrix_client.Common.{
  ℕ, ◌+◌, ◌-◌, ◌*◌, ◌≤◌, ◌<◌, min, ◌≡◌, ◌⊎◌, inl, inr, refl, sym, ap, ap₂, ◌∙◌, subst, arith, ◌++◌,
  append_assoc, none, some, length, take, drop, length-take, length-drop, length-append, drop-drop,
  take-append, take-append-drop, Result, ok, err, true, false, not, ◌||◌, ltb, leb, ◌==◌, if-holds,
  Bool-cases, ltb→lt, ltb→le, drop-append_le,
}
use wbf_matrix_client.Common.Bytes.{Bytes}
use wbf_matrix_client.Media.Geometry.{chunk_count, expected_plain_len}
use wbf_matrix_client.Media.Geometry.Partition.{chunk_count-starts, expected_plain_len_lem}
use wbf_matrix_client.Media.Download.{SdkError, usage, integrity}
use wbf_matrix_client.Media.SeekStore.{Sealer, Disk}
use wbf_matrix_client.Media.Pool.Format.{PoolError}
use wbf_matrix_client.Media.Pool.Writer.{Written, write}
use wbf_matrix_client.Media.Pool.Pieces.{piece, length-piece-min, take_add}
use wbf_matrix_client.Media.Pool.Writing.{IsSound}
use wbf_matrix_client.Media.Pool.Sealing.{Takes, write-Takes}
use wbf_matrix_client.Media.Landing.{
  MediaDownload, Landed, chunk_range, land_chunk, land_within, keep_written, from_pool,
}

-- A download of a file: its main file holds a front part of the text.
pub record IsLanding (x : Sealer) (md : MediaDownload) (text : Bytes) : Type 0 where
  pub writer_ok : IsSound x md.writer
  pub sized : md.file_size ≡ length text
  pub counted : chunk_count md.file_size md.chunk_size ≡ some md.chunk_count
  pub within : md.writer.plain_len ≤ length text
  pub front : md.writer.hashed ≡ take md.writer.plain_len text

-- What a landing leaves: a download of the same file with no less of it, and the whole chunk
-- where it succeeds.
pub record Lands (x : Sealer) (md : MediaDownload) (text : Bytes) (end : ℕ)
    (out : Landed (Unit {0})) : Type 0 where
  pub landing : IsLanding x out.1 text
  pub grown : md.writer.plain_len ≤ out.1.writer.plain_len
  pub reached : out.0 ≡ ok tt → out.1.writer.plain_len ≡ end
  pub same_size : out.1.file_size ≡ md.file_size
  pub same_chunks : out.1.chunk_size ≡ md.chunk_size
  pub same_count : out.1.chunk_count ≡ md.chunk_count
  pub same_end : out.1.writer.holds_final_segment ≡ md.writer.holds_final_segment

no_chunk : (fs cs n i : ℕ) → chunk_count fs cs ≡ some n → n ≤ i → expected_plain_len fs cs i ≡ none
unfolding expected_plain_len
no_chunk fs cs n i h le = ground (arith, h)

module _ (x : Sealer) (text : Bytes) where
  stays :
      (md : MediaDownload) (end : ℕ) (e : SdkError)
      → IsLanding x md text
      → Lands x md text end (err e, md)
  stays md end e h = record {
    landing = h;
    grown = omega arith;
    reached = λ done. absurd cc;
    same_size = refl;
    same_chunks = refl;
    same_count = refl;
    same_end = refl;
  }

  -- A front part and more of the text behind it.
  longer :
      (n k : ℕ) (hashed more : Bytes)
      → hashed ≡ take n text
      → more ≡ take k (drop n text)
      → hashed ++ more ≡ take (n + k) text
  longer n k hashed more e f = ap₂ ◌++◌ e f ∙ sym (take_add n k text)

  -- A front part of a front part, by its length.
  take_front :
      (k : ℕ) (rest behind : Bytes)
      → rest ≡ take (length rest) behind
      → take k rest ≡ take (length (take k rest)) behind
  take_front k rest behind same =
      let parts : take k rest ++ (drop k rest ++ drop (length rest) behind) ≡ behind =
        sym (append_assoc (take k rest) (drop k rest) (drop (length rest) behind))
        ∙ ap (λ t. t ++ drop (length rest) behind) (take-append-drop k rest ∙ same)
        ∙ take-append-drop (length rest) behind in
      sym (take-append (take k rest) (drop k rest ++ drop (length rest) behind))
      ∙ ap (take (length (take k rest))) parts

  from_pool-ok : (r : Result PoolError (Unit {0})) → from_pool r ≡ ok tt → r ≡ ok tt
  unfolding from_pool
  from_pool-ok (ok u) e = refl
  from_pool-ok (err PoolError.usage) e = absurd cc
  from_pool-ok (err PoolError.io) e = absurd cc
  from_pool-ok (err PoolError.endless) e = absurd cc

  kept-Lands :
      (md : MediaDownload) (rest : Bytes) (out : Written)
      → IsLanding x md text
      → rest ≡ take (length rest) (drop md.writer.plain_len text)
      → md.writer.plain_len + length rest ≤ length text
      → Takes x md.writer rest out
      → Lands x md text (md.writer.plain_len + length rest) (keep_written md out)
  unfolding keep_written
  kept-Lands md rest (r, w) h same fits t = record {
    landing = record {
      writer_ok = t.sound;
      sized = h.sized;
      counted = h.counted;
      within = omega (arith, plain, length-take t.taken rest);
      front =
          t.hashed
          ∙ longer n (length (take t.taken rest)) md.writer.hashed (take t.taken rest) h.front
              (take_front t.taken rest (drop n text) same)
          ∙ ap (λ k. take k text) (sym plain);
    };
    grown = omega (arith, plain);
    reached = λ done.
        let got = t.all (from_pool-ok r done) in
        omega (
          arith,
          t.sound.image.counted,
          ap length got,
          length-append md.writer.hashed rest,
          h.writer_ok.image.counted,
        );
    same_size = refl;
    same_chunks = refl;
    same_count = refl;
    same_end = t.same_end;
  }
    where
      n : ℕ
      n = md.writer.plain_len

      plain : w.plain_len ≡ n + length (take t.taken rest)
      plain = omega (
        arith,
        t.sound.image.counted,
        ap length t.hashed,
        length-append md.writer.hashed (take t.taken rest),
        h.writer_ok.image.counted,
      )

  -- The chunk of the file at an index, and what of it lies behind the end of the main file.
  rest_of_chunk :
      (size index n : ℕ)
      → index * size ≤ n
      → n < index * size + length (piece size text index)
      → (drop (n - index * size) (piece size text index)
          ≡ take (length (drop (n - index * size) (piece size text index))) (drop n text))
        × (n + length (drop (n - index * size) (piece size text index))
            ≡ index * size + length (piece size text index))
  unfolding piece
  rest_of_chunk size index n le lt =
      let from = drop (index * size) text in
      let cut = n - index * size in
      let chunk = take size from in
      let place : index * size + cut ≡ n = omega arith in
      let split : drop n text ≡ drop cut chunk ++ drop size from =
        sym (drop-drop cut (index * size) text ∙ ap (λ k. drop k text) place)
        ∙ ap (drop cut) (sym (take-append-drop size from))
        ∙ drop-append_le cut chunk (drop size from) (omega arith) in
      (
        sym (
            ap (take (length (drop cut chunk))) split
            ∙ take-append (drop cut chunk) (drop size from)),
        omega (arith, length-drop cut chunk),
      )

  outside_file :
      (disk : ℕ → Disk) (md : MediaDownload) (plain : Bytes) (end : ℕ)
      → IsLanding x md text
      → Lands x md text end (land_within x disk md plain (err integrity))
  unfolding land_within
  outside_file disk md plain end h = stays md end integrity h

  land_within-Lands :
      (disk : ℕ → Disk) (md : MediaDownload) (index : ℕ) (plain : Bytes)
      → IsLanding x md text
      → plain ≡ piece md.chunk_size text index
      → index * md.chunk_size + length plain ≤ length text
      → Lands x md text (index * md.chunk_size + length plain) (
          land_within x disk md plain
            (ok (index * md.chunk_size, index * md.chunk_size + length plain)))
  unfolding land_within
  land_within-Lands disk md index plain h same fits =
      let start = index * md.chunk_size in
      let end = start + length plain in
      if-holds {A = Landed (Unit {0})} (Lands x md text end) (not (length plain == end - start)) _ _
        (λ wrong. stays md end integrity h)
        λ right.
          if-holds {A = Landed (Unit {0})} (Lands x md text end)
            (ltb md.writer.plain_len start || leb end md.writer.plain_len) _ _
            (λ apart. stays md end usage h) λ meets. landed start (ground arith) (ground arith) refl
    where
      landed :
          (start : ℕ)
          → start ≤ md.writer.plain_len
          → md.writer.plain_len < start + length plain
          → start ≡ index * md.chunk_size
          → Lands x md text
              (start + length plain)
              (keep_written md (write x disk md.writer (drop (md.writer.plain_len - start) plain)))
      landed start le lt at =
          let rest = drop (md.writer.plain_len - start) plain in
          let (front, size) =
            rest_of_chunk md.chunk_size index md.writer.plain_len (omega (arith, at))
              (omega (arith, at, ap length same)) in
          let same_rest : rest
              ≡ drop (md.writer.plain_len - index * md.chunk_size)
                  (piece md.chunk_size text index) =
            ap₂ (λ s p. drop (md.writer.plain_len - s) p) at same in
          let total : md.writer.plain_len + length rest ≡ start + length plain =
            omega (arith, ap length same_rest, size, ap length same, at) in
          subst (λ e. Lands x md text e (keep_written md (write x disk md.writer rest))) total
            (kept-Lands md rest (write x disk md.writer rest) h
              (subst (λ r. r ≡ take (length r) (drop md.writer.plain_len text)) (sym same_rest)
                front)
              (omega (arith, total, at, fits)) (write-Takes x disk md.writer rest h.writer_ok))

  -- When the chunk of the file at an index lands, in whatever state the download is and whatever the
  -- disk does, the main file still holds a front part of the file, no shorter than before; where the
  -- call succeeds, the chunk is in it to its end.
  pub land_chunk-Lands :
      (disk : ℕ → Disk) (md : MediaDownload) (index : ℕ)
      → IsLanding x md text
      → Lands x md text
          (index * md.chunk_size + length (piece md.chunk_size text index))
          (land_chunk x disk md index (piece md.chunk_size text index))
  unfolding land_chunk chunk_range
  land_chunk-Lands disk md index h = split (Bool-cases (ltb index md.chunk_count))
    where
      plain : Bytes
      plain = piece md.chunk_size text index

      split :
          (ltb index md.chunk_count ≡ true) ⊎ (ltb index md.chunk_count ≡ false)
          → Lands x md text
              (index * md.chunk_size + length plain)
              (land_within x disk md plain (chunk_range md index))
      split (inl inside) =
          let lt = ltb→lt index md.chunk_count inside in
          let begins =
            (chunk_count-starts md.file_size md.chunk_size md.chunk_count index h.counted).0 lt in
          let size : min (md.file_size - index * md.chunk_size) md.chunk_size ≡ length plain =
            omega (arith, length-piece-min md.chunk_size text index, h.sized) in
          let expected =
            expected_plain_len_lem md.file_size md.chunk_size md.chunk_count index h.counted lt in
          rw (expected, size)
            (land_within-Lands disk md index plain h refl (omega (arith, size, begins, h.sized)))
      split (inr outside) =
          let none_there : expected_plain_len md.file_size md.chunk_size index ≡ none =
            no_chunk md.file_size md.chunk_size md.chunk_count index h.counted
              (ltb→le index md.chunk_count outside) in
          rw none_there (outside_file disk md plain _ h)
