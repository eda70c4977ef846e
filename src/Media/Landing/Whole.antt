-- ===== src/Media/Landing/Whole.antt =====
-- Landing chunk after chunk gives the whole file, from wherever the download stands
-- (crates/wbf-sdk/src/media.rs).
use wbf_matrix_client.Common.{
  ℕ, zero, suc, ◌+◌, ◌-◌, ◌*◌, ◌/◌, ◌≤◌, ◌<◌, min, ◌≡◌, ◌⊎◌, inl, inr, refl, ap, ap₂, ◌∙◌, arith,
  length, take, drop, take-length, ok, err, true, false, ◌||◌, ltb, leb, ◌==◌, if◌then◌else◌,
  if-holds, Bool-cases, ==→eq, leb→le,
}
use wbf_matrix_client.Common.Bytes.{Bytes}
use native.Mathlib.Nat.{div-add-mod', mod-lt, mul-div_left}
use native.Mathlib.Decide.{ℕ_discrete}
use wbf_matrix_client.Media.Geometry.Partition.{
  chunk_count-starts, chunk_count-eq_some, expected_plain_len_lem,
}
use wbf_matrix_client.Media.SeekStore.{Sealer, Disk}
use wbf_matrix_client.Media.Pool.Writer.{PoolWriter, Written, write}
use wbf_matrix_client.Media.Pool.Pieces.{piece, length-piece-min}
use wbf_matrix_client.Media.Pool.Outcomes.{IsBlocked, Outcome, write-Outcome}
use wbf_matrix_client.Media.Landing.{
  MediaDownload, Landed, chunk_range, land_chunk, land_within, keep_written, from_pool, next_chunk,
  is_written,
}
use wbf_matrix_client.Media.Landing.Prefix.{IsLanding, Lands, land_chunk-Lands}

-- The next round on the download that a landing leaves, where it succeeds.
abbrev pub then_land : Landed (Unit {0}) → (MediaDownload → Landed (Unit {0})) → Landed (Unit {0})
then_land (ok u, md) next = next md
then_land (err e, md) next = (err e, md)

module _ (x : Sealer) (disk : ℕ → Disk) (text : Bytes) where
  -- So many rounds of: the next chunk of the file lands, unless the file is written.
  abbrev pub land_all : ℕ → MediaDownload → Landed (Unit {0})
  land_all zero md = (ok tt, md)
  land_all (suc n) md =
      if is_written md
      then (ok tt, md)
      else then_land
          (land_chunk x disk md (next_chunk md) (piece md.chunk_size text (next_chunk md)))
          (land_all n)

  keep_written-ok :
      (md : MediaDownload) (out : Written) → out.0 ≡ ok tt → (keep_written md out).0 ≡ ok tt
  unfolding keep_written from_pool
  keep_written-ok md (ok u, w) e = refl
  keep_written-ok md (err error, w) e = absurd cc

  write-ok :
      (w : PoolWriter) (rest : Bytes)
      → Outcome x disk (write x disk w rest)
      → (IsBlocked x disk → ⊥)
      → (write x disk w rest).0 ≡ ok tt
  write-ok w rest (inl done) clear = done
  write-ok w rest (inr (failed, blocked)) clear = absurd (clear blocked)

  land_within-ok :
      (md : MediaDownload) (plain : Bytes) (start end : ℕ)
      → IsLanding x md text
      → (IsBlocked x disk → ⊥)
      → md.writer.holds_final_segment ≡ false
      → length plain ≡ end - start
      → start ≤ md.writer.plain_len
      → md.writer.plain_len < end
      → (land_within x disk md plain (ok (start, end))).0 ≡ ok tt
  unfolding land_within
  land_within-ok md plain start end h clear live size le below =
      let right : (length plain == end - start) ≡ true = ground arith in
      let meets : (ltb md.writer.plain_len start || leb end md.writer.plain_len) ≡ false =
        ground arith in
      let rest = drop (md.writer.plain_len - start) plain in
      rw (right, meets)
        (keep_written-ok md (write x disk md.writer rest)
          (write-ok md.writer rest (write-Outcome x disk md.writer rest h.writer_ok live) clear))

  -- Where the file goes on.
  next_chunk-index :
      (md : MediaDownload)
      → IsLanding x md text
      → md.writer.plain_len < length text
      → (next_chunk md ≡ md.writer.plain_len / md.chunk_size)
        × (md.writer.plain_len / md.chunk_size < md.chunk_count)
        × (md.writer.plain_len / md.chunk_size * md.chunk_size ≤ md.writer.plain_len)
        × (md.writer.plain_len
            < md.writer.plain_len / md.chunk_size * md.chunk_size + md.chunk_size)
  unfolding next_chunk
  next_chunk-index md h lt =
      let (pos, _, few) = chunk_count-eq_some md.file_size md.chunk_size md.chunk_count h.counted in
      let sum = div-add-mod' md.writer.plain_len md.chunk_size in
      let rest = mod-lt md.writer.plain_len pos in
      let index = md.writer.plain_len / md.chunk_size in
      let inside : index < md.chunk_count =
        (chunk_count-starts md.file_size md.chunk_size md.chunk_count index h.counted).1
          (omega (arith, sum, lt, h.sized)) in
      (omega (arith, inside, few), inside, omega (arith, sum), omega (arith, sum, rest))

  -- The next chunk of the file lands when nothing is in the way.
  land_chunk-ok :
      (md : MediaDownload) (index : ℕ)
      → IsLanding x md text
      → (IsBlocked x disk → ⊥)
      → md.writer.holds_final_segment ≡ false
      → md.writer.plain_len < length text
      → index ≡ md.writer.plain_len / md.chunk_size
      → (land_chunk x disk md index (piece md.chunk_size text index)).0 ≡ ok tt
  unfolding land_chunk chunk_range land_within
  land_chunk-ok md index h clear live lt at =
      let (_, inside, le, above) = next_chunk-index md h lt in
      let inside' : index < md.chunk_count = omega (arith, at, inside) in
      let le' : index * md.chunk_size ≤ md.writer.plain_len =
        omega (arith, ap (λ k. k * md.chunk_size) at, le) in
      let above' : md.writer.plain_len < index * md.chunk_size + md.chunk_size =
        omega (arith, ap (λ k. k * md.chunk_size) at, above) in
      let expected =
        expected_plain_len_lem md.file_size md.chunk_size md.chunk_count index h.counted inside' in
      let plain = piece md.chunk_size text index in
      let size : min (md.file_size - index * md.chunk_size) md.chunk_size ≡ length plain =
        omega (arith, length-piece-min md.chunk_size text index, h.sized) in
      rw (expected, size)
        (land_within-ok md plain (index * md.chunk_size) (index * md.chunk_size + length plain) h
          clear live (omega arith) le' (omega (arith, size, h.sized, lt, above')))

  -- The rounds that are left are enough, or the file is written.
  abbrev Enough : ℕ → MediaDownload → Type 0
  Enough n md =
      (md.writer.plain_len ≡ length text)
      ⊎ (md.chunk_count ≤ md.writer.plain_len / md.chunk_size + n)

  abbrev Whole : Landed (Unit {0}) → Type 0
  Whole out = (out.0 ≡ ok tt) × IsLanding x out.1 text × (out.1.writer.plain_len ≡ length text)

  nothing_left :
      (md : MediaDownload) → IsLanding x md text → Enough 0 md → md.writer.plain_len ≡ length text
  nothing_left md h (inl whole) = whole
  nothing_left md h (inr all) = elim (ℕ_discrete md.writer.plain_len (length text)) [
    | yes same ↦ same
    | no other ↦
        let (_, inside, _, _) = next_chunk-index md h (omega (arith, h.within)) in
        absurd (omega arith)
  ]

  -- A chunk that landed leaves one round less.
  one_less :
      (n : ℕ) (md : MediaDownload) (out : Landed (Unit {0}))
      → IsLanding x md text
      → md.writer.plain_len < length text
      → Lands x md text
          (next_chunk md * md.chunk_size + length (piece md.chunk_size text (next_chunk md)))
          out
      → out.0 ≡ ok tt
      → Enough (suc n) md
      → Enough n out.1
  one_less n md out h lt l done enough =
      full_or_last (Bool-cases (leb (index * md.chunk_size + md.chunk_size) (length text)))
    where
      index : ℕ
      index = next_chunk md

      size :
          length (piece md.chunk_size text index)
          ≡ min md.chunk_size (length text - index * md.chunk_size)
      size = length-piece-min md.chunk_size text index

      at : index ≡ md.writer.plain_len / md.chunk_size
      at = (next_chunk-index md h lt).0

      chunk_filled : 0 < md.chunk_size
      chunk_filled = (chunk_count-eq_some md.file_size md.chunk_size md.chunk_count h.counted).0

      left : Enough (suc n) md → md.chunk_count ≤ suc index + n
      left (inl whole) = absurd (omega arith)
      left (inr all) = omega (arith, at)

      full_or_last :
          (leb (index * md.chunk_size + md.chunk_size) (length text) ≡ true)
            ⊎ (leb (index * md.chunk_size + md.chunk_size) (length text) ≡ false)
          → Enough n out.1
      full_or_last (inl full) =
          let end : out.1.writer.plain_len ≡ suc index * md.chunk_size =
            omega (arith, l.reached done, size, leb→le _ _ full) in
          let next : out.1.writer.plain_len / out.1.chunk_size ≡ suc index =
            ap₂ (λ a b. a / b) end l.same_chunks ∙ mul-div_left (suc index) chunk_filled in
          inr (omega (arith, next, left enough, l.same_count))
      full_or_last (inr last) =
          let short : length text < index * md.chunk_size + md.chunk_size = ground arith in
          let begins : index * md.chunk_size ≤ md.writer.plain_len =
            omega (arith, ap (λ k. k * md.chunk_size) at, (next_chunk-index md h lt).2) in
          inl (omega (arith, l.reached done, size, short, begins))

  land_all-Whole :
      (n : ℕ) (md : MediaDownload)
      → IsLanding x md text
      → (IsBlocked x disk → ⊥)
      → md.writer.holds_final_segment ≡ false
      → Enough n md
      → Whole (land_all n md)
  unfolding is_written
  land_all-Whole zero md h clear live enough = (refl, h, nothing_left md h enough)
  land_all-Whole (suc n) md h clear live enough =
      if-holds {A = Landed (Unit {0})} Whole (is_written md) _ _
        (λ written. (refl, h, whole written))
        λ unwritten.
          let lt = below unwritten in
          let index = next_chunk md in
          let lands_ok = land_chunk-Lands x text disk md index h in
          let done = land_chunk-ok md index h clear live lt (next_chunk-index md h lt).0 in
          round (land_chunk x disk md index (piece md.chunk_size text index)) done lands_ok.landing
            (lands_ok.same_end ∙ live) (one_less n md _ h lt lands_ok done enough)
            (land_all-Whole n)
    where
      whole : is_written md ≡ true → md.writer.plain_len ≡ length text
      whole e = ==→eq md.writer.plain_len md.file_size e ∙ h.sized

      below : is_written md ≡ false → md.writer.plain_len < length text
      below e = ground (arith, h.within, h.sized)

      round :
          (out : Landed (Unit {0}))
          → out.0 ≡ ok tt
          → IsLanding x out.1 text
          → out.1.writer.holds_final_segment ≡ false
          → Enough n out.1
          → ((md : MediaDownload)
              → IsLanding x md text
              → (IsBlocked x disk → ⊥)
              → md.writer.holds_final_segment ≡ false
              → Enough n md
              → Whole (land_all n md))
          → Whole (then_land out (land_all n))
      round (ok u, md') e h' live' enough' go = go md' h' clear live' enough'
      round (err error, md') e h' live' enough' go = absurd cc

  -- From any state of a download of a file, where the disk never fails, the cipher refuses nothing
  -- and the main file does not hold a final segment already: as many rounds as the file has chunks,
  -- in each of which the next chunk of the file lands unless the file is written, succeed and leave
  -- exactly the file in the main file.
  pub land_all-hashed :
      (md : MediaDownload)
      → IsLanding x md text
      → (IsBlocked x disk → ⊥)
      → md.writer.holds_final_segment ≡ false
      → ((land_all md.chunk_count md).0 ≡ ok tt)
        × ((land_all md.chunk_count md).1.writer.hashed ≡ text)
        × (is_written (land_all md.chunk_count md).1 ≡ true)
  unfolding is_written
  land_all-hashed md h clear live =
      let (done, landing, size) =
        land_all-Whole md.chunk_count md h clear live (inr (omega arith)) in
      (
        done,
        landing.front ∙ ap (λ k. take k text) size ∙ take-length text,
        ground (arith, size, landing.sized),
      )
