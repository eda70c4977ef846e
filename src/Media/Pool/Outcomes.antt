-- ===== src/Media/Pool/Outcomes.antt =====
-- That the loop of a `write` ends, and why a `write` fails (crates/wbf-sdk/src/media_pool.rs).
use wbf_matrix_client.Common.{
  ℕ, zero, suc, ◌≤◌, ◌<◌, ◌≡◌, ◌⊎◌, inl, inr, refl, arith, [], ◌∷◌, ap, Option, none, some, length,
  take, drop, length-drop, ok, err, Bool, true, false, not, ◌&&◌, ◌||◌, ltb, ◌==◌, if◌then◌else◌,
  if-holds,
}
use wbf_matrix_client.Common.Bytes.{Bytes}
use wbf_matrix_client.Media.SeekStore.{Sealer, Disk, lands, fails_after}
use wbf_matrix_client.Media.Pool.Format.{io, seal_segment}
use wbf_matrix_client.Media.Pool.Writer.{
  PoolWriter, Written, after, take_in, hash, land_segment, seal_buffer, seal_full, fitting,
  write_loop, write,
}
use wbf_matrix_client.Media.Pool.Writing.{IsSound}
use wbf_matrix_client.Media.Pool.Sealing.{round-Seals}

-- The disk fails at some segment, or the cipher refuses some message.
abbrev pub IsBlocked : Sealer → (ℕ → Disk) → Type 0
IsBlocked x disk =
    ((n : ℕ) × (k : ℕ) × (disk n ≡ fails_after k))
    ⊎ ((nonce : Bytes) × (aad : Bytes) × (msg : Bytes) × (x.encrypt nonce aad msg ≡ none))

abbrev pub Outcome : Sealer → (ℕ → Disk) → Written → Type 0
Outcome x disk out = (out.0 ≡ ok tt) ⊎ ((out.0 ≡ err io) × IsBlocked x disk)

module _ (x : Sealer) (disk : ℕ → Disk) where
  seal_segment-refused :
      (w : PoolWriter)
      → length w.buffer ≡ w.header.segment_size
      → 0 < w.header.segment_size
      → seal_segment x w.header w.segments_written w.buffer ≡ none
      → IsBlocked x disk
  unfolding seal_segment
  seal_segment-refused w full pos e =
      let fits : ((length w.buffer == 0) || ltb w.header.segment_size (length w.buffer)) ≡ false =
        ground arith in
      inr (_, _, _, sealed e fits)
    where
      sealed : {b : Bool} {o : Option Bytes} → (if b then none else o) ≡ none → b ≡ false → o ≡ none
      sealed {b = true} e f = absurd cc
      sealed {b = false} e f = e

  land_segment-Outcome :
      (d : Disk) (w : PoolWriter) (o : Option Bytes) (n : ℕ)
      → disk n ≡ d
      → (o ≡ none → IsBlocked x disk)
      → Outcome x disk (land_segment d w o)
  unfolding land_segment
  land_segment-Outcome d w none n at_disk refused = inr (refl, refused refl)
  land_segment-Outcome lands w (some cell) n at_disk refused = inl refl
  land_segment-Outcome (fails_after k) w (some cell) n at_disk refused =
      inr (refl, inl (n, k, at_disk))

  seal_full-Outcome :
      (w : PoolWriter) → 0 < w.header.segment_size → Outcome x disk (seal_full x disk w)
  unfolding seal_full seal_buffer
  seal_full-Outcome w pos =
      if-holds {A = Written} (Outcome x disk) (length w.buffer == w.header.segment_size) _ _
        (λ full.
          if-holds {A = Written} (Outcome x disk) (length w.buffer == 0) _ _ (λ empty. inl refl)
            λ filled.
              land_segment-Outcome (disk w.segments_written) w _ w.segments_written refl
                (seal_segment-refused w (ground arith) pos))
        λ open_room. inl refl

  after-Outcome :
      (out : Written) (next : PoolWriter → Written)
      → Outcome x disk out
      → (out.0 ≡ ok tt → Outcome x disk (next out.1))
      → Outcome x disk (after out next)
  unfolding after
  after-Outcome (ok u, w) next o go = go refl
  after-Outcome (err e, w) next (inl done) go = absurd cc
  after-Outcome (err e, w) next (inr blocked) go = inr blocked

  -- Once the buffer has room, every round takes a byte.
  write_loop-Outcome :
      (fuel : ℕ) (w : PoolWriter) (bs : Bytes)
      → IsSound x w
      → length w.buffer < w.header.segment_size
      → length bs ≤ fuel
      → Outcome x disk (write_loop x fuel disk w bs)
  unfolding write_loop take_in hash fitting
  write_loop-Outcome fuel w [] h room enough = inl refl
  write_loop-Outcome zero w (b ∷ bs) h room enough = absurd (omega arith)
  write_loop-Outcome (suc fuel) w (b ∷ bs) h room enough =
      let n = fitting w (b ∷ bs) in
      let sealed = round-Seals x disk w (b ∷ bs) h in
      after-Outcome _ _ (seal_full-Outcome (take_in w (take n (b ∷ bs))) h.image.header_ok.filled)
        λ done.
          write_loop-Outcome fuel _ (drop n (b ∷ bs)) sealed.sound
            (omega (arith, sealed.room done, ap (λ k. k.segment_size) sealed.same_header))
            (omega (arith, length-drop n (b ∷ bs)))

  -- One round more than there are bytes is enough, as the buffer may be full at first.
  write_loop-enough :
      (w : PoolWriter) (bs : Bytes)
      → IsSound x w
      → Outcome x disk (write_loop x (suc (length bs)) disk w bs)
  unfolding write_loop take_in hash fitting
  write_loop-enough w [] h = inl refl
  write_loop-enough w (b ∷ bs) h =
      let n = fitting w (b ∷ bs) in
      let sealed = round-Seals x disk w (b ∷ bs) h in
      after-Outcome _ _ (seal_full-Outcome (take_in w (take n (b ∷ bs))) h.image.header_ok.filled)
        λ done.
          write_loop-Outcome (length (b ∷ bs)) _ (drop n (b ∷ bs)) sealed.sound
            (omega (arith, sealed.room done, ap (λ k. k.segment_size) sealed.same_header))
            (omega (arith, length-drop n (b ∷ bs)))

  -- A `write` to a sound writer that does not hold the final segment ends: it succeeds, or it gives
  -- an I/O error, and that only where the disk fails at some segment or the cipher refuses.
  pub write-Outcome :
      (w : PoolWriter) (bs : Bytes)
      → IsSound x w
      → w.holds_final_segment ≡ false
      → Outcome x disk (write x disk w bs)
  unfolding write
  write-Outcome w bs h live =
      if-holds {A = Written} (Outcome x disk) (w.holds_final_segment && not (length bs == 0)) _ _
        (λ ended. absurd (ground arith)) λ going. write_loop-enough w bs h
