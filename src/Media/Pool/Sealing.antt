-- ===== src/Media/Pool/Sealing.antt =====
-- What a `write` does on every outcome of the disk (crates/wbf-sdk/src/media_pool.rs).
use wbf_matrix_client.Common.{
  ℕ, zero, suc, ◌+◌, ◌*◌, ◌≤◌, ◌<◌, ◌≡◌, ◌≢◌, inl, inr, refl, sym, ap, ◌∙◌, subst, arith, [], ◌∷◌,
  ◌++◌, append-nil, append_assoc, drop_nil, ok_injective, ◌^◌, Option, none, some, length, take,
  drop, length-take, take-append-drop, ok, err, not, ◌&&◌, ◌==◌, if-holds,
}
use wbf_matrix_client.Common.Bytes.{Bytes}
use wbf_matrix_client.Media.SeekStore.{Sealer, Disk, lands, fails_after}
use wbf_matrix_client.Media.Block.{Text}
use wbf_matrix_client.Media.Pool.Format.{
  endless, Header, seal_segment, owner_of, encode_pool_header, segment_offset, record_len,
}
use wbf_matrix_client.Media.Pool.Segments.{
  read_header-encode_pool_header, length-encode_pool_header, slice_whole,
}
use wbf_matrix_client.Media.Pool.Writer.{
  PoolWriter, Written, after, take_in, hash, land_segment, seal_buffer, seal_full, fitting,
  write_loop, write, create_pending, new_writer,
}
use wbf_matrix_client.Media.Pool.Pieces.{take_add}
use wbf_matrix_client.Media.Pool.Writing.{IsSound, take_in-IsSound, torn-IsImage, landed-IsSound}

-- What an operation that is given `bs` leaves of the writer `w`: a sound writer of the same file
-- that took a front part of `bs`, all of it where the operation succeeds.
pub record Takes (x : Sealer) (w : PoolWriter) (bs : Bytes) (out : Written) : Type 0 where
  pub sound : IsSound x out.1
  pub taken : ℕ
  pub hashed : out.1.hashed ≡ w.hashed ++ take taken bs
  pub all : out.0 ≡ ok tt → out.1.hashed ≡ w.hashed ++ bs
  pub same_header : out.1.header ≡ w.header
  pub same_end : out.1.holds_final_segment ≡ w.holds_final_segment

-- Sealing a full buffer: it succeeds with an empty one, and takes nothing.
pub record Seals (x : Sealer) (w : PoolWriter) (out : Written) : Type 0 where
  pub sound : IsSound x out.1
  pub hashed : out.1.hashed ≡ w.hashed
  pub room : out.0 ≡ ok tt → length out.1.buffer < w.header.segment_size
  pub same_header : out.1.header ≡ w.header
  pub same_end : out.1.holds_final_segment ≡ w.holds_final_segment
  pub ends : out.0 ≢ err endless

module _ (x : Sealer) where
  land_segment-Seals :
      (disk : Disk) (w : PoolWriter) (o : Option Bytes)
      → IsSound x w
      → length w.buffer ≡ w.header.segment_size
      → seal_segment x w.header w.segments_written w.buffer ≡ o
      → Seals x w (land_segment disk w o)
  unfolding land_segment
  land_segment-Seals disk w none h full e = record {
    sound = h;
    hashed = refl;
    room = λ done. absurd cc;
    same_header = refl;
    same_end = refl;
    ends = λ stuck. absurd cc;
  }
  land_segment-Seals lands w (some cell) h full e = record {
    sound = landed-IsSound x w h.image cell e full;
    hashed = refl;
    room = λ done. h.image.header_ok.filled;
    same_header = refl;
    same_end = refl;
    ends = λ stuck. absurd cc;
  }
  land_segment-Seals (fails_after k) w (some cell) h full e = record {
    sound = record { image = torn-IsImage x w h.image cell k e; ready = inr full };
    hashed = refl;
    room = λ done. absurd cc;
    same_header = refl;
    same_end = refl;
    ends = λ stuck. absurd cc;
  }

  seal_full-Seals :
      (disk : ℕ → Disk) (w : PoolWriter) → IsSound x w → Seals x w (seal_full x disk w)
  unfolding seal_full seal_buffer
  seal_full-Seals disk w h =
      if-holds {A = Written} (Seals x w) (length w.buffer == w.header.segment_size) _ _
        (λ full.
          if-holds {A = Written} (Seals x w) (length w.buffer == 0) _ _
            (λ empty. absurd (ground (arith, h.image.header_ok.filled)))
            λ filled. land_segment-Seals (disk w.segments_written) w _ h (ground arith) refl)
        λ open_room. record {
          sound = h;
          hashed = refl;
          room = λ done. ground (arith, h.image.short);
          same_header = refl;
          same_end = refl;
          ends = λ stuck. absurd cc;
        }

  fitting_bounds :
      (w : PoolWriter) (bs : Bytes)
      → length w.buffer ≤ w.header.segment_size
      → length (take (fitting w bs) bs) + length w.buffer ≤ w.header.segment_size
  unfolding fitting
  fitting_bounds w bs short = omega (arith, length-take (fitting w bs) bs)

  -- One round of the loop: a piece is taken, a full buffer is sealed.
  pub round-Seals :
      (disk : ℕ → Disk) (w : PoolWriter) (bs : Bytes)
      → IsSound x w
      → Seals x
          (take_in w (take (fitting w bs) bs))
          (seal_full x disk (take_in w (take (fitting w bs) bs)))
  round-Seals disk w bs h =
      seal_full-Seals disk (take_in w (take (fitting w bs) bs))
        (take_in-IsSound x w (take (fitting w bs) bs) h (fitting_bounds w bs h.image.short))

  after-Takes :
      (w : PoolWriter) (bs : Bytes) (n : ℕ) (out : Written) (next : PoolWriter → Written)
      → Seals x (take_in w (take n bs)) out
      → ((w' : PoolWriter) → IsSound x w' → Takes x w' (drop n bs) (next w'))
      → Takes x w bs (after out next)
  unfolding after take_in hash
  after-Takes w bs n (err e, w') next h go = record {
    sound = h.sound;
    taken = n;
    hashed = h.hashed;
    all = λ done. absurd cc;
    same_header = h.same_header;
    same_end = h.same_end;
  }
  after-Takes w bs n (ok u, w') next h go =
      let rest = go w' h.sound in
      record {
        sound = rest.sound;
        taken = n + rest.taken;
        hashed =
            rest.hashed
            ∙ ap (λ t. t ++ take rest.taken (drop n bs)) h.hashed
            ∙ append_assoc w.hashed (take n bs) (take rest.taken (drop n bs))
            ∙ ap (λ t. w.hashed ++ t) (sym (take_add n rest.taken bs));
        all = λ done.
            rest.all done
            ∙ ap (λ t. t ++ drop n bs) h.hashed
            ∙ append_assoc w.hashed (take n bs) (drop n bs)
            ∙ ap (λ t. w.hashed ++ t) (take-append-drop n bs);
        same_header = rest.same_header ∙ h.same_header;
        same_end = rest.same_end ∙ h.same_end;
      }

  write_loop-Takes :
      (fuel : ℕ) (disk : ℕ → Disk) (w : PoolWriter) (bs : Bytes)
      → IsSound x w
      → Takes x w bs (write_loop x fuel disk w bs)
  unfolding write_loop
  write_loop-Takes fuel disk w [] h = record {
    sound = h;
    taken = 0;
    hashed = sym (append-nil w.hashed);
    all = λ done. sym (append-nil w.hashed);
    same_header = refl;
    same_end = refl;
  }
  write_loop-Takes zero disk w (b ∷ bs) h = record {
    sound = h;
    taken = 0;
    hashed = sym (append-nil w.hashed);
    all = λ done. absurd cc;
    same_header = refl;
    same_end = refl;
  }
  write_loop-Takes (suc fuel) disk w (b ∷ bs) h =
      after-Takes w (b ∷ bs) (fitting w (b ∷ bs)) _ _ (round-Seals disk w (b ∷ bs) h)
        (λ w' sound. write_loop-Takes fuel disk w' (drop (fitting w (b ∷ bs)) (b ∷ bs)) sound)

  -- Whatever the disk does, a `write` to a sound writer leaves a sound one: every segment that it
  -- counts as written opens, from the file, to its piece of the bytes that both hashes are over, and
  -- the buffer has the bytes behind these. The hashes got a front part of the bytes given, and all
  -- of them where the call returns `Ok`.
  pub write-Takes :
      (disk : ℕ → Disk) (w : PoolWriter) (bs : Bytes)
      → IsSound x w
      → Takes x w bs (write x disk w bs)
  unfolding write
  write-Takes disk w bs h =
      if-holds {A = Written} (Takes x w bs) (w.holds_final_segment && not (length bs == 0)) _ _
        (λ ended. record {
          sound = h;
          taken = 0;
          hashed = sym (append-nil w.hashed);
          all = λ done. absurd cc;
          same_header = refl;
          same_end = refl;
        })
        λ live. write_loop-Takes (suc (length bs)) disk w bs h

  -- A new file holds its header and nothing else.
  pub create_pending-IsSound :
      (blake3 : Text → Bytes) (size : ℕ) (base : Bytes) (mxc : Text) (w : PoolWriter)
      → 0 < size
      → size < 2 ^ 32
      → length base ≡ 16
      → owner_of blake3 mxc < 2 ^ 32
      → create_pending blake3 size lands (some base) mxc ≡ ok w
      → IsSound x w
  unfolding create_pending new_writer encode_pool_header segment_offset
  create_pending-IsSound blake3 size base mxc w pos small drawn owned e =
      subst (IsSound x) (ok_injective e) record {
        image = record {
          header_ok = record { filled = pos; small = small };
          front = encode_pool_header h;
          tail = [];
          parts = sym (append-nil (encode_pool_header h));
          ended = length-encode_pool_header h drawn ∙ no_segments;
          headed =
              read_header-encode_pool_header h (encode_pool_header h) pos small drawn owned
                (slice_whole (encode_pool_header h) 32 (length-encode_pool_header h drawn));
          opens = λ i lt. absurd (omega arith);
          whole = omega arith;
          held = sym (drop_nil (0 * size));
          counted = refl;
          short = omega arith;
          torn = inl refl;
        };
        ready = inl refl;
      }
    where
      h : Header
      h = record { segment_size = size; nonce_base = base; owner = owner_of blake3 mxc }

      no_segments : 32 ≡ 32 + 0 * record_len h
      no_segments = omega arith
