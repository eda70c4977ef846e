-- ===== src/Media/Pool/Resumed.antt =====
-- A file that is taken up again is sound, whatever stood in it, and after a crash it has a front
-- part of what was written (crates/wbf-sdk/src/media_pool.rs).
use wbf_matrix_client.Common.{
  ℕ, ◌+◌, ◌-◌, ◌*◌, ◌^◌, ◌≤◌, ◌<◌, ◌≡◌, inl, refl, sym, ap, ◌∙◌, subst, arith, [], append-nil,
  length, take, replicate, length-take, take-append_le, slice, slice-eq_some, drop_nil, ok,
  ok_injective, >>=-eq-ok, ok_or, refuse, not, ◌==◌,
}
use wbf_matrix_client.Common.Bytes.{Bytes}
use wbf_matrix_client.Media.Block.{Text}
use wbf_matrix_client.Media.SeekStore.{Sealer}
use wbf_matrix_client.Media.Pool.Format.{
  io, Header, segment_offset, record_len, read_header, owner_of, pool_header_len,
}
use wbf_matrix_client.Media.Pool.Writer.{
  PoolWriter, new_writer, set_len, truncate_to_written, resume_scan, resume_pending,
}
use wbf_matrix_client.Media.Pool.Pieces.{piece, slice-take}
use wbf_matrix_client.Media.Pool.Segments.{segment_end, Opens-slice, ok_or-some, read_header-slice}
use wbf_matrix_client.Media.Pool.Writing.{IsHeader, IsSound}
use wbf_matrix_client.Media.Pool.Resuming.{IsScanned, IsAt, resume_scan-Found}

set_len-take : (file : Bytes) (end : ℕ) → end ≤ length file → set_len file end ≡ take end file
unfolding set_len
set_len-take file end h = take-append_le end file (replicate (end - length file) 0) h

behind_header : (h : Header) (n : ℕ) → 32 ≤ segment_offset h n
unfolding segment_offset
behind_header h n = omega arith

read_header-length : (file : Bytes) (h : Header) → read_header file ≡ ok h → 32 ≤ length file
unfolding read_header
read_header-length file h e =
    let (bytes, there, _) = >>=-eq-ok (ok_or (slice file 0 pool_header_len) io) _ e in
    let (_, fits, _) = slice-eq_some file 0 pool_header_len bytes (ok_or-some there) in fits

same_number : {a b : ℕ} {u : Unit {0}} → refuse (not (a == b)) io ≡ ok u → a ≡ b
same_number e = ground arith

module _ (x : Sealer) where
  -- The file behind the whole segments is cut off.
  truncated-IsSound :
      (w : PoolWriter)
      → IsHeader w.header
      → read_header w.file ≡ ok w.header
      → IsScanned x w
      → IsSound x (truncate_to_written w)
  unfolding truncate_to_written
  truncated-IsSound w header_ok headed h = record {
    image = record {
      header_ok = header_ok;
      front = take end w.file;
      tail = [];
      parts = set_len-take w.file end h.inside ∙ sym (append-nil (take end w.file));
      ended = omega (arith, length-take end w.file, h.inside);
      headed =
          read_header-slice w.file (take end w.file) w.header
            (λ bytes there. slice-take w.file end 0 32 bytes header_inside there) headed;
      opens = λ i lt.
          Opens-slice x w.header w.file (take end w.file) i (piece w.header.segment_size w.hashed i)
            (λ cell there.
              slice-take w.file end (segment_offset w.header i)
                (segment_offset w.header i + record_len w.header) cell
                (segment_end w.header i w.segments_written lt) there)
            (h.opens i lt);
      whole = h.whole;
      held = h.held;
      counted = h.counted;
      short = h.short;
      torn = inl refl;
    };
    ready = inl refl;
  }
    where
      end : ℕ
      end = segment_offset w.header w.segments_written

      header_inside : 32 ≤ end
      header_inside = behind_header w.header w.segments_written

  new_writer-IsAt : (h : Header) (file : Bytes) → 32 ≤ length file → IsAt x (new_writer h file) 0
  unfolding new_writer segment_offset
  new_writer-IsAt h file long = record {
    scanned = record {
      opens = λ i lt. absurd (omega arith);
      inside = omega arith;
      whole = omega arith;
      held = sym (drop_nil (0 * h.segment_size));
      counted = refl;
      short = omega arith;
    };
    at_index = refl;
    empty = refl;
  }

  -- Whatever bytes stand in the file of the name, with a segment size between 1 and 2 ^ 32, a writer
  -- that `resume_pending` gives is sound: it is of the wanted owner and segment size, each of its
  -- segments opens to its piece of the bytes that were hashed, and nothing stands behind them.
  pub resume_pending-IsSound :
      (blake3 : Text → Bytes) (size : ℕ) (mxc : Text) (file : Bytes) (w : PoolWriter)
      → 0 < size
      → size < 2 ^ 32
      → resume_pending x blake3 size mxc file ≡ ok w
      → IsSound x w
        × (w.header.segment_size ≡ size)
        × (w.header.owner ≡ owner_of blake3 mxc)
        × (length w.file ≡ segment_offset w.header w.segments_written)
  unfolding resume_pending new_writer truncate_to_written
  resume_pending-IsSound blake3 size mxc file w pos small e =
      let (h, headed, e1) = >>=-eq-ok (read_header file) _ e in
      let (_, sized, e2) = >>=-eq-ok (refuse (not (h.segment_size == size)) io) _ e1 in
      let (_, owned, e3) = >>=-eq-ok (refuse (not (h.owner == owner_of blake3 mxc)) io) _ e2 in
      let (v, scanned, e4) = >>=-eq-ok (resume_scan x _ 0 (new_writer h file)) _ e3 in
      scanned_truncated h v headed (same_number sized) (same_number owned)
        (resume_scan-Found x _ 0 (new_writer h file) v
          (new_writer-IsAt h file (read_header-length file h headed)) scanned)
        (ok_injective e4)
    where
      Resumed : PoolWriter → Type 0
      Resumed w =
          IsSound x w
          × (w.header.segment_size ≡ size)
          × (w.header.owner ≡ owner_of blake3 mxc)
          × (length w.file ≡ segment_offset w.header w.segments_written)

      scanned_truncated :
          (h : Header) (v : PoolWriter)
          → read_header file ≡ ok h
          → h.segment_size ≡ size
          → h.owner ≡ owner_of blake3 mxc
          → IsScanned x v × (v.header ≡ h) × (v.file ≡ file)
          → truncate_to_written v ≡ w
          → Resumed w
      scanned_truncated h v headed sized owned (found, same_header, same_file) e =
          let wide : v.header.segment_size ≡ size = ap (λ k. k.segment_size) same_header ∙ sized in
          let header_ok : IsHeader v.header = record {
            filled = omega (arith, wide);
            small = omega (arith, wide);
          } in
          subst Resumed e (
            truncated-IsSound v header_ok
                (ap read_header same_file ∙ headed ∙ ap ok (sym same_header)) found,
            wide,
            ap (λ k. k.owner) same_header ∙ owned,
            ap length
                  (set_len-take v.file (segment_offset v.header v.segments_written) found.inside)
                ∙ omega (
                  arith,
                  length-take (segment_offset v.header v.segments_written) v.file,
                  found.inside,
                ),
          )
