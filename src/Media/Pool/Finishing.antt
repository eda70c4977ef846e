-- ===== src/Media/Pool/Finishing.antt =====
-- What `finish` leaves in the file, and that `open_read` finds it (crates/wbf-sdk/src/media_pool.rs).
use wbf_matrix_client.Common.{
  ℕ, zero, suc, ◌+◌, ◌-◌, ◌*◌, ◌/◌, ◌%◌, ◌≤◌, ◌<◌, ◌≡◌, ◌⊎◌, inl, inr, refl, sym, ap, ◌∙◌, subst,
  arith, [], ◌++◌, append-nil, Option, none, some, length, ok, err, ok_injective, Bool, true, false,
  ◌==◌, Bool-cases, if_true, if_false,
}
use wbf_matrix_client.Common.Bytes.{Bytes}
use native.Mathlib.Nat.{mul-div_left, mul-mod_left}
use wbf_matrix_client.Media.Block.{Text}
use wbf_matrix_client.Media.SeekStore.{Sealer, Disk, lands, fails_after, write_at}
use wbf_matrix_client.Media.Pool.Format.{
  Header, segment_offset, record_len, read_header, seal_segment,
}
use wbf_matrix_client.Media.Pool.Writer.{
  PoolWriter, Written, Finished, seal_buffer, land_segment, finish, finish_with,
}
use wbf_matrix_client.Media.Pool.Reader.{PoolReader, open_read, path_of}
use wbf_matrix_client.Media.Pool.Pieces.{piece, length-piece-min}
use wbf_matrix_client.Media.Pool.Segments.{Opens, record_len-positive}
use wbf_matrix_client.Media.Pool.Writing.{
  IsHeader, IsSound, length-held, landed-parts, length-landed, landed-Opens, headed-append,
}

-- A finished file: every segment opens to its piece of the text, and the last is not empty.
pub record IsComplete (x : Sealer) (h : Header) (file : Bytes) (segments : ℕ) (text : Bytes)
    : Type 0 where
  pub header_ok : IsHeader h
  pub headed : read_header file ≡ ok h
  pub ended : length file ≡ segment_offset h segments
  pub opens : (i : ℕ) → i < segments → Opens x h file i (piece h.segment_size text i)
  pub covered : length text ≤ segments * h.segment_size
  pub tight : segments * h.segment_size < length text + h.segment_size

-- The writer behind `finish` and what it holds of the one before.
abbrev Completes : Sealer → PoolWriter → PoolWriter → Type 0
Completes x w v =
    IsComplete x v.header v.file v.segments_written v.hashed
    × (v.header ≡ w.header)
    × (v.hashed ≡ w.hashed)
    × (v.plain_len ≡ w.plain_len)

module _ (x : Sealer) where
  -- With an empty buffer the file is finished as it stands.
  whole-IsComplete : (w : PoolWriter) → IsSound x w → length w.buffer ≡ 0 → Completes x w w
  whole-IsComplete w h empty = (
    record {
      header_ok = h.image.header_ok;
      headed = ap read_header file ∙ h.image.headed;
      ended = ap length file ∙ h.image.ended;
      opens = λ i lt.
          subst (λ f. Opens x w.header f i (piece w.header.segment_size w.hashed i)) (sym file)
            (h.image.opens i lt);
      covered = omega (arith, length-held x w h.image);
      tight = omega (arith, length-held x w h.image, h.image.header_ok.filled);
    },
    refl,
    refl,
    refl,
  )
    where
      clean : (h.image.tail ≡ []) ⊎ (length w.buffer ≡ w.header.segment_size) → h.image.tail ≡ []
      clean (inl e) = e
      clean (inr full) = absurd (omega (arith, h.image.header_ok.filled))

      file : w.file ≡ h.image.front
      file = h.image.parts ∙ ap (λ t. h.image.front ++ t) (clean h.ready) ∙ append-nil h.image.front

  landed-Completes :
      (disk : Disk) (w w' : PoolWriter) (o : Option Bytes)
      → IsSound x w
      → 0 < length w.buffer
      → seal_segment x w.header w.segments_written w.buffer ≡ o
      → land_segment disk w o ≡ (ok tt, w')
      → Completes x w w'
  unfolding land_segment
  landed-Completes disk w w' none h filled s e = absurd (cc (ap (λ p. p.0) e))
  landed-Completes (fails_after k) w w' (some cell) h filled s e = absurd (cc (ap (λ p. p.0) e))
  landed-Completes lands w w' (some cell) h filled s e = subst (Completes x w) (ap (λ p. p.1) e) (
    record {
      header_ok = h.image.header_ok;
      headed = ap read_header file ∙ headed-append x w h.image cell;
      ended = ap length file ∙ length-landed x w h.image cell s;
      opens = λ i lt.
          subst (λ f. Opens x w.header f i (piece w.header.segment_size w.hashed i)) (sym file)
            (landed-Opens x w h.image cell s i lt);
      covered = omega (arith, length-held x w h.image, h.image.short);
      tight = omega (arith, length-held x w h.image);
    },
    refl,
    refl,
    refl,
  )
    where
      file :
          write_at w.file (segment_offset w.header w.segments_written) cell ≡ h.image.front ++ cell
      file = landed-parts x w h.image cell s

  sealed-Completes :
      (disk : Disk) (w w' : PoolWriter)
      → IsSound x w
      → seal_buffer x disk w ≡ (ok tt, w')
      → Completes x w w'
  unfolding seal_buffer
  sealed-Completes disk w w' h e = split (Bool-cases (length w.buffer == 0))
    where
      split : ((length w.buffer == 0) ≡ true) ⊎ ((length w.buffer == 0) ≡ false) → Completes x w w'
      split (inl empty) =
          subst (Completes x w) (ap (λ p. p.1) (if_true _ _ empty e))
            (whole-IsComplete w h (ground arith))
      split (inr filled) =
          landed-Completes disk w w' _ h (ground arith) refl (if_false _ _ filled e)

-- A reader of a finished file: it stands for the text.
pub record Represents (x : Sealer) (r : PoolReader) (text : Bytes) : Type 0 where
  pub complete : IsComplete x r.header r.file r.segments text
  pub counted : r.plain_len ≡ length text
  pub cached :
      (r.loaded_segment ≡ none)
      ⊎ ((i : ℕ) × (r.loaded_segment ≡ some (i, piece r.header.segment_size text i)))

module _ (x : Sealer) where
  -- `open_read` on a finished file that is not empty.
  open_read-Represents :
      (name : Text) (path : Text × Text) (h : Header) (file : Bytes) (n : ℕ) (text : Bytes)
      → IsComplete x h file n text
      → 0 < length text
      → path_of name ≡ ok path
      → (r : PoolReader) × (open_read x name (some file) ≡ ok r)
        × Represents x r text
        × (r.position ≡ 0)
  unfolding open_read segment_offset
  open_read-Represents name path h file zero text c pos named = absurd (omega (arith, c.covered))
  open_read-Represents name path h file (suc n) text c pos named =
      let (last, opened, found, size) = c.opens n (omega arith) in
      let pos' = record_len-positive h in
      let body : length file - 32 ≡ suc n * record_len h = omega (arith, c.ended) in
      let more : 0 < suc n * record_len h = omega (arith, pos') in
      let nonzero : (suc n * record_len h == 0) ≡ false = ground arith in
      let before : suc n - 1 ≡ n = omega arith in
      let rest : suc n * record_len h % record_len h ≡ 0 = mul-mod_left (suc n) (record_len h) in
      let count : suc n * record_len h / record_len h ≡ suc n = mul-div_left (suc n) pos' in
      (
        record {
          header = h;
          file = file;
          segments = suc n;
          plain_len = n * h.segment_size + last.len;
          position = 0;
          loaded_segment = none;
        },
        rw (named, c.headed, body, nonzero, rest, count, before, opened) refl,
        record {
          complete = c;
          counted = omega (arith, size, length-piece-min h.segment_size text n, c.covered, c.tight);
          cached = inl refl;
        },
        refl,
      )

  -- What a `finish` gives that succeeds, and what `open_read` finds then.
  abbrev pub Reads : (Bytes → Text) → (Bytes → Text) → Text → Bytes → Finished → PoolWriter → Type 0
  Reads blake3 sha256 name text f w =
      (r : PoolReader) × (open_read x name (some w.file) ≡ ok r)
      × Represents x r text
      × (r.position ≡ 0)
      × (f.hash_hex ≡ blake3 text)
      × (f.sha256_hex ≡ sha256 text)
      × (f.plain_len ≡ length text)
      × (f.bytes_on_disk ≡ length w.file)

  finish_with-Reads :
      (blake3 sha256 : Bytes → Text) (synced : Bool) (name : Text) (path : Text × Text)
      (text : Bytes) (out : Written) (f : Finished) (w' : PoolWriter)
      → path_of name ≡ ok path
      → 0 < length text
      → (out.0 ≡ ok tt
          → IsComplete x out.1.header out.1.file out.1.segments_written out.1.hashed
            × (out.1.hashed ≡ text)
            × (out.1.plain_len ≡ length text))
      → finish_with x blake3 sha256 synced out ≡ (ok f, w')
      → Reads blake3 sha256 name text f w'
  unfolding finish_with
  finish_with-Reads blake3 sha256 synced name path text (err e, w) f w' named pos done eq =
      absurd (cc (ap (λ p. p.0) eq))
  finish_with-Reads blake3 sha256 false name path text (ok u, w) f w' named pos done eq =
      absurd (cc (ap (λ p. p.0) eq))
  finish_with-Reads blake3 sha256 true name path text (ok u, w) f w' named pos done eq =
      let (complete, same, counted) = done refl in
      let whole : IsComplete x w.header w.file w.segments_written text =
        subst (IsComplete x w.header w.file w.segments_written) same complete in
      let (r, opened, stands, start) =
        open_read-Represents name path w.header w.file w.segments_written text whole pos named in
      subst (Reads blake3 sha256 name text f) (ap (λ p. p.1) eq) (
        subst (λ g. Reads blake3 sha256 name text g w) (ok_injective (ap (λ p. p.0) eq))
          (r, opened, stands, start, ap blake3 same, ap sha256 same, counted, refl))

  -- When `finish` on a sound writer succeeds, whatever the outcomes of the disk, the file opens
  -- under every name that `path_of` takes, as a reader at its start that stands for exactly the
  -- bytes that were taken; both hashes are over these, and the length is theirs.
  pub finish-Reads :
      (blake3 sha256 : Bytes → Text) (synced : Bool) (disk : Disk) (name : Text)
      (path : Text × Text) (w : PoolWriter) (f : Finished) (w' : PoolWriter)
      → IsSound x w
      → path_of name ≡ ok path
      → finish x blake3 sha256 synced disk w ≡ (ok f, w')
      → Reads blake3 sha256 name w.hashed f w'
  unfolding finish
  finish-Reads blake3 sha256 synced disk name path w f w' h named e =
      split (Bool-cases (w.plain_len == 0))
    where
      split :
          ((w.plain_len == 0) ≡ true) ⊎ ((w.plain_len == 0) ≡ false)
          → Reads blake3 sha256 name w.hashed f w'
      split (inl empty) = absurd (cc (ap (λ p. p.0) (if_true _ _ empty e)))
      split (inr filled) =
          finish_with-Reads blake3 sha256 synced name path w.hashed (seal_buffer x disk w) f w'
            named (ground (arith, h.image.counted))
            (λ done.
              let (complete, _, same, counted) =
                sealed-Completes x disk w (seal_buffer x disk w).1 h
                  (ap (λ r. (r, (seal_buffer x disk w).1)) done) in
              (complete, same, counted ∙ h.image.counted))
            (if_false _ _ filled e)
