-- ===== src/Media/Pool/Reading.antt =====
-- A reader of a finished file does what a text with a position does
-- (crates/wbf-sdk/src/media_pool.rs).
use wbf_matrix_client.Common.{
  ℕ, suc, ◌+◌, ◌-◌, ◌*◌, ◌/◌, ◌%◌, ◌≤◌, ◌<◌, min, ◌≡◌, ◌⊎◌, inl, inr, refl, sym, ap, ap₂, ◌∙◌,
  subst, arith, Option, none, some, length, take, drop, length-take, length-drop, drop-drop, slice,
  slice_lem, Result, ok, true, false, not, ◌&&◌, ◌||◌, ltb, leb, ◌==◌, Bool-cases, if-holds, ltb→lt,
  ltb→le,
}
use wbf_matrix_client.Common.Bytes.{Bytes}
use native.Mathlib.Nat.{div-add-mod', mod-lt, mul-le-mul, le_refl}
use native.Mathlib.Decide.{ℕ_discrete}
use wbf_matrix_client.Media.SeekStore.{Sealer}
use wbf_matrix_client.Media.Pool.Format.{PoolError, Header}
use wbf_matrix_client.Media.Pool.Reader.{
  PoolReader, loaded, keep_loaded, copy_out, read_window, fetch_segment, load_from, load_segment,
  read,
}
use wbf_matrix_client.Media.Pool.Pieces.{piece, piece_end, length-piece-min, slice-take}
use wbf_matrix_client.Media.Pool.Finishing.{IsComplete, Represents}

-- A whole piece stands in the text before every later segment.
full_before :
    (x : Sealer) (h : Header) (file : Bytes) (segments : ℕ) (text : Bytes) (i : ℕ)
    → IsComplete x h file segments text
    → suc i < segments
    → length (piece h.segment_size text i) ≡ h.segment_size
full_before x h file segments text i c lt = omega (
  arith,
  length-piece-min h.segment_size text i,
  piece_end h.segment_size (suc i) segments lt,
  c.tight,
)

module _ (x : Sealer) (r : PoolReader) (text : Bytes) (h : Represents x r text) where
  -- A reader with another segment loaded.
  abbrev with_loaded : ℕ → PoolReader
  with_loaded i = record r { loaded_segment = some (i, piece r.header.segment_size text i) }

  with_loaded-Represents : (i : ℕ) → Represents x (with_loaded i) text
  with_loaded-Represents i = record {
    complete = h.complete;
    counted = h.counted;
    cached = inr (i, refl);
  }

  fetch_segment-piece :
      (i : ℕ) → i < r.segments → fetch_segment x i r ≡ ok (piece r.header.segment_size text i)
  unfolding fetch_segment
  fetch_segment-piece i lt =
      let (segment, opened, found, size) = h.complete.opens i lt in
      let fits : (ltb (i + 1) r.segments && not (segment.len == r.header.segment_size)) ≡ false =
        full segment.len size (Bool-cases (ltb (i + 1) r.segments)) in
      rw (opened, fits) found
    where
      full :
          (len : ℕ)
          → len ≡ length (piece r.header.segment_size text i)
          → (ltb (i + 1) r.segments ≡ true) ⊎ (ltb (i + 1) r.segments ≡ false)
          → (ltb (i + 1) r.segments && not (len == r.header.segment_size)) ≡ false
      full len size (inr last) = rw last refl
      full len size (inl inner) =
          let lt' : suc i < r.segments = ground arith in
          let whole = full_before x r.header r.file r.segments text i h.complete lt' in
          let same : (len == r.header.segment_size) ≡ true = ground (arith, whole) in
          rw (inner, same) refl

  load_segment-piece :
      (i : ℕ)
      → i < r.segments
      → (o : Option (ℕ × Bytes)) × (load_segment x i r
          ≡ (ok (piece r.header.segment_size text i), record r { loaded_segment = o }))
        × Represents x (record r { loaded_segment = o }) text
  unfolding load_segment load_from keep_loaded loaded
  load_segment-piece i lt = cases h.cached
    where
      fetched :
          keep_loaded i r (fetch_segment x i r)
          ≡ (ok (piece r.header.segment_size text i), with_loaded i)
      fetched = rw (fetch_segment-piece i lt) refl

      hit :
          (j : ℕ)
          → (j == i) ≡ true
          → load_from x i r (loaded (some (j, piece r.header.segment_size text j)) i)
            ≡ (ok (piece r.header.segment_size text j), r)
      hit j e = rw e refl

      miss :
          (j : ℕ)
          → (j == i) ≡ false
          → load_from x i r (loaded (some (j, piece r.header.segment_size text j)) i)
            ≡ keep_loaded i r (fetch_segment x i r)
      miss j e = rw e refl

      cases :
          (r.loaded_segment ≡ none)
            ⊎ ((j : ℕ) × (r.loaded_segment ≡ some (j, piece r.header.segment_size text j)))
          → (o : Option (ℕ × Bytes)) × (load_from x i r (loaded r.loaded_segment i)
              ≡ (ok (piece r.header.segment_size text i), record r { loaded_segment = o }))
            × Represents x (record r { loaded_segment = o }) text
      cases (inl e) =
          (_, ap (λ o. load_from x i r (loaded o i)) e ∙ fetched, with_loaded-Represents i)
      cases (inr (j, e)) = elim (ℕ_discrete j i) [
        | yes same ↦ (
          r.loaded_segment,
          ap (λ o. load_from x i r (loaded o i)) e
              ∙ hit j (ground (arith, same))
              ∙ ap (λ k. (ok (piece r.header.segment_size text k), r)) same,
          h,
        )
        | no other ↦ (
          _,
          ap (λ o. load_from x i r (loaded o i)) e ∙ miss j (ground (arith, other)) ∙ fetched,
          with_loaded-Represents i,
        )
      ]

-- A window that lies in a piece is one of the text.
pub window :
    (size : ℕ) (text : Bytes) (i offset count : ℕ)
    → offset + count ≤ length (piece size text i)
    → slice (piece size text i) offset (offset + count)
      ≡ some (take count (drop (i * size + offset) text))
unfolding piece
window size text i offset count fits =
    let rest = drop (i * size) text in
    let e : offset + count - offset ≡ count = omega arith in
    slice-take rest size offset (offset + count) (take count (drop (i * size + offset) text))
      (omega (arith, length-take size rest))
      (slice_lem rest offset (offset + count) (omega arith) (omega (arith, length-take size rest))
        ∙ ap some (ap₂ take e (drop-drop offset (i * size) text)))

-- What a `read` of `count` bytes gives at a place of the text: some bytes of it, at least one
-- where there is one and the buffer is not empty.
pub record ReadsAt (x : Sealer) (text : Bytes) (count place : ℕ)
    (out : Result PoolError Bytes × PoolReader) : Type 0 where
  pub got : ℕ
  pub bytes : out.0 ≡ ok (take got (drop place text))
  pub moved_on : out.1.position ≡ place + got
  pub bounded : got ≤ count
  pub inside : got ≤ length text - place
  pub progress : 0 < count → place < length text → 0 < got
  pub stands : Represents x out.1 text

module _ (x : Sealer) (text : Bytes) where
  read_window-ReadsAt :
      (r : PoolReader) (place count i offset : ℕ) (out : Result PoolError Bytes × PoolReader)
      → Represents x r text
      → r.position ≡ place
      → out ≡ (ok (piece r.header.segment_size text i), r)
      → i * r.header.segment_size + offset ≡ place
      → offset < length (piece r.header.segment_size text i)
      → 0 < count
      → ReadsAt x text count place (read_window count offset out)
  unfolding read_window copy_out
  read_window-ReadsAt r place count i offset out h at e sum lt some_room =
      let p = piece r.header.segment_size text i in
      let n = min (length p - offset) count in
      let there = window r.header.segment_size text i offset n (omega arith) in
      let past : leb (length p) offset ≡ false = ground arith in
      let size : length p ≤ length text - i * r.header.segment_size =
        omega (arith, length-piece-min r.header.segment_size text i) in
      let len : length (take n (drop (i * r.header.segment_size + offset) text)) ≡ n = omega (
        arith,
        length-take n (drop (i * r.header.segment_size + offset) text),
        length-drop (i * r.header.segment_size + offset) text,
        size,
      ) in
      subst (λ o. ReadsAt x text count place (read_window count offset o)) (sym e)
        (rw (past, there)
          record {
            got = n;
            bytes = ap (λ k. ok (take n (drop k text))) sum;
            moved_on = omega (arith, len);
            bounded = omega arith;
            inside = omega (arith, size);
            progress = λ c l. omega arith;
            stands = record { complete = h.complete; counted = h.counted; cached = h.cached };
          })

  -- A `read` of a reader that stands for a text gives the bytes of the text at its place.
  pub read-ReadsAt :
      (r : PoolReader) (count : ℕ)
      → Represents x r text
      → ReadsAt x text count r.position (read x count r)
  unfolding read
  read-ReadsAt r count h =
      if-holds {A = Result PoolError Bytes × PoolReader} (ReadsAt x text count r.position)
        (leb r.plain_len r.position || (count == 0)) _ _
        (λ done. record {
          got = 0;
          bytes = refl;
          moved_on = omega arith;
          bounded = omega arith;
          inside = omega arith;
          progress = λ c l. absurd (ground (arith, h.counted));
          stands = h;
        })
        λ going. inner (ground (arith, h.counted)) (ground arith)
    where
      size : ℕ
      size = r.header.segment_size

      inner :
          r.position < length text
          → 0 < count
          → ReadsAt x text count r.position
              (read_window count (r.position % size) (load_segment x (r.position / size) r))
      inner lt some_room =
          let sum = div-add-mod' r.position size in
          let rest = mod-lt r.position h.complete.header_ok.filled in
          let (o, e, stands) =
            load_segment-piece x r text h (r.position / size) (index_inside lt) in
          read_window-ReadsAt (record r { loaded_segment = o }) r.position count (r.position / size)
            (r.position % size) _ stands refl e sum
            (omega (arith, length-piece-min size text (r.position / size), sum, rest)) some_room
        where
          index_inside : r.position < length text → r.position / size < r.segments
          index_inside lt = below (Bool-cases (ltb (r.position / size) r.segments))
            where
              below :
                  (ltb (r.position / size) r.segments ≡ true)
                    ⊎ (ltb (r.position / size) r.segments ≡ false)
                  → r.position / size < r.segments
              below (inl y) = ltb→lt (r.position / size) r.segments y
              below (inr n) = absurd (
                  omega (
                    arith,
                    mul-le-mul (ltb→le (r.position / size) r.segments n) (le_refl size),
                    div-add-mod' r.position size,
                    h.complete.covered,
                    lt,
                  ))
