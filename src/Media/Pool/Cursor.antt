-- ===== src/Media/Pool/Cursor.antt =====
-- The contract of a reader, without segments, cipher or file: a text with a place in it, and that
-- `PoolReader` keeps it (crates/wbf-sdk/src/media_pool.rs).
use wbf_matrix_client.Common.{
  ℕ, ◌+◌, ◌-◌, ◌%◌, ◌^◌, ◌≤◌, ◌<◌, ◌≡◌, refl, sym, ap, subst, List, [], ◌∷◌, Option, none, some,
  length, take, drop, Result, ok, err, ok_injective,
}
use wbf_matrix_client.Common.Bytes.{Bytes}
use wbf_matrix_client.Media.SeekStore.{Sealer}
use wbf_matrix_client.Media.Pool.Format.{PoolError, io}
use wbf_matrix_client.Media.Pool.Reader.{
  PoolReader, SeekFrom, from_start, from_end, from_current, moved, seek_base, seek_to, seek, read,
}
use wbf_matrix_client.Media.Pool.Finishing.{Represents}
use wbf_matrix_client.Media.Pool.Reading.{ReadsAt, read-ReadsAt}

pub data Op : Type 0 where
  read_op : ℕ → Op
  seek_op : SeekFrom → Op

pub data Answer : Type 0 where
  bytes : Bytes → Answer
  place : ℕ → Answer
  failed : PoolError → Answer

-- Where a seek leads from a place of the text, unless it is before the start.
abbrev pub target : Bytes → ℕ → SeekFrom → Option ℕ
target text at (from_start n) = some n
target text at (from_end offset) = moved (length text) offset
target text at (from_current offset) = moved at offset

-- One call on a text with a place. A read gives bytes of the text at the place, at least one where
-- there is one and the buffer has room, and moves behind them; a seek moves, or fails and stays.
pub data CursorStep (text : Bytes) : ℕ → Op → Answer → ℕ → Type 0 where
  reads :
      {at count k : ℕ}
      → k ≤ count
      → k ≤ length text - at
      → (0 < count → at < length text → 0 < k)
      → CursorStep text at (read_op count) (bytes (take k (drop at text))) (at + k)
  seeks :
      {at q : ℕ} {t : SeekFrom}
      → target text at t ≡ some q
      → CursorStep text at (seek_op t) (place (q % 2 ^ 64)) (q % 2 ^ 64)
  refuses :
      {at : ℕ} {t : SeekFrom}
      → target text at t ≡ none
      → CursorStep text at (seek_op t) (failed io) at

pub data CursorRun (text : Bytes) : ℕ → List Op → List Answer → ℕ → Type 0 where
  finished : {at : ℕ} → CursorRun text at [] [] at
  next :
      {at mid end : ℕ} {op : Op} {ops : List Op} {a : Answer} {answers : List Answer}
      → CursorStep text at op a mid
      → CursorRun text mid ops answers end
      → CursorRun text at (op ∷ ops) (a ∷ answers) end

abbrev pub bytes_answer : Result PoolError Bytes × PoolReader → Answer × PoolReader
bytes_answer (ok bs, r) = (bytes bs, r)
bytes_answer (err e, r) = (failed e, r)

abbrev pub place_answer : Result PoolError ℕ × PoolReader → Answer × PoolReader
place_answer (ok n, r) = (place n, r)
place_answer (err e, r) = (failed e, r)

module _ (x : Sealer) where
  abbrev pub perform : Op → PoolReader → Answer × PoolReader
  perform (read_op count) r = bytes_answer (read x count r)
  perform (seek_op t) r = place_answer (seek t r)

  abbrev pub perform_all : List Op → PoolReader → List Answer × PoolReader
  perform_all [] r = ([], r)
  perform_all (op ∷ ops) r =
      let step = perform op r in let rest = perform_all ops step.1 in (step.0 ∷ rest.0, rest.1)

-- The step of a call and what it leaves.
abbrev Steps : Sealer → Bytes → ℕ → Op → Answer × PoolReader → Type 0
Steps x text at op out = CursorStep text at op out.0 out.1.position × Represents x out.1 text

module _ (x : Sealer) (text : Bytes) where
  read-Steps :
      (at count : ℕ) (out : Result PoolError Bytes × PoolReader)
      → ReadsAt x text count at out
      → Steps x text at (read_op count) (bytes_answer out)
  read-Steps at count (err e, r) h = absurd (cc (h.bytes))
  read-Steps at count (ok bs, r) h = (
    subst (λ a. CursorStep text at (read_op count) a r.position)
        (ap bytes (sym (ok_injective h.bytes)))
        (subst (CursorStep text at (read_op count) (bytes (take h.got (drop at text))))
          (sym h.moved_on) (reads h.bounded h.inside h.progress)),
    h.stands,
  )

  seek_base-target :
      (r : PoolReader) (t : SeekFrom)
      → Represents x r text
      → seek_base r t ≡ target text r.position t
  unfolding seek_base
  seek_base-target r (from_start n) h = refl
  seek_base-target r (from_end offset) h = ap (λ n. moved n offset) h.counted
  seek_base-target r (from_current offset) h = refl

  seek-Steps :
      (r : PoolReader) (t : SeekFrom)
      → Represents x r text
      → Steps x text r.position (seek_op t) (place_answer (seek t r))
  unfolding seek seek_to
  seek-Steps r t h = go (seek_base r t) (sym (seek_base-target r t h))
    where
      go :
          (o : Option ℕ)
          → target text r.position t ≡ o
          → Steps x text r.position (seek_op t) (place_answer (seek_to r o))
      go none e = (refuses e, h)
      go (some q) e =
          (seeks e, record { complete = h.complete; counted = h.counted; cached = h.cached })

  perform-Steps :
      (op : Op) (r : PoolReader) → Represents x r text → Steps x text r.position op (perform x op r)
  perform-Steps (read_op count) r h =
      read-Steps r.position count (read x count r) (read-ReadsAt x text r count h)
  perform-Steps (seek_op t) r h = seek-Steps r t h

  -- Whatever calls are made on a reader that stands for a text, their answers are those of a text
  -- with a place: the reader refines it.
  pub perform_all-CursorRun :
      (ops : List Op) (r : PoolReader)
      → Represents x r text
      → CursorRun text r.position ops (perform_all x ops r).0 (perform_all x ops r).1.position
  perform_all-CursorRun [] r h = finished
  perform_all-CursorRun (op ∷ ops) r h =
      let (step, stands) = perform-Steps op r h in
      next step (perform_all-CursorRun ops (perform x op r).1 stands)
