-- ===== src/Media/Geometry/Positions.antt =====
-- Where a position of the file lies (crates/wbf-sdk/src/chunk_crypto.rs, `locate`).
use wbf_matrix_client.Common.{ℕ, ◌+◌, ◌-◌, ◌*◌, ◌/◌, ◌%◌, ◌<◌, ◌≡◌, min, arith, some}
use native.Mathlib.Nat.{div-add-mod', mod-lt}
use wbf_matrix_client.Media.Geometry.{SeekTarget, chunk_count, expected_plain_len, locate}
use wbf_matrix_client.Media.Geometry.Partition.{
  chunk_count-eq_some, chunk_count-starts, expected_plain_len_lem,
}

-- Every position inside a file that has a count is found: in one of its chunks, before the end of
-- that chunk, and at that place of the file.
pub locate-inside :
    (fs cs n pos : ℕ)
    → chunk_count fs cs ≡ some n
    → pos < fs
    → (t : SeekTarget) × (len : ℕ) × (locate pos cs ≡ some t)
      × (t.index < n)
      × (expected_plain_len fs cs t.index ≡ some len)
      × (t.offset < len)
      × (t.index * cs + t.offset ≡ pos)
locate-inside fs cs n pos h lt =
    let (cs_pos, _, small) = chunk_count-eq_some fs cs n h in
    let whole : pos / cs * cs + pos % cs ≡ pos = div-add-mod' pos cs in
    let rest : pos % cs < cs = mod-lt pos cs_pos in
    let inside : pos / cs < n = (chunk_count-starts fs cs n (pos / cs) h).1 (omega arith) in
    (
      record { index = pos / cs; offset = pos % cs },
      min (fs - pos / cs * cs) cs,
      unfold locate in ground arith,
      inside,
      expected_plain_len_lem fs cs n (pos / cs) h inside,
      omega arith,
      whole,
    )
