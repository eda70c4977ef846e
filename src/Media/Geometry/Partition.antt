-- ===== src/Media/Geometry/Partition.antt =====
-- The chunks of a file cover it without a gap (crates/wbf-sdk/src/chunk_crypto.rs, `chunk_count` and
-- `expected_plain_len`).
use wbf_matrix_client.Common.{
  ℕ, zero, suc, ◌+◌, ◌-◌, ◌*◌, ◌≤◌, ◌<◌, ◌≡◌, ◌⊎◌, ◌↔◌, inl, inr, min, arith, none, some,
}
use native.Mathlib.Decide.{dec_lt}
use wbf_matrix_client.Media.Geometry.{
  div_ceil, chunk_count, expected_plain_len, max_chunk_index, choose_chunk_size,
}
use wbf_matrix_client.Media.Geometry.Division.{div_ceil_bounds, lt-div_ceil, div_ceil-le}

pub chunk_count-eq_some :
    (fs cs n : ℕ)
    → chunk_count fs cs ≡ some n
    → (0 < cs) × (n ≡ div_ceil fs cs) × (n ≤ max_chunk_index + 1)
unfolding chunk_count
chunk_count-eq_some fs cs n h = ground arith

-- A chunk of the count begins inside the file, and an index at or past the count does not.
pub chunk_count-starts : (fs cs n i : ℕ) → chunk_count fs cs ≡ some n → (i < n) ↔ (i * cs < fs)
chunk_count-starts fs cs n i h =
    let (pos, e, _) = chunk_count-eq_some fs cs n h in
    (λ lt. lt-div_ceil i fs cs pos (omega arith), λ begins. grind (arith, div_ceil-le i fs cs pos))

pub expected_plain_len_lem :
    (fs cs n i : ℕ)
    → chunk_count fs cs ≡ some n
    → i < n
    → expected_plain_len fs cs i ≡ some (min (fs - i * cs) cs)
unfolding expected_plain_len
expected_plain_len_lem fs cs n i h lt = ground (arith, h)

-- In a file that has a count, a length is expected of exactly the indices below the count. It is
-- at least 1 and at most the chunk size, the chunk ends inside the file, and a chunk that is not
-- full ends the file.
pub expected_plain_len_bounds :
    (fs cs n i : ℕ)
    → chunk_count fs cs ≡ some n
    → ((i < n)
        × ((len : ℕ) × (expected_plain_len fs cs i ≡ some len)
            × (1 ≤ len)
            × (len ≤ cs)
            × (i * cs + len ≤ fs)
            × ((len ≡ cs) ⊎ (i * cs + len ≡ fs))))
      ⊎ ((n ≤ i) × (expected_plain_len fs cs i ≡ none))
expected_plain_len_bounds fs cs n i h =
    let (pos, e, _) = chunk_count-eq_some fs cs n h in
    elim (dec_lt i n) [
      | yes lt ↦
          let begins : i * cs < fs = (chunk_count-starts fs cs n i h).0 lt in
          inl (
            lt,
            (
              min (fs - i * cs) cs,
              expected_plain_len_lem fs cs n i h lt,
              omega arith,
              omega arith,
              omega arith,
              omega arith,
            ),
          )
      | no ge ↦ inr (omega arith, unfold expected_plain_len in ground (arith, h))
    ]

-- The bytes of the first `n` chunks.
unfoldable pub total_len : ℕ → ℕ → ℕ → ℕ
total_len fs cs zero = 0
total_len fs cs (suc n) =
    total_len fs cs n + elim (expected_plain_len fs cs n) [ none ↦ 0 | some len ↦ len ]

total_len-min :
    (fs cs n m : ℕ) → chunk_count fs cs ≡ some n → m ≤ n → total_len fs cs m ≡ min (m * cs) fs
unfolding total_len
total_len-min fs cs n zero h le = omega arith
total_len-min fs cs n (suc m) h le =
    let begins : m * cs < fs = (chunk_count-starts fs cs n m h).0 le in
    ground (arith, total_len-min fs cs n m h (omega arith), expected_plain_len_lem fs cs n m h le)

-- In a file that has a count, the expected lengths of all chunks add up to its size.
pub total_len-chunk_count : (fs cs n : ℕ) → chunk_count fs cs ≡ some n → total_len fs cs n ≡ fs
total_len-chunk_count fs cs n h =
    let (pos, e, _) = chunk_count-eq_some fs cs n h in
    omega (arith, total_len-min fs cs n n h (omega arith), div_ceil_bounds fs cs pos, covers)
  where
    covers : fs ≤ n * cs
    covers =
        div_ceil-le n fs cs (chunk_count-eq_some fs cs n h).0
          (omega (arith, chunk_count-eq_some fs cs n h))

-- With the chunk size that `choose_chunk_size` gives, every file of at most 4 PiB less 2 MiB has a
-- count, and a file below the threshold has at most 800 chunks.
pub choose_chunk_size-chunk_count :
    (fs : ℕ)
    → fs ≤ (max_chunk_index + 1) * (1024 * 1024)
    → (n : ℕ) × (chunk_count fs (choose_chunk_size fs) ≡ some n)
      × ((n ≤ 800) ⊎ (50 * 1024 * 1024 ≤ fs))
unfolding choose_chunk_size chunk_count div_ceil
choose_chunk_size-chunk_count fs h =
    (div_ceil fs (choose_chunk_size fs), ground arith, ground arith)
