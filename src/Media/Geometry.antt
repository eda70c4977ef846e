-- ===== src/Media/Geometry.antt =====
-- The lengths of chunks in crates/wbf-sdk/src/chunk_crypto.rs: how many chunks a file has, how long
-- each is, in which chunk a position lies, and which chunk size an upload takes.
pub mod Division
pub mod Partition
pub mod Positions
use wbf_matrix_client.Common.{
  ℕ, suc, ◌+◌, ◌-◌, ◌*◌, ◌/◌, ◌%◌, ◌≤◌, ◌<◌, min, Bool, Option, none, some, ltb, leb, ◌==◌,
  if◌then◌else◌, and_then,
}

-- The largest chunk index: the two above it are the nonces of the two descriptions.
abbrev pub max_chunk_index : ℕ
max_chunk_index = 0xFFFF_FFFD

abbrev pub large_file_threshold : ℕ
large_file_threshold = 50 * 1024 * 1024

abbrev pub small_chunk_size : ℕ
small_chunk_size = 64 * 1024

abbrev pub large_chunk_size : ℕ
large_chunk_size = 1024 * 1024

-- `u64::div_ceil`.
unfoldable pub div_ceil : ℕ → ℕ → ℕ
div_ceil a b = if a % b == 0 then a / b else a / b + 1

unfoldable pub chunk_count : ℕ → ℕ → Option ℕ
chunk_count file_size chunk_size =
    if chunk_size == 0
    then none
    else if ltb (max_chunk_index + 1) (div_ceil file_size chunk_size)
    then none
    else some (div_ceil file_size chunk_size)

unfoldable pub expected_plain_len : ℕ → ℕ → ℕ → Option ℕ
expected_plain_len file_size chunk_size index = and_then (chunk_count file_size chunk_size) λ count.
    if leb count index then none else some (min (file_size - index * chunk_size) chunk_size)

pub record SeekTarget : Type 0 where
  pub index : ℕ
  pub offset : ℕ

unfoldable pub locate : ℕ → ℕ → Option SeekTarget
locate pos chunk_size =
    if chunk_size == 0
    then none
    else if ltb max_chunk_index (pos / chunk_size)
    then none
    else some (record { index = pos / chunk_size; offset = pos % chunk_size })

unfoldable pub choose_chunk_size : ℕ → ℕ
choose_chunk_size file_size =
    if ltb file_size large_file_threshold then small_chunk_size else large_chunk_size

pub data Link : Type 0 where
  mobile_or_unknown wifi_or_wired : Link

unfoldable pub choose_stream_chunk_size : Link → ℕ
choose_stream_chunk_size mobile_or_unknown = small_chunk_size
choose_stream_chunk_size wifi_or_wired = large_chunk_size
