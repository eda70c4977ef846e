-- ===== src/Wire/FileInfo.antt =====
-- crates/wbf-wire/src/encrypted_file_info.rs: the meta of `Create`, 16 bytes big-endian.
use wbf_matrix_client.Common.{
  ℕ, ◌^◌, ◌<◌, ◌≡◌, refl, sym, arith, Bool, ◌&&◌, not, Option, none, some, ◌++◌, [], ◌⊎◌, inl, inr,
  ◌≢◌, subst, append-nil, and_then, length, length-append, append_assoc, take, drop, drop_all, ◌==◌,
  if◌then◌else◌,
}
use native.Mathlib.Decide.{ℕ_discrete}
use wbf_matrix_client.Common.Bytes.{
  Bytes, AreBytes, to_be_bytes, from_be_bytes, read_be, read_be_lem, read_be-append, read_be-drop,
  length-to_be_bytes,
}

pub record FileInfo : Type 0 where
  pub file_size : ℕ
  pub chunk_size : ℕ
  pub chunk_count : ℕ

abbrev pub file_info_len : ℕ
file_info_len = 16

unfoldable pub to_bytes : FileInfo → Bytes
to_bytes i =
    to_be_bytes 8 i.file_size ++ (to_be_bytes 4 i.chunk_size ++ to_be_bytes 4 i.chunk_count)

-- `split_first_chunk` of 8, 4 and 4 bytes reads at 0, 8 and 12.
unfoldable pub from_bytes : Bytes → Option FileInfo
from_bytes bytes =
    if not (length bytes == file_info_len)
    then none
    else and_then (read_be 8 bytes 0) λ file_size. and_then (read_be 4 bytes 8) λ chunk_size.
      and_then (read_be 4 bytes 12) λ chunk_count.
        some (record { file_size = file_size; chunk_size = chunk_size; chunk_count = chunk_count })

unfoldable pub is_streaming : FileInfo → Bool
is_streaming i = (i.file_size == 0) && (i.chunk_count == 0)

-- What the types `u64` and `u32` of the fields say.
pub record IsTyped (i : FileInfo) : Type 0 where
  pub file_size_u64 : i.file_size < 2 ^ 64
  pub chunk_size_u32 : i.chunk_size < 2 ^ 32
  pub chunk_count_u32 : i.chunk_count < 2 ^ 32

length-to_bytes : (i : FileInfo) → length (to_bytes i) ≡ 16
unfolding to_bytes
length-to_bytes i = omega (
  arith,
  length-append (to_be_bytes 8 i.file_size)
      (to_be_bytes 4 i.chunk_size ++ to_be_bytes 4 i.chunk_count),
  length-append (to_be_bytes 4 i.chunk_size) (to_be_bytes 4 i.chunk_count),
  length-to_be_bytes 8 i.file_size,
  length-to_be_bytes 4 i.chunk_size,
  length-to_be_bytes 4 i.chunk_count,
)

-- The bytes of every info whose fields are of their types are read back as that info.
pub from_bytes-to_bytes : (i : FileInfo) → IsTyped i → from_bytes (to_bytes i) ≡ some i
unfolding from_bytes
from_bytes-to_bytes i t = ground (arith, length-to_bytes i, size, chunk, count)
  where
    size : read_be 8 (to_bytes i) 0 ≡ some i.file_size
    size =
        unfold to_bytes in
        read_be-append 8 i.file_size 0 []
          (to_be_bytes 4 i.chunk_size ++ to_be_bytes 4 i.chunk_count) refl t.file_size_u64

    chunk : read_be 4 (to_bytes i) 8 ≡ some i.chunk_size
    chunk =
        unfold to_bytes in
        read_be-append 4 i.chunk_size 8 (to_be_bytes 8 i.file_size) (to_be_bytes 4 i.chunk_count)
          (sym (length-to_be_bytes 8 i.file_size)) t.chunk_size_u32

    count : read_be 4 (to_bytes i) 12 ≡ some i.chunk_count
    count =
        unfold to_bytes in
        subst (λ bs. read_be 4 bs 12 ≡ some i.chunk_count) (simp (append_assoc, append-nil))
          (read_be-append 4 i.chunk_count 12
            (to_be_bytes 8 i.file_size ++ to_be_bytes 4 i.chunk_size) []
            (omega (
              arith,
              length-append (to_be_bytes 8 i.file_size) (to_be_bytes 4 i.chunk_size),
              length-to_be_bytes 8 i.file_size,
              length-to_be_bytes 4 i.chunk_size,
            ))
            t.chunk_count_u32)

-- Of lists of bytes `from_bytes` takes exactly those of length 16, and each is what `to_bytes`
-- gives for the info that was read.
pub to_bytes-from_bytes :
    (bs : Bytes)
    → AreBytes bs
    → ((length bs ≡ 16)
        × ((i : FileInfo) × (from_bytes bs ≡ some i) × IsTyped i × (to_bytes i ≡ bs)))
      ⊎ ((length bs ≢ 16) × (from_bytes bs ≡ none))
unfolding from_bytes
to_bytes-from_bytes bs hb = elim (ℕ_discrete (length bs) 16) [
  | no short ↦ inr (short, ground arith)
  | yes exact ↦
      let size : read_be 8 bs 0 ≡ some (from_be_bytes (take 8 (drop 0 bs))) =
        read_be_lem 8 0 bs (omega arith) in
      let chunk : read_be 4 bs 8 ≡ some (from_be_bytes (take 4 (drop 8 bs))) =
        read_be_lem 4 8 bs (omega arith) in
      let count : read_be 4 bs 12 ≡ some (from_be_bytes (take 4 (drop 12 bs))) =
        read_be_lem 4 12 bs (omega arith) in
      let (size_drop, size_lt, _) = read_be-drop 8 0 _ bs hb size in
      let (chunk_drop, chunk_lt, _) = read_be-drop 4 8 _ bs hb chunk in
      let (count_drop, count_lt, _) = read_be-drop 4 12 _ bs hb count in
      inl (
        exact,
        (
          record {
            file_size = from_be_bytes (take 8 (drop 0 bs));
            chunk_size = from_be_bytes (take 4 (drop 8 bs));
            chunk_count = from_be_bytes (take 4 (drop 12 bs));
          },
          ground (arith, size, chunk, count),
          record { file_size_u64 = size_lt; chunk_size_u32 = chunk_lt; chunk_count_u32 = count_lt },
          unfold to_bytes in
              cc (
                size_drop,
                chunk_drop,
                count_drop,
                drop_all 16 bs (omega arith),
                append-nil (to_be_bytes 4 (from_be_bytes (take 4 (drop 12 bs)))),
              ),
        ),
      )
]
