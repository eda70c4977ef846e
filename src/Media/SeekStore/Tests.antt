-- ===== src/Media/SeekStore/Tests.antt =====
-- A seek file of three chunks of four bytes, and the theorems of this module at it.
use wbf_matrix_client.Common.{
  ℕ, suc, ◌-◌, ◌^◌, ◌≤◌, ◌<◌, ◌≡◌, refl, arith, List, [], ◌∷◌, ◌++◌, none, some, ok, false, length,
  take, replicate, slice,
}
use wbf_matrix_client.Common.Bytes.{Bytes, to_le_bytes, from_le_bytes}
use wbf_matrix_client.Media.Tests.{tag, tagged-length, untagged}
use wbf_matrix_client.Media.SeekStore.{
  SeekStore, Sealer, Disk, lands, fails_after, append, append_admitted, append_sealed, admit,
  cell_len, cell_offset, create, encode_header, entry_of, has, land, new_store, open_padded,
  open_store, or_create, pad, read, read_cell, reopen_existing, seal_cell, settle, write_at,
}
use wbf_matrix_client.Media.SeekStore.Soundness.{IsSound, Grows, append-Grows}
use wbf_matrix_client.Media.SeekStore.Reading.{read-append, read_kept}
use wbf_matrix_client.Media.SeekStore.Numbers.{RunMakes, Distinct, run_nonces, run_nonces-Distinct}
use wbf_matrix_client.Media.SeekStore.Opening.{open_store-IsSound}

abbrev tagged : Sealer
tagged = record {
  encrypt = λ nonce aad msg. some (msg ++ tag);
  decrypt = λ nonce aad sealed. some (take (length sealed - 16) sealed);
  decrypt-encrypt = λ nonce aad msg sealed e. untagged msg sealed e;
  length-encrypt = λ nonce aad msg sealed e. tagged-length msg sealed e;
}

abbrev random_base : Bytes
random_base = replicate 16 7

abbrev fresh : SeekStore
fresh = new_store random_base (b'm' ∷ []) 4 3

opened_run : open_store tagged lands none (some random_base) (b'm' ∷ []) 4 3 ≡ ok fresh
unfolding open_store reopen_existing or_create create
opened_run = refl

drawn_length : (base : Bytes) → some random_base ≡ some base → length base ≡ 16
drawn_length base e = ground arith

open_store-IsSound_example : IsSound fresh × (length fresh.slots ≡ 3)
open_store-IsSound_example =
    open_store-IsSound tagged lands none (some random_base) (b'm' ∷ []) 4 3 fresh (omega arith)
      drawn_length opened_run

fresh-IsSound : IsSound fresh
fresh-IsSound =
    (open_store-IsSound tagged lands none (some random_base) (b'm' ∷ []) 4 3 fresh (omega arith)
      drawn_length opened_run).0

append-Grows_example : Grows fresh (append tagged (fails_after 5) fresh 1 (1 ∷ 2 ∷ [])).1
append-Grows_example = append-Grows tagged (fails_after 5) fresh 1 (1 ∷ 2 ∷ []) fresh-IsSound

abbrev sealed_text : Bytes
sealed_text = pad fresh.chunk_size (1 ∷ 2 ∷ []) ++ tag

sealed_text_run : seal_cell tagged fresh fresh.cells 1 (1 ∷ 2 ∷ []) ≡ some sealed_text
unfolding seal_cell
sealed_text_run = refl

inside_run : 1 < length fresh.slots
unfolding new_store
inside_run = omega arith

missing_run : has fresh 1 ≡ false
unfolding has entry_of new_store
missing_run = refl

short_run : 2 ≤ fresh.chunk_size
unfolding new_store
short_run = omega arith

room_run : suc fresh.cells < 2 ^ 32
unfolding new_store
room_run = omega arith

read-append_example :
    ((append tagged lands fresh 1 (1 ∷ 2 ∷ [])).0 ≡ ok tt)
    × (read tagged (append tagged lands fresh 1 (1 ∷ 2 ∷ [])).1 1
        ≡ (some (1 ∷ 2 ∷ []), (append tagged lands fresh 1 (1 ∷ 2 ∷ [])).1))
read-append_example =
    read-append tagged fresh 1 (1 ∷ 2 ∷ []) sealed_text fresh-IsSound inside_run missing_run
      (omega arith) short_run room_run sealed_text_run

abbrev with_one : SeekStore
with_one = (append tagged lands fresh 1 (1 ∷ 2 ∷ [])).1

with_one-IsSound : IsSound with_one
with_one-IsSound = let g = append-Grows tagged lands fresh 1 (1 ∷ 2 ∷ []) fresh-IsSound in g.sound

read_run : (read tagged with_one 1).0 ≡ some (1 ∷ 2 ∷ [])
unfolding read has entry_of settle read_cell cell_offset cell_len open_padded append append_admitted
    append_sealed land admit write_at new_store encode_header seal_cell pad to_le_bytes slice
    from_le_bytes
read_run = refl

read_kept_example :
    (read tagged (append tagged (fails_after 3) with_one 0 (9 ∷ [])).1 1).0 ≡ some (1 ∷ 2 ∷ [])
read_kept_example =
    read_kept tagged (fails_after 3) with_one 0 1 (9 ∷ []) (1 ∷ 2 ∷ []) with_one-IsSound read_run

abbrev three_appends : List (Disk × ℕ × Bytes)
three_appends = (fails_after 3, 0, 9 ∷ []) ∷ (lands, 0, 9 ∷ []) ∷ (lands, 2, 8 ∷ []) ∷ []

run_nonces-Distinct_example :
    RunMakes tagged fresh three_appends × Distinct (run_nonces tagged fresh three_appends)
run_nonces-Distinct_example = run_nonces-Distinct tagged fresh three_appends fresh-IsSound
