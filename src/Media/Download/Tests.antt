-- ===== src/Media/Download/Tests.antt =====
-- The download of a file of ten bytes in chunks of four, and the theorems of this module at it.
use wbf_matrix_client.Common.{
  ℕ, zero, suc, ◌-◌, ◌/◌, ◌<◌, ◌≡◌, inl, refl, arith, List, [], ◌∷◌, ◌++◌, length, Result, ok,
  Option, none, some, is_some, true, false, replicate,
}
use wbf_matrix_client.Common.Bytes.{Bytes}
use wbf_matrix_client.Media.Geometry.{chunk_count, div_ceil}
use wbf_matrix_client.Media.Cipher.{cipher_seal, cipher_open, is_encrypting}
use wbf_matrix_client.Media.Block.{
  ChunkedBlock, Text, check_as_description, check_as_event_block, check_shared_rules, cipher_eq,
  option_eq, text_eq, sizes_agree, both_or_absent, is_consistent_with_description,
}
use wbf_matrix_client.Media.FileCipher.{
  seal_chunk, seal_with_index, from_event_block, open_description, open_with_index, nonce_index,
  mode_of,
}
use wbf_matrix_client.Media.Tests.{
  tag, tagging, sample, sample_block, sample-IsSound, other_description,
}
use wbf_matrix_client.Media.Download.{
  SdkError, InfoAck, DownloadReport, VerifiedTarget, all_lower_hex, is_lower_hex, check_description,
  check_hash, check_info_against_block, download, download_loop, is_true, manifest_file_size,
  open_either, parse_sha256_field, read_and_open_chunk, seek_read, sizes_differ, verify_info,
}
use wbf_matrix_client.Media.Download.Spans.{between}
use wbf_matrix_client.Media.Download.Chunks.{chunk_of, Serves, read_and_open_chunk-Serves}
use wbf_matrix_client.Media.Download.Whole.{Given, flatten, download-Serves, download_sound}
use wbf_matrix_client.Media.Download.Seek.{range, span_end, runs_past, seek_read-span}
use wbf_matrix_client.Media.Download.Info.{IsVerified, verify_info_sound}

abbrev file : Bytes
file = 10 ∷ 11 ∷ 12 ∷ 13 ∷ 14 ∷ 15 ∷ 16 ∷ 17 ∷ 18 ∷ 19 ∷ []

abbrev target : VerifiedTarget
target = record { file_cipher = sample; file_size = 10; chunk_count = 3 }

abbrev chunks : ℕ → Result SdkError Bytes
chunks i = ok (chunk_of file 4 i)

abbrev sealed_chunk : ℕ → Bytes
sealed_chunk i = chunk_of file 4 i ++ tag

abbrev stored_chunks : ℕ → Result SdkError Bytes
stored_chunks i = ok (sealed_chunk i)

abbrev append : Bytes → Bytes → Result SdkError Bytes
append out text = ok (out ++ text)

abbrev digest : Bytes → Text
digest bytes = replicate 64 48

counted_run : chunk_count 10 4 ≡ some 3
unfolding chunk_count div_ceil
counted_run = refl

digest_hex : (bytes : Bytes) → (length (digest bytes) ≡ 64) × (all_lower_hex (digest bytes) ≡ true)
unfolding is_lower_hex
digest_hex bytes = (refl, refl)

stored_run :
    (i : ℕ)
    → i < 3
    → (seal_chunk tagging sample i (chunk_of file 4 i) ≡ ok (sealed_chunk i))
      × (stored_chunks i ≡ ok (sealed_chunk i))
unfolding seal_chunk seal_with_index cipher_seal
stored_run zero lt = (refl, refl)
stored_run (suc zero) lt = (refl, refl)
stored_run (suc (suc zero)) lt = (refl, refl)
stored_run (suc (suc (suc i))) lt = absurd (omega arith)

read_and_open_chunk-Serves_example :
    Serves (read_and_open_chunk tagging stored_chunks sample_block target) file 4 3
read_and_open_chunk-Serves_example =
    read_and_open_chunk-Serves tagging stored_chunks sample_block target file sealed_chunk
      sample-IsSound refl counted_run stored_run

download-Serves_example :
    download digest chunks append sample_block target (1 ∷ [])
    ≡ ok (record { chunks = 3; bytes = 10; sha256_verified = false }, (1 ∷ []) ++ file)
download-Serves_example =
    download-Serves digest chunks append sample_block target file (1 ∷ []) (λ out text. refl)
      (λ i lt. refl) counted_run refl digest_hex (inl refl)

abbrev report : DownloadReport
report = record { chunks = 3; bytes = 10; sha256_verified = false }

download_run : download digest chunks append sample_block target [] ≡ ok (report, file)
unfolding download download_loop parse_sha256_field check_hash
download_run = refl

download_sound_example :
    (texts : List Bytes) × Given chunks 0 texts
    × (length texts ≡ 3)
    × (file ≡ [] ++ flatten texts)
    × (length (flatten texts) ≡ 10)
    × (report ≡ record { chunks = 3; bytes = 10; sha256_verified = is_some sample_block.sha256 })
    × ((named : Text) → sample_block.sha256 ≡ some named → digest (flatten texts) ≡ named)
download_sound_example =
    download_sound digest chunks append sample_block target [] file report (λ out text. refl)
      download_run

seek_read-span_example :
    seek_read chunks sample_block target 3 (some 4)
    ≡ ok (record {
      bytes = between file 3 (span_end 3 4 10 (some 4));
      chunks_read = range (3 / 4) (div_ceil (span_end 3 4 10 (some 4)) 4 - 3 / 4);
      truncated = runs_past 3 10 (some 4);
    })
seek_read-span_example =
    seek_read-span chunks sample_block target file 3 (some 4) (λ i lt. refl) counted_run refl
      (omega arith) (omega arith)

seek_values : between file 3 (span_end 3 4 10 (some 4)) ≡ 13 ∷ 14 ∷ 15 ∷ 16 ∷ []
seek_values = refl

abbrev info : InfoAck
info = record { file_size = some 10; chunk_size = some 4; chunk_count = some 3; truncated = none }

abbrev parse : Bytes → Option ChunkedBlock
parse json = some other_description

abbrev sealed_description : Bytes
sealed_description = (123 ∷ 125 ∷ []) ++ tag

verified_run : verify_info tagging parse sample_block info sealed_description ≡ ok target
unfolding verify_info from_event_block check_as_event_block check_shared_rules
    check_info_against_block check_description open_either open_description open_with_index
    cipher_open is_encrypting manifest_file_size chunk_count div_ceil sizes_differ is_true
    check_as_description is_consistent_with_description cipher_eq option_eq text_eq sizes_agree
    both_or_absent nonce_index mode_of
verified_run = refl

verify_info_sound_example : IsVerified tagging parse sample_block info sealed_description target
verify_info_sound_example =
    verify_info_sound tagging parse sample_block info sealed_description target verified_run
