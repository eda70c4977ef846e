-- ===== src/Media/Tests.antt =====
-- Runs of the media path of crates/wbf-sdk on concrete files, and its theorems at these inputs.
use wbf_matrix_client.Common.{
  ◌+◌, ◌-◌, ◌≡◌, refl, ◌∙◌, ◌↔◌, arith, none, some, true, [], ◌∷◌, ◌++◌, ok, length, ap, take,
  take-append, length-append, replicate,
}
use wbf_matrix_client.Common.Bytes.{Bytes}
use wbf_matrix_client.Media.Geometry.{div_ceil, chunk_count, expected_plain_len, locate}
use wbf_matrix_client.Media.Cipher.{aes256_gcm, is_encrypting, Aead, cipher_seal}
use wbf_matrix_client.Media.Block.{
  ChunkedBlock, check_as_event_block, check_shared_rules, is_consistent_with_description, cipher_eq,
  option_eq, text_eq, sizes_agree, both_or_absent,
}
use wbf_matrix_client.Media.Block.Checks.{
  IsEventBlock, check_as_event_block_iff, Agrees, consistent-Agrees,
}
use wbf_matrix_client.Media.FileCipher.{
  FileCipher, IsSound, encrypted, from_event_block, to_event_block, seal_chunk, open_chunk,
  seal_with_index, sealed_len, build_nonce, chunk_aad, seal, seal_description,
}
use wbf_matrix_client.Media.FileCipher.Parameters.{to_event_block-from_event_block}
use wbf_matrix_client.Media.FileCipher.Sealing.{open_chunk-seal_chunk}
use wbf_matrix_client.Media.FileCipher.Nonces.{Sealed, chunk, seal_one, seal_one-distinct}

-- The file of the source's examples: 132056 bytes in chunks of 64 KiB.
count_run : chunk_count 132056 65536 ≡ some 3
unfolding chunk_count div_ceil
count_run = refl

last_run : expected_plain_len 132056 65536 2 ≡ some 984
unfolding expected_plain_len chunk_count div_ceil
last_run = refl

locate_run : locate 71680 65536 ≡ some (record { index = 1; offset = 6144 })
unfolding locate
locate_run = refl

-- A cipher that can stand for an AEAD: the message with sixteen bytes behind it.
abbrev pub tag : Bytes
tag = replicate 16 0

pub tagged-length :
    (msg sealed : Bytes) → some (msg ++ tag) ≡ some sealed → length sealed ≡ length msg + 16
tagged-length msg sealed e = ground (arith, length-append msg tag)

pub untagged :
    (msg sealed : Bytes)
    → some (msg ++ tag) ≡ some sealed
    → some (take (length sealed - 16) sealed) ≡ some msg
untagged msg sealed e =
    let same : sealed ≡ msg ++ tag = ground arith in
    rw same (ap some (ap (λ n. take n (msg ++ tag)) size ∙ take-append msg tag))
  where
    size : length (msg ++ tag) - 16 ≡ length msg
    size = omega (arith, length-append msg tag)

abbrev pub tagging : Aead
tagging = record {
  encrypt = λ c key nonce aad msg. some (msg ++ tag);
  decrypt = λ c key nonce aad sealed. some (take (length sealed - 16) sealed);
  decrypt-encrypt = λ c key nonce aad msg sealed e. untagged msg sealed e;
  length-encrypt = λ c key nonce aad msg sealed e. tagged-length msg sealed e;
}

abbrev pub base_bytes : Bytes
base_bytes = 0 ∷ 1 ∷ 2 ∷ 3 ∷ 4 ∷ 5 ∷ 6 ∷ 7 ∷ []

abbrev pub sample : FileCipher
sample = record { chunk_size = 4; mode = encrypted aes256_gcm (replicate 32 9) base_bytes }

abbrev pub sample_block : ChunkedBlock
sample_block = record {
  v = 1;
  cipher = aes256_gcm;
  key = some (replicate 32 9);
  nonce_base = some base_bytes;
  chunk_size = 4;
  file_size = some 10;
  name = some (97 ∷ []);
  mimetype = none;
  sha256 = none;
}

accepted_run : check_as_event_block sample_block ≡ ok tt
unfolding check_as_event_block check_shared_rules is_encrypting
accepted_run = refl

sealed_run : seal_chunk tagging sample 2 (7 ∷ 8 ∷ []) ≡ ok (7 ∷ 8 ∷ tag)
unfolding seal_chunk seal_with_index cipher_seal
sealed_run = refl

described_run : seal_description tagging sample seal (123 ∷ 125 ∷ []) ≡ ok (123 ∷ 125 ∷ tag)
unfolding seal_description seal_with_index cipher_seal
described_run = refl

check_as_event_block_iff_example :
    (check_as_event_block sample_block ≡ ok tt) ↔ IsEventBlock sample_block
check_as_event_block_iff_example = check_as_event_block_iff sample_block

abbrev pub other_description : ChunkedBlock
other_description = record sample_block { key = none; file_size = none; name = none }

consistent_run : is_consistent_with_description sample_block other_description ≡ true
unfolding is_consistent_with_description cipher_eq option_eq text_eq sizes_agree both_or_absent
consistent_run = refl

consistent-Agrees_example : Agrees sample_block other_description
consistent-Agrees_example = consistent-Agrees sample_block other_description consistent_run

to_event_block-from_event_block_example :
    (f : FileCipher) × (from_event_block sample_block ≡ ok f)
    × (to_event_block f 10 ≡ record sample_block { name = none; mimetype = none; sha256 = none })
to_event_block-from_event_block_example =
    to_event_block-from_event_block sample_block 10 accepted_run refl

pub sample-IsSound : IsSound sample
unfolding is_encrypting
sample-IsSound = refl

open_chunk-seal_chunk_example :
    (length (7 ∷ 8 ∷ tag) ≡ sealed_len sample 2)
    × (open_chunk tagging sample 2 (7 ∷ 8 ∷ tag) 2 ≡ ok (7 ∷ 8 ∷ []))
open_chunk-seal_chunk_example =
    open_chunk-seal_chunk tagging sample 2 (7 ∷ 8 ∷ []) (7 ∷ 8 ∷ tag) sample-IsSound sealed_run

seal_one_run : seal_one tagging sample (chunk 2) (7 ∷ 8 ∷ []) ≡ ok (7 ∷ 8 ∷ tag)
unfolding seal_one
seal_one_run = sealed_run

seal_one-distinct_example :
    (◌≡◌ {A = Sealed} (chunk 2) (chunk 2))
    × (cipher_seal tagging aes256_gcm
          (replicate 32 9)
          (build_nonce base_bytes 2)
          chunk_aad
          (7 ∷ 8 ∷ [])
        ≡ ok (7 ∷ 8 ∷ tag))
    × (cipher_seal tagging aes256_gcm
          (replicate 32 9)
          (build_nonce base_bytes 2)
          chunk_aad
          (7 ∷ 8 ∷ [])
        ≡ ok (7 ∷ 8 ∷ tag))
seal_one-distinct_example =
    seal_one-distinct tagging sample aes256_gcm (replicate 32 9) base_bytes (chunk 2) (chunk 2)
      (7 ∷ 8 ∷ []) (7 ∷ 8 ∷ []) (7 ∷ 8 ∷ tag) (7 ∷ 8 ∷ tag) refl seal_one_run seal_one_run refl
