-- ===== src/Media/FileCipher.antt =====
-- crates/wbf-sdk/src/chunk_crypto.rs, `FileCipher`: the parameters under which the chunks and the
-- two descriptions of one file are sealed. Randomness is an argument.
pub mod Parameters
pub mod Sealing
pub mod Nonces
use wbf_matrix_client.Common.{
  ℕ, ◌+◌, ◌≡◌, ◌≢◌, Bool, true, false, not, Option, none, some, List, [], ◌∷◌, ◌++◌, ltb, ◌==◌,
  length, Result, ok, err, ◌>>=◌, ◌>>◌, ok_or, refuse, if◌then◌else◌,
}
use wbf_matrix_client.Common.Bytes.{Bytes, to_be_bytes}
use wbf_matrix_client.Media.Cipher.{
  Cipher, cha_cha20_poly1305, aes256_gcm, none_cipher, is_encrypting, tag_len, Aead, CryptoError,
  index_reserved, length_mismatch, tag_invalid, chunk_too_long, no_randomness, cipher_seal,
  cipher_open,
}
use wbf_matrix_client.Media.Block.{
  ChunkedBlock, BlockError, missing_key, unexpected_key, missing_nonce_base, unexpected_nonce_base,
  check_as_event_block, convention_v,
}
use wbf_matrix_client.Media.Geometry.{max_chunk_index}

-- The bytes of "wbf-chunk-v1" and of "wbf-desc-v1".
abbrev pub chunk_aad : Bytes
chunk_aad = 119 ∷ 98 ∷ 102 ∷ 45 ∷ 99 ∷ 104 ∷ 117 ∷ 110 ∷ 107 ∷ 45 ∷ 118 ∷ 49 ∷ []

abbrev pub description_aad : Bytes
description_aad = 119 ∷ 98 ∷ 102 ∷ 45 ∷ 100 ∷ 101 ∷ 115 ∷ 99 ∷ 45 ∷ 118 ∷ 49 ∷ []

pub data DescriptionSlot : Type 0 where
  create seal : DescriptionSlot

unfoldable pub nonce_index : DescriptionSlot → ℕ
nonce_index create = 0xFFFF_FFFF
nonce_index seal = 0xFFFF_FFFE

pub data Mode : Type 0 where
  plain : Mode
  encrypted : Cipher → Bytes → Bytes → Mode

pub record FileCipher : Type 0 where
  pub chunk_size : ℕ
  pub mode : Mode

-- The match on the cipher, the key and the nonce base.
unfoldable pub mode_of : Cipher → Option Bytes → Option Bytes → Result BlockError Mode
mode_of none_cipher none none = ok plain
mode_of none_cipher (some key) base = err unexpected_key
mode_of none_cipher none (some base) = err unexpected_nonce_base
mode_of cipher (some key) (some base) = ok (encrypted cipher key base)
mode_of cipher none base = err missing_key
mode_of cipher (some key) none = err missing_nonce_base

unfoldable pub from_event_block : ChunkedBlock → Result BlockError FileCipher
from_event_block block = do
  check_as_event_block block
  mode ← mode_of block.cipher block.key block.nonce_base
  ok (record { chunk_size = block.chunk_size; mode = mode })

-- The two draws from the operating system, `none` where it fails.
unfoldable pub generate : Cipher → ℕ → Option Bytes → Option Bytes → Result CryptoError FileCipher
generate cipher chunk_size key_draw base_draw =
    if not (is_encrypting cipher)
    then ok (record { chunk_size = chunk_size; mode = plain })
    else (ok_or key_draw no_randomness >>= λ key. ok_or base_draw no_randomness >>= λ base.
        ok (record { chunk_size = chunk_size; mode = encrypted cipher key base }))

unfoldable pub with_fixed : Cipher → Bytes → Bytes → ℕ → FileCipher
with_fixed cipher key nonce_base chunk_size =
    if is_encrypting cipher
    then record { chunk_size = chunk_size; mode = encrypted cipher key nonce_base }
    else record { chunk_size = chunk_size; mode = plain }

unfoldable pub mode_cipher : Mode → Cipher
mode_cipher plain = none_cipher
mode_cipher (encrypted cipher key base) = cipher

unfoldable pub mode_key : Mode → Option Bytes
mode_key plain = none
mode_key (encrypted cipher key base) = some key

unfoldable pub mode_nonce_base : Mode → Option Bytes
mode_nonce_base plain = none
mode_nonce_base (encrypted cipher key base) = some base

unfoldable pub to_event_block : FileCipher → ℕ → ChunkedBlock
to_event_block f file_size = record {
  v = convention_v;
  cipher = mode_cipher f.mode;
  key = mode_key f.mode;
  nonce_base = mode_nonce_base f.mode;
  chunk_size = f.chunk_size;
  file_size = some file_size;
  name = none;
  mimetype = none;
  sha256 = none;
}

unfoldable pub build_nonce : Bytes → ℕ → Bytes
build_nonce nonce_base index = nonce_base ++ to_be_bytes 4 index

unfoldable pub mode_sealed_len : Mode → ℕ → ℕ
mode_sealed_len plain plain_len = plain_len
mode_sealed_len (encrypted cipher key base) plain_len = plain_len + tag_len

unfoldable pub sealed_len : FileCipher → ℕ → ℕ
sealed_len f plain_len = mode_sealed_len f.mode plain_len

module _ (a : Aead) where
  unfoldable pub seal_with_index : Mode → ℕ → Bytes → Bytes → Result CryptoError Bytes
  seal_with_index plain index aad text = ok text
  seal_with_index (encrypted cipher key base) index aad text =
      cipher_seal a cipher key (build_nonce base index) aad text

  unfoldable pub open_with_index : Mode → ℕ → Bytes → Bytes → Option Bytes
  open_with_index plain index aad sealed = some sealed
  open_with_index (encrypted cipher key base) index aad sealed =
      cipher_open a cipher key (build_nonce base index) aad sealed

  unfoldable pub seal_chunk : FileCipher → ℕ → Bytes → Result CryptoError Bytes
  seal_chunk f index text = do
    refuse (ltb max_chunk_index index) (index_reserved index)
    refuse (ltb f.chunk_size (length text)) (chunk_too_long f.chunk_size (length text))
    seal_with_index f.mode index chunk_aad text

  unfoldable pub open_chunk : FileCipher → ℕ → Bytes → ℕ → Result CryptoError Bytes
  open_chunk f index sealed expected = do
    refuse (ltb max_chunk_index index) (index_reserved index)
    refuse (not (length sealed == sealed_len f expected))
        (length_mismatch (sealed_len f expected) (length sealed))
    text ← ok_or (open_with_index f.mode index chunk_aad sealed) tag_invalid
    refuse (not (length text == expected)) (length_mismatch expected (length text))
    ok text

  unfoldable pub seal_description : FileCipher → DescriptionSlot → Bytes → Result CryptoError Bytes
  seal_description f slot json = seal_with_index f.mode (nonce_index slot) description_aad json

  unfoldable pub open_description : FileCipher → DescriptionSlot → Bytes → Result CryptoError Bytes
  open_description f slot sealed =
      ok_or (open_with_index f.mode (nonce_index slot) description_aad sealed) tag_invalid

-- The modes that the constructors build: an encrypted one has an encrypting cipher.
abbrev pub IsSoundMode : Mode → Type 0
IsSoundMode plain = Unit {0}
IsSoundMode (encrypted cipher key base) = is_encrypting cipher ≡ true

abbrev pub IsSound : FileCipher → Type 0
IsSound f = IsSoundMode f.mode
