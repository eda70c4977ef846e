-- ===== src/Media/Block.antt =====
-- crates/wbf-sdk/src/chunk_block.rs: the event block of a chunked file, which without its key is the
-- file's description. Texts are lists of code points; JSON and base64 are of third-party crates.
pub mod Checks
use wbf_matrix_client.Common.{
  ℕ, Bool, true, false, not, ◌&&◌, Option, none, some, List, [], ◌∷◌, ◌==◌, Result, ok, err, ◌>>◌,
  ◌>>=◌, refuse, if◌then◌else◌, is_some,
}
use wbf_matrix_client.Common.Bytes.{Bytes}
use wbf_matrix_client.Media.Cipher.{
  Cipher, cha_cha20_poly1305, aes256_gcm, none_cipher, is_encrypting,
}

abbrev pub convention_v : ℕ
convention_v = 1

abbrev pub Text : Type 0
Text = List ℕ

pub record ChunkedBlock : Type 0 where
  pub v : ℕ
  pub cipher : Cipher
  pub key : Option Bytes
  pub nonce_base : Option Bytes
  pub chunk_size : ℕ
  pub file_size : Option ℕ
  pub name : Option Text
  pub mimetype : Option Text
  pub sha256 : Option Text

pub data BlockError : Type 0 where
  unknown_version : ℕ → BlockError
  missing_key unexpected_key missing_nonce_base unexpected_nonce_base : BlockError
  chunk_size_zero missing_file_size : BlockError

unfoldable pub check_shared_rules : ChunkedBlock → Result BlockError (Unit {0})
check_shared_rules b = do
  refuse (not (b.v == convention_v)) (unknown_version b.v)
  refuse (b.chunk_size == 0) chunk_size_zero
  if is_encrypting b.cipher
      then refuse (not (is_some b.nonce_base)) missing_nonce_base
      else (refuse (is_some b.key) unexpected_key
          >> refuse (is_some b.nonce_base) unexpected_nonce_base)

unfoldable pub check_as_event_block : ChunkedBlock → Result BlockError (Unit {0})
check_as_event_block b = do
  check_shared_rules b
  refuse (is_encrypting b.cipher && not (is_some b.key)) missing_key
  refuse (not (is_some b.file_size)) missing_file_size

unfoldable pub check_as_description : ChunkedBlock → Result BlockError (Unit {0})
check_as_description b = do check_shared_rules b; refuse (is_some b.key) unexpected_key

unfoldable pub to_description : ChunkedBlock → ChunkedBlock
to_description b = record b { key = none }

-- `==` of the derived `PartialEq` on the parts.
unfoldable pub text_eq : List ℕ → List ℕ → Bool
text_eq [] [] = true
text_eq (x ∷ xs) (y ∷ ys) = (x == y) && text_eq xs ys
text_eq _ _ = false

unfoldable pub cipher_eq : Cipher → Cipher → Bool
cipher_eq cha_cha20_poly1305 cha_cha20_poly1305 = true
cipher_eq aes256_gcm aes256_gcm = true
cipher_eq none_cipher none_cipher = true
cipher_eq _ _ = false

unfoldable pub option_eq : Option Bytes → Option Bytes → Bool
option_eq none none = true
option_eq (some a) (some b) = text_eq a b
option_eq _ _ = false

-- Two optional fields agree unless both are there and differ.
unfoldable pub both_or_absent : Option Text → Option Text → Bool
both_or_absent (some a) (some b) = text_eq a b
both_or_absent _ _ = true

unfoldable pub sizes_agree : Option ℕ → Option ℕ → Bool
sizes_agree (some a) (some b) = a == b
sizes_agree _ _ = true

unfoldable pub is_consistent_with_description : ChunkedBlock → ChunkedBlock → Bool
is_consistent_with_description mine theirs =
    (mine.v == theirs.v)
    && cipher_eq mine.cipher theirs.cipher
    && option_eq mine.nonce_base theirs.nonce_base
    && (mine.chunk_size == theirs.chunk_size)
    && sizes_agree mine.file_size theirs.file_size
    && both_or_absent mine.name theirs.name
    && both_or_absent mine.mimetype theirs.mimetype
    && both_or_absent mine.sha256 theirs.sha256
