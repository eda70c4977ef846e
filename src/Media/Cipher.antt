-- ===== src/Media/Cipher.antt =====
-- crates/wbf-sdk/src/cipher.rs: the `cipher` field of a file, and one AEAD call. The two AEADs are of
-- third-party crates and enter as the record `Aead`; its laws are what those crates document.
use wbf_matrix_client.Common.{
  ℕ, ◌+◌, ◌≡◌, Bool, true, false, Option, some, length, Result, ok, ok_or, arith,
}
use wbf_matrix_client.Common.Bytes.{Bytes}

pub data Cipher : Type 0 where
  cha_cha20_poly1305 aes256_gcm none_cipher : Cipher

abbrev pub key_len : ℕ
key_len = 32

abbrev pub nonce_len : ℕ
nonce_len = 12

abbrev pub tag_len : ℕ
tag_len = 16

unfoldable pub is_encrypting : Cipher → Bool
is_encrypting none_cipher = false
is_encrypting cha_cha20_poly1305 = true
is_encrypting aes256_gcm = true

-- `is_hardware_aes_available` asks the processor: an argument.
unfoldable pub default_for_this_machine : Bool → Cipher
default_for_this_machine true = aes256_gcm
default_for_this_machine false = cha_cha20_poly1305

-- `encrypt` and `decrypt` of the crates `chacha20poly1305` and `aes_gcm`: key, nonce, associated
-- data, message. The result of `encrypt` carries the tag of 16 bytes behind the ciphertext.
pub record Aead : Type 0 where
  pub encrypt : Cipher → Bytes → Bytes → Bytes → Bytes → Option Bytes
  pub decrypt : Cipher → Bytes → Bytes → Bytes → Bytes → Option Bytes
  pub decrypt-encrypt :
      (c : Cipher) (key nonce aad msg sealed : Bytes)
      → encrypt c key nonce aad msg ≡ some sealed
      → decrypt c key nonce aad sealed ≡ some msg
  pub length-encrypt :
      (c : Cipher) (key nonce aad msg sealed : Bytes)
      → encrypt c key nonce aad msg ≡ some sealed
      → length sealed ≡ length msg + 16

pub data CryptoError : Type 0 where
  index_reserved : ℕ → CryptoError
  length_mismatch : ℕ → ℕ → CryptoError
  tag_invalid : CryptoError
  chunk_too_long : ℕ → ℕ → CryptoError
  seal_failed : CryptoError
  no_randomness : CryptoError

unfoldable pub cipher_seal :
    Aead → Cipher → Bytes → Bytes → Bytes → Bytes → Result CryptoError Bytes
cipher_seal a none_cipher key nonce aad plain = ok plain
cipher_seal a cha_cha20_poly1305 key nonce aad plain =
    ok_or (a.encrypt cha_cha20_poly1305 key nonce aad plain) seal_failed
cipher_seal a aes256_gcm key nonce aad plain =
    ok_or (a.encrypt aes256_gcm key nonce aad plain) seal_failed

unfoldable pub cipher_open : Aead → Cipher → Bytes → Bytes → Bytes → Bytes → Option Bytes
cipher_open a none_cipher key nonce aad sealed = some sealed
cipher_open a cha_cha20_poly1305 key nonce aad sealed =
    a.decrypt cha_cha20_poly1305 key nonce aad sealed
cipher_open a aes256_gcm key nonce aad sealed = a.decrypt aes256_gcm key nonce aad sealed

-- What one call seals, the other opens under the same key, nonce and associated data.
pub cipher_open-seal :
    (a : Aead) (c : Cipher) (key nonce aad plain sealed : Bytes)
    → cipher_seal a c key nonce aad plain ≡ ok sealed
    → cipher_open a c key nonce aad sealed ≡ some plain
unfolding cipher_seal cipher_open
cipher_open-seal a none_cipher key nonce aad plain sealed e = cc
cipher_open-seal a cha_cha20_poly1305 key nonce aad plain sealed e =
    a.decrypt-encrypt cha_cha20_poly1305 key nonce aad plain sealed (ground arith)
cipher_open-seal a aes256_gcm key nonce aad plain sealed e =
    a.decrypt-encrypt aes256_gcm key nonce aad plain sealed (ground arith)

pub length-cipher_seal :
    (a : Aead) (c : Cipher) (key nonce aad plain sealed : Bytes)
    → is_encrypting c ≡ true
    → cipher_seal a c key nonce aad plain ≡ ok sealed
    → length sealed ≡ length plain + tag_len
unfolding cipher_seal is_encrypting
length-cipher_seal a none_cipher key nonce aad plain sealed h e = cc
length-cipher_seal a cha_cha20_poly1305 key nonce aad plain sealed h e =
    a.length-encrypt cha_cha20_poly1305 key nonce aad plain sealed (ground arith)
length-cipher_seal a aes256_gcm key nonce aad plain sealed h e =
    a.length-encrypt aes256_gcm key nonce aad plain sealed (ground arith)
