-- ===== src/Media/FileCipher/Parameters.antt =====
-- A file's parameters and its event block carry one another (crates/wbf-sdk/src/chunk_crypto.rs).
use wbf_matrix_client.Common.{
  ℕ, ◌≡◌, ◌≢◌, refl, sym, ap, ◌∙◌, ◌>>=◌, arith, Option, none, some, is_some, ok, >>=-eq-ok,
  ok_injective, subst,
}
use wbf_matrix_client.Common.Bytes.{Bytes}
use wbf_matrix_client.Media.Cipher.{
  Cipher, cha_cha20_poly1305, aes256_gcm, none_cipher, is_encrypting,
}
use wbf_matrix_client.Media.Block.{ChunkedBlock, check_as_event_block, check_shared_rules}
use wbf_matrix_client.Media.Block.Checks.{check_as_event_block_iff}
use wbf_matrix_client.Media.FileCipher.{
  FileCipher, Mode, plain, encrypted, mode_of, from_event_block, generate, mode_cipher, mode_key,
  mode_nonce_base, to_event_block, IsSound, IsSoundMode,
}

-- The parameters of a block, where its key and its nonce base stand as its cipher wants them.
mode_of_total :
    (c : Cipher) (k b : Option Bytes)
    → is_some k ≡ is_encrypting c
    → is_some b ≡ is_encrypting c
    → (m : Mode) × (mode_of c k b ≡ ok m)
      × (mode_cipher m ≡ c)
      × (mode_key m ≡ k)
      × (mode_nonce_base m ≡ b)
unfolding mode_of mode_cipher mode_key mode_nonce_base is_encrypting
mode_of_total none_cipher none none hk hb = (plain, refl, refl, refl, refl)
mode_of_total none_cipher none (some b) hk hb = cc
mode_of_total none_cipher (some k) b hk hb = cc
mode_of_total cha_cha20_poly1305 (some k) (some b) hk hb =
    (encrypted cha_cha20_poly1305 k b, refl, refl, refl, refl)
mode_of_total cha_cha20_poly1305 (some k) none hk hb = cc
mode_of_total cha_cha20_poly1305 none b hk hb = cc
mode_of_total aes256_gcm (some k) (some b) hk hb =
    (encrypted aes256_gcm k b, refl, refl, refl, refl)
mode_of_total aes256_gcm (some k) none hk hb = cc
mode_of_total aes256_gcm none b hk hb = cc

-- Every block of a known size that `check_as_event_block` accepts gives parameters, and the block
-- that these write is the same without a name, a MIME type and a hash.
pub to_event_block-from_event_block :
    (b : ChunkedBlock) (size : ℕ)
    → check_as_event_block b ≡ ok tt
    → b.file_size ≡ some size
    → (f : FileCipher) × (from_event_block b ≡ ok f)
      × (to_event_block f size ≡ record b { name = none; mimetype = none; sha256 = none })
unfolding from_event_block to_event_block
to_event_block-from_event_block b size h hs =
    let i = (check_as_event_block_iff b).0 h in
    let (m, e, c, k, n) = mode_of_total b.cipher b.key b.nonce_base i.keyed i.based in
    (
      record { chunk_size = b.chunk_size; mode = m },
      ground (arith, h, e),
      ground (arith, i.version_one, c, k, n),
    )

mode_of-IsSoundMode :
    (c : Cipher) (k b : Option Bytes) (m : Mode) → mode_of c k b ≡ ok m → IsSoundMode m
unfolding mode_of is_encrypting
mode_of-IsSoundMode none_cipher none none plain h = tt
mode_of-IsSoundMode none_cipher none none (encrypted c k n) h = cc
mode_of-IsSoundMode none_cipher none (some b) m h = cc
mode_of-IsSoundMode none_cipher (some k) b m h = cc
mode_of-IsSoundMode c (some k) (some b) plain h = tt
mode_of-IsSoundMode c (some k) (some b) (encrypted c' k' b') h = ground arith
mode_of-IsSoundMode c (some k) none m h = cc
mode_of-IsSoundMode c none b m h = cc

-- Parameters that a block gave are sound, and their chunks are not empty.
pub from_event_block-IsSound :
    (b : ChunkedBlock) (f : FileCipher)
    → from_event_block b ≡ ok f
    → IsSound f
      × (f.chunk_size ≢ 0)
      × (check_as_event_block b ≡ ok tt)
      × (f.chunk_size ≡ b.chunk_size)
unfolding from_event_block
from_event_block-IsSound b f h =
    let (u, accepted, rest) = >>=-eq-ok (check_as_event_block b) _ h in
    let (m, built, same) = >>=-eq-ok (mode_of b.cipher b.key b.nonce_base) _ rest in
    let i = (check_as_event_block_iff b).0 accepted in
    (
      subst IsSoundMode (ground arith) (mode_of-IsSoundMode b.cipher b.key b.nonce_base m built),
      ground (arith, i.chunks),
      accepted,
      ground arith,
    )

-- Parameters that a block gave have its chunk size, its cipher, its key and its nonce base.
pub from_event_block-mode :
    (b : ChunkedBlock) (f : FileCipher)
    → from_event_block b ≡ ok f
    → (f.chunk_size ≡ b.chunk_size)
      × (mode_cipher f.mode ≡ b.cipher)
      × (mode_key f.mode ≡ b.key)
      × (mode_nonce_base f.mode ≡ b.nonce_base)
unfolding from_event_block
from_event_block-mode b f h =
    let (u, accepted, rest) = >>=-eq-ok (check_as_event_block b) _ h in
    let i = (check_as_event_block_iff b).0 accepted in
    let (m, built, c, k, n) = mode_of_total b.cipher b.key b.nonce_base i.keyed i.based in
    subst
      (λ g.
        (g.chunk_size ≡ b.chunk_size)
        × (mode_cipher g.mode ≡ b.cipher)
        × (mode_key g.mode ≡ b.key)
        × (mode_nonce_base g.mode ≡ b.nonce_base))
      (ok_injective (
        sym (ap (λ r. r >>= λ mode. ok (record { chunk_size = b.chunk_size; mode = mode })) built)
        ∙ rest))
      (refl, c, k, n)

abbrev Made : Cipher → ℕ → FileCipher → Type 0
Made c cs f = IsSound f × (f.chunk_size ≡ cs) × (mode_cipher f.mode ≡ c)

-- Fresh parameters are sound too, and have the cipher and the chunk size that were asked for.
pub generate-IsSound :
    (c : Cipher) (cs : ℕ) (k b : Option Bytes) (f : FileCipher)
    → generate c cs k b ≡ ok f
    → IsSound f × (f.chunk_size ≡ cs) × (mode_cipher f.mode ≡ c)
unfolding generate is_encrypting mode_cipher
generate-IsSound none_cipher cs k b f h =
    subst (Made none_cipher cs) (ok_injective h) (tt, refl, refl)
generate-IsSound c cs none b f h = cc
generate-IsSound c cs (some k) none f h = cc
generate-IsSound c cs (some k) (some b) f h = subst (Made c cs) (ok_injective h) (refl, refl, refl)

from_written_block :
    (cs size : ℕ) (m : Mode)
    → IsSoundMode m
    → cs ≢ 0
    → from_event_block (to_event_block (record { chunk_size = cs; mode = m }) size)
      ≡ ok (record { chunk_size = cs; mode = m })
unfolding from_event_block to_event_block check_as_event_block check_shared_rules mode_of
    mode_cipher mode_key mode_nonce_base is_encrypting
from_written_block cs size plain s h = ground arith
from_written_block cs size (encrypted none_cipher k b) s h = cc
from_written_block cs size (encrypted cha_cha20_poly1305 k b) s h = ground arith
from_written_block cs size (encrypted aes256_gcm k b) s h = ground arith

-- The block that sound parameters with a chunk size other than 0 write is accepted and gives them
-- back.
pub from_event_block-to_event_block :
    (f : FileCipher) (size : ℕ)
    → IsSound f
    → f.chunk_size ≢ 0
    → from_event_block (to_event_block f size) ≡ ok f
from_event_block-to_event_block f size s h = from_written_block f.chunk_size size f.mode s h
