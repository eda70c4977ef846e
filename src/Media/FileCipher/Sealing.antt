-- ===== src/Media/FileCipher/Sealing.antt =====
-- Opening what was sealed (crates/wbf-sdk/src/chunk_crypto.rs), and the lengths on the wire.
use wbf_matrix_client.Common.{ℕ, ◌≤◌, ◌≡◌, sym, ap, arith, some, ok, length, ok_injective}
use wbf_matrix_client.Common.Bytes.{Bytes}
use wbf_matrix_client.Media.Geometry.{max_chunk_index}
use wbf_matrix_client.Media.Cipher.{Aead, cipher_open-seal, length-cipher_seal}
use wbf_matrix_client.Media.FileCipher.{
  FileCipher, Mode, plain, encrypted, DescriptionSlot, nonce_index, chunk_aad, description_aad,
  build_nonce, seal_with_index, open_with_index, seal_chunk, open_chunk, seal_description,
  open_description, sealed_len, mode_sealed_len, IsSound, IsSoundMode,
}

module _ (a : Aead) where
  open_with_index-seal :
      (m : Mode) (i : ℕ) (aad text sealed : Bytes)
      → seal_with_index a m i aad text ≡ ok sealed
      → open_with_index a m i aad sealed ≡ some text
  unfolding seal_with_index open_with_index
  open_with_index-seal plain i aad text sealed h = cc
  open_with_index-seal (encrypted c k b) i aad text sealed h =
      cipher_open-seal a c k (build_nonce b i) aad text sealed h

  length-seal_with_index :
      (m : Mode) (i : ℕ) (aad text sealed : Bytes)
      → IsSoundMode m
      → seal_with_index a m i aad text ≡ ok sealed
      → length sealed ≡ mode_sealed_len m (length text)
  unfolding seal_with_index mode_sealed_len
  length-seal_with_index plain i aad text sealed s h = ap length (sym (ok_injective h))
  length-seal_with_index (encrypted c k b) i aad text sealed s h =
      length-cipher_seal a c k (build_nonce b i) aad text sealed s h

  -- Under sound parameters a sealed chunk has the length that `sealed_len` says and opens to its
  -- text at its own index.
  pub open_chunk-seal_chunk :
      (f : FileCipher) (i : ℕ) (text sealed : Bytes)
      → IsSound f
      → seal_chunk a f i text ≡ ok sealed
      → (length sealed ≡ sealed_len f (length text))
        × (open_chunk a f i sealed (length text) ≡ ok text)
  unfolding seal_chunk open_chunk sealed_len
  open_chunk-seal_chunk f i text sealed s h =
      let inner : seal_with_index a f.mode i chunk_aad text ≡ ok sealed = ground arith in
      let size = length-seal_with_index f.mode i chunk_aad text sealed s inner in
      let opened = open_with_index-seal f.mode i chunk_aad text sealed inner in
      (size, ground (arith, size, opened))

  -- What `open_chunk` returns has the expected length, came from a frame of the sealed length, and
  -- never from a reserved index.
  pub open_chunk_exact :
      (f : FileCipher) (i n : ℕ) (sealed text : Bytes)
      → open_chunk a f i sealed n ≡ ok text
      → (length text ≡ n) × (length sealed ≡ sealed_len f n) × (i ≤ max_chunk_index)
  unfolding open_chunk
  open_chunk_exact f i n sealed text h = ground arith

  -- A description opens in the slot that it was sealed in.
  pub open_description-seal_description :
      (f : FileCipher) (slot : DescriptionSlot) (json sealed : Bytes)
      → seal_description a f slot json ≡ ok sealed
      → open_description a f slot sealed ≡ ok json
  unfolding seal_description open_description
  open_description-seal_description f slot json sealed h =
      let opened = open_with_index-seal f.mode (nonce_index slot) description_aad json sealed h in
      ground (arith, opened)
