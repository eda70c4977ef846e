-- ===== src/Media/Download/Info.antt =====
-- What `verify_info` has checked when it accepts (crates/wbf-sdk/src/download.rs).
use wbf_matrix_client.Common.{
  ℕ, ◌≡◌, ◌≢◌, ◌⊎◌, ap, subst, arith, Option, none, some, Result, ok, err, >>=-eq-ok, ok_injective,
  true, ◌==◌, ok_or, refuse, length,
}
use wbf_matrix_client.Common.Bytes.{Bytes}
use wbf_matrix_client.Media.Geometry.{chunk_count}
use wbf_matrix_client.Media.Cipher.{Aead}
use wbf_matrix_client.Media.Block.{ChunkedBlock, check_as_description, check_as_event_block}
use wbf_matrix_client.Media.Block.Checks.{Agrees, check_as_event_block_iff, consistent-Agrees}
use wbf_matrix_client.Media.FileCipher.{
  FileCipher, IsSound, create, seal, from_event_block, open_description, mode_cipher, mode_key,
  mode_nonce_base,
}
use wbf_matrix_client.Media.FileCipher.Parameters.{from_event_block-IsSound, from_event_block-mode}
use wbf_matrix_client.Media.Download.{
  InfoAck, VerifiedTarget, integrity, check_description, check_info_against_block, from_block,
  is_true, manifest_file_size, open_either, sizes_differ, verify_info,
}

-- The server's `Info` and the event block tell the same of the file.
pub record InfoAgrees (info : InfoAck) (block : ChunkedBlock) (count : ℕ) : Type 0 where
  pub same_chunk_size : info.chunk_size ≡ some block.chunk_size
  pub same_count : info.chunk_count ≡ some count
  pub same_size : (m n : ℕ) → info.file_size ≡ some m → block.file_size ≡ some n → m ≡ n
  pub complete : info.truncated ≢ some true

info_sound :
    (info : InfoAck) (block : ChunkedBlock) (count : ℕ)
    → check_info_against_block info block count ≡ ok tt
    → InfoAgrees info block count
unfolding check_info_against_block sizes_differ is_true
info_sound info block count h = record {
  same_chunk_size = ground arith;
  same_count = ground arith;
  same_size = λ m n p q. ground arith;
  complete = λ e. ground arith;
}

-- A description that the file's key opens, in one of its two slots, and that says of the file what
-- the event block says, without giving the key away.
pub record Describes (a : Aead) (parse : Bytes → Option ChunkedBlock) (f : FileCipher)
    (block : ChunkedBlock) (sealed : Bytes) : Type 0 where
  pub json : Bytes
  pub description : ChunkedBlock
  pub opened :
      (open_description a f seal sealed ≡ ok json) ⊎ (open_description a f create sealed ≡ ok json)
  pub parsed : parse json ≡ some description
  pub keyless : description.key ≡ none
  pub agrees : Agrees block description

open_either_sound :
    (a : Aead) (f : FileCipher) (sealed json : Bytes)
    → open_either a f sealed ≡ ok json
    → (open_description a f seal sealed ≡ ok json) ⊎ (open_description a f create sealed ≡ ok json)
unfolding open_either
open_either_sound a f sealed json h = ground arith

keyless_description :
    (d : ChunkedBlock) → from_block (check_as_description d) ≡ ok tt → d.key ≡ none
unfolding check_as_description
keyless_description d h = ground arith

check_description_sound :
    (a : Aead) (parse : Bytes → Option ChunkedBlock) (f : FileCipher) (block : ChunkedBlock)
    (sealed : Bytes)
    → check_description a parse f block sealed ≡ ok tt
    → Describes a parse f block sealed
unfolding check_description
check_description_sound a parse f block sealed h =
    let (u, full, h1) = >>=-eq-ok (refuse (length sealed == 0) integrity) _ h in
    let (text, opened, h2) = >>=-eq-ok (open_either a f sealed) _ h1 in
    let (d, read, h3) = >>=-eq-ok (ok_or (parse text) integrity) _ h2 in
    let (v, checked, consistent) = >>=-eq-ok (from_block (check_as_description d)) _ h3 in
    record {
      json = text;
      description = d;
      opened = open_either_sound a f sealed text opened;
      parsed = ground arith;
      keyless = keyless_description d checked;
      agrees = consistent-Agrees block d (ground arith);
    }

from_block-eq-ok {ℓ} : {A : Type ℓ} (r : Result _ A) {x : A} → from_block r ≡ ok x → r ≡ ok x
from_block-eq-ok (ok x) h = ap ok (ok_injective h)
from_block-eq-ok (err e) h = cc

manifest_sized :
    (b : ChunkedBlock) → check_as_event_block b ≡ ok tt → b.file_size ≡ some (manifest_file_size b)
unfolding manifest_file_size
manifest_sized b accepted = let i = (check_as_event_block_iff b).0 accepted in ground arith

-- What is known of a file once `verify_info` accepts it.
pub record IsVerified (a : Aead) (parse : Bytes → Option ChunkedBlock) (block : ChunkedBlock)
    (info : InfoAck) (sealed : Bytes) (target : VerifiedTarget) : Type 0 where
  pub sound : IsSound target.file_cipher
  pub chunked : target.file_cipher.chunk_size ≡ block.chunk_size
  pub ciphered : mode_cipher target.file_cipher.mode ≡ block.cipher
  pub keyed : mode_key target.file_cipher.mode ≡ block.key
  pub based : mode_nonce_base target.file_cipher.mode ≡ block.nonce_base
  pub sized : block.file_size ≡ some target.file_size
  pub counted : chunk_count target.file_size block.chunk_size ≡ some target.chunk_count
  pub informed : InfoAgrees info block target.chunk_count
  pub described : Describes a parse target.file_cipher block sealed

-- `verify_info` accepts only a block of a known size; with the server's chunk size and count, and
-- its size where it tells one, those of the block; of an upload that is not truncated; and with a
-- description that the parameters which it returns open, that has no key, and that agrees with the
-- block. These parameters have the chunk size, the cipher, the key and the nonce base of the block,
-- and are sound: those of a file in the clear or under a cipher that encrypts.
pub verify_info_sound :
    (a : Aead) (parse : Bytes → Option ChunkedBlock) (block : ChunkedBlock) (info : InfoAck)
    (sealed : Bytes) (target : VerifiedTarget)
    → verify_info a parse block info sealed ≡ ok target
    → IsVerified a parse block info sealed target
unfolding verify_info
verify_info_sound a parse block info sealed target h =
    let (f, made, h1) = >>=-eq-ok (from_block (from_event_block block)) _ h in
    let (count, counted, h2) =
      >>=-eq-ok (ok_or (chunk_count (manifest_file_size block) block.chunk_size) integrity) _ h1 in
    let (u, informed, h3) = >>=-eq-ok (check_info_against_block info block count) _ h2 in
    let (v, described, h4) = >>=-eq-ok (check_description a parse f block sealed) _ h3 in
    let (s, _, accepted, _) =
      from_event_block-IsSound block f (from_block-eq-ok (from_event_block block) made) in
    let (chunks, cipher, key, base) =
      from_event_block-mode block f (from_block-eq-ok (from_event_block block) made) in
    subst (IsVerified a parse block info sealed) (ok_injective h4) (record {
      sound = s;
      chunked = chunks;
      ciphered = cipher;
      keyed = key;
      based = base;
      sized = manifest_sized block accepted;
      counted = ground arith;
      informed = info_sound info block count informed;
      described = check_description_sound a parse f block sealed described;
    })
