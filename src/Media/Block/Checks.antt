-- ===== src/Media/Block/Checks.antt =====
-- What the checks of crates/wbf-sdk/src/chunk_block.rs accept.
use wbf_matrix_client.Common.{
  ℕ, ◌≡◌, ◌≢◌, ◌↔◌, refl, arith, true, Option, none, some, [], ◌∷◌, ok, is_some,
}
use wbf_matrix_client.Common.Bytes.{Bytes}
use wbf_matrix_client.Media.Cipher.{Cipher, is_encrypting}
use wbf_matrix_client.Media.Block.{
  ChunkedBlock, Text, check_shared_rules, check_as_event_block, check_as_description,
  to_description, text_eq, cipher_eq, option_eq, both_or_absent, sizes_agree,
  is_consistent_with_description,
}

-- The event blocks of §3.1 and §4 of the convention: version 1, chunks that are not empty, a known
-- size, and the key and the nonce base exactly of an encrypted file.
pub record IsEventBlock (b : ChunkedBlock) : Type 0 where
  pub version_one : b.v ≡ 1
  pub chunks : b.chunk_size ≢ 0
  pub sized : is_some b.file_size ≡ true
  pub keyed : is_some b.key ≡ is_encrypting b.cipher
  pub based : is_some b.nonce_base ≡ is_encrypting b.cipher

-- `check_as_event_block` accepts exactly the blocks of version 1 whose chunks are not empty, whose
-- size is known, and that have a key and a nonce base exactly if they are encrypted.
pub check_as_event_block_iff :
    (b : ChunkedBlock) → (check_as_event_block b ≡ ok tt) ↔ IsEventBlock b
unfolding check_as_event_block check_shared_rules
check_as_event_block_iff b = (λ h. ground arith, λ i. ground arith)

pub text_eq_self : (t : Text) → text_eq t t ≡ true
unfolding text_eq
text_eq_self [] = refl
text_eq_self (x ∷ xs) = ground (arith, text_eq_self xs)

pub text_eq→eq : (s t : Text) → text_eq s t ≡ true → s ≡ t
unfolding text_eq
text_eq→eq [] [] h = refl
text_eq→eq [] (y ∷ ys) h = cc
text_eq→eq (x ∷ xs) [] h = cc
text_eq→eq (x ∷ xs) (y ∷ ys) h = ground (arith, text_eq→eq xs ys)

cipher_eq→eq : (a b : Cipher) → cipher_eq a b ≡ true → a ≡ b
unfolding cipher_eq
cipher_eq→eq a b h = ground arith

cipher_eq_self : (a : Cipher) → cipher_eq a a ≡ true
unfolding cipher_eq
cipher_eq_self a = ground arith

option_eq→eq : (a b : Option Bytes) → option_eq a b ≡ true → a ≡ b
unfolding option_eq
option_eq→eq none none h = refl
option_eq→eq none (some b) h = cc
option_eq→eq (some a) none h = cc
option_eq→eq (some a) (some b) h = cc (text_eq→eq a b h)

option_eq_self : (a : Option Bytes) → option_eq a a ≡ true
unfolding option_eq
option_eq_self none = refl
option_eq_self (some a) = text_eq_self a

both_or_absent_self : (a : Option Text) → both_or_absent a a ≡ true
unfolding both_or_absent
both_or_absent_self none = refl
both_or_absent_self (some a) = text_eq_self a

both_or_absent→eq :
    (a b : Option Text) {s t : Text} → both_or_absent a b ≡ true → a ≡ some s → b ≡ some t → s ≡ t
unfolding both_or_absent
both_or_absent→eq none b h p q = cc
both_or_absent→eq (some s) none h p q = cc
both_or_absent→eq (some s) (some t) h p q = cc (text_eq→eq s t h, p, q)

-- The description of an accepted event block is an accepted description without a key, and the
-- event block is consistent with it.
pub to_description_accepted :
    (b : ChunkedBlock)
    → check_as_event_block b ≡ ok tt
    → (check_as_description (to_description b) ≡ ok tt)
      × ((to_description b).key ≡ none)
      × (is_consistent_with_description b (to_description b) ≡ true)
unfolding check_as_description check_shared_rules to_description is_consistent_with_description
    sizes_agree
to_description_accepted b h =
    let i = (check_as_event_block_iff b).0 h in
    (
      ground arith,
      refl,
      ground (
        arith,
        cipher_eq_self b.cipher,
        option_eq_self b.nonce_base,
        both_or_absent_self b.name,
        both_or_absent_self b.mimetype,
        both_or_absent_self b.sha256,
      ),
    )

-- What two blocks of one file have in common.
pub record Agrees (b d : ChunkedBlock) : Type 0 where
  pub same_v : b.v ≡ d.v
  pub same_cipher : b.cipher ≡ d.cipher
  pub same_base : b.nonce_base ≡ d.nonce_base
  pub same_chunks : b.chunk_size ≡ d.chunk_size
  pub same_size : (m n : ℕ) → b.file_size ≡ some m → d.file_size ≡ some n → m ≡ n
  pub same_name : (s t : Text) → b.name ≡ some s → d.name ≡ some t → s ≡ t
  pub same_mimetype : (s t : Text) → b.mimetype ≡ some s → d.mimetype ≡ some t → s ≡ t
  pub same_sha256 : (s t : Text) → b.sha256 ≡ some s → d.sha256 ≡ some t → s ≡ t

-- A description that an event block is consistent with has its version, its cipher, its nonce base
-- and its chunk size; a size, a name, a MIME type and a hash that both have are the same.
pub consistent-Agrees :
    (b d : ChunkedBlock) → is_consistent_with_description b d ≡ true → Agrees b d
unfolding is_consistent_with_description sizes_agree
consistent-Agrees b d h = record {
  same_v = ground arith;
  same_cipher = ground (arith, cipher_eq→eq b.cipher d.cipher);
  same_base = ground (arith, option_eq→eq b.nonce_base d.nonce_base);
  same_chunks = ground arith;
  same_size = λ m n p q. ground arith;
  same_name = λ s t p q. both_or_absent→eq b.name d.name (ground arith) p q;
  same_mimetype = λ s t p q. both_or_absent→eq b.mimetype d.mimetype (ground arith) p q;
  same_sha256 = λ s t p q. both_or_absent→eq b.sha256 d.sha256 (ground arith) p q;
}
