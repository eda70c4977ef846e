-- ===== src/Daemon/RpcPack/Frames.antt =====
-- What one side seals the other opens, and which frames a side accepts (crates/wbf-daemon/src/pack.rs).
use wbf_matrix_client.Common.{
  ℕ, suc, ◌+◌, ◌≤◌, ◌≡◌, ◌↔◌, refl, sym, ap, ap₂, ◌∙◌, arith, not, Option, none, some, [], ◌∷◌,
  ◌++◌, ltb, ◌==◌, ok, ok_or, refuse, >>=-eq-ok, ok_injective, false, length, take, drop,
  take-append, drop-append, length-append, length-take, take-append-drop, subst,
}
use wbf_matrix_client.Common.Bytes.{Bytes}
use wbf_matrix_client.Daemon.RpcPack.{
  FrameCipher, PackType, plain, cipher, RpcKeys, Side, client, daemon, max_frame_bytes, open_frame,
  open_data, open_prefixed, receiving_key, rpc_aad, rpc_nonce_len, seal_frame, seal_data,
  sending_key, type_byte, type_from_byte, too_large, too_short, unknown_type, unknown_version,
  no_randomness, encrypt_failed, cannot_decrypt, pack_version,
}

abbrev pub other : Side → Side
other client = daemon
other daemon = client

receiving-sending :
    (keys : RpcKeys) (side : Side) → receiving_key keys (other side) ≡ sending_key keys side
unfolding receiving_key sending_key
receiving-sending keys client = refl
receiving-sending keys daemon = refl

type_from_byte-type_byte : (t : PackType) → type_from_byte (type_byte t) ≡ some t
unfolding type_from_byte type_byte
type_from_byte-type_byte plain = refl
type_from_byte-type_byte cipher = refl

type_from_byte-eq_some : (b : ℕ) (t : PackType) → type_from_byte b ≡ some t → b ≡ type_byte t
unfolding type_from_byte type_byte
type_from_byte-eq_some b t h = ground arith

-- The rest of a frame carries a message under a key.
abbrev pub Carries : FrameCipher → Bytes → PackType → Bytes → Bytes → Type 0
Carries x key plain payload json = payload ≡ json
Carries x key cipher payload json =
    (nonce : Bytes) × (ciphertext : Bytes) × (payload ≡ nonce ++ ciphertext)
    × (length nonce ≡ 24)
    × (x.decrypt key nonce rpc_aad ciphertext ≡ some json)

module _ (x : FrameCipher) (keys : RpcKeys) (side : Side) (draw : Option Bytes)
    (drawn : (nonce : Bytes) → draw ≡ some nonce → length nonce ≡ 24) where
  open_data-seal_data :
      (t : PackType) (json payload : Bytes)
      → seal_data x keys side draw t json ≡ ok payload
      → (open_data x keys (other side) t payload ≡ ok json) × (length payload ≤ length json + 40)
  unfolding seal_data open_data
  open_data-seal_data plain json payload e = (cc, ground arith)
  open_data-seal_data cipher json payload e =
      let (nonce, got, e1) = >>=-eq-ok (ok_or draw no_randomness) _ e in
      let (sealed, made, e2) =
        >>=-eq-ok (ok_or (x.encrypt (sending_key keys side) nonce rpc_aad json) encrypt_failed) _
          e1 in
      let random : draw ≡ some nonce = ground arith in
      let made' : x.encrypt (sending_key keys side) nonce rpc_aad json ≡ some sealed =
        ground arith in
      let same : payload ≡ nonce ++ sealed = sym (ok_injective e2) in
      let size : length nonce ≡ 24 = drawn nonce random in
      let front : take 24 (nonce ++ sealed) ≡ nonce =
        ap (λ k. take k (nonce ++ sealed)) (sym size) ∙ take-append nonce sealed in
      let back : drop 24 (nonce ++ sealed) ≡ sealed =
        ap (λ k. drop k (nonce ++ sealed)) (sym size) ∙ drop-append nonce sealed in
      let long : ltb (length (nonce ++ sealed)) 24 ≡ false =
        ground (arith, length-append nonce sealed) in
      let opened = x.decrypt-encrypt (sending_key keys side) nonce rpc_aad json sealed made' in
      let sealed_size = x.length-encrypt (sending_key keys side) nonce rpc_aad json sealed made' in
      (
        rw (same, long, front, back, receiving-sending keys side, opened) refl,
        omega (arith, ap length same, length-append nonce sealed, size, sealed_size),
      )

  -- With draws of 24 bytes, a frame that one side sealed, of a message that leaves 42 bytes of the
  -- limit for the frame, opens on the other side to the same type and the same bytes.
  pub open_frame-seal_frame :
      (t : PackType) (json frame : Bytes)
      → seal_frame x keys side draw t json ≡ ok frame
      → length json + 42 ≤ max_frame_bytes
      → open_frame x keys (other side) frame ≡ ok (t, json)
  unfolding seal_frame open_frame open_prefixed
  open_frame-seal_frame t json frame e fits =
      let (payload, made, e1) = >>=-eq-ok (seal_data x keys side draw t json) _ e in
      let (opened, size) = open_data-seal_data t json payload made in
      let same : frame ≡ pack_version ∷ type_byte t ∷ payload = sym (ok_injective e1) in
      let small : ltb max_frame_bytes (suc (suc (length payload))) ≡ false = ground (arith, size) in
      rw (same, small, type_from_byte-type_byte t, opened) refl

cut :
    (n : ℕ) (payload : Bytes)
    → n ≤ length payload
    → (P : Bytes → Bytes → Type 0) → P (take n payload) (drop n payload)
    → (front : Bytes) × (back : Bytes) × (payload ≡ front ++ back)
      × (length front ≡ n)
      × P front back
cut n payload long P p = (
  take n payload,
  drop n payload,
  sym (take-append-drop n payload),
  omega (arith, length-take n payload),
  p,
)

cipher_opened :
    (x : FrameCipher) (keys : RpcKeys) (side : Side) (payload json : Bytes)
    → open_data x keys side cipher payload ≡ ok json
    → (rpc_nonce_len ≤ length payload)
      × (x.decrypt
            (receiving_key keys side)
            (take rpc_nonce_len payload)
            rpc_aad
            (drop rpc_nonce_len payload)
          ≡ some json)
unfolding open_data
cipher_opened x keys side payload json h =
    let (u, long, rest) = >>=-eq-ok (refuse (ltb (length payload) rpc_nonce_len) too_short) _ h in
    (ground (arith, long), okayed _ json rest)
  where
    okayed : (o : Option Bytes) (j : Bytes) → ok_or o cannot_decrypt ≡ ok j → o ≡ some j
    okayed none j e = absurd cc
    okayed (some t) j e = ap some (ok_injective e)

Carries-open_data :
    (x : FrameCipher) (keys : RpcKeys) (side : Side) (t : PackType) (payload json : Bytes)
    → open_data x keys side t payload ≡ ok json
    → Carries x (receiving_key keys side) t payload json
unfolding open_data
Carries-open_data x keys side plain payload json h = ok_injective h
Carries-open_data x keys side cipher payload json h =
    let (long, opened) = cipher_opened x keys side payload json h in
    cut rpc_nonce_len payload long
      (λ nonce sealed. x.decrypt (receiving_key keys side) nonce rpc_aad sealed ≡ some json) opened

open_data-Carries :
    (x : FrameCipher) (keys : RpcKeys) (side : Side) (t : PackType) (payload json : Bytes)
    → Carries x (receiving_key keys side) t payload json
    → open_data x keys side t payload ≡ ok json
unfolding open_data
open_data-Carries x keys side plain payload json same = ap ok same
open_data-Carries x keys side cipher payload json (nonce, sealed, same, size, opened) =
    let front : take 24 (nonce ++ sealed) ≡ nonce =
      ap (λ k. take k (nonce ++ sealed)) (sym size) ∙ take-append nonce sealed in
    let back : drop 24 (nonce ++ sealed) ≡ sealed =
      ap (λ k. drop k (nonce ++ sealed)) (sym size) ∙ drop-append nonce sealed in
    let long : ltb (length (nonce ++ sealed)) 24 ≡ false =
      ground (arith, length-append nonce sealed) in
    rw (same, long, front, back, opened) refl

prefixed :
    (x : FrameCipher) (keys : RpcKeys) (side : Side) (frame json : Bytes) (t : PackType)
    → open_prefixed x keys side frame ≡ ok (t, json)
    → (payload : Bytes) × (frame ≡ pack_version ∷ type_byte t ∷ payload)
      × Carries x (receiving_key keys side) t payload json
unfolding open_prefixed
prefixed x keys side [] json t h = absurd cc
prefixed x keys side (v ∷ []) json t h = absurd cc
prefixed x keys side (v ∷ b ∷ payload) json t h =
    let (_, known, h1) = >>=-eq-ok (refuse (not (v == pack_version)) (unknown_version v)) _ h in
    let (t', typed, h2) = >>=-eq-ok (ok_or (type_from_byte b) (unknown_type b)) _ h1 in
    let (json', opened, h3) = >>=-eq-ok (open_data x keys side t' payload) _ h2 in
    let e = ok_injective h3 in
    let v_one : v ≡ pack_version = ground arith in
    let b_type : b ≡ type_byte t' = type_from_byte-eq_some b t' (ground arith) in
    subst
      (λ p.
        (rest : Bytes) × (v ∷ b ∷ payload ≡ pack_version ∷ type_byte p.0 ∷ rest)
        × Carries x (receiving_key keys side) p.0 rest p.1)
      e
      (
        payload,
        ap₂ (λ i j. i ∷ j ∷ payload) v_one b_type,
        Carries-open_data x keys side t' payload json' opened,
      )

-- A side accepts exactly the frames within the limit that begin with the version and a known type
-- and then hold the message itself, or a nonce of 24 bytes and what decrypts under it and the key of
-- the direction to the message. It accepts no other frame.
pub open_frame_iff :
    (x : FrameCipher) (keys : RpcKeys) (side : Side) (frame json : Bytes) (t : PackType)
    → (open_frame x keys side frame ≡ ok (t, json)) ↔ (
        (length frame ≤ max_frame_bytes)
        × ((payload : Bytes) × (frame ≡ pack_version ∷ type_byte t ∷ payload)
            × Carries x (receiving_key keys side) t payload json))
unfolding open_frame open_prefixed
open_frame_iff x keys side frame json t = (
  λ h.
      let (_, small, rest) =
        >>=-eq-ok (refuse (ltb max_frame_bytes (length frame)) (too_large (length frame))) _ h in
      (ground arith, prefixed x keys side frame json t rest),
  λ (small, (payload, same, carried)).
      let fits : ltb max_frame_bytes (length frame) ≡ false = ground arith in
      rw fits (
        rw (same, type_from_byte-type_byte t, open_data-Carries x keys side t payload json carried)
          refl),
)
