-- ===== src/Daemon/RpcPack.antt =====
-- crates/wbf-daemon/src/pack.rs: the frames between a front end and the daemon, in the clear or under
-- one key for each direction. The cipher, the key derivation and the random nonce are arguments.
pub mod Frames
use wbf_matrix_client.Common.{
  ℕ, suc, ◌+◌, ◌*◌, ◌≡◌, Bool, true, false, not, Option, none, some, List, [], ◌∷◌, ◌++◌, ltb, ◌==◌,
  if◌then◌else◌, Result, ok, err, ◌>>=◌, ◌>>◌, ok_or, refuse, length, take, drop,
}
use wbf_matrix_client.Common.Bytes.{Bytes}

-- `encrypt` and `decrypt` of `XChaCha20Poly1305`: key, nonce, associated data, message.
pub record FrameCipher : Type 0 where
  pub encrypt : Bytes → Bytes → Bytes → Bytes → Option Bytes
  pub decrypt : Bytes → Bytes → Bytes → Bytes → Option Bytes
  pub decrypt-encrypt :
      (key nonce aad msg sealed : Bytes)
      → encrypt key nonce aad msg ≡ some sealed
      → decrypt key nonce aad sealed ≡ some msg
  pub length-encrypt :
      (key nonce aad msg sealed : Bytes)
      → encrypt key nonce aad msg ≡ some sealed
      → length sealed ≡ length msg + 16

abbrev pub pack_version : ℕ
pack_version = 0x01

abbrev pub max_frame_bytes : ℕ
max_frame_bytes = 1024 * 1024

abbrev pub token_len : ℕ
token_len = 256

abbrev pub rpc_nonce_len : ℕ
rpc_nonce_len = 24

-- The text "wbf-rpc v1".
abbrev pub rpc_aad : Bytes
rpc_aad = b'w' ∷ b'b' ∷ b'f' ∷ b'-' ∷ b'r' ∷ b'p' ∷ b'c' ∷ b' ' ∷ b'v' ∷ b'1' ∷ []

pub data PackType : Type 0 where
  plain cipher : PackType

unfoldable pub type_byte : PackType → ℕ
type_byte plain = 0x01
type_byte cipher = 0x02

unfoldable pub type_from_byte : ℕ → Option PackType
type_from_byte byte =
    if byte == 0x01 then some plain else if byte == 0x02 then some cipher else none

pub data PackError : Type 0 where
  too_short : PackError
  unknown_version : ℕ → PackError
  unknown_type : ℕ → PackError
  too_large : ℕ → PackError
  cannot_decrypt : PackError

-- The two ways in which `seal` fails.
pub data SealError : Type 0 where
  no_randomness encrypt_failed : SealError

pub record RpcKeys : Type 0 where
  pub client_to_daemon : Bytes
  pub daemon_to_client : Bytes

-- `derive` is `blake3::derive_key` under the context of a direction, `true` to the daemon.
unfoldable pub from_token : (Bool → Bytes → Bytes) → Bytes → RpcKeys
from_token derive token = record {
  client_to_daemon = derive true token;
  daemon_to_client = derive false token;
}

unfoldable pub from_token_file : (Bool → Bytes → Bytes) → Bytes → Result ℕ RpcKeys
from_token_file derive token =
    if not (length token == token_len) then err (length token) else ok (from_token derive token)

pub data Side : Type 0 where
  client daemon : Side

unfoldable pub sending_key : RpcKeys → Side → Bytes
sending_key keys client = keys.client_to_daemon
sending_key keys daemon = keys.daemon_to_client

unfoldable pub receiving_key : RpcKeys → Side → Bytes
receiving_key keys client = keys.daemon_to_client
receiving_key keys daemon = keys.client_to_daemon

module _ (x : FrameCipher) where
  -- `draw` is the nonce from the operating system.
  unfoldable pub seal_data :
      RpcKeys → Side → Option Bytes → PackType → Bytes → Result SealError Bytes
  seal_data keys side draw plain json = ok json
  seal_data keys side draw cipher json = do
    nonce ← ok_or draw no_randomness
    ciphertext ← ok_or (x.encrypt (sending_key keys side) nonce rpc_aad json) encrypt_failed
    ok (nonce ++ ciphertext)

  unfoldable pub seal_frame :
      RpcKeys → Side → Option Bytes → PackType → Bytes → Result SealError Bytes
  seal_frame keys side draw pack_type json = do
    payload ← seal_data keys side draw pack_type json
    ok (pack_version ∷ type_byte pack_type ∷ payload)

  unfoldable pub open_data : RpcKeys → Side → PackType → Bytes → Result PackError Bytes
  open_data keys side plain payload = ok payload
  open_data keys side cipher payload = do
    refuse (ltb (length payload) rpc_nonce_len) too_short
    ok_or
        (x.decrypt (receiving_key keys side) (take rpc_nonce_len payload) rpc_aad
          (drop rpc_nonce_len payload))
        cannot_decrypt

  unfoldable pub open_prefixed : RpcKeys → Side → Bytes → Result PackError (PackType × Bytes)
  open_prefixed keys side (version ∷ byte ∷ payload) = do
    refuse (not (version == pack_version)) (unknown_version version)
    pack_type ← ok_or (type_from_byte byte) (unknown_type byte)
    json ← open_data keys side pack_type payload
    ok (pack_type, json)
  open_prefixed keys side _ = err too_short

  unfoldable pub open_frame : RpcKeys → Side → Bytes → Result PackError (PackType × Bytes)
  open_frame keys side frame =
      refuse (ltb max_frame_bytes (length frame)) (too_large (length frame))
      >> open_prefixed keys side frame
