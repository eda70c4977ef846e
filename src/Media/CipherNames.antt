-- ===== src/Media/CipherNames.antt =====
-- The names of the ciphers in an event block (crates/wbf-sdk/src/cipher.rs).
use wbf_matrix_client.Common.{
  ◌≡◌, ◌↔◌, refl, ap, ◌∙◌, arith, Option, none, some, [], ◌∷◌, if◌then◌else◌,
}
use wbf_matrix_client.Media.Cipher.{Cipher, cha_cha20_poly1305, aes256_gcm, none_cipher}
use wbf_matrix_client.Media.Block.{Text, text_eq}
use wbf_matrix_client.Media.Block.Checks.{text_eq→eq}

unfoldable pub name : Cipher → Text
name cha_cha20_poly1305 =
    b'c' ∷ b'h' ∷ b'a' ∷ b'c' ∷ b'h' ∷ b'a' ∷ b'2' ∷ b'0' ∷ b'-' ∷ b'p' ∷ b'o' ∷ b'l' ∷ b'y' ∷ b'1'
    ∷ b'3' ∷ b'0' ∷ b'5' ∷ []
name aes256_gcm = b'a' ∷ b'e' ∷ b's' ∷ b'-' ∷ b'2' ∷ b'5' ∷ b'6' ∷ b'-' ∷ b'g' ∷ b'c' ∷ b'm' ∷ []
name none_cipher = b'n' ∷ b'o' ∷ b'n' ∷ b'e' ∷ []

unfoldable pub from_name : Text → Option Cipher
from_name text =
    if text_eq text (name cha_cha20_poly1305)
    then some cha_cha20_poly1305
    else if text_eq text (name aes256_gcm)
    then some aes256_gcm
    else if text_eq text (name none_cipher)
    then some none_cipher
    else none

named : (c : Cipher) → from_name (name c) ≡ some c
unfolding from_name name text_eq
named cha_cha20_poly1305 = refl
named aes256_gcm = refl
named none_cipher = refl

names_it : (text : Text) (c : Cipher) → from_name text ≡ some c → text ≡ name c
unfolding from_name
names_it text c h = ground (
  arith,
  text_eq→eq text (name cha_cha20_poly1305),
  text_eq→eq text (name aes256_gcm),
  text_eq→eq text (name none_cipher),
)

-- A text names a cipher exactly if it is the name of that cipher, so that no two ciphers share a
-- name and no other text is taken.
pub from_name_iff : (text : Text) (c : Cipher) → (from_name text ≡ some c) ↔ (text ≡ name c)
from_name_iff text c = (names_it text c, λ e. ap from_name e ∙ named c)
