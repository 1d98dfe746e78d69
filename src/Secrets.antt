-- ===== src/Secrets.antt =====
-- Encrypted text and header values: src/security/encryption.py. AES-GCM, base64 and UTF-8 are arguments, as
-- are the configured key and the drawn nonces.
pub mod RoundTrip
pub mod Headers
mod Tests
use Prim.Native.String as Text
use package.text.Mathlib.Text.{starts_with}
use composer.Base.{
  ℕ, zero, suc, ◌+◌, String, Bool, true, false, not, Option, none, some, List, [], ◌∷◌, ◌++◌,
  length, eqb, ltb, ◌==◌, if◌then◌else◌, Result, ok, err, ◌>>=◌,
}

abbrev pub Bytes : Type 0
Bytes = List ℕ

pub record CryptoLibrary : Type 0 where
  pub b64encode : Bytes → String
  pub b64decode : String → Option Bytes
  pub b64decode_lenient : String → Option Bytes
  pub seal : Bytes → Bytes → Bytes → Bytes
  pub unseal : Bytes → Bytes → Bytes → Option Bytes
  pub utf8 : String → Bytes
  pub from_utf8 : Bytes → Option String

-- The last is no EncryptionError.
pub data CryptoError : Type 0 where
  key_missing key_invalid not_base64 too_short tag_mismatch not_utf8 : CryptoError

abbrev pub or_raise : {A : Type 0} → CryptoError → Option A → Result CryptoError A
or_raise e none = err e
or_raise e (some a) = ok a

abbrev pub checked_key : Bytes → Result CryptoError Bytes
checked_key key = if eqb (length key) 32 then ok key else err key_invalid

unfoldable pub load_key : CryptoLibrary → String → Result CryptoError Bytes
load_key library setting =
    if setting == ""
    then err key_missing
    else or_raise key_invalid (library.b64decode_lenient setting) >>= checked_key

abbrev pub sealed : CryptoLibrary → Bytes → String → Bytes → String
sealed library nonce plaintext key =
    library.b64encode (nonce ++ library.seal key nonce (library.utf8 plaintext))

unfoldable pub encrypt : CryptoLibrary → String → Bytes → String → Result CryptoError String
unfolding load_key
encrypt library setting nonce plaintext =
    load_key library setting >>= λ key. ok (sealed library nonce plaintext key)

abbrev pub take : ℕ → Bytes → Bytes
take zero bytes = []
take (suc n) [] = []
take (suc n) (b ∷ bytes) = b ∷ take n bytes

abbrev pub drop : ℕ → Bytes → Bytes
drop zero bytes = bytes
drop (suc n) [] = []
drop (suc n) (b ∷ bytes) = drop n bytes

abbrev pub opened : CryptoLibrary → Bytes → Bytes → Result CryptoError String
opened library key raw =
    if ltb (length raw) 28
    then err too_short
    else or_raise tag_mismatch (library.unseal key (take 12 raw) (drop 12 raw)) >>= λ plain.
        or_raise not_utf8 (library.from_utf8 plain)

unfoldable pub decrypt : CryptoLibrary → String → String → Result CryptoError String
unfolding load_key
decrypt library setting ciphertext = load_key library setting >>= λ key.
    or_raise not_base64 (library.b64decode ciphertext) >>= opened library key

abbrev pub secret_enc_prefix : String
secret_enc_prefix = "enc:v1:"

abbrev pub is_marked_encrypted : String → Bool
is_marked_encrypted value = starts_with value secret_enc_prefix

unfoldable pub encrypt_marked : CryptoLibrary → String → Bytes → String → Result CryptoError String
unfolding encrypt
encrypt_marked library setting nonce plaintext =
    encrypt library setting nonce plaintext >>= λ c. ok (Text.◌++◌ secret_enc_prefix c)

unfoldable pub decrypt_marked : CryptoLibrary → String → String → Result CryptoError String
unfolding decrypt
decrypt_marked library setting value =
    if not (is_marked_encrypted value)
    then ok value
    else decrypt library setting (Text.slice value (Text.len secret_enc_prefix) (Text.len value))
