-- ===== src/Secrets/RoundTrip.antt =====
-- Decryption is the inverse of encryption.
use Prim.Native.String as Text
use text.Mathlib.TextPositions.{len-append, slice-append_right, starts_with-append}
use composer.Base.{
  ap, ℕ, zero, suc, ◌+◌, String, ◌≡◌, refl, false, some, [], ◌∷◌, ◌++◌, length, length-append, ltb,
  ok, ◌∙◌, arith,
}
use composer.Secrets.{
  Bytes, CryptoLibrary, load_key, sealed, encrypt, take, drop, opened, decrypt, secret_enc_prefix,
  encrypt_marked, decrypt_marked,
}

-- What the code relies on: base64 and UTF-8 decode what they encoded, and AES-GCM opens what it sealed with
-- the same key and nonce, and adds a tag of 16 bytes.
pub record IsSound (library : CryptoLibrary) : Type 0 where
  pub base64 : (bytes : Bytes) → library.b64decode (library.b64encode bytes) ≡ some bytes
  pub text : (s : String) → library.from_utf8 (library.utf8 s) ≡ some s
  pub opens :
      (key nonce plain : Bytes)
      → library.unseal key nonce (library.seal key nonce plain) ≡ some plain
  pub tagged : (key nonce plain : Bytes) → length (library.seal key nonce plain) ≡ length plain + 16

take-append : (front back : Bytes) (n : ℕ) → length front ≡ n → take n (front ++ back) ≡ front
take-append [] back zero h = refl
take-append [] back (suc n) h = absurd (omega (arith, h))
take-append (b ∷ front) back zero h = absurd (omega (arith, h))
take-append (b ∷ front) back (suc n) h =
    ap (λ r. b ∷ r) (take-append front back n (omega (arith, h)))

drop-append : (front back : Bytes) (n : ℕ) → length front ≡ n → drop n (front ++ back) ≡ back
drop-append [] back zero h = refl
drop-append [] back (suc n) h = absurd (omega (arith, h))
drop-append (b ∷ front) back zero h = absurd (omega (arith, h))
drop-append (b ∷ front) back (suc n) h = drop-append front back n (omega (arith, h))

opened-sealed :
    (library : CryptoLibrary) (key nonce : Bytes) (plaintext : String)
    → IsSound library
    → length nonce ≡ 12
    → opened library key (nonce ++ library.seal key nonce (library.utf8 plaintext)) ≡ ok plaintext
opened-sealed library key nonce plaintext sound h =
    let body = library.seal key nonce (library.utf8 plaintext) in
    let long : ltb (length (nonce ++ body)) 28 ≡ false =
      ground (arith, length-append nonce body, sound.tagged key nonce (library.utf8 plaintext)) in
    rw (
      long,
      take-append nonce body 12 h,
      drop-append nonce body 12 h,
      sound.opens key nonce (library.utf8 plaintext),
      sound.text plaintext,
    )

-- With a valid key, encryption succeeds, and decryption gives the text back.
pub decrypt-encrypt :
    (library : CryptoLibrary) (setting : String) (key nonce : Bytes) (plaintext : String)
    → IsSound library
    → load_key library setting ≡ ok key
    → length nonce ≡ 12
    → (c : String) × (encrypt library setting nonce plaintext ≡ ok c)
      × (decrypt library setting c ≡ ok plaintext)
unfolding encrypt decrypt
decrypt-encrypt library setting key nonce plaintext sound loaded h = (
  sealed library nonce plaintext key,
  rw (loaded, encrypt) refl,
  rw (loaded, sound.base64 (nonce ++ library.seal key nonce (library.utf8 plaintext)), decrypt)
      (opened-sealed library key nonce plaintext sound h),
)

unmarked :
    (c : String)
    → Text.slice
        (Text.◌++◌ secret_enc_prefix c)
        (Text.len secret_enc_prefix)
        (Text.len (Text.◌++◌ secret_enc_prefix c))
      ≡ c
unmarked c =
    ap (Text.slice (Text.◌++◌ secret_enc_prefix c) (Text.len secret_enc_prefix))
      (len-append secret_enc_prefix c)
    ∙ slice-append_right secret_enc_prefix c

pub decrypt_marked-encrypt_marked :
    (library : CryptoLibrary) (setting : String) (key nonce : Bytes) (plaintext : String)
    → IsSound library
    → load_key library setting ≡ ok key
    → length nonce ≡ 12
    → (c : String) × (encrypt_marked library setting nonce plaintext ≡ ok c)
      × (decrypt_marked library setting c ≡ ok plaintext)
unfolding encrypt_marked decrypt_marked
decrypt_marked-encrypt_marked library setting key nonce plaintext sound loaded h =
    let (c, sealed_text, back) =
      decrypt-encrypt library setting key nonce plaintext sound loaded h in
    (
      Text.◌++◌ secret_enc_prefix c,
      rw (sealed_text, encrypt_marked) refl,
      rw (starts_with-append secret_enc_prefix c, unmarked c, decrypt_marked) back,
    )
