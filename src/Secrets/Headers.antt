-- ===== src/Secrets/Headers.antt =====
-- The header values of http and mcp nodes.
pub mod Saved
use composer.Base.{
  ℕ, suc, ◌+◌, String, Bool, true, false, not, ◌&&◌, ◌||◌, Option, none, some, List, [], ◌∷◌, map,
  collect, contains, ◌==◌, if◌then◌else◌, Result, ok, err, ◌>>=◌,
}
use composer.Base.Dict.{Dict, get}
use composer.Substitution.Scan.{chars, pack}
use composer.Substitution.Validation.{lower}
use composer.Secrets.{
  Bytes, CryptoLibrary, CryptoError, is_marked_encrypted, encrypt_marked, decrypt_marked,
}

abbrev pub redacted_marker : String
redacted_marker = "••••••••"

abbrev pub sensitive_header_names : List String
sensitive_header_names =
    "authorization" ∷ "proxy-authorization" ∷ "cookie" ∷ "set-cookie" ∷ "x-api-key" ∷ "api-key"
    ∷ "apikey" ∷ "x-auth-token" ∷ "x-access-token" ∷ "access-token" ∷ []

unfoldable pub is_sensitive_header_name : String → Bool
is_sensitive_header_name name = contains sensitive_header_names (pack (collect lower (chars name)))

abbrev pub redacted : String × String → String × String
redacted (k, v) = (k, if is_sensitive_header_name k && not (v == "") then redacted_marker else v)

abbrev pub redact_sensitive_headers : Dict String → Dict String
redact_sensitive_headers headers = map redacted headers

-- `prior.get(k, v)`
abbrev pub prior_or : Dict String → String → String → String
prior_or prior k v = elim (get prior k) [ none ↦ v | some before ↦ before ]

unfoldable pub saved_value :
    CryptoLibrary → String → Bytes → Dict String → String → String → Result CryptoError String
unfolding is_sensitive_header_name encrypt_marked get
saved_value library setting nonce prior k v =
    if not (is_sensitive_header_name k) || v == ""
    then ok v
    else if v == redacted_marker
    then ok (prior_or prior k v)
    else if not (is_marked_encrypted v)
    then encrypt_marked library setting nonce v
    else ok v

-- `nonces` are those that are drawn; the one of a header that is not encrypted is not used. `prior` is empty
-- where there are no prior headers.
unfoldable pub encrypt_sensitive_headers :
    CryptoLibrary
    → String
    → (ℕ → Bytes)
    → ℕ
    → Dict String
    → Dict String
    → Result CryptoError (Dict String)
unfolding saved_value
encrypt_sensitive_headers library setting nonces i prior [] = ok []
encrypt_sensitive_headers library setting nonces i prior ((k, v) ∷ headers) =
    saved_value library setting (nonces i) prior k v >>= λ w.
    encrypt_sensitive_headers library setting nonces (suc i) prior headers >>= λ rest.
    ok ((k, w) ∷ rest)

unfoldable pub used_value : CryptoLibrary → String → String → String → Result CryptoError String
unfolding is_sensitive_header_name decrypt_marked
used_value library setting k v =
    if is_sensitive_header_name k then decrypt_marked library setting v else ok v

unfoldable pub decrypt_sensitive_headers :
    CryptoLibrary → String → Dict String → Result CryptoError (Dict String)
unfolding used_value
decrypt_sensitive_headers library setting [] = ok []
decrypt_sensitive_headers library setting ((k, v) ∷ headers) =
    used_value library setting k v >>= λ w.
    decrypt_sensitive_headers library setting headers >>= λ rest. ok ((k, w) ∷ rest)
