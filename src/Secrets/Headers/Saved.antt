-- ===== src/Secrets/Headers/Saved.antt =====
-- Header values through a save and a use.
use mathlib.Core.List.Memᴰ
use composer.Base.{
  ap, ℕ, suc, String, ◌≡◌, refl, true, false, some, List, [], ◌∷◌, map, Memᴰ, Distinct, length,
  ◌==◌, eq_iff, Bool-cases, inl, inr, ok, sym, subst,
}
use composer.Base.Dict.{Dict, get}
use composer.Secrets.{Bytes, CryptoLibrary, load_key, is_marked_encrypted, decrypt_marked}
use composer.Secrets.RoundTrip.{IsSound, decrypt_marked-encrypt_marked}
use composer.Secrets.Headers.{
  redacted_marker, is_sensitive_header_name, redacted, redact_sensitive_headers, prior_or,
  saved_value, encrypt_sensitive_headers, used_value, decrypt_sensitive_headers,
}

abbrev pub names : Dict String → List String
names = map (λ (entry : String × String). entry.0)

get_of_mem :
    (headers : Dict String) (k v : String)
    → Distinct (names headers)
    → Memᴰ (k, v) headers
    → get headers k ≡ some v
unfolding get
get_of_mem [] k v d m = absurd (Memᴰ.not-nil m)
get_of_mem ((j, w) ∷ headers) k v (free, d) m = elim (Memᴰ.cases_cons m) [
  | inl e ↦
      let key : (j == k) ≡ true = (eq_iff j k).1 (sym (ap (λ (p : String × String). p.0) e)) in
      let value : w ≡ v = sym (ap (λ (p : String × String). p.1) e) in rw (key, get) (ap some value)
  | inr r ↦ elim (Bool-cases (j == k)) [
    | inl same ↦ absurd (
        free (
          subst (λ i. Memᴰ i (names headers)) (sym ((eq_iff j k).0 same))
            (Memᴰ.map (λ (p : String × String). p.0) r)))
    | inr other ↦ rw (other, get) (get_of_mem headers k v d r)
  ]
]

redacted-saved :
    (library : CryptoLibrary) (setting : String) (nonce : Bytes) (stored : Dict String)
    (k v : String)
    → get stored k ≡ some v
    → saved_value library setting nonce stored k (redacted (k, v)).1 ≡ ok v
unfolding saved_value
redacted-saved library setting nonce stored k v found =
    elim (Bool-cases (is_sensitive_header_name k)) [
      | inr public ↦ rw (public, saved_value) refl
      | inl secret ↦ elim (Bool-cases (v == "")) [
        | inl blank ↦ rw (secret, blank, saved_value) (rw blank refl)
        | inr filled ↦ rw (secret, filled, saved_value) (rw (found, prior_or) refl)
      ]
    ]

redact-saved :
    (library : CryptoLibrary) (setting : String) (nonces : ℕ → Bytes) (i : ℕ)
    (stored headers : Dict String)
    → ((k v : String) → Memᴰ (k, v) headers → get stored k ≡ some v)
    → encrypt_sensitive_headers library setting nonces i stored (redact_sensitive_headers headers)
      ≡ ok headers
unfolding encrypt_sensitive_headers
redact-saved library setting nonces i stored [] found = refl
redact-saved library setting nonces i stored ((k, v) ∷ headers) found = rw (
  redacted-saved library setting (nonces i) stored k v (found k v (Memᴰ.head refl)),
  redact-saved library setting nonces (suc i) stored headers (λ j w m. found j w (Memᴰ.tail m)),
)

-- Saving what a read returned, with its secret values redacted, over the stored headers stores these headers
-- again, without a key and whatever they are.
pub redact-encrypt_sensitive_headers :
    (library : CryptoLibrary) (setting : String) (nonces : ℕ → Bytes) (stored : Dict String)
    → Distinct (names stored)
    → encrypt_sensitive_headers library setting nonces 0 stored (redact_sensitive_headers stored)
      ≡ ok stored
redact-encrypt_sensitive_headers library setting nonces stored d =
    redact-saved library setting nonces 0 stored stored (λ k v m. get_of_mem stored k v d m)

-- A secret value that is neither the marker nor begins like an encrypted one.
abbrev pub IsPlain : String → String → Type 0
IsPlain k v =
    is_sensitive_header_name k ≡ true
    → ((v == redacted_marker) ≡ false) × (is_marked_encrypted v ≡ false)

saved_then_used :
    (library : CryptoLibrary) (setting : String) (key nonce : Bytes) (prior : Dict String)
    (k v : String)
    → IsSound library
    → load_key library setting ≡ ok key
    → length nonce ≡ 12
    → IsPlain k v
    → (w : String) × (saved_value library setting nonce prior k v ≡ ok w)
      × (used_value library setting k w ≡ ok v)
unfolding saved_value used_value
saved_then_used library setting key nonce prior k v sound loaded h plain =
    elim (Bool-cases (is_sensitive_header_name k)) [
      | inr public ↦ (v, rw (public, saved_value) refl, rw (public, used_value) refl)
      | inl secret ↦
          let (fresh, unmarked) = plain secret in
          elim (Bool-cases (v == "")) [
            | inl blank ↦ (
              v,
              rw (secret, blank, saved_value) refl,
              rw (secret, unmarked, used_value, decrypt_marked) refl,
            )
            | inr filled ↦
                let (c, stored, back) =
                  decrypt_marked-encrypt_marked library setting key nonce v sound loaded h in
                (
                  c,
                  rw (secret, filled, fresh, unmarked, saved_value) stored,
                  rw (secret, used_value) back,
                )
          ]
    ]

saved_headers_used :
    (library : CryptoLibrary) (setting : String) (key : Bytes) (nonces : ℕ → Bytes) (i : ℕ)
    (prior headers : Dict String)
    → IsSound library
    → load_key library setting ≡ ok key
    → ((n : ℕ) → length (nonces n) ≡ 12)
    → ((k v : String) → Memᴰ (k, v) headers → IsPlain k v)
    → (stored : Dict String) × (encrypt_sensitive_headers library setting nonces i prior headers
        ≡ ok stored)
      × (decrypt_sensitive_headers library setting stored ≡ ok headers)
unfolding encrypt_sensitive_headers decrypt_sensitive_headers
saved_headers_used library setting key nonces i prior [] sound loaded sizes plain = ([], refl, refl)
saved_headers_used library setting key nonces i prior ((k, v) ∷ headers) sound loaded sizes plain =
    let (w, saved, used) =
      saved_then_used library setting key (nonces i) prior k v sound loaded (sizes i)
        (plain k v (Memᴰ.head refl)) in
    let (rest, saved_rest, used_rest) =
      saved_headers_used library setting key nonces (suc i) prior headers sound loaded sizes
        (λ j x m. plain j x (Memᴰ.tail m)) in
    (
      (k, w) ∷ rest,
      rw (saved, saved_rest, encrypt_sensitive_headers) refl,
      rw (used, used_rest, decrypt_sensitive_headers) refl,
    )

-- With a valid key, headers whose secret values are neither the marker nor begin like an encrypted value are
-- saved, and decryption gives them back as they were.
pub decrypt-encrypt_sensitive_headers :
    (library : CryptoLibrary) (setting : String) (key : Bytes) (nonces : ℕ → Bytes)
    (prior headers : Dict String)
    → IsSound library
    → load_key library setting ≡ ok key
    → ((n : ℕ) → length (nonces n) ≡ 12)
    → ((k v : String) → Memᴰ (k, v) headers → IsPlain k v)
    → (stored : Dict String) × (encrypt_sensitive_headers library setting nonces 0 prior headers
        ≡ ok stored)
      × (decrypt_sensitive_headers library setting stored ≡ ok headers)
decrypt-encrypt_sensitive_headers library setting key nonces prior headers =
    saved_headers_used library setting key nonces 0 prior headers
