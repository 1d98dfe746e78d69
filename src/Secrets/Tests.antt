-- ===== src/Secrets/Tests.antt =====
-- Headers with a small library: a cipher that puts a tag of 16 bytes before the text, bytes written in unary
-- and texts as the numbers of their characters.
use mathlib.Core.List.Memᴰ
use Prim.Native.Nat.{Ordering, compare}
use Prim.Native.Char.{Char, char, code, IsLt, IsScalar}
use Prim.Native.String as Text
use text.Mathlib.TextEquality.{IsScalar-prop}
use composer.Base.{
  ap, ℕ, zero, suc, ◌+◌, String, ◌≡◌, refl, true, false, Option, none, some, [], ◌∷◌, ◌++◌, Memᴰ,
  contains_iff, Distinct, eqb, ok, ◌∙◌, inl, inr, arith,
}
use composer.Base.Dict.{Dict}
use composer.Secrets.{Bytes, CryptoLibrary, load_key, drop}
use composer.Secrets.RoundTrip.{IsSound}
use composer.Secrets.Headers.{
  redact_sensitive_headers, redacted_marker, is_sensitive_header_name, encrypt_sensitive_headers,
  decrypt_sensitive_headers,
}
use composer.Secrets.Headers.Saved.{
  names, IsPlain, redact-encrypt_sensitive_headers, decrypt-encrypt_sensitive_headers,
}

-- Bytes in unary.
abbrev unary : ℕ → String → String
unary zero rest = Text.◌∷◌ "b" rest
unary (suc n) rest = Text.◌∷◌ "a" (unary n rest)

abbrev encoded : Bytes → String
encoded [] = Text.[]
encoded (n ∷ bytes) = unary n (encoded bytes)

abbrev onto : ℕ → Option Bytes → Option Bytes
onto n none = none
onto n (some bytes) = some (n ∷ bytes)

abbrev decoded : ℕ → String → Option Bytes
decoded n Text.[] = some []
decoded n (Text.◌∷◌ c s) = elim (eqb (code c) 97) [
  | true ↦ decoded (suc n) s
  | false ↦ onto n (decoded 0 s)
]

decoded-unary : (m n : ℕ) (rest : String) → decoded m (unary n rest) ≡ onto (n + m) (decoded 0 rest)
decoded-unary m zero rest =
    ap (λ k. onto k (decoded 0 rest)) (let e : m ≡ zero + m = omega arith in e)
decoded-unary m (suc n) rest =
    decoded-unary (suc m) n rest
    ∙ ap (λ k. onto k (decoded 0 rest)) (let e : n + suc m ≡ suc n + m = omega arith in e)

decoded-encoded : (bytes : Bytes) → decoded 0 (encoded bytes) ≡ some bytes
decoded-encoded [] = refl
decoded-encoded (n ∷ bytes) =
    decoded-unary 0 n (encoded bytes)
    ∙ cc (decoded-encoded bytes, let e : n + 0 ≡ n = omega arith in e)

-- Characters from their numbers.
abbrev Later : Ordering → Ordering → Type 0
Later Ordering.lt o = IsLt o
Later Ordering.eq o = ⊥
Later Ordering.gt o = ⊥

abbrev Scalar : Ordering → Ordering → Ordering → Type 0
Scalar Ordering.lt o p = Unit
Scalar Ordering.eq o p = Later o p
Scalar Ordering.gt o p = Later o p

abbrev is_lt : (o : Ordering) → Option (IsLt o)
is_lt Ordering.lt = some tt
is_lt Ordering.eq = none
is_lt Ordering.gt = none

abbrev is_later : (o p : Ordering) → Option (Later o p)
is_later Ordering.lt p = is_lt p
is_later Ordering.eq p = none
is_later Ordering.gt p = none

abbrev is_scalar : (o p q : Ordering) → Option (Scalar o p q)
is_scalar Ordering.lt p q = some tt
is_scalar Ordering.eq p q = is_later p q
is_scalar Ordering.gt p q = is_later p q

is_lt-some : (o : Ordering) → IsLt o → (y : IsLt o) × (is_lt o ≡ some y)
is_lt-some Ordering.lt x = (tt, refl)
is_lt-some Ordering.eq x = absurd x
is_lt-some Ordering.gt x = absurd x

is_later-some : (o p : Ordering) → Later o p → (y : Later o p) × (is_later o p ≡ some y)
is_later-some Ordering.lt p x = is_lt-some p x
is_later-some Ordering.eq p x = absurd x
is_later-some Ordering.gt p x = absurd x

is_scalar-some : (o p q : Ordering) → Scalar o p q → (y : Scalar o p q) × (is_scalar o p q ≡ some y)
is_scalar-some Ordering.lt p q x = (tt, refl)
is_scalar-some Ordering.eq p q x = is_later-some p q x
is_scalar-some Ordering.gt p q x = is_later-some p q x

abbrev made : (n : ℕ) → Option (IsScalar n) → Option Char
made n none = none
made n (some p) = some (char n p)

abbrev char_of : ℕ → Option Char
char_of n = made n (is_scalar (compare n 55296) (compare 57343 n) (compare n 1114112))

char_of-code : (c : Char) → char_of (code c) ≡ some c
char_of-code (char n p) =
    let (y, e) = is_scalar-some (compare n 55296) (compare 57343 n) (compare n 1114112) p in
    ap (made n) e ∙ ap (λ q. some (char n q)) (IsScalar-prop n y p)

abbrev codes : String → Bytes
codes Text.[] = []
codes (Text.◌∷◌ c s) = code c ∷ codes s

abbrev joined : Option Char → Option String → Option String
joined (some c) (some s) = some (Text.◌∷◌ c s)
joined _ _ = none

abbrev text_of : Bytes → Option String
text_of [] = some Text.[]
text_of (n ∷ bytes) = joined (char_of n) (text_of bytes)

text_of-codes : (s : String) → text_of (codes s) ≡ some s
text_of-codes Text.[] = refl
text_of-codes (Text.◌∷◌ c s) =
    ap (λ o. joined o (text_of (codes s))) (char_of-code c) ∙ ap (joined (some c)) (text_of-codes s)

abbrev twelve : Bytes
twelve = 0 ∷ 0 ∷ 0 ∷ 0 ∷ 0 ∷ 0 ∷ 0 ∷ 0 ∷ 0 ∷ 0 ∷ 0 ∷ 0 ∷ []

abbrev sixteen : Bytes
sixteen = 1 ∷ 1 ∷ 1 ∷ 1 ∷ twelve

abbrev the_key : Bytes
the_key = sixteen ++ sixteen

abbrev library : CryptoLibrary
library = record {
  b64encode = encoded;
  b64decode = decoded 0;
  b64decode_lenient = λ setting. some the_key;
  seal = λ key nonce plain. sixteen ++ plain;
  unseal = λ key nonce body. some (drop 16 body);
  utf8 = codes;
  from_utf8 = text_of;
}

library-IsSound : IsSound library
library-IsSound = record {
  base64 = decoded-encoded;
  text = text_of-codes;
  opens = λ key nonce plain. refl;
  tagged = λ key nonce plain. omega arith;
}

key_loaded : load_key library "key" ≡ ok the_key
unfolding load_key
key_loaded = refl

abbrev headers : Dict String
headers = ("Accept", "*/*") ∷ ("X-API-Key", "k1") ∷ ("Cookie", "") ∷ []

headers-Distinct : Distinct (names headers)
headers-Distinct = (
  λ m. cc ((contains_iff ("X-API-Key" ∷ "Cookie" ∷ []) "Accept").1 m),
  (λ m. cc ((contains_iff ("Cookie" ∷ []) "X-API-Key").1 m), (Memᴰ.not-nil, tt)),
)

secret_redacted :
    redact_sensitive_headers headers
    ≡ ("Accept", "*/*") ∷ ("X-API-Key", redacted_marker) ∷ ("Cookie", "") ∷ []
unfolding is_sensitive_header_name
secret_redacted = refl

redact-encrypt_sensitive_headers_example :
    encrypt_sensitive_headers library "" (λ n. twelve) 0 headers (redact_sensitive_headers headers)
    ≡ ok headers
redact-encrypt_sensitive_headers_example =
    redact-encrypt_sensitive_headers library "" (λ n. twelve) headers headers-Distinct

headers-IsPlain : (k v : String) → Memᴰ (k, v) headers → IsPlain k v
headers-IsPlain k v m secret = elim (Memᴰ.cases_cons m) [
  | inl e ↦ rw (ap (λ (p : String × String). p.1) e) (refl, refl)
  | inr r ↦ elim (Memᴰ.cases_cons r) [
    | inl e ↦ rw (ap (λ (p : String × String). p.1) e) (refl, refl)
    | inr q ↦ elim (Memᴰ.cases_cons q) [
      | inl e ↦ rw (ap (λ (p : String × String). p.1) e) (refl, refl)
      | inr z ↦ absurd (Memᴰ.not-nil z)
    ]
  ]
]

decrypt-encrypt_sensitive_headers_example :
    (stored : Dict String) × (encrypt_sensitive_headers library "key" (λ n. twelve) 0 [] headers
      ≡ ok stored)
    × (decrypt_sensitive_headers library "key" stored ≡ ok headers)
decrypt-encrypt_sensitive_headers_example =
    decrypt-encrypt_sensitive_headers library "key" the_key (λ n. twelve) [] headers library-IsSound
      key_loaded (λ n. refl) headers-IsPlain
