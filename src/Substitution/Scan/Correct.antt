-- ===== src/Substitution/Scan/Correct.antt =====
-- What a scan finds.
use Prim.Native.Char.{Char, code}
use Prim.Native.String as Text
use text.Mathlib.TextEquality.{Char-path}
use composer.Base.{
  ap, ℕ, zero, suc, String, ◌≡◌, refl, ◌≢◌, true, false, not, none, some, Option-cases, List, [],
  ◌∷◌, ◌++◌, length, ◌+◌, eqb_iff, all, ◌↔◌, inl, inr, sym, subst, ◌∙◌, arith,
}
use composer.Substitution.Scan.{
  Chars, chars, pack, same, body_of, after_body, is_nil, closes, match_body, match_here, Piece,
  plain, hole, scan,
}

pub same_iff : (c d : Char) → (same c d ≡ true) ↔ (c ≡ d)
same_iff c d = (λ h. Char-path c d ((eqb_iff _ _).0 h), λ e. (eqb_iff _ _).1 (ap code e))

pub pack-chars : (s : String) → pack (chars s) ≡ s
pack-chars Text.[] = refl
pack-chars (Text.◌∷◌ c s) = ap (Text.◌∷◌ c) (pack-chars s)

pub chars-pack : (s : Chars) → chars (pack s) ≡ s
chars-pack [] = refl
chars-pack (c ∷ s) = ap (λ r. c ∷ r) (chars-pack s)

-- A text without the closing brace.
abbrev pub NoClose : Chars → Type 0
NoClose s = all (λ c. not (same c "}")) s ≡ true

-- A placeholder with a text after it.
abbrev pub placed : Chars → Chars → Chars
placed body rest = "{" ∷ "{" ∷ (body ++ "}" ∷ "}" ∷ rest)

body_of-NoClose : (s : Chars) → NoClose (body_of s)
unfolding body_of
body_of-NoClose [] = refl
body_of-NoClose (c ∷ s) = ground (arith, body_of-NoClose s)

body_after : (s : Chars) → body_of s ++ after_body s ≡ s
unfolding body_of after_body
body_after [] = refl
body_after (c ∷ s) = ground (arith, body_after s)

body_of_closed : (body rest : Chars) → NoClose body → body_of (body ++ "}" ∷ rest) ≡ body
unfolding body_of
body_of_closed [] rest h = refl
body_of_closed (c ∷ body) rest h = ground (arith, body_of_closed body rest)

after_body_closed :
    (body rest : Chars) → NoClose body → after_body (body ++ "}" ∷ rest) ≡ "}" ∷ rest
unfolding after_body
after_body_closed [] rest h = refl
after_body_closed (c ∷ body) rest h = ground (arith, after_body_closed body rest)

closes-eq-true : (s : Chars) → closes s ≡ true → (rest : Chars) × (s ≡ "}" ∷ "}" ∷ rest)
closes-eq-true [] h = cc
closes-eq-true (a ∷ []) h = cc
closes-eq-true (a ∷ b ∷ s) h =
    (s, cc ((same_iff a "}").0 (ground arith), (same_iff b "}").0 (ground arith)))

is_nil-eq-false : (s : Chars) → is_nil s ≡ false → s ≢ []
is_nil-eq-false s h e = cc (ap is_nil e)

not-is_nil : (s : Chars) → s ≢ [] → is_nil s ≡ false
not-is_nil [] h = absurd (h refl)
not-is_nil (c ∷ s) h = refl

-- A placeholder stands at the beginning of the text.
abbrev pub Starts : Chars → Chars → Chars → Type 0
Starts s body rest = (s ≡ placed body rest) × NoClose body × (body ≢ [])

pub match_here_found :
    (s body : Chars) → match_here s ≡ some body → (rest : Chars) × Starts s body rest
unfolding match_here match_body
match_here_found [] body h = cc
match_here_found (a ∷ []) body h = cc
match_here_found (a ∷ b ∷ s) body h =
    let found : body_of s ≡ body = ground arith in
    let full : is_nil (body_of s) ≡ false = ground arith in
    let (rest, end) = closes-eq-true (after_body s) (ground arith) in
    let first = (same_iff a "{").0 (ground arith) in
    let second = (same_iff b "{").0 (ground arith) in
    (
      rest,
      (
        cc (first, second, body_after s, found, end),
        subst NoClose found (body_of-NoClose s),
        subst (λ t. t ≢ []) found (is_nil-eq-false _ full),
      ),
    )

pub match_here-placed :
    (body rest : Chars) → NoClose body → body ≢ [] → match_here (placed body rest) ≡ some body
unfolding match_here match_body
match_here-placed body rest h full = rw (
  body_of_closed body ("}" ∷ rest) h,
  after_body_closed body ("}" ∷ rest) h,
  not-is_nil body full,
)

-- The pieces of a text: a placeholder wherever one starts, else a character.
pub data Pieces : Chars → List Piece → Type 0 where
  ended : Pieces [] []
  placeholder :
      {s : Chars} {pieces : List Piece} (body rest : Chars)
      → Starts s body rest
      → Pieces rest pieces
      → Pieces s (hole body ∷ pieces)
  character :
      {s : Chars} {pieces : List Piece} (c : Char)
      → ((body rest : Chars) → ¬ Starts (c ∷ s) body rest)
      → Pieces s pieces
      → Pieces (c ∷ s) (plain c ∷ pieces)

scan-plain :
    (c : Char) (s : Chars) → match_here (c ∷ s) ≡ none → scan (c ∷ s) 0 ≡ plain c ∷ scan s 0
unfolding scan
scan-plain c s here = rw (here, scan) refl

scan-hole :
    (c : Char) (s body : Chars)
    → match_here (c ∷ s) ≡ some body
    → scan (c ∷ s) 0 ≡ hole body ∷ scan s (length body + 3)
unfolding scan
scan-hole c s body here = rw (here, scan) refl

length-cons_add : (c : Char) (s : Chars) (left : ℕ) → length (c ∷ s) + left ≡ suc (length s + left)
length-cons_add c s left = omega arith

scan_skip :
    (skipped rest : Chars) (left : ℕ)
    → scan (skipped ++ rest) (length skipped + left) ≡ scan rest left
unfolding scan
scan_skip [] rest left = ap (scan rest) (let e : 0 + left ≡ left = omega arith in e)
scan_skip (c ∷ skipped) rest left =
    ap (scan (c ∷ skipped ++ rest)) (length-cons_add c skipped left) ∙ scan_skip skipped rest left

behind : (body : Chars) → length body + 3 ≡ suc (length body + 2)
behind body = omega arith

-- After a match the scan goes on behind it.
scan-placed :
    (body rest : Chars)
    → NoClose body
    → body ≢ []
    → scan (placed body rest) 0 ≡ hole body ∷ scan rest 0
unfolding scan
scan-placed body rest h full =
    scan-hole "{" ("{" ∷ body ++ "}" ∷ "}" ∷ rest) body (match_here-placed body rest h full)
    ∙ (ap (λ left. hole body ∷ scan ("{" ∷ body ++ "}" ∷ "}" ∷ rest) left) (behind body)
        ∙ ap (λ pieces. hole body ∷ pieces) (scan_skip body ("}" ∷ "}" ∷ rest) 2))

abbrev drop : Chars → ℕ → Chars
drop [] left = []
drop (c ∷ s) zero = c ∷ s
drop (c ∷ s) (suc left) = drop s left

drop_skip :
    (skipped rest : Chars) (left : ℕ)
    → drop (skipped ++ rest) (length skipped + left) ≡ drop rest left
drop_skip [] rest left = ap (drop rest) (let e : 0 + left ≡ left = omega arith in e)
drop_skip (c ∷ skipped) rest left =
    ap (drop (c ∷ skipped ++ rest)) (length-cons_add c skipped left) ∙ drop_skip skipped rest left

drop_zero : (s : Chars) → drop s 0 ≡ s
drop_zero [] = refl
drop_zero (c ∷ s) = refl

drop_placed : (body rest : Chars) → drop ("{" ∷ body ++ "}" ∷ "}" ∷ rest) (length body + 3) ≡ rest
drop_placed body rest =
    ap (drop ("{" ∷ body ++ "}" ∷ "}" ∷ rest)) (behind body)
    ∙ drop_skip body ("}" ∷ "}" ∷ rest) 2
    ∙ drop_zero rest

abbrev tail : Chars → Chars
tail [] = []
tail (c ∷ s) = s

missed : (s : Chars) → match_here s ≡ none → (body rest : Chars) → ¬ Starts s body rest
missed s here body rest (e, h, full) =
    cc (here, ap match_here e, match_here-placed body rest h full)

scanned : (s : Chars) (left : ℕ) → Pieces (drop s left) (scan s left)
unfolding scan
scanned [] left = ended
scanned (c ∷ s) (suc left) = scanned s left
scanned (c ∷ s) zero = elim (Option-cases (match_here (c ∷ s))) [
  | inl here ↦ subst (Pieces (c ∷ s)) (sym (scan-plain c s here)) (
      character c (missed (c ∷ s) here)
        (subst (λ t. Pieces t (scan s 0)) (drop_zero s) (scanned s 0)))
  | inr (body, here) ↦
      let (rest, begins) = match_here_found (c ∷ s) body here in
      let behind_it : drop s (length body + 3) ≡ rest =
        ap (λ t. drop (tail t) (length body + 3)) begins.0 ∙ drop_placed body rest in
      subst (Pieces (c ∷ s)) (sym (scan-hole c s body here)) (
        placeholder body rest begins (
          subst (λ t. Pieces t (scan s (length body + 3))) behind_it (scanned s (length body + 3))))
]

scan_unique : {s : Chars} {pieces : List Piece} → Pieces s pieces → pieces ≡ scan s 0
unfolding scan
scan_unique ended = refl
scan_unique {s} (placeholder body rest (e, h, full) later) =
    ap (λ pieces. hole body ∷ pieces) (scan_unique later)
    ∙ sym (scan-placed body rest h full)
    ∙ sym (ap (λ t. scan t 0) e)
scan_unique (character {s} c free later) = elim (Option-cases (match_here (c ∷ s))) [
  | inl here ↦ ap (λ pieces. plain c ∷ pieces) (scan_unique later) ∙ sym (scan-plain c s here)
  | inr (body, here) ↦
      let (rest, begins) = match_here_found (c ∷ s) body here in absurd (free body rest begins)
]

-- The pieces that a scan finds are those of the text, and only those: from the left, a placeholder of two
-- braces, at least one character that is no closing brace, and two closing braces, wherever one starts, and
-- a character where none does.
pub scan_correct : (s : Chars) (pieces : List Piece) → Pieces s pieces ↔ (pieces ≡ scan s 0)
scan_correct s pieces = (
  scan_unique,
  λ e. subst (Pieces s) (sym e) (subst (λ t. Pieces t (scan s 0)) (drop_zero s) (scanned s 0)),
)

-- The text of a piece.
abbrev pub source : Piece → Chars
source (plain c) = c ∷ []
source (hole body) = placed body []

abbrev pub sources : List Piece → Chars
sources [] = []
sources (p ∷ ps) = source p ++ sources ps

placed_append : (body rest : Chars) → placed body [] ++ rest ≡ placed body rest
placed_append body rest = ap (λ t. "{" ∷ "{" ∷ t) (go body)
  where
    go : (b : Chars) → (b ++ "}" ∷ "}" ∷ []) ++ rest ≡ b ++ "}" ∷ "}" ∷ rest
    go [] = refl
    go (c ∷ b) = ap (λ t. c ∷ t) (go b)

pub Pieces-sources : {s : Chars} {pieces : List Piece} → Pieces s pieces → sources pieces ≡ s
Pieces-sources ended = refl
Pieces-sources (placeholder {pieces = pieces} body rest (e, h, full) later) =
    placed_append body (sources pieces) ∙ ap (placed body) (Pieces-sources later) ∙ sym e
Pieces-sources (character c free later) = ap (λ t. c ∷ t) (Pieces-sources later)
