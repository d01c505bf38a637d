-- ===== src/Position/Base64.antt =====
-- base64.RawURLEncoding, as encodePosition and decodePosition of
-- reference-client/internal/testrouter/streams.go use it.
use masterdata_sync_working.Prelude.{
  ℕ, ◌+◌, ◌-◌, ◌*◌, ◌/◌, ◌%◌, ◌<◌, ◌≡◌, arith, true, ◌||◌, Option, none, some, List, [], ◌∷◌, ◌==◌,
  ltb, leb, ◌&&◌, if◌then◌else◌, keep, not,
}

-- A sextet's character.
unfoldable pub letter : ℕ → ℕ
letter n =
    if ltb n 26
    then n + 65
    else if ltb n 52
    then n + 71
    else if ltb n 62
    then n - 4
    else if n == 62
    then 45
    else 95

unfoldable pub sextet : ℕ → Option ℕ
sextet c =
    if leb 65 c && leb c 90
    then some (c - 65)
    else if leb 97 c && leb c 122
    then some (c - 71)
    else if leb 48 c && leb c 57
    then some (c + 4)
    else if c == 45
    then some 62
    else if c == 95
    then some 63
    else none

unfoldable pub encode : List ℕ → List ℕ
unfolding letter
encode [] = []
encode (a ∷ []) = letter (a / 4) ∷ letter (a % 4 * 16) ∷ []
encode (a ∷ b ∷ []) = letter (a / 4) ∷ letter (a % 4 * 16 + b / 16) ∷ letter (b % 16 * 4) ∷ []
encode (a ∷ b ∷ c ∷ rest) =
    letter (a / 4)
    ∷ letter (a % 4 * 16 + b / 16)
    ∷ letter (b % 16 * 4 + c / 64)
    ∷ letter (c % 64)
    ∷ encode rest

infixl 5 ◌>>=◌
abbrev pub ◌>>=◌ {ℓ κ} : {A : Type ℓ} {B : Type κ} → Option A → (A → Option B) → Option B
none >>= f = none
some a >>= f = f a

-- The characters with the line breaks already left out. Bits that fill no byte are ignored.
unfoldable pub decode_quads : List ℕ → Option (List ℕ)
unfolding sextet
decode_quads [] = some []
decode_quads (a ∷ []) = none
decode_quads (a ∷ b ∷ []) = do i ← sextet a; j ← sextet b; some ((i * 4 + j / 16) ∷ [])
decode_quads (a ∷ b ∷ c ∷ []) = do
  i ← sextet a
  j ← sextet b
  k ← sextet c
  some ((i * 4 + j / 16) ∷ (j % 16 * 16 + k / 4) ∷ [])
decode_quads (a ∷ b ∷ c ∷ d ∷ rest) = do
  i ← sextet a
  j ← sextet b
  k ← sextet c
  l ← sextet d
  bytes ← decode_quads rest
  some ((i * 4 + j / 16) ∷ (j % 16 * 16 + k / 4) ∷ (k % 4 * 64 + l) ∷ bytes)

-- DecodeString, which passes over line breaks.
unfoldable pub decode : List ℕ → Option (List ℕ)
unfolding decode_quads
decode cs = decode_quads (keep (λ c. not (c == 10 || c == 13)) cs)

sextet-letter : (n : ℕ) → n < 64 → sextet (letter n) ≡ some n
unfolding sextet letter
sextet-letter n h = ground arith

letter_visible : (n : ℕ) → n < 64 → not (letter n == 10 || letter n == 13) ≡ true
unfolding letter
letter_visible n h = ground arith
