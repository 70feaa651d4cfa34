-- ===== src/Tokens/Base64.antt =====
-- `base64.RawURLEncoding`: the URL alphabet without padding.
use prism_plan.Shared.{
  ℕ, ◌+◌, ◌-◌, ◌*◌, ◌/◌, ◌%◌, ◌<◌, ◌≡◌, ◌≢◌, refl, List, [], ◌∷◌, Option, none, some, ◌&&◌, ◌||◌,
  Str, IsByte, arith, ltb, leb, ◌==◌, if◌then◌else◌, All,
}

-- The character of a six-bit group.
symbol : ℕ → ℕ
symbol d =
    if ltb d 26
    then 65 + d
    else if ltb d 52
    then 71 + d
    else if ltb d 62
    then d - 4
    else if d == 62
    then b'-'
    else b'_'

-- The six-bit group of a character of the alphabet.
group : ℕ → Option ℕ
group c =
    if leb b'A' c && leb c b'Z'
    then some (c - 65)
    else if leb b'a' c && leb c b'z'
    then some (c - 71)
    else if leb b'0' c && leb c b'9'
    then some (c + 4)
    else if c == b'-'
    then some 62
    else if c == b'_'
    then some 63
    else none

-- `EncodeToString`: three bytes to four characters, and what is left over to two or three.
unfoldable pub encode_string : List ℕ → Str
unfolding symbol
encode_string (a ∷ b ∷ c ∷ rest) =
    symbol (a / 4)
    ∷ symbol (a % 4 * 16 + b / 16)
    ∷ symbol (b % 16 * 4 + c / 64)
    ∷ symbol (c % 64)
    ∷ encode_string rest
encode_string (a ∷ b ∷ []) =
    symbol (a / 4) ∷ symbol (a % 4 * 16 + b / 16) ∷ symbol (b % 16 * 4) ∷ []
encode_string (a ∷ []) = symbol (a / 4) ∷ symbol (a % 4 * 16) ∷ []
encode_string [] = []

-- Line breaks are skipped anywhere; any other character outside the alphabet is an error.
groups : Str → Option (List ℕ)
unfolding group
groups [] = some []
groups (c ∷ s) = elim (groups s) [
  | none ↦ none
  | some gs ↦
      if c == 10 || c == 13
      then some gs
      else elim (group c) [ none ↦ none | some g ↦ some (g ∷ gs) ]
]

-- Four groups to three bytes; one group left over is an error, and spare bits are dropped.
bytes_of : List ℕ → Option (List ℕ)
bytes_of (x ∷ y ∷ z ∷ w ∷ rest) = elim (bytes_of rest) [
  | none ↦ none
  | some bs ↦ some ((x * 4 + y / 16) ∷ (y % 16 * 16 + z / 4) ∷ (z % 4 * 64 + w) ∷ bs)
]
bytes_of (x ∷ y ∷ z ∷ []) = some ((x * 4 + y / 16) ∷ (y % 16 * 16 + z / 4) ∷ [])
bytes_of (x ∷ y ∷ []) = some ((x * 4 + y / 16) ∷ [])
bytes_of (x ∷ []) = none
bytes_of [] = some []

-- `DecodeString`
pub decode_string : Str → Option (List ℕ)
unfolding groups bytes_of
decode_string s = elim (groups s) [ none ↦ none | some gs ↦ bytes_of gs ]

-- The six-bit groups of a byte string.
split : List ℕ → List ℕ
split (a ∷ b ∷ c ∷ rest) =
    (a / 4) ∷ (a % 4 * 16 + b / 16) ∷ (b % 16 * 4 + c / 64) ∷ (c % 64) ∷ split rest
split (a ∷ b ∷ []) = (a / 4) ∷ (a % 4 * 16 + b / 16) ∷ (b % 16 * 4) ∷ []
split (a ∷ []) = (a / 4) ∷ (a % 4 * 16) ∷ []
split [] = []

groups-symbol :
    (d : ℕ) (s : Str) (gs : List ℕ)
    → d < 64
    → groups s ≡ some gs
    → groups (symbol d ∷ s) ≡ some (d ∷ gs)
unfolding groups symbol
groups-symbol d s gs h e = ground arith

groups-encode_string : (bs : List ℕ) → All IsByte bs → groups (encode_string bs) ≡ some (split bs)
unfolding encode_string split
groups-encode_string [] h = unfold groups in refl
groups-encode_string (a ∷ []) h =
    groups-symbol _ _ _ (omega arith) (groups-symbol _ _ _ (omega arith) (unfold groups in refl))
groups-encode_string (a ∷ b ∷ []) h =
    groups-symbol _ _ _ (omega arith) (
      groups-symbol _ _ _ (omega arith) (groups-symbol _ _ _ (omega arith) (unfold groups in refl)))
groups-encode_string (a ∷ b ∷ c ∷ rest) h = groups-symbol _ _ _ (omega arith) (
    groups-symbol _ _ _ (omega arith) (
      groups-symbol _ _ _ (omega arith)
        (groups-symbol _ _ _ (omega arith) (groups-encode_string rest h.1.1.1))))

bytes_of-split : (bs : List ℕ) → All IsByte bs → bytes_of (split bs) ≡ some bs
unfolding bytes_of split
bytes_of-split [] h = refl
bytes_of-split (a ∷ []) h = ground arith
bytes_of-split (a ∷ b ∷ []) h = ground arith
bytes_of-split (a ∷ b ∷ c ∷ rest) h = ground (arith, bytes_of-split rest h.1.1.1)

-- Decoding reads back every byte string that was encoded.
pub decode_string-encode_string :
    (bs : List ℕ) → All IsByte bs → decode_string (encode_string bs) ≡ some bs
unfolding decode_string
decode_string-encode_string bs h = ground (arith, groups-encode_string bs h, bytes_of-split bs h)

-- Something is written for every byte string but the empty one.
pub encode_string-ne-nil : (b : ℕ) (bs : List ℕ) → encode_string (b ∷ bs) ≢ []
unfolding encode_string
encode_string-ne-nil a [] e = cc
encode_string-ne-nil a (b ∷ []) e = cc
encode_string-ne-nil a (b ∷ c ∷ rest) e = cc
