-- ===== src/Tokens/RoundTrip.antt =====
-- Decoding a continuation token that was encoded gives back its keys.
use prism_plan.Shared.{
  ℕ, zero, suc, ◌+◌, ◌^◌, ◌<◌, ◌≡◌, refl, ap, ◌∙◌, List, [], ◌∷◌, ◌++◌, Option, none, some, Bool,
  true, false, ◌||◌, Str, IsByte, is_empty, is_empty_iff, ok, arith, if◌then◌else◌, length, take,
  drop, length-append, take-append_left, drop-append_left, take-length, All,
}
use native.Mathlib.Nat.{suc-add}
use prism_plan.Tokens.{
  Keys, put_uint32, uint32, frame, encode_continuation_token, parse_frame, LegacyDecoder,
  decode_continuation_token,
}
use prism_plan.Tokens.Base64.{encode_string, decode_string-encode_string, encode_string-ne-nil}

-- A key whose length a 32-bit prefix can hold.
abbrev pub IsKey : Str → Type 0
IsKey s = All IsByte s × (length s < 2 ^ 32)

-- The keys that a token stands for: both, or none where one is missing or empty.
pub present : Option Str → Option Str → Option Keys
present (some pk) (some rk) = if is_empty pk || is_empty rk then none else some (pk, rk)
present none rk = none
present (some pk) none = none

abbrev pub Both : Option Str → Option Str → Type 0
Both (some pk) (some rk) = IsKey pk × IsKey rk
Both _ _ = Unit

All-append {ℓ κ} :
    {A : Type ℓ} (P : A → Type κ) (xs ys : List A) → All P xs → All P ys → All P (xs ++ ys)
All-append P [] ys h k = k
All-append P (x ∷ xs) ys h k = (h.0, All-append P xs ys h.1 k)

put_uint32-bytes : (n : ℕ) → All IsByte (put_uint32 n)
unfolding put_uint32
put_uint32-bytes n = omega arith

frame-bytes : (pk rk : Str) → All IsByte pk → All IsByte rk → All IsByte (frame pk rk)
unfolding frame
frame-bytes pk rk hp hr =
    All-append IsByte (put_uint32 (length pk)) (put_uint32 (length rk) ++ (pk ++ rk))
      (put_uint32-bytes (length pk))
      (All-append IsByte (put_uint32 (length rk)) (pk ++ rk) (put_uint32-bytes (length rk))
        (All-append IsByte pk rk hp hr))

uint32-put_uint32 : (n : ℕ) (rest : List ℕ) → n < 2 ^ 32 → uint32 (put_uint32 n ++ rest) ≡ n
unfolding uint32 put_uint32
uint32-put_uint32 n rest h = omega arith

drop-add {ℓ} : {A : Type ℓ} (m n : ℕ) (xs : List A) → drop (m + n) xs ≡ drop n (drop m xs)
drop-add zero n xs = ap (λ k. drop k xs) (omega arith)
drop-add (suc m) zero [] = rw (suc-add m zero)
drop-add (suc m) (suc n) [] = rw (suc-add m (suc n))
drop-add (suc m) n (x ∷ xs) = rw (suc-add m n) (drop-add m n xs)

-- Both lengths read back, and both keys found where they should be.
parse_frame_of_parts :
    (bytes pk rk : List ℕ)
    → uint32 (take 4 bytes) ≡ length pk
    → uint32 (take 4 (drop 4 bytes)) ≡ length rk
    → length bytes ≡ 8 + length pk + length rk
    → take (length pk) (drop 8 bytes) ≡ pk
    → take (length rk) (drop (8 + length pk) bytes) ≡ rk
    → is_empty pk ≡ false
    → is_empty rk ≡ false
    → 0 < length pk
    → 0 < length rk
    → parse_frame bytes ≡ some (pk, rk)
unfolding parse_frame
parse_frame_of_parts bytes pk rk e1 e2 e3 e4 e5 e6 e7 h1 h2 =
    rw (e1, e2, e4, e5, e6, e7) (ground arith)

module _ (p : ℕ) (ps : Str) (r : ℕ) (rs : Str) where
  abbrev front : Str
  front = p ∷ ps

  abbrev back : Str
  back = r ∷ rs

  length-frame : length (frame front back) ≡ 8 + length front + length back
  unfolding frame put_uint32
  length-frame = omega (arith, length-append front back)

  parse_frame-frame :
      length front < 2 ^ 32
      → length back < 2 ^ 32
      → parse_frame (frame front back) ≡ some (front, back)
  unfolding frame put_uint32 is_empty
  parse_frame-frame hp hr =
      parse_frame_of_parts (frame front back) front back (uint32-put_uint32 (length front) [] hp)
        (uint32-put_uint32 (length back) [] hr) length-frame (take-append_left front back)
        (rw (drop-add 8 (length front)) (rw (drop-append_left front back) (take-length back))) refl
        refl (omega arith) (omega arith)

decode_encoded :
    (legacy : LegacyDecoder) (b : ℕ) (bs : List ℕ) (keys : Keys)
    → All IsByte (b ∷ bs)
    → parse_frame (b ∷ bs) ≡ some keys
    → decode_continuation_token legacy (encode_string (b ∷ bs)) ≡ ok (some keys)
unfolding decode_continuation_token
decode_encoded legacy b bs keys h e = ground (
  arith,
  (is_empty_iff (encode_string (b ∷ bs))).0,
  encode_string-ne-nil b bs,
  decode_string-encode_string (b ∷ bs) h,
)

-- Whatever keys a page ends with, the token made from them decodes to the same keys; the token of
-- missing or empty keys is empty and decodes to no keys. Keys are byte strings shorter than 2^32.
pub decode-encode_continuation_token :
    (legacy : LegacyDecoder) (pk rk : Option Str)
    → Both pk rk
    → decode_continuation_token legacy (encode_continuation_token pk rk) ≡ ok (present pk rk)
unfolding encode_continuation_token present
decode-encode_continuation_token legacy none rk h =
    unfold decode_continuation_token is_empty in refl
decode-encode_continuation_token legacy (some pk) none h =
    unfold decode_continuation_token is_empty in refl
decode-encode_continuation_token legacy (some []) (some rk) h =
    unfold decode_continuation_token is_empty in refl
decode-encode_continuation_token legacy (some (p ∷ ps)) (some []) h =
    unfold decode_continuation_token is_empty in refl
decode-encode_continuation_token legacy (some (p ∷ ps)) (some (r ∷ rs)) h =
    unfold is_empty frame put_uint32 in
    decode_encoded legacy _ _ (p ∷ ps, r ∷ rs) (frame-bytes (p ∷ ps) (r ∷ rs) h.0.0 h.1.0)
      (parse_frame-frame p ps r rs h.0.1 h.1.1)

is_empty-encode_string : (b : ℕ) (bs : List ℕ) → is_empty (encode_string (b ∷ bs)) ≡ false
is_empty-encode_string b bs =
    ground (arith, (is_empty_iff (encode_string (b ∷ bs))).0, encode_string-ne-nil b bs)

abbrev pub absent {ℓ} : {A : Type ℓ} → Option A → Bool
absent none = true
absent (some a) = false

-- The token is empty exactly where there are no keys.
pub is_empty-encode_continuation_token :
    (pk rk : Option Str) → is_empty (encode_continuation_token pk rk) ≡ absent (present pk rk)
unfolding encode_continuation_token present
is_empty-encode_continuation_token none rk = unfold is_empty in refl
is_empty-encode_continuation_token (some pk) none = unfold is_empty in refl
is_empty-encode_continuation_token (some []) (some rk) = unfold is_empty in refl
is_empty-encode_continuation_token (some (p ∷ ps)) (some []) = unfold is_empty in refl
is_empty-encode_continuation_token (some (p ∷ ps)) (some (r ∷ rs)) =
    unfold is_empty frame put_uint32 in is_empty-encode_string _ _

pub decode_continuation_token-nil :
    (legacy : LegacyDecoder) → decode_continuation_token legacy [] ≡ ok none
unfolding decode_continuation_token is_empty
decode_continuation_token-nil legacy = refl

present-both :
    (pk rk : Str)
    → is_empty (encode_continuation_token (some pk) (some rk)) ≡ false
    → present (some pk) (some rk) ≡ some (pk, rk)
unfolding present encode_continuation_token is_empty
present-both [] rk h = cc
present-both (p ∷ ps) [] h = cc
present-both (p ∷ ps) (r ∷ rs) h = refl

-- A token that is not empty decodes to the keys it was made from.
pub decode-encode_both :
    (legacy : LegacyDecoder) (pk rk : Str)
    → IsKey pk × IsKey rk
    → is_empty (encode_continuation_token (some pk) (some rk)) ≡ false
    → decode_continuation_token legacy (encode_continuation_token (some pk) (some rk))
      ≡ ok (some (pk, rk))
decode-encode_both legacy pk rk fit h =
    decode-encode_continuation_token legacy (some pk) (some rk) fit ∙ ap ok (present-both pk rk h)
