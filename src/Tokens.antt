-- ===== src/Tokens.antt =====
-- Continuation tokens: `encodeContinuationToken` (prism-api/storage/storage.go and, with the same
-- text, read-model-updater/cache.go) and `decodeContinuationToken` (prism-api/storage/storage.go).
pub mod Base64
pub mod RoundTrip
use prism_plan.Shared.{
  ℕ, zero, suc, ◌+◌, ◌-◌, ◌*◌, ◌/◌, ◌%◌, ◌^◌, ◌≤◌, ◌<◌, ◌≡◌, ◌≢◌, refl, sym, ap, ◌∙◌, subst, ◌↔◌,
  ◌⊎◌, inl, inr, List, [], ◌∷◌, ◌++◌, map, Option, none, some, Bool, true, false, not, ◌&&◌, ◌||◌,
  Str, lit, IsByte, str_eq, is_empty, str_eq_refl, str_eq_iff, str_eq_ne, is_empty_iff, Result, ok,
  err, ℤ, pos, negsuc, neg_part, pos_part, ◌+ℤ◌, ◌≤ℤ◌, ◌<ℤ◌, leb_ℤ, ltb_ℤ, eqb_ℤ, wrap_int64,
  wrap_int32, wrap_int64_self, wrap_int32_self, IsInt64, is_int64, arith, ltb, leb, ◌==◌, ==_iff,
  ==_refl, Bool-cases, Option-cases, if◌then◌else◌, length, get_elem?, take, drop, length-append,
  length-take, length-drop, length-map, take-append_left, drop-append_left, take-length, All,
}
use Base64.{encode_string, decode_string}

-- `binary.BigEndian.PutUint32` of `uint32(n)`.
unfoldable pub put_uint32 : ℕ → List ℕ
put_uint32 n = (n / 2 ^ 24 % 256) ∷ (n / 2 ^ 16 % 256) ∷ (n / 2 ^ 8 % 256) ∷ (n % 256) ∷ []

-- `binary.BigEndian.Uint32` of four bytes.
pub uint32 : List ℕ → ℕ
uint32 (a ∷ b ∷ c ∷ d ∷ _) = a * 2 ^ 24 + b * 2 ^ 16 + c * 2 ^ 8 + d
uint32 _ = 0

abbrev pub Keys : Type 0
Keys = Str × Str

-- The bytes under the base64 layer: both lengths, then both keys.
unfoldable pub frame : Str → Str → List ℕ
unfolding put_uint32
frame pk rk = put_uint32 (length pk) ++ (put_uint32 (length rk) ++ (pk ++ rk))

-- `encodeContinuationToken`; it never returns an error.
unfoldable pub encode_continuation_token : Option Str → Option Str → Str
unfolding frame
encode_continuation_token none rk = []
encode_continuation_token (some pk) none = []
encode_continuation_token (some pk) (some rk) =
    if is_empty pk || is_empty rk then [] else encode_string (frame pk rk)

pub data TokenError : Type 0 where
  corrupt_base64 bad_json missing_components : TokenError

-- `sonic.Unmarshal` into `continuationToken`: the fields `pk` and `rk`, or nothing on an error.
abbrev pub LegacyDecoder : Type 0
LegacyDecoder = List ℕ → Option Keys

-- The JSON form of older tokens.
pub decode_legacy : Option Keys → Result TokenError (Option Keys)
decode_legacy none = err bad_json
decode_legacy (some (pk, rk)) =
    if is_empty pk || is_empty rk then err missing_components else ok (some (pk, rk))

-- The length-prefixed form, where the bytes have it.
pub parse_frame : List ℕ → Option Keys
unfolding uint32
parse_frame bytes =
    let pk_len = uint32 (take 4 bytes) in
    let rk_len = uint32 (take 4 (drop 4 bytes)) in
    let expected = 8 + pk_len + rk_len in
    let pk = take pk_len (drop 8 bytes) in
    let rk = take rk_len (drop (8 + pk_len) bytes) in
    if leb 8 (length bytes)
    then if ltb 0 pk_len && (ltb 0 rk_len && expected == length bytes)
      then if not (is_empty pk) && not (is_empty rk) then some (pk, rk) else none
      else none
    else none

abbrev frame_or_legacy : Option Keys → Option Keys → Result TokenError (Option Keys)
frame_or_legacy (some keys) legacy = ok (some keys)
frame_or_legacy none legacy = decode_legacy legacy

abbrev decode_bytes : LegacyDecoder → Option (List ℕ) → Result TokenError (Option Keys)
decode_bytes legacy none = err corrupt_base64
decode_bytes legacy (some bytes) = frame_or_legacy (parse_frame bytes) (legacy bytes)

-- `decodeContinuationToken`: no keys for the empty token, both keys, or an error.
pub decode_continuation_token : LegacyDecoder → Str → Result TokenError (Option Keys)
unfolding parse_frame decode_legacy
decode_continuation_token legacy token =
    if is_empty token then ok none else decode_bytes legacy (decode_string token)
