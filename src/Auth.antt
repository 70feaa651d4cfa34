-- ===== src/Auth.antt =====
-- prism-api/api/auth.go and stream-service/api/auth.go: the user of an Authorization header. The JWT
-- library is a parameter.
pub mod Accepts
use prism_plan.Shared.{
  ℕ, zero, suc, ◌+◌, ◌-◌, ◌*◌, ◌/◌, ◌%◌, ◌^◌, ◌≤◌, ◌<◌, ◌≡◌, ◌≢◌, refl, sym, ap, ◌∙◌, subst, ◌↔◌,
  ◌⊎◌, inl, inr, List, [], ◌∷◌, ◌++◌, map, Option, none, some, Bool, true, false, not, ◌&&◌, ◌||◌,
  Str, lit, IsByte, str_eq, is_empty, str_eq_refl, str_eq_iff, str_eq_ne, is_empty_iff, Result, ok,
  err, ℤ, pos, negsuc, neg_part, pos_part, ◌+ℤ◌, ◌≤ℤ◌, ◌<ℤ◌, leb_ℤ, ltb_ℤ, eqb_ℤ, wrap_int64,
  wrap_int32, wrap_int64_self, wrap_int32_self, IsInt64, is_int64, scale, atoi, arith, ltb, leb,
  ◌==◌, ==_iff, ==_refl, Bool-cases, if_cases, if_cases_both, Option-cases, if◌then◌else◌, length,
  get_elem?, take, drop, length-append, length-take, length-drop, length-map, take-append_left,
  drop-append_left, take-length, All,
}

-- golang-jwt and keyfunc: `jwt.Parse` with the test secret (HMAC) and the parser for RS256 with the
-- published keys, each with the claims or an error; and the methods of the claims, given whether the
-- claim is required.
pub record Verifier (C : Type 0) : Type 0 where
  pub parse_hmac : Str → Result Str C
  pub parse_rs256 : Str → Result Str C
  pub verify_expires_at : C → ℤ → Bool → Bool
  pub verify_not_before : C → ℤ → Bool → Bool
  pub verify_issued_at : C → ℤ → Bool → Bool
  pub verify_audience : C → Str → Bool → Bool
  pub verify_issuer : C → Str → Bool → Bool
  pub subject : C → Option Str

-- `Auth`
pub record Auth : Type 0 where
  pub audience : Str
  pub issuer : Str
  pub test_mode : Bool

pub data AuthError : Type 0 where
  missing_header bad_header expired not_valid_yet before_issued bad_audience bad_issuer
        missing_sub :
      AuthError
  bad_token : Str → AuthError

-- What follows the first space, as `strings.SplitN(h, " ", 2)` has it.
unfoldable pub second_part : Str → Option Str
second_part [] = none
second_part (c ∷ s) = if c == b' ' then some s else second_part s

-- `strings.Count(s, ".")`
unfoldable pub dots : Str → ℕ
dots [] = 0
dots (c ∷ s) = if c == b'.' then suc (dots s) else dots s

-- The token of a header.
unfoldable pub token_in : Str → Result AuthError Str
unfolding second_part dots
token_in h = if is_empty h then err missing_header else elim (second_part h) [
  | none ↦ err bad_header
  | some token ↦ if dots token == 2 then ok token else err bad_header
]

module _ {C : Type 0} (jwt : Verifier C) (auth : Auth) (now : ℤ) where
  abbrev pub named : Option Str → Result AuthError Str
  named none = err missing_sub
  named (some sub) = if is_empty sub then err missing_sub else ok sub

  abbrev pub only_named : Result Str C → Result AuthError Str
  only_named (err e) = err (bad_token e)
  only_named (ok claims) = named (jwt.subject claims)

  -- `time.Now().Add(time.Minute).Unix()`, with `now` in seconds.
  abbrev pub soon : ℤ
  soon = now +ℤ pos 60

  abbrev pub from_audience : C → Result AuthError Str
  from_audience claims =
      if not (jwt.verify_audience claims auth.audience false)
      then err bad_audience
      else if not (jwt.verify_issuer claims auth.issuer false)
      then err bad_issuer
      else named (jwt.subject claims)

  abbrev pub api_checks : Result Str C → Result AuthError Str
  api_checks (err e) = err (bad_token e)
  api_checks (ok claims) =
      if not (jwt.verify_expires_at claims soon true)
      then err expired
      else if not (jwt.verify_not_before claims soon false)
      then err not_valid_yet
      else if not (jwt.verify_issued_at claims soon false)
      then err before_issued
      else from_audience claims

  abbrev pub stream_checks : Result Str C → Result AuthError Str
  stream_checks (err e) = err (bad_token e)
  stream_checks (ok claims) =
      if not (jwt.verify_expires_at claims soon true)
      then err expired
      else if not (jwt.verify_not_before claims soon false)
      then err not_valid_yet
      else from_audience claims

  abbrev pub with_token :
      (Result Str C → Result AuthError Str) → Result AuthError Str → Result AuthError Str
  with_token checks (err e) = err e
  with_token checks (ok token) =
      if auth.test_mode then only_named (jwt.parse_hmac token) else checks (jwt.parse_rs256 token)

  -- `UserIDFromAuthHeader` of prism-api
  unfoldable pub api_user_id : Str → Result AuthError Str
  unfolding token_in
  api_user_id h = with_token api_checks (token_in h)

  -- `UserIDFromAuthHeader` of stream-service
  unfoldable pub stream_user_id : Str → Result AuthError Str
  unfolding token_in
  stream_user_id h = with_token stream_checks (token_in h)

-- The header that `stream` checks: that of the request, or one made of the query's token.
unfoldable pub stream_header : Str → Str → Str
stream_header token header =
    if is_empty header && not (is_empty token) then lit "Bearer " ++ token else header
