-- ===== src/Auth/Accepts.antt =====
-- What an accepted header promises.
use prism_plan.Shared.{
  ◌≡◌, refl, ap, subst, Option, none, some, Bool, true, false, not, Str, is_empty, Result, ok, err,
  ℤ, pos, ◌+ℤ◌, arith, ◌==◌, if_cases, if◌then◌else◌,
}
use prism_plan.Auth.{
  Verifier, Auth, AuthError, bad_header, second_part, dots, token_in, named, api_checks,
  stream_checks, with_token, api_user_id, stream_user_id,
}

-- The claims name the user and pass the checks of their time, their audience and their issuer.
pub record Vouches {C : Type 0} (jwt : Verifier C) (auth : Auth) (now : ℤ) (user_id : Str)
    (claims : C) : Type 0 where
  pub expires : jwt.verify_expires_at claims (now +ℤ pos 60) true ≡ true
  pub not_before : jwt.verify_not_before claims (now +ℤ pos 60) false ≡ true
  pub audience : jwt.verify_audience claims auth.audience false ≡ true
  pub issuer : jwt.verify_issuer claims auth.issuer false ≡ true
  pub subject : jwt.subject claims ≡ some user_id
  pub has_name : is_empty user_id ≡ false

token_of : Str → Result AuthError Str → Str
token_of default (ok s) = s
token_of default (err e) = default

dotted-ok :
    (found : Option Str) (token : Str)
    → elim found as (λ _. Result AuthError Str) [
      | none ↦ err bad_header
      | some t ↦ if dots t == 2 then ok t else err bad_header
    ]
      ≡ ok token
    → (found ≡ some token) × (dots token ≡ 2)
unfolding token_of
dotted-ok none token = λ e. cc
dotted-ok (some t) token =
    if_cases (λ r. r ≡ ok token → (some t ≡ some token) × (dots token ≡ 2)) (dots t == 2) _ _
      (λ two e.
        let same : t ≡ token = ap (token_of t) e in
        (ap some same, subst (λ x. dots x ≡ 2) same (ground arith)))
      λ _ e. cc

token_in-ok :
    (header token : Str)
    → token_in header ≡ ok token
    → (second_part header ≡ some token) × (dots token ≡ 2)
unfolding token_in
token_in-ok header token =
    if_cases (λ r. r ≡ ok token → (second_part header ≡ some token) × (dots token ≡ 2))
      (is_empty header) _ _ (λ _ e. cc) λ _. dotted-ok (second_part header) token

module _ {C : Type 0} (jwt : Verifier C) (auth : Auth) (now : ℤ) (user_id : Str) where
  abbrev Gives : Result AuthError Str → Type 0
  Gives r = r ≡ ok user_id

  value_of : Str → Result AuthError Str → Str
  value_of default (ok s) = s
  value_of default (err e) = default

  named-Gives :
      (sub : Option Str)
      → Gives (named jwt auth now sub)
      → (sub ≡ some user_id) × (is_empty user_id ≡ false)
  unfolding value_of
  named-Gives none = λ e. cc
  named-Gives (some sub) =
      if_cases (λ r. Gives r → (some sub ≡ some user_id) × (is_empty user_id ≡ false))
        (is_empty sub) _ _ (λ h e. cc)
        λ h e.
          let same : sub ≡ user_id = ap (value_of sub) e in
          (ap some same, subst (λ s. is_empty s ≡ false) same h)

  not-true : (b : Bool) → not b ≡ false → b ≡ true
  not-true true h = refl
  not-true false h = cc

  stream_checks-Vouches :
      (claims : C)
      → Gives (stream_checks jwt auth now (ok claims))
      → Vouches jwt auth now user_id claims
  stream_checks-Vouches claims =
      if_cases P (not (jwt.verify_expires_at claims (now +ℤ pos 60) true)) _ _ (λ _ e. cc)
        λ in_time.
          if_cases P (not (jwt.verify_not_before claims (now +ℤ pos 60) false)) _ _ (λ _ e. cc)
            λ begun.
              if_cases P (not (jwt.verify_audience claims auth.audience false)) _ _ (λ _ e. cc)
                λ heard.
                  if_cases P (not (jwt.verify_issuer claims auth.issuer false)) _ _ (λ _ e. cc)
                    λ issued e.
                      let name = named-Gives (jwt.subject claims) e in
                      record {
                        expires = not-true _ in_time;
                        not_before = not-true _ begun;
                        audience = not-true _ heard;
                        issuer = not-true _ issued;
                        subject = name.0;
                        has_name = name.1;
                      }
    where
      P : Result AuthError Str → Type 0
      P r = Gives r → Vouches jwt auth now user_id claims

  api-stream_checks :
      (r : Result Str C) → Gives (api_checks jwt auth now r) → Gives (stream_checks jwt auth now r)
  api-stream_checks (err e) h = h
  api-stream_checks (ok claims) h = ground (arith, h)

  api-stream :
      (t : Result AuthError Str)
      → Gives (with_token jwt auth now (api_checks jwt auth now) t)
      → Gives (with_token jwt auth now (stream_checks jwt auth now) t)
  api-stream (err e) = λ h. h
  api-stream (ok token) =
      if_cases
        (λ r. Gives r → Gives (with_token jwt auth now (stream_checks jwt auth now) (ok token)))
        auth.test_mode _ _ (λ test e. rw test e)
        λ live e. rw live (api-stream_checks (jwt.parse_rs256 token) e)

  stream_token-Vouches :
      (r : Result Str C)
      → Gives (stream_checks jwt auth now r)
      → (claims : C) × (r ≡ ok claims) × Vouches jwt auth now user_id claims
  stream_token-Vouches (err e) h = cc
  stream_token-Vouches (ok claims) h = (claims, refl, stream_checks-Vouches claims h)

  with_token-Vouches :
      (t : Result AuthError Str)
      → auth.test_mode ≡ false
      → Gives (with_token jwt auth now (stream_checks jwt auth now) t)
      → (token : Str) × (claims : C) × (t ≡ ok token)
        × (jwt.parse_rs256 token ≡ ok claims)
        × Vouches jwt auth now user_id claims
  with_token-Vouches (err e) live = λ h. cc
  with_token-Vouches (ok token) live =
      if_cases
        (λ r.
          Gives r
          → (token' : Str) × (claims : C) × (◌≡◌ {A = Result AuthError Str} (ok token) (ok token'))
            × (jwt.parse_rs256 token' ≡ ok claims)
            × Vouches jwt auth now user_id claims)
        auth.test_mode _ _ (λ test e. cc)
        λ _ e.
          let (claims, parsed, v) = stream_token-Vouches (jwt.parse_rs256 token) e in
          (token, claims, refl, parsed, v)

  -- A header that prism-api accepts for a user is accepted by stream-service for the same user, where
  -- both have one configuration and clock.
  pub api-stream_user_id :
      (header : Str)
      → api_user_id jwt auth now header ≡ ok user_id
      → stream_user_id jwt auth now header ≡ ok user_id
  unfolding api_user_id stream_user_id
  api-stream_user_id header = api-stream (token_in header)

  -- Outside the test mode, a header that stream-service accepts for a user has a token with two dots
  -- after its first space, which is signed under RS256, and whose claims name the user, who is not
  -- empty, and pass the checks of time, audience and issuer.
  pub stream_user_id-Vouches :
      (header : Str)
      → auth.test_mode ≡ false
      → stream_user_id jwt auth now header ≡ ok user_id
      → (token : Str) × (claims : C) × (second_part header ≡ some token)
        × (dots token ≡ 2)
        × (jwt.parse_rs256 token ≡ ok claims)
        × Vouches jwt auth now user_id claims
  unfolding stream_user_id
  stream_user_id-Vouches header live e =
      let (token, claims, here, parsed, v) = with_token-Vouches (token_in header) live e in
      let shape = token_in-ok header token here in (token, claims, shape.0, shape.1, parsed, v)
