-- ===== src/Examples/Auth.antt =====
-- Authentication with a library that accepts one token.
use prism_plan.Shared.{
  ◌≡◌, refl, some, true, false, Str, lit, str_eq, is_empty, ok, err, pos, if◌then◌else◌,
}
use prism_plan.Auth.{Verifier, Auth, token_in, second_part, dots, api_user_id, stream_user_id}
use prism_plan.Auth.Accepts.{Vouches, api-stream_user_id, stream_user_id-Vouches}

abbrev Claims : Type 0
Claims = Str

-- The claims are the subject; every token is in time.
abbrev lenient : Verifier Claims
lenient = record {
  parse_hmac = λ token. err (lit "no secret");
  parse_rs256 =
      λ token. if str_eq token (lit "a.b.c") then ok (lit "u") else err (lit "bad signature");
  verify_expires_at = λ claims now required. true;
  verify_not_before = λ claims now required. true;
  verify_issued_at = λ claims now required. true;
  verify_audience = λ claims audience required. true;
  verify_issuer = λ claims issuer required. true;
  subject = λ claims. some claims;
}

abbrev config : Auth
config = record { audience = lit "api"; issuer = lit "https://issuer/"; test_mode = false }

accepted : api_user_id lenient config (pos 5) (lit "Bearer a.b.c") ≡ ok (lit "u")
unfolding api_user_id token_in second_part dots str_eq is_empty
accepted = refl

api-stream_user_id_example :
    stream_user_id lenient config (pos 5) (lit "Bearer a.b.c") ≡ ok (lit "u")
api-stream_user_id_example =
    api-stream_user_id lenient config (pos 5) (lit "u") (lit "Bearer a.b.c") accepted

streamed : stream_user_id lenient config (pos 5) (lit "Bearer a.b.c") ≡ ok (lit "u")
unfolding stream_user_id token_in second_part dots str_eq is_empty
streamed = refl

stream_user_id-Vouches_example :
    (token : Str) × (claims : Claims) × (second_part (lit "Bearer a.b.c") ≡ some token)
    × (dots token ≡ 2)
    × (lenient.parse_rs256 token ≡ ok claims)
    × Vouches lenient config (pos 5) (lit "u") claims
stream_user_id-Vouches_example =
    stream_user_id-Vouches lenient config (pos 5) (lit "u") (lit "Bearer a.b.c") refl streamed
