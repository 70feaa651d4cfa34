-- ===== src/Examples/Tokens.antt =====
-- Continuation tokens at concrete inputs.
use prism_plan.Shared.{◌≡◌, none, some, lit, ok, arith}
use prism_plan.Tokens.{LegacyDecoder, encode_continuation_token, decode_continuation_token}
use prism_plan.Tokens.Base64.{encode_string, decode_string, decode_string-encode_string}
use prism_plan.Tokens.RoundTrip.{present, decode-encode_continuation_token}

abbrev no_legacy : LegacyDecoder
no_legacy bytes = none

decode-encode_continuation_token_example :
    decode_continuation_token no_legacy
      (encode_continuation_token (some (lit "user|1")) (some (lit "task-7")))
    ≡ ok (present (some (lit "user|1")) (some (lit "task-7")))
decode-encode_continuation_token_example =
    decode-encode_continuation_token no_legacy (some (lit "user|1")) (some (lit "task-7"))
      (omega arith)

decode_string-encode_string_example :
    decode_string (encode_string (lit "light w")) ≡ some (lit "light w")
decode_string-encode_string_example = decode_string-encode_string (lit "light w") (omega arith)
