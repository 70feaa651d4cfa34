-- ===== src/Startup/Settings.antt =====
-- The settings that the services read from the environment.
use prism_plan.Shared.{
  List, [], ◌∷◌, ◌++◌, Option, none, some, Bool, false, ◌&&◌, ◌||◌, Str, lit, str_eq, is_empty,
  Result, ok, err, ℤ, pos, leb_ℤ, atoi, if◌then◌else◌,
}
use prism_plan.Api.Pool.{Env}
use prism_plan.Auth.{Auth}
use prism_plan.Startup.Redis.{RedisOptions, redis_options}

unfoldable pub and_then : {A B : Type 0} → Result Str A → (A → Result Str B) → Result Str B
and_then (err e) rest = err e
and_then (ok a) rest = rest a

-- None of the variables may be empty.
abbrev pub has_empty : Env → List Str → Bool
has_empty env [] = false
has_empty env (key ∷ keys) = is_empty (env key) || has_empty env keys

abbrev pub require : Env → List Str → Str → Result Str (Unit {0})
require env keys message = if has_empty env keys then err message else ok tt

abbrev pub positive_number : Str → Option ℤ → Result Str ℤ
positive_number key none = err (lit "invalid " ++ key)
positive_number key (some n) = if leb_ℤ n (pos 0) then err (lit "invalid " ++ key) else ok n

-- A number that must be positive where it is set.
unfoldable pub positive_setting : Env → Str → ℤ → Result Str ℤ
positive_setting env key default =
    if is_empty (env key) then ok default else positive_number key (atoi (env key))

-- A duration that must be positive where it is set; `parse_duration` is `time.ParseDuration`.
unfoldable pub duration_setting : (Str → Option ℤ) → Env → Str → ℤ → Result Str ℤ
duration_setting parse_duration env key default =
    if is_empty (env key) then ok default else positive_number key (parse_duration (env key))

unfoldable pub redis_setting : (Str → Option RedisOptions) → Env → Result Str RedisOptions
redis_setting parse_url env =
    if is_empty (env (lit "REDIS_CONNECTION_STRING"))
    then err (lit "missing redis config")
    else ok (redis_options parse_url (env (lit "REDIS_CONNECTION_STRING")))

-- `NewAuth`, which reads the test mode itself.
unfoldable pub new_auth : Env → Str → Str → Result Str Auth
new_auth env audience issuer =
    let test_mode = str_eq (env (lit "AUTH0_TEST_MODE")) (lit "1") in
    if test_mode && is_empty (env (lit "TEST_JWT_SECRET"))
    then err (lit "TEST_JWT_SECRET must be set when AUTH0_TEST_MODE=1")
    else ok (record { audience = audience; issuer = issuer; test_mode = test_mode })

-- `fetch_keys` is `keyfunc.Get`, and tells whether there are keys under the address.
unfoldable pub auth_setting : (Str → Bool) → Env → Result Str Auth
unfolding new_auth
auth_setting fetch_keys env =
    let domain = env (lit "AUTH0_DOMAIN") in
    if str_eq (env (lit "AUTH0_TEST_MODE")) (lit "1")
    then new_auth env [] []
    else and_then
        (require env (lit "AUTH0_AUDIENCE" ∷ lit "AUTH0_DOMAIN" ∷ []) (lit "missing Auth0 config"))
        λ _.
          if fetch_keys (lit "https://" ++ domain ++ lit "/.well-known/jwks.json")
          then new_auth env (env (lit "AUTH0_AUDIENCE")) (lit "https://" ++ domain ++ lit "/")
          else err (lit "jwks")
