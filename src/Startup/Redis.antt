-- ===== src/Startup/Redis.antt =====
-- The connection string of Redis, which prism-api/main.go, read-model-updater/main.go and
-- stream-service/main.go read alike.
pub mod Hosted
use prism_plan.Shared.{
  ℕ, ◌+◌, List, [], ◌∷◌, Option, none, some, Bool, true, false, ◌&&◌, Str, lit, str_eq, leb, ◌==◌,
  if◌then◌else◌,
}

-- `redis.Options`, as far as it is set.
pub record RedisOptions : Type 0 where
  pub addr : Str
  pub password : Str
  pub tls : Bool

abbrev pub put_before : ℕ → Option (Str × Str) → Option (Str × Str)
put_before c none = none
put_before c (some (before, after)) = some (c ∷ before, after)

-- `strings.SplitN(s, sep, 2)`: what stands before the first separator, and what follows it.
unfoldable pub cut : ℕ → Str → Option (Str × Str)
cut sep [] = none
cut sep (c ∷ s) = let rest = cut sep s in if c == sep then some ([], s) else put_before c rest

abbrev pub end_part : Bool → ℕ → Str × List Str → Str × List Str
end_part true c (part, parts) = ([], part ∷ parts)
end_part false c (part, parts) = (c ∷ part, parts)

-- `strings.Split`: the first part, and the others.
unfoldable pub split : ℕ → Str → Str × List Str
split sep [] = ([], [])
split sep (c ∷ s) = end_part (c == sep) c (split sep s)

-- `strings.ToLower`; no letter outside ASCII has a lower case among the letters compared with here.
unfoldable pub to_lower : Str → Str
to_lower [] = []
to_lower (c ∷ s) = (if leb b'A' c && leb c b'Z' then c + 32 else c) ∷ to_lower s

abbrev pub set_option : Option (Str × Str) → RedisOptions → RedisOptions
set_option none o = o
set_option (some (key, value)) o =
    if str_eq (to_lower key) (lit "password")
    then record o { password = value }
    else if str_eq (to_lower key) (lit "ssl") && str_eq (to_lower value) (lit "true")
    then record o { tls = true }
    else o

abbrev pub set_options : List Str → RedisOptions → RedisOptions
set_options [] o = o
set_options (part ∷ parts) o = set_options parts (set_option (cut b'=' part) o)

abbrev pub options_of_parts : Str × List Str → RedisOptions
options_of_parts (addr, parts) =
    set_options parts (record { addr = addr; password = []; tls = false })

abbrev pub options_or : RedisOptions → Option RedisOptions → RedisOptions
options_or parsed none = parsed
options_or parsed (some o) = o

-- `parse_url` is `redis.ParseURL`, with nothing for an error.
unfoldable pub redis_options : (Str → Option RedisOptions) → Str → RedisOptions
unfolding cut split to_lower
redis_options parse_url conn = options_or (options_of_parts (split b',' conn)) (parse_url conn)
