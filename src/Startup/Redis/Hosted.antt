-- ===== src/Startup/Redis/Hosted.antt =====
-- The connection string that Azure gives for a hosted Redis.
use prism_plan.Shared.{
  ℕ, ◌≡◌, ◌≢◌, refl, ap, ◌∙◌, List, [], ◌∷◌, ◌++◌, Option, none, Bool, true, false, Str, lit,
  str_eq, arith, ◌==◌, ==_refl, All,
}
use prism_plan.Startup.Redis.{
  RedisOptions, cut, split, to_lower, end_part, set_options, options_of_parts, options_or,
  redis_options,
}

-- The byte does not occur.
abbrev pub Free : ℕ → Str → Type 0
Free sep s = All (λ c. c ≢ sep) s

other_byte : (c sep : ℕ) → c ≢ sep → (c == sep) ≡ false
other_byte c sep h = ground arith

split-part :
    (sep : ℕ) (part s : Str)
    → Free sep part
    → split sep (part ++ (sep ∷ s)) ≡ (part, (split sep s).0 ∷ (split sep s).1)
unfolding split
split-part sep [] s h = ap (λ b. end_part b sep (split sep s)) (==_refl sep)
split-part sep (c ∷ part) s h =
    ap (λ b. end_part b c (split sep (part ++ (sep ∷ s)))) (other_byte c sep h.0)
    ∙ ap (end_part false c) (split-part sep part s h.1)

abbrev pub bool_text : Bool → Str
bool_text true = lit "True"
bool_text false = lit "False"

abbrev rest_of : Bool → Str
rest_of tls = lit "ssl=" ++ (bool_text tls ++ lit ",abortConnect=False")

-- `host:port,password=...,ssl=True,abortConnect=False`
abbrev pub hosted : RedisOptions → Str
hosted o = o.addr ++ (b',' ∷ ((lit "password=" ++ o.password) ++ (b',' ∷ rest_of o.tls)))

password-Free : (password : Str) → Free b',' password → Free b',' (lit "password=" ++ password)
password-Free password h = (
  omega arith,
  (
    omega arith,
    (
      omega arith,
      (omega arith, (omega arith, (omega arith, (omega arith, (omega arith, (omega arith, h)))))),
    ),
  ),
)

split-rest :
    (tls : Bool)
    → split b',' (rest_of tls) ≡ (lit "ssl=" ++ bool_text tls, lit "abortConnect=False" ∷ [])
unfolding split
split-rest true = refl
split-rest false = refl

split-hosted :
    (o : RedisOptions)
    → Free b',' o.addr
    → Free b',' o.password
    → split b',' (hosted o) ≡ (
      o.addr,
      (lit "password=" ++ o.password)
          ∷ (lit "ssl=" ++ bool_text o.tls)
          ∷ lit "abortConnect=False"
          ∷ [],
    )
split-hosted o ha hp =
    split-part b',' o.addr _ ha
    ∙ ap (λ (x : Str × List Str). (o.addr, x.0 ∷ x.1))
        (split-part b',' (lit "password=" ++ o.password) (rest_of o.tls)
            (password-Free o.password hp)
          ∙ ap (λ (x : Str × List Str). (lit "password=" ++ o.password, x.0 ∷ x.1))
              (split-rest o.tls))

set_options-hosted :
    (addr password : Str) (tls : Bool)
    → set_options
        ((lit "password=" ++ password)
          ∷ (lit "ssl=" ++ bool_text tls)
          ∷ lit "abortConnect=False"
          ∷ [])
        (record { addr = addr; password = []; tls = false })
      ≡ record { addr = addr; password = password; tls = tls }
unfolding cut to_lower str_eq
set_options-hosted addr password true = refl
set_options-hosted addr password false = refl

-- The connection string of a hosted Redis gives its address, its password, which may have any character
-- but a comma, and whether it is reached over TLS, where the address has no comma either and the string
-- does not parse as a URL.
pub redis_options-hosted :
    (parse_url : Str → Option RedisOptions) (o : RedisOptions)
    → parse_url (hosted o) ≡ none
    → Free b',' o.addr
    → Free b',' o.password
    → redis_options parse_url (hosted o) ≡ o
unfolding redis_options
redis_options-hosted parse_url o no_url ha hp =
    ap (options_or (options_of_parts (split b',' (hosted o)))) no_url
    ∙ ap options_of_parts (split-hosted o ha hp)
    ∙ set_options-hosted o.addr o.password o.tls
