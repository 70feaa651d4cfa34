-- ===== src/Api/Base36.antt =====
-- `strconv.FormatInt(ts, 36)`, which prism-api/api/handlers.go uses to make idempotency keys.
use prism_plan.Shared.{
  ℕ, zero, suc, ◌+◌, ◌-◌, ◌*◌, ◌/◌, ◌%◌, ◌^◌, ◌<◌, ◌≡◌, sym, ap, ◌∙◌, [], ◌∷◌, Str, ℤ, pos, negsuc,
  arith, ltb, if◌then◌else◌,
}

digit : ℕ → ℕ
digit d = if ltb d 10 then 48 + d else 87 + d

-- Digits from the lowest up, each put in front of those already written.
digits_36 : ℕ → ℕ → Str → Str
digits_36 zero n acc = acc
digits_36 (suc f) n acc =
    let rest = digits_36 f (n / 36) (digit (n % 36) ∷ acc) in
    if ltb n 36 then digit n ∷ acc else rest

-- Thirteen digits hold every 64-bit magnitude.
pub format_int_36 : ℤ → Str
unfolding digits_36 digit
format_int_36 (pos n) = digits_36 13 n []
format_int_36 (negsuc n) = b'-' ∷ digits_36 13 (n + 1) []

-- The value of a digit string, read from the highest digit down.
digit_value : ℕ → ℕ
digit_value c = if ltb c 58 then c - 48 else c - 87

value_36 : Str → ℕ → ℕ
value_36 [] a = a
value_36 (c ∷ s) a = value_36 s (a * 36 + digit_value c)

digit_value-digit : (d : ℕ) → d < 36 → digit_value (digit d) ≡ d
unfolding digit_value digit
digit_value-digit d h = ground arith

value_36-digits_36 :
    (f n : ℕ) (acc : Str) → n < 36 ^ f → value_36 (digits_36 f n acc) 0 ≡ value_36 acc n
unfolding digits_36 value_36
value_36-digits_36 zero n acc h = ap (value_36 acc) (omega arith)
value_36-digits_36 (suc f) n acc h = ground (
  arith,
  digit_value-digit n,
  digit_value-digit (n % 36),
  value_36-digits_36 f (n / 36) (digit (n % 36) ∷ acc) (omega arith),
)

-- Different non-negative timestamps have different keys.
pub format_int_36_injective :
    (m n : ℕ) → m < 2 ^ 63 → n < 2 ^ 63 → format_int_36 (pos m) ≡ format_int_36 (pos n) → m ≡ n
unfolding format_int_36 value_36
format_int_36_injective m n hm hn e =
    sym (value_36-digits_36 13 m [] (omega arith))
    ∙ ap (λ s. value_36 s 0) e
    ∙ value_36-digits_36 13 n [] (omega arith)
