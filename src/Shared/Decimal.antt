-- ===== src/Shared/Decimal.antt =====
-- `strconv.FormatInt` with base 10, and that `strconv.Atoi` reads it back.
use Prim.Native.Nat.{ℕ, zero, suc, ◌+◌, ◌/◌, ◌%◌, ◌^◌, ◌≤◌, ◌<◌}
use mathlib.Core.Path.{◌≡◌, refl, ap, ◌∙◌}
use mathlib.Core.Option.{some}
use mathlib.Core.List.{[], ◌∷◌}
use native.Mathlib.Omega.{arith}
use prism_plan.Shared.Tests.{ltb, if◌then◌else◌}
use prism_plan.Shared.Int.{ℤ, pos, negsuc, IsInt64}
use prism_plan.Shared.Text.{Str}
use prism_plan.Shared.Atoi.{decimal, magnitude, atoi}

-- Digits from the lowest up, each put in front of those already written.
unfoldable pub digits_10 : ℕ → ℕ → Str → Str
digits_10 zero n acc = acc
digits_10 (suc f) n acc =
    let rest = digits_10 f (n / 10) ((48 + n % 10) ∷ acc) in
    if ltb n 10 then (48 + n) ∷ acc else rest

-- Twenty digits hold every 64-bit magnitude.
unfoldable pub format_nat : ℕ → Str
format_nat n = digits_10 20 n []

unfoldable pub format_int : ℤ → Str
format_int (pos n) = format_nat n
format_int (negsuc n) = b'-' ∷ format_nat (n + 1)

decimal-digits_10 :
    (f n : ℕ) (acc : Str) → n < 10 ^ f → decimal 0 (digits_10 f n acc) ≡ decimal n acc
unfolding digits_10 decimal
decimal-digits_10 zero n acc h = ap (λ k. decimal k acc) (omega arith)
decimal-digits_10 (suc f) n acc h =
    ground (arith, decimal-digits_10 f (n / 10) ((48 + n % 10) ∷ acc) (omega arith))

-- The text starts with a digit.
abbrev StartsWithDigit : Str → Type 0
StartsWithDigit [] = ⊥
StartsWithDigit (c ∷ s) = 48 ≤ c

digits_10-StartsWithDigit :
    (f n : ℕ) (acc : Str) → StartsWithDigit acc → StartsWithDigit (digits_10 f n acc)
unfolding digits_10
digits_10-StartsWithDigit zero n acc h = h
digits_10-StartsWithDigit (suc f) n acc h =
    ground (arith, digits_10-StartsWithDigit f (n / 10) ((48 + n % 10) ∷ acc) (omega arith))

digits_10_first : (f n : ℕ) → StartsWithDigit (digits_10 (suc f) n [])
unfolding digits_10
digits_10_first f n =
    ground (arith, digits_10-StartsWithDigit f (n / 10) ((48 + n % 10) ∷ []) (omega arith))

format_nat-StartsWithDigit : (n : ℕ) → StartsWithDigit (format_nat n)
unfolding format_nat
format_nat-StartsWithDigit n = digits_10_first 19 n

decimal-format_nat : (n : ℕ) → n ≤ 2 ^ 63 → decimal 0 (format_nat n) ≡ some n
unfolding format_nat decimal
decimal-format_nat n h = decimal-digits_10 20 n [] (omega arith)

magnitude-decimal : (s : Str) → StartsWithDigit s → magnitude s ≡ decimal 0 s
unfolding magnitude
magnitude-decimal [] h = elim h [ ]
magnitude-decimal (c ∷ s) h = refl

atoi-plain :
    (s : Str) (n : ℕ)
    → StartsWithDigit s
    → decimal 0 s ≡ some n
    → n < 2 ^ 63
    → atoi s ≡ some (pos n)
unfolding atoi magnitude
atoi-plain [] n h e b = elim h [ ]
atoi-plain (c ∷ s) n h e b = ground arith

atoi-minus :
    (s : Str) (n : ℕ) → magnitude s ≡ some (n + 1) → n < 2 ^ 63 → atoi (b'-' ∷ s) ≡ some (negsuc n)
unfolding atoi
atoi-minus s n e b = rw e (ground arith)

pub atoi-format_int : (z : ℤ) → IsInt64 z → atoi (format_int z) ≡ some z
unfolding format_int
atoi-format_int (pos n) h =
    atoi-plain (format_nat n) n (format_nat-StartsWithDigit n) (decimal-format_nat n (omega arith))
      (omega arith)
atoi-format_int (negsuc n) h =
    atoi-minus (format_nat (n + 1)) n
      (magnitude-decimal (format_nat (n + 1)) (format_nat-StartsWithDigit (n + 1))
        ∙ decimal-format_nat (n + 1) (omega arith))
      (omega arith)
