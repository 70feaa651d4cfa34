-- ===== src/Shared/Results.antt =====
-- A call that returns a value and an error: `ok` with the value, or `err` with the error.

pub data Result {ℓ} (E A : Type ℓ) : Type ℓ where
  ok : A → Result E A
  err : E → Result E A
