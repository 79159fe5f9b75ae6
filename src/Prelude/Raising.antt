-- ===== src/Prelude/Raising.antt =====
-- A computation that may raise: a value, or the error that was raised.
pub data Result {ℓ} (E A : Type ℓ) : Type ℓ where
  ok : A → Result E A
  err : E → Result E A
