-- ===== src/Base/Results.antt =====
-- A computation that may throw, or a `Result` of `@agent-os/core`.
pub data Result {ℓ κ} (E : Type ℓ) (A : Type κ) : Type (ℓ ⊔ κ) where
  ok : A → Result E A
  err : E → Result E A
