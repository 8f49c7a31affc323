-- ===== src/Base/Fault.antt =====
-- What a kernel function comes to: a result, a `panic`, or a loop that is still running when the
-- fuel of the model is used up.

pub data Outcome {ℓ} (A : Type ℓ) : Type ℓ where
  done : A → Outcome A
  panic : Outcome A
  spin : Outcome A

infixl 5 ◌>>=◌
abbrev pub ◌>>=◌ {ℓ κ} : {A : Type ℓ} {B : Type κ} → Outcome A → (A → Outcome B) → Outcome B
done a >>= f = f a
panic >>= f = panic
spin >>= f = spin
