-- ===== src/Common/Runs.antt =====
-- The outcome of Go code that may panic or run for ever: `stuck` says that a loop's fuel ran out.
use mathlib.Core.Path.{◌≡◌}
use silvernode_go.Common.Classes.{Bytes}

pub data Run {ℓ} (A : Type ℓ) : Type ℓ where
  ret : A → Run A
  panic : Run A
  stuck : Run A

infixl 5 ◌>>=◌
abbrev pub ◌>>=◌ {ℓ κ} : {A : Type ℓ} {B : Type κ} → Run A → (A → Run B) → Run B
ret a >>= f = f a
panic >>= f = panic
stuck >>= f = stuck

pub ret-injective {ℓ} : {A : Type ℓ} {a b : A} → ret a ≡ ret b → a ≡ b
ret-injective h = cc

-- What a call of a library or of the system gives, or the text of its error.
pub data Attempt {ℓ} (A : Type ℓ) : Type ℓ where
  went : A → Attempt A
  broke : Bytes → Attempt A
