-- ===== src/Prelude/Raises.antt =====
-- What a Python function that may raise ValueError gives back.
use mathlib.Core.Path.{◌≡◌}
use mathlib.Core.Bool.{Bool, true, false, not}
use aurum_iq.Prelude.Tests.{if◌then◌else◌}

pub data Result {ℓ} (A : Type ℓ) : Type ℓ where
  ok : A → Result A
  value_error : Result A

infixl 5 ◌>>=◌
abbrev pub ◌>>=◌ {ℓ κ} : {A : Type ℓ} {B : Type κ} → Result A → (A → Result B) → Result B
ok a >>= f = f a
value_error >>= f = value_error

-- What is left after two guards that raise.
pub after_guards {ℓ} :
    {A : Type ℓ} (a b : Bool) {x y : A}
    → (if not a then value_error else if not b then value_error else ok x) ≡ ok y
    → x ≡ y
after_guards true true e = cc
after_guards true false e = absurd (cc)
after_guards false b e = absurd (cc)
