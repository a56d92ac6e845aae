-- ===== src/Core/Float.antt =====
-- Python's floats as an interface: the engines only compare, add and take absolute values. No law
-- is assumed here, so NaN and infinities are covered. `FloatLaws` and
-- `LiteralLaws` name the laws of IEEE comparisons that some theorems need.
use aurum_iq.Prelude.{ℕ, ◌≡◌, Bool, true, false}

pub record FloatOps : Type 1 where
  pub Float : Type 0
  pub le : Float → Float → Bool
  pub lt : Float → Float → Bool
  pub add : Float → Float → Float
  pub sub : Float → Float → Float
  pub abs : Float → Float
  pub is_finite : Float → Bool
  -- A literal with a whole value, such as 80.0.
  pub of_ℕ : ℕ → Float
  -- The literal 1e-4.
  pub tolerance : Float

pub record FloatLaws (F : FloatOps) : Type 0 where
  pub le_trans : (x y z : F.Float) → F.le x y ≡ true → F.le y z ≡ true → F.le x z ≡ true

-- What is at least the literal 80.0 is not below the literal 40.0.
pub record LiteralLaws (F : FloatOps) : Type 0 where
  pub not_below_40 : (x : F.Float) → F.le (F.of_ℕ 80) x ≡ true → F.lt x (F.of_ℕ 40) ≡ false
