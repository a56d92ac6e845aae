-- ===== src/Core/Decimal.antt =====
-- decimal.Decimal. A finite decimal is an integer, in units of one decimal place that is fixed for
-- all prices at hand and fine enough for them; `+` and `-` are exact. The context's rounding to 28
-- digits is not modelled. A comparison with NaN raises in the source; here it is false. Where the
-- source compares what a caller passed in, it asks `is_finite` first.
use aurum_iq.Prelude.{Bool, true, false}
use aurum_iq.Prelude.Int.{ℤ, pos, leb_ℤ, ltb_ℤ, ◌+ℤ◌, ◌-ℤ◌}

pub data Decimal : Type 0 where
  fin : ℤ → Decimal
  pos_inf neg_inf nan : Decimal

unfoldable pub is_finite : Decimal → Bool
is_finite (fin a) = true
is_finite pos_inf = false
is_finite neg_inf = false
is_finite nan = false

-- `a <= b`.
unfoldable pub le : Decimal → Decimal → Bool
le (fin a) (fin b) = leb_ℤ a b
le (fin a) pos_inf = true
le (fin a) neg_inf = false
le (fin a) nan = false
le pos_inf pos_inf = true
le pos_inf b = false
le neg_inf nan = false
le neg_inf b = true
le nan b = false

-- `a < b`.
unfoldable pub lt : Decimal → Decimal → Bool
lt (fin a) (fin b) = ltb_ℤ a b
lt (fin a) pos_inf = true
lt (fin a) neg_inf = false
lt (fin a) nan = false
lt pos_inf b = false
lt neg_inf (fin b) = true
lt neg_inf pos_inf = true
lt neg_inf neg_inf = false
lt neg_inf nan = false
lt nan b = false

abbrev pub zero_price : Decimal
zero_price = fin (pos 0)

abbrev pub negate : Decimal → Decimal
negate (fin a) = fin (pos 0 -ℤ a)
negate pos_inf = neg_inf
negate neg_inf = pos_inf
negate nan = nan

-- `a + b`; opposite infinities raise in the source, and give NaN here.
abbrev pub add : Decimal → Decimal → Decimal
add (fin a) (fin b) = fin (a +ℤ b)
add (fin a) b = b
add pos_inf (fin b) = pos_inf
add pos_inf pos_inf = pos_inf
add pos_inf b = nan
add neg_inf (fin b) = neg_inf
add neg_inf neg_inf = neg_inf
add neg_inf b = nan
add nan b = nan

-- `a - b`.
abbrev pub sub : Decimal → Decimal → Decimal
sub (fin a) (fin b) = fin (a -ℤ b)
sub (fin a) b = negate b
sub pos_inf b = add pos_inf (negate b)
sub neg_inf b = add neg_inf (negate b)
sub nan b = nan
