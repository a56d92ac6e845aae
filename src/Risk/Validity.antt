-- ===== src/Risk/Validity.antt =====
-- Which candles and quotes the validation of engine/risk/xauusd_execution.py accepts.
use aurum_iq.Prelude.{◌<◌, ◌≡◌, refl, true, false, not, ◌||◌, arith, ◌↔◌}
use mathlib.Core.Path.{subst₂}
use aurum_iq.Prelude.Int.{ℤ, pos, ◌≤ℤ◌, ◌<ℤ◌}
use aurum_iq.Core.Decimal.{Decimal, fin, pos_inf, neg_inf, nan, is_finite, le, lt, zero_price}
use aurum_iq.Core.Candle.{CandleData, QuoteData}
use aurum_iq.Risk.Validation.{is_bad_price, validate_xauusd_quote, validate_xauusd_candle}

-- A candle as it should be: aware times in order, finite prices with 0 < low ≤ open, close ≤ high,
-- and a finite volume that is not negative.
pub record IsCandle (c : CandleData) : Type 0 where
  pub open_aware : c.timestamp_open.aware ≡ true
  pub close_aware : c.timestamp_close.aware ≡ true
  pub in_order : c.timestamp_open.utc < c.timestamp_close.utc
  pub low_at : ℤ
  pub high_at : ℤ
  pub open_at : ℤ
  pub close_at : ℤ
  pub volume_at : ℤ
  pub low_fin : c.low ≡ fin low_at
  pub high_fin : c.high ≡ fin high_at
  pub open_fin : c.open_price ≡ fin open_at
  pub close_fin : c.close ≡ fin close_at
  pub volume_fin : c.volume ≡ fin volume_at
  pub low_pos : pos 0 <ℤ low_at
  pub low_open : low_at ≤ℤ open_at
  pub low_close : low_at ≤ℤ close_at
  pub open_high : open_at ≤ℤ high_at
  pub close_high : close_at ≤ℤ high_at
  pub volume_nonneg : pos 0 ≤ℤ volume_at

pub price_cases : (p : Decimal) → is_bad_price p ≡ false → (a : ℤ) × (p ≡ fin a) × (pos 0 <ℤ a)
unfolding is_finite le
price_cases (fin a) e = (a, refl, ground arith)
price_cases pos_inf e = cc
price_cases neg_inf e = cc
price_cases nan e = cc

volume_cases :
    (p : Decimal)
    → (not (is_finite p) || lt p zero_price) ≡ false
    → (a : ℤ) × (p ≡ fin a) × (pos 0 ≤ℤ a)
unfolding is_finite lt
volume_cases (fin a) e = (a, refl, ground arith)
volume_cases pos_inf e = cc
volume_cases neg_inf e = cc
volume_cases nan e = cc

lt-fin : (a b : ℤ) → lt (fin a) (fin b) ≡ false → b ≤ℤ a
unfolding lt
lt-fin a b e = ground arith

-- The tests that an accepted candle has passed.
record IsPassed (c : CandleData) : Type 0 where
  open_aware : c.timestamp_open.aware ≡ true
  close_aware : c.timestamp_close.aware ≡ true
  in_order : c.timestamp_open.utc < c.timestamp_close.utc
  open_price : is_bad_price c.open_price ≡ false
  high : is_bad_price c.high ≡ false
  low : is_bad_price c.low ≡ false
  close : is_bad_price c.close ≡ false
  volume : (not (is_finite c.volume) || lt c.volume zero_price) ≡ false
  high_open : lt c.high c.open_price ≡ false
  high_close : lt c.high c.close ≡ false
  open_low : lt c.open_price c.low ≡ false
  close_low : lt c.close c.low ≡ false

passed : (c : CandleData) → validate_xauusd_candle c ≡ true → IsPassed c
unfolding validate_xauusd_candle
passed c e = ground arith

-- An accepted candle has aware times in order, finite prices with 0 < low ≤ open, close ≤ high, and
-- a finite volume that is not negative.
pub validate-IsCandle : (c : CandleData) → validate_xauusd_candle c ≡ true → IsCandle c
validate-IsCandle c e =
    let h = passed c e in
    let (o, o_fin, o_pos) = price_cases c.open_price h.open_price in
    let (hi, hi_fin, hi_pos) = price_cases c.high h.high in
    let (l, l_fin, l_pos) = price_cases c.low h.low in
    let (cl, cl_fin, cl_pos) = price_cases c.close h.close in
    let (v, v_fin, v_nonneg) = volume_cases c.volume h.volume in
    record {
      open_aware = h.open_aware;
      close_aware = h.close_aware;
      in_order = h.in_order;
      low_at = l;
      high_at = hi;
      open_at = o;
      close_at = cl;
      volume_at = v;
      low_fin = l_fin;
      high_fin = hi_fin;
      open_fin = o_fin;
      close_fin = cl_fin;
      volume_fin = v_fin;
      low_pos = l_pos;
      low_open = lt-fin o l (subst₂ (λ x y. lt x y ≡ false) o_fin l_fin h.open_low);
      low_close = lt-fin cl l (subst₂ (λ x y. lt x y ≡ false) cl_fin l_fin h.close_low);
      open_high = lt-fin hi o (subst₂ (λ x y. lt x y ≡ false) hi_fin o_fin h.high_open);
      close_high = lt-fin hi cl (subst₂ (λ x y. lt x y ≡ false) hi_fin cl_fin h.high_close);
      volume_nonneg = v_nonneg;
    }

good_price : (p : Decimal) (a : ℤ) → p ≡ fin a → pos 0 <ℤ a → is_bad_price p ≡ false
unfolding is_finite le
good_price p a e h = ground arith

good_volume :
    (p : Decimal) (a : ℤ) → p ≡ fin a → pos 0 ≤ℤ a → (not (is_finite p) || lt p zero_price) ≡ false
unfolding is_finite lt
good_volume p a e h = ground arith

not_below : (p q : Decimal) (a b : ℤ) → p ≡ fin a → q ≡ fin b → b ≤ℤ a → lt p q ≡ false
unfolding lt
not_below p q a b e f h = ground arith

-- A candle with aware times in order, finite prices with 0 < low ≤ open, close ≤ high, and a
-- finite volume that is not negative is accepted.
pub IsCandle-validate : (c : CandleData) → IsCandle c → validate_xauusd_candle c ≡ true
unfolding validate_xauusd_candle
IsCandle-validate c h = ground (
  arith,
  good_price c.open_price h.open_at h.open_fin (omega arith),
  good_price c.high h.high_at h.high_fin (omega arith),
  good_price c.low h.low_at h.low_fin h.low_pos,
  good_price c.close h.close_at h.close_fin (omega arith),
  good_volume c.volume h.volume_at h.volume_fin h.volume_nonneg,
  not_below c.high c.low h.high_at h.low_at h.high_fin h.low_fin (omega arith),
  not_below c.high c.open_price h.high_at h.open_at h.high_fin h.open_fin h.open_high,
  not_below c.high c.close h.high_at h.close_at h.high_fin h.close_fin h.close_high,
  not_below c.open_price c.low h.open_at h.low_at h.open_fin h.low_fin h.low_open,
  not_below c.close c.low h.close_at h.low_at h.close_fin h.low_fin h.low_close,
)

-- A quote as it should be: an aware time and finite prices with 0 < bid ≤ ask.
pub record IsQuote (q : QuoteData) : Type 0 where
  pub aware : q.timestamp.aware ≡ true
  pub bid_at : ℤ
  pub ask_at : ℤ
  pub bid_fin : q.bid ≡ fin bid_at
  pub ask_fin : q.ask ≡ fin ask_at
  pub bid_pos : pos 0 <ℤ bid_at
  pub bid_ask : bid_at ≤ℤ ask_at

quote_passed :
    (q : QuoteData)
    → validate_xauusd_quote q ≡ true
    → (q.timestamp.aware ≡ true)
      × (is_bad_price q.bid ≡ false)
      × (is_bad_price q.ask ≡ false)
      × (lt q.ask q.bid ≡ false)
unfolding validate_xauusd_quote
quote_passed q e = ground arith

-- An accepted quote has an aware time and finite prices with 0 < bid ≤ ask.
pub validate-IsQuote : (q : QuoteData) → validate_xauusd_quote q ≡ true → IsQuote q
validate-IsQuote q e =
    let (aware, bid, ask, order) = quote_passed q e in
    let (b, b_fin, b_pos) = price_cases q.bid bid in
    let (a, a_fin, a_pos) = price_cases q.ask ask in
    record {
      aware = aware;
      bid_at = b;
      ask_at = a;
      bid_fin = b_fin;
      ask_fin = a_fin;
      bid_pos = b_pos;
      bid_ask = lt-fin a b (subst₂ (λ x y. lt x y ≡ false) a_fin b_fin order);
    }

-- Every such quote is accepted.
pub IsQuote-validate : (q : QuoteData) → IsQuote q → validate_xauusd_quote q ≡ true
unfolding validate_xauusd_quote
IsQuote-validate q h = ground (
  arith,
  good_price q.bid h.bid_at h.bid_fin h.bid_pos,
  good_price q.ask h.ask_at h.ask_fin (omega arith),
  not_below q.ask q.bid h.ask_at h.bid_at h.ask_fin h.bid_fin h.bid_ask,
)

-- A candle is accepted just if its times are aware and in order, its prices are finite with
-- 0 < low ≤ open, close ≤ high, and its volume is finite and not negative.
pub validate_iff-IsCandle : (c : CandleData) → (validate_xauusd_candle c ≡ true) ↔ IsCandle c
validate_iff-IsCandle c = (validate-IsCandle c, IsCandle-validate c)
