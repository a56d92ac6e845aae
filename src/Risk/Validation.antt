-- ===== src/Risk/Validation.antt =====
-- engine/risk/xauusd_execution.py: strict validation of quotes and candles.
use aurum_iq.Prelude.{Bool, true, false, not, ◌||◌, if◌then◌else◌, leb}
use aurum_iq.Core.Decimal.{Decimal, is_finite, le, lt, zero_price}
use aurum_iq.Core.Candle.{CandleData, QuoteData}

-- The test on a price: it is finite and more than 0. (`isinstance` is the model's typing.)
abbrev pub is_bad_price : Decimal → Bool
is_bad_price p = not (is_finite p) || le p zero_price

unfoldable pub validate_xauusd_quote : QuoteData → Bool
validate_xauusd_quote q =
    if not q.timestamp.aware
    then false
    else if is_bad_price q.bid
    then false
    else if is_bad_price q.ask
    then false
    else if lt q.ask q.bid
    then false
    else true

unfoldable pub validate_xauusd_candle : CandleData → Bool
validate_xauusd_candle c =
    if not c.timestamp_open.aware
    then false
    else if not c.timestamp_close.aware
    then false
    else if leb c.timestamp_close.utc c.timestamp_open.utc
    then false
    else if is_bad_price c.open_price
    then false
    else if is_bad_price c.high
    then false
    else if is_bad_price c.low
    then false
    else if is_bad_price c.close
    then false
    else if not (is_finite c.volume) || lt c.volume zero_price
    then false
    else if lt c.high c.low
    then false
    else if lt c.high c.open_price || lt c.high c.close
    then false
    else if lt c.open_price c.low || lt c.close c.low
    then false
    else true
