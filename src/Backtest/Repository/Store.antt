-- ===== src/Backtest/Repository/Store.antt =====
-- engine/backtest/repository.py: the dictionary of candles.
use aurum_iq.Prelude.{
  ◌≡◌, refl, sym, ap, ◌∙◌, inl, inr, Bool, true, false, List, [], ◌∷◌, ◌++◌, if◌then◌else◌, ◌&&◌,
  ◌==◌, sort_by, Bool-cases, arith,
}
use aurum_iq.Core.Candle.{CandleData, opens_at}
use aurum_iq.Macro.Events.{Text}
use aurum_iq.Backtest.Repository.{same_text, candles_at, put_candle}

same_text_refl : (s : Text) → same_text s s ≡ true
unfolding same_text
same_text_refl [] = refl
same_text_refl (c ∷ s) = let e : (c == c) ≡ true = ground arith in rw (e) (same_text_refl s)

not_same : (b c : Bool) → (b && c) ≡ true → b ≡ false → ⊥
not_same b c h e = let f = rw e at h in cc

same_text→≡ : (s t : Text) → same_text s t ≡ true → s ≡ t
unfolding same_text
same_text→≡ [] [] h = refl
same_text→≡ [] (d ∷ t) h = absurd (cc)
same_text→≡ (c ∷ s) [] h = absurd (cc)
same_text→≡ (c ∷ s) (d ∷ t) h = elim (Bool-cases (c == d)) [
  | inl same ↦ let e : c ≡ d = ground arith in let rest = same_text→≡ s t (rw same at h) in cc
  | inr other ↦ absurd (not_same (c == d) (same_text s t) h other)
]

differs :
    (k key tf : Text) → same_text k tf ≡ true → same_text k key ≡ false → same_text key tf ≡ false
differs k key tf asked elsewhere = elim (Bool-cases (same_text key tf)) [
  | inr other ↦ other
  | inl both ↦
      let e = same_text→≡ k tf asked ∙ sym (same_text→≡ key tf both) in
      let yes = ap (same_text k) (sym e) ∙ same_text_refl k in absurd (cc)
]

-- One more candle is seen in the list of its own timeframe only.
pub candles_at-put_candle :
    (tf key : Text) (c : CandleData) (store : List (Text × List CandleData))
    → candles_at tf (put_candle key c store) ≡ (
        if same_text key tf
        then sort_by opens_at (candles_at tf store ++ c ∷ [])
        else candles_at tf store)
unfolding candles_at put_candle
candles_at-put_candle tf key c [] = refl
candles_at-put_candle tf key c ((k, cs) ∷ rest) =
    let ih = candles_at-put_candle tf key c rest in
    elim (Bool-cases (same_text k key)) [
      | inl added ↦
          let same = ap (λ s. same_text s tf) (same_text→≡ k key added) in
          elim (Bool-cases (same_text key tf)) [
            | inl asked ↦ rw (added, same, asked) refl
            | inr other ↦ rw (added, same, other) refl
          ]
      | inr elsewhere ↦ elim (Bool-cases (same_text k tf)) [
        | inl asked ↦
            let other = differs k key tf asked elsewhere in rw (elsewhere, asked, other) refl
        | inr other ↦ rw (elsewhere, other) ih
      ]
    ]
