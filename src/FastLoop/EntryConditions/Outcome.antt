-- ===== src/FastLoop/EntryConditions/Outcome.antt =====
-- When a waiting sheet may enter.
use Prim.Native.Nat.{◌%◌}
use prime_jennie_runtime.Prelude.{
  ◌≤◌, ◌<◌, ◌≡◌, refl, ◌↔◌, true, none, some, List, [], ◌∷◌, arith, All, Option-cases, inl, inr,
}
use prime_jennie_runtime.Prelude.Float.{Float, lt}
use prime_jennie_runtime.Prelude.Time.{Datetime, instant, wall_in_kst, day, time}
use prime_jennie_runtime.PositionSheet.{
  PositionSheet, EntryCondition, price_below, price_above, volume_over_ma20, spread_under_bps,
  rsi_under, price_above_recent_high,
}
use prime_jennie_runtime.FastLoop.Domain.{TickData}
use prime_jennie_runtime.FastLoop.EntryConditions.{
  Indicators, Verdict, evaluate_one, first_failure, result_of, evaluate,
}

module _ {F : Type 0} ⦃fl : Float F⦄ where
  -- What each condition asks for, in the words of the sheet's specification.
  abbrev pub Holds : EntryCondition F → TickData F → Indicators F → Type 0
  Holds (price_below value) tick ind = lt tick.price value ≡ true
  Holds (price_above value) tick ind = lt value tick.price ≡ true
  Holds (volume_over_ma20 min_ratio) tick ind =
      (ma20 : F) × (cum_vol : F) × (ind.volume_ma20 tick.ticker ≡ some ma20)
      × (ind.intraday_cum_volume tick.ticker ≡ some cum_vol)
      × (lt (fl.of_ℕ 0) ma20 ≡ true)
      × (fl.le min_ratio (fl.div cum_vol ma20) ≡ true)
  Holds (spread_under_bps max_bps) tick ind =
      (ask : F) × (bid : F) × (tick.ask ≡ some ask)
      × (tick.bid ≡ some bid)
      × (lt (fl.of_ℕ 0) ask ≡ true)
      × (lt (fl.of_ℕ 0) bid ≡ true)
      × (lt (fl.of_ℕ 0) (fl.div (fl.add ask bid) (fl.decimal 20 1)) ≡ true)
      × (fl.le
            (fl.mul (fl.div (fl.sub ask bid) (fl.div (fl.add ask bid) (fl.decimal 20 1)))
              (fl.decimal 100000 1))
            max_bps
          ≡ true)
  Holds (rsi_under threshold) tick ind =
      (rsi : F) × (ind.rsi_1m tick.ticker ≡ some rsi) × (lt rsi threshold ≡ true)
  Holds (price_above_recent_high lookback) tick ind =
      (high : F) × (ind.recent_high tick.ticker lookback ≡ some high) × (lt high tick.price ≡ true)

  evaluate_one-Holds :
      (c : EntryCondition F) (tick : TickData F) (ind : Indicators F)
      → evaluate_one c tick ind ≡ none
      → Holds c tick ind
  unfolding evaluate_one
  evaluate_one-Holds (price_below value) tick ind h = ground arith
  evaluate_one-Holds (price_above value) tick ind h = ground arith
  evaluate_one-Holds (volume_over_ma20 min_ratio) tick ind h = ground arith
  evaluate_one-Holds (spread_under_bps max_bps) tick ind h = ground arith
  evaluate_one-Holds (rsi_under threshold) tick ind h = ground arith
  evaluate_one-Holds (price_above_recent_high lookback) tick ind h = ground arith

  Holds-evaluate_one :
      (c : EntryCondition F) (tick : TickData F) (ind : Indicators F)
      → Holds c tick ind
      → evaluate_one c tick ind ≡ none
  unfolding evaluate_one
  Holds-evaluate_one (price_below value) tick ind h = ground arith
  Holds-evaluate_one (price_above value) tick ind h = ground arith
  Holds-evaluate_one (volume_over_ma20 min_ratio) tick ind h = ground arith
  Holds-evaluate_one (spread_under_bps max_bps) tick ind h = ground arith
  Holds-evaluate_one (rsi_under threshold) tick ind h = ground arith
  Holds-evaluate_one (price_above_recent_high lookback) tick ind h = ground arith

  failure_to_holds :
      (cs : List (EntryCondition F)) (tick : TickData F) (ind : Indicators F)
      → first_failure cs tick ind ≡ none
      → All (λ c. Holds c tick ind) cs
  unfolding first_failure
  failure_to_holds [] tick ind h = tt
  failure_to_holds (c ∷ cs) tick ind h = elim (Option-cases (evaluate_one c tick ind)) [
    | inl passed ↦
        (evaluate_one-Holds c tick ind passed, failure_to_holds cs tick ind (ground arith))
    | inr (reason, failed) ↦ absurd (ground arith)
  ]

  Holds-first_failure :
      (cs : List (EntryCondition F)) (tick : TickData F) (ind : Indicators F)
      → All (λ c. Holds c tick ind) cs
      → first_failure cs tick ind ≡ none
  unfolding first_failure
  Holds-first_failure [] tick ind h = refl
  Holds-first_failure (c ∷ cs) tick ind h =
      ground (arith, Holds-evaluate_one c tick ind h.0, Holds-first_failure cs tick ind h.1)

  passed_none :
      (cs : List (EntryCondition F)) (v : Verdict) → (result_of cs v).passed ≡ true → v ≡ none
  passed_none [] v h = ground arith
  passed_none (c ∷ cs) v h = ground arith

  none_passed : (cs : List (EntryCondition F)) → (result_of cs none).passed ≡ true
  none_passed [] = refl
  none_passed (c ∷ cs) = refl

  -- A waiting sheet passes exactly when it is 09:00 in Korea or later, its entry window has not
  -- ended, and every one of its conditions holds; a condition without its data does not hold. The
  -- volume condition is the code's: the day's volume is at least the ratio times the average of
  -- the volumes of twenty minute bars.
  pub evaluate_passes :
      (sheet : PositionSheet F) (tick : TickData F) (ind : Indicators F) (now : Datetime)
      → ((evaluate sheet tick ind now).passed ≡ true) ↔ (
          (time 9 0 ≤ wall_in_kst now % day)
          × (instant now < instant sheet.entry.valid_until)
          × All (λ c. Holds c tick ind) sheet.entry.conditions)
  unfolding evaluate
  evaluate_passes sheet tick ind now = (
    λ h. (
      ground arith,
      ground arith,
      failure_to_holds sheet.entry.conditions tick ind (
          passed_none sheet.entry.conditions (first_failure sheet.entry.conditions tick ind)
            (ground arith)),
    ),
    λ (open_now, in_time, all). ground (
      arith,
      Holds-first_failure sheet.entry.conditions tick ind all,
      none_passed sheet.entry.conditions,
    ),
  )
