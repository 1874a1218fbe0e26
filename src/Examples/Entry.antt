-- ===== src/Examples/Entry.antt =====
-- A sheet that waits for a price, and ticks that make bars.
use Prim.Native.Nat.{◌%◌}
use prime_jennie_runtime.Prelude.{◌≤◌, ◌<◌, ◌≡◌, ◌↔◌, true, none, some, List, [], ◌∷◌, All}
use prime_jennie_runtime.Prelude.Int.{ℤ}
use prime_jennie_runtime.Prelude.Time.{day, instant, wall_in_kst, time, seconds}
use prime_jennie_runtime.PositionSheet.{PositionSheet, price_below, rsi_under}
use prime_jennie_runtime.FastLoop.EntryConditions.{Indicators, evaluate}
use prime_jennie_runtime.FastLoop.EntryConditions.Outcome.{Holds, evaluate_passes}
use prime_jennie_runtime.FastLoop.BarEngine.{empty_series}
use prime_jennie_runtime.FastLoop.BarEngine.Bars.{
  Tick, run, groups_from, IsSeriesOf, bars_are_candles,
}
use prime_jennie_runtime.Examples.Fixed.{fixed_point, won}
use prime_jennie_runtime.Examples.Exits.{sheet, at_close, tick_at}

abbrev waiting : PositionSheet ℤ
waiting = record sheet {
  entry = record sheet.entry { conditions = price_below (won 10000) ∷ rsi_under (won 30) ∷ [] };
}

abbrev oversold : Indicators ℤ
oversold = record {
  volume_ma20 = λ ticker. none;
  intraday_cum_volume = λ ticker. none;
  rsi_1m = λ ticker. some (won 25);
  recent_high = λ ticker lookback. none;
}

evaluate_passes_example : ((evaluate waiting (tick_at 9900) oversold at_close).passed ≡ true) ↔ (
    (time 9 0 ≤ wall_in_kst at_close % day)
    × (instant at_close < instant waiting.entry.valid_until)
    × All (λ c. Holds c (tick_at 9900) oversold) waiting.entry.conditions)
evaluate_passes_example = evaluate_passes waiting (tick_at 9900) oversold at_close

abbrev three_ticks : List (Tick ℤ)
three_ticks =
    (won 100, won 5, seconds 60) ∷ (won 90, won 1, seconds 70) ∷ (won 95, won 2, seconds 130) ∷ []

bars_are_candles_example :
    IsSeriesOf 2 (groups_from 60 ([], none) three_ticks) (run 60 2 empty_series three_ticks)
bars_are_candles_example = bars_are_candles 60 2 three_ticks
