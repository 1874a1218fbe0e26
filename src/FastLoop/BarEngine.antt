-- ===== src/FastLoop/BarEngine.antt =====
-- Ticks into minute bars, and the indicators over them
-- (prime_jennie_runtime/fast_loop/bar_engine.py). The engine's three dictionaries share their keys
-- here: the state of one ticker is a `Series`, and a ticker that was never seen has the empty one, as
-- the source's `defaultdict` and `.get` have it. Times are in microseconds of UTC. The lock makes each
-- call one step.
pub mod Bars
use prime_jennie_runtime.Prelude.{
  ℕ, zero, suc, ◌+◌, ◌-◌, ◌*◌, ◌/◌, Bool, true, false, ◌||◌, Option, none, some, List, [], ◌∷◌,
  ◌++◌, map, ltb, leb, ◌==◌, length, take, drop, last_n, if◌then◌else◌,
}
use prime_jennie_runtime.Prelude.Dict.{Dict, lookup, insert}
use prime_jennie_runtime.Prelude.Float.{Float, lt, eq, max, min, neg, abs}
use prime_jennie_runtime.Prelude.Time.{seconds, day}
use prime_jennie_runtime.FastLoop.Indicators.{sum}

pub record Bar (F : Type 0) : Type 0 where
  pub timestamp : ℕ
  pub open_price : F
  pub high : F
  pub low : F
  pub close : F
  pub volume : F

-- `_current[ticker]`, `_completed[ticker]` and `_intraday_volume[ticker]`, its date and sum.
pub record Series (F : Type 0) : Type 0 where
  pub current : Option (Bar F)
  pub completed : List (Bar F)
  pub volume_date : Option ℕ
  pub cum_volume : F

pub record Engine (F : Type 0) : Type 0 where
  pub interval_sec : ℕ
  pub max_history : ℕ
  pub series : Dict (Series F)

abbrev pub same_day : Option ℕ → ℕ → Bool
same_day none today = false
same_day (some d) today = d == today

-- `int(ts_epoch // self._interval) * self._interval`, in seconds
abbrev pub bar_start : ℕ → ℕ → ℕ
bar_start interval now = now / seconds interval * interval

module _ {F : Type 0} ⦃fl : Float F⦄ where
  abbrev pub empty_series : Series F
  empty_series = record {
    current = none;
    completed = [];
    volume_date = none;
    cum_volume = fl.decimal 0 1;
  }

  abbrev or_new : Option (Series F) → Series F
  or_new none = empty_series
  or_new (some s) = s

  unfoldable pub series_of : Engine F → ℕ → Series F
  series_of engine ticker = or_new (lookup ticker engine.series)

  unfoldable pub new_bar : ℕ → F → F → Bar F
  new_bar bar_ts price vol = record {
    timestamp = bar_ts;
    open_price = price;
    high = price;
    low = price;
    close = price;
    volume = vol;
  }

  unfoldable pub extend_bar : F → F → Bar F → Bar F
  extend_bar price vol b = record b {
    high = max b.high price;
    low = min b.low price;
    close = price;
    volume = fl.add b.volume vol;
  }

  unfoldable pub accumulate_intraday : ℕ → F → Series F → Series F
  accumulate_intraday today vol s = record s {
    volume_date = some today;
    cum_volume = fl.add (if same_day s.volume_date today then s.cum_volume else fl.decimal 0 1) vol;
  }

  -- `hist.append(completed)`, cut to the newest `max_history`.
  unfoldable pub append_history : ℕ → Bar F → List (Bar F) → List (Bar F)
  append_history max_history bar hist = last_n max_history (hist ++ (bar ∷ []))

  -- `float(volume or 0.0)`, and 0 for a negative one.
  unfoldable pub clean_volume : Option F → F
  clean_volume none = fl.decimal 0 1
  clean_volume (some v) = if lt v (fl.of_ℕ 0) then fl.decimal 0 1 else v

  -- `update` on one ticker's state, after the day's volume: the completed bar, if any.
  unfoldable pub update_bar : ℕ → ℕ → F → F → Option (Bar F) → Series F → Option (Bar F) × Series F
  unfolding new_bar append_history extend_bar
  update_bar max_history bar_ts price vol none s =
      (none, record s { current = some (new_bar bar_ts price vol) })
  update_bar max_history bar_ts price vol (some b) s =
      if b.timestamp == bar_ts
      then (none, record s { current = some (extend_bar price vol b) })
      else (
        some b,
        record s {
          current = some (new_bar bar_ts price vol);
          completed = append_history max_history b s.completed;
        },
      )

  unfoldable pub update_series : ℕ → ℕ → F → F → ℕ → Series F → Option (Bar F) × Series F
  unfolding update_bar accumulate_intraday
  update_series interval max_history price vol now s =
      let s' = accumulate_intraday (now / day) vol s in
      update_bar max_history (bar_start interval now) price vol s'.current s'

  unfoldable pub update : Engine F → ℕ → F → Option F → ℕ → Option (Bar F) × Engine F
  unfolding update_series series_of clean_volume
  update engine ticker price volume now =
      let (completed, s) =
        update_series engine.interval_sec engine.max_history price (clean_volume volume) now
          (series_of engine ticker) in
      (completed, record engine { series = insert ticker s engine.series })

  -- The lookups.
  unfoldable pub recent_bars : Engine F → ℕ → ℕ → List (Bar F)
  recent_bars engine ticker count = last_n count (series_of engine ticker).completed

  unfoldable pub intraday_cum_volume : Engine F → ℕ → ℕ → F
  intraday_cum_volume engine ticker now =
      let s = series_of engine ticker in
      if same_day s.volume_date (now / day) then s.cum_volume else fl.decimal 0 1

  -- For a positive period.
  unfoldable pub volume_ma20 : Engine F → ℕ → ℕ → Option F
  volume_ma20 engine ticker period =
      let hist = (series_of engine ticker).completed in
      if ltb (length hist) period
      then none
      else some (fl.div (sum (map (λ b. b.volume) (last_n period hist))) (fl.of_ℕ period))

  -- Python's `max` over a list that is not empty.
  unfoldable pub max_from : F → List F → F
  max_from best [] = best
  max_from best (x ∷ xs) = max_from (max best x) xs

  abbrev pub max_of : List F → Option F
  max_of [] = none
  max_of (x ∷ xs) = some (max_from x xs)

  unfoldable pub recent_high : Engine F → ℕ → ℕ → Option F
  unfolding max_from
  recent_high engine ticker lookback =
      let hist = (series_of engine ticker).completed in
      if ltb (length hist) lookback then none else max_of (map (λ b. b.high) (last_n lookback hist))

  -- `compute_rsi`: the gains and losses between neighbours, and Wilder's smoothing of each.
  unfoldable pub deltas : F → List F → List F
  deltas previous [] = []
  deltas previous (x ∷ xs) = fl.sub x previous ∷ deltas x xs

  abbrev gain : F → F
  gain d = max d (fl.decimal 0 1)

  abbrev loss : F → F
  loss d = abs (min d (fl.decimal 0 1))

  unfoldable pub smooth : ℕ → F → List F → F
  smooth period avg [] = avg
  smooth period avg (x ∷ xs) =
      smooth period (fl.div (fl.add (fl.mul avg (fl.of_ℕ (period - 1))) x) (fl.of_ℕ period)) xs

  abbrev pub wilder : ℕ → List F → F
  wilder period xs = smooth period (fl.div (sum (take period xs)) (fl.of_ℕ period)) (drop period xs)

  unfoldable pub rsi_of : F → F → F
  rsi_of avg_gain avg_loss =
      if eq avg_loss (fl.of_ℕ 0)
      then fl.decimal 1000 1
      else fl.sub (fl.of_ℕ 100)
          (fl.div (fl.of_ℕ 100) (fl.add (fl.of_ℕ 1) (fl.div avg_gain avg_loss)))

  unfoldable pub compute_rsi : List F → ℕ → Option F
  unfolding rsi_of smooth sum deltas
  compute_rsi [] period = none
  compute_rsi (c ∷ closes) period =
      if ltb (length (c ∷ closes)) (period + 1)
      then none
      else let ds = deltas c closes in
        some (rsi_of (wilder period (map gain ds)) (wilder period (map loss ds)))

  unfoldable pub rsi : Engine F → ℕ → ℕ → Option F
  unfolding compute_rsi
  rsi engine ticker period =
      let hist = (series_of engine ticker).completed in
      if ltb (length hist) (period + 1) then none else compute_rsi (map (λ b. b.close) hist) period
