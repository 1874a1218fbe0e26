-- ===== src/FastLoop/BarEngine/Bars.antt =====
-- What holds of a ticker's bars after any ticks.
use mathlib.Core.List.{Memᴰ}
use prime_jennie_runtime.Prelude.{
  ℕ, zero, suc, ◌+◌, ◌≤◌, ◌≡◌, ◌⊎◌, inl, inr, refl, sym, subst, ◌∙◌, true, false, Bool-cases, ◌==◌,
  Option, none, some, List, [], ◌∷◌, ◌++◌, arith, All, All-map, length, drop, length-append,
  length-last_n, All-append, last_n, ◌-◌, if◌then◌else◌, ap,
}
use prime_jennie_runtime.Prelude.Float.{Float, max, min, le-max_left, le-max_right}
use prime_jennie_runtime.FastLoop.BarEngine.{
  Bar, Series, empty_series, bar_start, new_bar, extend_bar, update_bar, update_series,
  append_history,
}

-- One tick: its price, its cleaned volume and its time.
abbrev pub Tick : Type 0 → Type 0
Tick T = T × T × ℕ

-- The prices of neighbouring ticks of one interval, the first of them apart.
pub record Group (F : Type 0) : Type 0 where
  pub start : ℕ
  pub first : F
  pub later : List F

module _ {F : Type 0} where
  abbrev pub prices : Group F → List F
  prices g = g.first ∷ g.later

  abbrev pub last_of : F → List F → F
  last_of p [] = p
  last_of p (q ∷ qs) = last_of q qs

  -- The ticks in their order, cut where the interval changes: the groups that are over, and the last.
  abbrev pub into_group :
      ℕ → F → List (Group F) × Option (Group F) → List (Group F) × Option (Group F)
  into_group start price (done, none) =
      (done, some (record { start = start; first = price; later = [] }))
  into_group start price (done, some g) =
      if g.start == start
      then (done, some (record g { later = g.later ++ price ∷ [] }))
      else (done ++ g ∷ [], some (record { start = start; first = price; later = [] }))

  unfoldable pub groups_from :
      ℕ → List (Group F) × Option (Group F) → List (Tick F) → List (Group F) × Option (Group F)
  groups_from interval acc [] = acc
  groups_from interval acc ((price, vol, now) ∷ ticks) =
      groups_from interval (into_group (bar_start interval now) price acc) ticks

  last_of-append : (p q : F) (ps : List F) → last_of p (ps ++ q ∷ []) ≡ q
  last_of-append p q [] = refl
  last_of-append p q (r ∷ ps) = last_of-append r q ps

  Memᴰ-append : (x : F) (xs ys : List F) → Memᴰ x xs → Memᴰ x (xs ++ ys)
  Memᴰ-append x [] ys m = elim m [ ]
  Memᴰ-append x (y ∷ xs) ys (Memᴰ.head e) = Memᴰ.head e
  Memᴰ-append x (y ∷ xs) ys (Memᴰ.tail m) = Memᴰ.tail (Memᴰ-append x xs ys m)

  Memᴰ-last : (x : F) (xs : List F) → Memᴰ x (xs ++ x ∷ [])
  Memᴰ-last x [] = Memᴰ.head refl
  Memᴰ-last x (y ∷ xs) = Memᴰ.tail (Memᴰ-last x xs)

module _ {F : Type 0} ⦃fl : Float F⦄ where
  -- The bar of a group: it opens with the first price and closes with the last, its high is the
  -- greatest of all the prices and its low the least, each of them one of the prices.
  pub record IsCandleOf (g : Group F) (b : Bar F) : Type 0 where
    pub timestamp : b.timestamp ≡ g.start
    pub opens : b.open_price ≡ g.first
    pub closes : b.close ≡ last_of g.first g.later
    pub greatest : All (λ p. fl.le p b.high ≡ true) (prices g)
    pub least_one : All (λ p. fl.le b.low p ≡ true) (prices g)
    pub high_met : Memᴰ b.high (prices g)
    pub low_met : Memᴰ b.low (prices g)

  min-le_left : (a b : F) → fl.le (min a b) a ≡ true
  min-le_left a b = ground (arith, fl.le_refl a, fl.le_total a b)

  min-le_right : (a b : F) → fl.le (min a b) b ≡ true
  min-le_right a b = ground (arith, fl.le_refl b, fl.le_total b a)

  max-either : (a b : F) → (max a b ≡ a) ⊎ (max a b ≡ b)
  max-either a b = ground arith

  min-either : (a b : F) → (min a b ≡ a) ⊎ (min a b ≡ b)
  min-either a b = ground arith

  new_bar-IsCandleOf :
      (start : ℕ) (price vol : F)
      → IsCandleOf (record { start = start; first = price; later = [] }) (new_bar start price vol)
  unfolding new_bar
  new_bar-IsCandleOf start price vol = record {
    timestamp = refl;
    opens = refl;
    closes = refl;
    greatest = (fl.le_refl price, tt);
    least_one = (fl.le_refl price, tt);
    high_met = Memᴰ.head refl;
    low_met = Memᴰ.head refl;
  }

  met_by :
      (x high price : F) (ps : List F)
      → (x ≡ high) ⊎ (x ≡ price)
      → Memᴰ high ps
      → Memᴰ x (ps ++ price ∷ [])
  met_by x high price ps (inl e) m =
      subst (λ y. Memᴰ y (ps ++ price ∷ [])) (sym e) (Memᴰ-append high ps (price ∷ []) m)
  met_by x high price ps (inr e) m =
      subst (λ y. Memᴰ y (ps ++ price ∷ [])) (sym e) (Memᴰ-last price ps)

  extend_bar-IsCandleOf :
      (price vol : F) (g : Group F) (b : Bar F)
      → IsCandleOf g b
      → IsCandleOf (record g { later = g.later ++ price ∷ [] }) (extend_bar price vol b)
  unfolding extend_bar
  extend_bar-IsCandleOf price vol g b v = record {
    timestamp = v.timestamp;
    opens = v.opens;
    closes = sym (last_of-append g.first price g.later);
    greatest =
        All-append (λ p. fl.le p (max b.high price) ≡ true) (prices g) (price ∷ [])
          (All-map (λ p h. fl.le_trans p b.high (max b.high price) h (le-max_left b.high price))
            (prices g) v.greatest)
          (le-max_right b.high price, tt);
    least_one =
        All-append (λ p. fl.le (min b.low price) p ≡ true) (prices g) (price ∷ [])
          (All-map (λ p h. fl.le_trans (min b.low price) b.low p (min-le_left b.low price) h)
            (prices g) v.least_one)
          (min-le_right b.low price, tt);
    high_met =
        met_by (max b.high price) b.high price (prices g) (max-either b.high price) v.high_met;
    low_met = met_by (min b.low price) b.low price (prices g) (min-either b.low price) v.low_met;
  }

-- Two lists that agree item by item.
abbrev pub Pairs : {A B : Type 0} → (A → B → Type 0) → List A → List B → Type 0
Pairs R [] [] = Unit {0}
Pairs R (x ∷ xs) (y ∷ ys) = R x y × Pairs R xs ys
Pairs R _ _ = true ≡ false

module _ {A B : Type 0} (R : A → B → Type 0) where
  Pairs-length : (xs : List A) (ys : List B) → Pairs R xs ys → length xs ≡ length ys
  Pairs-length [] [] h = refl
  Pairs-length [] (y ∷ ys) h = absurd (cc)
  Pairs-length (x ∷ xs) [] h = absurd (cc)
  Pairs-length (x ∷ xs) (y ∷ ys) (r, h) = omega (arith, Pairs-length xs ys h)

  Pairs-last :
      (xs : List A) (ys : List B) (x : A) (y : B)
      → Pairs R xs ys
      → R x y
      → Pairs R (xs ++ x ∷ []) (ys ++ y ∷ [])
  Pairs-last [] [] x y h r = (r, tt)
  Pairs-last [] (z ∷ ys) x y h r = absurd (cc)
  Pairs-last (z ∷ xs) [] x y h r = absurd (cc)
  Pairs-last (z ∷ xs) (w ∷ ys) x y (q, h) r = (q, Pairs-last xs ys x y h r)

  Pairs-drop : (n : ℕ) (xs : List A) (ys : List B) → Pairs R xs ys → Pairs R (drop n xs) (drop n ys)
  Pairs-drop zero xs ys h = h
  Pairs-drop (suc n) [] [] h = tt
  Pairs-drop (suc n) [] (y ∷ ys) h = absurd (cc)
  Pairs-drop (suc n) (x ∷ xs) [] h = absurd (cc)
  Pairs-drop (suc n) (x ∷ xs) (y ∷ ys) (r, h) = Pairs-drop n xs ys h

  Pairs-last_n :
      (n : ℕ) (xs : List A) (ys : List B) → Pairs R xs ys → Pairs R (last_n n xs) (last_n n ys)
  Pairs-last_n n xs ys h =
      subst (λ k. Pairs R (last_n n xs) (drop (k - n) ys)) (Pairs-length xs ys h)
        (Pairs-drop (length xs - n) xs ys h)

module _ {A : Type 0} where
  drop-nil : (n : ℕ) → drop {A = A} n [] ≡ []
  drop-nil zero = refl
  drop-nil (suc n) = refl

  drop-drop : (a b c : ℕ) (xs : List A) → c ≡ b + a → drop a (drop b xs) ≡ drop c xs
  drop-drop a zero c xs h = let e : a ≡ c = omega (arith, h) in rw e refl
  drop-drop a (suc b) zero xs h = absurd (omega (arith, h))
  drop-drop a (suc b) (suc c) [] h = drop-nil a
  drop-drop a (suc b) (suc c) (x ∷ xs) h = drop-drop a b c xs (omega (arith, h))

  drop-append : (n : ℕ) (xs ys : List A) → n ≤ length xs → drop n (xs ++ ys) ≡ drop n xs ++ ys
  drop-append zero xs ys h = refl
  drop-append (suc n) [] ys h = absurd (omega (arith, h))
  drop-append (suc n) (x ∷ xs) ys h = drop-append n xs ys (omega (arith, h))

  -- Cutting to the newest `m` before an item is added changes nothing of the newest `m` after it.
  last_n-last_n :
      (m : ℕ) (xs : List A) (x : A) → last_n m (last_n m xs ++ x ∷ []) ≡ last_n m (xs ++ x ∷ [])
  last_n-last_n m xs x =
      let k = length xs - m in
      let cut = length (last_n m xs ++ x ∷ []) - m in
      let whole = length (xs ++ x ∷ []) - m in
      let count = length-append (last_n m xs) (x ∷ []) in
      let kept = length-last_n m xs in
      let all = length-append xs (x ∷ []) in
      ap (drop cut) (sym (drop-append k xs (x ∷ []) (omega arith)))
      ∙ drop-drop cut k whole (xs ++ x ∷ []) (omega (arith, count, kept, all))

module _ {F : Type 0} ⦃fl : Float F⦄ where
  abbrev pub CurrentIs : Option (Group F) → Option (Bar F) → Type 0
  CurrentIs none none = Unit {0}
  CurrentIs (some g) (some b) = IsCandleOf g b
  CurrentIs _ _ = true ≡ false

  -- The running bar is that of the last group, and the history the bars of the newest groups that are
  -- over.
  pub record IsSeriesOf (m : ℕ) (groups : List (Group F) × Option (Group F)) (s : Series F)
      : Type 0 where
    pub running : CurrentIs groups.1 s.current
    pub history : Pairs IsCandleOf (last_n m groups.0) s.completed

  update_bar-IsSeriesOf :
      (m start : ℕ) (price vol : F) (done : List (Group F)) (g : Option (Group F))
      (b : Option (Bar F)) (s : Series F)
      → CurrentIs g b
      → Pairs IsCandleOf (last_n m done) s.completed
      → IsSeriesOf m (into_group start price (done, g)) (update_bar m start price vol b s).1
  unfolding update_bar append_history
  update_bar-IsSeriesOf m start price vol done none none s c h = record {
    running = new_bar-IsCandleOf start price vol;
    history = h;
  }
  update_bar-IsSeriesOf m start price vol done none (some b) s c h = absurd (cc)
  update_bar-IsSeriesOf m start price vol done (some g) none s c h = absurd (cc)
  update_bar-IsSeriesOf m start price vol done (some g) (some b) s c h =
      elim (Bool-cases (g.start == start)) [
        | inl same ↦
            let bar_same : (b.timestamp == start) ≡ true = rw c.timestamp same in
            rw (same, bar_same, update_bar)
              (record { running = extend_bar-IsCandleOf price vol g b c; history = h })
        | inr new ↦
            let bar_new : (b.timestamp == start) ≡ false = rw c.timestamp new in
            rw (new, bar_new, update_bar)
              (record {
                running = new_bar-IsCandleOf start price vol;
                history =
                    subst (λ x. Pairs IsCandleOf x (last_n m (s.completed ++ b ∷ [])))
                      (last_n-last_n m done g)
                      (Pairs-last_n IsCandleOf m (last_n m done ++ g ∷ []) (s.completed ++ b ∷ [])
                        (Pairs-last IsCandleOf (last_n m done) s.completed g b h c));
              })
      ]

  unfoldable pub run : ℕ → ℕ → Series F → List (Tick F) → Series F
  run interval max_history s [] = s
  run interval max_history s ((price, vol, now) ∷ ticks) =
      run interval max_history (update_series interval max_history price vol now s).1 ticks

  run-IsSeriesOf :
      (interval m : ℕ) (s : Series F) (acc : List (Group F) × Option (Group F))
      (ticks : List (Tick F))
      → IsSeriesOf m acc s
      → IsSeriesOf m (groups_from interval acc ticks) (run interval m s ticks)
  unfolding run groups_from update_series
  run-IsSeriesOf interval m s acc [] v = v
  run-IsSeriesOf interval m s (done, g) ((price, vol, now) ∷ ticks) v =
      run-IsSeriesOf interval m (update_series interval m price vol now s).1
        (into_group (bar_start interval now) price (done, g)) ticks
        (update_bar-IsSeriesOf m (bar_start interval now) price vol done g s.current _ v.running
          v.history)

  -- The bars are the candles of the ticks. Cut the ticks of a ticker, in the order in which they come,
  -- into groups of neighbours of one interval: the running bar is the candle of the last group, and
  -- the history holds the candles of the newest `max_history` groups that are over, in their order. A
  -- candle opens with the first price of its group and closes with the last, and its high and its low
  -- are the greatest and the least of the group's prices.
  pub bars_are_candles :
      (interval max_history : ℕ) (ticks : List (Tick F))
      → IsSeriesOf max_history
          (groups_from interval ([], none) ticks)
          (run interval max_history empty_series ticks)
  bars_are_candles interval max_history ticks =
      run-IsSeriesOf interval max_history empty_series ([], none) ticks
        (record {
          running = tt;
          history = subst (λ x. Pairs IsCandleOf x []) (sym (drop-nil (0 - max_history))) tt;
        })
