-- ===== src/SlowLoop/Publishing/Days.antt =====
-- Rows and sheets of one ticker and day.
use prime_jennie_runtime.Prelude.{
  ℕ, ◌≡◌, refl, inl, inr, Bool, true, false, ◌&&◌, some, List, [], ◌∷◌, ◌++◌, All, All-append,
  arith, ◌==◌, Bool-cases,
}
use prime_jennie_runtime.Prelude.Time.{Datetime, instant, kst_offset}
use prime_jennie_runtime.PositionSheet.{PositionSheet}
use prime_jennie_runtime.SlowLoop.ActiveSheets.{
  SheetRow, kst_date, any_sheet, generated_on, pg_checker, has_active_sheet_today,
}
use prime_jennie_runtime.SlowLoop.Publishing.{Moment, database_at}

-- The same ticker on the same day in Korea.
abbrev pub same_day : {F : Type 0} → PositionSheet F → PositionSheet F → Bool
same_day a b =
    a.ticker == b.ticker && kst_date (instant a.generated_at) == kst_date (instant b.generated_at)

abbrev pub Distinct : {F : Type 0} → List (PositionSheet F) → Type 0
Distinct [] = Unit {0}
Distinct (a ∷ sheets) = All (λ b. same_day a b ≡ false) sheets × Distinct sheets

-- The text of an id, generated on the clock of Korea, tells the ticker and the day.
abbrev pub IdsTell : (ℕ → Datetime → ℕ) → Type 0
IdsTell id_text =
    (t u : ℕ) (g h : Datetime)
    → g.offset ≡ some kst_offset
    → h.offset ≡ some kst_offset
    → id_text t g ≡ id_text u h
    → (t ≡ u) × (kst_date (instant g) ≡ kst_date (instant h))

-- The row stands under the id that its ticker and its time have.
abbrev pub IsNamed : (ℕ → Datetime → ℕ) → SheetRow → Type 0
IsNamed id_text row =
    (g : Datetime) × (g.offset ≡ some kst_offset)
    × (row.sheet_id ≡ id_text row.ticker g)
    × (row.generated_at ≡ instant g)

pub any_sheet-append :
    (test : SheetRow → Bool) (rows more : List SheetRow)
    → any_sheet test rows ≡ true
    → any_sheet test (rows ++ more) ≡ true
unfolding any_sheet
any_sheet-append test [] more h = absurd (cc)
any_sheet-append test (row ∷ rows) more h = ground (arith, any_sheet-append test rows more)

pub any_sheet-last :
    (test : SheetRow → Bool) (rows : List SheetRow) (row : SheetRow)
    → test row ≡ true
    → any_sheet test (rows ++ row ∷ []) ≡ true
unfolding any_sheet
any_sheet-last test [] row h = ground arith
any_sheet-last test (other ∷ rows) row h = ground (arith, any_sheet-last test rows row h)

pub Distinct-last :
    {F : Type 0} (sheets : List (PositionSheet F)) (b : PositionSheet F)
    → Distinct sheets
    → All (λ a. same_day a b ≡ false) sheets
    → Distinct (sheets ++ b ∷ [])
Distinct-last [] b d h = (tt, tt)
Distinct-last (a ∷ sheets) b (p, d) (q, h) =
    (All-append (λ x. same_day a x ≡ false) sheets (b ∷ []) p (q, tt), Distinct-last sheets b d h)

pub asked_lem :
    (moment : Moment) (rows : List SheetRow) (ticker : ℕ) (g : Datetime)
    → moment.connects ≡ true
    → (pg_checker moment.now (database_at moment rows)).active_sheet_today ticker g
      ≡ any_sheet (generated_on ticker g) rows
unfolding pg_checker has_active_sheet_today
asked_lem moment rows ticker g h = rw h refl

same_query :
    (t u : ℕ) (g h : Datetime)
    → t ≡ u
    → kst_date (instant g) ≡ kst_date (instant h)
    → (rows : List SheetRow) → any_sheet (generated_on t g) rows ≡ any_sheet (generated_on u h) rows
unfolding any_sheet
same_query t u g h e d [] = refl
same_query t u g h e d (row ∷ rows) = ground (arith, same_query t u g h e d rows)

abbrev pub Recorded : {F : Type 0} → List SheetRow → PositionSheet F → Type 0
Recorded rows sheet = any_sheet (generated_on sheet.ticker sheet.generated_at) rows ≡ true

pub Recorded-differs :
    {F : Type 0} (rows : List SheetRow) (b : PositionSheet F)
    → any_sheet (generated_on b.ticker b.generated_at) rows ≡ false
    → (a : PositionSheet F) → Recorded rows a
    → same_day a b ≡ false
Recorded-differs rows b free a h = elim (Bool-cases (same_day a b)) [
  | inr other ↦ other
  | inl same ↦
      let (t, d) = parts same in
      absurd (let e = same_query a.ticker b.ticker a.generated_at b.generated_at t d rows in cc)
]
  where
    parts : {a b c d : ℕ} → (a == b && c == d) ≡ true → (a ≡ b) × (c ≡ d)
    parts h = ground arith
