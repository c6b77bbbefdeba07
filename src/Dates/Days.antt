-- ===== src/Dates/Days.antt =====
-- `isCalendarDay`: which of the server's days are kept.
use mathlib.Core.Bool.{and-eq-true_iff}
use cpa_keeper_dashboard.Prelude.{
  ℕ, ◌+◌, ◌-◌, ◌*◌, ◌/◌, ◌≤◌, ◌<◌, ◌≡◌, refl, Bool, true, false, leb, arith, Option, none, some, [],
  ◌∷◌, ◌++◌, Bool-cases, inl, inr, ap, ◌∙◌, sym, get_or,
}
use cpa_keeper_dashboard.Prelude.Interface.{◌===◌, list_beq_sound, nat_eq, beq_refl}
use cpa_keeper_dashboard.Prelude.Text.{Text, text_eq}
use cpa_keeper_dashboard.Dates.{
  Fields, fields_of, iso_date, legal_date, make_day, parse_date, parse_day, shows, parsed_day,
  is_calendar_day, four_digits, two_digits, long_year, digit, legal, month_length, legal_time,
}
use cpa_keeper_dashboard.Dates.Validity.{fields_of-legal, fields_of-made, legal_parts}
use cpa_keeper_dashboard.Dates.Texts.{parse_date_sound}

-- The text is YYYY-MM-DD for a day that exists.
pub names_day : Option ((ℕ × ℕ × ℕ) × Text) → Bool
names_day none = false
names_day (some ((y, m, d), [])) = legal_date y m d
names_day (some (_, _ ∷ _)) = false

abbrev midnight : ℕ → ℕ → ℕ → Fields
midnight y m d = record { year = y; month = m; day = d; hour = 0; minute = 0; second = 0 }

two_digits-injective :
    (n k : ℕ) → n < 100 → k < 100 → digit (n / 10) ≡ digit (k / 10) → digit n ≡ digit k → n ≡ k
two_digits-injective n k hn hk e f = omega arith

four_digits-injective :
    (n k : ℕ)
    → n < 10000
    → k < 10000
    → digit (n / 1000) ≡ digit (k / 1000)
    → digit (n / 100) ≡ digit (k / 100)
    → digit (n / 10) ≡ digit (k / 10)
    → digit n ≡ digit k
    → n ≡ k
four_digits-injective n k hn hk e f g h = omega arith

month_length-le : (y m : ℕ) → month_length y m ≤ 31
unfolding month_length
month_length-le y m = ground arith

abbrev date_text : ℕ → ℕ → ℕ → Text
date_text y m d = four_digits y ++ (b'-' ∷ (two_digits m ++ (b'-' ∷ two_digits d)))

-- The texts of days tell the days apart.
iso_date-injective :
    (f : Fields) (y m d : ℕ)
    → legal f ≡ true
    → y < 10000
    → m < 100
    → d < 100
    → iso_date f ≡ date_text y m d
    → (f.year ≡ y) × (f.month ≡ m) × (f.day ≡ d)
unfolding iso_date
iso_date-injective f y m d v hy hm hd e = elim (Bool-cases (leb f.year 9999)) [
  | inr long ↦
      let e' : long_year f.year ++ (b'-' ∷ two_digits f.month) ≡ date_text y m d = rw long at e in
      absurd (let c = ap (λ t. get_or t 0 0) e' in omega arith)
  | inl short ↦
      let e' : date_text f.year f.month f.day ≡ date_text y m d = rw short at e in
      let (m1, m12, d1, dl, _, _, _) = legal_parts f v in
      let at : (i : ℕ)
          → get_or (date_text f.year f.month f.day) i 0 ≡ get_or (date_text y m d) i 0 =
        λ i. ap (λ t. get_or t i 0) e' in
      (
        four_digits-injective f.year y (ground arith) hy (at 0) (at 1) (at 2) (at 3),
        two_digits-injective f.month m (omega arith) hm (at 5) (at 6),
        two_digits-injective f.day d (omega (arith, month_length-le f.year (f.month - 1))) hd (at 8)
            (at 9),
      )
]

module _ (parse_illegal : Text → Option ℕ) (value : Text) where
  legal_shows :
      (y m d : ℕ)
      → legal_date y m d ≡ true
      → y < 10000
      → value ≡ date_text y m d
      → shows parse_illegal value (some (make_day y m d * 86_400_000)) ≡ true
  unfolding shows
  legal_shows y m d v hy e =
      let midnight_time : make_day y m d * 86_400_000 + (0 * 3_600_000 + 0 * 60_000 + 0 * 1_000)
          ≡ make_day y m d * 86_400_000 =
        omega arith in
      let day : legal (midnight y m d) ≡ true = rw v (unfold legal_time in refl) in
      let fields : fields_of (make_day y m d * 86_400_000) ≡ midnight y m d =
        ap fields_of (sym midnight_time) ∙ fields_of-made (midnight y m d) day in
      let short : leb y 9999 ≡ true = ground arith in
      let text : iso_date (midnight y m d) ≡ date_text y m d = unfold iso_date in rw short refl in
      rw (fields, text, e) (beq_refl (date_text y m d))

  illegal_shows :
      (y m d : ℕ)
      → legal_date y m d ≡ false
      → y < 10000
      → m < 100
      → d < 100
      → value ≡ date_text y m d
      → (o : Option ℕ) → shows parse_illegal value o ≡ false
  unfolding shows
  illegal_shows y m d v hy hm hd e none = refl
  illegal_shows y m d v hy hm hd e (some t) = elim (Bool-cases (iso_date (fields_of t) === value)) [
    | inr differ ↦ differ
    | inl same ↦
        let shown : iso_date (fields_of t) ≡ date_text y m d = list_beq_sound _ _ same ∙ e in
        let ok : legal (fields_of t) ≡ true = fields_of-legal t in
        let (ey, em, ed) = iso_date-injective (fields_of t) y m d ok hy hm hd shown in
        let day : legal_date (fields_of t).year (fields_of t).month (fields_of t).day ≡ true =
          ((and-eq-true_iff _ _).0 ok).0 in
        cc
  ]

  parsed_day_lem :
      (o : Option ((ℕ × ℕ × ℕ) × Text))
      → parse_date value ≡ o
      → parsed_day parse_illegal value o ≡ names_day o
  unfolding parsed_day names_day parse_day
  parsed_day_lem none p = refl
  parsed_day_lem (some ((y, m, d), _ ∷ _)) p = refl
  parsed_day_lem (some ((y, m, d), [])) p =
      let (e, hy, hm, hd) = parse_date_sound value p in
      elim (Bool-cases (legal_date y m d)) [
        | inl v ↦ rw v (legal_shows y m d v hy e)
        | inr bad ↦ rw bad (illegal_shows y m d bad hy hm hd e (parse_illegal value))
      ]

  -- `isCalendarDay` accepts exactly the texts YYYY-MM-DD of days that exist, whatever an engine
  -- makes of a date that does not.
  pub is_calendar_day_lem : is_calendar_day parse_illegal value ≡ names_day (parse_date value)
  unfolding is_calendar_day
  is_calendar_day_lem = parsed_day_lem (parse_date value) refl
