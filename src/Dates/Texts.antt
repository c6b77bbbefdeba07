-- ===== src/Dates/Texts.antt =====
-- Reading the parts of a date and writing them again gives the same text.
use cpa_keeper_dashboard.Prelude.{
  ℕ, ◌+◌, ◌*◌, ◌-◌, ◌/◌, ◌<◌, ◌≡◌, refl, true, ◌&&◌, leb, arith, Option, none, some, [], ◌∷◌, ◌++◌,
  if◌then◌else◌, Bool-cases, inl, inr, ap, ◌∙◌, sym, ◌⊎◌, length, ◌==◌,
}
use mathlib.Core.Option.{some-injective}
use mathlib.Core.Path.{subst}
use mathlib.Core.Bool.{and-eq-true_iff}
use cpa_keeper_dashboard.Prelude.Text.{Text, is_digit}
use cpa_keeper_dashboard.Dates.{
  Fields, two, four, expect, parse_date, parse_seconds, at_end, parse_input, two_digits,
  four_digits, ◌>>=◌, digit, iso_date_time,
}

two_sound :
    (s : Text) {n : ℕ} {r : Text} → two s ≡ some (n, r) → (s ≡ two_digits n ++ r) × (n < 100)
unfolding two
two_sound [] h = absurd (ground arith)
two_sound (a ∷ []) h = absurd (ground arith)
two_sound (a ∷ b ∷ r) h = ground arith

abbrev value : ℕ → ℕ → ℕ → ℕ → ℕ
value x y z w = x * 1000 + y * 100 + z * 10 + w

four_digits-value :
    (x y z w : ℕ)
    → x < 10
    → y < 10
    → z < 10
    → w < 10
    → four_digits (value x y z w) ≡ (b'0' + x) ∷ (b'0' + y) ∷ (b'0' + z) ∷ (b'0' + w) ∷ []
four_digits-value x y z w hx hy hz hw =
    let ex : digit (value x y z w / 1000) ≡ b'0' + x = omega arith in
    let ey : digit (value x y z w / 100) ≡ b'0' + y = omega arith in
    let ez : digit (value x y z w / 10) ≡ b'0' + z = omega arith in
    let ew : digit (value x y z w) ≡ b'0' + w = omega arith in λ i. ex i ∷ ey i ∷ ez i ∷ ew i ∷ []

is_digit_parts : (c : ℕ) → is_digit c ≡ true → (c - b'0' < 10) × (b'0' + (c - b'0') ≡ c)
is_digit_parts c h = ground arith

four_value :
    (a b c d : ℕ)
    → (is_digit a && (is_digit b && (is_digit c && is_digit d))) ≡ true
    → (four_digits (value (a - b'0') (b - b'0') (c - b'0') (d - b'0')) ≡ a ∷ b ∷ c ∷ d ∷ [])
      × (value (a - b'0') (b - b'0') (c - b'0') (d - b'0') < 10000)
four_value a b c d h =
    let (ha, h1) = (and-eq-true_iff _ _).0 h in
    let (hb, h2) = (and-eq-true_iff _ _).0 h1 in
    let (hc, hd) = (and-eq-true_iff _ _).0 h2 in
    let (la, ea) = is_digit_parts a ha in
    let (lb, eb) = is_digit_parts b hb in
    let (lc, ec) = is_digit_parts c hc in
    let (ld, ed) = is_digit_parts d hd in
    (
      four_digits-value (a - b'0') (b - b'0') (c - b'0') (d - b'0') la lb lc ld
          ∙ (λ i. ea i ∷ eb i ∷ ec i ∷ ed i ∷ []),
      omega arith,
    )

four_sound :
    (s : Text) {n : ℕ} {r : Text} → four s ≡ some (n, r) → (s ≡ four_digits n ++ r) × (n < 10000)
unfolding four
four_sound [] h = absurd (ground arith)
four_sound (a ∷ []) h = absurd (ground arith)
four_sound (a ∷ b ∷ []) h = absurd (ground arith)
four_sound (a ∷ b ∷ c ∷ []) h = absurd (ground arith)
four_sound (a ∷ b ∷ c ∷ d ∷ r) {n} {r = r'} h =
    elim (Bool-cases (is_digit a && (is_digit b && (is_digit c && is_digit d)))) [
      | inl digits ↦
          let (e, lt) = four_value a b c d digits in
          let h' : ◌≡◌ {A = Option (ℕ × Text)}
              (some (value (a - b'0') (b - b'0') (c - b'0') (d - b'0'), r)) (some (n, r')) =
            rw digits at h in
          let en : value (a - b'0') (b - b'0') (c - b'0') (d - b'0') ≡ n = ground arith in
          let er : r ≡ r' = ground arith in
          ((λ i. sym e i ++ r) ∙ (λ i. four_digits (en i) ++ er i), rw (← en) lt)
      | inr other ↦ absurd (let h' = rw other at h in cc)
    ]

expect_sound : (x : ℕ) (s : Text) {r : Text} → expect x s ≡ some r → s ≡ x ∷ r
unfolding expect
expect_sound x [] h = absurd (ground arith)
expect_sound x (c ∷ r) h = ground arith

-- To take a successful chain apart.
pub bind_elim {ℓ κ μ} :
    {A : Type ℓ} {B : Type κ} {P : Type μ} (o : Option A) (k : A → Option B) {b : B}
    → (o >>= k) ≡ some b
    → ((a : A) → o ≡ some a → k a ≡ some b → P)
    → P
bind_elim none k h go = absurd (ground arith)
bind_elim (some a) k h go = go a refl h

-- A date that was read is written the same way.
pub parse_date_sound :
    (s : Text) {y m d : ℕ} {r : Text}
    → parse_date s ≡ some ((y, m, d), r)
    → (s ≡ four_digits y ++ (b'-' ∷ (two_digits m ++ (b'-' ∷ (two_digits d ++ r)))))
      × (y < 10000)
      × (m < 100)
      × (d < 100)
unfolding parse_date
parse_date_sound s {y} {m} {d} {r} h = bind_elim (four s) _ h λ yr p1 h1.
    bind_elim (expect b'-' yr.1) _ h1 λ r2 p2 h2. bind_elim (two r2) _ h2 λ mr p3 h3.
      bind_elim (expect b'-' mr.1) _ h3 λ r4 p4 h4. bind_elim (two r4) _ h4 λ dr p5 h5.
        let ey : yr.0 ≡ y = ground arith in
        let em : mr.0 ≡ m = ground arith in
        let ed : dr.0 ≡ d = ground arith in
        let (e1, lt) = four_sound s p1 in
        (
          cc (
            e1,
            expect_sound b'-' yr.1 p2,
            (two_sound r2 p3).0,
            expect_sound b'-' mr.1 p4,
            (two_sound r4 p5).0,
          ),
          rw (← ey) lt,
          rw (← em) (two_sound r2 p3).1,
          rw (← ed) (two_sound r4 p5).1,
        )

at_end_sound : (r : Text) {n k : ℕ} → at_end r n ≡ some k → (r ≡ []) × (n ≡ k)
unfolding at_end
at_end_sound [] h = ground arith
at_end_sound (c ∷ r) h = absurd (ground arith)

seconds_sound :
    (r : Text) {n : ℕ} → parse_seconds r ≡ some n → ((r ≡ []) × (n ≡ 0)) ⊎ (r ≡ b':' ∷ two_digits n)
unfolding parse_seconds
seconds_sound [] h = inl (refl, ground arith)
seconds_sound (c ∷ r) {n} h = bind_elim (expect b':' (c ∷ r)) _ h λ r1 p1 h1.
    bind_elim (two r1) _ h1 λ nr p2 h2.
      let (e, k) = at_end_sound nr.1 h2 in
      let (e1, lt) = two_sound r1 p2 in
      inr (expect_sound b':' (c ∷ r) p1 ∙ ap (λ t. b':' ∷ t) (e1 ∙ (λ i. two_digits (k i) ++ e i)))

-- An input with its seconds: they are ":00" where the browser leaves them out.
abbrev pub with_seconds : Text → Text
with_seconds v = if length v == 16 then v ++ (b':' ∷ two_digits 0) else v

abbrev to_minute : Fields → Text → Text
to_minute f r =
    four_digits f.year
    ++ (b'-'
        ∷ (two_digits f.month
            ++ (b'-'
                ∷ (two_digits f.day
                    ++ (b'T' ∷ (two_digits f.hour ++ (b':' ∷ (two_digits f.minute ++ r))))))))

minutes_sound :
    (s : Text) {f : Fields}
    → parse_input s ≡ some f
    → (r : Text) × (s ≡ to_minute f r) × (parse_seconds r ≡ some f.second) × (f.year < 10000)
unfolding parse_input
minutes_sound s {f} h = bind_elim (parse_date s) _ h λ dr p1 h1.
    bind_elim (expect b'T' dr.1) _ h1 λ r2 p2 h2. bind_elim (two r2) _ h2 λ hr p3 h3.
      bind_elim (expect b':' hr.1) _ h3 λ r4 p4 h4. bind_elim (two r4) _ h4 λ nr p5 h5.
        bind_elim (parse_seconds nr.1) _ h5 λ sec p6 h6.
          let made : Fields = record {
            year = dr.0.0;
            month = dr.0.1;
            day = dr.0.2;
            hour = hr.0;
            minute = nr.0;
            second = sec;
          } in
          let same : made ≡ f = some-injective _ _ h6 in
          let (e1, lt, _, _) = parse_date_sound s p1 in
          let read : s ≡ to_minute made nr.1 = cc (
            e1,
            expect_sound b'T' dr.1 p2,
            (two_sound r2 p3).0,
            expect_sound b':' hr.1 p4,
            (two_sound r4 p5).0,
          ) in
          (
            nr.1,
            read ∙ ap (λ g. to_minute g nr.1) same,
            p6 ∙ ap (λ g. some g.second) same,
            subst (λ g. g.year < 10000) same lt,
          )

-- An input that was read is written the same way again, with its seconds.
pub parse_input_sound :
    (s : Text) {f : Fields} → parse_input s ≡ some f → iso_date_time f ≡ with_seconds s
unfolding iso_date_time
parse_input_sound s {f} h =
    let (r, e, p, lt) = minutes_sound s h in
    let short : leb f.year 9999 ≡ true = ground arith in
    elim (seconds_sound r p) [
      | inl (no_seconds, z) ↦ rw (short, z) (rw (e, no_seconds) refl)
      | inr seconds ↦ rw short (rw (e, seconds) refl)
    ]
