-- ===== src/Domain/Aggregates/Days/Succession.antt =====
-- Consecutive dates have consecutive numbers (packages/domain/src/aggregates.ts).
use mathlib.Core.Path.{subst}
use loremaster.Prelude.{
  ℕ, zero, suc, ◌+◌, ◌≤◌, ◌<◌, ◌≡◌, refl, sym, ap, ◌∙◌, Bool, true, false, ◌&&◌, ◌||◌, some, ok,
  leb, ◌==◌, not, if◌then◌else◌, arith, Bool-cases, inl, inr,
}
use loremaster.Prelude.Int.{ℤ, sub_ℕ, suc_ℤ}
use loremaster.Prelude.Js.{Text}
use loremaster.Domain.Aggregates.Days.{
  CalendarDay, iso_day, is_leap, days_in_month, is_calendar_day, before_month, before_year,
  day_count, utc_day_number, next_day,
}

-- The leap day of a year, from March on.
abbrev leap_day : Bool → ℕ → ℕ
leap_day l m = if l && leb 3 m then 1 else 0

january : (l : Bool) → leap_day l 1 ≡ 0
january true = refl
january false = refl

before_year_suc : (y : ℕ) → before_year (y + 1) ≡ before_year y + 365 + leap_day (is_leap y) 12
before_year_suc y = ground arith

abbrev month_length : Bool → ℕ → ℕ
month_length l m =
    if m == 4 || m == 6 || m == 9 || m == 11
    then 30
    else if not (m == 2)
    then 31
    else if l
    then 29
    else 28

month_step :
    (l : Bool) (m : ℕ)
    → (1 ≤ m) × (m < 12)
    → before_month (m + 1) + leap_day l (m + 1) ≡ before_month m + leap_day l m + month_length l m
month_step l zero h = absurd (omega arith)
month_step l (suc zero) h = ground arith
month_step l (suc (suc zero)) h = ground arith
month_step l (suc (suc (suc zero))) h = ground arith
month_step l (suc (suc (suc (suc zero)))) h = ground arith
month_step l (suc (suc (suc (suc (suc zero))))) h = ground arith
month_step l (suc (suc (suc (suc (suc (suc zero)))))) h = ground arith
month_step l (suc (suc (suc (suc (suc (suc (suc zero))))))) h = ground arith
month_step l (suc (suc (suc (suc (suc (suc (suc (suc zero)))))))) h = ground arith
month_step l (suc (suc (suc (suc (suc (suc (suc (suc (suc zero))))))))) h = ground arith
month_step l (suc (suc (suc (suc (suc (suc (suc (suc (suc (suc zero)))))))))) h = ground arith
month_step l (suc (suc (suc (suc (suc (suc (suc (suc (suc (suc (suc zero))))))))))) h = ground arith
month_step l (suc (suc (suc (suc (suc (suc (suc (suc (suc (suc (suc (suc m)))))))))))) h =
    absurd (omega arith)

within_month :
    (y m d : ℕ)
    → 1 ≤ d
    → day_count (record { year = y; month = m; day = d + 1 })
      ≡ day_count (record { year = y; month = m; day = d }) + 1
unfolding day_count
within_month y m d h = omega arith

to_next_month :
    (y m d : ℕ)
    → (1 ≤ m) × (m < 12)
    → d ≡ days_in_month y m
    → 1 ≤ d
    → day_count (record { year = y; month = m + 1; day = 1 })
      ≡ day_count (record { year = y; month = m; day = d }) + 1
unfolding day_count
to_next_month y m d h e p = omega (arith, month_step (is_leap y) m h)

to_next_year :
    (y d : ℕ)
    → d ≡ 31
    → day_count (record { year = y + 1; month = 1; day = 1 })
      ≡ day_count (record { year = y; month = 12; day = d }) + 1
unfolding day_count
to_next_year y d e = omega (arith, before_year_suc y, january (is_leap (y + 1)))

in_range :
    (m d n : ℕ)
    → (leb 1 m && leb m 12 && leb 1 d && leb d n) ≡ true
    → (1 ≤ m) × (m ≤ 12) × (1 ≤ d) × (d ≤ n)
in_range m d n h = ground arith

last_of_month : (d n : ℕ) → d ≤ n → leb (suc d) n ≡ false → d ≡ n
last_of_month d n h q = ground arith

december : (m : ℕ) → m ≤ 12 → leb 12 m ≡ true → m ≡ 12
december m h q = ground arith

before_december : (m : ℕ) → leb 12 m ≡ false → m < 12
before_december m q = ground arith

day_step :
    (y m d : ℕ)
    → is_calendar_day (record { year = y; month = m; day = d }) ≡ true
    → day_count (next_day (record { year = y; month = m; day = d }))
      ≡ day_count (record { year = y; month = m; day = d }) + 1
day_step y m d h = go (in_range m d (days_in_month y m) h)
  where
    ending :
        (1 ≤ m) × (m ≤ 12) × (1 ≤ d) × (d ≤ days_in_month y m)
        → leb (suc d) (days_in_month y m) ≡ false
        → day_count (next_day (record { year = y; month = m; day = d }))
          ≡ day_count (record { year = y; month = m; day = d }) + 1
    ending b q =
        let last = last_of_month d (days_in_month y m) b.3 q in
        elim (Bool-cases (leb 12 m)) [
          | inl r ↦
              let dec = december m b.1 r in
              rw (q, r)
                (subst
                  (λ k.
                    day_count (record { year = y + 1; month = 1; day = 1 })
                    ≡ day_count (record { year = y; month = k; day = d }) + 1)
                  (sym dec) (to_next_year y d (last ∙ ap (days_in_month y) dec)))
          | inr r ↦ rw (q, r) (to_next_month y m d (b.0, before_december m r) last b.2)
        ]

    go :
        (1 ≤ m) × (m ≤ 12) × (1 ≤ d) × (d ≤ days_in_month y m)
        → day_count (next_day (record { year = y; month = m; day = d }))
          ≡ day_count (record { year = y; month = m; day = d }) + 1
    go b = elim (Bool-cases (leb (suc d) (days_in_month y m))) [
      | inl q ↦ rw q (within_month y m d b.2)
      | inr q ↦ ending b q
    ]

some_day : (y m : ℕ) → leb 1 (days_in_month y m) ≡ true
some_day y m = ground arith

next_month : (m : ℕ) → 1 ≤ m → leb 12 m ≡ false → (leb 1 (m + 1) && leb (m + 1) 12) ≡ true
next_month m p q = ground arith

within :
    (m d n : ℕ)
    → (leb 1 m && leb m 12 && leb 1 d && leb d n) ≡ true
    → leb (suc d) n ≡ true
    → (leb 1 m && leb m 12 && leb 1 (d + 1) && leb (d + 1) n) ≡ true
within m d n h q = ground arith

first_of :
    (m n : ℕ)
    → (leb 1 m && leb m 12) ≡ true
    → leb 1 n ≡ true
    → (leb 1 m && leb m 12 && leb 1 1 && leb 1 n) ≡ true
first_of m n h q = ground arith

next_day_calendar :
    (y m d : ℕ)
    → is_calendar_day (record { year = y; month = m; day = d }) ≡ true
    → is_calendar_day (next_day (record { year = y; month = m; day = d })) ≡ true
next_day_calendar y m d h = elim (Bool-cases (leb (suc d) (days_in_month y m))) [
  | inl q ↦ rw q (within m d (days_in_month y m) h q)
  | inr q ↦ elim (Bool-cases (leb 12 m)) [
    | inl r ↦ rw (q, r) refl
    | inr r ↦
        rw (q, r)
          (first_of (m + 1) (days_in_month y (m + 1))
            (next_month m (in_range m d (days_in_month y m) h).0 r) (some_day y (m + 1)))
  ]
]

sub-suc : (n k : ℕ) → sub_ℕ (n + 1) k ≡ suc_ℤ (sub_ℕ n k)
sub-suc n k = ground arith

number_of :
    (s : Text) (c : CalendarDay)
    → iso_day s ≡ some c
    → is_calendar_day c ≡ true
    → utc_day_number s ≡ ok (sub_ℕ (day_count c) 719528)
unfolding utc_day_number
number_of s c e h = rw e (rw h)

calendar_of :
    (s : Text) (c : CalendarDay) {n : ℤ}
    → iso_day s ≡ some c
    → utc_day_number s ≡ ok n
    → (is_calendar_day c ≡ true) × (n ≡ sub_ℕ (day_count c) 719528)
unfolding utc_day_number
calendar_of s c e h = elim (Bool-cases (is_calendar_day c)) [
  | inl q ↦ (q, cc (rw (e, q) at h))
  | inr q ↦ absurd (cc (rw (e, q) at h))
]

-- Where a text is accepted as a date, the text of the calendar's next day is accepted too, and its
-- number is one more: over the ends of months and of common and leap years alike.
pub utc_day_number-next :
    (s t : Text) (c : CalendarDay) (n : ℤ)
    → iso_day s ≡ some c
    → iso_day t ≡ some (next_day c)
    → utc_day_number s ≡ ok n
    → utc_day_number t ≡ ok (suc_ℤ n)
utc_day_number-next s t c n hs ht h =
    let (cal, same) = calendar_of s c hs h in
    rw (number_of t (next_day c) ht (next_day_calendar c.year c.month c.day cal))
      (rw (day_step c.year c.month c.day cal, same) (ap ok (sub-suc (day_count c) 719528)))
