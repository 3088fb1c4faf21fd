-- ===== src/Schedule/Days.antt =====
-- The days on which UniFi applies a schedule.
use familyfi.Base.{
  ℕ, zero, suc, ◌+◌, ◌<◌, ◌≡◌, ◌∙◌, refl, sym, ap, arith, inl, inr, Bool, true, false, ◌||◌, some,
  List, [], ◌∷◌, ltb, ◌==◌, has, any, unique, unique_from, has-unique, sort, insert_sorted, length,
  Bool-cases, All, All-unique,
}
use familyfi.Schedule.{
  Schedule, TimeFilter, UnifiFirewallSchedule, every_day, every_week, mapped, assert_schedule,
  to_unifi_schedule,
}

-- UniFi applies the schedule to windows that start on this day.
pub applies_on : UnifiFirewallSchedule → ℕ → Bool
applies_on (every_day times) day = true
applies_on (every_week days times) day = has days day

abbrev pub times_of : UnifiFirewallSchedule → TimeFilter
times_of (every_day times) = times
times_of (every_week days times) = times

has-insert_sorted : (n : ℕ) (l : List ℕ) (d : ℕ) → has (insert_sorted n l) d ≡ (n == d || has l d)
unfolding has insert_sorted
has-insert_sorted n [] d = refl
has-insert_sorted n (m ∷ l) d = ground (arith, has-insert_sorted n l d)

has-sort : (l : List ℕ) (d : ℕ) → has (sort l) d ≡ has l d
unfolding has sort
has-sort [] d = refl
has-sort (n ∷ l) d = has-insert_sorted n (sort l) d ∙ ap (λ b. n == d || b) (has-sort l d)

length-insert_sorted : (n : ℕ) (l : List ℕ) → length (insert_sorted n l) ≡ suc (length l)
unfolding insert_sorted
length-insert_sorted n [] = refl
length-insert_sorted n (m ∷ l) = ground (arith, length-insert_sorted n l)

length-sort : (l : List ℕ) → length (sort l) ≡ length l
unfolding sort
length-sort [] = refl
length-sort (n ∷ l) = length-insert_sorted n (sort l) ∙ ap suc (length-sort l)

-- One for a day that the list has, and none otherwise.
abbrev one_if : Bool → ℕ
one_if true = 1
one_if false = 0

abbrev days_had : List ℕ → ℕ
days_had l =
    one_if (has l 0)
    + one_if (has l 1)
    + one_if (has l 2)
    + one_if (has l 3)
    + one_if (has l 4)
    + one_if (has l 5)
    + one_if (has l 6)

abbrev IsDistinct : List ℕ → Type 0
IsDistinct [] = Unit
IsDistinct (n ∷ l) = (has l n ≡ false) × IsDistinct l

unique_from-fresh :
    (seen l : List ℕ) (n : ℕ) → has seen n ≡ true → has (unique_from seen l) n ≡ false
unfolding has unique_from
unique_from-fresh seen [] n h = refl
unique_from-fresh seen (m ∷ l) n h =
    ground (arith, unique_from-fresh seen l n h, unique_from-fresh (m ∷ seen) l n)

unique_from-IsDistinct : (seen l : List ℕ) → IsDistinct (unique_from seen l)
unfolding unique_from
unique_from-IsDistinct seen [] = tt
unique_from-IsDistinct seen (m ∷ l) = elim (Bool-cases (has seen m)) [
  | inl again ↦ rw again (unique_from-IsDistinct seen l)
  | inr fresh ↦ rw fresh (
    unique_from-fresh (m ∷ seen) l m (unfold has in ground arith),
    unique_from-IsDistinct (m ∷ seen) l,
  )
]

-- A new day is one more of the seven.
days_had-cons : (n : ℕ) (l : List ℕ) → has l n ≡ false → n < 7 → days_had (n ∷ l) ≡ suc (days_had l)
unfolding has
days_had-cons zero l fresh small = ground arith
days_had-cons (suc zero) l fresh small = ground arith
days_had-cons (suc (suc zero)) l fresh small = ground arith
days_had-cons (suc (suc (suc zero))) l fresh small = ground arith
days_had-cons (suc (suc (suc (suc zero)))) l fresh small = ground arith
days_had-cons (suc (suc (suc (suc (suc zero))))) l fresh small = ground arith
days_had-cons (suc (suc (suc (suc (suc (suc zero)))))) l fresh small = ground arith
days_had-cons (suc (suc (suc (suc (suc (suc (suc n))))))) l fresh small =
    absurd (omega (arith, small))

length-IsDistinct : (l : List ℕ) → IsDistinct l → All (λ d. d < 7) l → length l ≡ days_had l
unfolding has
length-IsDistinct [] h k = refl
length-IsDistinct (n ∷ l) (fresh, h) (small, k) =
    ap suc (length-IsDistinct l h k) ∙ sym (days_had-cons n l fresh small)

seven_days : (l : List ℕ) (d : ℕ) → days_had l ≡ 7 → d < 7 → has l d ≡ true
seven_days l zero e h = ground arith
seven_days l (suc zero) e h = ground arith
seven_days l (suc (suc zero)) e h = ground arith
seven_days l (suc (suc (suc zero))) e h = ground arith
seven_days l (suc (suc (suc (suc zero)))) e h = ground arith
seven_days l (suc (suc (suc (suc (suc zero))))) e h = ground arith
seven_days l (suc (suc (suc (suc (suc (suc zero)))))) e h = ground arith
seven_days l (suc (suc (suc (suc (suc (suc (suc d))))))) e h = absurd (omega (arith, h))

any-small : (l : List ℕ) → any (λ day. ltb 6 day) l ≡ false → All (λ d. d < 7) l
unfolding any
any-small [] h = tt
any-small (n ∷ l) h = (ground arith, any-small l (ground arith))

mapped-applies_on :
    (days : List ℕ) (times : TimeFilter) (day : ℕ)
    → All (λ d. d < 7) days
    → day < 7
    → applies_on (mapped (sort (unique days)) times) day ≡ has days day
unfolding mapped applies_on unique
mapped-applies_on days times day small h =
    let kept : has (sort (unique days)) day ≡ has days day =
      has-sort (unique days) day ∙ has-unique days day in
    elim (Bool-cases (length (sort (unique days)) == 7)) [
      | inl all ↦
          let seven : length (unique days) ≡ 7 = sym (length-sort (unique days)) ∙ (ground arith) in
          let had =
            length-IsDistinct (unique days) (unique_from-IsDistinct [] days)
              (All-unique (λ d. d < 7) days small) in
          let on = seven_days (unique days) day (sym had ∙ seven) h in
          rw all (ground (arith, has-unique days day))
      | inr some_days ↦ rw some_days kept
    ]

times_of-mapped : (days : List ℕ) (times : TimeFilter) → times_of (mapped days times) ≡ times
unfolding mapped
times_of-mapped days times = elim (Bool-cases (length days == 7)) [
  | inl all ↦ rw all refl
  | inr some_days ↦ rw some_days refl
]

-- When `toUnifiSchedule` maps a schedule to one of UniFi's, the schedule passes `assertSchedule`, the
-- times are kept, and UniFi applies it on exactly the weekdays that the schedule lists, also when it
-- is mapped to "every day".
pub to_unifi_schedule-applies_on :
    (s : Schedule) (u : UnifiFirewallSchedule) (day : ℕ)
    → to_unifi_schedule s ≡ some (some u)
    → day < 7
    → (assert_schedule s ≡ true)
      × (applies_on u day ≡ has s.days day)
      × (times_of u ≡ record { start_time = s.start; stop_time = s.end_ })
unfolding to_unifi_schedule
to_unifi_schedule-applies_on s u day e h =
    let valid : assert_schedule s ≡ true = ground arith in
    let times : TimeFilter = record { start_time = s.start; stop_time = s.end_ } in
    let same : mapped (sort (unique s.days)) times ≡ u = ground arith in
    let small = any-small s.days (unfold assert_schedule in ground arith) in
    (
      valid,
      ap (λ v. applies_on v day) (sym same) ∙ mapped-applies_on s.days times day small h,
      ap times_of (sym same) ∙ times_of-mapped (sort (unique s.days)) times,
    )
