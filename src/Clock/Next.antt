-- ===== src/Clock/Next.antt =====
-- What `nextClockOnDays` returns.
use mathlib.Core.List.Memᴰ
use familyfi.Base.{
  ℕ, ◌+◌, ◌-◌, max, ◌<◌, ◌/◌, ◌%◌, ◌≡◌, ◌≢◌, ◌⊎◌, refl, sym, ap, ◌∙◌, ◌==◌, Bool, Bool-cases, keep,
  unique, has-sort, has-unique, inl, inr, true, false, some, List, [], ◌∷◌, arith, Text, has, any,
  find, find_holds, find-none, Option-cases, Memᴰ, find-Memᴰ,
}
use familyfi.Clock.{
  Zone, CalendarDay, day_ms, or_latest, wall_clock, reading_at, next_from, next_eight_days,
  next_clock_on_days, due_instant, zoned_wall_times_to_utc, add_calendar_days, minutes_from_hhmm,
}

-- The instants at which the clock reads `minutes` on the day `offset` days after today's.
abbrev pub readings : Zone → ℕ → ℕ → ℕ → List ℕ
readings z now minutes offset =
    let today = z.zoned_parts now in
    zoned_wall_times_to_utc z (add_calendar_days z today.year today.month today.day offset)
      (minutes / 60) (minutes % 60)

-- The zone's clock at an instant, as if it showed UTC.
abbrev pub clock_at : Zone → ℕ → ℕ
clock_at z t =
    let seen = z.zoned_parts t in z.date_utc seen.year seen.month seen.day seen.hour seen.minute

-- What `wall` on the clock comes to with the zone's offset at `probe`.
abbrev pub with_offset_at : Zone → ℕ → ℕ → ℕ
with_offset_at z wall probe = wall + probe - clock_at z probe

-- The clock shows `wall` at the instant; or it skips `wall`, which it shows at none of the instants
-- that the offsets a day before, at and a day after `wall` give, and the instant is the latest of
-- these.
abbrev pub IsReading : Zone → ℕ → ℕ → Type 0
IsReading z wall t =
    let before = with_offset_at z wall (wall - day_ms) in
    let at = with_offset_at z wall wall in
    let after = with_offset_at z wall (wall + day_ms) in
    (clock_at z t ≡ wall)
    ⊎ ((clock_at z before ≢ wall)
        × (clock_at z at ≢ wall)
        × (clock_at z after ≢ wall)
        × (t ≡ max before (max at after)))

-- The clock time on the day `offset` days after today's, as if that were UTC.
abbrev pub wall_on : Zone → ℕ → ℕ → ℕ → ℕ
wall_on z now minutes offset =
    let today = z.zoned_parts now in
    let day = z.utc_date (z.date_utc today.year today.month (today.day + offset) 0 0) in
    z.date_utc day.year day.month day.day (minutes / 60) (minutes % 60)

has-Memᴰ : (t : ℕ) (l : List ℕ) → Memᴰ t l → has l t ≡ true
unfolding has
has-Memᴰ t [] m = absurd (Memᴰ.not-nil m)
has-Memᴰ t (x ∷ l) m = elim (Memᴰ.cases_cons m) [
  | inl e ↦ ground (arith, e)
  | inr m' ↦ ground (arith, has-Memᴰ t l m')
]

has-keep : (p : ℕ → Bool) (l : List ℕ) (t : ℕ) → has (keep p l) t ≡ true → p t ≡ true
unfolding has keep
has-keep p [] t e = absurd (cc)
has-keep p (x ∷ l) t e = elim (Bool-cases (p x)) [
  | inl kept ↦ elim (Bool-cases (x == t)) [
    | inl same ↦ let k : x ≡ t = ground arith in rw (← k) kept
    | inr apart ↦ let e' = rw (kept) at e in has-keep p l t (ground (arith, e'))
  ]
  | inr left ↦ has-keep p l t (rw left at e)
]

has-nil : (t : ℕ) → ¬ (has [] t ≡ true)
unfolding has
has-nil t e = cc

keep-has :
    (p : ℕ → Bool) (l : List ℕ) (t : ℕ) → has l t ≡ true → p t ≡ true → has (keep p l) t ≡ true
unfolding has keep
keep-has p [] t e k = absurd (cc)
keep-has p (x ∷ l) t e k = elim (Bool-cases (x == t)) [
  | inl same ↦
      let here : p x ≡ true = let s : x ≡ t = ground arith in rw s k in
      rw here (ground (arith, same))
  | inr apart ↦
      let rest : has (keep p l) t ≡ true = keep-has p l t (ground (arith, apart, e)) k in
      elim (Bool-cases (p x)) [
        | inl kept ↦ rw kept (ground (arith, rest))
        | inr left ↦ rw left rest
      ]
]

zoned_wall_times_to_utc-IsReading :
    (z : Zone) (on : CalendarDay) (hour minute t : ℕ)
    → Memᴰ t (zoned_wall_times_to_utc z on hour minute)
    → IsReading z (z.date_utc on.year on.month on.day hour minute) t
unfolding zoned_wall_times_to_utc wall_clock reading_at
zoned_wall_times_to_utc-IsReading z on hour minute t m = go (unique (keep shows candidates)) refl m
  where
    wall : ℕ
    wall = z.date_utc on.year on.month on.day hour minute

    candidates : List ℕ
    candidates =
        with_offset_at z wall (wall - day_ms)
        ∷ with_offset_at z wall wall
        ∷ with_offset_at z wall (wall + day_ms)
        ∷ []

    shows : ℕ → Bool
    shows t = clock_at z t == wall

    skipped :
        unique (keep shows candidates) ≡ []
        → (x : ℕ) → has candidates x ≡ true
        → clock_at z x ≢ wall
    skipped e x listed shown =
        let kept : has (keep shows candidates) x ≡ true =
          keep-has shows candidates x listed (ground (arith, shown)) in
        let found : has [] x ≡ true =
          sym (ap (λ l. has l x) e) ∙ has-unique (keep shows candidates) x ∙ kept in
        absurd (has-nil x found)

    go :
        (l : List ℕ)
        → unique (keep shows candidates) ≡ l
        → Memᴰ t (or_latest candidates l)
        → IsReading z wall t
    go [] e m = inr (
      skipped e _ (has-Memᴰ _ candidates (Memᴰ.head refl)),
      skipped e _ (has-Memᴰ _ candidates (Memᴰ.tail (Memᴰ.head refl))),
      skipped e _ (has-Memᴰ _ candidates (Memᴰ.tail (Memᴰ.tail (Memᴰ.head refl)))),
      elim (Memᴰ.cases_cons m) [
        | inl same ↦ omega (arith, same)
        | inr none_left ↦ absurd (Memᴰ.not-nil none_left)
      ],
    )
    go (x ∷ l) e m =
        let listed : has (x ∷ l) t ≡ true = sym (has-sort (x ∷ l) t) ∙ has-Memᴰ t _ m in
        let kept : has (keep shows candidates) t ≡ true =
          sym (has-unique (keep shows candidates) t) ∙ ap (λ l. has l t) e ∙ listed in
        let shown = has-keep shows candidates t kept in inl (ground arith)

-- The instant is a reading of the clock time on the day of a listed offset, and no earlier offset has
-- one that is due.
abbrev pub IsFirstDue : Zone → List ℕ → ℕ → ℕ → ℕ → List ℕ → Type 0
IsFirstDue z days now minutes t [] = ⊥
IsFirstDue z days now minutes t (offset ∷ offsets) =
    (Memᴰ t (readings z now minutes offset) × IsReading z (wall_on z now minutes offset) t)
    ⊎ ((any (due_instant z days now) (readings z now minutes offset) ≡ false)
        × IsFirstDue z days now minutes t offsets)

module _ (z : Zone) (days : List ℕ) (now : ℕ) where
  readings-IsReading :
      (minutes offset t : ℕ)
      → Memᴰ t (readings z now minutes offset)
      → IsReading z (wall_on z now minutes offset) t
  unfolding add_calendar_days
  readings-IsReading minutes offset t m =
      let today = z.zoned_parts now in
      zoned_wall_times_to_utc-IsReading z
        (add_calendar_days z today.year today.month today.day offset) (minutes / 60) (minutes % 60)
        t m

  next_from_due :
      (minutes : ℕ) (offsets : List ℕ) (t : ℕ)
      → next_from z days minutes now offsets ≡ some t
      → (due_instant z days now t ≡ true) × IsFirstDue z days now minutes t offsets
  unfolding next_from
  next_from_due minutes [] t e = absurd (cc)
  next_from_due minutes (offset ∷ offsets) t e =
      elim (Option-cases (find (due_instant z days now) (readings z now minutes offset))) [
        | inl gone ↦
            let (due, first) = next_from_due minutes offsets t (ground arith) in
            (due, inr (find-none _ _ gone, first))
        | inr (u, found) ↦
            let same : u ≡ t = ground arith in
            let at = find-Memᴰ _ _ u found in
            rw (← same) (find_holds _ _ u found, inl (at, readings-IsReading minutes offset u at))
      ]

  pub next_clock_on_days_after :
      (hhmm : Text) (t : ℕ)
      → next_clock_on_days z days hhmm now ≡ some t
      → (now < t)
        × (has days (z.zoned_parts t).weekday ≡ true)
        × ((minutes : ℕ) × (minutes_from_hhmm hhmm ≡ some minutes)
            × IsFirstDue z days now minutes t next_eight_days)
  unfolding next_clock_on_days
  next_clock_on_days_after hhmm t e = elim (Option-cases (minutes_from_hhmm hhmm)) [
    | inl bad ↦ absurd (ground arith)
    | inr (minutes, read) ↦
        let (due, first) = next_from_due minutes next_eight_days t (ground arith) in
        (
          unfold due_instant in ground arith,
          unfold due_instant in ground arith,
          (minutes, read, first),
        )
  ]
