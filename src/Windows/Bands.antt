-- ===== src/Windows/Bands.antt =====
-- The bands drawn on a day cover exactly the minutes at which the window is active.
use familyfi.Base.{
  ℕ, ◌<◌, ◌≡◌, ◌≢◌, inl, inr, refl, Bool, false, ◌&&◌, ◌||◌, some, List, [], ◌∷◌, arith, ltb, leb,
  Bool-cases, Option-cases,
}
use familyfi.Clock.{minutes_from_hhmm}
use familyfi.Windows.{
  RuleWindowSpec, Band, day, times, active_at, is_window_active, bands_at, window_day_bands,
}

pub covers : List Band → ℕ → Bool
covers [] m = false
covers (b ∷ bands) m = leb b.from m && ltb m b.to || covers bands m

pub times-ne : (w : RuleWindowSpec) (start end_ : ℕ) → times w ≡ some (start, end_) → start ≢ end_
unfolding times
times-ne w start end_ e = elim (Option-cases (minutes_from_hhmm w.start)) [
  | inl bad ↦ absurd (ground arith)
  | inr (s, p) ↦ elim (Option-cases (minutes_from_hhmm w.end_)) [
    | inl bad ↦ absurd (ground arith)
    | inr (t, q) ↦ ground arith
  ]
]

bands_at_cover :
    (days : List ℕ) (weekday minutes start end_ : ℕ)
    → minutes < day
    → start ≢ end_
    → covers (bands_at days weekday (some (start, end_))) minutes
      ≡ active_at days weekday minutes (some (start, end_))
unfolding bands_at active_at covers
bands_at_cover days weekday minutes start end_ h apart = ground arith

-- A minute of the day lies on a band of `windowDayBands` exactly when `isWindowActive` holds then,
-- for windows of every kind: always on, within a day, across midnight, and with unreadable times.
pub window_day_bands-covers :
    (w : RuleWindowSpec) (weekday minutes : ℕ)
    → minutes < day
    → covers (window_day_bands w weekday) minutes ≡ is_window_active w weekday minutes
unfolding window_day_bands is_window_active
window_day_bands-covers w weekday minutes h = elim (Bool-cases w.always) [
  | inl on ↦ rw on (unfold covers in ground arith)
  | inr off ↦ elim (Option-cases (times w)) [
    | inl bad ↦ simp (off, bad) (unfold covers bands_at active_at in refl)
    | inr ((start, end_), e) ↦
        simp (off, e) (bands_at_cover w.days weekday minutes start end_ h (times-ne w start end_ e))
  ]
]
