-- ===== src/Windows/Internet/State.antt =====
-- When a group's internet is blocked, and until when.
use mathlib.Core.List.Memᴰ
use familyfi.Base.{
  ℕ, ◌≤◌, ◌≡◌, ◌↔◌, inl, inr, refl, Bool, true, false, Option, List, [], ◌∷◌, map, arith, leb, keep,
  longest, longest-IsOrder, sort_by, sort_by-First, sort_by-eq-nil, Memᴰ-sort_by, Memᴰ-keep, Memᴰ,
  All, Text, Bool-cases,
}
use familyfi.Clock.{Zone}
use familyfi.Windows.Internet.{
  InternetWindow, InternetGroup, InternetState, paused, blocked, allowed, online, no_rule,
  window_title, is_active_until, is_active_now, window_ends_at, active_endings, Ending, lasts,
  ending_lasts, by_windows, internet_state,
}

-- The window is in the list and active, and its end is the one reported; every other active window
-- ends no later.
pub record LastsLongest (z : Zone) (windows : List InternetWindow) (now : ℕ) (title : Text)
    (until : Option ℕ) : Type 0 where
  pub window : InternetWindow
  pub listed : Memᴰ window windows
  pub active : is_active_now z window.spec now ≡ true
  pub titled : title ≡ window_title window
  pub ends : until ≡ window_ends_at z window.spec now
  pub outlasts :
      All
        (λ v. is_active_now z v.spec now ≡ true → lasts (window_ends_at z v.spec now) ≤ lasts until)
        windows

module _ (z : Zone) (now : ℕ) where
  abbrev ending : InternetWindow → Ending
  ending w = (w, window_ends_at z w.spec now)

  abbrev active : InternetWindow → Bool
  active w = is_active_now z w.spec now

  Memᴰ-ending :
      (ws : List InternetWindow) (e : Ending)
      → Memᴰ e (map ending ws)
      → Memᴰ e.0 ws × (e.1 ≡ window_ends_at z e.0.spec now)
  Memᴰ-ending [] e m = absurd (Memᴰ.not-nil m)
  Memᴰ-ending (w ∷ ws) e m = elim (Memᴰ.cases_cons m) [
    | inl p ↦ rw p (Memᴰ.head refl, refl)
    | inr m' ↦ let (k, q) = Memᴰ-ending ws e m' in (Memᴰ.tail k, q)
  ]

  All-ending :
      (ws : List InternetWindow) (n : ℕ)
      → All (λ e. leb (ending_lasts e) n ≡ true) (map ending (keep active ws))
      → All (λ v. is_active_now z v.spec now ≡ true → lasts (window_ends_at z v.spec now) ≤ n) ws
  unfolding keep
  All-ending [] n h = tt
  All-ending (w ∷ ws) n h = elim (Bool-cases (active w)) [
    | inl on ↦ let (p, hs) = rw on at h in (λ _. ground arith, All-ending ws n hs)
    | inr off ↦ (λ on. absurd (cc), All-ending ws n (rw off at h))
  ]

  no_endings :
      (ws : List InternetWindow)
      → map ending (keep active ws) ≡ []
      → All (λ v. is_active_now z v.spec now ≡ false) ws
  unfolding keep
  no_endings [] e = tt
  no_endings (w ∷ ws) e = elim (Bool-cases (active w)) [
    | inl on ↦ absurd (let e' = rw on at e in cc)
    | inr off ↦ (off, no_endings ws (rw off at e))
  ]

  endings_longest :
      (ws : List InternetWindow) (w : InternetWindow) (end_ : Option ℕ) (rest : List Ending)
      → active_endings z ws now ≡ (w, end_) ∷ rest
      → LastsLongest z ws now (window_title w) end_
  unfolding active_endings
  endings_longest ws w end_ rest e =
      let mem : Memᴰ (w, end_) (sort_by (longest ending_lasts) (map ending (keep active ws))) =
        rw e (Memᴰ.head refl) in
      let (kept, ends) = Memᴰ-ending (keep active ws) (w, end_) (Memᴰ-sort_by _ _ mem) in
      let (listed, on) = Memᴰ-keep active ws kept in
      record {
        window = w;
        listed = listed;
        active = on;
        titled = refl;
        ends = ends;
        outlasts = All-ending ws (lasts end_) (
            sort_by-First (longest ending_lasts) (longest-IsOrder ending_lasts)
              (map ending (keep active ws)) (w, end_) rest e);
      }

  inactive_endings :
      (ws : List InternetWindow)
      → All (λ v. is_active_now z v.spec now ≡ false) ws
      → map ending (keep active ws) ≡ []
  unfolding keep
  inactive_endings [] h = refl
  inactive_endings (w ∷ ws) (off, h) = rw off (inactive_endings ws h)

  by_windows-blocked :
      (ws : List InternetWindow) (es : List Ending) (title : Text) (until : Option ℕ)
      → by_windows z ws now es ≡ blocked title until
      → (w : InternetWindow) × (rest : List Ending) × (es ≡ (w, until) ∷ rest)
        × (title ≡ window_title w)
  unfolding by_windows
  by_windows-blocked [] [] title until e = absurd (cc)
  by_windows-blocked (v ∷ ws) [] title until e = absurd (cc)
  by_windows-blocked ws ((w, end_) ∷ rest) title until e = (w, rest, ground arith, ground arith)

  -- "online" or "no rule": nothing keeps the group offline.
  abbrev pub is_open : InternetState → Bool
  is_open (paused until by) = false
  is_open (blocked title until) = false
  is_open (allowed title until by) = false
  is_open (online next) = true
  is_open no_rule = true

  by_windows-open :
      (ws : List InternetWindow) (es : List Ending)
      → (is_open (by_windows z ws now es) ≡ true) ↔ (es ≡ [])
  unfolding by_windows
  by_windows-open [] [] = (λ e. refl, λ e. refl)
  by_windows-open (v ∷ ws) [] = (λ e. refl, λ e. refl)
  by_windows-open [] ((w, end_) ∷ rest) = (λ e. absurd (cc), λ e. absurd (cc))
  by_windows-open (v ∷ ws) ((w, end_) ∷ rest) = (λ e. absurd (cc), λ e. absurd (cc))

  active_endings-nil :
      (ws : List InternetWindow)
      → (active_endings z ws now ≡ []) ↔ All (λ v. is_active_now z v.spec now ≡ false) ws
  unfolding active_endings sort_by
  active_endings-nil ws = (
    λ e. no_endings ws (sort_by-eq-nil (longest ending_lasts) _ e),
    λ h. rw (inactive_endings ws h),
  )

  module _ (g : InternetGroup) (ws : List InternetWindow) where
    -- When `internetState` answers "blocked", no pause and no allowance stands, and the title and
    -- the end it reports are those of a listed window that is active now and that no other active
    -- window outlasts.
    pub internet_state-blocked :
        (title : Text) (until : Option ℕ)
        → internet_state z g ws now ≡ blocked title until
        → (is_active_until g.suspension now ≡ false)
          × (is_active_until g.allowance now ≡ false)
          × LastsLongest z ws now title until
    unfolding internet_state
    internet_state-blocked title until e =
        let here : by_windows z ws now (active_endings z ws now) ≡ blocked title until =
          ground arith in
        let (w, rest, es, titled) =
          by_windows-blocked ws (active_endings z ws now) title until here in
        (ground arith, ground arith, rw titled (endings_longest ws w until rest es))

    -- `internetState` answers "online" or "no rule" exactly when no pause and no allowance stands
    -- and none of the windows is active now.
    pub internet_state_open_iff : (is_open (internet_state z g ws now) ≡ true) ↔ (
        (is_active_until g.suspension now ≡ false)
        × (is_active_until g.allowance now ≡ false)
        × All (λ v. is_active_now z v.spec now ≡ false) ws)
    unfolding internet_state
    internet_state_open_iff = (to, from)
      where
        to :
            is_open (internet_state z g ws now) ≡ true
            → (is_active_until g.suspension now ≡ false)
              × (is_active_until g.allowance now ≡ false)
              × All (λ v. is_active_now z v.spec now ≡ false) ws
        to e = (
          ground arith,
          ground arith,
          (active_endings-nil ws).0
              ((by_windows-open ws (active_endings z ws now)).0 (ground arith)),
        )

        from :
            (is_active_until g.suspension now ≡ false)
              × (is_active_until g.allowance now ≡ false)
              × All (λ v. is_active_now z v.spec now ≡ false) ws
            → is_open (internet_state z g ws now) ≡ true
        from (a, b, h) =
            rw (a, b)
              ((by_windows-open ws (active_endings z ws now)).1 ((active_endings-nil ws).1 h))
