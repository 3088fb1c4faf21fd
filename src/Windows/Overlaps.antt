-- ===== src/Windows/Overlaps.antt =====
-- What `windowOverlaps` lists.
use mathlib.Core.Path.{subst₂}
use mathlib.Core.List.Memᴰ
use familyfi.Base.{
  ℕ, zero, suc, ◌+◌, ◌*◌, ◌/◌, ◌%◌, ◌<◌, ◌≡◌, ◌↔◌, inl, inr, refl, sym, ap, ◌∙◌, true, some, List,
  [], ◌∷◌, arith, get_elem?, Memᴰ, All, Bool-cases,
}
use familyfi.Windows.{
  RuleWindowSpec, Span, day, is_window_active, meets, week_spans, pairs_with, pairs_from, all_spans,
  window_overlaps,
}
use familyfi.Windows.Week.{within, HasDayTimes, week_spans-within}
use familyfi.Windows.Meets.{IsSpan, Shares, meets_iff_Shares, week_spans-IsSpan}

-- The entry at `k` meets `xs`.
record Hit (xs : List Span) (spans : List (List Span)) (k : ℕ) : Type 0 where
  ys : List Span
  listed : get_elem? spans k ≡ some ys
  meeting : meets xs ys ≡ true

Hit-cons :
    (xs zs : List Span) (spans : List (List Span)) (k : ℕ)
    → Hit xs spans k
    → Hit xs (zs ∷ spans) (suc k)
Hit-cons xs zs spans k h = record { ys = h.ys; listed = h.listed; meeting = h.meeting }

abbrev Shifted : ℕ → ℕ → ℕ → ℕ → List Span → List (List Span) → Type 0
Shifted a b i j xs spans = (i ≡ a) × (k : ℕ) × (j ≡ b + k) × Hit xs spans k

Shifted-cons :
    (a b i j : ℕ) (xs ys : List Span) (spans : List (List Span))
    → Shifted a (suc b) i j xs spans
    → Shifted a b i j xs (ys ∷ spans)
Shifted-cons a b i j xs ys spans (e, k, at, h) = (e, suc k, omega arith, Hit-cons xs ys spans k h)

pairs_with_sound :
    (a : ℕ) (xs : List Span) (b : ℕ) (spans : List (List Span)) (i j : ℕ)
    → Memᴰ (i, j) (pairs_with a xs b spans)
    → Shifted a b i j xs spans
unfolding pairs_with
pairs_with_sound a xs b [] i j m = absurd (Memᴰ.not-nil m)
pairs_with_sound a xs b (ys ∷ spans) i j m = elim (Bool-cases (meets xs ys)) [
  | inl hit ↦ elim (Memᴰ.cases_cons (rw (hit, pairs_with) at m)) [
    | inl e ↦ (
      ap (λ p. p.0) e,
      0,
      omega (arith, ap (λ (p : ℕ × ℕ). p.1) e),
      record { ys = ys; listed = refl; meeting = hit },
    )
    | inr m' ↦ Shifted-cons a b i j xs ys spans (pairs_with_sound a xs (suc b) spans i j m')
  ]
  | inr miss ↦
      Shifted-cons a b i j xs ys spans
        (pairs_with_sound a xs (suc b) spans i j (rw (miss, pairs_with) at m))
]

pairs_with-complete :
    (a : ℕ) (xs : List Span) (b : ℕ) (spans : List (List Span)) (k : ℕ)
    → Hit xs spans k
    → Memᴰ (a, b + k) (pairs_with a xs b spans)
unfolding pairs_with
pairs_with-complete a xs b [] k h = absurd (let e = h.listed in cc)
pairs_with-complete a xs b (ys ∷ spans) zero h =
    let same : ys ≡ h.ys = ground (arith, h.listed) in
    rw (rw (← same) at h.meeting) (Memᴰ.head (ground arith))
pairs_with-complete a xs b (ys ∷ spans) (suc k) h =
    let later =
      pairs_with-complete a xs (suc b) spans k
        (record { ys = h.ys; listed = h.listed; meeting = h.meeting }) in
    let moved : Memᴰ (a, b + suc k) (pairs_with a xs (suc b) spans) =
      Memᴰ.cast (ground arith) later in
    elim (Bool-cases (meets xs ys)) [
      | inl hit ↦ rw (hit, pairs_with) (Memᴰ.tail moved)
      | inr miss ↦ rw (miss, pairs_with) moved
    ]

-- Two entries, in this order, that meet.
record Pair (spans : List (List Span)) (m k : ℕ) : Type 0 where
  xs : List Span
  listed : get_elem? spans m ≡ some xs
  hit : Hit xs spans k
  order : m < k

pairs_from_sound :
    (a : ℕ) (spans : List (List Span)) (i j : ℕ)
    → Memᴰ (i, j) (pairs_from a spans)
    → (m : ℕ) × (k : ℕ) × (i ≡ a + m) × (j ≡ a + k) × Pair spans m k
unfolding pairs_from
pairs_from_sound a [] i j m = absurd (Memᴰ.not-nil m)
pairs_from_sound a (xs ∷ spans) i j m = elim (Memᴰ.append_cases (pairs_with a xs (suc a) spans) m) [
  | inl now ↦
      let (e, k, at, h) = pairs_with_sound a xs (suc a) spans i j now in
      (
        0,
        suc k,
        omega arith,
        omega arith,
        record { xs = xs; listed = refl; hit = Hit-cons xs xs spans k h; order = omega arith },
      )
  | inr later ↦
      let (n, k, e, at, p) = pairs_from_sound (suc a) spans i j later in
      (
        suc n,
        suc k,
        omega arith,
        omega arith,
        record {
          xs = p.xs;
          listed = p.listed;
          hit = Hit-cons p.xs xs spans k p.hit;
          order = omega (arith, p.order);
        },
      )
]

pairs_from-complete :
    (a : ℕ) (spans : List (List Span)) (m k : ℕ)
    → Pair spans m k
    → Memᴰ (a + m, a + k) (pairs_from a spans)
unfolding pairs_from
pairs_from-complete a [] m k p = absurd (let e = p.listed in cc)
pairs_from-complete a (xs ∷ spans) m zero p = absurd (omega (arith, p.order))
pairs_from-complete a (xs ∷ spans) zero (suc k) p =
    let same : xs ≡ p.xs = ground (arith, p.listed) in
    let h = p.hit in
    Memᴰ.append_left (pairs_from (suc a) spans) (
      Memᴰ.cast (ground arith) (
        pairs_with-complete a xs (suc a) spans k
          (record { ys = h.ys; listed = h.listed; meeting = rw same h.meeting })))
pairs_from-complete a (xs ∷ spans) (suc m) (suc k) p =
    let h = p.hit in
    Memᴰ.append_right (pairs_with a xs (suc a) spans) (
      Memᴰ.cast (ground arith) (
        pairs_from-complete (suc a) spans m k (record {
          xs = p.xs;
          listed = p.listed;
          hit = record { ys = h.ys; listed = h.listed; meeting = h.meeting };
          order = omega (arith, p.order);
        })))

all_spans-get :
    (ws : List RuleWindowSpec) (i : ℕ) (xs : List Span)
    → get_elem? (all_spans ws) i ≡ some xs
    → (w : RuleWindowSpec) × (get_elem? ws i ≡ some w) × (week_spans w ≡ xs)
unfolding all_spans
all_spans-get [] i xs e = absurd (cc)
all_spans-get (w ∷ ws) zero xs e = (w, refl, ground arith)
all_spans-get (w ∷ ws) (suc i) xs e = all_spans-get ws i xs e

get-all_spans :
    (ws : List RuleWindowSpec) (i : ℕ) (w : RuleWindowSpec)
    → get_elem? ws i ≡ some w
    → get_elem? (all_spans ws) i ≡ some (week_spans w)
unfolding all_spans
get-all_spans [] i w e = absurd (cc)
get-all_spans (v ∷ ws) zero w e = ground arith
get-all_spans (v ∷ ws) (suc i) w e = get-all_spans ws i w e

-- The days are weekdays and the times, where they can be read, are within a day.
pub record IsWeekly (w : RuleWindowSpec) : Type 0 where
  pub weekdays : All (λ d. d < 7) w.days
  pub within_day : HasDayTimes w

All-get {ℓ} :
    (P : RuleWindowSpec → Type ℓ) (ws : List RuleWindowSpec) (i : ℕ) (w : RuleWindowSpec)
    → All P ws
    → get_elem? ws i ≡ some w
    → P w
All-get P [] i w h e = absurd (cc)
All-get P (v ∷ ws) zero w (p, h) e = let same : v ≡ w = ground arith in rw (← same) p
All-get P (v ∷ ws) (suc i) w (p, h) e = All-get P ws i w h e

-- Two windows of the list, the first before the second, that are both active at some minute of
-- some weekday.
pub record BlockTogether (ws : List RuleWindowSpec) (i j : ℕ) : Type 0 where
  pub first : RuleWindowSpec
  pub second : RuleWindowSpec
  pub first_listed : get_elem? ws i ≡ some first
  pub second_listed : get_elem? ws j ≡ some second
  pub order : i < j
  pub weekday : ℕ
  pub minutes : ℕ
  pub is_weekday : weekday < 7
  pub is_minute : minutes < day
  pub first_active : is_window_active first weekday minutes ≡ true
  pub second_active : is_window_active second weekday minutes ≡ true

week_spans-active :
    (w : RuleWindowSpec) (t : ℕ)
    → IsWeekly w
    → t < 7 * day
    → within (week_spans w) t ≡ is_window_active w (t / day) (t % day)
week_spans-active w t v lt =
    let split : (t / day) * day + t % day ≡ t = omega arith in
    ap (within (week_spans w)) (sym split)
    ∙ week_spans-within w (t / day) (t % day) (omega arith) (omega arith) v.weekdays v.within_day

spans-IsSpan : (w : RuleWindowSpec) → IsWeekly w → All IsSpan (week_spans w)
spans-IsSpan w v = week_spans-IsSpan w v.weekdays v.within_day

Shares-BlockTogether :
    (ws : List RuleWindowSpec) (i j : ℕ) (v w : RuleWindowSpec)
    → IsWeekly v
    → IsWeekly w
    → get_elem? ws i ≡ some v
    → get_elem? ws j ≡ some w
    → i < j
    → Shares (week_spans v) (week_spans w)
    → BlockTogether ws i j
Shares-BlockTogether ws i j v w vv wv vl wl o (t, lt, a, b) = record {
  first = v;
  second = w;
  first_listed = vl;
  second_listed = wl;
  order = o;
  weekday = t / day;
  minutes = t % day;
  is_weekday = omega arith;
  is_minute = omega arith;
  first_active = sym (week_spans-active v t vv lt) ∙ a;
  second_active = sym (week_spans-active w t wv lt) ∙ b;
}

Pair-BlockTogether :
    (ws : List RuleWindowSpec) (i j : ℕ)
    → All IsWeekly ws
    → Pair (all_spans ws) i j
    → BlockTogether ws i j
Pair-BlockTogether ws i j valid p =
    let (v, vl, vs) = all_spans-get ws i p.xs p.listed in
    let (w, wl, zs) = all_spans-get ws j p.hit.ys p.hit.listed in
    let vv = All-get IsWeekly ws i v valid vl in
    let wv = All-get IsWeekly ws j w valid wl in
    Shares-BlockTogether ws i j v w vv wv vl wl p.order (
      (meets_iff_Shares (week_spans v) (week_spans w) (spans-IsSpan v vv) (spans-IsSpan w wv)).0
        (rw (vs, zs) p.hit.meeting))

BlockTogether-Pair :
    (ws : List RuleWindowSpec) (i j : ℕ)
    → All IsWeekly ws
    → BlockTogether ws i j
    → Pair (all_spans ws) i j
BlockTogether-Pair ws i j valid b =
    let vv = All-get IsWeekly ws i b.first valid b.first_listed in
    let wv = All-get IsWeekly ws j b.second valid b.second_listed in
    let t = b.weekday * day + b.minutes in
    let va =
      week_spans-within b.first b.weekday b.minutes b.is_weekday b.is_minute vv.weekdays
        vv.within_day in
    let wa =
      week_spans-within b.second b.weekday b.minutes b.is_weekday b.is_minute wv.weekdays
        wv.within_day in
    record {
      xs = week_spans b.first;
      listed = get-all_spans ws i b.first b.first_listed;
      hit = record {
        ys = week_spans b.second;
        listed = get-all_spans ws j b.second b.second_listed;
        meeting = (meets_iff_Shares _ _ (spans-IsSpan b.first vv) (spans-IsSpan b.second wv)).1 (
          t,
          omega (arith, b.is_weekday, b.is_minute),
          va ∙ b.first_active,
          wa ∙ b.second_active,
        );
      };
      order = b.order;
    }

-- `windowOverlaps` lists the indices of two windows exactly when the first stands before the
-- second and both are active at some minute of some weekday, if every window's days are weekdays
-- and its times are within a day.
pub window_overlaps_iff :
    (ws : List RuleWindowSpec) (i j : ℕ)
    → All IsWeekly ws
    → Memᴰ (i, j) (window_overlaps ws) ↔ BlockTogether ws i j
unfolding window_overlaps
window_overlaps_iff ws i j valid = (to, from)
  where
    to : Memᴰ (i, j) (pairs_from 0 (all_spans ws)) → BlockTogether ws i j
    to mem =
        let (m, k, ei, ej, p) = pairs_from_sound 0 (all_spans ws) i j mem in
        let im : m ≡ i = omega (arith, ei) in
        let jk : k ≡ j = omega (arith, ej) in
        subst₂ (BlockTogether ws) im jk (Pair-BlockTogether ws m k valid p)

    from : BlockTogether ws i j → Memᴰ (i, j) (pairs_from 0 (all_spans ws))
    from b =
        Memᴰ.cast (ground arith)
          (pairs_from-complete 0 (all_spans ws) i j (BlockTogether-Pair ws i j valid b))
