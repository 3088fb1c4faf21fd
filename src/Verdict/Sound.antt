-- ===== src/Verdict/Sound.antt =====
-- What each verdict says of the results.
use familyfi.Base.{
  ◌≤◌, ◌<◌, ◌≡◌, refl, arith, inl, inr, Bool, true, false, not, ◌&&◌, ◌||◌, List, [], ◌∷◌, Option,
  none, some, ◌==◌, length, keep, any, every, Bool-cases,
}
use familyfi.Verdict.{
  UpstreamVerdict, blocked, partial, open_, unknown, DomainProbe, is_blocked, is_unobserved,
  roll_up_verdict,
}

pub is_open : DomainProbe → Bool
is_open p = elim p.blocked [ none ↦ false | some b ↦ not b ]

-- What a verdict claims of the results.
abbrev pub Claims : UpstreamVerdict → List DomainProbe → Type 0
Claims blocked results = (every is_blocked results ≡ true) × (0 < length results)
Claims open_ results = (every is_open results ≡ true) × (0 < length results)
Claims partial results =
    (any is_unobserved results ≡ false)
    × (any is_blocked results ≡ true)
    × (any is_open results ≡ true)
Claims unknown results = (any is_unobserved results || length results == 0) ≡ true

probe_cases :
    (p : DomainProbe)
    → ((is_blocked p || is_open p || is_unobserved p) ≡ true)
      × ((is_blocked p && is_open p) ≡ false)
      × ((is_unobserved p && (is_blocked p || is_open p)) ≡ false)
unfolding is_blocked is_open is_unobserved
probe_cases p = go p.blocked
  where
    go :
        (o : Option Bool)
        → ((elim o [ none ↦ false | some b ↦ b ]
              || elim o [ none ↦ false | some b ↦ not b ]
              || elim o [ none ↦ true | some b ↦ false ])
            ≡ true)
          × ((elim o [ none ↦ false | some b ↦ b ] && elim o [ none ↦ false | some b ↦ not b ])
              ≡ false)
          × ((elim o [ none ↦ true | some b ↦ false ]
                && (elim o [ none ↦ false | some b ↦ b ]
                    || elim o [ none ↦ false | some b ↦ not b ]))
              ≡ false)
    go none = (refl, refl, refl)
    go (some true) = (refl, refl, refl)
    go (some false) = (refl, refl, refl)

length-keep_le : (rs : List DomainProbe) → length (keep is_blocked rs) ≤ length rs
unfolding keep
length-keep_le [] = omega arith
length-keep_le (r ∷ rs) = ground (arith, length-keep_le rs)

all_counted :
    (rs : List DomainProbe) → length (keep is_blocked rs) ≡ length rs → every is_blocked rs ≡ true
unfolding keep every
all_counted [] e = refl
all_counted (r ∷ rs) e = ground (arith, all_counted rs, length-keep_le rs)

none_counted :
    (rs : List DomainProbe)
    → length (keep is_blocked rs) ≡ 0
    → any is_unobserved rs ≡ false
    → every is_open rs ≡ true
unfolding keep every any
none_counted [] e u = refl
none_counted (r ∷ rs) e u = let (a, b, c) = probe_cases r in ground (arith, none_counted rs)

some_counted : (rs : List DomainProbe) → 0 < length (keep is_blocked rs) → any is_blocked rs ≡ true
unfolding keep any
some_counted [] h = absurd (ground arith)
some_counted (r ∷ rs) h = ground (arith, some_counted rs)

some_missed :
    (rs : List DomainProbe)
    → length (keep is_blocked rs) < length rs
    → any is_unobserved rs ≡ false
    → any is_open rs ≡ true
unfolding keep any
some_missed [] h u = absurd (ground arith)
some_missed (r ∷ rs) h u = let (a, b, c) = probe_cases r in ground (arith, some_missed rs)

-- The verdict that `rollUpVerdict` gives is true of the results: "blocked" only when there are
-- domains and every one was observed blocked, "open" only when there are and every one was observed
-- not blocked, "partial" only when all were observed and some are blocked and some not, "unknown"
-- only when one could not be observed or there are none. The count of blocked domains is at most
-- the count of all.
pub roll_up_verdict-Claims :
    (results : List DomainProbe)
    → Claims (roll_up_verdict results).verdict results
      × ((roll_up_verdict results).blocked_count ≤ (roll_up_verdict results).total_count)
unfolding roll_up_verdict
roll_up_verdict-Claims results = elim (Bool-cases (length results == 0)) [
  | inl zero ↦ rw zero (ground arith, ground arith)
  | inr some_results ↦ elim (Bool-cases (any is_unobserved results)) [
    | inl missed ↦ rw (some_results, missed) (ground arith, length-keep_le results)
    | inr seen ↦ elim (Bool-cases (length (keep is_blocked results) == length results)) [
      | inl all ↦
          rw (some_results, seen, all)
            ((all_counted results (ground arith), ground arith), length-keep_le results)
      | inr not_all ↦ elim (Bool-cases (length (keep is_blocked results) == 0)) [
        | inl none_blocked ↦
            rw (some_results, seen, not_all, none_blocked)
              ((none_counted results (ground arith) seen, ground arith), length-keep_le results)
        | inr some_blocked ↦
            rw (some_results, seen, not_all, some_blocked)
              (
                (
                  seen,
                  some_counted results (ground arith),
                  some_missed results (let l = length-keep_le results in ground arith) seen,
                ),
                length-keep_le results,
              )
      ]
    ]
  ]
]
