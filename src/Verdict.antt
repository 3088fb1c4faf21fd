-- ===== src/Verdict.antt =====
-- server/upstream/verdict.ts: the domains' results rolled up into one verdict. A result is blocked,
-- not blocked, or could not be observed.
pub mod Sound
mod Tests
use familyfi.Base.{
  ℕ, suc, Bool, true, false, List, [], ◌∷◌, Option, none, some, ◌==◌, if◌then◌else◌, length, keep,
  any,
}

pub data UpstreamVerdict : Type 0 where
  blocked partial open_ unknown : UpstreamVerdict

-- `DomainProbe.blocked`.
pub record DomainProbe : Type 0 where
  pub blocked : Option Bool

pub record VerdictRollup : Type 0 where
  pub verdict : UpstreamVerdict
  pub blocked_count : ℕ
  pub total_count : ℕ

pub is_blocked : DomainProbe → Bool
is_blocked p = elim p.blocked [ none ↦ false | some b ↦ b ]

pub is_unobserved : DomainProbe → Bool
is_unobserved p = elim p.blocked [ none ↦ true | some b ↦ false ]

abbrev rollup : UpstreamVerdict → ℕ → ℕ → VerdictRollup
rollup v b n = record { verdict = v; blocked_count = b; total_count = n }

-- `rollUpVerdict`.
pub roll_up_verdict : List DomainProbe → VerdictRollup
unfolding is_blocked is_unobserved
roll_up_verdict results =
    let total = length results in
    let count = length (keep is_blocked results) in
    if total == 0
    then rollup unknown 0 0
    else if any is_unobserved results
    then rollup unknown count total
    else if count == total
    then rollup blocked count total
    else if count == 0
    then rollup open_ count total
    else rollup partial count total
