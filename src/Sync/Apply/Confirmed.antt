-- ===== src/Sync/Apply/Confirmed.antt =====
-- Planned policies that are confirmed, and calls that leave them so.
use familyfi.Base.{ℕ, ◌≡◌, false, some, List, Memᴰ, Text}
use familyfi.Payload.{FirewallPolicy}
use familyfi.Sync.Store.{PolicyRow}
use familyfi.Sync.Gateway.{Pass, Failure, Result, ok, err, M, and_then, caught}
use familyfi.Sync.Gateway.Names.{Names}
use familyfi.Sync.Apply.{Table, Desired, rows_of, has_error}

-- The row records the planned policy under its key as written, with the gateway's confirmation of
-- the same write and without an error, and a policy id that is `Given`.
abbrev pub IsConfirmed : (Text → Type 0) → Desired → PolicyRow → Type 0
IsConfirmed Given d r =
    (r.key ≡ d.key)
    × (r.desired_fingerprint ≡ d.fingerprint)
    × (r.observed_fingerprint ≡ some d.fingerprint)
    × (has_error r.last_error ≡ false)
    × ((policy : Text) × (r.unifi_policy_id ≡ some policy) × Given policy)

abbrev pub Confirmed : (Text → Type 0) → Table → Desired → Pass → Type 0
Confirmed Given t d p = (r : PolicyRow) × Memᴰ r (rows_of t p.store) × IsConfirmed Given d r

-- Confirmed, with some policy id.
pub Confirmed-any :
    (Given : Text → Type 0) (t : Table) (d : Desired) (p : Pass)
    → Confirmed Given t d p
    → Confirmed (λ _. Unit {0}) t d p
Confirmed-any Given t d p (r, m, (key, written, seen, no_error, (policy, named, given))) =
    (r, m, (key, written, seen, no_error, (policy, named, tt)))

-- A call that succeeds leaves the planned policy confirmed, and one that throws what was so before.
abbrev pub Tries :
    (Text → Type 0) → Table → Desired → (Pass → Type 0) → Result (Unit {0}) × Pass → Type 0
Tries Given t d I (ok done, q) = Confirmed Given t d q
Tries Given t d I (err f, q) = I q

abbrev pub Confirms : (Text → Type 0) → Table → Desired → Result (Unit {0}) × Pass → Type 0
Confirms Given t d (ok done, q) = Confirmed Given t d q
Confirms Given t d (err f, q) = Unit

module _ (Given : Text → Type 0) (t : Table) (d : Desired) (I : Pass → Type 0) where
  pub and_then-Tries :
      (J : Pass → Type 0) (r : Result FirewallPolicy × Pass) (k : FirewallPolicy → M (Unit {0}))
      → I r.1
      → Names Given r
      → ((q : Pass) → I q → J q)
      → ((a : FirewallPolicy) (q : Pass) → Given a.id → I q → Tries Given t d J (k a q))
      → Tries Given t d J (and_then r k)
  and_then-Tries J (ok a, q) k i n weaker h = h a q n i
  and_then-Tries J (err f, q) k i n weaker h = weaker q i

  pub caught-Tries :
      (J : Pass → Type 0) (r : Result (Unit {0}) × Pass) (handler : Failure → M (Unit {0}))
      → Tries Given t d I r
      → ((f : Failure) (q : Pass) → I q → Tries Given t d J (handler f q))
      → Tries Given t d J (caught r handler)
  caught-Tries J (ok a, q) handler done h = done
  caught-Tries J (err f, q) handler i h = h f q i

  pub Tries-Confirms : (r : Result (Unit {0}) × Pass) → Tries Given t d I r → Confirms Given t d r
  Tries-Confirms (ok a, q) h = h
  Tries-Confirms (err f, q) h = tt

-- A row under the key and the id is there.
abbrev pub Holds : Text → ℕ → List PolicyRow → ℕ → Type 0
Holds key id rows next = (r : PolicyRow) × Memᴰ r rows × (r.id ≡ id) × (r.key ≡ key)
