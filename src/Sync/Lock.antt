-- ===== src/Sync/Lock.antt =====
-- The reconcile lock of server/reconciliation.ts: `acquireLock`, `renewLock`, `releaseLock` and
-- `holdLock`. The database row is the state; each statement sent to the database is one atomic
-- step, and the reads and clock readings that a statement uses may be older than the state it meets.
pub mod Exclusion
use familyfi.Base.{
  ℕ, ◌+◌, Bool, true, false, ◌&&◌, ◌||◌, not, Option, none, some, ltb, leb, if◌then◌else◌, Text,
  text_eq,
}

-- The row `global` of `ReconciliationLock`.
pub record LockRow : Type 0 where
  pub owner : Text
  pub expires_at : ℕ

abbrev locked_by : Text → ℕ → LockRow
locked_by owner expires = record { owner = owner; expires_at = expires }

-- `create`: a second row with this id breaks the unique key and throws.
abbrev create_row : Text → ℕ → Option LockRow → Option LockRow × Bool
create_row owner expires none = (some (locked_by owner expires), true)
create_row owner expires (some row) = (some row, false)

-- `updateMany` where the owner is this one or the row has expired at `now`.
abbrev take_row : Text → ℕ → ℕ → Option LockRow → Option LockRow × Bool
take_row owner now expires none = (none, false)
take_row owner now expires (some row) =
    if text_eq row.owner owner || leb row.expires_at now
    then (some (locked_by owner expires), true)
    else (some row, false)

-- `existing.owner !== owner && existing.expiresAt > now`.
abbrev held_by_other : Text → ℕ → LockRow → Bool
held_by_other owner now row = not (text_eq row.owner owner) && ltb now row.expires_at

-- What `acquireLock` does once `findUnique` answered `seen`: the row it meets may differ by then.
unfoldable pub acquire_lock : ℕ → Text → ℕ → Option LockRow → Option LockRow → Option LockRow × Bool
acquire_lock lock_ms owner now none row = create_row owner (now + lock_ms) row
acquire_lock lock_ms owner now (some seen) row =
    if held_by_other owner now seen then (row, false) else take_row owner now (now + lock_ms) row

-- `updateMany` where the owner is this one and the row has not expired at `now`.
pub renew_lock : ℕ → Text → ℕ → Option LockRow → Option LockRow × Bool
renew_lock lock_ms owner now none = (none, false)
renew_lock lock_ms owner now (some row) =
    if text_eq row.owner owner && ltb now row.expires_at
    then (some (locked_by owner (now + lock_ms)), true)
    else (some row, false)

-- `expiresAt: new Date(0)` on this owner's row.
pub release_lock : Text → Option LockRow → Option LockRow
release_lock owner none = none
release_lock owner (some row) =
    if text_eq row.owner owner then some (locked_by row.owner 0) else some row

-- What the process of a pass knows: until when it holds the lock, or nothing, and the flag `lost`
-- of `holdLock`, which a renewal that updated no row sets.
pub record Hold : Type 0 where
  pub until : Option ℕ
  pub lost : Bool

abbrev pub no_hold : Hold
no_hold = record { until = none; lost = false }

-- The hold after `acquireLock` answered, with `holdLock` called when it won.
unfoldable pub after_acquire : ℕ → ℕ → Bool → Hold → Hold
after_acquire lock_ms now true h = record { until = some (now + lock_ms); lost = false }
after_acquire lock_ms now false h = h

-- The `then` of a renewal.
pub after_renew : ℕ → ℕ → Bool → Hold → Hold
after_renew lock_ms now true h = record h { until = some (now + lock_ms) }
after_renew lock_ms now false h = record { until = none; lost = true }

-- `stillHeld`: whether the next gateway write may go ahead.
pub still_held : Hold → Bool
still_held h = not h.lost
