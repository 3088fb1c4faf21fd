-- ===== src/Sync/Lock/Exclusion.antt =====
-- Passes that compete for the reconcile lock, in every interleaving of their database statements:
-- at most one of them holds a lock that has not run out.
use familyfi.Base.{
  ℕ, ◌+◌, ◌<◌, ◌≤◌, ◌≡◌, refl, Bool, true, false, Option, none, some, arith, if◌then◌else◌, Text,
  text_eq, text_eq_iff, ◌⊎◌, ◌↔◌, inl, inr, Bool-cases, ◌∙◌,
}
use familyfi.Sync.Lock.{
  LockRow, Hold, no_hold, acquire_lock, renew_lock, release_lock, after_acquire, after_renew,
}

-- The database row, the time, and what each owner's process knows.
pub record World : Type 0 where
  pub clock : ℕ
  pub row : Option LockRow
  pub holds : Text → Hold

abbrev pub update : (Text → Hold) → Text → Hold → Text → Hold
update holds owner h other = if text_eq other owner then h else holds other

-- One database statement of one owner's process, or time passing. `now` is the reading of the clock
-- the process took some time before; `seen` is whatever its earlier read answered.
pub data Step (lock_ms : ℕ) (w : World) : World → Type 0 where
  wait : (later : ℕ) → w.clock ≤ later → Step lock_ms w (record w { clock = later })
  acquires :
      (owner : Text) (now : ℕ) (seen : Option LockRow)
      → now ≤ w.clock
      → Step lock_ms w (record w {
        row = (acquire_lock lock_ms owner now seen w.row).0;
        holds = update w.holds owner (
            after_acquire lock_ms now
              (acquire_lock lock_ms owner now seen w.row).1
              (w.holds owner));
      })
  renews :
      (owner : Text) (now : ℕ)
      → now ≤ w.clock
      → Step lock_ms w (record w {
        row = (renew_lock lock_ms owner now w.row).0;
        holds =
            update w.holds owner
              (after_renew lock_ms now (renew_lock lock_ms owner now w.row).1 (w.holds owner));
      })
  releases :
      (owner : Text)
      → Step lock_ms w
          (record w { row = release_lock owner w.row; holds = update w.holds owner no_hold })

pub data Reach (lock_ms : ℕ) (w : World) : World → Type 0 where
  here : Reach lock_ms w w
  next : {u v : World} → Reach lock_ms w u → Step lock_ms u v → Reach lock_ms w v

-- The lock of this owner has not run out.
abbrev pub Live : World → Text → ℕ → Type 0
Live w owner until = ((w.holds owner).until ≡ some until) × (w.clock < until)

-- An unexpired hold is the row's own content.
abbrev pub IsBacked : World → Type 0
IsBacked w =
    (owner : Text) (until : ℕ)
    → Live w owner until
    → w.row ≡ some (record { owner = owner; expires_at = until })

abbrev pub row_of : Text → ℕ → Option LockRow
row_of owner until = some (record { owner = owner; expires_at = until })

-- A statement of `owner` that backs its own new hold and leaves every other live row alone.
module _ (w : World) (owner : Text) (row : Option LockRow) (h : Hold) where
  update-IsBacked :
      ((until : ℕ) → h.until ≡ some until → w.clock < until → row ≡ row_of owner until)
      → ((other : Text) (until : ℕ)
          → text_eq other owner ≡ false
          → w.row ≡ row_of other until
          → w.clock < until
          → row ≡ w.row)
      → IsBacked w
      → IsBacked (record w { row = row; holds = update w.holds owner h })
  update-IsBacked own others b other until (e, l) = elim (Bool-cases (text_eq other owner)) [
    | inl same ↦ rw ((text_eq_iff other owner).0 same) (own until (rw same at e) l)
    | inr apart ↦
        let back = b other until (rw apart at e, l) in others other until apart back l ∙ back
  ]

-- When another owner's row may be taken: there is none, or it has expired.
abbrev pub MayTake : Text → ℕ → Option LockRow → Type 0
MayTake owner now none = Unit
MayTake owner now (some r) = (text_eq r.owner owner ≡ true) ⊎ (r.expires_at ≤ now)

module _ (lock_ms : ℕ) (owner : Text) (now : ℕ) where
  acquire_lock_won :
      (seen row row' : Option LockRow)
      → acquire_lock lock_ms owner now seen row ≡ (row', true)
      → (row' ≡ row_of owner (now + lock_ms)) × MayTake owner now row
  unfolding acquire_lock
  acquire_lock_won none none row' e = (ground arith, tt)
  acquire_lock_won none (some r) row' e = absurd (ground arith)
  acquire_lock_won (some s) none row' e = absurd (ground arith)
  acquire_lock_won (some s) (some r) row' e = (ground arith, ground arith)

  acquire_lock_refused :
      (seen row row' : Option LockRow)
      → acquire_lock lock_ms owner now seen row ≡ (row', false)
      → row' ≡ row
  unfolding acquire_lock
  acquire_lock_refused none none row' e = ground arith
  acquire_lock_refused none (some r) row' e = ground arith
  acquire_lock_refused (some s) none row' e = ground arith
  acquire_lock_refused (some s) (some r) row' e = ground arith

  renew_lock_won :
      (row row' : Option LockRow)
      → renew_lock lock_ms owner now row ≡ (row', true)
      → (row' ≡ row_of owner (now + lock_ms)) × MayTake owner now row
  unfolding renew_lock
  renew_lock_won none row' e = absurd (ground arith)
  renew_lock_won (some r) row' e = (ground arith, ground arith)

  renew_lock_refused :
      (row row' : Option LockRow) → renew_lock lock_ms owner now row ≡ (row', false) → row' ≡ row
  unfolding renew_lock
  renew_lock_refused none row' e = ground arith
  renew_lock_refused (some r) row' e = ground arith

-- A row that may be taken is no live row of anyone else.
MayTake-live :
    (owner other : Text) (now until clock : ℕ)
    → now ≤ clock
    → text_eq other owner ≡ false
    → MayTake owner now (row_of other until)
    → clock < until
    → ⊥
MayTake-live owner other now until clock t apart may l = ground arith

module _ (lock_ms : ℕ) (w : World) (owner : Text) (now : ℕ) (t : now ≤ w.clock) where
  -- A statement that wins makes the row the owner's own; nobody else's was live.
  won-IsBacked :
      (row : Option LockRow) (h : Hold)
      → row ≡ row_of owner (now + lock_ms)
      → h.until ≡ some (now + lock_ms)
      → MayTake owner now w.row
      → IsBacked w
      → IsBacked (record w { row = row; holds = update w.holds owner h })
  won-IsBacked row h e k may =
      update-IsBacked w owner row h (λ until p l. ground arith)
        λ other until apart back l.
          absurd (MayTake-live owner other now until w.clock t apart (rw back at may) l)

  -- A statement that changes no row leaves its owner at most the hold it had.
  refused-IsBacked :
      (row : Option LockRow) (h : Hold)
      → row ≡ w.row
      → ((until : ℕ) → h.until ≡ some until → (w.holds owner).until ≡ some until)
      → IsBacked w
      → IsBacked (record w { row = row; holds = update w.holds owner h })
  refused-IsBacked row h e less b =
      update-IsBacked w owner row h (λ until p l. e ∙ b owner until (less until p, l))
        (λ other until apart back l. e) b

  acquires-IsBacked :
      (seen : Option LockRow) (r : Option LockRow × Bool)
      → acquire_lock lock_ms owner now seen w.row ≡ r
      → IsBacked w
      → IsBacked (record w {
        row = r.0;
        holds = update w.holds owner (after_acquire lock_ms now r.1 (w.holds owner));
      })
  unfolding after_acquire
  acquires-IsBacked seen (row, true) e =
      let (taken, may) = acquire_lock_won lock_ms owner now seen w.row row e in
      won-IsBacked row _ taken refl may
  acquires-IsBacked seen (row, false) e =
      refused-IsBacked row _ (acquire_lock_refused lock_ms owner now seen w.row row e)
        (λ until p. p)

  renews-IsBacked :
      (r : Option LockRow × Bool)
      → renew_lock lock_ms owner now w.row ≡ r
      → IsBacked w
      → IsBacked (record w {
        row = r.0;
        holds = update w.holds owner (after_renew lock_ms now r.1 (w.holds owner));
      })
  unfolding after_renew
  renews-IsBacked (row, true) e =
      let (taken, may) = renew_lock_won lock_ms owner now w.row row e in
      won-IsBacked row _ taken refl may
  renews-IsBacked (row, false) e =
      refused-IsBacked row _ (renew_lock_refused lock_ms owner now w.row row e) (λ until p. cc)

release_other :
    (owner other : Text) (until : ℕ)
    → text_eq other owner ≡ false
    → release_lock owner (row_of other until) ≡ row_of other until
unfolding release_lock
release_other owner other until apart = ground arith

-- Every statement keeps unexpired holds backed by the row.
Step-IsBacked : {lock_ms : ℕ} {w v : World} → Step lock_ms w v → IsBacked w → IsBacked v
Step-IsBacked (wait later after) b = λ owner until (e, l). b owner until (e, omega arith)
Step-IsBacked {lock_ms} {w} (acquires owner now seen t) b =
    acquires-IsBacked lock_ms w owner now t seen _ refl b
Step-IsBacked {lock_ms} {w} (renews owner now t) b = renews-IsBacked lock_ms w owner now t _ refl b
Step-IsBacked {w} (releases owner) b =
    update-IsBacked w owner _ no_hold (λ until p l. cc)
      (λ other until apart back l. rw back (release_other owner other until apart)) b

Reach-IsBacked : {lock_ms : ℕ} {w v : World} → Reach lock_ms w v → IsBacked w → IsBacked v
Reach-IsBacked here b = b
Reach-IsBacked (next r s) b = Step-IsBacked s (Reach-IsBacked r b)

-- Before any pass has run: whatever row an earlier process left, nobody holds the lock.
abbrev pub start : ℕ → Option LockRow → World
start clock row = record { clock = clock; row = row; holds = λ _. no_hold }

-- Whatever row was left in the database, after any interleaving of acquisitions (with a stale
-- read and a stale clock), renewals, releases and time, two owners whose hold has not run out are
-- one owner, and the row in the database is that hold.
pub lock_exclusive :
    (lock_ms clock : ℕ) (left : Option LockRow) (w : World) (a b : Text) (until until' : ℕ)
    → Reach lock_ms (start clock left) w
    → Live w a until
    → Live w b until'
    → (a ≡ b) × (w.row ≡ some (record { owner = a; expires_at = until }))
lock_exclusive lock_ms clock left w a b until until' r la lb =
    let backed = Reach-IsBacked r (λ owner t (e, l). cc) in
    let ra = backed a until la in let rb = backed b until' lb in (cc, ra)

-- With a read that is not stale, `acquireLock` wins exactly when there is no row, the row is the
-- owner's own, or it has expired; then the row runs from this moment, and otherwise it stays.
pub acquire_lock_iff :
    (lock_ms : ℕ) (owner : Text) (now : ℕ) (row : Option LockRow)
    → ((acquire_lock lock_ms owner now row row).1 ≡ true ↔ MayTake owner now row)
      × ((acquire_lock lock_ms owner now row row).0 ≡ (
          if (acquire_lock lock_ms owner now row row).1 then row_of owner (now + lock_ms) else row))
unfolding acquire_lock
acquire_lock_iff lock_ms owner now none = ((λ _. tt, λ _. refl), refl)
acquire_lock_iff lock_ms owner now (some r) = (ground arith, ground arith)
