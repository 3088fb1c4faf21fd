-- ===== src/Sync/Run/Rounds.antt =====
-- Rounds of a pass that add no error.
use familyfi.Base.{
  ℕ, suc, ◌<◌, ◌≡◌, refl, ◌∙◌, inl, inr, ◌&&◌, some, List, [], ◌∷◌, ◌++◌, Memᴰ, Text, text_eq,
  text_eq_iff, find_holds, find-Memᴰ, Bool-cases, arith,
}
use familyfi.Payload.{FirewallPolicyWrite}
use familyfi.Sync.Store.{PolicyRow, OwnershipScope}
use familyfi.Sync.Gateway.{Console, Pass, Result, ok, err, M, and_then, ◌>>=◌, pure, still_held}
use familyfi.Sync.Apply.{Table, rows_of, apply_or_record}
use familyfi.Sync.Apply.Confirmed.{Confirmed, Confirmed-any}
use familyfi.Sync.Apply.Confirms.{IsOf, apply_or_record-Confirmed}
use familyfi.Sync.Run.{PassInput, desired_of, existing_row, joined, apply_built, apply_planned}

abbrev pub AllDistinct : List Text → Type 0
AllDistinct [] = Unit
AllDistinct (key ∷ keys) = ¬ Memᴰ key keys × AllDistinct keys

-- The rows of a table have ids of their own, all issued before.
abbrev pub HaveIds : List PolicyRow → ℕ → Type 0
HaveIds rows next =
    (x : PolicyRow)
    → Memᴰ x rows
    → (x.id < next) × ((r : PolicyRow) → Memᴰ r rows → r.id ≡ x.id → r ≡ x)

pub existing_row_known :
    (identity key : Text) (rows : List PolicyRow) (x : PolicyRow)
    → existing_row identity key rows ≡ some x
    → Memᴰ x rows × (x.key ≡ key)
unfolding existing_row
existing_row_known identity key rows x e = (
  find-Memᴰ _ rows x e,
  (text_eq_iff x.key key).0 (
      let h =
        find_holds (λ r. text_eq r.key key && text_eq r.connection_identity identity) rows x e in
      ground arith),
)

module _ (c : Console) (scope : OwnershipScope) (site : Text) (s : PassInput) where
  -- Two parts without an error.
  pub joined_quiet :
      (first second : M (List Text)) (p q : Pass)
      → joined c scope site s first second p ≡ (ok [], q)
      → (m : Pass) × (first p ≡ (ok [], m)) × (second m ≡ (ok [], q))
  unfolding joined
  joined_quiet first second p q e = go (first p) refl e
    where
      after :
          (errors : List Text) (m : Pass) (r : Result (List Text) × Pass)
          → second m ≡ r
          → first p ≡ (ok errors, m)
          → and_then r (λ rest. pure (errors ++ rest)) ≡ (ok [], q)
          → (m : Pass) × (first p ≡ (ok [], m)) × (second m ≡ (ok [], q))
      after [] m (ok rest, n) e f h = (m, f, e ∙ h)
      after (x ∷ errors) m (ok rest, n) e f h = absurd (cc)
      after errors m (err g, n) e f h = absurd (cc)

      go :
          (r : Result (List Text) × Pass)
          → first p ≡ r
          → and_then r (λ errors. (second >>= λ rest. pure (errors ++ rest))) ≡ (ok [], q)
          → (m : Pass) × (first p ≡ (ok [], m)) × (second m ≡ (ok [], q))
      go (ok errors, m) f h = after errors m (second m) refl f h
      go (err g, m) f h = absurd (cc)

  -- The write was built, and its policy is confirmed, with some policy id.
  abbrev pub PlannedConfirmed : Table → Pass → Text × Result FirewallPolicyWrite → Type 0
  PlannedConfirmed t p (key, ok write) =
      Confirmed (λ _. Unit {0}) t (desired_of c scope site s key write) p
  PlannedConfirmed t p (key, err f) = ⊥

  pub still_held_ok :
      {B : Type 0} (k : Unit {0} → M B) (p q : Pass) (b : B)
      → and_then (still_held c scope site p) k ≡ (ok b, q)
      → k tt (record p { checks = suc p.checks }) ≡ (ok b, q)
  unfolding still_held
  still_held_ok k p q b e = elim (Bool-cases (c.held p.checks)) [
    | inl held ↦ rw held at e
    | inr lost ↦ absurd (let e' = rw lost at e in cc)
  ]

  apply_built-Confirmed :
      (t : Table) (xs : List PolicyRow) (key : Text) (write : Result FirewallPolicyWrite)
      (p q : Pass)
      → ((x : PolicyRow) → Memᴰ x xs → x.key ≡ key → Memᴰ x (rows_of t p.store))
      → apply_built c scope site s t xs key write p ≡ (ok [], q)
      → PlannedConfirmed t q (key, write)
  unfolding apply_built
  apply_built-Confirmed t xs key (err f) p q there e = absurd (cc)
  apply_built-Confirmed t xs key (ok write) p q there e =
      let d = desired_of c scope site s key write in
      let existing = existing_row scope.connection_identity key xs in
      let no_errors : (apply_or_record c scope site s.copies t d s.message existing p).1 ≡ [] =
        cc in
      let ended : (apply_or_record c scope site s.copies t d s.message existing p).0 ≡ q = cc in
      let done =
        apply_or_record-Confirmed c scope site s.copies t d s.message existing p
          (λ x found.
            let (m, k) = existing_row_known scope.connection_identity key xs x found in
            (there x m k, k))
          no_errors in
      let named =
        Confirmed-any (IsOf c p) t d
          (apply_or_record c scope site s.copies t d s.message existing p).0 done in
      rw ended at named

  -- One round without an error.
  pub apply_planned-Confirmed :
      (t : Table) (xs : List PolicyRow) (key : Text) (write : Result FirewallPolicyWrite)
      (p q : Pass)
      → ((x : PolicyRow) → Memᴰ x xs → x.key ≡ key → Memᴰ x (rows_of t p.store))
      → apply_planned c scope site s t xs (key, write) p ≡ (ok [], q)
      → PlannedConfirmed t q (key, write)
  unfolding apply_planned
  apply_planned-Confirmed t xs key write p q there e =
      apply_built-Confirmed t xs key write (record p { checks = suc p.checks }) q there
        (still_held_ok (λ _. apply_built c scope site s t xs key write) p q [] e)
