-- ===== src/Writes/Refused.antt =====
-- When a write is refused.
use familyfi.Base.{
  ℕ, ◌≡◌, ◌∙◌, refl, ap, arith, inl, inr, Bool, false, not, ◌&&◌, some, List, [], ◌∷◌, leb, Text,
  length, is_some, has, unique, unique_from, sort, insert_sorted, Option-cases,
}
use familyfi.Writes.{
  BlockInput, normalize_all, is_empty, source_macs, application_ids, dpi_app_block_policy,
}
use familyfi.Sync.Drift.{sorted_unique, normalize_mac}
use familyfi.Sync.Drift.Sorted.{sorted_unique-cons, sorted_unique-nil}

is_empty-sorted_unique : (l : List Text) → is_empty (sorted_unique l) ≡ is_empty l
is_empty-sorted_unique [] = ap is_empty sorted_unique-nil
is_empty-sorted_unique (t ∷ l) = go (sorted_unique (t ∷ l)) (sorted_unique-cons t l)
  where
    go : (s : List Text) → (s ≡ [] → ⊥) → is_empty s ≡ false
    go [] ne = absurd (ne refl)
    go (x ∷ s) ne = refl

is_empty-normalize_all :
    (macs read : List Text) → normalize_all macs ≡ some read → is_empty read ≡ is_empty macs
unfolding normalize_all
is_empty-normalize_all [] read e = ground arith
is_empty-normalize_all (m ∷ ms) read e = elim (Option-cases (normalize_mac m)) [
  | inl bad ↦ absurd (ground arith)
  | inr (mac, good) ↦ elim (Option-cases (normalize_all ms)) [
    | inl bad ↦ absurd (ground arith)
    | inr (rest, good') ↦ ground arith
  ]
]

is_some-source_macs :
    (macs : List Text)
    → is_some (source_macs macs) ≡ (is_some (normalize_all macs) && not (is_empty macs))
unfolding source_macs
is_some-source_macs macs = elim (Option-cases (normalize_all macs)) [
  | inl bad ↦ rw (bad, source_macs) refl
  | inr (read, e) ↦
      rw (e, source_macs)
        (ground (arith, is_empty-sorted_unique read, is_empty-normalize_all macs read e))
]

is_empty-insert_sorted : (n : ℕ) (l : List ℕ) → is_empty (insert_sorted n l) ≡ false
unfolding insert_sorted
is_empty-insert_sorted n [] = refl
is_empty-insert_sorted n (m ∷ l) = ground arith

is_empty-sort : (l : List ℕ) → is_empty (sort (unique l)) ≡ is_empty l
unfolding sort unique unique_from has
is_empty-sort [] = refl
is_empty-sort (n ∷ l) = is_empty-insert_sorted n _

is_some-application_ids :
    (ids : List ℕ)
    → is_some (application_ids ids) ≡ (not (is_empty ids) && leb (length (sort (unique ids))) 100)
unfolding application_ids
is_some-application_ids ids = ground (arith, is_empty-sort ids)

-- `dpiAppBlockPolicy` makes a write exactly when every MAC address can be read, there is one, and the
-- distinct application ids are at least one and at most a hundred; else it throws.
pub dpi_app_block_policy-is_some :
    (input : BlockInput) (macs : List Text) (ids : List ℕ)
    → is_some (dpi_app_block_policy input macs ids) ≡ (
        (is_some (normalize_all macs) && not (is_empty macs))
        && (not (is_empty ids) && leb (length (sort (unique ids))) 100))
unfolding dpi_app_block_policy
dpi_app_block_policy-is_some input macs ids =
    made ∙ both (is_some-source_macs macs) (is_some-application_ids ids)
  where
    both : {a b c d : Bool} → a ≡ b → c ≡ d → (a && c) ≡ (b && d)
    both p q = cc

    made :
        is_some (dpi_app_block_policy input macs ids)
        ≡ (is_some (source_macs macs) && is_some (application_ids ids))
    made = elim (Option-cases (source_macs macs)) [
      | inl no_macs ↦ rw (no_macs, dpi_app_block_policy) refl
      | inr (read, e) ↦ elim (Option-cases (application_ids ids)) [
        | inl no_ids ↦ rw (e, no_ids, dpi_app_block_policy) refl
        | inr (apps, f) ↦ rw (e, f, dpi_app_block_policy) refl
      ]
    ]
