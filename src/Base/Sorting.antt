-- ===== src/Base/Sorting.antt =====
-- `array.sort` by a number, the largest or the smallest first; equal keys keep their order.
use Prim.Native.Nat.{ℕ}
use mathlib.Core.Path.{◌≡◌, refl}
use mathlib.Core.Logic.{inl, inr}
use mathlib.Core.Bool.{Bool, true, false}
use mathlib.Core.List.{List, [], ◌∷◌, Memᴰ}
use mathlib.Core.List.Memᴰ
use native.Mathlib.Omega.{arith}
use familyfi.Base.Tests.{if◌then◌else◌, leb, Bool-cases}
use familyfi.Base.Lists.{All, keep}

module _ {ℓ} {A : Type ℓ} (before : A → A → Bool) where
  unfoldable pub insert_by : A → List A → List A
  insert_by a [] = a ∷ []
  insert_by a (b ∷ l) = if before a b then a ∷ b ∷ l else b ∷ insert_by a l

  unfoldable pub sort_by : List A → List A
  unfolding insert_by
  sort_by [] = []
  sort_by (a ∷ l) = insert_by a (sort_by l)

  insert_by-ne-nil : (a : A) (l : List A) → insert_by a l ≡ [] → ⊥
  unfolding insert_by
  insert_by-ne-nil a [] e = cc
  insert_by-ne-nil a (b ∷ l) e = ground arith

  pub sort_by-eq-nil : (l : List A) → sort_by l ≡ [] → l ≡ []
  unfolding sort_by
  sort_by-eq-nil [] e = refl
  sort_by-eq-nil (a ∷ l) e = absurd (insert_by-ne-nil a (sort_by l) e)

  pub Memᴰ-insert_by : (a : A) (l : List A) {c : A} → Memᴰ c (insert_by a l) → Memᴰ c (a ∷ l)
  unfolding insert_by
  Memᴰ-insert_by a [] m = m
  Memᴰ-insert_by a (b ∷ l) m = elim (Bool-cases (before a b)) [
    | inl lo ↦ rw (lo, insert_by) at m
    | inr hi ↦ elim (Memᴰ.cases_cons (rw (hi, insert_by) at m)) [
      | inl e ↦ Memᴰ.tail (Memᴰ.head e)
      | inr m' ↦ elim (Memᴰ.cases_cons (Memᴰ-insert_by a l m')) [
        | inl e ↦ Memᴰ.head e
        | inr m'' ↦ Memᴰ.tail (Memᴰ.tail m'')
      ]
    ]
  ]

  pub Memᴰ-sort_by : (l : List A) {c : A} → Memᴰ c (sort_by l) → Memᴰ c l
  unfolding sort_by
  Memᴰ-sort_by [] m = m
  Memᴰ-sort_by (a ∷ l) m = elim (Memᴰ.cases_cons (Memᴰ-insert_by a (sort_by l) m)) [
    | inl e ↦ Memᴰ.head e
    | inr m' ↦ Memᴰ.tail (Memᴰ-sort_by l m')
  ]

-- A test that orders the elements by some number.
pub record IsOrder {ℓ} {A : Type ℓ} (before : A → A → Bool) : Type ℓ where
  pub before_refl : (a : A) → before a a ≡ true
  pub total : (a b : A) → before a b ≡ false → before b a ≡ true
  pub before_trans : (a b c : A) → before a b ≡ true → before b c ≡ true → before a c ≡ true

module _ {ℓ} {A : Type ℓ} (before : A → A → Bool) (o : IsOrder before) where
  abbrev pub First : A → List A → Type 0
  First h l = All (λ b. before h b ≡ true) l

  insert_first :
      (a : A) (l : List A) (h : A) (t : List A)
      → insert_by before a l ≡ h ∷ t
      → ((g : A) (s : List A) → l ≡ g ∷ s → before h g ≡ true) × (before h a ≡ true)
  unfolding insert_by
  insert_first a [] h t e = (λ g s p. absurd (cc), ground (arith, o.before_refl a))
  insert_first a (b ∷ l) h t e =
      (λ g s p. ground (arith, o.before_refl b), ground (arith, o.before_refl a, o.total a b))

  First-trans : (a b : A) (l : List A) → before b a ≡ true → First a l → First b l
  First-trans a b [] h k = tt
  First-trans a b (c ∷ l) h (p, k) = (o.before_trans b a c h p, First-trans a b l h k)

  -- The head of the sorted list comes before every element.
  pub sort_by-First : (l : List A) (h : A) (t : List A) → sort_by before l ≡ h ∷ t → First h l
  unfolding sort_by
  sort_by-First [] h t e = tt
  sort_by-First (a ∷ l) h t e =
      go (sort_by before l) refl (sort_by-First l) (insert_first a (sort_by before l) h t e)
    where
      go :
          (s : List A)
          → sort_by before l ≡ s
          → ((g : A) (s : List A) → sort_by before l ≡ g ∷ s → First g l)
          → ((g : A) (s : List A) → sort_by before l ≡ g ∷ s → before h g ≡ true)
            × (before h a ≡ true)
          → First h (a ∷ l)
      go [] p ih (heads, ha) = (ha, rw (sort_by-eq-nil before l p) tt)
      go (g ∷ s) p ih (heads, ha) = (ha, First-trans g h l (heads g s p) (ih g s p))

-- `(a, b) => key(b) - key(a)` and `(a, b) => key(a) - key(b)`.
abbrev pub longest {ℓ} : {A : Type ℓ} → (A → ℕ) → A → A → Bool
longest key a b = leb (key b) (key a)

abbrev pub soonest {ℓ} : {A : Type ℓ} → (A → ℕ) → A → A → Bool
soonest key a b = leb (key a) (key b)

pub longest-IsOrder {ℓ} : {A : Type ℓ} (key : A → ℕ) → IsOrder (longest key)
longest-IsOrder key = record {
  before_refl = λ a. ground arith;
  total = λ a b h. ground arith;
  before_trans = λ a b c h k. ground arith;
}

pub soonest-IsOrder {ℓ} : {A : Type ℓ} (key : A → ℕ) → IsOrder (soonest key)
soonest-IsOrder key = record {
  before_refl = λ a. ground arith;
  total = λ a b h. ground arith;
  before_trans = λ a b c h k. ground arith;
}

-- What `array.filter` keeps.
pub Memᴰ-keep {ℓ} :
    {A : Type ℓ} (p : A → Bool) (l : List A) {a : A} → Memᴰ a (keep p l) → Memᴰ a l × (p a ≡ true)
unfolding keep
Memᴰ-keep p [] m = absurd (Memᴰ.not-nil m)
Memᴰ-keep p (x ∷ l) m = elim (Bool-cases (p x)) [
  | inl hit ↦ elim (Memᴰ.cases_cons (rw (hit, keep) at m)) [
    | inl e ↦ (Memᴰ.head e, rw e hit)
    | inr m' ↦ let (k, h) = Memᴰ-keep p l m' in (Memᴰ.tail k, h)
  ]
  | inr miss ↦ let (k, h) = Memᴰ-keep p l (rw (miss, keep) at m) in (Memᴰ.tail k, h)
]

pub keep-Memᴰ {ℓ} :
    {A : Type ℓ} (p : A → Bool) (l : List A) {a : A} → Memᴰ a l → p a ≡ true → Memᴰ a (keep p l)
unfolding keep
keep-Memᴰ p [] m h = absurd (Memᴰ.not-nil m)
keep-Memᴰ p (x ∷ l) m h = elim (Memᴰ.cases_cons m) [
  | inl e ↦ rw (← e, h) (Memᴰ.head refl)
  | inr m' ↦ elim (Bool-cases (p x)) [
    | inl hit ↦ rw (hit, keep) (Memᴰ.tail (keep-Memᴰ p l m' h))
    | inr miss ↦ rw (miss, keep) (keep-Memᴰ p l m' h)
  ]
]

module _ {ℓ} {A : Type ℓ} (before : A → A → Bool) where
  insert_by-Memᴰ : (a : A) (l : List A) {c : A} → Memᴰ c (a ∷ l) → Memᴰ c (insert_by before a l)
  unfolding insert_by
  insert_by-Memᴰ a [] m = m
  insert_by-Memᴰ a (b ∷ l) m = elim (Bool-cases (before a b)) [
    | inl lo ↦ rw (lo, insert_by) m
    | inr hi ↦
        rw (hi, insert_by)
          (elim (Memᴰ.cases_cons m) [
            | inl e ↦ Memᴰ.tail (insert_by-Memᴰ a l (Memᴰ.head e))
            | inr m' ↦ elim (Memᴰ.cases_cons m') [
              | inl e ↦ Memᴰ.head e
              | inr m'' ↦ Memᴰ.tail (insert_by-Memᴰ a l (Memᴰ.tail m''))
            ]
          ])
  ]

  pub sort_by-Memᴰ : (l : List A) {c : A} → Memᴰ c l → Memᴰ c (sort_by before l)
  unfolding sort_by
  sort_by-Memᴰ [] m = m
  sort_by-Memᴰ (a ∷ l) m = elim (Memᴰ.cases_cons m) [
    | inl e ↦ insert_by-Memᴰ a (sort_by before l) (Memᴰ.head e)
    | inr m' ↦ insert_by-Memᴰ a (sort_by before l) (Memᴰ.tail (sort_by-Memᴰ l m'))
  ]
