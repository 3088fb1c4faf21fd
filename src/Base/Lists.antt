-- ===== src/Base/Lists.antt =====
-- Array operations of the source over lists, measured by native numbers.
use Prim.Native.Nat.{ℕ, zero, suc, ◌+◌}
use mathlib.Core.Path.{◌≡◌, refl}
use mathlib.Core.Bool.{Bool, true, false, ◌&&◌, ◌||◌}
use mathlib.Core.Option.{Option, none, some}
use mathlib.Core.Logic.{inl, inr}
use mathlib.Core.List.{List, [], ◌∷◌, ◌++◌, Memᴰ}
use native.Mathlib.Omega.{arith}
use familyfi.Base.Tests.{if◌then◌else◌, ◌==◌, leb, Bool-cases}

module _ {ℓ} {A : Type ℓ} where
  abbrev pub length : List A → ℕ
  length [] = 0
  length (x ∷ xs) = suc (length xs)

  pub length-append : (xs ys : List A) → length (xs ++ ys) ≡ length xs + length ys
  length-append [] ys = omega arith
  length-append (x ∷ xs) ys = omega (arith, length-append xs ys)

  abbrev pub get_elem? : List A → ℕ → Option A
  get_elem? [] i = none
  get_elem? (x ∷ xs) zero = some x
  get_elem? (x ∷ xs) (suc i) = get_elem? xs i

  abbrev pub take : ℕ → List A → List A
  take zero xs = []
  take (suc n) [] = []
  take (suc n) (x ∷ xs) = x ∷ take n xs

  abbrev pub drop : ℕ → List A → List A
  drop zero xs = xs
  drop (suc n) [] = []
  drop (suc n) (x ∷ xs) = drop n xs

  -- `array.some(test)`, `array.every(test)`, `array.filter(test)` and `array.find(test)`.
  unfoldable pub any : (A → Bool) → List A → Bool
  any p [] = false
  any p (x ∷ xs) = p x || any p xs

  pub any-same : (p q : A → Bool) → ((x : A) → p x ≡ q x) → (l : List A) → any p l ≡ any q l
  unfolding any
  any-same p q h [] = refl
  any-same p q h (x ∷ l) = rw (h x, any-same p q h l) refl

  unfoldable pub every : (A → Bool) → List A → Bool
  every p [] = true
  every p (x ∷ xs) = p x && every p xs

  unfoldable pub keep : (A → Bool) → List A → List A
  keep p [] = []
  keep p (x ∷ xs) = if p x then x ∷ keep p xs else keep p xs

  unfoldable pub find : (A → Bool) → List A → Option A
  find p [] = none
  find p (x ∷ xs) = if p x then some x else find p xs

  pub find_holds : (p : A → Bool) (xs : List A) (a : A) → find p xs ≡ some a → p a ≡ true
  unfolding find
  find_holds p [] a e = cc
  find_holds p (x ∷ xs) a e = ground (arith, find_holds p xs a)

-- `numbers.includes(value)`.
unfoldable pub has : List ℕ → ℕ → Bool
has [] n = false
has (m ∷ l) n = m == n || has l n

-- `[...new Set(numbers)]`: the first occurrence of each, in order.
unfoldable pub unique_from : List ℕ → List ℕ → List ℕ
unfolding has
unique_from seen [] = []
unique_from seen (n ∷ l) =
    let fresh = n ∷ unique_from (n ∷ seen) l in
    let again = unique_from seen l in if has seen n then again else fresh

unfoldable pub unique : List ℕ → List ℕ
unfolding unique_from
unique l = unique_from [] l

-- `numbers.sort((a, b) => a - b)`.
unfoldable pub insert_sorted : ℕ → List ℕ → List ℕ
insert_sorted n [] = n ∷ []
insert_sorted n (m ∷ l) = if leb n m then n ∷ m ∷ l else m ∷ insert_sorted n l

unfoldable pub sort : List ℕ → List ℕ
unfolding insert_sorted
sort [] = []
sort (n ∷ l) = insert_sorted n (sort l)

-- Statements about all elements of a list.
abbrev pub All {ℓ κ} : {A : Type ℓ} → (A → Type κ) → List A → Type κ
All P [] = Unit
All P (x ∷ xs) = P x × All P xs

module _ {ℓ} {A : Type ℓ} (p : A → Bool) where
  pub find-Memᴰ : (xs : List A) (a : A) → find p xs ≡ some a → Memᴰ a xs
  unfolding find
  find-Memᴰ [] a e = absurd (cc)
  find-Memᴰ (x ∷ xs) a e = elim (Bool-cases (p x)) [
    | inl hit ↦ Memᴰ.head ((let e' = rw hit at e in cc))
    | inr miss ↦ Memᴰ.tail (find-Memᴰ xs a (rw miss at e))
  ]

  pub find-none : (xs : List A) → find p xs ≡ none → any p xs ≡ false
  unfolding find any
  find-none [] e = refl
  find-none (x ∷ xs) e = ground (arith, find-none xs)

pub All-append {ℓ κ} :
    {A : Type ℓ} (P : A → Type κ) (xs ys : List A) → All P xs → All P ys → All P (xs ++ ys)
All-append P [] ys h k = k
All-append P (x ∷ xs) ys (p, h) k = (p, All-append P xs ys h k)

pub All-map {ℓ κ μ} :
    {A : Type ℓ} (P : A → Type κ) (Q : A → Type μ) (xs : List A)
    → ((x : A) → Memᴰ x xs → P x → Q x)
    → All P xs
    → All Q xs
All-map P Q [] f a = tt
All-map P Q (x ∷ xs) f (a, b) =
    (f x (Memᴰ.head refl) a, All-map P Q xs (λ y m. f y (Memᴰ.tail m)) b)
