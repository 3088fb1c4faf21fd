-- ===== src/Base/Unique.antt =====
-- `[...new Set(numbers)]` keeps the numbers.
use familyfi.Base.Lists.{All, has, insert_sorted, sort, unique, unique_from}
use familyfi.Base.Tests.{◌==◌}
use Prim.Native.Nat.{ℕ}
use mathlib.Core.Path.{◌≡◌, refl}
use mathlib.Core.Bool.{◌||◌}
use mathlib.Core.List.{List, [], ◌∷◌}
use native.Mathlib.Omega.{arith}

has-unique_from :
    (seen l : List ℕ) (n : ℕ) → (has seen n || has (unique_from seen l) n) ≡ (has seen n || has l n)
unfolding has unique_from
has-unique_from seen [] n = refl
has-unique_from seen (m ∷ l) n =
    ground (arith, has-unique_from seen l n, has-unique_from (m ∷ seen) l n)

pub has-unique : (l : List ℕ) (n : ℕ) → has (unique l) n ≡ has l n
unfolding has unique
has-unique l n = has-unique_from [] l n

All-unique_from {ℓ} : (P : ℕ → Type ℓ) (seen l : List ℕ) → All P l → All P (unique_from seen l)
unfolding unique_from
All-unique_from P seen [] h = tt
All-unique_from P seen (m ∷ l) (p, h) =
    ground (arith, All-unique_from P seen l h, All-unique_from P (m ∷ seen) l h)

pub All-unique {ℓ} : (P : ℕ → Type ℓ) (l : List ℕ) → All P l → All P (unique l)
unfolding unique
All-unique P l h = All-unique_from P [] l h

has-insert_sorted : (m : ℕ) (l : List ℕ) (n : ℕ) → has (insert_sorted m l) n ≡ (m == n || has l n)
unfolding has insert_sorted
has-insert_sorted m [] n = refl
has-insert_sorted m (k ∷ l) n = ground (arith, has-insert_sorted m l n)

pub has-sort : (l : List ℕ) (n : ℕ) → has (sort l) n ≡ has l n
unfolding has sort
has-sort [] n = refl
has-sort (m ∷ l) n = ground (arith, has-insert_sorted m (sort l) n, has-sort l n)
