-- ===== src/Base/Includes.antt =====
-- `array.includes` and membership.
use mathlib.Core.Path.{◌≡◌, refl}
use mathlib.Core.Logic.{inl, inr}
use mathlib.Core.Bool.{true, ◌||◌}
use mathlib.Core.List.{List, [], ◌∷◌, ◌++◌, Memᴰ}
use mathlib.Core.List.Memᴰ
use native.Mathlib.Omega.{arith}
use familyfi.Base.Codes.{Text, text_eq_refl, includes}

pub includes-Memᴰ : (l : List Text) (t : Text) → Memᴰ t l → includes l t ≡ true
unfolding includes
includes-Memᴰ [] t m = absurd (Memᴰ.not-nil m)
includes-Memᴰ (s ∷ l) t m = elim (Memᴰ.cases_cons m) [
  | inl e ↦ rw (← e) (ground (arith, text_eq_refl t))
  | inr later ↦ ground (arith, includes-Memᴰ l t later)
]

pub includes-append :
    (l m : List Text) (t : Text) → includes (l ++ m) t ≡ (includes l t || includes m t)
unfolding includes
includes-append [] m t = refl
includes-append (x ∷ l) m t = ground (arith, includes-append l m t)
