-- ===== src/Base/Codes.antt =====
-- Source strings as lists of UTF-16 code units, with the equality test `===` on them.
use Prim.Native.Nat.{ℕ, suc, ◌≤◌}
use Prim.Native.Char.{code}
use Prim.Native.String.{String}
use mathlib.Core.Path.{◌≡◌, refl, ap, ◌∙◌}
use mathlib.Core.Logic.{◌≢◌, ◌↔◌}
use mathlib.Core.Bool.{Bool, true, false, not, ◌&&◌, ◌||◌}
use mathlib.Core.Option.{Option, none, some}
use mathlib.Core.List.{List, [], ◌∷◌, ◌++◌}
use native.Mathlib.Omega.{arith}
use familyfi.Base.Tests.{◌==◌, leb, if◌then◌else◌}
use familyfi.Base.Lists.{length, every}

abbrev pub Text : Type 0
Text = List ℕ

-- The code units of a literal; every literal of the model is ASCII.
abbrev pub codes : String → Text
codes String.[] = []
codes (String.◌∷◌ c s) = code c ∷ codes s

unfoldable pub text_eq : Text → Text → Bool
text_eq [] [] = true
text_eq [] (_ ∷ _) = false
text_eq (_ ∷ _) [] = false
text_eq (a ∷ s) (b ∷ t) = a == b && text_eq s t

pub text_eq_sound : (s t : Text) → text_eq s t ≡ true → s ≡ t
unfolding text_eq
text_eq_sound [] [] h = refl
text_eq_sound [] (_ ∷ _) h = cc
text_eq_sound (_ ∷ _) [] h = cc
text_eq_sound (a ∷ s) (b ∷ t) h = ground (arith, text_eq_sound s t)

pub text_eq_refl : (s : Text) → text_eq s s ≡ true
unfolding text_eq
text_eq_refl [] = refl
text_eq_refl (a ∷ s) = ground (arith, text_eq_refl s)

pub text_eq_iff : (s t : Text) → (text_eq s t ≡ true) ↔ (s ≡ t)
text_eq_iff s t = (text_eq_sound s t, λ e. rw e (text_eq_refl t))

pub text_eq_ne : (s t : Text) → text_eq s t ≡ false → s ≢ t
text_eq_ne s t h e = cc (text_eq_refl t)

-- `list.includes(value)` on strings.
unfoldable pub includes : List Text → Text → Bool
includes [] t = false
includes (s ∷ l) t = text_eq s t || includes l t

-- A nullable string equal to a given one.
abbrev pub opt_text_eq : Option Text → Text → Bool
opt_text_eq none t = false
opt_text_eq (some s) t = text_eq s t

-- The white space and line ends that `trim` takes off.
unfoldable pub is_space : ℕ → Bool
is_space c =
    leb 9 c && leb c 13
    || c == 0x20
    || c == 0xa0
    || c == 0x1680
    || leb 0x2000 c && leb c 0x200a
    || leb 0x2028 c && leb c 0x2029
    || c == 0x202f
    || c == 0x205f
    || c == 0x3000
    || c == 0xfeff

unfoldable pub trim_start : Text → Text
unfolding is_space
trim_start [] = []
trim_start (c ∷ s) = if is_space c then trim_start s else c ∷ s

-- A white-space unit in front of nothing is trailing.
cons_unless_blank : ℕ → Text → Text
cons_unless_blank c [] = if is_space c then [] else c ∷ []
cons_unless_blank c (d ∷ s) = c ∷ d ∷ s

unfoldable pub trim_end : Text → Text
unfolding is_space cons_unless_blank
trim_end [] = []
trim_end (c ∷ s) = cons_unless_blank c (trim_end s)

unfoldable pub trim : Text → Text
unfolding trim_start trim_end
trim s = trim_end (trim_start s)

-- Text that is no white space stays when what follows it is trimmed.
pub trim_end-append :
    (p s : Text) → every (λ c. not (is_space c)) p ≡ true → trim_end (p ++ s) ≡ p ++ trim_end s
unfolding trim_end every cons_unless_blank
trim_end-append [] s h = refl
trim_end-append (c ∷ p) s h =
    ap (cons_unless_blank c) (trim_end-append p s (ground arith))
    ∙ kept (p ++ trim_end s) (ground arith)
  where
    kept : (t : Text) → is_space c ≡ false → cons_unless_blank c t ≡ c ∷ t
    kept [] e = rw e refl
    kept (d ∷ t) e = refl

pub length-trim_end : (s : Text) → length (trim_end s) ≤ length s
unfolding trim_end cons_unless_blank
length-trim_end [] = omega arith
length-trim_end (c ∷ s) = go (trim_end s) (length-trim_end s)
  where
    go : (t : Text) → length t ≤ length s → length (cons_unless_blank c t) ≤ suc (length s)
    go [] h = ground arith
    go (d ∷ t) h = omega (arith, h)

-- What stands before text that trimming leaves as it is stays.
pub trim_end-before :
    (s : Text) (c : ℕ) (t : Text) → trim_end (c ∷ t) ≡ c ∷ t → trim_end (s ++ c ∷ t) ≡ s ++ c ∷ t
unfolding trim_end cons_unless_blank
trim_end-before [] c t h = h
trim_end-before (a ∷ s) c t h = go s (trim_end-before s c t h)
  where
    go :
        (s : Text)
        → trim_end (s ++ c ∷ t) ≡ s ++ c ∷ t
        → cons_unless_blank a (trim_end (s ++ c ∷ t)) ≡ a ∷ (s ++ c ∷ t)
    go [] e = rw e refl
    go (b ∷ s) e = rw e refl
