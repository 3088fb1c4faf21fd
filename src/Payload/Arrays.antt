-- ===== src/Payload/Arrays.antt =====
-- Lists of strings, such as MAC addresses, are carried in any order.
use mathlib.Core.HLevel.{⊥_prop}
use mathlib.Core.List.{Perm, Mem, perm-cons, mem-cons_self}
use mathlib.Core.List.Memᴰ
use mathlib.Core.List.Perm
use mathlib.Core.Logic.{∥∥₁_elim}
use familyfi.Base.{
  suc, ◌≡◌, ◌↔◌, refl, sym, inl, inr, true, false, Option, none, some, List, [], ◌∷◌, arith, Memᴰ,
  ◌∙◌, Text, text_eq, text_eq_sound, text_eq_refl, Bool-cases, Option-cases,
}
use familyfi.Payload.{
  str, arr, Items, no_items, item, count, remove_first, carries_write, takes_every,
}

abbrev pub texts : List Text → Items
texts [] = no_items
texts (s ∷ l) = item (str s) (texts l)

-- The list without the first text equal to `s`.
drop_text : Text → List Text → Option (List Text)
drop_text s [] = none
drop_text s (t ∷ l) = elim (text_eq t s) [
  | true ↦ some l
  | false ↦ elim (drop_text s l) [ none ↦ none | some left ↦ some (t ∷ left) ]
]

abbrev map_texts : Option (List Text) → Option Items
map_texts none = none
map_texts (some l) = some (texts l)

remove_first-texts :
    (s : Text) (l : List Text)
    → remove_first (λ c. carries_write c (str s)) (texts l) ≡ map_texts (drop_text s l)
unfolding remove_first carries_write drop_text
remove_first-texts s [] = refl
remove_first-texts s (t ∷ l) = ground (arith, remove_first-texts s l)

drop_text-perm : (s : Text) (l left : List Text) → drop_text s l ≡ some left → Perm l (s ∷ left)
unfolding drop_text
drop_text-perm s [] left e = absurd (cc)
drop_text-perm s (t ∷ l) left e = elim (Bool-cases (text_eq t s)) [
  | inl same ↦
      let same_left : l ≡ left = ground arith in
      rw (text_eq_sound t s same, same_left) (Perm.refl _)
  | inr apart ↦ elim (Option-cases (drop_text s l)) [
    | inl gone ↦ absurd (ground arith)
    | inr (r, found) ↦
        let back : left ≡ t ∷ r = ground arith in
        rw back (Perm.trans (Perm.cons t (drop_text-perm s l r found)) (Perm.swap s t r))
  ]
]

drop_text-Memᴰ : (s : Text) (l : List Text) → drop_text s l ≡ none → ¬ Memᴰ s l
unfolding drop_text
drop_text-Memᴰ s [] e m = Memᴰ.not-nil m
drop_text-Memᴰ s (t ∷ l) e m = elim (Memᴰ.cases_cons m) [
  | inl p ↦ cc (text_eq_refl t)
  | inr m' ↦ drop_text-Memᴰ s l (ground arith) m'
]

drop_text-ne-none : (s : Text) (l : List Text) → Mem s l → drop_text s l ≡ none → ⊥
drop_text-ne-none s l m e = ∥∥₁_elim m ⊥_prop (drop_text-Memᴰ s l e)

-- One round of the loop.
takes_every-texts :
    (s : Text) (l left es : List Text)
    → drop_text s l ≡ some left
    → (takes_every (texts l) (texts (s ∷ es)) ≡ takes_every (texts left) (texts es))
unfolding carries_write
takes_every-texts s l left es e = ground (arith, remove_first-texts s l)

takes_every-stops :
    (s : Text) (l es : List Text)
    → drop_text s l ≡ none
    → (takes_every (texts l) (texts (s ∷ es)) ≡ false)
unfolding carries_write
takes_every-stops s l es e = ground (arith, remove_first-texts s l)

count-drop_text :
    (s : Text) (l left : List Text)
    → drop_text s l ≡ some left
    → count (texts l) ≡ suc (count (texts left))
unfolding count drop_text
count-drop_text s [] left e = absurd (cc)
count-drop_text s (t ∷ l) left e = elim (Bool-cases (text_eq t s)) [
  | inl same ↦ ground arith
  | inr apart ↦ elim (Option-cases (drop_text s l)) [
    | inl gone ↦ absurd (ground arith)
    | inr (r, found) ↦ ground (arith, count-drop_text s l r found)
  ]
]

count-zero : (l : List Text) → count (texts l) ≡ 0 → l ≡ []
unfolding count
count-zero [] e = refl
count-zero (t ∷ l) e = absurd (omega arith)

takes_every-sound :
    (l es : List Text)
    → count (texts l) ≡ count (texts es)
    → takes_every (texts l) (texts es) ≡ true
    → Perm l es
unfolding count
takes_every-sound l [] c e = rw (count-zero l c) (Perm.refl [])
takes_every-sound l (s ∷ es) c e = elim (Option-cases (drop_text s l)) [
  | inl gone ↦ absurd (let f = takes_every-stops s l es gone in cc)
  | inr (left, found) ↦ Perm.trans (drop_text-perm s l left found) (
      Perm.cons s (
        takes_every-sound left es (omega (arith, count-drop_text s l left found))
          (sym (takes_every-texts s l left es found) ∙ e)))
]

takes_every_complete :
    (l es : List Text)
    → Perm l es
    → (count (texts l) ≡ count (texts es)) × (takes_every (texts l) (texts es) ≡ true)
unfolding count
takes_every_complete l [] p = rw (Perm.eq-nil p) (refl, unfold carries_write in refl)
takes_every_complete l (s ∷ es) p = elim (Option-cases (drop_text s l)) [
  | inl gone ↦ absurd (drop_text-ne-none s l (Perm.subset (Perm.symm p) s mem-cons_self) gone)
  | inr (left, found) ↦
      let rest = (perm-cons s).0 (Perm.trans (Perm.symm (drop_text-perm s l left found)) p) in
      let (c, e) = takes_every_complete left es rest in
      (omega (arith, count-drop_text s l left found), takes_every-texts s l left es found ∙ e)
]

-- The gateway's list of strings carries the one a write sent exactly when it is that list in some
-- order, each string as often.
pub carries_write-texts_iff :
    (actual expected : List Text)
    → (carries_write (arr (texts actual)) (arr (texts expected)) ≡ true) ↔ Perm actual expected
carries_write-texts_iff actual expected = (
  λ e.
      takes_every-sound actual expected (unfold carries_write in ground arith)
        (unfold carries_write in ground arith),
  λ p. let (c, e) = takes_every_complete actual expected p in unfold carries_write in ground arith,
)
