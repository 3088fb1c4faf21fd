-- ===== src/Sync/Drift/Sorted.antt =====
-- `[...new Set(texts)].sort()` of some texts has some.
use familyfi.Base.{◌≡◌, refl, List, [], ◌∷◌, Text, includes, sort_by, sort_by-eq-nil}
use familyfi.Sync.Drift.{text_leb, unique_texts, sorted_unique}

pub sorted_unique-cons : (t : Text) (l : List Text) → sorted_unique (t ∷ l) ≡ [] → ⊥
unfolding sorted_unique unique_texts includes
sorted_unique-cons t l e = absurd (let k = sort_by-eq-nil text_leb _ e in cc)

pub sorted_unique-nil : sorted_unique [] ≡ []
unfolding sorted_unique unique_texts sort_by
sorted_unique-nil = refl
