-- ===== src/Sync/Store/Confirmations.antt =====
-- An administrator's confirmation of a deletion, and what takes it back.
use familyfi.Base.{
  ℕ, ◌-◌, leb, ◌==◌, ◌≡◌, refl, arith, inl, inr, Bool, false, ◌&&◌, List, [], ◌∷◌, any, All, Text,
  map, Bool-cases,
}
use familyfi.Sync.Store.{
  delete_confirmation_ms, PolicyOperation, delete, confirmed, same_intent, same_status, Store,
  OwnershipScope, operation_names, delete_confirmed, expired, is_confirmed_delete,
  expire_delete_confirmations, update_operation,
}

-- The operation is not a confirmed deletion.
abbrev pub Unconfirmed : PolicyOperation → Type 0
Unconfirmed o = is_confirmed_delete o ≡ false

abbrev pub NoneConfirmed : Store → Type 0
NoneConfirmed st = All Unconfirmed st.operations

expired-Unconfirmed : (o : PolicyOperation) → Unconfirmed (expired o)
expired-Unconfirmed o = elim (Bool-cases (is_confirmed_delete o)) [
  | inl was ↦ ground (arith, was)
  | inr other ↦ rw other other
]

map-expired-Unconfirmed : (os : List PolicyOperation) → All Unconfirmed (map expired os)
map-expired-Unconfirmed [] = tt
map-expired-Unconfirmed (o ∷ os) = (expired-Unconfirmed o, map-expired-Unconfirmed os)

pub expire_delete_confirmations-NoneConfirmed :
    (st : Store) → NoneConfirmed (expire_delete_confirmations st)
unfolding expire_delete_confirmations
expire_delete_confirmations-NoneConfirmed st = map-expired-Unconfirmed st.operations

pub Unconfirmed-status :
    (o : PolicyOperation) → same_status o.status confirmed ≡ false → Unconfirmed o
Unconfirmed-status o h = elim (Bool-cases (same_intent o.intent delete)) [
  | inl is ↦ rw is h
  | inr other ↦ rw other refl
]

pub update_operation-Unconfirmed :
    (id : ℕ) (change : PolicyOperation → PolicyOperation) (os : List PolicyOperation)
    → ((o : PolicyOperation) → same_status (change o).status confirmed ≡ false)
    → All Unconfirmed os
    → All Unconfirmed (update_operation id change os)
unfolding update_operation
update_operation-Unconfirmed id change [] h a = tt
update_operation-Unconfirmed id change (o ∷ os) h (a, b) = elim (Bool-cases (o.id == id)) [
  | inl same ↦
      rw same (Unconfirmed-status (change o) (h o), update_operation-Unconfirmed id change os h b)
  | inr other ↦ rw other (a, update_operation-Unconfirmed id change os h b)
]

any-Unconfirmed :
    (f g : PolicyOperation → Bool) (os : List PolicyOperation)
    → All Unconfirmed os
    → any (λ o. f o && is_confirmed_delete o && g o) os ≡ false
unfolding any
any-Unconfirmed f g [] a = refl
any-Unconfirmed f g (o ∷ os) (a, b) = ground (arith, any-Unconfirmed f g os b)

-- Without a confirmation, no deletion is confirmed.
pub delete_confirmed-NoneConfirmed :
    (scope : OwnershipScope) (site policy : Text) (now : ℕ) (st : Store)
    → NoneConfirmed st
    → delete_confirmed scope site policy now st ≡ false
unfolding delete_confirmed
delete_confirmed-NoneConfirmed scope site policy now st a = ground (
  arith,
  any-Unconfirmed (operation_names scope.connection_identity site policy)
      (λ o. leb (now - delete_confirmation_ms) o.created_at) st.operations a,
)
