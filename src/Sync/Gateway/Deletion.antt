-- ===== src/Sync/Gateway/Deletion.antt =====
-- What `deleteFromGateway` leaves of the policies the gateway is known to hold, and that it sends a
-- deletion before it takes one of them off.
use familyfi.Base.{
  ℕ, ◌≤◌, ◌≡◌, ◌⊎◌, refl, inl, inr, arith, true, List, [], ◌∷◌, Text, includes, length, Bool-cases,
}
use familyfi.Payload.{FirewallPolicy}
use familyfi.Sync.Store.{Store, OwnershipScope}
use familyfi.Sync.Gateway.{
  Console, Pass, Request, deletes, Answer, accepted, refused, unanswered, Result, ok, err, and_then,
  caught, pure, modify, settle, send, may_delete, time_now, delete_policy, delete_policy_only,
  tolerate_not_found, delete_or_gone, delete_from_gateway, drop_gateway, is_not_found,
}

-- The log goes on from `base`: nothing was taken off it.
pub ExtendsLog : List (Request × Store × ℕ) → List (Request × Store × ℕ) → Type 0
ExtendsLog base [] = base ≡ []
ExtendsLog base (r ∷ log) = (base ≡ r ∷ log) ⊎ ExtendsLog base log

pub ExtendsLog-same : (base log : List (Request × Store × ℕ)) → base ≡ log → ExtendsLog base log
unfolding ExtendsLog
ExtendsLog-same base [] e = e
ExtendsLog-same base (r ∷ log) e = inl e

pub ExtendsLog-trans :
    (a b c : List (Request × Store × ℕ)) → ExtendsLog a b → ExtendsLog b c → ExtendsLog a c
unfolding ExtendsLog
ExtendsLog-trans a b [] h e = rw e at h
ExtendsLog-trans a b (r ∷ c) h (inl e) = rw e at h
ExtendsLog-trans a b (r ∷ c) h (inr k) = inr (ExtendsLog-trans a b c h k)

length-ExtendsLog :
    (base log : List (Request × Store × ℕ)) → ExtendsLog base log → length base ≤ length log
unfolding ExtendsLog
length-ExtendsLog base [] e = rw e (omega arith)
length-ExtendsLog base (r ∷ log) (inl e) = rw e (omega arith)
length-ExtendsLog base (r ∷ log) (inr h) =
    let shorter = length-ExtendsLog base log h in omega (arith, shorter)

-- The gateway deleted the policy, or did not have it.
abbrev pub IsDone : Answer → Type 0
IsDone (accepted policy) = Unit
IsDone (refused status) = status ≡ 404
IsDone unanswered = ⊥

module _ (c : Console) (policy : Text) where
  -- A deletion of the policy is in the log, after its first `base` requests, and the console answered
  -- it so.
  pub IsDeletedIn : ℕ → List (Request × Store × ℕ) → Type 0
  IsDeletedIn base [] = ⊥
  IsDeletedIn base ((r, st, now) ∷ log) =
      ((r ≡ deletes policy) × (base ≤ length log) × IsDone (c.answer (length log) (deletes policy)))
      ⊎ IsDeletedIn base log

  pub IsDeletedIn-later :
      (base : ℕ) (l m : List (Request × Store × ℕ))
      → ExtendsLog l m
      → IsDeletedIn base l
      → IsDeletedIn base m
  unfolding ExtendsLog IsDeletedIn
  IsDeletedIn-later base l [] e h = rw e at h
  IsDeletedIn-later base l ((r, st, now) ∷ m) (inl e) h = rw e at h
  IsDeletedIn-later base l ((r, st, now) ∷ m) (inr k) h = inr (IsDeletedIn-later base l m k h)

  IsDeletedIn-base :
      (a b : ℕ) (l : List (Request × Store × ℕ)) → a ≤ b → IsDeletedIn b l → IsDeletedIn a l
  unfolding IsDeletedIn
  IsDeletedIn-base a b [] le h = absurd h
  IsDeletedIn-base a b ((r, st, now) ∷ l) le (inl (e, k, d)) = inl (e, omega (arith, le, k), d)
  IsDeletedIn-base a b ((r, st, now) ∷ l) le (inr h) = inr (IsDeletedIn-base a b l le h)

  -- A deletion of the policy was sent between the two states and done.
  abbrev pub IsDeletedBetween : Pass → Pass → Type 0
  IsDeletedBetween p q = IsDeletedIn (length p.requests) q.requests

  pub IsDeletedBetween-earlier :
      (p q r : Pass)
      → ExtendsLog p.requests q.requests
      → IsDeletedBetween q r
      → IsDeletedBetween p r
  IsDeletedBetween-earlier p q r h d =
      IsDeletedIn-base (length p.requests) (length q.requests) r.requests
        (length-ExtendsLog p.requests q.requests h) d

-- What a call that sends requests leaves: the gateway as known, and the log continued.
abbrev Sent : Pass → Pass → Type 0
Sent p q = (q.on_gateway ≡ p.on_gateway) × ExtendsLog p.requests q.requests

-- A call that succeeds has taken the policy off, and deleted it before if it was known to be there;
-- one that fails leaves what is known as it was.
abbrev pub Deletion : Console → Text → Pass → Result (Unit {0}) × Pass → Type 0
Deletion c policy p (ok done, q) =
    (q.on_gateway ≡ (drop_gateway policy p).on_gateway)
    × ExtendsLog p.requests q.requests
    × (includes p.on_gateway policy ≡ true → IsDeletedBetween c policy p q)
Deletion c policy p (err f, q) = Sent p q

module _ (c : Console) (scope : OwnershipScope) (site : Text) (policy : Text) where
  -- What sending the deletion comes to.
  abbrev Tried : {A : Type 0} → Pass → Result A × Pass → Type 0
  Tried p (ok a, q) = Sent p q × IsDeletedBetween c policy p q
  Tried p (err f, q) = Sent p q × (is_not_found f ≡ true → IsDeletedBetween c policy p q)

  delete_policy-Tried : (p : Pass) → Tried p (delete_policy c scope site policy p)
  unfolding delete_policy send ExtendsLog IsDeletedIn
  delete_policy-Tried p =
      elim (Bool-cases (may_delete c scope site policy (time_now c scope site p) p.store)) [
        | inl may ↦ rw may (go (c.answer (length p.requests) (deletes policy)) refl)
        | inr not_may ↦ rw not_may ((refl, ExtendsLog-same _ _ refl), λ e. absurd (cc))
      ]
    where
      sent : Pass
      sent = record p { requests = (deletes policy, p.store, time_now c scope site p) ∷ p.requests }

      extended : ExtendsLog p.requests sent.requests
      extended = inr (ExtendsLog-same p.requests p.requests refl)

      go :
          (a : Answer) → c.answer (length p.requests) (deletes policy) ≡ a → Tried p (settle a sent)
      go (accepted made) e = ((refl, extended), inl (refl, omega arith, rw e tt))
      go (refused status) e =
          ((refl, extended), λ missing. inl (refl, omega arith, rw e (ground (arith, missing))))
      go unanswered e = ((refl, extended), λ missing. absurd (cc))

  delete_or_gone-Tried : (p : Pass) → Tried p (delete_or_gone c scope site policy p)
  unfolding delete_or_gone delete_policy_only tolerate_not_found
  delete_or_gone-Tried p = go (delete_policy c scope site policy p) (delete_policy-Tried p)
    where
      go :
          (r : Result FirewallPolicy × Pass)
          → Tried p r
          → Tried p (caught (and_then r (λ _. pure tt)) (tolerate_not_found c scope site))
      go (ok a, q) h = h
      go (err f, q) (s, h) = elim (Bool-cases (is_not_found f)) [
        | inl gone ↦ rw gone (s, h gone)
        | inr other ↦ rw other (s, h)
      ]

  pub delete_from_gateway-Deletion :
      (p : Pass) → Deletion c policy p (delete_from_gateway c scope site policy p)
  unfolding delete_from_gateway
  delete_from_gateway-Deletion p = elim (Bool-cases (includes p.on_gateway policy)) [
    | inl on ↦ rw on (go (delete_or_gone c scope site policy p) (delete_or_gone-Tried p))
    | inr off ↦
        rw off (refl, ExtendsLog-same p.requests p.requests refl, λ on. absurd (let e = off in cc))
  ]
    where
      go :
          (r : Result (Unit {0}) × Pass)
          → Tried p r
          → Deletion c policy p (and_then r (λ _. modify (drop_gateway policy)))
      go (ok a, q) ((e, log), done) = (rw e refl, log, λ on. done)
      go (err f, q) (s, h) = s
