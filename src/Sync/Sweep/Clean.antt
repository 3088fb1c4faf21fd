-- ===== src/Sync/Sweep/Clean.antt =====
-- What the gateway is known to hold after a sweep.
use familyfi.Base.{
  suc, ◌≡◌, refl, inl, inr, true, false, not, ◌&&◌, Option, none, some, List, [], ◌∷◌, arith, Text,
  text_eq, text_eq_iff, includes, keep, length, Bool-cases, All,
}
use familyfi.Sync.Store.{PolicyOperation, OwnershipScope}
use familyfi.Sync.Gateway.{
  Console, Pass, Failure, Result, ok, err, and_then, caught, ◌>>=◌, still_held, delete_from_gateway,
  set_operation, drop_gateway,
}
use familyfi.Sync.Gateway.Deletion.{
  ExtendsLog, ExtendsLog-same, ExtendsLog-trans, IsDeletedIn-later, IsDeletedBetween,
  IsDeletedBetween-earlier, Deletion, delete_from_gateway-Deletion,
}
use familyfi.Sync.Sweep.{
  mark_removed, remove_policy, no_error, report_error, remove_quietly, remove_or_report, sweep_one,
  sweep_next, sweep_policy, sweep, add_errors, remove_orphaned_policies, recorded_ids, creations_in,
}

includes-keep :
    (l : List Text) (id policy : Text)
    → includes (keep (λ other. not (text_eq other id)) l) policy
      ≡ (includes l policy && not (text_eq id policy))
unfolding includes keep
includes-keep [] id policy = refl
includes-keep (t ∷ l) id policy = elim (Bool-cases (text_eq t id)) [
  | inl same ↦
      let e : t ≡ id = (text_eq_iff t id).0 same in
      rw same (rw e (ground (arith, includes-keep l id policy)))
  | inr apart ↦ elim (Bool-cases (text_eq id policy)) [
    | inl hit ↦
        let e : id ≡ policy = (text_eq_iff id policy).0 hit in
        rw apart (ground (arith, includes-keep l id policy, rw e at apart))
    | inr miss ↦ rw apart (ground (arith, includes-keep l id policy))
  ]
]

-- From `p` to `q` the gateway gained no policy and lost none that is recorded; of each that it lost a
-- deletion was sent to the console, which answered that it is gone.
pub record LosesOrphansOnly (c : Console) (recorded : List Text) (p q : Pass) : Type 0 where
  pub gained_none :
      (policy : Text) → includes q.on_gateway policy ≡ true → includes p.on_gateway policy ≡ true
  pub kept :
      (policy : Text)
      → includes recorded policy ≡ true
      → includes p.on_gateway policy ≡ true
      → includes q.on_gateway policy ≡ true
  pub deleted :
      (policy : Text)
      → includes p.on_gateway policy ≡ true
      → includes q.on_gateway policy ≡ false
      → IsDeletedBetween c policy p q
  pub log : ExtendsLog p.requests q.requests

loses_same :
    (c : Console) (recorded : List Text) (p q : Pass)
    → q.on_gateway ≡ p.on_gateway
    → ExtendsLog p.requests q.requests
    → LosesOrphansOnly c recorded p q
loses_same c recorded p q e log = record {
  gained_none = λ policy h. rw e at h;
  kept = λ policy r h. rw e h;
  deleted = λ policy on off. absurd (let off' = rw e at off in cc);
  log = log;
}

loses_trans :
    (c : Console) (recorded : List Text) (p q r : Pass)
    → LosesOrphansOnly c recorded p q
    → LosesOrphansOnly c recorded q r
    → LosesOrphansOnly c recorded p r
loses_trans c recorded p q r a b = record {
  gained_none = λ policy h. a.gained_none policy (b.gained_none policy h);
  kept = λ policy rec h. b.kept policy rec (a.kept policy rec h);
  deleted = λ policy on off. elim (Bool-cases (includes q.on_gateway policy)) [
    | inl still ↦ IsDeletedBetween-earlier c policy p q r a.log (b.deleted policy still off)
    | inr gone ↦
        IsDeletedIn-later c policy (length p.requests) q.requests r.requests b.log
          (a.deleted policy on gone)
  ];
  log = ExtendsLog-trans p.requests q.requests r.requests a.log b.log;
}

-- The policy of this creation, unless it is recorded, is not on the gateway.
abbrev pub IsGone : List Text → Pass → PolicyOperation → Type 0
IsGone recorded q creation =
    (policy : Text)
    → creation.unifi_policy_id ≡ some policy
    → includes recorded policy ≡ false
    → includes q.on_gateway policy ≡ false

IsGone-later :
    (c : Console) (recorded : List Text) (p q : Pass) (creation : PolicyOperation)
    → LosesOrphansOnly c recorded p q
    → IsGone recorded p creation
    → IsGone recorded q creation
IsGone-later c recorded p q creation l g policy e r =
    let gained = l.gained_none policy in let gone = g policy e r in ground arith

-- What a round of the loop, or the whole of it, leaves.
abbrev Swept :
    Console → List Text → List PolicyOperation → Pass → Result (List Failure) × Pass → Type 0
Swept c recorded creations p (ok [], q) =
    LosesOrphansOnly c recorded p q × All (IsGone recorded q) creations
Swept c recorded creations p (ok (f ∷ fs), q) = LosesOrphansOnly c recorded p q
Swept c recorded creations p (err f, q) = LosesOrphansOnly c recorded p q

Swept-loses :
    (c : Console) (recorded : List Text) (creations : List PolicyOperation) (p : Pass)
    (r : Result (List Failure) × Pass)
    → Swept c recorded creations p r
    → LosesOrphansOnly c recorded p r.1
Swept-loses c recorded creations p (ok [], q) (l, g) = l
Swept-loses c recorded creations p (ok (f ∷ fs), q) l = l
Swept-loses c recorded creations p (err f, q) l = l

Swept-earlier :
    (c : Console) (recorded : List Text) (creations : List PolicyOperation) (o p : Pass)
    (r : Result (List Failure) × Pass)
    → LosesOrphansOnly c recorded o p
    → Swept c recorded creations p r
    → Swept c recorded creations o r
Swept-earlier c recorded creations o p (ok [], q) h (l, g) = (loses_trans c recorded o p q h l, g)
Swept-earlier c recorded creations o p (ok (f ∷ fs), q) h l = loses_trans c recorded o p q h l
Swept-earlier c recorded creations o p (err f, q) h l = loses_trans c recorded o p q h l

module _ (c : Console) (scope : OwnershipScope) (site : Text) (recorded : List Text) where
  deleted-loses :
      (policy : Text) (p q : Pass)
      → includes recorded policy ≡ false
      → q.on_gateway ≡ (drop_gateway policy p).on_gateway
      → ExtendsLog p.requests q.requests
      → (includes p.on_gateway policy ≡ true → IsDeletedBetween c policy p q)
      → LosesOrphansOnly c recorded p q × (includes q.on_gateway policy ≡ false)
  deleted-loses policy p q orphan e log done = (
    record {
      gained_none = λ other h. ground (arith, includes-keep p.on_gateway policy other, rw e at h);
      kept = λ other r h. rw e (elim (Bool-cases (text_eq policy other)) [
        | inl same ↦
            let s : policy ≡ other = (text_eq_iff policy other).0 same in
            absurd (let o = rw s at orphan in ground arith)
        | inr apart ↦ ground (arith, includes-keep p.on_gateway policy other)
      ]);
      deleted = λ other on off. elim (Bool-cases (text_eq policy other)) [
        | inl same ↦
            let s : policy ≡ other = (text_eq_iff policy other).0 same in
            rw (← s) (done (rw (← s) at on))
        | inr apart ↦
            absurd
              (let off' = rw e at off in ground (arith, includes-keep p.on_gateway policy other))
      ];
      log = log;
    },
    rw e (ground (arith, includes-keep p.on_gateway policy policy, text_eq_iff policy policy)),
  )

  remove_or_report-Swept :
      (creation : PolicyOperation) (policy : Text) (p : Pass)
      → creation.unifi_policy_id ≡ some policy
      → includes recorded policy ≡ false
      → Swept c recorded (creation ∷ []) p (remove_or_report c scope site creation policy p)
  unfolding remove_or_report remove_quietly remove_policy mark_removed set_operation no_error
      report_error
  remove_or_report-Swept creation policy p named orphan =
      go (delete_from_gateway c scope site policy p)
        (delete_from_gateway-Deletion c scope site policy p)
    where
      go :
          (r : Result (Unit {0}) × Pass)
          → Deletion c policy p r
          → Swept c recorded (creation ∷ []) p (
              caught
                (and_then
                  (and_then r (λ _. mark_removed c scope site creation.id))
                  (no_error c scope site))
                (report_error c scope site))
      go (ok done, q) (e, log, sent) =
          let (l, gone) =
            deleted-loses policy p (mark_removed c scope site creation.id q).1 orphan e log sent in
          (l, (λ other named' r. (let s : policy ≡ other = ground arith in rw (← s) gone), tt))
      go (err f, q) (e, log) = loses_same c recorded p q e log

  sweep_policy-Swept :
      (creation : PolicyOperation) (named : Option Text) (p : Pass)
      → creation.unifi_policy_id ≡ named
      → Swept c recorded (creation ∷ []) p (sweep_policy c scope site recorded creation named p)
  unfolding sweep_policy sweep_one still_held
  sweep_policy-Swept creation none p unnamed = (
    loses_same c recorded p p refl (ExtendsLog-same p.requests p.requests refl),
    (λ policy e r. absurd (let k = unnamed in cc), tt),
  )
  sweep_policy-Swept creation (some policy) p e = elim (Bool-cases (includes recorded policy)) [
    | inl kept ↦ rw kept (
      loses_same c recorded p p refl (ExtendsLog-same p.requests p.requests refl),
      (
        λ other named r.
            absurd (let s : policy ≡ other = ground arith in ground (arith, rw s at kept)),
        tt,
      ),
    )
    | inr orphan ↦ rw orphan (elim (Bool-cases (c.held p.checks)) [
      | inl held ↦ rw held (
          Swept-earlier c recorded (creation ∷ []) p (record p { checks = suc p.checks }) _
            (loses_same c recorded p _ refl (ExtendsLog-same p.requests p.requests refl))
            (remove_or_report-Swept creation policy _ e orphan))
      | inr lost ↦
          rw lost (loses_same c recorded p _ refl (ExtendsLog-same p.requests p.requests refl))
    ])
  ]

  sweep_next-Swept :
      (creation : PolicyOperation) (p : Pass)
      → Swept c recorded (creation ∷ []) p (sweep_next c scope site recorded creation p)
  unfolding sweep_next
  sweep_next-Swept creation p = sweep_policy-Swept creation creation.unifi_policy_id p refl

  after_rest :
      (creation : PolicyOperation) (creations : List PolicyOperation) (errors : List Failure)
      (p q : Pass) (r : Result (List Failure) × Pass)
      → Swept c recorded (creation ∷ []) p (ok errors, q)
      → Swept c recorded creations q r
      → Swept c recorded (creation ∷ creations) p (and_then r (add_errors c scope site errors))
  after_rest creation creations [] p q (ok [], r) (l, (g, gs)) (m, h) =
      (loses_trans c recorded p q r l m, (IsGone-later c recorded q r creation m g, h))
  after_rest creation creations [] p q (ok (f ∷ fs), r) (l, g) m = loses_trans c recorded p q r l m
  after_rest creation creations (e ∷ es) p q (ok fs, r) l m =
      loses_trans c recorded p q r l (Swept-loses c recorded creations q (ok fs, r) m)
  after_rest creation creations errors p q (err f, r) l m =
      loses_trans c recorded p q r (Swept-loses c recorded (creation ∷ []) p (ok errors, q) l) m

  sweep-Swept :
      (creations : List PolicyOperation) (p : Pass)
      → Swept c recorded creations p (sweep c scope site recorded creations p)
  unfolding sweep
  sweep-Swept [] p =
      (loses_same c recorded p p refl (ExtendsLog-same p.requests p.requests refl), tt)
  sweep-Swept (creation ∷ creations) p =
      go (sweep_next c scope site recorded creation p) (sweep_next-Swept creation p)
        (λ q. sweep-Swept creations q)
    where
      go :
          (r : Result (List Failure) × Pass)
          → Swept c recorded (creation ∷ []) p r
          → ((q : Pass) → Swept c recorded creations q (sweep c scope site recorded creations q))
          → Swept c recorded (creation ∷ creations) p (
              and_then r (λ errors.
                (sweep c scope site recorded creations >>= add_errors c scope site errors)))
      go (ok errors, q) s rest =
          after_rest creation creations errors p q (sweep c scope site recorded creations q) s
            (rest q)
      go (err f, q) s rest = s

-- What the sweep of the recorded and the created policies leaves.
pub remove_orphaned_policies-loses :
    (c : Console) (scope : OwnershipScope) (site : Text) (p : Pass)
    → LosesOrphansOnly c
        (recorded_ids scope.connection_identity site p.store)
        p
        (remove_orphaned_policies c scope site p).1
      × ((remove_orphaned_policies c scope site p).0 ≡ ok []
          → All
              (IsGone
                (recorded_ids scope.connection_identity site p.store)
                (remove_orphaned_policies c scope site p).1)
              (creations_in scope.connection_identity site p.store))
unfolding remove_orphaned_policies
remove_orphaned_policies-loses c scope site p =
    go (sweep c scope site recorded creations p) (sweep-Swept c scope site recorded creations p)
  where
    recorded : List Text
    recorded = recorded_ids scope.connection_identity site p.store

    creations : List PolicyOperation
    creations = creations_in scope.connection_identity site p.store

    go :
        (r : Result (List Failure) × Pass)
        → Swept c recorded creations p r
        → LosesOrphansOnly c recorded p r.1 × (r.0 ≡ ok [] → All (IsGone recorded r.1) creations)
    go (ok [], q) (l, g) = (l, λ e. g)
    go (ok (f ∷ fs), q) l = (l, λ e. absurd (cc))
    go (err f, q) l = (l, λ e. absurd (cc))
