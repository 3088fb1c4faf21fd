-- ===== src/Names/Bounded.antt =====
-- A policy name fits UniFi's limit and begins with FamilyFi's prefix.
use familyfi.Base.{
  ℕ, zero, suc, ◌≤◌, ◌≡◌, ◌∙◌, refl, ap, arith, inl, inr, List, [], ◌∷◌, ◌++◌, map, leb, ltb,
  if◌then◌else◌, Text, codes, length, take, length-append, trim_end, trim_end-append,
  length-trim_end, is_space, every, All, Bool-cases,
}
use familyfi.Names.{
  NamedRule, PolicyMode, always, scheduled, familyfi_policy_prefix, clip_name, with_zone,
  is_internal_zone, zone_label, rule_base_name, labelled, name_tails, rule_policy_names,
  quarantine_policy_name,
}

-- At most a hundred units, the first eight of them "FamilyFi".
pub record IsPolicyName (name : Text) : Type 0 where
  pub fits : length name ≤ 100
  pub rest : Text
  pub prefixed : name ≡ codes "FamilyFi" ++ rest

length-take : (n : ℕ) (s : Text) → length (take n s) ≤ n
length-take zero s = omega arith
length-take (suc n) [] = omega arith
length-take (suc n) (c ∷ s) = omega (arith, length-take n s)

clip_name-IsPolicyName : (s : Text) → IsPolicyName (clip_name (codes "FamilyFi" ++ s))
unfolding clip_name
clip_name-IsPolicyName s = elim (Bool-cases (leb (length (codes "FamilyFi" ++ s)) 100)) [
  | inl short ↦ rw short (record { fits = ground arith; rest = s; prefixed = refl })
  | inr long ↦ rw long (record {
    fits =
        let a = length-append (trim_end (take 99 (codes "FamilyFi" ++ s))) (0x2026 ∷ []) in
        let b = length-trim_end (take 99 (codes "FamilyFi" ++ s)) in
        let c = length-take 99 (codes "FamilyFi" ++ s) in omega (arith, a, b, c);
    rest = trim_end (take 91 s) ++ 0x2026 ∷ [];
    prefixed =
        ap (λ t. t ++ 0x2026 ∷ [])
          (trim_end-append (codes "FamilyFi") (take 91 s) (unfold every is_space in refl));
  })
]

with_zone-IsPolicyName : (s zone : Text) → IsPolicyName (with_zone (codes "FamilyFi" ++ s) zone)
unfolding with_zone
with_zone-IsPolicyName s zone = elim (Bool-cases (is_internal_zone zone)) [
  | inl internal ↦ rw internal (clip_name-IsPolicyName s)
  | inr other ↦ rw other (clip_name-IsPolicyName (s ++ codes " (" ++ zone_label zone ++ codes ")"))
]

map-IsPolicyName :
    (tails : List Text) (zone : Text)
    → All IsPolicyName (map (λ tail. with_zone (familyfi_policy_prefix ++ tail) zone) tails)
map-IsPolicyName [] zone = tt
map-IsPolicyName (t ∷ ts) zone = (with_zone-IsPolicyName (b' ' ∷ t) zone, map-IsPolicyName ts zone)

length-map : (f : Text → Text) (l : List Text) → length (map f l) ≡ length l
length-map f [] = refl
length-map f (x ∷ l) = ap suc (length-map f l)

length-labelled :
    (base : Text) (index : ℕ) (ws : List Text) → length (labelled base index ws) ≡ length ws
unfolding labelled
length-labelled base index [] = refl
length-labelled base index (w ∷ ws) = ap suc (length-labelled base (suc index) ws)

-- How many policies the rule has in a zone.
abbrev pub policy_count : NamedRule → ℕ
policy_count rule = elim rule.mode [ always ↦ 1 | scheduled ↦ length rule.windows ]

length-name_tails : (rule : NamedRule) → length (name_tails rule) ≡ policy_count rule
unfolding name_tails
length-name_tails rule = go rule.mode
  where
    go :
        (mode : PolicyMode)
        → length (elim mode [
          | always ↦ rule_base_name rule ∷ []
          | scheduled ↦
              if ltb 1 (length rule.windows)
              then labelled (rule_base_name rule) 0 rule.windows
              else map (λ w. rule_base_name rule) rule.windows
        ])
          ≡ elim mode [ always ↦ 1 | scheduled ↦ length rule.windows ]
    go always = refl
    go scheduled = elim (Bool-cases (ltb 1 (length rule.windows))) [
      | inl more ↦ rw more (length-labelled (rule_base_name rule) 0 rule.windows)
      | inr one ↦ rw one (length-map _ rule.windows)
    ]

-- `rulePolicyNames` gives one name for an always-on rule and one per window for a scheduled rule;
-- each has at most a hundred units and begins with "FamilyFi", whatever the rule, its windows and
-- the zone are called.
pub rule_policy_names-IsPolicyName :
    (rule : NamedRule) (zone : Text)
    → All IsPolicyName (rule_policy_names rule zone)
      × (length (rule_policy_names rule zone) ≡ policy_count rule)
unfolding rule_policy_names
rule_policy_names-IsPolicyName rule zone = (
  map-IsPolicyName (name_tails rule) zone,
  length-map _ (name_tails rule) ∙ length-name_tails rule,
)

pub quarantine_policy_name-IsPolicyName : (zone : Text) → IsPolicyName (quarantine_policy_name zone)
unfolding quarantine_policy_name
quarantine_policy_name-IsPolicyName zone =
    clip_name-IsPolicyName (codes " Quarantine " ++ zone_label zone ++ codes " Devices")
