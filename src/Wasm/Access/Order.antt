-- ===== src/Wasm/Access/Order.antt =====
-- The order of access configurations (`AccessConfig.IsSubset`) against what each allows
-- (`AccessConfig.Allowed`).
use bignftd.Base.{
  suc, ◌≤◌, ◌≡◌, refl, Text, Bool, true, List, [], ◌∷◌, length, ap, Bool-cases, inl, inr, arith,
  text_eq, text_eq_iff, ==_iff,
}
use bignftd.Chain.Outcome.{Result, ok}
use bignftd.Wasm.Access.{
  AccessType, unspecified, nobody, everybody, any_of_addresses, other, AccessConfig, lists,
  count_matches, is_subset_list, is_subset_type, is_subset_of, is_subset, allowed_by, allowed,
}

-- No more elements match than there are.
count_matches_bound : (super sub : List Text) → count_matches super sub ≤ length sub
unfolding count_matches
count_matches_bound super [] = omega arith
count_matches_bound super (o ∷ sub) = ground (arith, count_matches_bound super sub)

-- If all match, the first does, and so do the others.
match_first :
    (super : List Text) (o : Text) (sub : List Text)
    → count_matches super (o ∷ sub) ≡ suc (length sub)
    → (lists super o ≡ true) × (count_matches super sub ≡ length sub)
unfolding count_matches
match_first super o sub h = ground (arith, count_matches_bound super sub)

matches_listed :
    (super sub : List Text) (t : Text)
    → count_matches super sub ≡ length sub
    → lists sub t ≡ true
    → lists super t ≡ true
unfolding lists
matches_listed super [] t h l = cc
matches_listed super (o ∷ sub) t h l =
    let (first, rest) = match_first super o sub h in
    elim (Bool-cases (text_eq o t)) [
      | inl e ↦ grind (arith, text_eq_iff o t)
      | inr e ↦ matches_listed super sub t rest (ground (arith, e, l))
    ]

subset_listed :
    (super sub : List Text) (t : Text)
    → is_subset_list super sub ≡ true
    → lists sub t ≡ true
    → lists super t ≡ true
unfolding is_subset_list lists
subset_listed super [] t h l = cc
subset_listed super (o ∷ sub) t h l =
    matches_listed super (o ∷ sub) t
      ((==_iff (count_matches super (o ∷ sub)) (length (o ∷ sub))).0 h) l

ok-injective : {b c : Bool} → Path (Result ⊥ Bool) (ok b) (ok c) → b ≡ c
ok-injective e = cc

-- What is allowed under a permission is allowed under one that it is a subset of.
grows :
    (p q : AccessType) (ps qs : List Text) (actor : Text)
    → is_subset_of (record { permission = p; addresses = ps }) q qs ≡ true
    → allowed_by p ps actor ≡ ok true
    → allowed_by q qs actor ≡ ok true
unfolding is_subset_of is_subset_type allowed_by
grows unspecified q ps qs actor h l = cc
grows (other n) q ps qs actor h l = cc
grows nobody q ps qs actor h l = cc
grows everybody everybody ps qs actor h l = refl
grows everybody unspecified ps qs actor h l = cc
grows everybody nobody ps qs actor h l = cc
grows everybody any_of_addresses ps qs actor h l = cc
grows everybody (other n) ps qs actor h l = cc
grows any_of_addresses unspecified ps qs actor h l = cc
grows any_of_addresses nobody ps qs actor h l = cc
grows any_of_addresses everybody ps qs actor h l = refl
grows any_of_addresses any_of_addresses ps qs actor h l =
    ap ok (subset_listed qs ps actor h (ok-injective l))
grows any_of_addresses (other n) ps qs actor h l = cc

-- If one access configuration is a subset of another by `IsSubset`, then every actor that the
-- first allows is allowed by the second, too.
pub is_subset-allowed :
    (a super : AccessConfig) (actor : Text)
    → is_subset a super ≡ true
    → allowed a actor ≡ ok true
    → allowed super actor ≡ ok true
unfolding is_subset allowed
is_subset-allowed a super actor h l =
    grows a.permission super.permission a.addresses super.addresses actor h l
