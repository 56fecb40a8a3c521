-- ===== src/Wasm/Policy/Propagation.antt =====
-- What the submessages of a governance proposal may do (`SubMessageAuthorizationPolicy`).
use bignftd.Base.{
  Text, arith, ◌≡◌, ◌⊎◌, refl, true, false, Option, List, [], ◌∷◌, Bool-cases, inl, inr,
}
use bignftd.Wasm.Policy.{
  PolicyAction, instantiate, migrate, Policy, default_policy, gov_policy, partial_gov_policy,
  is_actor, can_modify_contract, propagates, submessage_policy,
}

-- The policy of a submessage of a submessage and so on, for the actions on the way.
abbrev pub descend : Policy → List PolicyAction → Policy
descend p [] = p
descend p (a ∷ actions) = descend (submessage_policy p a) actions

descend_default : (actions : List PolicyAction) → descend default_policy actions ≡ default_policy
unfolding submessage_policy
descend_default [] = refl
descend_default (a ∷ actions) = descend_default actions

descend_partial :
    (p : PolicyAction) (actions : List PolicyAction)
    → descend (partial_gov_policy p) actions ≡ partial_gov_policy p
unfolding submessage_policy
descend_partial p [] = refl
descend_partial p (a ∷ actions) = descend_partial p actions

-- Below the first submessage the policy does not change.
pub descend-gov :
    (granted : List PolicyAction) (first : PolicyAction) (rest : List PolicyAction)
    → ((propagates granted first ≡ true)
        × (descend (gov_policy granted) (first ∷ rest) ≡ partial_gov_policy first))
      ⊎ (descend (gov_policy granted) (first ∷ rest) ≡ default_policy)
unfolding submessage_policy
descend-gov granted first rest = elim (Bool-cases (propagates granted first)) [
  | inl e ↦ inl (e, rw e (descend_partial first rest))
  | inr e ↦ inr (rw e (descend_default rest))
]

migrates_as :
    (p : PolicyAction) (admin : Option Text) (actor : Text)
    → can_modify_contract (partial_gov_policy p) admin actor ≡ true
    → (p ≡ migrate) ⊎ (is_actor admin actor ≡ true)
unfolding can_modify_contract
migrates_as migrate admin actor h = inl refl
migrates_as instantiate admin actor h = inr h

default_migrates :
    (admin : Option Text) (actor : Text)
    → can_modify_contract default_policy admin actor ≡ is_actor admin actor
unfolding can_modify_contract
default_migrates admin actor = refl

-- In a submessage of a governance action, at any depth, an actor that is not the admin may modify
-- a contract only if the first submessage was a migration and governance propagates migrations.
pub propagates_only_migrations :
    (granted : List PolicyAction) (first : PolicyAction) (rest : List PolicyAction)
    (admin : Option Text) (actor : Text)
    → is_actor admin actor ≡ false
    → can_modify_contract (descend (gov_policy granted) (first ∷ rest)) admin actor ≡ true
    → (first ≡ migrate) × (propagates granted migrate ≡ true)
propagates_only_migrations granted first rest admin actor n h = grind (
  arith,
  migrates_as first admin actor,
  default_migrates admin actor,
  descend-gov granted first rest,
)
