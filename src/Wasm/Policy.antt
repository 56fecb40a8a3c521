-- ===== src/Wasm/Policy.antt =====
-- x/wasm/keeper/authz_policy.go: the policies that decide what an actor may do.
pub mod Propagation
use bignftd.Base.{
  Text, Bool, true, false, ◌&&◌, Option, none, some, List, [], ◌∷◌, text_eq, if◌then◌else◌,
}
use bignftd.Chain.Outcome.{ok}
use bignftd.Chain.Checks.{◌>>=◌}
use bignftd.Wasm.Gas.{Priced}
use bignftd.Wasm.Access.{AccessConfig, is_subset, allowed}

-- `AuthorizationPolicyAction`
pub data PolicyAction : Type 0 where
  instantiate migrate : PolicyAction

abbrev pub same_action : PolicyAction → PolicyAction → Bool
same_action instantiate instantiate = true
same_action migrate migrate = true
same_action _ _ = false

-- `GovAuthorizationPolicy` holds the actions that it propagates; `PartialGovAuthorizationPolicy`
-- is built over the default policy alone.
pub data Policy : Type 0 where
  default_policy : Policy
  gov_policy : List PolicyAction → Policy
  partial_gov_policy : PolicyAction → Policy

pub record ChainAccessConfigs : Type 0 where
  pub upload : AccessConfig
  pub instantiate_access : AccessConfig

-- An address that is not nil and equals the actor's.
abbrev pub is_actor : Option Text → Text → Bool
is_actor none actor = false
is_actor (some a) actor = text_eq a actor

-- `CanCreateCode`
unfoldable pub can_create_code : Policy → ChainAccessConfigs → Text → AccessConfig → Priced Bool
can_create_code (gov_policy _) c actor config = ok true
can_create_code _ c actor config =
    allowed c.upload actor >>= λ b. ok (b && is_subset config c.instantiate_access)

-- `CanInstantiateContract`
unfoldable pub can_instantiate_contract : Policy → AccessConfig → Text → Priced Bool
can_instantiate_contract default_policy config actor = allowed config actor
can_instantiate_contract (gov_policy _) config actor = ok true
can_instantiate_contract (partial_gov_policy instantiate) config actor = ok true
can_instantiate_contract (partial_gov_policy migrate) config actor = allowed config actor

-- `CanModifyContract`
unfoldable pub can_modify_contract : Policy → Option Text → Text → Bool
can_modify_contract default_policy admin actor = is_actor admin actor
can_modify_contract (gov_policy _) admin actor = true
can_modify_contract (partial_gov_policy migrate) admin actor = true
can_modify_contract (partial_gov_policy instantiate) admin actor = is_actor admin actor

-- `CanModifyCodeAccessConfig`
unfoldable pub can_modify_code_access_config : Policy → Option Text → Text → Bool → Bool
can_modify_code_access_config (gov_policy _) creator actor is_subset_of_default = true
can_modify_code_access_config _ creator actor is_subset_of_default =
    is_actor creator actor && is_subset_of_default

-- `_, ok := p.propagate[action]`
unfoldable pub propagates : List PolicyAction → PolicyAction → Bool
propagates [] action = false
propagates (a ∷ rest) action = if same_action a action then true else propagates rest action

-- `SubMessageAuthorizationPolicy`
unfoldable pub submessage_policy : Policy → PolicyAction → Policy
submessage_policy default_policy action = default_policy
submessage_policy (gov_policy actions) action =
    if propagates actions action then partial_gov_policy action else default_policy
submessage_policy (partial_gov_policy a) action = partial_gov_policy a
