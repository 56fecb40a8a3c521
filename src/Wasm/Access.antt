-- ===== src/Wasm/Access.antt =====
-- Who may store, instantiate and change code and contracts: the access configurations
-- (x/wasm/types/params.go and types.go) and the authorization policies
-- (x/wasm/keeper/authz_policy.go).
pub mod Order
pub mod Validation
use bignftd.Base.{
  ℕ, Text, Bool, true, false, not, ◌&&◌, ◌||◌, Option, none, some, List, [], ◌∷◌, length, ltb, ◌==◌,
  ◌+◌, suc, text_eq, if◌then◌else◌,
}
use bignftd.Chain.Outcome.{Result, ok, err, panic, fatal}
use bignftd.Chain.Sdk.{Addr}
use bignftd.Wasm.Gas.{Priced}

-- The values of the enumeration; `other` is any number that stands for none.
pub data AccessType : Type 0 where
  unspecified nobody everybody any_of_addresses : AccessType
  other : ℕ → AccessType

pub record AccessConfig : Type 0 where
  pub permission : AccessType
  pub addresses : List Text

abbrev pub is_nobody : AccessType → Bool
is_nobody nobody = true
is_nobody _ = false

abbrev pub is_any_of : AccessType → Bool
is_any_of any_of_addresses = true
is_any_of _ = false

abbrev pub is_unspecified : AccessType → Bool
is_unspecified unspecified = true
is_unspecified _ = false

-- The inner loop of `isSubset`, and of `Allowed`: some element is the text.
unfoldable pub lists : List Text → Text → Bool
lists [] t = false
lists (s ∷ rest) t = if text_eq s t then true else lists rest t

-- The outer loop of `isSubset`: the number of elements of `sub` that are in `super`.
unfoldable pub count_matches : List Text → List Text → ℕ
count_matches super [] = 0
count_matches super (o ∷ sub) =
    if lists super o then suc (count_matches super sub) else count_matches super sub

-- `isSubset` of lists
unfoldable pub is_subset_list : List Text → List Text → Bool
is_subset_list super [] = true
is_subset_list super (o ∷ sub) = count_matches super (o ∷ sub) == length (o ∷ sub)

-- `AccessType.IsSubset`
unfoldable pub is_subset_type : AccessType → AccessType → Bool
is_subset_type a everybody = not (is_unspecified a)
is_subset_type a nobody = is_nobody a
is_subset_type a any_of_addresses = is_nobody a || is_any_of a
is_subset_type a _ = false

-- `AccessConfig.IsSubset`, split on the permission of the superset.
unfoldable pub is_subset_of : AccessConfig → AccessType → List Text → Bool
is_subset_of a any_of_addresses addresses =
    is_nobody a.permission || is_any_of a.permission && is_subset_list addresses a.addresses
is_subset_of a unspecified addresses = false
is_subset_of a p addresses = is_subset_type a.permission p

unfoldable pub is_subset : AccessConfig → AccessConfig → Bool
unfolding is_subset_of
is_subset a super = is_subset_of a super.permission super.addresses

-- `AccessConfig.Allowed`; an unknown permission is a panic.
unfoldable pub allowed_by : AccessType → List Text → Text → Priced Bool
allowed_by nobody addresses actor = ok false
allowed_by everybody addresses actor = ok true
allowed_by any_of_addresses addresses actor = ok (lists addresses actor)
allowed_by _ addresses actor = panic fatal

unfoldable pub allowed : AccessConfig → Text → Priced Bool
unfolding allowed_by
allowed a actor = allowed_by a.permission a.addresses actor

-- `AllAuthorizedAddresses`
unfoldable pub all_authorized_addresses : AccessConfig → List Text
all_authorized_addresses a = if is_any_of a.permission then a.addresses else []
