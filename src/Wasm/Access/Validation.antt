-- ===== src/Wasm/Access/Validation.antt =====
-- The checks and the names of access configurations (x/wasm/types/params.go and validation.go).
use bignftd.Base.{
  ℕ, Text, codes, ◌≡◌, refl, Bool, true, false, not, ◌==◌, leb, List, [], ◌∷◌, length, text_eq,
  if◌then◌else◌,
}
use bignftd.Chain.Outcome.{Result, ok, err, panic, fatal}
use bignftd.Chain.Checks.{◌>>◌, require}
use bignftd.Wasm.Gas.{Priced}
use bignftd.Wasm.Access.{
  AccessType, unspecified, nobody, everybody, any_of_addresses, other, AccessConfig, lists, allowed,
  allowed_by,
}

-- The errors of the checks; wrapping and messages are left out.
pub data AccessError : Type 0 where
  empty invalid duplicate limit invalid_request invalid_bech32 invalid_coins malformed : AccessError

-- `MaxAddressCount`
abbrev pub max_address_count : ℕ
max_address_count = 50

-- `AccessType.String`
unfoldable pub show_access_type : AccessType → Text
show_access_type nobody = codes "Nobody"
show_access_type everybody = codes "Everybody"
show_access_type any_of_addresses = codes "AnyOfAddresses"
show_access_type _ = codes "Unspecified"

-- `AllAccessTypes`
abbrev pub all_access_types : List AccessType
all_access_types = nobody ∷ any_of_addresses ∷ everybody ∷ []

-- The loop of `AccessType.UnmarshalText`
unfoldable pub find_access_type : List AccessType → Text → AccessType
unfolding show_access_type
find_access_type [] t = unspecified
find_access_type (v ∷ rest) t =
    if text_eq (show_access_type v) t then v else find_access_type rest t

-- `AccessType.UnmarshalText`
unfoldable pub parse_access_type : Text → AccessType
unfolding find_access_type
parse_access_type t = find_access_type all_access_types t

-- `validateAccessType`
unfoldable pub validate_access_type : AccessType → Result AccessError Unit
validate_access_type unspecified = err empty
validate_access_type (other n) = err invalid
validate_access_type _ = ok tt

-- Bech32 parsing is the SDK's, and the upper case of a text that of Go's library.
module _ (is_bech32 : Text → Bool) (to_upper : Text → Text) where
  -- The loop over the addresses, with the ones seen so far in upper case.
  unfoldable pub check_addresses : List Text → List Text → Result AccessError Unit
  check_addresses seen [] = ok tt
  check_addresses seen (a ∷ addresses) = do
    require (is_bech32 a) invalid_bech32
    require (not (lists seen (to_upper a))) duplicate
    check_addresses (to_upper a ∷ seen) addresses

  -- `validateBech32Addresses`
  unfoldable pub validate_bech32_addresses : List Text → Result AccessError Unit
  validate_bech32_addresses addresses = do
    require (not (length addresses == 0)) empty
    require (leb (length addresses) max_address_count) invalid_request
    check_addresses [] addresses

  -- `AccessConfig.ValidateBasic`, by its permission
  unfoldable pub validate_permission : AccessType → List Text → Result AccessError Unit
  validate_permission unspecified addresses = err empty
  validate_permission nobody addresses = ok tt
  validate_permission everybody addresses = ok tt
  validate_permission any_of_addresses addresses = validate_bech32_addresses addresses
  validate_permission (other n) addresses = err invalid

  unfoldable pub validate_access_config : AccessConfig → Result AccessError Unit
  unfolding validate_permission
  validate_access_config a = validate_permission a.permission a.addresses

  -- `AccessType.With`: an unsupported type, or addresses that are not valid, is a panic.
  unfoldable pub with_addresses : AccessType → List Text → Priced AccessConfig
  with_addresses nobody addresses = ok (record { permission = nobody; addresses = [] })
  with_addresses everybody addresses = ok (record { permission = everybody; addresses = [] })
  with_addresses any_of_addresses addresses = elim (validate_bech32_addresses addresses) [
    | ok _ ↦ ok (record { permission = any_of_addresses; addresses = addresses })
    | err _ ↦ panic fatal
    | panic p ↦ panic p
  ]
  with_addresses _ addresses = panic fatal

  valid_permission :
      (p : AccessType) (addresses : List Text) (actor : Text)
      → validate_permission p addresses ≡ ok tt
      → (b : Bool) × (allowed_by p addresses actor ≡ ok b)
  unfolding validate_permission allowed_by
  valid_permission unspecified addresses actor h = cc
  valid_permission (other n) addresses actor h = cc
  valid_permission nobody addresses actor h = (false, refl)
  valid_permission everybody addresses actor h = (true, refl)
  valid_permission any_of_addresses addresses actor h = (lists addresses actor, refl)

  -- For a configuration that passes its check, the test of an actor never panics.
  pub allowed_after_validation :
      (a : AccessConfig) (actor : Text)
      → validate_access_config a ≡ ok tt
      → (b : Bool) × (allowed a actor ≡ ok b)
  unfolding validate_access_config allowed
  allowed_after_validation a actor h = valid_permission a.permission a.addresses actor h

-- A type that passes its check is read back from its name.
pub parse_access_type-show_access_type :
    (p : AccessType) → validate_access_type p ≡ ok tt → parse_access_type (show_access_type p) ≡ p
unfolding parse_access_type find_access_type show_access_type validate_access_type text_eq
parse_access_type-show_access_type unspecified h = cc
parse_access_type-show_access_type nobody h = refl
parse_access_type-show_access_type everybody h = refl
parse_access_type-show_access_type any_of_addresses h = refl
parse_access_type-show_access_type (other n) h = cc
