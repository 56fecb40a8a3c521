-- ===== src/Wasm/Grants.antt =====
-- x/wasm/types/authz.go: grants to call or migrate contracts for somebody else, with their limits
-- and filters.
pub mod Accept
pub mod Code
use bignftd.Base.{
  ℕ, zero, suc, Text, Bool, true, false, not, ◌==◌, Option, none, some, List, [], ◌∷◌, length,
  text_eq, if◌then◌else◌,
}
use bignftd.Chain.Outcome.{Result, ok, err, panic}
use bignftd.Chain.Checks.{◌>>=◌, ◌>>◌, require}
use bignftd.Chain.Sdk.{Coins}
use bignftd.Wasm.Gas.{Priced}
use bignftd.Wasm.Access.{lists}
use bignftd.Wasm.Access.Validation.{AccessError}
use bignftd.Wasm.Contract.{Texts, is_some}
use bignftd.Wasm.Messages.{Formats}

-- The errors of grants; `failed_check` is that of a check of the message, wrapping is left out.
pub data GrantError : Type 0 where
  not_found invalid_type unauthorized invalid_request empty invalid duplicate : GrantError
  failed_check : AccessError → GrantError

-- What grants ask of the SDK and of Go's library: `Coins.Empty`, `IsAllLTE`, `Sub`, `IsZero` and
-- `sdk.NewCoins`, of which `Sub` and `NewCoins` may panic; the keys of a JSON object, none for
-- other JSON; the checksum of a code, and `strings.ToLower`.
pub record GrantFormats : Type 0 where
  pub is_empty : Coins → Bool
  pub is_all_lte : Coins → Coins → Bool
  pub sub_coins : Coins → Coins → Priced Coins
  pub is_zero_coins : Coins → Bool
  pub new_coins : Coins → Priced Coins
  pub top_level_keys : Text → Option (List Text)
  pub create_checksum : Text → Option Text
  pub to_lower : Text → Text

-- `ContractAuthzLimitX`
pub data Limit : Type 0 where
  undefined_limit : Limit
  max_calls : ℕ → Limit
  max_funds : Coins → Limit
  combined : ℕ → Coins → Limit

-- `ContractAuthzFilterX`
pub data Filter : Type 0 where
  undefined_filter allow_all : Filter
  accepted_keys accepted_messages : List Text → Filter

-- `ContractGrant`; `none` is a missing value, or one of another type.
pub record ContractGrant : Type 0 where
  pub contract : Text
  pub limit : Option Limit
  pub filter : Option Filter

-- `ContractAuthzLimitAcceptResult`
pub record LimitResult : Type 0 where
  pub accepted : Bool
  pub delete_limit : Bool
  pub update_limit : Option Limit

-- `GetLimit`
unfoldable pub get_limit : ContractGrant → Limit
get_limit g = elim g.limit [ none ↦ undefined_limit | some l ↦ l ]

-- `GetFilter`
unfoldable pub get_filter : ContractGrant → Filter
get_filter g = elim g.filter [ none ↦ undefined_filter | some f ↦ f ]

abbrev pub not_accepted : LimitResult
not_accepted = record { accepted = false; delete_limit = false; update_limit = none }

abbrev pub accepted_unchanged : LimitResult
accepted_unchanged = record { accepted = true; delete_limit = false; update_limit = none }

abbrev pub accepted_last : LimitResult
accepted_last = record { accepted = true; delete_limit = true; update_limit = none }

abbrev pub accepted_with : Limit → LimitResult
accepted_with l = record { accepted = true; delete_limit = false; update_limit = some l }

-- A call of the SDK that may panic, and has no error.
abbrev pub priced : {A : Type 0} → Priced A → Result GrantError A
priced (ok a) = ok a
priced (err e) = absurd e
priced (panic p) = panic p

-- `ContractGrant.WithNewLimits`; the undefined limit is no protobuf message.
unfoldable pub with_new_limits : ContractGrant → Limit → Result GrantError ContractGrant
with_new_limits g undefined_limit = err invalid_type
with_new_limits g l = ok (record g { limit = some l })

module _ (texts : Texts) (formats : Formats) (grant_formats : GrantFormats) where
  -- The last case of `MaxCallsLimit.Accept`, by what is left
  abbrev pub accept_call : ℕ → Result GrantError LimitResult
  accept_call zero = err unauthorized
  accept_call (suc zero) = ok accepted_last
  accept_call (suc (suc n)) = ok (accepted_with (max_calls (suc n)))

  abbrev pub funds_left : Coins → LimitResult
  funds_left coins =
      if grant_formats.is_zero_coins coins then accepted_last else accepted_with (max_funds coins)

  -- `NewCombinedLimit` where something is left; `n` calls remain.
  abbrev pub combined_left : ℕ → Coins → Result GrantError LimitResult
  combined_left n coins =
      if grant_formats.is_zero_coins coins
      then ok accepted_last
      else priced (grant_formats.new_coins coins) >>= λ amounts.
          ok (accepted_with (combined n amounts))

  abbrev pub accept_combined : ℕ → Coins → Coins → Result GrantError LimitResult
  accept_combined zero amounts funds = err unauthorized
  accept_combined (suc zero) amounts funds = ok accepted_last
  accept_combined (suc (suc n)) amounts funds =
      priced (grant_formats.sub_coins amounts funds) >>= λ left. combined_left (suc n) left

  -- `Accept` of each limit, for the funds of a message
  unfoldable pub accept_limit : Limit → Coins → Result GrantError LimitResult
  accept_limit undefined_limit funds = err not_found
  accept_limit (max_calls n) funds =
      if not (grant_formats.is_empty funds) then ok not_accepted else accept_call n
  accept_limit (max_funds amounts) funds =
      if grant_formats.is_empty funds
      then ok accepted_unchanged
      else if not (grant_formats.is_all_lte funds amounts)
      then ok not_accepted
      else priced (grant_formats.sub_coins amounts funds) >>= λ left. ok (funds_left left)
  accept_limit (combined n amounts) funds =
      if not (grant_formats.is_all_lte funds amounts)
      then ok not_accepted
      else accept_combined n amounts funds

  -- `ValidateBasic` of each limit
  unfoldable pub validate_limit : Limit → Result GrantError Unit
  validate_limit undefined_limit = err invalid_type
  validate_limit (max_calls n) = require (not (n == 0)) empty
  validate_limit (max_funds amounts) = do
    require (formats.is_valid_coins amounts) invalid
    require (not (grant_formats.is_zero_coins amounts)) empty
  validate_limit (combined n amounts) = do
    require (not (n == 0)) empty
    require (not (grant_formats.is_zero_coins amounts)) empty
    require (formats.is_valid_coins amounts) invalid

  -- The loops over keys and messages, with those seen so far
  unfoldable pub validate_keys : List Text → List Text → Result GrantError Unit
  validate_keys seen [] = ok tt
  validate_keys seen (key ∷ keys) = do
    require (not (text_eq key [])) empty
    require (text_eq key (texts.trim_space key)) invalid
    require (not (lists seen key)) duplicate
    validate_keys (key ∷ seen) keys

  unfoldable pub validate_messages : List Text → List Text → Result GrantError Unit
  validate_messages seen [] = ok tt
  validate_messages seen (msg ∷ msgs) = do
    require (not (length msg == 0)) empty
    require (texts.is_json msg) invalid
    require (not (lists seen msg)) duplicate
    validate_messages (msg ∷ seen) msgs

  -- `ValidateBasic` of each filter
  unfoldable pub validate_filter : Filter → Result GrantError Unit
  validate_filter undefined_filter = err invalid_type
  validate_filter allow_all = ok tt
  validate_filter (accepted_keys keys) = do
    require (not (length keys == 0)) empty
    validate_keys [] keys
  validate_filter (accepted_messages msgs) = do
    require (not (length msgs == 0)) empty
    validate_messages [] msgs

  -- `ContractGrant.ValidateBasic`
  unfoldable pub validate_contract_grant : ContractGrant → Result GrantError Unit
  validate_contract_grant g = do
    require (is_some (texts.from_bech32 g.contract)) invalid
    validate_limit (get_limit g)
    validate_filter (get_filter g)

  unfoldable pub validate_each_grant : List ContractGrant → Result GrantError Unit
  validate_each_grant [] = ok tt
  validate_each_grant (g ∷ grants) = do validate_contract_grant g; validate_each_grant grants

  -- `validateGrants`
  unfoldable pub validate_grants : List ContractGrant → Result GrantError Unit
  validate_grants grants = do require (not (length grants == 0)) empty; validate_each_grant grants

  -- `isJSONObjectWithTopLevelKey`: an object with one key, which is allowed
  abbrev pub is_allowed_key : Option (List Text) → List Text → Bool
  is_allowed_key (some (key ∷ [])) allowed = lists allowed key
  is_allowed_key _ allowed = false

  unfoldable pub is_json_object_with_top_level_key : Text → List Text → Result GrantError Bool
  is_json_object_with_top_level_key msg allowed = do
    require (texts.is_json msg) invalid
    ok (is_allowed_key (grant_formats.top_level_keys msg) allowed)
