-- ===== src/Wasm/Messages.antt =====
-- x/wasm/types/tx.go: the messages of the module and their stateless checks.
use bignftd.Base.{
  ℕ, Text, Bool, true, false, not, ◌||◌, ◌==◌, leb, Option, none, some, List, [], ◌∷◌, length,
  text_eq, if◌then◌else◌,
}
use bignftd.Chain.Outcome.{Result, ok, err}
use bignftd.Chain.Checks.{◌>>◌, require, when}
use bignftd.Chain.Sdk.{Coins}
use bignftd.Wasm.Access.{AccessConfig}
use bignftd.Wasm.Access.Validation.{
  AccessError, empty, invalid, limit, invalid_request, invalid_bech32, invalid_coins, malformed,
  validate_access_config, validate_access_type, validate_bech32_addresses,
}
use bignftd.Wasm.Contract.{Texts, is_some, validate_label, validate_salt}
use bignftd.Wasm.Keeper.Platform.{WasmParams}
use bignftd.Wasm.Keeper.Code.{max_wasm_size}

pub record MsgStoreCode : Type 0 where
  pub sender : Text
  pub wasm_byte_code : Text
  pub instantiate_permission : Option AccessConfig

pub record MsgInstantiateContract : Type 0 where
  pub sender : Text
  pub admin : Text
  pub code_id : ℕ
  pub label : Text
  pub msg : Text
  pub funds : Coins

pub record MsgInstantiateContract2 : Type 0 where
  pub sender : Text
  pub admin : Text
  pub code_id : ℕ
  pub label : Text
  pub msg : Text
  pub funds : Coins
  pub salt : Text
  pub fix_msg : Bool

pub record MsgExecuteContract : Type 0 where
  pub sender : Text
  pub contract : Text
  pub msg : Text
  pub funds : Coins

pub record MsgMigrateContract : Type 0 where
  pub sender : Text
  pub contract : Text
  pub code_id : ℕ
  pub msg : Text

pub record MsgUpdateAdmin : Type 0 where
  pub sender : Text
  pub new_admin : Text
  pub contract : Text

pub record MsgClearAdmin : Type 0 where
  pub sender : Text
  pub contract : Text

pub record MsgUpdateInstantiateConfig : Type 0 where
  pub sender : Text
  pub code_id : ℕ
  pub new_instantiate_permission : Option AccessConfig

pub record MsgUpdateParams : Type 0 where
  pub authority : Text
  pub params : WasmParams

-- `MsgPinCodes` and `MsgUnpinCodes` have the same fields.
pub record MsgPinCodes : Type 0 where
  pub authority : Text
  pub code_ids : List ℕ

pub record MsgSudoContract : Type 0 where
  pub authority : Text
  pub contract : Text
  pub msg : Text

pub record MsgStoreAndInstantiateContract : Type 0 where
  pub authority : Text
  pub wasm_byte_code : Text
  pub instantiate_permission : Option AccessConfig
  pub admin : Text
  pub label : Text
  pub msg : Text
  pub funds : Coins
  pub source : Text
  pub builder : Text
  pub code_hash : Option Text

-- `MsgAddCodeUploadParamsAddresses` and `MsgRemoveCodeUploadParamsAddresses`
pub record MsgCodeUploadParamsAddresses : Type 0 where
  pub authority : Text
  pub addresses : List Text

pub record MsgStoreAndMigrateContract : Type 0 where
  pub authority : Text
  pub wasm_byte_code : Text
  pub instantiate_permission : Option AccessConfig
  pub contract : Text
  pub msg : Text

pub record MsgUpdateContractLabel : Type 0 where
  pub sender : Text
  pub new_label : Text
  pub contract : Text

pub record MsgSetGaslessContracts : Type 0 where
  pub authority : Text
  pub contracts : List Text

-- `maxCodeIDCount`
abbrev pub max_code_id_count : ℕ
max_code_id_count = 50

-- `hasDuplicates`, with the elements seen so far; `same` is `==` of the elements.
unfoldable pub is_seen : {A : Type 0} → (A → A → Bool) → List A → A → Bool
is_seen same [] a = false
is_seen same (b ∷ seen) a = if same b a then true else is_seen same seen a

unfoldable pub has_duplicates : {A : Type 0} → (A → A → Bool) → List A → List A → Bool
has_duplicates same seen [] = false
has_duplicates same seen (a ∷ rest) =
    if is_seen same seen a then true else has_duplicates same (a ∷ seen) rest

-- `validateWasmCode`
unfoldable pub validate_wasm_code : Text → ℕ → Result AccessError Unit
validate_wasm_code code max_size = do
  require (not (length code == 0)) empty
  require (leb (length code) max_size) limit

-- `validateCodeIDs`
unfoldable pub validate_code_ids : List ℕ → Result AccessError Unit
validate_code_ids ids = do
  require (not (length ids == 0)) invalid_request
  require (leb (length ids) max_code_id_count) invalid_request
  require (not (has_duplicates (λ a b. a == b) [] ids)) invalid_request

-- What else the checks ask of Go's library and of the SDK: `strings.EqualFold`, `Coins.Validate`,
-- `url.ParseRequestURI` and `reference.ParseDockerRef`.
pub record Formats : Type 0 where
  pub equal_fold : Text → Text → Bool
  pub is_valid_coins : Coins → Bool
  pub is_request_uri : Text → Bool
  pub is_docker_ref : Text → Bool

abbrev pub has_bytes : Option Text → Bool
has_bytes none = false
has_bytes (some t) = not (length t == 0)

module _ (texts : Texts) (formats : Formats) where
  abbrev pub require_bech32 : Text → Result AccessError Unit
  require_bech32 t = require (is_some (texts.from_bech32 t)) invalid_bech32

  -- `RawContractMessage.ValidateBasic`
  abbrev pub validate_payload : Text → Result AccessError Unit
  validate_payload msg = require (texts.is_json msg) invalid

  abbrev pub validate_config : AccessConfig → Result AccessError Unit
  validate_config = validate_access_config (λ t. is_some (texts.from_bech32 t)) texts.to_upper

  abbrev pub validate_optional_config : Option AccessConfig → Result AccessError Unit
  validate_optional_config none = ok tt
  validate_optional_config (some config) = validate_config config

  -- `if len(msg.Admin) != 0`
  abbrev pub validate_optional_admin : Text → Result AccessError Unit
  validate_optional_admin admin = when (not (length admin == 0)) (require_bech32 admin)

  -- `ValidateVerificationInfo`
  unfoldable pub validate_verification_info : Text → Text → Option Text → Result AccessError Unit
  validate_verification_info source builder code_hash =
      when (not (length source == 0) || (not (length builder == 0) || has_bytes code_hash)) (do
        require (not (text_eq source [])) malformed
        require (formats.is_request_uri source) malformed
        require (not (text_eq builder [])) malformed
        require (formats.is_docker_ref builder) malformed
        require (is_some code_hash) malformed)

  -- `Params.ValidateBasic`
  unfoldable pub validate_params : WasmParams → Result AccessError Unit
  validate_params p = do
    validate_access_type p.instantiate_default_permission
    validate_config p.code_upload_access

  unfoldable pub validate_store_code : MsgStoreCode → Result AccessError Unit
  validate_store_code m = do
    require_bech32 m.sender
    validate_wasm_code m.wasm_byte_code max_wasm_size
    validate_optional_config m.instantiate_permission

  unfoldable pub validate_instantiate : MsgInstantiateContract → Result AccessError Unit
  validate_instantiate m = do
    require_bech32 m.sender
    require (not (m.code_id == 0)) invalid_request
    validate_label texts m.label
    require (formats.is_valid_coins m.funds) invalid_coins
    validate_optional_admin m.admin
    validate_payload m.msg

  unfoldable pub validate_instantiate2 : MsgInstantiateContract2 → Result AccessError Unit
  validate_instantiate2 m = do
    require_bech32 m.sender
    require (not (m.code_id == 0)) invalid_request
    validate_label texts m.label
    require (formats.is_valid_coins m.funds) invalid_coins
    validate_optional_admin m.admin
    validate_payload m.msg
    validate_salt m.salt

  unfoldable pub validate_execute : MsgExecuteContract → Result AccessError Unit
  validate_execute m = do
    require_bech32 m.sender
    require_bech32 m.contract
    require (formats.is_valid_coins m.funds) invalid_coins
    validate_payload m.msg

  unfoldable pub validate_migrate : MsgMigrateContract → Result AccessError Unit
  validate_migrate m = do
    require (not (m.code_id == 0)) invalid_request
    require_bech32 m.sender
    require_bech32 m.contract
    validate_payload m.msg

  unfoldable pub validate_update_admin : MsgUpdateAdmin → Result AccessError Unit
  validate_update_admin m = do
    require_bech32 m.sender
    require_bech32 m.contract
    require_bech32 m.new_admin
    require (not (formats.equal_fold m.sender m.new_admin)) invalid

  unfoldable pub validate_clear_admin : MsgClearAdmin → Result AccessError Unit
  validate_clear_admin m = do require_bech32 m.sender; require_bech32 m.contract

  abbrev pub validate_required_config : Option AccessConfig → Result AccessError Unit
  validate_required_config none = err invalid_request
  validate_required_config (some config) = validate_config config

  unfoldable pub validate_update_instantiate_config :
      MsgUpdateInstantiateConfig → Result AccessError Unit
  validate_update_instantiate_config m = do
    require_bech32 m.sender
    require (not (m.code_id == 0)) invalid_request
    validate_required_config m.new_instantiate_permission

  unfoldable pub validate_update_params : MsgUpdateParams → Result AccessError Unit
  validate_update_params m = do require_bech32 m.authority; validate_params m.params

  unfoldable pub validate_pin_codes : MsgPinCodes → Result AccessError Unit
  validate_pin_codes m = do require_bech32 m.authority; validate_code_ids m.code_ids

  unfoldable pub validate_sudo : MsgSudoContract → Result AccessError Unit
  validate_sudo m = do require_bech32 m.authority; require_bech32 m.contract; validate_payload m.msg

  unfoldable pub validate_store_and_instantiate :
      MsgStoreAndInstantiateContract → Result AccessError Unit
  validate_store_and_instantiate m = do
    require_bech32 m.authority
    validate_label texts m.label
    require (formats.is_valid_coins m.funds) invalid_coins
    validate_optional_admin m.admin
    validate_verification_info m.source m.builder m.code_hash
    validate_payload m.msg
    validate_wasm_code m.wasm_byte_code max_wasm_size
    validate_optional_config m.instantiate_permission

  -- The check of both messages on the addresses that may upload
  unfoldable pub validate_upload_addresses : MsgCodeUploadParamsAddresses → Result AccessError Unit
  validate_upload_addresses m = do
    require_bech32 m.authority
    validate_bech32_addresses (λ t. is_some (texts.from_bech32 t)) texts.to_upper m.addresses

  unfoldable pub validate_store_and_migrate : MsgStoreAndMigrateContract → Result AccessError Unit
  validate_store_and_migrate m = do
    require_bech32 m.authority
    require_bech32 m.contract
    validate_payload m.msg
    validate_wasm_code m.wasm_byte_code max_wasm_size
    validate_optional_config m.instantiate_permission

  unfoldable pub validate_update_label : MsgUpdateContractLabel → Result AccessError Unit
  validate_update_label m = do
    require_bech32 m.sender
    validate_label texts m.new_label
    require_bech32 m.contract

  -- The loop over the addresses of `MsgSetGaslessContracts`
  unfoldable pub require_all_bech32 : List Text → Result AccessError Unit
  require_all_bech32 [] = ok tt
  require_all_bech32 (t ∷ rest) = do require_bech32 t; require_all_bech32 rest

  unfoldable pub validate_set_gasless : MsgSetGaslessContracts → Result AccessError Unit
  validate_set_gasless m = do
    require_bech32 m.authority
    require_all_bech32 m.contracts
    require (not (has_duplicates text_eq [] m.contracts)) invalid_request
