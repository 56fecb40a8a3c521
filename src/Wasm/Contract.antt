-- ===== src/Wasm/Contract.antt =====
-- x/wasm/types/types.go: codes, contracts and their histories, and the checks of their data
-- (x/wasm/types/validation.go).
use bignftd.Base.{
  ℕ, Text, Bool, true, false, not, Option, none, some, [], ◌∷◌, length, ◌==◌, leb, text_eq,
  if◌then◌else◌,
}
use bignftd.Chain.Outcome.{Result, ok, panic, fatal}
use bignftd.Chain.Checks.{◌>>◌, require, when}
use bignftd.Chain.Sdk.{Addr}
use bignftd.Wasm.Gas.{Priced}
use bignftd.Wasm.Position.{Position}
use bignftd.Wasm.Access.{AccessConfig}
use bignftd.Wasm.Access.Validation.{
  AccessError, empty, invalid, limit, invalid_bech32, validate_access_config,
}

-- `CodeInfo`
pub record CodeInfo : Type 0 where
  pub code_hash : Text
  pub creator : Text
  pub instantiate_config : AccessConfig

-- `ContractCodeHistoryOperationType`; `other` is any number that stands for none.
pub data HistoryOperation : Type 0 where
  init migrate genesis : HistoryOperation
  other : ℕ → HistoryOperation

-- `ContractCodeHistoryEntry`; a nil position is `none`.
pub record HistoryEntry : Type 0 where
  pub operation : HistoryOperation
  pub code_id : ℕ
  pub updated : Option Position
  pub msg : Text

-- `ContractInfo`; the extension is its packed bytes.
pub record ContractInfo : Type 0 where
  pub code_id : ℕ
  pub creator : Text
  pub admin : Text
  pub label : Text
  pub created : Option Position
  pub ibc_port_id : Text
  pub extension : Option Text

-- `Model`
pub record Model : Type 0 where
  pub key : Text
  pub value : Option Text

abbrev pub is_known_operation : HistoryOperation → Bool
is_known_operation (other n) = false
is_known_operation _ = true

-- `InitialHistory`
unfoldable pub initial_history : ContractInfo → Text → HistoryEntry
initial_history c msg = record {
  operation = init;
  code_id = c.code_id;
  updated = c.created;
  msg = msg;
}

-- `AddMigration`: the entry, and the contract that it changes. The position is that of the context.
unfoldable pub add_migration : ContractInfo → ℕ → Position → Text → HistoryEntry × ContractInfo
add_migration c code_id position msg = (
  record { operation = migrate; code_id = code_id; updated = some position; msg = msg },
  record c { code_id = code_id },
)

abbrev pub max_label_size : ℕ
max_label_size = 128

abbrev pub max_salt_size : ℕ
max_salt_size = 64

-- `ValidateSalt`
unfoldable pub validate_salt : Text → Result AccessError Unit
validate_salt salt = do
  require (not (length salt == 0)) empty
  require (leb (length salt) max_salt_size) limit

-- Bech32 texts and addresses are the SDK's; the upper case, the trimmed text and the printable
-- characters of a text, and whether a message is JSON, are those of Go's library.
pub record Texts : Type 0 where
  pub from_bech32 : Text → Option Addr
  pub to_bech32 : Addr → Text
  pub to_upper : Text → Text
  pub trim_space : Text → Text
  pub printable : Text → Text
  pub is_json : Text → Bool
  -- `strconv.FormatUint` and `hex.EncodeToString`
  pub show_uint : ℕ → Text
  pub to_hex : Text → Text

abbrev pub is_some : {A : Type 0} → Option A → Bool
is_some none = false
is_some (some a) = true

module _ (texts : Texts) where
  -- `NewCodeInfo`
  unfoldable pub new_code_info : Text → Addr → AccessConfig → CodeInfo
  new_code_info hash creator config = record {
    code_hash = hash;
    creator = texts.to_bech32 creator;
    instantiate_config = config;
  }

  -- `NewContractInfo`; no admin, and an empty one, is the empty text.
  abbrev pub admin_text : Option Addr → Text
  admin_text none = []
  admin_text (some []) = []
  admin_text (some (c ∷ a)) = texts.to_bech32 (c ∷ a)

  unfoldable pub new_contract_info : ℕ → Addr → Option Addr → Text → Position → ContractInfo
  new_contract_info code_id creator admin label created = record {
    code_id = code_id;
    creator = texts.to_bech32 creator;
    admin = admin_text admin;
    label = label;
    created = some created;
    ibc_port_id = [];
    extension = none;
  }

  abbrev pub parsed_admin : Option Addr → Priced (Option Addr)
  parsed_admin none = panic fatal
  parsed_admin (some a) = ok (some a)

  -- `AdminAddr`
  unfoldable pub admin_addr : ContractInfo → Priced (Option Addr)
  admin_addr c = if text_eq c.admin [] then ok none else parsed_admin (texts.from_bech32 c.admin)

  -- `ValidateLabel`
  unfoldable pub validate_label : Text → Result AccessError Unit
  validate_label label = do
    require (not (text_eq label [])) empty
    require (leb (length label) max_label_size) limit
    require (text_eq label (texts.trim_space label)) invalid
    require (text_eq label (texts.printable label)) invalid

  -- `Model.ValidateBasic`
  unfoldable pub validate_model : Model → Result AccessError Unit
  validate_model m = require (not (length m.key == 0)) empty

  -- `CodeInfo.ValidateBasic`
  unfoldable pub validate_code_info : CodeInfo → Result AccessError Unit
  validate_code_info c = do
    require (not (length c.code_hash == 0)) empty
    require (is_some (texts.from_bech32 c.creator)) invalid_bech32
    validate_access_config (λ t. is_some (texts.from_bech32 t)) texts.to_upper c.instantiate_config

  -- `ContractInfo.ValidateBasic`; the check of an extension is its own.
  unfoldable pub validate_contract_info :
      (Text → Result AccessError Unit) → ContractInfo → Result AccessError Unit
  validate_contract_info validate_extension c = do
    require (not (c.code_id == 0)) empty
    require (is_some (texts.from_bech32 c.creator)) invalid_bech32
    when (not (length c.admin == 0)) (require (is_some (texts.from_bech32 c.admin)) invalid_bech32)
    validate_label c.label
    elim c.extension [ none ↦ ok tt | some e ↦ validate_extension e ]

  -- `ContractCodeHistoryEntry.ValidateBasic`
  unfoldable pub validate_history_entry : HistoryEntry → Result AccessError Unit
  validate_history_entry e = do
    require (is_known_operation e.operation) invalid
    require (not (e.code_id == 0)) empty
    require (is_some e.updated) empty
    require (texts.is_json e.msg) invalid
