-- ===== src/Wasm/CosmosMsg.antt =====
-- The messages that contracts send, as wasmvm has them; x/wasm/keeper/handler_plugin_encoders.go
-- and handler_plugin.go tell the variants apart.
use bignftd.Base.{ℕ, Text, Option, List}

-- `wasmvmtypes.Coin`
pub record WasmCoin : Type 0 where
  pub coin_denom : Text
  pub coin_amount : Text

-- `wasmvmtypes.IBCTimeout`: the block, its revision and height, if any, and the time
pub record Timeout : Type 0 where
  pub block : Option (ℕ × ℕ)
  pub timestamp : ℕ

-- The messages of wasmvm. Each variant that is not set, or not known, is `unknown_…`.
pub data BankMsg : Type 0 where
  send : Text → List WasmCoin → BankMsg
  burn : List WasmCoin → BankMsg
  unknown_bank : BankMsg

pub data DistributionMsg : Type 0 where
  set_withdraw_address withdraw_delegator_reward : Text → DistributionMsg
  fund_community_pool : List WasmCoin → DistributionMsg
  unknown_distribution : DistributionMsg

pub data StakingMsg : Type 0 where
  delegate undelegate : Text → WasmCoin → StakingMsg
  -- from the first validator to the second
  redelegate : Text → Text → WasmCoin → StakingMsg
  unknown_staking : StakingMsg

pub data IbcMsg : Type 0 where
  close_channel : Text → IbcMsg
  -- channel, receiver, amount, timeout and memo
  transfer : Text → Text → WasmCoin → Timeout → Text → IbcMsg
  -- channel, timeout and bytes
  send_packet : Text → Timeout → Text → IbcMsg
  -- channel, sequence and bytes
  write_acknowledgement : Text → ℕ → Text → IbcMsg
  unknown_ibc : IbcMsg

-- Contract or code first, then admin, label, message, funds and salt as far as there are.
pub data ContractMsg : Type 0 where
  execute_contract : Text → Text → List WasmCoin → ContractMsg
  instantiate_contract : ℕ → Text → Text → Text → List WasmCoin → ContractMsg
  instantiate_contract2 : ℕ → Text → Text → Text → List WasmCoin → Text → ContractMsg
  migrate_contract : Text → ℕ → Text → ContractMsg
  clear_contract_admin : Text → ContractMsg
  update_contract_admin : Text → Text → ContractMsg
  unknown_wasm : ContractMsg

pub data VoteOption : Type 0 where
  vote_yes vote_no vote_veto vote_abstain vote_unset : VoteOption

pub record WeightedVote : Type 0 where
  pub vote : VoteOption
  pub weight : Text

pub data GovMsg : Type 0 where
  cast_vote : ℕ → VoteOption → GovMsg
  cast_weighted : ℕ → List WeightedVote → GovMsg
  unknown_gov : GovMsg

-- `wasmvmtypes.CosmosMsg`
pub data CosmosMsg : Type 0 where
  bank : BankMsg → CosmosMsg
  custom : Text → CosmosMsg
  distribution : DistributionMsg → CosmosMsg
  ibc : IbcMsg → CosmosMsg
  staking : StakingMsg → CosmosMsg
  any_msg : Text → Text → CosmosMsg
  wasm : ContractMsg → CosmosMsg
  gov : GovMsg → CosmosMsg
  unknown_variant : CosmosMsg
