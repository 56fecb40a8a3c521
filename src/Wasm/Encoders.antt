-- ===== src/Wasm/Encoders.antt =====
-- x/wasm/keeper/handler_plugin_encoders.go: what contracts send, as messages of the SDK.
pub mod Sender
use bignftd.Base.{
  ℕ, Text, codes, false, Option, none, some, List, [], ◌∷◌, ◌++◌, length, ◌==◌, if◌then◌else◌,
}
use bignftd.Chain.Outcome.{ok, err}
use bignftd.Chain.Checks.{◌>>=◌, or_raise}
use bignftd.Chain.Sdk.{Addr, ℤ, Coin, Coins}
use bignftd.Wasm.Access.Validation.{invalid_coins, malformed}
use bignftd.Wasm.MsgServer.Message.{
  WasmMsg, execute, instantiate, instantiate2, migrate, clear_admin, update_admin,
}
use bignftd.Wasm.Keeper.Platform.{Platform, KeeperReply, invalid, unknown_msg, invalid_message}
use bignftd.Wasm.CosmosMsg.{
  WasmCoin, Timeout, BankMsg, send, burn, unknown_bank, DistributionMsg, set_withdraw_address,
  withdraw_delegator_reward, fund_community_pool, unknown_distribution, StakingMsg, delegate,
  undelegate, redelegate, unknown_staking, IbcMsg, close_channel, transfer, send_packet,
  write_acknowledgement, unknown_ibc, ContractMsg, execute_contract, instantiate_contract,
  instantiate_contract2, migrate_contract, clear_contract_admin, update_contract_admin,
  unknown_wasm, VoteOption, vote_yes, vote_no, vote_veto, vote_abstain, vote_unset, WeightedVote,
  GovMsg, cast_vote, cast_weighted, unknown_gov, CosmosMsg, bank, custom, distribution, ibc,
  staking, any_msg, wasm, gov, unknown_variant,
}

-- `v1.VoteOption`
pub data GovOption : Type 0 where
  option_yes option_no option_no_with_veto option_abstain : GovOption

-- The messages of the SDK that are made of them, with the sender first; `Unpacked` are those that a
-- contract packs itself.
pub data SdkMsg (Unpacked : Type 0) : Type 0 where
  msg_send : Text → Text → Coins → SdkMsg Unpacked
  msg_set_withdraw_address msg_withdraw_reward : Text → Text → SdkMsg Unpacked
  msg_fund_pool : Text → Coins → SdkMsg Unpacked
  msg_delegate msg_undelegate : Text → Text → Coin → SdkMsg Unpacked
  msg_begin_redelegate : Text → Text → Text → Coin → SdkMsg Unpacked
  -- the signer, the port and the channel
  msg_channel_close : Text → Text → Text → SdkMsg Unpacked
  -- port, channel, receiver, token, the height and time of the timeout, and memo
  msg_transfer : Text → Text → Text → Text → Coin → ℕ × ℕ → ℕ → Text → SdkMsg Unpacked
  msg_wasm : WasmMsg → SdkMsg Unpacked
  msg_vote : Text → ℕ → GovOption → SdkMsg Unpacked
  msg_vote_weighted : Text → ℕ → List (GovOption × Text) → SdkMsg Unpacked
  unpacked : Unpacked → SdkMsg Unpacked

-- What the encoders ask of the SDK: `sdkmath.NewIntFromString`, `Coin.Validate`, `Coins.Add`,
-- `Coins.Sort`, the text of a decimal that is read, `UnpackAny`, and the port
-- of transfers, which is stored.
pub record Coding (platform : Platform) : Type 1 where
  pub Unpacked : Type 0
  pub parse_int : Text → Option ℤ
  pub validate_coin : Coin → KeeperReply Unit
  pub add_coin : Coins → Coin → Coins
  pub sort_coins : Coins → Coins
  pub parse_weight : Text → KeeperReply Text
  pub unpack_any : Text → Text → Option Unpacked
  pub transfer_port : platform.World → Text

-- `ConvertWasmIBCTimeoutHeightToCosmosHeight`: revision and height
abbrev pub timeout_height : Option (ℕ × ℕ) → ℕ × ℕ
timeout_height none = (0, 0)
timeout_height (some block) = block

-- `convertVoteOption`
abbrev pub convert_vote_option : VoteOption → KeeperReply GovOption
convert_vote_option vote_yes = ok option_yes
convert_vote_option vote_no = ok option_no
convert_vote_option vote_veto = ok option_no_with_veto
convert_vote_option vote_abstain = ok option_abstain
convert_vote_option vote_unset = err invalid

module _ (platform : Platform) (coding : Coding platform) where
  abbrev pub Encoded : Type 0
  Encoded = KeeperReply (List (SdkMsg coding.Unpacked))

  -- `MessageEncoders`
  pub record MessageEncoders : Type 0 where
    pub on_bank : Addr → BankMsg → Encoded
    pub on_custom : Addr → Text → Encoded
    pub on_distribution : Addr → DistributionMsg → Encoded
    pub on_ibc : platform.World → Addr → Text → IbcMsg → Encoded
    pub on_staking : Addr → StakingMsg → Encoded
    pub on_any : Addr → Text → Text → Encoded
    pub on_wasm : Addr → ContractMsg → Encoded
    pub on_gov : Addr → GovMsg → Encoded

  -- `MessageEncoders`, whose fields may be nil
  pub record CustomEncoders : Type 0 where
    pub my_bank : Option (Addr → BankMsg → Encoded)
    pub my_custom : Option (Addr → Text → Encoded)
    pub my_distribution : Option (Addr → DistributionMsg → Encoded)
    pub my_ibc : Option (platform.World → Addr → Text → IbcMsg → Encoded)
    pub my_staking : Option (Addr → StakingMsg → Encoded)
    pub my_any : Option (Addr → Text → Text → Encoded)
    pub my_wasm : Option (Addr → ContractMsg → Encoded)
    pub my_gov : Option (Addr → GovMsg → Encoded)

  -- `ConvertWasmCoinToSdkCoin`
  unfoldable pub to_sdk_coin : WasmCoin → KeeperReply Coin
  to_sdk_coin coin = do
    n ← or_raise (coding.parse_int coin.coin_amount) (invalid_message invalid_coins)
    u ← coding.validate_coin (record { denom = coin.coin_denom; amount = n })
    ok (record { denom = coin.coin_denom; amount = n })

  -- The loop of `ConvertWasmCoinsToSdkCoins`
  unfoldable pub to_sdk_coins : List WasmCoin → Coins → KeeperReply Coins
  to_sdk_coins [] sum = ok (coding.sort_coins sum)
  to_sdk_coins (coin ∷ coins) sum =
      to_sdk_coin coin >>= λ c. to_sdk_coins coins (coding.add_coin sum c)

  abbrev pub one_msg : SdkMsg coding.Unpacked → Encoded
  one_msg m = ok (m ∷ [])

  -- `EncodeBankMsg`
  unfoldable pub encode_bank : Addr → BankMsg → Encoded
  encode_bank sender (send to_address amount) = if length amount == 0 then ok [] else do
    to_send ← to_sdk_coins amount []
    one_msg (msg_send (platform.texts.to_bech32 sender) to_address to_send)
  encode_bank sender _ = err unknown_msg

  -- `NoCustomMsg`
  abbrev pub no_custom_msg : Addr → Text → Encoded
  no_custom_msg sender msg = err unknown_msg

  -- `EncodeDistributionMsg`
  unfoldable pub encode_distribution : Addr → DistributionMsg → Encoded
  encode_distribution sender (set_withdraw_address address) =
      one_msg (msg_set_withdraw_address (platform.texts.to_bech32 sender) address)
  encode_distribution sender (withdraw_delegator_reward validator) =
      one_msg (msg_withdraw_reward (platform.texts.to_bech32 sender) validator)
  encode_distribution sender (fund_community_pool amount) = do
    coins ← to_sdk_coins amount []
    one_msg (msg_fund_pool (platform.texts.to_bech32 sender) coins)
  encode_distribution sender unknown_distribution = err unknown_msg

  -- `EncodeStakingMsg`
  unfoldable pub encode_staking : Addr → StakingMsg → Encoded
  encode_staking sender (delegate validator amount) = do
    coin ← to_sdk_coin amount
    one_msg (msg_delegate (platform.texts.to_bech32 sender) validator coin)
  encode_staking sender (redelegate source target amount) = do
    coin ← to_sdk_coin amount
    one_msg (msg_begin_redelegate (platform.texts.to_bech32 sender) source target coin)
  encode_staking sender (undelegate validator amount) = do
    coin ← to_sdk_coin amount
    one_msg (msg_undelegate (platform.texts.to_bech32 sender) validator coin)
  encode_staking sender unknown_staking = err unknown_msg

  -- `EncodeAnyMsg`
  unfoldable pub encode_any : Addr → Text → Text → Encoded
  encode_any sender type_url value = do
    m ← or_raise (coding.unpack_any type_url value) (invalid_message malformed)
    one_msg (unpacked m)

  -- `EncodeWasmMsg`
  unfoldable pub encode_wasm : Addr → ContractMsg → Encoded
  encode_wasm sender (execute_contract contract msg funds) = do
    coins ← to_sdk_coins funds []
    one_msg (
        msg_wasm (
          execute (record {
            sender = platform.texts.to_bech32 sender;
            contract = contract;
            msg = msg;
            funds = coins;
          })))
  encode_wasm sender (instantiate_contract code_id admin label msg funds) = do
    coins ← to_sdk_coins funds []
    one_msg (
        msg_wasm (
          instantiate (record {
            sender = platform.texts.to_bech32 sender;
            admin = admin;
            code_id = code_id;
            label = label;
            msg = msg;
            funds = coins;
          })))
  encode_wasm sender (instantiate_contract2 code_id admin label msg funds salt) = do
    coins ← to_sdk_coins funds []
    one_msg (
        msg_wasm (
          instantiate2 (record {
            sender = platform.texts.to_bech32 sender;
            admin = admin;
            code_id = code_id;
            label = label;
            msg = msg;
            funds = coins;
            salt = salt;
            fix_msg = false;
          })))
  encode_wasm sender (migrate_contract contract code_id msg) = one_msg (
      msg_wasm (
        migrate (record {
          sender = platform.texts.to_bech32 sender;
          contract = contract;
          code_id = code_id;
          msg = msg;
        })))
  encode_wasm sender (clear_contract_admin contract) = one_msg (
      msg_wasm
        (clear_admin (record { sender = platform.texts.to_bech32 sender; contract = contract })))
  encode_wasm sender (update_contract_admin contract admin) = one_msg (
      msg_wasm (
        update_admin (record {
          sender = platform.texts.to_bech32 sender;
          new_admin = admin;
          contract = contract;
        })))
  encode_wasm sender unknown_wasm = err unknown_msg

  -- `EncodeIBCMsg`; `PortIDForContract` gives the port of a contract.
  unfoldable pub port_id_for_contract : Addr → Text
  port_id_for_contract addr = codes "wasm." ++ platform.texts.to_bech32 addr

  unfoldable pub encode_ibc : platform.World → Addr → Text → IbcMsg → Encoded
  encode_ibc world sender port (close_channel channel) =
      one_msg
        (msg_channel_close (platform.texts.to_bech32 sender) (port_id_for_contract sender) channel)
  encode_ibc world sender port (transfer channel to_address amount timeout memo) = do
    coin ← to_sdk_coin amount
    one_msg (
        msg_transfer (platform.texts.to_bech32 sender) (coding.transfer_port world) channel
          to_address coin (timeout_height timeout.block) timeout.timestamp memo)
  encode_ibc world sender port _ = err unknown_msg

  -- The loop over the options of `EncodeGovMsg`
  unfoldable pub convert_votes : List WeightedVote → KeeperReply (List (GovOption × Text))
  convert_votes [] = ok []
  convert_votes (v ∷ votes) = do
    weight ← coding.parse_weight v.weight
    option ← convert_vote_option v.vote
    rest ← convert_votes votes
    ok ((option, weight) ∷ rest)

  -- `EncodeGovMsg`
  unfoldable pub encode_gov : Addr → GovMsg → Encoded
  encode_gov sender (cast_vote proposal choice) = do
    option ← convert_vote_option choice
    one_msg (msg_vote (platform.texts.to_bech32 sender) proposal option)
  encode_gov sender (cast_weighted proposal votes) = do
    options ← convert_votes votes
    one_msg (msg_vote_weighted (platform.texts.to_bech32 sender) proposal options)
  encode_gov sender unknown_gov = err unknown_msg

  -- `DefaultEncoders`
  abbrev pub default_encoders : MessageEncoders
  default_encoders = record {
    on_bank = encode_bank;
    on_custom = no_custom_msg;
    on_distribution = encode_distribution;
    on_ibc = encode_ibc;
    on_staking = encode_staking;
    on_any = encode_any;
    on_wasm = encode_wasm;
    on_gov = encode_gov;
  }

  -- `if o.Bank != nil { e.Bank = o.Bank }`
  abbrev pub or_else : {A : Type 0} → Option A → A → A
  or_else none a = a
  or_else (some b) a = b

  -- `MessageEncoders.Merge`
  unfoldable pub merge : MessageEncoders → CustomEncoders → MessageEncoders
  merge e o = record {
    on_bank = or_else o.my_bank e.on_bank;
    on_custom = or_else o.my_custom e.on_custom;
    on_distribution = or_else o.my_distribution e.on_distribution;
    on_ibc = or_else o.my_ibc e.on_ibc;
    on_staking = or_else o.my_staking e.on_staking;
    on_any = or_else o.my_any e.on_any;
    on_wasm = or_else o.my_wasm e.on_wasm;
    on_gov = or_else o.my_gov e.on_gov;
  }

  -- `MessageEncoders.Encode`; a message of governance is encoded by `EncodeGovMsg`, whatever the
  -- encoders are.
  unfoldable pub encode : MessageEncoders → platform.World → Addr → Text → CosmosMsg → Encoded
  encode e world addr port (bank m) = e.on_bank addr m
  encode e world addr port (custom m) = e.on_custom addr m
  encode e world addr port (distribution m) = e.on_distribution addr m
  encode e world addr port (ibc m) = e.on_ibc world addr port m
  encode e world addr port (staking m) = e.on_staking addr m
  encode e world addr port (any_msg type_url value) = e.on_any addr type_url value
  encode e world addr port (wasm m) = e.on_wasm addr m
  encode e world addr port (gov m) = encode_gov addr m
  encode e world addr port unknown_variant = err unknown_msg
