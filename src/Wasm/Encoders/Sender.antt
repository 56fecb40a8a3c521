-- ===== src/Wasm/Encoders/Sender.antt =====
-- Messages of a contract are encoded in its own name.
use bignftd.Base.{
  ◌≡◌, refl, ◌≤◌, arith, inl, inr, Bool-cases, Text, Option, none, some, List, [], All, length,
  ◌==◌, Option-cases,
}
use bignftd.Chain.Outcome.{Result, ok, err, panic}
use bignftd.Chain.Checks.{◌>>=◌, Ensures, Ensures-ok}
use bignftd.Chain.Sdk.{Addr}
use bignftd.Wasm.MsgServer.Message.{
  WasmMsg, store_code, instantiate, instantiate2, execute, migrate, update_admin, clear_admin,
  update_instantiate_config, update_label,
}
use bignftd.Wasm.Keeper.Platform.{Platform, KeeperError}
use bignftd.Wasm.CosmosMsg.{
  CosmosMsg, BankMsg, ContractMsg, GovMsg, any_msg, bank, custom, distribution, ibc, staking, wasm,
  gov, unknown_variant, send, burn, unknown_bank, set_withdraw_address, withdraw_delegator_reward,
  fund_community_pool, unknown_distribution, delegate, undelegate, redelegate, unknown_staking,
  close_channel, transfer, send_packet, write_acknowledgement, unknown_ibc, execute_contract,
  instantiate_contract, instantiate_contract2, migrate_contract, clear_contract_admin,
  update_contract_admin, unknown_wasm, cast_vote, cast_weighted, unknown_gov,
}
use bignftd.Wasm.Encoders.{
  Coding, SdkMsg, msg_send, msg_set_withdraw_address, msg_withdraw_reward, msg_fund_pool,
  msg_delegate, msg_undelegate, msg_begin_redelegate, msg_channel_close, msg_transfer, msg_wasm,
  msg_vote, msg_vote_weighted, unpacked, to_sdk_coin, to_sdk_coins, one_msg, encode_bank,
  encode_distribution, encode_staking, encode_any, encode_wasm, encode_ibc, convert_vote_option,
  convert_votes, encode_gov, default_encoders, encode,
}

-- The sender of a message that users send to the wasm module; those of the authority have none.
abbrev pub wasm_sender : WasmMsg → Option Text
wasm_sender (store_code m) = some m.sender
wasm_sender (instantiate m) = some m.sender
wasm_sender (instantiate2 m) = some m.sender
wasm_sender (execute m) = some m.sender
wasm_sender (migrate m) = some m.sender
wasm_sender (update_admin m) = some m.sender
wasm_sender (clear_admin m) = some m.sender
wasm_sender (update_instantiate_config m) = some m.sender
wasm_sender (update_label m) = some m.sender
wasm_sender _ = none

-- In whose name the message is; what a contract has packed itself may have any signer.
abbrev pub sender_of : {U : Type 0} → SdkMsg U → Option Text
sender_of (msg_send sender to_address coins) = some sender
sender_of (msg_set_withdraw_address sender t) = some sender
sender_of (msg_withdraw_reward sender t) = some sender
sender_of (msg_fund_pool sender coins) = some sender
sender_of (msg_delegate sender t coin) = some sender
sender_of (msg_undelegate sender t coin) = some sender
sender_of (msg_begin_redelegate sender t u coin) = some sender
sender_of (msg_channel_close sender port channel) = some sender
sender_of (msg_transfer sender port channel to_address coin height time memo) = some sender
sender_of (msg_wasm m) = wasm_sender m
sender_of (msg_vote sender n choice) = some sender
sender_of (msg_vote_weighted sender n choices) = some sender
sender_of (unpacked u) = none

module _ (platform : Platform) (coding : Coding platform) where
  -- A packed message is what is unpacked; any other is in the name of the contract.
  abbrev pub IsFrom : Addr → CosmosMsg → SdkMsg coding.Unpacked → Type 0
  IsFrom addr (any_msg type_url value) m =
      (u : coding.Unpacked) × (coding.unpack_any type_url value ≡ some u) × (m ≡ unpacked u)
  IsFrom addr _ m = sender_of m ≡ some (platform.texts.to_bech32 addr)

  -- At most one message, which is such a one
  abbrev pub AreFrom : Addr → CosmosMsg → List (SdkMsg coding.Unpacked) → Type 0
  AreFrom addr msg msgs = (length msgs ≤ 1) × All (IsFrom addr msg) msgs

  one_from :
      {A : Type 0} (P : SdkMsg coding.Unpacked → Type 0) (r : Result KeeperError A)
      (k : A → SdkMsg coding.Unpacked)
      → ((a : A) → P (k a))
      → Ensures (λ msgs. (length msgs ≤ 1) × All P msgs) (r >>= λ a. one_msg platform coding (k a))
  one_from P (ok a) k h = (omega arith, (h a, tt))
  one_from P (err e) k h = tt
  one_from P (panic p) k h = tt

  AreFrom-encode_bank :
      (addr : Addr) (m : BankMsg)
      → Ensures (AreFrom addr (bank m)) (encode_bank platform coding addr m)
  unfolding encode_bank
  AreFrom-encode_bank addr (send to_address amount) = elim (Bool-cases (length amount == 0)) [
    | inl e ↦ rw e (omega arith, tt)
    | inr e ↦ rw e (one_from _ (to_sdk_coins platform coding amount []) _ (λ a. refl))
  ]
  AreFrom-encode_bank addr (burn amount) = tt
  AreFrom-encode_bank addr unknown_bank = tt

  AreFrom-encode_wasm :
      (addr : Addr) (m : ContractMsg)
      → Ensures (AreFrom addr (wasm m)) (encode_wasm platform coding addr m)
  unfolding encode_wasm
  AreFrom-encode_wasm addr (execute_contract contract msg funds) =
      one_from _ (to_sdk_coins platform coding funds []) _ (λ a. refl)
  AreFrom-encode_wasm addr (instantiate_contract code_id admin label msg funds) =
      one_from _ (to_sdk_coins platform coding funds []) _ (λ a. refl)
  AreFrom-encode_wasm addr (instantiate_contract2 code_id admin label msg funds salt) =
      one_from _ (to_sdk_coins platform coding funds []) _ (λ a. refl)
  AreFrom-encode_wasm addr (migrate_contract contract code_id msg) = (omega arith, (refl, tt))
  AreFrom-encode_wasm addr (clear_contract_admin contract) = (omega arith, (refl, tt))
  AreFrom-encode_wasm addr (update_contract_admin contract admin) = (omega arith, (refl, tt))
  AreFrom-encode_wasm addr unknown_wasm = tt

  AreFrom-encode_gov :
      (addr : Addr) (m : GovMsg)
      → Ensures (AreFrom addr (gov m)) (encode_gov platform coding addr m)
  unfolding encode_gov
  AreFrom-encode_gov addr (cast_vote proposal choice) =
      one_from _ (convert_vote_option choice) _ (λ a. refl)
  AreFrom-encode_gov addr (cast_weighted proposal votes) =
      one_from _ (convert_votes platform coding votes) _ (λ a. refl)
  AreFrom-encode_gov addr unknown_gov = tt

  encode-AreFrom :
      (world : platform.World) (addr : Addr) (port : Text) (msg : CosmosMsg)
      → Ensures
          (AreFrom addr msg)
          (encode platform coding (default_encoders platform coding) world addr port msg)
  unfolding encode encode_distribution encode_staking encode_any encode_ibc
  encode-AreFrom world addr port (bank m) = AreFrom-encode_bank addr m
  encode-AreFrom world addr port (custom m) = tt
  encode-AreFrom world addr port (distribution (set_withdraw_address t)) = (omega arith, (refl, tt))
  encode-AreFrom world addr port (distribution (withdraw_delegator_reward t)) =
      (omega arith, (refl, tt))
  encode-AreFrom world addr port (distribution (fund_community_pool amount)) =
      one_from _ (to_sdk_coins platform coding amount []) _ (λ a. refl)
  encode-AreFrom world addr port (distribution unknown_distribution) = tt
  encode-AreFrom world addr port (ibc (close_channel channel)) = (omega arith, (refl, tt))
  encode-AreFrom world addr port (ibc (transfer channel to_address amount timeout memo)) =
      one_from _ (to_sdk_coin platform coding amount) _ (λ a. refl)
  encode-AreFrom world addr port (ibc (send_packet channel timeout bytes)) = tt
  encode-AreFrom world addr port (ibc (write_acknowledgement channel sequence ack)) = tt
  encode-AreFrom world addr port (ibc unknown_ibc) = tt
  encode-AreFrom world addr port (staking (delegate validator amount)) =
      one_from _ (to_sdk_coin platform coding amount) _ (λ a. refl)
  encode-AreFrom world addr port (staking (undelegate validator amount)) =
      one_from _ (to_sdk_coin platform coding amount) _ (λ a. refl)
  encode-AreFrom world addr port (staking (redelegate source target amount)) =
      one_from _ (to_sdk_coin platform coding amount) _ (λ a. refl)
  encode-AreFrom world addr port (staking unknown_staking) = tt
  encode-AreFrom world addr port (any_msg type_url value) =
      elim (Option-cases (coding.unpack_any type_url value)) [
        | inl e ↦ rw e tt
        | inr (u, e) ↦ rw e (omega arith, ((u, e, refl), tt))
      ]
  encode-AreFrom world addr port (wasm m) = AreFrom-encode_wasm addr m
  encode-AreFrom world addr port (gov m) = AreFrom-encode_gov addr m
  encode-AreFrom world addr port unknown_variant = tt

  -- The default encoders make at most one message of a message of a contract. It is in the name of
  -- the contract, or, where the contract has packed it itself, what is unpacked of its bytes.
  pub encode-IsFrom :
      (world : platform.World) (addr : Addr) (port : Text) (msg : CosmosMsg)
      (msgs : List (SdkMsg coding.Unpacked))
      → encode platform coding (default_encoders platform coding) world addr port msg ≡ ok msgs
      → AreFrom addr msg msgs
  encode-IsFrom world addr port msg msgs e =
      Ensures-ok (AreFrom addr msg) _ msgs e (encode-AreFrom world addr port msg)
