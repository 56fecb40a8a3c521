-- ===== src/Tests/Server.antt =====
-- The theorems on the messages of the wasm module at work on the small chain.
use bignftd.Base.{
  arith, Text, codes, ◌≡◌, ◌≢◌, refl, ap, sym, big_endian, true, false, not, ◌&&◌, ◌||◌, none, some,
  List, [], ◌∷◌, text_eq, text_lt,
}
use bignftd.Chain.Outcome.{Result, ok}
use bignftd.Chain.Store.{get, set}
use bignftd.Chain.Sdk.{Addr}
use bignftd.Wasm.Keys.{
  get_code_key, get_contract_address_key, get_contract_code_history_element_key,
  get_contract_code_history_element_prefix,
}
use bignftd.Wasm.Policy.{can_modify_contract, is_actor}
use bignftd.Wasm.Contract.{admin_addr, validate_label}
use bignftd.Wasm.Access.{any_of_addresses, allowed, lists}
use bignftd.Wasm.Access.Validation.{validate_bech32_addresses, check_addresses}
use bignftd.Wasm.Messages.{
  Formats, MsgClearAdmin, MsgCodeUploadParamsAddresses, validate_clear_admin, validate_update_label,
  validate_upload_addresses,
}
use bignftd.Wasm.Keeper.Platform.{Context, KeeperError}
use bignftd.Wasm.Keeper.Contracts.{
  set_contract_admin, set_contract_label, get_contract_info, require_modifier,
  must_store_contract_info,
}
use bignftd.Wasm.MsgServer.{
  Governance, address, select_authorization_policy, handle_clear_admin, handle_update_label,
  add_addresses, remove_addresses, handle_add_upload_addresses, handle_remove_upload_addresses,
}
use bignftd.Wasm.MsgServer.Message.{WasmMsg, pin_codes, update_label, IsRefused, handle_message}
use bignftd.Wasm.MsgServer.Refusal.{handle_message-IsRefused}
use bignftd.Wasm.MsgServer.Ownership.{handle_message-unauthorized}
use bignftd.Wasm.MsgServer.Ownership.Final.{at_once, handled, handle_clear_admin-final}
use bignftd.Wasm.MsgServer.Uploads.{upload_addresses-allowed}
use bignftd.Tests.Factory.{first}
use bignftd.Tests.Keeper.{laws, quiet-LeavesKey, counter_stored, alice_seated}
use bignftd.Tests.Chain.{
  chain, prices, alice, bob, counter, counter_info, quiet, start_of, keeper_store,
}

abbrev pub formats : Formats
formats = record {
  equal_fold = text_eq;
  is_valid_coins = λ coins. true;
  is_request_uri = λ t. true;
  is_docker_ref = λ t. true;
}

abbrev pub gov : Governance
gov = record { authority = codes "gov"; propagated = [] }

abbrev pub start : Context chain
start = start_of keeper_store

pub bob-ne-gov : bob ≢ codes "gov"
bob-ne-gov e = omega (arith, ap first e)

gov-ne-bob : codes "gov" ≢ bob
gov-ne-bob e = omega (arith, ap first e)

handle_message-IsRefused_example : IsRefused start (
    handle_message chain formats gov prices quiet
      (pin_codes (record { authority = bob; code_ids = 1 ∷ [] }))
      start)
handle_message-IsRefused_example =
    handle_message-IsRefused chain formats gov prices quiet
      (pin_codes (record { authority = bob; code_ids = 1 ∷ [] })) bob start refl gov-ne-bob

abbrev label_by_bob : WasmMsg
label_by_bob = update_label (record { sender = bob; new_label = codes "mine"; contract = counter })

bob_is_outsider :
    (actor : Addr) → chain.texts.from_bech32 bob ≡ some actor → is_actor (some alice) actor ≡ false
unfolding text_eq
bob_is_outsider actor known = let e : bob ≡ actor = cc in rw (sym e) refl

handle_message-unauthorized_example :
    IsRefused start (handle_message chain formats gov prices quiet label_by_bob start)
handle_message-unauthorized_example =
    handle_message-unauthorized chain formats gov prices quiet laws label_by_bob counter counter
      counter_info (some alice) start refl refl counter_stored alice_seated bob_is_outsider
      bob-ne-gov refl

abbrev clear_by_alice : MsgClearAdmin
clear_by_alice = record { sender = alice; contract = counter }

abbrev cleared : Context chain
cleared = (handle_clear_admin chain formats gov clear_by_alice start).1

clears : (handle_clear_admin chain formats gov clear_by_alice start).0 ≡ ok tt
unfolding handle_clear_admin validate_clear_admin address select_authorization_policy
    set_contract_admin get_contract_info require_modifier must_store_contract_info admin_addr
    can_modify_contract get set get_code_key get_contract_address_key
    get_contract_code_history_element_key get_contract_code_history_element_prefix text_eq text_lt
    big_endian
clears = refl

same_policy : cleared.policy ≡ none
unfolding handle_clear_admin validate_clear_admin address select_authorization_policy
    set_contract_admin get_contract_info require_modifier must_store_contract_info admin_addr
    can_modify_contract get set get_code_key get_contract_address_key
    get_contract_code_history_element_key get_contract_code_history_element_prefix text_eq text_lt
    big_endian
same_policy = refl

-- Bob sends a message about the contract first.
abbrev tried : Context chain
tried = (handle_message chain formats gov prices quiet label_by_bob cleared).1

tried_policy : tried.policy ≡ none
unfolding handle_message handle_update_label validate_update_label validate_label set_contract_label
    handle_clear_admin validate_clear_admin address select_authorization_policy set_contract_admin
    get_contract_info require_modifier must_store_contract_info admin_addr can_modify_contract get
    set get_code_key get_contract_address_key get_contract_code_history_element_key
    get_contract_code_history_element_prefix text_eq text_lt big_endian
tried_policy = refl

handle_clear_admin-final_example :
    IsRefused tried (handle_message chain formats gov prices quiet label_by_bob tried)
handle_clear_admin-final_example =
    handle_clear_admin-final chain formats gov prices quiet laws clear_by_alice counter start
      cleared tried refl (quiet-LeavesKey (get_contract_address_key counter)) refl
      (ap (λ (r : Result KeeperError Unit). (r, cleared)) clears)
      (handled label_by_bob (at_once refl) same_policy bob-ne-gov refl) tried_policy label_by_bob
      counter refl refl bob-ne-gov

abbrev uploads_of : List Text → MsgCodeUploadParamsAddresses
uploads_of addresses = record { authority = codes "gov"; addresses = addresses }

abbrev listed : Context chain
listed = record start {
  params = record start.params {
    code_upload_access = record { permission = any_of_addresses; addresses = alice ∷ [] };
  };
}

abbrev with_bob : Context chain
with_bob = (handle_add_upload_addresses chain formats gov (uploads_of (bob ∷ [])) listed).1

abbrev without_alice : Context chain
without_alice =
    (handle_remove_upload_addresses chain formats gov (uploads_of (alice ∷ [])) with_bob).1

adds_bob : (handle_add_upload_addresses chain formats gov (uploads_of (bob ∷ [])) listed).0 ≡ ok tt
unfolding handle_add_upload_addresses validate_upload_addresses validate_bech32_addresses
    check_addresses add_addresses lists text_eq
adds_bob = refl

removes_alice :
    (handle_remove_upload_addresses chain formats gov (uploads_of (alice ∷ [])) with_bob).0 ≡ ok tt
unfolding handle_add_upload_addresses handle_remove_upload_addresses validate_upload_addresses
    validate_bech32_addresses check_addresses add_addresses remove_addresses lists text_eq
removes_alice = refl

upload_addresses-allowed_example :
    allowed without_alice.params.code_upload_access bob
    ≡ ok ((lists (alice ∷ []) bob || lists (bob ∷ []) bob) && not (lists (alice ∷ []) bob))
upload_addresses-allowed_example =
    upload_addresses-allowed chain formats gov (uploads_of (bob ∷ [])) (uploads_of (alice ∷ []))
      listed with_bob without_alice bob
      (ap (λ (r : Result KeeperError Unit). (r, with_bob)) adds_bob)
      (ap (λ (r : Result KeeperError Unit). (r, without_alice)) removes_alice)
