-- ===== src/Tests/Keeper.antt =====
-- The theorems on the wasm keeper at work on the small chain.
use bignftd.Base.{
  big_endian_to_uint64, read_bytes, ℕ, suc, ◌<◌, ◌≡◌, refl, ap, Text, codes, Option, none, some,
  List, [], ◌∷◌, arith, leb, if◌then◌else◌, text_eq, text_lt, strip_prefix, big_endian,
}
use bignftd.Chain.Outcome.{Result, ok, err}
use bignftd.Chain.Store.{get, set, entries}
use bignftd.Chain.Sorted.{delete, entries_of, of_length}
use bignftd.Chain.Sdk.{Addr}
use bignftd.Wasm.Gas.{
  calc_with_free_tier, event_attribute_costs, event_costs, event_loop, from_wasm_vm_gas,
  setup_contract_cost, sum_bytes, to_wasm_vm_gas, u64_mod,
}
use bignftd.Wasm.Dispatcher.{Reply, success}
use bignftd.Wasm.Policy.{
  can_instantiate_contract, propagates, submessage_policy, default_policy, can_modify_contract,
}
use bignftd.Wasm.Keys.{
  get_contract_by_code_id_secondary_index_prefix, get_contract_by_created_secondary_index_key,
  get_pinned_code_index_prefix, position_bytes, get_code_key, get_contract_code_history_element_key,
  get_contract_code_history_element_prefix, get_contract_address_key, get_contract_store_prefix,
}
use bignftd.Wasm.Contract.{add_migration, HistoryEntry, initial_history, admin_addr}
use bignftd.Wasm.Keeper.Platform.{
  Context, KeeperError, exceed_max_call_depth, exceed_max_query_stack_size,
}
use bignftd.Wasm.Keeper.Laws.{CodecLaws}
use bignftd.Wasm.Keeper.History.{
  add_to_contract_code_secondary_index, must_get_last_contract_history_entry,
  remove_from_contract_code_secondary_index, store_elements, append_to_contract_history,
  get_contract_history, history_elements,
}
use bignftd.Wasm.Keeper.History.Append.{HasHistory, numbered, append_to_contract_history-HasHistory}
use bignftd.Wasm.Keeper.Calls.{execute, sudo, reply}
use bignftd.Wasm.Keeper.Response.Isolation.{IsOutside}
use bignftd.Wasm.Keeper.Isolation.{LeavesKey, calls-LeavesKey}
use bignftd.Wasm.Keeper.Depth.{check_and_increase_call_depth, check_and_increase_query_stack_size}
use bignftd.Wasm.Keeper.Depth.Bounded.{nest, nest_lem}
use bignftd.Wasm.Keeper.Code.{get_code_info, is_pinned_code, create}
use bignftd.Wasm.Keeper.Sequence.{next_id}
use bignftd.Wasm.Keeper.Code.Fresh.{HasFreshCodes, next_code, CreateOutcome, create-CreateOutcome}
use bignftd.Wasm.Keeper.Contracts.{get_contract_info, require_modifier, must_store_contract_info}
use bignftd.Wasm.Keeper.Addresses.{classic_address_generator}
use bignftd.Wasm.Keeper.Instantiate.{instantiate}
use bignftd.Wasm.Keeper.Migrate.{
  needs_migration, call_migrate_entrypoint, persist_migration, migrate, migrate_allowed,
}
use bignftd.Wasm.Keeper.Registry.Additions.{instantiate-entry, LeavesKey-classic_address_generator}
use bignftd.Wasm.Keeper.Registry.Migrations.{HasCode, migrate-HasCode}
use bignftd.Wasm.Access.{allowed, allowed_by, lists}
use bignftd.Wasm.Keeper.Gas.{
  pay_setup, check_discount_eligibility, consume_gas, consume_runtime_gas, current_position,
  new_env, runtime_gas_for_contract,
}
use bignftd.Wasm.Events.{
  contract_sdk_event_attributes, custom_attributes, is_reserved, new_custom_events,
  new_wasm_module_event,
}
use bignftd.Wasm.Keeper.Response.{
  apply_write, apply_writes, call_vm, handle_contract_response, response_of,
}
use bignftd.Wasm.Position.{new_position}
use bignftd.Tests.Codec.{encode_contract, decode-encode_contract, decode-encode_entry}
use bignftd.Tests.Chain.{
  chain, prices, alice, bob, counter, counter_info, quiet, start_of, keeper_store,
}

pub laws : CodecLaws chain
laws = record {
  decode-encode_contract = decode-encode_contract;
  decode-encode_entry = decode-encode_entry;
}

abbrev empty_chain : Context chain
empty_chain = start_of []

abbrev start : Context chain
start = start_of keeper_store

abbrev first_entry : HistoryEntry
first_entry = initial_history counter_info (codes "{}")

no_history : HasHistory chain counter [] empty_chain
unfolding history_elements numbered entries_of entries of_length
no_history = record { sorted = tt; elements = refl }

append_to_contract_history-HasHistory_example :
    ((append_to_contract_history chain counter (first_entry ∷ []) empty_chain).0 ≡ ok tt)
    × HasHistory chain counter
        (first_entry ∷ [])
        (append_to_contract_history chain counter (first_entry ∷ []) empty_chain).1
    × (get_contract_history chain counter
          (append_to_contract_history chain counter (first_entry ∷ []) empty_chain).1
        ≡ (
          ok (first_entry ∷ []),
          (append_to_contract_history chain counter (first_entry ∷ []) empty_chain).1,
        ))
append_to_contract_history-HasHistory_example =
    append_to_contract_history-HasHistory chain laws counter [] (first_entry ∷ []) empty_chain
      (omega arith) no_history

pub quiet-LeavesKey :
    (k : Text) (addr : Addr) (port : Text) (msgs : List ℕ) (original : Option Text)
    → LeavesKey chain k (quiet addr port msgs original)
quiet-LeavesKey k addr port msgs original = record { same = λ c. refl }

bob-IsOutside : IsOutside (get_contract_store_prefix counter) (get_contract_address_key bob)
unfolding get_contract_store_prefix get_contract_address_key strip_prefix
bob-IsOutside = refl

abbrev answered : Reply
answered = record { id = 1; result = success [] [] []; payload = [] }

calls-LeavesKey_example :
    LeavesKey chain
      (get_contract_address_key bob)
      (execute chain prices quiet counter alice (codes "{}") [])
    × LeavesKey chain (get_contract_address_key bob) (sudo chain prices quiet counter (codes "{}"))
    × LeavesKey chain (get_contract_address_key bob) (reply chain prices quiet counter answered)
calls-LeavesKey_example =
    calls-LeavesKey chain prices quiet counter (get_contract_address_key bob) bob-IsOutside
      (quiet-LeavesKey (get_contract_address_key bob)) alice (codes "{}") [] answered

nest_lem_example :
    ((nest chain (check_and_increase_call_depth chain 10) 11 start).0
      ≡ (if leb 11 10 then ok tt else err exceed_max_call_depth))
    × ((nest chain (check_and_increase_query_stack_size chain 10) 11 start).0
        ≡ (if leb 11 10 then ok tt else err exceed_max_query_stack_size))
nest_lem_example = nest_lem chain 10 11 start (omega arith) refl refl

no_codes : HasFreshCodes []
unfolding get
no_codes = record { fresh = λ id h bound. refl }

numbers_left : suc (next_code []) < u64_mod
unfolding next_id get
numbers_left = omega arith

create-CreateOutcome_example :
    CreateOutcome chain alice []
      (create chain prices (some alice) (codes "code") none default_policy empty_chain)
create-CreateOutcome_example =
    create-CreateOutcome chain prices alice (codes "code") none default_policy empty_chain no_codes
      numbers_left

-- The counter is stored, and its admin is the one who created it.
pub counter_stored :
    get (get_contract_address_key counter) keeper_store ≡ some (encode_contract counter_info)
unfolding get get_code_key get_contract_address_key text_eq big_endian
counter_stored = refl

pub alice_seated : admin_addr chain.texts counter_info ≡ ok (some alice)
unfolding admin_addr text_eq
alice_seated = refl

instantiate-entry_example :
    get
      (get_contract_address_key counter)
      (instantiate chain prices quiet 1
        (some bob)
        none
        (codes "{}")
        (codes "another")
        []
        (classic_address_generator chain)
        default_policy
        start).1.kv
    ≡ some (encode_contract counter_info)
instantiate-entry_example =
    instantiate-entry chain prices quiet counter (encode_contract counter_info)
      (classic_address_generator chain) (quiet-LeavesKey (get_contract_address_key counter))
      (LeavesKey-classic_address_generator chain counter) 1 (some bob) none (codes "{}")
      (codes "another") [] default_policy start counter_stored

abbrev migrated : Context chain
migrated = (migrate chain prices quiet counter alice 2 (codes "{}") default_policy start).1

migrates :
    (migrate chain prices quiet counter alice 2 (codes "{}") default_policy start).0
    ≡ ok (some (codes "done"))
unfolding migrate migrate_allowed get_contract_info get text_eq get_code_key
    get_contract_address_key require_modifier admin_addr can_modify_contract big_endian strip_prefix
    text_lt entries_of of_length entries set must_store_contract_info append_to_contract_history
    history_elements get_contract_code_history_element_key get_contract_code_history_element_prefix
    get_contract_store_prefix get_code_info can_instantiate_contract allowed needs_migration
    call_migrate_entrypoint is_pinned_code pay_setup check_discount_eligibility big_endian_to_uint64
    read_bytes delete allowed_by lists add_migration contract_sdk_event_attributes custom_attributes
    is_reserved new_custom_events new_wasm_module_event calc_with_free_tier event_attribute_costs
    event_costs event_loop from_wasm_vm_gas setup_contract_cost sum_bytes to_wasm_vm_gas consume_gas
    consume_runtime_gas current_position new_env runtime_gas_for_contract
    add_to_contract_code_secondary_index must_get_last_contract_history_entry
    remove_from_contract_code_secondary_index store_elements persist_migration apply_write
    apply_writes call_vm handle_contract_response response_of
    get_contract_by_code_id_secondary_index_prefix get_contract_by_created_secondary_index_key
    get_pinned_code_index_prefix position_bytes propagates submessage_policy new_position
    initial_history
migrates = refl

migrate-HasCode_example :
    HasCode chain prices quiet counter 2 migrated
    × (get (get_contract_address_key bob) migrated.kv
        ≡ get (get_contract_address_key bob) keeper_store)
migrate-HasCode_example =
    migrate-HasCode chain prices quiet quiet-LeavesKey counter alice bob 2 (codes "{}")
      default_policy start migrated (some (codes "done"))
      (ap (λ (r : Result KeeperError (Option Text)). (r, migrated)) migrates) (λ e. cc e)
