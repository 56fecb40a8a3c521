-- ===== src/Tests/Chain.antt =====
-- A small chain for the wasm keeper: a machine whose contracts write one key and return no message,
-- a meter that never ends, and a store with one code and one contract.
use bignftd.Base.{
  ℕ, ◌+◌, ◌^◌, ◌-◌, Text, codes, true, false, Option, none, some, List, [], ◌∷◌, ◌++◌, length,
}
use bignftd.Chain.Outcome.{ok, pure}
use bignftd.Chain.Sdk.{Addr, pos}
use bignftd.Chain.Store.{Store}
use bignftd.Wasm.Gas.{GasConfig, default_gas_config}
use bignftd.Wasm.Access.{AccessType}
use bignftd.Wasm.Position.{Position}
use bignftd.Wasm.Contract.{CodeInfo, ContractInfo, Texts, initial_history}
use bignftd.Wasm.Keys.{
  get_code_key, get_contract_address_key, get_contract_code_history_element_key,
}
use bignftd.Wasm.Keeper.Platform.{Platform, Context, Action, responded}
use bignftd.Tests.Codec.{
  encode_entry, decode_entry, encode_contract, decode_contract, encode_code, decode_code,
}

abbrev parse : Text → Option Addr
parse [] = none
parse (c ∷ t) = some (c ∷ t)

abbrev texts : Texts
texts = record {
  from_bech32 = parse;
  to_bech32 = λ a. a;
  to_upper = λ t. t;
  trim_space = λ t. t;
  printable = λ t. t;
  is_json = λ t. true;
  show_uint = λ n. n ∷ [];
  to_hex = λ t. t;
}

abbrev pub chain : Platform
chain = record {
  World = Unit;
  Meter = ℕ;
  Msg = ℕ;
  texts = texts;
  length_prefix = λ t. ok (length t ∷ t);
  encode_code = encode_code;
  decode_code = decode_code;
  encode_contract = encode_contract;
  decode_contract = decode_contract;
  encode_entry = encode_entry;
  decode_entry = decode_entry;
  limit = λ m. 2 ^ 64 - 1;
  consumed_to_limit = λ m. m;
  is_out_of_gas = λ m. false;
  consume = λ n m. (none, m + n);
  infinite_meter = 0;
  vm = λ call checksum addr env gas_left kv w m depth. record {
    result = responded (record {
      messages = [];
      attributes = [];
      events = [];
      response_data = some (codes "done");
    });
    gas_used = 7;
    meter = m;
    writes = (codes "count", some (1 ∷ [])) ∷ [];
  };
  vm_query = λ req checksum addr env gas_left kv w m depth. record {
    result = responded req;
    gas_used = 7;
    meter = m;
    writes = [];
  };
  analyze_code = λ checksum w.
      some (record {
        has_ibc_entry_points = false;
        migrate_version = none;
        required_capabilities = [];
      });
  store_code = λ code gas_left w. ((some code, 7), w);
  store_code_unchecked = λ code w. (some code, w);
  get_code = λ checksum w. some checksum;
  pin = λ checksum w. (true, w);
  unpin = λ checksum w. (true, w);
  gunzip = λ t. none;
  mul_floor = λ f n. n;
  module_address = λ key. codes "wasm" ++ key;
  is_valid_address = λ a. true;
  get_account = λ a w. none;
  set_new_account = λ a w. w;
  cleanup_account = λ a w. (some true, w);
  is_zero_coins = λ coins. true;
  transfer_coins = λ a b coins w. (ok tt, w);
  ensure_ibc_port = λ a w. (ok a, w);
}

abbrev pub prices : GasConfig
prices = default_gas_config

abbrev pub alice : Addr
alice = codes "alice"

abbrev pub bob : Addr
bob = codes "bob"

abbrev pub counter : Addr
counter = codes "counter"

abbrev pub created_at : Position
created_at = record { block_height = 2; tx_index = 0 }

abbrev pub counter_info : ContractInfo
counter_info = record {
  code_id = 1;
  creator = alice;
  admin = alice;
  label = codes "a counter";
  created = some created_at;
  ibc_port_id = [];
  extension = none;
}

-- What a contract's messages do: nothing.
abbrev pub quiet : Addr → Text → List ℕ → Option Text → Action chain (Option Text)
quiet addr port msgs original = pure original

abbrev pub start_of : Store → Context chain
start_of kv = record {
  kv = kv;
  world = tt;
  meter = 0;
  events = [];
  block = record {
    height = pos 3;
    time = pos 1;
    chain_id = codes "chain";
    gas = none;
    tx_counter = none;
  };
  params = record {
    code_upload_access = record { permission = AccessType.everybody; addresses = [] };
    instantiate_default_permission = AccessType.everybody;
  };
  policy = none;
  tx_contracts = none;
  query_stack_size = none;
  call_depth = none;
}

-- Two codes, and the counter, whose history is its creation.
abbrev pub code_info : Text → CodeInfo
code_info hash = record {
  code_hash = hash;
  creator = alice;
  instantiate_config = record { permission = AccessType.everybody; addresses = [] };
}

abbrev pub keeper_store : Store
keeper_store =
    (get_code_key 1, encode_code (code_info (codes "hash 1")))
    ∷ (get_code_key 2, encode_code (code_info (codes "hash 2")))
    ∷ (get_contract_address_key counter, encode_contract counter_info)
    ∷ (
      get_contract_code_history_element_key counter 1,
      encode_entry (initial_history counter_info []),
    )
    ∷ []
