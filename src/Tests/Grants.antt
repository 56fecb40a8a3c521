-- ===== src/Tests/Grants.antt =====
-- The theorems on grants at work, with coins of one denom.
use bignftd.Base.{
  ℕ, ◌+◌, ◌-◌, ◌≤◌, Text, codes, ◌≡◌, ◌≢◌, refl, ap, true, false, ◌==◌, leb, leb→le, ==_iff,
  Bool-cases, inl, inr, none, some, [], ◌∷◌, text_eq, strip_prefix, if◌then◌else◌, arith,
}
use bignftd.Chain.Outcome.{ok, panic, fatal}
use bignftd.Chain.Sdk.{pos, negsuc, Coins}
use bignftd.Wasm.Gas.{Priced}
use bignftd.Wasm.Access.{AccessType, AccessConfig, is_subset, is_subset_of, is_subset_type}
use bignftd.Wasm.Archive.{is_gzip}
use bignftd.Wasm.Messages.{MsgStoreCode, validate_execute}
use bignftd.Wasm.Grants.{
  GrantFormats, Limit, max_calls, max_funds, allow_all, ContractGrant, get_limit, get_filter,
  accept_limit, with_new_limits, validate_grants, validate_each_grant, validate_contract_grant,
  validate_limit, validate_filter,
}
use bignftd.Wasm.Grants.Accept.{
  AuthzMsg, execute_msg, store_msg, WasmCall, execution, ContractAuthorization, AcceptResponse,
  unwrap, accept_granted_message, accept_grants, try_grant, accept_filter, settle_grant,
}
use bignftd.Wasm.Grants.Accept.Match.{HasUse, accept_granted_message-HasUse}
use bignftd.Wasm.Grants.Accept.Budget.{Uses, done, step, budget, total_cost}
use bignftd.Wasm.Grants.Accept.Calls.{calls, Uses-calls}
use bignftd.Wasm.Grants.Accept.Funds.{CoinLaws, funds, Uses-funds}
use bignftd.Wasm.Grants.Code.{CodeGrant, accept_code, accept_codes, accept_store_code}
use bignftd.Wasm.Grants.Code.Authority.{IsGranted, code_in, accept_store_code-IsGranted}
use bignftd.Wasm.Grants.Accept.ValidLimits.{ValidCoinLaws}
use bignftd.Wasm.Grants.Accept.Progress.{Accepts}
use bignftd.Wasm.Grants.Accept.Passing.{Fits, accept_granted_message-Accepts}
use bignftd.Tests.Chain.{chain, prices, alice, counter}
use bignftd.Tests.Server.{formats}

abbrev amount : Coins → ℕ
amount [] = 0
amount (c ∷ coins) = elim c.amount [ pos n ↦ n | negsuc n ↦ 0 ]

abbrev gold : ℕ → Coins
gold n = record { denom = codes "gold"; amount = pos n } ∷ []

abbrev less_by : Coins → Coins → Priced Coins
less_by whole part =
    if leb (amount part) (amount whole) then ok (gold (amount whole - amount part)) else panic fatal

abbrev coins : GrantFormats
coins = record {
  is_empty = λ c. amount c == 0;
  is_all_lte = λ part whole. leb (amount part) (amount whole);
  sub_coins = less_by;
  is_zero_coins = λ c. amount c == 0;
  new_coins = λ c. ok c;
  top_level_keys = λ t. some (t ∷ []);
  create_checksum = λ code. some code;
  to_lower = λ t. t;
}

less_by-amount :
    (whole part left : Coins)
    → less_by whole part ≡ ok left
    → amount left + amount part ≡ amount whole
less_by-amount whole part left h = elim (Bool-cases (leb (amount part) (amount whole))) [
  | inr no_ ↦ let h' = (rw no_ at h) in cc
  | inl yes_ ↦
      let h' = (rw yes_ at h) in
      let e : gold (amount whole - amount part) ≡ left = cc in
      omega (arith, ap amount e, leb→le (amount part) (amount whole) yes_)
]

coin_laws : CoinLaws coins
coin_laws = record {
  amount_of = λ d. amount;
  amount-empty = λ d c h. (==_iff (amount c) 0).0 h;
  amount-lte = λ d part whole h. leb→le (amount part) (amount whole) h;
  amount-sub = λ d whole part left. less_by-amount whole part left;
  amount-new = λ d c sorted h. let e : c ≡ sorted = cc in rw e refl;
}

abbrev grant_of : Limit → ContractGrant
grant_of l = record { contract = counter; limit = some l; filter = some allow_all }

abbrev count_with : ℕ → AuthzMsg
count_with n =
    execute_msg (record { sender = alice; contract = counter; msg = codes "{}"; funds = gold n })

-- Two calls at most
abbrev by_calls : ContractAuthorization
by_calls = record { operation = execution; grants = grant_of (max_calls 2) ∷ [] }

abbrev one_call_left : AcceptResponse
one_call_left = record {
  accept = true;
  delete = false;
  updated = some (record { operation = execution; grants = grant_of (max_calls 1) ∷ [] });
}

accepts_a_call :
    accept_granted_message chain formats coins by_calls (count_with 0) 0 ≡ (ok one_call_left, 0)
unfolding accept_granted_message unwrap accept_grants try_grant get_limit get_filter accept_limit
    accept_filter settle_grant with_new_limits validate_grants validate_each_grant
    validate_contract_grant validate_limit validate_filter validate_execute text_eq
accepts_a_call = refl

accept_granted_message-HasUse_example :
    (call : WasmCall) × (unwrap chain formats coins execution (count_with 0) ≡ some call)
    × (call.check ≡ ok tt)
    × HasUse chain formats coins execution (grant_of (max_calls 2) ∷ []) call one_call_left
accept_granted_message-HasUse_example =
    accept_granted_message-HasUse chain formats coins by_calls (count_with 0) one_call_left 0 0
      accepts_a_call refl

abbrev last_call : AcceptResponse
last_call = record { accept = true; delete = true; updated = none }

accepts_the_last_call :
    accept_granted_message chain formats coins
      (record { operation = execution; grants = grant_of (max_calls 1) ∷ [] })
      (count_with 0)
      0
    ≡ (ok last_call, 0)
unfolding accept_granted_message unwrap accept_grants try_grant get_limit get_filter accept_limit
    accept_filter settle_grant validate_execute text_eq
accepts_the_last_call = refl

two_calls :
    Uses chain formats coins execution
      (grant_of (max_calls 2) ∷ [])
      (count_with 0 ∷ count_with 0 ∷ [])
      []
two_calls =
    step _ (count_with 0) one_call_left 0 0 _ _ accepts_a_call refl
      (step _ (count_with 0) last_call 0 0 _ _ accepts_the_last_call refl (done []))

Uses-calls_example :
    total_cost chain formats coins
        (calls chain formats coins)
        counter
        execution
        (count_with 0 ∷ count_with 0 ∷ [])
      + budget chain formats coins (calls chain formats coins) counter []
    ≤ budget chain formats coins (calls chain formats coins) counter (grant_of (max_calls 2) ∷ [])
unfolding get_limit
Uses-calls_example =
    Uses-calls chain formats coins counter execution (grant_of (max_calls 2) ∷ [])
      (count_with 0 ∷ count_with 0 ∷ []) [] two_calls (λ _. tt, tt)

abbrev two_coins_left : AcceptResponse
two_coins_left = record {
  accept = true;
  delete = false;
  updated = some (record { operation = execution; grants = grant_of (max_funds (gold 2)) ∷ [] });
}

accepts_three_coins :
    accept_granted_message chain formats coins
      (record { operation = execution; grants = grant_of (max_funds (gold 5)) ∷ [] })
      (count_with 3)
      0
    ≡ (ok two_coins_left, 0)
unfolding accept_granted_message unwrap accept_grants try_grant get_limit get_filter accept_limit
    accept_filter settle_grant with_new_limits validate_grants validate_each_grant
    validate_contract_grant validate_limit validate_filter validate_execute text_eq
accepts_three_coins = refl

three_coins :
    Uses chain formats coins execution
      (grant_of (max_funds (gold 5)) ∷ [])
      (count_with 3 ∷ [])
      (grant_of (max_funds (gold 2)) ∷ [])
three_coins =
    step _ (count_with 3) two_coins_left 0 0 _ _ accepts_three_coins refl
      (done (grant_of (max_funds (gold 2)) ∷ []))

Uses-funds_example :
    total_cost chain formats coins
        (funds chain formats coins coin_laws (codes "gold"))
        counter
        execution
        (count_with 3 ∷ [])
      + budget chain formats coins
          (funds chain formats coins coin_laws (codes "gold"))
          counter
          (grant_of (max_funds (gold 2)) ∷ [])
    ≤ budget chain formats coins
        (funds chain formats coins coin_laws (codes "gold"))
        counter
        (grant_of (max_funds (gold 5)) ∷ [])
Uses-funds_example =
    Uses-funds chain formats coins coin_laws (codes "gold") counter execution
      (grant_of (max_funds (gold 5)) ∷ []) (count_with 3 ∷ []) (grant_of (max_funds (gold 2)) ∷ [])
      three_coins

abbrev anybody : AccessConfig
anybody = record { permission = AccessType.everybody; addresses = [] }

abbrev code_grant : CodeGrant
code_grant = record { code_hash = codes "wasm"; instantiate_permission = some anybody }

abbrev stored_code : MsgStoreCode
stored_code = record {
  sender = alice;
  wasm_byte_code = codes "wasm";
  instantiate_permission = some anybody;
}

accepts_the_code :
    accept_store_code chain formats coins (some prices) (code_grant ∷ []) (store_msg stored_code) 0
    ≡ (ok (record { accept = true; delete = false; updated = none }), 0)
unfolding accept_store_code accept_codes accept_code is_gzip strip_prefix text_eq is_subset
    is_subset_of is_subset_type
accepts_the_code = refl

accept_store_code-IsGranted_example :
    (code checksum : Text) × (code_in chain formats coins (codes "wasm") ≡ some code)
    × (some code ≡ some checksum)
    × IsGranted chain formats coins (code_grant ∷ []) checksum (some anybody)
accept_store_code-IsGranted_example =
    accept_store_code-IsGranted chain formats coins (some prices) (code_grant ∷ []) stored_code
      (record { accept = true; delete = false; updated = none }) 0 0 accepts_the_code refl

valid_coins : ValidCoinLaws formats coins
valid_coins = record {
  valid-sub = λ whole part left valid sub. refl;
  valid-new = λ c sorted h. refl;
  zero-new = λ c sorted h. let e : c ≡ sorted = cc in rw e refl;
}

abbrev counted : WasmCall
counted = record { contract = counter; payload = codes "{}"; funds = gold 0; check = ok tt }

by_calls_is_valid : validate_grants chain.texts formats coins by_calls.grants ≡ ok tt
unfolding validate_grants validate_each_grant validate_contract_grant validate_limit validate_filter
    get_limit get_filter
by_calls_is_valid = refl

is_counted : unwrap chain formats coins execution (count_with 0) ≡ some counted
unfolding unwrap validate_execute
is_counted = refl

fits : Fits chain formats coins valid_coins (grant_of (max_calls 2)) counted 0 0
unfolding accept_limit accept_filter get_limit get_filter
fits = record {
  result = record { accepted = true; delete_limit = false; update_limit = some (max_calls 1) };
  same_contract = refl;
  within_limit = refl;
  is_accepted = refl;
  passes_filter = refl;
}

accept_granted_message-Accepts_example :
    Accepts chain formats coins valid_coins
      (accept_granted_message chain formats coins by_calls (count_with 0) 0)
      0
accept_granted_message-Accepts_example =
    accept_granted_message-Accepts chain formats coins valid_coins by_calls (count_with 0) counted
      [] (grant_of (max_calls 2)) [] 0 0 refl by_calls_is_valid is_counted has_payload refl tt fits
  where
    has_payload : codes "{}" ≢ []
    has_payload e = cc
