-- ===== src/Wasm/Keeper/Response/Isolation.antt =====
-- The machine writes to the store of its contract only (x/wasm/keeper/keeper.go).
use bignftd.Base.{
  ◌≡◌, ◌≢◌, refl, sym, ap, ◌∙◌, Text, Option, none, some, List, [], ◌∷◌, ◌++◌, strip_prefix,
  strip_prefix-append,
}
use bignftd.Chain.Keeps.{Keeps}
use bignftd.Chain.Store.{Store, get, get-set_ne}
use bignftd.Chain.Sorted.{get-delete_ne}
use bignftd.Chain.Sdk.{Addr}
use bignftd.Wasm.Gas.{GasConfig}
use bignftd.Wasm.Keys.{get_contract_store_prefix}
use bignftd.Wasm.Keeper.Platform.{Platform, VmCall, VmOutcome}
use bignftd.Wasm.Keeper.Response.{apply_write, apply_writes, after_machine, call_vm}
use bignftd.Wasm.Keeper.Keeping.{
  OnKv, kv_rules, Keeps-new_env, Keeps-runtime_gas_for_contract, Keeps-consume_runtime_gas,
}

-- The key is not one below the prefix.
abbrev pub IsOutside : Text → Text → Type 0
IsOutside prefix k = strip_prefix prefix k ≡ none

IsOutside-ne : (prefix k x : Text) → IsOutside prefix k → prefix ++ x ≢ k
IsOutside-ne prefix k x h e =
    cc (h, sym (strip_prefix-append prefix x) ∙ ap (strip_prefix prefix) e)

pub get-apply_write :
    (prefix k : Text) (w : Text × Option Text) (m : Store)
    → IsOutside prefix k
    → get k (apply_write prefix w m) ≡ get k m
unfolding apply_write
get-apply_write prefix k (key, none) m h =
    get-delete_ne (prefix ++ key) k m (IsOutside-ne prefix k key h)
get-apply_write prefix k (key, some v) m h =
    get-set_ne (prefix ++ key) k v m (IsOutside-ne prefix k key h)

pub get-apply_writes :
    (prefix k : Text) (writes : List (Text × Option Text)) (m : Store)
    → IsOutside prefix k
    → get k (apply_writes prefix writes m) ≡ get k m
unfolding apply_writes
get-apply_writes prefix k [] m h = refl
get-apply_writes prefix k (w ∷ writes) m h =
    get-apply_writes prefix k writes (apply_write prefix w m) h ∙ get-apply_write prefix k w m h

-- The predicate is one that no write below the contract's prefix touches.
pub record IsForeign (addr : Addr) (P : Store → Type 0) : Type 0 where
  pub stays :
      (writes : List (Text × Option Text)) (m : Store)
      → P m
      → P (apply_writes (get_contract_store_prefix addr) writes m)

pub IsForeign-get :
    (addr : Addr) (k : Text) (v : Option Text)
    → IsOutside (get_contract_store_prefix addr) k
    → IsForeign addr (λ m. get k m ≡ v)
IsForeign-get addr k v h = record {
  stays = λ writes m e. get-apply_writes (get_contract_store_prefix addr) k writes m h ∙ e;
}

module _ (platform : Platform) (register : GasConfig) {P : Store → Type 0} where
  pub Keeps-after_machine :
      {A : Type 0}
      → (addr : Addr) (out : VmOutcome platform.Meter A) → IsForeign addr P
      → Keeps (OnKv platform P) (after_machine platform register addr out)
  Keeps-after_machine addr out foreign = record {
    at = λ c h. record { holds = foreign.stays out.writes c.kv h.holds };
  }

  pub Keeps-call_vm :
      (call : VmCall) (checksum : Text) (addr : Addr)
      → IsForeign addr P
      → Keeps (OnKv platform P) (call_vm platform register call checksum addr)
  unfolding call_vm
  Keeps-call_vm call checksum addr foreign =
      search
        (
          kv_rules, Keeps-new_env, Keeps-runtime_gas_for_contract, Keeps-consume_runtime_gas,
          Keeps-after_machine, foreign,
        )
        depth 14
