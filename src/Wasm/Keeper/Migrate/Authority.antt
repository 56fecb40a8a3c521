-- ===== src/Wasm/Keeper/Migrate/Authority.antt =====
-- A contract is changed only by those whom the policy lets change it (x/wasm/keeper/keeper.go).
use bignftd.Base.{ℕ, ◌≡◌, refl, Text, false, Option, List}
use bignftd.Chain.Outcome.{ok, err}
use bignftd.Chain.Sdk.{Addr}
use bignftd.Wasm.Gas.{GasConfig}
use bignftd.Wasm.Policy.{Policy, can_modify_contract}
use bignftd.Wasm.Contract.{ContractInfo, admin_addr}
use bignftd.Wasm.Keeper.Platform.{Platform, Context, Action, unauthorized}
use bignftd.Wasm.Keeper.Laws.{CodecLaws}
use bignftd.Wasm.Keeper.Contracts.{set_contract_admin, set_contract_label}
use bignftd.Wasm.Keeper.Contracts.Admin.{
  IsStored, get_contract_info-IsStored, require_modifier_lem, set_contract_admin-refused,
  set_contract_label-refused,
}
use bignftd.Wasm.Keeper.Migrate.{migrate}

module _ (platform : Platform) (register : GasConfig)
    (handle : Addr → Text → List platform.Msg → Option Text → Action platform (Option Text)) where
  -- A caller whom the policy does not let modify a stored contract gets the error that it is not
  -- authorized from `migrate`, `setContractAdmin` and `setContractLabel`, to any code and with any
  -- message, admin or label, and nothing is changed: no gas, no event and no write, and the machine is
  -- not called.
  pub modify-unauthorized :
      CodecLaws platform
      → (addr : Addr) (info : ContractInfo) (c : Context platform) (seat : Option Addr) (x : Addr)
        (policy : Policy)
      → IsStored platform addr info c
      → admin_addr platform.texts info ≡ ok seat
      → can_modify_contract policy seat x ≡ false
      → (new_code_id : ℕ) (msg : Text) (later : Addr) (label : Text)
      → (migrate platform register handle addr x new_code_id msg policy c ≡ (err unauthorized, c))
        × (set_contract_admin platform addr x later policy c ≡ (err unauthorized, c))
        × (set_contract_label platform addr x label policy c ≡ (err unauthorized, c))
  unfolding migrate
  modify-unauthorized laws addr info c seat x policy stored seated no_ new_code_id msg later label =
      (
        rw
            (
              get_contract_info-IsStored platform laws addr info c stored,
              require_modifier_lem platform info x policy seat c seated,
              no_,
            )
            refl,
        set_contract_admin-refused platform laws addr info c stored seat seated x policy no_ later,
        set_contract_label-refused platform laws addr info c stored seat seated x policy no_ label,
      )
