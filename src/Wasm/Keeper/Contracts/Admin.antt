-- ===== src/Wasm/Keeper/Contracts/Admin.antt =====
-- Who may change a contract after its admin was replaced (x/wasm/keeper/keeper.go).
use bignftd.Base.{
  ◌≡◌, refl, ap, Text, true, false, Bool-cases, inl, inr, Option, some, if◌then◌else◌,
}
use bignftd.Chain.Outcome.{Result, ok, err, ◌>>◌}
use bignftd.Chain.Lands.{Lands, LandsAt-ok, Lands-bind}
use bignftd.Chain.Store.{get, get-set_self}
use bignftd.Chain.Sdk.{Addr}
use bignftd.Wasm.Policy.{Policy, can_modify_contract}
use bignftd.Wasm.Dispatcher.{Event}
use bignftd.Wasm.Keys.{get_contract_address_key}
use bignftd.Wasm.Contract.{ContractInfo, admin_addr}
use bignftd.Wasm.Keeper.Platform.{Platform, Context, KeeperError, unauthorized, emit_event}
use bignftd.Wasm.Keeper.Laws.{CodecLaws}
use bignftd.Wasm.Keeper.Contracts.{
  get_contract_info, must_store_contract_info, require_modifier, set_contract_admin,
  set_contract_label,
}

module _ (platform : Platform) where
  -- The data of a contract in the store.
  abbrev pub IsStored : Addr → ContractInfo → Context platform → Type 0
  IsStored addr info c =
      get (get_contract_address_key addr) c.kv ≡ some (platform.encode_contract info)

  -- A contract with that admin is stored.
  abbrev pub HasAdmin : Addr → Text → Context platform → Type 0
  HasAdmin addr admin c = (info : ContractInfo) × IsStored addr (record info { admin = admin }) c

  pub get_contract_info-IsStored :
      CodecLaws platform
      → (addr : Addr) (info : ContractInfo) (c : Context platform) → IsStored addr info c
      → get_contract_info platform addr c ≡ (ok (some info), c)
  unfolding get_contract_info
  get_contract_info-IsStored laws addr info c stored =
      rw (stored, laws.decode-encode_contract info) refl

  pub require_modifier_lem :
      (info : ContractInfo) (caller : Addr) (policy : Policy) (seat : Option Addr)
      (c : Context platform)
      → admin_addr platform.texts info ≡ ok seat
      → require_modifier platform info caller policy c
        ≡ (if can_modify_contract policy seat caller then (ok tt, c) else (err unauthorized, c))
  unfolding require_modifier
  require_modifier_lem info caller policy seat c e =
      elim (Bool-cases (can_modify_contract policy seat caller)) [
        | inl yes_ ↦ rw (e, yes_) refl
        | inr no_ ↦ rw (e, no_) refl
      ]

  HasAdmin-store :
      (addr : Addr) (info : ContractInfo) (admin : Text) (e : Event)
      → Lands (HasAdmin addr admin) (
          must_store_contract_info platform addr (record info { admin = admin })
          >> emit_event platform e)
  unfolding must_store_contract_info
  HasAdmin-store addr info admin e = record {
    at = λ c. (info, get-set_self (get_contract_address_key addr) _ c.kv);
  }

  pub set_contract_admin-HasAdmin :
      (addr caller new_admin : Addr) (policy : Policy)
      → Lands
          (HasAdmin addr (platform.texts.to_bech32 new_admin))
          (set_contract_admin platform addr caller new_admin policy)
  unfolding set_contract_admin
  set_contract_admin-HasAdmin addr caller new_admin policy = search (Lands-bind, HasAdmin-store)

  -- How a change of a stored contract ends, if its admin is `seat`.
  module _ (laws : CodecLaws platform) (addr : Addr) (info : ContractInfo) (c : Context platform)
      (stored : IsStored addr info c) (seat : Option Addr)
      (seated : admin_addr platform.texts info ≡ ok seat) (x : Addr) (policy : Policy) where
    pub set_contract_admin-refused :
        can_modify_contract policy seat x ≡ false
        → (later : Addr) → set_contract_admin platform addr x later policy c ≡ (err unauthorized, c)
    unfolding set_contract_admin
    set_contract_admin-refused no_ later =
        rw
          (
            get_contract_info-IsStored laws addr info c stored,
            require_modifier_lem info x policy seat c seated,
            no_,
          )
          refl

    pub set_contract_label-refused :
        can_modify_contract policy seat x ≡ false
        → (label : Text) → set_contract_label platform addr x label policy c ≡ (err unauthorized, c)
    unfolding set_contract_label
    set_contract_label-refused no_ label =
        rw
          (
            get_contract_info-IsStored laws addr info c stored,
            require_modifier_lem info x policy seat c seated,
            no_,
          )
          refl

    pub set_contract_admin-allowed :
        can_modify_contract policy seat x ≡ true
        → (later : Addr) → (set_contract_admin platform addr x later policy c).0 ≡ ok tt
    unfolding set_contract_admin must_store_contract_info
    set_contract_admin-allowed yes_ later =
        rw
          (
            get_contract_info-IsStored laws addr info c stored,
            require_modifier_lem info x policy seat c seated,
            yes_,
          )
          refl

    pub set_contract_label-allowed :
        can_modify_contract policy seat x ≡ true
        → (label : Text) → (set_contract_label platform addr x label policy c).0 ≡ ok tt
    unfolding set_contract_label must_store_contract_info
    set_contract_label-allowed yes_ label =
        rw
          (
            get_contract_info-IsStored laws addr info c stored,
            require_modifier_lem info x policy seat c seated,
            yes_,
          )
          refl

  -- After `setContractAdmin` has succeeded, whoever asked for it, the next change is decided by the
  -- new admin alone, `seat` (none where the admin was cleared): `setContractAdmin` and
  -- `setContractLabel` of any caller succeed where the policy lets `seat`'s contract be modified by
  -- the caller, and otherwise return the error that the caller is not authorized.
  pub set_contract_admin-handover :
      CodecLaws platform
      → (addr caller new_admin : Addr) (policy : Policy) (seat : Option Addr)
        (c c' : Context platform)
      → ((info : ContractInfo)
          → admin_addr platform.texts (record info { admin = platform.texts.to_bech32 new_admin })
            ≡ ok seat)
      → set_contract_admin platform addr caller new_admin policy c ≡ (ok tt, c')
      → (x later : Addr) (label : Text) (next : Policy)
      → ((set_contract_admin platform addr x later next c').0
          ≡ (if can_modify_contract next seat x then ok tt else err unauthorized))
        × ((set_contract_label platform addr x label next c').0
            ≡ (if can_modify_contract next seat x then ok tt else err unauthorized))
  set_contract_admin-handover laws addr caller new_admin policy seat c c' seated done x later label
        next =
      let (info, stored) =
        LandsAt-ok (HasAdmin addr (platform.texts.to_bech32 new_admin)) _ tt c' done
          ((set_contract_admin-HasAdmin addr caller new_admin policy).at c) in
      let info' = record info { admin = platform.texts.to_bech32 new_admin } in
      elim (Bool-cases (can_modify_contract next seat x)) [
        | inl yes_ ↦ rw yes_ (
          set_contract_admin-allowed laws addr info' c' stored seat (seated info) x next yes_ later,
          set_contract_label-allowed laws addr info' c' stored seat (seated info) x next yes_ label,
        )
        | inr no_ ↦ rw no_ (
          ap (λ (r : Result KeeperError Unit × Context platform). r.0)
              (set_contract_admin-refused laws addr info' c' stored seat (seated info) x next no_
                later),
          ap (λ (r : Result KeeperError Unit × Context platform). r.0)
              (set_contract_label-refused laws addr info' c' stored seat (seated info) x next no_
                label),
        )
      ]
