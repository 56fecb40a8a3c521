-- ===== src/Wasm/Events/Reserved.antt =====
-- No contract can emit an event in another contract's name (x/wasm/keeper/events.go).
use bignftd.Base.{
  Text, ◌≡◌, refl, Bool, true, false, not, List, [], ◌∷◌, ◌++◌, length, ◌==◌, ltb, All, arith,
}
use bignftd.Chain.Checks.{Ensures, Ensures-bind, Ensures-require}
use bignftd.Wasm.Gas.{Attribute, WasmEvent}
use bignftd.Wasm.Dispatcher.{Event}
use bignftd.Wasm.Events.{
  attribute_key_contract_addr, is_reserved, custom_attributes, contract_sdk_event_attributes,
  new_wasm_module_event, new_custom_events, wasm_module_event_type, event_type_min_length,
}

abbrev pub IsPlain : Text × Text → Type 0
IsPlain a = is_reserved a.0 ≡ false

-- The attributes start with the address of the contract, and no other key is reserved.
abbrev pub IsSigned : Text → List (Text × Text) → Type 0
IsSigned contract [] = ⊥
IsSigned contract (a ∷ attrs) = (a ≡ (attribute_key_contract_addr, contract)) × All IsPlain attrs

not_reserved : (b : Bool) → not b ≡ true → b ≡ false
not_reserved b h = ground arith

module _ (trim_space : Text → Text) where
  custom_attributes-IsPlain :
      (attrs : List Attribute) → Ensures (All IsPlain) (custom_attributes trim_space attrs)
  unfolding custom_attributes
  custom_attributes-IsPlain [] = tt
  custom_attributes-IsPlain (a ∷ attrs) =
      Ensures-require (All IsPlain) (not (length (trim_space a.key) == 0)) _ _ (λ _.
        Ensures-require (All IsPlain) (not (is_reserved (trim_space a.key))) _ _ (λ free.
          Ensures-bind (All IsPlain) (All IsPlain) (custom_attributes trim_space attrs) _
            (custom_attributes-IsPlain attrs)
            (λ rest plain. (not_reserved (is_reserved (trim_space a.key)) free, plain))))

  contract_sdk_event_attributes-IsSigned :
      (attrs : List Attribute) (contract : Text)
      → Ensures (IsSigned contract) (contract_sdk_event_attributes trim_space attrs contract)
  unfolding contract_sdk_event_attributes
  contract_sdk_event_attributes-IsSigned attrs contract =
      Ensures-bind (All IsPlain) (IsSigned contract) (custom_attributes trim_space attrs) _
        (custom_attributes-IsPlain attrs) (λ rest plain. (refl, plain))

  -- An event of the contract: signed by it, and of a kind that starts with "wasm".
  pub record IsOwn (contract : Text) (e : Event) : Type 0 where
    pub signed : IsSigned contract e.attributes
    pub kind_is_wasm : (rest : Text) × (e.kind ≡ wasm_module_event_type ++ rest)

  new_wasm_module_event-IsOwn :
      (attrs : List Attribute) (contract : Text)
      → Ensures (All (IsOwn contract)) (new_wasm_module_event trim_space attrs contract)
  unfolding new_wasm_module_event
  new_wasm_module_event-IsOwn attrs contract =
      Ensures-bind (IsSigned contract) (All (IsOwn contract))
        (contract_sdk_event_attributes trim_space attrs contract) _
        (contract_sdk_event_attributes-IsSigned attrs contract)
        (λ attributes h. (record { signed = h; kind_is_wasm = ([], refl) }, tt))

  new_custom_events-IsOwn :
      (events : List WasmEvent) (contract : Text)
      → Ensures (All (IsOwn contract)) (new_custom_events trim_space events contract)
  unfolding new_custom_events
  new_custom_events-IsOwn [] contract = tt
  new_custom_events-IsOwn (e ∷ events) contract =
      Ensures-require (All (IsOwn contract))
        (ltb event_type_min_length (length (trim_space e.kind))) _ _
        (λ _.
          Ensures-bind (IsSigned contract) (All (IsOwn contract))
            (contract_sdk_event_attributes trim_space e.attributes contract) _
            (contract_sdk_event_attributes-IsSigned e.attributes contract)
            (λ attributes h.
              Ensures-bind (All (IsOwn contract)) (All (IsOwn contract))
                (new_custom_events trim_space events contract) _
                (new_custom_events-IsOwn events contract)
                (λ rest all.
                  (record { signed = h; kind_is_wasm = (b'-' ∷ trim_space e.kind, refl) }, all))))

  -- Whatever a contract returns as custom attributes and events, each event that is made of it
  -- starts with the address of that contract, has no other attribute of a reserved key, and is of
  -- a kind that starts with "wasm".
  pub contract_events-IsOwn :
      (attrs : List Attribute) (events : List WasmEvent) (contract : Text)
      → Ensures (All (IsOwn contract)) (new_wasm_module_event trim_space attrs contract)
        × Ensures (All (IsOwn contract)) (new_custom_events trim_space events contract)
  contract_events-IsOwn attrs events contract =
      (new_wasm_module_event-IsOwn attrs contract, new_custom_events-IsOwn events contract)
