-- ===== src/TokenFactory/Bindings/Shortcuts.antt =====
-- Where a contract's message differs from the account's message that it stands for
-- (x/tokenfactory/bindings/message_plugin.go).
use bignftd.Base.{
  Text, ◌≡◌, refl, true, false, List, [], text_eq, text_eq_iff, Option-cases, Bool-cases, ◌⊎◌, Bool,
  ap, inl, inr, sym,
}
use bignftd.Chain.Outcome.{Result, ok, err}
use bignftd.Chain.Store.{get}
use bignftd.Chain.Sdk.{Sdk, Addr, Error}
use bignftd.TokenFactory.State.{State, is_capability_enabled}
use bignftd.TokenFactory.Keeper.{get_authority_metadata, or_empty, authority_key}
use bignftd.TokenFactory.MsgServer.{require_admin, handle_set_denom_metadata}
use bignftd.TokenFactory.Bindings.{
  WasmMetadata, wasm_metadata_to_sdk, fill_base, perform_set_metadata,
}

module _ (sdk : Sdk) where
  -- Both calls succeed, with the same store and the same chain, but for the events; or none does, and
  -- both leave the state as it was.
  abbrev pub AgreesWith :
      State sdk → Result Error Unit × State sdk → Result Error Unit × State sdk → Type 0
  AgreesWith s (ok a, t) (ok b, u) = (t.kv ≡ u.kv) × (t.world ≡ u.world)
  AgreesWith s (err e, t) (err f, u) = (t ≡ s) × (u ≡ s)
  AgreesWith s _ _ = ⊥

  -- The metadata of a denom
  abbrev pub named : Text → WasmMetadata → WasmMetadata
  named denom m = record m { base = denom }

  fill_base-named :
      (denom : Text) (m : WasmMetadata) (s : State sdk)
      → (m.base ≡ []) ⊎ (m.base ≡ denom)
      → fill_base sdk [] denom m s ≡ (ok (named denom m), s)
  fill_base-named denom m s (inl e) = rw ((text_eq_iff m.base []).1 e) refl
  fill_base-named denom m s (inr e) = elim (Bool-cases (text_eq m.base [])) [
    | inl same ↦ rw same refl
    | inr other ↦
        rw (other, (text_eq_iff m.base denom).1 e)
          (ap (λ (b : Text). (ok (record m { base = b }), s)) e)
  ]

  text_eq-swap : (t u : Text) (b : Bool) → text_eq t u ≡ b → text_eq u t ≡ b
  text_eq-swap t u true e = (text_eq_iff u t).1 (sym ((text_eq_iff t u).0 e))
  text_eq-swap t u false e = elim (Bool-cases (text_eq u t)) [
    | inl same ↦ let back = (text_eq_iff t u).1 (sym ((text_eq_iff u t).0 same)) in cc
    | inr other ↦ other
  ]

  -- A contract sets metadata exactly where an account with its address could do so if no capability
  -- were missing, whatever capabilities there are: for metadata that name the denom or no denom,
  -- `PerformSetMetadata` and the message server with all capabilities succeed for the same states
  -- and metadata, and leave the same store and the same chain; their events are not compared.
  pub perform_set_metadata-AgreesWith :
      (capabilities : List Text) (contract : Addr) (denom : Text) (m : WasmMetadata) (s : State sdk)
      → (m.base ≡ []) ⊎ (m.base ≡ denom)
      → AgreesWith s (perform_set_metadata sdk capabilities contract denom m s) (
          handle_set_denom_metadata sdk []
            (record {
              sender = sdk.to_bech32 contract;
              metadata = wasm_metadata_to_sdk (named denom m);
            })
            s)
  unfolding perform_set_metadata handle_set_denom_metadata require_admin get_authority_metadata
      is_capability_enabled
  perform_set_metadata-AgreesWith capabilities contract denom m s fits =
      let sender = sdk.to_bech32 contract in
      elim (Bool-cases (sdk.is_valid_metadata (wasm_metadata_to_sdk (named denom m)))) [
        | inl valid ↦
            elim (Option-cases (sdk.decode_admin (or_empty (get (authority_key denom) s.kv)))) [
              | inl e ↦ rw (valid, e) (refl, refl)
              | inr (admin, e) ↦ elim (Bool-cases (text_eq admin sender)) [
                | inl same ↦
                    rw
                      (
                        valid,
                        e,
                        same,
                        text_eq-swap admin sender true same,
                        fill_base-named denom m s fits,
                        valid,
                      )
                      (refl, refl)
                | inr other ↦
                    rw (valid, e, other, text_eq-swap admin sender false other) (refl, refl)
              ]
            ]
        | inr invalid_ ↦
            elim (Option-cases (sdk.decode_admin (or_empty (get (authority_key denom) s.kv)))) [
              | inl e ↦ rw (invalid_, e) (refl, refl)
              | inr (admin, e) ↦ elim (Bool-cases (text_eq admin sender)) [
                | inl same ↦
                    rw (invalid_, e, same, fill_base-named denom m s fits, invalid_) (refl, refl)
                | inr other ↦ rw (invalid_, e, other) (refl, refl)
              ]
            ]
      ]
