-- ===== src/TokenFactory/Bindings/Dispatch.antt =====
-- `CustomMessenger.DispatchMsg` (x/tokenfactory/bindings/message_plugin.go).
use bignftd.Base.{Text, Option, none, some, List, [], ◌∷◌}
use bignftd.Chain.Outcome.{◌>>=◌, ◌>>◌, pure, raise, lift, or_raise}
use bignftd.Chain.Sdk.{Sdk, Reply, Addr, malformed, unknown_request}
use bignftd.TokenFactory.State.{Event, Action}
use bignftd.TokenFactory.Bindings.{
  TokenMsg, CreateDenom, MintTokens, ChangeAdmin, BurnTokens, ForceTransfer, SetMetadata,
  perform_create_denom, perform_mint, perform_change_admin, perform_burn, perform_set_metadata,
  perform_force_transfer,
}

-- The events, the data and the responses of a message that was dispatched.
pub record Dispatched : Type 0 where
  pub events : List Event
  pub response_data : List Text
  pub msg_responses : List (List Text)

abbrev pub no_data : Dispatched
no_data = record { events = []; response_data = []; msg_responses = [] }

-- Messages of the VM have a custom part or none; `parse` reads its JSON, `marshal` encodes the
-- response to a new denom, and `wrapped` is the messenger that takes all other messages.
module _ (sdk : Sdk) (capabilities : List Text) {Msg : Type 0} (custom : Msg → Option Text)
    (parse : Text → Option (Option TokenMsg)) (marshal : Text → Reply Text)
    (wrapped : Addr → Text → Msg → Action sdk Dispatched) where
  -- `createDenom`
  abbrev pub dispatch_create_denom : Addr → CreateDenom → Action sdk Dispatched
  dispatch_create_denom contract c = do
    denom ← perform_create_denom sdk capabilities contract (some c)
    bz ← lift (marshal denom)
    pure (record { events = []; response_data = bz ∷ []; msg_responses = [] })

  -- `mintTokens`
  abbrev pub dispatch_mint_tokens : Addr → MintTokens → Action sdk Dispatched
  dispatch_mint_tokens contract m = do perform_mint sdk capabilities contract (some m); pure no_data

  -- `changeAdmin`
  abbrev pub dispatch_change_admin : Addr → ChangeAdmin → Action sdk Dispatched
  dispatch_change_admin contract c = do
    perform_change_admin sdk capabilities contract (some c)
    pure no_data

  -- `burnTokens`
  abbrev pub dispatch_burn_tokens : Addr → BurnTokens → Action sdk Dispatched
  dispatch_burn_tokens contract b = do perform_burn sdk capabilities contract (some b); pure no_data

  -- `setMetadata`
  abbrev pub dispatch_set_metadata : Addr → SetMetadata → Action sdk Dispatched
  dispatch_set_metadata contract m = do
    perform_set_metadata sdk capabilities contract m.denom m.metadata
    pure no_data

  -- `forceTransfer`
  abbrev pub dispatch_force_transfer : Addr → ForceTransfer → Action sdk Dispatched
  dispatch_force_transfer contract f = do
    perform_force_transfer sdk capabilities contract (some f)
    pure no_data

  -- The fields in the order in which they are looked at; the first that is there is performed.
  unfoldable pub dispatch_token : Addr → TokenMsg → Action sdk Dispatched → Action sdk Dispatched
  dispatch_token contract t otherwise = elim t.create_denom [
    | some c ↦ dispatch_create_denom contract c
    | none ↦ elim t.mint_tokens [
      | some m ↦ dispatch_mint_tokens contract m
      | none ↦ elim t.change_admin [
        | some c ↦ dispatch_change_admin contract c
        | none ↦ elim t.burn_tokens [
          | some b ↦ dispatch_burn_tokens contract b
          | none ↦ elim t.set_metadata [
            | some m ↦ dispatch_set_metadata contract m
            | none ↦ elim t.force_transfer [
              | some f ↦ dispatch_force_transfer contract f
              | none ↦ otherwise
            ]
          ]
        ]
      ]
    ]
  ]

  abbrev require_token : Option TokenMsg → Action sdk TokenMsg
  require_token none = raise unknown_request
  require_token (some t) = pure t

  -- `DispatchMsg`
  unfoldable pub dispatch_msg : Addr → Text → Msg → Action sdk Dispatched
  dispatch_msg contract port msg = elim (custom msg) [
    | none ↦ wrapped contract port msg
    | some bz ↦ do
      parsed ← or_raise (parse bz) malformed
      token ← require_token parsed
      dispatch_token contract token (wrapped contract port msg)
  ]
