-- ===== src/TokenFactory/Handle/Effect.antt =====
-- What the coin messages leave alone: the module's own store.
use bignftd.Base.{ℕ, Text, ◌≡◌, List, Option, none, some, [], ◌∷◌}
use bignftd.Chain.Outcome.{modify}
use bignftd.Chain.Keeps.{Keeps, keeps_rules}
use bignftd.Chain.Store.{Store}
use bignftd.Chain.Sdk.{Sdk, Addr, Coin, Coins, Error, Metadata}
use bignftd.TokenFactory.State.{State, Event, call, emit}
use bignftd.TokenFactory.Keeper.{get_authority_metadata, mint_to, burn_from, force_transfer}
use bignftd.TokenFactory.Messages.{MsgMint, MsgBurn, MsgForceTransfer, MsgSetDenomMetadata}
use bignftd.TokenFactory.MsgServer.{
  require_admin, require_metadata, require_burn_from, handle_mint, handle_burn,
  handle_force_transfer, handle_set_denom_metadata,
}

module _ (sdk : Sdk) where
  -- What the SDK's coin operations, and an event more, leave true.
  pub record IsStable (P : State sdk → Type 0) : Type 0 where
    pub mint : (m : Text) (c : Coins) → Keeps P (call sdk (sdk.mint_coins m c))
    pub burn : (m : Text) (c : Coins) → Keeps P (call sdk (sdk.burn_coins m c))
    pub send : (a b : Addr) (c : Coins) → Keeps P (call sdk (sdk.send_coins a b c))
    pub send_from :
        (m : Text) (a : Addr) (c : Coins) → Keeps P (call sdk (sdk.send_from_module m a c))
    pub send_to : (m : Text) (a : Addr) (c : Coins) → Keeps P (call sdk (sdk.send_to_module a m c))
    pub fund : (a : Addr) (c : Coins) → Keeps P (call sdk (sdk.fund_community_pool c a))
    pub gas : (g : ℕ) → Keeps P (call sdk (sdk.consume_gas g))
    pub event : (e : Event) → Keeps P (emit sdk e)
    pub describe :
        (m : Metadata)
        → Keeps {E = Error} P (modify (λ s. record s { world = sdk.set_denom_metadata m s.world }))

  -- The store of the module is as it was in `s`.
  abbrev pub SameStore : Store → State sdk → Type 0
  SameStore kv s = s.kv ≡ kv

  pub SameStore-stable : (kv : Store) → IsStable (SameStore kv)
  SameStore-stable kv = record {
    mint = λ m c. record { at = λ s h. h };
    burn = λ m c. record { at = λ s h. h };
    send = λ a b c. record { at = λ s h. h };
    send_from = λ m a c. record { at = λ s h. h };
    send_to = λ m a c. record { at = λ s h. h };
    fund = λ a c. record { at = λ s h. h };
    gas = λ g. record { at = λ s h. h };
    event = λ e. record { at = λ s h. h };
    describe = λ m. record { at = λ s h. h };
  }

module _ (sdk : Sdk) (capabilities : List Text) where
  module _ {P : State sdk → Type 0} where
    pub Keeps-get_authority_metadata : (d : Text) → Keeps P (get_authority_metadata sdk d)
    unfolding get_authority_metadata
    Keeps-get_authority_metadata d = search keeps_rules

    pub Keeps-require_admin : (sender d : Text) → Keeps P (require_admin sdk capabilities sender d)
    unfolding require_admin
    Keeps-require_admin sender d = search (keeps_rules, Keeps-get_authority_metadata)

  module _ {P : State sdk → Type 0} (stable : IsStable sdk P) where
    Keeps-mint_to : (c : Coin) (to : Text) → Keeps P (mint_to sdk c to)
    unfolding mint_to
    Keeps-mint_to c to = search (keeps_rules, stable.mint, stable.send_from) depth 20

    Keeps-burn_from : (c : Coin) (from : Text) → Keeps P (burn_from sdk c from)
    unfolding burn_from
    Keeps-burn_from c from = search (keeps_rules, stable.burn, stable.send_to) depth 20

    Keeps-force_transfer : (c : Coin) (from to : Text) → Keeps P (force_transfer sdk c from to)
    unfolding force_transfer
    Keeps-force_transfer c from to = search (keeps_rules, stable.send) depth 20

    Keeps-require_metadata : (o : Option Metadata) → Keeps P (require_metadata sdk capabilities o)
    Keeps-require_metadata none = search keeps_rules
    Keeps-require_metadata (some m) = search keeps_rules

    Keeps-require_burn_from : (t : Text) → Keeps P (require_burn_from sdk capabilities t)
    Keeps-require_burn_from [] = search keeps_rules
    Keeps-require_burn_from (c ∷ t) = search keeps_rules

    pub Keeps-handle_mint : (m : MsgMint) → Keeps P (handle_mint sdk capabilities m)
    unfolding handle_mint
    Keeps-handle_mint m =
        search
          (keeps_rules, Keeps-require_metadata, Keeps-require_admin, Keeps-mint_to, stable.event)
          depth 20

    pub Keeps-handle_burn : (m : MsgBurn) → Keeps P (handle_burn sdk capabilities m)
    unfolding handle_burn
    Keeps-handle_burn m =
        search
          (keeps_rules, Keeps-require_burn_from, Keeps-require_admin, Keeps-burn_from, stable.event)
          depth 20

    pub Keeps-handle_force_transfer :
        (m : MsgForceTransfer) → Keeps P (handle_force_transfer sdk capabilities m)
    unfolding handle_force_transfer
    Keeps-handle_force_transfer m =
        search (keeps_rules, Keeps-require_admin, Keeps-force_transfer, stable.event) depth 20

    pub Keeps-handle_set_denom_metadata :
        (m : MsgSetDenomMetadata) → Keeps P (handle_set_denom_metadata sdk capabilities m)
    unfolding handle_set_denom_metadata
    Keeps-handle_set_denom_metadata m =
        search (keeps_rules, Keeps-require_admin, stable.event, stable.describe) depth 20
